-- ===== src/Scheduler/Tasks/Leave.antt =====
-- What the last release of the scheduler's lock does for a task that gave the processor up.
use xyris.Base.{
  ℕ, ◌+◌, ◌/◌, ◌≡◌, ◌≢◌, refl, sym, subst, ap, ◌∙◌, true, false, some, List, ◌∷◌, arith, ◌==◌,
}
use xyris.Base.Maybe.{◌>>=◌}
use xyris.Scheduler.Task.{
  Ptr, null, Task, running, Store, write, is_running, set_state, set_time, set_next, add_u64,
  sub_u64, TaskState,
}
use xyris.Scheduler.TaskList.{Linked, dequeue_task}
use xyris.Base.Pointers.{Outside}
use xyris.Scheduler.TaskList.Chain.{Holds}
use xyris.Scheduler.TaskList.Queue.{dequeue_task-Holds}
use xyris.Scheduler.Tasks.{
  Sched, time_slice_size, dequeue_ready, leave_lock, switch_to, get_cpu_time_ns, update_time,
  start_slice, release_scheduler_lock,
}
use xyris.Scheduler.Tasks.Switch.{Holds-write, release-postponed, schedule-next}

-- From `s`, in which the current task does not run any more, `x` was switched to: `xs` stay ready, and
-- of the other tasks neither state nor link changed.
pub record Leaves (s t : Sched) (x : Ptr) (xs : List Ptr) : Type 0 where
  pub current : t.current_task ≡ x
  pub runs : (t.store x).state ≡ running
  pub queue : Holds (t.store, t.tasks_ready) xs
  pub states : (a : Ptr) → a ≢ x → (t.store a).state ≡ (s.store a).state
  pub links : (a : Ptr) → a ≢ x → (t.store a).next ≡ (s.store a).next
  pub stopped : t.tasks_stopped ≡ s.tasks_stopped
  pub slice : t.time_slice_remaining ≡ time_slice_size
  pub lock : t.scheduler_lock ≡ 0
  pub postponing : t.scheduler_postpone_count ≡ 0
  pub enabled : t.interrupts ≡ true

switch_to-left :
    (x : Ptr) (s : Sched)
    → is_running (s.store s.current_task).state ≡ false
    → switch_to x s ≡ record s { current_task = x; store = set_state s.store x running }
unfolding switch_to
switch_to-left x s e = rw e refl

-- A write to one field leaves the others.
set_time-state : (m : Store) (p : Ptr) (u : ℕ) (a : Ptr) → (set_time m p u a).state ≡ (m a).state
unfolding write
set_time-state m p u a = ground arith

set_time-next : (m : Store) (p : Ptr) (u : ℕ) (a : Ptr) → (set_time m p u a).next ≡ (m a).next
unfolding write
set_time-next m p u a = ground arith

set_next-state : (m : Store) (p q a : Ptr) → (set_next m p q a).state ≡ (m a).state
unfolding write
set_next-state m p q a = ground arith

set_next-other : (m : Store) (p q a : Ptr) → a ≢ p → (set_next m p q a).next ≡ (m a).next
unfolding write
set_next-other m p q a ne = ground arith

set_state-here : (m : Store) (p : Ptr) (st : TaskState) → (set_state m p st p).state ≡ st
unfolding write
set_state-here m p st = ground arith

set_state-other : (m : Store) (p a : Ptr) (st : TaskState) → a ≢ p → set_state m p st a ≡ m a
unfolding write
set_state-other m p a st ne = ground arith

module _ (clock : ℕ → ℕ) (s : Sched) (x : Ptr) (xs : List Ptr) (idle : s.current_task ≢ null)
    (gone : is_running (s.store s.current_task).state ≡ false)
    (h : Holds (s.store, s.tasks_ready) (x ∷ xs)) (out : Outside s.current_task (x ∷ xs))
    (once : s.scheduler_lock ≡ 1) where
  abbrev freed : Sched
  freed = record s { scheduler_postpone_count = 0; scheduler_postponed = false }

  abbrev pub left : Sched
  left = leave_lock (start_slice clock x (update_time clock (dequeue_ready freed).1))

  abbrev taken : Linked
  taken = (dequeue_task (s.store, s.tasks_ready)).1

  -- The time of the caller, and the state that `tasks_switch_to` is called in.
  abbrev spent : ℕ
  unfolding get_cpu_time_ns
  spent =
      add_u64 (taken.0 s.current_task).time_used (sub_u64 (get_cpu_time_ns clock s).0 s.last_time)

  abbrev sliced : Sched
  unfolding get_cpu_time_ns
  sliced = record freed {
    store = set_time taken.0 s.current_task spent;
    tasks_ready = taken.1;
    last_time = (get_cpu_time_ns clock s).0;
    time_slice_remaining = time_slice_size;
    last_timer_time = clock (s.reads + 1) / s.instr_per_ns;
    reads = s.reads + 1 + 1;
  }

  sliced-gone : is_running (sliced.store s.current_task).state ≡ false
  unfolding sliced
  sliced-gone =
      ap is_running (
        set_time-state taken.0 s.current_task spent s.current_task
        ∙ ap (λ (m : Store). (m s.current_task).state) (dequeue_task-Holds h).2
        ∙ set_next-state s.store x null s.current_task)
      ∙ gone

  left-sliced :
      left
      ≡ leave_lock (record sliced { current_task = x; store = set_state sliced.store x running })
  unfolding start_slice get_cpu_time_ns update_time dequeue_ready sliced spent
  left-sliced =
      let cur : (s.current_task == null) ≡ false = ground arith in
      rw cur (ap leave_lock (switch_to-left x sliced sliced-gone))

  pub left-Leaves : Leaves s left x xs
  unfolding leave_lock sliced
  left-Leaves =
      let taken_from = (dequeue_task-Holds h).2 in
      let other : (a : Ptr) → a ≢ x → set_state sliced.store x running a ≡ sliced.store a =
        λ a ne. set_state-other sliced.store x a running ne in
      subst (λ t. Leaves s t x xs) (sym left-sliced)
        (record {
          current = refl;
          runs = set_state-here sliced.store x running;
          queue =
              Holds-write x _ h.chain.2
                (Holds-write s.current_task _ out.1 (dequeue_task-Holds h).1);
          states = λ a ne.
              ap (λ (t : Task). t.state) (other a ne)
              ∙ set_time-state taken.0 s.current_task spent a
              ∙ ap (λ (m : Store). (m a).state) taken_from
              ∙ set_next-state s.store x null a;
          links = λ a ne.
              ap (λ (t : Task). t.next) (other a ne)
              ∙ set_time-next taken.0 s.current_task spent a
              ∙ ap (λ (m : Store). (m a).next) taken_from
              ∙ set_next-other s.store x null a ne;
          stopped = refl;
          slice = refl;
          lock = omega (arith, once);
          postponing = refl;
          enabled = rw once refl;
        })

  -- The last release makes up for the postponed `_schedule`.
  pub release-left :
      (interrupt : ℕ → Sched → Sched) (n : ℕ)
      → s.scheduler_postpone_count ≡ 1
      → s.scheduler_postponed ≡ true
      → release_scheduler_lock clock interrupt n s ≡ some left
  release-left interrupt n count noted =
      release-postponed clock interrupt n s count noted
      ∙ ap (λ r. r >>= λ t. some (leave_lock t))
          (schedule-next clock interrupt n freed x xs refl idle h)
