-- ===== src/Scheduler/Tasks/Switch.antt =====
-- What `tasks_schedule` does: the first ready task runs, and the running one goes to the queue's end.
use xyris.Base.{
  ℕ, ◌≡◌, ◌≢◌, refl, sym, subst, ap, ◌∙◌, true, false, Option, some, List, [], ◌∷◌, ◌++◌, arith,
  ◌==◌, add_word,
}
use xyris.Base.Maybe.{◌>>=◌}
use xyris.Scheduler.Task.{
  Ptr, null, Task, running, ready, Store, write, set_state, set_time, TaskState,
}
use xyris.Scheduler.TaskList.{TaskList, Linked, enqueue_task, dequeue_task}
use xyris.Base.Pointers.{Outside, Outside-append}
use xyris.Scheduler.TaskList.Chain.{Holds, Chain-write}
use xyris.Scheduler.TaskList.Queue.{dequeue_task-Holds, enqueue_task-Holds}
use xyris.Scheduler.Tasks.{
  Sched, time_slice_size, enqueue_ready, dequeue_ready, acquire_scheduler_lock, leave_lock,
  switch_to, get_cpu_time_ns, update_time, start_slice, schedule, release_scheduler_lock,
  tasks_schedule,
}

-- A write at a task that is not queued leaves a queue.
pub Holds-write :
    {m : Store} {l : TaskList} {xs : List Ptr} (a : Ptr) (t : Task)
    → Outside a xs
    → Holds (m, l) xs
    → Holds (write m a t, l) xs
Holds-write {m} {l} {xs} a t out h = record {
  chain = Chain-write m null xs l.head a t out h.chain;
  tail = h.tail;
}

module _ (clock : ℕ → ℕ) (interrupt : ℕ → Sched → Sched) (n : ℕ) where
  -- Under a lock `_schedule` only leaves a note.
  pub schedule-locked :
      (s : Sched)
      → s.scheduler_postpone_count ≢ 0
      → schedule clock interrupt n s ≡ some (record s { scheduler_postponed = true })
  unfolding schedule
  schedule-locked s ne = let e : (s.scheduler_postpone_count == 0) ≡ false = ground arith in rw e

  -- The last release makes up for what was postponed.
  pub release-postponed :
      (s : Sched)
      → s.scheduler_postpone_count ≡ 1
      → s.scheduler_postponed ≡ true
      → release_scheduler_lock clock interrupt n s ≡ (
          schedule clock interrupt n
            (record s { scheduler_postpone_count = 0; scheduler_postponed = false })
          >>= λ t. some (leave_lock t))
  unfolding release_scheduler_lock
  release-postponed s e f = simp (e, f)

  pub schedule-next :
      (s : Sched) (x : Ptr) (xs : List Ptr)
      → s.scheduler_postpone_count ≡ 0
      → s.current_task ≢ null
      → Holds (s.store, s.tasks_ready) (x ∷ xs)
      → schedule clock interrupt n s
        ≡ some (start_slice clock x (update_time clock (dequeue_ready s).1))
  unfolding schedule dequeue_ready
  schedule-next s x xs e ne h =
      let cur : (s.current_task == null) ≡ false = ground arith in
      let some_task : (x == null) ≡ false = ground (arith, h.chain.1) in
      simp (e, cur, (dequeue_task-Holds h).0, some_task)

enqueue_task-state : (q : Linked) (t a : Ptr) → ((enqueue_task q t).0 a).state ≡ (q.0 a).state
unfolding enqueue_task write
enqueue_task-state (m, l) t a = ground arith

-- What `tasks_schedule` leaves when a task runs and `x`, then `xs`, are ready.
pub record Switched (s t : Sched) (x : Ptr) (xs : List Ptr) : Type 0 where
  pub current : t.current_task ≡ x
  pub runs : (t.store x).state ≡ running
  pub queue : Holds (t.store, t.tasks_ready) (xs ++ (s.current_task ∷ []))
  pub waits : (t.store s.current_task).state ≡ ready
  pub slice : t.time_slice_remaining ≡ time_slice_size
  pub lock : t.scheduler_lock ≡ 0
  pub postponing : t.scheduler_postpone_count ≡ 0
  pub enabled : t.interrupts ≡ true

set_time-state : (m : Store) (a : Ptr) (u : ℕ) → (set_time m a u a).state ≡ (m a).state
unfolding write
set_time-state m a u = ground arith

set_state-state : (m : Store) (a : Ptr) (st : TaskState) → (set_state m a st a).state ≡ st
unfolding write
set_state-state m a st = ground arith

set_state-other :
    (m : Store) (a b : Ptr) (st : TaskState) → b ≢ a → (set_state m a st b).state ≡ (m b).state
unfolding write
set_state-other m a b st ne = ground arith

-- A task runs, and it is in no place of the ready queue `xs`.
record Ready (xs : List Ptr) (s : Sched) : Type 0 where
  some_current : s.current_task ≢ null
  running_current : (s.store s.current_task).state ≡ running
  holds : Holds (s.store, s.tasks_ready) xs
  outside : Outside s.current_task xs

-- What `tasks_switch_to` does then.
record Went (x : Ptr) (xs : List Ptr) (s t : Sched) : Type 0 where
  current : t.current_task ≡ x
  runs : (t.store x).state ≡ running
  queue : Holds (t.store, t.tasks_ready) (xs ++ (s.current_task ∷ []))
  waits : (t.store s.current_task).state ≡ ready
  lock : t.scheduler_lock ≡ s.scheduler_lock
  postponing : t.scheduler_postpone_count ≡ s.scheduler_postpone_count
  slice : t.time_slice_remaining ≡ s.time_slice_remaining

switch_to-Went :
    (x : Ptr) (xs : List Ptr) (s : Sched)
    → Ready xs s
    → x ≢ s.current_task
    → Outside x xs
    → Went x xs s (switch_to x s)
unfolding switch_to enqueue_ready
switch_to-Went x xs s r ne out =
    let here : Ptr = s.current_task in
    let m : Store = set_state s.store here ready in
    let moved =
      enqueue_task-Holds here (Holds-write here _ r.outside r.holds) r.some_current r.outside in
    let q : Linked = enqueue_task (m, s.tasks_ready) here in
    rw r.running_current (record {
      current = refl;
      runs = set_state-state q.0 x running;
      queue = Holds-write x _ (Outside-append x xs (here ∷ []) out (ne, tt)) moved;
      waits =
          set_state-other q.0 x here running (λ e. ne (sym e))
          ∙ enqueue_task-state (m, s.tasks_ready) here here
          ∙ set_state-state s.store here ready;
      lock = refl;
      postponing = refl;
      slice = refl;
    })

module _ (clock : ℕ → ℕ) (s : Sched) (x : Ptr) (xs : List Ptr) (idle : s.current_task ≢ null)
    (run : (s.store s.current_task).state ≡ running) (h : Holds (s.store, s.tasks_ready) (x ∷ xs))
    (out : Outside s.current_task (x ∷ xs)) where
  -- The state in which the postponed `_schedule` is made up for.
  abbrev pub held : Sched
  held = record s {
    interrupts = false;
    scheduler_lock = 1;
    scheduler_postpone_count = 0;
    scheduler_postponed = false;
  }

  abbrev pub switched : Sched
  switched = leave_lock (start_slice clock x (update_time clock (dequeue_ready held).1))

  taken : Linked
  taken = (dequeue_task (s.store, s.tasks_ready)).1

  still_running : (taken.0 s.current_task).state ≡ running
  unfolding taken write
  still_running = rw (dequeue_task-Holds h).2 (ground (arith, out.0))

  abbrev timed : Sched
  timed = update_time clock (dequeue_ready held).1

  timed-Ready : Ready xs timed
  unfolding update_time get_cpu_time_ns dequeue_ready taken
  timed-Ready =
      let cur : (s.current_task == null) ≡ false = ground arith in
      rw cur (record {
        some_current = idle;
        running_current = set_time-state taken.0 s.current_task _ ∙ still_running;
        holds = Holds-write s.current_task _ out.1 (dequeue_task-Holds h).1;
        outside = out.1;
      })

  timed_current : timed.current_task ≡ s.current_task
  unfolding update_time get_cpu_time_ns dequeue_ready
  timed_current = let cur : (s.current_task == null) ≡ false = ground arith in rw cur refl

  timed_lock : (timed.scheduler_lock ≡ 1) × (timed.scheduler_postpone_count ≡ 0)
  unfolding update_time get_cpu_time_ns dequeue_ready
  timed_lock = let cur : (s.current_task == null) ≡ false = ground arith in rw cur (refl, refl)

  -- The state that `tasks_switch_to` is called in.
  abbrev sliced : Sched
  sliced = record (get_cpu_time_ns clock timed).1 {
    time_slice_remaining = time_slice_size;
    last_timer_time = (get_cpu_time_ns clock timed).0;
  }

  sliced-Went : Went x xs sliced (switch_to x sliced)
  unfolding get_cpu_time_ns
  sliced-Went =
      let r = timed-Ready in
      switch_to-Went x xs sliced
        (record {
          some_current = r.some_current;
          running_current = r.running_current;
          holds = r.holds;
          outside = r.outside;
        })
        (λ e. out.0 (sym (e ∙ timed_current))) h.chain.2

  pub switched-Switched : Switched s switched x xs
  unfolding leave_lock start_slice get_cpu_time_ns
  switched-Switched =
      let w = sliced-Went in
      let last : (switch_to x sliced).scheduler_lock ≡ 1 = w.lock ∙ timed_lock.0 in
      record {
        current = w.current;
        runs = w.runs;
        queue =
            subst (λ c. Holds (switched.store, switched.tasks_ready) (xs ++ (c ∷ []))) timed_current
              w.queue;
        waits = subst (λ c. (switched.store c).state ≡ ready) timed_current w.waits;
        slice = w.slice;
        lock = omega arith;
        postponing = w.postponing ∙ timed_lock.1;
        enabled = rw last refl;
      }

pub acquire-free :
    (s : Sched)
    → s.scheduler_lock ≡ 0
    → s.scheduler_postpone_count ≡ 0
    → acquire_scheduler_lock s
      ≡ record s { interrupts = false; scheduler_lock = 1; scheduler_postpone_count = 1 }
unfolding acquire_scheduler_lock
acquire-free s free open_ =
    let one : add_word s.scheduler_lock 1 ≡ 1 = omega arith in
    let once : add_word s.scheduler_postpone_count 1 ≡ 1 = omega arith in
    λ i. record s { interrupts = false; scheduler_lock = one i; scheduler_postpone_count = once i }

-- With a task running, `x` then `xs` ready and no lock held, `tasks_schedule` succeeds: `x` runs, the
-- caller is ready behind `xs`, the time slice is whole, and the lock is given up.
pub tasks_schedule-Switched :
    (clock : ℕ → ℕ) (interrupt : ℕ → Sched → Sched) (n : ℕ) (s : Sched) (x : Ptr) (xs : List Ptr)
    → s.scheduler_lock ≡ 0
    → s.scheduler_postpone_count ≡ 0
    → s.current_task ≢ null
    → (s.store s.current_task).state ≡ running
    → Holds (s.store, s.tasks_ready) (x ∷ xs)
    → Outside s.current_task (x ∷ xs)
    → (t : Sched) × (tasks_schedule clock interrupt n s ≡ some t) × Switched s t x xs
unfolding tasks_schedule
tasks_schedule-Switched clock interrupt n s x xs free open_ idle run h out = (
  switched clock s x xs idle run h out,
  ap (λ a. schedule clock interrupt n a >>= release) (acquire-free s free open_)
      ∙ ap (λ r. r >>= release) (schedule-locked clock interrupt n locked (omega arith))
      ∙ release-postponed clock interrupt n noted refl refl
      ∙ ap (λ r. r >>= λ t. some (leave_lock t))
          (schedule-next clock interrupt n (held clock s x xs idle run h out) x xs refl idle h),
  switched-Switched clock s x xs idle run h out,
)
  where
    release : Sched → Option Sched
    release = release_scheduler_lock clock interrupt n

    locked : Sched
    locked = record s { interrupts = false; scheduler_lock = 1; scheduler_postpone_count = 1 }

    noted : Sched
    noted = record locked { scheduler_postponed = true }
