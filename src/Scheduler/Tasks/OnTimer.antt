-- ===== src/Scheduler/Tasks/OnTimer.antt =====
-- `_on_timer` as a whole, when a sleeping task is due.
use xyris.Base.{
  ℕ, ◌≡◌, ◌≢◌, refl, ap, subst, ◌∙◌, true, false, List, [], ◌∷◌, ◌++◌, ◌==◌, ◌<◌, ◌/◌, ◌+◌, leb,
  some, ◌-◌, not, Bool-cases, inl, inr,
}
use xyris.Base.Maybe.{◌>>=◌}
use xyris.Scheduler.Task.{Ptr, null, running, sub_u64}
use xyris.Base.Pointers.{Outside, Outside-right, Outside-left, Outside-append}
use xyris.Scheduler.TaskList.Chain.{Holds}
use xyris.Scheduler.TaskList.Apart.{Apart}
use xyris.Scheduler.Tasks.{
  Sched, acquire_scheduler_lock, release_scheduler_lock, schedule, wake_loop, count_slice,
  get_cpu_time_ns, on_timer,
}
use xyris.Scheduler.Tasks.Switch.{Switched, acquire-free}
use xyris.Scheduler.Tasks.SyncUnblock.{locked, schedule_then_release}
use xyris.Scheduler.Tasks.Unblock.{count}
use xyris.Scheduler.Tasks.WakeLoop.{due, is_empty, wake_loop-Woke, due-Outside}

-- Once a reschedule is wanted, the time slice does not revoke it, and counting it touches only the
-- time variables.
count_slice-asked :
    (time : ℕ) (s : Sched)
    → (l : ℕ) × (r : ℕ) × (count_slice time true s
        ≡ (true, record s { last_timer_time = l; time_slice_remaining = r }))
unfolding count_slice
count_slice-asked time s = elim (Bool-cases (s.time_slice_remaining == 0)) [
  | inl off ↦ rw off (s.last_timer_time, s.time_slice_remaining, refl)
  | inr on ↦ elim (Bool-cases (leb s.time_slice_remaining (sub_u64 time s.last_timer_time))) [
    | inl spent ↦ rw (on, spent) (time, s.time_slice_remaining, refl)
    | inr left ↦ rw (on, left) (time, s.time_slice_remaining - sub_u64 time s.last_timer_time, refl)
  ]
]

on_timer-asked :
    (clock : ℕ → ℕ) (interrupt : ℕ → Sched → Sched) (rounds n : ℕ) (s t t' u : Sched)
    → let (time, s1) = get_cpu_time_ns clock (acquire_scheduler_lock s) in
      wake_loop time rounds null s1.tasks_sleeping.head false s1 ≡ some (true, t)
      → count_slice (get_cpu_time_ns clock (acquire_scheduler_lock s)).0 true t ≡ (true, t')
      → (schedule clock interrupt n t' >>= release_scheduler_lock clock interrupt n) ≡ some u
      → on_timer clock interrupt rounds n s ≡ some u
unfolding on_timer
on_timer-asked clock interrupt rounds n s t t' u e f g = rw (e, f) g

-- With a task running, `ys` ready, `sleepers` asleep and no lock held, and with a sleeping task that
-- is due at the clock's next reading, `_on_timer` with enough rounds succeeds: the due tasks join the ready
-- queue in their order, and the first task `z` of the queue that results runs, the caller going behind
-- the others.
pub on_timer-Switched :
    (clock : ℕ → ℕ) (interrupt : ℕ → Sched → Sched) (rounds n : ℕ) (s : Sched)
    (sleepers ys : List Ptr) (d : Ptr) (ds : List Ptr) (z : Ptr) (zs : List Ptr)
    → s.scheduler_lock ≡ 0
    → s.scheduler_postpone_count ≡ 0
    → s.current_task ≢ null
    → (s.store s.current_task).state ≡ running
    → Holds (s.store, s.tasks_sleeping) sleepers
    → Holds (s.store, s.tasks_ready) ys
    → Apart sleepers ys
    → Outside s.current_task (ys ++ sleepers)
    → due (clock s.reads / s.instr_per_ns) s.store sleepers ≡ d ∷ ds
    → ys ++ (d ∷ ds) ≡ z ∷ zs
    → count sleepers < rounds
    → (t : Sched) × (on_timer clock interrupt rounds n s ≡ some t) × Switched s t z zs
unfolding get_cpu_time_ns
on_timer-Switched clock interrupt rounds n s sleepers ys d ds z zs free open_ idle run sl h a out
      some_due e le =
    let time = clock s.reads / s.instr_per_ns in
    let s1 : Sched = record (locked s) { reads = s.reads + 1 } in
    let (need, t, looped, w) =
      wake_loop-Woke time rounds [] sleepers ys s.tasks_sleeping.head false s1 le sl h a sl.chain in
    let asked : need ≡ true = w.asks ∙ ap (λ l. not (is_empty l)) some_due in
    let (l, r, counted) = count_slice-asked time t in
    let right = Outside-right s.current_task ys sleepers out in
    let out' : Outside s.current_task (ys ++ (d ∷ ds)) =
      Outside-append s.current_task ys (d ∷ ds) (Outside-left s.current_task ys sleepers out) (
        subst (Outside s.current_task) some_due
          (due-Outside time s.store s.current_task sleepers right)) in
    let left : Sched = record s1 {
      store = t.store;
      tasks_ready = t.tasks_ready;
      tasks_sleeping = t.tasks_sleeping;
      last_timer_time = l;
      time_slice_remaining = r;
    } in
    let (u, scheduled, sw) =
      schedule_then_release clock interrupt n left z zs idle
        (w.states s.current_task (due-Outside time s.store s.current_task sleepers right) ∙ run)
        (subst (Holds (t.store, t.tasks_ready)) (ap (λ l. ys ++ l) some_due ∙ e) w.queue)
        (subst (Outside s.current_task) e out') in
    (
      u,
      on_timer-asked clock interrupt rounds n s t left u
          (rw (acquire-free s free open_) (
            subst (λ b. wake_loop time rounds null s.tasks_sleeping.head false s1 ≡ some (b, t))
              asked looped))
          (rw (acquire-free s free open_) (
            counted
            ∙ ap (λ (v : Sched). (true, record v { last_timer_time = l; time_slice_remaining = r }))
                w.rest))
          scheduled,
      record {
        current = sw.current;
        runs = sw.runs;
        queue = sw.queue;
        waits = sw.waits;
        slice = sw.slice;
        lock = sw.lock;
        postponing = sw.postponing;
        enabled = sw.enabled;
      },
    )
