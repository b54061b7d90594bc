-- ===== src/Scheduler/Tasks/SyncUnblock.antt =====
-- `tasks_sync_unblock` as a whole: the waiting tasks join the queue, and the first in it runs.
use xyris.Base.{
  ℕ, ◌≡◌, ◌≢◌, refl, sym, ap, subst, ◌∙◌, true, false, List, ◌∷◌, ◌++◌, arith, ◌==◌, ◌≤◌, some,
}
use xyris.Base.Maybe.{◌>>=◌, bind-then}
use xyris.Scheduler.Task.{Ptr, null, running}
use xyris.Base.Pointers.{Outside, Outside-right}
use xyris.Scheduler.TaskList.{TaskList, empty_list}
use xyris.Scheduler.TaskList.Chain.{Chain, Holds}
use xyris.Scheduler.Tasks.{
  Sched, acquire_scheduler_lock, release_scheduler_lock, schedule, leave_lock, unblock_loop,
  tasks_sync_unblock,
}
use xyris.Scheduler.Tasks.Switch.{
  Switched, schedule-locked, release-postponed, schedule-next, held, switched, switched-Switched,
  acquire-free,
}
use xyris.Scheduler.TaskList.Apart.{Apart}
use xyris.Scheduler.Tasks.Unblock.{count, unblock_loop-AllWoken}

-- The state under one lock, with the note that `_schedule` leaves there.
abbrev pub locked : Sched → Sched
locked s = record s { interrupts = false; scheduler_lock = 1; scheduler_postpone_count = 1 }

abbrev pub noted : Sched → Sched
noted s = record (locked s) { scheduler_postponed = true }

-- Under the one lock, `_schedule` is postponed, and the release makes up for it: the first ready task
-- runs and the caller goes behind the others.
pub schedule_then_release :
    (clock : ℕ → ℕ) (interrupt : ℕ → Sched → Sched) (n : ℕ) (s : Sched) (x : Ptr) (xs : List Ptr)
    → s.current_task ≢ null
    → (s.store s.current_task).state ≡ running
    → Holds (s.store, s.tasks_ready) (x ∷ xs)
    → Outside s.current_task (x ∷ xs)
    → (t : Sched) × ((schedule clock interrupt n (locked s)
          >>= release_scheduler_lock clock interrupt n)
        ≡ some t)
      × Switched s t x xs
schedule_then_release clock interrupt n s x xs idle run h out = (
  switched clock s x xs idle run h out,
  ap (λ r. r >>= release_scheduler_lock clock interrupt n)
        (schedule-locked clock interrupt n (locked s) (omega arith))
      ∙ release-postponed clock interrupt n (noted s) refl refl
      ∙ ap (λ r. r >>= λ t. some (leave_lock t))
          (schedule-next clock interrupt n (held clock s x xs idle run h out) x xs refl idle h),
  switched-Switched clock s x xs idle run h out,
)

sync_unblock-loop :
    (clock : ℕ → ℕ) (interrupt : ℕ → Sched → Sched) (waiting : TaskList) (rounds n : ℕ)
    (s t u : Sched)
    → waiting.head ≢ null
    → unblock_loop rounds waiting.head (acquire_scheduler_lock s) ≡ some t
    → (schedule clock interrupt n t >>= release_scheduler_lock clock interrupt n) ≡ some u
    → tasks_sync_unblock clock interrupt waiting rounds n s ≡ some (empty_list, u)
unfolding tasks_sync_unblock
sync_unblock-loop clock interrupt waiting rounds n s t u ne e f =
    let found : (waiting.head == null) ≡ false = ground arith in
    rw (found, e)
      (bind-then (schedule clock interrupt n t) (release_scheduler_lock clock interrupt n)
        (λ v. some (empty_list, v)) f)

-- With a task running, `ys` ready, `x` then `xs` waiting and no lock held, `tasks_sync_unblock` with
-- enough rounds succeeds. The waiting list is empty afterwards, the waiting tasks join the ready queue in
-- their order, and the first task `z` of the queue that results runs, the caller going behind the others.
pub tasks_sync_unblock-Switched :
    (clock : ℕ → ℕ) (interrupt : ℕ → Sched → Sched) (waiting : TaskList) (rounds n : ℕ) (s : Sched)
    (x : Ptr) (xs ys : List Ptr) (z : Ptr) (zs : List Ptr)
    → s.scheduler_lock ≡ 0
    → s.scheduler_postpone_count ≡ 0
    → s.current_task ≢ null
    → (s.store s.current_task).state ≡ running
    → Holds (s.store, waiting) (x ∷ xs)
    → Holds (s.store, s.tasks_ready) ys
    → Apart (x ∷ xs) ys
    → Outside s.current_task (ys ++ (x ∷ xs))
    → ys ++ (x ∷ xs) ≡ z ∷ zs
    → count (x ∷ xs) ≤ rounds
    → (t : Sched) × (tasks_sync_unblock clock interrupt waiting rounds n s ≡ some (empty_list, t))
      × Switched s t z zs
tasks_sync_unblock-Switched clock interrupt waiting rounds n s x xs ys z zs free open_ idle run w h
      a out e le =
    let (t, looped, all) =
      unblock_loop-AllWoken rounds x xs ys (locked s) le
        (subst (Chain s.store null (x ∷ xs)) w.chain.0 w.chain) h a in
    let (u, scheduled, switched_) =
      schedule_then_release clock interrupt n
        (record s { store = t.store; tasks_ready = t.tasks_ready }) z zs idle
        (all.states s.current_task (Outside-right s.current_task ys (x ∷ xs) out) ∙ run)
        (subst (Holds (t.store, t.tasks_ready)) e all.queue)
        (subst (Outside s.current_task) e out) in
    (
      u,
      sync_unblock-loop clock interrupt waiting rounds n s t u
          (subst (λ p. p ≢ null) (sym w.chain.0) w.chain.1)
          (rw (acquire-free s free open_, w.chain.0) looped)
          (subst
            (λ v.
              (schedule clock interrupt n v >>= release_scheduler_lock clock interrupt n) ≡ some u)
            (sym all.rest) scheduled),
      record {
        current = switched_.current;
        runs = switched_.runs;
        queue = switched_.queue;
        waits = switched_.waits;
        slice = switched_.slice;
        lock = switched_.lock;
        postponing = switched_.postponing;
        enabled = switched_.enabled;
      },
    )
