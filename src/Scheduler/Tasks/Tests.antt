-- ===== src/Scheduler/Tasks/Tests.antt =====
-- The scheduler at a state with one running task and two ready ones.
use xyris.Base.{
  ℕ, Bool, ◌≡◌, refl, [], ◌∷◌, ◌+◌, ◌*◌, arith, if◌then◌else◌, ◌==◌, some, true, false,
}
use xyris.Scheduler.Task.{null, Task, ready, running, sleeping, blocked, stopped, alloc_static}
use xyris.Scheduler.TaskList.{TaskList, empty_list}
use xyris.Scheduler.TaskList.Chain.{Holds}
use xyris.Scheduler.Tasks.{
  Sched, tasks_schedule, tasks_sync_unblock, tasks_sync_block, tasks_exit, on_timer, wake_loop,
}
use xyris.Scheduler.Tasks.Park.{GaveUp}
use xyris.Scheduler.Tasks.Exit.{tasks_sync_block-GaveUp, tasks_exit-GaveUp}
use xyris.Scheduler.Tasks.WakeLoop.{Woke, wake_loop-Woke}
use xyris.Scheduler.Tasks.SyncUnblock.{tasks_sync_unblock-Switched}
use xyris.Scheduler.Tasks.OnTimer.{on_timer-Switched}
use xyris.Scheduler.Tasks.Switch.{Switched, tasks_schedule-Switched}

abbrev ready_task : Task
ready_task = record {
  stack_top = 0;
  page_dir = 0;
  next = null;
  state = ready;
  time_used = 0;
  wakeup_time = 0;
  name = null;
  alloc = alloc_static;
}

-- Task 1 runs; 2 and 3 are ready.
abbrev busy : Sched
busy = record {
  store = λ a.
      if a == 1
      then record ready_task { state = running }
      else if a == 2
      then record ready_task { next = 3 }
      else ready_task;
  current_task = 1;
  cleaner_task = 9;
  tasks_ready = record { head = 2; tail = 3 };
  tasks_sleeping = empty_list;
  tasks_stopped = empty_list;
  idle_time = 0;
  idle_start = 0;
  last_time = 100;
  time_slice_remaining = 5;
  last_timer_time = 100;
  scheduler_lock = 0;
  scheduler_postpone_count = 0;
  scheduler_postponed = false;
  instr_per_ns = 2;
  interrupts = true;
  reads = 0;
  halts = 0;
}

abbrev clock : ℕ → ℕ
clock n = 300 + n * 10

busy-Holds : Holds (busy.store, busy.tasks_ready) (2 ∷ 3 ∷ [])
busy-Holds = omega arith

tasks_schedule-Switched_example :
    (t : Sched) × (tasks_schedule clock (λ n s. s) 4 busy ≡ some t) × Switched busy t 2 (3 ∷ [])
tasks_schedule-Switched_example =
    tasks_schedule-Switched clock (λ n s. s) 4 busy 2 (3 ∷ []) refl refl (omega arith) refl
      busy-Holds (omega arith)

-- As before, and the tasks 4 and 5 sleep, or wait for a mutex; only 4 is due.
abbrev drowsy : Sched
drowsy = record busy {
  store = λ a.
      if a == 4
      then record ready_task { next = 5; state = sleeping; wakeup_time = 50 }
      else if a == 5
      then record ready_task { state = sleeping; wakeup_time = 1000000 }
      else busy.store a;
  tasks_sleeping = record { head = 4; tail = 5 };
}

abbrev waiters : TaskList
waiters = record { head = 4; tail = 5 }

tasks_sync_unblock-Switched_example :
    (t : Sched) × (tasks_sync_unblock clock (λ n s. s) waiters 2 4 drowsy ≡ some (empty_list, t))
    × Switched drowsy t 2 (3 ∷ 4 ∷ 5 ∷ [])
tasks_sync_unblock-Switched_example =
    tasks_sync_unblock-Switched clock (λ n s. s) waiters 2 4 drowsy 4 (5 ∷ []) (2 ∷ 3 ∷ []) 2
      (3 ∷ 4 ∷ 5 ∷ []) refl refl (omega arith) refl (omega arith) (omega arith) (omega arith)
      (omega arith) refl (omega arith)

on_timer-Switched_example :
    (t : Sched) × (on_timer clock (λ n s. s) 3 4 drowsy ≡ some t) × Switched drowsy t 2 (3 ∷ 4 ∷ [])
on_timer-Switched_example =
    on_timer-Switched clock (λ n s. s) 3 4 drowsy (4 ∷ 5 ∷ []) (2 ∷ 3 ∷ []) 4 [] 2 (3 ∷ 4 ∷ []) refl
      refl (omega arith) refl (omega arith) (omega arith) (omega arith) (omega arith) refl refl
      (omega arith)

wake_loop-Woke_example :
    (need : Bool) × (t : Sched) × (wake_loop 150 3 null 4 false drowsy ≡ some (need, t))
    × Woke (4 ∷ []) (5 ∷ []) [] (2 ∷ 3 ∷ []) false need drowsy t
wake_loop-Woke_example =
    wake_loop-Woke 150 3 [] (4 ∷ 5 ∷ []) (2 ∷ 3 ∷ []) 4 false drowsy (omega arith) (omega arith)
      (omega arith) (omega arith) (omega arith)

-- Task 1 waits behind the tasks 4 and 5.
tasks_sync_block-GaveUp_example :
    (l : TaskList) × (t : Sched) × (tasks_sync_block clock (λ n s. s) waiters 4 drowsy
      ≡ some (l, t))
    × GaveUp drowsy t l blocked 2 (3 ∷ []) (4 ∷ 5 ∷ [])
tasks_sync_block-GaveUp_example =
    tasks_sync_block-GaveUp clock (λ n s. s) 4 drowsy refl refl (omega arith) waiters 2 (3 ∷ [])
      (4 ∷ 5 ∷ []) (omega arith) (omega arith) (omega arith) (omega arith) (omega arith)

-- Task 1 exits, where 4 and 5 have exited before and 9 is the cleaner.
abbrev leaving : Sched
leaving = record drowsy { tasks_stopped = waiters }

tasks_exit-GaveUp_example :
    (t : Sched) × (tasks_exit clock (λ n s. s) 4 leaving ≡ some t)
    × GaveUp leaving t t.tasks_stopped stopped 2 (3 ∷ 9 ∷ []) (4 ∷ 5 ∷ [])
tasks_exit-GaveUp_example =
    tasks_exit-GaveUp clock (λ n s. s) 4 leaving refl refl (omega arith) (4 ∷ 5 ∷ []) (2 ∷ 3 ∷ [])
      (omega arith) (omega arith) (omega arith) (omega arith) (omega arith) (omega arith)
      (omega arith) (omega arith) (omega arith) 2 (3 ∷ 9 ∷ []) refl
