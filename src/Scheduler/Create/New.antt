-- ===== src/Scheduler/Create/New.antt =====
-- What `tasks_new` leaves.
use xyris.Base.{
  ℕ, ◌+◌, ◌^◌, ◌≤◌, ◌≡◌, ◌≢◌, Option, some, ◌==◌, if◌then◌else◌, List, [], ◌∷◌, ◌++◌, ◌⊎◌, none,
}
use xyris.Memory.Paging.{Paging, Outcome, returned, panicked}
use xyris.Base.Pointers.{Outside}
use xyris.Scheduler.Task.{
  Ptr, null, Task, TaskState, is_ready, alloc_static, alloc_dynamic, TaskAlloc,
}
use xyris.Scheduler.TaskList.{TaskList}
use xyris.Scheduler.TaskList.Chain.{Holds}
use xyris.Scheduler.Create.{World, Addresses, Words, initial_stack, fill_task, tasks_new}
use xyris.Scheduler.Create.Stack.{Prepared}

-- The task `task` is new in `w'`, with its stack on `page`; `ys` were ready, and are still, with the task
-- behind them if it starts ready.
pub record Created {H : Type 0} (at : Addresses) (task page entry : ℕ) (state : TaskState)
    (alloc : TaskAlloc) (ys : List Ptr) (w w' : World H) : Type 0 where
  pub stack : Prepared at page entry w.words w'.words (w'.sched.store task).stack_top
  pub starts : (w'.sched.store task).state ≡ state
  pub memory : (w'.sched.store task).alloc ≡ alloc
  pub unused : (w'.sched.store task).time_used ≡ 0
  pub alone : (w'.sched.store task).next ≡ null
  pub queue :
      Holds
        (w'.sched.store, w'.sched.tasks_ready)
        (if is_ready state then ys ++ (task ∷ []) else ys)
  pub rest :
      w'.sched ≡ record w.sched { store = w'.sched.store; tasks_ready = w'.sched.tasks_ready }

module _ {H : Type 0} (at : Addresses) (task page entry : ℕ) (state : TaskState) (name : Ptr)
    (alloc : TaskAlloc) (ys : List Ptr) (w : World H) (p : Paging) (nn : task ≢ null)
    (some_page : page ≢ 0) (fits : page + 4096 ≤ 2 ^ 32)
    (h : Holds (w.sched.store, w.sched.tasks_ready) ys) (out : Outside task ys) where
  abbrev stack : Words × ℕ
  stack = initial_stack at w.words page entry

  abbrev filled : Task
  filled = record (w.sched.store task) {
    stack_top = stack.1;
    page_dir = at.page_dir;
    next = null;
    state = state;
    time_used = 0;
    name = name;
    alloc = alloc;
  }

  abbrev after : World H
  after = fill_task at task stack.1 state name alloc (record w { words = stack.0; paging = p })

module _ {H : Type 0} (malloc : ℕ → H × Paging → Ptr × H × Paging) (beyond : ℕ) (at : Addresses)
    (entry : ℕ) (storage : Ptr) (state : TaskState) (name : Ptr) (w : World H) (task : Ptr)
    (w1 : World H) (ys : List Ptr) where
  abbrev created : Option (Ptr × World H)
  created = tasks_new malloc beyond at entry storage state name w

  -- What `tasks_new` does, by how its call of `newPage` ends.
  abbrev pub Makes : Outcome → Type 0
  Makes panicked = created ≡ none
  Makes (returned p page) =
      ((page ≡ 0) × (created ≡ none))
      ⊎ ((w' : World H) × (created ≡ some (task, w'))
          × (w'.paging ≡ p)
          × Created at task page entry state
              (if storage == null then alloc_dynamic else alloc_static) ys w1 w')
