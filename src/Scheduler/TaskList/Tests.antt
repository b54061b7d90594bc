-- ===== src/Scheduler/TaskList/Tests.antt =====
-- The queue theorems at a list of three tasks.
use xyris.Base.{List, [], ◌∷◌, arith, if◌then◌else◌, ◌==◌}
use xyris.Scheduler.Task.{Ptr, null, Task, Store, ready, alloc_static}
use xyris.Scheduler.TaskList.{Linked}
use xyris.Scheduler.TaskList.Chain.{Holds}

abbrev idle_task : Task
idle_task = record {
  stack_top = 0;
  page_dir = 0;
  next = null;
  state = ready;
  time_used = 0;
  wakeup_time = 0;
  name = null;
  alloc = alloc_static;
}

-- 10 → 20 → 30
abbrev three : Store
three a =
    if a == 10
    then record idle_task { next = 20 }
    else if a == 20
    then record idle_task { next = 30 }
    else idle_task

abbrev queue_of_three : Linked
queue_of_three = (three, record { head = 10; tail = 30 })

abbrev listed : List Ptr
listed = 10 ∷ 20 ∷ 30 ∷ []

three-Holds : Holds queue_of_three listed
three-Holds = omega arith
