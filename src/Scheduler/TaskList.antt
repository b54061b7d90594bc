-- ===== src/Scheduler/TaskList.antt =====
-- `struct tasklist` and the routines of Kernel/Scheduler/tasks.cpp that link tasks into it:
-- `_enqueue_task`, `_dequeue_task` and `_remove_task`. Each takes the store and returns the new one.
pub mod Chain
pub mod Apart
pub mod Queue
pub mod Remove
mod Tests
use xyris.Base.{Bool, not, ◌&&◌, Option, none, some, if◌then◌else◌, ◌==◌}
use xyris.Scheduler.Task.{Ptr, null, Store, set_next}

-- `struct tasklist`
pub record TaskList : Type 0 where
  pub head : Ptr
  pub tail : Ptr

abbrev pub empty_list : TaskList
empty_list = record { head = null; tail = null }

-- A store and the list whose tasks it holds.
abbrev pub Linked : Type 0
Linked = Store × TaskList

unfoldable pub enqueue_task : Linked → Ptr → Linked
enqueue_task (m, l) task =
    let head : Ptr = if l.head == null then task else l.head in
    let m' : Store = if l.tail == null then m else set_next m l.tail task in
    (set_next m' task null, record { head = head; tail = task })

-- The pointer is NULL if there is nothing in the list.
unfoldable pub dequeue_task : Linked → Ptr × Linked
dequeue_task (m, l) =
    if l.head == null
    then (null, (m, l))
    else (let task = l.head in
        let head : Ptr = (m task).next in
        let tail : Ptr = if head == null then null else l.tail in
        (task, (set_next m task null, record { head = head; tail = tail })))

-- `none` is the panic on bogus arguments.
unfoldable pub remove_task : Linked → Ptr → Ptr → Option Linked
remove_task (m, l) task previous =
    if not (previous == null) && not ((m previous).next == task)
    then none
    else (let head : Ptr = if l.head == task then (m task).next else l.head in
        let tail : Ptr = if l.tail == task then previous else l.tail in
        let m' : Store = if previous == null then m else set_next m previous (m task).next in
        some (set_next m' task null, record { head = head; tail = tail }))
