-- ===== src/Scheduler/Task.antt =====
-- Kernel/Scheduler/tasks.hpp: `struct task` and the memory that holds the task structures.
use xyris.Base.{ℕ, Bool, true, false, if◌then◌else◌, ◌==◌, ◌+◌, ◌-◌, ◌%◌, ◌^◌}

abbrev pub Ptr : Type 0
Ptr = ℕ

abbrev pub null : Ptr
null = 0

-- `enum task_state`
pub data TaskState : Type 0 where
  running ready sleeping blocked stopped paused : TaskState

-- `enum task_alloc`
pub data TaskAlloc : Type 0 where
  alloc_static alloc_dynamic : TaskAlloc

abbrev pub is_running : TaskState → Bool
is_running running = true
is_running _ = false

abbrev pub is_ready : TaskState → Bool
is_ready ready = true
is_ready _ = false

-- `struct task`; `name` is the pointer.
pub record Task : Type 0 where
  pub stack_top : ℕ
  pub page_dir : ℕ
  pub next : Ptr
  pub state : TaskState
  pub time_used : ℕ
  pub wakeup_time : ℕ
  pub name : Ptr
  pub alloc : TaskAlloc

-- The task structures by address. What stands at NULL is never looked at in a queue that `Chain`
-- describes.
abbrev pub Store : Type 0
Store = Ptr → Task

unfoldable pub write : Store → Ptr → Task → Store
write m p t a = if a == p then t else m a

-- `p->next = q`, `p->state = st`, `p->wakeup_time = w`, `p->time_used = u`
abbrev pub set_next : Store → Ptr → Ptr → Store
set_next m p q = write m p (record (m p) { next = q })

abbrev pub set_state : Store → Ptr → TaskState → Store
set_state m p st = write m p (record (m p) { state = st })

abbrev pub set_wakeup : Store → Ptr → ℕ → Store
set_wakeup m p w = write m p (record (m p) { wakeup_time = w })

abbrev pub set_time : Store → Ptr → ℕ → Store
set_time m p u = write m p (record (m p) { time_used = u })

-- `uint64_t` arithmetic wraps.
abbrev pub add_u64 : ℕ → ℕ → ℕ
add_u64 a b = (a + b) % 2 ^ 64

abbrev pub sub_u64 : ℕ → ℕ → ℕ
sub_u64 a b = (a + 2 ^ 64 - b) % 2 ^ 64
