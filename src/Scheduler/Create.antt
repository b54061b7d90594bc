-- ===== src/Scheduler/Create.antt =====
-- Kernel/Scheduler/tasks.cpp: how tasks come and go. `tasks_init`, `tasks_new` with the stack that it
-- sets up, the measurement of the processor's speed, and the cleaner's work on stopped tasks.
-- The heap's `malloc` and `free` are parameters, over a state `H` of their own and the page tables, which
-- they may change; so are the addresses of the functions and static variables. `none` is a panic, or a
-- loop that runs longer than its fuel.
pub mod Stack
pub mod New
pub mod Cleaner
pub mod Speed
mod Tests
use xyris.Base.{
  ℕ, zero, suc, ◌+◌, ◌-◌, ◌*◌, ◌/◌, ◌%◌, ◌^◌, Bool, true, false, Option, none, some, ◌==◌,
  if◌then◌else◌, add_word, sub_word,
}
use xyris.Base.Maybe.{◌>>=◌}
use xyris.Memory.Address.{page_align, arch_page_size}
use xyris.Memory.Paging.{Paging, Outcome, returned, panicked, new_page, free_page}
use xyris.Arch.Timer.{Timer, timer_register_callback}
use xyris.Scheduler.Task.{
  Ptr, null, Task, TaskState, running, ready, paused, is_ready, TaskAlloc, alloc_static,
  alloc_dynamic, Store, write, set_state, sub_u64,
}
use xyris.Scheduler.TaskList.{TaskList, dequeue_task}
use xyris.Scheduler.Tasks.{
  Sched, time_slice_size, enqueue_ready, get_cpu_time_ns, update_time, acquire_scheduler_lock,
  release_scheduler_lock, tasks_block_current, tasks_exit,
}

-- Memory as words by their addresses, and a stack pointer into it.
abbrev pub Words : Type 0
Words = ℕ → ℕ

-- `_stack_push_word`
unfoldable pub stack_push_word : Words × ℕ → ℕ → Words × ℕ
stack_push_word (words, sp) value =
    let top = sub_word sp 4 in ((λ a. if a == top then value else words a), top)

-- The scheduler, the words of memory, the page tables, the heap's state `H` and the timer, whose callbacks
-- are addresses.
pub record World (H : Type 0) : Type 0 where
  pub sched : Sched
  pub words : Words
  pub paging : Paging
  pub heap : H
  pub timer : Timer ℕ

-- The addresses that tasks.cpp takes: of its functions and static variables, and of the page directory.
pub record Addresses : Type 0 where
  pub task_stopping : ℕ
  pub task_starting : ℕ
  pub cleaner_task_impl : ℕ
  pub on_timer : ℕ
  pub first_task : Ptr
  pub main_name : Ptr
  pub cleaner_name : Ptr
  pub page_dir : ℕ

-- `sizeof(struct task)`
abbrev pub task_size : ℕ
task_size = 40

-- The words that `tasks_new` pushes on the stack of a new task.
unfoldable pub initial_stack : Addresses → Words → ℕ → ℕ → Words × ℕ
initial_stack at words stack entry =
    let s0 = stack_push_word (words, add_word stack arch_page_size) 0 in
    let s1 = stack_push_word s0 at.task_stopping in
    let s2 = stack_push_word s1 entry in
    let s3 = stack_push_word s2 at.task_starting in
    let s4 = stack_push_word s3 0 in
    let s5 = stack_push_word s4 0 in let s6 = stack_push_word s5 0 in stack_push_word s6 0

-- `tasks_new` after the stack is set up; `wakeup_time` is left as it was.
unfoldable pub fill_task :
    {H : Type 0} → Addresses → Ptr → ℕ → TaskState → Ptr → TaskAlloc → World H → World H
fill_task at task stack_top state name alloc w =
    let filled : Store = write w.sched.store task (record (w.sched.store task) {
      stack_top = stack_top;
      page_dir = at.page_dir;
      next = null;
      state = state;
      time_used = 0;
      name = name;
      alloc = alloc;
    }) in
    let s = record w.sched { store = filled } in
    record w { sched = if is_ready state then enqueue_ready s task else s }

-- `tasks_new` from the result of `newPage` on.
unfoldable pub with_stack :
    {H : Type 0}
    → Addresses
    → Ptr
    → ℕ
    → TaskState
    → Ptr
    → TaskAlloc
    → World H
    → Outcome
    → Option (Ptr × World H)
with_stack at task entry state name alloc w panicked = none
with_stack at task entry state name alloc w (returned paging stack) =
    if stack == 0
    then none
    else (let (words, stack_top) = initial_stack at w.words stack entry in
        some (
          task,
          fill_task at task stack_top state name alloc
              (record w { words = words; paging = paging }),
        ))

abbrev pub is_dynamic : TaskAlloc → Bool
is_dynamic alloc_dynamic = true
is_dynamic alloc_static = false

module _ {H : Type 0} (malloc : ℕ → H × Paging → Ptr × H × Paging) (beyond : ℕ)
    (at : Addresses) where
  -- The memory for the structure: `storage`, or from the heap.
  unfoldable pub task_memory : Ptr → World H → Ptr × World H
  task_memory storage w =
      let (task, heap, paging) = malloc task_size (w.heap, w.paging) in
      if storage == null then (task, record w { heap = heap; paging = paging }) else (storage, w)

  unfoldable pub tasks_new : ℕ → Ptr → TaskState → Ptr → World H → Option (Ptr × World H)
  tasks_new entry storage state name w =
      let (task, w1) = task_memory storage w in
      let alloc : TaskAlloc = if storage == null then alloc_dynamic else alloc_static in
      if task == null
      then none
      else with_stack at task entry state name alloc w1 (new_page beyond w1.paging 1)

module _ {H : Type 0} (free : Ptr → H × Paging → H × Paging) where
  -- `_clean_stopped_task`
  unfoldable pub clean_stopped_task : Ptr → World H → World H
  clean_stopped_task task w =
      let t = w.sched.store task in
      let freed = free_page w.paging (page_align t.stack_top) 1 in
      let (heap, paging) = free task (w.heap, freed) in
      if is_dynamic t.alloc
      then record w { heap = heap; paging = paging }
      else record w { paging = freed }

  -- The cleaner's loop over the stopped tasks.
  unfoldable pub clean_loop : ℕ → World H → Option (World H)
  clean_loop zero w = none
  clean_loop (suc n) w =
      let (task, (m, l)) = dequeue_task (w.sched.store, w.sched.tasks_stopped) in
      let taken = record w { sched = record w.sched { store = m; tasks_stopped = l } } in
      let rest = clean_loop n (clean_stopped_task task taken) in
      if w.sched.tasks_stopped.head == null then some w else rest

  -- One pass of the cleaner's endless loop; the cleaner is the current task.
  unfoldable pub clean_pass : (ℕ → ℕ) → (ℕ → Sched → Sched) → ℕ → ℕ → World H → Option (World H)
  clean_pass clock interrupt rounds n w = do
    w1 ← clean_loop rounds (record w { sched = acquire_scheduler_lock w.sched })
    s2 ← tasks_block_current clock interrupt paused n w1.sched
    s3 ← release_scheduler_lock clock interrupt n s2
    some (record w1 { sched = s3 })

-- The wait of `_discover_cpu_speed` for the next tick; `ticks i` is the i-th reading of `timer_tick`.
unfoldable pub await_tick : (ℕ → ℕ) → ℕ → ℕ → ℕ → Option ℕ
await_tick ticks target zero i = none
await_tick ticks target (suc n) i =
    let again = await_tick ticks target n (i + 1) in if ticks i == target then some i else again

abbrev pub at_least_one : ℕ → ℕ
at_least_one n = if n == 0 then 1 else n

unfoldable pub discover_cpu_speed : (ℕ → ℕ) → (ℕ → ℕ) → ℕ → Sched → Option Sched
discover_cpu_speed clock ticks n s = do
  i ← await_tick ticks (add_word (ticks 0) 1) n 1
  let elapsed = sub_u64 (clock (s.reads + 1)) (clock s.reads)
  some (record s { reads = s.reads + 2; instr_per_ns = at_least_one (elapsed / 1000000) })

-- The structure of the task that runs already.
abbrev pub main_task : Addresses → Task
main_task at = record {
  stack_top = 0;
  page_dir = at.page_dir;
  next = null;
  state = running;
  time_used = 0;
  wakeup_time = 0;
  name = at.main_name;
  alloc = alloc_static;
}

-- `tasks_init` after the cleaner's task is made.
unfoldable pub start_scheduling : {H : Type 0} → (ℕ → ℕ) → Addresses → World H → World H
start_scheduling clock at w =
    let s0 = record w.sched { store = set_state w.sched.store w.sched.cleaner_task paused } in
    let (now, s1) = get_cpu_time_ns clock s0 in
    record w {
      sched = record s1 {
        last_time = now;
        last_timer_time = now;
        time_slice_remaining = time_slice_size;
        current_task = at.first_task;
      };
      timer = timer_register_callback w.timer at.on_timer;
    }

module _ {H : Type 0} (malloc : ℕ → H × Paging → Ptr × H × Paging) (beyond : ℕ) (at : Addresses)
    (clock ticks : ℕ → ℕ) where
  unfoldable pub tasks_init : ℕ → World H → Option (World H)
  tasks_init n w = do
    s1 ← discover_cpu_speed clock ticks n w.sched
    let w1 = record w { sched = record s1 { store = write s1.store at.first_task (main_task at) } }
    (task, w2) ←
        tasks_new malloc beyond at at.cleaner_task_impl w.sched.cleaner_task paused at.cleaner_name
          w1
    some (start_scheduling clock at w2)

-- `tasks_get_self_time`
unfoldable pub get_self_time : (ℕ → ℕ) → Sched → ℕ × Sched
get_self_time clock s = let s1 = update_time clock s in ((s1.store s1.current_task).time_used, s1)

-- `_task_stopping`: a task that comes back from its exit is a panic.
unfoldable pub task_stopping : (ℕ → ℕ) → (ℕ → Sched → Sched) → ℕ → Sched → Option Sched
task_stopping clock interrupt n s = do s' ← tasks_exit clock interrupt n s; none
