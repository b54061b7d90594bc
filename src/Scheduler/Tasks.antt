-- ===== src/Scheduler/Tasks.antt =====
-- Kernel/Scheduler/tasks.cpp: the scheduler's state and every routine that changes it.
-- A routine takes the state and returns the new one. `none` stands for a panic, or for a machine that
-- idles for longer than the fuel: `idle` is how many halts an idle period may take.
pub mod Switch
pub mod Wake
pub mod Unblock
pub mod SyncUnblock
pub mod Leave
pub mod Park
pub mod Exit
pub mod WakeLoop
pub mod WakeRound
pub mod OnTimer
mod Tests
use xyris.Base.{
  ℕ, zero, suc, ◌+◌, ◌-◌, ◌/◌, ◌*◌, ◌%◌, ◌^◌, Bool, true, false, not, ◌&&◌, Option, none, some, ltb,
  leb, ◌==◌, if◌then◌else◌, add_word, sub_word,
}
use xyris.Base.Maybe.{◌>>=◌}
use xyris.Scheduler.Task.{
  Ptr, null, Task, TaskState, running, ready, sleeping, blocked, stopped, paused, Store, is_running,
  set_state, set_wakeup, set_time, set_next, add_u64, sub_u64, write,
}
use xyris.Scheduler.TaskList.{TaskList, Linked, empty_list, enqueue_task, dequeue_task, remove_task}

-- `TIME_SLICE_SIZE`, in nanoseconds.
abbrev pub time_slice_size : ℕ
time_slice_size = 1000000

-- The static variables of tasks.cpp. `interrupts` is the processor's interrupt flag, which `cli` and
-- `sti` change; `reads` and `halts` count the clock's readings and the halts so far.
pub record Sched : Type 0 where
  pub store : Store
  pub current_task : Ptr
  pub cleaner_task : Ptr
  pub tasks_ready : TaskList
  pub tasks_sleeping : TaskList
  pub tasks_stopped : TaskList
  pub idle_time : ℕ
  pub idle_start : ℕ
  pub last_time : ℕ
  pub time_slice_remaining : ℕ
  pub last_timer_time : ℕ
  pub scheduler_lock : ℕ
  pub scheduler_postpone_count : ℕ
  pub scheduler_postponed : Bool
  pub instr_per_ns : ℕ
  pub interrupts : Bool
  pub reads : ℕ
  pub halts : ℕ

unfoldable pub enqueue_ready : Sched → Ptr → Sched
enqueue_ready s task =
    let (m, l) = enqueue_task (s.store, s.tasks_ready) task in
    record s { store = m; tasks_ready = l }

unfoldable pub dequeue_ready : Sched → Ptr × Sched
dequeue_ready s =
    let (task, (m, l)) = dequeue_task (s.store, s.tasks_ready) in
    (task, record s { store = m; tasks_ready = l })

unfoldable pub enqueue_sleeping : Sched → Ptr → Sched
enqueue_sleeping s task =
    let (m, l) = enqueue_task (s.store, s.tasks_sleeping) task in
    record s { store = m; tasks_sleeping = l }

unfoldable pub enqueue_stopped : Sched → Ptr → Sched
enqueue_stopped s task =
    let (m, l) = enqueue_task (s.store, s.tasks_stopped) task in
    record s { store = m; tasks_stopped = l }

unfoldable pub acquire_scheduler_lock : Sched → Sched
acquire_scheduler_lock s = record s {
  interrupts = false;
  scheduler_postpone_count = add_word s.scheduler_postpone_count 1;
  scheduler_lock = add_word s.scheduler_lock 1;
}

-- `_scheduler_lock--; if (_scheduler_lock == 0) sti`, also the whole of `_task_starting`.
unfoldable pub leave_lock : Sched → Sched
leave_lock s =
    let lock = sub_word s.scheduler_lock 1 in
    record s { scheduler_lock = lock; interrupts = if lock == 0 then true else s.interrupts }

-- `tasks_switch_to` of Kernel/Arch/i686/Assembly/tasks.s: the running task goes back to the ready
-- queue, and `task` becomes the current one. The registers and stacks are not modelled.
unfoldable pub switch_to : Ptr → Sched → Sched
switch_to task s =
    let previous = s.current_task in
    let s' =
      if is_running (s.store previous).state
      then enqueue_ready (record s { store = set_state s.store previous ready }) previous
      else s in
    record s' { current_task = task; store = set_state s'.store task running }

unfoldable pub wakeup : Ptr → Sched → Sched
wakeup task s =
    enqueue_ready (record s { store = set_wakeup (set_state s.store task ready) task (2 ^ 64 - 1) })
      task

-- `_wakeup(task); task->next = NULL`, in the loops below.
unfoldable pub wake_unlinked : Ptr → Sched → Sched
wake_unlinked task s = let s1 = wakeup task s in record s1 { store = set_next s1.store task null }

-- `clock n` is the time-stamp counter's n-th reading, and `interrupt n` what the interrupts taken
-- during the n-th halt do.
module _ (clock : ℕ → ℕ) where
  unfoldable pub get_cpu_time_ns : Sched → ℕ × Sched
  get_cpu_time_ns s = (clock s.reads / s.instr_per_ns, record s { reads = s.reads + 1 })

  unfoldable pub update_time : Sched → Sched
  update_time s =
      let (now, s1) = get_cpu_time_ns s in
      let delta = sub_u64 now s.last_time in
      if s.current_task == null
      then record s1 { idle_time = add_u64 s.idle_time delta; last_time = now }
      else record s1 {
        store = set_time s.store s.current_task (add_u64 (s.store s.current_task).time_used delta);
        last_time = now;
      }

  -- The end of `_schedule`: a new time slice, and the switch.
  unfoldable pub start_slice : Ptr → Sched → Sched
  start_slice task s =
      let (now, s1) = get_cpu_time_ns s in
      switch_to task (record s1 { time_slice_remaining = time_slice_size; last_timer_time = now })

module _ (clock : ℕ → ℕ) (interrupt : ℕ → Sched → Sched) where
  -- One halt: interrupts are taken between `sti` and `cli`.
  unfoldable pub halt : Sched → Sched
  halt s =
      let s' = interrupt s.halts (record s { interrupts = true; halts = s.halts + 1 }) in
      record s' { interrupts = false }

  unfoldable pub idle_loop : ℕ → Sched → Option (Ptr × Sched)
  idle_loop zero s = none
  idle_loop (suc n) s =
      let (task, s') = dequeue_ready (halt s) in
      let again = idle_loop n s' in if task == null then again else some (task, s')

  -- The branch of `_schedule` with nothing to run.
  unfoldable pub go_idle : ℕ → Sched → Option (Ptr × Sched)
  go_idle n s =
      let borrowed = s.current_task in
      let s1 = record (update_time clock (record s { time_slice_remaining = 0 })) {
        current_task = null;
      } in
      let (start, s2) = get_cpu_time_ns clock s1 in
      do
        (task, s3) ← idle_loop n (record s2 { idle_start = start })
        let s4 = record (update_time clock s3) { current_task = borrowed }
        let (now, s5) = get_cpu_time_ns clock s4
        let spent = sub_u64 s5.idle_start now
        some (task, record s5 { idle_start = spent; idle_time = add_u64 s5.idle_time spent })

  unfoldable pub schedule : ℕ → Sched → Option Sched
  schedule n s =
      if not (s.scheduler_postpone_count == 0)
      then some (record s { scheduler_postponed = true })
      else if s.current_task == null
      then some s
      else (let (task, s1) = dequeue_ready s in
          if task == null
          then (if is_running (s1.store s1.current_task).state
              then some (record s1 { time_slice_remaining = time_slice_size })
              else (do (next, s2) ← go_idle n s1; some (start_slice clock next s2)))
          else some (start_slice clock task (update_time clock s1)))

  unfoldable pub release_scheduler_lock : ℕ → Sched → Option Sched
  release_scheduler_lock n s =
      let count = sub_word s.scheduler_postpone_count 1 in
      let s1 = record s { scheduler_postpone_count = count } in
      do
        s2 ←
            (if (count == 0) && s.scheduler_postponed
              then schedule n (record s1 { scheduler_postponed = false })
              else some s1)
        some (leave_lock s2)

  unfoldable pub tasks_schedule : ℕ → Sched → Option Sched
  tasks_schedule n s = do s' ← schedule n (acquire_scheduler_lock s); release_scheduler_lock n s'

  unfoldable pub tasks_block_current : TaskState → ℕ → Sched → Option Sched
  tasks_block_current reason n s =
      let s1 = acquire_scheduler_lock s in
      do
        s2 ← schedule n (record s1 { store = set_state s1.store s1.current_task reason })
        release_scheduler_lock n s2

  unfoldable pub tasks_unblock : Ptr → ℕ → Sched → Option Sched
  tasks_unblock task n s =
      let s1 = acquire_scheduler_lock s in
      release_scheduler_lock n
        (enqueue_ready (record s1 { store = set_state s1.store task ready }) task)

  unfoldable pub tasks_nano_sleep_until : ℕ → ℕ → Sched → Option Sched
  tasks_nano_sleep_until time n s =
      let s1 = acquire_scheduler_lock s in
      let m = set_wakeup (set_state s1.store s1.current_task sleeping) s1.current_task time in
      do
        s2 ← schedule n (enqueue_sleeping (record s1 { store = m }) s1.current_task)
        release_scheduler_lock n s2

  unfoldable pub tasks_nano_sleep : ℕ → ℕ → Sched → Option Sched
  tasks_nano_sleep time n s =
      let (now, s') = get_cpu_time_ns clock s in tasks_nano_sleep_until (add_u64 now time) n s'

  unfoldable pub tasks_exit : ℕ → Sched → Option Sched
  tasks_exit n s =
      let s1 = acquire_scheduler_lock s in
      do
        s2 ← tasks_block_current stopped n (enqueue_stopped s1 s1.current_task)
        s3 ← tasks_unblock s2.cleaner_task n s2
        release_scheduler_lock n s3

  -- `struct task_sync` by its list of waiting tasks.
  unfoldable pub tasks_sync_block : TaskList → ℕ → Sched → Option (TaskList × Sched)
  tasks_sync_block waiting n s =
      let s1 = acquire_scheduler_lock s in
      let (m, waiting') = enqueue_task (s1.store, waiting) s1.current_task in
      do
        s2 ← tasks_block_current blocked n (record s1 { store = m })
        s3 ← release_scheduler_lock n s2
        some (waiting', s3)

-- The loop of `tasks_sync_unblock` from `task` on; `none` is more rounds than the fuel.
unfoldable pub unblock_loop : ℕ → Ptr → Sched → Option Sched
unblock_loop zero task s = none
unblock_loop (suc n) task s =
    let next = (s.store task).next in
    let s1 = wake_unlinked task s in
    let rest = unblock_loop n next s1 in if next == null then some s1 else rest

-- The loop of `_on_timer` over the sleeping tasks, from `task` with `pre` before it. The result is
-- the state and `need_schedule`.
unfoldable pub wake_loop : ℕ → ℕ → Ptr → Ptr → Bool → Sched → Option (Bool × Sched)
wake_loop time zero pre task need s = none
wake_loop time (suc n) pre task need s =
    let next = (s.store task).next in
    let kept = wake_loop time n task next need s in
    let woken : Option (Bool × Sched) = (do
      (m, l) ← remove_task (s.store, s.tasks_sleeping) task pre
      wake_loop time n pre next true
          (wake_unlinked task (record s { store = m; tasks_sleeping = l }))) in
    if task == null
    then some (need, s)
    else if leb (s.store task).wakeup_time time
    then woken
    else kept

-- The time slice part of `_on_timer`.
unfoldable pub count_slice : ℕ → Bool → Sched → Bool × Sched
count_slice time need s =
    if s.time_slice_remaining == 0
    then (need, s)
    else (let delta = sub_u64 time s.last_timer_time in
        let s1 = record s { last_timer_time = time } in
        if leb s.time_slice_remaining delta
        then (true, s1)
        else (need, record s1 { time_slice_remaining = s.time_slice_remaining - delta }))

module _ (clock : ℕ → ℕ) (interrupt : ℕ → Sched → Sched) where
  unfoldable pub tasks_sync_unblock : TaskList → ℕ → ℕ → Sched → Option (TaskList × Sched)
  tasks_sync_unblock waiting rounds n s =
      let s1 = acquire_scheduler_lock s in
      if waiting.head == null
      then (do s2 ← release_scheduler_lock clock interrupt n s1; some (waiting, s2))
      else (do
        s2 ← unblock_loop rounds waiting.head s1
        s3 ← schedule clock interrupt n s2
        s4 ← release_scheduler_lock clock interrupt n s3
        some (empty_list, s4))

  unfoldable pub on_timer : ℕ → ℕ → Sched → Option Sched
  on_timer rounds n s =
      let (time, s1) = get_cpu_time_ns clock (acquire_scheduler_lock s) in
      do
        (need, s2) ← wake_loop time rounds null s1.tasks_sleeping.head false s1
        let (need', s3) = count_slice time need s2
        s4 ← (if need' then schedule clock interrupt n s3 else some s3)
        release_scheduler_lock clock interrupt n s4
