-- ===== src/Scheduler.antt =====
-- Kernel/Scheduler: task control blocks, the queues that link them, and the scheduler.
pub mod Task
pub mod TaskList
pub mod Tasks
pub mod Create
