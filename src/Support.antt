-- ===== src/Support.antt =====
-- Kernel/Support: the guards of static variables.
pub mod Guard
