-- ===== src/Memory.antt =====
-- Kernel/Memory and the address types of Kernel/Arch/i686/Memory.
pub mod Address
pub mod Paging
pub mod Physical
pub mod Section
pub mod Virtual
