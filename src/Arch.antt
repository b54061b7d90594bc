-- ===== src/Arch.antt =====
-- Kernel/Arch/i686: the interval timer, the descriptor tables and the dispatch of interrupts.
pub mod Timer
pub mod Segments
pub mod Gates
pub mod Interrupts
