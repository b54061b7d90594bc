-- ===== src/Boot.antt =====
-- Kernel/Bootloader: the boot loader's information and the kernel's command line.
pub mod Arguments
pub mod Handoff
pub mod Sections
mod Tests
pub mod Stage1
