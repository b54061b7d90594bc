-- ===== src/Library.antt =====
-- The data structures and routines under Kernel/Library.
pub mod Bitset
pub mod Errno
pub mod LinkedList
pub mod Memory
pub mod RingBuffer
pub mod Strings
