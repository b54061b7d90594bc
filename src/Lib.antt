-- ===== src/Lib.antt =====
-- Models and proofs for the Xyris kernel (Kernel/, C++ for 32-bit x86).
--
-- The kernel is a set of managers with static state: a preemptive round-robin scheduler, a manager of
-- physical frames, the kernel's page tables, a logger and devices. The scheduler and the locks share
-- one counter; paging takes its frames from the physical manager, which the boot loader's memory map
-- fills; both bitmaps of memory are the same bitset template; the logger writes to the devices.
--
-- Files, with the code that they model:
-- - Applications/Primes: the sieve of Kernel/Applications/primes.cpp.
-- - Arch/Gates and Arch/Interrupts: Kernel/Arch/i686/idt.cpp and isr.cpp, with their headers.
--   `set_gate` is setGate; `init`, `register_handler` and `interrupt_handler` are the functions of isr.cpp.
--   What `writeByte` does to the state is a parameter of `interrupt_handler`.
-- - Arch/Segments: Kernel/Arch/i686/gdt.cpp and gdt.hpp.
-- - Arch/Timer: Kernel/Arch/i686/timer.cpp.
-- - Base: shared names, Boolean tests, lists over native numbers and of pointers, 32-bit words, bits,
--   search loops.
-- - Boot: Kernel/Bootloader/Handoff.cpp (parseStivale2) and Arguments.cpp (parseCommandLine).
-- - Boot/Stage1: the page tables of Kernel/Arch/i686/Bootloader/stivale2.c. Entries of tables are numbered
--   by their physical address; `map_loop` is the form of its three loops.
-- - Clock: Kernel/Devices/Clock/rtc.cpp (the end of read, getJulianDay, getUnixEpoch) and
--   Kernel/Library/time.cpp (converterEpochToDate). Clock/Read is read itself and getEpoch; the clock's
--   registers are a function from the number of the read and the register.
-- - Devices/Console: Kernel/Devices/Graphics/console.cpp. `put_char` is putchar, `write` is write;
--   `in_bracket` and `in_value` are the cases of the first switch, `place`, `wrap_line` and
--   `stay_on_screen` the second switch and what follows it.
-- - Devices/Graphics: Kernel/Devices/Graphics/graphics.cpp, framebuffer.cpp and font.cpp. `draw` and
--   `draw_over` are the two forms of Draw.
-- - Devices/Serial: Kernel/Devices/Serial/rs232.cpp (callback, read, write).
-- - Library/Bitset: Kernel/Library/Bitset.hpp, a method as a function with its name.
-- - Library/LinkedList: Kernel/Library/LinkedList.hpp, nodes as addresses in a memory.
-- - Library/RingBuffer and Library/Errno: Kernel/Library/RingBuffer.hpp and errno.hpp.
-- - Library/Memory: memset, memcpy, memmove and memcmp of Kernel/Library/string.cpp.
-- - Library/Strings: strcmp and strstr of Kernel/Library/string.cpp. Library/Strings/Buffers: the
--   functions of that file that write strings (strcat, strcpy, strncpy, reverse, itoa), and strlen.
-- - Locking: Kernel/Locking/Mutex.cpp and Semaphore.cpp as steps of tasks; a step is an atomic access or
--   a call of the scheduler.
-- - Logger: Kernel/Logger.cpp and Logger.hpp.
-- - Memory/Address: Kernel/Arch/i686/Memory (Types.h, Address.hpp, Functions.h) and the macros of
--   Kernel/Arch/Memory.hpp.
-- - Memory/Section: Kernel/Memory/MemorySection.hpp and MemoryMap.hpp.
-- - Memory/Physical: Kernel/Memory/Physical.hpp.
-- - Memory/Paging: Kernel/Memory/paging.cpp. `map_kernel_page`, `new_page` and `free_page` are
--   mapKernelPage, newPage and freePage; `map_pages` and `free_rounds` are their loops.
--   Memory/Paging/Init is init with initDirectory, mapEarlyMem and mapKernel; `map_addresses` is the
--   loop of both mapKernelRange functions.
-- - Memory/Virtual: Kernel/Memory/Virtual.cpp. `ensure_table` and `enter_page` are the two parts of
--   mapPhysicalToVirtual, `search_dirs` and `search_table` the loops of findFirstFreePageRange, and
--   `map_range` is the loop of map.
-- - Scheduler/Create: tasks_init, tasks_new, _discover_cpu_speed and the cleaner of
--   Kernel/Scheduler/tasks.cpp. malloc and free are parameters; the pages come from Memory/Paging.
-- - Scheduler/TaskList: the queues of Kernel/Scheduler/tasks.cpp as links in a store of tasks.
-- - Scheduler/Tasks: the scheduler of Kernel/Scheduler/tasks.cpp, with the switch of
--   Kernel/Arch/i686/Assembly/tasks.s.
-- - Support/Guard: Kernel/Support/cxa_guard.cpp as steps of tasks.
--
-- A static variable or a member is a field of a record; an operation takes the record and returns the
-- new one. A panic is `none` or a constructor of its own, and so is an access outside of an array
-- where a comment says so. Integers are native numbers with the wrap of their width written out. The
-- page tables and memory are functions from indices and addresses.
--
-- Loops run by structural recursion on the number of rounds that the code's own bound gives: the
-- bits of a set, the pages of a section or of a request, the bytes of an area, the values on the
-- console's stack. The tab loop of the console is given four rounds, the distance between two stops.
-- The scheduler's idle loop takes the number of halts that an idle period may last as its fuel.
-- The loops of the sieve, of rectangles, of a linked list's destructor and of isPageRangeFree, whose
-- end depends on sums that may wrap, take a number of rounds; the theorems say how many are enough.
--
-- Loops that wait for hardware (a tick, the clock's registers) or walk a linked list of tasks take
-- fuel; the theorems ask for one round more than the list has tasks, or for the reading that ends the wait.
-- The loops over strings in memory are given one round more than the string has characters, those of
-- itoa 13, and the loops of init that map ranges 2049, since the kernel is less than 7 MiB long.
-- The loops of stage 1 are given more rounds than the kernel's two page tables have entries.
--
-- Not modelled: port input and output other than the bytes that are written at set-up, instructions
-- (loads of the descriptor tables and of the page directory), the layout of the boot protocol, printf,
-- the heap's allocator, text of log messages, the locks around devices (one caller is at work), the
-- translation buffer, the generator of random numbers, which nothing calls, the other demonstration
-- programs, and build scripts.
pub mod Applications
pub mod Arch
pub mod Base
pub mod Boot
pub mod Clock
pub mod Devices
pub mod Library
pub mod Locking
pub mod Logger
pub mod Memory
pub mod Scheduler
pub mod Support
