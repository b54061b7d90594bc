-- ===== src/Memory/Paging/Init.antt =====
-- Kernel/Memory/paging.cpp, the part that sets the kernel's page tables up: `init` with the routines it
-- calls. The registration of the page fault's handler, the load of the page directory and the switch to
-- paging are instructions or other parts, and are left out.
pub mod Clear
pub mod Range
pub mod Kernel
mod Tests
use xyris.Base.{
  ℕ, zero, suc, ◌+◌, ◌-◌, ◌*◌, ◌/◌, ltb, if◌then◌else◌, Option, none, some, add_word, sub_word,
}
use xyris.Memory.Address.{arch_page_size, page_addr, page_align, page_align_up}
use xyris.Memory.Paging.{TableEntry, zero_entry, Paging, write_entry, map_kernel_page}
use xyris.Memory.Section.{Section, section, end_of}
use xyris.Memory.Virtual.{DirectoryEntry, directory_entry, write_directory}

-- The addresses that Kernel/Arch/i686/linker.ld fixes.
abbrev pub early_mem_start : ℕ
early_mem_start = 0

abbrev pub early_kernel_start : ℕ
early_kernel_start = 0x100000

abbrev pub kernel_base : ℕ
kernel_base = 0xc0000000

-- The addresses that the linker finds: `KERNEL_START`, `KERNEL_SIZE`, `pageTables`.
pub record Symbols : Type 0 where
  pub kernel_start : ℕ
  pub kernel_size : ℕ
  pub page_tables : ℕ

-- `KADDR_TO_PHYS`
abbrev pub kaddr_to_phys : ℕ → ℕ
kaddr_to_phys addr = sub_word addr kernel_base

-- `pageDirectory`, with the tables and the bitmaps.
pub record Directory : Type 0 where
  pub entries : ℕ → DirectoryEntry
  pub paging : Paging

-- The entry that `mapKernelPageTable` writes: `directory_entry` has the bits that it sets.
abbrev pub table_entry : Symbols → ℕ → DirectoryEntry
table_entry l idx =
    directory_entry (page_addr (kaddr_to_phys (add_word l.page_tables (idx * arch_page_size))))

abbrev pub map_kernel_page_table : Symbols → ℕ → (ℕ → DirectoryEntry) → ℕ → DirectoryEntry
map_kernel_page_table l idx dirs = write_directory dirs idx (table_entry l idx)

-- The inner loop of `initDirectory` on table `i` from entry `j` on, with `n` rounds left.
unfoldable pub clear_entries : ℕ → (ℕ → ℕ → TableEntry) → ℕ → ℕ → ℕ → ℕ → TableEntry
clear_entries zero tables i j = tables
clear_entries (suc n) tables i j = clear_entries n (write_entry tables i j zero_entry) i (j + 1)

-- The outer loop of `initDirectory` from table `i` on, with `n` rounds left.
unfoldable pub init_tables : Symbols → ℕ → Directory → ℕ → Directory
init_tables l zero s i = s
init_tables l (suc n) s i =
    init_tables l n
      (record s {
        entries = map_kernel_page_table l i s.entries;
        paging = record s.paging { tables = clear_entries 1024 s.paging.tables i 0 };
      })
      (i + 1)

-- `initDirectory`
unfoldable pub init_directory : Symbols → Directory → Directory
init_directory l s = init_tables l 1023 s 0

-- How a loop over a range ends: with the pages mapped, in a panic, or not in the rounds given.
pub data RangeEnd : Type 0 where
  mapped : Paging → RangeEnd
  panics : RangeEnd
  unfinished : RangeEnd

abbrev pub next_page : (Paging → RangeEnd) → Option Paging → RangeEnd
next_page rest none = panics
next_page rest (some s) = rest s

-- The loops of `mapKernelRangeVirtual` and `mapKernelRangePhysical` from address `a` on, which map an
-- address to its `translate`d one, in at most `n` rounds.
unfoldable pub map_addresses : (ℕ → ℕ) → ℕ → ℕ → Paging → ℕ → RangeEnd
map_addresses translate zero end s a = if ltb a end then unfinished else mapped s
map_addresses translate (suc n) end s a =
    let rest : Paging → RangeEnd =
      λ t. map_addresses translate n end t (add_word a arch_page_size) in
    if ltb a end then next_page rest (map_kernel_page s a (translate a)) else mapped s

-- `mapKernelRangeVirtual`, `mapKernelRangePhysical`
abbrev pub map_kernel_range_virtual : ℕ → Paging → Section → RangeEnd
map_kernel_range_virtual n s sect = map_addresses (λ a. a) n (end_of sect) s sect.base

abbrev pub map_kernel_range_physical : ℕ → Paging → Section → RangeEnd
map_kernel_range_physical n s sect = map_addresses kaddr_to_phys n (end_of sect) s sect.base

-- `mapEarlyMem`
abbrev pub map_early_mem : ℕ → Paging → RangeEnd
map_early_mem n s =
    map_kernel_range_virtual n s (section early_mem_start (early_kernel_start - early_mem_start))

-- `mapKernel`
abbrev pub map_kernel : Symbols → ℕ → Paging → RangeEnd
map_kernel l n s =
    map_kernel_range_physical n s
      (section (page_align l.kernel_start) (page_align_up l.kernel_size))

abbrev pub then_map : (Paging → RangeEnd) → RangeEnd → RangeEnd
then_map rest (mapped s) = rest s
then_map rest panics = panics
then_map rest unfinished = unfinished

-- `init`: the directory, and how the mapping ends.
unfoldable pub init : Symbols → ℕ → Directory → (ℕ → DirectoryEntry) × RangeEnd
init l n s =
    let cleared = init_directory l s in
    (cleared.entries, then_map (map_kernel l n) (map_early_mem n cleared.paging))
