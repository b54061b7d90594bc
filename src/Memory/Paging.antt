-- ===== src/Memory/Paging.antt =====
-- Kernel/Memory/paging.cpp and the table entries of Kernel/Arch/i686/Memory/Types.h: the kernel's page
-- tables, with the bitmaps of virtual pages and of physical frames. The lock, the log and the
-- translation buffer are left out.
pub mod Consistent
pub mod Free
pub mod Init
pub mod MapPage
pub mod NewPage
pub mod Bounds
mod Tests
use xyris.Base.{
  ℕ, zero, suc, ◌+◌, ◌*◌, ◌/◌, ◌%◌, ◌^◌, Bool, true, false, not, ◌&&◌, ◌==◌, ltb, if◌then◌else◌,
  Option, none, some, size_max, word, add_word, sub_word,
}
use xyris.Library.Bitset.{Bitset, set_bit, clear, test, find_first_range}
use xyris.Memory.Address.{
  VirtualAddress, virtual_address, page_addr, arch_page_size, arch_page_table_entries, page_count,
}
use xyris.Memory.Physical.{
  Manager, mem_bitmap_size, set_free, set_used, find_next_free_physical_address,
}
use xyris.Memory.Section.{Section, end_of}

-- `struct TableEntry`, a bit as a Boolean; `unused` holds three bits, `page_addr` twenty.
pub record TableEntry : Type 0 where
  pub present : Bool
  pub read_write : Bool
  pub usermode : Bool
  pub write_through : Bool
  pub cache_disable : Bool
  pub accessed : Bool
  pub dirty : Bool
  pub page_attr_table : Bool
  pub global : Bool
  pub unused : ℕ
  pub page_addr : ℕ

-- The entry after `memset(entry, 0, sizeof(...))`.
abbrev pub zero_entry : TableEntry
zero_entry = record {
  present = false;
  read_write = false;
  usermode = false;
  write_through = false;
  cache_disable = false;
  accessed = false;
  dirty = false;
  page_attr_table = false;
  global = false;
  unused = 0;
  page_addr = 0;
}

-- The entry that `mapKernelPage` writes.
abbrev pub kernel_entry : ℕ → TableEntry
kernel_entry frame = record zero_entry { present = true; read_write = true; page_addr = frame }

-- `pageTables`, `virtualMemoryBitset` and the physical memory manager.
pub record Paging : Type 0 where
  pub tables : ℕ → ℕ → TableEntry
  pub virtual_memory : Bitset
  pub physical : Manager

abbrev pub write_entry : (ℕ → ℕ → TableEntry) → ℕ → ℕ → TableEntry → ℕ → ℕ → TableEntry
write_entry tables pde pte entry d t = if (pde == d) && (pte == t) then entry else tables d t

abbrev new_mapping : Paging → ℕ → ℕ → Paging
new_mapping s vaddr paddr = record {
  tables =
      write_entry s.tables (vaddr / 2 ^ 22 % 2 ^ 10) (vaddr / 2 ^ 12 % 2 ^ 10)
        (kernel_entry (page_addr paddr));
  virtual_memory = set_bit s.virtual_memory (page_addr vaddr);
  physical = set_used s.physical paddr;
}

-- `mapKernelPage`: none where the kernel panics.
unfoldable pub map_kernel_page : Paging → ℕ → ℕ → Option Paging
unfolding virtual_address
map_kernel_page s vaddr paddr =
    let entry = s.tables (virtual_address vaddr).dir_index (virtual_address vaddr).table_index in
    if not ((virtual_address vaddr).offset == 0)
    then none
    else (if entry.present
        then (if entry.page_addr == page_addr paddr then some s else none)
        else some (new_mapping s vaddr paddr))

abbrev pub is_present : Paging → ℕ → Bool
is_present s addr = test s.virtual_memory (addr / 2 ^ 12)

abbrev pub find_next_free_virtual_address : ℕ → Paging → ℕ → ℕ
find_next_free_virtual_address beyond s seq =
    find_first_range beyond mem_bitmap_size s.virtual_memory seq false

-- How a call ends: with a result in a state, or in a panic. The null pointer is 0.
pub data Outcome : Type 0 where
  returned : Paging → ℕ → Outcome
  panicked : Outcome

-- The rounds of the loop of `newPage` for page `i` on, `n` of them; `addr` is what it returns then.
abbrev map_frame : Paging → ℕ → ℕ → Option Paging
map_frame s i frame = map_kernel_page s (i * arch_page_size % word) (frame * arch_page_size % word)

abbrev next_round : (Paging → Outcome) → Option Paging → Outcome
next_round rest none = panicked
next_round rest (some s) = rest s

unfoldable pub map_pages : ℕ → ℕ → Paging → ℕ → Outcome
map_pages zero addr s i = returned s addr
map_pages (suc n) addr s i =
    let frame = find_next_free_physical_address s.physical in
    let rest : Paging → Outcome = λ t. map_pages n addr t (i + 1) in
    if frame == size_max then returned s 0 else next_round rest (map_frame s i frame)

-- `newPage`
unfoldable pub new_page : ℕ → Paging → ℕ → Outcome
new_page beyond s size =
    let free_idx = find_next_free_virtual_address beyond s (page_count size) in
    if free_idx == size_max
    then returned s 0
    else map_pages (page_count size) (free_idx * arch_page_size % word) s free_idx

abbrev must_succeed : Outcome → Outcome
must_succeed panicked = panicked
must_succeed (returned s addr) = if addr == 0 then panicked else returned s addr

-- `newPageMustSucceed`
unfoldable pub new_page_must_succeed : ℕ → Paging → ℕ → Outcome
new_page_must_succeed beyond s size = must_succeed (new_page beyond s size)

-- One round of the loop of `freePage`: the frame's index is given to `setFree` as an address.
abbrev free_round : Paging → ℕ → Paging
free_round s i =
    let pte = s.tables (i / arch_page_table_entries) (i % arch_page_table_entries) in
    record {
      tables =
          write_entry s.tables (i / arch_page_table_entries) (i % arch_page_table_entries)
            zero_entry;
      virtual_memory = clear s.virtual_memory i;
      physical = set_free s.physical pte.page_addr;
    }

unfoldable pub free_rounds : ℕ → Paging → ℕ → Paging
free_rounds zero s i = s
free_rounds (suc n) s i = free_rounds n (free_round s i) (i + 1)

-- `freePage`
unfoldable pub free_page : Paging → ℕ → ℕ → Paging
unfolding virtual_address
free_page s page size = free_rounds (page_count size) s (virtual_address page).table_index
