-- ===== src/Memory/Virtual.antt =====
-- Kernel/Memory/Virtual.cpp and Virtual.hpp: the manager of a range of virtual addresses. `tables` is
-- the memory that `getTable` refers to, a page table for each directory entry, which the source assumes
-- to be mapped in. The lock and the log are left out.
pub mod FirstFit
pub mod Mapping
pub mod Range
pub mod Requests
pub mod Scan
mod Tests
use xyris.Base.{
  ℕ, zero, suc, ◌+◌, ◌-◌, ◌*◌, ◌/◌, ◌%◌, ◌^◌, Bool, true, false, not, ◌&&◌, ◌||◌, ◌==◌, ltb, leb,
  if◌then◌else◌, Option, none, some, size_max, word, add_word,
}
use xyris.Base.Maybe.{◌>>=◌}
use xyris.Memory.Address.{
  virtual_address, of_virtual_address, page_addr, page_align, page_align_up, b_to_pages,
  arch_page_size, arch_page_table_entries,
}
use xyris.Memory.Paging.{TableEntry, zero_entry, write_entry}
use xyris.Memory.Physical.{Manager, get_page}

-- `struct DirectoryEntry`, a bit as a Boolean; `ignored_b` holds four bits, `table_addr` twenty.
pub record DirectoryEntry : Type 0 where
  pub present : Bool
  pub read_write : Bool
  pub usermode : Bool
  pub write_through : Bool
  pub cache_disable : Bool
  pub accessed : Bool
  pub ignored_a : Bool
  pub size : Bool
  pub ignored_b : ℕ
  pub table_addr : ℕ

-- `class Manager`, with the page tables and the physical memory manager.
pub record VirtualManager : Type 0 where
  pub directory : ℕ → DirectoryEntry
  pub tables : ℕ → ℕ → TableEntry
  pub range_start : ℕ
  pub range_size : ℕ
  pub range_end : ℕ
  pub search_start : ℕ
  pub physical : Manager

-- The constructor without a name of the lock.
abbrev pub virtual_manager :
    (ℕ → DirectoryEntry) → (ℕ → ℕ → TableEntry) → Manager → ℕ → ℕ → VirtualManager
virtual_manager dir tables physical start size = record {
  directory = dir;
  tables = tables;
  range_start = start;
  range_size = size;
  range_end = add_word start size;
  search_start = start;
  physical = physical;
}

abbrev pub npos : ℕ
npos = size_max

-- The bit fields of an address.
abbrev pub dir_index : ℕ → ℕ
dir_index addr = addr / 2 ^ 22 % 2 ^ 10

abbrev pub table_index : ℕ → ℕ
table_index addr = addr / 2 ^ 12 % 2 ^ 10

abbrev pub directory_entry : ℕ → DirectoryEntry
directory_entry frame = record {
  present = true;
  read_write = true;
  usermode = false;
  write_through = false;
  cache_disable = false;
  accessed = false;
  ignored_a = false;
  size = false;
  ignored_b = 0;
  table_addr = frame;
}

abbrev pub write_directory : (ℕ → DirectoryEntry) → ℕ → DirectoryEntry → ℕ → DirectoryEntry
write_directory dirs d entry e = if d == e then entry else dirs e

-- `memset(&table, 0, sizeof(table))`
abbrev clear_table : (ℕ → ℕ → TableEntry) → ℕ → ℕ → ℕ → TableEntry
clear_table tables d e t = if d == e then zero_entry else tables e t

-- The flags of `enum MapFlags`: bit 0 READ_ONLY, bit 1 USERMODE, bit 2 WRITE_THROUGH, bit 3
-- CACHE_DISABLE.
abbrev pub has_flag : ℕ → ℕ → Bool
has_flag flags bit = flags / 2 ^ bit % 2 == 1

-- The entry that a mapping gets.
abbrev pub mapped_entry : ℕ → ℕ → TableEntry
mapped_entry paddr flags = record zero_entry {
  present = true;
  read_write = not (has_flag flags 0);
  usermode = has_flag flags 1;
  write_through = has_flag flags 2;
  cache_disable = has_flag flags 3;
  page_addr = page_addr paddr;
}

-- A directory entry that is not present gets a new table: the first part of `mapPhysicalToVirtual`.
abbrev new_table : VirtualManager → ℕ → Manager × ℕ → VirtualManager
new_table s d page = record s {
  directory = write_directory s.directory d (directory_entry (page_addr page.1));
  tables = clear_table s.tables d;
  physical = page.0;
}

unfoldable pub ensure_table : VirtualManager → ℕ → Option VirtualManager
ensure_table s d =
    let made = get_page s.physical >>= λ page. some (new_table s d page) in
    if (s.directory d).present then some s else made

-- The second part.
unfoldable pub enter_page : VirtualManager → ℕ → ℕ → ℕ → Option VirtualManager
enter_page s paddr vaddr flags =
    if (s.tables (dir_index vaddr) (table_index vaddr)).present
    then none
    else some (record s {
      tables =
          write_entry s.tables (dir_index vaddr) (table_index vaddr) (mapped_entry paddr flags);
    })

-- `mapPhysicalToVirtual`: none where the kernel panics.
unfoldable pub map_physical_to_virtual : VirtualManager → ℕ → ℕ → ℕ → Option VirtualManager
map_physical_to_virtual s paddr vaddr flags =
    ensure_table s (dir_index vaddr) >>= λ t. enter_page t paddr vaddr flags

-- `virtualToPhysical`: the result, or none where the method returns false.
unfoldable pub virtual_to_physical : VirtualManager → ℕ → Option ℕ
virtual_to_physical s vaddr =
    let entry = s.tables (dir_index vaddr) (table_index vaddr) in
    if not (s.directory (dir_index vaddr)).present || not entry.present
    then none
    else some (entry.page_addr * 2 ^ 12 % word)

-- `initDirectory`, with the address of the directory: none where the kernel panics.
unfoldable pub init_directory : VirtualManager → ℕ → Option VirtualManager
init_directory s self = virtual_to_physical s self >>= λ paddr. some (record s {
  directory =
      write_directory s.directory 1023
        (record (directory_entry (page_addr paddr)) { present = false; read_write = false });
})

-- `isPageFree`, `isPageRangeFree`: with `n` rounds at most, none where more would follow.
unfoldable pub is_page_free : VirtualManager → ℕ → Bool
is_page_free s vaddr =
    let page = page_align vaddr in
    let dir = s.directory (dir_index page) in
    let entry = s.tables (dir_index page) (table_index page) in
    if not dir.present then false else (if not entry.present then false else true)

unfoldable pub pages_free : ℕ → VirtualManager → ℕ → ℕ → Option Bool
pages_free zero s page end = if ltb page end then none else some true
pages_free (suc n) s page end =
    let rest = pages_free n s (add_word page arch_page_size) end in
    if ltb page end then (if not (is_page_free s page) then some false else rest) else some true

unfoldable pub is_page_range_free : ℕ → VirtualManager → ℕ → ℕ → Option Bool
is_page_range_free n s vaddr size =
    pages_free n s (page_align vaddr) (add_word (page_align vaddr) (page_align_up size))

-- Where the search stands: it returns, or goes on with `freeRange` and `freeRangeAddress`.
pub data Search : Type 0 where
  found : ℕ → Search
  going : ℕ → ℕ → Search

abbrev pub go_on : (ℕ → ℕ → Search) → Search → Search
go_on rest (found addr) = found addr
go_on rest (going free addr) = rest free addr

-- `count` free pages from the address `here` on.
unfoldable pub add_free : ℕ → ℕ → ℕ → ℕ → ℕ → Search
add_free range count here free addr =
    let start = if free == 0 then here else addr in
    let total = add_word free count in if leb range total then found start else going total start

abbrev pub address_of : ℕ → ℕ → ℕ
address_of dir table =
    of_virtual_address (record { offset = 0; table_index = table; dir_index = dir })

-- One round of the inner loop, and the loop from `table` on.
abbrev pub search_page : VirtualManager → ℕ → ℕ → ℕ → ℕ → ℕ → Search
search_page s range dir table free addr =
    if not (s.tables dir table).present
    then add_free range 1 (address_of dir table) free addr
    else going 0 addr

unfoldable pub search_table : ℕ → VirtualManager → ℕ → ℕ → ℕ → ℕ → ℕ → Search
search_table zero s range dir table free addr = going free addr
search_table (suc n) s range dir table free addr =
    go_on (λ f a. search_table n s range dir (table + 1) f a)
      (search_page s range dir table free addr)

-- One round of the outer loop, and the loop from `dir` on.
abbrev pub search_dir : VirtualManager → ℕ → ℕ → ℕ → ℕ → Search
search_dir s range dir free addr =
    let start = if dir == dir_index s.search_start then table_index s.search_start else 0 in
    let inside = search_table (arch_page_table_entries - start) s range dir start free addr in
    if not (s.directory dir).present
    then add_free range arch_page_table_entries (address_of dir 0) free addr
    else inside

unfoldable pub search_dirs : ℕ → VirtualManager → ℕ → ℕ → ℕ → ℕ → Search
search_dirs zero s range dir free addr = going free addr
search_dirs (suc n) s range dir free addr =
    go_on (λ f a. search_dirs n s range (dir + 1) f a) (search_dir s range dir free addr)

abbrev pub search_result : Search → ℕ
search_result (found addr) = addr
search_result (going free addr) = npos

-- `findFirstFreePageRange`
unfoldable pub find_first_free_page_range : VirtualManager → ℕ → ℕ
find_first_free_page_range s range =
    let first = dir_index s.search_start in
    search_result (search_dirs (dir_index s.range_end - first) s range first 0 npos)

-- How `map` ends: with an address, in a panic, or not within the rounds of `isPageRangeFree`.
pub data MapResult : Type 0 where
  returned : VirtualManager → ℕ → MapResult
  panicked : MapResult
  unfinished : MapResult

-- The rounds of the loop of `map`: the physical page is taken first.
abbrev pub next_map : (VirtualManager → MapResult) → Option VirtualManager → MapResult
next_map rest none = panicked
next_map rest (some t) = rest t

abbrev pub map_page : VirtualManager → ℕ → ℕ → Option VirtualManager
map_page s vaddr flags = get_page s.physical >>= λ page.
    map_physical_to_virtual (record s { physical = page.0 }) page.1 vaddr flags

unfoldable pub map_range : ℕ → VirtualManager → ℕ → ℕ → MapResult
map_range zero s vaddr flags = returned s vaddr
map_range (suc n) s vaddr flags =
    next_map (λ t. map_range n t (add_word vaddr arch_page_size) flags) (map_page s vaddr flags)

-- What `map` does at a requested address, behind the comparison with the range.
abbrev map_requested : VirtualManager → ℕ → ℕ → ℕ → Option Bool → MapResult
map_requested s pages vaddr flags none = unfinished
map_requested s pages vaddr flags (some false) = returned s 0
map_requested s pages vaddr flags (some true) = map_range pages s vaddr flags

-- `map`; the null pointer is 0.
unfoldable pub map : ℕ → VirtualManager → ℕ → ℕ → ℕ → MapResult
map n s vaddr size flags =
    let pages = b_to_pages size in
    let outside = ltb vaddr s.range_start || ltb s.range_end (add_word vaddr pages) in
    let requested = map_requested s pages vaddr flags (is_page_range_free n s vaddr pages) in
    if vaddr == npos
    then map_range pages s (find_first_free_page_range s pages) flags
    else (if outside then returned s 0 else requested)
