-- ===== src/Boot/Stage1.antt =====
-- Kernel/Arch/i686/Bootloader/stivale2.c: the page tables with which stage 1 enters the higher half.
-- The entries of page tables are numbered by their physical address: entry `i` of the table in frame `f`
-- is number `f * 1024 + i`. What the linker and the boot loader decide is a parameter. Stage 1's end, which
-- loads the tables and jumps to stage 2, is not modelled. `none` is the early panic, or a loop that runs
-- longer than its fuel.
pub mod Loop
pub mod Maps
pub mod Walk
pub mod Higher
pub mod Start
mod Tests
use Prim.Native.Nat.{bit_and, bit_or}
use xyris.Base.{
  ℕ, zero, suc, ◌+◌, ◌*◌, ◌/◌, ◌%◌, ◌^◌, Bool, true, false, ◌&&◌, ◌==◌, ltb, if◌then◌else◌, Option,
  none, some, List, [], ◌∷◌, add_word, sub_word,
}
use xyris.Base.Maybe.{◌>>=◌}
use xyris.Memory.Paging.{TableEntry}

-- `struct DirectoryEntry`, a bit as a Boolean.
pub record DirectoryEntry : Type 0 where
  pub present : Bool
  pub read_write : Bool
  pub usermode : Bool
  pub write_through : Bool
  pub cache_disable : Bool
  pub accessed : Bool
  pub ignored_a : Bool
  pub size : Bool
  pub ignored_b : ℕ
  pub table_addr : ℕ

-- `pageDirectory`, and the entries of the tables.
pub record Tables : Type 0 where
  pub directory : ℕ → DirectoryEntry
  pub entries : ℕ → TableEntry

-- The frames of the static tables and the addresses of the linker script.
pub record Layout : Type 0 where
  pub low_memory_page_table : ℕ
  pub kernel_page_table : ℕ
  pub boot_page_table : ℕ
  pub early_kernel_end : ℕ
  pub kernel_start : ℕ
  pub kernel_end : ℕ

-- `KERNEL_BASE`
abbrev pub kernel_base : ℕ
kernel_base = 0xc0000000

abbrev pub page_size : ℕ
page_size = 4096

-- An entry is made present and writable, and gets an address of 20 bits.
unfoldable pub set_directory : Tables → ℕ → ℕ → Tables
set_directory t idx table = record t {
  directory = λ d.
      if d == idx
      then record (t.directory idx) {
        present = true;
        read_write = true;
        table_addr = table % 2 ^ 20;
      }
      else t.directory d;
}

unfoldable pub set_entry : Tables → ℕ → ℕ → Tables
set_entry t n page = record t {
  entries = λ m.
      if m == n
      then record (t.entries n) { present = true; read_write = true; page_addr = page % 2 ^ 20 }
      else t.entries m;
}

-- The loops `for (addr = start; addr < end; addr += ARCH_PAGE_SIZE)`; `step` is the body.
unfoldable pub map_loop : (Tables → ℕ → Tables) → ℕ → ℕ → ℕ → Tables → Option Tables
map_loop step end zero addr t = none
map_loop step end (suc n) addr t =
    let rest = map_loop step end n (add_word addr page_size) (step t addr) in
    if ltb addr end then rest else some t

-- The bodies of the loops, with the frame of the table.
unfoldable pub map_low : ℕ → Tables → ℕ → Tables
map_low table t addr = set_entry t (table * 1024 + bit_and (addr / 2 ^ 12) 0x3ff) (addr / 2 ^ 12)

-- The two tables of the kernel follow each other, so that the second's entries are those from 1024 on.
unfoldable pub map_high : ℕ → Tables → ℕ → Tables
map_high table t addr =
    set_entry t (table * 1024 + bit_and (addr / 2 ^ 12) (bit_or 0x400 0x3ff))
      (sub_word (addr / 2 ^ 12) (kernel_base / 2 ^ 12))

-- `stage1MapLowMemory`
unfoldable pub stage1_map_low_memory : Layout → ℕ → Tables → Option Tables
stage1_map_low_memory l n t =
    map_loop (map_low l.low_memory_page_table) l.early_kernel_end n page_size
      (set_directory t 0 l.low_memory_page_table)

-- `stage1MapHighMemory`
unfoldable pub stage1_map_high_memory : Layout → ℕ → Tables → Option Tables
stage1_map_high_memory l n t =
    let idx : ℕ = l.kernel_start / 2 ^ 22 in
    map_loop (map_high l.kernel_page_table) l.kernel_end n l.kernel_start
      (set_directory (set_directory t idx l.kernel_page_table) (idx + 1) (l.kernel_page_table + 1))

-- An entry of the memory map, and a tag of the boot information, at its address; the memory map's
-- entries are empty for other tags.
pub record MemoryMapEntry : Type 0 where
  pub base : ℕ
  pub length : ℕ
  pub bootloader_reclaimable : Bool

pub record Tag : Type 0 where
  pub address : ℕ
  pub is_memmap : Bool
  pub memmap : List MemoryMapEntry

unfoldable pub find_length : ℕ → List MemoryMapEntry → Option ℕ
find_length address [] = none
find_length address (e ∷ es) =
    let rest = find_length address es in
    if e.bootloader_reclaimable && (e.base % 2 ^ 32 == address)
    then some (e.length % 2 ^ 32)
    else rest

abbrev pub or_else : Option ℕ → Option ℕ → Option ℕ
or_else none next = next
or_else (some n) next = some n

-- `stage1GetBootInfoAddr`
unfoldable pub stage1_get_boot_info_addr : List Tag → Option ℕ
unfolding find_length
stage1_get_boot_info_addr [] = none
stage1_get_boot_info_addr (tag ∷ tags) =
    let rest = stage1_get_boot_info_addr tags in
    if tag.is_memmap then or_else (find_length tag.address tag.memmap) rest else rest

-- The table for the boot information: the one that its directory entry has, or `bootPageTable`.
unfoldable pub boot_table : Layout → Tables → ℕ → ℕ × Tables
boot_table l t idx =
    if (t.directory idx).present
    then ((t.directory idx).table_addr, t)
    else (l.boot_page_table, set_directory t idx l.boot_page_table)

-- `stage1MapBootloader`, for the tags at `info`.
unfoldable pub stage1_map_bootloader : Layout → ℕ → List Tag → ℕ → Tables → Option Tables
stage1_map_bootloader l info tags n t =
    let (table, t') = boot_table l t (info / 2 ^ 22) in
    do
      length ← stage1_get_boot_info_addr tags
      map_loop (map_low table) (add_word info length) n info t'

-- The part of `stage1Entry` that fills the tables.
unfoldable pub stage1_entry : Layout → ℕ → List Tag → ℕ → Tables → Option Tables
stage1_entry l info tags n t = do
  low ← stage1_map_low_memory l n t
  high ← stage1_map_high_memory l n low
  stage1_map_bootloader l info tags n high
