-- ===== src/Memory/Section.antt =====
-- Kernel/Memory/MemorySection.hpp and MemoryMap.hpp: sections of memory and the boot memory map.
pub mod Contains
mod Tests
use xyris.Base.{ℕ, ◌/◌, Bool, not, ◌&&◌, ◌==◌, leb, add_word, List, get_or, set}
use xyris.Memory.Address.{arch_page_size}

-- `enum Type`
pub data Kind : Type 0 where
  available reserved acpi nvs bad bootloader kernel unknown : Kind

pub record Section : Type 0 where
  pub base : ℕ
  pub size : ℕ
  pub kind : Kind

-- The constructors.
abbrev pub empty_section : Section
empty_section = record { base = 0; size = 0; kind = unknown }

abbrev pub section : ℕ → ℕ → Section
section base size = record { base = base; size = size; kind = unknown }

unfoldable pub initialized : Section → Bool
initialized s = not (s.base == 0) && not (s.size == 0)

abbrev pub end_of : Section → ℕ
end_of s = add_word s.base s.size

abbrev pub pages : Section → ℕ
pages s = s.size / arch_page_size

unfoldable pub is_empty : Section → Bool
is_empty s = s.size == 0

unfoldable pub contains : Section → ℕ → Bool
contains s addr = leb addr (end_of s) && leb addr s.base

abbrev pub is_available : Kind → Bool
is_available available = Bool.true
is_available _ = Bool.false

-- `MemoryMap`: 32 sections. A read outside of the array gives an empty section here.
abbrev pub MemoryMap : Type 0
MemoryMap = List Section

abbrev pub max_sections : ℕ
max_sections = 32

abbrev pub section_at : MemoryMap → ℕ → Section
section_at m idx = get_or m idx empty_section
