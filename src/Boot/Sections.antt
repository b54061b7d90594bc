-- ===== src/Boot/Sections.antt =====
-- Which sections the kernel gets from the boot loader's tags.
use xyris.Base.{ℕ, zero, suc, ◌<◌, ◌≤◌, ◌≡◌, List, [], ◌∷◌, length}
use xyris.Boot.Handoff.{Kinds, Entry, Tag, memmap, Handoff, entry_section}
use xyris.Memory.Section.{Section, MemoryMap, section_at, empty_section}

-- The section of the entry at index `m`.
abbrev pub entry_at : Kinds → List Entry → ℕ → Section
entry_at k [] m = empty_section
entry_at k (e ∷ es) zero = entry_section k e
entry_at k (e ∷ es) (suc m) = entry_at k es m

-- None of the tags is a memory map.
abbrev pub NoMemmap : List Tag → Type 0
NoMemmap [] = Unit {0}
NoMemmap (memmap es ∷ tags) = ⊥
NoMemmap (t ∷ tags) = NoMemmap tags

-- The kernel has the entries of the boot loader at the same indices, with base and length taken to
-- 32 bits, and its own sections behind them.
pub record HasSections (k : Kinds) (es : List Entry) (old new : MemoryMap) : Type 0 where
  pub given : (m : ℕ) → m < length es → section_at new m ≡ entry_at k es m
  pub kept : (m : ℕ) → length es ≤ m → section_at new m ≡ section_at old m
