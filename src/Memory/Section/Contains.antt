-- ===== src/Memory/Section/Contains.antt =====
-- What `Section::contains` answers.
use xyris.Base.{ℕ, ◌+◌, ◌<◌, ◌≡◌, arith, word, leb}
use xyris.Memory.Section.{Section, contains}

-- For a section whose end does not wrap, `contains` holds of exactly the addresses up to the section's
-- base: of those in front of it, and of none inside it behind the base.
pub contains-inverted :
    (s : Section) (addr : ℕ) → s.base + s.size < word → contains s addr ≡ leb addr s.base
unfolding contains
contains-inverted s addr h = ground arith
