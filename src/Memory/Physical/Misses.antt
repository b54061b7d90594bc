-- ===== src/Memory/Physical/Misses.antt =====
-- What `isFree` and `setUsed` do with a section.
use xyris.Base.{
  ℕ, zero, suc, ◌+◌, ◌/◌, ◌≤◌, ◌<◌, ◌≡◌, inl, inr, refl, ap, ◌∙◌, arith, true, false, ◌==◌,
  if◌then◌else◌, Bool-cases, add_word,
}
use xyris.Library.Bitset.{test}
use xyris.Memory.Physical.{
  Manager, set_used, is_free, is_free_pages, is_free_section, set_used_pages, set_used_section,
}
use xyris.Memory.Physical.Frames.{IsSized, IsBounded, set_used-IsSized, test-set_used}
use xyris.Memory.Section.{Section, pages}

two_rounds : (n : ℕ) (m : Manager) (base : ℕ) → 2 ≤ n → is_free_pages n m base 0 ≡ false
unfolding is_free_pages
two_rounds zero m base h = absurd (omega arith)
two_rounds (suc zero) m base h = absurd (omega arith)
two_rounds (suc (suc n)) m base h = elim (Bool-cases (is_free m base)) [
  | inl free ↦ rw free refl
  | inr used ↦ rw used refl
]

-- `isFree` of a section of two pages or more is false, whatever the frames are.
pub is_free_section-misses :
    (m : Manager) (sect : Section) → 2 ≤ pages sect → is_free_section m sect ≡ false
is_free_section-misses m sect h = two_rounds (pages sect) m sect.base h

set_used_pages-misses :
    (n : ℕ) (m : Manager) (base i q : ℕ)
    → IsSized m
    → base / 4096 + (i + n) < 1048576
    → 256 ≤ q
    → test (set_used_pages n m base i) q ≡ test m q
unfolding set_used_pages
set_used_pages-misses zero m base i q s h big = refl
set_used_pages-misses (suc n) m base i q s h big =
    let at = add_word (base / 4096) i in
    let other : (at / 4096 == q) ≡ false = ground arith in
    set_used_pages-misses n (set_used m at) base (i + 1) q (set_used-IsSized m at s) (omega arith)
      big
    ∙ test-set_used m at q s (omega arith)
    ∙ ap (λ b. if b then true else test m q) other

-- For a bitmap of its full size, `setUsed` of a section whose end does not wrap marks no frame at or
-- above frame 256, the end of the first MiB.
pub set_used_section-misses :
    (m : Manager) (sect : Section) (q : ℕ)
    → IsSized m
    → IsBounded sect
    → 256 ≤ q
    → test (set_used_section m sect) q ≡ test m q
set_used_section-misses m sect q s h big =
    set_used_pages-misses (pages sect) m sect.base 0 q s (omega arith) big
