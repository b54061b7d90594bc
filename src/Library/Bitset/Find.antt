-- ===== src/Library/Bitset/Find.antt =====
-- `FindFirstBit` finds the first position of the wanted polarity, or `npos` if there is none.
use xyris.Base.{ℕ, ◌<◌, ◌≡◌, ◌≢◌, ◌⊎◌, inl, inr, refl, arith, Bool, true, false, size_max}
use xyris.Base.Loops.{first_from-First, First}
use xyris.Library.Bitset.{Bitset, same_bool, test, find_first_bit}

same_bool-true : (x y : Bool) → same_bool x y ≡ true → x ≡ y
same_bool-true true true h = refl
same_bool-true false false h = refl
same_bool-true true false h = cc
same_bool-true false true h = cc

same_bool-false : (x y : Bool) → same_bool x y ≡ false → x ≢ y
same_bool-false true true h e = cc
same_bool-false false false h e = cc
same_bool-false true false h e = cc
same_bool-false false true h e = cc

-- `r` is the first of the `n` positions whose bit is `s`, or `npos` where no bit is.
abbrev pub FirstBit : ℕ → Bitset → Bool → ℕ → Type 0
FirstBit n b s r =
    ((r < n) × (test b r ≡ s) × ((j : ℕ) → j < r → test b j ≢ s))
    ⊎ ((r ≡ size_max) × ((j : ℕ) → j < n → test b j ≢ s))

First-FirstBit :
    (n : ℕ) (b : Bitset) (s : Bool) (r : ℕ)
    → First (λ i. same_bool (test b i) s) 0 n r
    → FirstBit n b s r
First-FirstBit n b s r (inl (p, q, found, before)) = inl (
  q,
  same_bool-true (test b r) s found,
  λ j h. same_bool-false (test b j) s (before j (omega arith) h),
)
First-FirstBit n b s r (inr (p, all)) =
    inr (p, λ j h. same_bool-false (test b j) s (all j (omega arith) h))

-- `FindFirstBit(s)` returns the first of the set's positions whose bit is `s`; it returns `npos`
-- only where no position has it.
pub find_first_bit_lem : (n : ℕ) (b : Bitset) (s : Bool) → FirstBit n b s (find_first_bit n b s)
unfolding find_first_bit
find_first_bit_lem n b s =
    First-FirstBit n b s _ (first_from-First (λ i. same_bool (test b i) s) n 0 n (omega arith))
