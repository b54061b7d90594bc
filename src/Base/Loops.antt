-- ===== src/Base/Loops.antt =====
-- The loop `for (i = ...; i < end; i++) if (hit(i)) return i; return SIZE_MAX;`, and its rule.
use Prim.Native.Nat.{ℕ, zero, suc, ◌+◌, ◌≤◌, ◌<◌}
use mathlib.Core.Path.{◌≡◌, refl}
use mathlib.Core.Logic.{◌⊎◌, inl, inr}
use mathlib.Core.Bool.{Bool, true, false}
use native.Mathlib.Decide.{ℕ_discrete}
use native.Mathlib.Omega.{arith}
use xyris.Base.Tests.{if◌then◌else◌, Bool-cases}
use xyris.Base.Words.{size_max}

-- `n` rounds from position `i`.
unfoldable pub first_from : (ℕ → Bool) → ℕ → ℕ → ℕ
first_from hit zero i = size_max
first_from hit (suc n) i = let rest = first_from hit n (i + 1) in if hit i then i else rest

-- Every position from `i` up to `end` fails the test.
abbrev pub NoneIn : (ℕ → Bool) → ℕ → ℕ → Type 0
NoneIn hit i end = (j : ℕ) → i ≤ j → j < end → hit j ≡ false

-- `r` is the first position of `[i, end)` that passes, or `SIZE_MAX` where none does.
abbrev pub First : (ℕ → Bool) → ℕ → ℕ → ℕ → Type 0
First hit i end r =
    ((i ≤ r) × (r < end) × (hit r ≡ true) × NoneIn hit i r) ⊎ ((r ≡ size_max) × NoneIn hit i end)

module _ (hit : ℕ → Bool) where
  NoneIn-extend : (i end : ℕ) → hit i ≡ false → NoneIn hit (i + 1) end → NoneIn hit i end
  NoneIn-extend i end e later j h k = elim (ℕ_discrete i j) [
    | yes same ↦ rw (← same) e
    | no ne ↦ later j (omega arith) k
  ]

  First-extend : (i end r : ℕ) → hit i ≡ false → First hit (i + 1) end r → First hit i end r
  First-extend i end r e (inl (p, q, found, before)) =
      inl (omega arith, q, found, NoneIn-extend i r e before)
  First-extend i end r e (inr (p, later)) = inr (p, NoneIn-extend i end e later)

  pub first_from-First : (n i end : ℕ) → i + n ≡ end → First hit i end (first_from hit n i)
  unfolding first_from
  first_from-First zero i end e = inr (refl, λ j p q. absurd (omega arith))
  first_from-First (suc n) i end e = elim (Bool-cases (hit i)) [
    | inl yes_i ↦ rw yes_i (inl (omega arith, omega arith, yes_i, λ j p q. absurd (omega arith)))
    | inr no_i ↦ rw no_i (
        First-extend i end (first_from hit n (i + 1)) no_i
          (first_from-First n (i + 1) end (omega arith)))
  ]
