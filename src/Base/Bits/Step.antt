-- ===== src/Base/Bits/Step.antt =====
-- The native `bit_and` and `bit_or` stand for a recursion on digits with fuel; here the fuel goes.
use Prim.Native.Nat.{
  ℕ, zero, suc, ◌+◌, ◌*◌, ◌/◌, ◌%◌, ◌≤◌, min, max, bit_and, bit_or, digits, bit_and-bitwise,
  bit_or-bitwise,
}
use mathlib.Core.Path.{◌≡◌, refl, sym, ap, ◌∙◌}
use native.Mathlib.Decide.{ℕ_discrete}
use native.Mathlib.Omega.{arith}

module _ (rest : ℕ → ℕ) (join : ℕ → ℕ → ℕ) where
  abbrev run : ℕ → ℕ → ℕ → ℕ
  run fuel a b = digits rest join fuel a b

  -- One more unit of fuel than enough changes nothing.
  run-suc : (fuel a b : ℕ) → a ≤ fuel → run fuel a b ≡ run (suc fuel) a b
  run-suc zero zero b p = refl
  run-suc zero (suc a) b p = absurd (omega arith)
  run-suc (suc fuel) zero b p = refl
  run-suc (suc fuel) (suc a) b p =
      ap (λ t. t * 2 + join (suc a % 2) (b % 2)) (run-suc fuel (suc a / 2) (b / 2) (omega arith))

  -- So any fuel from `a` on gives what `a` itself gives.
  run-enough : (fuel a b : ℕ) → a ≤ fuel → run fuel a b ≡ run a a b
  run-enough zero zero b p = refl
  run-enough zero (suc a) b p = absurd (omega arith)
  run-enough (suc fuel) a b p = elim (ℕ_discrete a (suc fuel)) [
    | yes e ↦ ap (λ t. run t a b) (sym e)
    | no ne ↦ sym (run-suc fuel a b (omega arith)) ∙ run-enough fuel a b (omega arith)
  ]

  run-digit :
      (a b : ℕ)
      → run (suc a) (suc a) b ≡ run (suc a / 2) (suc a / 2) (b / 2) * 2 + join (suc a % 2) (b % 2)
  run-digit a b =
      ap (λ t. t * 2 + join (suc a % 2) (b % 2)) (run-enough a (suc a / 2) (b / 2) (omega arith))

  -- An operation that is such a run obeys one equation on the lowest digit.
  digit_law :
      (op : ℕ → ℕ → ℕ)
      → ((x y : ℕ) → op x y ≡ run x x y)
      → ((y : ℕ) → rest y ≡ rest (y / 2) * 2 + join 0 (y % 2))
      → (x y : ℕ) → op x y ≡ op (x / 2) (y / 2) * 2 + join (x % 2) (y % 2)
  digit_law op is_run base zero y =
      is_run 0 y ∙ base y ∙ ap (λ t. t * 2 + join 0 (y % 2)) (sym (is_run 0 (y / 2)))
  digit_law op is_run base (suc x) y =
      is_run (suc x) y
      ∙ run-digit x y
      ∙ ap (λ t. t * 2 + join (suc x % 2) (y % 2)) (sym (is_run (suc x / 2) (y / 2)))

pub zero-bit_and : (y : ℕ) → bit_and 0 y ≡ 0
zero-bit_and y = bit_and-bitwise 0 y

pub bit_and_step : (x y : ℕ) → bit_and x y ≡ bit_and (x / 2) (y / 2) * 2 + min (x % 2) (y % 2)
bit_and_step = digit_law (λ t. 0) min bit_and bit_and-bitwise (λ y. omega arith)

pub bit_or_step : (x y : ℕ) → bit_or x y ≡ bit_or (x / 2) (y / 2) * 2 + max (x % 2) (y % 2)
bit_or_step = digit_law (λ t. t) max bit_or bit_or-bitwise (λ y. omega arith)
