-- ===== src/Arch/Timer/Rate.antt =====
-- The rate that `timer_init` programs.
use native.Mathlib.Nat.{div-mul-le_self, lt-mul-div-succ}
use xyris.Base.{
  ℕ, ◌+◌, ◌*◌, ◌/◌, ◌%◌, ◌^◌, ◌≤◌, ◌<◌, ◌≡◌, refl, ap, ◌∙◌, Option, none, some, List, [], ◌∷◌,
  arith, ◌==◌, false,
}
use xyris.Arch.Timer.{timer_commands, divisor, rate_commands}

-- The divisor of a counter that receives its low byte and then its high byte, if it is told so by 0x36.
abbrev pub loaded : List (ℕ × ℕ) → Option ℕ
loaded ((p, c) ∷ (q, low) ∷ (r, high) ∷ []) = some (low + 2 ^ 8 * high)
loaded other = none

loaded-rate : (d : ℕ) → loaded (rate_commands d) ≡ some (d % 2 ^ 16)
loaded-rate d = let e : d % 256 + 256 * (d / 256 % 256) ≡ d % 65536 = omega arith in rw e refl

-- From 19 Hz to the oscillator's rate, the divisor fits in the two bytes, and is not 0.
quotient :
    (freq : ℕ) → 19 ≤ freq → freq ≤ 1193180 → (1193180 / freq < 2 ^ 16) × (0 < 1193180 / freq)
quotient freq lo hi =
    let q = 1193180 / freq in
    let part : q * freq ≤ 1193180 = div-mul-le_self 1193180 freq in
    let more : 1193180 < freq * (q + 1) = lt-mul-div-succ 1193180 (omega arith) in
    (grind arith, grind arith)

-- For every rate from 19 Hz to that of the oscillator, the counter gets the divisor
-- `1193180 / freq`, which is not 0.
pub timer_commands-loaded :
    (freq : ℕ)
    → 19 ≤ freq
    → freq ≤ 1193180
    → (c : List (ℕ × ℕ)) × (timer_commands freq ≡ some c)
      × (loaded c ≡ some (1193180 / freq))
      × (0 < 1193180 / freq)
unfolding timer_commands divisor
timer_commands-loaded freq lo hi =
    let set : (freq == 0) ≡ false = ground arith in
    let (fits, pos) = quotient freq lo hi in
    let whole : 1193180 / freq % 2 ^ 16 ≡ 1193180 / freq = omega arith in
    rw set (rate_commands (1193180 / freq), refl, loaded-rate (1193180 / freq) ∙ ap some whole, pos)
