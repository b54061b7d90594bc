-- ===== src/Library/Strings/Buffers/Itoa.antt =====
-- `itoa` writes a number's sign and its decimal digits.
use xyris.Base.{
  ℕ, suc, ◌+◌, ◌-◌, ◌^◌, ◌≤◌, ◌<◌, ◌≡◌, ◌≢◌, ◌⊎◌, refl, sym, subst, ap, ◌∙◌, arith, Bool, true,
  false, dec_lt, Option, none, some, inl, inr,
}
use xyris.Base.Maybe.{◌>>=◌}
use xyris.Library.Memory.{Bytes}
use xyris.Library.Strings.Buffers.{ℤ, is_negative, magnitude, put_sign, put_null, reverse, itoa}
use xyris.Library.Strings.Buffers.Copies.{IsText, Leaves}
use xyris.Library.Strings.Buffers.Decimal.{
  decimal, backwards, decimal_digit, Digits, PutsDigits, put_digits-PutsDigits, decimal-backwards,
}
use xyris.Library.Strings.Buffers.Reverse.{mirrored, reverse-mirrors}

-- The characters in front of the digits.
abbrev pub sign_length : Bool → ℕ
sign_length true = 1
sign_length false = 0

sign_cases : (b : Bool) → ((b ≡ false) × (sign_length b ≡ 0)) ⊎ ((b ≡ true) × (sign_length b ≡ 1))
sign_cases true = inr (refl, refl)
sign_cases false = inl (refl, refl)

sign-short : (b : Bool) → sign_length b ≤ 1
sign-short true = omega arith
sign-short false = omega arith

-- `m'` is `m` with the decimal text of `n` at `str`: a sign if `n` is negative, at most ten digits that
-- stand for its absolute value, without a zero in front, and a null.
pub record Written (m : Bytes) (n : ℤ) (str : ℕ) (m' : Bytes) : Type 0 where
  pub length : ℕ
  pub some_digit : 0 < length
  pub few : length ≤ 10
  pub sign : is_negative n ≡ true → m' str ≡ b'-'
  pub digits :
      (j : ℕ) → j < length → decimal_digit (m' (str + sign_length (is_negative n) + j)) ≡ true
  pub value : decimal m' (str + sign_length (is_negative n)) length ≡ magnitude n
  pub leading : magnitude n ≢ 0 → m' (str + sign_length (is_negative n)) ≢ b'0'
  pub ends : m' (str + sign_length (is_negative n) + length) ≡ 0
  pub kept : (q : ℕ) → (q < str) ⊎ (str + sign_length (is_negative n) + length < q) → m' q ≡ m q

abbrev pub Writes : Bytes → ℤ → ℕ → Option Bytes → Type 0
Writes m n str none = ⊥
Writes m n str (some m') = Written m n str m'

-- The digits in `m1`, and `m3` with the sign, if any, and the null behind them.
record Finished (m m1 : Bytes) (n : ℤ) (str e : ℕ) (m3 : Bytes) : Type 0 where
  written : Digits m (str + 0) (magnitude n) 10 (str + e) m1
  same : (q : ℕ) → q < str + e → m3 q ≡ m1 q
  minus : is_negative n ≡ true → m3 (str + e) ≡ b'-'
  null : m3 (str + e + sign_length (is_negative n)) ≡ 0
  other : (q : ℕ) → str + e + sign_length (is_negative n) < q → m3 q ≡ m q

Finished-text :
    (m m1 : Bytes) (n : ℤ) (str e : ℕ) (m3 : Bytes)
    → Finished m m1 n str e m3
    → IsText m3 str (e + sign_length (is_negative n))
Finished-text m m1 n str e m3 f = record {
  inside = λ q lo hi. elim (dec_lt q (str + e)) [
    | yes low ↦ ground (arith, f.same q low, f.written.digits q (omega arith) low)
    | no high ↦ elim (sign_cases (is_negative n)) [
      | inl (positive, s) ↦ absurd (omega (arith, high, s))
      | inr (neg, s) ↦
          let at : q ≡ str + e = omega (arith, high, s) in ground (arith, ap m3 at, f.minus neg)
    ]
  ];
  ends =
      ap m3 (
        let r : str + (e + sign_length (is_negative n)) ≡ str + e + sign_length (is_negative n) =
          omega arith in
        r)
      ∙ f.null;
}

module _ (m m1 : Bytes) (n : ℤ) (str e : ℕ) (m3 m' : Bytes) (f : Finished m m1 n str e m3)
    (turned : (q : ℕ)
      → m' q ≡ mirrored m3 str (str + (e + sign_length (is_negative n) - 1)) q) where
  turned_at :
      (q : ℕ)
      → str ≤ q
      → q ≤ str + (e + sign_length (is_negative n) - 1)
      → m' q ≡ m3 (str + (str + (e + sign_length (is_negative n) - 1)) - q)
  turned_at q lo hi = ground (arith, turned q)

  kept_at : (q : ℕ) → (q < str) ⊎ (str + (e + sign_length (is_negative n) - 1) < q) → m' q ≡ m3 q
  kept_at q away = ground (arith, turned q, away)

  digit_at :
      (j : ℕ) → j < e → m' (str + sign_length (is_negative n) + j) ≡ m1 (str + 0 + (e - 1 - j))
  digit_at j h =
      turned_at (str + sign_length (is_negative n) + j) (omega arith) (omega arith)
      ∙ ap m3 (
          let r : str
                + (str + (e + sign_length (is_negative n) - 1))
                - (str + sign_length (is_negative n) + j)
              ≡ str + 0 + (e - 1 - j) =
            omega arith in
          r)
      ∙ f.same _ (omega arith)

  Finished-Written : Written m n str m'
  Finished-Written = record {
    length = e;
    some_digit = omega (arith, f.written.some_digit);
    few = omega (arith, f.written.few);
    sign = λ neg.
        let at : str + (str + (e + sign_length (is_negative n) - 1)) - str ≡ str + e =
          omega (arith, ap sign_length neg, f.written.some_digit) in
        turned_at str (omega arith) (omega arith) ∙ ap m3 at ∙ f.minus neg;
    digits =
        λ j h. ap decimal_digit (digit_at j h) ∙ f.written.digits _ (omega arith) (omega arith);
    value =
        let k : str + e - (str + 0) ≡ e = omega arith in
        decimal-backwards e m' m1 (str + sign_length (is_negative n)) (str + 0) digit_at
        ∙ ap (backwards m1 (str + 0)) (sym k)
        ∙ f.written.value;
    leading = λ some zero.
        let at : str + 0 + (e - 1 - 0) ≡ str + e - 1 = omega (arith, f.written.some_digit) in
        let first : str + sign_length (is_negative n) + 0 ≡ str + sign_length (is_negative n) =
          omega arith in
        f.written.leading some (
          sym (ap m1 at)
          ∙ sym (digit_at 0 (omega (arith, f.written.some_digit)))
          ∙ ap m' first
          ∙ zero);
    ends =
        let at : str + sign_length (is_negative n) + e ≡ str + e + sign_length (is_negative n) =
          omega arith in
        kept_at _ (inr (omega (arith, f.written.some_digit))) ∙ ap m3 at ∙ f.null;
    kept = λ q. elim [
      | inl front ↦ kept_at q (inl front) ∙ f.same q (omega arith) ∙ f.written.below q (omega arith)
      | inr behind ↦ kept_at q (inr (omega (arith, behind))) ∙ f.other q (omega (arith, behind))
    ];
  }

signed-Finished :
    (m m1 : Bytes) (n : ℤ) (str e : ℕ)
    → Digits m (str + 0) (magnitude n) 10 (str + e) m1
    → Finished m m1 n str e (put_null str (put_sign (is_negative n) str (e, m1)))
signed-Finished m m1 n str e w = record {
  written = w;
  same = λ q h. by_sign q h (is_negative n);
  minus = by_minus (is_negative n);
  null = by_null (is_negative n);
  other = λ q h. by_other q (is_negative n) h;
}
  where
    by_sign : (q : ℕ) → q < str + e → (b : Bool) → put_null str (put_sign b str (e, m1)) q ≡ m1 q
    by_sign q h true = ground arith
    by_sign q h false = ground arith

    by_minus : (b : Bool) → b ≡ true → put_null str (put_sign b str (e, m1)) (str + e) ≡ b'-'
    by_minus true h = ground arith
    by_minus false h = cc

    by_other :
        (q : ℕ) (b : Bool)
        → str + e + sign_length b < q
        → put_null str (put_sign b str (e, m1)) q ≡ m q
    by_other q true h = ground (arith, w.behind q (omega arith))
    by_other q false h = ground (arith, w.behind q (omega arith))

    by_null : (b : Bool) → put_null str (put_sign b str (e, m1)) (str + e + sign_length b) ≡ 0
    by_null true = ground arith
    by_null false = ground arith

Leaves-Writes :
    (m m1 : Bytes) (n : ℤ) (str e : ℕ) (m3 : Bytes)
    → Finished m m1 n str e m3
    → (r : Option Bytes) → Leaves r (mirrored m3 str (str + (e + sign_length (is_negative n) - 1)))
    → Writes m n str r
Leaves-Writes m m1 n str e m3 f none h = h
Leaves-Writes m m1 n str e m3 f (some m') h = Finished-Written m m1 n str e m3 m' f h

reverse-Writes :
    (r : ℕ) (m m1 : Bytes) (n : ℤ) (str e : ℕ) (m3 : Bytes)
    → 12 < r
    → Finished m m1 n str e m3
    → Writes m n str (reverse r m3 str)
reverse-Writes r m m1 n str e m3 h f =
    let more : e + sign_length (is_negative n) ≡ suc (e + sign_length (is_negative n) - 1) =
      omega (arith, f.written.some_digit) in
    let short : suc (e + sign_length (is_negative n) - 1) < r =
      omega (arith, f.written.few, sign-short (is_negative n)) in
    Leaves-Writes m m1 n str e m3 f (reverse r m3 str) (
      reverse-mirrors r m3 str (e + sign_length (is_negative n) - 1)
        (subst (IsText m3 str) more (Finished-text m m1 n str e m3 f)) short)

then_reverse-Writes :
    (r : ℕ) (m : Bytes) (n : ℤ) (str : ℕ)
    → 12 < r
    → (o : Option (ℕ × Bytes)) → PutsDigits m str 0 (magnitude n) 10 o
    → Writes m n str (o >>= λ d. reverse r (put_null str (put_sign (is_negative n) str d)) str)
then_reverse-Writes r m n str h none w = w
then_reverse-Writes r m n str h (some (e, m1)) w =
    reverse-Writes r m m1 n str e _ h (signed-Finished m m1 n str e w)

-- For a number whose absolute value is an `int`, and with 13 rounds for each loop, `itoa` ends: a sign
-- if the number is negative, at most ten digits that stand for its absolute value, without a zero in
-- front, and a null are written at `str`, and no other byte changes.
pub itoa-Writes :
    (r : ℕ) (m : Bytes) (n : ℤ) (str : ℕ)
    → 12 < r
    → magnitude n < 2 ^ 31
    → Writes m n str (itoa r m n str)
unfolding itoa
itoa-Writes r m n str h small =
    then_reverse-Writes r m n str h _
      (put_digits-PutsDigits r 10 m str 0 (magnitude n) (omega arith) (omega arith) (omega arith))
