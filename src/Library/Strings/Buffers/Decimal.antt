-- ===== src/Library/Strings/Buffers/Decimal.antt =====
-- The loop of `itoa` writes the decimal digits of a number, the lowest first.
use xyris.Base.{
  ℕ, zero, suc, ◌+◌, ◌-◌, ◌*◌, ◌/◌, ◌%◌, ◌^◌, ◌≤◌, ◌<◌, ◌≡◌, ◌≢◌, refl, subst, ap, ◌∙◌, arith, Bool,
  true, ◌&&◌, leb, ltb, Bool-cases, ℕ_discrete, Option, none, some, inl, inr,
}
use xyris.Library.Memory.{Bytes, store}
use xyris.Library.Strings.Buffers.{put_digits}

-- The number that the `k` digits from `p` on stand for, the highest digit first.
unfoldable pub decimal : Bytes → ℕ → ℕ → ℕ
decimal m p zero = 0
decimal m p (suc k) = decimal m p k * 10 + (m (p + k) - b'0')

-- The same with the lowest digit first.
unfoldable pub backwards : Bytes → ℕ → ℕ → ℕ
backwards m p zero = 0
backwards m p (suc k) = m p - b'0' + 10 * backwards m (p + 1) k

abbrev pub decimal_digit : ℕ → Bool
decimal_digit c = leb b'0' c && leb c b'9'

-- The digits of `n` stand from `p` up to `e`, the lowest first, without a zero in front; the other bytes
-- are those of `m`.
pub record Digits (m : Bytes) (p n d e : ℕ) (m' : Bytes) : Type 0 where
  pub some_digit : p < e
  pub few : e ≤ p + d
  pub value : backwards m' p (e - p) ≡ n
  pub digits : (q : ℕ) → p ≤ q → q < e → decimal_digit (m' q) ≡ true
  pub leading : n ≢ 0 → m' (e - 1) ≢ b'0'
  pub below : (q : ℕ) → q < p → m' q ≡ m q
  pub behind : (q : ℕ) → e ≤ q → m' q ≡ m q

abbrev pub PutsDigits : Bytes → ℕ → ℕ → ℕ → ℕ → Option (ℕ × Bytes) → Type 0
PutsDigits m str i n d none = ⊥
PutsDigits m str i n d (some (e, m')) = Digits m (str + i) n d (str + e) m'

Digits-last :
    (m : Bytes) (p n d e : ℕ)
    → n < 10
    → e ≡ p + 1
    → Digits m p n (suc d) e (store m p (n % 10 + b'0'))
unfolding backwards
Digits-last m p n d e h last = record {
  some_digit = omega (arith, last);
  few = omega (arith, last);
  value =
      let one : e - p ≡ suc 0 = omega (arith, last) in
      let here : store m p (n % 10 + b'0') p ≡ n % 10 + b'0' = ground arith in
      ap (backwards (store m p (n % 10 + b'0')) p) one ∙ rw here (omega arith);
  digits = λ q lo hi. let at : p ≡ q = omega (arith, last) in ground arith;
  leading = λ some. let at : p ≡ e - 1 = omega (arith, last) in ground (arith, some);
  below = λ q lo. ground arith;
  behind = λ q hi. ground (arith, last);
}

Digits-more :
    (m m' : Bytes) (p n d e : ℕ)
    → 10 ≤ n
    → Digits (store m p (n % 10 + b'0')) (p + 1) (n / 10) d e m'
    → Digits m p n (suc d) e m'
unfolding backwards
Digits-more m m' p n d e h r = record {
  some_digit = omega (arith, r.some_digit);
  few = omega (arith, r.few);
  value =
      let more : e - p ≡ suc (e - (p + 1)) = omega (arith, r.some_digit) in
      let here : m' p ≡ n % 10 + b'0' = ground (arith, r.below p (omega arith)) in
      ap (backwards m' p) more ∙ rw (here, r.value) (omega arith);
  digits = λ q lo hi. elim (ℕ_discrete p q) [
    | yes at ↦ ground (arith, ap m' at, r.below p (omega arith))
    | no away ↦ r.digits q (omega (arith, away)) hi
  ];
  leading = λ some. r.leading (let more : n / 10 ≢ 0 = omega arith in more);
  below = λ q lo. ground (arith, r.below q (omega arith));
  behind = λ q hi. ground (arith, r.behind q hi, r.some_digit);
}

PutsDigits-more :
    (m : Bytes) (str i n d : ℕ)
    → 10 ≤ n
    → (o : Option (ℕ × Bytes))
    → PutsDigits (store m (str + i) (n % 10 + b'0')) str (i + 1) (n / 10) d o
    → PutsDigits m str i n (suc d) o
PutsDigits-more m str i n d h none r = r
PutsDigits-more m str i n d h (some (e, m')) r =
    let next : str + (i + 1) ≡ str + i + 1 = omega arith in
    Digits-more m m' (str + i) n d (str + e) h
      (subst (λ p. Digits (store m (str + i) (n % 10 + b'0')) p (n / 10) d (str + e) m') next r)

pub put_digits-PutsDigits :
    (r d : ℕ) (m : Bytes) (str i n : ℕ)
    → n < 10 ^ d
    → 0 < d
    → d ≤ r
    → PutsDigits m str i n d (put_digits r m str i n)
unfolding put_digits
put_digits-PutsDigits zero d m str i n h pos fits = absurd (omega arith)
put_digits-PutsDigits (suc r) zero m str i n h pos fits = absurd (omega arith)
put_digits-PutsDigits (suc r) (suc d) m str i n h pos fits = elim (Bool-cases (ltb 0 (n / 10))) [
  | inl more ↦ rw more (
      PutsDigits-more m str i n d (ground arith) _ (
        put_digits-PutsDigits r d _ str (i + 1) (n / 10) (ground arith) (ground arith)
          (omega arith)))
  | inr done ↦ rw done (Digits-last m (str + i) n d (str + (i + 1)) (ground arith) (omega arith))
]

pub decimal-backwards :
    (k : ℕ) (f m : Bytes) (p b : ℕ)
    → ((j : ℕ) → j < k → f (p + j) ≡ m (b + (k - 1 - j)))
    → decimal f p k ≡ backwards m b k
unfolding decimal backwards
decimal-backwards zero f m p b h = refl
decimal-backwards (suc k) f m p b h =
    let last : f (p + k) ≡ m b =
      h k (omega arith) ∙ ap m (let e : b + (suc k - 1 - k) ≡ b = omega arith in e) in
    let others : (j : ℕ) → j < k → f (p + j) ≡ m (b + 1 + (k - 1 - j)) = λ j lt.
      h j (omega arith)
      ∙ ap m (let e : b + (suc k - 1 - j) ≡ b + 1 + (k - 1 - j) = omega arith in e) in
    rw (last, decimal-backwards k f m p (b + 1) others) (omega arith)
