-- ===== src/Clock/Modes.antt =====
-- What the decoding of the clock's registers gives in each of the clock's four modes.
use Prim.Native.Nat.{bit_and}
use xyris.Base.{
  ℕ, zero, suc, ◌+◌, ◌*◌, ◌/◌, ◌%◌, ◌≤◌, ◌<◌, ◌≡◌, ◌≢◌, refl, ap, ◌∙◌, Bool, true, false, not, ◌&&◌,
  ◌==◌, leb, if◌then◌else◌, arith, Bool-cases, inl, inr, ==_iff, ℕ_discrete,
}
use xyris.Clock.{Reading, from_bcd, hour_from_bcd, full_year, decode}
use xyris.Clock.Registers.{from_bcd_lem, full_year_lem}

all_below : (ℕ → Bool) → ℕ → Bool
all_below f zero = true
all_below f (suc n) = f n && all_below f n

both : (a b : Bool) → (a && b) ≡ true → (a ≡ true) × (b ≡ true)
both true b h = (refl, h)
both false b h = cc

all_below-at : (f : ℕ → Bool) (n k : ℕ) → all_below f n ≡ true → k < n → f k ≡ true
unfolding all_below
all_below-at f zero k h lt = absurd (omega arith)
all_below-at f (suc n) k h lt = elim (ℕ_discrete k n) [
  | yes e ↦ rw e (both (f n) (all_below f n) h).0
  | no ne ↦ all_below-at f n k (both (f n) (all_below f n) h).1 (omega arith)
]

-- A number of two digits as a register holds it.
abbrev pub digits : Bool → ℕ → ℕ
digits true x = x
digits false x = x / 10 * 16 + x % 10

pub digits-nonzero : (binary : Bool) (x : ℕ) → x ≢ 0 → digits binary x ≢ 0
digits-nonzero true x ne = ne
digits-nonzero false x ne = λ e. ne (omega arith)

-- An hour as the register holds it: with 24 hours, or with 12 and a bit for the afternoon.
abbrev pub hour_digits : Bool → Bool → ℕ → ℕ
hour_digits binary true h = digits binary h
hour_digits binary false h =
    digits binary (if h % 12 == 0 then 12 else h % 12) + (if leb 12 h then 0x80 else 0)

-- The registers at a date and time.
abbrev pub registers : Bool → Bool → Reading → Reading
registers binary whole_day t = record {
  second = digits binary t.second;
  minute = digits binary t.minute;
  hour = hour_digits binary whole_day t.hour;
  day = digits binary t.day;
  month = digits binary t.month;
  year = digits binary (t.year % 100);
}

-- A date and time that the clock can hold.
pub record InRange (t : Reading) : Type 0 where
  pub seconds : t.second < 60
  pub minutes : t.minute < 60
  pub hours : t.hour < 24
  pub days : t.day < 32
  pub months : t.month < 13
  pub from : 2021 ≤ t.year
  pub below : t.year < 2121

-- With 12 hours, noon and midnight are taken for each other.
abbrev pub hour_read : Bool → ℕ → ℕ
hour_read true h = h
hour_read false h = if h == 0 then 12 else (if h == 12 then 0 else h)

-- The hour that the code makes of the hour's register.
abbrev hour_decoded : Bool → Bool → ℕ → ℕ
hour_decoded binary whole_day x =
    let y : ℕ = if binary then x else hour_from_bcd x in
    if not whole_day && not (bit_and y 0x80 == 0) then (bit_and y 0x7f + 12) % 24 else y

hours_checked :
    (binary whole_day : Bool)
    → all_below
        (λ h.
          hour_decoded binary whole_day (hour_digits binary whole_day h) == hour_read whole_day h)
        24
      ≡ true
unfolding all_below
hours_checked true true = refl
hours_checked true false = refl
hours_checked false true = refl
hours_checked false false = refl

hour_decoded-read :
    (binary whole_day : Bool) (h : ℕ)
    → h < 24
    → hour_decoded binary whole_day (hour_digits binary whole_day h) ≡ hour_read whole_day h
hour_decoded-read binary whole_day h lt = (==_iff _ _).0 (
    all_below-at
      (λ h. hour_decoded binary whole_day (hour_digits binary whole_day h) == hour_read whole_day h)
      24 h (hours_checked binary whole_day) lt)

-- A register of two digits, as the code converts it.
abbrev converted : Bool → ℕ → ℕ
converted binary x = if binary then x else from_bcd x

converted-digits : (binary : Bool) (x : ℕ) → x < 100 → converted binary (digits binary x) ≡ x
converted-digits true x lt = refl
converted-digits false x lt =
    from_bcd_lem (x / 10) (x % 10) (omega arith) (omega arith) ∙ omega arith

-- The decoding, field by field.
decode-fields :
    (binary whole_day : Bool) (register_b : ℕ) (r : Reading)
    → (bit_and register_b 0x04 == 0) ≡ not binary
    → (bit_and register_b 0x02 == 0) ≡ not whole_day
    → decode register_b r ≡ record {
      second = converted binary r.second;
      minute = converted binary r.minute;
      hour = hour_decoded binary whole_day r.hour;
      day = converted binary r.day;
      month = converted binary r.month;
      year = full_year (converted binary r.year);
    }
unfolding decode
decode-fields true true register_b r e f = rw (e, f) refl
decode-fields true false register_b r e f = elim (Bool-cases (bit_and r.hour 0x80 == 0)) [
  | inl g ↦ rw (e, f, g) refl
  | inr g ↦ rw (e, f, g) refl
]
decode-fields false true register_b r e f = rw (e, f) refl
decode-fields false false register_b r e f =
    elim (Bool-cases (bit_and (hour_from_bcd r.hour) 0x80 == 0)) [
      | inl g ↦ rw (e, f, g) refl
      | inr g ↦ rw (e, f, g) refl
    ]

full_year-digits : (y : ℕ) → 2021 ≤ y → y < 2121 → full_year (y % 100) ≡ y
full_year-digits y lo hi = let (a, b, c) = full_year_lem (y % 100) (omega arith) in omega arith

-- In all four modes of the clock (binary or decimal digits, 24 or 12 hours), the registers at a date and
-- time from 2021 to 2120 are decoded to that date and time, except that with 12 hours noon and
-- midnight are taken for each other.
pub decode-registers :
    (binary whole_day : Bool) (register_b : ℕ) (t : Reading)
    → (bit_and register_b 0x04 == 0) ≡ not binary
    → (bit_and register_b 0x02 == 0) ≡ not whole_day
    → InRange t
    → decode register_b (registers binary whole_day t)
      ≡ record t { hour = hour_read whole_day t.hour }
decode-registers binary whole_day register_b t e f h =
    let second = converted-digits binary t.second (omega (arith, h.seconds)) in
    let minute = converted-digits binary t.minute (omega (arith, h.minutes)) in
    let hour = hour_decoded-read binary whole_day t.hour h.hours in
    let day = converted-digits binary t.day (omega (arith, h.days)) in
    let month = converted-digits binary t.month (omega (arith, h.months)) in
    let year =
      ap full_year (converted-digits binary (t.year % 100) (omega arith))
      ∙ full_year-digits t.year h.from h.below in
    decode-fields binary whole_day register_b (registers binary whole_day t) e f ∙ λ i. record {
      second = second i;
      minute = minute i;
      hour = hour i;
      day = day i;
      month = month i;
      year = year i;
    }
