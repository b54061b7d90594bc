-- ===== src/Clock/Calendar.antt =====
-- The day number counts the days of the Gregorian calendar, and Unix times give back the time of day.
use xyris.Base.{
  ℕ, zero, suc, ◌+◌, ◌-◌, ◌*◌, ◌%◌, ◌^◌, ◌≤◌, ◌<◌, ◌≡◌, inl, inr, refl, sym, ap, ap₂, ◌∙◌, arith,
  Bool, false, not, ◌&&◌, ◌||◌, ◌==◌, ltb, if◌then◌else◌, Bool-cases,
}
use xyris.Clock.{get_julian_day, get_unix_epoch, converter_epoch_to_date}

-- Every fourth year, but of the hundreds only every fourth.
abbrev pub is_leap : ℕ → Bool
is_leap y = ((y % 4 == 0) && not (y % 100 == 0)) || (y % 400 == 0)

abbrev pub days_in_month : ℕ → ℕ → ℕ
days_in_month m y =
    if m == 2
    then (if is_leap y then 29 else 28)
    else (if (m == 4) || (m == 6) || (m == 9) || (m == 11) then 30 else 31)

-- The date behind a date, as day, month and year.
abbrev pub next_date : ℕ → ℕ → ℕ → ℕ × ℕ × ℕ
next_date d m y =
    if ltb d (days_in_month m y)
    then (d + 1, m, y)
    else (if ltb m 12 then (1, m + 1, y) else (1, 1, y + 1))

february : (y : ℕ) → get_julian_day 1 3 y ≡ get_julian_day (if is_leap y then 29 else 28) 2 y + 1
unfolding get_julian_day
february y = ground arith

julian_last :
    (m y : ℕ)
    → 1 ≤ m
    → m < 12
    → get_julian_day 1 (m + 1) y ≡ get_julian_day (days_in_month m y) m y + 1
unfolding get_julian_day
julian_last zero y lo hi = absurd (omega arith)
julian_last (suc zero) y lo hi = omega arith
julian_last (suc (suc zero)) y lo hi = february y
julian_last (suc (suc (suc zero))) y lo hi = omega arith
julian_last (suc (suc (suc (suc zero)))) y lo hi = omega arith
julian_last (suc (suc (suc (suc (suc zero))))) y lo hi = omega arith
julian_last (suc (suc (suc (suc (suc (suc zero)))))) y lo hi = omega arith
julian_last (suc (suc (suc (suc (suc (suc (suc zero))))))) y lo hi = omega arith
julian_last (suc (suc (suc (suc (suc (suc (suc (suc zero)))))))) y lo hi = omega arith
julian_last (suc (suc (suc (suc (suc (suc (suc (suc (suc zero))))))))) y lo hi = omega arith
julian_last (suc (suc (suc (suc (suc (suc (suc (suc (suc (suc zero)))))))))) y lo hi = omega arith
julian_last (suc (suc (suc (suc (suc (suc (suc (suc (suc (suc (suc zero))))))))))) y lo hi =
    omega arith
julian_last (suc (suc (suc (suc (suc (suc (suc (suc (suc (suc (suc (suc m)))))))))))) y lo hi =
    absurd (omega arith)

julian_year : (y : ℕ) → get_julian_day 1 1 (y + 1) ≡ get_julian_day 31 12 y + 1
unfolding get_julian_day
julian_year y = omega arith

julian_day : (d m y : ℕ) → 1 ≤ m → m ≤ 12 → get_julian_day (d + 1) m y ≡ get_julian_day d m y + 1
unfolding get_julian_day
julian_day d m y lo hi = omega arith

last_day : (d n : ℕ) → d ≤ n → ltb d n ≡ false → n ≡ d
last_day d n h e = ground arith

december_ends :
    (d m y : ℕ)
    → m ≡ 12
    → days_in_month m y ≡ d
    → get_julian_day 1 1 (y + 1) ≡ get_julian_day d m y + 1
december_ends d m y twelve e =
    let last : 31 ≡ d = ap (λ x. days_in_month x y) (sym twelve) ∙ e in
    julian_year y ∙ ap₂ (λ x z. get_julian_day x z y + 1) last (sym twelve)

-- The day number of a date.
abbrev pub julian_of : ℕ × ℕ × ℕ → ℕ
julian_of date = get_julian_day date.0 date.1 date.2

-- The day number of the next date of the Gregorian calendar is the next number.
pub julian-next_date :
    (d m y : ℕ)
    → 1 ≤ d
    → d ≤ days_in_month m y
    → 1 ≤ m
    → m ≤ 12
    → julian_of (next_date d m y) ≡ get_julian_day d m y + 1
julian-next_date d m y d1 dn m1 mn = elim (Bool-cases (ltb d (days_in_month m y))) [
  | inl within ↦ rw within (julian_day d m y m1 mn)
  | inr last ↦
      let e : days_in_month m y ≡ d = last_day d (days_in_month m y) dn last in
      elim (Bool-cases (ltb m 12)) [
        | inl early ↦
            rw (last, early)
              (julian_last m y m1 (ground arith) ∙ ap (λ x. get_julian_day x m y + 1) e)
        | inr december ↦
            let twelve : m ≡ 12 = ground arith in rw (last, december) (december_ends d m y twelve e)
      ]
]

julian_1970 : get_julian_day 1 1 1970 ≡ 2440588
unfolding get_julian_day
julian_1970 = refl

seconds_of :
    (j s mi h : ℕ)
    → 2440588 ≤ j
    → j < 2 ^ 40
    → s < 60
    → mi < 60
    → h < 24
    → ((j + 2 ^ 64 - 2440588) % 2 ^ 64 * 86400 + h * 3600 + mi * 60 + s) % 2 ^ 64
      ≡ (j - 2440588) * 86400 + h * 3600 + mi * 60 + s
seconds_of j s mi h lo hi hs hm hh = omega arith

-- The time of day survives: from the Unix time of a date and time from 1970 on, `converterEpochToDate`
-- reads the hours, minutes and seconds back.
pub time_of_day :
    (s mi h d m y : ℕ)
    → s < 60
    → mi < 60
    → h < 24
    → 2440588 ≤ get_julian_day d m y
    → get_julian_day d m y < 2 ^ 40
    → let t = converter_epoch_to_date (get_unix_epoch s mi h d m y) in
      (t.seconds ≡ s) × (t.minutes ≡ mi) × (t.hour ≡ h)
unfolding get_unix_epoch converter_epoch_to_date
time_of_day s mi h d m y hs hm hh lo hi =
    rw (julian_1970, seconds_of (get_julian_day d m y) s mi h lo hi hs hm hh)
      (omega arith, omega arith, omega arith)
