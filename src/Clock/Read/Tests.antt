-- ===== src/Clock/Read/Tests.antt =====
-- A clock that stands at noon, counting 12 hours in decimal digits.
use xyris.Base.{ℕ, ◌≡◌, refl, false, some, arith, ◌==◌, if◌then◌else◌}
use xyris.Clock.{Reading}
use xyris.Clock.Modes.{registers, InRange}
use xyris.Clock.Read.{read}
use xyris.Clock.Read.Steady.{Steady, read-date}

abbrev noon : Reading
noon = record { second = 30; minute = 59; hour = 12; day = 29; month = 2; year = 2024 }

abbrev stopped_clock : ℕ → ℕ → ℕ
stopped_clock n reg =
    if reg == 0
    then 0x30
    else if reg == 2
    then 0x59
    else if reg == 4
    then 0x92
    else if reg == 7
    then 0x29
    else if reg == 8
    then 0x02
    else if reg == 9
    then 0x24
    else 0

stopped_clock-Steady : Steady stopped_clock (registers false false noon) 0
stopped_clock-Steady = record {
  second = λ n. refl;
  minute = λ n. refl;
  hour = λ n. refl;
  day = λ n. refl;
  month = λ n. refl;
  year = λ n. refl;
  mode = λ n. refl;
  idle = λ n. refl;
}

noon-InRange : InRange noon
noon-InRange = record {
  seconds = omega arith;
  minutes = omega arith;
  hours = omega arith;
  days = omega arith;
  months = omega arith;
  from = omega arith;
  below = omega arith;
}

read-date_example : (k : ℕ) × (read stopped_clock 1 2 0 ≡ some (record noon { hour = 0 }, k))
read-date_example =
    read-date stopped_clock false false 0 noon 0 0 0 stopped_clock-Steady refl refl noon-InRange
      (omega arith)
