-- ===== src/Clock/Tests.antt =====
-- Runs of the clock's routines, and their theorems at concrete dates.
use xyris.Base.{◌≡◌, ◌+◌, ◌≤◌, ◌<◌, ◌^◌, refl, arith}
use xyris.Clock.{
  Reading, TimeDescriptor, decode, get_julian_day, get_unix_epoch, converter_epoch_to_date,
}
use xyris.Clock.Calendar.{next_date, julian_of, julian-next_date}

-- Noon of a clock that counts 12 hours is read as midnight.
abbrev noon : Reading
noon = record { second = 0; minute = 0; hour = 0x92; day = 0x27; month = 0x07; year = 0x21 }

noon_is_midnight : (decode 0 noon).hour ≡ 0
unfolding decode
noon_is_midnight = refl

abbrev leap_day : TimeDescriptor
leap_day = record { seconds = 5; minutes = 30; hour = 12; day = 29; month = 2; year = 2024 }

converts : converter_epoch_to_date (get_unix_epoch 5 30 12 29 2 2024) ≡ leap_day
unfolding converter_epoch_to_date get_unix_epoch get_julian_day
converts = refl

julian-next_date_example : julian_of (next_date 28 2 2024) ≡ get_julian_day 28 2 2024 + 1
julian-next_date_example =
    julian-next_date 28 2 2024 (omega arith) (omega arith) (omega arith) (omega arith)

day_in_range : (2440588 ≤ get_julian_day 29 2 2024) × (get_julian_day 29 2 2024 < 2 ^ 40)
unfolding get_julian_day
day_in_range = omega arith
