-- ===== src/Clock.antt =====
-- Kernel/Devices/Clock/rtc.cpp and Kernel/Library/time.cpp: decoding the clock's registers, the day
-- number and the Unix time of a date, and the date of a Unix time.
pub mod Calendar
pub mod Registers
pub mod Modes
pub mod Read
mod Tests
use Prim.Native.Nat.{bit_and, bit_or}
use xyris.Base.{
  ℕ, ◌+◌, ◌-◌, ◌*◌, ◌/◌, ◌%◌, ◌^◌, Bool, not, ◌==◌, ◌&&◌, ltb, leb, if◌then◌else◌, add_word,
}

-- The values that `read` leaves in the static variables; the century's register is never read.
pub record Reading : Type 0 where
  pub second : ℕ
  pub minute : ℕ
  pub hour : ℕ
  pub day : ℕ
  pub month : ℕ
  pub year : ℕ

abbrev pub rtc_current_year : ℕ
rtc_current_year = 2021

-- `(x & 0x0F) + ((x / 16) * 10)`
unfoldable pub from_bcd : ℕ → ℕ
from_bcd x = bit_and x 0x0f + x / 16 * 10

abbrev pub hour_from_bcd : ℕ → ℕ
hour_from_bcd hour = bit_or (bit_and hour 0x0f + bit_and hour 0x70 / 16 * 10) (bit_and hour 0x80)

-- `registerB & 0x04`: the registers are binary. `registerB & 0x02`: the clock counts 24 hours.
abbrev pub convert_bcd : ℕ → Reading → Reading
convert_bcd register_b r =
    if bit_and register_b 0x04 == 0
    then record {
      second = from_bcd r.second;
      minute = from_bcd r.minute;
      hour = hour_from_bcd r.hour;
      day = from_bcd r.day;
      month = from_bcd r.month;
      year = from_bcd r.year;
    }
    else r

abbrev pub convert_hours : ℕ → Reading → Reading
convert_hours register_b r =
    if (bit_and register_b 0x02 == 0) && not (bit_and r.hour 0x80 == 0)
    then record r { hour = (bit_and r.hour 0x7f + 12) % 24 }
    else r

-- The full year, for `RTC_CURRENT_CENTURY` 0.
unfoldable pub full_year : ℕ → ℕ
full_year year =
    let y = add_word year (rtc_current_year / 100 * 100) in
    if ltb y rtc_current_year then add_word y 100 else y

-- The end of `read`, behind the loops that read the registers.
unfoldable pub decode : ℕ → Reading → Reading
decode register_b r =
    let h = convert_hours register_b (convert_bcd register_b r) in
    record h { year = full_year h.year }

-- `getJulianDay`. For a month above 14 the quotient `a` is not positive, and its size is `back`.
unfoldable pub get_julian_day : ℕ → ℕ → ℕ → ℕ
get_julian_day days months years =
    let a : ℕ = (14 - months) / 12 in
    let back : ℕ = (months - 14) / 12 in
    let y : ℕ = years + 4800 - a + back in
    let m : ℕ = months + 12 * a - 3 - 12 * back in
    days + (153 * m + 2) / 5 + 365 * y + y / 4 - y / 100 + y / 400 - 32045

-- `getUnixEpoch`, with 64-bit differences.
unfoldable pub get_unix_epoch : (seconds minutes hours days months years : ℕ) → ℕ
get_unix_epoch seconds minutes hours days months years =
    let jdn_diff : ℕ =
      (get_julian_day days months years + 2 ^ 64 - get_julian_day 1 1 1970) % 2 ^ 64 in
    (jdn_diff * 86400 + hours * 3600 + minutes * 60 + seconds) % 2 ^ 64

-- `TimeDescriptor`
pub record TimeDescriptor : Type 0 where
  pub seconds : ℕ
  pub minutes : ℕ
  pub hour : ℕ
  pub day : ℕ
  pub month : ℕ
  pub year : ℕ

-- The date of a day number, as `year`, `month` and `day` of `converterEpochToDate`, whose `int`s hold
-- the numbers for a day number below 2 ^ 30.
abbrev pub day_date : ℕ → ℕ × ℕ × ℕ
day_date epoch =
    let a : ℕ = (4 * epoch + 102032) / 146097 + 15 in
    let b : ℕ = epoch + 2442113 + a - a / 4 in
    let year : ℕ = (20 * b - 2442) / 7305 in
    let c : ℕ = b - 365 * year - year / 4 in
    let month : ℕ = c * 1000 / 30601 in
    let day : ℕ = c - month * 30 - month * 601 / 1000 in
    if leb month 13 then (year - 4716, month - 1, day) else (year - 4715, month - 13, day)

-- `converterEpochToDate`
unfoldable pub converter_epoch_to_date : ℕ → TimeDescriptor
converter_epoch_to_date epoch =
    let date = day_date (epoch / 60 / 60 / 24) in
    record {
      seconds = epoch % 60;
      minutes = epoch / 60 % 60;
      hour = epoch / 60 / 60 % 24;
      day = date.2;
      month = date.1;
      year = date.0;
    }
