-- ===== src/Clock/Registers.antt =====
-- What the decoding of the clock's registers gives for registers in binary-coded decimal.
use Prim.Native.Nat.{bit_and}
use xyris.Base.{ℕ, ◌+◌, ◌-◌, ◌*◌, ◌%◌, ◌^◌, ◌≤◌, ◌<◌, ◌≡◌, arith}
use xyris.Base.Bits.{bit_and-low_mask}
use xyris.Clock.{from_bcd, full_year}

-- Two decimal digits in four bits each are read as the number that they write.
pub from_bcd_lem :
    (tens units : ℕ) → tens < 10 → units < 10 → from_bcd (tens * 16 + units) ≡ tens * 10 + units
unfolding from_bcd
from_bcd_lem tens units ht hu =
    let low : bit_and (tens * 16 + units) (2 ^ 4 - 1) ≡ (tens * 16 + units) % 2 ^ 4 =
      bit_and-low_mask 4 (tens * 16 + units) (omega arith) (omega arith) (omega arith) in
    omega (arith, low)

-- The full year of two digits is the one of the hundred years from 2021 on that ends in them.
pub full_year_lem :
    (year : ℕ)
    → year < 100
    → (2021 ≤ full_year year) × (full_year year < 2121) × (full_year year % 100 ≡ year)
unfolding full_year
full_year_lem year h = ground arith
