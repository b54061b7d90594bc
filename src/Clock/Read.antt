-- ===== src/Clock/Read.antt =====
-- Kernel/Devices/Clock/rtc.cpp: how `read` fetches the registers. `device n reg` is the byte that the n-th
-- read of the data port gives, with `reg` selected; `n` is how many reads there were. `none` is a loop that
-- runs longer than its fuel.
pub mod Steady
mod Tests
use Prim.Native.Nat.{bit_and}
use xyris.Base.{
  ℕ, zero, suc, ◌+◌, ◌%◌, ◌^◌, Bool, true, false, not, ◌&&◌, ◌==◌, if◌then◌else◌, Option, none,
  some,
}
use xyris.Base.Maybe.{◌>>=◌}
use xyris.Clock.{Reading, decode, get_unix_epoch}

-- The static variables as the registers give them, `century` with them.
pub record Registers : Type 0 where
  pub reading : Reading
  pub century : ℕ

abbrev same_reading : Reading → Reading → Bool
same_reading a b =
    (a.second == b.second)
    && (a.minute == b.minute)
    && (a.hour == b.hour)
    && (a.day == b.day)
    && (a.month == b.month)
    && (a.year == b.year)

-- The condition of the loop of `read`, negated.
unfoldable pub same : Registers → Registers → Bool
same a b = same_reading a.reading b.reading && (a.century == b.century)

-- The `last_` variables at first.
abbrev pub nothing_read : Registers
nothing_read = record {
  reading = record { second = 0; minute = 0; hour = 0; day = 0; month = 0; year = 0 };
  century = 0;
}

module _ (device : ℕ → ℕ → ℕ) where
  -- `getUpdateInProgress` and `getRegister` at the n-th read; each is one read.
  abbrev pub update_in_progress : ℕ → Bool
  update_in_progress n = not (bit_and (device n 0x0a) 0x80 == 0)

  abbrev pub get_register : ℕ → ℕ → ℕ
  get_register reg n = device n reg

  -- `while (getUpdateInProgress());`, and how many reads there were after it.
  unfoldable pub wait_update : ℕ → ℕ → Option ℕ
  wait_update zero n = none
  wait_update (suc fuel) n =
      let again = wait_update fuel (n + 1) in if update_in_progress n then again else some (n + 1)

  -- Six registers, from the n-th read on.
  unfoldable pub scan : ℕ → Reading
  scan n = record {
    second = get_register 0x00 n;
    minute = get_register 0x02 (n + 1);
    hour = get_register 0x04 (n + 2);
    day = get_register 0x07 (n + 3);
    month = get_register 0x08 (n + 4);
    year = get_register 0x09 (n + 5);
  }

  -- The rounds of the loop; `last` are the values of the round before. The century is not read again.
  unfoldable pub settle : ℕ → ℕ → Registers → Registers → ℕ → Option (Registers × ℕ)
  settle wait zero last now n = none
  settle wait (suc fuel) last now n =
      let again : Option (Registers × ℕ) = (do
        m ← wait_update wait n
        settle wait fuel now (record now { reading = scan m }) (m + 6)) in
      if same last now then some (now, n) else again

  -- `read`, with the century's register 0.
  unfoldable pub read : ℕ → ℕ → ℕ → Option (Reading × ℕ)
  read wait fuel n = do
    m ← wait_update wait n
    let first : Registers = record { reading = scan m; century = get_register 0x00 (m + 6) }
    (now, k) ← settle wait fuel nothing_read first (m + 7)
    some (decode (get_register 0x0b k) now.reading, k + 1)

  -- `getEpoch`; the arguments of `getUnixEpoch` are bytes, the year has 16 bits.
  unfoldable pub get_epoch : ℕ → ℕ → ℕ → Option (ℕ × ℕ)
  get_epoch wait fuel n = do
    (r, k) ← read wait fuel n
    some (
      get_unix_epoch (r.second % 2 ^ 8) (r.minute % 2 ^ 8) (r.hour % 2 ^ 8) (r.day % 2 ^ 8)
          (r.month % 2 ^ 8) (r.year % 2 ^ 16),
      k,
    )
