-- ===== src/Clock/Read/Steady.antt =====
-- What `read` returns while the clock does not move.
use Prim.Native.Nat.{bit_and}
use xyris.Base.{ℕ, suc, ◌+◌, ◌≡◌, ◌≢◌, refl, ap, ◌∙◌, Bool, true, false, not, ◌==◌, some, arith}
use xyris.Clock.{Reading, decode}
use xyris.Clock.Modes.{registers, InRange, hour_read, decode-registers, digits-nonzero}
use xyris.Clock.Read.{Registers, same, nothing_read, wait_update, scan, settle, read}

-- From now on the device gives the registers of `r`, the seconds in the place of the century, and
-- `register_b`, and no update is in progress.
pub record Steady (device : ℕ → ℕ → ℕ) (r : Reading) (register_b : ℕ) : Type 0 where
  pub second : (n : ℕ) → device n 0x00 ≡ r.second
  pub minute : (n : ℕ) → device n 0x02 ≡ r.minute
  pub hour : (n : ℕ) → device n 0x04 ≡ r.hour
  pub day : (n : ℕ) → device n 0x07 ≡ r.day
  pub month : (n : ℕ) → device n 0x08 ≡ r.month
  pub year : (n : ℕ) → device n 0x09 ≡ r.year
  pub mode : (n : ℕ) → device n 0x0b ≡ register_b
  pub idle : (n : ℕ) → (bit_and (device n 0x0a) 0x80 == 0) ≡ true

same_self : (r : Registers) → same r r ≡ true
unfolding same
same_self r = ground arith

same-first : (r : Registers) → r.reading.day ≢ 0 → same nothing_read r ≡ false
unfolding same
same-first r ne = ground arith

settle-stop :
    (device : ℕ → ℕ → ℕ) (wait fuel : ℕ) (last now : Registers) (n : ℕ)
    → same last now ≡ true
    → settle device wait (suc fuel) last now n ≡ some (now, n)
unfolding settle
settle-stop device wait fuel last now n e = rw e refl

settle-again :
    (device : ℕ → ℕ → ℕ) (wait fuel : ℕ) (last now : Registers) (n m : ℕ)
    → same last now ≡ false
    → wait_update device wait n ≡ some m
    → settle device wait (suc fuel) last now n
      ≡ settle device wait fuel now (record now { reading = scan device m }) (m + 6)
unfolding settle
settle-again device wait fuel last now n m e f = rw (e, f) refl

module _ (device : ℕ → ℕ → ℕ) (r : Reading) (register_b : ℕ) (h : Steady device r register_b) where
  wait_update-idle : (fuel n : ℕ) → wait_update device (suc fuel) n ≡ some (n + 1)
  unfolding wait_update
  wait_update-idle fuel n = rw (h.idle n) refl

  scan-steady : (n : ℕ) → scan device n ≡ r
  unfolding scan
  scan-steady n = λ i. record {
    second = h.second n i;
    minute = h.minute (n + 1) i;
    hour = h.hour (n + 2) i;
    day = h.day (n + 3) i;
    month = h.month (n + 4) i;
    year = h.year (n + 5) i;
  }

  abbrev steady : Registers
  steady = record { reading = r; century = r.second }

  settle-steady :
      (wait fuel n : ℕ)
      → r.day ≢ 0
      → settle device (suc wait) (suc (suc fuel)) nothing_read steady n ≡ some (steady, n + 1 + 6)
  settle-steady wait fuel n ne =
      settle-again device (suc wait) (suc fuel) nothing_read steady n (n + 1) (same-first steady ne)
        (wait_update-idle wait n)
      ∙ ap
          (λ q.
            settle device (suc wait) (suc fuel) steady (record steady { reading = q }) (n + 1 + 6))
          (scan-steady (n + 1))
      ∙ settle-stop device (suc wait) fuel steady steady (n + 1 + 6) (same_self steady)

  read-decode :
      (wait fuel n : ℕ)
      → r.day ≢ 0
      → (k : ℕ) × (read device (suc wait) (suc (suc fuel)) n ≡ some (decode register_b r, k))
  unfolding read
  read-decode wait fuel n ne = (
    n + 1 + 7 + 1 + 6 + 1,
    rw
        (
          wait_update-idle wait n,
          scan-steady (n + 1),
          h.second (n + 1 + 6),
          settle-steady wait fuel (n + 1 + 7) ne,
          h.mode (n + 1 + 7 + 1 + 6),
        )
        refl,
  )

-- While the clock holds a date and time from 2021 to 2120 and no update is in progress, `read` returns
-- after two scans of the registers, in each of the clock's four modes, with that date and time; except that
-- noon and midnight are taken for each other if the clock counts 12 hours.
pub read-date :
    (device : ℕ → ℕ → ℕ) (binary whole_day : Bool) (register_b : ℕ) (t : Reading) (wait fuel n : ℕ)
    → Steady device (registers binary whole_day t) register_b
    → (bit_and register_b 0x04 == 0) ≡ not binary
    → (bit_and register_b 0x02 == 0) ≡ not whole_day
    → InRange t
    → t.day ≢ 0
    → (k : ℕ) × (read device (suc wait) (suc (suc fuel)) n
        ≡ some (record t { hour = hour_read whole_day t.hour }, k))
read-date device binary whole_day register_b t wait fuel n h e f range ne =
    let (k, got) =
      read-decode device (registers binary whole_day t) register_b h wait fuel n
        (digits-nonzero binary t.day ne) in
    (k, got ∙ ap (λ r. some (r, k)) (decode-registers binary whole_day register_b t e f range))
