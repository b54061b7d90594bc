-- ===== src/Devices/Console/Colors.antt =====
-- The escape code that selects a colour.
use xyris.Base.{
  ℕ, ◌+◌, ◌-◌, ◌*◌, ◌%◌, ◌^◌, ◌<◌, ◌≡◌, refl, arith, true, false, ◌==◌, leb, List, [], ◌∷◌, some,
  length, set, get_or, get_or-set_self,
}
use xyris.Devices.Console.{
  AnsiState, Console, put_char, write, in_bracket, in_value, is_digit, vga_color,
}
use xyris.Devices.Console.Overflow.{ready}

-- `ESC [ 3 k m`
abbrev pub foreground : ℕ → List ℕ
foreground k = 27 ∷ 91 ∷ 51 ∷ (48 + k) ∷ 109 ∷ []

-- The console with the colour selected; the value stays in the array, which counts none.
abbrev pub with_foreground : Console → ℕ → Console
with_foreground s k = record (ready s 0) {
  color_fore = vga_color k;
  ansi_val = 0;
  ansi_values = set s.ansi_values 0 (30 + k);
}

-- A digit extends the value that is read.
in_value-digit :
    (s : Console) (d : ℕ)
    → d < 10
    → in_value s (48 + d) ≡ some (record s { ansi_val = (s.ansi_val * 10 + d) % 2 ^ 16 }, true)
unfolding in_value
in_value-digit s d h =
    let digit : is_digit (48 + d) ≡ true = ground arith in
    let semi : ((48 + d) == 59) ≡ false = ground arith in
    let attr : ((48 + d) == 109) ≡ false = ground arith in
    let line : ((48 + d) == 72) ≡ false = ground arith in
    let column : ((48 + d) == 102) ≡ false = ground arith in
    let erase : ((48 + d) == 74) ≡ false = ground arith in
    let val : 48 + d - 48 ≡ d = omega arith in rw (semi, attr, line, column, erase, digit, val) refl

-- The command 'm' with one value that names a foreground colour.
in_value-foreground :
    (s : Console) (k : ℕ)
    → k < 8
    → 0 < length s.ansi_values
    → in_value (record (ready s 0) { ansi_state = AnsiState.value; ansi_val = 30 + k }) 109
      ≡ some (with_foreground s k, true)
unfolding in_value
in_value-foreground s k h room =
    let stored : get_or (set s.ansi_values 0 (30 + k)) 0 0 ≡ 30 + k =
      get_or-set_self s.ansi_values 0 (30 + k) 0 room in
    let not_reset : ((30 + k) == 0) ≡ false = ground arith in
    let low : leb 30 (30 + k) ≡ true = ground arith in
    let high : leb (30 + k) 37 ≡ true = ground arith in
    let back : 30 + k - 30 ≡ k = omega arith in rw (stored, not_reset, low, high, back) refl

-- `ESC [ 3 k m`, for a digit `k` below 8, makes colour `k` of the table the foreground colour. It draws
-- nothing, leaves the cursor where it was, and ends outside of an escape code with no value left.
pub write-foreground :
    (s : Console) (k : ℕ)
    → k < 8
    → 0 < length s.ansi_values
    → write (ready s 0) (foreground k) ≡ some (with_foreground s k)
unfolding write put_char in_bracket
write-foreground s k h room =
    let val : (3 * 10 + k) % 2 ^ 16 ≡ 30 + k = omega arith in
    rw
      (
        in_value-digit (record (ready s 0) { ansi_val = 3; ansi_state = AnsiState.value }) k
            (omega arith),
        val,
        in_value-foreground s k h room,
      )
      refl
