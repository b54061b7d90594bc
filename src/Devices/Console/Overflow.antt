-- ===== src/Devices/Console/Overflow.antt =====
-- How the array of values is overrun: by a cursor position with one value, and by abandoned codes.
use xyris.Base.{
  ℕ, ◌+◌, ◌<◌, ◌≡◌, refl, ap, arith, true, ltb, if◌then◌else◌, Bool-cases, inl, inr, List, [], ◌∷◌,
  Option, none, some,
}
use xyris.Devices.Console.{AnsiState, Console, put_char, write, in_bracket, in_value, is_digit}
use xyris.Devices.Console.Cursor.{print_char-values_idx}

-- The console outside of an escape code, with `n` values left over.
abbrev pub ready : Console → ℕ → Console
ready s n = record s { ansi_state = AnsiState.normal; ansi_values_idx = n }

-- The escape code for a cursor position with the one digit `d`, `ESC [ d H`.
abbrev pub line_only : ℕ → List ℕ
line_only d = 27 ∷ 91 ∷ (48 + d) ∷ 72 ∷ []

-- A cursor position with one value, whose column is left out, reads in front of the array.
pub write-line_only : (s : Console) (d : ℕ) → d < 10 → write (ready s 0) (line_only d) ≡ none
unfolding write put_char in_bracket in_value
write-line_only s d h = let digit : is_digit (48 + d) ≡ true = ground arith in rw digit refl

-- `ESC [ 1 ; 2 x`: a code that is given up behind its first value.
abbrev pub abandoned : List ℕ
abandoned = 27 ∷ 91 ∷ 49 ∷ 59 ∷ 50 ∷ 120 ∷ []

-- The number of left-over values behind the text; none where the array was overrun.
abbrev pub values_left : Option Console → Option ℕ
values_left none = none
values_left (some s) = some s.ansi_values_idx

-- Every abandoned code leaves its first value behind; with eight left over, the next one writes
-- behind the array.
pub write-abandoned :
    (s : Console) (n : ℕ)
    → values_left (write (ready s n) abandoned) ≡ (if ltb n 8 then some (n + 1) else none)
unfolding write put_char in_bracket in_value
write-abandoned s n = elim (Bool-cases (ltb n 8)) [
  | inl room ↦ rw room (ap some (print_char-values_idx _ 120))
  | inr full ↦ rw full refl
]
