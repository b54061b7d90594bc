-- ===== src/Devices/Console/Cursor.antt =====
-- The cursor of the console: text that holds no escape code stays on the screen of 80 by 25.
use xyris.Base.{
  ℕ, ◌+◌, ◌-◌, ◌*◌, ◌/◌, ◌%◌, ◌^◌, ◌<◌, ◌≡◌, ◌≢◌, refl, sym, ap, ◌∙◌, arith, true, false, ◌==◌, leb,
  Bool-cases, inl, inr, List, [], ◌∷◌, some, subst,
}
use xyris.Base.Maybe.{◌>>=◌}
use xyris.Devices.Console.{
  AnsiState, Event, Console, tab_stop, place, wrap_line, stay_on_screen, print_char, put_in,
  put_char, write,
}

abbrev pub OnScreen : Console → Type 0
OnScreen s = (s.cursor_x < 80) × (s.cursor_y < 25)

-- Every character is drawn inside the screen.
abbrev pub AllVisible : List Event → Type 0
AllVisible [] = Unit {0}
AllVisible (Event.draw c x y fore back ∷ es) = (x < 80) × (y < 25) × AllVisible es
AllVisible (Event.clear_screen ∷ es) = AllVisible es

-- A tab goes to the next multiple of four; four rounds of its loop are enough.
pub tab_stop_lem : (x : ℕ) → x < 256 → tab_stop 4 x ≡ (x / 4 + 1) * 4 % 256
tab_stop_lem x h = ground arith

stay-OnScreen : (s : Console) → s.cursor_x < 80 → OnScreen (stay_on_screen s)
unfolding stay_on_screen
stay-OnScreen s h = elim (Bool-cases (leb 25 s.cursor_y)) [
  | inl low ↦ rw low (omega arith)
  | inr fits ↦ rw fits (h, ground arith)
]

wrap-fits : (s : Console) → (wrap_line s).cursor_x < 80
unfolding wrap_line
wrap-fits s = elim (Bool-cases (leb 80 s.cursor_x)) [
  | inl wide ↦ rw wide (omega arith)
  | inr fits ↦ rw fits (ground arith)
]

print_char-OnScreen : (s : Console) (c : ℕ) → OnScreen (print_char s c)
unfolding print_char
print_char-OnScreen s c =
    let begin = record s { ansi_state = AnsiState.normal } in
    stay-OnScreen (wrap_line (place begin c)) (wrap-fits (place begin c))

stay-same :
    (s : Console)
    → ((stay_on_screen s).events ≡ s.events)
      × ((stay_on_screen s).ansi_state ≡ s.ansi_state)
      × ((stay_on_screen s).ansi_values_idx ≡ s.ansi_values_idx)
unfolding stay_on_screen
stay-same s = elim (Bool-cases (leb 25 s.cursor_y)) [
  | inl e ↦ rw e (refl, refl, refl)
  | inr e ↦ rw e (refl, refl, refl)
]

wrap-same :
    (s : Console)
    → ((wrap_line s).events ≡ s.events)
      × ((wrap_line s).ansi_state ≡ s.ansi_state)
      × ((wrap_line s).ansi_values_idx ≡ s.ansi_values_idx)
unfolding wrap_line
wrap-same s = elim (Bool-cases (leb 80 s.cursor_x)) [
  | inl e ↦ rw e (refl, refl, refl)
  | inr e ↦ rw e (refl, refl, refl)
]

-- The branches of `place`.
module _ (P : Console → Type 0) (s : Console) (c : ℕ) where
  place-cases :
      P (record s { cursor_x = s.cursor_x - 1 })
      → P (record s { cursor_x = 0; cursor_y = (s.cursor_y + 1) % 2 ^ 8 })
      → P (record s { cursor_x = tab_stop 4 s.cursor_x })
      → P (record s { cursor_x = 0 })
      → P (record s {
        cursor_x = (s.cursor_x + 1) % 2 ^ 8;
        events = Event.draw c s.cursor_x s.cursor_y s.color_fore s.color_back ∷ s.events;
      })
      → P (place s c)
  unfolding place
  place-cases back line tab home drawn = elim (Bool-cases (c == 0x08)) [
    | inl e ↦ rw e back
    | inr b ↦ elim (Bool-cases (c == 10)) [
      | inl e ↦ rw (b, e) line
      | inr l ↦ elim (Bool-cases (c == 9)) [
        | inl e ↦ rw (b, l, e) tab
        | inr t ↦ elim (Bool-cases (c == 13)) [
          | inl e ↦ rw (b, l, t, e) home
          | inr e ↦ rw (b, l, t, e) drawn
        ]
      ]
    ]
  ]

place-AllVisible :
    (s : Console) (c : ℕ) → OnScreen s → AllVisible s.events → AllVisible (place s c).events
place-AllVisible s c on seen =
    place-cases (λ t. AllVisible t.events) s c seen seen seen seen (on.0, on.1, seen)

place-state : (s : Console) (c : ℕ) → (place s c).ansi_state ≡ s.ansi_state
place-state s c = place-cases (λ t. t.ansi_state ≡ s.ansi_state) s c refl refl refl refl refl

print_char-AllVisible :
    (s : Console) (c : ℕ) → OnScreen s → AllVisible s.events → AllVisible (print_char s c).events
unfolding print_char
print_char-AllVisible s c on seen =
    let begin = record s { ansi_state = AnsiState.normal } in
    subst AllVisible
      (sym ((stay-same (wrap_line (place begin c))).0 ∙ (wrap-same (place begin c)).0))
      (place-AllVisible begin c on seen)

print_char-normal : (s : Console) (c : ℕ) → (print_char s c).ansi_state ≡ AnsiState.normal
unfolding print_char
print_char-normal s c =
    let begin = record s { ansi_state = AnsiState.normal } in
    (stay-same (wrap_line (place begin c))).1 ∙ (wrap-same (place begin c)).1 ∙ place-state begin c

place-values_idx : (s : Console) (c : ℕ) → (place s c).ansi_values_idx ≡ s.ansi_values_idx
place-values_idx s c =
    place-cases (λ t. t.ansi_values_idx ≡ s.ansi_values_idx) s c refl refl refl refl refl

-- A printed character leaves the values of an escape code as they were.
pub print_char-values_idx :
    (s : Console) (c : ℕ) → (print_char s c).ansi_values_idx ≡ s.ansi_values_idx
unfolding print_char
print_char-values_idx s c =
    let begin = record s { ansi_state = AnsiState.normal } in
    (stay-same (wrap_line (place begin c))).2
    ∙ (wrap-same (place begin c)).2
    ∙ place-values_idx begin c

-- No character of the text is an escape.
abbrev pub HasNoEscape : List ℕ → Type 0
HasNoEscape [] = Unit {0}
HasNoEscape (c ∷ cs) = (c ≢ 27) × HasNoEscape cs

put_char-plain :
    (s : Console) (c : ℕ)
    → s.ansi_state ≡ AnsiState.normal
    → c ≢ 27
    → put_char s c ≡ some (print_char s c, true)
unfolding put_char
put_char-plain s c e ne =
    let other : (c == 27) ≡ false = ground (arith, ne) in ap (λ st. put_in st s c) e ∙ rw other refl

-- In the normal state, with no escape code begun, with the cursor on the screen and every character drawn
-- so far inside the screen: text without an escape is written, the cursor is on the screen behind it, and
-- every character drawn is inside the screen.
pub write-OnScreen :
    (cs : List ℕ) (s : Console)
    → s.ansi_state ≡ AnsiState.normal
    → OnScreen s
    → AllVisible s.events
    → HasNoEscape cs
    → (t : Console) × (write s cs ≡ some t) × OnScreen t × AllVisible t.events
unfolding write
write-OnScreen [] s e on seen h = (s, refl, on, seen)
write-OnScreen (c ∷ cs) s e on seen (ne, h) =
    let (t, done, inside, visible) =
      write-OnScreen cs (print_char s c) (print_char-normal s c) (print_char-OnScreen s c)
        (print_char-AllVisible s c on seen) h in
    (t, ap (λ o. o >>= λ r. write r.0 cs) (put_char-plain s c e ne) ∙ done, inside, visible)
