-- ===== src/Devices/Console.antt =====
-- Kernel/Devices/Graphics/console.cpp: the terminal of the framebuffer console and its ANSI escape
-- codes. Drawing is kept as a list of events, the newest first; the lock and the log are left out.
pub mod Colors
pub mod Cursor
pub mod Overflow
mod Tests
use xyris.Base.{
  ℕ, zero, suc, ◌+◌, ◌-◌, ◌*◌, ◌/◌, ◌%◌, ◌^◌, Bool, true, false, not, ◌&&◌, ◌||◌, ◌==◌, leb, ltb,
  if◌then◌else◌, List, [], ◌∷◌, get_or, set, Option, none, some, sub_word,
}
use xyris.Base.Maybe.{◌>>=◌}

-- `enum ansiStateType`
pub data AnsiState : Type 0 where
  normal esc bracket value : AnsiState

-- `Graphics::Font::Draw`, and the reset of the double buffer with its swap.
pub data Event : Type 0 where
  draw : (c x y fore back : ℕ) → Event
  clear_screen : Event

-- The static variables.
pub record Console : Type 0 where
  pub cursor_x : ℕ
  pub cursor_y : ℕ
  pub color_back : ℕ
  pub color_fore : ℕ
  pub reset_back : ℕ
  pub reset_fore : ℕ
  pub ansi_val : ℕ
  pub ansi_values_idx : ℕ
  pub ansi_values : List ℕ
  pub ansi_state : AnsiState
  pub ansi_cursor_x : ℕ
  pub ansi_cursor_y : ℕ
  pub events : List Event

-- `ansiVGATable`
abbrev pub ansi_vga_table : List ℕ
ansi_vga_table =
    0x000000 ∷ 0xaa0000 ∷ 0x00aa00 ∷ 0xaa5500 ∷ 0x0000aa ∷ 0xaa00aa ∷ 0x00aaaa ∷ 0xaaaaaa ∷ 0x555555
    ∷ 0xff5555 ∷ 0x55ff55 ∷ 0xffff55 ∷ 0x5555ff ∷ 0xff55ff ∷ 0x55ffff ∷ 0xffffff ∷ []

abbrev pub vga_color : ℕ → ℕ
vga_color i = get_or ansi_vga_table i 0

-- `PUSH_VAL`: none where it writes outside of the array of eight values.
abbrev pub push_val : Console → ℕ → Option Console
push_val s v =
    if ltb s.ansi_values_idx 8
    then some (record s {
      ansi_values_idx = s.ansi_values_idx + 1;
      ansi_values = set s.ansi_values s.ansi_values_idx v;
    })
    else none

-- `POP_VAL`: none where it reads outside of the array. At 0 the index wraps to `SIZE_MAX`.
abbrev pub pop_val : Console → Option (Console × ℕ)
pop_val s =
    let idx = sub_word s.ansi_values_idx 1 in
    if ltb idx 8
    then some (record s { ansi_values_idx = idx }, get_or s.ansi_values idx 0)
    else none

-- One value of the command 'm'.
abbrev pub set_attribute : Console → ℕ → Console
set_attribute s v =
    if v == 0
    then record s { color_fore = s.reset_fore; color_back = s.reset_back }
    else (if leb 30 v && leb v 37
        then record s { color_fore = vga_color (v - 30) }
        else (if leb 40 v && leb v 47
            then record s { color_back = vga_color (v - 40) }
            else (if leb 90 v && leb v 97
                then record s { color_fore = vga_color (v - 90 + 8) }
                else (if leb 100 v && leb v 107
                    then record s { color_back = vga_color (v - 100 + 8) }
                    else s))))

-- The loop of the command 'm': as many rounds as there are values.
abbrev pub set_attributes : ℕ → Console → Option Console
set_attributes zero s = some s
set_attributes (suc n) s =
    pop_val s >>= λ r. set_attributes n (set_attribute (record r.0 { ansi_val = r.1 }) r.1)

-- The label `normal`, with the result 0 of `putchar` as true and -1 as false.
abbrev pub to_normal : Console → Option (Console × Bool)
to_normal s = some (record s { ansi_state = normal; ansi_val = 0 }, true)

-- The label `error`.
abbrev pub to_error : Console → Option (Console × Bool)
to_error s = some (record s { ansi_values_idx = 0; ansi_state = normal; ansi_val = 0 }, false)

-- `while (++cursorX % TAB_WIDTH)`, at most `n` rounds; `Cursor` shows that four are enough.
abbrev pub tab_stop : ℕ → ℕ → ℕ
tab_stop zero x = x
tab_stop (suc n) x =
    let next = (x + 1) % 2 ^ 8 in let rest = tab_stop n next in if next % 4 == 0 then next else rest

-- The second switch, on a character that is not part of an escape code.
unfoldable pub place : Console → ℕ → Console
place s c =
    if c == 0x08
    then record s { cursor_x = s.cursor_x - 1 }
    else (if c == 10
        then record s { cursor_x = 0; cursor_y = (s.cursor_y + 1) % 2 ^ 8 }
        else (if c == 9
            then record s { cursor_x = tab_stop 4 s.cursor_x }
            else (if c == 13 then record s { cursor_x = 0 } else record s {
              cursor_x = (s.cursor_x + 1) % 2 ^ 8;
              events = draw c s.cursor_x s.cursor_y s.color_fore s.color_back ∷ s.events;
            })))

-- Behind the switch: the next line at the right edge, then the last line at the bottom.
unfoldable pub wrap_line : Console → Console
wrap_line s =
    if leb 80 s.cursor_x then record s { cursor_x = 0; cursor_y = (s.cursor_y + 1) % 2 ^ 8 } else s

unfoldable pub stay_on_screen : Console → Console
stay_on_screen s = if leb 25 s.cursor_y then record s { cursor_x = 0; cursor_y = 24 } else s

-- What `putchar` does behind the first switch.
unfoldable pub print_char : Console → ℕ → Console
print_char s c = stay_on_screen (wrap_line (place (record s { ansi_state = normal }) c))

abbrev pub printed : Console → ℕ → Option (Console × Bool)
printed s c = some (print_char s c, true)

abbrev pub is_digit : ℕ → Bool
is_digit c = leb 48 c && leb c 57

-- The case `Bracket`.
unfoldable pub in_bracket : Console → ℕ → Option (Console × Bool)
in_bracket s c =
    if is_digit c
    then some (record s { ansi_val = c - 48; ansi_state = value }, true)
    else (if c == 115
        then to_normal (record s { ansi_cursor_x = s.cursor_x; ansi_cursor_y = s.cursor_y })
        else (if c == 117
            then to_normal (record s {
              cursor_x = s.ansi_cursor_x % 2 ^ 8;
              cursor_y = s.ansi_cursor_y % 2 ^ 8;
            })
            else printed s c))

-- The commands of the case `Value`.
abbrev pub attributes_command : Console → Option (Console × Bool)
attributes_command s =
    push_val s s.ansi_val >>= λ t. set_attributes t.ansi_values_idx t >>= λ u. to_normal u

abbrev pub move_to : Console → Option (Console × Bool)
move_to t = pop_val t >>= λ x. pop_val (record x.0 { cursor_x = x.1 % 2 ^ 8 }) >>= λ y.
    to_normal (record y.0 { cursor_y = y.1 % 2 ^ 8 })

abbrev pub position_command : Console → Option (Console × Bool)
position_command s =
    push_val s s.ansi_val >>= λ t. if ltb 2 t.ansi_values_idx then to_error t else move_to t

abbrev pub clear_command : Console → Option (Console × Bool)
clear_command s =
    if s.ansi_val == 2
    then some (record s { events = clear_screen ∷ s.events }, true)
    else to_error s

abbrev pub separator : Console → Option (Console × Bool)
separator s =
    push_val s s.ansi_val >>= λ t. some (record t { ansi_state = bracket; ansi_val = 0 }, true)

-- The case `Value`.
unfoldable pub in_value : Console → ℕ → Option (Console × Bool)
in_value s c =
    if c == 59
    then separator s
    else (if c == 109
        then attributes_command s
        else (if c == 72 || c == 102
            then position_command s
            else (if c == 74
                then clear_command s
                else (if is_digit c
                    then some (record s { ansi_val = (s.ansi_val * 10 + (c - 48)) % 2 ^ 16 }, true)
                    else printed s c))))

-- `putchar`: none where it reads or writes outside of the array of values.
abbrev pub put_in : AnsiState → Console → ℕ → Option (Console × Bool)
put_in normal s c = if c == 27 then some (record s { ansi_state = esc }, true) else printed s c
put_in esc s c = if c == 91 then some (record s { ansi_state = bracket }, true) else printed s c
put_in bracket s c = in_bracket s c
put_in value s c = in_value s c

unfoldable pub put_char : Console → ℕ → Option (Console × Bool)
put_char s c = put_in s.ansi_state s c

-- `write(const char*)`: the results of `putchar` are not looked at.
unfoldable pub write : Console → List ℕ → Option Console
write s [] = some s
write s (c ∷ cs) = put_char s c >>= λ r. write r.0 cs

-- `reset(fore, back)` and `reset()`
abbrev pub reset_to : Console → ℕ → ℕ → Console
reset_to s fore back = record s {
  cursor_x = 0;
  cursor_y = 0;
  color_back = back;
  reset_back = back;
  color_fore = fore;
  reset_fore = fore;
}

abbrev pub reset : Console → Console
reset s = record s {
  cursor_x = 0;
  cursor_y = 0;
  color_back = s.reset_back;
  color_fore = s.reset_fore;
}
