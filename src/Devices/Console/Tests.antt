-- ===== src/Devices/Console/Tests.antt =====
-- Runs of the console, and its theorems at a console with white text on black.
use xyris.Base.{◌≡◌, refl, arith, [], ◌∷◌, List, ℕ, some, replicate}
use xyris.Devices.Console.{AnsiState, Console, write}
use xyris.Devices.Console.Cursor.{OnScreen, AllVisible, write-OnScreen}

abbrev screen : Console
screen = record {
  cursor_x = 78;
  cursor_y = 24;
  color_back = 0;
  color_fore = 0xffffff;
  reset_back = 0;
  reset_fore = 0xffffff;
  ansi_val = 0;
  ansi_values_idx = 0;
  ansi_values = replicate 8 0;
  ansi_state = AnsiState.normal;
  ansi_cursor_x = 0;
  ansi_cursor_y = 0;
  events = [];
}

-- "Hi", a tab, a newline and "x"
abbrev text : List ℕ
text = 72 ∷ 105 ∷ 9 ∷ 10 ∷ 120 ∷ []

write-OnScreen_example :
    (t : Console) × (write screen text ≡ some t) × OnScreen t × AllVisible t.events
write-OnScreen_example = write-OnScreen text screen refl (omega arith) tt (omega arith)
