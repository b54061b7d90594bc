-- ===== src/Devices/Graphics/Font.antt =====
-- Kernel/Devices/Graphics/font.cpp: the glyphs, and how a character is drawn.
pub mod Table
pub mod Cell
use xyris.Base.{
  ℕ, zero, suc, ◌+◌, ◌*◌, ◌/◌, ◌%◌, ◌^◌, Bool, not, ◌&&◌, ◌==◌, if◌then◌else◌, Option, none, some,
  [], get_or, add_word, mul_word,
}
use xyris.Devices.Graphics.{Screen, pixel}
use xyris.Devices.Graphics.Font.Table.{font_data}

abbrev pub font_width : ℕ
font_width = 8

abbrev pub font_height : ℕ
font_height = 8

-- Whether the pixel belongs to the glyph. A row that the table does not have is empty here.
unfoldable pub in_glyph : ℕ → ℕ → ℕ → Bool
in_glyph c fx fy =
    not (fx == font_width)
    && (not (fy == font_height) && (get_or (get_or font_data c []) fy 0 / 2 ^ fx % 2 == 1))

-- One round of the loops: where there is no background, only the glyph is drawn.
abbrev draw_pixel : Screen → ℕ → ℕ → ℕ → ℕ → ℕ → ℕ → Option ℕ → Screen
draw_pixel s c x y fx fy fore none =
    if in_glyph c fx fy then pixel s (add_word x fx) (add_word y fy) fore else s
draw_pixel s c x y fx fy fore (some back) =
    pixel s (add_word x fx) (add_word y fy) (if in_glyph c fx fy then fore else back)

-- The inner loop from `fx` on, `n` rounds, and the outer one from `fy` on, `n` rounds of nine each.
unfoldable pub draw_row : ℕ → Screen → ℕ → ℕ → ℕ → ℕ → ℕ → ℕ → Option ℕ → Screen
draw_row zero s c x y fx fy fore back = s
draw_row (suc n) s c x y fx fy fore back =
    draw_row n (draw_pixel s c x y fx fy fore back) c x y (fx + 1) fy fore back

unfoldable pub draw_rows : ℕ → Screen → ℕ → ℕ → ℕ → ℕ → ℕ → Option ℕ → Screen
draw_rows zero s c x y fy fore back = s
draw_rows (suc n) s c x y fy fore back =
    draw_rows n (draw_row 9 s c x y 0 fy fore back) c x y (fy + 1) fore back

-- `Draw` without and with a background; `c` is the character as a `uint8_t`.
unfoldable pub draw : Screen → ℕ → ℕ → ℕ → ℕ → Screen
draw s c x y fore = draw_rows 9 s c (mul_word x font_width) (mul_word y font_height) 0 fore none

unfoldable pub draw_over : Screen → ℕ → ℕ → ℕ → ℕ → ℕ → Screen
draw_over s c x y fore back =
    draw_rows 9 s c (mul_word x font_width) (mul_word y font_height) 0 fore (some back)
