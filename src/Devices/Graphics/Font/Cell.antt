-- ===== src/Devices/Graphics/Font/Cell.antt =====
-- A character cell that ends left of the width and above the height is drawn inside the back buffer.
use xyris.Base.{
  ℕ, zero, suc, ◌+◌, ◌*◌, ◌<◌, ◌≤◌, ◌≡◌, sym, arith, subst, true, Bool-cases, inl, inr, word,
  add_word, mul_word, Option, none, some,
}
use xyris.Devices.Graphics.{Screen}
use xyris.Devices.Graphics.Pixel.{IsLaidOut}
use xyris.Devices.Graphics.Rectangle.{Inside, Inside-refl, Inside-trans, pixel-Inside}
use xyris.Devices.Graphics.Font.{draw_pixel, draw_row, draw_rows, draw, draw_over, in_glyph}

-- A screen that is on and whose lines and rows fit in a word.
record Ready (s : Screen) : Type 0 where
  pub on : s.initialized ≡ true
  pub laid_out : IsLaidOut s.info
  pub wide : s.info.width < word
  pub high : s.info.height < word

Ready-Inside : (s t : Screen) → Ready s → Inside s t → Ready t
Ready-Inside s t r h = record {
  on = h.on;
  laid_out = subst IsLaidOut (sym h.same_info) r.laid_out;
  wide = subst (λ i. i.width < word) (sym h.same_info) r.wide;
  high = subst (λ i. i.height < word) (sym h.same_info) r.high;
}

draw_pixel-Inside :
    (s : Screen) (c x y fx fy fore : ℕ) (back : Option ℕ)
    → Ready s
    → x + fx < s.info.width
    → y + fy < s.info.height
    → Inside s (draw_pixel s c x y fx fy fore back)
draw_pixel-Inside s c x y fx fy fore none r hx hy =
    let wide = r.wide in
    let high = r.high in
    let drawn =
      pixel-Inside s (add_word x fx) (add_word y fy) fore r.on r.laid_out (omega arith)
        (omega arith) in
    elim (Bool-cases (in_glyph c fx fy)) [
      | inl inside ↦ rw inside drawn
      | inr outside ↦ rw outside (Inside-refl s r.on)
    ]
draw_pixel-Inside s c x y fx fy fore (some back) r hx hy =
    let wide = r.wide in
    let high = r.high in
    pixel-Inside s (add_word x fx) (add_word y fy) _ r.on r.laid_out (omega arith) (omega arith)

draw_row-Inside :
    (n : ℕ) (s : Screen) (c x y fx fy fore : ℕ) (back : Option ℕ)
    → Ready s
    → x + (fx + n) ≤ s.info.width
    → y + fy < s.info.height
    → Inside s (draw_row n s c x y fx fy fore back)
unfolding draw_row
draw_row-Inside zero s c x y fx fy fore back r hx hy = Inside-refl s r.on
draw_row-Inside (suc n) s c x y fx fy fore back r hx hy =
    let t = draw_pixel s c x y fx fy fore back in
    let h = draw_pixel-Inside s c x y fx fy fore back r (omega arith) hy in
    let next : x + (fx + 1 + n) ≤ s.info.width = omega arith in
    let rest =
      draw_row-Inside n t c x y (fx + 1) fy fore back (Ready-Inside s t r h)
        (subst (λ i. x + (fx + 1 + n) ≤ i.width) (sym h.same_info) next)
        (subst (λ i. y + fy < i.height) (sym h.same_info) hy) in
    Inside-trans s t (draw_row n t c x y (fx + 1) fy fore back) h rest

draw_rows-Inside :
    (n : ℕ) (s : Screen) (c x y fy fore : ℕ) (back : Option ℕ)
    → Ready s
    → x + 9 ≤ s.info.width
    → y + (fy + n) ≤ s.info.height
    → Inside s (draw_rows n s c x y fy fore back)
unfolding draw_rows
draw_rows-Inside zero s c x y fy fore back r hx hy = Inside-refl s r.on
draw_rows-Inside (suc n) s c x y fy fore back r hx hy =
    let t = draw_row 9 s c x y 0 fy fore back in
    let h = draw_row-Inside 9 s c x y 0 fy fore back r (omega arith) (omega arith) in
    let next : y + (fy + 1 + n) ≤ s.info.height = omega arith in
    let rest =
      draw_rows-Inside n t c x y (fy + 1) fore back (Ready-Inside s t r h)
        (subst (λ i. x + 9 ≤ i.width) (sym h.same_info) hx)
        (subst (λ i. y + (fy + 1 + n) ≤ i.height) (sym h.same_info) next) in
    Inside-trans s t (draw_rows n t c x y (fy + 1) fore back) h rest

-- On an initialised screen whose lines fit, a character whose cell of eight by eight pixels, and one
-- column and one line more, lies on the screen is drawn by either `Draw` without a write behind the back
-- buffer.
pub draw-Inside :
    (s : Screen) (c x y fore back : ℕ)
    → s.initialized ≡ true
    → IsLaidOut s.info
    → x * 8 + 9 ≤ s.info.width
    → y * 8 + 9 ≤ s.info.height
    → s.info.width < word
    → s.info.height < word
    → Inside s (draw s c x y fore) × Inside s (draw_over s c x y fore back)
unfolding draw draw_over
draw-Inside s c x y fore back on l hx hy wide high =
    let r : Ready s = record { on = on; laid_out = l; wide = wide; high = high } in
    (
      draw_rows-Inside 9 s c (mul_word x 8) (mul_word y 8) 0 fore none r (omega arith)
          (omega arith),
      draw_rows-Inside 9 s c (mul_word x 8) (mul_word y 8) 0 fore (some back) r (omega arith)
          (omega arith),
    )
