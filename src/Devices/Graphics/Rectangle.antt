-- ===== src/Devices/Graphics/Rectangle.antt =====
-- A rectangle of the screen is drawn inside the back buffer.
use xyris.Base.{
  ℕ, zero, suc, ◌+◌, ◌*◌, ◌<◌, ◌≤◌, ◌≡◌, inl, inr, refl, sym, ◌∙◌, ap, arith, subst, true, leb,
  leb→le, if◌then◌else◌, word, add_word, some, Bool-cases,
}
use xyris.Devices.Graphics.{
  Screen, pixel_at, pixel, put_column, put_columns, putrect, swap, copy_bytes, buffer_size,
}
use xyris.Devices.Graphics.Pixel.{IsLaidOut, pixel_at-Inside, Writes, pixel-Writes}

-- `t` differs from `s` in bytes of the back buffer's extent only.
pub record Inside (s t : Screen) : Type 0 where
  pub beyond : (q : ℕ) → s.info.pitch * s.info.height ≤ q → t.backbuffer q ≡ s.backbuffer q
  pub same_info : t.info ≡ s.info
  pub same_memory : t.memory ≡ s.memory
  pub on : t.initialized ≡ true

pub Inside-refl : (s : Screen) → s.initialized ≡ true → Inside s s
Inside-refl s on = record { beyond = λ q le. refl; same_info = refl; same_memory = refl; on = on }

pub Inside-trans : (s t u : Screen) → Inside s t → Inside t u → Inside s u
Inside-trans s t u h k = record {
  beyond =
      λ q le. k.beyond q (subst (λ i. i.pitch * i.height ≤ q) (sym h.same_info) le) ∙ h.beyond q le;
  same_info = k.same_info ∙ h.same_info;
  same_memory = k.same_memory ∙ h.same_memory;
  on = k.on;
}

pub pixel-Inside :
    (s : Screen) (x y color : ℕ)
    → s.initialized ≡ true
    → IsLaidOut s.info
    → x < s.info.width
    → y < s.info.height
    → Inside s (pixel s x y color)
pixel-Inside s x y color on h hx hy =
    let w = pixel-Writes s x y color on h.bytes (omega arith) (omega arith) in
    let inside = pixel_at-Inside s.info x y h hx hy in
    record {
      beyond = λ q le. w.behind q (omega (arith, inside.1));
      same_info = w.same_info;
      same_memory = w.same_memory;
      on = w.on;
    }

column-next :
    (n : ℕ) (s t : Screen) (x y last color : ℕ)
    → leb y last ≡ true
    → add_word y 1 ≡ y + 1
    → put_column n (pixel s x y color) x (y + 1) last color ≡ some t
    → put_column (suc n) s x y last color ≡ some t
unfolding put_column
column-next n s t x y last color more next e = rw (more, next) e

put_column-Inside :
    (n : ℕ) (s : Screen) (x y last color : ℕ)
    → s.initialized ≡ true
    → IsLaidOut s.info
    → x < s.info.width
    → last < s.info.height
    → s.info.height < word
    → last < y + n
    → (t : Screen) × (put_column n s x y last color ≡ some t) × Inside s t
unfolding put_column
put_column-Inside zero s x y last color on h hx hl small enough =
    (s, ground arith, Inside-refl s on)
put_column-Inside (suc n) s x y last color on h hx hl small enough =
    elim (Bool-cases (leb y last)) [
      | inr done ↦ (s, rw done refl, Inside-refl s on)
      | inl more ↦
          let le = leb→le y last more in
          let p = pixel-Inside s x y color on h hx (omega arith) in
          let info = sym p.same_info in
          let (t, e, rest) =
            put_column-Inside n (pixel s x y color) x (y + 1) last color p.on
              (subst IsLaidOut info h) (subst (λ i. x < i.width) info hx)
              (subst (λ i. last < i.height) info hl) (subst (λ i. i.height < word) info small)
              (omega arith) in
          (
            t,
            column-next n s t x y last color more (omega arith) e,
            Inside-trans s (pixel s x y color) t p rest,
          )
    ]

columns-next :
    (n rows : ℕ) (s t u : Screen) (x last_x y last_y color : ℕ)
    → leb x last_x ≡ true
    → add_word x 1 ≡ x + 1
    → put_column rows s x y last_y color ≡ some t
    → put_columns n rows t (x + 1) last_x y last_y color ≡ some u
    → put_columns (suc n) rows s x last_x y last_y color ≡ some u
unfolding put_columns
columns-next n rows s t u x last_x y last_y color more next e f = rw (more, e, next) f

put_columns-Inside :
    (n rows : ℕ) (s : Screen) (x last_x y last_y color : ℕ)
    → s.initialized ≡ true
    → IsLaidOut s.info
    → last_x < s.info.width
    → s.info.width < word
    → last_y < s.info.height
    → s.info.height < word
    → last_x < x + n
    → last_y < y + rows
    → (t : Screen) × (put_columns n rows s x last_x y last_y color ≡ some t) × Inside s t
unfolding put_columns
put_columns-Inside zero rows s x last_x y last_y color on h hx sx hy sy nx ny =
    (s, ground arith, Inside-refl s on)
put_columns-Inside (suc n) rows s x last_x y last_y color on h hx sx hy sy nx ny =
    elim (Bool-cases (leb x last_x)) [
      | inr done ↦ (s, rw done refl, Inside-refl s on)
      | inl more ↦
          let le = leb→le x last_x more in
          let (t, e, p) = put_column-Inside rows s x y last_y color on h (omega arith) hy sy ny in
          let info = sym p.same_info in
          let (u, f, rest) =
            put_columns-Inside n rows t (x + 1) last_x y last_y color p.on (subst IsLaidOut info h)
              (subst (λ i. last_x < i.width) info hx) (subst (λ i. i.width < word) info sx)
              (subst (λ i. last_y < i.height) info hy) (subst (λ i. i.height < word) info sy)
              (omega arith) ny in
          (
            u,
            columns-next n rows s t u x last_x y last_y color more (omega arith) e f,
            Inside-trans s t u p rest,
          )
    ]

putrect-swaps :
    (columns rows : ℕ) (s t : Screen) (x y w h color : ℕ)
    → s.initialized ≡ true
    → put_columns columns rows s x (add_word x w) y (add_word y h) color ≡ some t
    → putrect columns rows s x y w h color ≡ some (swap t)
unfolding putrect
putrect-swaps columns rows s t x y w h color on e =
    rw e (ap (λ b. if b then some (swap t) else some s) on)

swap-copies :
    (t : Screen)
    → t.initialized ≡ true
    → swap t ≡ record t { memory = copy_bytes t.memory t.backbuffer (buffer_size t.info) }
unfolding swap
swap-copies t on =
    ap
      (λ b.
        if b
        then record t { memory = copy_bytes t.memory t.backbuffer (buffer_size t.info) }
        else t)
      on

-- The loops of `putrect` are inclusive: they draw one column and one line more than the width and the
-- height passed. On an initialised screen whose lines fit and whose width and height are below 2 ^ 32,
-- for a rectangle that lies on the screen with that column and line, and with more rounds than its width
-- and its height: `putrect` ends, it writes no byte behind the back buffer, and then shows the back buffer
-- in the framebuffer's memory.
pub putrect-Inside :
    (columns rows : ℕ) (s : Screen) (x y w h color : ℕ)
    → s.initialized ≡ true
    → IsLaidOut s.info
    → x + w < s.info.width
    → s.info.width < word
    → y + h < s.info.height
    → s.info.height < word
    → w < columns
    → h < rows
    → (t : Screen) × (putrect columns rows s x y w h color
        ≡ some (record t { memory = copy_bytes t.memory t.backbuffer (buffer_size t.info) }))
      × Inside s t
putrect-Inside columns rows s x y w h color on l hx sx hy sy nx ny =
    let ex : add_word x w ≡ x + w = omega arith in
    let ey : add_word y h ≡ y + h = omega arith in
    let (t, e, p) =
      put_columns-Inside columns rows s x (add_word x w) y (add_word y h) color on l (omega arith)
        sx (omega arith) sy (omega arith) (omega arith) in
    (t, putrect-swaps columns rows s t x y w h color on e ∙ ap some (swap-copies t p.on), p)

-- `pixel` does not stop at the height: on an initialised screen whose lines fit, the pixel on the line
-- directly below the last one is written behind the back buffer.
pub pixel-behind :
    (s : Screen) (x color : ℕ)
    → s.initialized ≡ true
    → IsLaidOut s.info
    → x ≤ s.info.width
    → (s.info.pitch * s.info.height ≤ pixel_at s.info x s.info.height)
      × Writes s (pixel s x s.info.height color) (pixel_at s.info x s.info.height) color
pixel-behind s x color on h hx =
    let fits = h.fits in
    let turn : s.info.height * s.info.pitch ≡ s.info.pitch * s.info.height = grind arith in
    (omega arith, pixel-Writes s x s.info.height color on h.bytes hx (omega arith))
