-- ===== src/Devices/Graphics/Pixel.antt =====
-- A pixel of the screen is written inside the back buffer, and one line further is not.
use xyris.Base.{ℕ, suc, ◌+◌, ◌*◌, ◌<◌, ◌≤◌, ◌≡◌, ◌⊎◌, refl, arith, true, ◌&&◌, leb, word, mul_word}
use xyris.Devices.Graphics.{Framebuffer, Screen, pixel_width, pixel_at, write_pixel, channel, pixel}

-- The lines hold their pixels, the size fits, and a pixel has three or four bytes.
pub record IsLaidOut (fb : Framebuffer) : Type 0 where
  pub lines : fb.width * pixel_width fb ≤ fb.pitch
  pub fits : fb.pitch * fb.height < word
  pub bytes : (pixel_width fb ≡ 3) ⊎ (pixel_width fb ≡ 4)

times_le : (a b c : ℕ) → a ≤ b → a * c ≤ b * c
times_le a b c h = grind arith

-- The pixel ends inside the buffer.
pub pixel_at-Inside :
    (fb : Framebuffer) (x y : ℕ)
    → IsLaidOut fb
    → x < fb.width
    → y < fb.height
    → (pixel_at fb x y ≡ y * fb.pitch + x * pixel_width fb)
      × (pixel_at fb x y + pixel_width fb ≤ fb.pitch * fb.height)
pixel_at-Inside fb x y h hx hy =
    let lines = h.lines in
    let fits = h.fits in
    let row : suc x * pixel_width fb ≤ fb.width * pixel_width fb =
      times_le (suc x) fb.width (pixel_width fb) (omega arith) in
    let column : suc y * fb.pitch ≤ fb.height * fb.pitch =
      times_le (suc y) fb.height fb.pitch (omega arith) in
    let swap : fb.height * fb.pitch ≡ fb.pitch * fb.height = grind arith in
    let one_row : suc x * pixel_width fb ≡ x * pixel_width fb + pixel_width fb = grind arith in
    let one_column : suc y * fb.pitch ≡ y * fb.pitch + fb.pitch = grind arith in
    let ey : mul_word y fb.pitch ≡ y * fb.pitch = omega arith in
    let ex : mul_word x (pixel_width fb) ≡ x * pixel_width fb = omega arith in
    (omega arith, omega arith)

-- The bytes of a pixel at `p`.
record Written (fb : Framebuffer) (mem mem' : ℕ → ℕ) (p color : ℕ) : Type 0 where
  pub blue : mem' p ≡ channel color fb.blue_mask_shift
  pub green : mem' (p + 1) ≡ channel color fb.green_mask_shift
  pub red : mem' (p + 2) ≡ channel color fb.red_mask_shift
  pub before : (q : ℕ) → q < p → mem' q ≡ mem q
  pub behind : (q : ℕ) → p + pixel_width fb ≤ q → mem' q ≡ mem q

write_pixel-Written :
    (fb : Framebuffer) (mem : ℕ → ℕ) (p color : ℕ)
    → (pixel_width fb ≡ 3) ⊎ (pixel_width fb ≡ 4)
    → Written fb mem (write_pixel fb mem p color) p color
write_pixel-Written fb mem p color bytes = record {
  blue = ground arith;
  green = ground arith;
  red = ground arith;
  before = λ q lt. ground arith;
  behind = λ q le. ground arith;
}

-- What a pixel's bytes are and that no others change.
pub record Writes (s t : Screen) (at color : ℕ) : Type 0 where
  pub blue : t.backbuffer at ≡ channel color s.info.blue_mask_shift
  pub green : t.backbuffer (at + 1) ≡ channel color s.info.green_mask_shift
  pub red : t.backbuffer (at + 2) ≡ channel color s.info.red_mask_shift
  pub before : (q : ℕ) → q < at → t.backbuffer q ≡ s.backbuffer q
  pub behind : (q : ℕ) → at + pixel_width s.info ≤ q → t.backbuffer q ≡ s.backbuffer q
  pub same_info : t.info ≡ s.info
  pub same_memory : t.memory ≡ s.memory
  pub on : t.initialized ≡ true

pub pixel-Writes :
    (s : Screen) (x y color : ℕ)
    → s.initialized ≡ true
    → (pixel_width s.info ≡ 3) ⊎ (pixel_width s.info ≡ 4)
    → x ≤ s.info.width
    → y ≤ s.info.height
    → Writes s (pixel s x y color) (pixel_at s.info x y) color
unfolding pixel
pixel-Writes s x y color on bytes hx hy =
    let drawn : s.initialized && (leb x s.info.width && leb y s.info.height) ≡ true =
      ground arith in
    let w = write_pixel-Written s.info s.backbuffer (pixel_at s.info x y) color bytes in
    rw drawn (record {
      blue = w.blue;
      green = w.green;
      red = w.red;
      before = w.before;
      behind = w.behind;
      same_info = refl;
      same_memory = refl;
      on = on;
    })
