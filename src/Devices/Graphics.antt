-- ===== src/Devices/Graphics.antt =====
-- Kernel/Devices/Graphics/graphics.cpp and the class of framebuffer.hpp and framebuffer.cpp: single
-- pixels and rectangles in the back buffer. A byte of either buffer has its distance from the buffer's
-- start for an address; writes past the end of the back buffer are part of the model.
pub mod Font
pub mod Pixel
pub mod Rectangle
mod Tests
use xyris.Base.{
  ℕ, zero, suc, ◌+◌, ◌*◌, ◌/◌, ◌%◌, ◌^◌, Bool, true, false, ◌&&◌, ◌==◌, ltb, leb, if◌then◌else◌,
  Option, none, some, add_word, mul_word,
}
use xyris.Base.Maybe.{◌>>=◌}

-- `enum FramebufferMemoryModel`
pub data MemoryModel : Type 0 where
  undefined_fbmm rgb_fbmm : MemoryModel

-- `class Framebuffer`
pub record Framebuffer : Type 0 where
  pub addr : ℕ
  pub width : ℕ
  pub height : ℕ
  pub depth : ℕ
  pub pitch : ℕ
  pub red_mask_size : ℕ
  pub red_mask_shift : ℕ
  pub green_mask_size : ℕ
  pub green_mask_shift : ℕ
  pub blue_mask_size : ℕ
  pub blue_mask_shift : ℕ
  pub memory_model : MemoryModel

-- The constructor without masks; the default one has all fields 0.
abbrev pub framebuffer : ℕ → ℕ → ℕ → ℕ → ℕ → Framebuffer
framebuffer width height depth pitch addr = record {
  addr = addr;
  width = width;
  height = height;
  depth = depth;
  pitch = pitch;
  red_mask_size = 0;
  red_mask_shift = 0;
  green_mask_size = 0;
  green_mask_shift = 0;
  blue_mask_size = 0;
  blue_mask_shift = 0;
  memory_model = MemoryModel.undefined_fbmm;
}

-- `getPixelWidth`, a byte.
abbrev pub pixel_width : Framebuffer → ℕ
pixel_width fb = fb.depth / 8 % 256

-- `info`, `initialized`, `backbuffer` and the memory at the framebuffer's address.
pub record Screen : Type 0 where
  pub info : Framebuffer
  pub initialized : Bool
  pub backbuffer : ℕ → ℕ
  pub memory : ℕ → ℕ

abbrev pub buffer_size : Framebuffer → ℕ
buffer_size fb = mul_word fb.pitch fb.height

-- The first `size` bytes of one buffer in front of the other's.
abbrev pub copy_bytes : (ℕ → ℕ) → (ℕ → ℕ) → ℕ → ℕ → ℕ
copy_bytes dest src size q = if ltb q size then src q else dest q

-- `init` of a framebuffer, none for NULL, with a new back buffer.
unfoldable pub init : Screen → Option Framebuffer → (ℕ → ℕ) → Screen
init s none fresh = s
init s (some fb) fresh = if fb.addr == 0 then record s { info = fb } else record {
  info = fb;
  initialized = true;
  backbuffer = copy_bytes fresh s.memory (buffer_size fb);
  memory = s.memory;
}

abbrev pub write_byte : (ℕ → ℕ) → ℕ → ℕ → ℕ → ℕ
write_byte mem p value q = if p == q then value else mem q

-- `(color >> shift) & 0xff`
abbrev pub channel : ℕ → ℕ → ℕ
channel color shift = color / 2 ^ shift % 256

-- Where the pixel lies in the back buffer.
abbrev pub pixel_at : Framebuffer → ℕ → ℕ → ℕ
pixel_at fb x y = mul_word y fb.pitch + mul_word x (pixel_width fb)

abbrev pub write_pixel : Framebuffer → (ℕ → ℕ) → ℕ → ℕ → ℕ → ℕ
write_pixel fb mem p color =
    let m1 = write_byte mem p (channel color fb.blue_mask_shift) in
    let m2 = write_byte m1 (p + 1) (channel color fb.green_mask_shift) in
    let m3 = write_byte m2 (p + 2) (channel color fb.red_mask_shift) in
    if pixel_width fb == 4 then write_byte m3 (p + 3) 0 else m3

-- `pixel`
unfoldable pub pixel : Screen → ℕ → ℕ → ℕ → Screen
pixel s x y color =
    let drawn : Screen = record s {
      backbuffer = write_pixel s.info s.backbuffer (pixel_at s.info x y) color;
    } in
    if s.initialized && (leb x s.info.width && leb y s.info.height) then drawn else s

-- `resetDoubleBuffer` and `swap`
unfoldable pub reset_double_buffer : Screen → Screen
reset_double_buffer s =
    if s.initialized
    then record s { backbuffer = copy_bytes s.backbuffer (λ q. 0) (buffer_size s.info) }
    else s

unfoldable pub swap : Screen → Screen
swap s =
    if s.initialized
    then record s { memory = copy_bytes s.memory s.backbuffer (buffer_size s.info) }
    else s

-- The inner loop of `putrect` from `curr_y` on and the outer one from `curr_x` on, with `n` rounds at
-- most each: none where more would follow.
unfoldable pub put_column : ℕ → Screen → ℕ → ℕ → ℕ → ℕ → Option Screen
put_column zero s curr_x curr_y last_y color = if leb curr_y last_y then none else some s
put_column (suc n) s curr_x curr_y last_y color =
    let rest = put_column n (pixel s curr_x curr_y color) curr_x (add_word curr_y 1) last_y color in
    if leb curr_y last_y then rest else some s

unfoldable pub put_columns : ℕ → ℕ → Screen → ℕ → ℕ → ℕ → ℕ → ℕ → Option Screen
put_columns zero rows s curr_x last_x y last_y color = if leb curr_x last_x then none else some s
put_columns (suc n) rows s curr_x last_x y last_y color =
    let rest = put_column rows s curr_x y last_y color >>= λ t.
    put_columns n rows t (add_word curr_x 1) last_x y last_y color in
    if leb curr_x last_x then rest else some s

-- `putrect`, with rounds for its two loops.
unfoldable pub putrect : ℕ → ℕ → Screen → ℕ → ℕ → ℕ → ℕ → ℕ → Option Screen
putrect columns rows s x y w h color =
    let drawn =
      put_columns columns rows s x (add_word x w) y (add_word y h) color >>= λ t. some (swap t) in
    if s.initialized then drawn else some s
