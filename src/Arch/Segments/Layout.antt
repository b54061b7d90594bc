-- ===== src/Arch/Segments/Layout.antt =====
-- What the processor reads out of a packed descriptor.
use xyris.Base.{ℕ, ◌+◌, ◌*◌, ◌/◌, ◌%◌, ◌^◌, ◌<◌, ◌≡◌, Bool, true, false, arith}
use xyris.Arch.Segments.{segment, packed, access_byte, flags_byte, bit}

-- The base and the limit of a descriptor, by the processor's layout.
abbrev pub base_of : ℕ → ℕ
base_of w = w / 2 ^ 16 % 2 ^ 24 + 2 ^ 24 * (w / 2 ^ 56 % 2 ^ 8)

abbrev pub limit_of : ℕ → ℕ
limit_of w = w % 2 ^ 16 + 2 ^ 16 * (w / 2 ^ 48 % 2 ^ 4)

abbrev pub privilege_of : ℕ → ℕ
privilege_of w = w / 2 ^ 45 % 4

abbrev pub executable_of : ℕ → ℕ
executable_of w = w / 2 ^ 43 % 2

abbrev pub present_of : ℕ → ℕ
present_of w = w / 2 ^ 47 % 2

bit-lt : (b : Bool) → bit b < 2
bit-lt true = omega arith
bit-lt false = omega arith

fields_of :
    (l b a f h : ℕ)
    → l < 2 ^ 16
    → b < 2 ^ 24
    → a < 2 ^ 8
    → f < 2 ^ 8
    → h < 2 ^ 8
    → let w = l + 2 ^ 16 * b + 2 ^ 40 * a + 2 ^ 48 * f + 2 ^ 56 * h in
      (w % 2 ^ 16 ≡ l)
      × (w / 2 ^ 16 % 2 ^ 24 ≡ b)
      × (w / 2 ^ 40 % 2 ^ 8 ≡ a)
      × (w / 2 ^ 48 % 2 ^ 8 ≡ f)
      × (w / 2 ^ 56 % 2 ^ 8 ≡ h)
      × (w < 2 ^ 64)
fields_of l b a f h hl hb ha hf hh =
    (omega arith, omega arith, omega arith, omega arith, omega arith, omega arith)

-- The eight bytes of a descriptor that is built from a base of 32 bits, a limit of 20 and a privilege
-- level give the processor back the base, the limit, the level, and whether the segment holds code and is
-- present.
pub packed-segment :
    (base limit : ℕ) (rw_bit code system : Bool) (level : ℕ) (present size granularity : Bool)
    → base < 2 ^ 32
    → limit < 2 ^ 20
    → level < 4
    → let w = packed (segment base limit rw_bit code system level present size granularity) in
      (w < 2 ^ 64)
      × (base_of w ≡ base)
      × (limit_of w ≡ limit)
      × (privilege_of w ≡ level)
      × (executable_of w ≡ bit code)
      × (present_of w ≡ bit present)
unfolding packed segment access_byte flags_byte
packed-segment base limit rw_bit code system level present size granularity hb hl hp =
    let r = bit-lt rw_bit in
    let c = bit-lt code in
    let s = bit-lt system in
    let p = bit-lt present in
    let z = bit-lt size in
    let g = bit-lt granularity in
    let (w0, w1, w2, w3, w4, w5) =
      fields_of (limit % 2 ^ 16) (base % 2 ^ 24)
        (access_byte (segment base limit rw_bit code system level present size granularity))
        (flags_byte (segment base limit rw_bit code system level present size granularity))
        (base / 2 ^ 24 % 2 ^ 8) (omega arith) (omega arith) (omega arith) (omega arith)
        (omega arith) in
    (w5, omega arith, omega arith, omega arith, omega arith, omega arith)
