-- ===== src/Arch/Segments.antt =====
-- Kernel/Arch/i686/gdt.cpp and gdt.hpp: the segment descriptors and their layout in memory.
pub mod Layout
mod Tests
use xyris.Base.{ℕ, ◌+◌, ◌*◌, ◌/◌, ◌%◌, ◌^◌, Bool, true, false, List, [], ◌∷◌, if◌then◌else◌}

-- `struct Entry`; the fields of one bit are Booleans.
pub record Entry : Type 0 where
  pub limit_low : ℕ
  pub base_low : ℕ
  pub accessed : Bool
  pub rw_bit : Bool
  pub dc : Bool
  pub executable : Bool
  pub system : Bool
  pub privilege : ℕ
  pub present : Bool
  pub limit_high : ℕ
  pub reserved : Bool
  pub long_mode : Bool
  pub size : Bool
  pub granularity : Bool
  pub base_high : ℕ

-- The bit fields of the unions `Limit` and `Base`.
abbrev pub limit_section_low : ℕ → ℕ
limit_section_low value = value % 2 ^ 16

abbrev pub limit_section_high : ℕ → ℕ
limit_section_high value = value / 2 ^ 16 % 2 ^ 4

abbrev pub base_section_low : ℕ → ℕ
base_section_low value = value % 2 ^ 24

abbrev pub base_section_high : ℕ → ℕ
base_section_high value = value / 2 ^ 24 % 2 ^ 8

-- An entry as `init` builds each of them, from its base and limit.
unfoldable pub segment :
    (base limit : ℕ) (rw_bit executable system : Bool) (privilege : ℕ)
    (present size granularity : Bool)
    → Entry
segment base limit rw_bit executable system privilege present size granularity = record {
  limit_low = limit_section_low limit;
  base_low = base_section_low base;
  accessed = false;
  rw_bit = rw_bit;
  dc = false;
  executable = executable;
  system = system;
  privilege = privilege;
  present = present;
  limit_high = limit_section_high limit;
  reserved = false;
  long_mode = false;
  size = size;
  granularity = granularity;
  base_high = base_section_high base;
}

abbrev pub null_segment : Entry
unfolding segment
null_segment = segment 0 0 false false false 0 false false false

abbrev pub kernel_code : Entry
unfolding segment
kernel_code = segment 0 0xfffff true true true 0 true true true

abbrev pub kernel_data : Entry
unfolding segment
kernel_data = segment 0 0xfffff true false true 0 true true true

abbrev pub user_code : Entry
unfolding segment
user_code = segment 0 0xfffff true true true 3 true true true

abbrev pub user_data : Entry
unfolding segment
user_data = segment 0 0xfffff true false true 3 true true true

-- The table that `init` fills.
abbrev pub gdt : List Entry
gdt = null_segment ∷ kernel_code ∷ kernel_data ∷ user_code ∷ user_data ∷ []

abbrev pub bit : Bool → ℕ
bit b = if b then 1 else 0

-- The packed structure as the eight bytes of one number, its first field lowest.
unfoldable pub access_byte : Entry → ℕ
access_byte e =
    bit e.accessed
    + 2 * bit e.rw_bit
    + 4 * bit e.dc
    + 8 * bit e.executable
    + 16 * bit e.system
    + 32 * e.privilege
    + 128 * bit e.present

unfoldable pub flags_byte : Entry → ℕ
flags_byte e =
    e.limit_high
    + 16 * bit e.reserved
    + 32 * bit e.long_mode
    + 64 * bit e.size
    + 128 * bit e.granularity

unfoldable pub packed : Entry → ℕ
packed e =
    e.limit_low
    + 2 ^ 16 * e.base_low
    + 2 ^ 40 * access_byte e
    + 2 ^ 48 * flags_byte e
    + 2 ^ 56 * e.base_high
