-- ===== src/Library/Bitset.antt =====
-- Kernel/Library/Bitset.hpp, the template `Bitset<t_num_bits>`, with 32-bit words.
-- A method that changes the set returns the new one.
pub mod Bits
pub mod Count
pub mod Find
pub mod FindRange
mod Tests
use Prim.Native.Nat.{bit_and, bit_or}
use xyris.Base.Loops.{first_from}
use xyris.Base.{
  ℕ, zero, suc, ◌+◌, ◌-◌, ◌*◌, ◌/◌, ◌%◌, ◌^◌, Bool, true, false, not, List, ◌==◌, ltb,
  if◌then◌else◌, get_or, set, replicate, word, size_max, add_word, sub_word,
}

-- `m_numBits`, `m_count` and the array `m_bitset`.
pub record Bitset : Type 0 where
  pub num_bits : ℕ
  pub count : ℕ
  pub words : List ℕ

-- `TypeSize`: sizeof(size_t) * CHAR_BIT
abbrev pub type_size : ℕ
type_size = 32

-- `Bitset(bool defaultValue)` for `t_num_bits` bits.
pub init : ℕ → Bool → Bitset
init t_num_bits default_value = record {
  num_bits = t_num_bits;
  count = 0;
  words = replicate (t_num_bits / type_size) (if default_value then size_max else 0);
}

-- A static object of `Bitset() = default`: all zero.
pub zeroed : ℕ → Bitset
zeroed t_num_bits = record { num_bits = 0; count = 0; words = replicate (t_num_bits / type_size) 0 }

abbrev pub index : ℕ → ℕ
index position = position / type_size

abbrev pub offset : ℕ → ℕ
offset position = position % type_size

-- `m_bitset[i]`; `Find` and `FindRange` show which reads stay inside the array.
abbrev pub word_at : Bitset → ℕ → ℕ
word_at b i = get_or b.words i 0

pub set_bit : Bitset → ℕ → Bitset
set_bit b pos = record b {
  count = add_word b.count 1;
  words = set b.words (index pos) (bit_or (word_at b (index pos)) (2 ^ offset pos));
}

-- `~(1UL << Offset(pos))` is `size_max` less that bit.
pub clear : Bitset → ℕ → Bitset
clear b pos = record b {
  count = sub_word b.count 1;
  words = set b.words (index pos) (bit_and (word_at b (index pos)) (size_max - 2 ^ offset pos));
}

unfoldable pub test : Bitset → ℕ → Bool
test b pos = not (bit_and (word_at b (index pos) / 2 ^ offset pos) 1 == 0)

pub flip : Bitset → ℕ → Bitset
unfolding test clear set_bit
flip b pos = if test b pos then clear b pos else set_bit b pos

-- `Any`, `None` and `All` read the counter, not the bits.
pub any : Bitset → Bool
any b = ltb 0 b.count

pub none_set : Bitset → Bool
none_set b = b.count == 0

pub all : Bitset → Bool
all b = b.count == b.num_bits

abbrev same_bool : Bool → Bool → Bool
same_bool true y = y
same_bool false y = not y

-- `SIZE_MAX` is `npos`.
pub find_first_bit : ℕ → Bitset → Bool → ℕ
unfolding test first_from
find_first_bit t_num_bits b is_set = first_from (λ i. same_bool (test b i) is_set) t_num_bits 0

-- One round of `FindFirstRange`: the 32 bits from position `i` on, of which the mask keeps `count`.
-- `beyond` is what a read past the array's last word finds.
pub check : ℕ → Bitset → ℕ → ℕ
check beyond b i =
    let low = word_at b (index i) / 2 ^ offset i in
    let next = get_or b.words (index i + 1) beyond in
    let high : ℕ = if offset i == 0 then 0 else next * 2 ^ (type_size - offset i) % word in
    bit_or low high

-- `((size_t)1 << count) - (size_t)1`, where the language defines the shift: below 32.
abbrev pub mask : ℕ → ℕ
mask count = 2 ^ count - 1

-- `isSet` is compared as the number 0 or 1.
abbrev pub bool_value : Bool → ℕ
bool_value true = 1
bool_value false = 0

-- The bound of the loop, `t_num_bits - count`, is a difference of words.
pub find_first_range : ℕ → ℕ → Bitset → ℕ → Bool → ℕ
unfolding check first_from
find_first_range beyond t_num_bits b count is_set =
    first_from (λ i. bit_and (check beyond b i) (mask count) == bool_value is_set)
      (sub_word t_num_bits count) 0
