-- ===== src/Base/Words.antt =====
-- Machine words as native numbers: the arithmetic of `size_t`, `uintptr_t` and `uint32_t` on i686.
use Prim.Native.Nat.{ℕ, ◌+◌, ◌-◌, ◌*◌, ◌%◌, ◌^◌}

-- 2 ^ 32, the modulus of every 32-bit unsigned type.
abbrev pub word : ℕ
word = 2 ^ 32

-- `SIZE_MAX`
abbrev pub size_max : ℕ
size_max = 2 ^ 32 - 1

abbrev pub add_word : ℕ → ℕ → ℕ
add_word a b = (a + b) % word

-- Unsigned subtraction wraps: the modulus is added first, since `-` on ℕ stops at 0.
abbrev pub sub_word : ℕ → ℕ → ℕ
sub_word a b = (a + word - b) % word

abbrev pub mul_word : ℕ → ℕ → ℕ
mul_word a b = a * b % word
