-- ===== src/Library/Strings/Buffers.antt =====
-- Kernel/Library/string.cpp, the routines that write strings into memory. A loop over a string ends
-- only at a null, so it is given a number of rounds, and there is no result where they do not do.
-- Lengths and indices stay below 2 ^ 31.
pub mod Copies
pub mod Reverse
pub mod Decimal
pub mod Itoa
mod Tests
use xyris.Base.{
  ℕ, zero, suc, ◌+◌, ◌-◌, ◌/◌, ◌%◌, Bool, true, false, ◌==◌, ltb, if◌then◌else◌, Option, none, some,
}
use xyris.Base.Maybe.{◌>>=◌}
use xyris.Library.Memory.{Bytes, store, memcpy}

-- The loop of `strlen` from index `i` on.
unfoldable pub strlen_from : ℕ → Bytes → ℕ → ℕ → Option ℕ
strlen_from zero m s i = none
strlen_from (suc n) m s i =
    let rest = strlen_from n m s (i + 1) in if m (s + i) == 0 then some i else rest

unfoldable pub strlen : ℕ → Bytes → ℕ → Option ℕ
strlen n m s = strlen_from n m s 0

-- `strcat`
unfoldable pub strcat : ℕ → Bytes → ℕ → ℕ → Option Bytes
strcat n m dest src = do
  len_dest ← strlen n m dest
  len_src ← strlen n m src
  some (memcpy m (dest + len_dest) src (len_src + 1))

unfoldable pub strcpy : ℕ → Bytes → ℕ → ℕ → Option Bytes
strcpy zero m dest src = none
strcpy (suc n) m dest src =
    let rest = strcpy n (store m dest (m src)) (dest + 1) (src + 1) in
    if m src == 0 then some (store m dest 0) else rest

-- `strncpy`, by recursion on `len`.
unfoldable pub strncpy : Bytes → ℕ → ℕ → ℕ → Bytes
strncpy m dest src zero = store m dest 0
strncpy m dest src (suc len) =
    let rest = strncpy (store m dest (m src)) (dest + 1) (src + 1) len in
    if m src == 0 then store m dest 0 else rest

-- The loop of `reverse`: it swaps the bytes at `i` and `j` and moves both inwards.
abbrev pub swapped : Bytes → ℕ → ℕ → Bytes
swapped m p q = store (store m p (m q)) q (m p)

unfoldable pub reverse_loop : ℕ → Bytes → ℕ → ℕ → ℕ → Option Bytes
reverse_loop zero m s i j = none
reverse_loop (suc n) m s i j =
    let rest = reverse_loop n (swapped m (s + i) (s + j)) s (i + 1) (j - 1) in
    if ltb i j then rest else some m

-- `reverse`; on an empty string `j` is -1 in the source and 0 here, and not above `i` either way.
unfoldable pub reverse : ℕ → Bytes → ℕ → Option Bytes
reverse n m s = do len ← strlen n m s; reverse_loop n m s 0 (len - 1)

-- An `int`: `negsuc n` is -(n + 1).
pub data ℤ : Type 0 where
  pos negsuc : ℕ → ℤ

abbrev pub is_negative : ℤ → Bool
is_negative (pos n) = false
is_negative (negsuc n) = true

-- What `itoa` makes of the number: its negation if it is negative.
abbrev pub magnitude : ℤ → ℕ
magnitude (pos n) = n
magnitude (negsuc n) = n + 1

-- The loop of `itoa` from index `i` on: the digits, the last one first, and the index behind them.
unfoldable pub put_digits : ℕ → Bytes → ℕ → ℕ → ℕ → Option (ℕ × Bytes)
put_digits zero m str i n = none
put_digits (suc r) m str i n =
    let written = store m (str + i) (n % 10 + b'0') in
    let rest = put_digits r written str (i + 1) (n / 10) in
    if ltb 0 (n / 10) then rest else some (i + 1, written)

abbrev pub put_sign : Bool → ℕ → ℕ × Bytes → ℕ × Bytes
put_sign true str (i, m) = (i + 1, store m (str + i) b'-')
put_sign false str (i, m) = (i, m)

abbrev pub put_null : ℕ → ℕ × Bytes → Bytes
put_null str (i, m) = store m (str + i) 0

-- `itoa` of a number whose negation is an `int`.
unfoldable pub itoa : ℕ → Bytes → ℤ → ℕ → Option Bytes
itoa r m n str = do
  digits ← put_digits r m str 0 (magnitude n)
  reverse r (put_null str (put_sign (is_negative n) str digits)) str
