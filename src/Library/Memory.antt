-- ===== src/Library/Memory.antt =====
-- Kernel/Library/string.cpp, the routines on memory. Memory is a function from addresses to bytes;
-- the addresses do not wrap.
pub mod Compare
pub mod Copy
mod Tests
use xyris.Base.{
  ℕ, zero, suc, ◌+◌, ◌-◌, ◌*◌, ◌/◌, ◌%◌, ◌^◌, Bool, true, false, ◌==◌, ltb, if◌then◌else◌,
}

abbrev pub Bytes : Type 0
Bytes = ℕ → ℕ

abbrev pub store : Bytes → ℕ → ℕ → Bytes
store m p v q = if p == q then v else m q

-- The loop of `memset`, with `n` rounds left from `i` on.
unfoldable pub memset_from : ℕ → Bytes → ℕ → ℕ → ℕ → Bytes
memset_from zero m buf value i = m
memset_from (suc n) m buf value i =
    memset_from n (store m (buf + i) (value % 2 ^ 8)) buf value (i + 1)

unfoldable pub memset : Bytes → ℕ → ℕ → ℕ → Bytes
memset m buf value size = memset_from size m buf value 0

-- The loop that copies upwards: of `memcpy`, and of `memmove` where the destination is lower.
unfoldable pub copy_up : ℕ → Bytes → ℕ → ℕ → ℕ → Bytes
copy_up zero m dst src i = m
copy_up (suc n) m dst src i = copy_up n (store m (dst + i) (m (src + i))) dst src (i + 1)

-- The loop of `memmove` that copies downwards from byte `n - 1`.
unfoldable pub copy_down : ℕ → Bytes → ℕ → ℕ → Bytes
copy_down zero m dst src = m
copy_down (suc i) m dst src = copy_down i (store m (dst + i) (m (src + i))) dst src

unfoldable pub memcpy : Bytes → ℕ → ℕ → ℕ → Bytes
memcpy m dst src size = copy_up size m dst src 0

unfoldable pub memmove : Bytes → ℕ → ℕ → ℕ → Bytes
memmove m dst src size = if ltb dst src then copy_up size m dst src 0 else copy_down size m dst src

-- The result of `memcmp`, an `int`: `below i` is `-i`.
pub data Order : Type 0 where
  below above : ℕ → Order
  same : Order

unfoldable pub memcmp_from : ℕ → Bytes → ℕ → ℕ → ℕ → Order
memcmp_from zero m a b i = same
memcmp_from (suc n) m a b i =
    let rest = memcmp_from n m a b (i + 1) in
    if ltb (m (a + i)) (m (b + i))
    then below i
    else (if ltb (m (b + i)) (m (a + i)) then above i else rest)

unfoldable pub memcmp : Bytes → ℕ → ℕ → ℕ → Order
memcmp m a b num = memcmp_from num m a b 0

-- What a caller that compares the result with 0 sees.
abbrev pub is_zero : Order → Bool
is_zero (below i) = i == 0
is_zero (above i) = i == 0
is_zero same = true
