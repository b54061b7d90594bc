-- ===== src/Library/Memory/Copy.antt =====
-- `memmove` copies as if through a buffer, overlapping areas included; `memset` and `memcpy`.
use xyris.Base.{
  ℕ, zero, suc, ◌+◌, ◌-◌, ◌%◌, ◌^◌, ◌≤◌, ◌≡◌, ◌⊎◌, inl, inr, ap, arith, Bool, ◌&&◌, leb, ltb,
  if◌then◌else◌, Bool-cases,
}
use xyris.Library.Memory.{Bytes, store, memset_from, memset, copy_up, copy_down, memcpy, memmove}

-- `q` is one of the `n` addresses from `p` on.
abbrev pub in_area : ℕ → ℕ → ℕ → Bool
in_area p n q = leb p q && ltb q (p + n)

-- The memory with the `n` bytes from `src` on, as they were, at `dst`.
abbrev pub moved : Bytes → ℕ → ℕ → ℕ → Bytes
moved m dst src n q = if in_area dst n q then m (src + (q - dst)) else m q

memset_from_lem :
    (n : ℕ) (m : Bytes) (buf value i q : ℕ)
    → memset_from n m buf value i q ≡ (if in_area (buf + i) n q then value % 2 ^ 8 else m q)
unfolding memset_from
memset_from_lem zero m buf value i q = ground arith
memset_from_lem (suc n) m buf value i q =
    ground (arith, memset_from_lem n (store m (buf + i) (value % 2 ^ 8)) buf value (i + 1) q)

-- `memset` sets exactly the `size` bytes from `buf` on, each to the value's low byte.
pub memset_lem :
    (m : Bytes) (buf value size q : ℕ)
    → memset m buf value size q ≡ (if in_area buf size q then value % 2 ^ 8 else m q)
unfolding memset
memset_lem m buf value size q = ground (arith, memset_from_lem size m buf value 0 q)

-- Copying upwards is right where no byte is overwritten before it is read.
copy_up_lem :
    (n : ℕ) (m : Bytes) (dst src i end q : ℕ)
    → i + n ≡ end
    → (dst ≤ src) ⊎ (src + end ≤ dst)
    → copy_up n m dst src i q ≡ (if in_area (dst + i) n q then m (src + (q - dst)) else m q)
unfolding copy_up
copy_up_lem zero m dst src i end q e h = ground arith
copy_up_lem (suc n) m dst src i end q e h =
    let here : q ≡ dst + i → m (src + (q - dst)) ≡ m (src + i) =
      λ at. ap m (let r : src + (q - dst) ≡ src + i = omega arith in r) in
    ground (
      arith,
      copy_up_lem n (store m (dst + i) (m (src + i))) dst src (i + 1) end q (omega arith) h,
      here,
      h,
    )

copy_down_lem :
    (n : ℕ) (m : Bytes) (dst src q : ℕ) → src ≤ dst → copy_down n m dst src q ≡ moved m dst src n q
unfolding copy_down
copy_down_lem zero m dst src q h = ground arith
copy_down_lem (suc n) m dst src q h =
    let here : q ≡ dst + n → m (src + (q - dst)) ≡ m (src + n) =
      λ e. ap m (let r : src + (q - dst) ≡ src + n = omega arith in r) in
    ground (arith, copy_down_lem n (store m (dst + n) (m (src + n))) dst src q h, here)

-- `memmove` puts the bytes of the source, as they were before, at the destination, and changes no
-- other byte, however the two areas overlap.
pub memmove_lem :
    (m : Bytes) (dst src size q : ℕ) → memmove m dst src size q ≡ moved m dst src size q
unfolding memmove
memmove_lem m dst src size q = elim (Bool-cases (ltb dst src)) [
  | inl low ↦
      rw low
        (ground (arith, copy_up_lem size m dst src 0 size q (omega arith) (inl (ground arith))))
  | inr high ↦ rw high (copy_down_lem size m dst src q (ground arith))
]

-- `memcpy` does the same where the areas do not overlap or the destination is not above the source.
pub memcpy_lem :
    (m : Bytes) (dst src size q : ℕ)
    → (dst ≤ src) ⊎ (src + size ≤ dst)
    → memcpy m dst src size q ≡ moved m dst src size q
unfolding memcpy
memcpy_lem m dst src size q h = ground (arith, copy_up_lem size m dst src 0 size q (omega arith) h)
