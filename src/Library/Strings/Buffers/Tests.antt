-- ===== src/Library/Strings/Buffers/Tests.antt =====
-- Runs of the routines that write strings, and their theorems at concrete strings.
use xyris.Base.{ℕ, ◌≡◌, refl, arith, some, inl, Option, none}
use xyris.Library.Memory.{Bytes, store}
use xyris.Library.Strings.Buffers.{
  ℤ, negsuc, strlen_from, strlen, strcat, strncpy, reverse_loop, reverse, put_digits, itoa,
}
use xyris.Library.Strings.Buffers.Copies.{IsText, Joins, strcat-Joins}
use xyris.Library.Strings.Buffers.Itoa.{Writes, itoa-Writes}

-- "ab" at 10 and "c" at 20.
abbrev texts : Bytes
texts = store (store (store (λ q. 0) 10 b'a') 11 b'b') 20 b'c'

ab : IsText texts 10 2
ab = record { inside = λ q lo hi. ground arith; ends = refl }

c : IsText texts 20 1
c = record { inside = λ q lo hi. ground arith; ends = refl }

strcat-Joins_example : Joins texts 10 20 2 1 (strcat 5 texts 10 20)
strcat-Joins_example =
    strcat-Joins 5 texts 10 20 2 1 ab c (omega arith) (omega arith) (inl (omega arith))

abbrev minus_407 : ℤ
minus_407 = negsuc 406

itoa-Writes_example : Writes texts minus_407 100 (itoa 13 texts minus_407 100)
itoa-Writes_example = itoa-Writes 13 texts minus_407 100 (omega arith) (omega arith)

-- The text is "-407".
abbrev byte_of : ℕ → Option Bytes → ℕ
byte_of q none = 0
byte_of q (some m) = m q

minus_first : byte_of 100 (itoa 13 texts minus_407 100) ≡ b'-'
unfolding itoa put_digits reverse reverse_loop strlen strlen_from
minus_first = refl

last_digit : byte_of 103 (itoa 13 texts minus_407 100) ≡ b'7'
unfolding itoa put_digits reverse reverse_loop strlen strlen_from
last_digit = refl

-- The terminating null lies behind the one byte that was asked for.
one_more : strncpy texts 30 10 1 31 ≡ 0
unfolding strncpy
one_more = refl
