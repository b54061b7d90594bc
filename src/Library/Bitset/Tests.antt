-- ===== src/Library/Bitset/Tests.antt =====
-- Runs of the bitset, and its theorems at a set of 64 bits.
use xyris.Base.{◌≡◌, refl, true, false, [], ◌∷◌, arith, size_max}
use xyris.Library.Bitset.{Bitset, test, find_first_bit, find_first_range}
use xyris.Library.Bitset.Count.{IsCounted, count_of}
use xyris.Library.Bitset.FindRange.{IsWhole}

-- Bits 0 to 29 and 32 are set: the first clear range of three is 33 to 35.
abbrev holed : Bitset
holed = record { num_bits = 64; count = 31; words = 0x3fffffff ∷ 1 ∷ [] }

-- Bits 5 and 40 are set.
abbrev sparse : Bitset
sparse = record { num_bits = 64; count = 2; words = 0x20 ∷ 0x100 ∷ [] }

holed-IsWhole : IsWhole 64 holed
holed-IsWhole = omega arith

sparse-IsWhole : IsWhole 64 sparse
sparse-IsWhole = omega arith

sparse-IsCounted : IsCounted 64 sparse
unfolding count_of test
sparse-IsCounted = refl

finds :
    (find_first_bit 64 holed false ≡ 30)
    × (find_first_range 0 64 holed 2 false ≡ 30)
    × (find_first_range 0 64 holed 3 false ≡ 33)
    × (find_first_range 0 64 sparse 2 true ≡ 5)
unfolding find_first_bit find_first_range
finds = (refl, refl, refl, refl)

-- The last position that a range could start from is not looked at.
last_range_missed :
    find_first_range 0 32 (record { num_bits = 32; count = 31; words = 0x7fffffff ∷ [] }) 1 false
    ≡ size_max
unfolding find_first_range
last_range_missed = refl
