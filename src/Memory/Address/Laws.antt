-- ===== src/Memory/Address/Laws.antt =====
-- The bit fields of an address make it up, and alignment is rounding to whole pages.
use xyris.Base.{ℕ, ◌+◌, ◌*◌, ◌/◌, ◌%◌, ◌^◌, ◌≤◌, ◌<◌, ◌≡◌, true, arith, word, add_word, ap, ◌∙◌}
use xyris.Base.Bits.{bit_and-high_mask}
use xyris.Memory.Address.{
  VirtualAddress, virtual_address, of_virtual_address, page_align, page_align_up, page_is_aligned,
}

abbrev pub fields_of : ℕ → ℕ → ℕ → VirtualAddress
fields_of dir table offset = record { offset = offset; table_index = table; dir_index = dir }

-- Reading an address as directory, table and offset and writing it back gives the address; so does
-- the other way round for fields that fit.
pub virtual_address_round_trip :
    (val dir table offset : ℕ)
    → val < word
    → dir < 1024
    → table < 1024
    → offset < 4096
    → (of_virtual_address (virtual_address val) ≡ val)
      × (virtual_address (of_virtual_address (fields_of dir table offset))
          ≡ fields_of dir table offset)
unfolding virtual_address of_virtual_address
virtual_address_round_trip val dir table offset hv hd ht ho =
    let low : (dir * 2 ^ 22 + table * 2 ^ 12 + offset) % 2 ^ 12 ≡ offset = omega arith in
    let mid : (dir * 2 ^ 22 + table * 2 ^ 12 + offset) / 2 ^ 12 % 2 ^ 10 ≡ table = omega arith in
    let top : (dir * 2 ^ 22 + table * 2 ^ 12 + offset) / 2 ^ 22 % 2 ^ 10 ≡ dir = omega arith in
    (omega arith, λ i. record { offset = low i; table_index = mid i; dir_index = top i })

pub page_align-rounds : (a : ℕ) → a < word → page_align a ≡ a / 4096 * 4096
unfolding page_align
page_align-rounds a h = bit_and-high_mask 12 a (omega arith) h (omega arith)

-- `pageAlign` gives the start of the page that holds the address.
pub page_align_lem :
    (a : ℕ)
    → a < word
    → (page_is_aligned (page_align a) ≡ true) × (page_align a ≤ a) × (a < page_align a + 4096)
unfolding page_is_aligned
page_align_lem a h = ground (arith, page_align-rounds a h)

pub page_align_up-rounds : (a : ℕ) → a + 4095 < word → page_align_up a ≡ (a + 4095) / 4096 * 4096
unfolding page_align_up page_align
page_align_up-rounds a h =
    let e : add_word a 0xfff ≡ a + 4095 = omega arith in
    ap page_align e ∙ page_align-rounds (a + 4095) h

-- `pageAlignUp` gives the first page start from the address on, for an address in or before the last
-- whole page of the address space.
pub page_align_up_lem :
    (a : ℕ)
    → a + 4095 < word
    → (page_is_aligned (page_align_up a) ≡ true)
      × (a ≤ page_align_up a)
      × (page_align_up a < a + 4096)
unfolding page_is_aligned
page_align_up_lem a h = ground (arith, page_align_up-rounds a h)
