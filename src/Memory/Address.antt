-- ===== src/Memory/Address.antt =====
-- Kernel/Arch/i686/Memory: the constants of Types.h, the class `Address` and its bit fields, and the
-- alignment routines of Functions.h; the conversion macros of Kernel/Arch/Memory.hpp.
pub mod Laws
mod Tests
use Prim.Native.Nat.{bit_and}
use xyris.Base.{ℕ, ◌+◌, ◌-◌, ◌*◌, ◌/◌, ◌%◌, ◌^◌, Bool, ◌==◌, add_word}

abbrev pub arch_page_size : ℕ
arch_page_size = 4096

abbrev pub arch_page_table_entries : ℕ
arch_page_table_entries = 1024

abbrev pub arch_page_align : ℕ
arch_page_align = 0xfffff000

-- `struct VirtualAddress`, the bit fields of an address.
pub record VirtualAddress : Type 0 where
  pub offset : ℕ
  pub table_index : ℕ
  pub dir_index : ℕ

-- `Address::virtualAddress` of an address, and the address of a `VirtualAddress`.
unfoldable pub virtual_address : ℕ → VirtualAddress
virtual_address val = record {
  offset = val % 2 ^ 12;
  table_index = val / 2 ^ 12 % 2 ^ 10;
  dir_index = val / 2 ^ 22 % 2 ^ 10;
}

unfoldable pub of_virtual_address : VirtualAddress → ℕ
of_virtual_address v = v.dir_index * 2 ^ 22 + v.table_index * 2 ^ 12 + v.offset

-- `Address::page().pageAddr`
abbrev pub page_addr : ℕ → ℕ
page_addr val = val / 2 ^ 12 % 2 ^ 20

unfoldable pub page_align : ℕ → ℕ
page_align addr = bit_and addr arch_page_align

-- `~ARCH_PAGE_ALIGN` is 0xfff.
unfoldable pub page_align_up : ℕ → ℕ
page_align_up addr = bit_and (add_word addr 0xfff) arch_page_align

unfoldable pub page_is_aligned : ℕ → Bool
page_is_aligned addr = addr % arch_page_size == 0

-- `B_TO_PAGES`, `PAGE_COUNT`, `PAGE_IDX_TO_ADDRESS` and `ADDRESS_TO_PAGE_IDX`.
abbrev pub b_to_pages : ℕ → ℕ
b_to_pages bytes = add_word bytes 4095 / arch_page_size

abbrev pub page_count : ℕ → ℕ
page_count s = s / arch_page_size + 1

abbrev pub page_idx_to_address : ℕ → ℕ
page_idx_to_address idx = idx * arch_page_size % 2 ^ 32

abbrev pub address_to_page_idx : ℕ → ℕ
address_to_page_idx addr = addr / arch_page_size
