-- ===== src/Memory/Paging/Init/Tests.antt =====
-- Runs of the set-up of the page tables, and its theorem for a kernel of 6 MiB behind 256 early pages.
use xyris.Base.{ℕ, ◌≡◌, refl, arith, replicate, length-replicate}
use xyris.Library.Bitset.Bits.{test-zeros}
use xyris.Library.Bitset.{Bitset}
use xyris.Memory.Paging.{zero_entry}
use xyris.Memory.Paging.Init.{Symbols, Directory, init, kaddr_to_phys}
use xyris.Memory.Paging.Init.Clear.{IsClear}
use xyris.Memory.Paging.Init.Kernel.{IsLinked, SetsUp, init-SetsUp}
use xyris.Memory.Virtual.{directory_entry}

abbrev all_clear : Bitset
all_clear = record { num_bits = 0; count = 0; words = replicate 32768 0 }

abbrev symbols : Symbols
symbols = record { kernel_start = 0xc0200800; kernel_size = 0x5ff800; page_tables = 0xc0400000 }

symbols-IsLinked : IsLinked symbols
symbols-IsLinked = record {
  above = omega arith;
  below = omega arith;
  small = omega arith;
  whole = refl;
  tables = omega arith;
  inside = omega arith;
}

-- Memory that is all 0.
abbrev fresh : Directory
fresh = record {
  entries = λ d. directory_entry 0;
  paging = record { tables = λ d t. zero_entry; virtual_memory = all_clear; physical = all_clear };
}

fresh-IsClear : IsClear fresh
fresh-IsClear = record {
  sized = (length-replicate {A = ℕ} 32768 0, length-replicate {A = ℕ} 32768 0);
  unmarked = λ q. test-zeros all_clear 32768 q refl;
  last = λ q h. refl;
}

init-SetsUp_example : SetsUp symbols fresh (init symbols 2049 fresh)
init-SetsUp_example = init-SetsUp symbols 2049 fresh symbols-IsLinked fresh-IsClear (omega arith)

kernel_frame : kaddr_to_phys 0xc0201000 ≡ 0x201000
kernel_frame = refl
