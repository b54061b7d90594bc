-- ===== src/Memory/Paging/Tests.antt =====
-- Runs of the paging code, and its theorems in the state where nothing is mapped.
use xyris.Base.{ℕ, ◌≡◌, refl, false, arith, replicate, length-replicate}
use xyris.Library.Bitset.{Bitset, test}
use xyris.Library.Bitset.Bits.{Fits-replicate, test-zeros}
use xyris.Library.Bitset.FindRange.{IsWhole}
use xyris.Memory.Paging.{Paging, zero_entry, new_mapping, map_kernel_page, new_page}
use xyris.Memory.Paging.Consistent.{IsConsistent, map_kernel_page-IsConsistent}
use xyris.Memory.Paging.MapPage.{AreSized, MapStep, entry, map_new, map_kernel_page-MapStep}
use xyris.Memory.Paging.NewPage.{GetsPages, new_page-GetsPages}

abbrev all_clear : Bitset
all_clear = record { num_bits = 0; count = 0; words = replicate 32768 0 }

-- No page is mapped and every frame is free.
abbrev fresh : Paging
fresh = record { tables = λ d t. zero_entry; virtual_memory = all_clear; physical = all_clear }

fresh-AreSized : AreSized fresh
fresh-AreSized = (length-replicate {A = ℕ} 32768 0, length-replicate {A = ℕ} 32768 0)

map_kernel_page-MapStep_example :
    MapStep fresh 0xc0100000 0x100 (entry fresh 0xc0100) (map_kernel_page fresh 0xc0100000 0x100000)
map_kernel_page-MapStep_example =
    map_kernel_page-MapStep fresh 0xc0100000 0x100000 fresh-AreSized (omega arith) (omega arith)

absent_everywhere : (q : ℕ) → test all_clear q ≡ false
absent_everywhere q = test-zeros all_clear 32768 q refl

fresh-IsConsistent : IsConsistent fresh
fresh-IsConsistent = record {
  sized = fresh-AreSized;
  tracked = absent_everywhere;
  backed = λ q h. cc;
}

fresh-IsWhole : IsWhole 1048576 all_clear
fresh-IsWhole = record {
  fits = Fits-replicate 32768 0 (omega arith);
  whole = omega (arith, length-replicate {A = ℕ} 32768 0);
  small = omega arith;
}

map_kernel_page-IsConsistent_example : IsConsistent (new_mapping fresh 0xc0100000 0x100000)
map_kernel_page-IsConsistent_example =
    map_kernel_page-IsConsistent fresh (new_mapping fresh 0xc0100000 0x100000) 0xc0100000 0x100000
      fresh-IsConsistent (omega arith) (omega arith)
      (map_new fresh 0xc0100000 0x100000 (omega arith) (omega arith) refl)

new_page-GetsPages_example : GetsPages fresh 3 (new_page 0 fresh 10000)
new_page-GetsPages_example =
    new_page-GetsPages 0 fresh 10000 fresh-IsConsistent fresh-IsWhole (omega arith)
