-- ===== src/Memory/Physical/Tests.antt =====
-- Runs of the physical memory manager, and its theorems at concrete managers and memory maps.
use xyris.Base.{
  ℕ, ◌≡◌, refl, true, false, arith, if◌then◌else◌, [], ◌∷◌, List, some, replicate, length-replicate,
}
use xyris.Library.Bitset.{test}
use xyris.Library.Bitset.Bits.{length-init}
use xyris.Memory.Physical.{Manager, manager, initialize, set_used, get_page, free_page}
use xyris.Memory.Physical.Frames.{IsSized, map_frees, initialize-frees}
use xyris.Memory.Physical.Take.{TakesLowest, get_page-lowest, get_page-free_page, get_page-first}
use xyris.Memory.Section.{Section, Kind}

manager-IsSized : IsSized manager
manager-IsSized = length-init 1048576 true

-- The memory above 1 MiB is available, 640 KiB below it are reserved.
abbrev boot_map : List Section
boot_map =
    record { base = 0x1000; size = 0x9f000; kind = Kind.reserved }
    ∷ record { base = 0x100000; size = 0x7f00000; kind = Kind.available }
    ∷ []

-- Every frame is free.
abbrev all_free : Manager
all_free = record { num_bits = 1048576; count = 0; words = replicate 32768 0 }

all_free-IsSized : IsSized all_free
all_free-IsSized = length-replicate {A = ℕ} 32768 0

initialize-frees_example :
    test (initialize manager boot_map) 300
    ≡ (if map_frees boot_map 300 then false else test manager 300)
initialize-frees_example = initialize-frees manager boot_map 300 manager-IsSized (omega arith)

get_page-lowest_example : TakesLowest all_free (get_page all_free)
get_page-lowest_example = get_page-lowest all_free all_free-IsSized

takes_first : get_page all_free ≡ some (set_used all_free 0, 0)
unfolding test
takes_first = get_page-first all_free refl

get_page-free_page_example : test (free_page (set_used all_free 0) 0) 0 ≡ test all_free 0
get_page-free_page_example =
    get_page-free_page all_free (set_used all_free 0) 0 0 all_free-IsSized takes_first
