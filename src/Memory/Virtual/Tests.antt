-- ===== src/Memory/Virtual/Tests.antt =====
-- Instances of the theorems on the virtual memory manager.
use xyris.Base.{
  ℕ, ◌<◌, ◌≡◌, refl, arith, subst, false, inl, inr, Option-cases, some, replicate, length-replicate,
}
use xyris.Library.Bitset.{test}
use xyris.Memory.Paging.{zero_entry}
use xyris.Memory.Physical.{Manager, mem_bitmap_size, get_page}
use xyris.Memory.Physical.Frames.{IsSized}
use xyris.Memory.Physical.Take.{TakesLowest, get_page-lowest}
use xyris.Memory.Virtual.{
  DirectoryEntry, VirtualManager, virtual_manager, map_physical_to_virtual,
  find_first_free_page_range, map, npos,
}
use xyris.Memory.Virtual.Scan.{present_page}
use xyris.Memory.Virtual.FirstFit.{IsFirstFit, find_first_free_page_range-IsFirstFit}
use xyris.Memory.Virtual.Mapping.{Mapped, map_physical_to_virtual-Mapped}
use xyris.Memory.Virtual.Range.{Supply}
use xyris.Memory.Virtual.Requests.{MapsFirst, map-first, Refused, map-Refused}

-- Every frame is free.
abbrev all_free : Manager
all_free = record { num_bits = 1048576; count = 0; words = replicate 32768 0 }

all_free-IsSized : IsSized all_free
all_free-IsSized = length-replicate {A = ℕ} 32768 0

abbrev no_table : DirectoryEntry
no_table = record {
  present = false;
  read_write = false;
  usermode = false;
  write_through = false;
  cache_disable = false;
  accessed = false;
  ignored_a = false;
  size = false;
  ignored_b = 0;
  table_addr = 0;
}

-- 4 MiB from 4 MiB on, with nothing mapped.
abbrev blank : VirtualManager
blank = virtual_manager (λ d. no_table) (λ d t. zero_entry) all_free 0x400000 0x400000

-- A frame that is free is there to be taken.
takes :
    (m : Manager) (q : ℕ)
    → IsSized m
    → q < mem_bitmap_size
    → test m q ≡ false
    → (page : Manager × ℕ) × (get_page m ≡ some page)
takes m q s h e = elim (Option-cases (get_page m)) [
  | inl empty ↦
      let used = subst (TakesLowest m) empty (get_page-lowest m s) q h in absurd (ground arith)
  | inr taken ↦ taken
]

-- Taking one frame leaves a later one free.
leaves :
    (m : Manager) (page : Manager × ℕ) (p q : ℕ)
    → IsSized m
    → get_page m ≡ some page
    → test m p ≡ false
    → p < q
    → test m q ≡ false
    → IsSized page.0 × (test page.0 q ≡ false)
leaves m (m', a) p q s g free lt e =
    let (f, fits, addr, was, before, sized, change) =
      subst (TakesLowest m) g (get_page-lowest m s) in
    let low = before p in let c = change q in (sized, ground arith)

two_free : (test all_free 0 ≡ false) × (test all_free 1 ≡ false)
unfolding test
two_free = (refl, refl)

all_free-Supply : Supply 2 all_free
all_free-Supply =
    let first = takes all_free 0 all_free-IsSized (omega arith) two_free.0 in
    let rest =
      leaves all_free first.0 0 1 all_free-IsSized first.1 two_free.0 (omega arith) two_free.1 in
    let second = takes first.0.0 1 rest.0 (omega arith) rest.1 in
    (first.0, first.1, (second.0, second.1, tt))

nothing_mapped : (j : ℕ) → present_page blank j ≡ false
unfolding present_page
nothing_mapped j = refl

find_first_free_page_range-IsFirstFit_example :
    IsFirstFit (present_page blank) 3 1024 2048 (find_first_free_page_range blank 3)
find_first_free_page_range-IsFirstFit_example =
    find_first_free_page_range-IsFirstFit blank 3 (omega arith) (inl refl)

map_physical_to_virtual-Mapped_example :
    (t : VirtualManager) × (map_physical_to_virtual blank 0x7000 0x401000 1 ≡ some t)
    × Mapped blank t 0x7000 0x401000
map_physical_to_virtual-Mapped_example =
    map_physical_to_virtual-Mapped blank 0x7000 0x401000 1 (omega arith) (omega arith)
      (nothing_mapped _) (inr (all_free-Supply.0, all_free-Supply.1))

map-first_example : MapsFirst blank 1 (map 9 blank npos 4096 0)
map-first_example =
    map-first 9 blank 4096 0 1030 (omega arith) (inl refl) (omega arith) (omega arith)
      (λ j a b. nothing_mapped j) all_free-IsSized all_free-Supply

map-Refused_example : Refused blank (map 2 blank 0x401000 4096 0)
map-Refused_example = map-Refused 2 blank 0x401000 4096 0 (omega arith) (omega arith) (omega arith)
