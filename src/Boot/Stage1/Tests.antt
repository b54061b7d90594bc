-- ===== src/Boot/Stage1/Tests.antt =====
-- Stage 1 with a kernel of 5 MB, and boot information at 2 MB more.
use xyris.Base.{◌≡◌, refl, true, false, some, List, [], ◌∷◌, arith}
use xyris.Memory.Paging.{zero_entry}
use xyris.Boot.Stage1.{
  Tables, DirectoryEntry, Layout, Tag, stage1_get_boot_info_addr, stage1_entry, find_length,
}
use xyris.Boot.Stage1.Maps.{IsPlaced}
use xyris.Boot.Stage1.Walk.{IsInfo, Mapped}
use xyris.Boot.Stage1.Start.{stage1_entry-Mapped}

abbrev blank : DirectoryEntry
blank = record {
  present = false;
  read_write = false;
  usermode = false;
  write_through = false;
  cache_disable = false;
  accessed = false;
  ignored_a = false;
  size = false;
  ignored_b = 0;
  table_addr = 0;
}

abbrev nothing : Tables
nothing = record { directory = λ d. blank; entries = λ m. zero_entry }

abbrev layout : Layout
layout = record {
  low_memory_page_table = 0x110;
  kernel_page_table = 0x111;
  boot_page_table = 0x113;
  early_kernel_end = 0x118004;
  kernel_start = 0xc0118004;
  kernel_end = 0xc0619000;
}

-- The memory map's tag stands at 0x800000, in a region of two pages.
abbrev tags : List Tag
tags =
    record {
      address = 0x800000;
      is_memmap = true;
      memmap =
          record { base = 0; length = 0x9f000; bootloader_reclaimable = false }
          ∷ record { base = 0x800000; length = 0x2000; bootloader_reclaimable = true }
          ∷ [];
    }
    ∷ record { address = 0x800100; is_memmap = false; memmap = [] }
    ∷ []

found : stage1_get_boot_info_addr tags ≡ some 0x2000
unfolding stage1_get_boot_info_addr find_length
found = refl

layout-IsPlaced : IsPlaced layout
layout-IsPlaced = record {
  low_frame = omega arith;
  kernel_frames = omega arith;
  boot_frame = omega arith;
  low_first = omega arith;
  low_second = omega arith;
  boot_first = omega arith;
  boot_second = omega arith;
  boot_low = omega arith;
  early_some = omega arith;
  early_fits = omega arith;
  whole = omega arith;
  above = omega arith;
  first = omega arith;
  last = omega arith;
}

tags-IsInfo : IsInfo 0x800000 0x2000
tags-IsInfo = record {
  aligned = omega arith;
  not_first = omega arith;
  some_length = omega arith;
  below = omega arith;
  one_table = omega arith;
}

stage1_entry-Mapped_example :
    (t : Tables) × (stage1_entry layout 0x800000 tags 3000 nothing ≡ some t)
    × Mapped layout 0x800000 0x2000 t
stage1_entry-Mapped_example =
    stage1_entry-Mapped layout 0x800000 0x2000 tags 3000 nothing layout-IsPlaced tags-IsInfo found
      (omega arith) (λ d. refl) (λ m. refl)
