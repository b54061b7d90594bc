-- ===== src/Boot/Tests.antt =====
-- Instances of the theorems on the boot loader's information.
use xyris.Base.{ℕ, ap, arith, List, [], ◌∷◌, replicate, none}
use xyris.Base.Pointers.{last_or, last_or-behind}
use xyris.Boot.Arguments.{Argument}
use xyris.Boot.Handoff.{Kinds, Entry, Handoff}
use xyris.Library.Strings.Search.{IsSuffixOf}
use xyris.Memory.Section.{empty_section}

abbrev kinds : Kinds
kinds = record {
  usable = 1;
  reserved = 2;
  acpi_reclaimable = 3;
  acpi_nvs = 4;
  bad_memory = 5;
  bootloader_reclaimable = 0x1000;
  kernel_and_modules = 0x1001;
}

-- 127 MiB from 1 MiB on, and 1 GiB above the address space.
abbrev entries : List Entry
entries =
    record { base = 0x100000; size = 0x7f00000; kind = 1 }
    ∷ record { base = 0x100000000; size = 0x40000000; kind = 1 }
    ∷ []

abbrev start : Handoff ℕ
start = record {
  cmdline = [];
  framebuffer = none;
  memory_map = replicate 32 empty_section;
  kernel = 0;
}

-- `--verbose`, cut short, counts its calls.
abbrev verbose : Argument ℕ
verbose = record { arg = 45 ∷ 118 ∷ []; callback = λ a n. 1 }

ends : IsSuffixOf (45 ∷ 118 ∷ []) (45 ∷ 118 ∷ 32 ∷ 45 ∷ 113 ∷ []) → ⊥
ends (front, e) =
    let same = ap (last_or 0) e in let last = last_or-behind 0 front 45 (118 ∷ []) in omega arith
