-- ===== src/Memory/Paging/Init/Kernel.antt =====
-- What `init` sets up: the page directory, the mapping of the early memory and that of the kernel.
use xyris.Base.{
  ℕ, ◌+◌, ◌-◌, ◌*◌, ◌/◌, ◌%◌, ◌≤◌, ◌<◌, ◌≡◌, ap, ◌∙◌, arith, true, false, if◌then◌else◌, add_word,
}
use xyris.Library.Bitset.{test}
use xyris.Memory.Address.{page_align, page_align_up, page_addr}
use xyris.Memory.Address.Laws.{page_align-rounds, page_align_up-rounds}
use xyris.Memory.Paging.{TableEntry, zero_entry, kernel_entry, Paging}
use xyris.Memory.Paging.Consistent.{IsConsistent}
use xyris.Memory.Paging.Init.{
  kernel_base, early_kernel_start, Symbols, Directory, table_entry, kaddr_to_phys, RangeEnd, mapped,
  panics, unfinished, then_map, init, init_directory, map_early_mem, map_kernel,
}
use xyris.Memory.Paging.Init.Clear.{
  in_run, IsClear, init_directory-entries, init_directory-tables, init_directory-bitmaps,
  init_directory-absent, init_directory-IsConsistent,
}
use xyris.Memory.Paging.Init.Range.{MapsRun, EndsMapped, Shifts, map_addresses-EndsMapped}
use xyris.Memory.Paging.MapPage.{entry}
use xyris.Memory.Virtual.{DirectoryEntry, directory_entry}

-- The layout that the linker script gives: the kernel lies `kernel_base` above the end of the early
-- kernel, is less than 7 MiB long, holds the page tables and ends at the end of a page. It is taken to
-- lie below the addresses of the last page table.
pub record IsLinked (l : Symbols) : Type 0 where
  pub above : kernel_base + early_kernel_start ≤ l.kernel_start
  pub below : l.kernel_start + l.kernel_size ≤ 0xffc00000
  pub small : l.kernel_size < 0x700000
  pub whole : (l.kernel_start + l.kernel_size) % 4096 ≡ 0
  pub tables : l.kernel_start ≤ l.page_tables
  pub inside : l.page_tables + 1024 * 4096 ≤ l.kernel_start + l.kernel_size

-- The kernel's first page and the number of its pages.
abbrev pub first_page : Symbols → ℕ
first_page l = l.kernel_start / 4096

abbrev pub kernel_pages : Symbols → ℕ
kernel_pages l = (l.kernel_start + l.kernel_size) / 4096 - l.kernel_start / 4096

-- The entry of page `q` after `init`.
abbrev pub page_entry : Symbols → ℕ → TableEntry
page_entry l q =
    if in_run (first_page l) (kernel_pages l) q
    then kernel_entry (q - 0xc0000)
    else (if in_run 0 256 q then kernel_entry q else zero_entry)

-- The pages are mapped and the tables in the directory, and the frames of the mapped pages are used.
pub record IsSetUp (l : Symbols) (s : Directory) (dirs : ℕ → DirectoryEntry) (t : Paging)
    : Type 0 where
  pub consistent : IsConsistent t
  pub directory :
      (d : ℕ) → d < 1023 → dirs d ≡ directory_entry ((l.page_tables - kernel_base) / 4096 + d)
  pub pages : (q : ℕ) → q < 1047552 → entry t q ≡ page_entry l q
  pub frames :
      (x : ℕ)
      → test t.physical x ≡ (
          if in_run (first_page l - 0xc0000) (kernel_pages l) x
          then true
          else (if in_run 0 256 x then true else test s.paging.physical x))

abbrev pub SetsUp : Symbols → Directory → (ℕ → DirectoryEntry) × RangeEnd → Type 0
SetsUp l s (dirs, mapped t) = IsSetUp l s dirs t
SetsUp l s (dirs, panics) = ⊥
SetsUp l s (dirs, unfinished) = ⊥

identity_entry :
    (l : Symbols) (s : Directory) (t : Paging)
    → MapsRun (init_directory l s).paging 0 0 256 t
    → (q : ℕ)
    → entry t q ≡ (if in_run 0 256 q then kernel_entry q else entry (init_directory l s).paging q)
identity_entry l s t m q =
    let here : q - 0 ≡ q = omega arith in
    m.mapped q
    ∙ ap (λ x. if in_run 0 256 q then kernel_entry x else entry (init_directory l s).paging q) here

module _ (l : Symbols) (linked : IsLinked l) where
  table_entry-frame :
      (d : ℕ)
      → d < 1023
      → table_entry l d ≡ directory_entry ((l.page_tables - kernel_base) / 4096 + d)
  table_entry-frame d h = ap directory_entry (
      let e : page_addr (kaddr_to_phys (add_word l.page_tables (d * 4096)))
          ≡ (l.page_tables - kernel_base) / 4096 + d =
        omega (arith, linked.above, linked.below, linked.tables, linked.inside) in
      e)

  -- The loop of `mapKernel`, from the kernel's first page.
  map_kernel-EndsMapped :
      (n : ℕ) (t : Paging)
      → IsConsistent t
      → 2048 < n
      → ((q : ℕ)
          → first_page l ≤ q
          → q < first_page l + kernel_pages l
          → (entry t q).present ≡ false)
      → EndsMapped t (first_page l) 0xc0000 (kernel_pages l) (map_kernel l n t)
  map_kernel-EndsMapped n t c rounds absent =
      let a = linked.above in
      let b = linked.below in
      let w = linked.whole in
      let start : page_align l.kernel_start ≡ first_page l * 4096 =
        page_align-rounds l.kernel_start (omega arith) in
      let up : page_align_up l.kernel_size ≡ (l.kernel_size + 4095) / 4096 * 4096 =
        page_align_up-rounds l.kernel_size (omega (arith, linked.small)) in
      let end = add_word (first_page l * 4096) ((l.kernel_size + 4095) / 4096 * 4096) in
      let last : end ≡ (first_page l + kernel_pages l) * 4096 = omega arith in
      let shifts : Shifts kaddr_to_phys 0xc0000 = λ q lo hi. omega arith in
      rw (start, up)
        (map_addresses-EndsMapped kaddr_to_phys 0xc0000 end shifts n (kernel_pages l) t
          (first_page l) c (omega arith) (omega arith) (omega (arith, last)) (omega (arith, last))
          (omega (arith, linked.small)) absent)

  IsSetUp-both :
      (s : Directory) (t u : Paging)
      → IsClear s
      → MapsRun (init_directory l s).paging 0 0 256 t
      → MapsRun t (first_page l) 0xc0000 (kernel_pages l) u
      → IsSetUp l s (init_directory l s).entries u
  IsSetUp-both s t u c early m = record {
    consistent = m.consistent;
    directory = λ d h.
        let low : in_run 0 1023 d ≡ true = ground arith in
        init_directory-entries l s d
        ∙ ap (λ b. if b then table_entry l d else s.entries d) low
        ∙ table_entry-frame d h;
    pages = λ q h.
        let low : in_run 0 1023 (q / 1024) ≡ true = ground arith in
        m.mapped q
        ∙ ap
            (λ e.
              if in_run (first_page l) (kernel_pages l) q then kernel_entry (q - 0xc0000) else e)
            (identity_entry l s t early q
              ∙ ap (λ e. if in_run 0 256 q then kernel_entry q else e)
                  (init_directory-tables l s q
                    ∙ ap (λ b. if b then zero_entry else entry s.paging q) low));
    frames = λ x.
        m.used x
        ∙ ap (λ b. if in_run (first_page l - 0xc0000) (kernel_pages l) x then true else b)
            (early.used x
              ∙ ap (λ p. if in_run 0 256 x then true else test p.physical x)
                  (init_directory-bitmaps l s));
  }

  SetsUp-kernel :
      (s : Directory) (t : Paging)
      → IsClear s
      → MapsRun (init_directory l s).paging 0 0 256 t
      → (r : RangeEnd) → EndsMapped t (first_page l) 0xc0000 (kernel_pages l) r
      → SetsUp l s ((init_directory l s).entries, r)
  SetsUp-kernel s t c early (mapped u) m = IsSetUp-both s t u c early m
  SetsUp-kernel s t c early panics m = m
  SetsUp-kernel s t c early unfinished m = m

  SetsUp-early :
      (s : Directory) (n : ℕ)
      → IsClear s
      → 2048 < n
      → (r : RangeEnd) → EndsMapped (init_directory l s).paging 0 0 256 r
      → SetsUp l s ((init_directory l s).entries, then_map (map_kernel l n) r)
  SetsUp-early s n c rounds (mapped t) m = SetsUp-kernel s t c m (map_kernel l n t) (
      map_kernel-EndsMapped n t m.consistent rounds (λ q lo hi.
        let high : in_run 0 256 q ≡ false = ground (arith, linked.above) in
        ap (λ e. e.present) (identity_entry l s t m q)
        ∙ ap (λ b. (if b then kernel_entry q else entry (init_directory l s).paging q).present) high
        ∙ init_directory-absent l s c q))
  SetsUp-early s n c rounds panics m = m
  SetsUp-early s n c rounds unfinished m = m

-- With the layout of the linker script, bitmaps of their full size, no page marked, and nothing mapped
-- in the last table, `init` ends in 2049 rounds for each range, without a panic. Below the last page
-- table, exactly the first MiB of addresses is mapped to itself and the kernel's pages to the frames
-- `kernel_base` below; every directory entry but the last leads to its page table; the frames of both
-- ranges are used and no other frame becomes so; and tables and bitmaps are consistent.
pub init-SetsUp :
    (l : Symbols) (n : ℕ) (s : Directory)
    → IsLinked l
    → IsClear s
    → 2048 < n
    → SetsUp l s (init l n s)
unfolding init
init-SetsUp l n s linked c rounds =
    let shifts : Shifts (λ a. a) 0 = λ q lo hi. omega arith in
    SetsUp-early l linked s n c rounds (map_early_mem n (init_directory l s).paging) (
      map_addresses-EndsMapped (λ a. a) 0 early_kernel_start shifts n 256
        (init_directory l s).paging 0 (init_directory-IsConsistent l s c) (omega arith)
        (omega arith) (omega arith) (omega arith) (omega arith)
        (λ q lo hi. init_directory-absent l s c q))
