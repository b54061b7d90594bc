-- ===== src/Memory/Paging/Free.antt =====
-- What `freePage` does not free.
use xyris.Base.{
  ℕ, zero, suc, ◌+◌, ◌/◌, ◌%◌, ◌^◌, ◌≤◌, ◌<◌, ◌≡◌, refl, ap, ◌∙◌, arith, Bool, true, false, ◌&&◌,
  ◌==◌, if◌then◌else◌,
}
use xyris.Library.Bitset.{test}
use xyris.Library.Bitset.Bits.{test-clear, length-clear}
use xyris.Memory.Address.{virtual_address, page_count}
use xyris.Memory.Paging.{TableEntry, zero_entry, Paging, free_round, free_rounds, free_page}
use xyris.Memory.Paging.MapPage.{entry, AreSized}
use xyris.Memory.Physical.Frames.{test-set_free, set_free-IsSized}

-- The frame of every entry fits the entry's twenty bits.
abbrev pub FitTables : Paging → Type 0
FitTables s = (d t : ℕ) → (s.tables d t).page_addr < 1048576

-- What stays as it was: the pages of the second page table and of those behind it, and the frames at
-- or above frame 256.
pub record Keeps (s t : Paging) : Type 0 where
  pub entries : (q : ℕ) → 1024 ≤ q → entry t q ≡ entry s q
  pub pages : (q : ℕ) → 1024 ≤ q → test t.virtual_memory q ≡ test s.virtual_memory q
  pub frames : (f : ℕ) → 256 ≤ f → test t.physical f ≡ test s.physical f

module _ (s : Paging) (i : ℕ) (low : i < 1024) (sized : AreSized s) (fit : FitTables s) where
  free_round-AreSized : AreSized (free_round s i)
  free_round-AreSized =
      (length-clear s.virtual_memory i ∙ sized.0, set_free-IsSized s.physical _ sized.1)

  free_round-FitTables : FitTables (free_round s i)
  free_round-FitTables d t =
      erased_or_kept (((i / 1024) == d) && ((i % 1024) == t)) (s.tables d t) (fit d t)
    where
      erased_or_kept :
          (b : Bool) (e : TableEntry)
          → e.page_addr < 1048576
          → (if b then zero_entry else e).page_addr < 1048576
      erased_or_kept true e h = omega arith
      erased_or_kept false e h = h

  free_round-Keeps : Keeps s (free_round s i)
  free_round-Keeps = record {
    entries = λ q h.
        let other : (((i / 1024) == (q / 1024)) && ((i % 1024) == (q % 1024))) ≡ false =
          ground arith in
        ap (λ b. if b then zero_entry else entry s q) other;
    pages = λ q h.
        let other : (i == q) ≡ false = ground arith in
        test-clear s.virtual_memory i q (omega (arith, sized))
        ∙ ap (λ b. if b then false else test s.virtual_memory q) other;
    frames = λ f h.
        let frame = (s.tables (i / 1024) (i % 1024)).page_addr in
        let other : ((frame / 4096) == f) ≡ false = ground (arith, fit (i / 1024) (i % 1024)) in
        test-set_free s.physical frame f sized.1 (omega (arith, fit (i / 1024) (i % 1024)))
        ∙ ap (λ b. if b then false else test s.physical f) other;
  }

Keeps-trans : {s t u : Paging} → Keeps s t → Keeps t u → Keeps s u
Keeps-trans a b = record {
  entries = λ q h. b.entries q h ∙ a.entries q h;
  pages = λ q h. b.pages q h ∙ a.pages q h;
  frames = λ f h. b.frames f h ∙ a.frames f h;
}

free_rounds-Keeps :
    (n : ℕ) (s : Paging) (i : ℕ)
    → i + n ≤ 1024
    → AreSized s
    → FitTables s
    → Keeps s (free_rounds n s i)
unfolding free_rounds
free_rounds-Keeps zero s i h sized fit = record {
  entries = λ q l. refl;
  pages = λ q l. refl;
  frames = λ f l. refl;
}
free_rounds-Keeps (suc n) s i h sized fit =
    Keeps-trans (free_round-Keeps s i (omega arith) sized fit) (
      free_rounds-Keeps n (free_round s i) (i + 1) (omega arith)
        (free_round-AreSized s i (omega arith) sized fit)
        (free_round-FitTables s i (omega arith) sized fit))

-- With bitmaps of their full size and frames that fit the entries' twenty bits, `freePage` of pages
-- inside one page table leaves every page at or above 4 MiB mapped and marked as
-- it was, the given ones among them, and never frees a frame at or above 1 MiB.
pub free_page-Keeps :
    (s : Paging) (page size : ℕ)
    → AreSized s
    → FitTables s
    → page / 4096 % 1024 + page_count size ≤ 1024
    → Keeps s (free_page s page size)
unfolding free_page virtual_address
free_page-Keeps s page size sized fit h =
    free_rounds-Keeps (page_count size) s (page / 2 ^ 12 % 2 ^ 10) (omega arith) sized fit
