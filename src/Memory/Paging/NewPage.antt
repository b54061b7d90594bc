-- ===== src/Memory/Paging/NewPage.antt =====
-- What `newPage` gives: pages that were free, on frames that were free.
use xyris.Base.{
  ℕ, zero, suc, ◌+◌, ◌-◌, ◌*◌, ◌/◌, ◌%◌, ◌≤◌, ◌<◌, ◌≡◌, ◌≢◌, refl, sym, ap, ◌∙◌, arith, true, false,
  subst, ◌==◌, if◌then◌else◌, ◌⊎◌, inl, inr, ℕ_discrete, some, word, size_max,
}
use xyris.Library.Bitset.{test}
use xyris.Library.Bitset.Find.{FirstBit, find_first_bit_lem}
use xyris.Library.Bitset.FindRange.{IsWhole, FirstRange, IsClearRange, find_first_range_lem}
use xyris.Memory.Address.{page_count}
use xyris.Memory.Paging.{
  kernel_entry, Paging, new_mapping, Outcome, map_frame, next_round, map_pages, new_page, returned,
  panicked,
}
use xyris.Memory.Paging.Consistent.{IsConsistent, new_mapping-IsConsistent}
use xyris.Memory.Paging.MapPage.{entry, Maps, new_mapping-Maps, map_new}
use xyris.Memory.Physical.{mem_bitmap_size}

-- Page `q` is now mapped to a frame that was free.
abbrev pub IsFreshIn : Paging → Paging → ℕ → Type 0
IsFreshIn s t q = ((entry t q).present ≡ true) × (test s.physical (entry t q).page_addr ≡ false)

-- What the state is after the `n` pages from page `i` on, or some of them, were mapped.
pub record Grows (s : Paging) (i n : ℕ) (t : Paging) : Type 0 where
  pub consistent : IsConsistent t
  pub before : (q : ℕ) → q < i → entry t q ≡ entry s q
  pub behind : (q : ℕ) → i + n ≤ q → entry t q ≡ entry s q
  pub kept : (f : ℕ) → test t.physical f ≡ false → test s.physical f ≡ false

-- The call returns: the address `addr` with all pages mapped to frames that were free, or the null
-- pointer with no frame left.
abbrev pub Allocates : Paging → ℕ → ℕ → ℕ → Outcome → Type 0
Allocates s addr i n panicked = ⊥
Allocates s addr i n (returned t a) =
    Grows s i n t
    × (((a ≡ addr) × ((q : ℕ) → i ≤ q → q < i + n → IsFreshIn s t q))
        ⊎ ((a ≡ 0) × ((f : ℕ) → f < mem_bitmap_size → test t.physical f ≢ false)))

Grows-refl : (s : Paging) (i n : ℕ) → IsConsistent s → Grows s i n s
Grows-refl s i n c = record {
  consistent = c;
  before = λ q h. refl;
  behind = λ q h. refl;
  kept = λ f h. h;
}

module _ {s t : Paging} {i f : ℕ} (m : Maps s i f t) where
  Maps-other : (q : ℕ) → i ≢ q → entry t q ≡ entry s q
  Maps-other q ne =
      let e : (i == q) ≡ false = ground (arith, ne) in
      m.mapped q ∙ ap (λ b. if b then kernel_entry f else entry s q) e

  Maps-here : entry t i ≡ kernel_entry f
  Maps-here =
      let e : (i == i) ≡ true = ground arith in
      m.mapped i ∙ ap (λ b. if b then kernel_entry f else entry s i) e

  Maps-kept : (g : ℕ) → test t.physical g ≡ false → test s.physical g ≡ false
  Maps-kept g h = ground (arith, m.used g, h)

  module _ (free : test s.physical f ≡ false) (n addr : ℕ) where
    Grows-step : (u : Paging) → Grows t (i + 1) n u → Grows s i (suc n) u
    Grows-step u g = record {
      consistent = g.consistent;
      before = λ q h. g.before q (omega arith) ∙ Maps-other q (omega arith);
      behind = λ q h. g.behind q (omega arith) ∙ Maps-other q (omega arith);
      kept = λ x h. Maps-kept x (g.kept x h);
    }

    Fresh-step :
        (u : Paging)
        → Grows t (i + 1) n u
        → ((q : ℕ) → i + 1 ≤ q → q < i + 1 + n → IsFreshIn t u q)
        → (q : ℕ) → i ≤ q
        → q < i + suc n
        → IsFreshIn s u q
    Fresh-step u g fresh q lo hi = elim (ℕ_discrete i q) [
      | yes here ↦
          let e : entry u q ≡ kernel_entry f =
            g.before q (omega (arith, here)) ∙ ap (entry t) (sym here) ∙ Maps-here in
          (ap (λ x. x.present) e, ap (λ x. test s.physical x.page_addr) e ∙ free)
      | no away ↦ let later = fresh q (omega arith) (omega arith) in (later.0, Maps-kept _ later.1)
    ]

    Allocates-step : (o : Outcome) → Allocates t addr (i + 1) n o → Allocates s addr i (suc n) o
    Allocates-step panicked h = h
    Allocates-step (returned u a) (g, inl (e, fresh)) =
        (Grows-step u g, inl (e, Fresh-step u g fresh))
    Allocates-step (returned u a) (g, inr out) = (Grows-step u g, inr out)

-- None of the `n` pages from page `i` on is present.
abbrev pub AllAbsent : Paging → ℕ → ℕ → Type 0
AllAbsent s i n = (q : ℕ) → i ≤ q → q < i + n → (entry s q).present ≡ false

module _ (s : Paging) (i r : ℕ) (c : IsConsistent s) (hi : i < 1048576) (hr : r < 1048576)
    (absent : (entry s i).present ≡ false) where
  mapped_to : Paging
  mapped_to = new_mapping s (i * 4096 % word) (r * 4096 % word)

  map_frame-some : map_frame s i r ≡ some mapped_to
  unfolding mapped_to
  map_frame-some =
      let page : i * 4096 % word / 4096 ≡ i = omega arith in
      map_new s (i * 4096 % word) (r * 4096 % word) (omega arith) (omega arith)
        (ap (λ q. (entry s q).present) page ∙ absent)

  mapped_to-Maps : Maps s i r mapped_to
  unfolding mapped_to
  mapped_to-Maps =
      let page : i * 4096 % word / 4096 ≡ i = omega arith in
      let frame : r * 4096 % word / 4096 ≡ r = omega arith in
      let m =
        new_mapping-Maps s (i * 4096 % word) (r * 4096 % word) c.sized (omega arith)
          (omega arith) in
      subst (λ x. Maps s i x (new_mapping s (i * 4096 % word) (r * 4096 % word))) frame
        (subst
          (λ x.
            Maps s x (r * 4096 % word / 4096) (new_mapping s (i * 4096 % word) (r * 4096 % word)))
          page m)

  mapped_to-IsConsistent : IsConsistent mapped_to
  unfolding mapped_to
  mapped_to-IsConsistent =
      new_mapping-IsConsistent s (i * 4096 % word) (r * 4096 % word) c (omega arith) (omega arith)

-- The loop of `newPage` from page `i` on, for pages that are not present.
map_pages-Allocates :
    (n addr : ℕ) (s : Paging) (i : ℕ)
    → IsConsistent s
    → i + n ≤ 1048576
    → AllAbsent s i n
    → Allocates s addr i n (map_pages n addr s i)
unfolding map_pages
map_pages-Allocates zero addr s i c fits absent =
    (Grows-refl s i 0 c, inl (refl, λ q lo hi. absurd (omega arith)))
map_pages-Allocates (suc n) addr s i c fits absent =
    by_frame (λ t d later. map_pages-Allocates n addr t (i + 1) d (omega arith) later) _
      (find_first_bit_lem mem_bitmap_size s.physical false)
  where
    by_frame :
        ((t : Paging)
          → IsConsistent t
          → AllAbsent t (i + 1) n
          → Allocates t addr (i + 1) n (map_pages n addr t (i + 1)))
        → (r : ℕ) → FirstBit mem_bitmap_size s.physical false r
        → Allocates s addr i (suc n) (
            if r == size_max
            then returned s 0
            else next_round (λ t. map_pages n addr t (i + 1)) (map_frame s i r))
    by_frame rest r (inr (e, none_free)) =
        let stop : (r == size_max) ≡ true = ground (arith, e) in
        rw stop (Grows-refl s i (suc n) c, inr (refl, none_free))
    by_frame rest r (inl (lt, free, _)) =
        let go : (r == size_max) ≡ false = ground arith in
        let here = absent i (omega arith) (omega arith) in
        let m = mapped_to-Maps s i r c (omega arith) lt here in
        rw (go, map_frame-some s i r c (omega arith) lt here)
          (Allocates-step m free n addr _ (
            rest (mapped_to s i r c (omega arith) lt here)
              (mapped_to-IsConsistent s i r c (omega arith) lt here)
              (λ q lo hi.
                ap (λ e. e.present) (Maps-other m q (omega arith))
                ∙ absent q (omega arith) (omega arith))))

-- `newPage`: there is no free range and nothing changes, or the pages from `i` on are allocated.
abbrev pub GetsPages : Paging → ℕ → Outcome → Type 0
GetsPages s count o =
    ((o ≡ returned s 0) × ((i : ℕ) → i < mem_bitmap_size - count → ¬ AllAbsent s i count))
    ⊎ ((i : ℕ) × AllAbsent s i count × Allocates s (i * 4096) i count o)

-- In a consistent state with whole bitmaps, for fewer than 31 pages, `newPage` never panics. It returns
-- the address of a run of pages that were not present, each now mapped to a frame that was free; or the
-- null pointer where no frame is left, or, with nothing changed, where no free run of so many pages
-- starts below page 2 ^ 20 less their number. Where pages were mapped, the tables are consistent with
-- the bitmaps, and the entries outside of the run are as they were.
pub new_page-GetsPages :
    (beyond : ℕ) (s : Paging) (size : ℕ)
    → IsConsistent s
    → IsWhole mem_bitmap_size s.virtual_memory
    → page_count size < 32
    → GetsPages s (page_count size) (new_page beyond s size)
unfolding new_page
new_page-GetsPages beyond s size c whole small = by_range _ (
    find_first_range_lem beyond mem_bitmap_size s.virtual_memory whole (page_count size) small
      (omega arith))
  where
    clear_absent : (i n : ℕ) → IsClearRange s.virtual_memory i n → AllAbsent s i n
    clear_absent i n h q lo hi =
        let e : i + (q - i) ≡ q = omega arith in
        sym (c.tracked q) ∙ ap (test s.virtual_memory) (sym e) ∙ h (q - i) (omega arith)

    absent_clear : (i n : ℕ) → AllAbsent s i n → IsClearRange s.virtual_memory i n
    absent_clear i n h k lt = c.tracked (i + k) ∙ h (i + k) (omega arith) (omega arith)

    by_range :
        (r : ℕ)
        → FirstRange (mem_bitmap_size - page_count size) s.virtual_memory (page_count size) r
        → GetsPages s (page_count size) (
            if r == size_max
            then returned s 0
            else map_pages (page_count size) (r * 4096 % word) s r)
    by_range r (inr (e, never)) =
        let stop : (r == size_max) ≡ true = ground (arith, e) in
        rw stop (inl (refl, λ i h a. never i h (absent_clear i (page_count size) a)))
    by_range r (inl (lt, clear, _)) =
        let go : (r == size_max) ≡ false = ground arith in
        let addr : r * 4096 % word ≡ r * 4096 = omega arith in
        let a = clear_absent r (page_count size) clear in
        rw (go, addr)
          (inr (r, a, map_pages-Allocates (page_count size) (r * 4096) s r c (omega arith) a))
