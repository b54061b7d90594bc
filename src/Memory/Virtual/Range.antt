-- ===== src/Memory/Virtual/Range.antt =====
-- The loop of `map` gives every page of a free range a frame of its own.
use xyris.Base.{
  ℕ, zero, suc, ◌+◌, ◌*◌, ◌/◌, ◌%◌, ◌^◌, ◌<◌, ◌≤◌, ◌≡◌, ◌≢◌, refl, sym, ◌∙◌, ap, arith, subst, Bool,
  true, false, not, ◌&&◌, ◌||◌, if◌then◌else◌, ◌⊎◌, inl, inr, word, Option, none, some, add_word,
}
use xyris.Library.Bitset.{test}
use xyris.Memory.Physical.{Manager, get_page, mem_bitmap_size}
use xyris.Memory.Physical.Frames.{IsSized}
use xyris.Memory.Physical.Take.{TakesLowest, get_page-lowest}
use xyris.Memory.Virtual.{
  VirtualManager, MapResult, returned, map_physical_to_virtual, virtual_to_physical, dir_index,
  table_index, map_range,
}
use xyris.Memory.Virtual.Scan.{present_page}
use xyris.Memory.Virtual.Mapping.{TakesAtMostOne, present_page-of, map_physical_to_virtual-Mapped}

-- `n` calls of `getPage` in a row succeed.
abbrev pub Supply : ℕ → Manager → Type 0
Supply zero m = Unit {0}
Supply (suc n) m = (page : Manager × ℕ) × (get_page m ≡ some page) × Supply n page.0

Supply-less : (n : ℕ) (m : Manager) → Supply (suc n) m → Supply n m
Supply-less zero m h = tt
Supply-less (suc n) m (page, g, h) = (page, g, Supply-less n page.0 h)

-- What taking a frame does to the physical memory.
record Takes (m m' : Manager) (f : ℕ) : Type 0 where
  pub fits : f < mem_bitmap_size
  pub free : test m f ≡ false
  pub used : test m' f ≡ true
  pub sized : IsSized m'
  pub keeps : (q : ℕ) → test m' q ≡ false → test m q ≡ false
  pub stays : (q : ℕ) → test m q ≡ true → test m' q ≡ true

get_page-Takes :
    (m : Manager) (page : Manager × ℕ)
    → IsSized m
    → get_page m ≡ some page
    → (f : ℕ) × (page.1 ≡ f * 4096) × Takes m page.0 f
get_page-Takes m (m', a) s g =
    let (f, fits, addr, free, before, sized, change) =
      subst (TakesLowest m) g (get_page-lowest m s) in
    (
      f,
      addr,
      record {
        fits = fits;
        free = free;
        used = change f ∙ ground arith;
        sized = sized;
        keeps = λ q e. let c = change q in ground arith;
        stays = λ q e. let c = change q in ground arith;
      },
    )

abbrev is_some : Option ℕ → Bool
is_some none = false
is_some (some a) = true

-- A page is mapped where its address translates.
present_page-is_some :
    (s : VirtualManager) (i : ℕ)
    → i < 2 ^ 20
    → present_page s i ≡ is_some (virtual_to_physical s (i * 4096))
unfolding virtual_to_physical
present_page-is_some s i h =
    let at = present_page-of s (i * 4096) (omega arith) in
    let same : i * 4096 / 4096 ≡ i = omega arith in
    sym (ap (present_page s) same)
    ∙ at
    ∙ sides (s.directory (dir_index (i * 4096))).present
        (s.tables (dir_index (i * 4096)) (table_index (i * 4096))).present
        ((s.tables (dir_index (i * 4096)) (table_index (i * 4096))).page_addr * 2 ^ 12 % word)
  where
    sides : (a b : Bool) (r : ℕ) → a && b ≡ is_some (if not a || not b then none else some r)
    sides true true r = refl
    sides true false r = refl
    sides false b r = refl

-- One round: the page gets the frame `f`, and `k` calls of `getPage` are still to succeed.
record Round (k : ℕ) (s t : VirtualManager) (w f : ℕ) : Type 0 where
  pub translated : virtual_to_physical t (w * 4096) ≡ some (f * 4096)
  pub others : (v : ℕ) → v < word → w ≢ v / 4096 → virtual_to_physical t v ≡ virtual_to_physical s v
  pub takes : Takes s.physical t.physical f
  pub supply : Supply k t.physical

-- The frame that a page got stays taken when a table takes one more.
Takes-TakesAtMostOne :
    (k : ℕ) (m m' m'' : Manager) (f : ℕ)
    → Takes m m' f
    → Supply (suc k) m'
    → TakesAtMostOne m' m''
    → Takes m m'' f × Supply k m''
Takes-TakesAtMostOne k m m' m'' f h supply (inl e) =
    (subst (λ x. Takes m x f) (sym e) h, subst (Supply k) (sym e) (Supply-less k m' supply))
Takes-TakesAtMostOne k m m' m'' f h (page', g', supply) (inr (page, g, e)) =
    let same : page' ≡ page = cc in
    let next = get_page-Takes m' page h.sized g in
    let both : Takes m page.0 f = record {
      fits = h.fits;
      free = h.free;
      used = next.2.stays f h.used;
      sized = next.2.sized;
      keeps = λ q e. h.keeps q (next.2.keeps q e);
      stays = λ q e. next.2.stays q (h.stays q e);
    } in
    (subst (λ x. Takes m x f) (sym e) both, subst (Supply k) (ap (λ p. p.0) same ∙ sym e) supply)

map_page-Round :
    (k : ℕ) (s : VirtualManager) (w flags : ℕ)
    → w < 2 ^ 20
    → IsSized s.physical
    → Supply (suc (suc k)) s.physical
    → present_page s w ≡ false
    → (page : Manager × ℕ) × (get_page s.physical ≡ some page)
      × (t : VirtualManager) × (map_physical_to_virtual
            (record s { physical = page.0 })
            page.1
            (w * 4096)
            flags
          ≡ some t)
      × (f : ℕ) × Round k s t w f
unfolding present_page virtual_to_physical
map_page-Round k s w flags hw sized (page, g, (page', g', supply)) free =
    let taken = get_page-Takes s.physical page sized g in
    let f = taken.0 in
    let fits = taken.2.fits in
    let addr = taken.1 in
    let index : w ≡ w * 4096 / 4096 = omega arith in
    let frame : page.1 / 4096 * 4096 ≡ f * 4096 = omega arith in
    let s1 : VirtualManager = record s { physical = page.0 } in
    let m =
      map_physical_to_virtual-Mapped s1 page.1 (w * 4096) flags (omega arith) (omega arith)
        (subst (λ i. present_page s i ≡ false) index free) (inr (page', g')) in
    let both =
      Takes-TakesAtMostOne k s.physical page.0 m.0.physical f taken.2 (page', g', supply)
        m.2.physical in
    (
      page,
      g,
      m.0,
      m.1,
      f,
      record {
        translated = m.2.translated ∙ ap (λ a. some a) frame;
        others = λ v h ne. m.2.others v h (λ e. ne (index ∙ e));
        takes = both.0;
        supply = both.1;
      },
    )

-- The pages from `w` on are mapped, each to a frame of its own that was free.
pub record RangeMapped (s t : VirtualManager) (w n : ℕ) (frames : ℕ → ℕ) : Type 0 where
  pub translated : (k : ℕ) → k < n → virtual_to_physical t ((w + k) * 4096) ≡ some (frames k * 4096)
  pub were_free : (k : ℕ) → k < n → test s.physical (frames k) ≡ false
  pub are_used : (k : ℕ) → k < n → test t.physical (frames k) ≡ true
  pub distinct : (j k : ℕ) → j < k → k < n → frames j ≢ frames k
  pub others :
      (v : ℕ)
      → v < word
      → (v / 4096 < w) ⊎ (w + n ≤ v / 4096)
      → virtual_to_physical t v ≡ virtual_to_physical s v
  pub stays : (q : ℕ) → test s.physical q ≡ true → test t.physical q ≡ true

-- The frames of a range with one more page in front.
abbrev and_then : ℕ → (ℕ → ℕ) → ℕ → ℕ
and_then f rest zero = f
and_then f rest (suc k) = rest k

and_then-distinct :
    (s t u : VirtualManager) (w n f : ℕ) (frames : ℕ → ℕ)
    → test t.physical f ≡ true
    → RangeMapped t u (w + 1) n frames
    → (j k : ℕ) → j < k
    → k < suc n
    → and_then f frames j ≢ and_then f frames k
and_then-distinct s t u w n f frames used h j zero lt small = absurd (omega arith)
and_then-distinct s t u w n f frames used h zero (suc k) lt small =
    λ e. let free = h.were_free k (omega arith) in let same = ap (test t.physical) e in ground arith
and_then-distinct s t u w n f frames used h (suc j) (suc k) lt small =
    h.distinct j k (omega arith) (omega arith)

RangeMapped-Round :
    (supply : ℕ) (s t u : VirtualManager) (w n f : ℕ) (frames : ℕ → ℕ)
    → w + suc n ≤ 2 ^ 20
    → Round supply s t w f
    → RangeMapped t u (w + 1) n frames
    → RangeMapped s u w (suc n) (and_then f frames)
RangeMapped-Round supply s t u w n f frames small r h = record {
  translated = λ k.
      elim k
        as (λ k.
          k < suc n → virtual_to_physical u ((w + k) * 4096) ≡ some (and_then f frames k * 4096)) [
            | zero ↦ λ lt.
                let at : w ≡ w + 0 = omega arith in
                let index : w ≡ w * 4096 / 4096 = omega arith in
                let low = h.others (w * 4096) (omega arith) (inl (omega arith)) ∙ r.translated in
                subst (λ i. virtual_to_physical u (i * 4096) ≡ some (f * 4096)) at low
            | suc k ↦ λ lt.
                let at : w + 1 + k ≡ w + suc k = omega arith in
                subst (λ i. virtual_to_physical u (i * 4096) ≡ some (frames k * 4096)) at
                  (h.translated k (omega arith))
          ];
  were_free = λ k. elim k as (λ k. k < suc n → test s.physical (and_then f frames k) ≡ false) [
    | zero ↦ λ lt. r.takes.free
    | suc k ↦ λ lt. r.takes.keeps (frames k) (h.were_free k (omega arith))
  ];
  are_used = λ k. elim k as (λ k. k < suc n → test u.physical (and_then f frames k) ≡ true) [
    | zero ↦ λ lt. h.stays f r.takes.used
    | suc k ↦ λ lt. h.are_used k (omega arith)
  ];
  distinct = and_then-distinct s t u w n f frames r.takes.used h;
  others = λ v hv out.
      h.others v hv (elim out [ inl low ↦ inl (omega arith) | inr high ↦ inr (omega arith) ])
      ∙ r.others v hv (λ e. elim out [ inl low ↦ omega arith | inr high ↦ omega arith ]);
  stays = λ q e. h.stays q (r.takes.stays q e);
}

map_range-step :
    (n : ℕ) (s t : VirtualManager) (page : Manager × ℕ) (vaddr flags : ℕ) (r : MapResult)
    → get_page s.physical ≡ some page
    → map_physical_to_virtual (record s { physical = page.0 }) page.1 vaddr flags ≡ some t
    → map_range n t (add_word vaddr 4096) flags ≡ r
    → map_range (suc n) s vaddr flags ≡ r
unfolding map_range
map_range-step n s t page vaddr flags r g e h = rw (g, e) h

-- The loop of `map` over `n` free pages, with two frames for each of them, ends, gives every page a
-- frame of its own that was free, keeps every other translation, and ends at the address behind the
-- pages.
pub map_range-RangeMapped :
    (n : ℕ) (s : VirtualManager) (w flags : ℕ)
    → w + n ≤ 2 ^ 20
    → IsSized s.physical
    → Supply (n + n) s.physical
    → ((k : ℕ) → w ≤ k → k < w + n → present_page s k ≡ false)
    → (t : VirtualManager) × (map_range n s (w * 4096 % word) flags
        ≡ returned t ((w + n) * 4096 % word))
      × (frames : ℕ → ℕ) × RangeMapped s t w n frames
unfolding map_range
map_range-RangeMapped zero s w flags small sized supply free =
    let at : w * 4096 % word ≡ (w + 0) * 4096 % word = omega arith in
    (
      s,
      ap (returned s) at,
      (λ k. 0),
      record {
        translated = λ k lt. absurd (omega arith);
        were_free = λ k lt. absurd (omega arith);
        are_used = λ k lt. absurd (omega arith);
        distinct = λ j k a b. absurd (omega arith);
        others = λ v hv out. refl;
        stays = λ q e. e;
      },
    )
map_range-RangeMapped (suc n) s w flags small sized supply free =
    let enough : suc n + suc n ≡ suc (suc (n + n)) = omega arith in
    let (page, g, t, e, f, r) =
      map_page-Round (n + n) s w flags (omega arith) sized
        (subst (λ k. Supply k s.physical) enough supply) (free w (omega arith) (omega arith)) in
    let free' : (k : ℕ) → w + 1 ≤ k → k < w + 1 + n → present_page t k ≡ false = λ k a b.
      present_page-is_some t k (omega arith)
      ∙ ap is_some (r.others (k * 4096) (omega arith) (λ e. omega arith))
      ∙ sym (present_page-is_some s k (omega arith))
      ∙ free k (omega arith) (omega arith) in
    let (u, e', frames, h) =
      map_range-RangeMapped n t (w + 1) flags (omega arith) r.takes.sized r.supply free' in
    let addr : w * 4096 % word ≡ w * 4096 = omega arith in
    let next : add_word (w * 4096 % word) 4096 ≡ (w + 1) * 4096 % word = omega arith in
    let last : (w + 1 + n) * 4096 % word ≡ (w + suc n) * 4096 % word = omega arith in
    (
      u,
      map_range-step n s t page (w * 4096 % word) flags (returned u ((w + suc n) * 4096 % word)) g
          (ap (λ v. map_physical_to_virtual (record s { physical = page.0 }) page.1 v flags) addr
            ∙ e)
          (ap (λ v. map_range n t v flags) next ∙ e' ∙ ap (returned u) last),
      and_then f frames,
      RangeMapped-Round (n + n) s t u w n f frames small r h,
    )
