-- ===== src/Memory/Virtual/Requests.antt =====
-- What `map` does for a request without an address and for one with an address.
use xyris.Base.{
  ℕ, zero, suc, ◌+◌, ◌*◌, ◌/◌, ◌%◌, ◌^◌, ◌<◌, ◌≤◌, ◌≡◌, refl, sym, ◌∙◌, ap, arith, Bool, true,
  false, ◌||◌, ◌==◌, ltb, lt→ltb, Bool-cases, Option-cases, ◌⊎◌, inl, inr, word, none, some,
  add_word,
}
use xyris.Memory.Address.{b_to_pages}
use xyris.Memory.Address.Laws.{page_align-rounds, page_align_up-rounds}
use xyris.Memory.Physical.{get_page}
use xyris.Memory.Physical.Frames.{IsSized}
use xyris.Memory.Virtual.{
  VirtualManager, MapResult, returned, panicked, dir_index, table_index, map_range, map,
  map_requested, map_page, npos, is_page_free, pages_free, is_page_range_free,
  find_first_free_page_range,
}
use xyris.Memory.Virtual.Scan.{present_page, FirstRun}
use xyris.Memory.Virtual.FirstFit.{find_first_free_page_range-IsFirstFit}
use xyris.Memory.Virtual.Mapping.{present_page-of, map_physical_to_virtual-none}
use xyris.Memory.Virtual.Range.{Supply, RangeMapped, map_range-RangeMapped}

-- The pages that a manager searches.
abbrev pub search_from : VirtualManager → ℕ
search_from s = dir_index s.search_start * 1024 + table_index s.search_start

abbrev pub search_to : VirtualManager → ℕ
search_to s = dir_index s.range_end * 1024

-- What `map` gives without an address: the first free pages are mapped, and the result is the address
-- behind them.
pub record MapsFirst (s : VirtualManager) (pages : ℕ) (r : MapResult) : Type 0 where
  pub at : ℕ
  pub after : VirtualManager
  pub frames : ℕ → ℕ
  pub run : FirstRun (present_page s) pages (search_from s) (search_to s) at
  pub result : r ≡ returned after ((at + pages) * 4096 % word)
  pub mapped : RangeMapped s after at pages frames

map-npos :
    (n : ℕ) (s : VirtualManager) (size flags w : ℕ)
    → find_first_free_page_range s (b_to_pages size) ≡ w * 4096
    → w < 2 ^ 20
    → map n s npos size flags ≡ map_range (b_to_pages size) s (w * 4096 % word) flags
unfolding map
map-npos n s size flags w e h =
    let small : w * 4096 ≡ w * 4096 % word = omega arith in rw (e, ← small) refl

-- `map` without an address, of at least one page, where the searched pages hold a free run of that
-- size, where the search may begin in its page table, and with two frames for each page: it maps the
-- first such run, each page to a frame of its own, changes no other translation, and returns the
-- address behind the run.
pub map-first :
    (n : ℕ) (s : VirtualManager) (size flags v : ℕ)
    → 0 < b_to_pages size
    → (table_index s.search_start ≡ 0) ⊎ ((s.directory (dir_index s.search_start)).present ≡ true)
    → search_from s ≤ v
    → v + b_to_pages size ≤ search_to s
    → ((j : ℕ) → v ≤ j → j < v + b_to_pages size → present_page s j ≡ false)
    → IsSized s.physical
    → Supply (b_to_pages size + b_to_pages size) s.physical
    → MapsFirst s (b_to_pages size) (map n s npos size flags)
map-first n s size flags v pos whole from to free sized supply =
    elim (find_first_free_page_range-IsFirstFit s (b_to_pages size) pos whole) [
      | inl (w, e, run) ↦
          let inside = run.inside in
          let (t, r, frames, h) =
            map_range-RangeMapped (b_to_pages size) s w flags (omega arith) sized supply run.free in
          record {
            at = w;
            after = t;
            frames = frames;
            run = run;
            result = map-npos n s size flags w e (omega arith) ∙ r;
            mapped = h;
          }
      | inr (e, all) ↦
          let (j, a, b, used) = all v from to in let unused = free j a b in absurd (ground arith)
    ]

is_page_free-present_page :
    (s : VirtualManager) (v : ℕ) → v < word → is_page_free s v ≡ present_page s (v / 4096)
unfolding is_page_free
is_page_free-present_page s v h =
    let page = page_align-rounds v h in
    let same : v / 4096 * 4096 / 4096 ≡ v / 4096 = omega arith in
    let at = present_page-of s (v / 4096 * 4096) (omega arith) in rw page (ground arith)

pages_free-next :
    (n : ℕ) (s : VirtualManager) (page end : ℕ) (b : Bool)
    → ltb page end ≡ true
    → is_page_free s page ≡ true
    → add_word page 4096 ≡ page + 4096
    → pages_free n s (page + 4096) end ≡ some b
    → pages_free (suc n) s page end ≡ some b
unfolding pages_free
pages_free-next n s page end b more used next e = rw (more, used, next) e

-- The loop of `isPageRangeFree` ends within its rounds, and has found the first page mapped if it
-- returns true.
pages_free-ends :
    (n : ℕ) (s : VirtualManager) (page end : ℕ)
    → end ≤ page + n * 4096
    → end + 4096 ≤ word
    → (b : Bool) × (pages_free n s page end ≡ some b)
      × (page < end → b ≡ true → is_page_free s page ≡ true)
unfolding pages_free
pages_free-ends zero s page end le small = (true, ground arith, (λ lt e. absurd (omega arith)))
pages_free-ends (suc n) s page end le small = elim (Bool-cases (ltb page end)) [
  | inr over ↦ (true, rw over refl, (λ lt e. let l = lt→ltb page end lt in absurd (ground arith)))
  | inl more ↦ elim (Bool-cases (is_page_free s page)) [
    | inr free ↦ (false, rw (more, free) refl, (λ lt e. absurd (ground arith)))
    | inl used ↦
        let next : add_word page 4096 ≡ page + 4096 = ground arith in
        let (b, e, h) = pages_free-ends n s (page + 4096) end (omega arith) small in
        (b, pages_free-next n s page end b more used next e, (λ lt e. used))
  ]
]

is_page_range_free-rounds :
    (n : ℕ) (s : VirtualManager) (vaddr pages : ℕ)
    → vaddr + pages + 8192 < word
    → is_page_range_free n s vaddr pages
      ≡ pages_free n s (vaddr / 4096 * 4096) (vaddr / 4096 * 4096 + (pages + 4095) / 4096 * 4096)
unfolding is_page_range_free
is_page_range_free-rounds n s vaddr pages small =
    let first = page_align-rounds vaddr (omega arith) in
    let count = page_align_up-rounds pages (omega arith) in
    let end : add_word (vaddr / 4096 * 4096) ((pages + 4095) / 4096 * 4096)
        ≡ vaddr / 4096 * 4096 + (pages + 4095) / 4096 * 4096 =
      omega arith in
    rw (first, count, end) refl

-- `isPageRangeFree` ends, and where it returns true the first page is mapped.
is_page_range_free-ends :
    (n : ℕ) (s : VirtualManager) (vaddr pages : ℕ)
    → 0 < pages
    → vaddr + pages + 8192 < word
    → pages + 4095 ≤ n * 4096
    → (b : Bool) × (is_page_range_free n s vaddr pages ≡ some b)
      × (b ≡ true → present_page s (vaddr / 4096) ≡ true)
is_page_range_free-ends n s vaddr pages pos small rounds =
    let (b, e, h) =
      pages_free-ends n s (vaddr / 4096 * 4096) (vaddr / 4096 * 4096 + (pages + 4095) / 4096 * 4096)
        (omega arith) (omega arith) in
    let page : vaddr / 4096 * 4096 / 4096 ≡ vaddr / 4096 = omega arith in
    (
      b,
      is_page_range_free-rounds n s vaddr pages small ∙ e,
      λ t.
          ap (present_page s) (sym page)
          ∙ sym (is_page_free-present_page s (vaddr / 4096 * 4096) (omega arith))
          ∙ h (omega arith) t,
    )

map_page-none :
    (s : VirtualManager) (vaddr flags : ℕ)
    → vaddr < word
    → present_page s (vaddr / 4096) ≡ true
    → map_page s vaddr flags ≡ none
unfolding present_page
map_page-none s vaddr flags h there = elim (Option-cases (get_page s.physical)) [
  | inl e ↦ rw e refl
  | inr (page, e) ↦
      rw e
        (map_physical_to_virtual-none (record s { physical = page.0 }) page.1 vaddr flags h there)
]

map_range-panicked :
    (pages : ℕ) (s : VirtualManager) (vaddr flags : ℕ)
    → 0 < pages
    → map_page s vaddr flags ≡ none
    → map_range pages s vaddr flags ≡ panicked
unfolding map_range
map_range-panicked zero s vaddr flags pos e = absurd (omega arith)
map_range-panicked (suc n) s vaddr flags pos e = rw e refl

-- The null pointer, and nothing has changed; or a panic.
abbrev pub Refused : VirtualManager → MapResult → Type 0
Refused s r = (r ≡ returned s 0) ⊎ (r ≡ panicked)

map_requested-Refused :
    (s : VirtualManager) (pages vaddr flags : ℕ) (b : Bool)
    → vaddr < word
    → 0 < pages
    → (b ≡ true → present_page s (vaddr / 4096) ≡ true)
    → Refused s (map_requested s pages vaddr flags (some b))
map_requested-Refused s pages vaddr flags false h pos there = inl refl
map_requested-Refused s pages vaddr flags true h pos there =
    inr (map_range-panicked pages s vaddr flags pos (map_page-none s vaddr flags h (there refl)))

-- `map` of at least one page at a requested address, at least two pages and the number of the pages
-- below the end of the address space, never maps: it returns the null pointer and changes nothing,
-- or the kernel panics. It ends within a round for each 4096 of the pages and one more.
pub map-Refused :
    (n : ℕ) (s : VirtualManager) (vaddr size flags : ℕ)
    → 0 < b_to_pages size
    → vaddr + b_to_pages size + 8192 < word
    → b_to_pages size + 4095 ≤ n * 4096
    → Refused s (map n s vaddr size flags)
unfolding map
map-Refused n s vaddr size flags pos small rounds =
    let requested : (vaddr == npos) ≡ false = ground arith in
    let (b, e, h) = is_page_range_free-ends n s vaddr (b_to_pages size) pos small rounds in
    elim (Bool-cases
      (ltb vaddr s.range_start || ltb s.range_end (add_word vaddr (b_to_pages size)))) [
        | inl outside ↦ rw (requested, outside) (inl refl)
        | inr inside ↦
            rw (requested, inside, e)
              (map_requested-Refused s (b_to_pages size) vaddr flags b (omega arith) pos h)
      ]
