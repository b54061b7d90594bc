-- ===== src/Memory/Virtual/FirstFit.antt =====
-- The loops of `findFirstFreePageRange` find the first run of free pages.
use xyris.Base.{
  ℕ, zero, suc, ◌+◌, ◌-◌, ◌*◌, ◌/◌, ◌%◌, ◌<◌, ◌≤◌, ◌≡◌, refl, sym, ◌∙◌, ap, arith, subst, Bool,
  true, false, ◌&&◌, ◌==◌, if◌then◌else◌, Bool-cases, ◌⊎◌, inl, inr, dec_lt,
}
use xyris.Memory.Address.{of_virtual_address}
use xyris.Memory.Virtual.{
  VirtualManager, Search, found, going, address_of, search_page, search_table, search_dir,
  search_dirs, search_result, find_first_free_page_range, dir_index, table_index, npos,
}
use xyris.Memory.Virtual.Scan.{
  present_page, Blocked, FirstRun, Before, Reached, Before-free, Before-used, Reached-step,
}

address_of-page : (dir table : ℕ) → address_of dir table ≡ (dir * 1024 + table) * 4096
unfolding of_virtual_address
address_of-page dir table = omega arith

present_page-at :
    (s : VirtualManager) (dir table : ℕ)
    → table < 1024
    → present_page s (dir * 1024 + table)
      ≡ (s.directory dir).present && (s.tables dir table).present
unfolding present_page
present_page-at s dir table h =
    let d : (dir * 1024 + table) / 1024 ≡ dir = omega arith in
    let t : (dir * 1024 + table) % 1024 ≡ table = omega arith in rw (d, t) refl

-- The pages of an absent table are free.
present_page-absent :
    (s : VirtualManager) (dir j : ℕ)
    → (s.directory dir).present ≡ false
    → dir * 1024 ≤ j
    → j < dir * 1024 + 1024
    → present_page s j ≡ false
unfolding present_page
present_page-absent s dir j e a b = let d : j / 1024 ≡ dir = omega arith in rw (d, e) refl

module _ (s : VirtualManager) (range start : ℕ) where
  search_page-Reached :
      (dir table free addr : ℕ)
      → dir < 1024
      → table < 1024
      → (s.directory dir).present ≡ true
      → Before (present_page s) range start (dir * 1024 + table) free addr
      → Reached
          (present_page s)
          range
          start
          (dir * 1024 + table + 1)
          (search_page s range dir table free addr)
  search_page-Reached dir table free addr hd ht there h =
      let at = present_page-at s dir table ht in
      elim (Bool-cases (s.tables dir table).present) [
        | inl used ↦ rw used (
            Before-used (present_page s) range start (dir * 1024 + table) free addr h
              (rw (at, there, used) refl))
        | inr unused ↦ rw unused (
            Before-free (present_page s) range start (dir * 1024 + table) free addr 1
              (address_of dir table) h (omega arith)
              (λ j a b.
                let same : j ≡ dir * 1024 + table = omega arith in
                rw (same, at, there, unused) refl)
              (address_of-page dir table) (omega arith))
      ]

  search_table-Reached :
      (n dir table free addr : ℕ)
      → dir < 1024
      → table + n ≡ 1024
      → (s.directory dir).present ≡ true
      → Before (present_page s) range start (dir * 1024 + table) free addr
      → Reached
          (present_page s)
          range
          start
          (dir * 1024 + 1024)
          (search_table n s range dir table free addr)
  unfolding search_table
  search_table-Reached zero dir table free addr hd e there h =
      let full : dir * 1024 + table ≡ dir * 1024 + 1024 = omega arith in
      subst (λ p. Before (present_page s) range start p free addr) full h
  search_table-Reached (suc n) dir table free addr hd e there h =
      Reached-step (present_page s) range start (dir * 1024 + table + 1) (dir * 1024 + 1024)
        (search_page s range dir table free addr)
        (λ f a. search_table n s range dir (table + 1) f a) (omega arith)
        (search_page-Reached dir table free addr hd (omega arith) there h)
        (λ f a k.
          let next : dir * 1024 + table + 1 ≡ dir * 1024 + (table + 1) = omega arith in
          search_table-Reached n dir (table + 1) f a hd (omega arith) there
            (subst (λ p. Before (present_page s) range start p f a) next k))

  -- The page where the search in directory entry `dir` begins.
  abbrev first_table : ℕ → ℕ
  first_table dir = if dir == dir_index s.search_start then table_index s.search_start else 0

  absent_whole :
      (dir : ℕ)
      → (first_table dir ≡ 0) ⊎ ((s.directory dir).present ≡ true)
      → (s.directory dir).present ≡ false
      → first_table dir ≡ 0
  absent_whole dir (inl e) absent = e
  absent_whole dir (inr there) absent = ground arith

  search_dir-Reached :
      (dir free addr : ℕ)
      → dir < 1024
      → (first_table dir ≡ 0) ⊎ ((s.directory dir).present ≡ true)
      → Before (present_page s) range start (dir * 1024 + first_table dir) free addr
      → Reached (present_page s) range start (dir * 1024 + 1024) (search_dir s range dir free addr)
  search_dir-Reached dir free addr hd whole h =
      let low : first_table dir < 1024 = ground arith in
      elim (Bool-cases (s.directory dir).present) [
        | inl there ↦ rw there (
            search_table-Reached (1024 - first_table dir) dir (first_table dir) free addr hd
              (omega arith) there h)
        | inr absent ↦
            let at_zero : first_table dir ≡ 0 = absent_whole dir whole absent in
            let at_page : dir * 1024 + first_table dir ≡ dir * 1024 = omega arith in
            rw absent (
              Before-free (present_page s) range start (dir * 1024) free addr 1024
                (address_of dir 0)
                (subst (λ p. Before (present_page s) range start p free addr) at_page h)
                (omega arith) (λ j a b. present_page-absent s dir j absent a b)
                (address_of-page dir 0 ∙ (omega arith)) (omega arith))
      ]

  search_dirs-Reached :
      (n dir free addr : ℕ)
      → dir + n ≤ 1023
      → dir_index s.search_start < dir
      → Before (present_page s) range start (dir * 1024) free addr
      → Reached
          (present_page s)
          range
          start
          ((dir + n) * 1024)
          (search_dirs n s range dir free addr)
  unfolding search_dirs
  search_dirs-Reached zero dir free addr hd later h =
      let here : dir * 1024 ≡ (dir + 0) * 1024 = omega arith in
      subst (λ p. Before (present_page s) range start p free addr) here h
  search_dirs-Reached (suc n) dir free addr hd later h =
      let at_zero : first_table dir ≡ 0 = ground arith in
      let here : dir * 1024 ≡ dir * 1024 + first_table dir = omega arith in
      let end : (dir + 1 + n) * 1024 ≡ (dir + suc n) * 1024 = omega arith in
      Reached-step (present_page s) range start (dir * 1024 + 1024) ((dir + suc n) * 1024)
        (search_dir s range dir free addr) (λ f a. search_dirs n s range (dir + 1) f a)
        (omega arith)
        (search_dir-Reached dir free addr (omega arith) (inl at_zero)
          (subst (λ p. Before (present_page s) range start p free addr) here h))
        (λ f a k.
          let next : dir * 1024 + 1024 ≡ (dir + 1) * 1024 = omega arith in
          subst (λ p. Reached (present_page s) range start p (search_dirs n s range (dir + 1) f a))
            end
            (search_dirs-Reached n (dir + 1) f a (omega arith) (omega arith)
              (subst (λ p. Before (present_page s) range start p f a) next k)))

  -- All rounds from the first directory entry on.
  search_all-Reached :
      (n : ℕ)
      → 0 < range
      → dir_index s.search_start + suc n ≤ 1023
      → start ≡ dir_index s.search_start * 1024 + table_index s.search_start
      → (table_index s.search_start ≡ 0) ⊎ ((s.directory (dir_index s.search_start)).present ≡ true)
      → Reached
          (present_page s)
          range
          start
          ((dir_index s.search_start + suc n) * 1024)
          (search_dirs (suc n) s range (dir_index s.search_start) 0 npos)
  unfolding search_dirs
  search_all-Reached n pos small at_start whole =
      let dir = dir_index s.search_start in
      let first : first_table dir ≡ table_index s.search_start = ground arith in
      let here : start ≡ dir * 1024 + first_table dir =
        at_start ∙ ap (λ t. dir * 1024 + t) (sym first) in
      let initial : Before (present_page s) range start start 0 npos = record {
        room = omega arith;
        short = pos;
        run = λ j a b. absurd (omega arith);
        addr_eq = λ ne. absurd (ne refl);
        border = inl (omega arith);
        none = λ w a b. absurd (omega arith);
      } in
      let end : (dir + 1 + n) * 1024 ≡ (dir + suc n) * 1024 = omega arith in
      Reached-step (present_page s) range start (dir * 1024 + 1024) ((dir + suc n) * 1024)
        (search_dir s range dir 0 npos) (λ f a. search_dirs n s range (dir + 1) f a) (omega arith)
        (search_dir-Reached dir 0 npos (omega arith)
          (subst (λ t. (t ≡ 0) ⊎ ((s.directory dir).present ≡ true)) (sym first) whole)
          (subst (λ p. Before (present_page s) range start p 0 npos) here initial))
        (λ f a k.
          let next : dir * 1024 + 1024 ≡ (dir + 1) * 1024 = omega arith in
          subst (λ p. Reached (present_page s) range start p (search_dirs n s range (dir + 1) f a))
            end
            (search_dirs-Reached n (dir + 1) f a (omega arith) (omega arith)
              (subst (λ p. Before (present_page s) range start p f a) next k)))

-- `r` is the address of the first run of `range` free pages between two page indices, or `npos` where
-- there is none.
abbrev pub IsFirstFit : (ℕ → Bool) → ℕ → ℕ → ℕ → ℕ → Type 0
IsFirstFit mapped range start stop r =
    ((w : ℕ) × (r ≡ w * 4096) × FirstRun mapped range start stop w)
    ⊎ ((r ≡ npos) × ((w : ℕ) → start ≤ w → w + range ≤ stop → Blocked mapped range w))

Reached-IsFirstFit :
    (mapped : ℕ → Bool) (range start stop : ℕ) (r : Search)
    → Reached mapped range start stop r
    → IsFirstFit mapped range start stop (search_result r)
Reached-IsFirstFit mapped range start stop (found addr) h = inl h
Reached-IsFirstFit mapped range start stop (going free addr) h = inr (refl, h.none)

-- `findFirstFreePageRange` of at least one page returns the address of the first run of pages that are
-- not mapped, from the page of `m_searchStart` on and before the page table of `m_rangeEnd`, and `npos`
-- exactly where there is no such run, if `m_searchStart` begins a page table or lies in one that is
-- present.
pub find_first_free_page_range-IsFirstFit :
    (s : VirtualManager) (range : ℕ)
    → 0 < range
    → (table_index s.search_start ≡ 0) ⊎ ((s.directory (dir_index s.search_start)).present ≡ true)
    → IsFirstFit
        (present_page s)
        range
        (dir_index s.search_start * 1024 + table_index s.search_start)
        (dir_index s.range_end * 1024)
        (find_first_free_page_range s range)
unfolding find_first_free_page_range search_dirs
find_first_free_page_range-IsFirstFit s range pos whole =
    elim (dec_lt (dir_index s.search_start) (dir_index s.range_end)) [
      | yes before ↦
          let first = dir_index s.search_start in
          let n = dir_index s.range_end - first - 1 in
          let count : dir_index s.range_end - first ≡ suc n = omega arith in
          let stop : (first + suc n) * 1024 ≡ dir_index s.range_end * 1024 = omega arith in
          let start = first * 1024 + table_index s.search_start in
          rw count (
            subst
              (λ p.
                IsFirstFit (present_page s) range start p
                  (search_result (search_dirs (suc n) s range first 0 npos)))
              stop
              (Reached-IsFirstFit (present_page s) range start ((first + suc n) * 1024)
                (search_dirs (suc n) s range first 0 npos)
                (search_all-Reached s range start n pos (omega arith) refl whole)))
      | no behind ↦
          let none : dir_index s.range_end - dir_index s.search_start ≡ 0 = omega arith in
          rw none (inr (refl, λ w a b. absurd (omega arith)))
    ]
