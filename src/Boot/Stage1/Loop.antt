-- ===== src/Boot/Stage1/Loop.antt =====
-- What one of the loops over pages leaves, and how the processor reads the tables.
use xyris.Base.{
  ℕ, zero, suc, ◌+◌, ◌*◌, ◌/◌, ◌%◌, ◌^◌, ◌≤◌, ◌<◌, ◌≡◌, ◌≢◌, refl, sym, ap, subst, ◌∙◌, true, false,
  ◌==◌, ltb, if◌then◌else◌, Option, none, some, arith, add_word, ℕ_discrete, ◌&&◌, Bool-cases, inl,
  inr,
}
use xyris.Memory.Paging.{TableEntry}
use xyris.Boot.Stage1.{Tables, DirectoryEntry, set_entry, map_loop, page_size}

-- The physical address that the processor gives to a virtual one.
unfoldable pub translate : Tables → ℕ → Option ℕ
translate t a =
    let d : DirectoryEntry = t.directory (a / 2 ^ 22) in
    let e : TableEntry = t.entries (d.table_addr * 1024 + a / 2 ^ 12 % 2 ^ 10) in
    if d.present && e.present then some (e.page_addr * page_size + a % page_size) else none

-- The entry leads to the page, and the page is writable.
pub record LeadsTo (e : TableEntry) (page : ℕ) : Type 0 where
  pub present : e.present ≡ true
  pub writable : e.read_write ≡ true
  pub page_addr : e.page_addr ≡ page

set_entry-here :
    (t : Tables) (n page : ℕ) → LeadsTo ((set_entry t n page).entries n) (page % 2 ^ 20)
unfolding set_entry
set_entry-here t n page =
    let e : (n == n) ≡ true = ground arith in
    rw e (record { present = refl; writable = refl; page_addr = refl })

set_entry-other : (t : Tables) (n page m : ℕ) → m ≢ n → (set_entry t n page).entries m ≡ t.entries m
unfolding set_entry
set_entry-other t n page m ne = let e : (m == n) ≡ false = ground arith in rw e refl

set_entry-directory : (t : Tables) (n page : ℕ) → (set_entry t n page).directory ≡ t.directory
unfolding set_entry
set_entry-directory t n page = refl

-- What a loop over the pages from `p` on, `k` of them, leaves, if page `q` is entered at `slot q` with
-- the frame `frame q`.
pub record Filled (slot frame : ℕ → ℕ) (p k : ℕ) (t t' : Tables) : Type 0 where
  pub inside : (q : ℕ) → p ≤ q → q < p + k → LeadsTo (t'.entries (slot q)) (frame q)
  pub outside : (m : ℕ) → ((q : ℕ) → p ≤ q → q < p + k → m ≢ slot q) → t'.entries m ≡ t.entries m
  pub directory : t'.directory ≡ t.directory

map_loop-stop :
    (step : Tables → ℕ → Tables) (end n addr : ℕ) (t : Tables)
    → end ≤ addr
    → map_loop step end (suc n) addr t ≡ some t
unfolding map_loop
map_loop-stop step end n addr t le = let e : ltb addr end ≡ false = ground arith in rw e refl

map_loop-next :
    (step : Tables → ℕ → Tables) (end n addr : ℕ) (t : Tables)
    → addr < end
    → map_loop step end (suc n) addr t ≡ map_loop step end n (add_word addr page_size) (step t addr)
unfolding map_loop
map_loop-next step end n addr t lt = let e : ltb addr end ≡ true = ground arith in rw e refl

-- The loop runs over the addresses `offset` behind the starts of the pages.
module _ (step : Tables → ℕ → Tables) (slot frame : ℕ → ℕ) (offset end : ℕ) where
  pub map_loop-Filled :
      (k n p : ℕ) (t : Tables)
      → k < n
      → ((s : Tables) (q : ℕ)
          → p ≤ q
          → q < p + k
          → (set : ℕ) × (step s (q * 4096 + offset) ≡ set_entry s (slot q) set)
            × (set % 2 ^ 20 ≡ frame q))
      → ((q r : ℕ) → p ≤ q → q < r → r < p + k → slot q ≢ slot r)
      → end ≤ (p + k) * 4096 + offset
      → (0 < k → (p + k) * 4096 + offset < end + 4096)
      → (p + k) * 4096 + offset < 2 ^ 32
      → (t' : Tables) × (map_loop step end n (p * 4096 + offset) t ≡ some t')
        × Filled slot frame p k t t'
  map_loop-Filled k zero p t lt body apart covers tight fits = absurd (omega arith)
  map_loop-Filled zero (suc n) p t lt body apart covers tight fits = (
    t,
    map_loop-stop step end n (p * 4096 + offset) t (omega arith),
    record { inside = λ q lo hi. absurd (omega arith); outside = λ m h. refl; directory = refl },
  )
  map_loop-Filled (suc k) (suc n) p t lt body apart covers tight fits =
      let close = tight (omega arith) in
      let (set, here, value) = body t p (omega arith) (omega arith) in
      let next : add_word (p * 4096 + offset) page_size ≡ (p + 1) * 4096 + offset = omega arith in
      let (t', run, f) =
        map_loop-Filled k n (p + 1) (set_entry t (slot p) set) (omega arith)
          (λ s q lo hi. body s q (omega arith) (omega arith))
          (λ q r lo lt' hi. apart q r (omega arith) lt' (omega arith)) (omega arith)
          (λ pos. omega arith) (omega arith) in
      (
        t',
        map_loop-next step end n (p * 4096 + offset) t (omega arith)
            ∙ ap (λ a. map_loop step end n a (step t (p * 4096 + offset))) next
            ∙ ap (map_loop step end n ((p + 1) * 4096 + offset)) here
            ∙ run,
        record {
          inside = λ q lo hi. elim (ℕ_discrete q p) [
            | yes e ↦
                subst (λ r. LeadsTo (t'.entries (slot r)) (frame r)) (sym e)
                  (subst (λ v. LeadsTo (t'.entries (slot p)) v) value
                    (subst (λ (u : TableEntry). LeadsTo u (set % 2 ^ 20))
                      (sym (
                        f.outside (slot p)
                          (λ r lo' hi'. apart p r (omega arith) (omega arith) (omega arith))))
                      (set_entry-here t (slot p) set)))
            | no ne ↦ f.inside q (omega arith) (omega arith)
          ];
          outside = λ m h.
              f.outside m (λ q lo hi. h q (omega arith) (omega arith))
              ∙ set_entry-other t (slot p) set m (h p (omega arith) (omega arith));
          directory = f.directory ∙ set_entry-directory t (slot p) set;
        },
      )

pub translate-LeadsTo :
    (t : Tables) (a table page : ℕ)
    → (t.directory (a / 2 ^ 22)).present ≡ true
    → (t.directory (a / 2 ^ 22)).table_addr ≡ table
    → LeadsTo (t.entries (table * 1024 + a / 2 ^ 12 % 2 ^ 10)) page
    → translate t a ≡ some (page * page_size + a % page_size)
unfolding translate
translate-LeadsTo t a table page here at l = rw (here, at, l.present, l.page_addr) refl

pub translate-absent :
    (t : Tables) (a table : ℕ)
    → (t.directory (a / 2 ^ 22)).table_addr ≡ table
    → (t.entries (table * 1024 + a / 2 ^ 12 % 2 ^ 10)).present ≡ false
    → translate t a ≡ none
unfolding translate
translate-absent t a table at gone = elim (Bool-cases (t.directory (a / 2 ^ 22)).present) [
  | inl e ↦ rw (e, at, gone) refl
  | inr e ↦ rw e refl
]
