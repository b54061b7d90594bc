-- ===== src/Memory/Virtual/Scan.antt =====
-- `findFirstFreePageRange` against its specification: the first run of free pages.
use xyris.Base.{
  ℕ, ◌+◌, ◌-◌, ◌*◌, ◌/◌, ◌%◌, ◌<◌, ◌≤◌, ◌≡◌, ◌≢◌, refl, arith, Bool, true, false, ◌&&◌, ◌==◌, leb,
  leb→le, if◌then◌else◌, Bool-cases, ◌⊎◌, inl, inr, word, add_word, ℕ_discrete, dec_lt,
}
use xyris.Memory.Virtual.{VirtualManager, Search, found, going, go_on, add_free}

-- Whether the page with index `i` is mapped.
unfoldable pub present_page : VirtualManager → ℕ → Bool
present_page s i = (s.directory (i / 1024)).present && (s.tables (i / 1024) (i % 1024)).present

-- A mapped page among the `range` pages from `w` on.
abbrev pub Blocked : (ℕ → Bool) → ℕ → ℕ → Type 0
Blocked mapped range w = (j : ℕ) × (w ≤ j) × (j < w + range) × (mapped j ≡ true)

-- `w` is the first page from `start` on with `range` free pages before `stop`.
pub record FirstRun (mapped : ℕ → Bool) (range start stop w : ℕ) : Type 0 where
  pub from : start ≤ w
  pub inside : w + range ≤ stop
  pub free : (j : ℕ) → w ≤ j → j < w + range → mapped j ≡ false
  pub first : (v : ℕ) → start ≤ v → v < w → Blocked mapped range v

-- What the search knows before page `p`: the last `free` pages are free and begin at `addr`, and no
-- run is complete.
pub record Before (mapped : ℕ → Bool) (range start p free addr : ℕ) : Type 0 where
  pub room : start + free ≤ p
  pub short : free < range
  pub run : (j : ℕ) → p ≤ j + free → j < p → mapped j ≡ false
  pub addr_eq : free ≢ 0 → addr + free * 4096 ≡ p * 4096
  pub border : (start + free ≡ p) ⊎ ((b : ℕ) × (b + free + 1 ≡ p) × (start ≤ b) × (mapped b ≡ true))
  pub none : (w : ℕ) → start ≤ w → w + range ≤ p → Blocked mapped range w

-- A search that has got to page `p`.
abbrev pub Reached : (ℕ → Bool) → ℕ → ℕ → ℕ → Search → Type 0
Reached mapped range start p (found addr) =
    (w : ℕ) × (addr ≡ w * 4096) × FirstRun mapped range start p w
Reached mapped range start p (going free addr) = Before mapped range start p free addr

module _ (mapped : ℕ → Bool) (range start : ℕ) where
  -- A window that begins before the run of free pages holds the page in front of the run.
  Before-blocked :
      (p free addr : ℕ) (w : ℕ)
      → Before mapped range start p free addr
      → start ≤ w
      → w + free < p
      → Blocked mapped range w
  Before-blocked p free addr w h sw wf = elim (dec_lt p (w + range)) [
    | yes over ↦ elim h.border [
      | inl e ↦ absurd (omega arith)
      | inr (b, e, sb, used) ↦ (b, omega arith, omega arith, used)
    ]
    | no within ↦ h.none w sw (omega arith)
  ]

  grown_run :
      (p free count : ℕ)
      → ((j : ℕ) → p ≤ j + free → j < p → mapped j ≡ false)
      → ((j : ℕ) → p ≤ j → j < p + count → mapped j ≡ false)
      → (j : ℕ) → p ≤ j + free
      → j < p + count
      → mapped j ≡ false
  grown_run p free count run new j a b = elim (dec_lt j p) [
    | yes low ↦ run j a low
    | no high ↦ new j (omega arith) b
  ]

  pub Before-free :
      (p free addr count here : ℕ)
      → Before mapped range start p free addr
      → 0 < count
      → ((j : ℕ) → p ≤ j → j < p + count → mapped j ≡ false)
      → here ≡ p * 4096
      → p + count < word
      → Reached mapped range start (p + count) (add_free range count here free addr)
  unfolding add_free
  Before-free p free addr count here h pos new e small =
      let room = h.room in
      let short = h.short in
      let total : add_word free count ≡ free + count = omega arith in
      let addr_eq = h.addr_eq in
      let begin = if free == 0 then here else addr in
      let begin_eq : begin + (free + count) * 4096 ≡ (p + count) * 4096 = ground arith in
      let all = grown_run p free count h.run new in
      elim (Bool-cases (leb range (free + count))) [
        | inl enough ↦
            rw (total, enough)
              (let le = leb→le range (free + count) enough in
                (
                  p - free,
                  omega arith,
                  record {
                    from = omega arith;
                    inside = omega arith;
                    free = λ j a b. all j (omega arith) (omega arith);
                    first = λ v sv vw. Before-blocked p free addr v h sv (omega arith);
                  },
                ))
        | inr more ↦
            rw (total, more)
              (let lt : free + count < range = ground arith in
                record {
                  room = omega arith;
                  short = lt;
                  run = λ j a b. all j (omega arith) b;
                  addr_eq = λ ne. begin_eq;
                  border = elim h.border [
                    | inl at_start ↦ inl (omega arith)
                    | inr (b, next, sb, used) ↦ inr (b, omega arith, sb, used)
                  ];
                  none = λ w sw le. Before-blocked p free addr w h sw (omega arith);
                })
      ]

  pub Before-used :
      (p free addr : ℕ)
      → Before mapped range start p free addr
      → mapped p ≡ true
      → Before mapped range start (p + 1) 0 addr
  Before-used p free addr h e =
      let short = h.short in
      let room = h.room in
      record {
        room = omega arith;
        short = omega arith;
        run = λ j a b. absurd (omega arith);
        addr_eq = λ ne. absurd (ne refl);
        border = inr (p, omega arith, omega arith, e);
        none = λ w sw le. elim (ℕ_discrete (w + range) (p + 1)) [
          | yes same ↦ (p, omega arith, omega arith, e)
          | no other ↦ h.none w sw (omega arith)
        ];
      }

  -- Reaching further from where a search stands.
  pub Reached-step :
      (p q : ℕ) (r : Search) (rest : ℕ → ℕ → Search)
      → p ≤ q
      → Reached mapped range start p r
      → ((free addr : ℕ)
          → Before mapped range start p free addr
          → Reached mapped range start q (rest free addr))
      → Reached mapped range start q (go_on rest r)
  Reached-step p q (found addr) rest le h k =
      let run = h.2 in
      let inside = run.inside in
      (
        h.0,
        h.1,
        record { from = run.from; inside = omega arith; free = run.free; first = run.first },
      )
  Reached-step p q (going free addr) rest le h k = k free addr h
