-- ===== src/Memory/Paging/Init/Clear.antt =====
-- What `initDirectory` leaves in the page directory and in the page tables.
use xyris.Base.{
  ℕ, zero, suc, ◌+◌, ◌/◌, ◌%◌, ◌≤◌, ◌<◌, ◌≡◌, refl, ap, ◌∙◌, arith, Bool, true, false, ◌&&◌, ◌==◌,
  leb, ltb, if◌then◌else◌, sym, length, dec_lt,
}
use xyris.Memory.Paging.{TableEntry, zero_entry}
use xyris.Memory.Paging.Init.{
  Symbols, table_entry, Directory, clear_entries, init_tables, init_directory,
}
use xyris.Library.Bitset.{test}
use xyris.Memory.Paging.Consistent.{IsConsistent}
use xyris.Memory.Paging.MapPage.{entry, AreSized}

-- `q` is one of the `n` numbers from `i` on.
abbrev pub in_run : ℕ → ℕ → ℕ → Bool
in_run i n q = leb i q && ltb q (i + n)

-- Values that are written at the first place of a run and at its others.
run_step {ℓ} :
    {A : Type ℓ} (i n q : ℕ) (new : ℕ → A) (old : A)
    → (if in_run (i + 1) n q then new q else (if i == q then new i else old))
      ≡ (if in_run i (suc n) q then new q else old)
run_step i n q new old = ground (arith, let same : i ≡ q → new i ≡ new q = ap new in same)

clear_entries_lem :
    (n : ℕ) (tables : ℕ → ℕ → TableEntry) (i j d t : ℕ)
    → clear_entries n tables i j d t ≡ (if (i == d) && in_run j n t then zero_entry else tables d t)
unfolding clear_entries
clear_entries_lem zero tables i j d t = ground arith
clear_entries_lem (suc n) tables i j d t = clear_entries_lem n _ i (j + 1) d t ∙ merge (tables d t)
  where
    merge :
        (old : TableEntry)
        → (if (i == d) && in_run (j + 1) n t
            then zero_entry
            else (if (i == d) && (j == t) then zero_entry else old))
          ≡ (if (i == d) && in_run j (suc n) t then zero_entry else old)
    merge old = ground arith

module _ (l : Symbols) where
  init_tables-entries :
      (n : ℕ) (s : Directory) (i d : ℕ)
      → (init_tables l n s i).entries d ≡ (if in_run i n d then table_entry l d else s.entries d)
  unfolding init_tables
  init_tables-entries zero s i d = ground arith
  init_tables-entries (suc n) s i d =
      init_tables-entries n _ (i + 1) d ∙ run_step i n d (table_entry l) (s.entries d)

  init_tables-tables :
      (n : ℕ) (s : Directory) (i d t : ℕ)
      → t < 1024
      → (init_tables l n s i).paging.tables d t
        ≡ (if in_run i n d then zero_entry else s.paging.tables d t)
  unfolding init_tables
  init_tables-tables zero s i d t h = ground arith
  init_tables-tables (suc n) s i d t h =
      let full : in_run 0 1024 t ≡ true = ground arith in
      let cleared : clear_entries 1024 s.paging.tables i 0 d t
          ≡ (if i == d then zero_entry else s.paging.tables d t) =
        clear_entries_lem 1024 s.paging.tables i 0 d t ∙ rw full (at (i == d)) in
      init_tables-tables n _ (i + 1) d t h
      ∙ ap (λ x. if in_run (i + 1) n d then zero_entry else x) cleared
      ∙ run_step i n d (λ x. zero_entry) (s.paging.tables d t)
    where
      at :
          (b : Bool)
          → (if b && true then zero_entry else s.paging.tables d t)
            ≡ (if b then zero_entry else s.paging.tables d t)
      at true = refl
      at false = refl

  init_tables-bitmaps :
      (n : ℕ) (s : Directory) (i : ℕ)
      → (init_tables l n s i).paging
        ≡ record s.paging { tables = (init_tables l n s i).paging.tables }
  unfolding init_tables
  init_tables-bitmaps zero s i = refl
  init_tables-bitmaps (suc n) s i = init_tables-bitmaps n _ (i + 1)

-- No page is marked as mapped, and the last table, which `initDirectory` leaves out, has no mapping.
pub record IsClear (s : Directory) : Type 0 where
  pub sized : AreSized s.paging
  pub unmarked : (q : ℕ) → test s.paging.virtual_memory q ≡ false
  pub last : (q : ℕ) → 1047552 ≤ q → (entry s.paging q).present ≡ false

module _ (l : Symbols) (s : Directory) where
  pub init_directory-entries :
      (d : ℕ)
      → (init_directory l s).entries d ≡ (if in_run 0 1023 d then table_entry l d else s.entries d)
  unfolding init_directory
  init_directory-entries d = init_tables-entries l 1023 s 0 d

  pub init_directory-tables :
      (q : ℕ)
      → entry (init_directory l s).paging q
        ≡ (if in_run 0 1023 (q / 1024) then zero_entry else entry s.paging q)
  unfolding init_directory
  init_directory-tables q = init_tables-tables l 1023 s 0 (q / 1024) (q % 1024) (omega arith)

  pub init_directory-bitmaps :
      (init_directory l s).paging ≡ record s.paging { tables = (init_directory l s).paging.tables }
  unfolding init_directory
  init_directory-bitmaps = init_tables-bitmaps l 1023 s 0

  pub init_directory-absent :
      IsClear s → (q : ℕ) → (entry (init_directory l s).paging q).present ≡ false
  init_directory-absent c q = ap (λ e. e.present) (init_directory-tables q) ∙ at (dec_lt q 1047552)
    where
      at :
          Dec (q < 1047552)
          → (if in_run 0 1023 (q / 1024) then zero_entry else entry s.paging q).present ≡ false
      at (yes low) = let e : in_run 0 1023 (q / 1024) ≡ true = ground arith in rw e refl
      at (no high) =
          let e : in_run 0 1023 (q / 1024) ≡ false = ground arith in
          rw e (c.last q (omega (arith, high)))

  pub init_directory-IsConsistent : IsClear s → IsConsistent (init_directory l s).paging
  init_directory-IsConsistent c = record {
    sized =
        let e = init_directory-bitmaps in
        (
          ap (λ p. length p.virtual_memory.words) e ∙ c.sized.0,
          ap (λ p. length p.physical.words) e ∙ c.sized.1,
        );
    tracked = λ q.
        ap (λ p. test p.virtual_memory q) init_directory-bitmaps
        ∙ c.unmarked q
        ∙ sym (init_directory-absent c q);
    backed = λ q h. cc (h, init_directory-absent c q);
  }
