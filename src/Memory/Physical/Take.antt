-- ===== src/Memory/Physical/Take.antt =====
-- Which frame `getPage` takes, and that `freePage` gives it back.
use xyris.Base.{
  ℕ, zero, suc, ◌*◌, ◌/◌, ◌%◌, subst, ◌<◌, ◌≡◌, ◌≢◌, inl, inr, refl, sym, ap, ◌∙◌, arith, Bool,
  true, false, ◌==◌, if◌then◌else◌, Option, none, some, size_max, word,
}
use xyris.Library.Bitset.{test, find_first_bit}
use xyris.Library.Bitset.Find.{FirstBit, find_first_bit_lem}
use xyris.Memory.Physical.{Manager, mem_bitmap_size, set_used, take_page, get_page, free_page}
use xyris.Memory.Physical.Frames.{IsSized, set_used-IsSized, test-set_free, test-set_used}

-- `get_page` takes the lowest free frame and marks it used; every other frame stays as it was, and
-- there is no page exactly where no frame is free.
abbrev pub TakesLowest : Manager → Option (Manager × ℕ) → Type 0
TakesLowest m none = (f : ℕ) → f < mem_bitmap_size → test m f ≡ true
TakesLowest m (some (after, addr)) =
    (f : ℕ) × (f < mem_bitmap_size)
    × (addr ≡ f * 4096)
    × (test m f ≡ false)
    × ((j : ℕ) → j < f → test m j ≡ true)
    × IsSized after
    × ((q : ℕ) → test after q ≡ (if f == q then true else test m q))

not_false : (b : Bool) → b ≢ false → b ≡ true
not_false true h = refl
not_false false h = absurd (h refl)

take_page-lowest :
    (m : Manager) (r : ℕ)
    → IsSized m
    → FirstBit mem_bitmap_size m false r
    → TakesLowest m (take_page m r)
take_page-lowest m r s (inl (lt, free, before)) =
    let found : (r == size_max) ≡ false = ground arith in
    let addr : r * 4096 % word ≡ r * 4096 = omega arith in
    let frame : r * 4096 / 4096 ≡ r = omega arith in
    rw (found, addr)
      (
        r,
        lt,
        refl,
        free,
        λ j h. not_false (test m j) (before j h),
        set_used-IsSized m _ s,
        λ q.
            test-set_used m (r * 4096) q s (omega arith)
            ∙ ap (λ f. if f == q then true else test m q) frame,
      )
take_page-lowest m r s (inr (e, all)) =
    subst (λ x. TakesLowest m (take_page m x)) (sym e) (λ f h. not_false (test m f) (all f h))

-- For a bitmap of its full size, `getPage` returns the address of the lowest free frame and marks that
-- frame used, and no other frame changes; it panics only when every frame is used.
pub get_page-lowest : (m : Manager) → IsSized m → TakesLowest m (get_page m)
unfolding get_page
get_page-lowest m s = take_page-lowest m _ s (find_first_bit_lem mem_bitmap_size m false)

given_back :
    (f : ℕ) (x y : Bool) (q : ℕ)
    → x ≡ false
    → (f ≡ q → y ≡ x)
    → (if f == q then false else (if f == q then true else y)) ≡ y
given_back f x y q free at = ground (arith, at)

-- For a bitmap of its full size, a page that `getPage` gave and `freePage` took back leaves every frame
-- as it was.
pub get_page-free_page :
    (m after : Manager) (addr q : ℕ)
    → IsSized m
    → get_page m ≡ some (after, addr)
    → test (free_page after addr) q ≡ test m q
unfolding free_page
get_page-free_page m after addr q s e =
    let (f, lt, at, free, below, sized, marked) : TakesLowest m (some (after, addr)) =
      subst (TakesLowest m) e (get_page-lowest m s) in
    let frame : addr / 4096 ≡ f = omega arith in
    test-set_free after addr q sized (omega arith)
    ∙ rw (frame, marked q) (given_back f (test m f) (test m q) q free (λ e. ap (test m) (sym e)))

first_is_zero :
    (m : Manager) (r : ℕ) → test m 0 ≡ false → FirstBit mem_bitmap_size m false r → r ≡ 0
first_is_zero m zero free h = refl
first_is_zero m (suc r) free (inl (lt, found, before)) = absurd (before 0 (omega arith) free)
first_is_zero m (suc r) free (inr (e, all)) = absurd (all 0 (omega arith) free)

-- Where frame 0 is free, `getPage` takes it.
pub get_page-first : (m : Manager) → test m 0 ≡ false → get_page m ≡ some (set_used m 0, 0)
unfolding get_page
get_page-first m free =
    let at : find_first_bit mem_bitmap_size m false ≡ 0 =
      first_is_zero m _ free (find_first_bit_lem mem_bitmap_size m false) in
    ap (take_page m) at
