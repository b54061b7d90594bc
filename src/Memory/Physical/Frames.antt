-- ===== src/Memory/Physical/Frames.antt =====
-- Which frames the operations of the physical memory manager free, take and report.
use xyris.Base.{
  ℕ, zero, suc, ◌+◌, ◌*◌, ◌/◌, ◌<◌, ◌≡◌, inl, inr, refl, ap, ◌∙◌, arith, Bool, true, false, ◌&&◌,
  ◌||◌, ◌==◌, leb, ltb, if◌then◌else◌, Bool-cases, List, [], ◌∷◌, length, word, add_word,
}
use xyris.Library.Bitset.{test}
use xyris.Library.Bitset.Bits.{Inside, test-set_bit, test-clear, length-set_bit, length-clear}
use xyris.Memory.Physical.{
  Manager, set_free, set_used, set_free_pages, set_free_section, initialize,
}
use xyris.Memory.Section.{Section, pages, initialized, is_available}

-- The bitmap has its 2 ^ 15 words.
abbrev pub IsSized : Manager → Type 0
IsSized m = length m.words ≡ 32768

frame-Inside : (m : Manager) (addr : ℕ) → IsSized m → addr < word → Inside m (addr / 4096)
frame-Inside m addr s h = omega arith

pub set_free-IsSized : (m : Manager) (addr : ℕ) → IsSized m → IsSized (set_free m addr)
unfolding set_free
set_free-IsSized m addr s = length-clear m _ ∙ s

pub set_used-IsSized : (m : Manager) (addr : ℕ) → IsSized m → IsSized (set_used m addr)
unfolding set_used
set_used-IsSized m addr s = length-set_bit m _ ∙ s

pub test-set_free :
    (m : Manager) (addr q : ℕ)
    → IsSized m
    → addr < word
    → test (set_free m addr) q ≡ (if addr / 4096 == q then false else test m q)
unfolding set_free
test-set_free m addr q s h = test-clear m (addr / 4096) q (frame-Inside m addr s h)

pub test-set_used :
    (m : Manager) (addr q : ℕ)
    → IsSized m
    → addr < word
    → test (set_used m addr) q ≡ (if addr / 4096 == q then true else test m q)
unfolding set_used
test-set_used m addr q s h = test-set_bit m (addr / 4096) q (frame-Inside m addr s h)

-- `q` is one of the `n` frames from frame `first` on.
abbrev in_frames : ℕ → ℕ → ℕ → Bool
in_frames first n q = leb first q && ltb q (first + n)

set_free_pages-IsSized :
    (n : ℕ) (m : Manager) (base i : ℕ) → IsSized m → IsSized (set_free_pages n m base i)
unfolding set_free_pages
set_free_pages-IsSized zero m base i s = s
set_free_pages-IsSized (suc n) m base i s =
    set_free_pages-IsSized n _ base (i + 1) (set_free-IsSized m _ s)

test-set_free_pages :
    (n : ℕ) (m : Manager) (base i q : ℕ)
    → IsSized m
    → base + (i + n) * 4096 < word
    → test (set_free_pages n m base i) q
      ≡ (if in_frames (base / 4096 + i) n q then false else test m q)
unfolding set_free_pages
test-set_free_pages zero m base i q s h = ground arith
test-set_free_pages (suc n) m base i q s h =
    let now = set_free m (add_word base (i * 4096)) in
    ground (
      arith,
      test-set_free_pages n now base (i + 1) q (set_free-IsSized m _ s) (omega arith),
      test-set_free m (add_word base (i * 4096)) q s (omega arith),
    )

-- The section's end is in the address space.
abbrev pub IsBounded : Section → Type 0
IsBounded sect = sect.base + sect.size < word

-- `q` is the index of one of the section's pages.
abbrev pub holds_frame : Section → ℕ → Bool
holds_frame sect q = in_frames (sect.base / 4096) (pages sect) q

-- `setFree` of a section frees the frames of the section's whole pages, and changes no other frame.
pub test-set_free_section :
    (m : Manager) (sect : Section) (q : ℕ)
    → IsSized m
    → IsBounded sect
    → test (set_free_section m sect) q ≡ (if holds_frame sect q then false else test m q)
test-set_free_section m sect q s h =
    let plain : sect.base / 4096 + 0 ≡ sect.base / 4096 = omega arith in
    test-set_free_pages (pages sect) m sect.base 0 q s (omega arith)
    ∙ ap (λ f. if in_frames f (pages sect) q then false else test m q) plain

-- Some available section of the map holds the frame.
abbrev pub map_frees : List Section → ℕ → Bool
map_frees [] q = false
map_frees (sect ∷ map) q =
    (initialized sect && is_available sect.kind && holds_frame sect q) || map_frees map q

abbrev pub AllBounded : List Section → Type 0
AllBounded [] = Unit
AllBounded (sect ∷ map) = IsBounded sect × AllBounded map

set_free_section-IsSized :
    (m : Manager) (sect : Section) → IsSized m → IsSized (set_free_section m sect)
set_free_section-IsSized m sect s = set_free_pages-IsSized (pages sect) m sect.base 0 s

cleared_twice :
    (a b x y : Bool)
    → y ≡ (if a then false else x)
    → (if b then false else y) ≡ (if a || b then false else x)
cleared_twice true true x y e = refl
cleared_twice true false x y e = e
cleared_twice false true x y e = refl
cleared_twice false false x y e = e

-- For a bitmap of its full size and sections whose ends do not wrap, `initialize` frees exactly the
-- frames that an initialized section of type Available holds, and leaves every other as it was.
pub initialize-frees :
    (m : Manager) (map : List Section) (q : ℕ)
    → IsSized m
    → AllBounded map
    → test (initialize m map) q ≡ (if map_frees map q then false else test m q)
unfolding initialize
initialize-frees m [] q s h = refl
initialize-frees m (sect ∷ map) q s (h, hs) =
    elim (Bool-cases (initialized sect && is_available sect.kind)) [
      | inl frees ↦ rw frees (
          initialize-frees (set_free_section m sect) map q (set_free_section-IsSized m sect s) hs
          ∙ cleared_twice (holds_frame sect q) (map_frees map q) (test m q) _
              (test-set_free_section m sect q s h))
      | inr skips ↦ rw skips (initialize-frees m map q s hs)
    ]
