-- ===== src/Library/LinkedList/Tests.antt =====
-- Runs of the linked list, and instances of its theorems.
use xyris.Base.{ℕ, ◌≡◌, refl, arith, [], ◌∷◌, some}
use xyris.Library.LinkedList.{LinkedList, write, empty, insert_after, insert_back, remove, unlink}
use xyris.Library.LinkedList.Links.{Holds, Fresh}
use xyris.Library.LinkedList.Refine.{items, insert_ends}
use xyris.Library.LinkedList.Remove.{remove-Holds}

abbrev nothing : LinkedList ℕ
nothing = empty (λ p. record { item = 0; next = 0; prev = 0 })

nothing-Holds : Holds nothing []
nothing-Holds = record {
  apart = tt;
  nexts = tt;
  prevs = tt;
  head = refl;
  tail = refl;
  count = refl;
  small = omega arith;
}

-- 7 at the address 16.
abbrev one : LinkedList ℕ
one = insert_back nothing 7 16

-- 7 at 16 and 9 at 32.
abbrev two : LinkedList ℕ
two = insert_back one 9 32

two-Holds : Holds two (16 ∷ 32 ∷ [])
two-Holds =
    let one-Holds =
      (insert_ends nothing [] 7 16 nothing-Holds
        (record { not_null = λ e. omega arith; outside = tt; room = omega arith })).1.0 in
    (insert_ends one (16 ∷ []) 9 32 one-Holds (record {
      not_null = λ e. omega arith;
      outside = ((λ e. omega arith), tt);
      room = omega arith;
    })).1.0

fresh : Fresh 48 (16 ∷ 32 ∷ [])
fresh = record {
  not_null = λ e. omega arith;
  outside = ((λ e. omega arith), ((λ e. omega arith), tt));
  room = omega arith;
}

two_items : items two (16 ∷ 32 ∷ []) ≡ 7 ∷ 9 ∷ []
unfolding insert_back insert_after write
two_items = refl

remove-Holds_example :
    (remove two 16 ≡ some (unlink two 16))
    × Holds (unlink two 16) (32 ∷ [])
    × ((q : ℕ) → ((unlink two 16).nodes q).item ≡ (two.nodes q).item)
remove-Holds_example = remove-Holds two [] 16 (32 ∷ []) two-Holds
