-- ===== src/Library/LinkedList/Remove.antt =====
-- The operations that remove a node from a linked list.
use xyris.Base.{
  ℕ, ◌≡◌, ◌≢◌, arith, ◌==◌, if◌then◌else◌, List, [], ◌∷◌, ◌++◌, sub_word, length-append, some,
}
use xyris.Base.Pointers.{
  Outside, last_or, Outside-last, Outside-append, Outside-right, Outside-drop, last_or-behind,
}
use xyris.Library.LinkedList.{LinkedList, write, unlink, remove}
use xyris.Library.LinkedList.Links.{
  first_or, Apart, Holds, Apart-right, Nexts-join, Nexts-split, Prevs-join, Prevs-split,
  Outside-null, Outside-last_or, Outside-first_or, ne-last_or, ne-first_or, last_or-split,
}
use xyris.Library.LinkedList.Relink.{Agrees, Nexts-halves, Prevs-halves}

Apart-drop : (xs : List ℕ) (t : ℕ) (ys : List ℕ) → Apart (xs ++ (t ∷ ys)) → Apart (xs ++ ys)
Apart-drop [] t ys (nn, out, h) = h
Apart-drop (x ∷ xs) t ys (nn, out, h) = (nn, Outside-drop x xs t ys out, Apart-drop xs t ys h)

Apart-middle : (xs : List ℕ) (t : ℕ) (ys : List ℕ) → Apart (xs ++ (t ∷ ys)) → Outside t (xs ++ ys)
Apart-middle xs t ys h =
    Outside-append t xs ys (Outside-first_or xs (t ∷ ys) h) (Apart-right xs (t ∷ ys) h).1

-- What the removal of `t` between the nodes `p` and `y` does, where 0 is no node.
pub record Removes {A : Type 0} (l l' : LinkedList A) (t p y : ℕ) : Type 0 where
  pub next_same : Agrees (λ q. (l.nodes q).next) (λ q. (l'.nodes q).next) t p
  pub next_end : p ≢ 0 → (l'.nodes p).next ≡ y
  pub prev_same : Agrees (λ q. (l.nodes q).prev) (λ q. (l'.nodes q).prev) t y
  pub prev_start : y ≢ 0 → (l'.nodes y).prev ≡ p
  pub head : l'.head ≡ (if t == l.head then y else l.head)
  pub tail : l'.tail ≡ (if t == l.tail then p else l.tail)
  pub count : l'.count ≡ sub_word l.count 1
  pub item_same : (q : ℕ) → (l'.nodes q).item ≡ (l.nodes q).item

remove-head :
    (t h h' : ℕ) (xs ys : List ℕ)
    → Outside t (xs ++ ys)
    → h ≡ first_or 0 (xs ++ (t ∷ ys))
    → h' ≡ (if t == h then first_or 0 ys else h)
    → h' ≡ first_or 0 (xs ++ ys)
remove-head t h h' [] ys out e f = ground arith
remove-head t h h' (x ∷ xs) ys (ne, out) e f = ground arith

remove-tail :
    (t l l' : ℕ) (xs ys : List ℕ)
    → Outside t ys
    → l ≡ last_or 0 (xs ++ (t ∷ ys))
    → l' ≡ (if t == l then last_or 0 xs else l)
    → l' ≡ last_or 0 (xs ++ ys)
remove-tail t l l' xs [] out e f =
    let a = last_or-behind 0 xs t [] in let b = last_or-split 0 xs [] in ground arith
remove-tail t l l' xs (y ∷ ys) out e f =
    let a = last_or-behind 0 xs t (y ∷ ys) in
    let b = last_or-behind 0 xs y ys in let ne = Outside-last t y ys out in ground arith

module _ {A : Type 0} where
  -- A removal gives a list that holds the other nodes.
  pub Removes-Holds :
      (l l' : LinkedList A) (xs : List ℕ) (t : ℕ) (ys : List ℕ)
      → Holds l (xs ++ (t ∷ ys))
      → Removes l l' t (last_or 0 xs) (first_or 0 ys)
      → Holds l' (xs ++ ys)
  Removes-Holds l l' xs t ys h r =
      let old = Nexts-split (λ q. (l.nodes q).next) xs (t ∷ ys) 0 h.nexts in
      let back = Prevs-split (λ q. (l.nodes q).prev) 0 xs (t ∷ ys) h.prevs in
      let rest = Apart-drop xs t ys h.apart in
      let out = Apart-middle xs t ys h.apart in
      let nexts =
        Nexts-halves (λ q. (l.nodes q).next) (λ q. (l'.nodes q).next) t xs ys t (first_or 0 ys)
          r.next_same r.next_end rest out old.0 old.1.1 in
      let prevs =
        Prevs-halves (λ q. (l.nodes q).prev) (λ q. (l'.nodes q).prev) t xs ys t (last_or 0 xs)
          r.prev_same r.prev_start rest out back.0 back.1.1 in
      record {
        apart = rest;
        nexts = Nexts-join (λ q. (l'.nodes q).next) xs ys 0 nexts.0 nexts.1;
        prevs = Prevs-join (λ q. (l'.nodes q).prev) 0 xs ys prevs.0 prevs.1;
        head = remove-head t l.head l'.head xs ys out h.head r.head;
        tail = remove-tail t l.tail l'.tail xs ys (Outside-right t xs ys out) h.tail r.tail;
        count =
            let a = length-append xs ys in
            let b = length-append xs (t ∷ ys) in
            let c = r.count in let d = h.count in let e = h.small in ground arith;
        small =
            let a = length-append xs ys in
            let b = length-append xs (t ∷ ys) in let e = h.small in omega arith;
      }

  unlink-Removes :
      (l : LinkedList A) (t p y : ℕ)
      → (l.nodes t).next ≡ y
      → (l.nodes t).prev ≡ p
      → t ≢ 0
      → t ≢ y
      → t ≢ p
      → (p ≢ 0 → p ≢ y)
      → Removes l (unlink l t) t p y
  unfolding write
  unlink-Removes l t p y e f nn ty tp py = record {
    next_same = λ q q0 qn qp. ground arith;
    next_end = λ h. let apart = py h in ground arith;
    prev_same = λ q q0 qn qy. ground arith;
    prev_start = λ h. ground arith;
    head = ground arith;
    tail = ground arith;
    count = ground arith;
    item_same = λ q. ground arith;
  }

  -- `Remove` of a node of the list takes out that node and no other, and keeps the values.
  pub remove-Holds :
      (l : LinkedList A) (xs : List ℕ) (t : ℕ) (ys : List ℕ)
      → Holds l (xs ++ (t ∷ ys))
      → (remove l t ≡ some (unlink l t))
        × Holds (unlink l t) (xs ++ ys)
        × ((q : ℕ) → ((unlink l t).nodes q).item ≡ (l.nodes q).item)
  unfolding remove
  remove-Holds l xs t ys h =
      let right = Apart-right xs (t ∷ ys) h.apart in
      let first = Outside-first_or xs (t ∷ ys) h.apart in
      let next = Nexts-split (λ q. (l.nodes q).next) xs (t ∷ ys) 0 h.nexts in
      let prev = Prevs-split (λ q. (l.nodes q).prev) 0 xs (t ∷ ys) h.prevs in
      let cross = Outside-last_or 0 xs ys (Outside-null ys right.2) (Apart-drop xs t ys h.apart) in
      let r =
        unlink-Removes l t (last_or 0 xs) (first_or 0 ys) next.1.0 prev.1.0 right.0
          (ne-first_or t ys right.0 right.1) (ne-last_or t xs right.0 first)
          (λ nn. ne-first_or (last_or 0 xs) ys nn cross) in
      (ground arith, Removes-Holds l (unlink l t) xs t ys h r, r.item_same)
