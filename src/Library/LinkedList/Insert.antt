-- ===== src/Library/LinkedList/Insert.antt =====
-- The operations that insert into a linked list.
use xyris.Base.{
  ℕ, ◌+◌, ◌<◌, ◌≡◌, ◌≢◌, sym, ◌∙◌, arith, ◌==◌, if◌then◌else◌, List, [], ◌∷◌, ◌++◌, length, word,
  add_word, length-append,
}
use xyris.Base.Pointers.{Outside, last_or, last_or-behind}
use xyris.Library.LinkedList.{LinkedList, write, insert_before, insert_after}
use xyris.Library.LinkedList.Links.{
  first_or, Apart, Holds, Apart-left, Apart-right, Apart-insert, Nexts-join, Nexts-split,
  Prevs-join, Prevs-split, last-ne_null,
}
use xyris.Library.LinkedList.Relink.{Agrees, Nexts-halves, Prevs-halves}

-- What an insertion of `n` between the nodes `p` and `y` does, where 0 is no node.
pub record Inserts {A : Type 0} (l l' : LinkedList A) (val : A) (n p y : ℕ) : Type 0 where
  pub next_same : Agrees (λ q. (l.nodes q).next) (λ q. (l'.nodes q).next) n p
  pub next_end : p ≢ 0 → (l'.nodes p).next ≡ n
  pub next_new : (l'.nodes n).next ≡ y
  pub prev_same : Agrees (λ q. (l.nodes q).prev) (λ q. (l'.nodes q).prev) n y
  pub prev_start : y ≢ 0 → (l'.nodes y).prev ≡ n
  pub prev_new : (l'.nodes n).prev ≡ p
  pub head : l'.head ≡ (if p == 0 then n else l.head)
  pub tail : l'.tail ≡ (if y == 0 then n else l.tail)
  pub count : l'.count ≡ add_word l.count 1
  pub item_new : (l'.nodes n).item ≡ val
  pub item_same : (q : ℕ) → q ≢ n → (l'.nodes q).item ≡ (l.nodes q).item

insert-head :
    (n h h' : ℕ) (xs ys : List ℕ)
    → Apart (xs ++ ys)
    → h ≡ first_or 0 (xs ++ ys)
    → h' ≡ (if last_or 0 xs == 0 then n else h)
    → h' ≡ first_or 0 (xs ++ (n ∷ ys))
insert-head n h h' [] ys ap e f = f
insert-head n h h' (x ∷ xs) ys ap e f =
    let ne = last-ne_null x xs (Apart-left (x ∷ xs) ys ap) in ground arith

insert-tail :
    (n t t' : ℕ) (xs ys : List ℕ)
    → Apart (xs ++ ys)
    → t ≡ last_or 0 (xs ++ ys)
    → t' ≡ (if first_or 0 ys == 0 then n else t)
    → t' ≡ last_or 0 (xs ++ (n ∷ ys))
insert-tail n t t' xs [] ap e f = f ∙ sym (last_or-behind 0 xs n [])
insert-tail n t t' xs (y ∷ ys) ap e f =
    let nn = (Apart-right xs (y ∷ ys) ap).0 in
    let same = last_or-behind 0 xs y ys in let goal = last_or-behind 0 xs n (y ∷ ys) in ground arith

module _ {A : Type 0} where
  -- An insertion gives a list that holds the new node between the two halves.
  pub Inserts-Holds :
      (l l' : LinkedList A) (val : A) (n : ℕ) (xs ys : List ℕ)
      → Holds l (xs ++ ys)
      → n ≢ 0
      → Outside n (xs ++ ys)
      → length (xs ++ ys) + 1 < word
      → Inserts l l' val n (last_or 0 xs) (first_or 0 ys)
      → Holds l' (xs ++ (n ∷ ys))
  Inserts-Holds l l' val n xs ys h nn out fits i =
      let old = Nexts-split (λ q. (l.nodes q).next) xs ys 0 h.nexts in
      let back = Prevs-split (λ q. (l.nodes q).prev) 0 xs ys h.prevs in
      let nexts =
        Nexts-halves (λ q. (l.nodes q).next) (λ q. (l'.nodes q).next) n xs ys (first_or 0 ys) n
          i.next_same i.next_end h.apart out old.0 old.1 in
      let prevs =
        Prevs-halves (λ q. (l.nodes q).prev) (λ q. (l'.nodes q).prev) n xs ys (last_or 0 xs) n
          i.prev_same i.prev_start h.apart out back.0 back.1 in
      record {
        apart = Apart-insert xs ys n nn out h.apart;
        nexts = Nexts-join (λ q. (l'.nodes q).next) xs (n ∷ ys) 0 nexts.0 (i.next_new, nexts.1);
        prevs = Prevs-join (λ q. (l'.nodes q).prev) 0 xs (n ∷ ys) prevs.0 (i.prev_new, prevs.1);
        head = insert-head n l.head l'.head xs ys h.apart h.head i.head;
        tail = insert-tail n l.tail l'.tail xs ys h.apart h.tail i.tail;
        count =
            let a = length-append xs ys in
            let b = length-append xs (n ∷ ys) in let c = i.count in let d = h.count in ground arith;
        small = let a = length-append xs ys in let b = length-append xs (n ∷ ys) in omega arith;
      }

  pub insert_before-Inserts :
      (l : LinkedList A) (val : A) (n p y : ℕ)
      → (l.nodes y).prev ≡ p
      → y ≢ 0
      → n ≢ 0
      → n ≢ y
      → n ≢ p
      → p ≢ y
      → Inserts l (insert_before l y val n) val n p y
  unfolding insert_before write
  insert_before-Inserts l val n p y e nn n0 ny np py = record {
    next_same = λ q q0 qn qp. ground arith;
    next_end = λ h. ground arith;
    next_new = ground arith;
    prev_same = λ q q0 qn qy. ground arith;
    prev_start = λ h. ground arith;
    prev_new = ground arith;
    head = ground arith;
    tail = ground arith;
    count = ground arith;
    item_new = ground arith;
    item_same = λ q qn. ground arith;
  }

  pub insert_after-Inserts :
      (l : LinkedList A) (val : A) (n p y : ℕ)
      → (l.nodes p).next ≡ y
      → p ≢ 0
      → n ≢ 0
      → n ≢ y
      → n ≢ p
      → p ≢ y
      → Inserts l (insert_after l p val n) val n p y
  unfolding insert_after write
  insert_after-Inserts l val n p y e nn n0 ny np py = record {
    next_same = λ q q0 qn qp. ground arith;
    next_end = λ h. ground arith;
    next_new = ground arith;
    prev_same = λ q q0 qn qy. ground arith;
    prev_start = λ h. ground arith;
    prev_new = ground arith;
    head = ground arith;
    tail = ground arith;
    count = ground arith;
    item_new = ground arith;
    item_same = λ q qn. ground arith;
  }
