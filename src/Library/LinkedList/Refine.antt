-- ===== src/Library/LinkedList/Refine.antt =====
-- `InsertBefore`, `InsertAfter`, `InsertFront` and `InsertBack` on the list of values that a linked
-- list holds.
use xyris.Base.{
  append-nil, ℕ, ◌≡◌, ◌≢◌, refl, sym, ◌∙◌, ap₂, arith, subst, ap, List, [], ◌∷◌, ◌++◌, map,
}
use xyris.Base.Pointers.{Outside, last_or, Outside-left, Outside-right}
use xyris.Library.LinkedList.{
  LinkedList, write, insert_before, insert_after, insert_front, insert_back, first_node,
}
use xyris.Library.LinkedList.Links.{
  first_or, Holds, Nexts-split, Prevs-split, Apart-left, Apart-right, Outside-last_or, last-ne_null,
  Outside-null, Fresh, ne-last_or, ne-first_or, Nexts-last, last_or-split,
}
use xyris.Library.LinkedList.Insert.{
  Inserts, Inserts-Holds, insert_before-Inserts, insert_after-Inserts,
}

module _ {A : Type 0} where
  -- The values of the nodes, in order.
  abbrev pub items : LinkedList A → List ℕ → List A
  items l ps = map (λ p. (l.nodes p).item) ps

  -- `l'` is `l` with the new node `n` for `val` between `xs` and `ys`.
  abbrev pub Inserted : LinkedList A → LinkedList A → A → ℕ → List ℕ → List ℕ → Type 0
  Inserted l l' val n xs ys =
      Holds l' (xs ++ (n ∷ ys)) × (items l' (xs ++ (n ∷ ys)) ≡ items l xs ++ (val ∷ items l ys))

  pub items-same :
      (l l' : LinkedList A) (n : ℕ) (ps : List ℕ)
      → ((q : ℕ) → q ≢ n → (l'.nodes q).item ≡ (l.nodes q).item)
      → Outside n ps
      → items l' ps ≡ items l ps
  items-same l l' n [] h out = refl
  items-same l l' n (p ∷ ps) h (ne, out) =
      ap₂ ◌∷◌ (h p (λ q. ne (sym q))) (items-same l l' n ps h out)

  items-Inserts :
      (l l' : LinkedList A) (val : A) (n p y : ℕ) (xs ys : List ℕ)
      → Inserts l l' val n p y
      → Outside n (xs ++ ys)
      → items l' (xs ++ (n ∷ ys)) ≡ items l xs ++ (val ∷ items l ys)
  items-Inserts l l' val n p y [] ys i out =
      ap₂ ◌∷◌ i.item_new (items-same l l' n ys i.item_same out)
  items-Inserts l l' val n p y (x ∷ xs) ys i (ne, out) =
      ap₂ ◌∷◌ (i.item_same x (λ q. ne (sym q))) (items-Inserts l l' val n p y xs ys i out)

  Inserts-Inserted :
      (l l' : LinkedList A) (val : A) (n : ℕ) (xs ys : List ℕ)
      → Holds l (xs ++ ys)
      → Fresh n (xs ++ ys)
      → Inserts l l' val n (last_or 0 xs) (first_or 0 ys)
      → Inserted l l' val n xs ys
  Inserts-Inserted l l' val n xs ys h f i = (
    Inserts-Holds l l' val n xs ys h f.not_null f.outside f.room i,
    items-Inserts l l' val n (last_or 0 xs) (first_or 0 ys) xs ys i f.outside,
  )

  -- `InsertBefore` at a node of the list puts the new node directly in front of it.
  pub insert_before-Inserted :
      (l : LinkedList A) (xs : List ℕ) (y : ℕ) (ys : List ℕ) (val : A) (n : ℕ)
      → Holds l (xs ++ (y ∷ ys))
      → Fresh n (xs ++ (y ∷ ys))
      → Inserted l (insert_before l y val n) val n xs (y ∷ ys)
  insert_before-Inserted l xs y ys val n h f =
      let out = Outside-right n xs (y ∷ ys) f.outside in
      let back = Prevs-split (λ q. (l.nodes q).prev) 0 xs (y ∷ ys) h.prevs in
      let right = Apart-right xs (y ∷ ys) h.apart in
      let cross = Outside-last_or 0 xs (y ∷ ys) (Outside-null (y ∷ ys) right) h.apart in
      Inserts-Inserted l (insert_before l y val n) val n xs (y ∷ ys) h f (
        insert_before-Inserts l val n (last_or 0 xs) y back.1.0 right.0 f.not_null out.0
          (ne-last_or n xs f.not_null (Outside-left n xs (y ∷ ys) f.outside)) cross.0)

  -- `InsertAfter` at the last node of the half in front puts the new node directly behind it.
  pub insert_after-Inserted :
      (l : LinkedList A) (x : ℕ) (xs ys : List ℕ) (val : A) (n : ℕ)
      → Holds l (x ∷ (xs ++ ys))
      → Fresh n (x ∷ (xs ++ ys))
      → Inserted l (insert_after l (last_or x xs) val n) val n (x ∷ xs) ys
  insert_after-Inserted l x xs ys val n h f =
      let front = Nexts-split (λ q. (l.nodes q).next) (x ∷ xs) ys 0 h.nexts in
      let right = Apart-right (x ∷ xs) ys h.apart in
      let some_node = last-ne_null x xs (Apart-left (x ∷ xs) ys h.apart) in
      let cross = Outside-last_or 0 (x ∷ xs) ys (Outside-null ys right) h.apart in
      Inserts-Inserted l (insert_after l (last_or x xs) val n) val n (x ∷ xs) ys h f (
        insert_after-Inserts l val n (last_or x xs) (first_or 0 ys)
          (Nexts-last (λ q. (l.nodes q).next) x xs (first_or 0 ys) front.0) some_node f.not_null
          (ne-first_or n ys f.not_null (Outside-right n (x ∷ xs) ys f.outside))
          (ne-last_or n (x ∷ xs) f.not_null (Outside-left n (x ∷ xs) ys f.outside))
          (ne-first_or (last_or x xs) ys some_node cross))

  first_node-Inserts :
      (l : LinkedList A) (val : A) (n : ℕ) → n ≢ 0 → Inserts l (first_node l val n) val n 0 0
  unfolding write
  first_node-Inserts l val n nn = record {
    next_same = λ q q0 qn qp. ground arith;
    next_end = λ h. ground arith;
    next_new = ground arith;
    prev_same = λ q q0 qn qy. ground arith;
    prev_start = λ h. ground arith;
    prev_new = ground arith;
    head = ground arith;
    tail = ground arith;
    count = ground arith;
    item_new = ground arith;
    item_same = λ q qn. ground arith;
  }

  insert_front-cases :
      (l : LinkedList A) (val : A) (n : ℕ)
      → (l.head ≡ 0 → insert_front l val n ≡ first_node l val n)
        × (l.head ≢ 0 → insert_front l val n ≡ insert_before l l.head val n)
  unfolding insert_front
  insert_front-cases l val n = ((λ h. rw h refl), (λ h. ground arith))

  insert_back-cases :
      (l : LinkedList A) (val : A) (n : ℕ)
      → (l.tail ≡ 0 → insert_back l val n ≡ first_node l val n)
        × (l.tail ≢ 0 → insert_back l val n ≡ insert_after l l.tail val n)
  unfolding insert_back
  insert_back-cases l val n = ((λ h. rw h refl), (λ h. ground arith))

  -- `InsertFront` puts the new node in front of all nodes.
  pub insert_front-Inserted :
      (l : LinkedList A) (ps : List ℕ) (val : A) (n : ℕ)
      → Holds l ps
      → Fresh n ps
      → Inserted l (insert_front l val n) val n [] ps
  insert_front-Inserted l [] val n h f =
      subst (λ r. Inserted l r val n [] []) (sym ((insert_front-cases l val n).0 h.head))
        (Inserts-Inserted l (first_node l val n) val n [] [] h f
          (first_node-Inserts l val n f.not_null))
  insert_front-Inserted l (p ∷ ps) val n h f =
      let not_null = subst (λ r. r ≢ 0) (sym h.head) h.apart.0 in
      let same =
        (insert_front-cases l val n).1 not_null ∙ ap (λ r. insert_before l r val n) h.head in
      subst (λ r. Inserted l r val n [] (p ∷ ps)) (sym same)
        (insert_before-Inserted l [] p ps val n h f)

  -- `InsertBack` puts the new node behind all nodes.
  pub insert_back-Inserted :
      (l : LinkedList A) (ps : List ℕ) (val : A) (n : ℕ)
      → Holds l (ps ++ [])
      → Fresh n (ps ++ [])
      → Inserted l (insert_back l val n) val n ps []
  insert_back-Inserted l [] val n h f =
      subst (λ r. Inserted l r val n [] []) (sym ((insert_back-cases l val n).0 h.tail))
        (Inserts-Inserted l (first_node l val n) val n [] [] h f
          (first_node-Inserts l val n f.not_null))
  insert_back-Inserted l (p ∷ ps) val n h f =
      let tail = h.tail ∙ last_or-split p ps [] in
      let not_null =
        subst (λ r. r ≢ 0) (sym tail) (last-ne_null p ps (Apart-left (p ∷ ps) [] h.apart)) in
      let same = (insert_back-cases l val n).1 not_null ∙ ap (λ r. insert_after l r val n) tail in
      subst (λ r. Inserted l r val n (p ∷ ps) []) (sym same)
        (insert_after-Inserted l p ps [] val n h f)

  -- `InsertFront` and `InsertBack` of a new node on a list that holds the nodes `ps`, none included,
  -- give lists that hold the new node in front of them and behind them, and the values likewise.
  pub insert_ends :
      (l : LinkedList A) (ps : List ℕ) (val : A) (n : ℕ)
      → Holds l ps
      → Fresh n ps
      → Inserted l (insert_front l val n) val n [] ps × Inserted l (insert_back l val n) val n ps []
  insert_ends l ps val n h f = (
    insert_front-Inserted l ps val n h f,
    insert_back-Inserted l ps val n (subst (Holds l) (sym (append-nil ps)) h)
        (subst (Fresh n) (sym (append-nil ps)) f),
  )
