-- ===== src/Library/LinkedList/Ends.antt =====
-- Removal at the ends of a linked list, the neighbours that are NULL, and the destructor.
use xyris.Base.{
  ℕ, zero, suc, ◌≤◌, ◌≡◌, ◌≢◌, refl, ◌∙◌, ap, arith, subst, List, [], ◌∷◌, ◌++◌, length,
  length-append, none, some, append-nil,
}
use xyris.Base.Pointers.{last_or, last_or-behind}
use xyris.Library.LinkedList.{
  LinkedList, unlink, remove, remove_front, remove_back, remove_before, remove_after, delete_all,
}
use xyris.Library.LinkedList.Links.{Holds, Apart-right, Nexts-last, last-ne_null}
use xyris.Library.LinkedList.Remove.{remove-Holds}

-- A list of pointers with its last one split off.
split_last : (p : ℕ) (ps : List ℕ) → (xs : List ℕ) × (p ∷ ps ≡ xs ++ (last_or p ps ∷ []))
split_last p [] = ([], refl)
split_last p (q ∷ qs) = let rest = split_last q qs in (p ∷ rest.0, ap (◌∷◌ p) rest.1)

module _ {A : Type 0} where
  remove_front-some :
      (l : LinkedList A) (p : ℕ)
      → l.head ≡ p
      → remove l p ≡ some (unlink l p)
      → p ≢ 0
      → remove_front l ≡ some (p, unlink l p)
  unfolding remove_front
  remove_front-some l p e r nn = ground arith

  remove_back-some :
      (l : LinkedList A) (p : ℕ)
      → l.tail ≡ p
      → remove l p ≡ some (unlink l p)
      → p ≢ 0
      → remove_back l ≡ some (p, unlink l p)
  unfolding remove_back
  remove_back-some l p e r nn = ground arith

  -- `RemoveFront` of a list with nodes takes out the first one.
  pub remove_front-Holds :
      (l : LinkedList A) (p : ℕ) (ps : List ℕ)
      → Holds l (p ∷ ps)
      → (remove_front l ≡ some (p, unlink l p)) × Holds (unlink l p) ps
  remove_front-Holds l p ps h =
      let r = remove-Holds l [] p ps h in (remove_front-some l p h.head r.0 h.apart.0, r.1)

  -- `RemoveBack` of a list with nodes takes out the last one.
  pub remove_back-Holds :
      (l : LinkedList A) (xs : List ℕ) (t : ℕ)
      → Holds l (xs ++ (t ∷ []))
      → (remove_back l ≡ some (t, unlink l t)) × Holds (unlink l t) xs
  remove_back-Holds l xs t h =
      let r = remove-Holds l xs t [] h in
      let nn = (Apart-right xs (t ∷ []) h.apart).0 in
      (
        remove_back-some l t (h.tail ∙ last_or-behind 0 xs t []) r.0 nn,
        subst (Holds (unlink l t)) (append-nil xs) r.1,
      )

  -- On a list that holds the nodes `p ∷ ps`, `RemoveBefore` of the first node and `RemoveAfter` of
  -- the last one call a method on NULL.
  pub remove_neighbour-none :
      (l : LinkedList A) (p : ℕ) (ps : List ℕ)
      → Holds l (p ∷ ps)
      → (remove_before l p ≡ none) × (remove_after l (last_or p ps) ≡ none)
  unfolding remove_before remove_after remove
  remove_neighbour-none l p ps h =
      let prev = h.prevs.0 in
      let next = Nexts-last (λ q. (l.nodes q).next) p ps 0 h.nexts in
      let first = h.apart.0 in let last = last-ne_null p ps h.apart in (ground arith, ground arith)

  delete_all-step :
      (n : ℕ) (l : LinkedList A) (t : ℕ) (l1 l' : LinkedList A)
      → t ≢ 0
      → l.tail ≡ t
      → remove_back l ≡ some (t, l1)
      → delete_all n l1 ≡ some l'
      → delete_all (suc n) l ≡ some l'
  unfolding delete_all
  delete_all-step n l t l1 l' nn e r h = rw r ground arith

  -- With a round for each node of the list, the loop of the destructor ends, and it ends with a list
  -- that holds no node.
  pub delete_all-empty :
      (n : ℕ) (l : LinkedList A) (ps : List ℕ)
      → Holds l ps
      → length ps ≤ n
      → (l' : LinkedList A) × (delete_all n l ≡ some l') × Holds l' []
  unfolding delete_all
  delete_all-empty zero l [] h le = (l, refl, h)
  delete_all-empty zero l (p ∷ ps) h le = elim le [ ]
  delete_all-empty (suc n) l [] h le = let e = h.tail in (l, ground arith, h)
  delete_all-empty (suc n) l (p ∷ ps) h le =
      let s = split_last p ps in
      let t = last_or p ps in
      let r = remove_back-Holds l s.0 t (subst (Holds l) s.1 h) in
      let size = ap length s.1 in
      let more = length-append s.0 (t ∷ []) in
      let rest = delete_all-empty n (unlink l t) s.0 r.1 (omega arith) in
      let tail = h.tail in
      let nn = last-ne_null p ps h.apart in
      (rest.0, delete_all-step n l t (unlink l t) rest.0 nn tail r.0 rest.1, rest.2)
