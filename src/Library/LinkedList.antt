-- ===== src/Library/LinkedList.antt =====
-- Kernel/Library/LinkedList.hpp: the templates `LinkedListNode<T>` and `LinkedList<T>`. A node is its
-- address, 0 is NULL. The address that `new` gives is an argument `node` of the operations that
-- allocate. `none` stands for a method that is called on NULL.
pub mod Ends
pub mod Insert
pub mod Links
pub mod Refine
pub mod Relink
pub mod Remove
mod Tests
use xyris.Base.{
  ℕ, zero, suc, ◌+◌, Bool, ◌==◌, if◌then◌else◌, Option, none, some, add_word, sub_word,
}
use xyris.Base.Maybe.{◌>>=◌}

-- `LinkedListNode<T>`; the field `data` is `item` here.
pub record Node (A : Type 0) : Type 0 where
  pub item : A
  pub next : ℕ
  pub prev : ℕ

abbrev pub Nodes : Type 0 → Type 0
Nodes A = ℕ → Node A

-- `LinkedList<T>`, with the memory of the nodes.
pub record LinkedList (A : Type 0) : Type 0 where
  pub nodes : Nodes A
  pub head : ℕ
  pub tail : ℕ
  pub count : ℕ

module _ {A : Type 0} where
  unfoldable pub write : Nodes A → ℕ → Node A → Nodes A
  write m p n q = if p == q then n else m q

  -- `SetNext` and `SetPrevious`
  abbrev pub set_next : Nodes A → ℕ → ℕ → Nodes A
  set_next m p q = write m p (record (m p) { next = q })

  abbrev pub set_previous : Nodes A → ℕ → ℕ → Nodes A
  set_previous m p q = write m p (record (m p) { prev = q })

  -- `LinkedListNode(v)`
  abbrev pub new_node : Nodes A → ℕ → A → Nodes A
  new_node m node val = write m node (record { item = val; next = 0; prev = 0 })

  -- `LinkedList()` in a given memory.
  abbrev pub empty : Nodes A → LinkedList A
  empty m = record { nodes = m; head = 0; tail = 0; count = 0 }

  -- The statements of `InsertBefore` behind its guard.
  abbrev pub link_before : LinkedList A → ℕ → A → ℕ → LinkedList A
  link_before l next val node =
      let m1 = new_node l.nodes node val in
      let m2 = set_previous m1 node (m1 next).prev in
      let m3 = set_previous m2 next node in
      let m4 = set_next m3 node next in
      let before = (m4 node).prev in
      record l {
        nodes = if before == 0 then m4 else set_next m4 before node;
        head = if before == 0 then node else l.head;
        count = add_word l.count 1;
      }

  unfoldable pub insert_before : LinkedList A → ℕ → A → ℕ → LinkedList A
  insert_before l next val node = if next == 0 then l else link_before l next val node

  -- The statements of `InsertAfter` behind its guard.
  abbrev pub link_after : LinkedList A → ℕ → A → ℕ → LinkedList A
  link_after l prev val node =
      let m1 = new_node l.nodes node val in
      let m2 = set_next m1 node (m1 prev).next in
      let m3 = set_next m2 prev node in
      let m4 = set_previous m3 node prev in
      let after = (m4 node).next in
      record l {
        nodes = if after == 0 then m4 else set_previous m4 after node;
        tail = if after == 0 then node else l.tail;
        count = add_word l.count 1;
      }

  unfoldable pub insert_after : LinkedList A → ℕ → A → ℕ → LinkedList A
  insert_after l prev val node = if prev == 0 then l else link_after l prev val node

  -- The first node of an empty list.
  abbrev pub first_node : LinkedList A → A → ℕ → LinkedList A
  first_node l val node = record {
    nodes = new_node l.nodes node val;
    head = node;
    tail = node;
    count = add_word l.count 1;
  }

  unfoldable pub insert_front : LinkedList A → A → ℕ → LinkedList A
  insert_front l val node =
      if l.head == 0 then first_node l val node else insert_before l l.head val node

  unfoldable pub insert_back : LinkedList A → A → ℕ → LinkedList A
  insert_back l val node =
      if l.tail == 0 then first_node l val node else insert_after l l.tail val node

  -- The statements of `Remove` for a node.
  abbrev pub unlink : LinkedList A → ℕ → LinkedList A
  unlink l del =
      let next = (l.nodes del).next in
      let prev = (l.nodes del).prev in
      let m1 = if next == 0 then l.nodes else set_previous l.nodes next prev in
      record {
        nodes = if (m1 del).prev == 0 then m1 else set_next m1 (m1 del).prev (m1 del).next;
        head = if del == l.head then next else l.head;
        tail = if del == l.tail then prev else l.tail;
        count = sub_word l.count 1;
      }

  -- `Remove`: `del->Next()` is called whatever `del` is.
  unfoldable pub remove : LinkedList A → ℕ → Option (LinkedList A)
  remove l del = if del == 0 then none else some (unlink l del)

  -- The pointer is NULL where there is nothing to remove.
  abbrev pub remove_returning : LinkedList A → ℕ → Option (ℕ × LinkedList A)
  remove_returning l del = remove l del >>= λ l'. some (del, l')

  unfoldable pub remove_front : LinkedList A → Option (ℕ × LinkedList A)
  remove_front l = if l.head == 0 then some (0, l) else remove_returning l l.head

  unfoldable pub remove_back : LinkedList A → Option (ℕ × LinkedList A)
  remove_back l = if l.tail == 0 then some (0, l) else remove_returning l l.tail

  unfoldable pub remove_before : LinkedList A → ℕ → Option (ℕ × LinkedList A)
  remove_before l node = if node == 0 then some (0, l) else remove_returning l (l.nodes node).prev

  unfoldable pub remove_after : LinkedList A → ℕ → Option (ℕ × LinkedList A)
  remove_after l node = if node == 0 then some (0, l) else remove_returning l (l.nodes node).next

  -- The loop of the destructor, with `n` rounds at most: the nodes that it deletes.
  unfoldable pub delete_all : ℕ → LinkedList A → Option (LinkedList A)
  delete_all zero l = some l
  delete_all (suc n) l =
      let rest = remove_back l >>= λ r. delete_all n r.1 in if l.tail == 0 then some l else rest

  abbrev pub is_empty : LinkedList A → Bool
  is_empty l = l.count == 0
