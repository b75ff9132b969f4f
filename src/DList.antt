-- ===== src/DList.antt =====
-- src/list.cpp: intrusive doubly-linked lists. Nodes stand at addresses of a heap that all lists
-- share, a list is known by its own address (`self`), and 0 is null. A function returns `none` where
-- the C++ code reads or writes through a null pointer.
pub mod Links
pub mod Insert
pub mod InsertFront
pub mod Remove
pub mod RemoveAny
pub mod Twice
use quark_ts_cpp.Prelude.{
  ℕ, zero, suc, Bool, true, false, not, ◌&&◌, Option, none, some, ◌==◌, if◌then◌else◌, ◌>>=◌,
}
use quark_ts_cpp.Prelude.Word.{add_word, sub_word}
use quark_ts_cpp.Prelude.Int.{ℤ, pos, negsuc, pred_ℤ, pos_part, ltb_ℤ, eqb_ℤ}

pub record Node : Type 0 where
  pub next : ℕ
  pub prev : ℕ
  pub container : ℕ

abbrev pub Heap : Type 0
Heap = ℕ → Node

pub record DList : Type 0 where
  pub self : ℕ
  pub head : ℕ
  pub tail : ℕ
  pub size : ℕ

-- `listPosition`: the two named positions are negative, all else is an index.
abbrev pub at_front : ℤ
at_front = negsuc 0

abbrev pub at_back : ℤ
at_back = negsuc 1

unfoldable pub write : Heap → ℕ → Node → Heap
write h p n a = if a == p then n else h a

abbrev pub load : Heap → ℕ → Option Node
load h p = if p == 0 then none else some (h p)

abbrev pub set_next : Heap → ℕ → ℕ → Option Heap
set_next h p q = if p == 0 then none else some (write h p (record (h p) { next = q }))

abbrev pub set_prev : Heap → ℕ → ℕ → Option Heap
set_prev h p q = if p == 0 then none else some (write h p (record (h p) { prev = q }))

abbrev pub set_container : Heap → ℕ → ℕ → Option Heap
set_container h p c = if p == 0 then none else some (write h p (record (h p) { container = c }))

-- `node::init`
abbrev pub init : Heap → ℕ → Option Heap
init h p = if p == 0 then none else some (write h p (record { next = 0; prev = 0; container = 0 }))

unfoldable pub clean : DList → DList
clean l = record l { head = 0; tail = 0; size = 0 }

unfoldable pub is_member : DList → Heap → ℕ → Bool
is_member l h x = not (x == 0) && (l.self == (h x).container)

unfoldable pub insert_at_front : DList → Heap → ℕ → Option (DList × Heap)
insert_at_front l h x = do
  h1 ← set_next h x l.head
  h2 ← set_prev h1 l.head x
  some (record l { head = x }, h2)

unfoldable pub insert_at_back : DList → Heap → ℕ → Option (DList × Heap)
insert_at_back l h x = do
  h1 ← set_next h l.tail x
  h2 ← set_prev h1 x l.tail
  some (record l { tail = x }, h2)

-- These two give the list, the heap and the node taken out.
unfoldable pub remove_front : DList → Heap → Option (DList × Heap × ℕ)
remove_front l h = do
  removed ← load h l.head
  let l' = record l { head = removed.next }
  if removed.next == 0
      then some (record l' { tail = removed.next }, h, l.head)
      else (set_prev h removed.next 0 >>= λ h1. some (l', h1, l.head))

unfoldable pub remove_back : DList → Heap → Option (DList × Heap × ℕ)
remove_back l h = do
  removed ← load h l.tail
  let l' = record l { tail = removed.prev }
  if removed.prev == 0
      then some (record l' { head = removed.prev }, h, l.tail)
      else (set_next h removed.prev 0 >>= λ h1. some (l', h1, l.tail))

-- The loop of `getNodeAtIndex` from a node on, with the steps left to the index.
unfoldable pub node_from : Heap → ℕ → ℕ → Option ℕ
node_from h i zero = some i
node_from h i (suc k) = do
  n ← load h i
  let rest = node_from h n.next k
  if n.next == 0 then some i else rest

unfoldable pub get_node_at_index : DList → Heap → ℤ → Option ℕ
unfolding node_from
get_node_at_index l h p = node_from h l.head (pos_part p)

-- The last branch of `insert`: the new node goes behind the node at the index.
unfoldable pub insert_behind : DList → Heap → ℕ → ℤ → Option (DList × Heap)
insert_behind l h x p = do
  i ← get_node_at_index l h p
  n ← load h i
  h1 ← set_next h x n.next
  h2 ← set_prev h1 x i
  h3 ← set_prev h2 n.next x
  h4 ← set_next h3 i x
  some (l, h4)

unfoldable pub link_in : DList → Heap → ℕ → ℤ → Option (DList × Heap)
unfolding insert_at_front insert_at_back insert_behind
link_in l h x p =
    if l.head == 0
    then some (record l { head = x; tail = x }, h)
    else if eqb_ℤ p at_front
    then insert_at_front l h x
    else if eqb_ℤ p at_back
    then insert_at_back l h x
    else insert_behind l h x p

unfoldable pub insert : DList → Heap → ℕ → ℤ → Option (DList × Heap × Bool)
unfolding link_in is_member
insert l h x p =
    let linked = (do
      h0 ← init h x
      (l1, h1) ← link_in l h0 x p
      h2 ← set_container h1 x l.self
      some (record l1 { size = add_word l.size 1 }, h2, true)) in
    if not (x == 0) && (not (ltb_ℤ p at_back) && not (is_member l h x))
    then linked
    else some (l, h, false)

-- Unlinking in `remove( node )`: at an end, or between two nodes.
unfoldable pub link_out : DList → Heap → ℕ → Option (DList × Heap)
unfolding remove_front remove_back
link_out l h x =
    if x == l.head
    then (remove_front l h >>= λ (l', h', _). some (l', h'))
    else if x == l.tail
    then (remove_back l h >>= λ (l', h', _). some (l', h'))
    else (do
      n ← load h x
      h1 ← set_next h n.prev n.next
      h2 ← if n.next == 0 then some h1 else set_prev h1 n.next n.prev
      some (l, h2))

-- `remove( void * const )`
unfoldable pub remove : DList → Heap → ℕ → Option (DList × Heap × Bool)
unfolding link_out
remove l h x =
    let unlinked = (do
      (l1, h1) ← link_out l h x
      h2 ← set_container h1 x 0
      some (record l1 { size = sub_word l.size 1 }, h2, true)) in
    if not (x == 0) && (l.self == (h x).container) then unlinked else some (l, h, false)

-- The last branch of `remove( listPosition )`: the node behind the one at the index before.
unfoldable pub remove_behind : DList → Heap → ℤ → Option (DList × Heap × ℕ)
remove_behind l h p = do
  i ← get_node_at_index l h (pred_ℤ p)
  n ← load h i
  removed ← load h n.next
  h1 ← set_next h i removed.next
  h2 ← if removed.next == 0 then some h1 else set_prev h1 removed.next i
  some (l, h2, n.next)

unfoldable pub take_at : DList → Heap → ℤ → Option (DList × Heap × ℕ)
unfolding remove_front remove_back remove_behind
take_at l h p =
    if eqb_ℤ p at_front
    then remove_front l h
    else if eqb_ℤ p at_back
    then remove_back l h
    else remove_behind l h p

-- `remove( listPosition, void * const )`; the node taken out, 0 for none.
unfoldable pub remove_at : DList → Heap → ℤ → ℕ → Option (DList × Heap × ℕ)
unfolding take_at remove is_member
remove_at l h p x =
    let given = (remove l h x >>= λ (l', h', ok). some (l', h', if ok then x else 0)) in
    let placed = (do
      (l1, h1, removed) ← take_at l h p
      h2 ← set_container h1 removed 0
      some (record l1 { size = sub_word l1.size 1 }, h2, removed)) in
    if not (l.head == 0) && not (ltb_ℤ p at_back)
    then (if is_member l h x then given else placed)
    else some (l, h, 0)

unfoldable pub get_front : DList → ℕ
get_front l = l.head

unfoldable pub get_back : DList → ℕ
get_back l = l.tail

unfoldable pub is_empty : DList → Bool
is_empty l = l.head == 0

unfoldable pub length : DList → ℕ
length l = l.size
