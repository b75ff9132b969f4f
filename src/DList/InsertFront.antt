-- ===== src/DList/InsertFront.antt =====
-- `list::insert` at the front, and where it fails.
use quark_ts_cpp.Prelude.Returns.{Returns}
use quark_ts_cpp.Prelude.{
  ℕ, ◌≡◌, ◌≢◌, refl, sym, ap, subst, ◌∙◌, true, false, none, ◌⊎◌, ◌≤◌, List, [], ◌∷◌, arith, length,
  All, last_or, some,
}
use quark_ts_cpp.Prelude.Word.{add_word}
use quark_ts_cpp.Prelude.Int.{ℤ, pos}
use quark_ts_cpp.DList.{Heap, DList, at_front, at_back, write, insert, get_node_at_index}
use quark_ts_cpp.DList.Links.{
  node, Linked, IsList, SameOutside, Linked-write, Linked-real, Linked-last, node_from-last,
  Linked-set_prev,
}
use quark_ts_cpp.DList.Insert.{blank, IsNew, Inserted, insert_back_nil}

-- The writes of `insert` at the front of a list that is not empty, in order.
module _ (h : Heap) (l : DList) (x : ℕ) where
  abbrev pushed : Heap
  pushed =
      let h1 = write (blank h l x) x (record (blank h l x x) { next = l.head }) in
      let h2 = write h1 l.head (record (h1 l.head) { prev = x }) in
      write h2 x (record (h2 x) { container = l.self })

  insert_front_eq :
      x ≢ 0
      → l.head ≢ 0
      → (h x).container ≢ l.self
      → insert l h x at_front ≡ some (record l { head = x; size = add_word l.size 1 }, pushed, true)
  unfolding insert
  insert_front_eq a b c = ground arith

insert_front_nil :
    {h : Heap} {l : DList} (x : ℕ) → IsList h l [] → insert l h x at_front ≡ insert l h x at_back
unfolding insert
insert_front_nil x is = ground (arith, is.head_at)

insert_front_cons :
    {h : Heap} {l : DList} {y : ℕ} {ys : List ℕ} (x : ℕ)
    → IsList h l (y ∷ ys)
    → IsNew h l (y ∷ ys) x
    → Returns (Inserted h l x (y ∷ ys) (x ∷ (y ∷ ys))) (insert l h x at_front)
insert_front_cons {h} {l} {y} {ys} x is n = rw (insert_front_eq h l x n.real head_real n.free) (
  refl,
  record {
    head_at = refl;
    tail_at = is.tail_at;
    size_at = omega (arith, is.size_at, n.room);
    small = omega (arith, n.room);
    links = unfold Linked in (n.real, here, behind);
    distinct = (n.apart, is.distinct);
  },
  refl,
  same,
)
  where
    real : All (λ z. z ≢ 0) (y ∷ ys)
    real = Linked-real h l.self 0 (y ∷ ys) 0 is.links

    head_real : l.head ≢ 0
    head_real = rw is.head_at real.0

    head_apart : l.head ≢ x
    head_apart = rw is.head_at n.apart.0

    here : pushed h l x x ≡ node y 0 l.self
    here =
        ◌∙◌ {b = node l.head 0 l.self} (unfold write in ground arith)
          (ap (λ t. node t 0 l.self) is.head_at)

    h1 : Heap
    h1 = write (blank h l x) x (record (blank h l x x) { next = l.head })

    step : Linked h1 l.self 0 (y ∷ ys) 0
    step =
        Linked-write _ l.self 0 (y ∷ ys) 0 x _ n.apart
          (Linked-write h l.self 0 (y ∷ ys) 0 x _ n.apart is.links)

    behind : Linked (pushed h l x) l.self x (y ∷ ys) 0
    behind = Linked-write _ l.self x (y ∷ ys) 0 x _ n.apart (
        subst (λ t. Linked (write h1 t (record (h1 t) { prev = x })) l.self x (y ∷ ys) 0)
          (sym is.head_at) (Linked-set_prev h1 l.self 0 y ys 0 x is.distinct step))

    same : SameOutside (x ∷ (y ∷ ys)) h (pushed h l x)
    same a o = let other : l.head ≢ a = rw is.head_at o.1.0 in unfold write in ground (arith, o.0)

-- `insert` at the front of a list puts a node that is in no list before the others, and writes only to it and to nodes of the
-- list.
pub insert-at_front :
    {h : Heap} {l : DList} (xs : List ℕ) (x : ℕ)
    → IsList h l xs
    → IsNew h l xs x
    → Returns (Inserted h l x xs (x ∷ xs)) (insert l h x at_front)
insert-at_front [] x is n = rw (insert_front_nil x is) (insert_back_nil x is n)
insert-at_front (y ∷ ys) x is n = insert_front_cons x is n

-- A node that the list owns already, or the null pointer, is refused, and nothing changes.
pub insert_refused :
    (h : Heap) (l : DList) (x : ℕ) (p : ℤ)
    → (x ≡ 0) ⊎ ((h x).container ≡ l.self)
    → insert l h x p ≡ some (l, h, false)
unfolding insert
insert_refused h l x p r = ground arith

-- At an index from the last one on, `insert` writes through the null `next` of the last node.
pub insert_last_faults :
    {h : Heap} {l : DList} (x i y : ℕ) (ys : List ℕ)
    → IsList h l (y ∷ ys)
    → IsNew h l (y ∷ ys) x
    → length ys ≤ i
    → insert l h x (pos i) ≡ none
unfolding insert
insert_last_faults {h} {l} x i y ys is n le =
    ground (arith, found, at_end, n.real, n.free, real.0, is.head_at)
  where
    real : All (λ z. z ≢ 0) (y ∷ ys)
    real = Linked-real h l.self 0 (y ∷ ys) 0 is.links

    step : Linked (blank h l x) l.self 0 (y ∷ ys) 0
    step = Linked-write h l.self 0 (y ∷ ys) 0 x _ n.apart is.links

    found : get_node_at_index l (blank h l x) (pos i) ≡ some (last_or y ys)
    found =
        unfold get_node_at_index in
        rw is.head_at (node_from-last (blank h l x) l.self 0 y ys i step le)

    at_end : (blank h l x (last_or y ys)).next ≡ 0
    at_end = Linked-last (blank h l x) l.self 0 y ys 0 step
