-- ===== src/DList/RemoveAny.antt =====
-- `list::remove` of a node that stands at an end, and of any node.
use quark_ts_cpp.Prelude.Returns.{Returns}
use mathlib.Core.List.{append-nil}
use quark_ts_cpp.Prelude.{
  ℕ, ◌≡◌, ◌≢◌, ◌⊎◌, refl, sym, subst, ◌∙◌, true, false, some, List, [], ◌∷◌, ◌++◌, arith, All,
  last_or, All-split, length-append, last_or-append,
}
use quark_ts_cpp.Prelude.Word.{sub_word}
use quark_ts_cpp.DList.{Heap, DList, write, remove}
use quark_ts_cpp.DList.Links.{
  Linked, IsList, SameOutside, Linked-write, Linked-set_next, Linked-set_prev, Linked-real,
  All-last,
}
use quark_ts_cpp.DList.Remove.{Removed, Parts, parts, freed, remove_middle}

remove_only :
    {h : Heap} {l : DList} (x : ℕ)
    → IsList h l (x ∷ [])
    → Returns (Removed h l x (x ∷ []) []) (remove l h x)
unfolding Linked
remove_only {h} {l} x is = rw eq (
  refl,
  record {
    head_at = refl;
    tail_at = refl;
    size_at = omega (arith, is.size_at);
    small = omega arith;
    links = tt;
    distinct = tt;
  },
  refl,
  unfold write in ground arith,
  λ a o. unfold write in ground (arith, o.0),
)
  where
    eq :
        remove l h x
        ≡ some (record l { head = 0; tail = 0; size = sub_word l.size 1 }, freed h 0 x 0 h, true)
    eq = unfold remove in ground (arith, is.links.0, is.links.1, is.head_at)

remove_first :
    {h : Heap} {l : DList} (x y : ℕ) (ys : List ℕ)
    → IsList h l (x ∷ (y ∷ ys))
    → Returns (Removed h l x (x ∷ (y ∷ ys)) (y ∷ ys)) (remove l h x)
unfolding Linked
remove_first {h} {l} x y ys is = rw eq (
  refl,
  record {
    head_at = refl;
    tail_at = is.tail_at;
    size_at = omega (arith, is.size_at, is.small);
    small = omega (arith, is.small);
    links = behind;
    distinct = is.distinct.1;
  },
  refl,
  unfold write in ground arith,
  λ a o. unfold write in ground (arith, o.0, o.1.0),
)
  where
    first : Heap
    first = write h y (record (h y) { prev = 0 })

    eq :
        remove l h x
        ≡ some (record l { head = y; size = sub_word l.size 1 }, freed h 0 x y first, true)
    eq = unfold remove in ground (arith, is.links.0, is.links.1, is.links.2.0, is.head_at)

    behind : Linked (freed h 0 x y first) l.self 0 (y ∷ ys) 0
    behind =
        Linked-write _ l.self 0 (y ∷ ys) 0 x _ is.distinct.0
          (Linked-set_prev h l.self x y ys 0 0 is.distinct.1 is.links.2)

remove_last :
    {h : Heap} {l : DList} (a : ℕ) (as' : List ℕ) (x : ℕ)
    → IsList h l ((a ∷ as') ++ x ∷ [])
    → Returns (Removed h l x ((a ∷ as') ++ x ∷ []) (a ∷ as')) (remove l h x)
remove_last {h} {l} a as' x is = rw eq (
  refl,
  record {
    head_at = is.head_at;
    tail_at = refl;
    size_at = omega (arith, is.size_at, is.small, length-append (a ∷ as') (x ∷ []));
    small = omega (arith, is.small, length-append (a ∷ as') (x ∷ []));
    links = first;
    distinct = d.distinct_before;
  },
  refl,
  unfold write in ground arith,
  same,
)
  where
    d : Parts h l.self (a ∷ as') x []
    d = parts (a ∷ as') x [] is

    p : ℕ
    p = last_or a as'

    real : All (λ z. z ≢ 0) (a ∷ as')
    real = Linked-real h l.self 0 (a ∷ as') x d.links_before

    p_real : p ≢ 0
    p_real = All-last _ a as' real.0 real.1

    at_end : l.tail ≡ x
    at_end = is.tail_at ∙ last_or-append 0 x (a ∷ as') []

    not_head : x ≢ l.head
    not_head = rw is.head_at (λ e. d.not_before.0 (sym e))

    last : Heap
    last = write h p (record (h p) { next = 0 })

    eq :
        remove l h x
        ≡ some (record l { tail = p; size = sub_word l.size 1 }, freed h p x 0 last, true)
    eq = unfold remove in ground (arith, d.real, d.here, at_end, not_head, p_real)

    first : Linked (freed h p x 0 last) l.self 0 (a ∷ as') 0
    first =
        Linked-write _ l.self 0 (a ∷ as') 0 x _ d.not_before
          (Linked-set_next h l.self 0 a as' x 0 d.distinct_before d.links_before)

    same : SameOutside ((a ∷ as') ++ x ∷ []) h (freed h p x 0 last)
    same z o =
        let (o1, o2) = All-split _ (a ∷ as') (x ∷ []) o in
        let e : p ≢ z = All-last (λ b. b ≢ z) a as' o1.0 o1.1 in
        unfold write in ground (arith, o2.0)

-- `remove` takes a node of the list out, wherever it stands: the others stay linked in their order,
-- the node is in no list, and no node of another list is written.
pub remove_lem :
    {h : Heap} {l : DList} (before : List ℕ) (x : ℕ) (after : List ℕ)
    → IsList h l (before ++ x ∷ after)
    → Returns (Removed h l x (before ++ x ∷ after) (before ++ after)) (remove l h x)
remove_lem [] x [] is = remove_only x is
remove_lem [] x (y ∷ ys) is = remove_first x y ys is
remove_lem {h} {l} (a ∷ as') x [] is =
    subst (λ zs. Returns (Removed h l x ((a ∷ as') ++ x ∷ []) zs) (remove l h x))
      (sym (append-nil (a ∷ as'))) (remove_last a as' x is)
remove_lem (a ∷ as') x (y ∷ ys) is = remove_middle a as' x y ys is

-- The null pointer and a node that the list does not own are not removed, and nothing changes.
pub remove_refused :
    (h : Heap) (l : DList) (x : ℕ)
    → (x ≡ 0) ⊎ ((h x).container ≢ l.self)
    → remove l h x ≡ some (l, h, false)
unfolding remove
remove_refused h l x r = ground arith
