-- ===== src/DList/Remove.antt =====
-- `list::remove` of a node between two others.
use quark_ts_cpp.Prelude.Returns.{Returns}
use quark_ts_cpp.Prelude.{
  ℕ, suc, ◌≡◌, ◌≢◌, refl, sym, ◌∙◌, Bool, true, some, List, ◌∷◌, ◌++◌, arith, length, All, last_or,
  All-split, length-append, last_or-append,
}
use quark_ts_cpp.Prelude.Word.{sub_word}
use quark_ts_cpp.DList.{Heap, DList, write, remove}
use quark_ts_cpp.DList.Links.{
  head_or, node, ◌∉◌, Distinct, Disjoint, Linked, IsList, SameOutside, Linked-write, Linked-append,
  Linked-split, Linked-set_next, Linked-set_prev, Linked-real, All-last, Distinct-split,
  Distinct-append, not-mem_of_Disjoint,
}

abbrev pub Removed : Heap → DList → ℕ → List ℕ → List ℕ → DList × Heap × Bool → Type 0
Removed h l x xs ys (l', g, done) =
    (done ≡ true) × IsList g l' ys × (l'.self ≡ l.self) × ((g x).container ≡ 0) × SameOutside xs h g

-- What is known of a node `x` between the nodes `before` and `after` of a list.
pub record Parts (h : Heap) (s : ℕ) (before : List ℕ) (x : ℕ) (after : List ℕ) : Type 0 where
  pub links_before : Linked h s 0 before x
  pub real : x ≢ 0
  pub here : h x ≡ node (head_or 0 after) (last_or 0 before) s
  pub links_after : Linked h s x after 0
  pub distinct_before : Distinct before
  pub distinct_after : Distinct after
  pub not_before : x ∉ before
  pub not_after : x ∉ after
  pub disjoint : Disjoint before after

pub parts :
    {h : Heap} {l : DList} (before : List ℕ) (x : ℕ) (after : List ℕ)
    → IsList h l (before ++ x ∷ after)
    → Parts h l.self before x after
unfolding Linked
parts {h} {l} before x after is =
    let (a, b) = Linked-split h l.self 0 before (x ∷ after) 0 is.links in
    let (d, e, f) = Distinct-split before (x ∷ after) is.distinct in
    let (o, c) = not-mem_of_Disjoint before x after f in
    record {
      links_before = a;
      real = b.0;
      here = b.1;
      links_after = b.2;
      distinct_before = d;
      distinct_after = e.1;
      not_before = o;
      not_after = e.0;
      disjoint = c;
    }

shorter :
    (before : List ℕ) (x : ℕ) (after : List ℕ)
    → length (before ++ x ∷ after) ≡ suc (length (before ++ after))
shorter before x after = omega (arith, length-append before (x ∷ after), length-append before after)

-- A node between `a ∷ as` and `y ∷ ys`: the writes in order.
module _ (h : Heap) (p x y : ℕ) where
  abbrev over : Heap
  over = write h p (record (h p) { next = y })

  abbrev back : Heap
  back = write over y (record (over y) { prev = p })

  abbrev pub freed : Heap → Heap
  freed g = write g x (record (g x) { container = 0 })

remove_middle_eq :
    (h : Heap) (l : DList) (p x y : ℕ)
    → x ≢ 0
    → p ≢ 0
    → y ≢ 0
    → x ≢ l.head
    → x ≢ l.tail
    → h x ≡ node y p l.self
    → remove l h x
      ≡ some (record l { size = sub_word l.size 1 }, freed h p x y (back h p x y), true)
unfolding remove
remove_middle_eq h l p x y a b c d e f = ground arith

pub remove_middle :
    {h : Heap} {l : DList} (a : ℕ) (as' : List ℕ) (x y : ℕ) (ys : List ℕ)
    → IsList h l ((a ∷ as') ++ x ∷ (y ∷ ys))
    → Returns (Removed h l x ((a ∷ as') ++ x ∷ (y ∷ ys)) ((a ∷ as') ++ y ∷ ys)) (remove l h x)
remove_middle {h} {l} a as' x y ys is =
    rw (remove_middle_eq h l p x y d.real p_real y_real not_head not_tail d.here) (
      refl,
      record {
        head_at = is.head_at;
        tail_at =
            is.tail_at
            ∙ last_or-append 0 x (a ∷ as') (y ∷ ys)
            ∙ sym (last_or-append 0 y (a ∷ as') ys);
        size_at = omega (arith, is.size_at, is.small, shorter (a ∷ as') x (y ∷ ys));
        small = omega (arith, is.small, shorter (a ∷ as') x (y ∷ ys));
        links =
            Linked-append (freed h p x y (back h p x y)) l.self 0 (a ∷ as') (y ∷ ys) 0 first second;
        distinct = Distinct-append (a ∷ as') (y ∷ ys) d.distinct_before d.distinct_after d.disjoint;
      },
      refl,
      unfold write in ground arith,
      same,
    )
  where
    d : Parts h l.self (a ∷ as') x (y ∷ ys)
    d = parts (a ∷ as') x (y ∷ ys) is

    p : ℕ
    p = last_or a as'

    real : All (λ z. z ≢ 0) (a ∷ as')
    real = Linked-real h l.self 0 (a ∷ as') x d.links_before

    p_real : p ≢ 0
    p_real = All-last _ a as' real.0 real.1

    y_real : y ≢ 0
    y_real = (Linked-real h l.self x (y ∷ ys) 0 d.links_after).0

    not_head : x ≢ l.head
    not_head = rw is.head_at (λ e. d.not_before.0 (sym e))

    not_tail : x ≢ l.tail
    not_tail e =
        All-last (λ z. z ≢ x) y ys d.not_after.0 d.not_after.1
          (sym (e ∙ is.tail_at ∙ last_or-append 0 x (a ∷ as') (y ∷ ys)))

    p_apart : p ∉ (y ∷ ys)
    p_apart = All-last (λ z. z ∉ (y ∷ ys)) a as' d.disjoint.0 d.disjoint.1

    first : Linked (freed h p x y (back h p x y)) l.self 0 (a ∷ as') y
    first = Linked-write _ l.self 0 (a ∷ as') y x _ d.not_before (
        Linked-write _ l.self 0 (a ∷ as') y y _ (not-mem_of_Disjoint (a ∷ as') y ys d.disjoint).0
          (Linked-set_next h l.self 0 a as' x y d.distinct_before d.links_before))

    second : Linked (freed h p x y (back h p x y)) l.self p (y ∷ ys) 0
    second = Linked-write _ l.self p (y ∷ ys) 0 x _ d.not_after (
        Linked-set_prev (over h p x y) l.self x y ys 0 p d.distinct_after
          (Linked-write h l.self x (y ∷ ys) 0 p _ p_apart d.links_after))

    same : SameOutside ((a ∷ as') ++ x ∷ (y ∷ ys)) h (freed h p x y (back h p x y))
    same z o =
        let (o1, o2) = All-split _ (a ∷ as') (x ∷ (y ∷ ys)) o in
        let e : p ≢ z = All-last (λ b. b ≢ z) a as' o1.0 o1.1 in
        unfold write in ground (arith, o2.0, o2.1.0)
