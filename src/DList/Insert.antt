-- ===== src/DList/Insert.antt =====
-- `list::insert` at the back.
use quark_ts_cpp.Prelude.Returns.{Returns}
use quark_ts_cpp.Prelude.{
  ℕ, ◌+◌, ◌<◌, ◌≡◌, ◌≢◌, refl, sym, ap, subst, ◌∙◌, Bool, true, List, [], ◌∷◌, ◌++◌, arith, length,
  All, last_or, All-append, length-append, last_or-append, some,
}
use quark_ts_cpp.Prelude.Word.{modulus, add_word}
use quark_ts_cpp.DList.{Heap, DList, at_back, write, insert}
use quark_ts_cpp.DList.Links.{
  node, ◌∉◌, Distinct, Linked, IsList, SameOutside, Linked-write, Linked-append, Linked-set_next,
  Linked-real, All-last,
}

-- The writes of `insert` at the back of a list that is not empty, in order.
module _ (h : Heap) (l : DList) (x : ℕ) where
  abbrev pub blank : Heap
  blank = write h x (node 0 0 0)

  abbrev tied : Heap
  tied = write blank l.tail (record (blank l.tail) { next = x })

  abbrev tied_back : Heap
  tied_back = write tied x (record (tied x) { prev = l.tail })

  abbrev owned : Heap
  owned = write tied_back x (record (tied_back x) { container = l.self })

  insert_back_eq :
      x ≢ 0
      → l.head ≢ 0
      → l.tail ≢ 0
      → (h x).container ≢ l.self
      → insert l h x at_back ≡ some (record l { tail = x; size = add_word l.size 1 }, owned, true)
  unfolding insert
  insert_back_eq a b c d = ground arith

-- What a new node `x` brings: it is not null, is none of the nodes of `l`, does not name `l` as its
-- container, and the count of nodes stays below 2^32.
pub record IsNew (h : Heap) (l : DList) (xs : List ℕ) (x : ℕ) : Type 0 where
  pub real : x ≢ 0
  pub apart : x ∉ xs
  pub free : (h x).container ≢ l.self
  pub room : length xs + 1 < modulus

pub Distinct-snoc : (xs : List ℕ) (x : ℕ) → Distinct xs → x ∉ xs → Distinct (xs ++ x ∷ [])
Distinct-snoc [] x d o = (tt, tt)
Distinct-snoc (y ∷ ys) x d o =
    (All-append _ ys (x ∷ []) d.0 ((λ e. o.0 (sym e)), tt), Distinct-snoc ys x d.1 o.1)

abbrev pub Inserted : Heap → DList → ℕ → List ℕ → List ℕ → DList × Heap × Bool → Type 0
Inserted h l x xs ys (l', g, done) =
    (done ≡ true) × IsList g l' ys × (l'.self ≡ l.self) × SameOutside (x ∷ xs) h g

pub insert_back_nil :
    {h : Heap} {l : DList} (x : ℕ)
    → IsList h l []
    → IsNew h l [] x
    → Returns (Inserted h l x [] (x ∷ [])) (insert l h x at_back)
unfolding insert Linked write
insert_back_nil {h} {l} x is n = rw (eq) (
  refl,
  record {
    head_at = refl;
    tail_at = refl;
    size_at = omega (arith, is.size_at);
    small = omega arith;
    links = (n.real, ground arith, tt);
    distinct = (tt, tt);
  },
  refl,
  λ a o. ground (arith, o.0),
)
  where
    eq :
        insert l h x at_back
        ≡ some (
          record l { head = x; tail = x; size = add_word l.size 1 },
          write (blank h l x) x (record (blank h l x x) { container = l.self }),
          true,
        )
    eq = ground (arith, n.real, n.free, is.head_at)

insert_back_cons :
    {h : Heap} {l : DList} {y : ℕ} {ys : List ℕ} (x : ℕ)
    → IsList h l (y ∷ ys)
    → IsNew h l (y ∷ ys) x
    → Returns (Inserted h l x (y ∷ ys) (y ∷ (ys ++ x ∷ []))) (insert l h x at_back)
insert_back_cons {h} {l} {y} {ys} x is n =
    rw (insert_back_eq h l x n.real head_real tail_real n.free) (
      refl,
      record {
        head_at = is.head_at;
        tail_at = sym (last_or-append y x ys []);
        size_at = omega (arith, is.size_at, n.room, length-append ys (x ∷ []));
        small = omega (arith, n.room, length-append ys (x ∷ []));
        links =
            Linked-append (owned h l x) l.self 0 (y ∷ ys) (x ∷ []) 0 before
              (unfold Linked in (n.real, here, tt));
        distinct = Distinct-snoc (y ∷ ys) x is.distinct n.apart;
      },
      refl,
      same,
    )
  where
    real : All (λ z. z ≢ 0) (y ∷ ys)
    real = Linked-real h l.self 0 (y ∷ ys) 0 is.links

    head_real : l.head ≢ 0
    head_real = rw is.head_at real.0

    tail_real : l.tail ≢ 0
    tail_real = rw is.tail_at (All-last _ y ys real.0 real.1)

    tail_apart : l.tail ≢ x
    tail_apart = rw is.tail_at (All-last _ y ys n.apart.0 n.apart.1)

    here : owned h l x x ≡ node 0 (last_or y ys) l.self
    here =
        ◌∙◌ {b = node 0 l.tail l.self} (unfold write in ground (arith, tail_apart))
          (ap (λ t. node 0 t l.self) is.tail_at)

    step : Linked (blank h l x) l.self 0 (y ∷ ys) 0
    step = Linked-write h l.self 0 (y ∷ ys) 0 x _ n.apart is.links

    before : Linked (owned h l x) l.self 0 (y ∷ ys) x
    before = Linked-write _ l.self 0 (y ∷ ys) x x _ n.apart (
        Linked-write _ l.self 0 (y ∷ ys) x x _ n.apart (
          subst
            (λ t.
              Linked (write (blank h l x) t (record (blank h l x t) { next = x })) l.self 0 (y ∷ ys)
                x)
            (sym is.tail_at) (Linked-set_next (blank h l x) l.self 0 y ys 0 x is.distinct step)))

    same : SameOutside (x ∷ (y ∷ ys)) h (owned h l x)
    same a o =
        let other : l.tail ≢ a = rw is.tail_at (All-last _ y ys o.1.0 o.1.1) in
        unfold write in ground (arith, o.0)

-- `insert` at the back of a list puts a node that is in no list behind the others, and writes only to it and to nodes of the
-- list.
pub insert-at_back :
    {h : Heap} {l : DList} (xs : List ℕ) (x : ℕ)
    → IsList h l xs
    → IsNew h l xs x
    → Returns (Inserted h l x xs (xs ++ x ∷ [])) (insert l h x at_back)
insert-at_back [] x is n = insert_back_nil x is n
insert-at_back (y ∷ ys) x is n = insert_back_cons x is n
