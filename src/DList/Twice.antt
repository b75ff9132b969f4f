-- ===== src/DList/Twice.antt =====
-- `list::insert` and `list::remove` of the same node, one after the other.
use quark_ts_cpp.Prelude.Returns.{Returns, Returns-map}
use mathlib.Core.List.{append-nil}
use quark_ts_cpp.Prelude.{
  ℕ, ◌≡◌, ◌≢◌, inr, sym, ap, subst, ◌∙◌, true, false, some, List, [], ◌∷◌, ◌++◌,
}
use quark_ts_cpp.Prelude.Int.{ℤ}
use quark_ts_cpp.DList.{Heap, DList, at_back, insert, remove}
use quark_ts_cpp.DList.Links.{IsList, Linked, Linked-split}
use quark_ts_cpp.DList.Insert.{IsNew, Inserted, insert-at_back}
use quark_ts_cpp.DList.InsertFront.{insert_refused}
use quark_ts_cpp.DList.Remove.{Removed}
use quark_ts_cpp.DList.RemoveAny.{remove_lem, remove_refused}

-- The list owns the node at its end.
owned_last :
    {h : Heap} {l : DList} (xs : List ℕ) (x : ℕ)
    → IsList h l (xs ++ x ∷ [])
    → (h x).container ≡ l.self
unfolding Linked
owned_last {h} {l} xs x is =
    ap (λ n. n.container) (Linked-split h l.self 0 xs (x ∷ []) 0 is.links).1.1

-- A node put in at the back is not put in again, at any position: the second call fails and changes
-- nothing.
pub insert-insert :
    {h : Heap} {l : DList} (xs : List ℕ) (x : ℕ) (p : ℤ)
    → IsList h l xs
    → IsNew h l xs x
    → Returns (λ r. insert r.0 r.1 x p ≡ some (r.0, r.1, false)) (insert l h x at_back)
insert-insert {h} {l} xs x p is n =
    Returns-map (Inserted h l x xs (xs ++ x ∷ [])) _ (insert l h x at_back)
      (λ r i. insert_refused r.1 r.0 x p (inr (owned_last xs x i.1))) (insert-at_back xs x is n)

-- A node that was taken out is not taken out again: the second call fails and changes nothing.
pub remove-remove :
    {h : Heap} {l : DList} (before : List ℕ) (x : ℕ) (after : List ℕ)
    → l.self ≢ 0
    → IsList h l (before ++ x ∷ after)
    → Returns (λ r. remove r.0 r.1 x ≡ some (r.0, r.1, false)) (remove l h x)
remove-remove {h} {l} before x after s is =
    Returns-map (Removed h l x (before ++ x ∷ after) (before ++ after)) _ (remove l h x)
      (λ r d. remove_refused r.1 r.0 x (inr (λ e. s (sym (sym d.3 ∙ e ∙ d.2)))))
      (remove_lem before x after is)

-- To put a node in at the back and take it out again leaves the list as it was.
pub remove-insert :
    {h : Heap} {l : DList} (xs : List ℕ) (x : ℕ)
    → IsList h l xs
    → IsNew h l xs x
    → Returns
        (λ r. Returns (λ t. (t.2 ≡ true) × IsList t.1 t.0 xs) (remove r.0 r.1 x))
        (insert l h x at_back)
remove-insert {h} {l} xs x is n =
    Returns-map (Inserted h l x xs (xs ++ x ∷ [])) _ (insert l h x at_back)
      (λ r i.
        Returns-map (Removed r.1 r.0 x (xs ++ x ∷ []) (xs ++ [])) _ (remove r.0 r.1 x)
          (λ t d. (d.0, subst (IsList t.1 t.0) (append-nil xs) d.1)) (remove_lem xs x [] i.1))
      (insert-at_back xs x is n)
