-- ===== src/DList/Links.antt =====
-- The nodes of a list, linked both ways, and what a write to one of them does to the links.
use quark_ts_cpp.Prelude.{
  ℕ, zero, suc, ◌≤◌, ◌≡◌, ◌≢◌, refl, sym, ap, List, [], ◌∷◌, ◌++◌, arith, length, All, All-map,
  last_or, ◌<◌, All-append, All-split, some,
}
use quark_ts_cpp.Prelude.Word.{modulus}
use quark_ts_cpp.DList.{Node, Heap, DList, write, node_from}

abbrev pub head_or : ℕ → List ℕ → ℕ
head_or d [] = d
head_or d (x ∷ xs) = x

abbrev pub node : ℕ → ℕ → ℕ → Node
node next prev container = record { next = next; prev = prev; container = container }

-- `a` is none of the nodes.
infix 40 ◌∉◌
abbrev pub ◌∉◌ : ℕ → List ℕ → Type 0
a ∉ xs = All (λ y. y ≢ a) xs

abbrev pub Distinct : List ℕ → Type 0
Distinct [] = Unit
Distinct (x ∷ xs) = (x ∉ xs) × Distinct xs

-- The nodes `xs` of the list `s` are linked in order, from `prv` before them to `nxt` behind.
unfoldable pub Linked : Heap → ℕ → ℕ → List ℕ → ℕ → Type 0
Linked h s prv [] nxt = Unit
Linked h s prv (x ∷ xs) nxt = (x ≢ 0) × (h x ≡ node (head_or nxt xs) prv s) × Linked h s x xs nxt

pub record IsList (h : Heap) (l : DList) (xs : List ℕ) : Type 0 where
  pub head_at : l.head ≡ head_or 0 xs
  pub tail_at : l.tail ≡ last_or 0 xs
  pub size_at : l.size ≡ length xs
  pub small : length xs < modulus
  pub links : Linked h l.self 0 xs 0
  pub distinct : Distinct xs

-- No node of one list is a node of the other.
abbrev pub Disjoint : List ℕ → List ℕ → Type 0
Disjoint xs ys = All (λ a. a ∉ ys) xs

pub Distinct-split :
    (xs ys : List ℕ) → Distinct (xs ++ ys) → Distinct xs × Distinct ys × Disjoint xs ys
Distinct-split [] ys d = (tt, d, tt)
Distinct-split (x ∷ xs) ys d =
    let (a, b, c) = Distinct-split xs ys d.1 in
    let (o, p) = All-split _ xs ys d.0 in ((o, a), b, (p, c))

pub Distinct-append :
    (xs ys : List ℕ) → Distinct xs → Distinct ys → Disjoint xs ys → Distinct (xs ++ ys)
Distinct-append [] ys a b c = b
Distinct-append (x ∷ xs) ys a b c = (All-append _ xs ys a.0 c.0, Distinct-append xs ys a.1 b c.1)

-- A node of the second list is none of the first.
pub not-mem_of_Disjoint :
    (xs : List ℕ) (y : ℕ) (ys : List ℕ) → Disjoint xs (y ∷ ys) → (y ∉ xs) × Disjoint xs ys
not-mem_of_Disjoint xs y ys c =
    (All-map _ _ xs (λ a o e. o.0 (sym e)) c, All-map _ _ xs (λ a o. o.1) c)

-- `g` differs from `h` at most at the nodes of `xs`.
abbrev pub SameOutside : List ℕ → Heap → Heap → Type 0
SameOutside xs h g = (a : ℕ) → a ∉ xs → g a ≡ h a

-- What a computation that meets no null pointer returns.
pub All-last {ℓ} : (P : ℕ → Type ℓ) (x : ℕ) (xs : List ℕ) → P x → All P xs → P (last_or x xs)
All-last P x [] p a = p
All-last P x (y ∷ xs) p a = All-last P y xs a.0 a.1

module _ (h : Heap) (s : ℕ) where
  -- A write elsewhere leaves the links as they are.
  pub Linked-write :
      (prv : ℕ) (xs : List ℕ) (nxt a : ℕ) (n : Node)
      → a ∉ xs
      → Linked h s prv xs nxt
      → Linked (write h a n) s prv xs nxt
  unfolding Linked write
  Linked-write prv [] nxt a n o k = tt
  Linked-write prv (x ∷ xs) nxt a n o k =
      (k.0, ground (arith, o.0, k.1), Linked-write x xs nxt a n o.1 k.2)

  pub Linked-append :
      (prv : ℕ) (xs ys : List ℕ) (nxt : ℕ)
      → Linked h s prv xs (head_or nxt ys)
      → Linked h s (last_or prv xs) ys nxt
      → Linked h s prv (xs ++ ys) nxt
  unfolding Linked
  Linked-append prv [] ys nxt k m = m
  Linked-append prv (x ∷ []) ys nxt k m = (k.0, k.1, m)
  Linked-append prv (x ∷ (y ∷ xs)) ys nxt k m = (k.0, k.1, Linked-append x (y ∷ xs) ys nxt k.2 m)

  pub Linked-split :
      (prv : ℕ) (xs ys : List ℕ) (nxt : ℕ)
      → Linked h s prv (xs ++ ys) nxt
      → Linked h s prv xs (head_or nxt ys) × Linked h s (last_or prv xs) ys nxt
  unfolding Linked
  Linked-split prv [] ys nxt k = (tt, k)
  Linked-split prv (x ∷ []) ys nxt k = ((k.0, k.1, tt), k.2)
  Linked-split prv (x ∷ (y ∷ xs)) ys nxt k =
      let (a, b) = Linked-split x (y ∷ xs) ys nxt k.2 in ((k.0, k.1, a), b)

  -- The node at the end of the run gets another `next`.
  pub Linked-set_next :
      (prv x : ℕ) (xs : List ℕ) (nxt n : ℕ)
      → Distinct (x ∷ xs)
      → Linked h s prv (x ∷ xs) nxt
      → Linked (write h (last_or x xs) (record (h (last_or x xs)) { next = n })) s prv (x ∷ xs) n
  unfolding Linked write
  Linked-set_next prv x [] nxt n d k = (k.0, ground (arith, k.1), tt)
  Linked-set_next prv x (y ∷ xs) nxt n d k = (
    k.0,
    ground (arith, k.1, All-last (λ z. z ≢ x) y xs d.0.0 d.0.1),
    Linked-set_next x y xs nxt n d.1 k.2,
  )

  -- The node at the start of the run gets another `prev`.
  pub Linked-set_prev :
      (prv x : ℕ) (xs : List ℕ) (nxt p : ℕ)
      → Distinct (x ∷ xs)
      → Linked h s prv (x ∷ xs) nxt
      → Linked (write h x (record (h x) { prev = p })) s p (x ∷ xs) nxt
  unfolding Linked
  Linked-set_prev prv x xs nxt p d k =
      (k.0, unfold write in ground (arith, k.1), Linked-write x xs nxt x _ d.0 k.2)

  pub Linked-real : (prv : ℕ) (xs : List ℕ) (nxt : ℕ) → Linked h s prv xs nxt → All (λ y. y ≢ 0) xs
  unfolding Linked
  Linked-real prv [] nxt k = tt
  Linked-real prv (x ∷ xs) nxt k = (k.0, Linked-real x xs nxt k.2)

  -- The last node's `next`.
  pub Linked-last :
      (prv x : ℕ) (xs : List ℕ) (nxt : ℕ)
      → Linked h s prv (x ∷ xs) nxt
      → (h (last_or x xs)).next ≡ nxt
  unfolding Linked
  Linked-last prv x [] nxt k = ap (λ n. n.next) k.1
  Linked-last prv x (y ∷ xs) nxt k = Linked-last x y xs nxt k.2

  -- From the end of the list on, `getNodeAtIndex` gives the last node.
  pub node_from-last :
      (prv x : ℕ) (xs : List ℕ) (k : ℕ)
      → Linked h s prv (x ∷ xs) 0
      → length xs ≤ k
      → node_from h x k ≡ some (last_or x xs)
  unfolding node_from Linked
  node_from-last prv x [] zero l e = refl
  node_from-last prv x (y ∷ xs) zero l e = absurd (omega arith)
  node_from-last prv x [] (suc k) l e = ground (arith, l.0, l.1)
  node_from-last prv x (y ∷ xs) (suc k) l e =
      ground (arith, l.0, l.1, l.2.0, node_from-last x y xs k l.2)

  -- Below the end it gives the node with that many before it.
  pub node_from_lem :
      (prv x : ℕ) (xs : List ℕ) (y : ℕ) (ys : List ℕ)
      → Linked h s prv (x ∷ (xs ++ y ∷ ys)) 0
      → node_from h x (length xs) ≡ some (last_or x xs)
  unfolding node_from Linked
  node_from_lem prv x [] y ys l = refl
  node_from_lem prv x (z ∷ xs) y ys l =
      ground (arith, l.0, l.1, l.2.0, node_from_lem x z xs y ys l.2)
