-- ===== src/Pool/Joining.antt =====
-- `insertBlockIntoFreeList` on the list of the free blocks.
use quark_ts_cpp.Prelude.Returns.{Returns}
use quark_ts_cpp.Prelude.{
  ℕ, ◌+◌, ◌<◌, ◌≤◌, ◌≡◌, ◌≢◌, refl, sym, ap, ◌∙◌, not, List, [], ◌∷◌, arith, All, some, ◌==◌, ltb,
  if◌then◌else◌, ◌>>=◌, Bool-cases, inl, inr,
}
use quark_ts_cpp.Prelude.Word.{modulus}
use quark_ts_cpp.Pool.{Block, put, join_up, join_down, insert_at}

-- Where a block begins, and its bytes.
abbrev pub Extent : Type 0
Extent = ℕ × ℕ

abbrev pub block : ℕ → ℕ → Block
block n s = record { next = n; block_size = s }

abbrev pub head_of : List Extent → ℕ → ℕ
head_of [] e = e
head_of (b ∷ bs) e = b.0

-- The headers of the heap link these blocks, up to `e`.
abbrev pub Nodes : (ℕ → Block) → List Extent → ℕ → Type 0
Nodes h [] e = Unit
Nodes h ((a, k) ∷ bs) e = (h a ≡ block (head_of bs e) k) × Nodes h bs e

-- The blocks stand in order from `lo` to `e`, none empty and with bytes of others between them.
abbrev pub Fits : ℕ → List Extent → ℕ → Type 0
Fits lo [] e = lo ≤ e
Fits lo ((b, n) ∷ bs) e = (lo < b) × (0 < n) × Fits (b + n) bs e

abbrev pub Other : ℕ → List Extent → Type 0
Other a bs = All (λ b. b.0 ≢ a) bs

-- The block `(a, k)` takes the first block of `cs` when they touch.
unfoldable pub attach : ℕ → ℕ → List Extent → List Extent
attach a k [] = (a, k) ∷ []
attach a k ((c, l) ∷ cs) = if a + k == c then (a, k + l) ∷ cs else (a, k) ∷ (c, l) ∷ cs

unfoldable pub merge : ℕ → ℕ → ℕ → ℕ → List Extent → List Extent
unfolding attach
merge a k x m cs = if a + k == x then attach a (k + m) cs else (a, k) ∷ attach x m cs

-- The list that begins with the block `(a, k)`, with the block `(x, m)` at its place.
unfoldable pub rejoin : ℕ → ℕ → List Extent → ℕ → ℕ → List Extent
unfolding merge
rejoin a k [] x m = merge a k x m []
rejoin a k ((c, l) ∷ cs) x m =
    let rest = rejoin c l cs x m in if ltb c x then (a, k) ∷ rest else merge a k x m ((c, l) ∷ cs)

pub Fits-end : (bs : List Extent) (lo e : ℕ) → Fits lo bs e → lo ≤ e
Fits-end [] lo e f = f
Fits-end ((b, n) ∷ bs) lo e f = omega (arith, f.0, Fits-end bs (b + n) e f.2)

pub Fits-Other : (bs : List Extent) (lo a e : ℕ) → Fits lo bs e → a ≤ lo → Other a bs
Fits-Other [] lo a e f l = tt
Fits-Other ((b, n) ∷ bs) lo a e f l =
    ((λ q. omega (arith, f.0, q)), Fits-Other bs (b + n) a e f.2 (omega (arith, f.0)))

pub Nodes-put :
    (h : ℕ → Block) (x : ℕ) (v : Block) (bs : List Extent) (e : ℕ)
    → Other x bs
    → Nodes h bs e
    → Nodes (put h x v) bs e
unfolding put
Nodes-put h x v [] e o n = tt
Nodes-put h x v ((b, k) ∷ bs) e o n = (ground (arith, o.0, n.0), Nodes-put h x v bs e o.1 n.1)

attach-Other : (a x m : ℕ) (cs : List Extent) → x ≢ a → Other a cs → Other a (attach x m cs)
unfolding attach
attach-Other a x m [] q o = (q, tt)
attach-Other a x m ((c, l) ∷ cs) q o = elim (Bool-cases (x + m == c)) [
  | inl t ↦ rw (t) (q, o.1)
  | inr t ↦ rw (t) (q, o)
]

-- The header of the first block of `attach x m cs`.
unfoldable lead : ℕ → ℕ → List Extent → ℕ → Block
lead x m [] e = block e m
lead x m ((c, l) ∷ cs) e = if x + m == c then block (head_of cs e) (m + l) else block c m

attach-Nodes :
    (h : ℕ → Block) (x m : ℕ) (cs : List Extent) (e : ℕ)
    → Other x cs
    → Nodes h cs e
    → Nodes (put h x (lead x m cs e)) (attach x m cs) e × (head_of (attach x m cs) e ≡ x)
unfolding attach lead put
attach-Nodes h x m [] e o n = ((ground arith, tt), refl)
attach-Nodes h x m ((c, l) ∷ cs) e o n = elim (Bool-cases (x + m == c)) [
  | inl q ↦ rw (q) ((ground arith, Nodes-put h x (block (head_of cs e) (m + l)) cs e o.1 n.1), refl)
  | inr q ↦ rw (q) ((ground arith, Nodes-put h x (block c m) ((c, l) ∷ cs) e o n), refl)
]

join_down_lem :
    (h : ℕ → Block) (lo x m : ℕ) (cs : List Extent) (e : ℕ)
    → Nodes h cs e
    → Fits lo cs e
    → e < modulus
    → x + m ≤ e
    → 0 < x
    → 0 < m
    → (h x).block_size ≡ m
    → join_down h e (head_of cs e) x ≡ some (put h x (lead x m cs e))
unfolding join_down lead
join_down_lem h lo x m [] e n f s b xp mp q = ground (arith, q)
join_down_lem h lo x m ((c, l) ∷ cs) e n f s b xp mp q =
    ground (arith, q, n.0, f.0, f.1, Fits-end cs (c + l) e f.2)

-- What `insertBlockIntoFreeList` relies on: the list begins at `a`, and the block `x` is outside it.
pub record Joins (h : ℕ → Block) (a k x m : ℕ) (cs : List Extent) (e : ℕ) : Type 0 where
  pub nodes : Nodes h ((a, k) ∷ cs) e
  pub from : ℕ
  pub fits : Fits from cs e
  pub apart : a ≢ x
  pub other : Other x cs
  pub alone : Other a cs
  pub sized : (h x).block_size ≡ m
  pub below : x + m ≤ e
  pub small : e < modulus
  pub real : 0 < a
  pub real_block : 0 < x
  pub filled : 0 < m
  pub inside : a + k < modulus

-- The list `l` is in the heap `g`, and no header but that of `x` and of the blocks has changed.
abbrev pub Joined : (ℕ → Block) → ℕ → ℕ → List Extent → ℕ → List Extent → (ℕ → Block) → Type 0
Joined h a x cs e l g =
    Nodes g l e × (head_of l e ≡ a) × ((b : ℕ) → b ≢ x → b ≢ a → Other b cs → g b ≡ h b)

insert_at_eq :
    (h h1 h2 : ℕ → Block) (e a x x1 : ℕ)
    → join_up h a x ≡ (h1, x1)
    → join_down h1 e (h1 a).next x1 ≡ some h2
    → insert_at h e a x
      ≡ some (if not (a == x1) then put h2 a (record (h2 a) { next = x1 }) else h2)
unfolding insert_at
insert_at_eq h h1 h2 e a x x1 p q = rw (p) (
    ap (λ o. o >>= λ g. some (if not (a == x1) then put g a (record (g a) { next = x1 }) else g)) q)

module _ {h : ℕ → Block} {a k x m : ℕ} {cs : List Extent} {e : ℕ} (j : Joins h a k x m cs e) where
  abbrev grown : ℕ → Block
  grown = put h a (block (head_of cs e) (k + m))

  grown_next : grown a ≡ block (head_of cs e) (k + m)
  unfolding put
  grown_next = ground arith

  kept_size : (put h x (lead x m cs e) a).block_size ≡ k
  unfolding put
  kept_size = ground (arith, j.apart, ap (λ b. b.block_size) j.nodes.0)

  join_up_touching : a + k ≡ x → join_up h a x ≡ (grown, a)
  unfolding join_up
  join_up_touching q = rw (j.nodes.0, j.sized) (ground (arith, q, j.inside, j.below, j.small))

  join_up_apart : a + k ≢ x → join_up h a x ≡ (h, x)
  unfolding join_up
  join_up_apart q = rw (j.nodes.0) (ground (arith, q, j.inside))

  insert_touching : a + k ≡ x → insert_at h e a x ≡ some (put grown a (lead a (k + m) cs e))
  insert_touching q =
      insert_at_eq h grown (put grown a (lead a (k + m) cs e)) e a x a (join_up_touching q) (
        rw (grown_next) (
          join_down_lem grown j.from a (k + m) cs e
            (Nodes-put h a (block (head_of cs e) (k + m)) cs e j.alone j.nodes.1) j.fits j.small
            (omega (arith, q, j.below)) j.real (omega (arith, j.filled))
            (ap (λ b. b.block_size) grown_next)))
      ∙ ground arith

  insert_apart : a + k ≢ x → insert_at h e a x ≡ some (put (put h x (lead x m cs e)) a (block x k))
  insert_apart q =
      insert_at_eq h h (put h x (lead x m cs e)) e a x x (join_up_apart q) (
        rw (j.nodes.0) (
          join_down_lem h j.from x m cs e j.nodes.1 j.fits j.small j.below j.real_block j.filled
            j.sized))
      ∙ rw (kept_size) (ground (arith, j.apart))

  grown_lem :
      a + k ≡ x → Joined h a x cs e (attach a (k + m) cs) (put grown a (lead a (k + m) cs e))
  unfolding put
  grown_lem q =
      let n = Nodes-put h a (block (head_of cs e) (k + m)) cs e j.alone j.nodes.1 in
      let (p, r) = attach-Nodes grown a (k + m) cs e j.alone n in
      (p, r, λ b i o w. ground (arith, o))

  apart_lem :
      Joined h a x cs e ((a, k) ∷ attach x m cs) (put (put h x (lead x m cs e)) a (block x k))
  unfolding put
  apart_lem =
      let (p, r) = attach-Nodes h x m cs e j.other j.nodes.1 in
      (
        (
          rw (r) (ground arith),
          Nodes-put (put h x (lead x m cs e)) a (block x k) (attach x m cs) e
              (attach-Other a x m cs (λ q. j.apart (sym q)) j.alone) p,
        ),
        refl,
        λ b i o w. ground (arith, i, o),
      )

  pub merge_lem : Returns (Joined h a x cs e (merge a k x m cs)) (insert_at h e a x)
  unfolding merge
  merge_lem = elim (Bool-cases (a + k == x)) [
    | inl q ↦ rw (q, insert_touching (ground arith)) (grown_lem (ground arith))
    | inr q ↦ rw (q, insert_apart (λ t. ground arith)) apart_lem
  ]
