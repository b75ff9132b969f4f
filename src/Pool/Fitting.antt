-- ===== src/Pool/Fitting.antt =====
-- The walk of `pool::alloc` to the first block that is large enough.
use quark_ts_cpp.Prelude.{
  ℕ, zero, suc, ◌+◌, ◌<◌, ◌≡◌, ◌≢◌, refl, sym, ap, ◌∙◌, true, false, List, [], ◌∷◌, arith, length,
  All, some, ltb,
}
use quark_ts_cpp.Prelude.Returns.{Returns}
use quark_ts_cpp.Pool.{Block, put, first_fit}
use quark_ts_cpp.Pool.Joining.{Extent, block, head_of, Nodes, Fits, Other, Nodes-put, Fits-Other}
use quark_ts_cpp.Pool.Placing.{real_test}

-- The block `(x, k)` is the first of the blocks that is large enough, and the others are `rest`.
pub data Fit (size : ℕ) : List Extent → ℕ → ℕ → List Extent → Type 0 where
  here : (x k : ℕ) (bs : List Extent) → ltb k size ≡ false → Fit size ((x, k) ∷ bs) x k bs
  later :
      (b l x k : ℕ) (bs rest : List Extent)
      → ltb l size ≡ true
      → Fit size bs x k rest
      → Fit size ((b, l) ∷ bs) x k ((b, l) ∷ rest)

-- The walk from the block `a` ends with `previous` in front of `x`, and `x` can be taken out there.
pub record Walked (size : ℕ) (h : ℕ → Block) (n a k0 : ℕ) (bs : List Extent) (e x k : ℕ)
    (rest : List Extent) : Type 0 where
  pub previous : ℕ
  pub found : first_fit h n a (head_of bs e) size ≡ some (previous, x)
  pub points : (h previous).next ≡ x
  pub sized : (h x).block_size ≡ k
  pub unlinked :
      Nodes (put h previous (block (h x).next (h previous).block_size)) ((a, k0) ∷ rest) e
  pub elsewhere : (y : ℕ) → y ≢ a → Other y bs → y ≢ previous

first_fit_stops :
    (h : ℕ → Block) (n a x size : ℕ)
    → 0 < x
    → ltb (h x).block_size size ≡ false
    → first_fit h (suc n) a x size ≡ some (a, x)
unfolding first_fit
first_fit_stops h n a x size l q = rw (q, real_test x l) refl

first_fit_goes :
    (h : ℕ → Block) (n a x size : ℕ)
    → 0 < x
    → 0 < (h x).next
    → ltb (h x).block_size size ≡ true
    → first_fit h (suc n) a x size ≡ first_fit h n x (h x).next size
unfolding first_fit
first_fit_goes h n a x size l r q = rw (q, real_test x l, real_test (h x).next r) refl

all_stops :
    (h : ℕ → Block) (n a x size : ℕ)
    → 0 < x
    → (h x).next ≡ 0
    → first_fit h (suc n) a x size ≡ some (a, x)
unfolding first_fit
all_stops h n a x size l q = rw (q, real_test x l) (ground arith)

head_real : (bs : List Extent) (lo e : ℕ) → Fits lo bs e → 0 < e → 0 < head_of bs e
head_real [] lo e f l = l
head_real ((b, n) ∷ bs) lo e f l = omega (arith, f.0)

pub fit_walk :
    (size : ℕ) (h : ℕ → Block) (n a k0 lo : ℕ) (bs : List Extent) (e x k : ℕ) (rest : List Extent)
    → Fit size bs x k rest
    → length bs < n
    → Nodes h ((a, k0) ∷ bs) e
    → Other a bs
    → Fits lo bs e
    → 0 < e
    → Walked size h n a k0 bs e x k rest
unfolding put
fit_walk size h zero a k0 lo bs e x k rest t l m o f p = absurd (omega (arith, l))
fit_walk size h (suc n) a k0 lo _ e _ _ _ (here x k bs t) l m o f p = record {
  previous = a;
  found = first_fit_stops h n a x size (omega (arith, f.0)) (rw (ap (λ b. b.block_size) m.1.0) t);
  points = ap (λ b. b.next) m.0;
  sized = ap (λ b. b.block_size) m.1.0;
  unlinked = (
    ground (arith, ap (λ b. b.next) m.1.0, ap (λ b. b.block_size) m.0),
    Nodes-put h a (block (h x).next (h a).block_size) bs e o.1 m.1.1,
  );
  elsewhere = λ y q w. q;
}
fit_walk size h (suc n) a k0 lo _ e _ _ _ (later b r x k bs rest t i) l m o f p =
    let w =
      fit_walk size h n b r (b + r) bs e x k rest i (omega (arith, l)) m.1
        (Fits-Other bs (b + r) b e f.2 (omega arith)) f.2 p in
    record {
      previous = w.previous;
      found =
          first_fit_goes h n a b size (omega (arith, f.0))
            (rw (ap (λ d. d.next) m.1.0) (head_real bs (b + r) e f.2 p))
            (rw (ap (λ d. d.block_size) m.1.0) t)
          ∙ rw (ap (λ d. d.next) m.1.0) w.found;
      points = w.points;
      sized = w.sized;
      unlinked = (ground (arith, w.elsewhere a (λ q. o.0 (sym q)) o.1, m.0), w.unlinked);
      elsewhere = λ y q v. w.elsewhere y (λ s. v.0 (sym s)) v.1;
    }

-- Without a block that is large enough the walk ends at the end.
pub exhausted_walk :
    (size : ℕ) (h : ℕ → Block) (n a k0 lo : ℕ) (bs : List Extent) (e : ℕ)
    → All (λ b. ltb b.1 size ≡ true) bs
    → length bs < n
    → Nodes h ((a, k0) ∷ bs) e
    → Fits lo bs e
    → 0 < e
    → h e ≡ block 0 0
    → Returns (λ r. r.1 ≡ e) (first_fit h n a (head_of bs e) size)
exhausted_walk size h zero a k0 lo bs e t l m f p q = absurd (omega (arith, l))
exhausted_walk size h (suc n) a k0 lo [] e t l m f p q =
    rw (all_stops h n a e size p (ap (λ b. b.next) q)) refl
exhausted_walk size h (suc n) a k0 lo ((b, r) ∷ bs) e t l m f p q =
    rw
      (
        first_fit_goes h n a b size (omega (arith, f.0))
            (rw (ap (λ d. d.next) m.1.0) (head_real bs (b + r) e f.2 p))
            (rw (ap (λ d. d.block_size) m.1.0) t.0),
        ap (λ d. d.next) m.1.0,
      )
      (exhausted_walk size h n b r (b + r) bs e t.1 (omega (arith, l)) m.1 f.2 p q)
