-- ===== src/Pool/Ranges.antt =====
-- What the order of the free blocks says of a place between them or outside.
use quark_ts_cpp.Prelude.{ℕ, ◌+◌, ◌*◌, ◌<◌, ◌≤◌, inl, inr, List, [], ◌∷◌, arith, length}
use quark_ts_cpp.Pool.Joining.{Extent, Fits, Other, Fits-end, Fits-Other}
use quark_ts_cpp.Pool.Giving.{total, Gap, Gap-above}

pub Gap-Other :
    (bs : List Extent) (lo e x m : ℕ) → Fits lo bs e → 0 < m → Gap lo bs e x m → Other x bs
Gap-Other [] lo e x m f q g = tt
Gap-Other ((b, n) ∷ bs) lo e x m f q (inl g) =
    ((λ t. omega (arith, g.1, q, t)), Fits-Other bs (b + n) x e f.2 (omega (arith, g.1)))
Gap-Other ((b, n) ∷ bs) lo e x m f q (inr g) = (
  (λ t. omega (arith, t, f.1, q, Gap-above bs (b + n) e x m f.2 g)),
  Gap-Other bs (b + n) e x m f.2 q g,
)

pub Gap-below : (bs : List Extent) (lo e x m : ℕ) → Fits lo bs e → Gap lo bs e x m → x + m ≤ e
Gap-below [] lo e x m f g = g.1
Gap-below ((b, n) ∷ bs) lo e x m f (inl g) = omega (arith, g.1, Fits-end bs (b + n) e f.2)
Gap-below ((b, n) ∷ bs) lo e x m f (inr g) = Gap-below bs (b + n) e x m f.2 g

pub Fits-length : (bs : List Extent) (lo e : ℕ) → Fits lo bs e → lo + 2 * length bs ≤ e
Fits-length [] lo e f = omega (arith, f)
Fits-length ((b, n) ∷ bs) lo e f = omega (arith, f.0, f.1, Fits-length bs (b + n) e f.2)

pub Fits-total : (bs : List Extent) (lo e : ℕ) → Fits lo bs e → lo + total bs ≤ e
Fits-total [] lo e f = omega (arith, f)
Fits-total ((b, n) ∷ bs) lo e f = omega (arith, f.0, Fits-total bs (b + n) e f.2)

pub Fits-outside : (bs : List Extent) (lo e a : ℕ) → Fits lo bs e → e < a → Other a bs
Fits-outside [] lo e a f l = tt
Fits-outside ((b, n) ∷ bs) lo e a f l =
    ((λ t. omega (arith, t, l, Fits-end bs (b + n) e f.2)), Fits-outside bs (b + n) e a f.2 l)

pub Fits-last : (bs : List Extent) (lo e : ℕ) → Fits lo bs e → Other e bs
Fits-last [] lo e f = tt
Fits-last ((b, n) ∷ bs) lo e f =
    ((λ t. omega (arith, t, f.1, Fits-end bs (b + n) e f.2)), Fits-last bs (b + n) e f.2)
