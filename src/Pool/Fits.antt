-- ===== src/Pool/Fits.antt =====
-- What is left of the free blocks when the first fit is taken out.
use quark_ts_cpp.Prelude.{ℕ, ◌+◌, ◌<◌, ◌≤◌, ◌≡◌, ◌≢◌, inl, inr, refl, List, [], ◌∷◌, arith}
use quark_ts_cpp.Pool.Joining.{Extent, Fits, Other, Fits-end, Fits-Other}
use quark_ts_cpp.Pool.Giving.{total, Gap}
use quark_ts_cpp.Pool.Fitting.{Fit, here, later}

Fits-lower : (bs : List Extent) (lo hi e : ℕ) → lo ≤ hi → Fits hi bs e → Fits lo bs e
Fits-lower [] lo hi e l f = omega (arith, l, f)
Fits-lower ((b, n) ∷ bs) lo hi e l f = (omega (arith, l, f.0), f.1, f.2)

Gap-first :
    (bs : List Extent) (lo hi e y m : ℕ) → lo ≤ y → y + m ≤ hi → Fits hi bs e → Gap lo bs e y m
Gap-first [] lo hi e y m l b f = (l, omega (arith, b, f))
Gap-first ((c, n) ∷ bs) lo hi e y m l b f = inl (l, omega (arith, b, f.0))

module _ {size x k : ℕ} where
  pub Fit-total : {bs rest : List Extent} → Fit size bs x k rest → total bs ≡ k + total rest
  Fit-total (here _ _ bs t) = refl
  Fit-total (later b l _ _ bs rest t i) = omega (arith, Fit-total i)

  pub Fit-Fits :
      {bs rest : List Extent} (lo e : ℕ) → Fit size bs x k rest → Fits lo bs e → Fits lo rest e
  Fit-Fits lo e (here _ _ bs t) f = Fits-lower bs lo (x + k) e (omega (arith, f.0)) f.2
  Fit-Fits lo e (later b l _ _ bs rest t i) f = (f.0, f.1, Fit-Fits (b + l) e i f.2)

  pub Fit-large : {bs rest : List Extent} → Fit size bs x k rest → size ≤ k
  Fit-large (here _ _ bs t) = ground (arith, t)
  Fit-large (later b l _ _ bs rest t i) = Fit-large i

  pub Fit-inside :
      {bs rest : List Extent} (lo e : ℕ)
      → Fit size bs x k rest
      → Fits lo bs e
      → (lo < x) × (0 < k) × (x + k ≤ e)
  Fit-inside lo e (here _ _ bs t) f = (f.0, f.1, Fits-end bs (x + k) e f.2)
  Fit-inside lo e (later b l _ _ bs rest t i) f =
      let (u, v, w) = Fit-inside (b + l) e i f.2 in (omega (arith, u, f.0), v, w)

  -- A part of the block stands between the others.
  pub Fit-Gap :
      {bs rest : List Extent} (lo e y m : ℕ)
      → Fit size bs x k rest
      → Fits lo bs e
      → x ≤ y
      → y + m ≤ x + k
      → Gap lo rest e y m
  Fit-Gap lo e y m (here _ _ bs t) f l b =
      Gap-first bs lo (x + k) e y m (omega (arith, l, f.0)) b f.2
  Fit-Gap lo e y m (later c n _ _ bs rest t i) f l b = inr (Fit-Gap (c + n) e y m i f.2 l b)

  pub Fit-Other :
      {bs rest : List Extent} (y : ℕ) → Fit size bs x k rest → Other y bs → (x ≢ y) × Other y rest
  Fit-Other y (here _ _ bs t) o = o
  Fit-Other y (later c n _ _ bs rest t i) o = let (u, v) = Fit-Other y i o.1 in (u, (o.0, v))

  pub Fit-apart :
      {bs rest : List Extent} (lo e : ℕ) → Fit size bs x k rest → Fits lo bs e → Other x rest
  Fit-apart lo e (here _ _ bs t) f = Fits-Other bs (x + k) x e f.2 (omega arith)
  Fit-apart lo e (later c n _ _ bs rest t i) f =
      let (u, v, w) = Fit-inside (c + n) e i f.2 in
      ((λ q. omega (arith, q, u)), Fit-apart (c + n) e i f.2)
