-- ===== src/Pool/Giving.antt =====
-- The list of the free blocks with one more: what it covers.
use quark_ts_cpp.Prelude.{
  ℕ, ◌+◌, ◌<◌, ◌≤◌, ◌≡◌, ◌≢◌, ◌⊎◌, refl, subst, true, false, List, [], ◌∷◌, arith, ◌==◌, ltb,
  if◌then◌else◌, Bool-cases, inl, inr,
}
use quark_ts_cpp.Pool.Joining.{Extent, head_of, Fits, attach, merge, rejoin}

abbrev pub total : List Extent → ℕ
total [] = 0
total ((b, n) ∷ bs) = n + total bs

-- The block `(x, m)` stands between the blocks.
abbrev pub Gap : ℕ → List Extent → ℕ → ℕ → ℕ → Type 0
Gap lo [] e x m = (lo ≤ x) × (x + m ≤ e)
Gap lo ((b, n) ∷ bs) e x m = ((lo ≤ x) × (x + m ≤ b)) ⊎ Gap (b + n) bs e x m

-- The free blocks with the block `(x, m)`: joined with the blocks that it touches, so that no two
-- free blocks touch.
unfoldable pub give : List Extent → ℕ → ℕ → List Extent
unfolding attach rejoin
give [] x m = (x, m) ∷ []
give ((c, l) ∷ cs) x m = if ltb c x then rejoin c l cs x m else attach x m ((c, l) ∷ cs)

pub rejoin-give :
    (s : ℕ) (bs : List Extent) (x m : ℕ) → s ≢ x → rejoin s 0 bs x m ≡ (s, 0) ∷ give bs x m
unfolding give rejoin merge attach
rejoin-give s [] x m q = ground arith
rejoin-give s ((c, l) ∷ cs) x m q = ground arith

total-attach : (x m : ℕ) (cs : List Extent) → total (attach x m cs) ≡ m + total cs
unfolding attach
total-attach x m [] = refl
total-attach x m ((c, l) ∷ cs) = ground arith

total-merge : (a k x m : ℕ) (cs : List Extent) → total (merge a k x m cs) ≡ k + m + total cs
unfolding merge
total-merge a k x m cs = ground (arith, total-attach a (k + m) cs, total-attach x m cs)

total-rejoin : (cs : List Extent) (a k x m : ℕ) → total (rejoin a k cs x m) ≡ k + m + total cs
unfolding rejoin
total-rejoin [] a k x m = total-merge a k x m []
total-rejoin ((c, l) ∷ cs) a k x m =
    ground (arith, total-merge a k x m ((c, l) ∷ cs), total-rejoin cs c l x m)

pub total-give : (bs : List Extent) (x m : ℕ) → total (give bs x m) ≡ m + total bs
unfolding give
total-give [] x m = refl
total-give ((c, l) ∷ cs) x m =
    ground (arith, total-rejoin cs c l x m, total-attach x m ((c, l) ∷ cs))

pub Gap-above : (bs : List Extent) (lo e x m : ℕ) → Fits lo bs e → Gap lo bs e x m → lo ≤ x
Gap-above [] lo e x m f g = g.0
Gap-above ((b, n) ∷ bs) lo e x m f (inl g) = g.0
Gap-above ((b, n) ∷ bs) lo e x m f (inr g) =
    omega (arith, f.0, f.1, Gap-above bs (b + n) e x m f.2 g)

attach-Fits :
    (x m : ℕ) (cs : List Extent) (lo hi e : ℕ)
    → lo < x
    → 0 < m
    → x + m ≤ head_of cs e
    → Fits hi cs e
    → Fits lo (attach x m cs) e
unfolding attach
attach-Fits x m [] lo hi e p q b f = (p, q, b)
attach-Fits x m ((c, l) ∷ cs) lo hi e p q b f = elim (Bool-cases (x + m == c)) [
  | inl t ↦ rw (t) (p, omega (arith, q), subst (λ s. Fits s cs e) (ground (arith, t)) f.2)
  | inr t ↦ rw (t) (p, q, (ground (arith, t, b), f.1, f.2))
]

merge-Fits :
    (a k x m : ℕ) (cs : List Extent) (lo hi e : ℕ)
    → lo < a
    → 0 < k
    → a + k ≤ x
    → 0 < m
    → x + m ≤ head_of cs e
    → Fits hi cs e
    → Fits lo (merge a k x m cs) e
unfolding merge
merge-Fits a k x m cs lo hi e p q l r b f = elim (Bool-cases (a + k == x)) [
  | inl t ↦ rw (t) (attach-Fits a (k + m) cs lo hi e p (omega (arith, q)) (ground (arith, t, b)) f)
  | inr t ↦ rw (t) (p, q, attach-Fits x m cs (a + k) hi e (ground (arith, t, l)) r b f)
]

-- Where the gap is, by the test of the walk.
Gap-below_first :
    (c l : ℕ) (cs : List Extent) (lo e x m : ℕ)
    → Fits lo ((c, l) ∷ cs) e
    → Gap lo ((c, l) ∷ cs) e x m
    → ltb c x ≡ false
    → (lo ≤ x) × (x + m ≤ c)
Gap-below_first c l cs lo e x m f (inl g) t = g
Gap-below_first c l cs lo e x m f (inr g) t =
    absurd (ground (arith, t, f.1, Gap-above cs (c + l) e x m f.2 g))

Gap-after :
    (c l : ℕ) (cs : List Extent) (lo e x m : ℕ)
    → 0 < m
    → Gap lo ((c, l) ∷ cs) e x m
    → ltb c x ≡ true
    → Gap (c + l) cs e x m
Gap-after c l cs lo e x m q (inl g) t = absurd (ground (arith, t, q, g.1))
Gap-after c l cs lo e x m q (inr g) t = g

rejoin-Fits :
    (cs : List Extent) (a k x m lo e : ℕ)
    → lo < a
    → 0 < k
    → 0 < m
    → Fits (a + k) cs e
    → Gap (a + k) cs e x m
    → Fits lo (rejoin a k cs x m) e
unfolding rejoin
rejoin-Fits [] a k x m lo e p q r f g = merge-Fits a k x m [] lo (a + k) e p q g.0 r g.1 f
rejoin-Fits ((c, l) ∷ cs) a k x m lo e p q r f g = elim (Bool-cases (ltb c x)) [
  | inl t ↦
      rw (t) (
        p,
        q,
        rejoin-Fits cs c l x m (a + k) e f.0 f.1 r f.2 (Gap-after c l cs (a + k) e x m r g t),
      )
  | inr t ↦ rw (t) (
      let (u, v) = Gap-below_first c l cs (a + k) e x m f g t in
      merge-Fits a k x m ((c, l) ∷ cs) lo (a + k) e p q u r v f)
]

pub give-Fits :
    (bs : List Extent) (x m lo e : ℕ)
    → lo < x
    → 0 < m
    → Fits lo bs e
    → Gap lo bs e x m
    → Fits lo (give bs x m) e
unfolding give
give-Fits [] x m lo e p q f g = (p, q, g.1)
give-Fits ((c, l) ∷ cs) x m lo e p q f g = elim (Bool-cases (ltb c x)) [
  | inl t ↦ rw (t) (rejoin-Fits cs c l x m lo e f.0 f.1 q f.2 (Gap-after c l cs lo e x m q g t))
  | inr t ↦
      rw (t) (attach-Fits x m ((c, l) ∷ cs) lo lo e p q (Gap-below_first c l cs lo e x m f g t).1 f)
]
