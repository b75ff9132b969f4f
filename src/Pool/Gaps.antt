-- ===== src/Pool/Gaps.antt =====
-- A block that stands between the free blocks still does when another block comes to them.
use quark_ts_cpp.Prelude.{
  ℕ, ◌+◌, ◌<◌, ◌≤◌, ◌≡◌, ◌⊎◌, inl, inr, subst, List, [], ◌∷◌, arith, ◌==◌, ltb, ==_iff, Bool-cases,
}
use quark_ts_cpp.Pool.Joining.{Extent, attach, merge, rejoin}
use quark_ts_cpp.Pool.Giving.{Gap, give}

-- The blocks `(y, m)` and `(x, n)` do not overlap.
abbrev pub Clear : ℕ → ℕ → ℕ → ℕ → Type 0
Clear y m x n = (y + m ≤ x) ⊎ (x + n ≤ y)

module _ (e y m : ℕ) (real : 0 < m) where
  attach-Gap :
      (lo x n : ℕ) (cs : List Extent) → Gap lo ((x, n) ∷ cs) e y m → Gap lo (attach x n cs) e y m
  unfolding attach
  attach-Gap lo x n [] g = g
  attach-Gap lo x n ((c, l) ∷ cs) g = elim (Bool-cases (x + n == c)) [
    | inl t ↦ rw (t) (touching ((==_iff (x + n) c).0 t) g)
    | inr t ↦ rw (t) g
  ]
    where
      touching : x + n ≡ c → Gap lo ((x, n) ∷ (c, l) ∷ cs) e y m → Gap lo ((x, n + l) ∷ cs) e y m
      touching q (inl g) = inl g
      touching q (inr (inl g)) = absurd (omega (arith, q, g.0, g.1, real))
      touching q (inr (inr g)) = inr (subst (λ s. Gap s cs e y m) (omega (arith, q)) g)

  merge-Gap :
      (lo a k x n : ℕ) (cs : List Extent)
      → Gap lo ((a, k) ∷ (x, n) ∷ cs) e y m
      → Gap lo (merge a k x n cs) e y m
  unfolding merge
  merge-Gap lo a k x n cs g = elim (Bool-cases (a + k == x)) [
    | inl t ↦ rw (t) (attach-Gap lo a (k + n) cs (touching ((==_iff (a + k) x).0 t) g))
    | inr t ↦ rw (t) (apart g)
  ]
    where
      touching : a + k ≡ x → Gap lo ((a, k) ∷ (x, n) ∷ cs) e y m → Gap lo ((a, k + n) ∷ cs) e y m
      touching q (inl g) = inl g
      touching q (inr (inl g)) = absurd (omega (arith, q, g.0, g.1, real))
      touching q (inr (inr g)) = inr (subst (λ s. Gap s cs e y m) (omega (arith, q)) g)

      apart : Gap lo ((a, k) ∷ (x, n) ∷ cs) e y m → Gap lo ((a, k) ∷ attach x n cs) e y m
      apart (inl g) = inl g
      apart (inr g) = inr (attach-Gap (a + k) x n cs g)

  -- With the new block in front of the others.
  in_front :
      (lo x n : ℕ) (cs : List Extent) → Clear y m x n → Gap lo cs e y m → Gap lo ((x, n) ∷ cs) e y m
  in_front lo x n [] (inl d) g = inl (g.0, d)
  in_front lo x n [] (inr d) g = inr (d, g.1)
  in_front lo x n ((c, l) ∷ cs) (inl d) (inl g) = inl (g.0, d)
  in_front lo x n ((c, l) ∷ cs) (inr d) (inl g) = inr (inl (d, g.1))
  in_front lo x n ((c, l) ∷ cs) d (inr g) = inr (inr g)

  rejoin-Gap :
      (cs : List Extent) (lo a k x n : ℕ)
      → Clear y m x n
      → Gap lo ((a, k) ∷ cs) e y m
      → Gap lo (rejoin a k cs x n) e y m
  unfolding rejoin
  rejoin-Gap [] lo a k x n d (inl g) = merge-Gap lo a k x n [] (inl g)
  rejoin-Gap ((c, l) ∷ cs) lo a k x n d (inl g) = elim (Bool-cases (ltb c x)) [
    | inl t ↦ rw (t) (inl g)
    | inr t ↦ rw (t) (merge-Gap lo a k x n ((c, l) ∷ cs) (inl g))
  ]
  rejoin-Gap [] lo a k x n d (inr g) = merge-Gap lo a k x n [] (inr (in_front (a + k) x n [] d g))
  rejoin-Gap ((c, l) ∷ cs) lo a k x n d (inr g) = elim (Bool-cases (ltb c x)) [
    | inl t ↦ rw (t) (inr (rejoin-Gap cs (a + k) c l x n d g))
    | inr t ↦
        rw (t) (merge-Gap lo a k x n ((c, l) ∷ cs) (inr (in_front (a + k) x n ((c, l) ∷ cs) d g)))
  ]

  pub give-Gap :
      (bs : List Extent) (lo x n : ℕ) → Clear y m x n → Gap lo bs e y m → Gap lo (give bs x n) e y m
  unfolding give
  give-Gap [] lo x n d g = in_front lo x n [] d g
  give-Gap ((c, l) ∷ cs) lo x n d g = elim (Bool-cases (ltb c x)) [
    | inl t ↦ rw (t) (rejoin-Gap cs lo c l x n d g)
    | inr t ↦ rw (t) (attach-Gap lo x n ((c, l) ∷ cs) (in_front lo x n ((c, l) ∷ cs) d g))
  ]
