-- ===== src/Pool/Placing.antt =====
-- The walk of `insertBlockIntoFreeList` to the place of the block.
use quark_ts_cpp.Prelude.Returns.{Returns, Returns-map, >>=-bind}
use quark_ts_cpp.Prelude.{
  ℕ, refl, zero, suc, ◌+◌, ◌<◌, ◌≡◌, sym, ◌∙◌, ap, true, false, List, [], ◌∷◌, arith, length,
  Option, some, ◌==◌, ltb, ◌>>=◌, Bool-cases, inl, inr,
}
use quark_ts_cpp.Pool.{Block, Pool, seek, insert_at, insert_block_into_free_list}
use quark_ts_cpp.Pool.Joining.{
  Extent, head_of, Joins, Joined, rejoin, merge_lem, Fits-end, Fits-Other,
}

unfoldable pub walk : (ℕ → Block) → ℕ → ℕ → ℕ → ℕ → Option (ℕ → Block)
unfolding seek
walk h e n a x = seek h n a x >>= λ i. insert_at h e i x

pub insert_walk :
    (p : Pool) (c : ℕ)
    → insert_block_into_free_list p c
      ≡ (walk p.heap p.end (suc p.pool_mem_size) p.start c >>= λ h. some (record p { heap = h }))
unfolding insert_block_into_free_list walk
insert_walk p c =
    >>=-bind (seek p.heap (suc p.pool_mem_size) p.start c) (λ i. insert_at p.heap p.end i c)
      (λ h. some (record p { heap = h }))

pub real_test : (a : ℕ) → 0 < a → (a == 0) ≡ false
real_test a p = ground arith

walk_stops :
    (h : ℕ → Block) (e n a x : ℕ)
    → 0 < a
    → ltb (h a).next x ≡ false
    → walk h e (suc n) a x ≡ insert_at h e a x
unfolding walk seek
walk_stops h e n a x p q = rw (q, real_test a p) refl

walk_goes :
    (h : ℕ → Block) (e n a x : ℕ)
    → 0 < a
    → ltb (h a).next x ≡ true
    → walk h e (suc n) a x ≡ walk h e n (h a).next x
unfolding walk seek
walk_goes h e n a x p q = rw (q, real_test a p) refl

step :
    {h : ℕ → Block} {a k x m c l : ℕ} {cs : List Extent} {e : ℕ}
    → Joins h a k x m ((c, l) ∷ cs) e
    → Joins h c l x m cs e
step {c = c} {l = l} {cs = cs} {e = e} j = record {
  nodes = j.nodes.1;
  from = c + l;
  fits = j.fits.2;
  apart = j.other.0;
  other = j.other.1;
  alone = Fits-Other cs (c + l) c e j.fits.2 (omega arith);
  sized = j.sized;
  below = j.below;
  small = j.small;
  real = omega (arith, j.fits.0);
  real_block = j.real_block;
  filled = j.filled;
  inside = omega (arith, Fits-end cs (c + l) e j.fits.2, j.small);
}

next_at :
    {h : ℕ → Block} {a k x m : ℕ} {cs : List Extent} {e : ℕ}
    → Joins h a k x m cs e
    → (h a).next ≡ head_of cs e
next_at j = ap (λ b. b.next) j.nodes.0

deeper :
    (h g : ℕ → Block) (a k x m c l : ℕ) (cs rest : List Extent) (e : ℕ)
    → Joins h a k x m ((c, l) ∷ cs) e
    → Joined h c x cs e rest g
    → Joined h a x ((c, l) ∷ cs) e ((a, k) ∷ rest) g
deeper h g a k x m c l cs rest e j (n, r, frame) = (
  (rw (r) (frame a j.apart (λ q. j.alone.0 (sym q)) j.alone.1 ∙ j.nodes.0), n),
  refl,
  λ b i o w. frame b i (λ q. w.0 (sym q)) w.1,
)

pub walk_lem :
    (cs : List Extent) (n : ℕ) {h : ℕ → Block} {a k x m e : ℕ}
    → Joins h a k x m cs e
    → length cs < n
    → Returns (Joined h a x cs e (rejoin a k cs x m)) (walk h e n a x)
unfolding rejoin
walk_lem cs zero j l = absurd (omega (arith, l))
walk_lem [] (suc n) {h} {a} {k} {x} {m} {e} j l =
    rw (walk_stops h e n a x j.real (rw (next_at j) (ground (arith, j.below, j.filled))))
      (merge_lem j)
walk_lem ((c, l) ∷ cs) (suc n) {h} {a} {k} {x} {m} {e} j r = elim (Bool-cases (ltb c x)) [
  | inl q ↦
      rw (q, walk_goes h e n a x j.real (rw (next_at j) q), next_at j)
        (Returns-map (Joined h c x cs e (rejoin c l cs x m))
          (Joined h a x ((c, l) ∷ cs) e ((a, k) ∷ rejoin c l cs x m)) (walk h e n c x)
          (λ g. deeper h g a k x m c l cs (rejoin c l cs x m) e j)
          (walk_lem cs n (step j) (omega (arith, r))))
  | inr q ↦ rw (q, walk_stops h e n a x j.real (rw (next_at j) q)) (merge_lem j)
]
