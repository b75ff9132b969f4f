-- ===== src/Pool/Allocating.antt =====
-- `pool::alloc`: which block it gives out, and what it leaves.
use quark_ts_cpp.Prelude.{
  ℕ, suc, ◌+◌, ◌-◌, ◌^◌, ◌<◌, ◌≤◌, ◌≡◌, ◌≢◌, inl, inr, refl, sym, ap, subst, ◌∙◌, true, false, not,
  List, ◌∷◌, arith, Option, some, ltb, ◌==◌, ◌>>=◌, if◌then◌else◌, Bool-cases,
}
use quark_ts_cpp.Prelude.Word.{add_word}
use quark_ts_cpp.Prelude.Returns.{Returns, Returns-bind}
use quark_ts_cpp.Prelude.Bits.{multiple_set, set_top}
use quark_ts_cpp.Pool.{
  Block, Pool, heap_struct_size, block_allocated_bit, put, mark, unlink, split, grant,
}
use quark_ts_cpp.Pool.Joining.{Extent, block, Fits, Nodes-put}
use quark_ts_cpp.Pool.Giving.{total, Gap, total-give, give-Fits}
use quark_ts_cpp.Pool.Ranges.{Fits-length, Fits-total, Gap-Other}
use quark_ts_cpp.Pool.Freeing.{Holds, IsUsed, start-Other}
use quark_ts_cpp.Pool.Fitting.{Fit, Walked, fit_walk}
use quark_ts_cpp.Pool.Fits.{Fit-total, Fit-Fits, Fit-inside, Fit-large, Fit-Gap, Fit-Other}
use quark_ts_cpp.Pool.Gaps.{give-Gap}
use quark_ts_cpp.Pool.Splitting.{Parted, Halved, bytes_of, others_of}

put_here : (h : ℕ → Block) (x : ℕ) (v : Block) → put h x v x ≡ v
unfolding put
put_here h x v = ground arith

set_lem : {n : ℕ} → n < 2 ^ 31 → multiple_set n block_allocated_bit ≡ n + 2 ^ 31
unfolding multiple_set
set_lem {n} l = set_top 31 n l

module _ {p : Pool} {bs : List Extent} {size x k : ℕ} {rest : List Extent} (i : Holds p bs)
    (t : Fit size bs x k rest) (l : 0 < size) where
  whole_Gap : (y m : ℕ) → x ≤ y → y + m ≤ x + k → Gap (p.pool_memory - 1) rest p.end y m
  whole_Gap y m = Fit-Gap (p.pool_memory - 1) p.end y m t i.fits

  pub inside : (p.pool_memory - 1 < x) × (0 < k) × (x + k ≤ p.end)
  inside = Fit-inside (p.pool_memory - 1) p.end t i.fits

  -- The free blocks that are left, and the block that is given out.
  others_Fits : Fits (p.pool_memory - 1) (others_of size x k rest) p.end
  unfolding others_of
  others_Fits =
      let f = Fit-Fits (p.pool_memory - 1) p.end t i.fits in
      let (u, v, w) = inside in
      elim (Bool-cases (ltb 16 (k - size))) [
        | inl q ↦ rw (q) (
            give-Fits rest (x + size) (k - size) (p.pool_memory - 1) p.end (omega (arith, u))
              (ground (arith, q)) f
              (whole_Gap (x + size) (k - size) (omega arith) (omega (arith, Fit-large t))))
        | inr q ↦ rw (q) f
      ]

  others_Gap : Gap (p.pool_memory - 1) (others_of size x k rest) p.end x (bytes_of size k)
  unfolding others_of bytes_of
  others_Gap = elim (Bool-cases (ltb 16 (k - size))) [
    | inl q ↦ rw (q) (
        give-Gap p.end x size l rest (p.pool_memory - 1) (x + size) (k - size) (inl (omega arith))
          (whole_Gap x size (omega arith) (omega (arith, Fit-large t))))
    | inr q ↦ rw (q) (whole_Gap x k (omega arith) (omega arith))
  ]

  others_total : total bs ≡ bytes_of size k + total (others_of size x k rest)
  unfolding others_of bytes_of
  others_total = ground (arith, Fit-total t, Fit-large t, total-give rest (x + size) (k - size))

  bytes_real : (0 < bytes_of size k) × (bytes_of size k ≤ k) × (size ≤ bytes_of size k)
  unfolding bytes_of
  bytes_real =
      (ground (arith, l, inside.1), ground (arith, Fit-large t), ground (arith, Fit-large t))

  bytes_small : bytes_of size k < 2 ^ 31
  bytes_small = omega (arith, bytes_real.1, inside.0, inside.2, i.room, i.bounded)

  -- The pool with the headers `h`, and the block marked.
  mark-Holds :
      (h : ℕ → Block)
      → Parted p x (bytes_of size k) (others_of size x k rest) h
      → Holds (mark (record p { heap = h }) x) (others_of size x k rest)
        × IsUsed (mark (record p { heap = h }) x) (others_of size x k rest) x (bytes_of size k)
  unfolding mark put
  mark-Holds h a =
      let o =
        Gap-Other (others_of size x k rest) (p.pool_memory - 1) p.end x (bytes_of size k)
          others_Fits bytes_real.0 others_Gap in
      let apart = (Fit-Other p.start t (start-Other i)).0 in
      let end_apart : p.end ≢ x = λ q. omega (arith, q, inside.1, inside.2) in
      (
        record {
          nodes =
              Nodes-put h x (block 0 (multiple_set (h x).block_size block_allocated_bit))
                ((p.start, 0) ∷ others_of size x k rest) p.end ((λ q. apart (sym q)), o) a.nodes;
          fits = others_Fits;
          real = i.real;
          room = i.room;
          last = ground (arith, end_apart, a.last);
          small = i.small;
          bounded = i.bounded;
          real_end = i.real_end;
          real_start = i.real_start;
          small_start = i.small_start;
          outside = i.outside;
          count = omega (
            arith,
            a.sized,
            i.count,
            others_total,
            i.small,
            Fits-total bs (p.pool_memory - 1) p.end i.fits,
          );
        },
        record {
          header =
              put_here h x _
              ∙ ap (block 0)
                  (ap (λ s. multiple_set s block_allocated_bit) a.sized ∙ set_lem bytes_small);
          inside = omega (arith, inside.0);
          gap = others_Gap;
          filled = bytes_real.0;
          small = bytes_small;
        },
      )

-- What `alloc` returns for a request that is met: the address behind the header of a block that is a
-- user's now, and the pool without it.
abbrev pub Granted : ℕ → ℕ → ℕ → List Extent → Pool × ℕ → Type 0
Granted size x k rest (q, ptr) =
    (ptr ≡ x + heap_struct_size)
    × Holds q (others_of size x k rest)
    × IsUsed q (others_of size x k rest) x (bytes_of size k)

abbrev grant_at : Pool → ℕ → ℕ → ℕ → ℕ → Option (Pool × ℕ)
grant_at p size previous x next =
    let parted = split (record p { heap = unlink p.heap previous x }) x size in
    let granted = parted >>= λ p1. some (mark p1 x, add_word next heap_struct_size) in
    if not (x == p.end) then granted else some (p, 0)

grant_eq :
    (p : Pool) (size previous x : ℕ)
    → grant p size previous x ≡ grant_at p size previous x (p.heap previous).next
unfolding grant
grant_eq p size previous x = refl

module _ {p : Pool} {bs : List Extent} {size x k : ℕ} {rest : List Extent} (i : Holds p bs)
    (t : Fit size bs x k rest) (l : 0 < size) where
  pub walked : Walked size p.heap (suc p.pool_mem_size) p.start 0 bs p.end x k rest
  walked =
      fit_walk size p.heap (suc p.pool_mem_size) p.start 0 (p.pool_memory - 1) bs p.end x k rest t
        (omega (arith, Fits-length bs (p.pool_memory - 1) p.end i.fits, i.room, i.real)) i.nodes
        (start-Other i) i.fits (omega (arith, (inside i t l).0, (inside i t l).2))

  pub grant_lem :
      (previous : ℕ)
      → (p.heap previous).next ≡ x
      → Returns
          (Halved p size x k rest)
          (split (record p { heap = unlink p.heap previous x }) x size)
      → Returns (Granted size x k rest) (grant p size previous x)
  grant_lem previous q r =
      let apart : (x == p.end) ≡ false = ground (arith, (inside i t l).1, (inside i t l).2) in
      rw (grant_eq p size previous x ∙ ap (grant_at p size previous x) q, apart)
        (Returns-bind (Halved p size x k rest) (Granted size x k rest) _
          (λ p1. some (mark p1 x, add_word x heap_struct_size)) r
          (λ p1 (h, e, a).
            let (u, v) = mark-Holds i t l h a in
            subst (λ s. Granted size x k rest (mark s x, add_word x heap_struct_size)) (sym e)
              (omega (arith, (inside i t l).1, (inside i t l).2, i.small), u, v)))

-- The walk ended at the end.
pub grant_end : (p : Pool) (size previous x : ℕ) → x ≡ p.end → grant p size previous x ≡ some (p, 0)
grant_end p size previous x e =
    let same : (x == p.end) ≡ true = ground (arith, e) in rw (grant_eq p size previous x, same) refl
