-- ===== src/Pool/Splitting.antt =====
-- `pool::alloc`: the block that is found leaves the list, and its end goes back.
use quark_ts_cpp.Prelude.{
  ℕ, suc, ◌+◌, ◌-◌, ◌<◌, ◌≤◌, ◌≡◌, ◌≢◌, inl, inr, refl, sym, ap, ap₂, subst, ◌∙◌, true, false, List,
  ◌∷◌, arith, Option, some, ltb, ◌==◌, ◌>>=◌, if◌then◌else◌, Bool-cases, ==_iff,
}
use quark_ts_cpp.Prelude.Word.{add_word, sub_word}
use quark_ts_cpp.Prelude.Returns.{Returns, Returns-bind}
use quark_ts_cpp.Pool.{Block, Pool, put, cut, unlink, split, insert_block_into_free_list}
use quark_ts_cpp.Pool.Joining.{Extent, block, Nodes, Fits, Other, Joins, Joined, rejoin, Nodes-put}
use quark_ts_cpp.Pool.Placing.{walk, walk_lem, insert_walk}
use quark_ts_cpp.Pool.Giving.{give, rejoin-give}
use quark_ts_cpp.Pool.Ranges.{Gap-Other, Fits-length, Fits-last}
use quark_ts_cpp.Pool.Freeing.{Holds, start-Other}
use quark_ts_cpp.Pool.Fitting.{Fit, Walked}
use quark_ts_cpp.Pool.Fits.{Fit-Fits, Fit-inside, Fit-large, Fit-Gap, Fit-Other, Fit-apart}

-- The headers `h` once the block `x` is out: the free blocks are `rest`, and `x` has `n` bytes.
pub record Parted (p : Pool) (x n : ℕ) (rest : List Extent) (h : ℕ → Block) : Type 0 where
  pub nodes : Nodes h ((p.start, 0) ∷ rest) p.end
  pub sized : (h x).block_size ≡ n
  pub last : h p.end ≡ block 0 0

abbrev split_at : Pool → ℕ → ℕ → ℕ → ℕ → Option Pool
split_at p x size left link =
    if ltb 16 left
    then insert_block_into_free_list (record p { heap = cut p.heap x size link left }) link
    else some p

split_eq :
    (p : Pool) (x size left link : ℕ)
    → sub_word (p.heap x).block_size size ≡ left
    → add_word x size ≡ link
    → split p x size ≡ split_at p x size left link
unfolding split
split_eq p x size left link d e = ap₂ (split_at p x size) d e

module _ {p : Pool} {bs : List Extent} {size x k : ℕ} {rest : List Extent} (i : Holds p bs)
    (t : Fit size bs x k rest)
    (w : Walked size p.heap (suc p.pool_mem_size) p.start 0 bs p.end x k rest) where
  abbrev h1 : ℕ → Block
  h1 = unlink p.heap w.previous x

  abbrev p1 : Pool
  p1 = record p { heap = h1 }

  pub inside : (p.pool_memory - 1 < x) × (0 < k) × (x + k ≤ p.end)
  inside = Fit-inside (p.pool_memory - 1) p.end t i.fits

  pub fits : Fits (p.pool_memory - 1) rest p.end
  fits = Fit-Fits (p.pool_memory - 1) p.end t i.fits

  pub start_apart : (x ≢ p.start) × Other p.start rest
  start_apart = Fit-Other p.start t (start-Other i)

  end_start : p.end ≢ p.start
  end_start q = elim i.outside [
    | inl l ↦ omega (arith, l, q, inside.0, inside.2)
    | inr l ↦ omega (arith, l, q)
  ]

  unlink_sized : (h1 x).block_size ≡ k
  unfolding unlink put
  unlink_sized = elim (Bool-cases (x == w.previous)) [
    | inl q ↦
        let same : x ≡ w.previous = (==_iff x w.previous).0 q in
        rw (q) (ap (λ a. (p.heap a).block_size) (sym same) ∙ w.sized)
    | inr q ↦ rw (q) w.sized
  ]

  unlink_last : h1 p.end ≡ block 0 0
  unfolding unlink put
  unlink_last =
      ground
        (arith, i.last, w.elsewhere p.end end_start (Fits-last bs (p.pool_memory - 1) p.end i.fits))

  pub unlink-Parted : Parted p x k rest h1
  unfolding unlink
  unlink-Parted = record { nodes = w.unlinked; sized = unlink_sized; last = unlink_last }

  abbrev link : ℕ
  link = x + size

  abbrev left : ℕ
  left = k - size

  abbrev h2 : ℕ → Block
  h2 = cut h1 x size link left

  ready : 0 < size → 0 < left → Joins h2 p.start 0 link left rest p.end
  unfolding cut put
  ready l m =
      let g =
        Fit-Gap (p.pool_memory - 1) p.end link left t i.fits (omega arith) (omega (arith, m)) in
      let o = Gap-Other rest (p.pool_memory - 1) p.end link left fits m g in
      let (u, v, z) = inside in
      let apart : p.start ≢ link = λ q. elim i.outside [
        | inl a ↦ omega (arith, a, q, u)
        | inr a ↦ omega (arith, a, q, z, m)
      ] in
      record {
        nodes =
            Nodes-put (put h1 link (record (h1 link) { block_size = left })) x _
              ((p.start, 0) ∷ rest) p.end
              ((λ q. start_apart.0 (sym q)), Fit-apart (p.pool_memory - 1) p.end t i.fits)
              (Nodes-put h1 link _ ((p.start, 0) ∷ rest) p.end (apart, o) unlink-Parted.nodes);
        from = p.pool_memory - 1;
        fits = fits;
        apart = apart;
        other = o;
        alone = start_apart.1;
        sized = ground (arith, l);
        below = omega (arith, m, z);
        small = omega (arith, i.small);
        real = i.real_start;
        real_block = omega (arith, u);
        filled = m;
        inside = omega (arith, i.small_start);
      }

  left_eq : sub_word (h1 x).block_size size ≡ left
  left_eq = omega (arith, unlink_sized, Fit-large t, inside.2, i.small)

  link_eq : add_word x size ≡ link
  link_eq = omega (arith, Fit-large t, inside.2, i.small)

  split_whole : ltb 16 left ≡ false → split p1 x size ≡ some p1
  split_whole q = split_eq p1 x size left link left_eq link_eq ∙ rw (q) refl

  split_halves :
      ltb 16 left ≡ true
      → split p1 x size
        ≡ (walk h2 p.end (suc p.pool_mem_size) p.start link >>= λ h. some (record p { heap = h }))
  split_halves q =
      split_eq p1 x size left link left_eq link_eq
      ∙ rw (q) (insert_walk (record p { heap = h2 }) link)

  halves-Parted :
      {h : ℕ → Block}
      → 0 < size
      → 0 < left
      → Joined h2 p.start link rest p.end (rejoin p.start 0 rest link left) h
      → Parted p x size (give rest link left) h
  unfolding cut put
  halves-Parted {h} l m (n, r, frame) =
      let j = ready l m in
      let (u, v, z) = inside in
      let end_link : p.end ≢ link = λ q. omega (arith, q, z, m) in
      let end_x : p.end ≢ x = λ q. omega (arith, q, z, v) in
      record {
        nodes = subst (λ c. Nodes h c p.end) (rejoin-give p.start rest link left j.apart) n;
        sized =
            ap (λ b. b.block_size)
              (frame x (λ q. omega (arith, q, l)) start_apart.0
                (Fit-apart (p.pool_memory - 1) p.end t i.fits))
            ∙ ground arith;
        last =
            frame p.end end_link end_start (Fits-last rest (p.pool_memory - 1) p.end fits)
            ∙ ground (arith, end_link, end_x, unlink_last);
      }

-- The bytes of a block of `k` bytes that `alloc` gives out, and the free blocks that are left.
unfoldable pub bytes_of : ℕ → ℕ → ℕ
bytes_of size k = if ltb 16 (k - size) then size else k

unfoldable pub others_of : ℕ → ℕ → ℕ → List Extent → List Extent
unfolding give
others_of size x k rest = if ltb 16 (k - size) then give rest (x + size) (k - size) else rest

abbrev pub Halved : Pool → ℕ → ℕ → ℕ → List Extent → Pool → Type 0
Halved p size x k rest q =
    (h : ℕ → Block) × (q ≡ record p { heap = h })
    × Parted p x (bytes_of size k) (others_of size x k rest) h

pub split_lem :
    {p : Pool} {bs : List Extent} {size x k : ℕ} {rest : List Extent} (i : Holds p bs)
    (t : Fit size bs x k rest)
    (w : Walked size p.heap (suc p.pool_mem_size) p.start 0 bs p.end x k rest)
    → 0 < size
    → Returns
        (Halved p size x k rest)
        (split (record p { heap = unlink p.heap w.previous x }) x size)
unfolding bytes_of others_of
split_lem {p} {bs} {size} {x} {k} {rest} i t w l = elim (Bool-cases (ltb 16 (k - size))) [
  | inl q ↦ rw (split_halves i t w q) (
      Returns-bind _ (Halved p size x k rest) _ (λ h. some (record p { heap = h }))
        (walk_lem rest (suc p.pool_mem_size) (ready i t w l (ground (arith, q)))
          (omega (arith, Fits-length rest (p.pool_memory - 1) p.end (fits i t w), i.room, i.real)))
        (λ h j. (h, refl, rw (q) (halves-Parted i t w l (ground (arith, q)) j))))
  | inr q ↦
      rw (split_whole i t w q) (unlink p.heap w.previous x, refl, rw (q) (unlink-Parted i t w))
]
