-- ===== src/Pool/Freeing.antt =====
-- `pool::free`: a block of a user goes back to the pool.
use quark_ts_cpp.Prelude.{
  ℕ, suc, ◌+◌, ◌-◌, ◌^◌, ◌<◌, ◌≤◌, ◌≡◌, ◌≢◌, ◌⊎◌, inl, inr, refl, ap, subst, ◌∙◌, true, List, ◌∷◌,
  arith, Option, some, none, ◌==◌, ◌>>=◌, if◌then◌else◌,
}
use quark_ts_cpp.Prelude.Word.{modulus, sub_word}
use quark_ts_cpp.Prelude.Returns.{Returns, Returns-bind}
use quark_ts_cpp.Prelude.Bits.{
  multiple_clear, multiple_get, multiple_get_power, digit_top, clear_top,
}
use quark_ts_cpp.Pool.{
  Block, Pool, block_allocated_bit, heap_struct_size, put, insert_block_into_free_list, free,
  release, uncount,
}
use quark_ts_cpp.Pool.Ranges.{
  Gap-Other, Gap-below, Fits-length, Fits-total, Fits-outside, Fits-last,
}
use quark_ts_cpp.Pool.Joining.{
  Extent, block, Nodes, Fits, Other, Joins, Joined, rejoin, Fits-Other, Nodes-put,
}
use quark_ts_cpp.Pool.Placing.{walk, walk_lem, insert_walk, real_test}
use quark_ts_cpp.Pool.Giving.{total, Gap, give, rejoin-give, total-give, give-Fits}

-- The pool's free blocks are `bs`: the headers link them from `start` to `end`, they stand in the
-- area in order and apart from each other, and the counter of the free bytes is their sum. The
-- pool's own `start` stands outside the area.
pub record Holds (p : Pool) (bs : List Extent) : Type 0 where
  pub nodes : Nodes p.heap ((p.start, 0) ∷ bs) p.end
  pub fits : Fits (p.pool_memory - 1) bs p.end
  pub real : 0 < p.pool_memory
  pub room : p.end + heap_struct_size ≤ p.pool_memory + p.pool_mem_size
  pub last : p.heap p.end ≡ block 0 0
  pub real_end : 0 < p.end
  pub small : p.end + heap_struct_size ≤ modulus
  pub bounded : p.pool_mem_size < 2 ^ 31
  pub real_start : 0 < p.start
  pub small_start : p.start < modulus
  pub outside : (p.start < p.pool_memory) ⊎ (p.end < p.start)
  pub count : p.free_bytes_remaining ≡ total bs

-- A block of a user: it stands between the free blocks, and its header has the allocated bit.
pub record IsUsed (p : Pool) (bs : List Extent) (c n : ℕ) : Type 0 where
  pub header : p.heap c ≡ block 0 (n + 2 ^ 31)
  pub inside : p.pool_memory ≤ c
  pub gap : Gap (p.pool_memory - 1) bs p.end c n
  pub filled : 0 < n
  pub small : n < 2 ^ 31

pub start-Other : {p : Pool} {bs : List Extent} → Holds p bs → Other p.start bs
start-Other {p} {bs} i = elim i.outside [
  | inl l ↦ Fits-Other bs (p.pool_memory - 1) p.start p.end i.fits (omega (arith, l, i.real))
  | inr l ↦ Fits-outside bs (p.pool_memory - 1) p.end p.start i.fits l
]

-- The header of a block without the bit.
module _ (n : ℕ) (l : n < 2 ^ 31) where
  allocated : multiple_get (n + 2 ^ 31) block_allocated_bit ≡ true
  allocated = multiple_get_power (n + 2 ^ 31) 31 ∙ rw (digit_top 31 n l) refl

  cleared : multiple_clear (n + 2 ^ 31) block_allocated_bit ≡ n
  unfolding multiple_clear
  cleared = clear_top 31 n l

  release_eq :
      (p : Pool) (c : ℕ)
      → release p c (block 0 (n + 2 ^ 31))
        ≡ insert_block_into_free_list (uncount p c (block 0 (n + 2 ^ 31)) n) c
  unfolding release
  release_eq p c =
      rw (allocated)
        (ap (λ s. insert_block_into_free_list (uncount p c (block 0 (n + 2 ^ 31)) s) c) cleared)

abbrev freed : Pool → ℕ → ℕ → Option Pool
freed p ptr c = if ptr == 0 then some p else (if c == 0 then none else release p c (p.heap c))

freed_eq : (p : Pool) (ptr c : ℕ) → 0 < c → 0 < ptr → freed p ptr c ≡ release p c (p.heap c)
freed_eq p ptr c l r = rw (real_test c l, real_test ptr r) refl

free_release :
    (p : Pool) (ptr c : ℕ)
    → sub_word ptr heap_struct_size ≡ c
    → 0 < c
    → 0 < ptr
    → free p ptr ≡ release p c (p.heap c)
unfolding free
free_release p ptr c e l r = ap (freed p ptr) e ∙ freed_eq p ptr c l r

module _ {p : Pool} {bs : List Extent} {c n : ℕ} (i : Holds p bs) (u : IsUsed p bs c n) where
  below : c + n ≤ p.end
  below = Gap-below bs (p.pool_memory - 1) p.end c n i.fits u.gap

  apart : p.start ≢ c
  apart q = elim i.outside [
    | inl l ↦ omega (arith, l, q, u.inside)
    | inr l ↦ omega (arith, l, q, below)
  ]

  others : Other c bs
  others = Gap-Other bs (p.pool_memory - 1) p.end c n i.fits u.filled u.gap

  free_eq :
      free p (c + heap_struct_size)
      ≡ insert_block_into_free_list (uncount p c (block 0 (n + 2 ^ 31)) n) c
  free_eq =
      free_release p (c + heap_struct_size) c (omega (arith, below, i.small))
        (omega (arith, u.inside, i.real)) (omega arith)
      ∙ ap (release p c) u.header
      ∙ release_eq n u.small p c

  ready : Joins (put p.heap c (block 0 n)) p.start 0 c n bs p.end
  unfolding put
  ready = record {
    nodes = Nodes-put p.heap c (block 0 n) ((p.start, 0) ∷ bs) p.end (apart, others) i.nodes;
    from = p.pool_memory - 1;
    fits = i.fits;
    apart = apart;
    other = others;
    alone = start-Other i;
    sized = ground arith;
    below = below;
    small = omega (arith, i.small);
    real = i.real_start;
    real_block = omega (arith, u.inside, i.real);
    filled = u.filled;
    inside = omega (arith, i.small_start);
  }

  -- The pool with the headers `h`.
  abbrev given : (ℕ → Block) → Pool
  given h = record (uncount p c (block 0 (n + 2 ^ 31)) n) { heap = h }

  insert_eq : insert_block_into_free_list (uncount p c (block 0 (n + 2 ^ 31)) n) c ≡ (
      walk (put p.heap c (block 0 n)) p.end (suc p.pool_mem_size) p.start c >>= λ h. some (given h))
  unfolding uncount
  insert_eq = insert_walk (uncount p c (block 0 (n + 2 ^ 31)) n) c

  end_apart : p.end ≢ c
  end_apart q = omega (arith, q, below, u.filled)

  end_start : p.end ≢ p.start
  end_start q = elim i.outside [
    | inl l ↦ omega (arith, l, q, below, u.inside)
    | inr l ↦ omega (arith, l, q)
  ]

  given-Fits : Fits (p.pool_memory - 1) (give bs c n) p.end
  given-Fits =
      give-Fits bs c n (p.pool_memory - 1) p.end (omega (arith, u.inside, i.real)) u.filled i.fits
        u.gap

  given-Holds :
      {h : ℕ → Block}
      → Joined (put p.heap c (block 0 n)) p.start c bs p.end (rejoin p.start 0 bs c n) h
      → Holds (given h) (give bs c n)
  unfolding uncount put
  given-Holds {h} (m, r, frame) = record {
    nodes = subst (λ l. Nodes h l p.end) (rejoin-give p.start bs c n apart) m;
    fits =
        give-Fits bs c n (p.pool_memory - 1) p.end (omega (arith, u.inside, i.real)) u.filled i.fits
          u.gap;
    real = i.real;
    room = i.room;
    bounded = i.bounded;
    real_end = i.real_end;
    last =
        frame p.end end_apart end_start (Fits-last bs (p.pool_memory - 1) p.end i.fits)
        ∙ ground (arith, end_apart, i.last);
    small = i.small;
    real_start = i.real_start;
    small_start = i.small_start;
    outside = i.outside;
    count = omega (
      arith,
      i.count,
      i.small,
      total-give bs c n,
      Fits-total (give bs c n) (p.pool_memory - 1) p.end given-Fits,
    );
  }

  -- `free` of a block that a user has, by the address behind its header: it returns, and the free
  -- blocks of the pool are the old ones and that block, joined with the free blocks that it touches.
  pub free_lem : Returns (λ q. Holds q (give bs c n)) (free p (c + heap_struct_size))
  free_lem =
      rw (free_eq, insert_eq)
        (Returns-bind _ (λ q. Holds q (give bs c n)) _ (λ h. some (given h))
          (walk_lem bs (suc p.pool_mem_size) ready
            (omega (arith, Fits-length bs (p.pool_memory - 1) p.end i.fits, i.room, i.real)))
          (λ h j. given-Holds j))
