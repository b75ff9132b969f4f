-- ===== src/Pool/Requests.antt =====
-- `pool::alloc`: which requests are met.
use quark_ts_cpp.Prelude.{
  ℕ, suc, ◌+◌, ◌-◌, ◌%◌, ◌^◌, ◌<◌, ◌≡◌, refl, ap, ◌∙◌, Bool, true, false, not, ◌&&◌, List, arith,
  All, Option, some, none, ltb, lt→ltb, ◌>>=◌, if◌then◌else◌,
}
use quark_ts_cpp.Prelude.Returns.{Returns}
use quark_ts_cpp.Prelude.Bits.{multiple_get, multiple_get_power, digit_none, bit_and_seven}
use quark_ts_cpp.Pool.{Pool, block_allocated_bit, request, first_fit, grant, alloc}
use quark_ts_cpp.Pool.Joining.{Extent, head_of}
use quark_ts_cpp.Pool.Ranges.{Fits-length}
use quark_ts_cpp.Pool.Freeing.{Holds}
use quark_ts_cpp.Pool.Fitting.{Fit, exhausted_walk}
use quark_ts_cpp.Pool.Splitting.{split_lem}
use quark_ts_cpp.Pool.Allocating.{Granted, walked, grant_lem, grant_end}

-- A request below 2^31 is that of the bytes, the header, and up to the next multiple of 8.
request_lem : (s : ℕ) → 0 < s → s + 16 < 2 ^ 31 → request s ≡ s + 16 - s % 8
unfolding request
request_lem s l m = rw (bit_and_seven s) (ground (arith, l, m))

unfoldable search_from : Pool → ℕ → ℕ → Option (Pool × ℕ)
search_from p size first =
    first_fit p.heap (suc p.pool_mem_size) p.start first size >>= λ (previous, x).
    grant p size previous x

abbrev answer : Pool → ℕ → ℕ → Option (Pool × ℕ)
answer p size first =
    if not (multiple_get size block_allocated_bit) && ltb 0 size && ltb size p.free_bytes_remaining
    then search_from p size first
    else some (p, 0)

alloc-answer : (p : Pool) (s : ℕ) → alloc p s ≡ answer p (request s) (p.heap p.start).next
unfolding alloc search_from
alloc-answer p s = refl

not_allocated : (n : ℕ) → n < 2 ^ 31 → multiple_get n block_allocated_bit ≡ false
not_allocated n l = multiple_get_power n 31 ∙ rw (digit_none 31 n l) refl

answer_searches :
    (p : Pool) (size first : ℕ)
    → size < 2 ^ 31
    → 0 < size
    → size < p.free_bytes_remaining
    → answer p size first ≡ search_from p size first
answer_searches p size first a b c =
    rw (not_allocated size a, lt→ltb 0 size b, lt→ltb size p.free_bytes_remaining c) refl

search_ends :
    (p : Pool) (size first previous x : ℕ)
    → first_fit p.heap (suc p.pool_mem_size) p.start first size ≡ some (previous, x)
    → search_from p size first ≡ grant p size previous x
unfolding search_from
search_ends p size first previous x e = ap (λ o. o >>= λ (previous, x). grant p size previous x) e

-- A request of `s` bytes, with fewer than 2^31 bytes asked for and fewer than are free, when some
-- free block is large enough: `alloc` returns the address behind the header of the first such block,
-- that block is the user's and counts as allocated, and the free blocks of the pool are the others,
-- with the end of the block where more than 16 bytes are left of it.
pub alloc_lem :
    {p : Pool} {bs : List Extent} {x k : ℕ} {rest : List Extent} (s : ℕ)
    → Holds p bs
    → 0 < s
    → s + 16 < 2 ^ 31
    → request s < p.free_bytes_remaining
    → Fit (request s) bs x k rest
    → Returns (Granted (request s) x k rest) (alloc p s)
alloc_lem {p} {bs} {x} {k} {rest} s i l m f t =
    let size : request s < 2 ^ 31 = omega (arith, request_lem s l m, m) in
    let real : 0 < request s = omega (arith, request_lem s l m) in
    let w = walked i t real in
    rw
      (
        alloc-answer p s,
        answer_searches p (request s) (p.heap p.start).next size real f,
        ap (λ b. b.next) i.nodes.0,
      )
      (rw (search_ends p (request s) (head_of bs p.end) w.previous x w.found)
        (grant_lem i t real w.previous w.points (split_lem i t w real)))

search_fails :
    {p : Pool} {bs : List Extent} (size : ℕ)
    → Holds p bs
    → All (λ b. ltb b.1 size ≡ true) bs
    → search_from p size (head_of bs p.end) ≡ some (p, 0)
unfolding search_from
search_fails {p} {bs} size i t =
    ended (first_fit p.heap (suc p.pool_mem_size) p.start (head_of bs p.end) size) (
      exhausted_walk size p.heap (suc p.pool_mem_size) p.start 0 (p.pool_memory - 1) bs p.end t
        (omega (arith, Fits-length bs (p.pool_memory - 1) p.end i.fits, i.room, i.real)) i.nodes
        i.fits i.real_end i.last)
  where
    ended :
        (o : Option (ℕ × ℕ))
        → Returns (λ r. r.1 ≡ p.end) o
        → (o >>= λ (previous, x). grant p size previous x) ≡ some (p, 0)
    ended none r = absurd r
    ended (some (previous, x)) r = grant_end p size previous x r

-- When every free block is too small, `alloc` returns null and the pool is as before.
pub alloc_fails :
    {p : Pool} {bs : List Extent} (s : ℕ)
    → Holds p bs
    → All (λ b. ltb b.1 (request s) ≡ true) bs
    → alloc p s ≡ some (p, 0)
alloc_fails {p} {bs} s i t =
    alloc-answer p s ∙ rw (ap (λ b. b.next) i.nodes.0, search_fails (request s) i t) (no_choice _ _)
  where
    no_choice : (b : Bool) (o : Option (Pool × ℕ)) → (if b then o else o) ≡ o
    no_choice true o = refl
    no_choice false o = refl
