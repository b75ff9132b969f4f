-- ===== src/Tests/Pools.antt =====
-- A pool of 128 bytes at the address 64, whose end stands at 184.
use quark_ts_cpp.Prelude.{◌+◌, ◌^◌, ◌≡◌, refl, inl, [], ◌∷◌, arith, some}
use quark_ts_cpp.Prelude.Returns.{Returns}
use quark_ts_cpp.Pool.{Pool, put, init, setup, request, alloc, free}
use quark_ts_cpp.Pool.Joining.{block}
use quark_ts_cpp.Pool.Giving.{give}
use quark_ts_cpp.Pool.Freeing.{Holds, IsUsed, free_lem}
use quark_ts_cpp.Pool.Fitting.{Fit, here}
use quark_ts_cpp.Pool.Allocating.{Granted}
use quark_ts_cpp.Pool.Requests.{alloc_lem, alloc_fails}

abbrev blank : Pool
blank = record {
  heap = λ a. block 0 0;
  start = 8;
  end = 0;
  pool_memory = 0;
  pool_mem_size = 0;
  free_bytes_remaining = 0;
}

abbrev whole : Pool
whole = (setup blank 64 128).0

whole-Holds : Holds whole ((64, 120) ∷ [])
unfolding setup init put
whole-Holds = record {
  nodes = (refl, (refl, tt));
  fits = (omega arith, omega arith, omega arith);
  real = omega arith;
  room = omega arith;
  last = refl;
  real_end = omega arith;
  small = omega arith;
  bounded = omega arith;
  real_start = omega arith;
  small_start = omega arith;
  outside = inl (omega arith);
  count = refl;
}

request_8 : request 8 ≡ 24
unfolding request
request_8 = refl

first_block : Fit (request 8) ((64, 120) ∷ []) 64 120 []
unfolding request
first_block = here 64 120 [] refl

alloc_lem_example : Returns (Granted (request 8) 64 120 []) (alloc whole 8)
unfolding request setup init
alloc_lem_example = alloc_lem 8 whole-Holds (omega arith) (omega arith) (omega arith) first_block

alloc_fails_example : alloc whole 120 ≡ some (whole, 0)
unfolding request
alloc_fails_example = alloc_fails 120 whole-Holds (refl, tt)

-- The block at 64 is a user's.
abbrev used : Pool
used = record whole {
  heap =
      put (put (put (put blank.heap 8 (block 88 0)) 64 (block 0 (24 + 2 ^ 31))) 88 (block 184 96))
        184 (block 0 0);
  free_bytes_remaining = 96;
}

used-Holds : Holds used ((88, 96) ∷ [])
unfolding setup init put
used-Holds = record {
  nodes = (refl, (refl, tt));
  fits = (omega arith, omega arith, omega arith);
  real = omega arith;
  room = omega arith;
  last = refl;
  real_end = omega arith;
  small = omega arith;
  bounded = omega arith;
  real_start = omega arith;
  small_start = omega arith;
  outside = inl (omega arith);
  count = refl;
}

used-IsUsed : IsUsed used ((88, 96) ∷ []) 64 24
unfolding setup init put
used-IsUsed = record {
  header = refl;
  inside = omega arith;
  gap = inl (omega arith, omega arith);
  filled = omega arith;
  small = omega arith;
}

joined : give ((88, 96) ∷ []) 64 24 ≡ (64, 120) ∷ []
unfolding give
joined = refl

free_lem_example : Returns (λ q. Holds q (give ((88, 96) ∷ []) 64 24)) (free used 72)
free_lem_example = free_lem used-Holds used-IsUsed
