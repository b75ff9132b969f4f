-- ===== src/Pool.antt =====
-- src/memory.cpp: the pools. A pool keeps a header, a size and the address of the next free block, in
-- front of each block; the headers stand by their address in `heap`, the pool's own `start` too, and
-- 0 is null. The bytes between the headers are the user's. A function returns `none` where the C++
-- code reads through a null pointer, or where a walk is longer than the pool.
pub mod Joining
pub mod Placing
pub mod Giving
pub mod Ranges
pub mod Freeing
pub mod Fitting
pub mod Fits
pub mod Splitting
pub mod Gaps
pub mod Allocating
pub mod Requests
use quark_ts_cpp.Prelude.{
  ℕ, zero, suc, ◌+◌, Bool, true, false, not, ◌&&◌, Option, none, some, bit_and, ltb, ◌==◌,
  if◌then◌else◌, ◌>>=◌,
}
use quark_ts_cpp.Prelude.Word.{add_word, sub_word}
use quark_ts_cpp.Prelude.Bits.{complement, multiple_set, multiple_clear, multiple_get}

-- `blockConnect_t`
pub record Block : Type 0 where
  pub next : ℕ
  pub block_size : ℕ

pub record Pool : Type 0 where
  pub heap : ℕ → Block
  pub start : ℕ
  pub end : ℕ
  pub pool_memory : ℕ
  pub pool_mem_size : ℕ
  pub free_bytes_remaining : ℕ

abbrev pub byte_align_mask : ℕ
byte_align_mask = 7

abbrev pub block_allocated_bit : ℕ
block_allocated_bit = 0x80000000

abbrev pub heap_struct_size : ℕ
heap_struct_size = 8

unfoldable pub put : (ℕ → Block) → ℕ → Block → (ℕ → Block)
put h a b x = if x == a then b else h x

-- The first loop of `insertBlockIntoFreeList`: the last free block below `x`.
unfoldable pub seek : (ℕ → Block) → ℕ → ℕ → ℕ → Option ℕ
seek h zero i x = none
seek h (suc n) i x =
    let rest = seek h n (h i).next x in
    if i == 0 then none else (if ltb (h i).next x then rest else some i)

-- The block `i` takes the block `x` that begins at its end.
unfoldable pub join_up : (ℕ → Block) → ℕ → ℕ → (ℕ → Block) × ℕ
unfolding put
join_up h i x =
    let size = add_word (h i).block_size (h x).block_size in
    if add_word i (h i).block_size == x
    then (put h i (record (h i) { block_size = size }), i)
    else (h, x)

-- The block `x` takes the block `after` that begins at its end, unless that is the end of the pool.
unfoldable pub join_down : (ℕ → Block) → ℕ → ℕ → ℕ → Option (ℕ → Block)
unfolding put
join_down h e after x =
    let size = add_word (h x).block_size (h after).block_size in
    let joined = put h x (record { next = (h after).next; block_size = size }) in
    let inner = if after == 0 then none else some joined in
    let last = some (put h x (record (h x) { next = e })) in
    let apart = some (put h x (record (h x) { next = after })) in
    if add_word x (h x).block_size == after
    then (if not (after == e) then inner else last)
    else apart

unfoldable pub insert_at : (ℕ → Block) → ℕ → ℕ → ℕ → Option (ℕ → Block)
unfolding join_up join_down put
insert_at h e i x =
    let (h1, x1) = join_up h i x in
    join_down h1 e (h1 i).next x1 >>= λ h2.
    some (if not (i == x1) then put h2 i (record (h2 i) { next = x1 }) else h2)

unfoldable pub insert_block_into_free_list : Pool → ℕ → Option Pool
unfolding seek insert_at
insert_block_into_free_list p x = seek p.heap (suc p.pool_mem_size) p.start x >>= λ i.
    insert_at p.heap p.end i x >>= λ h. some (record p { heap = h })

-- The block `c` with the header `b` counts as free, with `size` bytes.
unfoldable pub uncount : Pool → ℕ → Block → ℕ → Pool
unfolding put
uncount p c b size = record p {
  heap = put p.heap c (record b { block_size = size });
  free_bytes_remaining = add_word p.free_bytes_remaining size;
}

-- What `free` does with the header `b` at `c`.
unfoldable pub release : Pool → ℕ → Block → Option Pool
unfolding insert_block_into_free_list uncount multiple_get multiple_clear
release p c b =
    let size = multiple_clear b.block_size block_allocated_bit in
    let freed = insert_block_into_free_list (uncount p c b size) c in
    if multiple_get b.block_size block_allocated_bit && (b.next == 0) then freed else some p

unfoldable pub free : Pool → ℕ → Option Pool
unfolding release
free p ptr =
    let c = sub_word ptr heap_struct_size in
    let freed = if c == 0 then none else release p c (p.heap c) in
    if ptr == 0 then some p else freed

abbrev pub align_down : ℕ → ℕ
align_down a = bit_and a (complement byte_align_mask)

unfoldable pub init : Pool → Pool
unfolding put
init p =
    let up = align_down (add_word p.pool_memory byte_align_mask) in
    let odd = not (bit_and p.pool_memory byte_align_mask == 0) in
    let aligned = if odd then up else p.pool_memory in
    let total =
      if odd then sub_word p.pool_mem_size (sub_word up p.pool_memory) else p.pool_mem_size in
    let e = align_down (sub_word (add_word aligned total) heap_struct_size) in
    let size = sub_word e aligned in
    let h1 = put p.heap p.start (record { next = aligned; block_size = 0 }) in
    let h2 = put h1 e (record { next = 0; block_size = 0 }) in
    record p {
      heap = put h2 aligned (record { next = e; block_size = size });
      end = e;
      free_bytes_remaining = size;
    }

unfoldable pub setup : Pool → ℕ → ℕ → Pool × Bool
unfolding init
setup p area size =
    let p1 = record p {
      pool_memory = area;
      pool_mem_size = size;
      free_bytes_remaining = size;
      end = 0;
    } in
    if not (area == 0) && ltb 0 size then (init p1, true) else (p, false)

-- The bytes that `alloc` takes for a request: the header, and up to the alignment.
unfoldable pub request : ℕ → ℕ
request size =
    let additional = sub_word (heap_struct_size + 8) (bit_and size byte_align_mask) in
    let taken = if ltb (sub_word 0xFFFFFFFF additional) size then 0 else add_word size additional in
    if ltb 0 size then taken else size

-- The loop of `alloc`: a block and the one before it.
unfoldable pub first_fit : (ℕ → Block) → ℕ → ℕ → ℕ → ℕ → Option (ℕ × ℕ)
first_fit h zero previous x size = none
first_fit h (suc n) previous x size =
    let rest = first_fit h n x (h x).next size in
    let more = ltb (h x).block_size size && not ((h x).next == 0) in
    if x == 0 then none else (if more then rest else some (previous, x))

-- The header `x` without `left` bytes, and a header for them at `link`.
unfoldable pub cut : (ℕ → Block) → ℕ → ℕ → ℕ → ℕ → (ℕ → Block)
unfolding put
cut h x size link left =
    let h1 = put h link (record (h link) { block_size = left }) in
    put h1 x (record (h1 x) { block_size = size })

-- The end of a block that is larger than needed goes back.
unfoldable pub split : Pool → ℕ → ℕ → Option Pool
unfolding insert_block_into_free_list cut
split p x size =
    let left = sub_word (p.heap x).block_size size in
    let link = add_word x size in
    let halves = record p { heap = cut p.heap x size link left } in
    let parted = insert_block_into_free_list halves link in if ltb 16 left then parted else some p

-- The block `x` counts as allocated.
unfoldable pub mark : Pool → ℕ → Pool
unfolding put multiple_set
mark p x =
    let size = (p.heap x).block_size in
    record p {
      heap = put p.heap x (record { next = 0; block_size = multiple_set size block_allocated_bit });
      free_bytes_remaining = sub_word p.free_bytes_remaining size;
    }

unfoldable pub unlink : (ℕ → Block) → ℕ → ℕ → (ℕ → Block)
unfolding put
unlink h previous x = put h previous (record (h previous) { next = (h x).next })

-- What `alloc` does with the block that it finds.
unfoldable pub grant : Pool → ℕ → ℕ → ℕ → Option (Pool × ℕ)
unfolding split mark unlink
grant p size previous x =
    let unlinked = record p { heap = unlink p.heap previous x } in
    let ptr = add_word (p.heap previous).next heap_struct_size in
    let granted = split unlinked x size >>= λ p1. some (mark p1 x, ptr) in
    if not (x == p.end) then granted else some (p, 0)

unfoldable pub alloc : Pool → ℕ → Option (Pool × ℕ)
unfolding request first_fit grant multiple_get
alloc p p_size =
    let size = request p_size in
    let first = (p.heap p.start).next in
    let found = first_fit p.heap (suc p.pool_mem_size) p.start first size >>= λ (previous, x).
    grant p size previous x in
    if not (multiple_get size block_allocated_bit) && ltb 0 size && ltb size p.free_bytes_remaining
    then found
    else some (p, 0)

unfoldable pub get_free_size : Pool → ℕ
get_free_size p = if not (p.end == 0) then p.free_bytes_remaining else p.pool_mem_size

unfoldable pub is_initialized : Pool → Bool
is_initialized p = not (p.pool_memory == 0) && ltb 0 p.pool_mem_size
