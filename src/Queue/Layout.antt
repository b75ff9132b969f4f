-- ===== src/Queue/Layout.antt =====
-- Where the pointers of a queue stand: at slots, in range, with no wrap of an address.
use quark_ts_cpp.Prelude.{ℕ, zero, suc, ◌+◌, ◌-◌, ◌*◌, ◌≤◌, ◌<◌, ◌≡◌, arith, ◌==◌, if◌then◌else◌}
use quark_ts_cpp.Prelude.Word.{modulus, add_word}
use quark_ts_cpp.Queue.{Queue, to_back, to_front, reset, advance, retreat, copy_data_to_queue}
use quark_ts_cpp.Queue.Deque.{Item}
use quark_ts_cpp.Queue.Slots.{Off, next_slot, mul_gap}

-- `q` has its reader at slot `r` and its writer at slot `w`.
pub record Layout (q : Queue) (r w : ℕ) : Type 0 where
  pub sized : 0 < q.item_size
  pub reader_in : r < q.items_count
  pub writer_in : w < q.items_count
  pub reader_at : q.reader ≡ q.head + r * q.item_size
  pub writer_at : q.writer ≡ q.head + w * q.item_size
  pub tail_at : q.tail ≡ q.head + q.items_count * q.item_size
  pub waiting_in : q.items_waiting ≤ q.items_count
  pub room_below : q.item_size ≤ q.head
  pub room_above : q.tail < modulus
  pub writer_off : Off q.items_count (next_slot q.items_count r) q.items_waiting w

abbrev pub prev_slot : ℕ → ℕ → ℕ
prev_slot cap s = if s == 0 then cap - 1 else s - 1

mul_up : (s size : ℕ) → (s + 1) * size ≡ s * size + size
mul_up s size = omega arith

mul_down : (s size : ℕ) → 0 < s → s * size ≡ (s - 1) * size + size
mul_down zero size h = absurd (omega arith)
mul_down (suc s) size h = rw (sub_one s) (omega arith)
  where
    sub_one : (s : ℕ) → suc s - 1 ≡ s
    sub_one s = omega arith

-- Moving a slot's address up or down an item gives the address of the next or the last slot.
module _ (q : Queue) (s : ℕ) (h : s < q.items_count) (p : 0 < q.item_size)
    (t : q.tail ≡ q.head + q.items_count * q.item_size) (m : q.tail < modulus) where
  pub advance-slot :
      advance q (q.head + s * q.item_size) ≡ q.head + next_slot q.items_count s * q.item_size
  advance-slot = ground (
    arith,
    mul_up s q.item_size,
    mul_gap s q.items_count q.item_size,
    mul_gap (s + 1) q.items_count q.item_size,
  )

  pub retreat-slot :
      q.item_size ≤ q.head
      → retreat q (q.head + s * q.item_size) ≡ q.head + prev_slot q.items_count s * q.item_size
  retreat-slot b = ground (
    arith,
    mul_down s q.item_size,
    mul_down q.items_count q.item_size,
    mul_gap s q.items_count q.item_size,
  )

le_mul : (n size : ℕ) → 0 < size → n ≤ n * size
le_mul n size h = grind arith

-- Where the pointers stand after each change of the queue.
module _ {q : Queue} {r w : ℕ} (v : Layout q r w) where
  abbrev next : ℕ → ℕ
  next = next_slot q.items_count

  pub count_small : q.items_count < modulus
  count_small = omega (arith, le_mul q.items_count q.item_size v.sized, v.tail_at, v.room_above)

  pub reader_advance : advance q q.reader ≡ q.head + next r * q.item_size
  reader_advance = rw v.reader_at (advance-slot q r v.reader_in v.sized v.tail_at v.room_above)

  pub writer_advance : advance q q.writer ≡ q.head + next w * q.item_size
  writer_advance = rw v.writer_at (advance-slot q w v.writer_in v.sized v.tail_at v.room_above)

  pub reader_retreat : retreat q q.reader ≡ q.head + prev_slot q.items_count r * q.item_size
  reader_retreat =
      rw v.reader_at (retreat-slot q r v.reader_in v.sized v.tail_at v.room_above v.room_below)

  pub taken-Layout :
      0 < q.items_waiting
      → Layout
          (record q { reader = advance q q.reader; items_waiting = q.items_waiting - 1 })
          (next r)
          w
  taken-Layout p = ground (arith, reader_advance)

  pub back-Layout :
      (x : Item)
      → q.items_waiting < q.items_count
      → Layout (copy_data_to_queue q x to_back) r (next w)
  unfolding copy_data_to_queue
  back-Layout x p = ground (arith, writer_advance, count_small)

  pub front-Layout :
      (x : Item)
      → q.items_waiting < q.items_count
      → Layout (copy_data_to_queue q x to_front) (prev_slot q.items_count r) w
  unfolding copy_data_to_queue
  front-Layout x p = ground (arith, reader_retreat, count_small)

  pub count_up : q.items_waiting < q.items_count → add_word q.items_waiting 1 ≡ suc q.items_waiting
  count_up p = omega (arith, count_small)

-- `reset` in an area with room for an item below it that ends below 2^32.
pub reset-Layout :
    (q : Queue)
    → 0 < q.item_size
    → 0 < q.items_count
    → q.item_size ≤ q.head
    → q.head + q.items_count * q.item_size < modulus
    → Layout (reset q) (q.items_count - 1) 0
unfolding reset
reset-Layout q p n b t = ground (
  arith,
  mul_gap 0 q.items_count q.item_size,
  mul_down q.items_count q.item_size,
  le_mul q.items_count q.item_size p,
)
