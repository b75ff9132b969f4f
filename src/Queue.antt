-- ===== src/Queue.antt =====
-- src/queue.cpp: a FIFO of fixed-size items in an area given by the caller. `head`, `tail`,
-- `reader` and `writer` are addresses; `reader` stands one item before the front. Each body in a
-- `critical::scope` is one step. A function returns the new queue beside its result.
pub mod Deque
pub mod Slots
pub mod Layout
pub mod Refine
pub mod Run
use quark_ts_cpp.Prelude.{
  ℕ, ◌-◌, Bool, true, false, not, ◌&&◌, Option, none, some, List, ◌==◌, ltb, leb, if◌then◌else◌,
}
use quark_ts_cpp.Prelude.Word.{add_word, sub_word, mul_word}
use quark_ts_cpp.Memory.{Memory, read_bytes, write_bytes}

-- `queueSendMode`
pub data SendMode : Type 0 where
  to_front to_back : SendMode

-- The fields of `queue`, and the memory that its pointers point into.
pub record Queue : Type 0 where
  pub memory : Memory
  pub head : ℕ
  pub tail : ℕ
  pub reader : ℕ
  pub writer : ℕ
  pub items_waiting : ℕ
  pub items_count : ℕ
  pub item_size : ℕ

unfoldable pub reset : Queue → Queue
reset q = record q {
  tail = add_word q.head (mul_word q.items_count q.item_size);
  items_waiting = 0;
  writer = q.head;
  reader = add_word q.head (mul_word (q.items_count - 1) q.item_size);
}

-- The null pointer is 0.
unfoldable pub setup : Queue → ℕ → ℕ → ℕ → Queue × Bool
unfolding reset
setup q p_data size count =
    if not (p_data == 0) && (ltb 0 size && ltb 0 count)
    then (reset (record q { items_count = count; item_size = size; head = p_data }), true)
    else (q, false)

unfoldable pub is_empty : Queue → Bool
is_empty q = q.items_waiting == 0

unfoldable pub is_full : Queue → Bool
is_full q = q.items_waiting == q.items_count

unfoldable pub count : Queue → ℕ
count q = q.items_waiting

unfoldable pub items_available : Queue → ℕ
items_available q = sub_word q.items_count q.items_waiting

-- A pointer moved one item up, back to `head` at `tail`.
abbrev pub advance : Queue → ℕ → ℕ
advance q p = let p' = add_word p q.item_size in if leb q.tail p' then q.head else p'

-- A pointer moved one item down, to the last item below `head`.
abbrev pub retreat : Queue → ℕ → ℕ
retreat q p =
    let p' = sub_word p q.item_size in if ltb p' q.head then sub_word q.tail q.item_size else p'

unfoldable pub move_reader : Queue → Queue
move_reader q = record q { reader = advance q q.reader }

unfoldable pub remove_front : Queue → Queue × Bool
unfolding move_reader
remove_front q =
    if ltb 0 q.items_waiting
    then (record (move_reader q) { items_waiting = q.items_waiting - 1 }, true)
    else (q, false)

-- What `copyDataFromQueue` leaves in `dst`, beside the queue.
unfoldable pub copy_data_from_queue : Queue → Queue × List ℕ
unfolding move_reader
copy_data_from_queue q = let q' = move_reader q in (q', read_bytes q'.memory q'.reader q'.item_size)

-- `none`: nothing received, `dst` untouched.
unfoldable pub receive : Queue → Queue × Option (List ℕ)
unfolding copy_data_from_queue
receive q =
    let (q', dst) = copy_data_from_queue q in
    if ltb 0 q.items_waiting
    then (record q' { items_waiting = q.items_waiting - 1 }, some dst)
    else (q, none)

-- The item is given by the `item_size` bytes at `itemToQueue`.
copy_to_back : Queue → List ℕ → Queue
copy_to_back q item = record q {
  memory = write_bytes q.memory q.writer item;
  writer = advance q q.writer;
}

copy_to_front : Queue → List ℕ → Queue
copy_to_front q item = record q {
  memory = write_bytes q.memory q.reader item;
  reader = retreat q q.reader;
}

copy_at : Queue → List ℕ → SendMode → Queue
unfolding copy_to_back copy_to_front
copy_at q item to_back = copy_to_back q item
copy_at q item to_front = copy_to_front q item

unfoldable pub copy_data_to_queue : Queue → List ℕ → SendMode → Queue
unfolding copy_at
copy_data_to_queue q item x_position = record (copy_at q item x_position) {
  items_waiting = add_word q.items_waiting 1;
}

unfoldable pub send : Queue → List ℕ → SendMode → Queue × Bool
unfolding copy_data_to_queue
send q item pos =
    if ltb q.items_waiting q.items_count then (copy_data_to_queue q item pos, true) else (q, false)

-- The address of the front item; `none` is the null pointer.
unfoldable pub peek : Queue → Option ℕ
peek q = if ltb 0 q.items_waiting then some (advance q q.reader) else none

unfoldable pub is_initialized : Queue → Bool
is_initialized q = not (q.head == 0)

unfoldable pub get_item_size : Queue → ℕ
get_item_size q = q.item_size
