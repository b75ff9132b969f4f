-- ===== src/Queue/Refine.antt =====
-- A queue holds a deque of items, and each call does to it what the deque's call does.
use quark_ts_cpp.Prelude.{
  not, ◌&&◌, ◌↔◌, ℕ, zero, suc, ◌+◌, ◌-◌, ◌*◌, ◌≤◌, ◌<◌, ◌≡◌, refl, sym, ◌∙◌, ap, lt→ltb, ltb→lt,
  Bool, true, false, some, [], ◌∷◌, ◌++◌, arith, ◌==◌, ltb, length, Bool-cases, inl, inr,
}
use mathlib.Core.Option
use quark_ts_cpp.Prelude.Word.{modulus}
use quark_ts_cpp.Memory.{read_bytes}
use quark_ts_cpp.Queue.{
  Queue, SendMode, to_back, to_front, setup, reset, remove_front, receive, send, peek, count,
  advance, copy_data_to_queue, is_empty, is_full, items_available,
}
use quark_ts_cpp.Queue.Deque
use quark_ts_cpp.Queue.Deque.{Item, Deque, Call, sends, receives, removes, resets, Reply, done, got}
use quark_ts_cpp.Queue.Slots.{
  next_slot, slot_at, window, length-window, window-write_bytes_back, window-write_bytes_front,
}
use quark_ts_cpp.Queue.Layout.{
  Layout, prev_slot, reader_advance, taken-Layout, back-Layout, front-Layout, reset-Layout,
  count_up, count_small,
}

-- The items that wait in `q`, front first, when its reader stands at slot `r`.
abbrev items : Queue → ℕ → Deque
items q r =
    window q.head q.items_count q.item_size q.memory (next_slot q.items_count r) q.items_waiting

-- `q` is laid out well and holds the items of `d`, front first.
pub record Holds (q : Queue) (d : Deque) : Type 0 where
  pub r : ℕ
  pub w : ℕ
  pub layout : Layout q r w
  pub held : items q r ≡ d

pub waiting-length : {q : Queue} {d : Deque} → Holds q d → q.items_waiting ≡ length d
waiting-length {q} h =
    sym (
      length-window q.head q.items_count q.item_size q.memory (next_slot q.items_count h.r)
        q.items_waiting)
    ∙ ap length h.held

-- The counts and tests answer for the items held: how many, how many more fit, none, and no room.
pub counts_refine :
    {q : Queue} {d : Deque}
    → Holds q d
    → (count q ≡ length d)
      × (items_available q + length d ≡ q.items_count)
      × ((is_empty q ≡ true) ↔ (length d ≡ 0))
      × ((is_full q ≡ true) ↔ (length d ≡ q.items_count))
unfolding count items_available is_empty is_full
counts_refine {q} h =
    let e = waiting-length h in
    let b = h.layout.waiting_in in
    let m = count_small h.layout in (e, omega arith, ground arith, ground arith)

module _ (q : Queue) where
  window_of_pos :
      (s n : ℕ)
      → 0 < n
      → window q.head q.items_count q.item_size q.memory s n
        ≡ read_bytes q.memory (slot_at q.head q.item_size s) q.item_size
          ∷ window q.head q.items_count q.item_size q.memory (next_slot q.items_count s) (n - 1)
  unfolding window
  window_of_pos s zero h = absurd (omega arith)
  window_of_pos s (suc n) h =
      ap (λ k. window q.head q.items_count q.item_size q.memory s (suc k)) (omega arith)

-- The front item and the rest, when something waits.
front_split :
    {q : Queue} {x : Item} {d : Deque} (h : Holds q (x ∷ d))
    → (0 < q.items_waiting)
      × (read_bytes q.memory (advance q q.reader) q.item_size ≡ x)
      × Holds (record q { reader = advance q q.reader; items_waiting = q.items_waiting - 1 }) d
front_split {q} {x} {d} h =
    let e = window_of_pos q (next_slot q.items_count h.r) q.items_waiting (waits h) in
    (
      waits h,
      rw (reader_advance h.layout) (ground (arith, e, h.held)),
      record {
        r = next_slot q.items_count h.r;
        w = h.w;
        layout = taken-Layout h.layout (waits h);
        held = ground (arith, e, h.held);
      },
    )
  where
    waits : Holds q (x ∷ d) → 0 < q.items_waiting
    waits h = omega (arith, waiting-length h)

none_wait : {q : Queue} → Holds q [] → ltb 0 q.items_waiting ≡ false
none_wait h = ground (arith, waiting-length h)

-- `receive` copies out the front item and leaves the rest; on an empty queue it fails and changes
-- nothing.
pub receive_refines :
    {q : Queue} {d : Deque}
    → Holds q d
    → ((receive q).1 ≡ (Deque.receive d).1) × Holds (receive q).0 (Deque.receive d).0
unfolding receive Deque.receive
receive_refines {d = []} h = rw (none_wait h) (refl, h)
receive_refines {q} {d = x ∷ d} h =
    let (p, e, t) = front_split h in rw (lt→ltb 0 q.items_waiting p) (ap some e, t)

-- `removeFront` drops the front item; on an empty queue it fails and changes nothing.
pub remove_front_refines :
    {q : Queue} {d : Deque}
    → Holds q d
    → ((remove_front q).1 ≡ (Deque.remove_front d).1)
      × Holds (remove_front q).0 (Deque.remove_front d).0
unfolding remove_front Deque.remove_front
remove_front_refines {d = []} h = rw (none_wait h) (refl, h)
remove_front_refines {q} {d = x ∷ d} h =
    let (p, e, t) = front_split h in rw (lt→ltb 0 q.items_waiting p) (refl, t)

-- `peek` gives the address of the front item, and the null pointer on an empty queue only.
pub peek_refines :
    {q : Queue} {d : Deque}
    → Holds q d
    → Option.map (λ a. read_bytes q.memory a q.item_size) (peek q) ≡ Deque.front d
unfolding peek Deque.front
peek_refines {d = []} h = rw (none_wait h)
peek_refines {q} {d = x ∷ d} h =
    let (p, e, t) = front_split h in rw (lt→ltb 0 q.items_waiting p) (ap some e)

next-prev : (cap r : ℕ) → r < cap → next_slot cap (prev_slot cap r) ≡ r
next-prev cap r h = ground arith

-- The storing half of `send`, when there is room.
put_in :
    {q : Queue} {d : Deque} (x : Item) (pos : SendMode)
    → length x ≡ q.item_size
    → Holds q d
    → q.items_waiting < q.items_count
    → Holds (copy_data_to_queue q x pos) (Deque.insert_at d x pos)
unfolding copy_data_to_queue Deque.insert_at
put_in {q} {d} x to_back e h p = record {
  r = h.r;
  w = next_slot q.items_count h.w;
  layout = unfold copy_data_to_queue in back-Layout h.layout x p;
  held =
      rw (count_up h.layout p, h.layout.writer_at)
        (window-write_bytes_back q.head q.items_count q.item_size q.memory
            (next_slot q.items_count h.r) q.items_waiting h.w x e (ground arith) h.layout.writer_in
            p h.layout.writer_off
          ∙ ap (λ t. t ++ x ∷ []) h.held);
}
put_in {q} {d} x to_front e h p = record {
  r = prev_slot q.items_count h.r;
  w = h.w;
  layout = front-Layout h.layout x p;
  held =
      rw (count_up h.layout p, h.layout.reader_at, next-prev q.items_count h.r h.layout.reader_in)
        (window-write_bytes_front q.head q.items_count q.item_size q.memory h.r q.items_waiting x e
            h.layout.reader_in p
          ∙ ap (λ t. x ∷ t) h.held);
}

-- `send` puts the item behind the last one or before the first; on a full queue it fails and
-- changes nothing.
pub send_refines :
    {q : Queue} {d : Deque} (x : Item) (pos : SendMode)
    → length x ≡ q.item_size
    → Holds q d
    → let (d', ok) = Deque.send q.items_count d x pos in
      ((send q x pos).1 ≡ ok) × Holds (send q x pos).0 d'
unfolding send Deque.send
send_refines {q} {d} x pos e h = elim (Bool-cases (ltb q.items_waiting q.items_count)) [
  | inl room ↦ rw (room, same room) (refl, put_in x pos e h (ltb→lt _ _ room))
  | inr full ↦ rw (full, same full) (refl, h)
]
  where
    same : {b : Bool} → ltb q.items_waiting q.items_count ≡ b → ltb (length d) q.items_count ≡ b
    same t = rw (← waiting-length h) t

reset-Holds :
    (q : Queue)
    → 0 < q.item_size
    → 0 < q.items_count
    → q.item_size ≤ q.head
    → q.head + q.items_count * q.item_size < modulus
    → Holds (reset q) []
unfolding reset window
reset-Holds q p n b t = record {
  r = q.items_count - 1;
  w = 0;
  layout = reset-Layout q p n b t;
  held = refl;
}

-- `reset` empties a queue.
pub reset_refines : {q : Queue} {d : Deque} → Holds q d → Holds (reset q) []
reset_refines {q} h =
    reset-Holds q h.layout.sized (omega (arith, h.layout.reader_in)) h.layout.room_below
      (ground (arith, h.layout.tail_at, h.layout.room_above))

accepted :
    (p size n : ℕ) → 0 < size → 0 < n → 0 < p → (not (p == 0) && (ltb 0 size && ltb 0 n)) ≡ true
accepted p size n a b c = ground arith

-- `setup` with an area, a size and a count gives an empty queue, if the area has room for an item
-- below it in memory and ends below 2^32.
pub setup-Holds :
    (q : Queue) (p_data size n : ℕ)
    → 0 < size
    → 0 < n
    → size ≤ p_data
    → p_data + n * size < modulus
    → ((setup q p_data size n).1 ≡ true) × Holds (setup q p_data size n).0 []
unfolding setup
setup-Holds q p_data size n hs hn hb ht =
    rw (accepted p_data size n hs hn (omega arith)) (
      refl,
      reset-Holds (record q { items_count = n; item_size = size; head = p_data }) hs hn hb ht,
    )
