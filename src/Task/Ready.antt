-- ===== src/Task/Ready.antt =====
-- When a task is due: by its timer and iterations, and by the queue attached to it.
use quark_ts_cpp.Prelude.{
  ℕ, zero, suc, ◌^◌, ◌<◌, ◌≤◌, ◌≡◌, ◌≢◌, ◌↔◌, refl, Bool, true, false, not, ◌||◌, ◌==◌, ltb,
  if◌then◌else◌, arith, length,
}
use quark_ts_cpp.Prelude.Word.{modulus, add_word}
use quark_ts_cpp.Prelude.Int.{ℤ, pos, negsuc, ltb_ℤ, eqb_ℤ}
use quark_ts_cpp.Prelude.Bits.{digit}
use quark_ts_cpp.Timer.{expired}
use quark_ts_cpp.Queue
use quark_ts_cpp.Queue.{Queue}
use quark_ts_cpp.Queue.Deque.{Deque}
use quark_ts_cpp.Queue.Refine.{Holds, counts_refine}
use quark_ts_cpp.Task.{
  Task, Trigger, QueueLinkMode, queue_receiver, queue_full, queue_count, queue_empty, link_flag,
  bit_enabled, periodic, task_iter_value, set_flags, get_flag, dead_line_reached,
  queue_check_events, attach_queue, no_trigger, by_queue_receiver, by_queue_full, by_queue_count,
  by_queue_empty,
}
use quark_ts_cpp.Task.Flags.{set_flags_lem}

abbrev some_left : ℤ → Bool
some_left (pos zero) = false
some_left _ = true

some_left_lem : (n : ℤ) → (ltb_ℤ (pos 0) (task_iter_value n) || eqb_ℤ n periodic) ≡ some_left n
some_left_lem (pos zero) = refl
some_left_lem (pos (suc n)) = ground arith
some_left_lem (negsuc n) = ground arith

some_left_iff : (n : ℤ) → (some_left n ≡ true) ↔ (n ≢ pos 0)
some_left_iff (pos zero) = ground arith
some_left_iff (pos (suc n)) = ground arith
some_left_iff (negsuc n) = ground arith

-- A task is due `k` ticks after its timer started exactly when it is enabled, its iterations are not
-- used up and `k` has reached its interval, which is always so for the interval 0; for every `k`
-- below 2^32, also when the tick counter wraps in between.
pub dead_line_reached_lem :
    (t : Task) (k : ℕ)
    → t.time.t_start < modulus
    → k < modulus
    → (dead_line_reached t (add_word t.time.t_start k) ≡ true)
      ↔ ((get_flag t bit_enabled ≡ true) × (t.iterations ≢ pos 0) × (t.time.tv ≤ k))
unfolding dead_line_reached expired
dead_line_reached_lem t k s h =
    rw (some_left_lem t.iterations) (ground (arith, some_left_iff t.iterations))

-- What the flags of the four modes are after flags were set or cleared.
module _ (t : Task) (m : ℕ) (v : Bool) (h : m < 2 ^ 32) where
  receiver_after : get_flag (set_flags t m v) 0x4 ≡ (if digit m 2 == 0 then get_flag t 0x4 else v)
  receiver_after = set_flags_lem t m 2 v h (omega arith)

  full_after : get_flag (set_flags t m v) 0x8 ≡ (if digit m 3 == 0 then get_flag t 0x8 else v)
  full_after = set_flags_lem t m 3 v h (omega arith)

  count_after : get_flag (set_flags t m v) 0x10 ≡ (if digit m 4 == 0 then get_flag t 0x10 else v)
  count_after = set_flags_lem t m 4 v h (omega arith)

  empty_after : get_flag (set_flags t m v) 0x20 ≡ (if digit m 5 == 0 then get_flag t 0x20 else v)
  empty_after = set_flags_lem t m 5 v h (omega arith)

-- The event that a task attached in a mode sees, by the number of items that wait.
pub event : QueueLinkMode → ℕ → ℕ → ℕ → Trigger
event queue_receiver arg size n = if n == 0 then no_trigger else by_queue_receiver
event queue_full arg size n = if n == size then by_queue_full else no_trigger
event queue_count arg size n = if ltb n arg then no_trigger else by_queue_count
event queue_empty arg size n = if n == 0 then by_queue_empty else no_trigger

-- A task without queue flags that `attachQueue` attaches to a queue in some mode sees the event of
-- that mode, and no other, exactly when the number of items that wait asks for it.
pub queue_check_events-attach_queue :
    (t : Task) (queues : ℕ → Queue) (q : ℕ) (mode : QueueLinkMode) (arg : ℕ) (d : Deque)
    → Holds (queues q) d
    → q ≢ 0
    → 0 < arg
    → ((m : QueueLinkMode) → get_flag t (link_flag m) ≡ false)
    → let (t', done) = attach_queue t queues q mode arg in
      (done ≡ true)
      × (queue_check_events t' queues ≡ event mode arg (queues q).items_count (length d))
unfolding queue_check_events attach_queue Queue.is_initialized event Queue.count Queue.is_full
    Queue.is_empty
queue_check_events-attach_queue t queues q queue_receiver arg d h r p off =
    let (n, _, e, f) = counts_refine h in
    let k : 0x4 < 2 ^ 32 = omega arith in
    let v = not (arg == 0) in
    ground (
      arith,
      n,
      e,
      f,
      h.layout.sized,
      h.layout.room_below,
      off queue_receiver,
      off queue_full,
      off queue_count,
      off queue_empty,
      receiver_after t 0x4 v k,
      full_after t 0x4 v k,
      count_after t 0x4 v k,
      empty_after t 0x4 v k,
    )
queue_check_events-attach_queue t queues q queue_full arg d h r p off =
    let (n, _, e, f) = counts_refine h in
    let k : 0x8 < 2 ^ 32 = omega arith in
    let v = not (arg == 0) in
    ground (
      arith,
      n,
      e,
      f,
      h.layout.sized,
      h.layout.room_below,
      off queue_receiver,
      off queue_full,
      off queue_count,
      off queue_empty,
      receiver_after t 0x8 v k,
      full_after t 0x8 v k,
      count_after t 0x8 v k,
      empty_after t 0x8 v k,
    )
queue_check_events-attach_queue t queues q queue_count arg d h r p off =
    let (n, _, e, f) = counts_refine h in
    let k : 0x10 < 2 ^ 32 = omega arith in
    let v = not (arg == 0) in
    ground (
      arith,
      n,
      e,
      f,
      h.layout.sized,
      h.layout.room_below,
      off queue_receiver,
      off queue_full,
      off queue_count,
      off queue_empty,
      receiver_after t 0x10 v k,
      full_after t 0x10 v k,
      count_after t 0x10 v k,
      empty_after t 0x10 v k,
    )
queue_check_events-attach_queue t queues q queue_empty arg d h r p off =
    let (n, _, e, f) = counts_refine h in
    let k : 0x20 < 2 ^ 32 = omega arith in
    let v = not (arg == 0) in
    ground (
      arith,
      n,
      e,
      f,
      h.layout.sized,
      h.layout.room_below,
      off queue_receiver,
      off queue_full,
      off queue_count,
      off queue_empty,
      receiver_after t 0x20 v k,
      full_after t 0x20 v k,
      count_after t 0x20 v k,
      empty_after t 0x20 v k,
    )
