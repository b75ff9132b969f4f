-- ===== src/Task.antt =====
-- src/task.cpp: what a task keeps. Pointers are addresses, 0 for null: a callback, an argument, and
-- the attached queue, which `queues` gives by its address. The name is not modelled.
pub mod Flags
pub mod Ready
use quark_ts_cpp.Prelude.{
  ℕ, ◌^◌, Bool, true, false, not, ◌&&◌, ◌||◌, ◌==◌, ltb, leb, if◌then◌else◌, bit_and,
}
use quark_ts_cpp.Prelude.Int.{ℤ, pos, negsuc, neg_ℤ, ltb_ℤ, eqb_ℤ}
use quark_ts_cpp.Prelude.Bits.{multiple_set, multiple_clear, multiple_get}
use quark_ts_cpp.Timer
use quark_ts_cpp.Timer.{Timer, reload, expired}
use quark_ts_cpp.Queue
use quark_ts_cpp.Queue.{Queue}

pub data Trigger : Type 0 where
  no_trigger by_time_elapsed by_notification_queued by_notification_simple by_queue_receiver :
      Trigger
  by_queue_full by_queue_count by_queue_empty by_event_flags by_scheduling_release : Trigger
  by_no_ready_tasks : Trigger

pub data TaskState : Type 0 where
  disabled_state enabled_state asleep_state awake_state : TaskState

pub data QueueLinkMode : Type 0 where
  queue_receiver queue_full queue_count queue_empty : QueueLinkMode

pub record Task : Type 0 where
  pub task_data : ℕ
  pub async_data : ℕ
  pub callback : ℕ
  pub a_obj : ℕ
  pub a_queue : ℕ
  pub a_queue_count : ℕ
  pub time : Timer
  pub cycles : ℕ
  pub entry : ℕ
  pub iterations : ℤ
  pub notifications : ℕ
  pub flags : ℕ
  pub priority : ℕ
  pub trigger : Trigger

-- `INT32_MIN`
abbrev pub periodic : ℤ
periodic = negsuc 0x7FFFFFFF

abbrev pub bit_init : ℕ
bit_init = 0x1

abbrev pub bit_enabled : ℕ
bit_enabled = 0x2

abbrev pub bit_shutdown : ℕ
bit_shutdown = 0x40

abbrev pub bit_remove_request : ℕ
bit_remove_request = 0x80

abbrev pub event_flags_mask : ℕ
event_flags_mask = 0xFFFFF000

abbrev pub queue_flags_mask : ℕ
queue_flags_mask = 0x3C

-- The value of each mode, the flag of the same name.
abbrev pub link_flag : QueueLinkMode → ℕ
link_flag queue_receiver = 0x4
link_flag queue_full = 0x8
link_flag queue_count = 0x10
link_flag queue_empty = 0x20

abbrev pub priority_levels : ℕ
priority_levels = 3

unfoldable pub set_flags : Task → ℕ → Bool → Task
unfolding multiple_set multiple_clear
set_flags t x_flags value = record t {
  flags = if value then multiple_set t.flags x_flags else multiple_clear t.flags x_flags;
}

unfoldable pub get_flag : Task → ℕ → Bool
unfolding multiple_get
get_flag t flag = multiple_get t.flags flag

unfoldable pub set_priority : Task → ℕ → Task × Bool
set_priority t p = if ltb p priority_levels then (record t { priority = p }, true) else (t, false)

unfoldable pub get_state : Task → TaskState
unfolding get_flag
get_state t =
    if get_flag t bit_shutdown
    then (if get_flag t bit_enabled then enabled_state else disabled_state)
    else disabled_state

-- `TASK_ITER_VALUE`
abbrev pub task_iter_value : ℤ → ℤ
task_iter_value x = if ltb_ℤ x (pos 0) && not (eqb_ℤ x periodic) then neg_ℤ x else x

unfoldable pub dead_line_reached : Task → ℕ → Bool
unfolding get_flag expired
dead_line_reached t now =
    if get_flag t bit_enabled
    then (if ltb_ℤ (pos 0) (task_iter_value t.iterations) || eqb_ℤ t.iterations periodic
        then (t.time.tv == 0) || expired t.time now
        else false)
    else false

-- The first two states of `setState`, by what they leave in the flag.
set_enabled : Task → Bool → ℕ → Task
unfolding set_flags get_flag reload
set_enabled t true now =
    if get_flag t bit_enabled
    then t
    else record (set_flags t bit_enabled true) { time = reload t.time now }
set_enabled t false now =
    if get_flag t bit_enabled
    then record (set_flags t bit_enabled false) { time = reload t.time now }
    else t

unfoldable pub set_state : Task → TaskState → ℕ → Task × Bool
unfolding set_enabled
set_state t disabled_state now = (set_enabled t false now, true)
set_state t enabled_state now = (set_enabled t true now, true)
set_state t asleep_state now = (set_flags t bit_shutdown false, true)
set_state t awake_state now = (set_flags t bit_shutdown true, true)

unfoldable pub set_iterations : Task → ℤ → Task
set_iterations t n =
    if ltb_ℤ (pos 0) n
    then record t { iterations = neg_ℤ n }
    else if eqb_ℤ n periodic
    then record t { iterations = periodic }
    else t

unfoldable pub set_time : Task → ℕ → ℕ → Task × Bool
unfolding Timer.set
set_time t value now = let (s, done) = Timer.set t.time value now in (record t { time = s }, done)

unfoldable pub set_callback : Task → ℕ → Task × Bool
set_callback t f =
    if f == t.callback then (t, false) else (record t { callback = f; a_obj = 0 }, true)

unfoldable pub set_data : Task → ℕ → Task × Bool
set_data t arg = if arg == t.task_data then (t, false) else (record t { task_data = arg }, true)

unfoldable pub queue_check_events : Task → (ℕ → Queue) → Trigger
unfolding get_flag Queue.count Queue.is_full Queue.is_empty
queue_check_events t queues =
    let q = queues t.a_queue in
    let n = Queue.count q in
    if t.a_queue == 0
    then no_trigger
    else if get_flag t (link_flag queue_full) && Queue.is_full q
    then by_queue_full
    else if get_flag t (link_flag queue_count) && leb t.a_queue_count n
    then by_queue_count
    else if get_flag t (link_flag queue_receiver) && ltb 0 n
    then by_queue_receiver
    else if get_flag t (link_flag queue_empty) && Queue.is_empty q
    then by_queue_empty
    else no_trigger

abbrev is_count : QueueLinkMode → Bool
is_count queue_count = true
is_count _ = false

-- `q` is the address of the queue.
unfoldable pub attach_queue : Task → (ℕ → Queue) → ℕ → QueueLinkMode → ℕ → Task × Bool
unfolding set_flags Queue.is_initialized
attach_queue t queues q mode arg =
    let t1 = set_flags t (bit_and (link_flag mode) queue_flags_mask) (not (arg == 0)) in
    let t2 = if is_count mode then record t1 { a_queue_count = arg } else t1 in
    if Queue.is_initialized (queues q)
    then (record t2 { a_queue = if ltb 0 arg then q else 0 }, true)
    else (t, false)

unfoldable pub get_priority : Task → ℕ
get_priority t = t.priority

unfoldable pub get_id : Task → ℕ
get_id t = t.entry

unfoldable pub get_cycles : Task → ℕ
get_cycles t = t.cycles
