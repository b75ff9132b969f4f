-- ===== src/Fsm/Timeouts.antt =====
-- src/fsm.cpp: the timers of a machine, and the signals they send.
use quark_ts_cpp.Prelude.{
  ℕ, zero, suc, ◌+◌, ◌^◌, bit_and, Bool, true, false, Option, none, some, List, [], ◌∷◌, ltb, ◌==◌,
  if◌then◌else◌, length,
}
use quark_ts_cpp.Prelude.Bits.{multiple_set, multiple_clear, multiple_get}
use quark_ts_cpp.Timer.{Timer, set, reload, disarm, expired}
use quark_ts_cpp.Fsm.{
  SignalQueue, StateMachine, TimeoutSpec, TimeoutDefinition, User, max_timeouts, signal_entry,
  signal_timeout,
}
use quark_ts_cpp.Fsm.Signals.{queue_send, queue_receive, send_signal}

abbrev pub opt_index_mask : ℕ
opt_index_mask = 0x00FFFFFF

abbrev pub timeout_set_entry : ℕ
timeout_set_entry = 0x01000000

abbrev pub timeout_rst_entry : ℕ
timeout_rst_entry = 0x02000000

abbrev pub timeout_set_exit : ℕ
timeout_set_exit = 0x04000000

abbrev pub timeout_rst_exit : ℕ
timeout_rst_exit = 0x08000000

abbrev pub timeout_keep_if_set : ℕ
timeout_keep_if_set = 0x10000000

abbrev pub timeout_periodic : ℕ
timeout_periodic = 0x20000000

unfoldable pub put_timer : TimeoutSpec → ℕ → Timer → TimeoutSpec
put_timer ts i t = record ts { timeout = λ j. if j == i then t else ts.timeout j }

-- A round of `timeoutCheckSignals`, on the machine and its timers.
unfoldable pub timeout_check : User → StateMachine × TimeoutSpec → ℕ → StateMachine × TimeoutSpec
unfolding put_timer send_signal signal_timeout multiple_get expired reload disarm
timeout_check u (m, ts) i =
    let t = ts.timeout i in
    let m' = (send_signal m (signal_timeout i) 0 false).0 in
    let t' = if multiple_get ts.is_periodic (2 ^ i) then reload t u.now else disarm t in
    if expired t u.now then (m', put_timer ts i t') else (m, ts)

-- The loop of `timeoutCheckSignals`: `n` rounds from `i` on.
unfoldable pub timeout_check_from :
    User → StateMachine × TimeoutSpec → ℕ → ℕ → StateMachine × TimeoutSpec
unfolding timeout_check
timeout_check_from u r i zero = r
timeout_check_from u r i (suc n) = timeout_check_from u (timeout_check u r i) (i + 1) n

unfoldable pub timeout_check_signals : User → StateMachine → TimeoutSpec → StateMachine
unfolding timeout_check_from
timeout_check_signals u m ts =
    let (m', ts') = timeout_check_from u (m, ts) 0 max_timeouts in
    record m' { time_spec = some ts' }

-- A row of `timeoutPerformSpecifiedActions`.
unfoldable pub perform_action : User → ℕ → ℕ → TimeoutSpec → TimeoutDefinition → TimeoutSpec
unfolding put_timer multiple_get multiple_set multiple_clear set disarm
perform_action u set_check reset_check ts def =
    let opt = def.options in
    let index = bit_and opt opt_index_mask in
    let kept = multiple_get opt timeout_keep_if_set in
    let ts1 =
      if kept then ts else put_timer ts index (set (ts.timeout index) def.x_timeout u.now).0 in
    let ts2 = record ts1 {
      is_periodic =
          if multiple_get opt timeout_periodic
          then multiple_set ts1.is_periodic (2 ^ index)
          else multiple_clear ts1.is_periodic (2 ^ index);
    } in
    let ts3 = if multiple_get opt set_check then ts2 else ts in
    let ts4 =
      if multiple_get opt reset_check
      then put_timer ts3 index (disarm (ts3.timeout index))
      else ts3 in
    if ltb index max_timeouts then ts4 else ts

perform_actions : User → ℕ → ℕ → TimeoutSpec → List TimeoutDefinition → TimeoutSpec
unfolding perform_action
perform_actions u set_check reset_check ts [] = ts
perform_actions u set_check reset_check ts (def ∷ tbl) =
    perform_actions u set_check reset_check (perform_action u set_check reset_check ts def) tbl

-- With the timers and the table, if there are any.
unfoldable pub perform_with :
    User → StateMachine → ℕ → Option TimeoutSpec → Option (List TimeoutDefinition) → StateMachine
unfolding perform_actions
perform_with u m sig none def = m
perform_with u m sig (some ts) none = m
perform_with u m sig (some ts) (some tbl) = record m {
  time_spec = some (
      if sig == signal_entry
      then perform_actions u timeout_set_entry timeout_rst_entry ts tbl
      else perform_actions u timeout_set_exit timeout_rst_exit ts tbl);
}

-- `timeoutPerformSpecifiedActions`, with the test for the installed tables that guards each call.
unfoldable pub timeout_perform_specified_actions : User → StateMachine → ℕ → ℕ → StateMachine
unfolding perform_with
timeout_perform_specified_actions u m s sig = perform_with u m sig m.time_spec (m.states s).t_def

unfoldable pub set_with : User → StateMachine → ℕ → ℕ → Option TimeoutSpec → StateMachine × Bool
unfolding put_timer set
set_with u m x_timeout t none = (m, false)
set_with u m x_timeout t (some ts) =
    let (t', ok) = set (ts.timeout x_timeout) t u.now in
    if ltb x_timeout max_timeouts
    then (record m { time_spec = some (put_timer ts x_timeout t') }, ok)
    else (m, false)

unfoldable pub timeout_set : User → StateMachine → ℕ → ℕ → StateMachine × Bool
unfolding set_with
timeout_set u m x_timeout t = set_with u m x_timeout t m.time_spec

-- A round of the loop of `timeoutStop`.
unfoldable pub requeue : ℕ → SignalQueue → SignalQueue
unfolding queue_receive queue_send
requeue sig q =
    let (q', out) = queue_receive q in
    elim out [ none ↦ q' | some x ↦ if x.id == sig then q' else (queue_send q' x false).0 ]

unfoldable pub requeue_all : ℕ → ℕ → SignalQueue → SignalQueue
unfolding requeue
requeue_all sig zero q = q
requeue_all sig (suc n) q = requeue_all sig n (requeue sig q)

-- With the timers and the queue, if there are any. `none`: the null queue is read.
unfoldable pub stop_with :
    StateMachine → ℕ → Option TimeoutSpec → Option SignalQueue → Option (StateMachine × Bool)
unfolding requeue_all put_timer disarm signal_timeout
stop_with m x_timeout none q = some (m, false)
stop_with m x_timeout (some ts) none = if ltb x_timeout max_timeouts then none else some (m, false)
stop_with m x_timeout (some ts) (some q) =
    if ltb x_timeout max_timeouts
    then some (
      record m {
        s_queue = some (requeue_all (signal_timeout x_timeout) (length q.signals) q);
        time_spec = some (put_timer ts x_timeout (disarm (ts.timeout x_timeout)));
      },
      true,
    )
    else some (m, false)

unfoldable pub timeout_stop : StateMachine → ℕ → Option (StateMachine × Bool)
unfolding stop_with
timeout_stop m x_timeout = stop_with m x_timeout m.time_spec m.s_queue
