-- ===== src/Fsm/Running.antt =====
-- src/fsm.cpp: a run of the machine on a signal.
use quark_ts_cpp.Prelude.{
  ℕ, zero, suc, Bool, true, false, not, ◌&&◌, Option, none, some, ◌>>=◌, ◌==◌, if◌then◌else◌,
}
use quark_ts_cpp.Fsm.{
  Signal, SignalQueue, TimeoutSpec, StateMachine, User, signal_none, signal_handled,
}
use quark_ts_cpp.Fsm.Signals.{queue_receive}
use quark_ts_cpp.Fsm.Timeouts.{timeout_check_signals}
use quark_ts_cpp.Fsm.Activities.{prepare_handler, sweep, invoke_state_activities, state_on_entry}
use quark_ts_cpp.Fsm.Transit.{transition, trace_path_and_retrace_entry, trace_on_start}

-- The machine, and the status.
unfoldable pub state_on_signal : User → StateMachine → ℕ → Signal → Option (StateMachine × ℕ)
unfolding prepare_handler sweep invoke_state_activities transition
state_on_signal u m s sig =
    let m0 = sweep u (prepare_handler m sig s) (m.states s).t_table in
    let m1 = invoke_state_activities u m0 s in
    let moved = transition u m1 m1.handler.next_state m1.handler.transition_history in
    if m1.handler.next_state == 0
    then some (m1, m1.handler.status)
    else (moved >>= λ m2. some (m2, signal_handled))

-- The front signal of the queue, or the given one.
unfoldable pub receive_from : StateMachine → Signal → Option SignalQueue → StateMachine × Signal
unfolding queue_receive
receive_from m sig none = (m, sig)
receive_from m sig (some q) =
    let (q', out) = queue_receive q in
    (record m { s_queue = some q' }, elim out [ none ↦ sig | some x ↦ x ])

unfoldable pub check_timers : User → StateMachine → Option TimeoutSpec → StateMachine
unfolding timeout_check_signals
check_timers u m none = m
check_timers u m (some ts) = timeout_check_signals u m ts

unfoldable pub check_for_signals : User → StateMachine → Signal → StateMachine × Signal
unfolding check_timers receive_from
check_for_signals u m sig =
    let m0 = check_timers u m m.time_spec in
    let (m1, x) = receive_from m0 sig m0.s_queue in
    if (x.id == signal_none) && not (m1.signal_not.id == signal_none)
    then (record m1 { signal_not = record { id = signal_none; payload = 0 } }, m1.signal_not)
    else (m1, x)

-- Entry and start of the top state, the first time.
unfoldable pub start_top : User → StateMachine → Option StateMachine
unfolding state_on_entry trace_on_start
start_top u m =
    let m1 = record m { current = m.top; next = 0 } in
    if m.current == 0 then trace_on_start u u.rounds (state_on_entry u m1 m.top) else some m

-- Entries and starts after a transition.
unfoldable pub settle : User → StateMachine → Option StateMachine
unfolding trace_path_and_retrace_entry trace_on_start
settle u m =
    if m.next == 0
    then some m
    else (trace_path_and_retrace_entry u m >>= λ m1. trace_on_start u u.rounds m1)

-- The loop from a state up the hierarchy.
unfoldable pub evaluate : User → ℕ → StateMachine → ℕ → Signal → Option (StateMachine × Bool)
unfolding state_on_signal settle
evaluate u zero m s sig = none
evaluate u (suc n) m s sig =
    let turn = state_on_signal u (record m { source = s }) s sig >>= λ (m1, st).
    (let rest = evaluate u n m1 (m1.states s).parent sig in
      if st == signal_handled then (settle u m1 >>= λ m2. some (m2, true)) else rest) in
    if s == 0 then some (m, false) else turn

unfoldable pub run : User → StateMachine → Signal → Option (StateMachine × Bool)
unfolding check_for_signals start_top evaluate
run u m sig =
    let (m1, x) = check_for_signals u m sig in
    start_top u m1 >>= λ m2. evaluate u u.rounds m2 m2.current x
