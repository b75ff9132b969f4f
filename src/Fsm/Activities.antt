-- ===== src/Fsm/Activities.antt =====
-- src/fsm.cpp: the calls of user code for one state: exit, entry, start, and a signal's transition
-- table.
use quark_ts_cpp.Prelude.{
  ℕ, Bool, true, false, not, ◌&&◌, ◌||◌, Option, none, some, List, [], ◌∷◌, ltb, leb, ◌==◌,
  if◌then◌else◌,
}
use quark_ts_cpp.Fsm.{
  Signal, no_history, Transition, StateMachine, User, put_state, signal_start, signal_exit,
  signal_entry, tm_min, tm_max, before_any, absent, failure,
}
use quark_ts_cpp.Fsm.Timeouts.{timeout_perform_specified_actions}

unfoldable pub prepare_handler : StateMachine → Signal → ℕ → StateMachine
prepare_handler m sig s = record m {
  handler = record m.handler {
    signal = sig.id;
    signal_data = sig.payload;
    next_state = 0;
    start_state = 0;
    status = absent;
    transition_history = no_history;
    state_data = (m.states s).s_data;
    user_data = m.m_data;
    state = s;
  };
}

-- `activities`: the status that the callback returns beside the machine.
unfoldable pub activities : User → StateMachine → ℕ → StateMachine × ℕ
activities u m s =
    let f = (m.states s).s_callback in if f == 0 then (m, failure) else u.state_callback f m

unfoldable pub set_status : StateMachine → ℕ → StateMachine
set_status m st = record m { handler = record m.handler { status = st } }

-- The surrounding callback, if there is one, called with the status `st`.
unfoldable pub surround : User → StateMachine → ℕ → StateMachine
unfolding set_status
surround u m st =
    if m.surrounding == 0 then m else u.surrounding_callback m.surrounding (set_status m st)

-- The returned status is the handler's.
unfoldable pub invoke_state_activities : User → StateMachine → ℕ → StateMachine
unfolding put_state surround set_status activities
invoke_state_activities u m s =
    let m1 = put_state m s (record (m.states s) { p_handler = m.this }) in
    let m2 = set_status (surround u m1 before_any) absent in
    let (m3, st) = activities u m2 s in
    surround u (set_status m3 st)
      (if ltb st failure && not (m3.surrounding == 0) then failure else st)

-- The machine, and the parent. `none`: the state is null, or it has no parent.
unfoldable pub state_on_exit : User → StateMachine → ℕ → Option (StateMachine × ℕ)
unfolding prepare_handler invoke_state_activities timeout_perform_specified_actions put_state
state_on_exit u m s =
    let x : Signal = record { id = signal_exit; payload = 0 } in
    let m1 = invoke_state_activities u (prepare_handler m x s) s in
    let m2 = timeout_perform_specified_actions u m1 s signal_exit in
    let p = (m2.states s).parent in
    if (s == 0) || (p == 0)
    then none
    else some (put_state m2 p (record (m2.states p) { last_running_child = s }), p)

unfoldable pub state_on_entry : User → StateMachine → ℕ → StateMachine
unfolding prepare_handler invoke_state_activities timeout_perform_specified_actions
state_on_entry u m s =
    let x : Signal = record { id = signal_entry; payload = 0 } in
    timeout_perform_specified_actions u (invoke_state_activities u (prepare_handler m x s) s) s
      signal_entry

-- The machine; the C++ function returns its `next`.
unfoldable pub state_on_start : User → StateMachine → ℕ → StateMachine
unfolding prepare_handler invoke_state_activities
state_on_start u m s =
    let x : Signal = record { id = signal_start; payload = 0 } in
    let m1 = invoke_state_activities u (prepare_handler m x s) s in
    let child = (m1.states s).last_running_child in
    if not (m1.handler.start_state == 0)
    then record m1 { next = m1.handler.start_state }
    else (if not (child == 0) then record m1 { next = child } else m1)

-- The signal data, dropped on a timeout signal.
unfoldable pub ignore_data : StateMachine → StateMachine
ignore_data m =
    if leb tm_min m.handler.signal && leb m.handler.signal tm_max
    then record m { handler = record m.handler { signal_data = 0 } }
    else m

unfoldable pub row_matches : StateMachine → Transition → Bool
row_matches m row = (m.handler.signal == row.x_signal) && (m.handler.signal_data == row.signal_data)

unfoldable pub guard_allows : User → StateMachine → Transition → StateMachine × Bool
guard_allows u m row = if row.guard == 0 then (m, true) else u.signal_action row.guard m

-- A round of the sweep: whether the row's transition is the one to take.
unfoldable pub consider : User → StateMachine → Transition → StateMachine × Bool
unfolding ignore_data row_matches guard_allows
consider u m row =
    let m1 = ignore_data m in
    let (m2, allowed) = guard_allows u m1 row in
    if row_matches m1 row then (m2, allowed && not (row.next_state == 0)) else (m1, false)

unfoldable pub choose : StateMachine → Transition → StateMachine
choose m row = record m {
  handler = record m.handler { next_state = row.next_state; transition_history = row.history };
}

unfoldable pub sweep_transition_table : User → StateMachine → List Transition → StateMachine
unfolding consider choose
sweep_transition_table u m [] = m
sweep_transition_table u m (row ∷ rows) =
    let (m', taken) = consider u m row in
    let rest = sweep_transition_table u m' rows in if taken then choose m' row else rest

-- The sweep of the table, if there is one.
unfoldable pub sweep : User → StateMachine → Option (List Transition) → StateMachine
unfolding sweep_transition_table
sweep u m none = m
sweep u m (some rows) = sweep_transition_table u m rows
