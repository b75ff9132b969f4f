-- ===== src/Fsm/Transit.antt =====
-- src/fsm.cpp: a transition along the hierarchy. The walks along the parents are bounded by the
-- user's `rounds`; `none` is a null pointer read, a write past the end of the array that records the
-- path, or a walk longer than the rounds.
use quark_ts_cpp.Prelude.{
  ℕ, zero, suc, ◌+◌, ◌-◌, ◌%◌, ◌^◌, Bool, true, false, Option, none, some, List, [], ◌∷◌, ◌>>=◌,
  ◌==◌, if◌then◌else◌,
}
use quark_ts_cpp.Fsm.{
  HistoryMode, no_history, shallow_history, deep_history, State, StateMachine, User, put_state,
}
use quark_ts_cpp.Fsm.Activities.{state_on_exit, state_on_entry, state_on_start}

-- `Q_FSM_MAX_NEST_DEPTH`, the size of the array `entryPath`.
abbrev pub max_nest_depth : ℕ
max_nest_depth = 5

-- The inner loop of `levelsToLCA`: whether `s` is `t` or above it.
unfoldable pub is_above : (ℕ → State) → ℕ → ℕ → ℕ → Option Bool
is_above states zero s t = none
is_above states (suc n) s t =
    let rest = is_above states n s (states t).parent in
    if t == 0 then some false else (if s == t then some true else rest)

-- The outer loop, with its counter, a `uint8_t`.
unfoldable pub count_levels : (ℕ → State) → ℕ → ℕ → ℕ → ℕ → ℕ → Option ℕ
unfolding is_above
count_levels states rounds zero target s n = none
count_levels states rounds (suc fuel) target s n =
    let rest = count_levels states rounds fuel target (states s).parent ((n + 1) % 2 ^ 8) in
    let test = is_above states rounds s target in
    if s == 0 then some 0 else (test >>= λ found. if found then some n else rest)

unfoldable pub levels_to_lca : User → StateMachine → ℕ → Option ℕ
unfolding count_levels
levels_to_lca u m target =
    if m.source == target then some 1 else count_levels m.states u.rounds u.rounds target m.source 0

-- The first loop of `exitUpToLCA`.
unfoldable pub exit_to_source : User → ℕ → StateMachine → ℕ → Option (StateMachine × ℕ)
unfolding state_on_exit
exit_to_source u zero m s = none
exit_to_source u (suc n) m s =
    let rest = state_on_exit u m s >>= λ (m', p). exit_to_source u n m' p in
    if s == m.source then some (m, s) else rest

-- The second loop.
unfoldable pub exit_levels : User → ℕ → StateMachine → ℕ → Option (StateMachine × ℕ)
unfolding state_on_exit
exit_levels u zero m s = some (m, s)
exit_levels u (suc lca) m s = state_on_exit u m s >>= λ (m', p). exit_levels u lca m' p

unfoldable pub exit_up_to_lca : User → StateMachine → ℕ → Option StateMachine
unfolding exit_to_source exit_levels
exit_up_to_lca u m lca = exit_to_source u u.rounds m m.current >>= λ (m1, s).
    exit_levels u lca m1 s >>= λ (m2, p). some (record m2 { current = p })

-- The history that a transition to `target` leaves.
unfoldable pub restore_history : StateMachine → ℕ → HistoryMode → StateMachine
unfolding put_state
restore_history m target no_history =
    put_state m target
      (record (m.states target) { last_running_child = (m.states target).init_state })
restore_history m target shallow_history =
    let lrc = (m.states target).last_running_child in
    if lrc == 0
    then m
    else put_state m lrc (record (m.states lrc) { last_running_child = (m.states lrc).init_state })
restore_history m target deep_history = m

unfoldable pub transition : User → StateMachine → ℕ → HistoryMode → Option StateMachine
unfolding levels_to_lca exit_up_to_lca restore_history
transition u m target m_history = levels_to_lca u m target >>= λ lca.
    exit_up_to_lca u m lca >>= λ m1.
    some (record (restore_history m1 target m_history) { next = target })

-- The path from `s` up to `current`, `current` left out, last found first; `room` is what is left of
-- the array.
unfoldable pub trace_path : StateMachine → ℕ → ℕ → List ℕ → Option (List ℕ)
trace_path m zero s trace = if s == m.current then some trace else none
trace_path m (suc room) s trace =
    let rest = trace_path m room (m.states s).parent (s ∷ trace) in
    if s == m.current then some trace else (if s == 0 then none else rest)

unfoldable pub enter_all : User → StateMachine → List ℕ → StateMachine
unfolding state_on_entry
enter_all u m [] = m
enter_all u m (s ∷ trace) = enter_all u (state_on_entry u m s) trace

unfoldable pub trace_path_and_retrace_entry : User → StateMachine → Option StateMachine
unfolding trace_path enter_all
trace_path_and_retrace_entry u m = trace_path m (max_nest_depth - 1) m.next [] >>= λ trace.
    let m1 = enter_all u m trace in some (record m1 { current = m1.next; next = 0 })

unfoldable pub trace_on_start : User → ℕ → StateMachine → Option StateMachine
unfolding state_on_start trace_path_and_retrace_entry
trace_on_start u zero m = none
trace_on_start u (suc n) m =
    let m1 = state_on_start u m m.current in
    let rest = trace_path_and_retrace_entry u m1 >>= λ m2. trace_on_start u n m2 in
    if m1.next == 0 then some m1 else rest
