-- ===== src/Fsm/Setters.antt =====
-- src/fsm.cpp, src/include/fsm.hpp: the setters of single members, on a state, a machine, and the
-- handler that user code is given.
use quark_ts_cpp.Prelude.{ℕ, Bool, ◌&&◌, Option, List}
use quark_ts_cpp.Fsm.{
  HistoryMode, Transition, TimeoutDefinition, State, Handler, StateMachine, install_table,
  install_timeouts,
}

unfoldable pub set_data : State → ℕ → State
set_data st p_data = record st { s_data = p_data }

unfoldable pub set_callback : State → ℕ → State
set_callback st s_fcn = record st { s_callback = s_fcn }

unfoldable pub set_surrounding : StateMachine → ℕ → StateMachine
set_surrounding m s_fcn = record m { surrounding = s_fcn }

-- `stateHandler::nextState`
unfoldable pub next_state : Handler → ℕ → HistoryMode → Handler
next_state h s mode = record h { next_state = s; transition_history = mode }

-- `stateHandler::startState`
unfoldable pub start_state : Handler → ℕ → Handler
start_state h s = record h { start_state = s }

-- `install` of a table and of timeouts: each is tried, whether the other fits or not.
unfoldable pub install_both :
    State → Option (List Transition) → Option (List TimeoutDefinition) → State × Bool
unfolding install_table install_timeouts
install_both st table def =
    let (st1, a) = install_table st table in
    let (st2, b) = install_timeouts st1 def in (st2, a && b)
