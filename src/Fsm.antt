-- ===== src/Fsm.antt =====
-- src/fsm.cpp: hierarchical state machines. States are known by their addresses and stand in
-- `states`; the null pointer is 0. A transition table and a table of timeouts are the rows that the
-- pointer and the number of entries give, `none` when the pointer is null. The signal queue is the
-- sequence of signals it holds (Queue/Run relates such a sequence to src/queue.cpp).
pub mod Setters
pub mod Moves
pub mod Entries
pub mod Holding
pub mod Expiring
pub mod Publishing
pub mod Subscribers
pub mod Choosing
pub mod Stopping
pub mod Returns
pub mod Turns
pub mod Leaving
pub mod Settling
pub mod Asks
pub mod Tree
pub mod Exits
pub mod Paths
pub mod Publisher
pub mod Running
pub mod Transit
pub mod Activities
pub mod Signals
pub mod Timeouts
use quark_ts_cpp.Prelude.{
  ℕ, ◌-◌, Bool, true, false, not, ◌&&◌, ◌||◌, Option, none, some, List, ◌==◌, if◌then◌else◌, length,
  ltb,
}
use quark_ts_cpp.Prelude.Word.{add_word, sub_word}
use quark_ts_cpp.Timer.{Timer, disarm}

-- `signalID`, with `Q_FSM_MAX_TIMEOUTS` timeouts.
abbrev pub max_timeouts : ℕ
max_timeouts = 3

abbrev pub signal_start : ℕ
signal_start = 0xFFFFFFFF

abbrev pub signal_exit : ℕ
signal_exit = 0xFFFFFFFE

abbrev pub signal_entry : ℕ
signal_entry = 0xFFFFFFFD

abbrev pub signal_none : ℕ
signal_none = 0xFFFFFFFC

abbrev pub tm_max : ℕ
tm_max = 0xFFFFFFFB

abbrev pub tm_min : ℕ
tm_min = tm_max - (max_timeouts - 1)

abbrev pub max_signal : ℕ
max_signal = tm_min - 1

-- `SIGNAL_TIMEOUT( i )`
unfoldable pub signal_timeout : ℕ → ℕ
signal_timeout i = add_word (sub_word tm_max (max_timeouts - 1)) i

-- `SIGNAL_USER( s )`
unfoldable pub signal_user : ℕ → ℕ
signal_user s = if ltb s max_signal then s else max_signal

-- `status`, an `int16_t`, counted from -32768.
abbrev pub before_any : ℕ
before_any = 1

abbrev pub absent : ℕ
absent = 2

abbrev pub failure : ℕ
failure = 3

abbrev pub success : ℕ
success = 4

abbrev pub signal_handled : ℕ
signal_handled = 5

-- `signal_t`; `payload` is its `data`, as `user_data` is that of the handler.
pub record Signal : Type 0 where
  pub id : ℕ
  pub payload : ℕ

pub data HistoryMode : Type 0 where
  no_history shallow_history deep_history : HistoryMode

-- A row of a transition table. `guard` is a function of the user; 0 means none.
pub record Transition : Type 0 where
  pub x_signal : ℕ
  pub guard : ℕ
  pub next_state : ℕ
  pub history : HistoryMode
  pub signal_data : ℕ

-- `timeoutStateDefinition`
pub record TimeoutDefinition : Type 0 where
  pub x_timeout : ℕ
  pub options : ℕ

pub record State : Type 0 where
  pub parent : ℕ
  pub last_running_child : ℕ
  pub init_state : ℕ
  pub s_callback : ℕ
  pub t_def : Option (List TimeoutDefinition)
  pub t_table : Option (List Transition)
  pub s_data : ℕ
  pub p_handler : ℕ

-- `timeoutSpec`
pub record TimeoutSpec : Type 0 where
  pub is_periodic : ℕ
  pub timeout : ℕ → Timer

pub record SignalQueue : Type 0 where
  pub signals : List Signal
  pub capacity : ℕ

-- `stateHandler`: what user code reads and writes.
pub record Handler : Type 0 where
  pub start_state : ℕ
  pub next_state : ℕ
  pub machine : ℕ
  pub state : ℕ
  pub transition_history : HistoryMode
  pub status : ℕ
  pub signal : ℕ
  pub signal_data : ℕ
  pub user_data : ℕ
  pub state_data : ℕ

-- `this` is the machine's own address, `top` the address of its top state.
pub record StateMachine : Type 0 where
  pub states : ℕ → State
  pub current : ℕ
  pub next : ℕ
  pub source : ℕ
  pub s_queue : Option SignalQueue
  pub time_spec : Option TimeoutSpec
  pub surrounding : ℕ
  pub top : ℕ
  pub signal_not : Signal
  pub m_data : ℕ
  pub this : ℕ
  pub handler : Handler

-- User code, by the addresses of its functions, and the tick that `clock::getTick()` returns in the
-- call. `rounds` bounds the walks along the hierarchy, which the C++ code does not bound.
pub record User : Type 0 where
  pub state_callback : ℕ → StateMachine → StateMachine × ℕ
  pub surrounding_callback : ℕ → StateMachine → StateMachine
  pub signal_action : ℕ → StateMachine → StateMachine × Bool
  pub now : ℕ
  pub rounds : ℕ

unfoldable pub put_state : StateMachine → ℕ → State → StateMachine
put_state m s st = record m { states = λ x. if x == s then st else m.states x }

-- `topSelf`
unfoldable pub top_self : State → ℕ → ℕ → State
top_self st top_fcn init = record st {
  last_running_child = init;
  init_state = init;
  s_callback = top_fcn;
  parent = 0;
  t_table = none;
  t_def = none;
}

unfoldable pub sm_setup : StateMachine → ℕ → ℕ → ℕ → ℕ → StateMachine × Bool
unfolding put_state top_self
sm_setup m top_fcn init s_fcn p_data =
    let m1 = record m {
      current = 0;
      next = 0;
      source = 0;
      m_data = p_data;
      surrounding = s_fcn;
      handler = record m.handler { machine = m.this; user_data = p_data };
    } in
    (put_state m1 m.top (top_self (m.states m.top) top_fcn init), true)

-- `parent.add( s, sFcn, init )`
unfoldable pub subscribe : StateMachine → ℕ → ℕ → ℕ → ℕ → StateMachine × Bool
unfolding put_state
subscribe m this s s_fcn init =
    if not (s == this) && not (init == this)
    then (
      put_state m s (record (m.states s) {
        last_running_child = init;
        init_state = init;
        s_callback = s_fcn;
        parent = this;
        t_table = none;
        t_def = none;
      }),
      true,
    )
    else (m, false)

-- A table with its entries; `none` is the null pointer.
unfoldable pub install_table : State → Option (List Transition) → State × Bool
install_table st none = (st, false)
install_table st (some rows) =
    if ltb 0 (length rows) then (record st { t_table = some rows }, true) else (st, false)

unfoldable pub install_timeouts : State → Option (List TimeoutDefinition) → State × Bool
install_timeouts st none = (st, false)
install_timeouts st (some def) =
    if ltb 0 (length def) then (record st { t_def = some def }, true) else (st, false)

-- `install( timeoutSpec& )`: every timer disarmed.
unfoldable pub install_time_spec : StateMachine → TimeoutSpec → StateMachine × Bool
unfolding disarm
install_time_spec m ts = (
  record m {
    time_spec = some (record {
      is_periodic = 0;
      timeout = λ i. if ltb i max_timeouts then disarm (ts.timeout i) else ts.timeout i;
    });
  },
  true,
)

-- `isInitialized`
unfoldable pub is_initialized : StateMachine → Bool
is_initialized m = not ((m.states m.top).init_state == 0)
