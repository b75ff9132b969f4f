-- ===== src/Tests/Signals.antt =====
-- Signals, timeouts and subscriptions of machines.
use quark_ts_cpp.Prelude.{
  ℕ, ◌≡◌, refl, inr, true, false, none, some, [], ◌∷◌, ◌==◌, ltb, if◌then◌else◌, arith,
}
use quark_ts_cpp.Timer.{disarm}
use quark_ts_cpp.Fsm.{
  Signal, SignalQueue, StateMachine, TimeoutSpec, User, signal_none, signal_timeout, max_timeouts,
}
use quark_ts_cpp.Fsm.Signals
use quark_ts_cpp.Fsm.Signals.{send_signal}
use quark_ts_cpp.Fsm.Timeouts.{put_timer, timeout_stop, timeout_check_signals}
use quark_ts_cpp.Fsm.Activities.{sweep_transition_table}
use quark_ts_cpp.Fsm.Running.{check_for_signals}
use quark_ts_cpp.Fsm.Publisher
use quark_ts_cpp.Fsm.Publisher.{Publisher, unsubscribe_all, subscribe_to_signal}
use quark_ts_cpp.Fsm.Paths.{on}
use quark_ts_cpp.Fsm.Stopping.{without_id, timeout_stop_lem}
use quark_ts_cpp.Fsm.Choosing.{data_of, sweep_transition_table_lem}
use quark_ts_cpp.Fsm.Subscribers.{IsSubscribed, subscribe_to_signal_lem}
use quark_ts_cpp.Fsm.Publishing.{all_take, send_signal_delivers}
use quark_ts_cpp.Fsm.Expiring.{
  checked, expired_from, send_each, timeout_check_signals_lem, timeout_constant,
  signal_timeout-timeout_constant,
}
use quark_ts_cpp.Fsm.Holding.{Took, held, in_queue, check_for_signals_lem}
use quark_ts_cpp.Tests.Machines.{machine, user, jump, nothing}

abbrev ping : Signal
ping = record { id = 5; payload = 1 }

abbrev timed_out : Signal
timed_out = record { id = 0xFFFFFFF9; payload = 0 }

abbrev both_held : SignalQueue
both_held = record { signals = timed_out ∷ ping ∷ []; capacity = 3 }

abbrev running : TimeoutSpec
running = record { is_periodic = 1; timeout = λ i. record { t_start = 0; tv = 10 } }

abbrev equipped : StateMachine
equipped = record (machine 3) { s_queue = some both_held; time_spec = some running }

timeout_stop_lem_example :
    timeout_stop equipped 0
    ≡ some (
      record equipped {
        s_queue =
            some (record both_held { signals = without_id (signal_timeout 0) both_held.signals });
        time_spec = some (put_timer running 0 (disarm (running.timeout 0)));
      },
      true,
    )
timeout_stop_lem_example =
    timeout_stop_lem equipped running both_held 0 (omega arith) refl refl (omega arith)

abbrev late : User
late = record user { now = 12 }

timeout_check_signals_lem_example :
    (ts' : TimeoutSpec) × (timeout_check_signals late equipped running
      ≡ record (send_each equipped (expired_from late running 0 max_timeouts)) {
        time_spec = some ts';
      })
    × ((j : ℕ)
        → ts'.timeout j
          ≡ (if ltb j max_timeouts then checked late running j else running.timeout j))
timeout_check_signals_lem_example = timeout_check_signals_lem late equipped running

signal_timeout-timeout_constant_example : signal_timeout 0 ≡ timeout_constant 2
signal_timeout-timeout_constant_example = signal_timeout-timeout_constant 0 (omega arith)

-- A machine handed the signal 7 in state 3.
abbrev asked : StateMachine
asked = record (machine 3) { handler = record (machine 3).handler { signal = 7 } }

sweep_transition_table_lem_example :
    sweep_transition_table user asked
      (record jump { x_signal = 6 } ∷ record jump { signal_data = 9 } ∷ jump ∷ [])
    ≡ record asked {
      handler = record asked.handler {
        signal_data = data_of asked;
        next_state = jump.next_state;
        transition_history = jump.history;
      };
    }
sweep_transition_table_lem_example =
    sweep_transition_table_lem user asked
      (record jump { x_signal = 6 } ∷ record jump { signal_data = 9 } ∷ []) jump [] (λ f m. refl)
      (refl, (refl, tt)) refl

abbrev untimed : StateMachine
untimed = record equipped { time_spec = none }

check_for_signals_lem_example : Took (held untimed) (check_for_signals user untimed nothing)
unfolding in_queue
check_for_signals_lem_example =
    check_for_signals_lem user untimed nothing refl refl (omega arith, (omega arith, tt))

abbrev no_machines : Publisher
no_machines = record { ps_signals = λ i. signal_none; ps_subs = λ i j. 0 }

subscribe_to_signal_lem_example :
    ((subscribe_to_signal no_machines 100 5).1 ≡ true
      → IsSubscribed (subscribe_to_signal no_machines 100 5).0 100 5)
    × ((subscribe_to_signal no_machines 100 5).1 ≡ false
        → (subscribe_to_signal no_machines 100 5).0 ≡ no_machines)
subscribe_to_signal_lem_example = subscribe_to_signal_lem no_machines 100 5 (omega arith)

-- Two machines subscribe to one signal.
abbrev pair : Publisher
pair = record {
  ps_signals = λ i. if i == 0 then 5 else signal_none;
  ps_subs = λ i j. if i == 0 then (if j == 0 then 100 else (if j == 1 then 200 else 0)) else 0;
}

abbrev fleet : ℕ → StateMachine
fleet a = machine 3

send_signal_delivers_example :
    ((a : ℕ)
      → (Publisher.send_signal pair 5 0 false fleet).0 a
        ≡ (if on (100 ∷ 200 ∷ []) a then (Signals.send_signal (fleet a) 5 0 false).0 else fleet a))
    × ((Publisher.send_signal pair 5 0 false fleet).1 ≡ all_take (100 ∷ 200 ∷ []) fleet 5 0 false)
send_signal_delivers_example =
    send_signal_delivers pair 5 0 false fleet 0 (100 ∷ 200 ∷ []) (omega arith) first (omega arith)
      refl (refl, omega arith, (refl, omega arith, inr refl)) ((omega arith, tt), (tt, tt))
  where
    first : Publisher.find_signal pair.ps_signals 5 0 Publisher.max_sig ≡ 0
    first = unfold Publisher.find_signal in refl

-- Two signals, each with a subscriber: when the first is left, the second has lost its own.
abbrev two_signals : Publisher
two_signals = (subscribe_to_signal (subscribe_to_signal no_machines 100 5).0 200 6).0

lost_subscriber :
    (Publisher.get_subscription_status two_signals 200 6).ps_status ≡ Publisher.subscriber_found
unfolding Publisher.get_subscription_status subscribe_to_signal
lost_subscriber = refl

lost_after :
    (Publisher.get_subscription_status
      (Publisher.unsubscribe_from_signal two_signals 100 5).0
      200
      6).ps_status
    ≡ Publisher.subscriber_not_found
unfolding Publisher.get_subscription_status subscribe_to_signal Publisher.unsubscribe_from_signal
lost_after = refl
