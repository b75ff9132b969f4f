-- ===== src/Fsm/Signals.antt =====
-- src/fsm.cpp: signals sent to a machine, through its queue or its single slot `signalNot`.
use quark_ts_cpp.Prelude.{
  ℕ, Bool, true, false, not, ◌&&◌, Option, none, some, [], ◌∷◌, ◌++◌, ltb, ◌==◌, if◌then◌else◌,
  length,
}
use quark_ts_cpp.Fsm.{Signal, SignalQueue, StateMachine, signal_none}

-- `queue::send` and `queue::receive` on the sequence.
unfoldable pub queue_send : SignalQueue → Signal → Bool → SignalQueue × Bool
queue_send q x is_urgent =
    if ltb (length q.signals) q.capacity
    then (record q { signals = if is_urgent then x ∷ q.signals else q.signals ++ x ∷ [] }, true)
    else (q, false)

unfoldable pub queue_receive : SignalQueue → SignalQueue × Option Signal
queue_receive q = elim q.signals [ [] ↦ (q, none) | x ∷ xs ↦ (record q { signals = xs }, some x) ]

-- The queue's answer, if there is one: the machine, and whether the signal is in the queue.
unfoldable pub send_to : StateMachine → Signal → Bool → Option SignalQueue → StateMachine × Bool
unfolding queue_send
send_to m x is_urgent none = (m, false)
send_to m x is_urgent (some q) =
    let (q', ok) = queue_send q x is_urgent in (record m { s_queue = some q' }, ok)

unfoldable pub internal_signal_send : StateMachine → ℕ → ℕ → Bool → StateMachine × Bool
unfolding send_to
internal_signal_send m sig s_data is_urgent =
    let x : Signal = record { id = sig; payload = s_data } in
    let (m', sent) = send_to m x is_urgent m.s_queue in
    if not sent && (m'.signal_not.id == signal_none)
    then (record m' { signal_not = x }, true)
    else (m', sent)

unfoldable pub send_signal : StateMachine → ℕ → ℕ → Bool → StateMachine × Bool
unfolding internal_signal_send
send_signal m sig s_data is_urgent =
    if ltb sig signal_none then internal_signal_send m sig s_data is_urgent else (m, false)

-- `install( queue& )`; `item_size` is what the queue's `getItemSize` gives.
unfoldable pub install_queue : StateMachine → SignalQueue → Bool → ℕ → StateMachine × Bool
install_queue m q ready item_size =
    if ready && (item_size == 8) then (record m { s_queue = some q }, true) else (m, false)
