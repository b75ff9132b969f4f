-- ===== src/Fsm/Holding.antt =====
-- The signals a machine holds, in the queue and in the slot `signalNot`, and the order they come out in.
use quark_ts_cpp.Prelude.{
  ℕ, ◌≡◌, ◌≢◌, ◌⊎◌, refl, sym, ap, ap₂, subst, ◌∙◌, inl, inr, Bool, true, false, not, ◌&&◌, Option,
  none, some, List, [], ◌∷◌, ◌++◌, ◌==◌, ltb, if◌then◌else◌, arith, Bool-cases, All, length,
}
use quark_ts_cpp.Fsm.{Signal, SignalQueue, StateMachine, User, signal_none}
use quark_ts_cpp.Fsm.Signals.{queue_receive}
use quark_ts_cpp.Fsm.Running.{receive_from, check_timers, check_for_signals}

unfoldable pub in_queue : Option SignalQueue → List Signal
in_queue none = []
in_queue (some q) = q.signals

unfoldable pub in_slot : Signal → List Signal
in_slot x = if x.id == signal_none then [] else x ∷ []

-- The signals held, next first.
pub held : StateMachine → List Signal
unfolding in_queue in_slot
held m = in_queue m.s_queue ++ in_slot m.signal_not

-- There is a queue, and it has a place left.
abbrev pub has_room : Option SignalQueue → Bool
has_room none = false
has_room (some q) = ltb (length q.signals) q.capacity

-- Where the queue, if it has `room`, or else the slot takes a signal `x`.
pub data Joined (x : Signal) (is_urgent room : Bool)
    : List Signal → List Signal → List Signal → List Signal → Type 0 where
  in_front :
      (q s : List Signal) → room ≡ true → is_urgent ≡ true → Joined x is_urgent room q s (x ∷ q) s
  at_back :
      (q s : List Signal)
      → room ≡ true
      → is_urgent ≡ false
      → Joined x is_urgent room q s (q ++ x ∷ []) s
  in_empty_slot : (q : List Signal) → room ≡ false → Joined x is_urgent room q [] q (x ∷ [])

-- The queue has taken the signal, or nothing has changed.
abbrev Tried : StateMachine → Signal → Bool → Option SignalQueue → StateMachine × Bool → Type 0
Tried m x is_urgent o r =
    ((r.1 ≡ true)
      × (r.0.signal_not ≡ m.signal_not)
      × Joined x is_urgent (has_room o) (in_queue o) (in_slot m.signal_not) (in_queue r.0.s_queue)
          (in_slot m.signal_not))
    ⊎ ((has_room o ≡ false) × (r ≡ (m, false)))

-- What a caller can tell of the machine `r.0`, with the answer `r.1`.
abbrev Sent : StateMachine → Signal → Bool → StateMachine × Bool → Type 0
Sent m x is_urgent r =
    (r.1 ≡ true
      → Joined x is_urgent (has_room m.s_queue) (in_queue m.s_queue) (in_slot m.signal_not)
          (in_queue r.0.s_queue) (in_slot r.0.signal_not))
    × (r.1 ≡ false
        → (r.0 ≡ m) × (has_room m.s_queue ≡ false) × ((m.signal_not.id == signal_none) ≡ false))

abbrev slot : Signal → StateMachine × Bool → StateMachine × Bool
slot x r =
    if not r.1 && (r.0.signal_not.id == signal_none)
    then (record r.0 { signal_not = x }, true)
    else (r.0, r.1)

-- The signal taken, of those that were held.
abbrev pub Took : List Signal → StateMachine × Signal → Type 0
Took before (m', x) =
    ((x.id ≡ signal_none) × (before ≡ []) × (held m' ≡ [])) ⊎ (before ≡ x ∷ held m')

abbrev from_slot : StateMachine × Signal → StateMachine × Signal
from_slot r =
    if (r.1.id == signal_none) && not (r.0.signal_not.id == signal_none)
    then (record r.0 { signal_not = record { id = signal_none; payload = 0 } }, r.0.signal_not)
    else (r.0, r.1)

abbrev taken_slot : StateMachine → StateMachine × Signal
taken_slot m = (record m { signal_not = record { id = signal_none; payload = 0 } }, m.signal_not)

by_slot_test :
    (m : StateMachine) (x : Signal) (b : Bool)
    → ((x.id == signal_none) && not (m.signal_not.id == signal_none)) ≡ b
    → ◌≡◌ {A = StateMachine × Signal} (from_slot (m, x)) (if b then taken_slot m else (m, x))
by_slot_test m x b e = ap {B = StateMachine × Signal} (λ c. if c then taken_slot m else (m, x)) e

in_slot_if :
    (y : Signal) (b : Bool) → (y.id == signal_none) ≡ b → in_slot y ≡ (if b then [] else y ∷ [])
unfolding in_slot
in_slot_if y b e = ap (λ c. if c then [] else y ∷ []) e

-- Nothing comes from the queue.
slot_next :
    (m : StateMachine) (x : Signal)
    → x.id ≡ signal_none
    → in_queue m.s_queue ≡ []
    → Took (in_slot m.signal_not) (from_slot (m, x))
unfolding held
slot_next m x e q = elim (Bool-cases (m.signal_not.id == signal_none)) [
  | inl f ↦
      (let g = in_slot_if m.signal_not true f in
        subst (Took (in_slot m.signal_not)) (sym (by_slot_test m x false (ground (arith, f))))
          (inl (e, g, ap₂ ◌++◌ q g)))
  | inr f ↦
      subst (Took (in_slot m.signal_not)) (sym (by_slot_test m x true (ground (arith, e, f)))) (
        inr (
          in_slot_if m.signal_not false f
          ∙ ap (λ zs. m.signal_not ∷ zs)
              (ap₂ ◌++◌ {x = []} {y = in_queue m.s_queue} {u = []}
                {v = in_slot (taken_slot m).0.signal_not} (sym q)
                (sym (in_slot_if (taken_slot m).0.signal_not true refl)))))
]

queue_front :
    (m : StateMachine) (sig : Signal) (xs : List Signal) (c : ℕ)
    → sig.id ≡ signal_none
    → All (λ (x : Signal). x.id ≢ signal_none) xs
    → Took
        (xs ++ in_slot m.signal_not)
        (from_slot (receive_from m sig (some (record { signals = xs; capacity = c }))))
unfolding receive_from queue_receive in_queue held
queue_front m sig [] c e h =
    slot_next (record m { s_queue = some (record { signals = []; capacity = c }) }) sig e refl
queue_front m sig (x ∷ xs) c e h =
    subst (Took (x ∷ xs ++ in_slot m.signal_not))
      (sym (
        by_slot_test (record m { s_queue = some (record { signals = xs; capacity = c }) }) x false
          (ground (arith, h.0))))
      (inr refl)

queue_next :
    (m : StateMachine) (sig : Signal) (o : Option SignalQueue)
    → o ≡ m.s_queue
    → sig.id ≡ signal_none
    → All (λ (x : Signal). x.id ≢ signal_none) (in_queue o)
    → Took (in_queue o ++ in_slot m.signal_not) (from_slot (receive_from m sig o))
unfolding in_queue receive_from
queue_next m sig none q e h = slot_next m sig e (ap in_queue (sym q))
queue_next m sig (some q) f e h = queue_front m sig q.signals q.capacity e h

-- A machine without timers that is run on no signal takes the next of the signals it holds, the queue's
-- before the slot's, and holds the others; if it holds none, there is no signal. No signal in the queue
-- is the empty one.
pub check_for_signals_lem :
    (u : User) (m : StateMachine) (sig : Signal)
    → m.time_spec ≡ none
    → sig.id ≡ signal_none
    → All (λ (x : Signal). x.id ≢ signal_none) (in_queue m.s_queue)
    → Took (held m) (check_for_signals u m sig)
unfolding check_for_signals check_timers held
check_for_signals_lem u m sig t e h =
    subst
      (λ (y : StateMachine).
        Took (in_queue m.s_queue ++ in_slot m.signal_not)
          (from_slot (receive_from y sig y.s_queue)))
      (sym (ap (check_timers u m) t)) (queue_next m sig m.s_queue refl e h)
