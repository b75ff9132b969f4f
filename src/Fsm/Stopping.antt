-- ===== src/Fsm/Stopping.antt =====
-- The signals of a stopped timeout are taken out of the queue, and no others.
use quark_ts_cpp.Prelude.{
  ℕ, ◌+◌, ◌≤◌, ◌<◌, ◌≡◌, refl, sym, ap, subst, ◌∙◌, inl, inr, true, false, some, List, [], ◌∷◌,
  ◌++◌, ◌==◌, if◌then◌else◌, lt→ltb, ap₂, arith, length, Bool-cases, length-append,
}
use mathlib.Core.List.{append_assoc, append-nil}
use quark_ts_cpp.Timer.{disarm}
use quark_ts_cpp.Fsm.{Signal, SignalQueue, TimeoutSpec, StateMachine, max_timeouts, signal_timeout}
use quark_ts_cpp.Fsm.Signals.{queue_send, queue_receive}
use quark_ts_cpp.Fsm.Timeouts.{requeue, requeue_all, stop_with, timeout_stop, put_timer}

-- The signals with another id.
pub without_id : ℕ → List Signal → List Signal
without_id sig [] = []
without_id sig (x ∷ xs) = if x.id == sig then without_id sig xs else x ∷ without_id sig xs

length-without_id : (sig : ℕ) (xs : List Signal) → length (without_id sig xs) ≤ length xs
unfolding without_id
length-without_id sig [] = omega arith
length-without_id sig (x ∷ xs) = ground (arith, length-without_id sig xs)

abbrev holding : List Signal → ℕ → SignalQueue
holding xs cap = record { signals = xs; capacity = cap }

requeue_hit :
    (sig cap : ℕ) (x : Signal) (xs : List Signal)
    → (x.id == sig) ≡ true
    → requeue sig (holding (x ∷ xs) cap) ≡ holding xs cap
unfolding requeue queue_receive
requeue_hit sig cap x xs e = rw e refl

requeue_miss :
    (sig cap : ℕ) (x : Signal) (xs : List Signal)
    → (x.id == sig) ≡ false
    → length xs < cap
    → requeue sig (holding (x ∷ xs) cap) ≡ holding (xs ++ x ∷ []) cap
unfolding requeue queue_receive queue_send
requeue_miss sig cap x xs e l = ground (arith, e, l)

-- With the signals `ys` kept so far.
requeue_all_lem :
    (sig cap : ℕ) (xs ys : List Signal)
    → length xs + length ys ≤ cap
    → requeue_all sig (length xs) (holding (xs ++ ys) cap) ≡ holding (ys ++ without_id sig xs) cap
unfolding requeue_all without_id
requeue_all_lem sig cap [] ys l = ap (λ zs. holding zs cap) (sym (append-nil ys))
requeue_all_lem sig cap (x ∷ xs) ys l = elim (Bool-cases (x.id == sig)) [
  | inl e ↦
      ap (requeue_all sig (length xs)) (requeue_hit sig cap x (xs ++ ys) e)
      ∙ requeue_all_lem sig cap xs ys (omega arith)
      ∙ (rw e refl)
  | inr e ↦
      ap (requeue_all sig (length xs)) (
        requeue_miss sig cap x (xs ++ ys) e (omega (arith, length-append xs ys))
        ∙ ap (λ zs. holding zs cap) (append_assoc xs ys (x ∷ [])))
      ∙ requeue_all_lem sig cap xs (ys ++ x ∷ []) (omega (arith, length-append ys (x ∷ [])))
      ∙ ap (λ zs. holding zs cap) (append_assoc ys (x ∷ []) (without_id sig xs))
      ∙ (rw e refl)
]

-- On a machine with timers and a queue that holds no more than its capacity, `timeoutStop` of a timeout
-- disarms its timer, takes its signals out of the queue, and keeps the other signals in their order.
pub timeout_stop_lem :
    (m : StateMachine) (ts : TimeoutSpec) (q : SignalQueue) (i : ℕ)
    → i < max_timeouts
    → m.time_spec ≡ some ts
    → m.s_queue ≡ some q
    → length q.signals ≤ q.capacity
    → timeout_stop m i
      ≡ some (
        record m {
          s_queue = some (record q { signals = without_id (signal_timeout i) q.signals });
          time_spec = some (put_timer ts i (disarm (ts.timeout i)));
        },
        true,
      )
unfolding timeout_stop stop_with
timeout_stop_lem m ts q i h e f l =
    let kept = requeue_all_lem (signal_timeout i) q.capacity q.signals [] (omega arith) in
    let kept' =
      subst
        (λ zs.
          requeue_all (signal_timeout i) (length q.signals) (holding zs q.capacity)
          ≡ holding (without_id (signal_timeout i) q.signals) q.capacity)
        (append-nil q.signals) kept in
    let stopped = some (put_timer ts i (disarm (ts.timeout i))) in
    ap₂ (stop_with m i) e f
    ∙ rw (lt→ltb i max_timeouts h)
        (ap (λ r. some (record m { s_queue = some r; time_spec = stopped }, true)) kept')
