-- ===== src/Fsm/Returns.antt =====
-- A run returns, and leaves the machine ready for the next.
use quark_ts_cpp.Prelude.{
  ℕ, zero, suc, ◌+◌, ◌<◌, ◌≡◌, ◌⊎◌, inl, inr, refl, sym, ap, subst, ◌∙◌, Bool, true, false, not,
  ◌&&◌, Option, none, some, List, [], ◌∷◌, ◌++◌, ◌==◌, arith, Bool-cases, ltb,
}
use quark_ts_cpp.Fsm.{
  Signal, SignalQueue, TimeoutSpec, StateMachine, User, signal_handled, signal_none, max_timeouts,
}
use quark_ts_cpp.Fsm.Signals.{send_signal, internal_signal_send, send_to}
use quark_ts_cpp.Fsm.Timeouts.{timeout_check, timeout_check_from, timeout_check_signals}
use quark_ts_cpp.Fsm.Transit.{max_nest_depth}
use quark_ts_cpp.Fsm.Running.{evaluate, receive_from, check_timers, check_for_signals, run}
use quark_ts_cpp.Timer.{expired}
use quark_ts_cpp.Fsm.Paths.{Up}
use quark_ts_cpp.Fsm.Exits.{Kept, Kept-refl, Kept-trans, Kept-same}
use quark_ts_cpp.Fsm.Moves.{Up-SameTree}
use quark_ts_cpp.Fsm.Entries.{Up-append}
use quark_ts_cpp.Fsm.Tree.{Nest, IsTree, IsTree-Kept}
use quark_ts_cpp.Fsm.Asks.{Sane}
use quark_ts_cpp.Fsm.Settling.{Rests, start_top-Rests, settle-Rests, settle_idle}
use quark_ts_cpp.Fsm.Leaving.{not_top}
use quark_ts_cpp.Fsm.Turns.{state_on_signal-Turned}

-- The machine rests in a state, or has not started.
pub record IsReady (n : Nest) (m : StateMachine) : Type 0 where
  pub tree : IsTree n m
  pub here : (m.current ≡ 0) ⊎ n.In m.current
  pub idle : m.next ≡ 0

Kept-send_to :
    (m : StateMachine) (x : Signal) (is_urgent : Bool) (o : Option SignalQueue)
    → Kept m (send_to m x is_urgent o).0
unfolding send_to
Kept-send_to m x is_urgent none = Kept-refl m
Kept-send_to m x is_urgent (some q) = Kept-same _ _ refl refl refl refl refl

Kept-send_signal :
    (m : StateMachine) (sig s_data : ℕ) (is_urgent : Bool)
    → Kept m (send_signal m sig s_data is_urgent).0
unfolding send_signal internal_signal_send
Kept-send_signal m sig s_data is_urgent = elim (Bool-cases (ltb sig signal_none)) [
  | inr e ↦ rw e (Kept-refl m)
  | inl e ↦
      (let x : Signal = record { id = sig; payload = s_data } in
        let r = send_to m x is_urgent m.s_queue in
        let k = Kept-send_to m x is_urgent m.s_queue in
        elim (Bool-cases (not r.1 && (r.0.signal_not.id == signal_none))) [
          | inl f ↦ rw (e, f) (Kept-trans k (Kept-same _ _ refl refl refl refl refl))
          | inr f ↦ rw (e, f) k
        ])
]

Kept-timeout_check :
    (u : User) (r : StateMachine × TimeoutSpec) (i : ℕ) → Kept r.0 (timeout_check u r i).0
unfolding timeout_check
Kept-timeout_check u (m, ts) i = elim (Bool-cases (expired (ts.timeout i) u.now)) [
  | inl e ↦ rw e (Kept-send_signal m _ 0 false)
  | inr e ↦ rw e (Kept-refl m)
]

Kept-timeout_check_from :
    (u : User) (r : StateMachine × TimeoutSpec) (i n : ℕ) → Kept r.0 (timeout_check_from u r i n).0
unfolding timeout_check_from
Kept-timeout_check_from u r i zero = Kept-refl r.0
Kept-timeout_check_from u r i (suc n) =
    Kept-trans (Kept-timeout_check u r i)
      (Kept-timeout_check_from u (timeout_check u r i) (i + 1) n)

Kept-check_timers :
    (u : User) (m : StateMachine) (o : Option TimeoutSpec) → Kept m (check_timers u m o)
unfolding check_timers timeout_check_signals
Kept-check_timers u m none = Kept-refl m
Kept-check_timers u m (some ts) =
    Kept-trans (Kept-timeout_check_from u (m, ts) 0 max_timeouts)
      (Kept-same _ _ refl refl refl refl refl)

Kept-receive_from :
    (m : StateMachine) (sig : Signal) (o : Option SignalQueue) → Kept m (receive_from m sig o).0
unfolding receive_from
Kept-receive_from m sig none = Kept-refl m
Kept-receive_from m sig (some q) = Kept-same _ _ refl refl refl refl refl

Kept-check_for_signals :
    (u : User) (m : StateMachine) (sig : Signal) → Kept m (check_for_signals u m sig).0
unfolding check_for_signals
Kept-check_for_signals u m sig =
    let m0 = check_timers u m m.time_spec in
    let r = receive_from m0 sig m0.s_queue in
    let k = Kept-trans (Kept-check_timers u m m.time_spec) (Kept-receive_from m0 sig m0.s_queue) in
    elim (Bool-cases ((r.1.id == signal_none) && not (r.0.signal_not.id == signal_none))) [
      | inl e ↦ rw e (Kept-trans k (Kept-same _ _ refl refl refl refl refl))
      | inr e ↦ rw e k
    ]

module _ {n : Nest} {u : User} (sane : Sane n u) (rounds : max_nest_depth < u.rounds) where
  -- Above the states that have not handled the signal.
  evaluate-Rests :
      (fuel : ℕ) (m : StateMachine) (s : ℕ) (cs : List ℕ) (sig : Signal)
      → Rests n m
      → Up m.states m.current cs s
      → ((s ≡ 0) × (0 < fuel)) ⊎ (n.In s × (n.depth s + 1 < fuel))
      → (r : StateMachine × Bool) × (evaluate u fuel m s sig ≡ some r) × Rests n r.0
  unfolding evaluate
  evaluate-Rests zero m s cs sig r p (inl z) = absurd (omega (arith, z.1))
  evaluate-Rests zero m s cs sig r p (inr i) = absurd (omega (arith, i.1))
  evaluate-Rests (suc fuel) m s cs sig r p (inl z) = ((m, false), ground (arith, z.0), r)
  evaluate-Rests (suc fuel) m s cs sig r p (inr i) =
      let (m1, st, e, t) = state_on_signal-Turned sane rounds m s cs sig r i.0 p in
      let s_real = r.tree.real s i.0 in
      elim t [
        | inr (b, f) ↦
            (let (m2, g, r2) = settle-Rests sane rounds m1 b.path b.tree b.here b.target b.up in
              ((m2, true), ground (arith, s_real, e, f, g), r2))
        | inl (r1, same) ↦ elim (Bool-cases (st == signal_handled)) [
          | inl f ↦ ((m1, true), ground (arith, s_real, e, f, settle_idle u m1 r1.idle), r1)
          | inr f ↦
              (let q = same.parents s in
                let path =
                  subst (λ y. Up m1.states y (cs ++ s ∷ []) (m1.states s).parent)
                    (sym same.current_at)
                    (Up-append m1.states m.current cs s (s ∷ []) (m1.states s).parent
                      (Up-SameTree {m = record m { source = s }} m.current cs s same p)
                      (refl, s_real, refl)) in
                let (r2, g, rests) =
                  evaluate-Rests fuel m1 (m1.states s).parent (cs ++ s ∷ []) sig r1 path
                    (above m1 q) in
                (r2, ground (arith, s_real, e, f, g), rests))
        ]
      ]
    where
      above :
          (m1 : StateMachine)
          → (m1.states s).parent ≡ (m.states s).parent
          → (((m1.states s).parent ≡ 0) × (0 < fuel))
            ⊎ (n.In (m1.states s).parent × (n.depth (m1.states s).parent + 1 < fuel))
      above m1 q = elim (Bool-cases (s == m.top)) [
        | inl e ↦ inl (
          q ∙ ap (λ y. (m.states y).parent) (ground (arith, e)) ∙ r.tree.root_parent,
          omega (arith, i.1),
        )
        | inr e ↦
            (let ne = not_top m s e in
              inr (
                subst n.In (sym q) (r.tree.inner s i.0 ne),
                omega (arith, i.1, r.tree.level s i.0 ne, ap n.depth q),
              ))
      ]

  -- In a well-formed hierarchy that fits the nest depth, with user code that asks for start states only
  -- below the state whose callback runs, and for transitions only to states of the hierarchy but the
  -- top, and that leaves the private members and the handler's state alone, a run on any signal returns,
  -- that is, reads no null pointer, keeps within the array of the entry path and ends; and it leaves the
  -- machine resting in a state of the hierarchy, still well-formed, with no transition pending.
  pub run-Rests :
      (m : StateMachine) (sig : Signal)
      → IsReady n m
      → (r : StateMachine × Bool) × (run u m sig ≡ some r) × Rests n r.0
  unfolding run
  run-Rests m sig w =
      let k = Kept-check_for_signals u m sig in
      let c = check_for_signals u m sig in
      let (m2, e, r) =
        start_top-Rests sane rounds c.0 (IsTree-Kept k w.tree)
          (elim w.here [
            | inl z ↦ inl (k.tree.current_at ∙ z)
            | inr i ↦ inr (subst n.In (sym k.tree.current_at) i)
          ])
          (k.tree.next_at ∙ w.idle) in
      let (r2, f, rests) =
        evaluate-Rests u.rounds m2 m2.current [] c.1 r refl
          (inr (r.here, omega (arith, r.tree.shallow m2.current r.here, rounds))) in
      (r2, ground (arith, e, f), rests)

  pub Rests-IsReady : (m : StateMachine) → Rests n m → IsReady n m
  Rests-IsReady m r = record { tree = r.tree; here = inr r.here; idle = r.idle }
