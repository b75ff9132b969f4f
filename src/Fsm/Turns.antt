-- ===== src/Fsm/Turns.antt =====
-- A signal handed to a state returns, whether it makes a transition or not.
use quark_ts_cpp.Prelude.{
  ℕ, ◌<◌, ◌≡◌, ◌≢◌, ◌⊎◌, inl, inr, refl, sym, subst, ◌∙◌, some, List, [], ◌∷◌, ◌++◌, ◌==◌, arith,
  All-append, Bool-cases, length,
}
use quark_ts_cpp.Fsm.{Signal, StateMachine, User, HistoryMode, signal_handled}
use quark_ts_cpp.Fsm.Activities.{prepare_handler, sweep, invoke_state_activities}
use quark_ts_cpp.Fsm.Transit.{levels_to_lca, transition, max_nest_depth}
use quark_ts_cpp.Fsm.Running.{state_on_signal}
use quark_ts_cpp.Fsm.Paths.{Up, levels_to_lca_lem, levels_to_lca_self}
use quark_ts_cpp.Fsm.Exits.{
  SameTree, Kept-trans, Kept-prepare_handler, Kept-invoke_state_activities,
}
use quark_ts_cpp.Fsm.Moves.{Up-SameTree, exit_up_to_lca_lem}
use quark_ts_cpp.Fsm.Entries.{left_for, restore_history-SameTree}
use quark_ts_cpp.Fsm.Tree.{Nest, IsTree, IsTree-places, Up-depth}
use quark_ts_cpp.Fsm.Asks.{Sane, Fine-prepare_handler, Fine-sweep, Fine-invoke_state_activities}
use quark_ts_cpp.Fsm.Leaving.{
  restore_history-IsTree, Up-inside, chain, least_common, Up-on, exit_all-IsTree,
}
use quark_ts_cpp.Fsm.Settling.{Rests}

-- A transition is noted: its target is at or below the current state.
pub record Bound (n : Nest) (m : StateMachine) : Type 0 where
  pub tree : IsTree n m
  pub here : n.In m.current
  pub target : n.In m.next
  pub path : List ℕ
  pub up : Up m.states m.next path m.current

-- The machine goes on after the state `s`, or has noted a transition.
abbrev pub Turned : Nest → StateMachine → ℕ → StateMachine → ℕ → Type 0
Turned n m s m' st =
    (Rests n m' × SameTree (record m { source = s }) m') ⊎ (Bound n m' × (st ≡ signal_handled))

module _ {n : Nest} {u : User} (sane : Sane n u) (rounds : max_nest_depth < u.rounds) where
  transition_by :
      (m : StateMachine) (target : ℕ) (h : HistoryMode) (cs xs ts : List ℕ) (a : ℕ)
      → IsTree n m
      → n.In m.current
      → n.In target
      → n.In a
      → Up m.states m.current cs m.source
      → Up m.states m.source xs a
      → Up m.states target ts a
      → n.In m.source
      → levels_to_lca u m target ≡ some (length xs)
      → (m2 : StateMachine) × (transition u m target h ≡ some m2) × Bound n m2
  unfolding transition
  transition_by m target h cs xs ts a w i j k p q t z l =
      let (_, d, o) = Up-depth m m.current cs m.source w (w.real m.source z) i p in
      let (m1, e, left) =
        exit_up_to_lca_lem sane.calm m cs xs a (w.real a k)
          (omega (arith, d, w.shallow m.current i, rounds)) o p q in
      let inside =
        All-append (λ x. n.In x × (x ≢ m.top)) cs xs
          (Up-inside m m.current cs m.source w (w.real m.source z) i p)
          (Up-inside m m.source xs a w (w.real a k) z q) in
      let w1 = exit_all-IsTree sane.calm m (cs ++ xs) m1 inside left.left w in
      let m1a = record m1 { current = a } in
      let w2 = restore_history-IsTree m1a target h j (IsTree-places m1 a m1.source m1.next w1) in
      let r = restore_history-SameTree m1a target h in
      (
        left_for m1 a target h,
        ground (arith, l, e),
        record {
          tree = IsTree-places _ _ _ target w2;
          here = subst n.In (sym r.current_at) k;
          target = j;
          path = ts;
          up =
              subst (Up (left_for m1 a target h).states target ts) (sym r.current_at)
                (Up-SameTree {m = m1a} target ts a r (Up-SameTree {m = m} target ts a left.same t));
        },
      )

  transition-Bound :
      (m : StateMachine) (target : ℕ) (h : HistoryMode) (cs : List ℕ)
      → IsTree n m
      → n.In m.current
      → n.In m.source
      → n.In target
      → target ≢ m.top
      → Up m.states m.current cs m.source
      → (m2 : StateMachine) × (transition u m target h ≡ some m2) × Bound n m2
  transition-Bound m target h cs w i z j ne p = elim (Bool-cases (m.source == target)) [
    | inl e ↦
        (let f : m.source ≡ target = ground (arith, e) in
          let up : Up m.states m.source (m.source ∷ []) (m.states m.source).parent =
            (refl, w.real m.source z, refl) in
          transition_by m target h cs (m.source ∷ []) (m.source ∷ []) (m.states m.source).parent w i
            j (w.inner m.source z (λ q. ne (sym f ∙ q))) p up
            (subst (λ y. Up m.states y (m.source ∷ []) (m.states m.source).parent) f up) z
            (levels_to_lca_self u m target f))
    | inr e ↦
        (let (ys, c, o, k) = chain 5 m target w j (w.shallow target j) in
          let (xs, a, lca, b) = least_common 5 m m.source ys w z o (w.shallow m.source z) in
          let (ts, t) = Up-on m.states target ys a 0 c lca.common in
          let (_, d, _) = Up-depth m m.source xs a w lca.real z lca.path in
          let short : length xs < max_nest_depth = omega (arith, d, w.shallow m.source z) in
          transition_by m target h cs xs ts a w i j b p lca.path t z (
            levels_to_lca_lem u m target xs ys a (ground (arith, e)) lca c (omega (arith, rounds))
              (omega arith) (omega (arith, rounds))))
  ]

  pub state_on_signal-Turned :
      (m : StateMachine) (s : ℕ) (cs : List ℕ) (sig : Signal)
      → Rests n m
      → n.In s
      → Up m.states m.current cs s
      → (m' : StateMachine) × (st : ℕ) × (state_on_signal u (record m { source = s }) s sig
          ≡ some (m', st))
        × Turned n m s m' st
  unfolding state_on_signal
  state_on_signal-Turned m s cs sig r i p =
      let ms = record m { source = s } in
      let ws = IsTree-places m m.current s m.next r.tree in
      let f0 = Fine-prepare_handler s ms sig ws in
      let k0 = Kept-prepare_handler ms sig s in
      let (f1, k1) =
        Fine-sweep s sane (prepare_handler ms sig s) (m.states s).t_table
          (λ rows e. f0.tree.goals s rows i (k0.tree.tables s ∙ e)) f0 in
      let m1 = sweep u (prepare_handler ms sig s) (m.states s).t_table in
      let f2 = Fine-invoke_state_activities s sane m1 f1 in
      let k2 = Kept-trans (Kept-trans k0 k1) (Kept-invoke_state_activities sane.calm m1 s) in
      let m2 = invoke_state_activities u m1 s in
      let t = k2.tree in
      elim f2.asks.goes [
        | inl z ↦ (
          m2,
          m2.handler.status,
          ground (arith, z),
          inl (
            record {
              tree = f2.tree;
              here = subst n.In (sym t.current_at) r.here;
              idle = t.next_at ∙ r.idle;
            },
            t,
          ),
        )
        | inr g ↦
            (let src = sym t.source_at in
              let (m3, e, b) =
                transition-Bound m2 m2.handler.next_state m2.handler.transition_history cs f2.tree
                  (subst n.In (sym t.current_at) r.here) (subst n.In src i) g.0 g.1
                  (subst (Up m2.states m2.current cs) src (
                    subst (λ y. Up m2.states y cs s) (sym t.current_at)
                      (Up-SameTree {m = ms} m.current cs s t p))) in
              (
                m3,
                signal_handled,
                ground (arith, f2.tree.real m2.handler.next_state g.0, e),
                inr (b, refl),
              ))
      ]
