-- ===== src/Fsm/Leaving.antt =====
-- A transition leaves the hierarchy well-formed, and finds the least common ancestor.
use quark_ts_cpp.Prelude.{
  ℕ, zero, suc, ◌≤◌, ◌<◌, ◌≡◌, ◌≢◌, inl, inr, refl, sym, ap, subst, ◌∙◌, true, false, ◌||◌, none,
  some, List, [], ◌∷◌, ◌==◌, if◌then◌else◌, arith, All, Bool-cases, Option-cases, length,
}
use quark_ts_cpp.Fsm.{
  Signal, State, StateMachine, User, HistoryMode, put_state, no_history, shallow_history,
  deep_history, signal_exit,
}
use quark_ts_cpp.Fsm.Activities.{state_on_exit}
use quark_ts_cpp.Fsm.Transit.{restore_history}
use quark_ts_cpp.Fsm.Paths.{Up, on, IsLca}
use quark_ts_cpp.Fsm.Exits.{
  Calm, Kept-trans, Kept-prepare_handler, Kept-invoke_state_activities, Kept-actions,
  SameTree-put_state,
}
use quark_ts_cpp.Fsm.Moves.{exit_all, Up-head}
use quark_ts_cpp.Fsm.Tree.{Nest, Below, IsTree, IsTree-Kept, IsTree-SameTree}

pub not_top : (m : StateMachine) (x : ℕ) → (x == m.top) ≡ false → x ≢ m.top
not_top m x e = ground (arith, e)

-- A state of a path splits it.
pub Up-on :
    (states : ℕ → State) (x : ℕ) (ys : List ℕ) (a b : ℕ)
    → Up states x ys b
    → on ys a ≡ true
    → (ts : List ℕ) × Up states x ts a
Up-on states x [] a b p o = absurd (ground (arith, o))
Up-on states x (y ∷ ys) a b p o = elim (Bool-cases (a == y)) [
  | inl e ↦ ([], ground (arith, p.0, e))
  | inr e ↦
      (let (ts, q) = Up-on states (states x).parent ys a b p.2 (ground (arith, o, e)) in
        (y ∷ ts, (p.0, p.1, q)))
]

module _ {n : Nest} where
  -- A last running child below its state is written.
  IsTree-put_child :
      (m : StateMachine) (p x : ℕ)
      → (x ≢ 0 → Below n m x p)
      → IsTree n m
      → IsTree n (put_state m p (record (m.states p) { last_running_child = x }))
  IsTree-put_child m p x b w =
      IsTree-SameTree
        (SameTree-put_state m p (record (m.states p) { last_running_child = x }) refl refl refl)
        children w
    where
      children :
          (s : ℕ)
          → n.In s
          → ((put_state m p (record (m.states p) { last_running_child = x })).states
              s).last_running_child
            ≢ 0
          → Below n m
              ((put_state m p (record (m.states p) { last_running_child = x })).states
                s).last_running_child
              s
      children s i h = elim (Bool-cases (s == p)) [
        | inl e ↦ unfold put_state in rw e (subst (Below n m x) (ground (arith, e)) (b (hit s h e)))
        | inr e ↦ unfold put_state in rw e (w.running s i (miss s h e))
      ]
        where
          hit :
              (s : ℕ)
              → ((put_state m p (record (m.states p) { last_running_child = x })).states
                  s).last_running_child
                ≢ 0
              → (s == p) ≡ true
              → x ≢ 0
          hit s h e = unfold put_state in (rw e at h)

          miss :
              (s : ℕ)
              → ((put_state m p (record (m.states p) { last_running_child = x })).states
                  s).last_running_child
                ≢ 0
              → (s == p) ≡ false
              → (m.states s).last_running_child ≢ 0
          miss s h e = unfold put_state in (rw e at h)

  pub restore_history-IsTree :
      (m : StateMachine) (target : ℕ) (h : HistoryMode)
      → n.In target
      → IsTree n m
      → IsTree n (restore_history m target h)
  unfolding restore_history
  restore_history-IsTree m target no_history i w =
      IsTree-put_child m target _ (w.initial target i) w
  restore_history-IsTree m target shallow_history i w =
      let lrc = (m.states target).last_running_child in
      elim (Bool-cases (lrc == 0)) [
        | inl e ↦ rw e w
        | inr e ↦
            (let j : n.In lrc = (w.running target i (ground (arith, e))).inside in
              rw e (IsTree-put_child m lrc _ (w.initial lrc j) w))
      ]
  restore_history-IsTree m target deep_history i w = w

  -- The states of a path are in the hierarchy, and not its top.
  pub Up-inside :
      (m : StateMachine) (x : ℕ) (ts : List ℕ) (s : ℕ)
      → IsTree n m
      → s ≢ 0
      → n.In x
      → Up m.states x ts s
      → All (λ t. n.In t × (t ≢ m.top)) ts
  Up-inside m x [] s w h i p = tt
  Up-inside m x (t ∷ ts) s w h i p =
      ((subst n.In p.0 i, λ e. ne (p.0 ∙ e)), Up-inside m _ ts s w h (w.inner x i ne) p.2)
    where
      ne : x ≢ m.top
      ne e =
          Up-head m.states (m.states x).parent ts s h p.2
            (ap (λ y. (m.states y).parent) e ∙ w.root_parent)

  -- From a state up to the top.
  pub chain :
      (d : ℕ) (m : StateMachine) (x : ℕ)
      → IsTree n m
      → n.In x
      → n.depth x < d
      → (ys : List ℕ) × Up m.states x ys 0 × (on ys m.top ≡ true) × (length ys ≤ d)
  chain zero m x w i l = absurd (omega arith)
  chain (suc d) m x w i l = elim (Bool-cases (x == m.top)) [
    | inl e ↦ (
      x ∷ [],
      (refl, w.real x i, ap (λ y. (m.states y).parent) (ground (arith, e)) ∙ w.root_parent),
      ground (arith, e),
      omega arith,
    )
    | inr e ↦
        (let ne = not_top m x e in
          let (ys, p, o, k) =
            chain d m (m.states x).parent w (w.inner x i ne) (omega (arith, w.level x i ne)) in
          (x ∷ ys, (refl, w.real x i, p), ground (arith, o), omega arith))
  ]

  -- The first state above `s` on a path to the top.
  pub least_common :
      (d : ℕ) (m : StateMachine) (s : ℕ) (ys : List ℕ)
      → IsTree n m
      → n.In s
      → on ys m.top ≡ true
      → n.depth s < d
      → (xs : List ℕ) × (a : ℕ) × IsLca m.states s xs a ys × n.In a
  least_common zero m s ys w i o l = absurd (omega arith)
  least_common (suc d) m s ys w i o l = elim (Bool-cases (on ys s)) [
    | inl e ↦ ([], s, record { path = refl; real = w.real s i; off = tt; common = e }, i)
    | inr e ↦
        (let ne : s ≢ m.top = λ q. absurd (ground (arith, ap (on ys) q, o, e)) in
          let (xs, a, lca, j) =
            least_common d m (m.states s).parent ys w (w.inner s i ne) o
              (omega (arith, w.level s i ne)) in
          (
            s ∷ xs,
            a,
            record {
              path = (refl, w.real s i, lca.path);
              real = lca.real;
              off = (e, lca.off);
              common = lca.common;
            },
            j,
          ))
  ]

  noted :
      (m : StateMachine) (s q : ℕ) (r : StateMachine × ℕ)
      → IsTree n m
      → n.In s
      → s ≢ m.top
      → (m.states s).parent ≡ q
      → (if (s == 0) || (q == 0)
          then none
          else some (put_state m q (record (m.states q) { last_running_child = s }), q))
        ≡ some r
      → IsTree n r.0 × (r.0.top ≡ m.top)
  noted m s q r w i ne f e = elim (Bool-cases ((s == 0) || (q == 0))) [
    | inl g ↦ absurd (ground (arith, rw g at e))
    | inr g ↦
        (let m' = put_state m q (record (m.states q) { last_running_child = s }) in
          let b : Below n m s q = record {
            inside = i;
            deeper = omega (arith, w.level s i ne, ap n.depth f);
            path = s ∷ [];
            up = (refl, w.real s i, f);
          } in
          let h : (m', q) ≡ r = ground (arith, rw g at e) in
          subst (λ y. IsTree n y.0 × (y.0.top ≡ m.top)) h
            (IsTree-put_child m q s (λ z. b) w, unfold put_state in refl))
  ]

  module _ {u : User} (calm : Calm u) where
    state_on_exit-IsTree :
        (m : StateMachine) (s : ℕ) (r : StateMachine × ℕ)
        → IsTree n m
        → n.In s
        → s ≢ m.top
        → state_on_exit u m s ≡ some r
        → IsTree n r.0 × (r.0.top ≡ m.top)
    unfolding state_on_exit
    state_on_exit-IsTree m s r w i ne e =
        let x : Signal = record { id = signal_exit; payload = 0 } in
        let k =
          Kept-trans (Kept-prepare_handler m x s)
            (Kept-trans (Kept-invoke_state_activities calm _ s) (Kept-actions u _ s signal_exit)) in
        let (t, f) = noted _ s _ r (IsTree-Kept k w) i (λ q. ne (q ∙ k.tree.top_at)) refl e in
        (t, f ∙ k.tree.top_at)

    pub exit_all-IsTree :
        (m : StateMachine) (xs : List ℕ) (m' : StateMachine)
        → All (λ x. n.In x × (x ≢ m.top)) xs
        → exit_all u m xs ≡ some m'
        → IsTree n m
        → IsTree n m'
    unfolding exit_all
    exit_all-IsTree m [] m' o e w = subst (IsTree n) (ground (arith, e)) w
    exit_all-IsTree m (x ∷ xs) m' o e w = elim (Option-cases (state_on_exit u m x)) [
      | inl f ↦ absurd (ground (arith, rw f at e))
      | inr (r, f) ↦
          (let (t, g) = state_on_exit-IsTree m x r w o.0.0 o.0.1 f in
            exit_all-IsTree r.0 xs m' (subst (λ y. All (λ z. n.In z × (z ≢ y)) xs) (sym g) o.1)
              (rw f at e) t)
    ]
