-- ===== src/Fsm/Asks.antt =====
-- What user code asks for: start states below the state whose callback runs, which the handler names,
-- and transitions to states of the hierarchy.
use quark_ts_cpp.Prelude.{
  ℕ, ◌≡◌, ◌⊎◌, inl, inr, refl, sym, subst, ◌∙◌, ◌&&◌, Option, none, some, List, [], ◌∷◌, ◌==◌, leb,
  All, Bool-cases,
}
use quark_ts_cpp.Fsm.{Signal, StateMachine, User, Transition, tm_min, tm_max, before_any, absent}
use quark_ts_cpp.Fsm.Activities.{
  prepare_handler, activities, surround, set_status, invoke_state_activities, ignore_data,
  row_matches, guard_allows, consider, choose, sweep_transition_table, sweep,
}
use quark_ts_cpp.Fsm.Exits.{
  Kept, Calm, Kept-refl, Kept-trans, Kept-same, Kept-put_state, Kept-prepare_handler,
  Kept-set_status,
}
use quark_ts_cpp.Fsm.Tree.{Nest, Below, IsGoal, IsTree, Below-SameTree, IsTree-Kept}

pub record Asks (n : Nest) (s : ℕ) (m : StateMachine) : Type 0 where
  pub starts : (m.handler.start_state ≡ 0) ⊎ Below n m m.handler.start_state s
  pub goes : IsGoal n m.top m.handler.next_state
  pub runs : m.handler.state ≡ s

pub record Fine (n : Nest) (s : ℕ) (m : StateMachine) : Type 0 where
  pub tree : IsTree n m
  pub asks : Asks n s m

-- User code that runs for a state `s`, the one that the handler names, leaves the private members alone,
-- and asks for what is there.
pub record Sane (n : Nest) (u : User) : Type 0 where
  pub calm : Calm u
  pub by_state : (f s : ℕ) (m : StateMachine) → Fine n s m → Asks n s (u.state_callback f m).0
  pub by_surrounding :
      (f s : ℕ) (m : StateMachine) → Fine n s m → Asks n s (u.surrounding_callback f m)
  pub by_guard : (f s : ℕ) (m : StateMachine) → Fine n s m → Asks n s (u.signal_action f m).0

module _ {n : Nest} (s : ℕ) where
  Fine-Kept :
      (m m' : StateMachine)
      → Kept m m'
      → m'.handler.start_state ≡ m.handler.start_state
      → m'.handler.next_state ≡ m.handler.next_state
      → m'.handler.state ≡ m.handler.state
      → Fine n s m
      → Fine n s m'
  Fine-Kept m m' k e f g w = record {
    tree = IsTree-Kept k w.tree;
    asks = record {
      starts = elim w.asks.starts [
        | inl h ↦ inl (e ∙ h)
        | inr b ↦ inr (subst (λ x. Below n m' x s) (sym e) (Below-SameTree _ s k.tree b))
      ];
      goes =
          subst (λ t. IsGoal n t m'.handler.next_state) (sym k.tree.top_at)
            (subst (IsGoal n m.top) (sym f) w.asks.goes);
      runs = g ∙ w.asks.runs;
    };
  }

  pub Fine-prepare_handler :
      (m : StateMachine) (x : Signal) → IsTree n m → Fine n s (prepare_handler m x s)
  unfolding prepare_handler
  Fine-prepare_handler m x w = record {
    tree = IsTree-Kept (Kept-prepare_handler m x s) w;
    asks = record { starts = inl refl; goes = inl refl; runs = refl };
  }

  Fine-set_status : (m : StateMachine) (st : ℕ) → Fine n s m → Fine n s (set_status m st)
  unfolding set_status
  Fine-set_status m st w = Fine-Kept m _ (Kept-set_status m st) refl refl refl w

  module _ {u : User} (sane : Sane n u) where
    Fine-surround : (m : StateMachine) (st : ℕ) → Fine n s m → Fine n s (surround u m st)
    unfolding surround
    Fine-surround m st w =
        let w1 = Fine-set_status m st w in
        elim (Bool-cases (m.surrounding == 0)) [
          | inl e ↦ rw e w
          | inr e ↦ rw e (record {
            tree = IsTree-Kept (sane.calm.by_surrounding m.surrounding (set_status m st)) w1.tree;
            asks = sane.by_surrounding m.surrounding s (set_status m st) w1;
          })
        ]

    Fine-activities : (m : StateMachine) → Fine n s m → Fine n s (activities u m s).0
    unfolding activities
    Fine-activities m w = elim (Bool-cases ((m.states s).s_callback == 0)) [
      | inl e ↦ rw e w
      | inr e ↦ rw e (record {
        tree = IsTree-Kept (sane.calm.by_state (m.states s).s_callback m) w.tree;
        asks = sane.by_state (m.states s).s_callback s m w;
      })
    ]

    pub Fine-invoke_state_activities :
        (m : StateMachine) → Fine n s m → Fine n s (invoke_state_activities u m s)
    unfolding invoke_state_activities
    Fine-invoke_state_activities m w = Fine-surround _ _ (
        Fine-set_status _ _ (
          Fine-activities _ (
            Fine-set_status _ absent (
              Fine-surround _ before_any
                (Fine-Kept m _ (Kept-put_state m s m.this) refl refl refl w)))))

    Fine-ignore_data : (m : StateMachine) → Fine n s m → Fine n s (ignore_data m)
    unfolding ignore_data
    Fine-ignore_data m w =
        elim (Bool-cases (leb tm_min m.handler.signal && leb m.handler.signal tm_max)) [
          | inl e ↦ rw e (Fine-Kept m _ (Kept-same _ _ refl refl refl refl refl) refl refl refl w)
          | inr e ↦ rw e w
        ]

    Fine-guard_allows :
        (m : StateMachine) (row : Transition) → Fine n s m → Fine n s (guard_allows u m row).0
    unfolding guard_allows
    Fine-guard_allows m row w = elim (Bool-cases (row.guard == 0)) [
      | inl e ↦ rw e w
      | inr e ↦ rw e (record {
        tree = IsTree-Kept (sane.calm.by_guard row.guard m) w.tree;
        asks = sane.by_guard row.guard s m w;
      })
    ]

    Kept-guard_allows : (m : StateMachine) (row : Transition) → Kept m (guard_allows u m row).0
    unfolding guard_allows
    Kept-guard_allows m row = elim (Bool-cases (row.guard == 0)) [
      | inl e ↦ rw e (Kept-refl m)
      | inr e ↦ rw e (sane.calm.by_guard row.guard m)
    ]

    Kept-ignore_data : (m : StateMachine) → Kept m (ignore_data m)
    unfolding ignore_data
    Kept-ignore_data m =
        elim (Bool-cases (leb tm_min m.handler.signal && leb m.handler.signal tm_max)) [
          | inl e ↦ rw e (Kept-same _ _ refl refl refl refl refl)
          | inr e ↦ rw e (Kept-refl m)
        ]

    -- A predicate of the machine that the data and the guard keep, the round keeps.
    by_consider :
        (P : StateMachine → Type 0) (m : StateMachine) (row : Transition)
        → P (ignore_data m)
        → P (guard_allows u (ignore_data m) row).0
        → P (consider u m row).0
    unfolding consider
    by_consider P m row a b = elim (Bool-cases (row_matches (ignore_data m) row)) [
      | inl e ↦ rw e b
      | inr e ↦ rw e a
    ]

    Fine-choose :
        (m : StateMachine) (row : Transition)
        → IsGoal n m.top row.next_state
        → Fine n s m
        → Fine n s (choose m row)
    unfolding choose
    Fine-choose m row g w =
        let k = Kept-same m (choose m row) refl refl refl refl refl in
        record {
          tree = IsTree-Kept k w.tree;
          asks = record {
            starts = elim w.asks.starts [
              | inl h ↦ inl h
              | inr b ↦ inr (Below-SameTree _ s k.tree b)
            ];
            goes = g;
            runs = w.asks.runs;
          };
        }

    Fine-sweep_transition_table :
        (m : StateMachine) (rows : List Transition)
        → All (λ (row : Transition). IsGoal n m.top row.next_state) rows
        → Fine n s m
        → Fine n s (sweep_transition_table u m rows) × Kept m (sweep_transition_table u m rows)
    unfolding sweep_transition_table
    Fine-sweep_transition_table m [] g w = (w, Kept-refl m)
    Fine-sweep_transition_table m (row ∷ rows) g w =
        let m' = (consider u m row).0 in
        let i = Fine-ignore_data m w in
        let k : Kept m m' =
          by_consider (Kept m) m row (Kept-ignore_data m)
            (Kept-trans (Kept-ignore_data m) (Kept-guard_allows (ignore_data m) row)) in
        let f : Fine n s m' =
          by_consider (Fine n s) m row i (Fine-guard_allows (ignore_data m) row i) in
        let t = sym k.tree.top_at in
        elim (Bool-cases (consider u m row).1) [
          | inl e ↦ rw e (
            Fine-choose m' row (subst (λ x. IsGoal n x row.next_state) t g.0) f,
            Kept-trans k (unfold choose in Kept-same m' (choose m' row) refl refl refl refl refl),
          )
          | inr e ↦
              (let r =
                  Fine-sweep_transition_table m' rows
                    (subst (λ x. All (λ (q : Transition). IsGoal n x q.next_state) rows) t g.1) f in
                rw e (r.0, Kept-trans k r.1))
        ]

    pub Fine-sweep :
        (m : StateMachine) (o : Option (List Transition))
        → ((rows : List Transition)
            → o ≡ some rows
            → All (λ (row : Transition). IsGoal n m.top row.next_state) rows)
        → Fine n s m
        → Fine n s (sweep u m o) × Kept m (sweep u m o)
    unfolding sweep
    Fine-sweep m none g w = (w, Kept-refl m)
    Fine-sweep m (some rows) g w = Fine-sweep_transition_table m rows (g rows refl) w
