-- ===== src/Fsm/Exits.antt =====
-- What user code leaves alone, and the exits from a state up the hierarchy.
use quark_ts_cpp.Prelude.{
  ℕ, ◌≡◌, ◌≢◌, refl, ap, ◌∙◌, inl, inr, Option, none, some, List, [], ◌∷◌, ◌==◌, arith, Bool-cases,
}
use quark_ts_cpp.Fsm.{
  Signal, State, StateMachine, User, TimeoutSpec, TimeoutDefinition, put_state, signal_exit,
  signal_entry, before_any, absent,
}
use quark_ts_cpp.Fsm.Timeouts.{perform_with, timeout_perform_specified_actions}
use quark_ts_cpp.Fsm.Activities.{
  prepare_handler, activities, surround, set_status, invoke_state_activities, state_on_exit,
  state_on_entry,
}
use quark_ts_cpp.Fsm.Transit.{enter_all}

-- `m'` has the parents of `m`, and the same current, source and next state.
pub record SameTree (m m' : StateMachine) : Type 0 where
  pub parents : (x : ℕ) → (m'.states x).parent ≡ (m.states x).parent
  pub current_at : m'.current ≡ m.current
  pub source_at : m'.source ≡ m.source
  pub next_at : m'.next ≡ m.next
  pub top_at : m'.top ≡ m.top
  pub inits : (x : ℕ) → (m'.states x).init_state ≡ (m.states x).init_state
  pub tables : (x : ℕ) → (m'.states x).t_table ≡ (m.states x).t_table

-- And the children last in use.
pub record Kept (m m' : StateMachine) : Type 0 where
  pub tree : SameTree m m'
  pub children : (x : ℕ) → (m'.states x).last_running_child ≡ (m.states x).last_running_child

-- User code has no access to these members.
pub record Calm (u : User) : Type 0 where
  pub by_state : (f : ℕ) (m : StateMachine) → Kept m (u.state_callback f m).0
  pub by_surrounding : (f : ℕ) (m : StateMachine) → Kept m (u.surrounding_callback f m)
  pub by_guard : (f : ℕ) (m : StateMachine) → Kept m (u.signal_action f m).0

pub SameTree-trans : {a b c : StateMachine} → SameTree a b → SameTree b c → SameTree a c
SameTree-trans s t = record {
  parents = λ x. t.parents x ∙ s.parents x;
  current_at = t.current_at ∙ s.current_at;
  source_at = t.source_at ∙ s.source_at;
  next_at = t.next_at ∙ s.next_at;
  top_at = t.top_at ∙ s.top_at;
  inits = λ x. t.inits x ∙ s.inits x;
  tables = λ x. t.tables x ∙ s.tables x;
}

pub Kept-trans : {a b c : StateMachine} → Kept a b → Kept b c → Kept a c
Kept-trans s t = record {
  tree = SameTree-trans s.tree t.tree;
  children = λ x. t.children x ∙ s.children x;
}

-- What is written is neither the states nor the places of the run.
pub Kept-same :
    (m m' : StateMachine)
    → m'.states ≡ m.states
    → m'.current ≡ m.current
    → m'.source ≡ m.source
    → m'.next ≡ m.next
    → m'.top ≡ m.top
    → Kept m m'
Kept-same m m' e c s n t = record {
  tree = record {
    parents = λ x. ap (λ f. (f x).parent) e;
    current_at = c;
    source_at = s;
    next_at = n;
    top_at = t;
    inits = λ x. ap (λ f. (f x).init_state) e;
    tables = λ x. ap (λ f. (f x).t_table) e;
  };
  children = λ x. ap (λ f. (f x).last_running_child) e;
}

pub Kept-refl : (m : StateMachine) → Kept m m
Kept-refl m = Kept-same m m refl refl refl refl refl

pub SameTree-put_state :
    (m : StateMachine) (s : ℕ) (st : State)
    → st.parent ≡ (m.states s).parent
    → st.init_state ≡ (m.states s).init_state
    → st.t_table ≡ (m.states s).t_table
    → SameTree m (put_state m s st)
unfolding put_state
SameTree-put_state m s st e f g = record {
  parents = λ x. ground (arith, e);
  current_at = refl;
  source_at = refl;
  next_at = refl;
  top_at = refl;
  inits = λ x. ground (arith, f);
  tables = λ x. ground (arith, g);
}

pub Kept-put_state :
    (m : StateMachine) (s p : ℕ) → Kept m (put_state m s (record (m.states s) { p_handler = p }))
unfolding put_state
Kept-put_state m s p = record {
  tree = SameTree-put_state m s _ refl refl refl;
  children = λ x. ground arith;
}

pub Kept-prepare_handler : (m : StateMachine) (x : Signal) (s : ℕ) → Kept m (prepare_handler m x s)
unfolding prepare_handler
Kept-prepare_handler m x s = Kept-same _ _ refl refl refl refl refl

pub Kept-set_status : (m : StateMachine) (st : ℕ) → Kept m (set_status m st)
unfolding set_status
Kept-set_status m st = Kept-same _ _ refl refl refl refl refl

Kept-perform_with :
    (u : User) (m : StateMachine) (sig : ℕ) (o : Option TimeoutSpec)
    (d : Option (List TimeoutDefinition))
    → Kept m (perform_with u m sig o d)
unfolding perform_with
Kept-perform_with u m sig none d = Kept-refl m
Kept-perform_with u m sig (some ts) none = Kept-refl m
Kept-perform_with u m sig (some ts) (some tbl) = Kept-same _ _ refl refl refl refl refl

pub Kept-actions :
    (u : User) (m : StateMachine) (s sig : ℕ) → Kept m (timeout_perform_specified_actions u m s sig)
unfolding timeout_perform_specified_actions
Kept-actions u m s sig = Kept-perform_with u m sig m.time_spec (m.states s).t_def

module _ {u : User} (calm : Calm u) where
  Kept-surround : (m : StateMachine) (st : ℕ) → Kept m (surround u m st)
  unfolding surround
  Kept-surround m st = elim (Bool-cases (m.surrounding == 0)) [
    | inl e ↦ rw e (Kept-refl m)
    | inr e ↦
        rw e
          (Kept-trans (Kept-set_status m st) (calm.by_surrounding m.surrounding (set_status m st)))
  ]

  Kept-activities : (m : StateMachine) (s : ℕ) → Kept m (activities u m s).0
  unfolding activities
  Kept-activities m s = elim (Bool-cases ((m.states s).s_callback == 0)) [
    | inl e ↦ rw e (Kept-refl m)
    | inr e ↦ rw e (calm.by_state (m.states s).s_callback m)
  ]

  pub Kept-invoke_state_activities :
      (m : StateMachine) (s : ℕ) → Kept m (invoke_state_activities u m s)
  unfolding invoke_state_activities
  Kept-invoke_state_activities m s = Kept-trans (Kept-put_state m s m.this) (
      Kept-trans (Kept-surround _ before_any) (
        Kept-trans (Kept-set_status _ absent) (
          Kept-trans (Kept-activities _ s) (Kept-trans (Kept-set_status _ _) (Kept-surround _ _)))))

  pub Kept-state_on_entry : (m : StateMachine) (s : ℕ) → Kept m (state_on_entry u m s)
  unfolding state_on_entry
  Kept-state_on_entry m s =
      Kept-trans (Kept-prepare_handler m _ s)
        (Kept-trans (Kept-invoke_state_activities _ s) (Kept-actions u _ s signal_entry))

  pub Kept-enter_all : (m : StateMachine) (xs : List ℕ) → Kept m (enter_all u m xs)
  unfolding enter_all
  Kept-enter_all m [] = Kept-refl m
  Kept-enter_all m (x ∷ xs) =
      Kept-trans (Kept-state_on_entry m x) (Kept-enter_all (state_on_entry u m x) xs)

  -- A state that has a parent is left to it.
  pub state_on_exit-Kept :
      (m : StateMachine) (s : ℕ)
      → s ≢ 0
      → (m.states s).parent ≢ 0
      → (m' : StateMachine) × (state_on_exit u m s ≡ some (m', (m.states s).parent)) × SameTree m m'
  unfolding state_on_exit
  state_on_exit-Kept m s h k = (
    put_state m2 p (record (m2.states p) { last_running_child = s }),
    ground (arith, kept.tree.parents s),
    SameTree-trans kept.tree
        (SameTree-put_state m2 p (record (m2.states p) { last_running_child = s }) refl refl refl),
  )
    where
      m2 : StateMachine
      m2 =
          timeout_perform_specified_actions u
            (invoke_state_activities u
              (prepare_handler m (record { id = signal_exit; payload = 0 }) s) s)
            s signal_exit

      p : ℕ
      p = (m2.states s).parent

      kept : Kept m m2
      kept =
          Kept-trans (Kept-prepare_handler m _ s)
            (Kept-trans (Kept-invoke_state_activities _ s) (Kept-actions u _ s signal_exit))
