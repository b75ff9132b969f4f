-- ===== src/Tests/Machines.antt =====
-- A machine of four states: 1 is the top, 2 and 4 are its children, 3 is the child of 2.
use quark_ts_cpp.Prelude.{
  ℕ, zero, suc, ◌+◌, ◌≤◌, ◌<◌, ◌≡◌, ◌≢◌, refl, inl, inr, Bool, true, none, some, List, [], ◌∷◌,
  ◌==◌, if◌then◌else◌, ◌>>=◌, arith, All, subst, sym, ◌∙◌, ◌&&◌, Bool-cases,
}
use quark_ts_cpp.Fsm.{Signal, State, StateMachine, User, Transition, no_history, signal_none}
use quark_ts_cpp.Fsm.Running.{run}
use quark_ts_cpp.Fsm.Exits.{Kept-refl, Kept-same, Calm}
use quark_ts_cpp.Fsm.Entries.{Moved, transition-Moved}
use quark_ts_cpp.Fsm.Tree.{Nest, Below, IsTree, IsGoal}
use quark_ts_cpp.Fsm.Asks.{Sane}
use quark_ts_cpp.Fsm.Settling.{Rests}
use quark_ts_cpp.Fsm.Returns.{IsReady, run-Rests}

-- On the signal 7 the state 3 goes to 4.
abbrev pub jump : Transition
jump = record { x_signal = 7; guard = 0; next_state = 4; history = no_history; signal_data = 0 }

abbrev bare : ℕ → ℕ → State
bare parent init = record {
  parent = parent;
  last_running_child = init;
  init_state = init;
  s_callback = 9;
  t_def = none;
  t_table = none;
  s_data = 0;
  p_handler = 0;
}

abbrev states : ℕ → State
states s =
    if s == 1
    then bare 0 2
    else (if s == 2
        then bare 1 3
        else (if s == 3
            then record (bare 2 0) { t_table = some (jump ∷ []) }
            else (if s == 4 then bare 1 0 else bare 0 0)))

abbrev pub nothing : Signal
nothing = record { id = signal_none; payload = 0 }

abbrev pub machine : ℕ → StateMachine
machine current = record {
  states = states;
  current = current;
  next = 0;
  source = current;
  s_queue = none;
  time_spec = none;
  surrounding = 0;
  top = 1;
  signal_not = nothing;
  m_data = 0;
  this = 100;
  handler = record {
    start_state = 0;
    next_state = 0;
    machine = 100;
    state = 0;
    transition_history = no_history;
    status = 0;
    signal = 0;
    signal_data = 0;
    user_data = 0;
    state_data = 0;
  };
}

-- User code that handles nothing.
abbrev pub user : User
user = record {
  state_callback = λ f m. (m, 3);
  surrounding_callback = λ f m. m;
  signal_action = λ f m. (m, true);
  now = 0;
  rounds = 10;
}

user-Calm : Calm user
user-Calm = record {
  by_state = λ f m. Kept-refl m;
  by_surrounding = λ f m. Kept-refl m;
  by_guard = λ f m. Kept-refl m;
}

abbrev nest : Nest
nest = record {
  In = λ s. (0 < s) × (s ≤ 4);
  depth = λ s. if s == 3 then 2 else (if s == 1 then 0 else 1);
}

-- User code that asks, when the state 2 runs, to start in its child 3.
abbrev asks_three : StateMachine → Bool
asks_three m = (m.handler.state == 2) && ((m.states 3).parent == 2)

abbrev asker : User
asker = record user {
  state_callback = λ f m.
      if asks_three m
      then (record m { handler = record m.handler { start_state = 3 } }, 3)
      else (m, 3);
}

asker-Calm : Calm asker
asker-Calm = record {
  by_state = λ f m. elim (Bool-cases (asks_three m)) [
    | inl e ↦ rw e (Kept-same m _ refl refl refl refl refl)
    | inr e ↦ rw e (Kept-refl m)
  ];
  by_surrounding = λ f m. Kept-refl m;
  by_guard = λ f m. Kept-refl m;
}

three_below : (m : StateMachine) → (m.states 3).parent ≡ 2 → Below nest m 3 2
three_below m e = record {
  inside = (omega arith, omega arith);
  deeper = omega arith;
  path = 3 ∷ [];
  up = (refl, omega arith, e);
}

asker-Sane : Sane nest asker
asker-Sane = record {
  calm = asker-Calm;
  by_state = λ f s m w. elim (Bool-cases (asks_three m)) [
    | inl e ↦
        (let here : m.handler.state ≡ 2 = ground (arith, e) in
          let up : (m.states 3).parent ≡ 2 = ground (arith, e) in
          rw e (record {
            starts = inr (subst (Below nest _ 3) (sym here ∙ w.asks.runs) (three_below _ up));
            goes = w.asks.goes;
            runs = w.asks.runs;
          }))
    | inr e ↦ rw e w.asks
  ];
  by_surrounding = λ f s m w. w.asks;
  by_guard = λ f s m w. w.asks;
}

for_four : (P : ℕ → Type 0) → P 1 → P 2 → P 3 → P 4 → (s : ℕ) → (0 < s) × (s ≤ 4) → P s
for_four P a b c d zero h = absurd (omega (arith, h.0))
for_four P a b c d (suc zero) h = a
for_four P a b c d (suc (suc zero)) h = b
for_four P a b c d (suc (suc (suc zero))) h = c
for_four P a b c d (suc (suc (suc (suc zero)))) h = d
for_four P a b c d (suc (suc (suc (suc (suc s))))) h = absurd (omega (arith, h.1))

below_top : Below nest (machine 0) 2 1
below_top = record {
  inside = (omega arith, omega arith);
  deeper = omega arith;
  path = 2 ∷ [];
  up = (refl, omega arith, refl);
}

below_two : Below nest (machine 0) 3 2
below_two = record {
  inside = (omega arith, omega arith);
  deeper = omega arith;
  path = 3 ∷ [];
  up = (refl, omega arith, refl);
}

abbrev RowsGo : ℕ → Type 0
RowsGo s =
    (rows : List Transition)
    → (states s).t_table ≡ some rows
    → All (λ (row : Transition). IsGoal nest 1 row.next_state) rows

no_rows : (s : ℕ) → (states s).t_table ≡ none → RowsGo s
no_rows s e rows f = absurd (ground (arith, e, f))

jump_goes : RowsGo 3
jump_goes rows f =
    subst (All (λ (row : Transition). IsGoal nest 1 row.next_state)) same
      (inr ((omega arith, omega arith), omega arith), tt)
  where
    same : (jump ∷ []) ≡ rows
    same = ground (arith, f)

machine-IsTree : IsTree nest (machine 0)
machine-IsTree = record {
  root = (omega arith, omega arith);
  root_parent = refl;
  root_depth = refl;
  real = λ s h. omega (arith, h.0);
  inner =
      for_four (λ s. s ≢ 1 → (0 < (states s).parent) × ((states s).parent ≤ 4))
        (λ h. absurd (h refl)) (λ h. (omega arith, omega arith)) (λ h. (omega arith, omega arith))
        (λ h. (omega arith, omega arith));
  level =
      for_four (λ s. s ≢ 1 → nest.depth s ≡ nest.depth (states s).parent + 1) (λ h. absurd (h refl))
        (λ h. refl) (λ h. refl) (λ h. refl);
  shallow =
      for_four (λ s. nest.depth s < 5) (omega arith) (omega arith) (omega arith) (omega arith);
  initial =
      for_four (λ s. (states s).init_state ≢ 0 → Below nest (machine 0) (states s).init_state s)
        (λ h. below_top) (λ h. below_two) (λ h. absurd (h refl)) (λ h. absurd (h refl));
  running =
      for_four
        (λ s.
          (states s).last_running_child ≢ 0
          → Below nest (machine 0) (states s).last_running_child s)
        (λ h. below_top) (λ h. below_two) (λ h. absurd (h refl)) (λ h. absurd (h refl));
  goals = λ s rows h e.
      for_four RowsGo (no_rows 1 refl) (no_rows 2 refl) jump_goes (no_rows 4 refl) s h rows e;
}

machine-IsReady : IsReady nest (machine 0)
machine-IsReady = record { tree = machine-IsTree; here = inl refl; idle = refl }

jump_signal : Signal
jump_signal = record { id = 7; payload = 0 }

run-Rests_example :
    (r : StateMachine × Bool) × (run asker (machine 0) jump_signal ≡ some r) × Rests nest r.0
run-Rests_example = run-Rests asker-Sane (omega arith) (machine 0) jump_signal machine-IsReady

transition-Moved_example : Moved user (machine 3) 4 no_history [] (3 ∷ 2 ∷ []) (4 ∷ []) 1
transition-Moved_example =
    transition-Moved user-Calm (machine 3) 4 no_history [] (3 ∷ 2 ∷ []) (4 ∷ []) (1 ∷ []) 1
      (omega arith)
      (record {
        inner = refl;
        inner_off = tt;
        outer = (refl, omega arith, (refl, omega arith, refl));
        real = omega arith;
        down = (refl, omega arith, refl);
        down_off = (omega arith, tt);
        inner_short = omega arith;
        down_short = omega arith;
      })
      (refl, omega arith, refl) (refl, (refl, tt)) (omega arith) (omega arith) (omega arith)

-- The run enters 1, 2 and 3, and goes from 3 to 4.
run_moves : (run asker (machine 0) jump_signal >>= λ r. some r.0.current) ≡ some 4
unfolding run jump_signal
run_moves = refl
