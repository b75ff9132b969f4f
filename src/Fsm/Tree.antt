-- ===== src/Fsm/Tree.antt =====
-- A well-formed hierarchy of states.
use quark_ts_cpp.Prelude.{
  ℕ, ◌+◌, ◌<◌, ◌≡◌, ◌≢◌, ◌⊎◌, sym, ap, subst, ◌∙◌, some, List, [], ◌∷◌, arith, length, All,
}
use quark_ts_cpp.Fsm.{StateMachine, Transition}
use quark_ts_cpp.Fsm.Transit.{max_nest_depth}
use quark_ts_cpp.Fsm.Paths.{Up}
use quark_ts_cpp.Fsm.Exits.{SameTree, Kept}
use quark_ts_cpp.Fsm.Moves.{Up-SameTree, Up-head}

-- The states of a machine, and how deep each is nested.
pub record Nest : Type 1 where
  pub In : ℕ → Type 0
  pub depth : ℕ → ℕ

-- `x` is a state below `s`.
pub record Below (n : Nest) (m : StateMachine) (x s : ℕ) : Type 0 where
  pub inside : n.In x
  pub deeper : n.depth s < n.depth x
  pub path : List ℕ
  pub up : Up m.states x path s

-- A state that a transition can go to: not the top.
abbrev pub IsGoal : Nest → ℕ → ℕ → Type 0
IsGoal n top x = (x ≡ 0) ⊎ (n.In x × (x ≢ top))

-- Each state but the top has its parent one level up, all fit the nest depth, the initial and the last
-- running children are below their state, and the rows of the tables go to states of the machine.
pub record IsTree (n : Nest) (m : StateMachine) : Type 0 where
  pub root : n.In m.top
  pub root_parent : (m.states m.top).parent ≡ 0
  pub root_depth : n.depth m.top ≡ 0
  pub real : (s : ℕ) → n.In s → s ≢ 0
  pub inner : (s : ℕ) → n.In s → s ≢ m.top → n.In (m.states s).parent
  pub level : (s : ℕ) → n.In s → s ≢ m.top → n.depth s ≡ n.depth (m.states s).parent + 1
  pub shallow : (s : ℕ) → n.In s → n.depth s < max_nest_depth
  pub initial : (s : ℕ) → n.In s → (m.states s).init_state ≢ 0 → Below n m (m.states s).init_state s
  pub running :
      (s : ℕ)
      → n.In s
      → (m.states s).last_running_child ≢ 0
      → Below n m (m.states s).last_running_child s
  pub goals :
      (s : ℕ) (rows : List Transition)
      → n.In s
      → (m.states s).t_table ≡ some rows
      → All (λ (row : Transition). IsGoal n m.top row.next_state) rows

module _ {n : Nest} where
  pub Below-SameTree :
      {m m' : StateMachine} (x s : ℕ) → SameTree m m' → Below n m x s → Below n m' x s
  Below-SameTree x s t b = record {
    inside = b.inside;
    deeper = b.deeper;
    path = b.path;
    up = Up-SameTree x b.path s t b.up;
  }

  -- Only the last running children may have changed, to states below.
  pub IsTree-SameTree :
      {m m' : StateMachine}
      → SameTree m m'
      → ((s : ℕ)
          → n.In s
          → (m'.states s).last_running_child ≢ 0
          → Below n m (m'.states s).last_running_child s)
      → IsTree n m
      → IsTree n m'
  IsTree-SameTree {m} {m'} t c w = record {
    root = subst n.In (sym t.top_at) w.root;
    root_parent = t.parents m'.top ∙ ap (λ x. (m.states x).parent) t.top_at ∙ w.root_parent;
    root_depth = ap n.depth t.top_at ∙ w.root_depth;
    real = w.real;
    inner = λ s i h. subst n.In (sym (t.parents s)) (w.inner s i (λ e. h (e ∙ sym t.top_at)));
    level = λ s i h.
        w.level s i (λ e. h (e ∙ sym t.top_at)) ∙ ap (λ x. n.depth x + 1) (sym (t.parents s));
    shallow = w.shallow;
    initial = λ s i h.
        subst (λ x. Below n m' x s) (sym (t.inits s))
          (Below-SameTree _ s t (w.initial s i (λ e. h (t.inits s ∙ e))));
    running = λ s i h. Below-SameTree _ s t (c s i h);
    goals = λ s rows i e.
        subst (λ x. All (λ (row : Transition). IsGoal n x row.next_state) rows) (sym t.top_at)
          (w.goals s rows i (sym (t.tables s) ∙ e));
  }

  pub IsTree-Kept : {m m' : StateMachine} → Kept m m' → IsTree n m → IsTree n m'
  IsTree-Kept {m} {m'} k w =
      IsTree-SameTree k.tree
        (λ s i h.
          subst (λ x. Below n m x s) (sym (k.children s))
            (w.running s i (λ e. h (k.children s ∙ e))))
        w

  -- The states of a path are below its end, one level apart.
  pub Up-depth :
      (m : StateMachine) (x : ℕ) (ts : List ℕ) (s : ℕ)
      → IsTree n m
      → s ≢ 0
      → n.In x
      → Up m.states x ts s
      → n.In s × (n.depth x ≡ n.depth s + length ts) × All (λ t. t ≢ s) ts
  Up-depth m x [] s w h i p = (subst n.In p i, ground (arith, ap n.depth p), tt)
  Up-depth m x (t ∷ ts) s w h i p =
      let (j, d, o) = Up-depth m (m.states x).parent ts s w h (w.inner x i ne) p.2 in
      (
        j,
        omega (arith, d, w.level x i ne),
        (λ e. absurd (omega (arith, d, w.level x i ne, ap n.depth p.0, ap n.depth e)), o),
      )
    where
      ne : x ≢ m.top
      ne e =
          Up-head m.states (m.states x).parent ts s h p.2
            (ap (λ y. (m.states y).parent) e ∙ w.root_parent)

  -- The places of the run are no part of the hierarchy.
  pub Below-places :
      (m : StateMachine) (c s t x y : ℕ)
      → Below n m x y
      → Below n (record m { current = c; source = s; next = t }) x y
  Below-places m c s t x y b = record {
    inside = b.inside;
    deeper = b.deeper;
    path = b.path;
    up = b.up;
  }

  pub IsTree-places :
      (m : StateMachine) (c s t : ℕ)
      → IsTree n m
      → IsTree n (record m { current = c; source = s; next = t })
  IsTree-places m c s t w = record {
    root = w.root;
    root_parent = w.root_parent;
    root_depth = w.root_depth;
    real = w.real;
    inner = w.inner;
    level = w.level;
    shallow = w.shallow;
    initial = λ x i h. Below-places m c s t _ x (w.initial x i h);
    running = λ x i h. Below-places m c s t _ x (w.running x i h);
    goals = w.goals;
  }
