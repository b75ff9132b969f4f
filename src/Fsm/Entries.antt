-- ===== src/Fsm/Entries.antt =====
-- The entries down to the target of a transition, and the whole transition.
use quark_ts_cpp.Prelude.{
  ℕ, zero, suc, ◌≤◌, ◌≡◌, ◌≢◌, refl, sym, ap, subst, inl, inr, true, some, List, [], ◌∷◌, ◌++◌,
  ◌==◌, ◌>>=◌, arith, length, Bool-cases, ◌<◌, All,
}
use quark_ts_cpp.Fsm.{
  State, StateMachine, User, HistoryMode, no_history, shallow_history, deep_history,
}
use quark_ts_cpp.Fsm.Transit.{
  enter_all, levels_to_lca, restore_history, transition, trace_path, trace_path_and_retrace_entry,
  max_nest_depth,
}
use quark_ts_cpp.Fsm.Paths.{Up, Off, on, levels_to_lca_lem, levels_to_lca_self}
use quark_ts_cpp.Fsm.Exits.{SameTree, Calm, Kept-refl, SameTree-put_state, Kept-enter_all}
use quark_ts_cpp.Fsm.Moves.{exit_all, Up-SameTree, exit_up_to_lca_lem}

-- The path, last state first, before what was recorded.
pub reverse_onto : List ℕ → List ℕ → List ℕ
reverse_onto [] trace = trace
reverse_onto (x ∷ xs) trace = reverse_onto xs (x ∷ trace)

-- A path that fits is recorded.
pub trace_path_lem :
    (m : StateMachine) (room s : ℕ) (ts trace : List ℕ)
    → length ts ≤ room
    → All (λ t. t ≢ m.current) ts
    → Up m.states s ts m.current
    → trace_path m room s trace ≡ some (reverse_onto ts trace)
unfolding trace_path reverse_onto
trace_path_lem m zero s [] trace l o p = ground (arith, p)
trace_path_lem m (suc room) s [] trace l o p = ground (arith, p)
trace_path_lem m zero s (t ∷ ts) trace l o p = absurd (omega arith)
trace_path_lem m (suc room) s (t ∷ ts) trace l o p =
    let rest = trace_path_lem m room (m.states s).parent ts (s ∷ trace) (omega arith) o.1 p.2 in
    ground (arith, p.0, p.1, o.0, ap (λ y. some (reverse_onto ts (y ∷ trace))) p.0, rest)

-- The machine with `a` as its state and a transition to `target` noted.
abbrev pub left_for : StateMachine → ℕ → ℕ → HistoryMode → StateMachine
left_for m a target h = record (restore_history (record m { current = a }) target h) {
  next = target;
}

abbrev pub arrived : StateMachine → ℕ → StateMachine
arrived m target = record m { current = target; next = 0 }

-- The members that `restore_history` leaves alone.
pub restore_history-SameTree :
    (m : StateMachine) (target : ℕ) (h : HistoryMode) → SameTree m (restore_history m target h)
unfolding restore_history
restore_history-SameTree m target no_history = SameTree-put_state m target _ refl refl refl
restore_history-SameTree m target shallow_history =
    elim (Bool-cases ((m.states target).last_running_child == 0)) [
      | inl e ↦ rw e (Kept-refl m).tree
      | inr e ↦ rw e (SameTree-put_state m (m.states target).last_running_child _ refl refl refl)
    ]
restore_history-SameTree m target deep_history = (Kept-refl m).tree

module _ {u : User} (calm : Calm u) where
  -- The path from `next` up to the current state fits the array: its states are entered, outermost first.
  pub trace_path_and_retrace_entry_lem :
      (m : StateMachine) (ts : List ℕ)
      → length ts < max_nest_depth
      → All (λ t. t ≢ m.current) ts
      → Up m.states m.next ts m.current
      → trace_path_and_retrace_entry u m
        ≡ some (arrived (enter_all u m (reverse_onto ts [])) m.next)
  unfolding trace_path_and_retrace_entry
  trace_path_and_retrace_entry_lem m ts l o p =
      rw (trace_path_lem m 4 m.next ts [] (omega arith) o p) (
        ap (λ y. some (arrived (enter_all u m (reverse_onto ts [])) y))
          (Kept-enter_all calm m (reverse_onto ts [])).tree.next_at)

pub Up-append :
    (states : ℕ → State) (s : ℕ) (xs : List ℕ) (a : ℕ) (ys : List ℕ) (b : ℕ)
    → Up states s xs a
    → Up states a ys b
    → Up states s (xs ++ ys) b
Up-append states s [] a ys b p q = subst (λ y. Up states y ys b) (sym p) q
Up-append states s (x ∷ xs) a ys b p q = (p.0, p.1, Up-append states _ xs a ys b p.2 q)

-- From the current state up by `cs` to the source, from there by `xs` to `a`, and from the target up
-- to `a` by `ts`.
pub record Route (u : User) (m : StateMachine) (target : ℕ) (cs xs ts : List ℕ) (a : ℕ)
    : Type 0 where
  pub inner : Up m.states m.current cs m.source
  pub inner_off : All (λ c. c ≢ m.source) cs
  pub outer : Up m.states m.source xs a
  pub real : a ≢ 0
  pub down : Up m.states target ts a
  pub down_off : All (λ t. t ≢ a) ts
  pub inner_short : length cs < u.rounds
  pub down_short : length ts < max_nest_depth

-- The machine that has left `cs` and `xs` and then entered `ts`, outermost first.
pub Moved : User → StateMachine → ℕ → HistoryMode → List ℕ → List ℕ → List ℕ → ℕ → Type 0
Moved u m target h cs xs ts a =
    (m1 : StateMachine) × (exit_all u m (cs ++ xs) ≡ some m1)
    × ((transition u m target h >>= trace_path_and_retrace_entry u)
        ≡ some (arrived (enter_all u (left_for m1 a target h) (reverse_onto ts [])) target))

module _ {u : User} (calm : Calm u) where
  by_levels :
      (m : StateMachine) (target : ℕ) (h : HistoryMode) (cs xs ts : List ℕ) (a : ℕ)
      → Route u m target cs xs ts a
      → levels_to_lca u m target ≡ some (length xs)
      → Moved u m target h cs xs ts a
  unfolding Moved transition
  by_levels m target h cs xs ts a r l =
      let (m1, e, k) =
        exit_up_to_lca_lem calm m cs xs a r.real r.inner_short r.inner_off r.inner r.outer in
      (
        m1,
        k.left,
        rw (l, e)
            (trace_path_and_retrace_entry_lem calm (left_for m1 a target h) ts r.down_short
              (off m1 k.same) (down m1 k.same)),
      )
    where
      same :
          (m1 : StateMachine)
          → SameTree
              (record m1 { current = a })
              (restore_history (record m1 { current = a }) target h)
      same m1 = restore_history-SameTree (record m1 { current = a }) target h

      off : (m1 : StateMachine) → SameTree m m1 → All (λ t. t ≢ (left_for m1 a target h).current) ts
      off m1 t = subst (λ y. All (λ t. t ≢ y) ts) (sym (same m1).current_at) r.down_off

      down :
          (m1 : StateMachine)
          → SameTree m m1
          → Up (left_for m1 a target h).states target ts (left_for m1 a target h).current
      down m1 t = subst (Up (left_for m1 a target h).states target ts) (sym (same m1).current_at) (
          Up-SameTree {m = record m1 { current = a }} target ts a (same m1)
            (Up-SameTree {m = m} target ts a t r.down))

  -- `a` is on any path through it.
  common :
      (m : StateMachine) (a : ℕ) (ts zs : List ℕ)
      → a ≢ 0
      → Up m.states a zs 0
      → on (ts ++ zs) a ≡ true
  common m a [] [] h p = absurd (h p)
  common m a [] (x ∷ zs) h p = ground (arith, p.0)
  common m a (t ∷ ts) zs h p = ground (arith, common m a ts zs h p)

  -- Let `a` be the least common ancestor of the source and another state, the target: from the current
  -- state up to the source go `cs`, from there up to `a` go `xs`, which are none of the states `ts` from
  -- the target up to `a` and `zs` from there to the top. A transition to the target with the entries
  -- after it exits `cs` and `xs` in this order, sets the history, and enters `ts` in the reverse
  -- order; the target is then current. The paths fit the bounds, and user code leaves the hierarchy alone.
  pub transition-Moved :
      (m : StateMachine) (target : ℕ) (h : HistoryMode) (cs xs ts zs : List ℕ) (a : ℕ)
      → m.source ≢ target
      → Route u m target cs xs ts a
      → Up m.states a zs 0
      → All (Off (ts ++ zs)) xs
      → length xs < u.rounds
      → length xs < 256
      → length (ts ++ zs) < u.rounds
      → Moved u m target h cs xs ts a
  transition-Moved m target h cs xs ts zs a ne r up off f small long =
      by_levels m target h cs xs ts a r (
        levels_to_lca_lem u m target xs (ts ++ zs) a ne
          (record { path = r.outer; real = r.real; off = off; common = common m a ts zs r.real up })
          (Up-append m.states target ts a zs 0 r.down up) f small long)

  -- A transition of the source to itself exits it last and enters it again.
  pub transition-Moved_self :
      (m : StateMachine) (h : HistoryMode) (cs : List ℕ)
      → m.source ≢ 0
      → (m.states m.source).parent ≢ 0
      → m.source ≢ (m.states m.source).parent
      → length cs < u.rounds
      → All (λ c. c ≢ m.source) cs
      → Up m.states m.current cs m.source
      → Moved u m m.source h cs (m.source ∷ []) (m.source ∷ []) (m.states m.source).parent
  transition-Moved_self m h cs s p ne l o i =
      by_levels m m.source h cs (m.source ∷ []) (m.source ∷ []) (m.states m.source).parent
        (record {
          inner = i;
          inner_off = o;
          outer = (refl, s, refl);
          real = p;
          down = (refl, s, refl);
          down_off = (ne, tt);
          inner_short = l;
          down_short = omega arith;
        })
        (levels_to_lca_self u m m.source refl)
