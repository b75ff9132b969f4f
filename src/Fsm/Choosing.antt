-- ===== src/Fsm/Choosing.antt =====
-- Which row of a transition table is taken.
use quark_ts_cpp.Prelude.{
  ℕ, ◌≡◌, refl, sym, ap, subst, ◌∙◌, inl, inr, Bool, true, false, not, ◌&&◌, List, [], ◌∷◌, ◌++◌,
  ◌==◌, leb, if◌then◌else◌, All, All-map, ◌||◌, Bool-cases,
}
use quark_ts_cpp.Fsm.{StateMachine, User, Transition, tm_min, tm_max}
use quark_ts_cpp.Fsm.Activities.{
  ignore_data, row_matches, guard_allows, consider, choose, sweep_transition_table,
}

-- The guards only look.
abbrev pub OnlyLooks : User → Type 0
OnlyLooks u = (f : ℕ) (m : StateMachine) → (u.signal_action f m).0 ≡ m

abbrev chosen_by : User → StateMachine → Transition → Bool
chosen_by u m row = row_matches m row && ((guard_allows u m row).1 && not (row.next_state == 0))

abbrev clear : StateMachine → StateMachine
clear m = record m { handler = record m.handler { signal_data = 0 } }

abbrev pub timed : StateMachine → Bool
timed m = leb tm_min m.handler.signal && leb m.handler.signal tm_max

-- The data of the machine's signal, none for a timeout signal.
abbrev pub data_of : StateMachine → ℕ
data_of m = if timed m then 0 else m.handler.signal_data

-- The machine as the guards see it.
abbrev pub seen : StateMachine → StateMachine
seen m = record m { handler = record m.handler { signal_data = data_of m } }

-- The row is for the signal of the machine and its data, it has no guard or one that allows it, and it
-- has a target.
abbrev pub applies : User → StateMachine → Transition → Bool
applies u m row =
    (m.handler.signal == row.x_signal)
    && (data_of m == row.signal_data)
    && ((row.guard == 0) || (u.signal_action row.guard (seen m)).1)
    && not (row.next_state == 0)

ignore_data-timed : (m : StateMachine) → timed m ≡ true → ignore_data m ≡ clear m
unfolding ignore_data
ignore_data-timed m e = rw e refl

ignore_data_other : (m : StateMachine) → timed m ≡ false → ignore_data m ≡ m
unfolding ignore_data
ignore_data_other m e = ap (λ b. if b then clear m else m) e

ignore_data_idem : (m : StateMachine) → ignore_data (ignore_data m) ≡ ignore_data m
ignore_data_idem m = elim (Bool-cases (timed m)) [
  | inl e ↦
      ap ignore_data (ignore_data-timed m e)
      ∙ ignore_data-timed (clear m) e
      ∙ sym (ignore_data-timed m e)
  | inr e ↦ ap ignore_data (ignore_data_other m e)
]

guard_allows_lem :
    (u : User) (m : StateMachine) (row : Transition) → OnlyLooks u → (guard_allows u m row).0 ≡ m
unfolding guard_allows
guard_allows_lem u m row o = elim (Bool-cases (row.guard == 0)) [
  | inl e ↦ ap (λ b. (if b then (m, true) else u.signal_action row.guard m).0) e
  | inr e ↦ ap (λ b. (if b then (m, true) else u.signal_action row.guard m).0) e ∙ o row.guard m
]

consider_lem :
    (u : User) (m : StateMachine) (row : Transition)
    → OnlyLooks u
    → consider u m row ≡ (ignore_data m, chosen_by u (ignore_data m) row)
unfolding consider
consider_lem u m row o =
    by_test (row_matches (ignore_data m) row) _ (guard_allows_lem u (ignore_data m) row o)
  where
    by_test :
        (b : Bool) (g : StateMachine × Bool)
        → g.0 ≡ ignore_data m
        → ◌≡◌ {A = StateMachine × Bool}
            (if b then (g.0, g.1 && not (row.next_state == 0)) else (ignore_data m, false))
            (ignore_data m, b && (g.1 && not (row.next_state == 0)))
    by_test true g e = ap {B = StateMachine × Bool} (λ y. (y, g.1 && not (row.next_state == 0))) e
    by_test false g e = refl

module _ (u : User) (o : OnlyLooks u) where
  miss :
      (m : StateMachine) (row : Transition) (rows : List Transition)
      → chosen_by u (ignore_data m) row ≡ false
      → sweep_transition_table u m (row ∷ rows) ≡ sweep_transition_table u (ignore_data m) rows
  unfolding sweep_transition_table
  miss m row rows h =
      ap (λ r. if r.1 then choose r.0 row else sweep_transition_table u r.0 rows)
        (consider_lem u m row o ∙ ap (λ b. (ignore_data m, b)) h)

  hit :
      (m : StateMachine) (row : Transition) (rows : List Transition)
      → chosen_by u (ignore_data m) row ≡ true
      → sweep_transition_table u m (row ∷ rows) ≡ choose (ignore_data m) row
  unfolding sweep_transition_table
  hit m row rows h =
      ap (λ r. if r.1 then choose r.0 row else sweep_transition_table u r.0 rows)
        (consider_lem u m row o ∙ ap (λ b. (ignore_data m, b)) h)

ignore_data-seen : (m : StateMachine) → ignore_data m ≡ seen m
ignore_data-seen m = elim (Bool-cases (timed m)) [
  | inl e ↦ ignore_data-timed m e ∙ ap with_data {x = 0} {y = data_of m} (sym (ap no_data e))
  | inr e ↦
      ignore_data_other m e
      ∙ ap with_data {x = m.handler.signal_data} {y = data_of m} (sym (ap no_data e))
]
  where
    with_data : ℕ → StateMachine
    with_data d = record m { handler = record m.handler { signal_data = d } }

    no_data : Bool → ℕ
    no_data b = if b then 0 else m.handler.signal_data

chosen_by_seen :
    (u : User) (m : StateMachine) (row : Transition)
    → chosen_by u (ignore_data m) row ≡ applies u m row
unfolding row_matches guard_allows
chosen_by_seen u m row =
    ap (λ y. chosen_by u y row) (ignore_data-seen m)
    ∙ by_guard (row.guard == 0) (m.handler.signal == row.x_signal) (data_of m == row.signal_data)
        (u.signal_action row.guard (seen m)) (not (row.next_state == 0))
  where
    by_guard :
        (g a b : Bool) (r : StateMachine × Bool) (t : Bool)
        → ((a && b) && ((if g then (seen m, true) else r).1 && t)) ≡ (a && b && (g || r.1) && t)
    by_guard true true true r t = refl
    by_guard false true true r t = refl
    by_guard g true false r t = refl
    by_guard g false b r t = refl

sweep_chosen :
    (u : User) (m : StateMachine) (before : List Transition) (row : Transition)
    (after : List Transition)
    → OnlyLooks u
    → All (λ q. chosen_by u (ignore_data m) q ≡ false) before
    → chosen_by u (ignore_data m) row ≡ true
    → sweep_transition_table u m (before ++ row ∷ after) ≡ choose (ignore_data m) row
sweep_chosen u m [] row after o h e = hit u o m row after e
sweep_chosen u m (q ∷ before) row after o h e =
    let i = ignore_data_idem m in
    miss u o m q (before ++ row ∷ after) h.0
    ∙ sweep_chosen u (ignore_data m) before row after o
        (subst (λ y. All (λ q. chosen_by u y q ≡ false) before) (sym i) h.1)
        (subst (λ y. chosen_by u y row ≡ true) (sym i) e)
    ∙ ap (λ y. choose y row) i

-- With guards that leave the machine alone, the sweep takes the first row of the table that is for the
-- signal and its data, that has no guard or one that allows it, and that has a target: the target of the
-- row is the next state, with the history of the row. A timeout signal counts as without data.
pub sweep_transition_table_lem :
    (u : User) (m : StateMachine) (before : List Transition) (row : Transition)
    (after : List Transition)
    → OnlyLooks u
    → All (λ q. applies u m q ≡ false) before
    → applies u m row ≡ true
    → sweep_transition_table u m (before ++ row ∷ after) ≡ record m {
      handler = record m.handler {
        signal_data = data_of m;
        next_state = row.next_state;
        transition_history = row.history;
      };
    }
unfolding choose
sweep_transition_table_lem u m before row after o h e =
    sweep_chosen u m before row after o (All-map _ _ before (λ q f. chosen_by_seen u m q ∙ f) h)
      (chosen_by_seen u m row ∙ e)
    ∙ ap (λ y. choose y row) (ignore_data-seen m)

-- With such guards and no such row, no transition is chosen.
pub sweep_transition_table-none :
    (u : User) (m : StateMachine) (rows : List Transition)
    → OnlyLooks u
    → All (λ q. chosen_by u (ignore_data m) q ≡ false) rows
    → m.handler.next_state ≡ 0
    → (sweep_transition_table u m rows).handler.next_state ≡ 0
sweep_transition_table-none u m [] o h e = unfold sweep_transition_table in e
sweep_transition_table-none u m (q ∷ rows) o h e =
    ap (λ (y : StateMachine). y.handler.next_state) (miss u o m q rows h.0)
    ∙ sweep_transition_table-none u (ignore_data m) rows o
        (subst (λ y. All (λ q. chosen_by u y q ≡ false) rows) (sym (ignore_data_idem m)) h.1)
        (kept ∙ e)
  where
    kept : (ignore_data m).handler.next_state ≡ m.handler.next_state
    kept = elim (Bool-cases (timed m)) [
      | inl t ↦ ap (λ (y : StateMachine). y.handler.next_state) (ignore_data-timed m t)
      | inr t ↦ ap (λ (y : StateMachine). y.handler.next_state) (ignore_data_other m t)
    ]
