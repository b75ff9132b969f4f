-- ===== src/Kernel/Cycle.antt =====
-- What the check at the start of a cycle of `run` makes of the waiting tasks.
use mathlib.Core.List.{append_assoc}
use quark_ts_cpp.Prelude.{
  ℕ, ◌≤◌, ◌<◌, ◌≡◌, ◌≢◌, inl, inr, refl, sym, ap, ap₂, subst, ◌∙◌, Bool, true, false, not, List, [],
  ◌∷◌, ◌++◌, arith, All, All-map, All-split, Bool-cases,
}
use quark_ts_cpp.Prelude.Shuffles.{Shuffle, All-Shuffle}
use quark_ts_cpp.DList.Links.{Distinct, Distinct-split}
use quark_ts_cpp.Task.{Task, bit_remove_request, get_flag}
use quark_ts_cpp.Kernel.{Core, notify_none}
use quark_ts_cpp.Kernel.Schedule.{is_none, take_notification, check_if_ready}
use quark_ts_cpp.Kernel.Placing.{filter, judged, is_ready, leaves, sleeps, readies, IsFree}
use quark_ts_cpp.Kernel.Checking.{
  Placed, check_if_ready-Placed, filter_same, same_suspended, same_ready,
}
use quark_ts_cpp.Kernel.Parts.{
  sorted_out-Shuffle, filter_none, any_none, judge_flags, judge_priority, judge-Rested,
  take_notification_priority, take_notification_remove, take_notification-Rested,
}
use quark_ts_cpp.Kernel.Sorting.{Distinct-Shuffle}

pub All-filter : (P : ℕ → Type 0) (p : ℕ → Bool) (xs : List ℕ) → All P xs → All P (filter p xs)
unfolding filter
All-filter P p [] a = tt
All-filter P p (x ∷ xs) a = elim (Bool-cases (p x)) [
  | inl e ↦ rw e (a.0, All-filter P p xs a.1)
  | inr e ↦ rw e (All-filter P p xs a.1)
]

pub Distinct-filter : (p : ℕ → Bool) (xs : List ℕ) → Distinct xs → Distinct (filter p xs)
unfolding filter
Distinct-filter p [] d = tt
Distinct-filter p (x ∷ xs) d = elim (Bool-cases (p x)) [
  | inl e ↦ rw e (All-filter _ p xs d.0, Distinct-filter p xs d.1)
  | inr e ↦ rw e (Distinct-filter p xs d.1)
]

-- Between two cycles: every task waits, in one place.
pub record Steady (c : Core) : Type 0 where
  pub distinct : Distinct c.waiting
  pub real : All (λ x. x ≢ 0) c.waiting
  pub none_suspended : c.suspended ≡ []
  pub none_ready : (p : ℕ) → c.ready p ≡ []

-- No task has a trigger yet, and each has one of the priorities.
pub record Settled (c : Core) : Type 0 where
  pub untriggered : All (λ x. is_none (c.tasks x).trigger ≡ true) c.waiting
  pub prioritised : All (λ x. (c.tasks x).priority < 3) c.waiting

abbrev pub stays : Core → ℕ → Bool
stays c x = not (get_flag (c.tasks x) bit_remove_request)

-- The check of a steady state.
module _ (c : Core) (st : Steady c) (m : c.spreader_mode ≡ notify_none) (rest : Settled c) where
  abbrev pub c0 : Core
  c0 = take_notification c

  abbrev pub c1 : Core
  c1 = (check_if_ready c).0

  abbrev pub level : ℕ → List ℕ
  level p = filter (readies c0 p) c.waiting

  abbrev pub asleep : List ℕ
  asleep = filter (sleeps c0) c.waiting

  pub placed : Placed c0 c.waiting (check_if_ready c)
  placed = check_if_ready-Placed c m st.distinct (
      All-map (λ x. x ≢ 0) (IsFree c) c.waiting
        (λ x r. (r, rw st.none_suspended refl, λ p. rw (st.none_ready p) refl)) st.real)

  pub sleeping_at : c1.suspended ≡ asleep
  sleeping_at = placed.sleeping ∙ ap (λ t. t ++ asleep) (same_suspended c ∙ st.none_suspended)

  pub ready_at : (p : ℕ) → c1.ready p ≡ level p
  ready_at p =
      placed.by_priority p ∙ ap (λ t. t ++ level p) (ap (λ g. g p) (same_ready c) ∙ st.none_ready p)

  low_judged : All (λ x. (judged c0 x).0.priority < 3) c.waiting
  low_judged =
      All-map (λ x. (c.tasks x).priority < 3) (λ x. (judged c0 x).0.priority < 3) c.waiting
        (λ x l. rw (judge_priority (c0.tasks x) c0.queues c0.now, take_notification_priority c x) l)
        rest.prioritised

  leaves_eq : (x : ℕ) → not (leaves c0 x) ≡ stays c x
  leaves_eq x = ap not (
      flag_of (judged c0 x).0 (c0.tasks x) (judge_flags (c0.tasks x) c0.queues c0.now)
      ∙ take_notification_remove c x)
    where
      flag_of :
          (t u : Task)
          → t.flags ≡ u.flags
          → get_flag t bit_remove_request ≡ get_flag u bit_remove_request
      flag_of t u e = unfold get_flag in rw e refl

  abbrev pub all_parts : List ℕ
  all_parts = level 2 ++ (level 1 ++ (level 0 ++ asleep))

  pub parts : Shuffle (filter (stays c) c.waiting) all_parts
  parts =
      subst (λ xs. Shuffle xs all_parts)
        (filter_same (λ x. not (leaves c0 x)) (stays c) c.waiting (each c.waiting))
        (sorted_out-Shuffle (leaves c0) (λ x. is_none (judged c0 x).0.trigger)
          (λ x. (judged c0 x).0.priority) c.waiting low_judged)
    where
      each : (xs : List ℕ) → All (λ x. not (leaves c0 x) ≡ stays c x) xs
      each [] = tt
      each (x ∷ xs) = (leaves_eq x, each xs)

  parts_Distinct : Distinct all_parts
  parts_Distinct = Distinct-Shuffle parts (Distinct-filter (stays c) c.waiting st.distinct)

  parts_real : All (λ x. x ≢ 0) all_parts
  parts_real = All-Shuffle (λ x. x ≢ 0) parts (All-filter _ (stays c) c.waiting st.real)

  abbrev pub due : List ℕ
  due = level 2 ++ (level 1 ++ level 0)

  pub due-asleep : due ++ asleep ≡ all_parts
  due-asleep =
      append_assoc (level 2) (level 1 ++ level 0) asleep
      ∙ ap (λ t. level 2 ++ t) (append_assoc (level 1) (level 0) asleep)

  pub due-Distinct : Distinct due
  due-Distinct = (Distinct-split due asleep (rw due-asleep parts_Distinct)).0

  pub due_real : All (λ x. x ≢ 0) due
  due_real = (All-split _ due asleep (rw due-asleep parts_real)).0

  pub due_at : c1.ready 2 ++ (c1.ready 1 ++ c1.ready 0) ≡ due
  due_at = ap₂ ◌++◌ (ready_at 2) (ap₂ ◌++◌ (ready_at 1) (ready_at 0))

  pub no_level : (p : ℕ) → 3 ≤ p → level p ≡ []
  no_level p l = filter_none (readies c0 p) c.waiting (
      All-map (λ x. (judged c0 x).0.priority < 3) (λ x. readies c0 p x ≡ false) c.waiting
        (λ x h. other x h) low_judged)
    where
      other : (x : ℕ) → (judged c0 x).0.priority < 3 → readies c0 p x ≡ false
      other x h = ground (arith, h, l)

  -- With no task ready, none is in a ready list.
  no_due : (p : ℕ) → (check_if_ready c).1 ≡ false → level p ≡ []
  no_due p e = filter_none (readies c0 p) c.waiting (
      quiet c.waiting rest.untriggered
        (any_none (is_ready c0) c.waiting (sym placed.any_ready ∙ e)))
    where
      quiet :
          (xs : List ℕ)
          → All (λ x. is_none (c.tasks x).trigger ≡ true) xs
          → All (λ x. is_ready c0 x ≡ false) xs
          → All (λ x. readies c0 p x ≡ false) xs
      quiet [] a b = tt
      quiet (x ∷ xs) a b = (
        ground (
          arith,
          judge-Rested (c0.tasks x) c0.queues c0.now (take_notification-Rested c x a.0) b.0,
        ),
        quiet xs a.1 b.1,
      )

  -- After the ready tasks have run.
  pub record Ran (c2 : Core) : Type 0 where
    pub waiting_at : c2.waiting ≡ due
    pub suspended_at : c2.suspended ≡ asleep
    pub ready_none : (p : ℕ) → c2.ready p ≡ []

  pub idle-Ran : (check_if_ready c).1 ≡ false → Ran c1
  idle-Ran e = record {
    waiting_at =
        placed.none_waits ∙ sym (ap₂ ◌++◌ (no_due 2 e) (ap₂ ◌++◌ (no_due 1 e) (no_due 0 e)));
    suspended_at = sleeping_at;
    ready_none = λ p. ready_at p ∙ no_due p e;
  }
