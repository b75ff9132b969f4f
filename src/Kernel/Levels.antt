-- ===== src/Kernel/Levels.antt =====
-- Where `dispatch` leaves the ready tasks, and in which order.
use quark_ts_cpp.Prelude.Returns.{Returns, Returns-bind, Returns-map}
use mathlib.Core.List.{append_assoc, append-nil}
use quark_ts_cpp.Prelude.{
  ℕ, zero, suc, ◌≤◌, ◌<◌, ◌≡◌, ◌≢◌, refl, sym, ap, subst, ◌∙◌, List, [], ◌∷◌, ◌++◌, ◌==◌,
  if◌then◌else◌, arith, All, All-split,
}
use quark_ts_cpp.DList.Links.{Distinct, Distinct-split}
use quark_ts_cpp.Kernel.{Core}
use quark_ts_cpp.Kernel.Lists.{without_front}
use quark_ts_cpp.Kernel.Running.{dispatch_task, dispatch, dispatch_level, dispatch_all}
use quark_ts_cpp.Kernel.Placing.{insert_back_eq}
use quark_ts_cpp.Kernel.Dispatch.{Calm, Finished, not_member, dispatch_task-Finished}

-- The tasks `xs` of the list `p` of `c` have gone to the waiting ones, in order.
pub record Spent (c : Core) (p : ℕ) (xs : List ℕ) (c1 : Core) : Type 0 where
  pub waiting_at : c1.waiting ≡ c.waiting ++ xs
  pub suspended_at : c1.suspended ≡ c.suspended
  pub spent : c1.ready p ≡ []
  pub others : (r : ℕ) → r ≢ p → c1.ready r ≡ c.ready r

shift : (w : List ℕ) (x : ℕ) (xs : List ℕ) → w ++ x ∷ xs ≡ (w ++ x ∷ []) ++ xs
shift w x xs = sym (append_assoc w (x ∷ []) xs)

-- After the first task, the others stand in the list, apart from the waiting ones.
module _ {c : Core} {p x : ℕ} {c1 : Core} (f : Finished c p x c1) (xs : List ℕ)
    (e : c.ready p ≡ x ∷ xs) (d : Distinct (c.waiting ++ x ∷ xs)) (r : x ≢ 0) where
  rest_ready : c1.ready p ≡ xs
  rest_ready = ap (λ g. g p) f.ready_at ∙ front
    where
      front : (if p == p then without_front (c.ready p) else c.ready p) ≡ xs
      front = rw e (ground arith)

  waits_behind : c1.waiting ≡ c.waiting ++ x ∷ []
  waits_behind = f.waiting_at ∙ insert_back_eq c.waiting x r (not_member c.waiting x xs d)

  rest_Distinct : Distinct (c1.waiting ++ xs)
  rest_Distinct = rw (waits_behind) (subst Distinct (shift c.waiting x xs) d)

  Spent-after : (c2 : Core) → Spent c1 p xs c2 → Spent c p (x ∷ xs) c2
  Spent-after c2 s = record {
    waiting_at = s.waiting_at ∙ ap (λ w. w ++ xs) waits_behind ∙ sym (shift c.waiting x xs);
    suspended_at = s.suspended_at ∙ f.suspended_at;
    spent = s.spent;
    others = λ q ne. s.others q ne ∙ ap (λ g. g q) f.ready_at ∙ other q ne;
  }
    where
      other :
          (q : ℕ) → q ≢ p → (if q == p then without_front (c.ready p) else c.ready q) ≡ c.ready q
      other q ne = ground (arith, ne)

pub up_to : (w xs ys : List ℕ) → Distinct (w ++ (xs ++ ys)) → Distinct (w ++ xs)
up_to w xs ys d = (Distinct-split (w ++ xs) ys (subst Distinct (sym (append_assoc w xs ys)) d)).0

pub rest_apart :
    (w xs ys w' : List ℕ) → Distinct (w ++ (xs ++ ys)) → w' ≡ w ++ xs → Distinct (w' ++ ys)
rest_apart w xs ys w' d e = rw e (subst Distinct (sym (append_assoc w xs ys)) d)

-- The ready tasks of every priority have gone to the waiting ones.
pub record AllSpent (c c1 : Core) : Type 0 where
  pub waiting_at : c1.waiting ≡ c.waiting ++ (c.ready 2 ++ (c.ready 1 ++ c.ready 0))
  pub suspended_at : c1.suspended ≡ c.suspended
  pub spent : (p : ℕ) → p < 3 → c1.ready p ≡ []
  pub others : (p : ℕ) → 3 ≤ p → c1.ready p ≡ c.ready p

Spent-each :
    {c c1 c2 c3 : Core}
    → Spent c 2 (c.ready 2) c1
    → Spent c1 1 (c.ready 1) c2
    → Spent c2 0 (c.ready 0) c3
    → (p : ℕ) → p < 3
    → c3.ready p ≡ []
Spent-each s1 s2 s3 zero l = s3.spent
Spent-each s1 s2 s3 (suc zero) l = s3.others 1 (λ e. absurd (omega arith)) ∙ s2.spent
Spent-each s1 s2 s3 (suc (suc zero)) l =
    s3.others 2 (λ e. absurd (omega arith)) ∙ s2.others 2 (λ e. absurd (omega arith)) ∙ s1.spent
Spent-each s1 s2 s3 (suc (suc (suc p))) l = absurd (omega arith)

pub all_spent :
    {c c1 c2 c3 : Core}
    → Spent c 2 (c.ready 2) c1
    → Spent c1 1 (c.ready 1) c2
    → Spent c2 0 (c.ready 0) c3
    → AllSpent c c3
all_spent {c} {c1} {c2} {c3} s1 s2 s3 = record {
  waiting_at =
      s3.waiting_at
      ∙ ap (λ w. w ++ c.ready 0) (s2.waiting_at ∙ ap (λ w. w ++ c.ready 1) s1.waiting_at)
      ∙ append_assoc (c.waiting ++ c.ready 2) (c.ready 1) (c.ready 0)
      ∙ append_assoc c.waiting (c.ready 2) (c.ready 1 ++ c.ready 0);
  suspended_at = s3.suspended_at ∙ s2.suspended_at ∙ s1.suspended_at;
  spent = Spent-each s1 s2 s3;
  others = λ p l.
      s3.others p (λ e. absurd (omega arith))
      ∙ s2.others p (λ e. absurd (omega arith))
      ∙ s1.others p (λ e. absurd (omega arith));
}

module _ {call : ℕ → Core → Core} {rank : ℕ → ℕ} {rounds : ℕ} (calm : Calm call rank rounds) where
  dispatch-Spent :
      (c : Core) (p : ℕ) (xs : List ℕ)
      → c.ready p ≡ xs
      → Distinct (c.waiting ++ xs)
      → All (λ x. x ≢ 0) xs
      → Returns (Spent c p xs) (dispatch call rounds c p xs)
  unfolding dispatch
  dispatch-Spent c p [] e d r = record {
    waiting_at = sym (append-nil c.waiting);
    suspended_at = refl;
    spent = e;
    others = λ q ne. refl;
  }
  dispatch-Spent c p (x ∷ xs) e d r =
      Returns-bind (Finished c p x) (Spent c p (x ∷ xs)) (dispatch_task call rounds c p x) _
        (dispatch_task-Finished calm c p x)
        (λ c1 f.
          Returns-map (Spent c1 p xs) (Spent c p (x ∷ xs)) (dispatch call rounds c1 p xs)
            (Spent-after f xs e d r.0)
            (dispatch-Spent c1 p xs (rest_ready f xs e d r.0) (rest_Distinct f xs e d r.0) r.1))

  pub level-Spent :
      (c : Core) (p : ℕ) (xs : List ℕ)
      → c.ready p ≡ xs
      → Distinct (c.waiting ++ xs)
      → All (λ x. x ≢ 0) xs
      → Returns (Spent c p xs) (dispatch_level call rounds c p)
  unfolding dispatch_level
  level-Spent c p xs e d r =
      subst (λ ys. Returns (Spent c p xs) (dispatch call rounds c p ys)) (sym e)
        (dispatch-Spent c p xs e d r)

  -- `dispatch` over the ready lists, from the highest priority down, puts the ready tasks behind the
  -- waiting ones: by falling priority, and in the order of its list where the priority is the same. The
  -- suspended tasks stay. This needs that no task stands in these lists twice, and user code that is
  -- `Calm`.
  pub dispatch_all-AllSpent :
      (c : Core)
      → Distinct (c.waiting ++ (c.ready 2 ++ (c.ready 1 ++ c.ready 0)))
      → All (λ x. x ≢ 0) (c.ready 2 ++ (c.ready 1 ++ c.ready 0))
      → Returns (AllSpent c) (dispatch_all call rounds c)
  unfolding dispatch_all
  dispatch_all-AllSpent c d r =
      let (r2, r10) = All-split _ (c.ready 2) (c.ready 1 ++ c.ready 0) r in
      let (r1, r0) = All-split _ (c.ready 1) (c.ready 0) r10 in
      Returns-bind (Spent c 2 (c.ready 2)) (AllSpent c) (dispatch_level call rounds c 2) _
        (level-Spent c 2 (c.ready 2) refl (up_to c.waiting (c.ready 2) (c.ready 1 ++ c.ready 0) d)
          r2)
        (λ c1 s1.
          let d1 =
            rest_apart c.waiting (c.ready 2) (c.ready 1 ++ c.ready 0) c1.waiting d s1.waiting_at in
          let e1 = s1.others 1 (λ e. absurd (omega arith)) in
          Returns-bind (Spent c1 1 (c.ready 1)) (AllSpent c) (dispatch_level call rounds c1 1) _
            (level-Spent c1 1 (c.ready 1) e1 (up_to c1.waiting (c.ready 1) (c.ready 0) d1) r1)
            (λ c2 s2.
              let d2 = rest_apart c1.waiting (c.ready 1) (c.ready 0) c2.waiting d1 s2.waiting_at in
              let e2 =
                s2.others 0 (λ e. absurd (omega arith)) ∙ s1.others 0 (λ e. absurd (omega arith)) in
              Returns-map (Spent c2 0 (c.ready 0)) (AllSpent c) (dispatch_level call rounds c2 0)
                (λ c3 s3. all_spent s1 s2 s3) (level-Spent c2 0 (c.ready 0) e2 d2 r0)))
