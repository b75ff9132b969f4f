-- ===== src/Kernel/Dispatch.antt =====
-- What a round of `dispatch` does to the lists.
use quark_ts_cpp.Prelude.Returns.{Returns, Returns-bind, Returns-map}
use quark_ts_cpp.Prelude.{
  ℕ, zero, suc, ◌≤◌, ◌<◌, ◌≡◌, ◌⊎◌, inl, inr, refl, ap, ◌∙◌, false, List, [], ◌∷◌, ◌++◌, ◌==◌,
  if◌then◌else◌, arith, All-split, Bool-cases,
}
use quark_ts_cpp.DList.Links.{Distinct}
use quark_ts_cpp.Task.{Trigger}
use quark_ts_cpp.Kernel.{Core, put_task}
use quark_ts_cpp.Kernel.Lists.{member, insert_back, without_front}
use quark_ts_cpp.Kernel.Running.{
  fill_trigger, fill_event_info, activities, follow_yields, finish, dispatch_task,
}

-- `c1` has the lists of `c`.
pub record SameLists (c c1 : Core) : Type 0 where
  pub same_waiting : c1.waiting ≡ c.waiting
  pub same_suspended : c1.suspended ≡ c.suspended
  pub same_ready : c1.ready ≡ c.ready

-- User code leaves the lists alone, and a task yields only to one of lower rank, below the rounds given.
pub record Calm (call : ℕ → Core → Core) (rank : ℕ → ℕ) (rounds : ℕ) : Type 0 where
  pub leaves_waiting : (f : ℕ) (c : Core) → (call f c).waiting ≡ c.waiting
  pub leaves_suspended : (f : ℕ) (c : Core) → (call f c).suspended ≡ c.suspended
  pub leaves_ready : (f : ℕ) (c : Core) → (call f c).ready ≡ c.ready
  pub yields_down :
      (f : ℕ) (c : Core)
      → c.yield_task ≡ 0
      → ((call f c).yield_task ≡ 0) ⊎ (rank (call f c).yield_task < rank c.event.current_task)
  pub bounded : (x : ℕ) → rank x ≤ rounds

same_trans : {a b c : Core} → SameLists a b → SameLists b c → SameLists a c
same_trans s t = record {
  same_waiting = t.same_waiting ∙ s.same_waiting;
  same_suspended = t.same_suspended ∙ s.same_suspended;
  same_ready = t.same_ready ∙ s.same_ready;
}

fill_trigger-SameLists : (trg : Trigger) (c : Core) (x : ℕ) → SameLists c (fill_trigger trg c x)
unfolding fill_trigger put_task
fill_trigger-SameLists trg c x = record {
  same_waiting = ground arith;
  same_suspended = ground arith;
  same_ready = ground arith;
}

fill_event_info-SameLists : (c : Core) (x : ℕ) → SameLists c (fill_event_info c x)
unfolding fill_event_info
fill_event_info-SameLists c x =
    let s = fill_trigger-SameLists (c.tasks x).trigger c x in
    record {
      same_waiting = s.same_waiting;
      same_suspended = s.same_suspended;
      same_ready = s.same_ready;
    }

-- The state `c1` after the task `x` from the front of the list `p` of `c` has run.
pub record Finished (c : Core) (p x : ℕ) (c1 : Core) : Type 0 where
  pub waiting_at : c1.waiting ≡ (insert_back c.waiting x).0
  pub suspended_at : c1.suspended ≡ c.suspended
  pub ready_at : c1.ready ≡ (λ r. if r == p then without_front (c.ready p) else c.ready r)

finish-Finished : (c : Core) (p x : ℕ) → Finished c p x (finish c p x)
unfolding finish put_task
finish-Finished c p x = record { waiting_at = refl; suspended_at = refl; ready_at = refl }

Finished-by : {c d e : Core} {p x : ℕ} → SameLists c d → Finished d p x e → Finished c p x e
Finished-by {p} {x} s f = record {
  waiting_at = f.waiting_at ∙ ap (λ w. (insert_back w x).0) s.same_waiting;
  suspended_at = f.suspended_at ∙ s.same_suspended;
  ready_at = f.ready_at ∙ ap (λ g r. if r == p then without_front (g p) else g r) s.same_ready;
}

pub not_member : (w : List ℕ) (x : ℕ) (xs : List ℕ) → Distinct (w ++ x ∷ xs) → member w x ≡ false
not_member [] x xs d = refl
not_member (y ∷ w) x xs d =
    let (a, b) = All-split _ w (x ∷ xs) d.0 in ground (arith, b.0, not_member w x xs d.1)

module _ {call : ℕ → Core → Core} {rank : ℕ → ℕ} {rounds : ℕ} (calm : Calm call rank rounds) where
  pub activities-SameLists : (c : Core) (x : ℕ) → SameLists c (activities call c x)
  unfolding activities
  activities-SameLists c x = record {
    same_waiting = ground (arith, calm.leaves_waiting (c.tasks x).callback c);
    same_suspended = ground (arith, calm.leaves_suspended (c.tasks x).callback c);
    same_ready = ground (arith, calm.leaves_ready (c.tasks x).callback c);
  }

  -- No task, or one of rank below `n`, was yielded to.
  abbrev pub YieldsBelow : ℕ → Core → Type 0
  YieldsBelow n c = (c.yield_task ≡ 0) ⊎ (rank c.yield_task < n)

  pub activities-YieldsBelow :
      (c : Core) (x : ℕ)
      → c.yield_task ≡ 0
      → c.event.current_task ≡ x
      → YieldsBelow (rank x) (activities call c x)
  unfolding activities
  activities-YieldsBelow c x y e =
      ground (arith, calm.yields_down (c.tasks x).callback c y, ap rank e)

  follow_yields-SameLists :
      (n : ℕ) (c : Core) → YieldsBelow n c → Returns (SameLists c) (follow_yields call n c)
  unfolding follow_yields
  follow_yields-SameLists zero c y = ground (arith, y)
  follow_yields-SameLists (suc n) c y = elim (Bool-cases (c.yield_task == 0)) [
    | inl e ↦ rw e (record { same_waiting = refl; same_suspended = refl; same_ready = refl })
    | inr e ↦
        (let x = c.yield_task in
          let c1 = record c { event = record c.event { current_task = x }; yield_task = 0 } in
          let s = activities-SameLists c1 x in
          rw e (
            Returns-map _ _ (follow_yields call n (activities call c1 x))
              (λ c2 t.
                same_trans
                  (record {
                    same_waiting = s.same_waiting;
                    same_suspended = s.same_suspended;
                    same_ready = s.same_ready;
                  })
                  t)
              (follow_yields-SameLists n (activities call c1 x) (
                weaken (rank x) (activities call c1 x) (below e)
                  (activities-YieldsBelow c1 x refl refl)))))
  ]
    where
      below : (c.yield_task == 0) ≡ false → rank c.yield_task ≤ n
      below e = ground (arith, e, y)

      weaken : (m : ℕ) (d : Core) → m ≤ n → YieldsBelow m d → YieldsBelow n d
      weaken m d l y = ground (arith, l, y)

  pub dispatch_task-Finished :
      (c : Core) (p x : ℕ) → Returns (Finished c p x) (dispatch_task call rounds c p x)
  unfolding dispatch_task
  dispatch_task-Finished c p x =
      Returns-bind (SameLists c) (Finished c p x) (follow_yields call rounds c2) _
        (Returns-map (SameLists c2) (SameLists c) (follow_yields call rounds c2)
          (λ d t. same_trans here t)
          (follow_yields-SameLists rounds c2
            (all_rounds (activities-YieldsBelow c1 x refl current))))
        (λ d s. Finished-by s (finish-Finished d p x))
    where
      c1 : Core
      c1 = record (fill_event_info c x) { yield_task = 0 }

      c2 : Core
      c2 = activities call c1 x

      current : c1.event.current_task ≡ x
      current = unfold fill_event_info in refl

      here : SameLists c c2
      here = same_trans (fill_event_info-SameLists c x) (again (activities-SameLists c1 x))
        where
          again : SameLists c1 c2 → SameLists (fill_event_info c x) c2
          again s = record {
            same_waiting = s.same_waiting;
            same_suspended = s.same_suspended;
            same_ready = s.same_ready;
          }

      all_rounds : YieldsBelow (rank x) c2 → YieldsBelow rounds c2
      all_rounds y = ground (arith, calm.bounded x, y)
