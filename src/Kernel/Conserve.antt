-- ===== src/Kernel/Conserve.antt =====
-- A cycle of `run` loses no task.
use quark_ts_cpp.Prelude.Returns.{Returns, Returns-bind, Returns-map}
use mathlib.Core.List.{Perm, append-nil}
use quark_ts_cpp.Prelude.{
  ℕ, ◌≡◌, ◌≢◌, inl, inr, refl, sym, ap, ap₂, subst, ◌∙◌, true, not, List, [], ◌∷◌, ◌++◌, arith, All,
  Bool-cases,
}
use native.Mathlib.Decide.{dec_lt}
use quark_ts_cpp.Prelude.Shuffles
use quark_ts_cpp.Prelude.Shuffles.{Shuffle, All-Shuffle, Shuffle-Perm}
use quark_ts_cpp.DList.Links.{Distinct}
use quark_ts_cpp.Prelude.Bits.{multiple_get}
use quark_ts_cpp.Task.{by_no_ready_tasks}
use quark_ts_cpp.Kernel.{Core, notify_none}
use quark_ts_cpp.Kernel.Schedule.{check_if_ready, bit_fcall_idle}
use quark_ts_cpp.Kernel.Running.{
  dispatch_all, dispatch_idle, wake_suspended, idle_work, cycle, is_nil, task_entry_order_preserver,
}
use quark_ts_cpp.Kernel.Placing.{filter}
use quark_ts_cpp.Kernel.Sorting.{Distinct-Shuffle, sort-Shuffle}
use quark_ts_cpp.Kernel.Dispatch.{Calm, SameLists, activities-SameLists}
use quark_ts_cpp.Kernel.Levels.{AllSpent, dispatch_all-AllSpent}
use quark_ts_cpp.Kernel.Cycle.{
  All-filter, Distinct-filter, Steady, Settled, stays, c1, parts, due-asleep, due-Distinct,
  due_real, due_at, sleeping_at, ready_at, no_level, placed, Ran, idle-Ran,
}

-- The suspended tasks join the waiting ones.
record Joined (c d : Core) : Type 0 where
  all_wait : Shuffle (c.waiting ++ c.suspended) d.waiting
  none_suspended : d.suspended ≡ []
  ready_kept : d.ready ≡ c.ready

nil_of : (xs : List ℕ) → is_nil xs ≡ true → xs ≡ []
nil_of [] e = refl
nil_of (x ∷ xs) e = ground (arith, e)

wake_suspended-Joined : (c : Core) → Joined c (wake_suspended c)
unfolding wake_suspended task_entry_order_preserver
wake_suspended-Joined c = elim (Bool-cases (is_nil c.suspended)) [
  | inl e ↦ rw e (record {
    all_wait =
        subst (λ s. Shuffle (c.waiting ++ s) c.waiting) (sym (nil_of c.suspended e))
          (subst (λ w. Shuffle w c.waiting) (sym (append-nil c.waiting)) (Shuffles.same c.waiting));
    none_suspended = nil_of c.suspended e;
    ready_kept = refl;
  })
  | inr e ↦ rw e (record {
    all_wait = sort-Shuffle (λ x. (c.tasks x).entry) (c.waiting ++ c.suspended);
    none_suspended = refl;
    ready_kept = refl;
  })
]

module _ {call : ℕ → Core → Core} {rank : ℕ → ℕ} {rounds : ℕ} (calm : Calm call rank rounds) where
  idle_work-SameLists : (c : Core) → SameLists c (idle_work call c)
  unfolding idle_work dispatch_idle
  idle_work-SameLists c =
      let s = activities-SameLists calm (told c) c.idle in
      finally (record {
        same_waiting = s.same_waiting;
        same_suspended = s.same_suspended;
        same_ready = s.same_ready;
      })
    where
      told : Core → Core
      told c = record c {
        event = record c.event {
          first_call = not (multiple_get c.flag bit_fcall_idle);
          task_data = 0;
          trigger = by_no_ready_tasks;
          current_task = c.idle;
        };
      }

      finally : SameLists c (dispatch_idle call c) → SameLists c (idle_work call c)
      finally s =
          unfold idle_work in
          record {
            same_waiting = ground (
              arith,
              s.same_waiting,
              calm.leaves_waiting (dispatch_idle call c).cpu_idle (dispatch_idle call c),
            );
            same_suspended = ground (
              arith,
              s.same_suspended,
              calm.leaves_suspended (dispatch_idle call c).cpu_idle (dispatch_idle call c),
            );
            same_ready = ground (
              arith,
              s.same_ready,
              calm.leaves_ready (dispatch_idle call c).cpu_idle (dispatch_idle call c),
            );
          }

  module _ (c : Core) (st : Steady c) (m : c.spreader_mode ≡ notify_none) (rest : Settled c) where
    -- The state after a cycle: again every task waits, and it is those that stay.
    record Kept (d : Core) : Type 0 where
      steady : Steady d
      same_tasks : Shuffle (filter (stays c) c.waiting) d.waiting

    dispatched : Returns (Ran c st m rest) (dispatch_all call rounds (c1 c st m rest))
    dispatched =
        Returns-map (AllSpent (c1 c st m rest)) (Ran c st m rest)
          (dispatch_all call rounds (c1 c st m rest))
          (λ c2 s. record {
            waiting_at =
                s.waiting_at ∙ ap₂ ◌++◌ (placed c st m rest).none_waits (due_at c st m rest);
            suspended_at = s.suspended_at ∙ sleeping_at c st m rest;
            ready_none = λ p. elim (dec_lt p 3) [
              | yes l ↦ s.spent p l
              | no l ↦
                  s.others p (omega arith)
                  ∙ ready_at c st m rest p
                  ∙ no_level c st m rest p (omega arith)
            ];
          })
          (dispatch_all-AllSpent calm (c1 c st m rest)
            (subst Distinct (sym (ap₂ ◌++◌ (placed c st m rest).none_waits (due_at c st m rest)))
              (due-Distinct c st m rest))
            (subst (All (λ x. x ≢ 0)) (sym (due_at c st m rest)) (due_real c st m rest)))

    joined-Kept : (c2 : Core) → Ran c st m rest c2 → Kept (wake_suspended c2)
    joined-Kept c2 r =
        let j = wake_suspended-Joined c2 in
        let p =
          Shuffles.trans
            (subst (Shuffle (filter (stays c) c.waiting)) (sym (due-asleep c st m rest))
              (parts c st m rest))
            (subst (λ t. Shuffle t (wake_suspended c2).waiting)
              (ap₂ ◌++◌ r.waiting_at r.suspended_at) j.all_wait) in
        record {
          steady = record {
            distinct = Distinct-Shuffle p (Distinct-filter (stays c) c.waiting st.distinct);
            real = All-Shuffle (λ x. x ≢ 0) p (All-filter _ (stays c) c.waiting st.real);
            none_suspended = j.none_suspended;
            none_ready = λ q. ap (λ g. g q) j.ready_kept ∙ r.ready_none q;
          };
          same_tasks = p;
        }

    idle-Kept : (d e : Core) → SameLists d e → Kept d → Kept e
    idle-Kept d e s k = record {
      steady = record {
        distinct = subst Distinct (sym s.same_waiting) k.steady.distinct;
        real = subst (All (λ x. x ≢ 0)) (sym s.same_waiting) k.steady.real;
        none_suspended = s.same_suspended ∙ k.steady.none_suspended;
        none_ready = λ p. ap (λ g. g p) s.same_ready ∙ k.steady.none_ready p;
      };
      same_tasks = subst (Shuffle (filter (stays c) c.waiting)) (sym s.same_waiting) k.same_tasks;
    }

    cycle-Kept : Returns Kept (cycle call rounds c)
    unfolding cycle
    cycle-Kept = elim (Bool-cases (check_if_ready c).1) [
      | inl e ↦ rw e (
          Returns-bind (Ran c st m rest) Kept (dispatch_all call rounds (c1 c st m rest)) _
            dispatched (λ c2 r. joined-Kept c2 r))
      | inr e ↦ rw e (
          idle-Kept _ _ (idle_work-SameLists (wake_suspended (c1 c st m rest)))
            (joined-Kept (c1 c st m rest) (idle-Ran c st m rest e)))
    ]

    -- A cycle of `run` ends, and after it each task waits again, in one place: those of the waiting list
    -- before, less the ones with a removal request, each once. Before the cycle every task has to wait,
    -- without a trigger and with a priority below 3, no notification may be spread, and user code has
    -- to be `Calm`.
    pub cycle_keeps :
        Returns (λ d. Steady d × Perm (filter (stays c) c.waiting) d.waiting) (cycle call rounds c)
    cycle_keeps =
        Returns-map Kept _ (cycle call rounds c) (λ d k. (k.steady, Shuffle-Perm k.same_tasks))
          cycle-Kept
