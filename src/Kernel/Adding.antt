-- ===== src/Kernel/Adding.antt =====
-- What `add` and `remove` do to the tasks that wait.
use quark_ts_cpp.Prelude.{
  ℕ, ◌≡◌, ◌≢◌, refl, ap, ◌∙◌, Bool, true, false, not, List, [], ◌∷◌, ◌++◌, arith, All-append, min,
}
use quark_ts_cpp.Prelude.Int.{ℤ}
use quark_ts_cpp.Prelude.Word.{add_word}
use quark_ts_cpp.Prelude.Bits.{clip_upper}
use quark_ts_cpp.DList.Links.{◌∉◌}
use quark_ts_cpp.DList.Insert.{Distinct-snoc}
use quark_ts_cpp.Task.{
  Task, TaskState, disabled_state, enabled_state, asleep_state, awake_state, set_priority,
  set_iterations, set_flags, set_state, bit_remove_request, get_flag,
}
use quark_ts_cpp.Task.Flags.{set_flags_lem}
use quark_ts_cpp.Kernel.{Core, put_task}
use quark_ts_cpp.Kernel.Lists.{member}
use quark_ts_cpp.Kernel.Notify.{add, remove, prepared}
use quark_ts_cpp.Kernel.Placing.{insert_back_eq}
use quark_ts_cpp.Kernel.Cycle.{Steady, stays}

not_in : (xs : List ℕ) (x : ℕ) → x ∉ xs → member xs x ≡ false
not_in [] x o = refl
not_in (y ∷ ys) x o = ground (arith, o.0, not_in ys x o.1)

set_state_priority :
    (t : Task) (s : TaskState) (now : ℕ) → (set_state t s now).0.priority ≡ t.priority
unfolding set_state set_flags
set_state_priority t disabled_state now = ground arith
set_state_priority t enabled_state now = ground arith
set_state_priority t asleep_state now = refl
set_state_priority t awake_state now = refl

flags_priority : (t : Task) (m : ℕ) (v : Bool) → (set_flags t m v).priority ≡ t.priority
unfolding set_flags
flags_priority t m v = refl

iterations_priority : (t : Task) (n : ℤ) → (set_iterations t n).priority ≡ t.priority
unfolding set_iterations
iterations_priority t n = ground arith

clipped : (t : Task) (p : ℕ) → (set_priority t (clip_upper p 2)).0.priority ≡ min p 2
unfolding set_priority clip_upper
clipped t p = ground arith

prepared_priority :
    (t : Task) (callback p time : ℕ) (n : ℤ) (s : TaskState) (arg now : ℕ)
    → (prepared t callback p time n s arg now).priority ≡ min p 2
prepared_priority t callback p time n s arg now =
    set_state_priority _ s now ∙ flags_priority _ 0x42 true ∙ iterations_priority _ n ∙ clipped _ p

own : (c : Core) (x : ℕ) (t : Task) → (put_task c x t).tasks x ≡ t
unfolding put_task
own c x t = ground arith

-- `add` puts a task that is in no list behind the waiting ones, with its priority cut down to the highest
-- there is; every task still waits, in one place.
pub add-Steady :
    (c : Core) (x callback p time : ℕ) (n : ℤ) (s : TaskState) (arg : ℕ)
    → Steady c
    → x ≢ 0
    → x ∉ c.waiting
    → let (c1, done) = add c x callback p time n s arg in
      (done ≡ true)
      × (c1.waiting ≡ c.waiting ++ x ∷ [])
      × Steady c1
      × ((c1.tasks x).priority ≡ min p 2)
unfolding add
add-Steady c x callback p time n s arg st r o = (
  ground (arith, r, not_in c.waiting x o),
  insert_back_eq c.waiting x r (not_in c.waiting x o),
  record {
    distinct =
        rw (insert_back_eq c.waiting x r (not_in c.waiting x o))
          (Distinct-snoc c.waiting x st.distinct o);
    real =
        rw (insert_back_eq c.waiting x r (not_in c.waiting x o))
          (All-append (λ y. y ≢ 0) c.waiting (x ∷ []) st.real (r, tt));
    none_suspended = st.none_suspended;
    none_ready = st.none_ready;
  },
  ap (λ t. t.priority)
        (own c x (record (prepared (c.tasks x) callback p time n s arg c.now) {
          entry = add_word c.task_entries 1;
        }))
      ∙ prepared_priority (c.tasks x) callback p time n s arg c.now,
)

-- After `remove` the next check lets the task go, and no other.
pub stays-remove :
    (c : Core) (x y : ℕ)
    → (stays (remove c x).0 x ≡ false) × (y ≢ x → stays (remove c x).0 y ≡ stays c y)
unfolding remove
stays-remove c x y = (
  ap (λ t. not (get_flag t bit_remove_request))
        (own c x (set_flags (c.tasks x) bit_remove_request true))
      ∙ ap not (set_flags_lem (c.tasks x) bit_remove_request 7 true (omega arith) (omega arith)),
  λ ne. unfold put_task in ground (arith, ne),
)
