-- ===== src/Tests/Stacks.antt =====
-- A stack of three places, with tasks whose address is their priority.
use mathlib.Core.List.{Perm}
use quark_ts_cpp.Prelude.{◌≡◌, refl, false, List, [], ◌∷◌, arith}
use quark_ts_cpp.PrioQueue.{
  Entry, null_entry, PrioQueue, init, clear_tasks, get, insert, has_elements,
}
use quark_ts_cpp.PrioQueue.Order.{Fresh, Fresh-Holds, entry, init-Fresh, insert-Fresh}
use quark_ts_cpp.PrioQueue.Drain.{drain, Descends, drain_sorts}
use quark_ts_cpp.PrioQueue.Stale.{stale_get, reused}

abbrev area : List Entry
area = null_entry ∷ null_entry ∷ null_entry ∷ []

abbrev q0 : PrioQueue
q0 = init area

abbrev q1 : PrioQueue
q1 = (insert q0 2 20).0

abbrev q2 : PrioQueue
q2 = (insert q1 3 30).0

q2-Fresh : Fresh q2 (entry 2 20 ∷ entry 3 30 ∷ [])
unfolding init clear_tasks insert
q2-Fresh =
    (insert-Fresh 3 30
      (insert-Fresh 2 20 (init-Fresh area) (λ e. absurd (omega arith)) (omega arith)).1
      (λ e. absurd (omega arith)) (omega arith)).1

drain_sorts_example :
    Perm (drain (λ p. p) q2 2) (entry 2 20 ∷ entry 3 30 ∷ [])
    × Descends (λ p. p) (drain (λ p. p) q2 2)
drain_sorts_example =
    drain_sorts (λ p. p) 2 (entry 2 20 ∷ entry 3 30 ∷ []) (Fresh-Holds q2-Fresh) refl

stale_get_example :
    let (q, task) = get (λ p. p) (reused (λ p. p) null_entry null_entry [] 3 30 2 20 1 10) in
    (task ≡ 2) × (q.q_data ≡ 20) × (has_elements q ≡ false)
stale_get_example =
    stale_get (λ p. p) null_entry null_entry [] 3 30 2 20 1 10 (λ e. absurd (omega arith))
      (omega arith) (omega arith)
