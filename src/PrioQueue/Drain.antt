-- ===== src/PrioQueue/Drain.antt =====
-- Taking notifications until the stack is empty gives them sorted by priority, and each once.
use mathlib.Core.List.{Perm, perm_middle}
use mathlib.Core.List.Perm
use quark_ts_cpp.Prelude.{
  ℕ, zero, suc, ◌≤◌, ◌≡◌, sym, ap, subst, List, [], ◌∷◌, ◌++◌, arith, length, All, All-append,
  All-split, All-map, length-append,
}
use quark_ts_cpp.PrioQueue.{Entry, PrioQueue, get}
use quark_ts_cpp.PrioQueue.Stack.{Holds, level}
use quark_ts_cpp.PrioQueue.Order.{Got, get-Got}

module _ (priority : ℕ → ℕ) where
  -- `n` calls of `get`, with the notification that each gave.
  pub drain : PrioQueue → ℕ → List Entry
  drain q zero = []
  drain q (suc n) =
      let (q', task) = get priority q in record { p_task = task; q_data = q'.q_data } ∷ drain q' n

  -- Each has at least the priority of those behind it.
  abbrev pub Descends : List Entry → Type 0
  Descends [] = Unit
  Descends (e ∷ es) = All (λ y. level priority y ≤ level priority e) es × Descends es

  -- What the first of the calls gave, as an entry.
  first_eq :
      {q : PrioQueue} {live : List Entry} (g : Got priority q live (get priority q))
      → record { p_task = (get priority q).1; q_data = (get priority q).0.q_data } ≡ g.chosen
  first_eq g = ground (arith, g.task_out, g.data_out)

  shorter :
      {live : List Entry} (n : ℕ) (before after : List Entry) (x : Entry)
      → suc n ≡ length live
      → live ≡ before ++ x ∷ after
      → n ≡ length (before ++ after)
  shorter {live} n before after x e s =
      omega (arith, ap length s, length-append before (x ∷ after), length-append before after)

  -- What holds of each notification holds of each that is given.
  drain-All {ℓ} :
      (P : Entry → Type ℓ) {q : PrioQueue} (n : ℕ) (live : List Entry)
      → Holds q live
      → n ≡ length live
      → All P live
      → All P (drain q n)
  unfolding drain
  drain-All P zero live h e a = tt
  drain-All P (suc n) [] h e a = absurd (omega arith)
  drain-All P {q} (suc n) (x ∷ live) h e a =
      let g = get-Got priority h in
      let (l, r) = All-split P g.before (g.chosen ∷ g.after) (subst (All P) g.split a) in
      (
        subst P (sym (first_eq g)) r.0,
        drain-All P {q = (get priority q).0} n (g.before ++ g.after) g.left
            (shorter n g.before g.after g.chosen e g.split) (All-append P g.before g.after l r.1),
      )

  -- On a stack behind whose notifications there are, up to the first empty place, only copies of the last
  -- of them, as the constructor, any `insert`s and after these any calls of `get` leave it: as many calls
  -- of `get` as there are notifications give each of them once, by falling priority.
  pub drain_sorts :
      {q : PrioQueue} (n : ℕ) (live : List Entry)
      → Holds q live
      → n ≡ length live
      → Perm (drain q n) live × Descends (drain q n)
  unfolding drain
  drain_sorts zero [] h e = (Perm.nil, tt)
  drain_sorts zero (x ∷ live) h e = absurd (omega arith)
  drain_sorts (suc n) [] h e = absurd (omega arith)
  drain_sorts {q} (suc n) (x ∷ live) h e =
      let g = get-Got priority h in
      let (p, d) =
        drain_sorts {q = (get priority q).0} n (g.before ++ g.after) g.left
          (shorter n g.before g.after g.chosen e g.split) in
      let below =
        All-append _ g.before g.after (All-map _ _ g.before (λ y b. omega arith) g.above_before)
          g.above_after in
      (
        Perm.trans (Perm.cons' (first_eq g) p) (
            subst (λ t. Perm (g.chosen ∷ (g.before ++ g.after)) t) (sym g.split)
              (Perm.symm (perm_middle g.before g.after))),
        (
          subst (λ z. All (λ y. level priority y ≤ level priority z) (drain (get priority q).0 n))
              (sym (first_eq g))
              (drain-All _ {q = (get priority q).0} n (g.before ++ g.after) g.left
                (shorter n g.before g.after g.chosen e g.split) below),
          d,
        ),
      )
