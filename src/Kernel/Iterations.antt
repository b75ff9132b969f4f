-- ===== src/Kernel/Iterations.antt =====
-- How often a task with a given number of iterations runs by its time.
use quark_ts_cpp.Prelude.{
  ℕ, zero, suc, ◌-◌, ◌≤◌, ◌<◌, ◌≡◌, refl, ap, ap₂, ◌∙◌, Bool, true, false, ◌==◌, if◌then◌else◌,
  arith,
}
use quark_ts_cpp.Prelude.Int.{pos, negsuc}
use quark_ts_cpp.Task.{Task, bit_enabled, set_iterations, get_flag, set_flags}
use quark_ts_cpp.Task.Flags.{set_flags_lem}
use quark_ts_cpp.Kernel.Running.{count_iteration}

-- The task after it ran by its time a number of times.
unfoldable pub ran : ℕ → Task → Task
unfolding count_iteration
ran zero t = t
ran (suc k) t = (count_iteration (ran k t)).0

cleared : (t : Task) → get_flag (set_flags t bit_enabled false) bit_enabled ≡ false
cleared t = set_flags_lem t bit_enabled 1 false (omega arith) (omega arith)

-- The task with `n` iterations left after a run.
abbrev left_with : Task → ℕ → Task
left_with t n =
    let t1 = record t { iterations = pos n } in
    if n == 0 then set_flags t1 bit_enabled false else t1

count_first :
    (t : Task) (n : ℕ)
    → t.iterations ≡ negsuc n
    → n < 0x7FFFFFFF
    → count_iteration t ≡ (left_with t n, true, n == 0)
unfolding count_iteration
count_first t n e h = rw e (ground arith)

count_next :
    (t : Task) (n : ℕ)
    → t.iterations ≡ pos (suc n)
    → count_iteration t ≡ (left_with t n, false, n == 0)
unfolding count_iteration
count_next t n e = rw e (ground arith)

left_with_iterations : (t : Task) (n : ℕ) → (left_with t n).iterations ≡ pos n
unfolding set_flags
left_with_iterations t n = ground arith

left_with_enabled :
    (t : Task) (n : ℕ)
    → get_flag (left_with t n) bit_enabled ≡ (if n == 0 then false else get_flag t bit_enabled)
unfolding get_flag
left_with_enabled t zero = cleared (record t { iterations = pos 0 })
left_with_enabled t (suc n) = ground arith

set_iterations_eq : (t : Task) (n : ℕ) → (set_iterations t (pos (suc n))).iterations ≡ negsuc n
unfolding set_iterations
set_iterations_eq t n = ground arith

set_iterations_flag :
    (t : Task) (n : ℕ)
    → get_flag (set_iterations t (pos (suc n))) bit_enabled ≡ get_flag t bit_enabled
unfolding set_iterations get_flag
set_iterations_flag t n = ground arith

-- What is known of the task before its run number `k`.
module _ (t : Task) (n : ℕ) (h : n < 0x7FFFFFFF) where
  abbrev start : Task
  start = set_iterations t (pos (suc n))

  run_eq :
      (k : ℕ)
      → k ≤ n
      → (count_iteration (ran k start) ≡ (left_with (ran k start) (n - k), k == 0, n - k == 0))
        × (get_flag (ran k start) bit_enabled ≡ get_flag t bit_enabled)
  unfolding ran
  run_eq zero l = (
    count_first start n (set_iterations_eq t n) h
        ∙ ap (λ m. (left_with start m, true, m == 0)) {x = n} {y = n - 0} (omega arith),
    set_iterations_flag t n,
  )
  run_eq (suc k) l =
      let (e, f) = run_eq k (omega arith) in
      let p = ap (λ r. r.0) e in
      (
        count_next (ran (suc k) start) (n - suc k) (
              ap (λ r. r.iterations) p
              ∙ left_with_iterations (ran k start) (n - k)
              ∙ ap pos {x = n - k} {y = suc (n - suc k)} (omega arith))
            ∙ ap (λ b. (left_with (ran (suc k) start) (n - suc k), b, n - suc k == 0))
                (not_first k),
        ap (λ r. get_flag r bit_enabled) p ∙ left_with_enabled (ran k start) (n - k) ∙ more f,
      )
    where
      not_first : (k : ℕ) → false ≡ (suc k == 0)
      not_first k = ground arith

      more :
          {b : Bool}
          → b ≡ get_flag t bit_enabled
          → (if n - k == 0 then false else b) ≡ get_flag t bit_enabled
      more e = ground (arith, e, l)

-- A task given `n + 1` iterations, which fit an `int32_t`, is told the first of its runs by time and the last, which is the
-- run number `n + 1`; that run disables it, and no earlier one does.
pub count_iteration-set_iterations :
    (t : Task) (n k : ℕ)
    → n < 0x7FFFFFFF
    → k ≤ n
    → let (t', first, last) = count_iteration (ran k (set_iterations t (pos (suc n)))) in
      (first ≡ (k == 0))
      × (last ≡ (k == n))
      × (get_flag t' bit_enabled ≡ (if k == n then false else get_flag t bit_enabled))
count_iteration-set_iterations t n k h l =
    let (e, f) = run_eq t n h k l in
    rw e (
      refl,
      ends,
      left_with_enabled (ran k (set_iterations t (pos (suc n)))) (n - k)
          ∙ ap₂ (λ b g. if b then false else g) ends f,
    )
  where
    ends : (n - k == 0) ≡ (k == n)
    ends = ground (arith, l)
