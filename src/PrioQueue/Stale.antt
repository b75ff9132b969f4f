-- ===== src/PrioQueue/Stale.antt =====
-- `clearIndex` leaves a copy of the last notification behind the others, and `get` looks for it
-- there when a notification was put in before it.
use quark_ts_cpp.Prelude.{ℕ, ◌≤◌, ◌<◌, ◌≡◌, ◌≢◌, refl, ap, ◌∙◌, false, List, [], ◌∷◌, arith}
use quark_ts_cpp.Prelude.Int.{ℤ, pos, negsuc}
use quark_ts_cpp.PrioQueue.{
  Entry, PrioQueue, init, insert, get, has_elements, clear_tasks, scan, extract_at, shift_down,
}
use quark_ts_cpp.PrioQueue.Order.{IsClear, clear_tasks-IsClear, entry, insert_eq, get_eq}

module _ (priority : ℕ → ℕ) where
  scan-IsClear : (es : List Entry) (i m found : ℕ) → IsClear es → scan priority es i m found ≡ found
  unfolding scan
  scan-IsClear [] i m found c = refl
  scan-IsClear (e ∷ es) i m found c = ground (arith, c.0)

  module _ (a b : Entry) (area : List Entry) (x dx y dy d dd : ℕ) where
    abbrev tail : List Entry
    tail = clear_tasks area

    -- Two notifications put in and taken out, then a third one put in.
    abbrev pub reused : PrioQueue
    reused =
        let q = (insert (insert (init (a ∷ b ∷ area)) x dx).0 y dy).0 in
        (insert (get priority (get priority q).0).0 d dd).0

    abbrev state : ℤ → ℕ → List Entry → PrioQueue
    state i out es = record { index = i; q_data = out; stack = es }

    filled :
        (insert (insert (init (a ∷ b ∷ area)) x dx).0 y dy).0
        ≡ state (pos 1) 0 (entry x dx ∷ (entry y dy ∷ tail))
    unfolding init clear_tasks
    filled =
        ap (λ q. (insert q y dy).0)
          (ap (λ r. r.0)
            (insert_eq (init (a ∷ b ∷ area)) [] _ (record a { p_task = 0 }) x dx refl refl))
        ∙ ap (λ r. r.0)
            (insert_eq _ (entry x dx ∷ []) tail (record b { p_task = 0 }) y dy refl refl)

    first :
        y ≢ 0
        → priority y ≤ priority x
        → (get priority (state (pos 1) 0 (entry x dx ∷ (entry y dy ∷ tail)))).0
          ≡ state (pos 0) dx (entry y dy ∷ (entry y dy ∷ tail))
    first hy p =
        ap (λ r. r.0)
          (get_eq priority _ [] (entry x dx) (entry y dy ∷ []) tail refl refl (
            unfold extract_at in
            ground (arith, scan-IsClear tail 2 (priority x) 0 (clear_tasks-IsClear area))))

    second :
        y ≢ 0
        → (get priority (state (pos 0) dx (entry y dy ∷ (entry y dy ∷ tail)))).0
          ≡ state (negsuc 0) dy (entry 0 dy ∷ (entry y dy ∷ tail))
    second hy =
        ap (λ r. r.0)
          (get_eq priority _ [] (entry y dy) [] (entry y dy ∷ tail) refl refl (
            unfold extract_at in
            ground (arith, scan-IsClear tail 2 (priority y) 0 (clear_tasks-IsClear area))))

    picks_stale :
        y ≢ 0 → priority d < priority y → extract_at priority (entry d dd ∷ (entry y dy ∷ tail)) ≡ 1
    unfolding extract_at
    picks_stale hy r = ground (arith, scan-IsClear tail 2 (priority y) 1 (clear_tasks-IsClear area))

    again :
        y ≢ 0
        → priority d < priority y
        → get priority (state (pos 0) dy (entry d dd ∷ (entry y dy ∷ tail)))
          ≡ (state (negsuc 0) dy (entry d dd ∷ (entry 0 dy ∷ tail)), y)
    unfolding get shift_down
    again hy r = rw (picks_stale hy r)

    reused_eq :
        y ≢ 0
        → priority y ≤ priority x
        → reused ≡ state (pos 0) dy (entry d dd ∷ (entry y dy ∷ tail))
    reused_eq hy p =
        ap (λ q. (insert (get priority (get priority q).0).0 d dd).0) filled
        ∙ ap (λ q. (insert (get priority q).0 d dd).0) (first hy p)
        ∙ ap (λ q. (insert q d dd).0) (second hy)
        ∙ ap (λ r. r.0) (insert_eq _ [] (entry y dy ∷ tail) (entry 0 dy) d dd refl refl)

    -- A stack of two places or more gave `x` and then `y`. If a notification for a task `d` of lower
    -- priority than `y` is put in now, `get` gives `y` with its old data once more, and no
    -- notification is left: the one for `d` is lost.
    pub stale_get :
        y ≢ 0
        → priority y ≤ priority x
        → priority d < priority y
        → let (q, task) = get priority reused in
          (task ≡ y) × (q.q_data ≡ dy) × (has_elements q ≡ false)
    unfolding has_elements
    stale_get hy p r = rw (reused_eq hy p, again hy r) (refl, refl, refl)
