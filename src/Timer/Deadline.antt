-- ===== src/Timer/Deadline.antt =====
-- When a timer fires: across the wrap of the tick counter, and period by period.
use quark_ts_cpp.Prelude.{ℕ, ◌+◌, ◌-◌, ◌≤◌, ◌<◌, ◌≡◌, ◌↔◌, true, false, arith}
use quark_ts_cpp.Prelude.Word.{modulus, add_word}
use quark_ts_cpp.Timer.{
  Timer, reload, disarm, set, expired, elapsed, remaining, reload_if_expired, status,
  reload_if_expired_or_set, remaining_in_disarmed_state,
}

-- A timer set at any tick for `time` ticks has expired `k` ticks later exactly when `time ≤ k`,
-- for every `k` below 2^32, also when the tick counter wraps in between.
pub expired-set :
    (t : Timer) (time now k : ℕ)
    → 0 < time
    → now < modulus
    → k < modulus
    → (expired (set t time now).0 (add_word now k) ≡ true) ↔ (time ≤ k)
unfolding expired set
expired-set t time now k p n h = ground arith

-- While it runs, what has elapsed and what remains add up to the interval; an overdue timer's
-- `remaining` has wrapped below 0, and a disarmed one answers the fixed value.
pub remaining_lem :
    (t : Timer) (time now k : ℕ)
    → 0 < time
    → time < modulus
    → now < modulus
    → k < modulus
    → let s = (set t time now).0 in
      (k ≤ time → elapsed s (add_word now k) + remaining s (add_word now k) ≡ time)
      × (time < k → remaining s (add_word now k) ≡ modulus + time - k)
      × (remaining (disarm s) (add_word now k) ≡ remaining_in_disarmed_state)
unfolding remaining set disarm
remaining_lem t time now k p h n l = ground arith

-- Polled with `reloadIfExpired` `k` ticks after its last reload, an armed timer fires exactly when
-- the interval has passed; then the next interval counts from the poll. Otherwise it is unchanged.
pub reload_if_expired_lem :
    (t : Timer) (k : ℕ)
    → 0 < t.tv
    → t.t_start < modulus
    → k < modulus
    → let now = add_word t.t_start k in
      (t.tv ≤ k → reload_if_expired t now ≡ (reload t now, true))
      × (k < t.tv → reload_if_expired t now ≡ (t, false))
unfolding reload_if_expired
reload_if_expired_lem t k p n h = ground arith

-- `reloadIfExpired( time )` on a disarmed timer arms it for `time` ticks without firing, so that it
-- fires `k` ticks later exactly when `time ≤ k`; with `time` 0 it stays disarmed.
pub reload_if_expired_or_set-arms :
    (t : Timer) (time now k : ℕ)
    → t.tv ≡ 0
    → now < modulus
    → k < modulus
    → let (s, fired) = reload_if_expired_or_set t time now in
      (fired ≡ false)
      × (status s ≡ true ↔ 0 < time)
      × ((expired s (add_word now k) ≡ true) ↔ ((0 < time) × (time ≤ k)))
unfolding reload_if_expired_or_set
reload_if_expired_or_set-arms t time now k d n h = ground arith
