-- ===== src/Timer.antt =====
-- src/timer.cpp: software timers over the tick counter. `now` is what `clock::getTick()` returns
-- during the call; times are `unsigned long` values, below 2^32.
pub mod Deadline
use quark_ts_cpp.Prelude.{ℕ, Bool, true, false, not, ◌==◌, ltb, leb, if◌then◌else◌}
use quark_ts_cpp.Prelude.Word.{sub_word}

pub record Timer : Type 0 where
  pub t_start : ℕ
  pub tv : ℕ

abbrev pub disarm_value : ℕ
disarm_value = 0

abbrev pub remaining_in_disarmed_state : ℕ
remaining_in_disarmed_state = 0xFFFFFFFF

unfoldable pub reload : Timer → ℕ → Timer
reload t now = record t { t_start = now }

unfoldable pub disarm : Timer → Timer
disarm t = record { t_start = disarm_value; tv = disarm_value }

unfoldable pub set : Timer → ℕ → ℕ → Timer × Bool
unfolding reload
set t time now = if ltb 0 time then (record (reload t now) { tv = time }, true) else (t, false)

-- `operator=( duration_t )`
unfoldable pub assign_time : Timer → ℕ → ℕ → Timer
unfolding set disarm
assign_time t time now = if ltb 0 time then (set t time now).0 else disarm t

-- `operator=( bool )` and `operator()( bool )`
unfoldable pub assign_enable : Timer → Bool → ℕ → Timer
unfolding reload disarm
assign_enable t en now = if en then reload t now else disarm t

unfoldable pub status : Timer → Bool
status t = not (t.tv == 0)

unfoldable pub dead_line_check : Timer → ℕ → Bool
dead_line_check t now = leb t.tv (sub_word now t.t_start)

unfoldable pub expired : Timer → ℕ → Bool
unfolding status dead_line_check
expired t now = if status t then dead_line_check t now else false

unfoldable pub elapsed : Timer → ℕ → ℕ
unfolding status
elapsed t now = if status t then sub_word now t.t_start else 0

unfoldable pub remaining : Timer → ℕ → ℕ
unfolding elapsed
remaining t now = if status t then sub_word t.tv (elapsed t now) else remaining_in_disarmed_state

unfoldable pub get_interval : Timer → ℕ
get_interval t = t.tv

-- `reloadIfExpired( duration_t )`
unfoldable pub reload_if_expired_or_set : Timer → ℕ → ℕ → Timer × Bool
unfolding status expired reload set
reload_if_expired_or_set t time now =
    if status t
    then (if expired t now then (reload t now, true) else (t, false))
    else ((set t time now).0, false)

-- `reloadIfExpired()`
unfoldable pub reload_if_expired : Timer → ℕ → Timer × Bool
unfolding status expired reload
reload_if_expired t now =
    if status t then (if expired t now then (reload t now, true) else (t, false)) else (t, false)
