-- ===== src/Tests/Timers.antt =====
-- A timer that runs across the wrap of the tick counter.
use quark_ts_cpp.Prelude.{ℕ, ◌≤◌, ◌≡◌, ◌↔◌, true, arith}
use quark_ts_cpp.Prelude.Word.{add_word}
use quark_ts_cpp.Timer.{Timer, set, expired}
use quark_ts_cpp.Timer.Deadline.{expired-set}

abbrev t0 : Timer
t0 = record { t_start = 0; tv = 0 }

abbrev late : ℕ
late = 0xFFFFFFF0

expired-set_example : (expired (set t0 100 late).0 (add_word late 100) ≡ true) ↔ (100 ≤ 100)
expired-set_example = expired-set t0 100 late 100 (omega arith) (omega arith) (omega arith)
