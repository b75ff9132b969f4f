-- ===== src/Tests/Tasks.antt =====
-- A task of 100 ticks that is awake and enabled.
use quark_ts_cpp.Prelude.{◌≤◌, ◌≡◌, ◌≢◌, ◌↔◌, refl, true, false, ◌==◌, if◌then◌else◌, arith}
use quark_ts_cpp.Prelude.Word.{add_word}
use quark_ts_cpp.Prelude.Int.{pos}
use quark_ts_cpp.Task.{
  Task, no_trigger, periodic, bit_enabled, get_flag, set_iterations, dead_line_reached,
  QueueLinkMode, queue_empty, queue_full, queue_count, queue_receiver, link_flag,
}
use quark_ts_cpp.Task.Ready.{dead_line_reached_lem}
use quark_ts_cpp.Kernel.Running.{count_iteration}
use quark_ts_cpp.Kernel.Iterations.{ran, count_iteration-set_iterations}

abbrev t0 : Task
t0 = record {
  task_data = 0;
  async_data = 0;
  callback = 50;
  a_obj = 0;
  a_queue = 0;
  a_queue_count = 0;
  time = record { t_start = 0xFFFFFFF0; tv = 100 };
  cycles = 0;
  entry = 1;
  iterations = periodic;
  notifications = 0;
  flags = 0x42;
  priority = 1;
  trigger = no_trigger;
}

dead_line_reached_lem_example :
    (dead_line_reached t0 (add_word t0.time.t_start 120) ≡ true)
    ↔ ((get_flag t0 bit_enabled ≡ true) × (t0.iterations ≢ pos 0) × (t0.time.tv ≤ 120))
dead_line_reached_lem_example = dead_line_reached_lem t0 120 (omega arith) (omega arith)

no_queue_flags : (m : QueueLinkMode) → get_flag t0 (link_flag m) ≡ false
unfolding get_flag
no_queue_flags queue_receiver = refl
no_queue_flags queue_full = refl
no_queue_flags queue_count = refl
no_queue_flags queue_empty = refl

count_iteration-set_iterations_example :
    let (t, first, last) = count_iteration (ran 2 (set_iterations t0 (pos 3))) in
    (first ≡ (2 == 0))
    × (last ≡ (2 == 2))
    × (get_flag t bit_enabled ≡ (if 2 == 2 then false else get_flag t0 bit_enabled))
count_iteration-set_iterations_example =
    count_iteration-set_iterations t0 2 2 (omega arith) (omega arith)
