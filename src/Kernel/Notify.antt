-- ===== src/Kernel/Notify.antt =====
-- src/kernel.cpp: setting the scheduler up, adding and removing tasks, notifications, event flags.
use quark_ts_cpp.Prelude.{ℕ, ◌+◌, Bool, true, false, not, ◌&&◌, ◌==◌, ltb, if◌then◌else◌, bit_and}
use quark_ts_cpp.Prelude.Word.{add_word}
use quark_ts_cpp.Prelude.Int.{ℤ}
use quark_ts_cpp.Prelude.Bits.{multiple_set, multiple_clear, clip_upper}
use quark_ts_cpp.Timer
use quark_ts_cpp.PrioQueue
use quark_ts_cpp.Task.{
  Task, TaskState, set_callback, set_data, set_priority, set_iterations, set_flags, set_state,
  bit_remove_request, event_flags_mask,
}
use quark_ts_cpp.Kernel.{Core, NotifyMode, simple, queued, notify_none, put_task}
use quark_ts_cpp.Kernel.Lists.{insert_back}

abbrev pub max_priority_value : ℕ
max_priority_value = 2

abbrev pub bit_release_sched : ℕ
bit_release_sched = 0x4

-- `UINT32_MAX - 1`
abbrev pub max_notification_value : ℕ
max_notification_value = 0xFFFFFFFE

-- The task as `add` sets it up, but for its entry.
abbrev pub prepared : Task → ℕ → ℕ → ℕ → ℤ → TaskState → ℕ → ℕ → Task
prepared t callback p time n s arg now =
    let t1 = (set_callback t callback).0 in
    let t2 = record t1 { time = (Timer.set t1.time time now).0 } in
    let t3 = (set_data t2 arg).0 in
    let t4 = (set_priority t3 (clip_upper p max_priority_value)).0 in
    let t5 = set_flags (set_iterations t4 n) 0x42 true in (set_state t5 s now).0

unfoldable pub add : Core → ℕ → ℕ → ℕ → ℕ → ℤ → TaskState → ℕ → Core × Bool
unfolding put_task insert_back
add c x callback p time n s arg =
    let entries = add_word c.task_entries 1 in
    let t = record (prepared (c.tasks x) callback p time n s arg c.now) { entry = entries } in
    let (waiting, done) = insert_back c.waiting x in
    (record (put_task c x t) { task_entries = entries; waiting = waiting }, done)

-- `remove` leaves the work to the next check of the task.
unfoldable pub remove : Core → ℕ → Core × Bool
unfolding put_task
remove c x = (put_task c x (set_flags (c.tasks x) bit_remove_request true), true)

unfoldable pub scheduler_release : Core → Core × Bool
unfolding multiple_set
scheduler_release c = (record c { flag = multiple_set c.flag bit_release_sched }, true)

unfoldable pub set_core_idle_fcn : Core → ℕ → Core × Bool
set_core_idle_fcn c f = if f == c.cpu_idle then (c, false) else (record c { cpu_idle = f }, true)

unfoldable pub set_scheduler_release_callback : Core → ℕ → Core × Bool
set_scheduler_release_callback c f =
    if f == c.release_sched_callback
    then (c, false)
    else (record c { release_sched_callback = f }, true)

notify_by : NotifyMode → Core → ℕ → ℕ → Core × Bool
unfolding put_task PrioQueue.insert
notify_by simple c x event_data =
    let t = c.tasks x in
    if ltb t.notifications max_notification_value
    then (
      put_task c x (record t { notifications = t.notifications + 1; async_data = event_data }),
      true,
    )
    else (c, false)
notify_by queued c x event_data =
    let (q, done) = PrioQueue.insert c.priority_queue x event_data in
    (record c { priority_queue = q }, done)
notify_by notify_none c x event_data = (c, false)

-- `notify( mode, Task, eventData )`
unfoldable pub notify : Core → NotifyMode → ℕ → ℕ → Core × Bool
unfolding notify_by
notify c mode x event_data = if x == c.idle then (c, false) else notify_by mode c x event_data

abbrev pub is_notify_none : NotifyMode → Bool
is_notify_none notify_none = true
is_notify_none _ = false

-- `notify( mode, eventData )`, to all tasks
unfoldable pub notify_all : Core → NotifyMode → ℕ → Core × Bool
notify_all c mode event_data =
    if is_notify_none c.spreader_mode && not (is_notify_none mode)
    then (record c { spreader_mode = mode; spreader_data = event_data }, true)
    else (c, false)

unfoldable pub has_pending_notifications : Core → ℕ → Bool
unfolding PrioQueue.is_task_inside
has_pending_notifications c x =
    if ltb 0 (c.tasks x).notifications then true else PrioQueue.is_task_inside c.priority_queue x

unfoldable pub event_flags_modify : Core → ℕ → ℕ → Bool → Core × Bool
unfolding put_task set_flags
event_flags_modify c x t_flags action =
    (put_task c x (set_flags (c.tasks x) (bit_and t_flags event_flags_mask) action), true)

unfoldable pub event_flags_read : Core → ℕ → ℕ
event_flags_read c x = bit_and (c.tasks x).flags event_flags_mask

unfoldable pub event_flags_check : Core → ℕ → ℕ → Bool → Bool → Core × Bool
unfolding put_task multiple_clear
event_flags_check c x flags_to_check clear_on_exit check_for_all =
    let t = c.tasks x in
    let events = bit_and t.flags event_flags_mask in
    let asked = bit_and flags_to_check event_flags_mask in
    let found =
      if check_for_all then bit_and events asked == asked else not (bit_and events asked == 0) in
    (
      (if found && clear_on_exit
          then put_task c x (record t { flags = multiple_clear t.flags asked })
          else c),
      found,
    )

unfoldable pub yield_to_task : Core → ℕ → Core × Bool
yield_to_task c x =
    if not (c.event.current_task == 0) && not (x == c.event.current_task)
    then (record c { yield_task = x }, true)
    else (c, false)
