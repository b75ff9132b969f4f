-- ===== src/Kernel/Schedule.antt =====
-- src/kernel.cpp: the check of the waiting tasks, `checkIfReady`.
use quark_ts_cpp.Prelude.{
  ℕ, Bool, true, false, not, ◌||◌, List, [], ◌∷◌, ◌==◌, ltb, if◌then◌else◌, bit_and,
}
use quark_ts_cpp.Prelude.Word.{sub_word}
use quark_ts_cpp.Timer
use quark_ts_cpp.PrioQueue
use quark_ts_cpp.Queue.{Queue}
use quark_ts_cpp.Task.{
  Task, Trigger, no_trigger, by_time_elapsed, by_notification_queued, by_notification_simple,
  by_queue_receiver, by_event_flags, bit_shutdown, bit_remove_request, event_flags_mask, set_flags,
  get_flag, dead_line_reached, queue_check_events,
}
use quark_ts_cpp.Kernel.{Core, notify_none, put_task}
use quark_ts_cpp.Kernel.Lists.{insert_back, without_front}
use quark_ts_cpp.Kernel.Notify.{notify, is_notify_none}

abbrev pub size_max : ℕ
size_max = 0xFFFFFFFF

abbrev pub bit_fcall_idle : ℕ
bit_fcall_idle = 0x2

abbrev pub bit_fcall_released : ℕ
bit_fcall_released = 0x8

abbrev pub is_none : Trigger → Bool
is_none no_trigger = true
is_none _ = false

abbrev pub is_queued : Trigger → Bool
is_queued by_notification_queued = true
is_queued _ = false

abbrev pub is_receiver : Trigger → Bool
is_receiver by_queue_receiver = true
is_receiver _ = false

-- The trigger that `checkIfReady` gives a task that is awake, and whether the task is ready.
unfoldable pub judge : Task → (ℕ → Queue) → ℕ → Task × Bool
unfolding get_flag dead_line_reached queue_check_events Timer.reload
judge t queues now =
    let trg = queue_check_events t queues in
    if get_flag t bit_shutdown
    then (if is_queued t.trigger
        then (t, true)
        else if dead_line_reached t now
        then (record t { time = Timer.reload t.time now; trigger = by_time_elapsed }, true)
        else if not (is_none trg)
        then (record t { trigger = trg }, true)
        else if ltb 0 t.notifications
        then (record t { trigger = by_notification_simple }, true)
        else if not (bit_and event_flags_mask t.flags == 0)
        then (record t { trigger = by_event_flags }, true)
        else (record t { trigger = no_trigger }, false))
    else (t, false)

unfoldable pub put_ready : Core → ℕ → ℕ → Core
unfolding insert_back
put_ready c p x = record c {
  ready = λ r. if r == p then (insert_back (c.ready p) x).0 else c.ready r;
}

-- The task leaves the scheduler.
unfoldable pub leave : Core → ℕ → Core
unfolding put_task set_flags PrioQueue.clean_up
leave c x =
    let t = record (set_flags (c.tasks x) bit_remove_request false) { entry = size_max } in
    record (put_task c x t) {
      priority_queue = PrioQueue.clean_up c.priority_queue x;
      task_entries = sub_word c.task_entries 1;
    }

-- The list of its priority, or the suspended list.
unfoldable pub place : Core → ℕ → Core
unfolding put_ready insert_back
place c x =
    let t = c.tasks x in
    if is_none t.trigger
    then record c { suspended = (insert_back c.suspended x).0 }
    else put_ready c t.priority x

-- The round of the loop of `checkIfReady` for a task.
unfoldable pub settle : Core → ℕ → Core × Bool
unfolding judge put_task leave place get_flag
settle c x =
    let (t, ready) = judge (c.tasks x) c.queues c.now in
    let c1 = record (put_task c x t) { waiting = without_front c.waiting } in
    (if get_flag t bit_remove_request then leave c1 x else place c1 x, ready)

unfoldable pub check_tasks : Core → List ℕ → Core × Bool
unfolding settle notify
check_tasks c [] = (c, false)
check_tasks c (x ∷ xs) =
    let (c1, ready) = settle c x in
    let (c2, others) = check_tasks c1 xs in
    if is_notify_none c.spreader_mode
    then (c2, ready || others)
    else ((notify c c.spreader_mode x c.spreader_data).0, false)

-- What is done with the task that the stack of notifications gives.
unfoldable pub wake : Core → ℕ → Core
unfolding put_task set_flags
wake c x =
    let t = set_flags (record (c.tasks x) { trigger = by_notification_queued }) bit_shutdown true in
    if x == 0 then c else put_task c x t

unfoldable pub take_notification : Core → Core
unfolding wake PrioQueue.get
take_notification c =
    let (q, x) = PrioQueue.get (λ y. (c.tasks y).priority) c.priority_queue in
    wake (record c { priority_queue = q }) x

unfoldable pub check_if_ready : Core → Core × Bool
unfolding check_tasks take_notification
check_if_ready c =
    let c1 = take_notification c in
    let (c2, ready) = check_tasks c1 c1.waiting in
    (record c2 { spreader_mode = notify_none; spreader_data = 0 }, ready)
