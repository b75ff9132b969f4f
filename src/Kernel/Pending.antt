-- ===== src/Kernel/Pending.antt =====
-- What becomes of a notification.
use quark_ts_cpp.Prelude.{
  ℕ, ◌+◌, ◌≡◌, ◌≢◌, ◌<◌, refl, sym, ap, subst, ◌∙◌, true, false, ltb, List, ◌∷◌, arith,
}
use quark_ts_cpp.Prelude.Word.{sub_word}
use quark_ts_cpp.Task.{
  Task, by_notification_simple, bit_shutdown, get_flag, dead_line_reached, queue_check_events,
}
use quark_ts_cpp.Queue.{Queue}
use quark_ts_cpp.Kernel.{Core, simple, notify_none, put_task}
use quark_ts_cpp.Kernel.Notify.{notify, has_pending_notifications, max_notification_value}
use quark_ts_cpp.Kernel.Schedule.{
  judge, is_queued, is_none, take_notification, check_tasks, check_if_ready,
}
use quark_ts_cpp.Kernel.Running.{fill_trigger, fill_event_info}
use quark_ts_cpp.Kernel.Checking.{same_lists, same_suspended, same_ready, same_mode}

-- The task as a simple notification leaves it.
abbrev noted : Core → ℕ → ℕ → Task
noted c x event_data = record (c.tasks x) {
  notifications = (c.tasks x).notifications + 1;
  async_data = event_data;
}

notify_eq :
    (c : Core) (x event_data : ℕ)
    → x ≢ c.idle
    → (c.tasks x).notifications < max_notification_value
    → notify c simple x event_data ≡ (put_task c x (noted c x event_data), true)
unfolding notify
notify_eq c x event_data i h = ground (arith, i, h)

own : (c : Core) (x : ℕ) (t : Task) → (put_task c x t).tasks x ≡ t
unfolding put_task
own c x t = ground arith

back : (n : ℕ) → n < max_notification_value → sub_word (n + 1) 1 ≡ n
back n h = omega arith

-- What a run that a simple notification triggered gets, and what is left.
simple_filled :
    (c : Core) (x : ℕ)
    → (c.tasks x).trigger ≡ by_notification_simple
    → ((fill_event_info c x).event.event_data ≡ (c.tasks x).async_data)
      × (((fill_event_info c x).tasks x).notifications ≡ sub_word (c.tasks x).notifications 1)
unfolding fill_event_info fill_trigger
simple_filled c x g = rw g (refl, ap (λ t. t.notifications) (own c x _))

pending :
    (c : Core) (x event_data : ℕ)
    → has_pending_notifications (put_task c x (noted c x event_data)) x ≡ true
unfolding has_pending_notifications
pending c x event_data = rw (own c x (noted c x event_data)) (ground arith)

-- The check of a task that nothing but a simple notification triggers.
judge_simple :
    (t : Task) (queues : ℕ → Queue) (now : ℕ)
    → get_flag t bit_shutdown ≡ true
    → is_queued t.trigger ≡ false
    → dead_line_reached t now ≡ false
    → is_none (queue_check_events t queues) ≡ true
    → ltb 0 t.notifications ≡ true
    → judge t queues now ≡ (record t { trigger = by_notification_simple }, true)
unfolding judge
judge_simple t queues now a q d e n = rw (a, q, d, e, n) refl

abbrev found : Core → ℕ → ℕ → Task
found c x event_data = record (noted c x event_data) { trigger = by_notification_simple }

judged_noted :
    (c : Core) (x event_data : ℕ)
    → (c.tasks x).notifications < max_notification_value
    → get_flag (c.tasks x) bit_shutdown ≡ true
    → is_queued (c.tasks x).trigger ≡ false
    → dead_line_reached (c.tasks x) c.now ≡ false
    → is_none (queue_check_events (c.tasks x) c.queues) ≡ true
    → let d = put_task c x (noted c x event_data) in
      judge (d.tasks x) d.queues d.now ≡ (found c x event_data, true)
unfolding put_task get_flag dead_line_reached queue_check_events
judged_noted c x event_data h a q b e =
    ap (λ t. judge t c.queues c.now) (own c x (noted c x event_data))
    ∙ judge_simple (noted c x event_data) c.queues c.now a q b e (ground arith)

-- A simple notification for a task that is not the idle one and whose count is below the limit, while it
-- is awake, has no queued notification, is not due by its time and has no event of its queue: the
-- notification is accepted and pending, the check finds the task ready and triggered by a simple
-- notification, and the run gets the data and takes the notification off the count.
pub fill_event_info-notify :
    (c : Core) (x event_data : ℕ)
    → x ≢ c.idle
    → (c.tasks x).notifications < max_notification_value
    → get_flag (c.tasks x) bit_shutdown ≡ true
    → is_queued (c.tasks x).trigger ≡ false
    → dead_line_reached (c.tasks x) c.now ≡ false
    → is_none (queue_check_events (c.tasks x) c.queues) ≡ true
    → let (c1, done) = notify c simple x event_data in
      let (t, ready) = judge (c1.tasks x) c1.queues c1.now in
      let c2 = fill_event_info (put_task c1 x t) x in
      (done ≡ true)
      × (has_pending_notifications c1 x ≡ true)
      × (ready ≡ true)
      × (t.trigger ≡ by_notification_simple)
      × (c2.event.event_data ≡ event_data)
      × ((c2.tasks x).notifications ≡ (c.tasks x).notifications)
fill_event_info-notify c x event_data i h a q b e =
    let d = put_task c x (noted c x event_data) in
    let t = found c x event_data in
    let o = own d x t in
    let (f, g) = simple_filled (put_task d x t) x (ap (λ s. s.trigger) o) in
    rw (notify_eq c x event_data i h, judged_noted c x event_data h a q b e)
      (
        refl,
        pending c x event_data,
        refl,
        refl,
        f ∙ ap (λ s. s.async_data) o,
        g ∙ ap (λ s. sub_word s.notifications 1) o ∙ back (c.tasks x).notifications h,
      )

-- The other tasks, and the lists, when a notification is spread.
spread_notify :
    (c : Core) (x event_data : ℕ)
    → ((y : ℕ) → y ≢ x → (notify c simple x event_data).0.tasks y ≡ c.tasks y)
      × ((notify c simple x event_data).0.waiting ≡ c.waiting)
      × ((notify c simple x event_data).0.suspended ≡ c.suspended)
      × ((notify c simple x event_data).0.ready ≡ c.ready)
unfolding notify put_task
spread_notify c x event_data =
    ((λ y ne. ground (arith, ne)), ground arith, ground arith, ground arith)

check_tasks_spread :
    (c : Core) (x : ℕ) (xs : List ℕ)
    → c.spreader_mode ≡ simple
    → check_tasks c (x ∷ xs) ≡ ((notify c simple x c.spreader_data).0, false)
unfolding check_tasks
check_tasks_spread c x xs e = rw e refl

-- A simple notification that is to be spread among all tasks reaches the first waiting task at most: the
-- check changes no other task from what `take_notification` leaves, puts no task into another list, finds
-- none ready, and ends the spreading.
pub check_if_ready-spread :
    (c : Core) (x : ℕ) (xs : List ℕ)
    → c.spreader_mode ≡ simple
    → c.waiting ≡ x ∷ xs
    → let (c1, ready) = check_if_ready c in
      ((y : ℕ) → y ≢ x → c1.tasks y ≡ (take_notification c).tasks y)
      × (c1.waiting ≡ c.waiting)
      × (c1.suspended ≡ c.suspended)
      × (c1.ready ≡ c.ready)
      × (c1.spreader_mode ≡ notify_none)
      × (ready ≡ false)
unfolding check_if_ready
check_if_ready-spread c x xs m w =
    let c0 = take_notification c in
    let (t, l, s, d) = spread_notify c0 x c0.spreader_data in
    subst
      (λ r.
        ((y : ℕ) → y ≢ x → r.0.tasks y ≡ c0.tasks y)
        × (r.0.waiting ≡ c.waiting)
        × (r.0.suspended ≡ c.suspended)
        × (r.0.ready ≡ c.ready)
        × (notify_none ≡ notify_none)
        × (r.1 ≡ false))
      (sym (ap (check_tasks c0) (same_lists c ∙ w) ∙ check_tasks_spread c0 x xs (same_mode c ∙ m)))
      (t, l ∙ same_lists c, s ∙ same_suspended c, d ∙ same_ready c, refl, refl)
