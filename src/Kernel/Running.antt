-- ===== src/Kernel/Running.antt =====
-- src/kernel.cpp: the ready tasks run, and the cycle of `core::run`. User code is not under src/: `call f c`
-- is what the function at `f` leaves when it is called with the scheduler's state `c`, whose event it is given.
-- `none` is a chain of yields that did not end within the given rounds.
use quark_ts_cpp.Prelude.{
  ℕ, zero, suc, Bool, true, false, not, ◌&&◌, Option, none, some, List, [], ◌∷◌, ◌++◌, ◌==◌, ltb,
  if◌then◌else◌, ◌>>=◌,
}
use quark_ts_cpp.Prelude.Word.{add_word, sub_word}
use quark_ts_cpp.Prelude.Int.{pos, pred_ℤ, neg_ℤ, ltb_ℤ, eqb_ℤ}
use quark_ts_cpp.Prelude.Bits.{multiple_set, multiple_clear, multiple_get}
use quark_ts_cpp.Timer
use quark_ts_cpp.Queue
use quark_ts_cpp.Queue.{Queue}
use quark_ts_cpp.Task.{
  Task, Trigger, no_trigger, by_time_elapsed, by_notification_queued, by_notification_simple,
  by_queue_receiver, by_queue_full, by_queue_count, by_queue_empty, by_scheduling_release,
  by_no_ready_tasks, periodic, bit_init, bit_enabled, set_flags, get_flag,
}
use quark_ts_cpp.Kernel.{Core, put_task}
use quark_ts_cpp.Kernel.Lists.{insert_back, without_front, sort}
use quark_ts_cpp.Kernel.Notify.{bit_release_sched}
use quark_ts_cpp.Kernel.Schedule.{bit_fcall_idle, bit_fcall_released, is_receiver, check_if_ready}

-- The iterations of a task that its time made ready: the task, and whether this is its first and
-- its last iteration.
unfoldable pub count_iteration : Task → Task × Bool × Bool
unfolding set_flags
count_iteration t =
    let first = not (eqb_ℤ t.iterations periodic) && ltb_ℤ t.iterations (pos 0) in
    let n = if first then neg_ℤ t.iterations else t.iterations in
    let left = if eqb_ℤ n periodic then n else pred_ℤ n in
    let last = eqb_ℤ left (pos 0) in
    let t1 = record t { iterations = left } in
    (if last then set_flags t1 bit_enabled false else t1, first, last)

unfoldable pub fill_trigger : Trigger → Core → ℕ → Core
unfolding put_task count_iteration Timer.elapsed Queue.peek
fill_trigger by_time_elapsed c x =
    let (t, first, last) = count_iteration (c.tasks x) in
    record (put_task c x t) {
      event = record c.event {
        first_iteration = first;
        last_iteration = last;
        start_delay = Timer.elapsed t.time c.now;
      };
    }
fill_trigger by_notification_simple c x =
    let t = c.tasks x in
    record (put_task c x (record t { notifications = sub_word t.notifications 1 })) {
      event = record c.event { event_data = t.async_data };
    }
fill_trigger by_queue_receiver c x = record c {
  event = record c.event { event_data = or_null (Queue.peek (c.queues (c.tasks x).a_queue)) };
}
  where
    or_null : Option ℕ → ℕ
    or_null none = 0
    or_null (some a) = a
fill_trigger by_queue_full c x = record c {
  event = record c.event { event_data = (c.tasks x).a_queue };
}
fill_trigger by_queue_count c x = record c {
  event = record c.event { event_data = (c.tasks x).a_queue };
}
fill_trigger by_queue_empty c x = record c {
  event = record c.event { event_data = (c.tasks x).a_queue };
}
fill_trigger by_notification_queued c x = record c {
  event = record c.event { event_data = c.priority_queue.q_data };
  priority_queue = record c.priority_queue { q_data = 0 };
}
fill_trigger _ c x = c

unfoldable pub fill_event_info : Core → ℕ → Core
unfolding fill_trigger get_flag
fill_event_info c x =
    let c1 = fill_trigger (c.tasks x).trigger c x in
    let t = c1.tasks x in
    record c1 {
      event = record c1.event {
        trigger = t.trigger;
        first_call = not (get_flag t bit_init);
        task_data = t.task_data;
        current_task = x;
      };
    }

-- What is done with a task and its list after its callback.
unfoldable pub finish : Core → ℕ → ℕ → Core
unfolding put_task set_flags insert_back Queue.remove_front
finish c p x =
    let t = c.tasks x in
    let q = t.a_queue in
    let popped =
      if is_receiver t.trigger
      then (λ y. if y == q then (Queue.remove_front (c.queues q)).0 else c.queues y)
      else c.queues in
    let t1 = record (set_flags t bit_init true) {
      cycles = add_word t.cycles 1;
      trigger = no_trigger;
    } in
    record (put_task c x t1) {
      ready = λ r. if r == p then without_front (c.ready p) else c.ready r;
      waiting = (insert_back c.waiting x).0;
      queues = popped;
      event = record c.event {
        current_task = 0;
        first_iteration = false;
        last_iteration = false;
        start_delay = 0;
        event_data = 0;
      };
    }

-- `taskEntryOrderPreserver`
unfoldable pub task_entry_order_preserver : Core → ℕ → ℕ → Bool
task_entry_order_preserver c a b = ltb (c.tasks b).entry (c.tasks a).entry

abbrev pub is_nil : List ℕ → Bool
is_nil [] = true
is_nil (x ∷ xs) = false

unfoldable pub wake_suspended : Core → Core
unfolding sort task_entry_order_preserver
wake_suspended c = if is_nil c.suspended then c else record c {
  waiting = sort (task_entry_order_preserver c) (c.waiting ++ c.suspended);
  suspended = [];
}

module _ (call : ℕ → Core → Core) where
  unfoldable pub activities : Core → ℕ → Core
  activities c x = if (c.tasks x).callback == 0 then c else call (c.tasks x).callback c

  -- The loop over the tasks that were yielded to.
  unfoldable pub follow_yields : ℕ → Core → Option Core
  unfolding activities
  follow_yields zero c = if c.yield_task == 0 then some c else none
  follow_yields (suc n) c =
      let x = c.yield_task in
      let c1 = record c { event = record c.event { current_task = x }; yield_task = 0 } in
      let rest = follow_yields n (activities c1 x) in if c.yield_task == 0 then some c else rest

  -- A round of the loop of `dispatch`.
  unfoldable pub dispatch_task : ℕ → Core → ℕ → ℕ → Option Core
  unfolding fill_event_info activities follow_yields finish
  dispatch_task rounds c p x = do
    c1 ← follow_yields rounds (activities (record (fill_event_info c x) { yield_task = 0 }) x)
    some (finish c1 p x)

  unfoldable pub dispatch : ℕ → Core → ℕ → List ℕ → Option Core
  unfolding dispatch_task
  dispatch rounds c p [] = some c
  dispatch rounds c p (x ∷ xs) = dispatch_task rounds c p x >>= λ c1. dispatch rounds c1 p xs

  unfoldable pub dispatch_idle : Core → Core
  unfolding activities multiple_get multiple_set
  dispatch_idle c =
      let c1 = record c {
        event = record c.event {
          first_call = not (multiple_get c.flag bit_fcall_idle);
          task_data = 0;
          trigger = by_no_ready_tasks;
          current_task = c.idle;
        };
      } in
      let c2 = activities c1 c.idle in record c2 { flag = multiple_set c2.flag bit_fcall_idle }

  unfoldable pub dispatch_level : ℕ → Core → ℕ → Option Core
  unfolding dispatch
  dispatch_level rounds c p = dispatch rounds c p (c.ready p)

  -- The ready lists, from the highest priority down.
  unfoldable pub dispatch_all : ℕ → Core → Option Core
  unfolding dispatch_level
  dispatch_all rounds c = do
    c1 ← dispatch_level rounds c 2
    c2 ← dispatch_level rounds c1 1
    dispatch_level rounds c2 0

  -- What is done when no task is ready.
  unfoldable pub idle_work : Core → Core
  unfolding dispatch_idle
  idle_work c = let c1 = dispatch_idle c in if c1.cpu_idle == 0 then c1 else call c1.cpu_idle c1

  -- The body of the loop of `run`.
  unfoldable pub cycle : ℕ → Core → Option Core
  unfolding check_if_ready dispatch_all wake_suspended idle_work
  cycle rounds c = do
    let (c1, any) = check_if_ready c
    c2 ← if any then dispatch_all rounds c1 else some c1
    let c3 = wake_suspended c2
    some (if any then c3 else idle_work c3)

  unfoldable pub trigger_release_sched_event : Core → Core
  unfolding multiple_get multiple_set multiple_clear
  trigger_release_sched_event c =
      let c1 = record c {
        flag = multiple_clear (multiple_clear c.flag 0x1) bit_release_sched;
        event = record c.event {
          first_call = not (
              multiple_get (multiple_clear (multiple_clear c.flag 0x1) bit_release_sched)
                bit_fcall_released);
          trigger = by_scheduling_release;
          task_data = 0;
        };
      } in
      let c2 = if c.release_sched_callback == 0 then c1 else call c.release_sched_callback c1 in
      record c2 { flag = multiple_set c2.flag bit_fcall_idle }
