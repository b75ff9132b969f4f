-- ===== src/Tests/Cores.antt =====
-- A scheduler with the tasks 1 and 2, and callbacks for it.
use quark_ts_cpp.Prelude.Returns.{Returns}
use mathlib.Core.List.{Perm}
use quark_ts_cpp.Prelude.{
  ℕ, ◌≡◌, ◌≢◌, inl, ◌++◌, ◌>>=◌, some, refl, true, false, List, [], ◌∷◌, ltb, ◌==◌, if◌then◌else◌,
  arith, min, replicate,
}
use quark_ts_cpp.DList.Links.{Distinct}
use quark_ts_cpp.Queue.{Queue}
use quark_ts_cpp.PrioQueue
use quark_ts_cpp.Task.{
  Task, Trigger, no_trigger, by_notification_simple, periodic, enabled_state, get_flag,
  dead_line_reached, queue_check_events,
}
use quark_ts_cpp.Kernel.{put_task, Core, NotifyMode, simple, notify_none}
use quark_ts_cpp.Kernel.Lists.{sort}
use quark_ts_cpp.Kernel.Notify.{add, notify, has_pending_notifications}
use quark_ts_cpp.Kernel.Schedule.{judge, take_notification, check_if_ready}
use quark_ts_cpp.Kernel.Running.{dispatch_all, cycle, fill_event_info}
use quark_ts_cpp.Kernel.Placing.{filter}
use quark_ts_cpp.Kernel.Checking.{Placed}
use quark_ts_cpp.Kernel.Handing.{Handed, check_if_ready_lem}
use quark_ts_cpp.PrioQueue.Order.{Fresh, Fresh-Holds, entry, init-Fresh, insert-Fresh}
use quark_ts_cpp.Kernel.Pending.{fill_event_info-notify, check_if_ready-spread}
use quark_ts_cpp.Kernel.Sorting.{Ascends, sort-Ascends}
use quark_ts_cpp.Kernel.Dispatch.{Calm}
use quark_ts_cpp.Kernel.Cycle.{Steady, Settled, stays}
use quark_ts_cpp.Kernel.Conserve.{cycle_keeps}
use quark_ts_cpp.Kernel.Adding.{add-Steady}

abbrev task : Trigger → Task
task trg = record {
  task_data = 0;
  async_data = 0;
  callback = 50;
  a_obj = 0;
  a_queue = 0;
  a_queue_count = 0;
  time = record { t_start = 0; tv = 100 };
  cycles = 0;
  entry = 1;
  iterations = periodic;
  notifications = 0;
  flags = 0x42;
  priority = 1;
  trigger = trg;
}

abbrev no_queue : Queue
no_queue = record {
  memory = λ a. 0;
  head = 0;
  tail = 0;
  reader = 0;
  writer = 0;
  items_waiting = 0;
  items_count = 0;
  item_size = 0;
}

abbrev core_of : Trigger → NotifyMode → (ℕ → List ℕ) → List ℕ → Core
core_of trg mode ready waiting = record {
  tasks = λ x. task trg;
  queues = λ a. no_queue;
  now = 200;
  event = record {
    trigger = no_trigger;
    first_call = false;
    first_iteration = false;
    last_iteration = false;
    start_delay = 0;
    current_task = 0;
    task_data = 0;
    event_data = 0;
  };
  idle = 90;
  release_sched_callback = 0;
  yield_task = 0;
  priority_queue = PrioQueue.init (replicate 10 PrioQueue.null_entry);
  flag = 0;
  spreader_mode = mode;
  spreader_data = 5;
  task_entries = 2;
  ready = ready;
  waiting = waiting;
  suspended = [];
  cpu_idle = 0;
  world = [];
}

abbrev c0 : Core
c0 = core_of no_trigger notify_none (λ p. []) (1 ∷ 2 ∷ [])

c0-Distinct : Distinct c0.waiting
c0-Distinct = (((λ e. absurd (omega arith)), tt), (tt, tt))

c0-Steady : Steady c0
c0-Steady = record {
  distinct = c0-Distinct;
  real = ((λ e. absurd (omega arith)), ((λ e. absurd (omega arith)), tt));
  none_suspended = refl;
  none_ready = λ p. refl;
}

c0-Settled : Settled c0
c0-Settled = record {
  untriggered = (refl, (refl, tt));
  prioritised = (omega arith, (omega arith, tt));
}

abbrev call : ℕ → Core → Core
call f c = c

call-Calm : Calm call (λ x. 0) 3
call-Calm = record {
  leaves_waiting = λ f c. refl;
  leaves_suspended = λ f c. refl;
  leaves_ready = λ f c. refl;
  yields_down = λ f c y. inl y;
  bounded = λ x. omega arith;
}

-- With two notifications, the one for the task 1 first.
abbrev told : Core
told = record c0 {
  priority_queue = (PrioQueue.insert (PrioQueue.insert c0.priority_queue 1 20).0 2 30).0;
}

told-Fresh : Fresh told.priority_queue (entry 1 20 ∷ entry 2 30 ∷ [])
unfolding PrioQueue.init PrioQueue.clear_tasks PrioQueue.insert
told-Fresh =
    (insert-Fresh 2 30
      (insert-Fresh 1 20 (init-Fresh (replicate 10 PrioQueue.null_entry))
        (λ e. absurd (omega arith)) (omega arith)).1
      (λ e. absurd (omega arith)) (omega arith)).1

check_if_ready_lem_example :
    Handed told (entry 1 20 ∷ entry 2 30 ∷ []) (take_notification told)
    × Placed (take_notification told) (1 ∷ 2 ∷ []) (check_if_ready told)
check_if_ready_lem_example =
    check_if_ready_lem told (entry 1 20 ∷ entry 2 30 ∷ []) refl (Fresh-Holds told-Fresh) c0-Distinct
      (
        ((λ e. absurd (omega arith)), refl, λ p. refl),
        (((λ e. absurd (omega arith)), refl, λ p. refl), tt),
      )

cycle_keeps_example :
    Returns (λ d. Steady d × Perm (filter (stays c0) (1 ∷ 2 ∷ [])) d.waiting) (cycle call 3 c0)
cycle_keeps_example = cycle_keeps call-Calm c0 c0-Steady refl c0-Settled

abbrev lists : ℕ → List ℕ
lists p = if p == 2 then 4 ∷ [] else if p == 0 then 3 ∷ [] else []

abbrev c1 : Core
c1 = core_of by_notification_simple notify_none lists (1 ∷ [])

-- Callbacks that note their task; that of the task 4 yields to the task 6.
abbrev rank46 : ℕ → ℕ
rank46 x = if x == 4 then 1 else 0

abbrev note : ℕ → Core → Core
note f c = record c {
  world = c.world ++ (c.event.current_task, f) ∷ [];
  yield_task = if c.event.current_task == 4 then 6 else c.yield_task;
}

-- The task 6 is called between them.
noted_calls :
    (dispatch_all note 3 c1 >>= λ d. some d.world) ≡ some ((4, 50) ∷ (6, 50) ∷ (3, 50) ∷ [])
unfolding dispatch_all
noted_calls = refl

-- Before the task 1 is due.
abbrev early : Core
early = record c0 { now = 50 }

fill_event_info-notify_example :
    let (d, done) = notify early simple 1 77 in
    let (t, ready) = judge (d.tasks 1) d.queues d.now in
    let e = fill_event_info (put_task d 1 t) 1 in
    (done ≡ true)
    × (has_pending_notifications d 1 ≡ true)
    × (ready ≡ true)
    × (t.trigger ≡ by_notification_simple)
    × (e.event.event_data ≡ 77)
    × ((e.tasks 1).notifications ≡ (early.tasks 1).notifications)
unfolding get_flag dead_line_reached queue_check_events
fill_event_info-notify_example =
    fill_event_info-notify early 1 77 (λ e. absurd (omega arith)) (omega arith) refl refl refl refl

abbrev c2 : Core
c2 = core_of no_trigger simple (λ p. []) (1 ∷ 2 ∷ [])

check_if_ready-spread_example :
    let (d, ready) = check_if_ready c2 in
    ((y : ℕ) → y ≢ 1 → d.tasks y ≡ (take_notification c2).tasks y)
    × (d.waiting ≡ c2.waiting)
    × (d.suspended ≡ c2.suspended)
    × (d.ready ≡ c2.ready)
    × (d.spreader_mode ≡ notify_none)
    × (ready ≡ false)
check_if_ready-spread_example = check_if_ready-spread c2 1 (2 ∷ []) refl refl

sort-Ascends_example :
    Ascends (λ x. x) (sort (λ a b. ltb b a) (3 ∷ 1 ∷ 2 ∷ []))
    × Perm (3 ∷ 1 ∷ 2 ∷ []) (sort (λ a b. ltb b a) (3 ∷ 1 ∷ 2 ∷ []))
sort-Ascends_example = sort-Ascends (λ x. x) (3 ∷ 1 ∷ 2 ∷ [])

add-Steady_example :
    let (d, done) = add c0 3 60 7 100 periodic enabled_state 0 in
    (done ≡ true) × (d.waiting ≡ 1 ∷ 2 ∷ 3 ∷ []) × Steady d × ((d.tasks 3).priority ≡ min 7 2)
add-Steady_example =
    add-Steady c0 3 60 7 100 periodic enabled_state 0 c0-Steady (λ e. absurd (omega arith))
      ((λ e. absurd (omega arith)), ((λ e. absurd (omega arith)), tt))
