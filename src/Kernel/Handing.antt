-- ===== src/Kernel/Handing.antt =====
-- How `checkIfReady` hands out the queued notifications.
use quark_ts_cpp.Prelude.{
  ℕ, ◌≡◌, ◌≢◌, ◌<◌, ◌≤◌, refl, sym, ap, subst, ◌∙◌, true, List, [], ◌∷◌, ◌++◌, arith, All,
  All-split,
}
use quark_ts_cpp.DList.Links.{Distinct}
use quark_ts_cpp.PrioQueue
use quark_ts_cpp.PrioQueue.{Entry, PrioQueue}
use quark_ts_cpp.PrioQueue.Stack.{Holds, level}
use quark_ts_cpp.PrioQueue.Order.{get-Got, get_empty}
use quark_ts_cpp.Task.{by_notification_queued, bit_shutdown, get_flag, set_flags}
use quark_ts_cpp.Task.Flags.{set_flags_lem}
use quark_ts_cpp.Kernel.{Core, notify_none, put_task}
use quark_ts_cpp.Kernel.Schedule.{wake, take_notification, check_if_ready}
use quark_ts_cpp.Kernel.Placing.{IsFree}
use quark_ts_cpp.Kernel.Checking.{Placed, check_if_ready-Placed}

abbrev pub priorities : Core → ℕ → ℕ
priorities c x = (c.tasks x).priority

-- The task of the notification `chosen`, the first of the highest priority among `live`, is triggered by
-- it and awake, its data are kept for the run, and the other tasks are as before.
pub record HandsOut (c : Core) (live : List Entry) (c1 : Core) : Type 0 where
  pub before : List Entry
  pub chosen : Entry
  pub after : List Entry
  pub split : live ≡ before ++ chosen ∷ after
  pub above_before : All (λ e. level (priorities c) e < level (priorities c) chosen) before
  pub above_after : All (λ e. level (priorities c) e ≤ level (priorities c) chosen) after
  pub triggered : (c1.tasks chosen.p_task).trigger ≡ by_notification_queued
  pub awake : get_flag (c1.tasks chosen.p_task) bit_shutdown ≡ true
  pub others : (y : ℕ) → y ≢ chosen.p_task → c1.tasks y ≡ c.tasks y
  pub kept : c1.priority_queue.q_data ≡ chosen.q_data
  pub left : Holds c1.priority_queue (before ++ after)

-- What becomes of the queued notifications `live`.
abbrev pub Handed : Core → List Entry → Core → Type 0
Handed c [] c1 = (y : ℕ) → c1.tasks y ≡ c.tasks y
Handed c (e ∷ live) c1 = HandsOut c (e ∷ live) c1

woken_trigger : (c : Core) (x : ℕ) → x ≢ 0 → ((wake c x).tasks x).trigger ≡ by_notification_queued
unfolding wake put_task set_flags
woken_trigger c x h = ground (arith, h)

woken_awake : (c : Core) (x : ℕ) → x ≢ 0 → get_flag ((wake c x).tasks x) bit_shutdown ≡ true
woken_awake c x h =
    let t = record (c.tasks x) { trigger = by_notification_queued } in
    ap (λ s. get_flag s bit_shutdown) (woken_task c x h)
    ∙ set_flags_lem t bit_shutdown 6 true (omega arith) (omega arith)
  where
    woken_task :
        (c : Core) (x : ℕ)
        → x ≢ 0
        → (wake c x).tasks x
          ≡ set_flags (record (c.tasks x) { trigger = by_notification_queued }) bit_shutdown true
    woken_task c x h = unfold wake put_task in ground (arith, h)

woken_others : (c : Core) (x y : ℕ) → y ≢ x → (wake c x).tasks y ≡ c.tasks y
unfolding wake put_task
woken_others c x y h = ground (arith, h)

woken_queue : (c : Core) (x : ℕ) → (wake c x).priority_queue ≡ c.priority_queue
unfolding wake put_task
woken_queue c x = ground arith

woken_null : (c : Core) (y : ℕ) → (wake c 0).tasks y ≡ c.tasks y
unfolding wake
woken_null c y = refl

take_notification-Handed :
    (c : Core) (live : List Entry)
    → Holds c.priority_queue live
    → Handed c live (take_notification c)
unfolding take_notification
take_notification-Handed c [] h = λ y.
    ap (λ r. (wake (record c { priority_queue = r.0 }) r.1).tasks y) (get_empty (priorities c) h)
    ∙ woken_null (record c { priority_queue = c.priority_queue }) y
take_notification-Handed c (e ∷ live) h =
    let g = get-Got (priorities c) h in
    let r = PrioQueue.get (priorities c) c.priority_queue in
    let d = record c { priority_queue = r.0 } in
    let real : r.1 ≢ 0 = λ z.
      (All-split _ g.before (g.chosen ∷ g.after) (subst (All _) g.split h.real)).1.0
        (sym g.task_out ∙ z) in
    record {
      before = g.before;
      chosen = g.chosen;
      after = g.after;
      split = g.split;
      above_before = g.above_before;
      above_after = g.above_after;
      triggered =
          subst (λ x. ((wake d r.1).tasks x).trigger ≡ by_notification_queued) g.task_out
            (woken_trigger d r.1 real);
      awake =
          subst (λ x. get_flag ((wake d r.1).tasks x) bit_shutdown ≡ true) g.task_out
            (woken_awake d r.1 real);
      others = λ y ne. woken_others d r.1 y (λ q. ne (q ∙ g.task_out));
      kept = ap (λ q. q.q_data) (woken_queue d r.1) ∙ g.data_out;
      left = subst (λ q. Holds q (g.before ++ g.after)) (sym (woken_queue d r.1)) g.left;
    }

-- `checkIfReady`, with no notification to spread, first hands the first of the queued notifications
-- `live` that has the highest priority to its task: that task is triggered by it and awake, its data
-- are kept for the run, and no other task changes. Then each waiting task, if it is in no other list, is
-- taken from the waiting list. Those with a removal request leave; each other one is put, in the order
-- of waiting, behind the suspended ones if the check finds no trigger, else behind those in the ready
-- list of its priority. Behind `live`, the stack of notifications has up to the first empty place only
-- copies of the last of them.
pub check_if_ready_lem :
    (c : Core) (live : List Entry)
    → c.spreader_mode ≡ notify_none
    → Holds c.priority_queue live
    → Distinct c.waiting
    → All (IsFree c) c.waiting
    → Handed c live (take_notification c)
      × Placed (take_notification c) c.waiting (check_if_ready c)
check_if_ready_lem c live m h d f =
    (take_notification-Handed c live h, check_if_ready-Placed c m d f)
