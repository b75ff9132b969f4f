-- ===== src/Kernel/Checking.antt =====
-- Where `checkIfReady` puts the waiting tasks, one after the other.
use mathlib.Core.List.{append_assoc, append-nil}
use quark_ts_cpp.Prelude.{
  ℕ, ◌≡◌, ◌≢◌, refl, sym, ap, ap₂, ◌∙◌, Bool, true, false, not, ◌&&◌, ◌||◌, List, [], ◌∷◌, ◌++◌,
  ◌==◌, if◌then◌else◌, arith, All, All-map,
}
use quark_ts_cpp.DList.Links.{◌∉◌, Distinct}
use quark_ts_cpp.Task.{Task, bit_remove_request, get_flag}
use quark_ts_cpp.Kernel.{Core, notify_none, put_task}
use quark_ts_cpp.Kernel.Lists.{member, without_front}
use quark_ts_cpp.Kernel.Schedule.{
  wake, take_notification, check_if_ready, is_none, settle, check_tasks,
}
use quark_ts_cpp.Kernel.Placing.{
  filter, any, judged, is_ready, sleeps, readies, appended, Settled, IsFree, settle_ready,
  settle-Settled,
}

member-appended :
    (b : Bool) (xs : List ℕ) (x y : ℕ)
    → y ≢ x
    → member xs y ≡ false
    → member (appended b xs x) y ≡ false
member-appended false xs x y ne m = m
member-appended true [] x y ne m = ground (arith, ne)
member-appended true (z ∷ xs) x y ne m = ground (arith, m, member-appended true xs x y ne)

pub filter_same :
    (p q : ℕ → Bool) (xs : List ℕ) → All (λ y. p y ≡ q y) xs → filter p xs ≡ filter q xs
unfolding filter
filter_same p q [] a = refl
filter_same p q (x ∷ xs) a = ap₂ (λ b ys. if b then x ∷ ys else ys) a.0 (filter_same p q xs a.1)

any_same : (p q : ℕ → Bool) (xs : List ℕ) → All (λ y. p y ≡ q y) xs → any p xs ≡ any q xs
unfolding any
any_same p q [] a = refl
any_same p q (x ∷ xs) a = ap₂ ◌||◌ a.0 (any_same p q xs a.1)

abbrev sleeping_by : Task × Bool → Bool
sleeping_by j = not (get_flag j.0 bit_remove_request) && is_none j.0.trigger

abbrev ready_by : ℕ → Task × Bool → Bool
ready_by p j =
    not (get_flag j.0 bit_remove_request) && (not (is_none j.0.trigger) && (j.0.priority == p))

module _ {c : Core} {x : ℕ} {b : Bool} {r : ℕ → Bool} {c1 : Core} (s : Settled c x b r c1) where
  IsFree-after : (y : ℕ) → y ≢ x → IsFree c y → IsFree c1 y
  IsFree-after y ne f = (
    f.0,
    rw s.suspended_at (member-appended b c.suspended x y ne f.1),
    λ p. rw (s.ready_at p) (member-appended (r p) (c.ready p) x y ne (f.2 p)),
  )

  judged_after : (y : ℕ) → y ≢ x → judged c1 y ≡ judged c y
  judged_after y ne = rw (s.others y ne, s.queues_at, s.now_at) refl

  All-IsFree_after : (xs : List ℕ) → x ∉ xs → All (IsFree c) xs → All (IsFree c1) xs
  All-IsFree_after [] o f = tt
  All-IsFree_after (y ∷ ys) o f = (IsFree-after y o.0 f.0, All-IsFree_after ys o.1 f.1)

  sleepers_after : (xs : List ℕ) → x ∉ xs → filter (sleeps c1) xs ≡ filter (sleeps c) xs
  sleepers_after xs o = filter_same (sleeps c1) (sleeps c) xs (
      All-map (λ y. y ≢ x) (λ y. sleeps c1 y ≡ sleeps c y) xs
        (λ y ne. ap sleeping_by {x = judged c1 y} {y = judged c y} (judged_after y ne)) o)

  ready_after : (p : ℕ) (xs : List ℕ) → x ∉ xs → filter (readies c1 p) xs ≡ filter (readies c p) xs
  ready_after p xs o = filter_same (readies c1 p) (readies c p) xs (
      All-map (λ y. y ≢ x) (λ y. readies c1 p y ≡ readies c p y) xs
        (λ y ne. ap (ready_by p) {x = judged c1 y} {y = judged c y} (judged_after y ne)) o)

  any_after : (xs : List ℕ) → x ∉ xs → any (is_ready c1) xs ≡ any (is_ready c) xs
  any_after xs o = any_same (is_ready c1) (is_ready c) xs (
      All-map (λ y. y ≢ x) (λ y. is_ready c1 y ≡ is_ready c y) xs
        (λ y ne. ap (λ j. j.1) {x = judged c1 y} {y = judged c y} (judged_after y ne)) o)

appended_filter :
    (b : Bool) (zs : List ℕ) (x : ℕ) (ys : List ℕ)
    → appended b zs x ++ ys ≡ zs ++ (if b then x ∷ ys else ys)
appended_filter true zs x ys = append_assoc zs (x ∷ []) ys
appended_filter false zs x ys = refl

-- What `checkIfReady` makes of the waiting tasks `xs` of `c`: those that sleep and those that are ready
-- stand in their lists, in the order in which they waited.
pub record Placed (c : Core) (xs : List ℕ) (out : Core × Bool) : Type 0 where
  pub none_waits : out.0.waiting ≡ []
  pub sleeping : out.0.suspended ≡ c.suspended ++ filter (sleeps c) xs
  pub by_priority : (p : ℕ) → out.0.ready p ≡ c.ready p ++ filter (readies c p) xs
  pub any_ready : out.1 ≡ any (is_ready c) xs

check_tasks_eq :
    (c : Core) (x : ℕ) (xs : List ℕ)
    → c.spreader_mode ≡ notify_none
    → check_tasks c (x ∷ xs)
      ≡ ((check_tasks (settle c x).0 xs).0, (settle c x).1 || (check_tasks (settle c x).0 xs).1)
unfolding check_tasks
check_tasks_eq c x xs e = rw e refl

-- With no notification to spread, each waiting task that is in no other list, once, is taken from the
-- waiting list and put behind the others in the list that it belongs to.
pub check_tasks-Placed :
    (c : Core) (xs : List ℕ)
    → c.waiting ≡ xs
    → c.spreader_mode ≡ notify_none
    → Distinct xs
    → All (IsFree c) xs
    → Placed c xs (check_tasks c xs)
unfolding check_tasks filter any
check_tasks-Placed c [] w m d f = record {
  none_waits = w;
  sleeping = sym (append-nil c.suspended);
  by_priority = λ p. sym (append-nil (c.ready p));
  any_ready = refl;
}
check_tasks-Placed c (x ∷ xs) w m d f =
    let s = settle-Settled c x f.0 in
    let rest =
      check_tasks-Placed (settle c x).0 xs (s.waiting_at ∙ ap without_front w) (s.mode_at ∙ m) d.1
        (All-IsFree_after s xs d.0 f.1) in
    rw (check_tasks_eq c x xs m) (record {
      none_waits = rest.none_waits;
      sleeping =
          rest.sleeping
          ∙ ap₂ ◌++◌ s.suspended_at (sleepers_after s xs d.0)
          ∙ appended_filter (sleeps c x) c.suspended x (filter (sleeps c) xs);
      by_priority = λ p.
          rest.by_priority p
          ∙ ap₂ ◌++◌ (s.ready_at p) (ready_after s p xs d.0)
          ∙ appended_filter (readies c p x) (c.ready p) x (filter (readies c p) xs);
      any_ready = ap₂ ◌||◌ (settle_ready c x) (rest.any_ready ∙ any_after s xs d.0);
    })

pub same_lists : (c : Core) → (take_notification c).waiting ≡ c.waiting
unfolding take_notification wake put_task
same_lists c = ground arith

pub same_suspended : (c : Core) → (take_notification c).suspended ≡ c.suspended
unfolding take_notification wake put_task
same_suspended c = ground arith

pub same_ready : (c : Core) → (take_notification c).ready ≡ c.ready
unfolding take_notification wake put_task
same_ready c = ground arith

pub same_mode : (c : Core) → (take_notification c).spreader_mode ≡ c.spreader_mode
unfolding take_notification wake put_task
same_mode c = ground arith

-- `checkIfReady`, with no notification to spread, first hands the queued notification of the highest
-- priority to its task; then each waiting task, if it is in no other list, is taken from the waiting list.
-- Those with a removal request leave; each other one is put, in the order of waiting, behind the
-- suspended ones if the check finds no trigger, else behind those in the ready list of its priority.
pub check_if_ready-Placed :
    (c : Core)
    → c.spreader_mode ≡ notify_none
    → Distinct c.waiting
    → All (IsFree c) c.waiting
    → Placed (take_notification c) c.waiting (check_if_ready c)
unfolding check_if_ready
check_if_ready-Placed c m d f =
    let p = check_tasks-Placed (take_notification c) c.waiting (same_lists c) (same_mode c ∙ m) d (
      All-map (IsFree c) (IsFree (take_notification c)) c.waiting
        (λ x e. (e.0, rw (same_suspended c) e.1, rw (same_ready c) e.2)) f) in
    rw (same_lists c) (record {
      none_waits = p.none_waits;
      sleeping = p.sleeping;
      by_priority = p.by_priority;
      any_ready = p.any_ready;
    })
