-- ===== src/Kernel/Parts.antt =====
-- The check sorts the waiting tasks into those that leave, those that sleep, and a list for each
-- priority: none is lost.
use quark_ts_cpp.Prelude.{
  ℕ, ◌<◌, ◌≡◌, ◌⊎◌, inl, inr, refl, sym, Bool, true, false, not, ◌&&◌, List, [], ◌∷◌, ◌++◌, ◌==◌,
  if◌then◌else◌, arith, All, Bool-cases, subst, ==_iff,
}
use quark_ts_cpp.Prelude.Shuffles
use quark_ts_cpp.Prelude.Shuffles.{Shuffle, middle, append_left}
use quark_ts_cpp.PrioQueue
use quark_ts_cpp.Queue.{Queue}
use quark_ts_cpp.Task.{
  Task, bit_remove_request, bit_shutdown, by_notification_queued, get_flag, set_flags,
}
use quark_ts_cpp.Task.Flags.{set_flags_lem}
use quark_ts_cpp.Kernel.{Core, put_task}
use quark_ts_cpp.Kernel.Schedule.{judge, is_none, is_queued, wake, take_notification}
use quark_ts_cpp.Kernel.Placing.{filter, any}

-- The same sorting by arbitrary tests.
module _ (gone asleep : ℕ → Bool) (level : ℕ → ℕ) where
  abbrev sleepers : ℕ → Bool
  sleepers x = not (gone x) && asleep x

  abbrev at_level : ℕ → ℕ → Bool
  at_level p x = not (gone x) && (not (asleep x) && (level x == p))

  abbrev sorted_out : List ℕ → List ℕ
  sorted_out xs =
      filter (at_level 2) xs
      ++ (filter (at_level 1) xs ++ (filter (at_level 0) xs ++ filter sleepers xs))

  low_level : (n : ℕ) → n < 3 → (n ≡ 0) ⊎ ((n ≡ 1) ⊎ (n ≡ 2))
  low_level n h = omega arith

  pub sorted_out-Shuffle :
      (xs : List ℕ)
      → All (λ x. level x < 3) xs
      → Shuffle (filter (λ x. not (gone x)) xs) (sorted_out xs)
  unfolding filter
  sorted_out-Shuffle [] h = Shuffles.nil
  sorted_out-Shuffle (x ∷ xs) h =
      let p = sorted_out-Shuffle xs h.1 in
      let l2 = filter (at_level 2) xs in
      let l1 = filter (at_level 1) xs in
      let l0 = filter (at_level 0) xs in
      let s = filter sleepers xs in
      elim (Bool-cases (gone x)) [
        | inl g ↦ rw g p
        | inr g ↦ (elim (Bool-cases (asleep x)) [
          | inl a ↦
              rw (g, a)
                (Shuffles.trans (Shuffles.keep x p) (
                  Shuffles.trans (middle l2 x (l1 ++ (l0 ++ s))) (
                    append_left l2
                      (Shuffles.trans (middle l1 x (l0 ++ s)) (append_left l1 (middle l0 x s))))))
          | inr a ↦ (elim (low_level (level x) h.0) [
            | inl e ↦
                rw (g, a, e)
                  (Shuffles.trans (Shuffles.keep x p) (
                    Shuffles.trans (middle l2 x (l1 ++ (l0 ++ s)))
                      (append_left l2 (middle l1 x (l0 ++ s)))))
            | inr (inl e) ↦
                rw (g, a, e) (Shuffles.trans (Shuffles.keep x p) (middle l2 x (l1 ++ (l0 ++ s))))
            | inr (inr e) ↦ rw (g, a, e) (Shuffles.keep x p)
          ])
        ])
      ]

pub filter_none : (p : ℕ → Bool) (xs : List ℕ) → All (λ x. p x ≡ false) xs → filter p xs ≡ []
unfolding filter
filter_none p [] a = refl
filter_none p (x ∷ xs) a = rw a.0 (filter_none p xs a.1)

pub any_none : (p : ℕ → Bool) (xs : List ℕ) → any p xs ≡ false → All (λ x. p x ≡ false) xs
unfolding any
any_none p [] e = tt
any_none p (x ∷ xs) e = (ground (arith, e), any_none p xs (ground (arith, e)))

-- What the check leaves of a task as it is.
pub judge_flags : (t : Task) (queues : ℕ → Queue) (now : ℕ) → (judge t queues now).0.flags ≡ t.flags
unfolding judge
judge_flags t queues now = ground arith

pub judge_priority :
    (t : Task) (queues : ℕ → Queue) (now : ℕ) → (judge t queues now).0.priority ≡ t.priority
unfolding judge
judge_priority t queues now = ground arith

-- A task that waits to be checked: it has no trigger, or was just taken from the stack.
abbrev pub Rested : Task → Type 0
Rested t =
    (is_none t.trigger ≡ true) ⊎ ((is_queued t.trigger ≡ true) × (get_flag t bit_shutdown ≡ true))

pub judge-Rested :
    (t : Task) (queues : ℕ → Queue) (now : ℕ)
    → Rested t
    → (judge t queues now).1 ≡ false
    → is_none (judge t queues now).0.trigger ≡ true
unfolding judge
judge-Rested t queues now r e = ground (arith, r, e)

-- What `checkIfReady` does with a notification before it looks at the tasks.
module _ (c : Core) where
  abbrev woken : ℕ → Task
  woken y = record (c.tasks y) { trigger = by_notification_queued }

  kept_remove :
      (y : ℕ)
      → get_flag (set_flags (woken y) bit_shutdown true) bit_remove_request
        ≡ get_flag (c.tasks y) bit_remove_request
  unfolding get_flag
  kept_remove y = set_flags_lem (woken y) bit_shutdown 7 true (omega arith) (omega arith)

  set_shutdown : (y : ℕ) → get_flag (set_flags (woken y) bit_shutdown true) bit_shutdown ≡ true
  set_shutdown y = set_flags_lem (woken y) bit_shutdown 6 true (omega arith) (omega arith)

  wake_other : (x y : ℕ) → (y == x) ≡ false → (wake c x).tasks y ≡ c.tasks y
  unfolding wake put_task
  wake_other x y e = ground (arith, e)

  wake_own :
      (y : ℕ)
      → (wake c y).tasks y ≡ (if y == 0 then c.tasks y else set_flags (woken y) bit_shutdown true)
  unfolding wake put_task
  wake_own y = ground arith

  -- What holds of a task as it was, and as it is when it is woken, holds after `wake`.
  woken_by :
      (P : Task → Type 0) (x y : ℕ)
      → P (c.tasks y)
      → P (set_flags (woken y) bit_shutdown true)
      → P ((wake c x).tasks y)
  woken_by P x y a b = elim (Bool-cases (y == x)) [
    | inl e ↦
        subst (λ z. P ((wake c z).tasks y)) ((==_iff y x).0 e)
          (subst P (sym (wake_own y)) (either (y == 0)))
    | inr e ↦ subst P (sym (wake_other x y e)) a
  ]
    where
      either : (t : Bool) → P (if t then c.tasks y else set_flags (woken y) bit_shutdown true)
      either true = a
      either false = b

  pub wake_priority : (x y : ℕ) → ((wake c x).tasks y).priority ≡ (c.tasks y).priority
  wake_priority x y =
      woken_by (λ t. t.priority ≡ (c.tasks y).priority) x y refl (unfold set_flags in refl)

  pub wake_remove :
      (x y : ℕ)
      → get_flag ((wake c x).tasks y) bit_remove_request ≡ get_flag (c.tasks y) bit_remove_request
  wake_remove x y =
      woken_by (λ t. get_flag t bit_remove_request ≡ get_flag (c.tasks y) bit_remove_request) x y
        refl (kept_remove y)

  pub wake-Rested : (x y : ℕ) → is_none (c.tasks y).trigger ≡ true → Rested ((wake c x).tasks y)
  wake-Rested x y e = woken_by Rested x y (inl e) (inr (unfold set_flags in refl, set_shutdown y))

-- The same of `take_notification`.
module _ (c : Core) where
  abbrev fetched : PrioQueue.PrioQueue × ℕ
  fetched = PrioQueue.get (λ y. (c.tasks y).priority) c.priority_queue

  abbrev c0 : Core
  c0 = record c { priority_queue = fetched.0 }

  pub take_notification_priority :
      (y : ℕ) → ((take_notification c).tasks y).priority ≡ (c.tasks y).priority
  unfolding take_notification
  take_notification_priority y = wake_priority c0 fetched.1 y

  pub take_notification_remove :
      (y : ℕ)
      → get_flag ((take_notification c).tasks y) bit_remove_request
        ≡ get_flag (c.tasks y) bit_remove_request
  unfolding take_notification
  take_notification_remove y = wake_remove c0 fetched.1 y

  pub take_notification-Rested :
      (y : ℕ) → is_none (c.tasks y).trigger ≡ true → Rested ((take_notification c).tasks y)
  unfolding take_notification
  take_notification-Rested y e = wake-Rested c0 fetched.1 y e
