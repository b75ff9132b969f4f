-- ===== src/Kernel/Noting.antt =====
-- What the callbacks note of their calls.
use mathlib.Core.List.{append_assoc, append-nil}
use quark_ts_cpp.Prelude.{ℕ, ◌≡◌, refl, sym, ap, ◌∙◌, List, [], ◌∷◌, ◌++◌, arith}
use quark_ts_cpp.Task.{
  Trigger, no_trigger, by_time_elapsed, by_notification_queued, by_notification_simple,
  by_queue_receiver, by_queue_full, by_queue_count, by_queue_empty, by_event_flags,
  by_scheduling_release, by_no_ready_tasks,
}
use quark_ts_cpp.Kernel.{Core, put_task}
use quark_ts_cpp.Kernel.Running.{fill_trigger, fill_event_info, finish}

-- Each function notes the task it is called for and its own address, and keeps the callbacks of the tasks.
pub record Notes (call : ℕ → Core → Core) : Type 0 where
  pub writes : (f : ℕ) (c : Core) → (call f c).world ≡ c.world ++ (c.event.current_task, f) ∷ []
  pub keeps : (f : ℕ) (c : Core) (y : ℕ) → ((call f c).tasks y).callback ≡ (c.tasks y).callback

abbrev pub callback_of : Core → ℕ → ℕ
callback_of c y = (c.tasks y).callback

-- The calls of the tasks `ys`, each with its callback.
unfoldable pub calls : (ℕ → ℕ) → List ℕ → List (ℕ × ℕ)
calls g [] = []
calls g (y ∷ ys) = (y, g y) ∷ calls g ys

calls-append : (g : ℕ → ℕ) (ys zs : List ℕ) → calls g (ys ++ zs) ≡ calls g ys ++ calls g zs
unfolding calls
calls-append g [] zs = refl
calls-append g (y ∷ ys) zs = ap (λ l. (y, g y) ∷ l) (calls-append g ys zs)

calls_kept : (g h : ℕ → ℕ) (ys : List ℕ) → ((y : ℕ) → h y ≡ g y) → calls h ys ≡ calls g ys
unfolding calls
calls_kept g h [] k = refl
calls_kept g h (y ∷ ys) k =
    ap (λ f. (y, f) ∷ calls h ys) (k y) ∙ ap (λ l. (y, g y) ∷ l) (calls_kept g h ys k)

-- What was noted from `c` to `d` are the calls of `ys`; the callbacks are those of `c`.
pub record Noted (c d : Core) (ys : List ℕ) : Type 0 where
  pub world_at : d.world ≡ c.world ++ calls (callback_of c) ys
  pub callbacks : (y : ℕ) → (d.tasks y).callback ≡ (c.tasks y).callback

pub Noted-trans :
    {c d e : Core} {ys zs : List ℕ} → Noted c d ys → Noted d e zs → Noted c e (ys ++ zs)
Noted-trans {c} {d} {ys} {zs} m n = record {
  world_at =
      n.world_at
      ∙ ap (λ w. w ++ calls (callback_of d) zs) m.world_at
      ∙ append_assoc c.world (calls (callback_of c) ys) (calls (callback_of d) zs)
      ∙ ap (λ l. c.world ++ (calls (callback_of c) ys ++ l))
          (calls_kept (callback_of c) (callback_of d) zs m.callbacks)
      ∙ ap (λ l. c.world ++ l) (sym (calls-append (callback_of c) ys zs));
  callbacks = λ y. n.callbacks y ∙ m.callbacks y;
}

same_world : (trg : Trigger) (c : Core) (x : ℕ) → (fill_trigger trg c x).world ≡ c.world
unfolding fill_trigger put_task
same_world trg c x = elim trg as (λ k. (fill_trigger k c x).world ≡ c.world) [
  | no_trigger ↦ refl
  | by_time_elapsed ↦ refl
  | by_notification_queued ↦ refl
  | by_notification_simple ↦ refl
  | by_queue_receiver ↦ refl
  | by_queue_full ↦ refl
  | by_queue_count ↦ refl
  | by_queue_empty ↦ refl
  | by_event_flags ↦ refl
  | by_scheduling_release ↦ refl
  | by_no_ready_tasks ↦ refl
]

pub unnoted :
    (c d : Core)
    → d.world ≡ c.world
    → ((y : ℕ) → (d.tasks y).callback ≡ (c.tasks y).callback)
    → Noted c d []
unfolding calls
unnoted c d e k = record { world_at = e ∙ sym (append-nil c.world); callbacks = k }

fill_trigger-Noted : (trg : Trigger) (c : Core) (x : ℕ) → Noted c (fill_trigger trg c x) []
unfolding fill_trigger put_task
fill_trigger-Noted trg c x =
    unnoted c (fill_trigger trg c x) (same_world trg c x) (λ y. ground arith)

pub fill_event_info-Noted : (c : Core) (x : ℕ) → Noted c (fill_event_info c x) []
unfolding fill_event_info
fill_event_info-Noted c x =
    let n = fill_trigger-Noted (c.tasks x).trigger c x in
    record { world_at = n.world_at; callbacks = n.callbacks }

pub finish-Noted : (c : Core) (p x : ℕ) → Noted c (finish c p x) []
unfolding finish put_task
finish-Noted c p x = unnoted c (finish c p x) refl (λ y. ground arith)
