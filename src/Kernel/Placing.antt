-- ===== src/Kernel/Placing.antt =====
-- Where `checkIfReady` puts a waiting task.
use quark_ts_cpp.Prelude.{
  ℕ, ◌≡◌, ◌≢◌, refl, Bool, true, false, not, ◌&&◌, ◌||◌, List, [], ◌∷◌, ◌++◌, ◌==◌, if◌then◌else◌,
  arith, Bool-cases, inl, inr,
}
use quark_ts_cpp.Task.{Task, bit_remove_request, get_flag}
use quark_ts_cpp.Kernel.{Core, put_task}
use quark_ts_cpp.Kernel.Lists.{member, insert_back, without_front}
use quark_ts_cpp.Kernel.Schedule.{judge, is_none, settle, leave, place, put_ready}

unfoldable pub filter : (ℕ → Bool) → List ℕ → List ℕ
filter p [] = []
filter p (x ∷ xs) = if p x then x ∷ filter p xs else filter p xs

unfoldable pub any : (ℕ → Bool) → List ℕ → Bool
any p [] = false
any p (x ∷ xs) = p x || any p xs

-- What the check finds of a task: whether it is ready, leaves, is put to sleep, or is put into the list
-- of a priority.
module _ (c : Core) where
  abbrev pub judged : ℕ → Task × Bool
  judged x = judge (c.tasks x) c.queues c.now

  abbrev pub is_ready : ℕ → Bool
  is_ready x = (judged x).1

  abbrev pub leaves : ℕ → Bool
  leaves x = get_flag (judged x).0 bit_remove_request

  abbrev pub sleeps : ℕ → Bool
  sleeps x = not (leaves x) && is_none (judged x).0.trigger

  abbrev pub readies : ℕ → ℕ → Bool
  readies p x =
      not (leaves x) && (not (is_none (judged x).0.trigger) && ((judged x).0.priority == p))

abbrev pub appended : Bool → List ℕ → ℕ → List ℕ
appended b xs x = if b then xs ++ x ∷ [] else xs

-- What is known of the state after a round for the task `x`, which stays when `sleep` or `p` says so.
pub record Settled (c : Core) (x : ℕ) (sleep : Bool) (ready : ℕ → Bool) (c1 : Core) : Type 0 where
  pub waiting_at : c1.waiting ≡ without_front c.waiting
  pub suspended_at : c1.suspended ≡ appended sleep c.suspended x
  pub ready_at : (p : ℕ) → c1.ready p ≡ appended (ready p) (c.ready p) x
  pub others : (y : ℕ) → y ≢ x → c1.tasks y ≡ c.tasks y
  pub queues_at : c1.queues ≡ c.queues
  pub now_at : c1.now ≡ c.now
  pub mode_at : c1.spreader_mode ≡ c.spreader_mode

-- In no list but the waiting one.
abbrev pub IsFree : Core → ℕ → Type 0
IsFree c x = (x ≢ 0) × (member c.suspended x ≡ false) × ((p : ℕ) → member (c.ready p) x ≡ false)

pub insert_back_eq :
    (xs : List ℕ) (x : ℕ) → x ≢ 0 → member xs x ≡ false → (insert_back xs x).0 ≡ xs ++ x ∷ []
unfolding insert_back
insert_back_eq xs x r m = ground (arith, r, m)

module _ (c : Core) (x : ℕ) (t : Task) where
  abbrev checked : Core
  checked = record (put_task c x t) { waiting = without_front c.waiting }

  others_checked : (y : ℕ) → y ≢ x → checked.tasks y ≡ c.tasks y
  unfolding put_task
  others_checked y ne = ground (arith, ne)

  own : checked.tasks x ≡ t
  unfolding put_task
  own = ground arith

  leave-Settled : Settled c x false (λ p. false) (leave checked x)
  unfolding leave put_task
  leave-Settled = record {
    waiting_at = refl;
    suspended_at = refl;
    ready_at = λ p. refl;
    others = λ y ne. ground (arith, ne);
    queues_at = refl;
    now_at = refl;
    mode_at = refl;
  }

  asleep-Settled :
      IsFree c x
      → Settled c x true (λ p. false) (record checked { suspended = (insert_back c.suspended x).0 })
  unfolding put_task
  asleep-Settled f = record {
    waiting_at = refl;
    suspended_at = insert_back_eq c.suspended x f.0 f.1;
    ready_at = λ p. refl;
    others = others_checked;
    queues_at = refl;
    now_at = refl;
    mode_at = refl;
  }

  ready-Settled : (r : ℕ) → IsFree c x → Settled c x false (λ p. r == p) (put_ready checked r x)
  unfolding put_ready put_task
  ready-Settled r f = record {
    waiting_at = refl;
    suspended_at = refl;
    ready_at = λ p. ground (arith, insert_back_eq (c.ready r) x f.0 (f.2 r));
    others = others_checked;
    queues_at = refl;
    now_at = refl;
    mode_at = refl;
  }

place_eq :
    (c : Core) (x : ℕ) (t : Task)
    → c.tasks x ≡ t
    → place c x ≡ (
        if is_none t.trigger
        then record c { suspended = (insert_back c.suspended x).0 }
        else put_ready c t.priority x)
unfolding place
place_eq c x t e = rw e refl

place-Settled :
    (c : Core) (x : ℕ) (t : Task) (b : Bool)
    → is_none t.trigger ≡ b
    → IsFree c x
    → Settled c x b (λ p. not b && (t.priority == p)) (place (checked c x t) x)
unfolding put_task
place-Settled c x t true e f =
    rw (place_eq (checked c x t) x t (own c x t), e) (asleep-Settled c x t f)
place-Settled c x t false e f =
    rw (place_eq (checked c x t) x t (own c x t), e) (ready-Settled c x t t.priority f)

pub settle_ready : (c : Core) (x : ℕ) → (settle c x).1 ≡ is_ready c x
unfolding settle
settle_ready c x = refl

pub settle-Settled :
    (c : Core) (x : ℕ) → IsFree c x → Settled c x (sleeps c x) (λ p. readies c p x) (settle c x).0
unfolding settle
settle-Settled c x f = elim (Bool-cases (leaves c x)) [
  | inl e ↦ rw e (leave-Settled c x (judged c x).0)
  | inr e ↦ rw e (place-Settled c x (judged c x).0 (is_none (judged c x).0.trigger) refl f)
]
