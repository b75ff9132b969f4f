-- ===== src/PrioQueue/Order.antt =====
-- `insert` and `get` on a stack that holds queued notifications.
use mathlib.Core.List.{append_assoc}
use quark_ts_cpp.Prelude.{
  ℕ, zero, suc, ◌+◌, ◌≤◌, ◌<◌, ◌≡◌, ◌≢◌, refl, sym, ap, subst, ◌∙◌, inl, inr, true, false, List, [],
  ◌∷◌, ◌++◌, arith, ltb, length, All, All-append, All-split, last_or, last_or-append,
  get_or-append_here, set-append_here, length-append,
}
use quark_ts_cpp.Prelude.Int.{pos, pred_ℤ, suc_ℤ, ltb_ℤ}
use quark_ts_cpp.PrioQueue.{
  Entry, null_entry, PrioQueue, extract_at, get, insert, init, clear_tasks, scan,
}
use quark_ts_cpp.PrioQueue.Stack.{Echoes, Holds, level, Chosen, scan-Chosen, clear_index_lem}

-- The places behind the notifications hold no task, as in a stack that was never taken from.
abbrev pub IsClear : List Entry → Type 0
IsClear = All (λ e. e.p_task ≡ 0)

abbrev pub entry : ℕ → ℕ → Entry
entry task p_data = record { p_task = task; q_data = p_data }

-- A stack that holds `live`, oldest first, and is clear behind it.
pub record Fresh (q : PrioQueue) (live : List Entry) : Type 0 where
  pub rest : List Entry
  pub shape : q.stack ≡ live ++ rest
  pub index_at : q.index ≡ pred_ℤ (pos (length live))
  pub real : All (λ e. e.p_task ≢ 0) live
  pub clear : IsClear rest

pub Fresh-Holds : {q : PrioQueue} {live : List Entry} → Fresh q live → Holds q live
Fresh-Holds {live} f = record {
  rest = f.rest;
  shape = f.shape;
  index_at = f.index_at;
  real = f.real;
  stale = echo f.rest f.clear;
}
  where
    echo : (es : List Entry) → IsClear es → Echoes (last_or null_entry live) es
    echo [] c = tt
    echo (e ∷ es) c = inl c.0

pub clear_tasks-IsClear : (area : List Entry) → IsClear (clear_tasks area)
unfolding clear_tasks
clear_tasks-IsClear [] = tt
clear_tasks-IsClear (e ∷ es) = (refl, clear_tasks-IsClear es)

-- The constructor leaves a stack with no notifications, whatever the area held.
pub init-Fresh : (area : List Entry) → Fresh (init area) []
unfolding init
init-Fresh area = record {
  rest = clear_tasks area;
  shape = refl;
  index_at = refl;
  real = tt;
  clear = clear_tasks-IsClear area;
}

suc-pred : (n : ℕ) → suc_ℤ (pred_ℤ (pos n)) ≡ pos n
suc-pred zero = refl
suc-pred (suc n) = refl

-- The test of `insert` compares the number of notifications with the size.
room : (n size : ℕ) → ltb_ℤ (pred_ℤ (pos n)) (pred_ℤ (pos size)) ≡ ltb n size
room zero zero = refl
room zero (suc size) = ground arith
room (suc n) zero = ground arith
room (suc n) (suc size) = ground arith

pub insert_eq :
    (q : PrioQueue) (live rest : List Entry) (r : Entry) (task p_data : ℕ)
    → q.stack ≡ live ++ r ∷ rest
    → q.index ≡ pred_ℤ (pos (length live))
    → insert q task p_data
      ≡ (record q { index = pos (length live); stack = live ++ entry task p_data ∷ rest }, true)
unfolding insert
insert_eq q live rest r task p_data e f = ground (
  arith,
  e,
  f,
  suc-pred (length live),
  room (length live) (length q.stack),
  ap length e,
  length-append live (r ∷ rest),
  set-append_here live r (entry task p_data) rest,
)

-- `insert` on a stack with a place left puts the notification behind the others.
pub insert-Fresh :
    {q : PrioQueue} {live : List Entry} (task p_data : ℕ)
    → Fresh q live
    → task ≢ 0
    → length live < length q.stack
    → ((insert q task p_data).1 ≡ true)
      × Fresh (insert q task p_data).0 (live ++ entry task p_data ∷ [])
insert-Fresh {q} {live} task p_data f t r = go f.rest f.shape f.clear
  where
    go :
        (rest : List Entry)
        → q.stack ≡ live ++ rest
        → IsClear rest
        → ((insert q task p_data).1 ≡ true)
          × Fresh (insert q task p_data).0 (live ++ entry task p_data ∷ [])
    go [] e c = absurd (omega (arith, ap length e, length-append live []))
    go (x ∷ rest) e c = rw (insert_eq q live rest x task p_data e f.index_at) (
      refl,
      record {
        rest = rest;
        shape = sym (append_assoc live (entry task p_data ∷ []) rest);
        index_at =
            ap (λ k. pred_ℤ (pos k)) {x = suc (length live)}
              {y = length (live ++ entry task p_data ∷ [])}
              (omega (arith, length-append live (entry task p_data ∷ [])));
        real = All-append _ live (entry task p_data ∷ []) f.real (t, tt);
        clear = c.1;
      },
    )

-- `insert` on a full stack fails and changes nothing.
pub insert_full :
    {q : PrioQueue} {live : List Entry} (task p_data : ℕ)
    → Holds q live
    → length live ≡ length q.stack
    → insert q task p_data ≡ (q, false)
unfolding insert
insert_full {q} {live} task p_data h e =
    ground (arith, room (length live) (length q.stack), h.index_at)

module _ (priority : ℕ → ℕ) where
  -- What `get` did: it gave the task and data of the first notification of the highest priority,
  -- and left the others in their order.
  pub record Got (q : PrioQueue) (live : List Entry) (out : PrioQueue × ℕ) : Type 0 where
    pub before : List Entry
    pub chosen : Entry
    pub after : List Entry
    pub split : live ≡ before ++ chosen ∷ after
    pub above_before : All (λ e. level priority e < level priority chosen) before
    pub above_after : All (λ e. level priority e ≤ level priority chosen) after
    pub task_out : out.1 ≡ chosen.p_task
    pub data_out : out.0.q_data ≡ chosen.q_data
    pub left : Holds out.0 (before ++ after)

  pub get_eq :
      (q : PrioQueue) (pre : List Entry) (x : Entry) (post rest : List Entry)
      → q.stack ≡ pre ++ x ∷ (post ++ rest)
      → q.index ≡ pos (length pre + length post)
      → extract_at priority q.stack ≡ length pre
      → get priority q ≡ (
        record {
          index = pred_ℤ (pos (length pre + length post));
          q_data = x.q_data;
          stack = pre ++ (post ++ last_or (record x { p_task = 0 }) post ∷ rest);
        },
        x.p_task,
      )
  unfolding get
  get_eq q pre x post rest e f k = ground (
    arith,
    e,
    f,
    k,
    get_or-append_here pre x null_entry (post ++ rest),
    clear_index_lem (record q { q_data = x.q_data }) pre x post rest e f,
  )

  left_Echoes :
      (pre : List Entry) (x : Entry) (post rest : List Entry)
      → Echoes (last_or null_entry (pre ++ x ∷ post)) rest
      → Echoes (last_or null_entry (pre ++ post)) (last_or (record x { p_task = 0 }) post ∷ rest)
  left_Echoes pre x [] rest s = inl refl
  left_Echoes pre x (y ∷ post) rest s =
      subst (λ z. Echoes z (last_or y post ∷ rest)) (sym (last_or-append null_entry y pre post))
        (inr (refl, subst (λ z. Echoes z rest) (last_or-append null_entry x pre (y ∷ post)) s))

  -- `get` on a stack that holds a notification or more gives the task and data of the first one of the
  -- highest priority, and leaves the others in their order.
  pub get-Got :
      {q : PrioQueue} {e : Entry} {live : List Entry}
      → Holds q (e ∷ live)
      → Got q (e ∷ live) (get priority q)
  get-Got {q} {e} {live} h =
      rw (get_eq q c.before c.chosen c.after h.rest shape index place) (record {
        before = c.before;
        chosen = c.chosen;
        after = c.after;
        split = c.split;
        above_before = c.above_before;
        above_after = c.above_after;
        task_out = refl;
        data_out = refl;
        left = record {
          rest = last_or (record c.chosen { p_task = 0 }) c.after ∷ h.rest;
          shape = sym (append_assoc c.before c.after _);
          index_at = ap (λ n. pred_ℤ (pos n)) (sym (length-append c.before c.after));
          real =
              let (l, r) =
                All-split _ c.before (c.chosen ∷ c.after) (subst (All _) c.split h.real) in
              All-append _ c.before c.after l r.1;
          stale =
              left_Echoes c.before c.chosen c.after h.rest
                (subst (λ t. Echoes (last_or null_entry t) h.rest) c.split h.stale);
        };
      })
    where
      c : Chosen priority (e ∷ live) (scan priority (live ++ h.rest) 1 (level priority e) 0)
      c = scan-Chosen priority [] e [] live h.rest tt tt h.real.1 h.stale

      shape : q.stack ≡ c.before ++ c.chosen ∷ (c.after ++ h.rest)
      shape =
          (h.shape ∙ ap (λ t. t ++ h.rest) c.split)
          ∙ append_assoc c.before (c.chosen ∷ c.after) h.rest

      count : length live ≡ length c.before + length c.after
      count = omega (arith, ap length c.split, length-append c.before (c.chosen ∷ c.after))

      index : q.index ≡ pos (length c.before + length c.after)
      index = h.index_at ∙ ap pos count

      place : extract_at priority q.stack ≡ length c.before
      place = ap (extract_at priority) h.shape ∙ unfold extract_at in c.place

  -- `get` on an empty stack gives no task and changes nothing.
  pub get_empty : {q : PrioQueue} → Holds q [] → get priority q ≡ (q, 0)
  unfolding get
  get_empty h = ground (arith, h.index_at)
