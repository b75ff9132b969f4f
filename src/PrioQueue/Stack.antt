-- ===== src/PrioQueue/Stack.antt =====
-- What the stack holds: the queued notifications, oldest first, and behind them what the shifts of
-- `clearIndex` left; and what `get` picks.
use mathlib.Core.List.{append_assoc, append-nil}
use quark_ts_cpp.Prelude.{
  ℕ, ◌+◌, ◌≤◌, ◌<◌, ◌≡◌, ◌≢◌, refl, sym, ap, ap₂, subst₂, length-snoc, ◌∙◌, ◌⊎◌, inl, inr, true,
  false, List, [], ◌∷◌, ◌++◌, arith, ◌==◌, ltb, length, set, All, All-append, All-map, last_or,
  last_or-append, get_or-append_here, set-append_here, length-append, Bool-cases, ltb→lt,
}
use quark_ts_cpp.Prelude.Int.{pos, pred_ℤ}
use quark_ts_cpp.PrioQueue.{Entry, null_entry, PrioQueue, at, shift_down, clear_index, scan}

-- Up to the first null entry, each is a copy of `z`.
abbrev pub Echoes : Entry → List Entry → Type 0
Echoes z [] = Unit
Echoes z (e ∷ es) = (e.p_task ≡ 0) ⊎ ((e ≡ z) × Echoes z es)

pub record Holds (q : PrioQueue) (live : List Entry) : Type 0 where
  pub rest : List Entry
  pub shape : q.stack ≡ live ++ rest
  pub index_at : q.index ≡ pred_ℤ (pos (length live))
  pub real : All (λ e. e.p_task ≢ 0) live
  pub stale : Echoes (last_or null_entry live) rest

at-append_next :
    (xs : List Entry) (y z : Entry) (ys : List Entry) → at (xs ++ y ∷ (z ∷ ys)) (length xs + 1) ≡ z
at-append_next xs y z ys =
    ap₂ at (sym (append_assoc xs (y ∷ []) (z ∷ ys))) (sym (length-snoc xs y))
    ∙ get_or-append_here (xs ++ y ∷ []) z null_entry ys

-- Shifting over the entries behind `e` drops it and leaves the last one twice.
shift_down_lem :
    (pre : List Entry) (e : Entry) (post rest : List Entry)
    → shift_down (pre ++ e ∷ (post ++ rest)) (length pre) (length post)
      ≡ pre ++ (post ++ last_or e post ∷ rest)
unfolding shift_down
shift_down_lem pre e [] rest = refl
shift_down_lem pre e (y ∷ post) rest =
    ap₂ (λ s k. shift_down s k (length post)) (step) (sym (length-snoc pre y))
    ∙ shift_down_lem (pre ++ y ∷ []) y post rest
    ∙ append_assoc pre (y ∷ []) (post ++ last_or y post ∷ rest)
  where
    whole : List Entry
    whole = pre ++ e ∷ (y ∷ (post ++ rest))

    step :
        set whole (length pre) (at whole (length pre + 1)) ≡ (pre ++ y ∷ []) ++ y ∷ (post ++ rest)
    step =
        rw (at-append_next pre e y (post ++ rest), append_assoc pre (y ∷ []) (y ∷ (post ++ rest)))
          (set-append_here pre e y (y ∷ (post ++ rest)))

-- The entry at index `length pre` goes, the ones behind it move down, and the last stays behind.
pub clear_index_lem :
    (q : PrioQueue) (pre : List Entry) (x : Entry) (post rest : List Entry)
    → q.stack ≡ pre ++ x ∷ (post ++ rest)
    → q.index ≡ pos (length pre + length post)
    → clear_index q (length pre) ≡ record q {
      stack = pre ++ (post ++ last_or (record x { p_task = 0 }) post ∷ rest);
      index = pred_ℤ (pos (length pre + length post));
    }
unfolding clear_index
clear_index_lem q pre x post rest e f = ground (
  arith,
  e,
  f,
  get_or-append_here pre x null_entry (post ++ rest),
  set-append_here pre x (record x { p_task = 0 }) (post ++ rest),
  shift_down_lem pre (record x { p_task = 0 }) post rest,
)

module _ (priority : ℕ → ℕ) where
  abbrev pub level : Entry → ℕ
  level e = priority e.p_task

  -- The entry at `k` is the first of those with the highest priority.
  pub record Chosen (all : List Entry) (k : ℕ) : Type 0 where
    pub before : List Entry
    pub chosen : Entry
    pub after : List Entry
    pub split : all ≡ before ++ chosen ∷ after
    pub place : k ≡ length before
    pub above_before : All (λ e. level e < level chosen) before
    pub above_after : All (λ e. level e ≤ level chosen) after

  scan-Echoes :
      (z : Entry) (es : List Entry) (i m found : ℕ)
      → Echoes z es
      → level z ≤ m
      → scan priority es i m found ≡ found
  unfolding scan
  scan-Echoes z [] i m found s h = refl
  scan-Echoes z (e ∷ es) i m found (inl n) h = ground arith
  scan-Echoes z (e ∷ es) i m found (inr (same, s)) h =
      ground (arith, scan-Echoes z es (i + 1) m found s h, ap level same)

  last-le :
      (m : ℕ) (x : Entry) (mid : List Entry)
      → level x ≤ m
      → All (λ e. level e ≤ m) mid
      → level (last_or x mid) ≤ m
  last-le m x [] h b = h
  last-le m x (y ∷ mid) h b = last-le m y mid b.0 b.1

  pub scan-Chosen :
      (pre : List Entry) (x : Entry) (mid es rest : List Entry)
      → All (λ e. level e < level x) pre
      → All (λ e. level e ≤ level x) mid
      → All (λ e. e.p_task ≢ 0) es
      → Echoes (last_or x (mid ++ es)) rest
      → Chosen
          (pre ++ x ∷ (mid ++ es))
          (scan priority (es ++ rest) (length pre + 1 + length mid) (level x) (length pre))
  unfolding scan
  scan-Chosen pre x mid [] rest a b r s = record {
    before = pre;
    chosen = x;
    after = mid;
    split = rw append-nil;
    place =
        scan-Echoes (last_or x mid) rest _ (level x) (length pre) (rw (append-nil mid) at s)
          (last-le (level x) x mid (omega arith) b);
    above_before = a;
    above_after = b;
  }
  scan-Chosen pre x mid (e ∷ es) rest a b r s = elim (Bool-cases (ltb (level x) (level e))) [
    | inl higher ↦
        rw (real, higher)
          (subst₂ Chosen (append_assoc pre (x ∷ mid) (e ∷ es)) (next_found higher)
            (scan-Chosen (pre ++ x ∷ mid) e [] es rest (passed higher) tt r.1 echo))
    | inr lower ↦
        rw (real, lower)
          (subst₂ Chosen (ap (λ t. pre ++ x ∷ t) (append_assoc mid (e ∷ []) es)) next_kept (
            scan-Chosen pre x (mid ++ e ∷ []) es rest a
              (All-append _ mid (e ∷ []) b (ground arith, tt)) r.1
              (rw (append_assoc mid (e ∷ []) es) s)))
  ]
    where
      real : (e.p_task == 0) ≡ false
      real = ground (arith, r.0)

      echo : Echoes (last_or e es) rest
      echo = rw (last_or-append x e mid es) at s

      passed : ltb (level x) (level e) ≡ true → All (λ y. level y < level e) (pre ++ x ∷ mid)
      passed h =
          All-append _ pre (x ∷ mid) (All-map _ _ pre (λ y p. ground arith) a)
            (ltb→lt _ _ h, All-map _ _ mid (λ y p. ground arith) b)

      next_found :
          ltb (level x) (level e) ≡ true
          → scan priority
              (es ++ rest)
              (length (pre ++ x ∷ mid) + 1 + 0)
              (level e)
              (length (pre ++ x ∷ mid))
            ≡ scan priority
                (es ++ rest)
                (length pre + 1 + length mid + 1)
                (level e)
                (length pre + 1 + length mid)
      next_found h =
          ap₂ (λ i f. scan priority (es ++ rest) i (level e) f)
            (omega (arith, length-append pre (x ∷ mid)))
            (omega (arith, length-append pre (x ∷ mid)))

      next_kept :
          scan priority
            (es ++ rest)
            (length pre + 1 + length (mid ++ e ∷ []))
            (level x)
            (length pre)
          ≡ scan priority (es ++ rest) (length pre + 1 + length mid + 1) (level x) (length pre)
      next_kept =
          ap (λ i. scan priority (es ++ rest) i (level x) (length pre))
            (omega (arith, length-append mid (e ∷ [])))
