-- ===== src/Fsm/Publishing.antt =====
-- What a published signal does to the subscribers.
use quark_ts_cpp.Prelude.{
  ℕ, zero, suc, ◌+◌, ◌<◌, ◌≡◌, ◌≢◌, ◌⊎◌, refl, sym, ap, subst, ◌∙◌, inl, inr, Bool, true, false,
  not, ◌&&◌, ◌||◌, List, [], ◌∷◌, ◌==◌, ltb, if◌then◌else◌, arith, Bool-cases,
}
use quark_ts_cpp.DList.Links.{◌∉◌, Distinct}
use quark_ts_cpp.Fsm.{StateMachine, signal_none}
use quark_ts_cpp.Fsm.Signals
use quark_ts_cpp.Fsm.Paths.{on}
use quark_ts_cpp.Fsm.Publisher.{Publisher, find_signal, send_to_row, send_signal, max_sig, max_sub}

-- The `n` slots of a row from `j` on hold the machines `xs`, then a null pointer unless they are full.
abbrev pub RowHolds : (ℕ → ℕ) → ℕ → ℕ → List ℕ → Type 0
RowHolds row j n [] = (n ≡ 0) ⊎ (row j ≡ 0)
RowHolds row j zero (x ∷ xs) = ⊥
RowHolds row j (suc n) (x ∷ xs) = (row j ≡ x) × (x ≢ 0) × RowHolds row (j + 1) n xs

-- Each of the machines takes the signal.
pub all_take : List ℕ → (ℕ → StateMachine) → ℕ → ℕ → Bool → Bool
all_take [] machines sig s_data is_urgent = true
all_take (x ∷ xs) machines sig s_data is_urgent =
    (Signals.send_signal (machines x) sig s_data is_urgent).1
    && all_take xs machines sig s_data is_urgent

and_assoc : (a b c : Bool) → ((a && b) && c) ≡ (a && (b && c))
and_assoc true b c = refl
and_assoc false b c = refl

off_list : (x : ℕ) (xs : List ℕ) → x ∉ xs → on xs x ≡ false
off_list x [] h = refl
off_list x (y ∷ ys) h = ground (arith, h.0, off_list x ys h.1)

module _ (row : ℕ → ℕ) (sig s_data : ℕ) (is_urgent : Bool) where
  abbrev sent : (ℕ → StateMachine) → ℕ → StateMachine
  sent machines a = (Signals.send_signal (machines a) sig s_data is_urgent).0

  abbrev after_one : (ℕ → StateMachine) → ℕ → ℕ → StateMachine
  after_one machines x a = if a == x then sent machines x else machines a

  one_sent :
      (j n x : ℕ) (machines : ℕ → StateMachine) (r : Bool)
      → row j ≡ x
      → x ≢ 0
      → send_to_row row sig s_data is_urgent j (suc n) machines r
        ≡ send_to_row row sig s_data is_urgent
            (j + 1)
            n
            (after_one machines x)
            (r && (Signals.send_signal (machines x) sig s_data is_urgent).1)
  unfolding send_to_row
  one_sent j n x machines r e h =
      subst
        (λ y.
          send_to_row row sig s_data is_urgent j (suc n) machines r
          ≡ send_to_row row sig s_data is_urgent (j + 1) n (after_one machines y)
              (r && (Signals.send_signal (machines y) sig s_data is_urgent).1))
        e
        (ap
          (λ b.
            if b
            then (machines, r)
            else send_to_row row sig s_data is_urgent (j + 1) n (after_one machines (row j))
                (r && (Signals.send_signal (machines (row j)) sig s_data is_urgent).1))
          real)
    where
      real : (row j == 0) ≡ false
      real = ground (arith, e, h)

  send_to_row_lem :
      (j n : ℕ) (xs : List ℕ) (machines : ℕ → StateMachine) (r : Bool) (a : ℕ)
      → RowHolds row j n xs
      → Distinct xs
      → (send_to_row row sig s_data is_urgent j n machines r).0 a
        ≡ (if on xs a then sent machines a else machines a)
  unfolding send_to_row
  send_to_row_lem j zero [] machines r a h d = refl
  send_to_row_lem j (suc n) [] machines r a (inl z) d = absurd (omega arith)
  send_to_row_lem j (suc n) [] machines r a (inr z) d = rw z refl
  send_to_row_lem j zero (x ∷ xs) machines r a h d = absurd h
  send_to_row_lem j (suc n) (x ∷ xs) machines r a h d =
      ap (λ (q : (ℕ → StateMachine) × Bool). q.0 a) (one_sent j n x machines r h.0 h.1)
      ∙ send_to_row_lem (j + 1) n xs (after_one machines x) _ a h.2 d.1
      ∙ elim (Bool-cases (a == x)) [
        | inl e ↦
            (let f : a ≡ x = ground (arith, e) in
              ap (λ b. if b then sent (after_one machines x) a else after_one machines x a)
                (ap (on xs) f ∙ off_list x xs d.0)
              ∙ ap (λ b. if b then sent machines x else machines a) e
              ∙ ap (sent machines) (sym f)
              ∙ ap (λ b. if b || on xs a then sent machines a else machines a) (sym e))
        | inr e ↦
            (ap
                (λ b.
                  let y = if b then sent machines x else machines a in
                  if on xs a then (Signals.send_signal y sig s_data is_urgent).0 else y)
                e
              ∙ ap (λ b. if b || on xs a then sent machines a else machines a) (sym e))
      ]

  all_take_off :
      (x : ℕ) (xs : List ℕ) (machines : ℕ → StateMachine)
      → x ∉ xs
      → all_take xs (after_one machines x) sig s_data is_urgent
        ≡ all_take xs machines sig s_data is_urgent
  unfolding all_take
  all_take_off x [] machines h = refl
  all_take_off x (y ∷ ys) machines h =
      let other : (y == x) ≡ false = ground (arith, h.0) in
      ap
        (λ b.
          let m = if b then sent machines x else machines y in
          (Signals.send_signal m sig s_data is_urgent).1
          && all_take ys (after_one machines x) sig s_data is_urgent)
        other
      ∙ ap (λ b. (Signals.send_signal (machines y) sig s_data is_urgent).1 && b)
          (all_take_off x ys machines h.1)

  -- All of them take the signal, and all before did.
  send_to_row_takes :
      (j n : ℕ) (xs : List ℕ) (machines : ℕ → StateMachine) (r : Bool)
      → RowHolds row j n xs
      → Distinct xs
      → (send_to_row row sig s_data is_urgent j n machines r).1
        ≡ (r && all_take xs machines sig s_data is_urgent)
  unfolding send_to_row all_take
  send_to_row_takes j zero [] machines r h d = ground arith
  send_to_row_takes j (suc n) [] machines r (inl z) d = absurd (omega arith)
  send_to_row_takes j (suc n) [] machines r (inr z) d = rw z (ground arith)
  send_to_row_takes j zero (x ∷ xs) machines r h d = absurd h
  send_to_row_takes j (suc n) (x ∷ xs) machines r h d =
      let ok = (Signals.send_signal (machines x) sig s_data is_urgent).1 in
      ap (λ (q : (ℕ → StateMachine) × Bool). q.1) (one_sent j n x machines r h.0 h.1)
      ∙ send_to_row_takes (j + 1) n xs (after_one machines x) (r && ok) h.2 d.1
      ∙ ap (λ b. (r && ok) && b) (all_take_off x xs machines d.0)
      ∙ and_assoc r ok (all_take xs machines sig s_data is_urgent)

published :
    (p : Publisher) (sig s_data : ℕ) (is_urgent : Bool) (machines : ℕ → StateMachine) (i : ℕ)
    → sig < signal_none
    → find_signal p.ps_signals sig 0 max_sig ≡ i
    → i < max_sig
    → p.ps_signals i ≡ sig
    → send_signal p sig s_data is_urgent machines
      ≡ send_to_row (p.ps_subs i) sig s_data is_urgent 0 max_sub machines true
unfolding send_signal
published p sig s_data is_urgent machines i l e small at =
    subst
      (λ k.
        (if ltb sig signal_none && ltb k max_sig && not (p.ps_signals k == signal_none)
          then send_to_row (p.ps_subs k) sig s_data is_urgent 0 max_sub machines true
          else (machines, false))
        ≡ send_to_row (p.ps_subs i) sig s_data is_urgent 0 max_sub machines true)
      (sym e)
      (ap
        (λ b.
          if b
          then send_to_row (p.ps_subs i) sig s_data is_urgent 0 max_sub machines true
          else (machines, false))
        test)
  where
    test : (ltb sig signal_none && ltb i max_sig && not (p.ps_signals i == signal_none)) ≡ true
    test = ground (arith, l, small, at)

-- Publishing a signal that has subscribers sends it to each of them and to no other machine, and tells
-- whether all took it. The subscribers are different machines, in the first slots of the row.
pub send_signal_delivers :
    (p : Publisher) (sig s_data : ℕ) (is_urgent : Bool) (machines : ℕ → StateMachine) (i : ℕ)
    (xs : List ℕ)
    → sig < signal_none
    → find_signal p.ps_signals sig 0 max_sig ≡ i
    → i < max_sig
    → p.ps_signals i ≡ sig
    → RowHolds (p.ps_subs i) 0 max_sub xs
    → Distinct xs
    → let (machines', ok) = send_signal p sig s_data is_urgent machines in
      ((a : ℕ)
        → machines' a ≡ (
            if on xs a
            then (Signals.send_signal (machines a) sig s_data is_urgent).0
            else machines a))
      × (ok ≡ all_take xs machines sig s_data is_urgent)
send_signal_delivers p sig s_data is_urgent machines i xs l e small at h d =
    let f = published p sig s_data is_urgent machines i l e small at in
    (
      λ a.
          ap (λ (q : (ℕ → StateMachine) × Bool). q.0 a) f
          ∙ send_to_row_lem (p.ps_subs i) sig s_data is_urgent 0 max_sub xs machines true a h d,
      ap (λ (q : (ℕ → StateMachine) × Bool). q.1) f
          ∙ send_to_row_takes (p.ps_subs i) sig s_data is_urgent 0 max_sub xs machines true h d,
    )
