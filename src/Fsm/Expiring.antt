-- ===== src/Fsm/Expiring.antt =====
-- The timers of a machine when they expire.
use quark_ts_cpp.Prelude.{
  ℕ, zero, suc, ◌+◌, ◌-◌, ◌≤◌, ◌<◌, ◌≡◌, ◌^◌, refl, sym, ap, ap₂, ◌∙◌, inl, inr, Bool, true, false,
  ◌&&◌, some, List, [], ◌∷◌, ◌==◌, leb, ltb, if◌then◌else◌, arith, Bool-cases,
}
use quark_ts_cpp.Prelude.Bits.{multiple_get}
use quark_ts_cpp.Timer.{Timer, expired, reload, disarm}
use quark_ts_cpp.Fsm.{
  StateMachine, TimeoutSpec, TimeoutDefinition, User, max_timeouts, signal_timeout, tm_max,
}
use quark_ts_cpp.Fsm.Signals.{send_signal}
use quark_ts_cpp.Fsm.Timeouts.{
  put_timer, timeout_check, timeout_check_from, timeout_check_signals, perform_action,
  timeout_keep_if_set,
}

-- The timer `i` after its check.
pub checked : User → TimeoutSpec → ℕ → Timer
checked u ts i =
    let t = ts.timeout i in
    if expired t u.now
    then (if multiple_get ts.is_periodic (2 ^ i) then reload t u.now else disarm t)
    else t

-- The timers from `i` on that have expired.
pub expired_from : User → TimeoutSpec → ℕ → ℕ → List ℕ
expired_from u ts i zero = []
expired_from u ts i (suc n) =
    let rest = expired_from u ts (i + 1) n in
    if expired (ts.timeout i) u.now then i ∷ rest else rest

-- The signals of these timers sent, in this order.
pub send_each : StateMachine → List ℕ → StateMachine
send_each m [] = m
send_each m (i ∷ is) = send_each (send_signal m (signal_timeout i) 0 false).0 is

one_timer :
    (u : User) (m : StateMachine) (ts : TimeoutSpec) (i j : ℕ)
    → (timeout_check u (m, ts) i).1.timeout j ≡ (if j == i then checked u ts i else ts.timeout j)
unfolding timeout_check put_timer checked
one_timer u m ts i j = by_test (expired (ts.timeout i) u.now) _ (
    if multiple_get ts.is_periodic (2 ^ i)
    then reload (ts.timeout i) u.now
    else disarm (ts.timeout i))
  where
    alike : (b : Bool) → (j == i) ≡ b → ts.timeout j ≡ (if b then ts.timeout i else ts.timeout j)
    alike true e = let f : j ≡ i = ground (arith, e) in ap ts.timeout f
    alike false e = refl

    by_test :
        (b : Bool) (m' : StateMachine) (t : Timer)
        → (let r : StateMachine × TimeoutSpec = if b then (m', put_timer ts i t) else (m, ts) in
            r.1.timeout j)
          ≡ (if j == i then (if b then t else ts.timeout i) else ts.timeout j)
    by_test true m' t = refl
    by_test false m' t = alike (j == i) refl

one_periodic :
    (u : User) (m : StateMachine) (ts : TimeoutSpec) (i : ℕ)
    → (timeout_check u (m, ts) i).1.is_periodic ≡ ts.is_periodic
unfolding timeout_check put_timer
one_periodic u m ts i = ground arith

one_machine :
    (u : User) (m : StateMachine) (ts : TimeoutSpec) (i : ℕ)
    → (timeout_check u (m, ts) i).0
      ≡ (if expired (ts.timeout i) u.now then (send_signal m (signal_timeout i) 0 false).0 else m)
unfolding timeout_check
one_machine u m ts i = elim (Bool-cases (expired (ts.timeout i) u.now)) [
  | inl e ↦ rw e refl
  | inr e ↦ rw e refl
]

-- Below `i` the timers are those of `ts`, and the periodic ones are the same.
record Alike (ts ts' : TimeoutSpec) (i : ℕ) : Type 0 where
  above : (j : ℕ) → i ≤ j → ts'.timeout j ≡ ts.timeout j
  periodic : ts'.is_periodic ≡ ts.is_periodic

Alike-step :
    (u : User) (m : StateMachine) (ts ts' : TimeoutSpec) (i : ℕ)
    → Alike ts ts' i
    → Alike ts (timeout_check u (m, ts') i).1 (i + 1)
Alike-step u m ts ts' i a = record {
  above = λ j l.
      one_timer u m ts' i j
      ∙ ap (λ b. if b then checked u ts' i else ts'.timeout j) (later j l)
      ∙ a.above j (omega arith);
  periodic = one_periodic u m ts' i ∙ a.periodic;
}
  where
    later : (j : ℕ) → i + 1 ≤ j → (j == i) ≡ false
    later j l = ground arith

checked-Alike :
    (u : User) (ts ts' : TimeoutSpec) (i : ℕ) → Alike ts ts' i → checked u ts' i ≡ checked u ts i
unfolding checked
checked-Alike u ts ts' i a =
    ap₂
      (λ t p.
        if expired t u.now
        then (if multiple_get p (2 ^ i) then reload t u.now else disarm t)
        else t)
      (a.above i (omega arith)) a.periodic

timers_from :
    (u : User) (m : StateMachine) (ts ts' : TimeoutSpec) (i n : ℕ)
    → Alike ts ts' i
    → (j : ℕ)
    → (timeout_check_from u (m, ts') i n).1.timeout j
      ≡ (if leb i j && ltb j (i + n) then checked u ts j else ts'.timeout j)
unfolding timeout_check_from
timers_from u m ts ts' i zero a j = ap (λ b. if b then checked u ts j else ts'.timeout j) none_left
  where
    none_left : false ≡ (leb i j && ltb j (i + 0))
    none_left = ground arith
timers_from u m ts ts' i (suc n) a j =
    let r = timeout_check u (m, ts') i in
    timers_from u r.0 ts r.1 (i + 1) n (Alike-step u m ts ts' i a) j ∙ elim (Bool-cases (j == i)) [
      | inl e ↦
          (let f : j ≡ i = ground (arith, e) in
            let now_false : (leb (i + 1) j && ltb j (i + 1 + n)) ≡ false = ground (arith, e) in
            let now_true : true ≡ (leb i j && ltb j (i + suc n)) = ground (arith, e) in
            ap (λ b. if b then checked u ts j else r.1.timeout j) now_false
            ∙ one_timer u m ts' i j
            ∙ ap (λ b. if b then checked u ts' i else ts'.timeout j) e
            ∙ checked-Alike u ts ts' i a
            ∙ ap (checked u ts) (sym f)
            ∙ ap (λ b. if b then checked u ts j else ts'.timeout j) now_true)
      | inr e ↦
          (let same : (leb (i + 1) j && ltb j (i + 1 + n)) ≡ (leb i j && ltb j (i + suc n)) =
              ground (arith, e) in
            ap₂ (λ b t. if b then checked u ts j else t) same
              (one_timer u m ts' i j ∙ ap (λ b. if b then checked u ts' i else ts'.timeout j) e))
    ]

machine_from :
    (u : User) (m : StateMachine) (ts ts' : TimeoutSpec) (i n : ℕ)
    → Alike ts ts' i
    → (timeout_check_from u (m, ts') i n).0 ≡ send_each m (expired_from u ts i n)
unfolding timeout_check_from send_each expired_from
machine_from u m ts ts' i zero a = refl
machine_from u m ts ts' i (suc n) a =
    machine_from u (timeout_check u (m, ts') i).0 ts (timeout_check u (m, ts') i).1 (i + 1) n
      (Alike-step u m ts ts' i a)
    ∙ ap (λ y. send_each y (expired_from u ts (i + 1) n))
        (one_machine u m ts' i
          ∙ ap (λ t. if expired t u.now then (send_signal m (signal_timeout i) 0 false).0 else m)
              (a.above i (omega arith)))
    ∙ by_test (expired (ts.timeout i) u.now)
  where
    by_test :
        (b : Bool)
        → send_each
            (if b then (send_signal m (signal_timeout i) 0 false).0 else m)
            (expired_from u ts (i + 1) n)
          ≡ send_each m (if b then i ∷ expired_from u ts (i + 1) n else expired_from u ts (i + 1) n)
    by_test true = refl
    by_test false = refl

-- The check of the timers sends the signals of those that have expired, lowest index first; these timers
-- start again if they are periodic and are disarmed if not, and the others keep running.
pub timeout_check_signals_lem :
    (u : User) (m : StateMachine) (ts : TimeoutSpec)
    → (ts' : TimeoutSpec) × (timeout_check_signals u m ts
        ≡ record (send_each m (expired_from u ts 0 max_timeouts)) { time_spec = some ts' })
      × ((j : ℕ) → ts'.timeout j ≡ (if ltb j max_timeouts then checked u ts j else ts.timeout j))
unfolding timeout_check_signals
timeout_check_signals_lem u m ts =
    let start : Alike ts ts 0 = record { above = λ j l. refl; periodic = refl } in
    let ts' = (timeout_check_from u (m, ts) 0 max_timeouts).1 in
    (
      ts',
      ap (λ (y : StateMachine). record y { time_spec = some ts' })
          (machine_from u m ts ts 0 max_timeouts start),
      λ j.
          timers_from u m ts ts 0 max_timeouts start j
          ∙ ap (λ b. if b then checked u ts j else ts.timeout j) (ground arith),
    )

-- The named constants: `SIGNAL_TIMEOUT0` to `SIGNAL_TIMEOUT2`.
abbrev pub timeout_constant : ℕ → ℕ
timeout_constant k = tm_max - k

-- The signal that the timeout `i` sends is the constant named for the timeout at the other end of the
-- range: `SIGNAL_TIMEOUT( 0 )` is `SIGNAL_TIMEOUT2`.
pub signal_timeout-timeout_constant :
    (i : ℕ) → i < max_timeouts → signal_timeout i ≡ timeout_constant (max_timeouts - 1 - i)
unfolding signal_timeout
signal_timeout-timeout_constant i h = ground arith

-- An action with the option `TIMEOUT_KEEP_IF_SET` and no reset sets no timer, whether the timer is running
-- or not.
pub perform_action-keeps :
    (u : User) (set_check reset_check : ℕ) (ts : TimeoutSpec) (def : TimeoutDefinition) (j : ℕ)
    → multiple_get def.options timeout_keep_if_set ≡ true
    → multiple_get def.options reset_check ≡ false
    → (perform_action u set_check reset_check ts def).timeout j ≡ ts.timeout j
unfolding perform_action
perform_action-keeps u set_check reset_check ts def j k r = rw (k, r) (ground arith)
