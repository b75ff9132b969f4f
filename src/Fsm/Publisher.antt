-- ===== src/Fsm/Publisher.antt =====
-- src/fsm.cpp: `signalPublisher`, which sends a signal to the machines that subscribed to it. The
-- machines are known by their addresses and stand in a store.
use quark_ts_cpp.Prelude.{
  ℕ, zero, suc, ◌+◌, ◌-◌, Bool, true, false, not, ◌&&◌, ◌||◌, ltb, leb, ◌==◌, if◌then◌else◌,
}
use quark_ts_cpp.Fsm.{StateMachine, signal_none, max_signal}
use quark_ts_cpp.Fsm.Signals

-- `Q_FSM_PS_SIGNALS_MAX`
abbrev pub max_sig : ℕ
max_sig = 8

-- `Q_FSM_PS_SUB_PER_SIGNAL_MAX`
abbrev pub max_sub : ℕ
max_sub = 4

pub record Publisher : Type 0 where
  pub ps_signals : ℕ → ℕ
  pub ps_subs : ℕ → ℕ → ℕ

-- `psReqStatus`
pub data PsStatus : Type 0 where
  signal_not_found subscriber_not_found subscriber_found signal_slots_full subscriber_slots_full :
      PsStatus

-- `psIndex_t`
pub record PsIndex : Type 0 where
  pub ps_status : PsStatus
  pub sig_slot : ℕ
  pub sub_slot : ℕ

unfoldable pub unsubscribe_all : Publisher → Publisher
unsubscribe_all p = record {
  ps_signals = λ i. if ltb i max_sig then signal_none else p.ps_signals i;
  ps_subs = λ i j. if ltb i max_sig && ltb j max_sub then 0 else p.ps_subs i j;
}

-- The loop over the subscribers of a signal, `n` rounds from the slot `j` on: the slot where it ends,
-- and whether it ends at the machine.
unfoldable pub find_subscriber : (ℕ → ℕ) → ℕ → ℕ → ℕ → ℕ × Bool
find_subscriber row machine j zero = (j, false)
find_subscriber row machine j (suc n) =
    let rest = find_subscriber row machine (j + 1) n in
    if row j == 0 then (j, false) else (if machine == row j then (j, true) else rest)

-- The loop over the signals: the slot where it ends.
unfoldable pub find_signal : (ℕ → ℕ) → ℕ → ℕ → ℕ → ℕ
find_signal signals s i zero = i
find_signal signals s i (suc n) =
    let rest = find_signal signals s (i + 1) n in
    if signals i == signal_none then i else (if s == signals i then i else rest)

-- The answer, from the slots where the loops end.
unfoldable pub status_at : Publisher → ℕ → ℕ × Bool → PsStatus
status_at p i (j, found) =
    if leb max_sig i
    then signal_slots_full
    else (if p.ps_signals i == signal_none
        then signal_not_found
        else (if leb max_sub j
            then subscriber_slots_full
            else (if found then subscriber_found else subscriber_not_found)))

-- The loop over the subscribers runs only at a slot that holds the signal.
unfoldable pub subs_end : Publisher → ℕ → ℕ → ℕ × Bool
unfolding find_subscriber
subs_end p machine i =
    if leb max_sig i || (p.ps_signals i == signal_none)
    then (0, false)
    else find_subscriber (p.ps_subs i) machine 0 max_sub

unfoldable pub get_subscription_status : Publisher → ℕ → ℕ → PsIndex
unfolding find_signal subs_end status_at
get_subscription_status p machine s =
    let i = find_signal p.ps_signals s 0 max_sig in
    let r = subs_end p machine i in
    record { ps_status = status_at p i r; sig_slot = i; sub_slot = r.0 }

unfoldable pub set_signal : Publisher → ℕ → ℕ → Publisher
set_signal p i s = record p { ps_signals = λ k. if k == i then s else p.ps_signals k }

unfoldable pub set_sub : Publisher → ℕ → ℕ → ℕ → Publisher
set_sub p i j machine = record p {
  ps_subs = λ k l. if (k == i) && (l == j) then machine else p.ps_subs k l;
}

unfoldable pub enroll : Publisher → ℕ → ℕ → PsIndex → Publisher × Bool
unfolding set_signal set_sub
enroll p machine s r = elim r.ps_status [
  | signal_not_found ↦ (set_sub (set_signal p r.sig_slot s) r.sig_slot r.sub_slot machine, true)
  | subscriber_not_found ↦ (set_sub p r.sig_slot r.sub_slot machine, true)
  | subscriber_found ↦ (p, true)
  | signal_slots_full ↦ (p, false)
  | subscriber_slots_full ↦ (p, false)
]

unfoldable pub subscribe_to_signal : Publisher → ℕ → ℕ → Publisher × Bool
unfolding get_subscription_status enroll
subscribe_to_signal p machine s =
    if ltb s max_signal
    then enroll p machine s (get_subscription_status p machine s)
    else (p, false)

-- The row after the slot `j` is taken out.
unfoldable pub shift_subs : Publisher → ℕ → ℕ → Publisher
shift_subs p i j = record p {
  ps_subs = λ k l.
      if (k == i) && leb j l
      then (if ltb l (max_sub - 1)
          then p.ps_subs i (l + 1)
          else (if l == max_sub - 1 then 0 else p.ps_subs i l))
      else p.ps_subs k l;
}

-- The signals after the slot `i` is taken out; the rows of subscribers stay where they are.
unfoldable pub shift_signals : Publisher → ℕ → Publisher
shift_signals p i = record p {
  ps_signals = λ k.
      if leb i k
      then (if ltb k (max_sig - 1)
          then p.ps_signals (k + 1)
          else (if k == max_sig - 1 then signal_none else p.ps_signals k))
      else p.ps_signals k;
}

unfoldable pub leave_signal : Publisher → PsIndex → Publisher × Bool
unfolding shift_subs shift_signals
leave_signal p r =
    let p1 = shift_subs p r.sig_slot r.sub_slot in
    elim r.ps_status [
      | subscriber_found ↦
          (if p1.ps_subs r.sig_slot 0 == 0 then (shift_signals p1 r.sig_slot, true) else (p1, true))
      | _ ↦ (p, false)
    ]

unfoldable pub unsubscribe_from_signal : Publisher → ℕ → ℕ → Publisher × Bool
unfolding get_subscription_status leave_signal
unsubscribe_from_signal p machine s =
    if ltb s max_signal then leave_signal p (get_subscription_status p machine s) else (p, false)

-- The loop over the subscribers, with the flag `r`.
unfoldable pub send_to_row :
    (ℕ → ℕ) → ℕ → ℕ → Bool → ℕ → ℕ → (ℕ → StateMachine) → Bool → (ℕ → StateMachine) × Bool
unfolding Signals.send_signal
send_to_row row sig s_data is_urgent j zero machines r = (machines, r)
send_to_row row sig s_data is_urgent j (suc n) machines r =
    let (m', ok) = Signals.send_signal (machines (row j)) sig s_data is_urgent in
    let rest =
      send_to_row row sig s_data is_urgent (j + 1) n (λ a. if a == row j then m' else machines a)
        (r && ok) in
    if row j == 0 then (machines, r) else rest

unfoldable pub send_signal :
    Publisher → ℕ → ℕ → Bool → (ℕ → StateMachine) → (ℕ → StateMachine) × Bool
unfolding find_signal send_to_row
send_signal p sig s_data is_urgent machines =
    let i = find_signal p.ps_signals sig 0 max_sig in
    let sent = send_to_row (p.ps_subs i) sig s_data is_urgent 0 max_sub machines true in
    if ltb sig signal_none && ltb i max_sig && not (p.ps_signals i == signal_none)
    then sent
    else (machines, false)
