-- ===== src/Fsm/Subscribers.antt =====
-- The signal publisher: who is subscribed, and what a published signal does.
use quark_ts_cpp.Prelude.{
  ℕ, zero, suc, ◌+◌, ◌≤◌, ◌<◌, ◌≡◌, ◌≢◌, refl, sym, ap, subst, inl, inr, Bool, true, false, ◌&&◌,
  ◌==◌, ltb, if◌then◌else◌, arith, Bool-cases,
}
use quark_ts_cpp.Fsm.{signal_none, max_signal}
use quark_ts_cpp.Fsm.Publisher.{
  Publisher, PsStatus, signal_not_found, subscriber_not_found, subscriber_found, signal_slots_full,
  subscriber_slots_full, find_signal, find_subscriber, get_subscription_status, subs_end, status_at,
  subscribe_to_signal, enroll, set_sub, set_signal, max_sig, max_sub,
}

-- The machine `a` is found among the subscribers of `s`.
pub IsSubscribed : Publisher → ℕ → ℕ → Type 0
IsSubscribed p a s = (get_subscription_status p a s).ps_status ≡ subscriber_found

-- The search for a signal ends at `i`: it or the first free slot stands there, and none before.
pub record Ends (signals : ℕ → ℕ) (s i n k : ℕ) : Type 0 where
  pub low : i ≤ k
  pub high : k ≤ i + n

find_signal-Ends : (signals : ℕ → ℕ) (s i n : ℕ) → Ends signals s i n (find_signal signals s i n)
unfolding find_signal
find_signal-Ends signals s i zero = record { low = omega arith; high = omega arith }
find_signal-Ends signals s i (suc n) =
    let r = find_signal-Ends signals s (i + 1) n in
    record { low = ground (arith, r.low); high = ground (arith, r.high) }

-- A signal written where the search ended is found there.
find_signal-set :
    (signals : ℕ → ℕ) (s i n : ℕ)
    → s ≢ signal_none
    → let k = find_signal signals s i n in
      find_signal (λ j. if j == k then s else signals j) s i n ≡ k
unfolding find_signal
find_signal-set signals s i zero h = refl
find_signal-set signals s i (suc n) h =
    let r = find_signal-Ends signals s (i + 1) n in
    ground (arith, find_signal-set signals s (i + 1) n h, r.low, r.high)

find_subscriber_low : (row : ℕ → ℕ) (a j n : ℕ) → j ≤ (find_subscriber row a j n).0
unfolding find_subscriber
find_subscriber_low row a j zero = omega arith
find_subscriber_low row a j (suc n) = ground (arith, find_subscriber_low row a (j + 1) n)

-- A machine written where the search ended, before the end of the row, is found.
find_subscriber-set :
    (row : ℕ → ℕ) (a j n k : ℕ)
    → a ≢ 0
    → (find_subscriber row a j n).0 ≡ k
    → k < j + n
    → (find_subscriber (λ l. if l == k then a else row l) a j n).1 ≡ true
unfolding find_subscriber
find_subscriber-set row a j zero k h e l =
    absurd (omega (arith, e, find_subscriber_low row a j zero))
find_subscriber-set row a j (suc n) k h e l =
    ground (arith, find_subscriber_low row a (j + 1) n, find_subscriber-set row a (j + 1) n k h)

-- It stands at the end of the search again.
find_subscriber-set_at :
    (row : ℕ → ℕ) (a j n k : ℕ)
    → a ≢ 0
    → (find_subscriber row a j n).0 ≡ k
    → k < j + n
    → (find_subscriber (λ l. if l == k then a else row l) a j n).0 ≡ k
unfolding find_subscriber
find_subscriber-set_at row a j zero k h e l = absurd (omega arith)
find_subscriber-set_at row a j (suc n) k h e l =
    ground (arith, find_subscriber_low row a (j + 1) n, find_subscriber-set_at row a (j + 1) n k h)

same_test : (i : ℕ) → (i == i) ≡ true
same_test i = ground arith

-- The machine is found in the row of the signal.
found_at :
    (p : Publisher) (a s i : ℕ)
    → find_signal p.ps_signals s 0 max_sig ≡ i
    → i < max_sig
    → p.ps_signals i ≢ signal_none
    → (find_subscriber (p.ps_subs i) a 0 max_sub).0 < max_sub
    → (find_subscriber (p.ps_subs i) a 0 max_sub).1 ≡ true
    → IsSubscribed p a s
unfolding IsSubscribed get_subscription_status subs_end status_at
found_at p a s i e l n j f =
    subst (λ k. status_at p k (subs_end p a k) ≡ subscriber_found) (sym e)
      (ground (arith, l, n, j, f))

first_found :
    (row : ℕ → ℕ) (a n : ℕ) → a ≢ 0 → row 0 ≡ a → find_subscriber row a 0 (suc n) ≡ (0, true)
unfolding find_subscriber
first_found row a n h e = ground (arith, h, e)

fresh_found :
    (p : Publisher) (a s i : ℕ)
    → a ≢ 0
    → s ≢ signal_none
    → find_signal p.ps_signals s 0 max_sig ≡ i
    → i < max_sig
    → IsSubscribed (set_sub (set_signal p i s) i 0 a) a s
unfolding set_sub set_signal
fresh_found p a s i h n e l =
    found_at (set_sub (set_signal p i s) i 0 a) a s i
      (subst (λ k. find_signal (λ j. if j == k then s else p.ps_signals j) s 0 max_sig ≡ k) e
        (find_signal-set p.ps_signals s 0 max_sig n))
      l (rw (same_test i) n) (rw first (omega arith)) (rw first refl)
  where
    first :
        find_subscriber (λ l. if (i == i) && (l == 0) then a else p.ps_subs i l) a 0 max_sub
        ≡ (0, true)
    first =
        first_found (λ l. if (i == i) && (l == 0) then a else p.ps_subs i l) a 3 h
          (ap (λ b. if b && true then a else p.ps_subs i 0) (same_test i))

absent_found :
    (p : Publisher) (a s i j : ℕ)
    → a ≢ 0
    → find_signal p.ps_signals s 0 max_sig ≡ i
    → i < max_sig
    → p.ps_signals i ≢ signal_none
    → (find_subscriber (p.ps_subs i) a 0 max_sub).0 ≡ j
    → j < max_sub
    → IsSubscribed (set_sub p i j a) a s
unfolding set_sub find_subscriber
absent_found p a s i j h e l n k small =
    found_at (set_sub p i j a) a s i e l n
      (rw (same_test i) (rw (find_subscriber-set_at (p.ps_subs i) a 0 max_sub j h k small) small))
      (rw (same_test i) (find_subscriber-set (p.ps_subs i) a 0 max_sub j h k small))

fresh_slot :
    (p : Publisher) (a i : ℕ)
    → status_at p i (subs_end p a i) ≡ signal_not_found
    → (i < max_sig) × ((subs_end p a i).0 ≡ 0)
unfolding status_at subs_end
fresh_slot p a i e = ground (arith, e)

absent_slot :
    (p : Publisher) (a i : ℕ)
    → status_at p i (subs_end p a i) ≡ subscriber_not_found
    → (i < max_sig)
      × (p.ps_signals i ≢ signal_none)
      × ((subs_end p a i).0 < max_sub)
      × ((find_subscriber (p.ps_subs i) a 0 max_sub).0 ≡ (subs_end p a i).0)
unfolding status_at subs_end
absent_slot p a i e = ground (arith, e)

abbrev Answers : Publisher → ℕ → ℕ → Publisher × Bool → Type 0
Answers p a s (p', ok) = (ok ≡ true → IsSubscribed p' a s) × (ok ≡ false → p' ≡ p)

enrolled :
    (p : Publisher) (a s i : ℕ) (st : PsStatus)
    → a ≢ 0
    → s ≢ signal_none
    → find_signal p.ps_signals s 0 max_sig ≡ i
    → status_at p i (subs_end p a i) ≡ st
    → Answers p a s
        (enroll p a s (record { ps_status = st; sig_slot = i; sub_slot = (subs_end p a i).0 }))
unfolding enroll IsSubscribed get_subscription_status
enrolled p a s i signal_not_found h n f e =
    let (l, z) = fresh_slot p a i e in
    (λ _. rw z (fresh_found p a s i h n f l), λ q. absurd (ground (arith, q)))
enrolled p a s i subscriber_not_found h n f e =
    let (l, k, j, g) = absent_slot p a i e in
    (λ _. absent_found p a s i (subs_end p a i).0 h f l k g j, λ q. absurd (ground (arith, q)))
enrolled p a s i subscriber_found h n f e = (λ _. known, λ _. refl)
  where
    known : IsSubscribed p a s
    known = subst (λ k. status_at p k (subs_end p a k) ≡ subscriber_found) (sym f) e
enrolled p a s i signal_slots_full h n f e = (λ q. absurd (ground (arith, q)), λ _. refl)
enrolled p a s i subscriber_slots_full h n f e = (λ q. absurd (ground (arith, q)), λ _. refl)

-- Right after a subscription that is accepted the subscriber is found at the signal; a subscription that
-- is refused changes nothing. `a` is a machine, not the null pointer.
pub subscribe_to_signal_lem :
    (p : Publisher) (a s : ℕ)
    → a ≢ 0
    → let (p', ok) = subscribe_to_signal p a s in
      (ok ≡ true → IsSubscribed p' a s) × (ok ≡ false → p' ≡ p)
unfolding subscribe_to_signal get_subscription_status
subscribe_to_signal_lem p a s h = elim (Bool-cases (ltb s max_signal)) [
  | inr e ↦ rw e (λ q. absurd (ground (arith, q)), λ _. refl)
  | inl e ↦
      (let i = find_signal p.ps_signals s 0 max_sig in
        rw e (enrolled p a s i (status_at p i (subs_end p a i)) h (ground (arith, e)) refl refl))
]
