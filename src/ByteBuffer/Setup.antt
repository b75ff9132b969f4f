-- ===== src/ByteBuffer/Setup.antt =====
-- What `setup` accepts, and the length that it takes.
use quark_ts_cpp.Prelude.{
  ℕ, zero, suc, ◌*◌, ◌≤◌, ◌<◌, ◌≡◌, refl, Bool, true, false, ◌&&◌, ◌==◌, ltb, leb, arith,
  if◌then◌else◌, bit_and, subst, none,
}
use native.Mathlib.Decide.{dec_lt}
use quark_ts_cpp.Prelude.Word.{sub_word}
use quark_ts_cpp.Memory.{Memory}
use quark_ts_cpp.ByteBuffer.{blank, setup, check_valid_power_of_two, put, get, count}

-- `setup` tests the member `length` where its argument is meant: on a buffer that was never set up
-- it fails whatever area and length it is given, and the buffer takes and gives no byte.
pub setup-blank :
    (m : Memory) (p_buffer b_length x : ℕ)
    → (setup (blank m) p_buffer b_length ≡ (blank m, false))
      × ((put (setup (blank m) p_buffer b_length).0 x).1 ≡ false)
      × ((get (setup (blank m) p_buffer b_length).0).1 ≡ none)
unfolding setup blank put get count
setup-blank m p_buffer b_length x = ground arith

-- A test that answers true at every number up to a bound.
holds_to : (ℕ → Bool) → ℕ → Bool
holds_to test zero = test zero
holds_to test (suc top) = if holds_to test top then test (suc top) else false

at_each : (test : ℕ → Bool) (top k : ℕ) → holds_to test top ≡ true → k ≤ top → test k ≡ true
unfolding holds_to
at_each test zero k e l = subst (λ j. test j ≡ true) {x = 0} {y = k} (omega arith) e
at_each test (suc top) k e l = elim (dec_lt top k) [
  | yes q ↦ subst (λ j. test j ≡ true) {x = suc top} {y = k} (omega arith) (ground (arith, e))
  | no q ↦ at_each test top k (ground (arith, e)) (omega arith)
]

rounds_up : ℕ → Bool
rounds_up k =
    let r = check_valid_power_of_two k in
    if k == 0 then true else leb k r && (ltb r (k * 2) && (bit_and (sub_word r 1) r == 0))

table : holds_to rounds_up 1024 ≡ true
unfolding holds_to rounds_up check_valid_power_of_two
table = refl

rounds_up_sound : (k : ℕ) → k ≤ 1024 → rounds_up k ≡ true
rounds_up_sound k h = at_each rounds_up 1024 k table h

-- Up to 1024 the length is rounded up to the next power of two: it is never below the length given,
-- so it passes the end of an area whose length is no power of two.
pub check_valid_power_of_two_lem :
    (k : ℕ)
    → 0 < k
    → k ≤ 1024
    → let r = check_valid_power_of_two k in (k ≤ r) × (r < k * 2) × (bit_and (sub_word r 1) r ≡ 0)
unfolding rounds_up
check_valid_power_of_two_lem k p h = ground (arith, rounds_up_sound k h)
