-- ===== src/Task/Flags.antt =====
-- The flag word of a task, and the states that it stands for.
use quark_ts_cpp.Prelude.{
  ℕ, ◌^◌, ◌<◌, ◌≡◌, refl, Bool, true, false, not, ◌==◌, if◌then◌else◌, arith,
}
use quark_ts_cpp.Prelude.Bits.{
  multiple_set, multiple_clear, digit, digit-multiple_set, digit-multiple_clear, multiple_get_power,
}
use quark_ts_cpp.Task.{
  Task, disabled_state, enabled_state, asleep_state, awake_state, bit_enabled, bit_shutdown,
  set_flags, get_flag, get_state, set_state,
}

read :
    (b value : Bool) (d e : ℕ)
    → not ((if b then d else e) == 0) ≡ (if b then not (d == 0) else not (e == 0))
read true value d e = refl
read false value d e = refl

-- Setting or clearing the flags of a mask gives them that value, and leaves every other of the 32
-- flags as it was.
pub set_flags_lem :
    (t : Task) (x_flags i : ℕ) (value : Bool)
    → x_flags < 2 ^ 32
    → i < 32
    → get_flag (set_flags t x_flags value) (2 ^ i)
      ≡ (if digit x_flags i == 0 then get_flag t (2 ^ i) else value)
unfolding get_flag set_flags
set_flags_lem t m i true h l =
    rw
      (
        multiple_get_power (multiple_set t.flags m) i,
        multiple_get_power t.flags i,
        digit-multiple_set t.flags m i,
      )
      (read (digit m i == 0) true (digit t.flags i) 1)
set_flags_lem t m i false h l =
    rw
      (
        multiple_get_power (multiple_clear t.flags m) i,
        multiple_get_power t.flags i,
        digit-multiple_clear t.flags m i h l,
      )
      (read (digit m i == 0) false (digit t.flags i) 0)

module _ (t : Task) (value : Bool) where
  enabled_of_enabled : get_flag (set_flags t bit_enabled value) bit_enabled ≡ value
  enabled_of_enabled = set_flags_lem t bit_enabled 1 value (omega arith) (omega arith)

  shutdown_of_enabled :
      get_flag (set_flags t bit_enabled value) bit_shutdown ≡ get_flag t bit_shutdown
  shutdown_of_enabled = set_flags_lem t bit_enabled 6 value (omega arith) (omega arith)

  enabled_of_shutdown :
      get_flag (set_flags t bit_shutdown value) bit_enabled ≡ get_flag t bit_enabled
  enabled_of_shutdown = set_flags_lem t bit_shutdown 1 value (omega arith) (omega arith)

  shutdown_of_shutdown : get_flag (set_flags t bit_shutdown value) bit_shutdown ≡ value
  shutdown_of_shutdown = set_flags_lem t bit_shutdown 6 value (omega arith) (omega arith)

-- What `getState` answers after `setState`: enabling and disabling show in an awake task only, and
-- a task sent to sleep answers disabled until it is woken.
pub get_state-set_state :
    (t : Task) (now : ℕ)
    → (get_state (set_state t enabled_state now).0
        ≡ (if get_flag t bit_shutdown then enabled_state else disabled_state))
      × (get_state (set_state t disabled_state now).0 ≡ disabled_state)
      × (get_state (set_state t asleep_state now).0 ≡ disabled_state)
      × (get_state (set_state t awake_state now).0
          ≡ (if get_flag t bit_enabled then enabled_state else disabled_state))
unfolding get_state set_state
get_state-set_state t now = (
  ground (arith, enabled_of_enabled t true, shutdown_of_enabled t true),
  ground (arith, enabled_of_enabled t false, shutdown_of_enabled t false),
  ground (arith, shutdown_of_shutdown t false),
  ground (arith, shutdown_of_shutdown t true, enabled_of_shutdown t true),
)
