-- ===== src/Input/Digital.antt =====
-- src/input.cpp: a digital channel.
use quark_ts_cpp.Prelude.{
  ℕ, ◌+◌, ◌%◌, ◌^◌, Bool, true, false, not, Option, none, some, ltb, ◌==◌, if◌then◌else◌, ◌>>=◌,
}
use quark_ts_cpp.Prelude.Word.{sub_word}
use quark_ts_cpp.Input.{
  Event, on_change, falling_edge, rising_edge, pulsation_double, pulsation_triple, pulsation_multi,
  steady_in_high, steady_in_low, DigitalState, unset, falling_edge_state, steady_in_low_state,
  rising_edge_state, steady_in_high_state, DigitalChannel, Inputs,
}

module _ {W : Type 0} (u : Inputs W) where
  -- `dispatchEvent`; `none` is a call of a null callback.
  unfoldable pub dispatch : DigitalChannel × W → Event → Option (DigitalChannel × W)
  dispatch (c, w) e =
      if c.callback == 0
      then none
      else some (u.digital_callback c.callback (record c { last_event = e }) w)

  -- The level of the input; `none` is a call of a null reader.
  unfoldable pub update_reading : DigitalChannel × W → Option (DigitalChannel × W)
  update_reading (c, w) =
      let sample = u.digital_reader c.reader c.number w in
      let negated = if sample == 0 then 1 else 0 in
      if c.reader == 0
      then none
      else some (record c { value = if c.negate then negated else sample }, w)

  -- The value has been left for the given time.
  abbrev pub overdue : ℕ → DigitalChannel → ℕ → Bool
  overdue current_time c t = ltb t (sub_word current_time c.t_change)

  -- Two events, one after the other.
  unfoldable pub dispatch_both : DigitalChannel × W → Event → Event → Option (DigitalChannel × W)
  unfolding dispatch
  dispatch_both s e f = dispatch s e >>= λ s1. dispatch s1 f

  -- The first test of `fallingEdgeState`.
  unfoldable pub leave_low : ℕ → DigitalChannel × W → Option (DigitalChannel × W)
  unfolding dispatch_both
  leave_low current_time (c, w) =
      let changed = record c { channel_state = rising_edge_state } in
      let left = dispatch_both (changed, w) rising_edge on_change >>= λ (c1, w1).
      let count = if overdue current_time c1 c1.pulsation_interval then 0 else c1.pulsation_count in
      some (record c1 { pulsation_count = count; t_change = current_time }, w1) in
      if not (c.value == 0) then left else some (c, w)

  -- The second test.
  unfoldable pub settle_low : ℕ → DigitalChannel × W → Option (DigitalChannel × W)
  unfolding dispatch
  settle_low current_time (c, w) =
      let settled =
        dispatch (record c { channel_state = steady_in_low_state }, w) steady_in_low >>= λ (c1, w1).
        some (record c1 { t_change = current_time }, w1) in
      if overdue current_time c c.t_steady_low then settled else some (c, w)

  unfoldable pub falling_edge_step : DigitalChannel × W → Option (DigitalChannel × W)
  unfolding leave_low settle_low
  falling_edge_step s =
      let current_time = u.now s.1 in leave_low current_time s >>= λ s1. settle_low current_time s1

  unfoldable pub steady_in_low_step : DigitalChannel × W → Option (DigitalChannel × W)
  unfolding dispatch_both
  steady_in_low_step (c, w) =
      let changed = record c { channel_state = rising_edge_state } in
      let left = dispatch_both (changed, w) rising_edge on_change >>= λ (c1, w1).
      some (record c1 { t_change = u.now w1 }, w1) in
      if not (c.value == 0) then left else some (c, w)

  -- The events by the number of pulsations.
  unfoldable pub pulsate : DigitalChannel × W → Option (DigitalChannel × W)
  unfolding dispatch
  pulsate (c, w) =
      if ltb c.pulsation_count 2
      then some (c, w)
      else (if c.pulsation_count == 2
          then dispatch (c, w) pulsation_double
          else (if c.pulsation_count == 3
              then dispatch (c, w) pulsation_triple
              else dispatch (c, w) pulsation_multi))

  -- The first test of `risingEdgeState`; the count is a `uint8_t`.
  unfoldable pub leave_high : ℕ → DigitalChannel × W → Option (DigitalChannel × W)
  unfolding dispatch_both pulsate
  leave_high current_time (c, w) =
      let changed = record c { channel_state = falling_edge_state } in
      let left = dispatch_both (changed, w) falling_edge on_change >>= λ (c1, w1).
      let more = (c1.pulsation_count + 1) % 2 ^ 8 in
      let count =
        if overdue current_time c1 c1.pulsation_interval then c1.pulsation_count else more in
      pulsate (record c1 { pulsation_count = count; t_change = current_time }, w1) in
      if c.value == 0 then left else some (c, w)

  unfoldable pub settle_high : ℕ → DigitalChannel × W → Option (DigitalChannel × W)
  unfolding dispatch
  settle_high current_time (c, w) =
      let settled =
        dispatch (record c { channel_state = steady_in_high_state }, w) steady_in_high
        >>= λ (c1, w1). some (record c1 { t_change = current_time }, w1) in
      if overdue current_time c c.t_steady_high then settled else some (c, w)

  unfoldable pub rising_edge_step : DigitalChannel × W → Option (DigitalChannel × W)
  unfolding leave_high settle_high
  rising_edge_step s =
      let current_time = u.now s.1 in
      leave_high current_time s >>= λ s1. settle_high current_time s1

  unfoldable pub steady_in_high_step : DigitalChannel × W → Option (DigitalChannel × W)
  unfolding dispatch_both
  steady_in_high_step (c, w) =
      let changed = record c { channel_state = falling_edge_state } in
      let left = dispatch_both (changed, w) falling_edge on_change >>= λ (c1, w1).
      some (record c1 { t_change = u.now w1 }, w1) in
      if c.value == 0 then left else some (c, w)

  -- The function of a state; `none` is a call of the null function.
  unfoldable pub state_step : DigitalChannel × W → DigitalState → Option (DigitalChannel × W)
  unfolding falling_edge_step steady_in_low_step rising_edge_step steady_in_high_step
  state_step s unset = none
  state_step s falling_edge_state = falling_edge_step s
  state_step s steady_in_low_state = steady_in_low_step s
  state_step s rising_edge_state = rising_edge_step s
  state_step s steady_in_high_state = steady_in_high_step s

  -- `evaluateState`
  unfoldable pub evaluate_state : DigitalChannel × W → Option (DigitalChannel × W)
  unfolding state_step
  evaluate_state s = state_step s s.0.channel_state

  -- Without a reader the value counts as -1.
  unfoldable pub set_initial_state : DigitalChannel × W → DigitalChannel
  set_initial_state (c, w) =
      let val = if c.reader == 0 then 0xFFFFFFFF else u.digital_reader c.reader c.number w in
      let low = if c.negate then not (val == 0) else (val == 0) in
      record c { channel_state = if low then falling_edge_state else rising_edge_state }

unfoldable pub set_time : DigitalChannel → Event → ℕ → DigitalChannel × Bool
set_time c e t =
    if ltb 0 t
    then elim e [
      | pulsation_double ↦ (record c { pulsation_interval = t }, true)
      | pulsation_triple ↦ (record c { pulsation_interval = t }, true)
      | pulsation_multi ↦ (record c { pulsation_interval = t }, true)
      | steady_in_high ↦ (record c { t_steady_high = t }, true)
      | steady_in_low ↦ (record c { t_steady_low = t }, true)
      | _ ↦ (c, false)
    ]
    else (c, false)

unfoldable pub set_parameter : DigitalChannel → Event → ℕ → DigitalChannel × Bool
set_parameter c e p = (c, false)
