-- ===== src/Input/Analog.antt =====
-- src/input.cpp: an analog channel.
use quark_ts_cpp.Prelude.{
  ℕ, zero, suc, ◌-◌, ◌/◌, Bool, true, false, not, Option, none, some, ◌>>=◌, ltb, leb, ◌==◌,
  if◌then◌else◌,
}
use quark_ts_cpp.Prelude.Word.{add_word, sub_word}
use quark_ts_cpp.Input.{
  Event, on_change, high_threshold, low_threshold, in_band, steady_in_high, steady_in_low,
  steady_in_band, delta_event, step_up, step_down, AnalogState, no_state, low_threshold_state,
  high_threshold_state, in_band_state, steady_low_state, steady_high_state, steady_band_state,
  AnalogChannel, Inputs,
}

-- `isValidConfig`
unfoldable pub is_valid_config : AnalogChannel → Bool
is_valid_config c = ltb c.hysteresis (sub_word c.high c.low)

-- `isShared`, for the channel at the address `a`.
unfoldable pub is_shared : ℕ → AnalogChannel → Bool
is_shared a c = not (c.ptr_value == a)

module _ {W : Type 0} (u : Inputs W) where
  -- `dispatchEvent`; `none` is a call of a null callback.
  unfoldable pub dispatch : AnalogChannel × W → Event → Option (AnalogChannel × W)
  dispatch (c, w) e =
      if c.callback == 0
      then none
      else some (u.analog_callback c.callback (record c { last_event = e }) w)

  unfoldable pub dispatch_times : AnalogChannel × W → Event → ℕ → Option (AnalogChannel × W)
  unfolding dispatch
  dispatch_times s e zero = some s
  dispatch_times s e (suc n) = dispatch s e >>= λ s1. dispatch_times s1 e n

  -- An event for each step between the last reading and this one.
  unfoldable pub report_steps : AnalogChannel × W → ℕ → Option (AnalogChannel × W)
  unfolding dispatch_times
  report_steps (c, w) current_step =
      let ups = dispatch_times (c, w) step_up (current_step - c.last_step) in
      let downs = dispatch_times (c, w) step_down (c.last_step - current_step) in
      let reported = if ltb c.last_step current_step then ups else downs in
      if current_step == c.last_step
      then some (c, w)
      else (reported >>= λ (c1, w1). some (record c1 { last_step = current_step }, w1))

  unfoldable pub report_delta : AnalogChannel × W → Option (AnalogChannel × W)
  unfolding dispatch
  report_delta (c, w) =
      let diff =
        if ltb c.last_sampled c.value then c.value - c.last_sampled else c.last_sampled - c.value in
      let told = if leb c.delta diff then dispatch (c, w) delta_event else some (c, w) in
      told >>= λ (c1, w1). some (record c1 { last_sampled = c1.value }, w1)

  -- The value that a shared channel points to, or a new reading; `none` is a call of a null reader.
  unfoldable pub sample : (ℕ → AnalogChannel) → ℕ → AnalogChannel → W → Option ℕ
  unfolding is_shared
  sample channels a c w =
      if is_shared a c
      then some (channels c.ptr_value).value
      else (if c.reader == 0 then none else some (u.analog_reader c.reader c.number w))

  -- The channel at the address `a`; `none` too when the step is 0, by which the value is divided.
  unfoldable pub update_reading :
      (ℕ → AnalogChannel) → ℕ → Bool → AnalogChannel × W → Option (AnalogChannel × W)
  unfolding sample report_steps report_delta
  update_reading channels a act (c, w) = sample channels a c w >>= λ v.
      (let stepped = report_steps (record c { value = v }, w) (v / c.step) in
        if c.step == 0 then none else (stepped >>= λ s1. if act then report_delta s1 else some s1))

  -- The change to a state, its event, and `ON_CHANGE`; the time is set by the caller.
  unfoldable pub change : AnalogChannel × W → AnalogState → Event → Option (AnalogChannel × W)
  unfolding dispatch
  change (c, w) st e =
      dispatch (record c { channel_state = st }, w) e >>= λ s1. dispatch s1 on_change

  abbrev pub stamped : AnalogChannel × W → ℕ → AnalogChannel × W
  stamped (c, w) t = (record c { t_change = t }, w)

  -- The change with the time that `f` takes after the callbacks.
  unfoldable pub change_at :
      AnalogChannel × W → AnalogState → Event → (AnalogChannel × W → ℕ) → Option (AnalogChannel × W)
  unfolding change
  change_at s st e f = change s st e >>= λ s1. some (stamped s1 (f s1))

  -- The last test of a state with a time `t` to be steady in.
  unfoldable pub settle :
      ℕ → ℕ → AnalogState → Event → AnalogChannel × W → Option (AnalogChannel × W)
  unfolding dispatch
  settle current_time t st e (c, w) =
      if ltb t (sub_word current_time c.t_change)
      then (dispatch (record c { channel_state = st }, w) e >>= λ s1.
          some (stamped s1 current_time))
      else some (c, w)

  unfoldable pub leave_low : AnalogChannel × W → ℕ → Option (AnalogChannel × W)
  unfolding change_at
  leave_low (c, w) t =
      if ltb c.high c.value
      then change_at (c, w) high_threshold_state high_threshold (λ s. t)
      else (if ltb (add_word c.low c.hysteresis) c.value
          then change_at (c, w) in_band_state in_band (λ s. t)
          else some (c, w))

  unfoldable pub low_threshold_step : AnalogChannel × W → Option (AnalogChannel × W)
  unfolding leave_low settle
  low_threshold_step s =
      let current_time = u.now s.1 in
      leave_low s current_time >>= λ s1.
      settle current_time s1.0.t_steady_low steady_low_state steady_in_low s1

  unfoldable pub leave_high : AnalogChannel × W → ℕ → Option (AnalogChannel × W)
  unfolding change_at
  leave_high (c, w) t =
      if ltb c.value c.low
      then change_at (c, w) low_threshold_state low_threshold (λ s. t)
      else (if ltb c.value (sub_word c.high c.hysteresis)
          then change_at (c, w) in_band_state in_band (λ s. t)
          else some (c, w))

  unfoldable pub high_threshold_step : AnalogChannel × W → Option (AnalogChannel × W)
  unfolding leave_high settle
  high_threshold_step s =
      let current_time = u.now s.1 in
      leave_high s current_time >>= λ s1.
      settle current_time s1.0.t_steady_high steady_high_state steady_in_high s1

  unfoldable pub leave_band : AnalogChannel × W → ℕ → Option (AnalogChannel × W)
  unfolding change_at
  leave_band (c, w) t =
      if ltb c.high c.value
      then change_at (c, w) high_threshold_state high_threshold (λ s. t)
      else (if ltb c.value c.low
          then change_at (c, w) low_threshold_state low_threshold (λ s. t)
          else some (c, w))

  unfoldable pub in_band_step : AnalogChannel × W → Option (AnalogChannel × W)
  unfolding leave_band settle
  in_band_step s =
      let current_time = u.now s.1 in
      leave_band s current_time >>= λ s1.
      settle current_time s1.0.t_steady_band steady_band_state steady_in_band s1

  -- In the steady states the time is read after the callbacks.
  unfoldable pub steady_in_high_step : AnalogChannel × W → Option (AnalogChannel × W)
  unfolding change_at
  steady_in_high_step (c, w) =
      let below = change_at (c, w) low_threshold_state low_threshold (λ s. u.now s.1) in
      let inside = change_at (c, w) in_band_state in_band (λ s. u.now s.1) in
      if ltb c.value c.low
      then below
      else (if ltb c.value (sub_word c.high c.hysteresis) then inside else some (c, w))

  unfoldable pub steady_in_low_step : AnalogChannel × W → Option (AnalogChannel × W)
  unfolding change_at
  steady_in_low_step (c, w) =
      let above = change_at (c, w) high_threshold_state high_threshold (λ s. u.now s.1) in
      let inside = change_at (c, w) in_band_state in_band (λ s. u.now s.1) in
      if ltb c.high c.value
      then above
      else (if ltb (add_word c.low c.hysteresis) c.value then inside else some (c, w))

  unfoldable pub steady_in_band_step : AnalogChannel × W → Option (AnalogChannel × W)
  unfolding change_at
  steady_in_band_step (c, w) =
      let above = change_at (c, w) high_threshold_state high_threshold (λ s. u.now s.1) in
      let below = change_at (c, w) low_threshold_state low_threshold (λ s. u.now s.1) in
      if ltb c.high c.value then above else (if ltb c.value c.low then below else some (c, w))

  -- The function of a state; `none` is a call of the null function.
  unfoldable pub state_step : AnalogChannel × W → AnalogState → Option (AnalogChannel × W)
  unfolding low_threshold_step high_threshold_step in_band_step steady_in_high_step
      steady_in_low_step steady_in_band_step
  state_step s no_state = none
  state_step s low_threshold_state = low_threshold_step s
  state_step s high_threshold_state = high_threshold_step s
  state_step s in_band_state = in_band_step s
  state_step s steady_low_state = steady_in_low_step s
  state_step s steady_high_state = steady_in_high_step s
  state_step s steady_band_state = steady_in_band_step s

  -- `evaluateState`
  unfoldable pub evaluate_state : AnalogChannel × W → Option (AnalogChannel × W)
  unfolding state_step
  evaluate_state s = state_step s s.0.channel_state

  -- `none`: the step is 0.
  unfoldable pub set_initial_state : AnalogChannel × W → Option AnalogChannel
  set_initial_state (c, w) =
      let val = if c.reader == 0 then 0 else u.analog_reader c.reader c.number w in
      let st =
        if ltb c.high val
        then high_threshold_state
        else (if ltb val c.low then low_threshold_state else in_band_state) in
      if c.step == 0
      then none
      else some (record c { channel_state = st; last_step = val / c.step; last_sampled = val })

unfoldable pub set_time : AnalogChannel → Event → ℕ → AnalogChannel × Bool
set_time c e t =
    if ltb 0 t
    then elim e [
      | steady_in_band ↦ (record c { t_steady_band = t }, true)
      | steady_in_high ↦ (record c { t_steady_high = t }, true)
      | steady_in_low ↦ (record c { t_steady_low = t }, true)
      | _ ↦ (c, false)
    ]
    else (c, false)

unfoldable pub set_parameter : AnalogChannel → Event → ℕ → AnalogChannel × Bool
set_parameter c e p = elim e [
  | high_threshold ↦ (record c { high = p }, true)
  | low_threshold ↦ (record c { low = p }, true)
  | in_band ↦ (record c { hysteresis = p }, true)
  | delta_event ↦ (record c { delta = p }, true)
  | step_up ↦ (record c { step = p }, true)
  | step_down ↦ (record c { step = p }, true)
  | _ ↦ (c, false)
]
