-- ===== src/Input/Zones.antt =====
-- Each evaluation of an analog channel puts it into the zone of its value.
use quark_ts_cpp.Prelude.{
  ◌+◌, ◌<◌, ◌≡◌, refl, sym, ap, ◌∙◌, inl, inr, true, false, Option, some, ltb, ◌==◌, arith,
  Bool-cases,
}
use quark_ts_cpp.Prelude.Word.{add_word, sub_word, modulus}
use quark_ts_cpp.Input.{
  AnalogState, no_state, low_threshold_state, high_threshold_state, in_band_state, steady_low_state,
  steady_high_state, steady_band_state, AnalogChannel, Inputs,
}
use quark_ts_cpp.Input.Analog.{
  leave_low, leave_high, leave_band, low_threshold_step, high_threshold_step, in_band_step,
  steady_in_high_step, steady_in_low_step, steady_in_band_step, state_step, evaluate_state,
  is_valid_config,
}
use quark_ts_cpp.Prelude.Returns.{Returns, Returns-some}
use quark_ts_cpp.Input.Bands.{
  ZoneIs, ends, Zone, low_zone, band_zone, high_zone, next_zone, zone_of, LeavesAlone, IsBand,
  next_high, next_low, next_from_low, next_from_high, next_from_band, below_high, moved,
  settle_zone, settled,
}

as_some : {y z : Zone} → z ≡ y → some y ≡ some z
as_some e = ap some (sym e)

next_of :
    (c : AnalogChannel) {y z : Zone}
    → ◌≡◌ {A = Option Zone} (some y) (some z)
    → ◌≡◌ {A = Option Zone} (some (next_zone c y)) (some (next_zone c z))
next_of c {y} {z} f = let g : y ≡ z = ground (arith, f) in ap (λ x. some (next_zone c x)) g

module _ {W : Type 0} (u : Inputs W) (quiet : LeavesAlone u) where
  low_zone_lem :
      (c : AnalogChannel) (w : W)
      → IsBand c
      → zone_of c.channel_state ≡ some low_zone
      → (c.callback == 0) ≡ false
      → Returns (ZoneIs (some (next_zone c low_zone))) (low_threshold_step u (c, w))
  unfolding low_threshold_step leave_low
  low_zone_lem c w h z k = elim (Bool-cases (ltb c.high c.value)) [
    | inl e ↦ rw e (
        ends _ (as_some (next_high c low_zone e))
          (settled u quiet (u.now w) (λ s. s.0.t_steady_low) _ _ _ _ (c, w) k))
    | inr e ↦ elim (Bool-cases (ltb (add_word c.low c.hysteresis) c.value)) [
      | inl f ↦
          rw (e, f)
            (ends _ (as_some (next_from_low c true h e f))
              (settled u quiet (u.now w) (λ s. s.0.t_steady_low) _ _ _ _ (c, w) k))
      | inr f ↦
          rw (e, f)
            (ends _ (z ∙ as_some (next_from_low c false h e f))
              (settle_zone u quiet (u.now w) _ _ _ (c, w) k (sym z)))
    ]
  ]

  high_zone_lem :
      (c : AnalogChannel) (w : W)
      → IsBand c
      → zone_of c.channel_state ≡ some high_zone
      → (c.callback == 0) ≡ false
      → Returns (ZoneIs (some (next_zone c high_zone))) (high_threshold_step u (c, w))
  unfolding high_threshold_step leave_high
  high_zone_lem c w h z k = elim (Bool-cases (ltb c.value c.low)) [
    | inl e ↦ rw e (
        ends _ (as_some (next_low c high_zone (below_high c h e) e))
          (settled u quiet (u.now w) (λ s. s.0.t_steady_high) _ _ _ _ (c, w) k))
    | inr e ↦ elim (Bool-cases (ltb c.value (sub_word c.high c.hysteresis))) [
      | inl f ↦
          rw (e, f)
            (ends _ (as_some (next_from_high c true h e f))
              (settled u quiet (u.now w) (λ s. s.0.t_steady_high) _ _ _ _ (c, w) k))
      | inr f ↦
          rw (e, f)
            (ends _ (z ∙ as_some (next_from_high c false h e f))
              (settle_zone u quiet (u.now w) _ _ _ (c, w) k (sym z)))
    ]
  ]

  band_zone_lem :
      (c : AnalogChannel) (w : W)
      → zone_of c.channel_state ≡ some band_zone
      → (c.callback == 0) ≡ false
      → Returns (ZoneIs (some (next_zone c band_zone))) (in_band_step u (c, w))
  unfolding in_band_step leave_band
  band_zone_lem c w z k = elim (Bool-cases (ltb c.high c.value)) [
    | inl e ↦ rw e (
        ends _ (as_some (next_high c band_zone e))
          (settled u quiet (u.now w) (λ s. s.0.t_steady_band) _ _ _ _ (c, w) k))
    | inr e ↦ elim (Bool-cases (ltb c.value c.low)) [
      | inl f ↦
          rw (e, f)
            (ends _ (as_some (next_low c band_zone e f))
              (settled u quiet (u.now w) (λ s. s.0.t_steady_band) _ _ _ _ (c, w) k))
      | inr f ↦
          rw (e, f)
            (ends _ (z ∙ as_some (next_from_band c e f))
              (settle_zone u quiet (u.now w) _ _ _ (c, w) k (sym z)))
    ]
  ]

  steady_low_lem :
      (c : AnalogChannel) (w : W)
      → IsBand c
      → zone_of c.channel_state ≡ some low_zone
      → (c.callback == 0) ≡ false
      → Returns (ZoneIs (some (next_zone c low_zone))) (steady_in_low_step u (c, w))
  unfolding steady_in_low_step
  steady_low_lem c w h z k = elim (Bool-cases (ltb c.high c.value)) [
    | inl e ↦
        rw e
          (ends _ (as_some (next_high c low_zone e)) (moved u quiet (c, w) _ _ (λ s. u.now s.1) k))
    | inr e ↦ elim (Bool-cases (ltb (add_word c.low c.hysteresis) c.value)) [
      | inl f ↦
          rw (e, f)
            (ends _ (as_some (next_from_low c true h e f))
              (moved u quiet (c, w) _ _ (λ s. u.now s.1) k))
      | inr f ↦ rw (e, f) (z ∙ as_some (next_from_low c false h e f))
    ]
  ]

  steady_high_lem :
      (c : AnalogChannel) (w : W)
      → IsBand c
      → zone_of c.channel_state ≡ some high_zone
      → (c.callback == 0) ≡ false
      → Returns (ZoneIs (some (next_zone c high_zone))) (steady_in_high_step u (c, w))
  unfolding steady_in_high_step
  steady_high_lem c w h z k = elim (Bool-cases (ltb c.value c.low)) [
    | inl e ↦ rw e (
        ends _ (as_some (next_low c high_zone (below_high c h e) e))
          (moved u quiet (c, w) _ _ (λ s. u.now s.1) k))
    | inr e ↦ elim (Bool-cases (ltb c.value (sub_word c.high c.hysteresis))) [
      | inl f ↦
          rw (e, f)
            (ends _ (as_some (next_from_high c true h e f))
              (moved u quiet (c, w) _ _ (λ s. u.now s.1) k))
      | inr f ↦ rw (e, f) (z ∙ as_some (next_from_high c false h e f))
    ]
  ]

  steady_band_lem :
      (c : AnalogChannel) (w : W)
      → zone_of c.channel_state ≡ some band_zone
      → (c.callback == 0) ≡ false
      → Returns (ZoneIs (some (next_zone c band_zone))) (steady_in_band_step u (c, w))
  unfolding steady_in_band_step
  steady_band_lem c w z k = elim (Bool-cases (ltb c.high c.value)) [
    | inl e ↦
        rw e
          (ends _ (as_some (next_high c band_zone e)) (moved u quiet (c, w) _ _ (λ s. u.now s.1) k))
    | inr e ↦ elim (Bool-cases (ltb c.value c.low)) [
      | inl f ↦
          rw (e, f)
            (ends _ (as_some (next_low c band_zone e f))
              (moved u quiet (c, w) _ _ (λ s. u.now s.1) k))
      | inr f ↦ rw (e, f) (z ∙ as_some (next_from_band c e f))
    ]
  ]

  by_state :
      (c : AnalogChannel) (w : W) (z : Zone) (st : AnalogState)
      → IsBand c
      → (c.callback == 0) ≡ false
      → c.channel_state ≡ st
      → zone_of st ≡ some z
      → Returns (ZoneIs (some (next_zone c z))) (state_step u (c, w) st)
  unfolding state_step
  by_state c w z no_state h k e f = absurd (ground (arith, f))
  by_state c w z low_threshold_state h k e f =
      ends (low_threshold_step u (c, w)) (next_of c f) (low_zone_lem c w h (ap zone_of e) k)
  by_state c w z steady_low_state h k e f =
      ends (steady_in_low_step u (c, w)) (next_of c f) (steady_low_lem c w h (ap zone_of e) k)
  by_state c w z in_band_state h k e f =
      ends (in_band_step u (c, w)) (next_of c f) (band_zone_lem c w (ap zone_of e) k)
  by_state c w z steady_band_state h k e f =
      ends (steady_in_band_step u (c, w)) (next_of c f) (steady_band_lem c w (ap zone_of e) k)
  by_state c w z high_threshold_state h k e f =
      ends (high_threshold_step u (c, w)) (next_of c f) (high_zone_lem c w h (ap zone_of e) k)
  by_state c w z steady_high_state h k e f =
      ends (steady_in_high_step u (c, w)) (next_of c f) (steady_high_lem c w h (ap zone_of e) k)

  -- With a callback, thresholds further apart than the hysteresis, and callbacks that leave the channel
  -- alone, an evaluation of the state returns, and puts the channel from its zone into the zone of its
  -- value: above the higher threshold, below the lower one, or between them, where it comes back only
  -- past the hysteresis.
  pub evaluate_state-next_zone :
      (c : AnalogChannel) (w : W) (z : Zone)
      → IsBand c
      → (c.callback == 0) ≡ false
      → zone_of c.channel_state ≡ some z
      → (r : AnalogChannel × W) × (evaluate_state u (c, w) ≡ some r)
        × (zone_of r.0.channel_state ≡ some (next_zone c z))
  unfolding evaluate_state
  evaluate_state-next_zone c w z h k e =
      Returns-some (ZoneIs (some (next_zone c z))) (state_step u (c, w) c.channel_state)
        (by_state c w z c.channel_state h k refl e)

-- The check of the configuration is passed by any thresholds in the wrong order whose difference
-- and hysteresis stay below the wrap.
pub is_valid_config_reversed :
    (c : AnalogChannel)
    → c.high < c.low
    → c.low < modulus
    → c.low + c.hysteresis < modulus + c.high
    → is_valid_config c ≡ true
unfolding is_valid_config
is_valid_config_reversed c l w h = ground arith

-- Thresholds further apart than the hysteresis pass it.
pub is_valid_config-IsBand : (c : AnalogChannel) → IsBand c → is_valid_config c ≡ true
unfolding is_valid_config
is_valid_config-IsBand c h = ground (arith, h.apart, h.word)
