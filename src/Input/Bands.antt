-- ===== src/Input/Bands.antt =====
-- The zones of an analog channel, with hysteresis.
use quark_ts_cpp.Prelude.{
  ℕ, ◌+◌, ◌-◌, ◌<◌, ◌≡◌, refl, ap, ◌∙◌, inl, inr, Bool, true, false, Option, none, some, ltb, ◌==◌,
  sym, subst, ◌>>=◌, if◌then◌else◌, arith, Bool-cases,
}
use quark_ts_cpp.Prelude.Word.{add_word, sub_word, modulus}
use quark_ts_cpp.Input.{
  Event, AnalogState, no_state, low_threshold_state, high_threshold_state, in_band_state,
  steady_low_state, steady_high_state, steady_band_state, AnalogChannel, Inputs, on_change,
}
use quark_ts_cpp.Prelude.Returns.{Returns, Returns-bind, Returns-map}
use quark_ts_cpp.Input.Analog.{dispatch, change, change_at, stamped, settle}

pub data Zone : Type 0 where
  low_zone band_zone high_zone : Zone

-- The zone of a value, from the zone before: outside the thresholds at once, back in the band only by more
-- than the hysteresis.
pub next_zone : AnalogChannel → Zone → Zone
next_zone c z =
    if ltb c.high c.value
    then high_zone
    else (if ltb c.value c.low then low_zone else elim z [
      | low_zone ↦ if ltb (c.low + c.hysteresis) c.value then band_zone else low_zone
      | band_zone ↦ band_zone
      | high_zone ↦ if ltb c.value (c.high - c.hysteresis) then band_zone else high_zone
    ])

-- The zone that a state stands for.
abbrev pub zone_of : AnalogState → Option Zone
zone_of no_state = none
zone_of low_threshold_state = some low_zone
zone_of steady_low_state = some low_zone
zone_of in_band_state = some band_zone
zone_of steady_band_state = some band_zone
zone_of high_threshold_state = some high_zone
zone_of steady_high_state = some high_zone

-- The callbacks leave the channel alone.
abbrev pub LeavesAlone : {W : Type 0} → Inputs W → Type 0
LeavesAlone {W} u = (f : ℕ) (c : AnalogChannel) (w : W) → (u.analog_callback f c w).0 ≡ c

-- The thresholds are words, further apart than the hysteresis.
pub record IsBand (c : AnalogChannel) : Type 0 where
  pub apart : c.low + c.hysteresis < c.high
  pub word : c.high < modulus

pub next_high :
    (c : AnalogChannel) (z : Zone) → ltb c.high c.value ≡ true → next_zone c z ≡ high_zone
unfolding next_zone
next_high c z e = rw e refl

pub next_low :
    (c : AnalogChannel) (z : Zone)
    → ltb c.high c.value ≡ false
    → ltb c.value c.low ≡ true
    → next_zone c z ≡ low_zone
unfolding next_zone
next_low c z e f = rw (e, f) refl

low_edge : (c : AnalogChannel) → IsBand c → add_word c.low c.hysteresis ≡ c.low + c.hysteresis
low_edge c h = omega (arith, h.apart, h.word)

high_edge : (c : AnalogChannel) → IsBand c → sub_word c.high c.hysteresis ≡ c.high - c.hysteresis
high_edge c h = omega (arith, h.apart, h.word)

-- From the low zone, by the sum of the threshold and the hysteresis as the code computes it.
pub next_from_low :
    (c : AnalogChannel) (b : Bool)
    → IsBand c
    → ltb c.high c.value ≡ false
    → ltb (add_word c.low c.hysteresis) c.value ≡ b
    → next_zone c low_zone ≡ (if b then band_zone else low_zone)
unfolding next_zone
next_from_low c true h e f = ground (arith, low_edge c h, e, f)
next_from_low c false h e f = ground (arith, low_edge c h, e, f)

pub next_from_high :
    (c : AnalogChannel) (b : Bool)
    → IsBand c
    → ltb c.value c.low ≡ false
    → ltb c.value (sub_word c.high c.hysteresis) ≡ b
    → next_zone c high_zone ≡ (if b then band_zone else high_zone)
unfolding next_zone
next_from_high c true h e f = ground (arith, high_edge c h, h.apart, e, f)
next_from_high c false h e f = ground (arith, high_edge c h, h.apart, e, f)

pub next_from_band :
    (c : AnalogChannel)
    → ltb c.high c.value ≡ false
    → ltb c.value c.low ≡ false
    → next_zone c band_zone ≡ band_zone
unfolding next_zone
next_from_band c e f = rw (e, f) refl

-- Below the lower threshold a value is not above the higher one.
pub below_high :
    (c : AnalogChannel) → IsBand c → ltb c.value c.low ≡ true → ltb c.high c.value ≡ false
below_high c h e = ground (arith, h.apart, e)

-- The channel is in the zone `y`.
abbrev pub ZoneIs : {W : Type 0} → Option Zone → AnalogChannel × W → Type 0
ZoneIs y r = zone_of r.0.channel_state ≡ y

pub ends :
    {W : Type 0} (o : Option (AnalogChannel × W)) {y z : Option Zone}
    → y ≡ z
    → Returns (ZoneIs y) o
    → Returns (ZoneIs z) o
ends o e r = subst (λ y. Returns (ZoneIs y) o) e r

module _ {W : Type 0} (u : Inputs W) (quiet : LeavesAlone u) where
  -- What an event leaves of the channel.
  dispatch_lem :
      (s : AnalogChannel × W) (e : Event)
      → (s.0.callback == 0) ≡ false
      → Returns (λ r. r.0 ≡ record s.0 { last_event = e }) (dispatch u s e)
  unfolding dispatch
  dispatch_lem s e h = rw h (quiet s.0.callback _ s.1)

  -- After a change at the time `t`.
  abbrev Changed : AnalogState → (AnalogChannel × W → ℕ) → AnalogChannel × W → Type 0
  Changed st f r = (s1 : AnalogChannel × W) × (r ≡ stamped u s1 (f s1)) × (s1.0.channel_state ≡ st)

  change_at-Changed :
      (s : AnalogChannel × W) (st : AnalogState) (e : Event) (f : AnalogChannel × W → ℕ)
      → (s.0.callback == 0) ≡ false
      → Returns (Changed st f) (change_at u s st e f)
  unfolding change_at change
  change_at-Changed s st e f h =
      Returns-bind (λ (r : AnalogChannel × W). r.0.channel_state ≡ st) (Changed st f)
        (change u s st e) (λ r. some (stamped u r (f r)))
        (Returns-bind
          (λ (r : AnalogChannel × W). r.0 ≡ record s.0 { channel_state = st; last_event = e })
          (λ (r : AnalogChannel × W). r.0.channel_state ≡ st) (dispatch u s1 e) _
          (dispatch_lem s1 e h)
          (λ r g.
            Returns-map (λ (q : AnalogChannel × W). q.0 ≡ record r.0 { last_event = on_change })
              (λ (q : AnalogChannel × W). q.0.channel_state ≡ st) (dispatch u r on_change)
              (λ q k.
                ap (λ (c : AnalogChannel). c.channel_state) k
                ∙ ap (λ (c : AnalogChannel). c.channel_state) g)
              (dispatch_lem r on_change (ap (λ (c : AnalogChannel). c.callback == 0) g ∙ h))))
        (λ r g. (r, refl, g))
    where
      s1 : AnalogChannel × W
      s1 = (record s.0 { channel_state = st }, s.1)

  -- The zone of a changed channel.
  pub moved :
      (s : AnalogChannel × W) (st : AnalogState) (e : Event) (f : AnalogChannel × W → ℕ)
      → (s.0.callback == 0) ≡ false
      → Returns (ZoneIs (zone_of st)) (change_at u s st e f)
  moved s st e f h =
      Returns-map (Changed st f) (ZoneIs (zone_of st)) (change_at u s st e f)
        (λ r (s1, g, k). ap (λ (q : AnalogChannel × W). zone_of q.0.channel_state) g ∙ ap zone_of k)
        (change_at-Changed s st e f h)

  pub settle_zone :
      (t d : ℕ) (st : AnalogState) (e : Event) (s : AnalogChannel × W)
      → (s.0.callback == 0) ≡ false
      → zone_of st ≡ zone_of s.0.channel_state
      → Returns (ZoneIs (zone_of s.0.channel_state)) (settle u t d st e s)
  unfolding settle
  settle_zone t d st e s h z = elim (Bool-cases (ltb d (sub_word t s.0.t_change))) [
    | inl f ↦ rw f (
        Returns-bind
          (λ (r : AnalogChannel × W). r.0 ≡ record s.0 { channel_state = st; last_event = e })
          (ZoneIs (zone_of s.0.channel_state))
          (dispatch u (record s.0 { channel_state = st }, s.1) e) _
          (dispatch_lem (record s.0 { channel_state = st }, s.1) e h)
          (λ r g. ap (λ (c : AnalogChannel). zone_of c.channel_state) g ∙ z))
    | inr f ↦ rw f refl
  ]

  -- A channel that has just changed is not steady.
  settle_now :
      (t d : ℕ) (st : AnalogState) (e : Event) (s : AnalogChannel × W)
      → settle u t d st e (stamped u s t) ≡ some (stamped u s t)
  unfolding settle
  settle_now t d st e s = let f : ltb d (sub_word t t) ≡ false = ground arith in rw f refl

  pub settled :
      (t : ℕ) (d : AnalogChannel × W → ℕ) (st st' : AnalogState) (e e' : Event)
      (s : AnalogChannel × W)
      → (s.0.callback == 0) ≡ false
      → Returns
          (ZoneIs (zone_of st'))
          (change_at u s st' e' (λ r. t) >>= λ s1. settle u t (d s1) st e s1)
  settled t d st st' e e' s h =
      Returns-bind (Changed st' (λ r. t)) (ZoneIs (zone_of st')) (change_at u s st' e' (λ r. t))
        (λ s1. settle u t (d s1) st e s1) (change_at-Changed s st' e' (λ r. t) h)
        (λ r (s1, g, k).
          subst (λ q. Returns (ZoneIs (zone_of st')) (settle u t (d q) st e q)) (sym g)
            (subst (Returns (ZoneIs (zone_of st')))
              (sym (settle_now t (d (stamped u s1 t)) st e s1)) (ap zone_of k)))
