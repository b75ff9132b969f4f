-- ===== src/Input/Recorder.antt =====
-- A recorder of the events of digital channels, and the turns of a low channel.
use mathlib.Core.List.{append_assoc, append-nil}
use quark_ts_cpp.Prelude.{
  ℕ, ◌≡◌, ◌⊎◌, refl, sym, ap, subst, inl, inr, Bool, true, false, not, List, [], ◌∷◌, ◌++◌, ltb,
  ◌==◌, if◌then◌else◌, arith, Bool-cases, some, ◌>>=◌,
}
use quark_ts_cpp.Prelude.Returns.{Returns}
use quark_ts_cpp.Prelude.Word.{sub_word}
use quark_ts_cpp.Input.{
  Event, falling_edge, rising_edge, on_change, steady_in_low, steady_in_high, DigitalState,
  falling_edge_state, steady_in_low_state, rising_edge_state, steady_in_high_state, DigitalChannel,
  Inputs,
}
use quark_ts_cpp.Input.Digital.{
  dispatch, dispatch_both, leave_low, settle_low, falling_edge_step, settle_high,
}

-- The events so far, and the time.
pub record Log : Type 0 where
  pub events : List Event
  pub time : ℕ

-- Callbacks that only write down the event.
abbrev pub recorder : Inputs Log
recorder = record {
  digital_callback = λ f c w. (c, record w { events = w.events ++ c.last_event ∷ [] });
  analog_callback = λ f c w. (c, record w { events = w.events ++ c.last_event ∷ [] });
  digital_reader = λ f n w. 0;
  analog_reader = λ f n w. 0;
  now = λ w. w.time;
}

-- The edges among the events, `true` for a rising one.
unfoldable pub edges : List Event → List Bool
edges [] = []
edges (falling_edge ∷ es) = false ∷ edges es
edges (rising_edge ∷ es) = true ∷ edges es
edges (_ ∷ es) = edges es

-- The level that a state stands for, `true` for high; none for the null pointer.
abbrev pub AtLevel : Bool → DigitalState → Type 0
AtLevel true st = (st ≡ rising_edge_state) ⊎ (st ≡ steady_in_high_state)
AtLevel false st = (st ≡ falling_edge_state) ⊎ (st ≡ steady_in_low_state)

no_time : (t : ℕ) (d : ℕ) → ltb d (sub_word t t) ≡ false
no_time t d = ground arith

-- What a round does at the level `b`: it stays, or there is one edge.
pub record Turn (b : Bool) (w : Log) (r : DigitalChannel × Log) (level : Bool) : Type 0 where
  pub written : List Event
  pub log_at : r.1.events ≡ w.events ++ written
  pub level_at : AtLevel level r.0.channel_state
  pub callback_at : (r.0.callback == 0) ≡ false
  pub edges_at :
      edges written
      ≡ (if b then (if level then [] else false ∷ []) else (if level then true ∷ [] else []))

abbrev pub wrote : Log → List Event → Log
wrote w es = record w { events = w.events ++ es }

two_wrote : (w : Log) (a b : Event) → wrote (wrote w (a ∷ [])) (b ∷ []) ≡ wrote w (a ∷ b ∷ [])
two_wrote w a b = ap (λ es. record w { events = es }) (append_assoc w.events (a ∷ []) (b ∷ []))

-- The later state of a low channel, with the events before it.
pub settle_low-Turn :
    (c : DigitalChannel) (w : Log) (t : ℕ)
    → AtLevel false c.channel_state
    → (c.callback == 0) ≡ false
    → Returns (λ r. Turn false w r false) (settle_low recorder t (c, w))
unfolding settle_low dispatch edges
settle_low-Turn c w t l h = elim (Bool-cases (ltb c.t_steady_low (sub_word t c.t_change))) [
  | inl e ↦
      rw (e, h)
        (record {
          callback_at = h;
          written = steady_in_low ∷ [];
          log_at = refl;
          level_at = inr refl;
          edges_at = refl;
        })
  | inr e ↦ rw e (record {
    callback_at = h;
    written = [];
    log_at = sym (append-nil w.events);
    level_at = l;
    edges_at = refl;
  })
]

pub settle_high-Turn :
    (c : DigitalChannel) (w : Log) (t : ℕ)
    → AtLevel true c.channel_state
    → (c.callback == 0) ≡ false
    → Returns (λ r. Turn true w r true) (settle_high recorder t (c, w))
unfolding settle_high dispatch edges
settle_high-Turn c w t l h = elim (Bool-cases (ltb c.t_steady_high (sub_word t c.t_change))) [
  | inl e ↦
      rw (e, h)
        (record {
          callback_at = h;
          written = steady_in_high ∷ [];
          log_at = refl;
          level_at = inr refl;
          edges_at = refl;
        })
  | inr e ↦ rw e (record {
    callback_at = h;
    written = [];
    log_at = sym (append-nil w.events);
    level_at = l;
    edges_at = refl;
  })
]

-- After a change the channel is not overdue.
pub settle_low_now :
    (c : DigitalChannel) (w : Log) (t : ℕ)
    → c.t_change ≡ t
    → settle_low recorder t (c, w) ≡ some (c, w)
unfolding settle_low
settle_low_now c w t e =
    let f : ltb c.t_steady_low (sub_word t c.t_change) ≡ false = rw e (no_time t c.t_steady_low) in
    rw f refl

pub settle_high_now :
    (c : DigitalChannel) (w : Log) (t : ℕ)
    → c.t_change ≡ t
    → settle_high recorder t (c, w) ≡ some (c, w)
unfolding settle_high
settle_high_now c w t e =
    let f : ltb c.t_steady_high (sub_word t c.t_change) ≡ false =
      rw e (no_time t c.t_steady_high) in
    rw f refl

rising-Turn :
    (c : DigitalChannel) (w : Log)
    → (c.value == 0) ≡ false
    → (c.callback == 0) ≡ false
    → (t : ℕ)
    → Returns
        (λ r. Turn false w r true)
        (leave_low recorder t (c, w) >>= λ s. settle_low recorder t s)
unfolding leave_low dispatch dispatch_both edges
rising-Turn c w e h t =
    rw (e, h, h)
      (subst (Returns (λ r. Turn false w r true)) (sym (settle_low_now _ _ t refl)) (record {
        callback_at = h;
        written = rising_edge ∷ on_change ∷ [];
        log_at = append_assoc w.events (rising_edge ∷ []) (on_change ∷ []);
        level_at = inl refl;
        edges_at = refl;
      }))

pub low-Turn :
    (c : DigitalChannel) (w : Log)
    → AtLevel false c.channel_state
    → (c.callback == 0) ≡ false
    → Returns (λ r. Turn false w r (not (c.value == 0))) (falling_edge_step recorder (c, w))
unfolding falling_edge_step leave_low
low-Turn c w l h = elim (Bool-cases (c.value == 0)) [
  | inl e ↦ rw e (settle_low-Turn c w w.time l h)
  | inr e ↦ rw e (unfold leave_low in rw e at (rising-Turn c w e h w.time))
]
