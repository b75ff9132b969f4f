-- ===== src/Input/Turns.antt =====
-- The turns of a digital channel: at most one edge in a round.
use mathlib.Core.List.{append_assoc, append-nil}
use quark_ts_cpp.Prelude.{
  ℕ, ◌+◌, ◌%◌, ◌^◌, ◌≡◌, refl, sym, ap, subst, ◌∙◌, inl, inr, Bool, true, false, not, some, List,
  [], ◌∷◌, ◌++◌, ltb, ◌==◌, if◌then◌else◌, Bool-cases, ◌>>=◌,
}
use quark_ts_cpp.Prelude.Returns.{Returns, Returns-bind}
use quark_ts_cpp.Prelude.Word.{sub_word}
use quark_ts_cpp.Input.{
  Event, falling_edge, rising_edge, on_change, pulsation_double, pulsation_triple, pulsation_multi,
  falling_edge_state, DigitalChannel,
}
use quark_ts_cpp.Input.Digital.{
  dispatch, dispatch_both, steady_in_low_step, pulsate, leave_high, settle_high, rising_edge_step,
  steady_in_high_step, state_step, evaluate_state,
}
use quark_ts_cpp.Input.Recorder.{
  Log, recorder, edges, AtLevel, Turn, wrote, settle_high-Turn, settle_high_now, low-Turn,
}

steady_low-Turn :
    (c : DigitalChannel) (w : Log)
    → AtLevel false c.channel_state
    → (c.callback == 0) ≡ false
    → Returns (λ r. Turn false w r (not (c.value == 0))) (steady_in_low_step recorder (c, w))
unfolding steady_in_low_step dispatch dispatch_both edges
steady_low-Turn c w l h = elim (Bool-cases (c.value == 0)) [
  | inl e ↦ rw e (record {
    callback_at = h;
    written = [];
    log_at = sym (append-nil w.events);
    level_at = l;
    edges_at = refl;
  })
  | inr e ↦
      rw (e, h, h)
        (record {
          callback_at = h;
          written = rising_edge ∷ on_change ∷ [];
          log_at = append_assoc w.events (rising_edge ∷ []) (on_change ∷ []);
          level_at = inl refl;
          edges_at = refl;
        })
]

steady_high-Turn :
    (c : DigitalChannel) (w : Log)
    → AtLevel true c.channel_state
    → (c.callback == 0) ≡ false
    → Returns (λ r. Turn true w r (not (c.value == 0))) (steady_in_high_step recorder (c, w))
unfolding steady_in_high_step dispatch dispatch_both edges
steady_high-Turn c w l h = elim (Bool-cases (c.value == 0)) [
  | inr e ↦ rw e (record {
    callback_at = h;
    written = [];
    log_at = sym (append-nil w.events);
    level_at = l;
    edges_at = refl;
  })
  | inl e ↦
      rw (e, h, h)
        (record {
          callback_at = h;
          written = falling_edge ∷ on_change ∷ [];
          log_at = append_assoc w.events (falling_edge ∷ []) (on_change ∷ []);
          level_at = inl refl;
          edges_at = refl;
        })
]

-- The events of the pulsations are no edges, and the channel is otherwise as it was.
record Pulsed (c : DigitalChannel) (w : Log) (r : DigitalChannel × Log) : Type 0 where
  extra : List Event
  log_at : r.1.events ≡ w.events ++ extra
  no_edges : edges extra ≡ []
  state_at : r.0.channel_state ≡ c.channel_state
  time_at : r.0.t_change ≡ c.t_change
  callback_at : (r.0.callback == 0) ≡ false

one_pulse :
    (c : DigitalChannel) (w : Log) (e : Event)
    → edges (e ∷ []) ≡ []
    → (c.callback == 0) ≡ false
    → Returns (Pulsed c w) (dispatch recorder (c, w) e)
unfolding dispatch
one_pulse c w e n h = rw h (record {
  callback_at = h;
  extra = e ∷ [];
  log_at = refl;
  no_edges = n;
  state_at = refl;
  time_at = refl;
})

pulsate-Pulsed :
    (c : DigitalChannel) (w : Log)
    → (c.callback == 0) ≡ false
    → Returns (Pulsed c w) (pulsate recorder (c, w))
unfolding pulsate edges
pulsate-Pulsed c w h = elim (Bool-cases (ltb c.pulsation_count 2)) [
  | inl e ↦ rw e (record {
    callback_at = h;
    extra = [];
    log_at = sym (append-nil w.events);
    no_edges = refl;
    state_at = refl;
    time_at = refl;
  })
  | inr e ↦ elim (Bool-cases (c.pulsation_count == 2)) [
    | inl f ↦ rw (e, f) (one_pulse c w pulsation_double refl h)
    | inr f ↦ elim (Bool-cases (c.pulsation_count == 3)) [
      | inl g ↦ rw (e, f, g) (one_pulse c w pulsation_triple refl h)
      | inr g ↦ rw (e, f, g) (one_pulse c w pulsation_multi refl h)
    ]
  ]
]

-- After a falling edge, whatever the count.
fallen :
    (c : DigitalChannel) (w w1 : Log) (r : DigitalChannel × Log)
    → w1.events ≡ w.events ++ falling_edge ∷ on_change ∷ []
    → AtLevel false c.channel_state
    → Pulsed c w1 r
    → Turn true w r false
unfolding edges
fallen c w w1 r e l p = record {
  written = falling_edge ∷ on_change ∷ p.extra;
  log_at =
      p.log_at
      ∙ ap (λ es. es ++ p.extra) e
      ∙ append_assoc w.events (falling_edge ∷ on_change ∷ []) p.extra;
  level_at = subst (AtLevel false) (sym p.state_at) l;
  callback_at = p.callback_at;
  edges_at = ap (λ es. false ∷ es) p.no_edges;
}

-- The channel after the fall.
abbrev low_from : DigitalChannel → ℕ → ℕ → DigitalChannel
low_from c t n = record c {
  channel_state = falling_edge_state;
  last_event = on_change;
  pulsation_count = n;
  t_change = t;
}

both_written :
    (c : DigitalChannel) (w : Log) (e f : Event)
    → (c.callback == 0) ≡ false
    → dispatch_both recorder (c, w) e f
      ≡ some (record c { last_event = f }, wrote (wrote w (e ∷ [])) (f ∷ []))
unfolding dispatch dispatch_both
both_written c w e f h = rw (h, h) refl

leave_high_fall :
    (c : DigitalChannel) (w : Log) (t : ℕ)
    → (c.value == 0) ≡ true
    → (c.callback == 0) ≡ false
    → (n : ℕ) × (leave_high recorder t (c, w)
        ≡ pulsate recorder (low_from c t n, wrote (wrote w (falling_edge ∷ [])) (on_change ∷ [])))
unfolding leave_high
leave_high_fall c w t e h = (
  if ltb c.pulsation_interval (sub_word t c.t_change)
      then c.pulsation_count
      else (c.pulsation_count + 1) % 2 ^ 8,
  rw (e, both_written (record c { channel_state = falling_edge_state }) w falling_edge on_change h)
      refl,
)

settle_high_low :
    (c : DigitalChannel) (w w1 : Log) (r : DigitalChannel × Log) (t : ℕ)
    → w1.events ≡ w.events ++ falling_edge ∷ on_change ∷ []
    → AtLevel false c.channel_state
    → c.t_change ≡ t
    → Pulsed c w1 r
    → Returns (λ q. Turn true w q false) (settle_high recorder t r)
settle_high_low c w w1 r t e l k p =
    subst (Returns (λ q. Turn true w q false)) (sym (settle_high_now r.0 r.1 t (p.time_at ∙ k)))
      (fallen c w w1 r e l p)

falling-Turn :
    (c : DigitalChannel) (w : Log) (t : ℕ)
    → (c.value == 0) ≡ true
    → (c.callback == 0) ≡ false
    → Returns
        (λ r. Turn true w r false)
        (leave_high recorder t (c, w) >>= λ s. settle_high recorder t s)
falling-Turn c w t e h =
    let (n, f) = leave_high_fall c w t e h in
    let w1 = wrote (wrote w (falling_edge ∷ [])) (on_change ∷ []) in
    subst (λ q. Returns (λ r. Turn true w r false) (q >>= λ s. settle_high recorder t s)) (sym f)
      (Returns-bind (Pulsed (low_from c t n) w1) (λ r. Turn true w r false)
        (pulsate recorder (low_from c t n, w1)) (λ s. settle_high recorder t s)
        (pulsate-Pulsed (low_from c t n) w1 h)
        (λ r p.
          settle_high_low (low_from c t n) w w1 r t
            (append_assoc w.events (falling_edge ∷ []) (on_change ∷ [])) (inl refl) refl p))

leave_high_stay :
    (c : DigitalChannel) (w : Log) (t : ℕ)
    → (c.value == 0) ≡ false
    → leave_high recorder t (c, w) ≡ some (c, w)
unfolding leave_high
leave_high_stay c w t e = rw e refl

high-Turn :
    (c : DigitalChannel) (w : Log)
    → AtLevel true c.channel_state
    → (c.callback == 0) ≡ false
    → Returns (λ r. Turn true w r (not (c.value == 0))) (rising_edge_step recorder (c, w))
unfolding rising_edge_step
high-Turn c w l h = elim (Bool-cases (c.value == 0)) [
  | inl e ↦
      subst
        (λ b.
          Returns (λ r. Turn true w r (not b))
            (leave_high recorder w.time (c, w) >>= λ s. settle_high recorder w.time s))
        (sym e) (falling-Turn c w w.time e h)
  | inr e ↦
      subst
        (λ b.
          Returns (λ r. Turn true w r (not b))
            (leave_high recorder w.time (c, w) >>= λ s. settle_high recorder w.time s))
        (sym e)
        (subst (λ q. Returns (λ r. Turn true w r true) (q >>= λ s. settle_high recorder w.time s))
          (sym (leave_high_stay c w w.time e)) (settle_high-Turn c w w.time l h))
]

-- A round at a level.
pub evaluate-Turn :
    (b : Bool) (c : DigitalChannel) (w : Log)
    → AtLevel b c.channel_state
    → (c.callback == 0) ≡ false
    → Returns (λ r. Turn b w r (not (c.value == 0))) (evaluate_state recorder (c, w))
unfolding evaluate_state state_step
evaluate-Turn false c w (inl e) h =
    subst (λ st. Returns (λ r. Turn false w r (not (c.value == 0))) (state_step recorder (c, w) st))
      (sym e) (low-Turn c w (inl e) h)
evaluate-Turn false c w (inr e) h =
    subst (λ st. Returns (λ r. Turn false w r (not (c.value == 0))) (state_step recorder (c, w) st))
      (sym e) (steady_low-Turn c w (inr e) h)
evaluate-Turn true c w (inl e) h =
    subst (λ st. Returns (λ r. Turn true w r (not (c.value == 0))) (state_step recorder (c, w) st))
      (sym e) (high-Turn c w (inl e) h)
evaluate-Turn true c w (inr e) h =
    subst (λ st. Returns (λ r. Turn true w r (not (c.value == 0))) (state_step recorder (c, w) st))
      (sym e) (steady_high-Turn c w (inr e) h)
