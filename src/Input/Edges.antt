-- ===== src/Input/Edges.antt =====
-- The events of a digital channel over a sequence of samples.
use mathlib.Core.List.{append_assoc, append-nil}
use quark_ts_cpp.Prelude.{
  ℕ, ◌≡◌, refl, sym, ap, subst, ◌∙◌, Bool, true, false, not, Option, some, List, [], ◌∷◌, ◌++◌,
  ◌>>=◌, ◌==◌, if◌then◌else◌,
}
use quark_ts_cpp.Prelude.Returns.{Returns, Returns-map, Returns-bind}
use quark_ts_cpp.Input.{
  no_event, exception_event, high_threshold, low_threshold, in_band, steady_in_band, delta_event,
  step_up, step_down, Event, falling_edge, rising_edge, on_change, steady_in_low, steady_in_high,
  pulsation_double, pulsation_triple, pulsation_multi, DigitalChannel,
}
use quark_ts_cpp.Input.Digital.{evaluate_state}
use quark_ts_cpp.Input.Recorder.{Log, recorder, edges, AtLevel, Turn}
use quark_ts_cpp.Input.Turns.{evaluate-Turn}

-- `evaluateState` at each time and with each value.
unfoldable pub rounds : DigitalChannel × Log → List (ℕ × ℕ) → Option (DigitalChannel × Log)
rounds s [] = some s
rounds (c, w) ((t, v) ∷ samples) =
    evaluate_state recorder (record c { value = v }, record w { time = t }) >>= λ s.
    rounds s samples

-- The edges alternate, and the first is `b`.
pub Alternates : Bool → List Bool → Type 0
Alternates b [] = Unit
Alternates b (x ∷ xs) = (x ≡ b) × Alternates (not b) xs

edges-append : (es fs : List Event) → edges (es ++ fs) ≡ edges es ++ edges fs
unfolding edges
edges-append [] fs = refl
edges-append (falling_edge ∷ es) fs = ap (λ bs. false ∷ bs) (edges-append es fs)
edges-append (rising_edge ∷ es) fs = ap (λ bs. true ∷ bs) (edges-append es fs)
edges-append (no_event ∷ es) fs = edges-append es fs
edges-append (exception_event ∷ es) fs = edges-append es fs
edges-append (on_change ∷ es) fs = edges-append es fs
edges-append (pulsation_double ∷ es) fs = edges-append es fs
edges-append (pulsation_triple ∷ es) fs = edges-append es fs
edges-append (pulsation_multi ∷ es) fs = edges-append es fs
edges-append (high_threshold ∷ es) fs = edges-append es fs
edges-append (low_threshold ∷ es) fs = edges-append es fs
edges-append (in_band ∷ es) fs = edges-append es fs
edges-append (steady_in_high ∷ es) fs = edges-append es fs
edges-append (steady_in_low ∷ es) fs = edges-append es fs
edges-append (steady_in_band ∷ es) fs = edges-append es fs
edges-append (delta_event ∷ es) fs = edges-append es fs
edges-append (step_up ∷ es) fs = edges-append es fs
edges-append (step_down ∷ es) fs = edges-append es fs

-- After a turn that goes from the level `b` to the level `l`.
then-Alternates :
    (b l : Bool) (xs : List Bool)
    → Alternates (not l) xs
    → Alternates
        (not b)
        ((if b then (if l then [] else false ∷ []) else (if l then true ∷ [] else [])) ++ xs)
unfolding Alternates
then-Alternates true true xs a = a
then-Alternates true false xs a = (refl, a)
then-Alternates false true xs a = (refl, a)
then-Alternates false false xs a = a

-- What the samples leave: the events written, whose edges alternate.
pub record Sampled (b : Bool) (w : Log) (r : DigitalChannel × Log) : Type 0 where
  pub written : List Event
  pub log_at : r.1.events ≡ w.events ++ written
  pub alternate : Alternates (not b) (edges written)

-- A turn, then the samples after it.
after-Turn :
    (b : Bool) (w : Log) (t : ℕ) (l : Bool) (r r2 : DigitalChannel × Log)
    → Turn b (record w { time = t }) r l
    → Sampled l r.1 r2
    → Sampled b w r2
unfolding Alternates
after-Turn b w t l r r2 turn s = record {
  written = turn.written ++ s.written;
  log_at =
      s.log_at
      ∙ ap (λ es. es ++ s.written) turn.log_at
      ∙ append_assoc w.events turn.written s.written;
  alternate =
      subst (Alternates (not b))
        (sym (edges-append turn.written s.written ∙ ap (λ xs. xs ++ edges s.written) turn.edges_at))
        (then-Alternates b l (edges s.written) s.alternate);
}

-- With callbacks that only write down the event, and a channel that has a callback: from a state for a
-- level, any sequence of samples is evaluated without a fault, and the edges that are reported
-- alternate: the first leaves the level, and no edge is reported twice in a row.
pub rounds-Sampled :
    (b : Bool) (c : DigitalChannel) (w : Log) (samples : List (ℕ × ℕ))
    → AtLevel b c.channel_state
    → (c.callback == 0) ≡ false
    → Returns (Sampled b w) (rounds (c, w) samples)
unfolding rounds Alternates
rounds-Sampled b c w [] l h = record {
  written = [];
  log_at = sym (append-nil w.events);
  alternate = unfold edges in tt;
}
rounds-Sampled b c w ((t, v) ∷ samples) l h =
    let w0 = record w { time = t } in
    let l1 = not (v == 0) in
    Returns-bind (λ r. Turn b w0 r l1) (Sampled b w)
      (evaluate_state recorder (record c { value = v }, w0)) (λ s. rounds s samples)
      (evaluate-Turn b (record c { value = v }) w0 l h)
      (λ r turn.
        Returns-map (Sampled l1 r.1) (Sampled b w) (rounds r samples)
          (λ r2 s. after-Turn b w t l1 r r2 turn s)
          (rounds-Sampled l1 r.0 r.1 samples turn.level_at turn.callback_at))
