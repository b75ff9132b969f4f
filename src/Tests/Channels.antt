-- ===== src/Tests/Channels.antt =====
-- Digital and analog channels.
use quark_ts_cpp.Prelude.{
  ℕ, ◌≡◌, refl, inl, false, ◌&&◌, some, List, [], ◌∷◌, ◌==◌, if◌then◌else◌, ◌>>=◌, arith,
}
use quark_ts_cpp.Prelude.Returns.{Returns}
use quark_ts_cpp.Input.{
  Event, no_event, rising_edge, falling_edge, on_change, pulsation_double, falling_edge_state,
  low_threshold_state, DigitalChannel, AnalogChannel, Inputs,
}
use quark_ts_cpp.Input.Analog.{evaluate_state}
use quark_ts_cpp.Input.Watcher.{Watcher, remove_analog, without, find_number}
use quark_ts_cpp.Input.Recorder.{Log, recorder}
use quark_ts_cpp.Input.Edges.{rounds, Sampled, rounds-Sampled}
use quark_ts_cpp.Input.Bands.{low_zone, next_zone, zone_of}
use quark_ts_cpp.Input.Zones.{evaluate_state-next_zone}
use quark_ts_cpp.Input.Sharing.{reads_from, remove_analog-shares}
use quark_ts_cpp.Kernel.Lists.{member}

abbrev button : DigitalChannel
button = record {
  last_event = no_event;
  number = 1;
  user_data = 0;
  callback = 9;
  t_change = 0;
  t_steady_high = 1000;
  t_steady_low = 1000;
  value = 0;
  reader = 8;
  channel_state = falling_edge_state;
  negate = false;
  pulsation_interval = 250;
  pulsation_count = 0;
}

abbrev log0 : Log
log0 = record { events = []; time = 0 }

-- Pressed and released twice.
abbrev presses : List (ℕ × ℕ)
presses = (10, 1) ∷ (20, 0) ∷ (30, 1) ∷ (40, 0) ∷ []

rounds-Sampled_example : Returns (Sampled false log0) (rounds (button, log0) presses)
rounds-Sampled_example = rounds-Sampled false button log0 presses (inl refl) refl

presses_seen :
    (rounds (button, log0) presses >>= λ r. some r.1.events)
    ≡ some (
        rising_edge ∷ on_change ∷ falling_edge ∷ on_change ∷ rising_edge ∷ on_change ∷ falling_edge
        ∷ on_change ∷ pulsation_double ∷ [])
unfolding rounds quark_ts_cpp.Input.Digital.evaluate_state
presses_seen = refl

abbrev sensor : AnalogChannel
sensor = record {
  last_event = no_event;
  number = 3;
  user_data = 0;
  callback = 9;
  t_change = 0;
  t_steady_high = 1000;
  t_steady_low = 1000;
  t_steady_band = 1000;
  value = 215;
  ptr_value = 7;
  reader = 8;
  channel_state = low_threshold_state;
  high = 800;
  low = 200;
  last_step = 0;
  last_sampled = 0;
  delta = 100;
  step = 50;
  hysteresis = 20;
}

evaluate_state-next_zone_example :
    (r : AnalogChannel × Log) × (evaluate_state recorder (sensor, log0) ≡ some r)
    × (zone_of r.0.channel_state ≡ some (next_zone sensor low_zone))
evaluate_state-next_zone_example =
    evaluate_state-next_zone recorder (λ f c w. refl) sensor log0 low_zone
      (record { apart = omega arith; word = omega arith }) refl refl

abbrev station : Watcher
station = record {
  digitals = λ a. button;
  analogs = λ a. sensor;
  digital_channels = [];
  analog_channels = 7 ∷ 17 ∷ 27 ∷ [];
  wait_debounce = record { t_start = 0; tv = 0 };
  debounce_time = 100;
  digital_reader = 8;
  analog_reader = 8;
}

remove_analog-shares_example :
    ((remove_analog station 7).0.analogs 27).ptr_value
    ≡ reads_from
        (find_number station.analogs 3 (without 7 station.analog_channels))
        (member (without 7 station.analog_channels) 27 && ((station.analogs 27).number == 3))
        (if 27 == 7 then 7 else (station.analogs 27).ptr_value)
remove_analog-shares_example = remove_analog-shares station 7 27
