-- ===== src/Input.antt =====
-- src/input.cpp: events of digital and analog input channels. Channels are known by their addresses; a
-- reading is a 32-bit word. `W` is what the user's functions see and change beside the channel, the
-- clock included.
pub mod Digital
pub mod Analog
pub mod Watcher
pub mod Bands
pub mod Sharing
pub mod Zones
pub mod Recorder
pub mod Turns
pub mod Edges
use quark_ts_cpp.Prelude.{ℕ, Bool}

pub data Event : Type 0 where
  no_event exception_event on_change falling_edge rising_edge : Event
  pulsation_double pulsation_triple pulsation_multi : Event
  high_threshold low_threshold in_band : Event
  steady_in_high steady_in_low steady_in_band : Event
  delta_event step_up step_down : Event

-- The function in `channelState`; `unset` and `no_state` are the null pointer.
pub data DigitalState : Type 0 where
  unset falling_edge_state steady_in_low_state rising_edge_state steady_in_high_state : DigitalState

pub data AnalogState : Type 0 where
  no_state low_threshold_state high_threshold_state in_band_state : AnalogState
  steady_low_state steady_high_state steady_band_state : AnalogState

-- `digitalChannel`, with the members of `channel`.
pub record DigitalChannel : Type 0 where
  pub last_event : Event
  pub number : ℕ
  pub user_data : ℕ
  pub callback : ℕ
  pub t_change : ℕ
  pub t_steady_high : ℕ
  pub t_steady_low : ℕ
  pub value : ℕ
  pub reader : ℕ
  pub channel_state : DigitalState
  pub negate : Bool
  pub pulsation_interval : ℕ
  pub pulsation_count : ℕ

-- `analogChannel`; `ptr_value` is the address of the channel whose value is read.
pub record AnalogChannel : Type 0 where
  pub last_event : Event
  pub number : ℕ
  pub user_data : ℕ
  pub callback : ℕ
  pub t_change : ℕ
  pub t_steady_high : ℕ
  pub t_steady_low : ℕ
  pub t_steady_band : ℕ
  pub value : ℕ
  pub ptr_value : ℕ
  pub reader : ℕ
  pub channel_state : AnalogState
  pub high : ℕ
  pub low : ℕ
  pub last_step : ℕ
  pub last_sampled : ℕ
  pub delta : ℕ
  pub step : ℕ
  pub hysteresis : ℕ

-- The user's functions, by their addresses.
pub record Inputs (W : Type 0) : Type 0 where
  pub digital_callback : ℕ → DigitalChannel → W → DigitalChannel × W
  pub analog_callback : ℕ → AnalogChannel → W → AnalogChannel × W
  pub digital_reader : ℕ → ℕ → W → ℕ
  pub analog_reader : ℕ → ℕ → W → ℕ
  pub now : W → ℕ
