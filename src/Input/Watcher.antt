-- ===== src/Input/Watcher.antt =====
-- src/input.cpp: the watcher of the channels. A list of channels is the sequence of their addresses, in
-- the order of src/list.cpp; the callbacks leave the lists alone.
use quark_ts_cpp.Prelude.{
  ℕ, Bool, not, ◌&&◌, Option, none, some, List, [], ◌∷◌, ◌>>=◌, ◌==◌, if◌then◌else◌, length,
}
use quark_ts_cpp.Timer.{Timer, reload_if_expired_or_set}
use quark_ts_cpp.Kernel.Lists.{member, insert_back}
use quark_ts_cpp.Input.{exception_event, DigitalChannel, AnalogChannel, Inputs}
use quark_ts_cpp.Input.Digital
use quark_ts_cpp.Input.Analog

-- The members of `watcher`, beside the channels by address.
pub record Watcher : Type 0 where
  pub digitals : ℕ → DigitalChannel
  pub analogs : ℕ → AnalogChannel
  pub digital_channels : List ℕ
  pub analog_channels : List ℕ
  pub wait_debounce : Timer
  pub debounce_time : ℕ
  pub digital_reader : ℕ
  pub analog_reader : ℕ

unfoldable pub get_analog_channels_count : Watcher → ℕ
get_analog_channels_count m = length m.analog_channels

unfoldable pub get_digital_channels_count : Watcher → ℕ
get_digital_channels_count m = length m.digital_channels

unfoldable pub put_digital : Watcher → ℕ → DigitalChannel → Watcher
put_digital m a c = record m { digitals = λ x. if x == a then c else m.digitals x }

unfoldable pub put_analog : Watcher → ℕ → AnalogChannel → Watcher
put_analog m a c = record m { analogs = λ x. if x == a then c else m.analogs x }

-- The order of `remove`.
unfoldable pub without : ℕ → List ℕ → List ℕ
without a [] = []
without a (x ∷ xs) = if x == a then xs else x ∷ without a xs

-- The first channel of the list that has the number.
unfoldable pub find_number : (ℕ → AnalogChannel) → ℕ → List ℕ → Option ℕ
find_number channels n [] = none
find_number channels n (a ∷ xs) =
    if n == (channels a).number then some a else find_number channels n xs

module _ {W : Type 0} (u : Inputs W) where
  -- A round of the loop over the digital channels.
  unfoldable pub watch_digital : Watcher × W → ℕ → Option (Watcher × W)
  unfolding put_digital Digital.update_reading Digital.evaluate_state Digital.dispatch
  watch_digital (m, w) a =
      let c = m.digitals a in
      let read = Digital.update_reading u (c, w) >>= λ s. Digital.evaluate_state u s in
      let failed = Digital.dispatch u (c, w) exception_event in
      if c.callback == 0
      then some (m, w)
      else (if not (m.digital_reader == 0)
          then (read >>= λ (c1, w1). some (put_digital m a c1, w1))
          else (failed >>= λ (c1, w1). some (put_digital m a c1, w1)))

  unfoldable pub watch_analog : Bool → Watcher × W → ℕ → Option (Watcher × W)
  unfolding put_analog Analog.is_valid_config Analog.update_reading Analog.evaluate_state
      Analog.dispatch
  watch_analog act (m, w) a =
      let c = m.analogs a in
      let read =
        Analog.update_reading u m.analogs a act (c, w) >>= λ s. Analog.evaluate_state u s in
      let failed = Analog.dispatch u (c, w) exception_event in
      if c.callback == 0
      then some (m, w)
      else (if not (m.analog_reader == 0) && Analog.is_valid_config c
          then (read >>= λ (c1, w1). some (put_analog m a c1, w1))
          else (failed >>= λ (c1, w1). some (put_analog m a c1, w1)))

  unfoldable pub watch_each :
      (Watcher × W → ℕ → Option (Watcher × W)) → List ℕ → Watcher × W → Option (Watcher × W)
  watch_each f [] s = some s
  watch_each f (a ∷ xs) s = f s a >>= λ s1. watch_each f xs s1

  unfoldable pub watch : Watcher × W → Option (Watcher × W)
  unfolding watch_digital watch_analog watch_each reload_if_expired_or_set
  watch (m, w) =
      let (t, act) = reload_if_expired_or_set m.wait_debounce m.debounce_time (u.now w) in
      let m1 = record m { wait_debounce = t } in
      let digital =
        if act then watch_each watch_digital m.digital_channels (m1, w) else some (m1, w) in
      digital >>= λ s. watch_each (watch_analog act) s.0.analog_channels s

  unfoldable pub add_digital : Watcher × W → ℕ → Watcher × Bool
  unfolding put_digital insert_back Digital.set_initial_state
  add_digital (m, w) a =
      let c = record (m.digitals a) { reader = m.digital_reader } in
      let c1 = Digital.set_initial_state u (c, w) in
      let (xs, ok) = insert_back m.digital_channels a in
      (record (put_digital m a (record c1 { t_change = u.now w })) { digital_channels = xs }, ok)

  -- A channel with the number of one in the list shares its value.
  unfoldable pub add_analog : Watcher × W → ℕ → Option (Watcher × Bool)
  unfolding put_analog insert_back find_number Analog.set_initial_state
  add_analog (m, w) a =
      let c = record (m.analogs a) { reader = m.analog_reader } in
      Analog.set_initial_state u (c, w) >>= λ c1.
      (let m1 = put_analog m a c1 in
        let ptr : ℕ = elim (find_number m1.analogs c1.number m.analog_channels) [
          | none ↦ c1.ptr_value
          | some b ↦ b
        ] in
        let (xs, ok) = insert_back m.analog_channels a in
        some (
          record (put_analog m a (record c1 { ptr_value = ptr; t_change = u.now w })) {
            analog_channels = xs;
          },
          ok,
        ))

-- The channels of the list that share the number take the first of them as the one that reads.
unfoldable pub share_again : ℕ → List ℕ → Option ℕ → Watcher → Watcher
unfolding put_analog
share_again n [] first m = m
share_again n (a ∷ xs) first m =
    let c = m.analogs a in
    let ptr : ℕ = elim first [ none ↦ a | some b ↦ b ] in
    let hit = share_again n xs (some ptr) (put_analog m a (record c { ptr_value = ptr })) in
    let miss = share_again n xs first m in if c.number == n then hit else miss

-- `remove` of a channel that is in the list.
unfoldable pub remove_digital : Watcher → ℕ → Watcher × Bool
unfolding without
remove_digital m a =
    (record m { digital_channels = without a m.digital_channels }, member m.digital_channels a)

unfoldable pub remove_analog : Watcher → ℕ → Watcher × Bool
unfolding without put_analog share_again
remove_analog m a =
    let c = m.analogs a in
    let rest = without a m.analog_channels in
    let m1 = put_analog (record m { analog_channels = rest }) a (record c { ptr_value = a }) in
    (share_again c.number rest none m1, member m.analog_channels a)
