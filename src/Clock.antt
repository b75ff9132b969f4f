-- ===== src/Clock.antt =====
-- src/clock.cpp: the tick counter and the source that `clock::getTick` points to.
use quark_ts_cpp.Prelude.{ℕ, Bool, true, false, Option, none, some}
use quark_ts_cpp.Prelude.Word.{add_word}

-- What the pointer `clock::getTick` holds. A user's function is known by its address.
pub data TickSource : Type 0 where
  unset : TickSource
  internal_tick : TickSource
  user_tick : ℕ → TickSource

pub record Clock : Type 0 where
  pub sys_tick_epochs : ℕ
  pub source : TickSource

-- The static initialisers of clock.cpp.
unfoldable pub boot : Clock
boot = record { sys_tick_epochs = 0; source = internal_tick }

unfoldable pub sys_tick : Clock → Clock
sys_tick c = record c { sys_tick_epochs = add_word c.sys_tick_epochs 1 }

-- `clock::getTick()`. A user's function is not under src/: `hw` gives what the function at an
-- address returns at this call. A call through a null pointer has no value.
get_tick_from : TickSource → ℕ → (ℕ → ℕ) → Option ℕ
get_tick_from unset epochs hw = none
get_tick_from internal_tick epochs hw = some epochs
get_tick_from (user_tick p) epochs hw = some (hw p)

unfoldable pub get_tick : Clock → (ℕ → ℕ) → Option ℕ
unfolding get_tick_from
get_tick c hw = get_tick_from c.source c.sys_tick_epochs hw

abbrev provided : Option ℕ → TickSource
provided none = internal_tick
provided (some p) = user_tick p

set_tick_provider_from : TickSource → Clock → Option ℕ → Clock × Bool
set_tick_provider_from unset c provider = (c, false)
set_tick_provider_from _ c provider = (record c { source = provided provider }, true)

-- `none` is the null pointer.
unfoldable pub set_tick_provider : Clock → Option ℕ → Clock × Bool
unfolding set_tick_provider_from
set_tick_provider c provider = set_tick_provider_from c.source c provider
