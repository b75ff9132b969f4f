-- ===== src/Critical.antt =====
-- src/critical.cpp: nested critical sections. The user's functions that disable and restore the
-- interrupts are known by their addresses, and act on the world `W`; 0 is null. `nestingLevel` is
-- never negative, and stays below the largest `int`.
pub mod Nesting
use quark_ts_cpp.Prelude.{
  ℕ, zero, suc, ◌+◌, ◌-◌, Bool, true, false, not, ◌&&◌, ◌||◌, ltb, ◌==◌, if◌then◌else◌,
}

-- The static members of `critical::lock`.
pub record Lock : Type 0 where
  pub disable : ℕ
  pub restore : ℕ
  pub flags : ℕ
  pub nesting_level : ℕ

-- The functions at the addresses. The one that disables gives the flags of before.
pub record User (W : Type 0) : Type 0 where
  pub disabler : ℕ → W → W × ℕ
  pub restorer : ℕ → ℕ → W → W

unfoldable pub enter : {W : Type 0} → User W → Lock × W → Lock × W
enter u (l, w) =
    let (w1, f) = u.disabler l.disable w in
    let (l1, w2) =
      if (l.nesting_level == 0) && not (l.disable == 0)
      then (record l { flags = f }, w1)
      else (l, w) in
    (record l1 { nesting_level = l.nesting_level + 1 }, w2)

unfoldable pub exit : {W : Type 0} → User W → Lock × W → Lock × W
exit u (l, w) =
    let left = record l { nesting_level = l.nesting_level - 1 } in
    let w1 =
      if (left.nesting_level == 0) && not (l.restore == 0)
      then u.restorer l.restore l.flags w
      else w in
    if ltb 0 l.nesting_level then (left, w1) else (l, w)

-- The conversion of a `lock` to `bool`: the loop of `critical::scope` runs its body once.
unfoldable pub to_bool : Bool → Bool × Bool
to_bool entered = (false, entered)

unfoldable pub set_interrupts_ed : Lock → ℕ → ℕ → Lock × Bool
set_interrupts_ed l restorer disabler =
    if not (restorer == l.restore) || not (disabler == l.disable)
    then (record l { restore = restorer; disable = disabler }, true)
    else (l, false)
