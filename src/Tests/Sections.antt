-- ===== src/Tests/Sections.antt =====
-- A section with two others inside it. The calls are logged: 1 for disabling, 10 and the flags for
-- restoring.
use quark_ts_cpp.Prelude.{ℕ, ◌+◌, ◌≡◌, refl, List, [], ◌∷◌, arith}
use quark_ts_cpp.Critical.{Lock, User}
use quark_ts_cpp.Critical.Nesting.{
  Step, enters, exits, Nested, none_left, section, steps, section_lem,
}

abbrev logging : User (List ℕ)
logging = record { disabler = λ a w. (1 ∷ w, 7); restorer = λ a f w. (10 + f) ∷ w }

abbrev unlocked : Lock
unlocked = record { disable = 100; restore = 200; flags = 0; nesting_level = 0 }

abbrev two : List Step
two = enters ∷ exits ∷ enters ∷ exits ∷ []

two-Nested : Nested two
two-Nested = section [] (enters ∷ exits ∷ []) none_left (section [] [] none_left none_left)

section_lem_example :
    steps logging (enters ∷ enters ∷ exits ∷ enters ∷ exits ∷ exits ∷ []) (unlocked, [])
    ≡ (record unlocked { flags = 7 }, 17 ∷ 1 ∷ [])
section_lem_example =
    section_lem logging two unlocked [] refl (λ e. absurd (omega arith)) (λ e. absurd (omega arith))
      two-Nested
