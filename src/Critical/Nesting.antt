-- ===== src/Critical/Nesting.antt =====
-- Critical sections inside each other.
use quark_ts_cpp.Prelude.{ℕ, ◌+◌, ◌-◌, ◌<◌, ◌≡◌, ◌≢◌, refl, ap, ◌∙◌, List, [], ◌∷◌, ◌++◌, arith}
use quark_ts_cpp.Critical.{Lock, User, enter, exit}

-- The beginning and the end of a section.
pub data Step : Type 0 where
  enters : Step
  exits : Step

-- Sections one after the other, each with others inside it.
pub data Nested : List Step → Type 0 where
  none_left : Nested []
  section :
      (inner after : List Step)
      → Nested inner
      → Nested after
      → Nested (enters ∷ inner ++ exits ∷ after)

module _ {W : Type 0} (u : User W) where
  unfoldable pub step : Step → Lock × W → Lock × W
  unfolding enter exit
  step enters s = enter u s
  step exits s = exit u s

  unfoldable pub steps : List Step → Lock × W → Lock × W
  unfolding step
  steps [] s = s
  steps (x ∷ xs) s = steps xs (step x s)

  steps_append : (xs ys : List Step) (s : Lock × W) → steps (xs ++ ys) s ≡ steps ys (steps xs s)
  unfolding steps
  steps_append [] ys s = refl
  steps_append (x ∷ xs) ys s = steps_append xs ys (step x s)

  inner_enter :
      (l : Lock) (w : W)
      → 0 < l.nesting_level
      → enter u (l, w) ≡ (record l { nesting_level = l.nesting_level + 1 }, w)
  unfolding enter
  inner_enter l w h = ground arith

  inner_exit :
      (l : Lock) (w : W)
      → 0 < l.nesting_level
      → exit u (record l { nesting_level = l.nesting_level + 1 }, w) ≡ (l, w)
  unfolding exit
  inner_exit l w h =
      let back : l.nesting_level + 1 - 1 ≡ l.nesting_level = omega arith in
      rw (back) (ground (arith, h))

  -- Within a section nothing is called.
  within :
      (xs : List Step) (l : Lock) (w : W)
      → 0 < l.nesting_level
      → Nested xs
      → steps xs (l, w) ≡ (l, w)
  unfolding steps step
  within _ l w h none_left = refl
  within _ l w h (section inner after i a) =
      let deeper = record l { nesting_level = l.nesting_level + 1 } in
      ap (steps (inner ++ exits ∷ after)) (inner_enter l w h)
      ∙ steps_append inner (exits ∷ after) (deeper, w)
      ∙ ap (steps (exits ∷ after)) (within inner deeper w (omega arith) i)
      ∙ ap (steps after) (inner_exit l w h)
      ∙ within after l w h a

  abbrev inside : Lock → ℕ → Lock
  inside l f = record l { flags = f; nesting_level = l.nesting_level + 1 }

  outer_enter :
      (l : Lock) (w : W)
      → l.nesting_level ≡ 0
      → l.disable ≢ 0
      → enter u (l, w) ≡ (inside l (u.disabler l.disable w).1, (u.disabler l.disable w).0)
  unfolding enter
  outer_enter l w z d = ground (arith, z, d)

  outer_exit :
      (l : Lock) (f : ℕ) (w : W)
      → l.nesting_level ≡ 0
      → l.restore ≢ 0
      → exit u (inside l f, w) ≡ (record l { flags = f }, u.restorer l.restore f w)
  unfolding exit
  outer_exit l f w z r =
      let back : l.nesting_level + 1 - 1 ≡ l.nesting_level = omega arith in
      rw (back) (ground (arith, z, r))

  -- A section that is in no other one, with any sections inside it: the interrupts are disabled once,
  -- at its beginning, and restored once, at its end, to the flags of before.
  pub section_lem :
      (xs : List Step) (l : Lock) (w : W)
      → l.nesting_level ≡ 0
      → l.disable ≢ 0
      → l.restore ≢ 0
      → Nested xs
      → steps (enters ∷ xs ++ exits ∷ []) (l, w) ≡ (
          let (w1, f) = u.disabler l.disable w in
          (record l { flags = f }, u.restorer l.restore f w1))
  unfolding steps step
  section_lem xs l w z d r i =
      let f = (u.disabler l.disable w).1 in
      let w1 = (u.disabler l.disable w).0 in
      ap (steps (xs ++ exits ∷ [])) (outer_enter l w z d)
      ∙ steps_append xs (exits ∷ []) (inside l f, w1)
      ∙ ap (exit u) (within xs (inside l f) w1 (omega arith) i)
      ∙ outer_exit l f w1 z r
