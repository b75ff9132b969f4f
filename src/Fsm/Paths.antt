-- ===== src/Fsm/Paths.antt =====
-- Paths along the parents of the states, and what user code leaves alone.
use quark_ts_cpp.Prelude.{
  ℕ, zero, suc, ◌+◌, ◌%◌, ◌^◌, ◌<◌, ◌≡◌, ◌≢◌, ap, Bool, true, false, ◌||◌, some, List, [], ◌∷◌,
  ◌==◌, arith, length, All,
}
use quark_ts_cpp.Fsm.{State, StateMachine, User}
use quark_ts_cpp.Fsm.Transit.{is_above, count_levels, levels_to_lca}

-- `xs` are the states from `s` up to `a`, without `a`. Up to 0, they are `s` and all states above it.
abbrev pub Up : (ℕ → State) → ℕ → List ℕ → ℕ → Type 0
Up states s [] a = s ≡ a
Up states s (x ∷ xs) a = (s ≡ x) × (s ≢ 0) × Up states (states s).parent xs a

-- Whether a state is on a path.
abbrev pub on : List ℕ → ℕ → Bool
on [] s = false
on (x ∷ xs) s = (s == x) || on xs s

abbrev pub Off : List ℕ → ℕ → Type 0
Off ys x = on ys x ≡ false

is_above_lem :
    (states : ℕ → State) (n s t : ℕ) (ys : List ℕ)
    → s ≢ 0
    → length ys < n
    → Up states t ys 0
    → is_above states n s t ≡ some (on ys s)
unfolding is_above
is_above_lem states zero s t ys h l p = absurd (omega arith)
is_above_lem states (suc n) s t [] h l p = ground (arith, p)
is_above_lem states (suc n) s t (y ∷ ys) h l p =
    ground (arith, p.0, p.1, is_above_lem states n s (states t).parent ys h (omega arith) p.2)

-- `a`, above `s` by way of `xs`, is the first state above `s` that is also on the path `ys`.
pub record IsLca (states : ℕ → State) (s : ℕ) (xs : List ℕ) (a : ℕ) (ys : List ℕ) : Type 0 where
  pub path : Up states s xs a
  pub real : a ≢ 0
  pub off : All (Off ys) xs
  pub common : on ys a ≡ true

IsLca-up :
    {states : ℕ → State} {s x : ℕ} {xs : List ℕ} {a : ℕ} {ys : List ℕ}
    → IsLca states s (x ∷ xs) a ys
    → IsLca states (states s).parent xs a ys
IsLca-up l = record { path = l.path.2; real = l.real; off = l.off.1; common = l.common }

module _ (states : ℕ → State) (rounds target : ℕ) (ys : List ℕ) (up : Up states target ys 0)
    (long : length ys < rounds) where
  count_levels_lem :
      (fuel s n : ℕ) (xs : List ℕ) (a : ℕ)
      → IsLca states s xs a ys
      → length xs < fuel
      → n + length xs < 256
      → count_levels states rounds fuel target s n ≡ some (n + length xs)
  unfolding count_levels
  count_levels_lem zero s n xs a l f small = absurd (omega arith)
  count_levels_lem (suc fuel) s n [] a l f small =
      ground
        (arith, l.path, l.real, l.common, is_above_lem states rounds s target ys, ap (on ys) l.path)
  count_levels_lem (suc fuel) s n (x ∷ xs) a l f small =
      let next : (n + 1) % 2 ^ 8 ≡ n + 1 = omega arith in
      let rest : count_levels states rounds fuel target (states s).parent ((n + 1) % 2 ^ 8)
          ≡ some (n + 1 + length xs) =
        rw next (
          count_levels_lem fuel (states s).parent (n + 1) xs a (IsLca-up l) (omega arith)
            (omega arith)) in
      ground (
        arith,
        l.path.0,
        l.path.1,
        l.off.0,
        ap (on ys) l.path.0,
        is_above_lem states rounds s target ys l.path.1 long up,
        rest,
      )

-- The number of states from the source up to the least common ancestor, without it.
pub levels_to_lca_lem :
    (u : User) (m : StateMachine) (target : ℕ) (xs ys : List ℕ) (a : ℕ)
    → m.source ≢ target
    → IsLca m.states m.source xs a ys
    → Up m.states target ys 0
    → length xs < u.rounds
    → length xs < 256
    → length ys < u.rounds
    → levels_to_lca u m target ≡ some (length xs)
unfolding levels_to_lca
levels_to_lca_lem u m target xs ys a ne l up f small long = ground (
  arith,
  count_levels_lem m.states u.rounds target ys up long u.rounds m.source 0 xs a l f (omega arith),
)

pub levels_to_lca_self :
    (u : User) (m : StateMachine) (target : ℕ)
    → m.source ≡ target
    → levels_to_lca u m target ≡ some 1
unfolding levels_to_lca
levels_to_lca_self u m target e = ground (arith, e)
