-- ===== src/Fsm/Moves.antt =====
-- A transition: the states it leaves and enters, in order.
use quark_ts_cpp.Prelude.{
  ℕ, zero, suc, ◌≡◌, ◌≢◌, refl, sym, ap, subst, ◌∙◌, inl, inr, Option, some, List, [], ◌∷◌, ◌++◌,
  ◌>>=◌, arith, length, Option-cases, ◌<◌, All,
}
use quark_ts_cpp.Fsm.{State, StateMachine, User}
use quark_ts_cpp.Fsm.Activities.{state_on_exit}
use quark_ts_cpp.Fsm.Transit.{exit_to_source, exit_levels, exit_up_to_lca}
use quark_ts_cpp.Fsm.Paths.{Up}
use quark_ts_cpp.Fsm.Exits.{SameTree, Calm, Kept-refl, SameTree-trans, state_on_exit-Kept}

-- The exits of these states, in this order.
unfoldable pub exit_all : User → StateMachine → List ℕ → Option StateMachine
exit_all u m [] = some m
exit_all u m (x ∷ xs) = state_on_exit u m x >>= λ (m', p). exit_all u m' xs

pub Up-SameTree :
    {m m' : StateMachine} (s : ℕ) (xs : List ℕ) (a : ℕ)
    → SameTree m m'
    → Up m.states s xs a
    → Up m'.states s xs a
Up-SameTree s [] a t p = p
Up-SameTree {m} {m'} s (x ∷ xs) a t p =
    (p.0, p.1, subst (λ q. Up m'.states q xs a) (sym (t.parents s)) (Up-SameTree _ xs a t p.2))

pub Up-head : (states : ℕ → State) (s : ℕ) (xs : List ℕ) (a : ℕ) → a ≢ 0 → Up states s xs a → s ≢ 0
Up-head states s [] a h p = λ e. h (sym p ∙ e)
Up-head states s (x ∷ xs) a h p = p.1

-- `m'` is the machine after the exits of `xs`.
pub record Left (u : User) (m : StateMachine) (xs : List ℕ) (m' : StateMachine) : Type 0 where
  pub left : exit_all u m xs ≡ some m'
  pub same : SameTree m m'

module _ {u : User} (calm : Calm u) where
  one_more :
      (m m1 m2 : StateMachine) (s x : ℕ) (xs : List ℕ)
      → s ≡ x
      → state_on_exit u m s ≡ some (m1, (m.states s).parent)
      → SameTree m m1
      → Left u m1 xs m2
      → Left u m (x ∷ xs) m2
  unfolding exit_all
  one_more m m1 m2 s x xs e f t l = record {
    left =
        subst (λ y. (state_on_exit u m y >>= λ (m', p). exit_all u m' xs) ≡ some m2) e
          (rw f l.left);
    same = SameTree-trans t l.same;
  }

  exit_levels_lem :
      (m : StateMachine) (s : ℕ) (xs : List ℕ) (a : ℕ)
      → a ≢ 0
      → Up m.states s xs a
      → (m' : StateMachine) × (exit_levels u (length xs) m s ≡ some (m', a)) × Left u m xs m'
  unfolding exit_levels exit_all
  exit_levels_lem m s [] a h p =
      (m, ap (λ y. some (m, y)) p, record { left = refl; same = (Kept-refl m).tree })
  exit_levels_lem m s (x ∷ xs) a h p =
      let (m1, e, t) = state_on_exit-Kept calm m s p.1 (Up-head m.states _ xs a h p.2) in
      let (m2, f, l) = exit_levels_lem m1 (m.states s).parent xs a h (Up-SameTree _ xs a t p.2) in
      (m2, rw e f, one_more m m1 m2 s x xs p.0 e t l)

  exit_to_source_lem :
      (fuel : ℕ) (m : StateMachine) (s : ℕ) (cs : List ℕ) (src : ℕ)
      → m.source ≡ src
      → src ≢ 0
      → length cs < fuel
      → All (λ c. c ≢ src) cs
      → Up m.states s cs src
      → (m' : StateMachine) × (exit_to_source u fuel m s ≡ some (m', src)) × Left u m cs m'
  unfolding exit_to_source exit_all
  exit_to_source_lem zero m s cs src e h l o p = absurd (omega arith)
  exit_to_source_lem (suc fuel) m s [] src e h l o p =
      (m, ground (arith, e, p), record { left = refl; same = (Kept-refl m).tree })
  exit_to_source_lem (suc fuel) m s (c ∷ cs) src e h l o p =
      let (m1, f, t) = state_on_exit-Kept calm m s p.1 (Up-head m.states _ cs src h p.2) in
      let (m2, g, k) =
        exit_to_source_lem fuel m1 (m.states s).parent cs src (t.source_at ∙ e) h (omega arith) o.1
          (Up-SameTree _ cs src t p.2) in
      (m2, other (λ q. o.0 (sym p.0 ∙ q ∙ e)) (rw f g), one_more m m1 m2 s c cs p.0 f t k)
    where
      other :
          {r : StateMachine × ℕ}
          → s ≢ m.source
          → (state_on_exit u m s >>= λ (m', p). exit_to_source u fuel m' p) ≡ some r
          → exit_to_source u (suc fuel) m s ≡ some r
      other {r} n q = ground (arith, n, q)

  Left-append :
      (m m1 m2 : StateMachine) (xs ys : List ℕ)
      → Left u m xs m1
      → Left u m1 ys m2
      → Left u m (xs ++ ys) m2
  unfolding exit_all
  Left-append m m1 m2 xs ys l k = record {
    left = both m xs l.left;
    same = SameTree-trans l.same k.same;
  }
    where
      both :
          (n : StateMachine) (zs : List ℕ)
          → exit_all u n zs ≡ some m1
          → exit_all u n (zs ++ ys) ≡ some m2
      both n [] e = ground (arith, k.left, e)
      both n (z ∷ zs) e = elim (Option-cases (state_on_exit u n z)) [
        | inl f ↦ absurd (ground (arith, e, f))
        | inr (r, f) ↦ rw f (both r.0 zs (rw f at e))
      ]

  pub exit_up_to_lca_lem :
      (m : StateMachine) (cs xs : List ℕ) (a : ℕ)
      → a ≢ 0
      → length cs < u.rounds
      → All (λ c. c ≢ m.source) cs
      → Up m.states m.current cs m.source
      → Up m.states m.source xs a
      → (m' : StateMachine) × (exit_up_to_lca u m (length xs) ≡ some (record m' { current = a }))
        × Left u m (cs ++ xs) m'
  unfolding exit_up_to_lca
  exit_up_to_lca_lem m cs xs a h l o p q =
      let (m1, e, k) =
        exit_to_source_lem u.rounds m m.current cs m.source refl (Up-head m.states _ xs a h q) l o
          p in
      let (m2, f, k') = exit_levels_lem m1 m.source xs a h (Up-SameTree _ xs a k.same q) in
      (m2, rw (e, f) refl, Left-append m m1 m2 cs xs k k')
