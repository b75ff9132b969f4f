-- ===== src/Fsm/Settling.antt =====
-- Entries and starts end in a state with nothing left to start.
use quark_ts_cpp.Prelude.{
  ℕ, zero, suc, ◌+◌, ◌≤◌, ◌<◌, ◌≡◌, ◌≢◌, ◌⊎◌, inl, inr, refl, sym, ap, subst, ◌∙◌, not, some, List,
  [], ◌==◌, if◌then◌else◌, ◌>>=◌, arith, Bool-cases,
}
use quark_ts_cpp.Fsm.{StateMachine, User}
use quark_ts_cpp.Fsm.Activities.{state_on_entry, state_on_start}
use quark_ts_cpp.Fsm.Transit.{
  enter_all, trace_path_and_retrace_entry, trace_on_start, max_nest_depth,
}
use quark_ts_cpp.Fsm.Running.{start_top, settle}
use quark_ts_cpp.Fsm.Paths.{Up}
use quark_ts_cpp.Fsm.Exits.{
  Kept, Kept-trans, Kept-prepare_handler, Kept-invoke_state_activities, Kept-state_on_entry,
  Kept-enter_all,
}
use quark_ts_cpp.Fsm.Entries.{arrived, reverse_onto, trace_path_and_retrace_entry_lem}
use quark_ts_cpp.Fsm.Tree.{Nest, Below, IsTree, IsTree-Kept, Up-depth, Below-places, IsTree-places}
use quark_ts_cpp.Fsm.Asks.{Fine, Sane, Fine-prepare_handler, Fine-invoke_state_activities}

-- The machine is in a state, with no transition pending.
pub record Rests (n : Nest) (m : StateMachine) : Type 0 where
  pub tree : IsTree n m
  pub here : n.In m.current
  pub idle : m.next ≡ 0

module _ {n : Nest} {u : User} (sane : Sane n u) where
  -- What `next` can hold after the start of `s`.
  next_below :
      (m m' : StateMachine) (s : ℕ)
      → Kept m m'
      → Fine n s m'
      → n.In s
      → m.next ≡ 0
      → let child = (m'.states s).last_running_child in
        let m2 =
          if not (m'.handler.start_state == 0)
          then record m' { next = m'.handler.start_state }
          else (if not (child == 0) then record m' { next = child } else m') in
        IsTree n m2 × (m2.current ≡ m.current) × ((m2.next ≡ 0) ⊎ Below n m2 m2.next s)
  next_below m m' s k w i e = elim (Bool-cases (m'.handler.start_state == 0)) [
    | inr f ↦ rw f (
      moved m'.handler.start_state,
      k.tree.current_at,
      elim w.asks.starts [ inl h ↦ inl h | inr b ↦ inr (carry m'.handler.start_state b) ],
    )
    | inl f ↦ elim (Bool-cases ((m'.states s).last_running_child == 0)) [
      | inl g ↦ rw (f, g) (w.tree, k.tree.current_at, inl (k.tree.next_at ∙ e))
      | inr g ↦
          rw (f, g)
            (
              moved (m'.states s).last_running_child,
              k.tree.current_at,
              inr (carry (m'.states s).last_running_child (w.tree.running s i (ground (arith, g)))),
            )
    ]
  ]
    where
      moved : (x : ℕ) → IsTree n (record m' { next = x })
      moved x = IsTree-places m' m'.current m'.source x w.tree

      carry : (x : ℕ) → Below n m' x s → Below n (record m' { next = x }) x s
      carry x b = Below-places m' m'.current m'.source x x s b

  state_on_start_lem :
      (m : StateMachine) (s : ℕ)
      → IsTree n m
      → n.In s
      → m.next ≡ 0
      → let m2 = state_on_start u m s in
        IsTree n m2 × (m2.current ≡ m.current) × ((m2.next ≡ 0) ⊎ Below n m2 m2.next s)
  unfolding state_on_start
  state_on_start_lem m s w i e =
      next_below m _ s
        (Kept-trans (Kept-prepare_handler m _ s) (Kept-invoke_state_activities sane.calm _ s))
        (Fine-invoke_state_activities s sane _ (Fine-prepare_handler s m _ w)) i e

  -- The path from a state at or below the current one fits the array.
  trace_path_and_retrace_entry-Rests :
      (m : StateMachine) (ts : List ℕ)
      → IsTree n m
      → n.In m.current
      → n.In m.next
      → Up m.states m.next ts m.current
      → (m2 : StateMachine) × (trace_path_and_retrace_entry u m ≡ some m2)
        × Rests n m2
        × (m2.current ≡ m.next)
  trace_path_and_retrace_entry-Rests m ts w i j p =
      let (_, d, o) = Up-depth m m.next ts m.current w (w.real m.current i) j p in
      let k = Kept-enter_all sane.calm m (reverse_onto ts []) in
      (
        arrived (enter_all u m (reverse_onto ts [])) m.next,
        trace_path_and_retrace_entry_lem sane.calm m ts (omega (arith, w.shallow m.next j, d)) o p,
        record { tree = IsTree-places _ m.next _ 0 (IsTree-Kept k w); here = j; idle = refl },
        refl,
      )

  trace_on_start-Rests :
      (fuel : ℕ) (m : StateMachine)
      → max_nest_depth ≤ n.depth m.current + fuel
      → Rests n m
      → (m2 : StateMachine) × (trace_on_start u fuel m ≡ some m2) × Rests n m2
  unfolding trace_on_start
  trace_on_start-Rests zero m l r = absurd (omega (arith, r.tree.shallow m.current r.here))
  trace_on_start-Rests (suc fuel) m l r =
      let m1 = state_on_start u m m.current in
      let (w, c, o) = state_on_start_lem m m.current r.tree r.here r.idle in
      let i : n.In m1.current = subst n.In (sym c) r.here in
      elim o [
        | inl e ↦ (m1, ground (arith, e), record { tree = w; here = i; idle = e })
        | inr b ↦
            (let b1 = subst (Below n m1 m1.next) (sym c) b in
              let (m2, e, r2, d) =
                trace_path_and_retrace_entry-Rests m1 b1.path w i b1.inside b1.up in
              let (m3, f, r3) =
                trace_on_start-Rests fuel m2 (omega (arith, ap n.depth d, b.deeper)) r2 in
              (m3, further m1 m2 m3 (w.real m1.next b1.inside) e f, r3))
      ]
    where
      further :
          (m1 m2 m3 : StateMachine)
          → m1.next ≢ 0
          → trace_path_and_retrace_entry u m1 ≡ some m2
          → trace_on_start u fuel m2 ≡ some m3
          → (let rest = trace_path_and_retrace_entry u m1 >>= λ m2. trace_on_start u fuel m2 in
              if m1.next == 0 then some m1 else rest)
            ≡ some m3
      further m1 m2 m3 h e f = rw e (ground (arith, h, f))

  module _ (rounds : max_nest_depth < u.rounds) where
    pub start_top-Rests :
        (m : StateMachine)
        → IsTree n m
        → (m.current ≡ 0) ⊎ n.In m.current
        → m.next ≡ 0
        → (m2 : StateMachine) × (start_top u m ≡ some m2) × Rests n m2
    unfolding start_top
    start_top-Rests m w (inr i) e =
        (m, ground (arith, w.real m.current i), record { tree = w; here = i; idle = e })
    start_top-Rests m w (inl z) e =
        let m1 = record m { current = m.top; next = 0 } in
        let k = Kept-state_on_entry sane.calm m1 m.top in
        let (m2, f, r) =
          trace_on_start-Rests u.rounds (state_on_entry u m1 m.top) (omega (arith, rounds))
            (record {
              tree = IsTree-Kept k (IsTree-places m m.top m.source 0 w);
              here = subst n.In (sym k.tree.current_at) w.root;
              idle = k.tree.next_at;
            }) in
        (m2, ground (arith, z, f), r)

    -- With a target at or below the current state.
    pub settle-Rests :
        (m : StateMachine) (ts : List ℕ)
        → IsTree n m
        → n.In m.current
        → n.In m.next
        → Up m.states m.next ts m.current
        → (m2 : StateMachine) × (settle u m ≡ some m2) × Rests n m2
    unfolding settle
    settle-Rests m ts w i j p =
        let (m1, e, r, d) = trace_path_and_retrace_entry-Rests m ts w i j p in
        let (m2, f, r2) = trace_on_start-Rests u.rounds m1 (omega (arith, rounds)) r in
        (m2, ground (arith, w.real m.next j, e, f), r2)

pub settle_idle : (u : User) (m : StateMachine) → m.next ≡ 0 → settle u m ≡ some m
unfolding settle
settle_idle u m e = ground (arith, e)
