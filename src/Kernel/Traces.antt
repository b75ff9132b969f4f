-- ===== src/Kernel/Traces.antt =====
-- The calls of the callbacks by `dispatch`, as the callbacks themselves note them.
use quark_ts_cpp.Prelude.Returns.{Returns, Returns-bind, Returns-map}
use mathlib.Core.List.{append_assoc, append-nil}
use quark_ts_cpp.Prelude.{
  ℕ, zero, suc, ◌≤◌, ◌<◌, ◌≡◌, ◌≢◌, ◌⊎◌, inl, inr, refl, sym, ap, subst, ◌∙◌, true, false, List, [],
  ◌∷◌, ◌++◌, ◌==◌, arith, All, Bool-cases,
}
use quark_ts_cpp.Kernel.{Core}
use quark_ts_cpp.Kernel.Running.{
  fill_event_info, activities, follow_yields, finish, dispatch_task, dispatch,
}
use quark_ts_cpp.Kernel.Dispatch.{Calm, activities-YieldsBelow}
use quark_ts_cpp.Kernel.Noting.{
  Notes, calls, Noted, Noted-trans, unnoted, fill_event_info-Noted, finish-Noted,
}

-- The ranks fall, from below `m`.
pub Falling : (ℕ → ℕ) → ℕ → List ℕ → Type 0
Falling rank m [] = Unit
Falling rank m (y ∷ ys) = (rank y < m) × Falling rank (rank y) ys

Falling-weaken :
    (rank : ℕ → ℕ) (k m : ℕ) (ys : List ℕ) → k ≤ m → Falling rank k ys → Falling rank m ys
unfolding Falling
Falling-weaken rank k m [] l f = tt
Falling-weaken rank k m (y ∷ ys) l f = (ground (arith, l, f.0), f.1)

-- The calls `log` are those of the tasks `xs`, in order, each followed by the tasks that were yielded
-- to from it, one after the other, of falling rank.
pub Runs : (ℕ → ℕ) → List ℕ → List ℕ → Type 0
Runs rank [] log = log ≡ []
Runs rank (x ∷ xs) log =
    (ys : List ℕ) × (rest : List ℕ) × (log ≡ x ∷ ys ++ rest)
    × Falling rank (rank x) ys
    × Runs rank xs rest

Runs-append :
    (rank : ℕ → ℕ) (xs ys l m : List ℕ)
    → Runs rank xs l
    → Runs rank ys m
    → Runs rank (xs ++ ys) (l ++ m)
unfolding Runs
Runs-append rank [] ys l m r s = rw r s
Runs-append rank (x ∷ xs) ys l m (zs, rest, e, f, r) s = (
  zs,
  rest ++ m,
  ap (λ l. l ++ m) e ∙ ap (λ l. x ∷ l) (append_assoc zs rest m),
  f,
  Runs-append rank xs ys rest m r s,
)

-- From `c` to `d` the tasks `xs` were called.
pub record Traced (rank : ℕ → ℕ) (c : Core) (xs : List ℕ) (d : Core) : Type 0 where
  pub log : List ℕ
  pub noted : Noted c d log
  pub ran : Runs rank xs log

pub Traced-trans :
    {rank : ℕ → ℕ} {c d e : Core} {xs ys : List ℕ}
    → Traced rank c xs d
    → Traced rank d ys e
    → Traced rank c (xs ++ ys) e
Traced-trans {rank} {xs} {ys} s t = record {
  log = s.log ++ t.log;
  noted = Noted-trans s.noted t.noted;
  ran = Runs-append rank xs ys s.log t.log s.ran t.ran;
}

-- The tasks have callbacks.
abbrev pub Callable : Core → List ℕ → Type 0
Callable c xs = All (λ x. (c.tasks x).callback ≢ 0) xs

pub Callable-kept :
    (c d : Core) (xs : List ℕ)
    → ((y : ℕ) → (d.tasks y).callback ≡ (c.tasks y).callback)
    → Callable c xs
    → Callable d xs
Callable-kept c d [] k a = tt
Callable-kept c d (x ∷ xs) k a = ((λ e. a.0 (sym (k x) ∙ e)), Callable-kept c d xs k a.1)

-- The task that `c` yields to is the current one.
abbrev resumed : Core → Core
resumed c = record c { event = record c.event { current_task = c.yield_task }; yield_task = 0 }

module _ {call : ℕ → Core → Core} {rank : ℕ → ℕ} {rounds : ℕ} (calm : Calm call rank rounds)
    (notes : Notes call) where
  called :
      (c : Core) (x : ℕ)
      → c.event.current_task ≡ x
      → (c.tasks x).callback ≢ 0
      → Noted c (activities call c x) (x ∷ [])
  unfolding activities calls
  called c x e h =
      let f : ((c.tasks x).callback == 0) ≡ false = ground (arith, h) in
      rw f (record {
        world_at =
            notes.writes (c.tasks x).callback c
            ∙ ap (λ z. c.world ++ (z, (c.tasks x).callback) ∷ []) e;
        callbacks = notes.keeps (c.tasks x).callback c;
      })

  silent : (c : Core) (x : ℕ) → ((c.tasks x).callback == 0) ≡ true → activities call c x ≡ c
  unfolding activities
  silent c x e = rw e refl

  -- The calls of the tasks that are yielded to.
  abbrev Yielded : ℕ → Core → Core → Type 0
  Yielded m c d = (ys : List ℕ) × Noted c d ys × Falling rank m ys

  -- The task that `c` yields to is called, unless it has no callback.
  after_yield :
      (c : Core) (m : ℕ) (d : Core)
      → rank c.yield_task < m
      → Yielded (rank c.yield_task) (activities call (resumed c) c.yield_task) d
      → Yielded m c d
  unfolding Falling
  after_yield c m d l (ys, n, f) = elim (Bool-cases ((c.tasks c.yield_task).callback == 0)) [
    | inl e ↦ (
      ys,
      (let q = subst (λ s. Noted s d ys) (silent (resumed c) c.yield_task e) n in
          record { world_at = q.world_at; callbacks = q.callbacks }),
      Falling-weaken rank (rank c.yield_task) m ys (omega (arith, l)) f,
    )
    | inr e ↦
        (let q = called (resumed c) c.yield_task refl (ground (arith, e)) in
          (
            c.yield_task ∷ ys,
            Noted-trans (record { world_at = q.world_at; callbacks = q.callbacks }) n,
            (l, f),
          ))
  ]

  follow_yields-Yielded :
      (n m : ℕ) (c : Core)
      → m ≤ n
      → (c.yield_task ≡ 0) ⊎ (rank c.yield_task < m)
      → Returns (Yielded m c) (follow_yields call n c)
  unfolding follow_yields Falling
  follow_yields-Yielded zero m c l y =
      let e : (c.yield_task == 0) ≡ true = ground (arith, y) in
      rw e ([], unnoted c c refl (λ y. refl), tt)
  follow_yields-Yielded (suc n) m c l y = elim (Bool-cases (c.yield_task == 0)) [
    | inl e ↦ rw e ([], unnoted c c refl (λ y. refl), tt)
    | inr e ↦
        (let x = c.yield_task in
          let c1 = resumed c in
          rw e (
            Returns-map (Yielded (rank x) (activities call c1 x)) (Yielded m c)
              (follow_yields call n (activities call c1 x)) (λ d t. after_yield c m d (below e) t)
              (follow_yields-Yielded n (rank x) (activities call c1 x) (fits e)
                (activities-YieldsBelow calm c1 x refl refl))))
  ]
    where
      below : (c.yield_task == 0) ≡ false → rank c.yield_task < m
      below e = ground (arith, e, y)

      fits : (c.yield_task == 0) ≡ false → rank c.yield_task ≤ n
      fits e = ground (arith, below e, l)

  dispatch_task-Traced :
      (c : Core) (p x : ℕ)
      → (c.tasks x).callback ≢ 0
      → Returns (Traced rank c (x ∷ [])) (dispatch_task call rounds c p x)
  unfolding dispatch_task Runs
  dispatch_task-Traced c p x h =
      Returns-bind (Yielded (rank x) c2) (Traced rank c (x ∷ [])) (follow_yields call rounds c2) _
        (follow_yields-Yielded rounds (rank x) c2 (calm.bounded x)
          (activities-YieldsBelow calm c1 x refl current))
        (λ d (ys, n, f). record {
          log = x ∷ ys;
          noted = Noted-trans here (done d ys n);
          ran = (ys, [], ap (λ l. x ∷ l) (sym (append-nil ys)), f, refl);
        })
    where
      c1 : Core
      c1 = record (fill_event_info c x) { yield_task = 0 }

      c2 : Core
      c2 = activities call c1 x

      current : c1.event.current_task ≡ x
      current = unfold fill_event_info in refl

      info : Noted c c1 []
      info =
          let n = fill_event_info-Noted c x in
          record { world_at = n.world_at; callbacks = n.callbacks }

      here : Noted c c2 (x ∷ [])
      here = Noted-trans info (called c1 x current (λ e. h (sym (info.callbacks x) ∙ e)))

      done : (d : Core) (ys : List ℕ) → Noted c2 d ys → Noted c2 (finish d p x) ys
      done d ys n =
          subst (Noted c2 (finish d p x)) (append-nil ys) (Noted-trans n (finish-Noted d p x))

  pub dispatch-Traced :
      (c : Core) (p : ℕ) (xs : List ℕ)
      → Callable c xs
      → Returns (Traced rank c xs) (dispatch call rounds c p xs)
  unfolding dispatch Runs
  dispatch-Traced c p [] a = record { log = []; noted = unnoted c c refl (λ y. refl); ran = refl }
  dispatch-Traced c p (x ∷ xs) a =
      Returns-bind (Traced rank c (x ∷ [])) (Traced rank c (x ∷ xs))
        (dispatch_task call rounds c p x) _ (dispatch_task-Traced c p x a.0)
        (λ c1 t.
          Returns-map (Traced rank c1 xs) (Traced rank c (x ∷ xs)) (dispatch call rounds c1 p xs)
            (λ d s. Traced-trans t s)
            (dispatch-Traced c1 p xs (Callable-kept c c1 xs t.noted.callbacks a.1)))
