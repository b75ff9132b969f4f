-- ===== src/Queue/Run.antt =====
-- Sequences of calls on a queue, against the deque.
use quark_ts_cpp.Prelude.{ℕ, ◌≡◌, refl, ap, ap₂, ◌∙◌, true, List, [], ◌∷◌, arith, length}
use quark_ts_cpp.Queue.{Queue, to_back, to_front, reset, remove_front, receive, send}
use quark_ts_cpp.Queue.Deque
use quark_ts_cpp.Queue.Deque.{Deque, Call, sends, receives, removes, resets, Reply, done, got}
use quark_ts_cpp.Queue.Refine.{
  Holds, send_refines, receive_refines, remove_front_refines, reset_refines,
}

-- A client's call on a queue, and on the deque that specifies it.
step : Queue → Call → Queue × Reply
step q (sends x pos) = let (q', ok) = send q x pos in (q', done ok)
step q receives = let (q', out) = receive q in (q', got out)
step q removes = let (q', ok) = remove_front q in (q', done ok)
step q resets = (reset q, done true)

deque_step : ℕ → Deque → Call → Deque × Reply
deque_step cap d (sends x pos) = let (d', ok) = Deque.send cap d x pos in (d', done ok)
deque_step cap d receives = let (d', out) = Deque.receive d in (d', got out)
deque_step cap d removes = let (d', ok) = Deque.remove_front d in (d', done ok)
deque_step cap d resets = ([], done true)

pub run : Queue → List Call → List Reply
run q [] = []
run q (c ∷ cs) = let (q', reply) = step q c in reply ∷ run q' cs

pub deque_run : ℕ → Deque → List Call → List Reply
deque_run cap d [] = []
deque_run cap d (c ∷ cs) = let (d', reply) = deque_step cap d c in reply ∷ deque_run cap d' cs

-- Every item sent has the size of the queue's items.
abbrev pub Fits : ℕ → List Call → Type 0
Fits size [] = Unit
Fits size (sends x pos ∷ cs) = (length x ≡ size) × Fits size cs
Fits size (_ ∷ cs) = Fits size cs

-- A call leaves the number and size of the slots as they are.
abbrev ShapeKept : Queue → Queue → Type 0
ShapeKept q q' = (q'.items_count ≡ q.items_count) × (q'.item_size ≡ q.item_size)

shape_kept : (q : Queue) (c : Call) → ShapeKept q (step q c).0
unfolding step send receive remove_front reset
shape_kept q (sends x to_back) = ground arith
shape_kept q (sends x to_front) = ground arith
shape_kept q receives = ground arith
shape_kept q removes = ground arith
shape_kept q resets = (refl, refl)

step_refines :
    {q : Queue} {d : Deque} (c : Call)
    → Fits q.item_size (c ∷ [])
    → Holds q d
    → ((step q c).1 ≡ (deque_step q.items_count d c).1)
      × Holds (step q c).0 (deque_step q.items_count d c).0
      × ShapeKept q (step q c).0
unfolding step deque_step
step_refines {q} {d} (sends x pos) f h =
    let (e, h') = send_refines x pos f.0 h in (ap done e, h', shape_kept q (sends x pos))
step_refines {q} receives f h =
    let (e, h') = receive_refines h in (ap got e, h', shape_kept q receives)
step_refines {q} removes f h =
    let (e, h') = remove_front_refines h in (ap done e, h', shape_kept q removes)
step_refines {q} resets f h = (refl, reset_refines h, shape_kept q resets)

Fits-head : (size : ℕ) (c : Call) (cs : List Call) → Fits size (c ∷ cs) → Fits size (c ∷ [])
Fits-head size (sends x pos) cs f = (f.0, tt)
Fits-head size _ cs f = tt

Fits-tail : (size : ℕ) (c : Call) (cs : List Call) → Fits size (c ∷ cs) → Fits size cs
Fits-tail size (sends x pos) cs f = f.1
Fits-tail size receives cs f = f
Fits-tail size removes cs f = f
Fits-tail size resets cs f = f

-- No sequence of calls, each item of the queue's size, tells a queue from the bounded deque of the
-- items that it holds.
pub run_refines :
    {q : Queue} {d : Deque} (cs : List Call)
    → Fits q.item_size cs
    → Holds q d
    → run q cs ≡ deque_run q.items_count d cs
unfolding run deque_run
run_refines [] f h = refl
run_refines {q} {d} (c ∷ cs) f h =
    let (e, h', kept) = step_refines c (Fits-head q.item_size c cs f) h in
    ap₂ ◌∷◌ e (
      run_refines {q = (step q c).0} {d = (deque_step q.items_count d c).0} cs
        (rw kept.1 (Fits-tail q.item_size c cs f)) h'
      ∙ ap (λ n. deque_run n (deque_step q.items_count d c).0 cs) kept.0)
