-- ===== src/Queue/Deque.antt =====
-- What a queue promises: at most `cap` items, taken from the front, put in at either end.
use quark_ts_cpp.Prelude.{
  ℕ, Bool, true, false, Option, none, some, List, [], ◌∷◌, ◌++◌, ltb, if◌then◌else◌, length,
}
use quark_ts_cpp.Queue.{SendMode, to_front, to_back}

abbrev pub Item : Type 0
Item = List ℕ

abbrev pub Deque : Type 0
Deque = List Item

unfoldable pub insert_at : Deque → Item → SendMode → Deque
insert_at d x to_back = d ++ x ∷ []
insert_at d x to_front = x ∷ d

unfoldable pub send : ℕ → Deque → Item → SendMode → Deque × Bool
unfolding insert_at
send cap d x pos = if ltb (length d) cap then (insert_at d x pos, true) else (d, false)

unfoldable pub receive : Deque → Deque × Option Item
receive [] = ([], none)
receive (x ∷ d) = (d, some x)

unfoldable pub remove_front : Deque → Deque × Bool
remove_front [] = ([], false)
remove_front (x ∷ d) = (d, true)

unfoldable pub front : Deque → Option Item
front [] = none
front (x ∷ d) = some x

-- A client's calls.
pub data Call : Type 0 where
  sends : Item → SendMode → Call
  receives : Call
  removes : Call
  resets : Call

-- What a client sees of a call.
pub data Reply : Type 0 where
  done : Bool → Reply
  got : Option Item → Reply
