-- ===== src/Tests/Queues.antt =====
-- A queue of three items of two bytes.
use quark_ts_cpp.Prelude.{◌≡◌, refl, List, [], ◌∷◌, arith}
use quark_ts_cpp.Queue.{Queue, setup, send, receive, remove_front, to_back, to_front}
use quark_ts_cpp.Queue.Deque
use quark_ts_cpp.Queue.Deque.{Call, sends, receives, removes, resets}
use quark_ts_cpp.Queue.Refine.{
  Holds, setup-Holds, send_refines, receive_refines, remove_front_refines,
}
use quark_ts_cpp.Queue.Run.{run, deque_run, run_refines}

abbrev blank : Queue
blank = record {
  memory = λ a. 0;
  head = 0;
  tail = 0;
  reader = 0;
  writer = 0;
  items_waiting = 0;
  items_count = 0;
  item_size = 0;
}

abbrev q0 : Queue
q0 = (setup blank 100 2 3).0

q0-Holds : Holds q0 []
q0-Holds = (setup-Holds blank 100 2 3 (omega arith) (omega arith) (omega arith) (omega arith)).1

abbrev q1 : Queue
q1 = (send q0 (5 ∷ 6 ∷ []) to_back).0

send_refines_example :
    ((send q0 (5 ∷ 6 ∷ []) to_back).1 ≡ (Deque.send q0.items_count [] (5 ∷ 6 ∷ []) to_back).1)
    × Holds q1 (Deque.send q0.items_count [] (5 ∷ 6 ∷ []) to_back).0
unfolding setup
send_refines_example = send_refines (5 ∷ 6 ∷ []) to_back refl q0-Holds

q1-Holds : Holds q1 ((5 ∷ 6 ∷ []) ∷ [])
unfolding Deque.send Deque.insert_at setup
q1-Holds = (send_refines (5 ∷ 6 ∷ []) to_back refl q0-Holds).1

receive_refines_example :
    ((receive q1).1 ≡ (Deque.receive ((5 ∷ 6 ∷ []) ∷ [])).1)
    × Holds (receive q1).0 (Deque.receive ((5 ∷ 6 ∷ []) ∷ [])).0
receive_refines_example = receive_refines q1-Holds

remove_front_refines_example :
    ((remove_front q1).1 ≡ (Deque.remove_front ((5 ∷ 6 ∷ []) ∷ [])).1)
    × Holds (remove_front q1).0 (Deque.remove_front ((5 ∷ 6 ∷ []) ∷ [])).0
remove_front_refines_example = remove_front_refines q1-Holds

abbrev calls : List Call
calls =
    sends (1 ∷ 2 ∷ []) to_back
    ∷ sends (3 ∷ 4 ∷ []) to_front
    ∷ sends (5 ∷ 6 ∷ []) to_back
    ∷ sends (7 ∷ 8 ∷ []) to_back
    ∷ receives
    ∷ removes
    ∷ sends (9 ∷ 9 ∷ []) to_back
    ∷ receives
    ∷ resets
    ∷ receives
    ∷ []

run_refines_example : run q0 calls ≡ deque_run q0.items_count [] calls
unfolding setup
run_refines_example = run_refines calls (refl, (refl, (refl, (refl, (refl, tt))))) q0-Holds
