-- ===== src/Kernel/Query.antt =====
-- src/kernel.cpp: where a task stands, and the task of a given identifier.
use quark_ts_cpp.Prelude.{ℕ, Bool, not, ◌&&◌, List, [], ◌∷◌, ◌++◌, ◌==◌, ltb, if◌then◌else◌}
use quark_ts_cpp.Kernel.{Core}
use quark_ts_cpp.Kernel.Lists.{member}
use quark_ts_cpp.Kernel.Schedule.{size_max}

pub data GlobalState : Type 0 where
  undefined waiting_state suspended_state ready_state running : GlobalState

-- The container of a task is the list that it stands in.
abbrev in_ready : Core → ℕ → Bool
in_ready c x = member (c.ready 2 ++ (c.ready 1 ++ c.ready 0)) x

unfoldable pub get_global_state : Core → ℕ → GlobalState
get_global_state c x =
    if c.event.current_task == x
    then running
    else if member c.waiting x
    then waiting_state
    else if member c.suspended x
    then suspended_state
    else if not (in_ready c x)
    then undefined
    else ready_state

-- The inner loop of `getTaskByID`; 0 for none.
find_entry : Core → ℕ → List ℕ → ℕ
find_entry c id [] = 0
find_entry c id (x ∷ xs) =
    let rest = find_entry c id xs in if id == (c.tasks x).entry then x else rest

abbrev or_else : ℕ → ℕ → ℕ
or_else found other = if found == 0 then other else found

-- The lists in the order of `coreLists`.
unfoldable pub get_task_by_id : Core → ℕ → ℕ
unfolding find_entry
get_task_by_id c id =
    let look = find_entry c id in
    if ltb 0 id && ltb id size_max
    then (or_else (look (c.ready 0)) (
        or_else (look (c.ready 1))
          (or_else (look (c.ready 2)) (or_else (look c.waiting) (look c.suspended)))))
    else 0
