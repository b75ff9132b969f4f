-- ===== src/PrioQueue.antt =====
-- src/prioqueue.cpp: the stack of queued notifications. A task is known by its address (0 is
-- null), and `priority` gives what its `getPriority()` returns. A write outside of the stack
-- changes nothing here; in C++ it is undefined.
pub mod Stack
pub mod Order
pub mod Drain
pub mod Stale
use quark_ts_cpp.Prelude.{
  ℕ, zero, suc, ◌+◌, ◌-◌, Bool, true, false, not, Option, none, some, List, [], ◌∷◌, ◌==◌, ltb,
  if◌then◌else◌, length, get_or, set, replicate,
}
use quark_ts_cpp.Prelude.Int.{ℤ, pos, negsuc, suc_ℤ, pred_ℤ, pos_part, ltb_ℤ}

-- `pq::queueStack_t`
pub record Entry : Type 0 where
  pub p_task : ℕ
  pub q_data : ℕ

abbrev pub null_entry : Entry
null_entry = record { p_task = 0; q_data = 0 }

-- `q_data` is the member `data`.
pub record PrioQueue : Type 0 where
  pub index : ℤ
  pub q_data : ℕ
  pub stack : List Entry

-- The constructor over an area of `size` entries, whose `qData` it leaves as it finds it.
unfoldable pub clear_tasks : List Entry → List Entry
clear_tasks [] = []
clear_tasks (e ∷ es) = record e { p_task = 0 } ∷ clear_tasks es

unfoldable pub init : List Entry → PrioQueue
unfolding clear_tasks
init area = record { index = negsuc 0; q_data = 0; stack = clear_tasks area }

unfoldable pub has_elements : PrioQueue → Bool
has_elements q = not (ltb_ℤ q.index (pos 0))

unfoldable pub count : PrioQueue → ℕ
unfolding has_elements
count q = if has_elements q then pos_part q.index + 1 else 0

-- `stack[ i ]`
abbrev pub at : List Entry → ℕ → Entry
at es i = get_or es i null_entry

-- `stack[ j ] = stack[ j + 1 ]` for the given number of rounds.
unfoldable pub shift_down : List Entry → ℕ → ℕ → List Entry
shift_down es j zero = es
shift_down es j (suc n) = shift_down (set es j (at es (j + 1))) (j + 1) n

unfoldable pub clear_index : PrioQueue → ℕ → PrioQueue
clear_index q i =
    let cleared = set q.stack i (record (at q.stack i) { p_task = 0 }) in
    record q { stack = shift_down cleared i (pos_part q.index - i); index = pred_ℤ q.index }

module _ (priority : ℕ → ℕ) where
  -- The loop of `get` over the entries from index `i` on: the index of the entry to extract.
  unfoldable pub scan : List Entry → ℕ → ℕ → ℕ → ℕ
  scan [] i max_priority found = found
  scan (e ∷ es) i max_priority found =
      let higher = ltb max_priority (priority e.p_task) in
      let rest =
        scan es (i + 1) (if higher then priority e.p_task else max_priority)
          (if higher then i else found) in
      if e.p_task == 0 then found else rest

  -- The index to extract from the whole stack.
  unfoldable pub extract_at : List Entry → ℕ
  unfolding scan
  extract_at [] = 0
  extract_at (e ∷ es) = scan es 1 (priority e.p_task) 0

  -- The task, 0 for null; its data is left in `q_data`.
  unfoldable pub get : PrioQueue → PrioQueue × ℕ
  unfolding has_elements extract_at clear_index
  get q =
      let i = extract_at q.stack in
      if has_elements q
      then (clear_index (record q { q_data = (at q.stack i).q_data }) i, (at q.stack i).p_task)
      else (q, 0)

unfoldable pub inside_from : List Entry → ℕ → ℕ → ℕ → Bool
inside_from es task i zero = false
inside_from es task i (suc n) =
    let rest = inside_from es task (i + 1) n in if (at es i).p_task == task then true else rest

unfoldable pub is_task_inside : PrioQueue → ℕ → Bool
unfolding inside_from
is_task_inside q task = inside_from q.stack task 0 (pos_part (suc_ℤ q.index))

-- `stack[ index ] = tmp`
store : List Entry → ℤ → Entry → List Entry
store es (pos i) e = set es i e
store es (negsuc i) e = es

unfoldable pub insert : PrioQueue → ℕ → ℕ → PrioQueue × Bool
unfolding store
insert q task p_data =
    let tmp : Entry = record { p_task = task; q_data = p_data } in
    if ltb_ℤ q.index (pred_ℤ (pos (length q.stack)))
    then (record q { index = suc_ℤ q.index; stack = store q.stack (suc_ℤ q.index) tmp }, true)
    else (q, false)

-- The loop of `cleanUp` from index `i` on.
clean_up_from : PrioQueue → ℕ → ℕ → ℕ → PrioQueue
clean_up_from q task i zero = q
clean_up_from q task i (suc n) =
    clean_up_from (if (at q.stack i).p_task == task then clear_index q i else q) task (i + 1) n

unfoldable pub clean_up : PrioQueue → ℕ → PrioQueue
unfolding clean_up_from clear_index
clean_up q task = clean_up_from q task 1 (length q.stack - 1)
