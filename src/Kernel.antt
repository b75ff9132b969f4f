-- ===== src/Kernel.antt =====
-- src/kernel.cpp: the data of the scheduler. A list is the sequence of nodes that src/list.cpp keeps
-- linked. Tasks, queues and functions are known by their addresses, 0 for null.
pub mod Lists
pub mod Notify
pub mod Schedule
pub mod Query
pub mod Running
pub mod Pending
pub mod Iterations
pub mod Placing
pub mod Checking
pub mod Handing
pub mod Dispatch
pub mod Levels
pub mod Noting
pub mod Traces
pub mod Order
pub mod Parts
pub mod Cycle
pub mod Conserve
pub mod Adding
pub mod Sorting
use quark_ts_cpp.Prelude.{ℕ, Bool, List, ◌==◌, if◌then◌else◌}
use quark_ts_cpp.Task.{Task, Trigger}
use quark_ts_cpp.Queue.{Queue}
use quark_ts_cpp.PrioQueue.{PrioQueue}

-- The members of `taskEvent`.
pub record Event : Type 0 where
  pub trigger : Trigger
  pub first_call : Bool
  pub first_iteration : Bool
  pub last_iteration : Bool
  pub start_delay : ℕ
  pub current_task : ℕ
  pub task_data : ℕ
  pub event_data : ℕ

pub data NotifyMode : Type 0 where
  simple queued notify_none : NotifyMode

-- The members of `core`, beside the tasks and queues by address. `ready` are the lists by priority,
-- `idle` is the address of the idle task, and `now` is what `clock::getTick()` returns: time passes
-- in the callbacks. `world` is the memory of the user code, that only the callbacks use.
pub record Core : Type 0 where
  pub tasks : ℕ → Task
  pub queues : ℕ → Queue
  pub now : ℕ
  pub event : Event
  pub idle : ℕ
  pub release_sched_callback : ℕ
  pub yield_task : ℕ
  pub priority_queue : PrioQueue
  pub flag : ℕ
  pub spreader_mode : NotifyMode
  pub spreader_data : ℕ
  pub task_entries : ℕ
  pub ready : ℕ → List ℕ
  pub waiting : List ℕ
  pub suspended : List ℕ
  pub cpu_idle : ℕ
  pub world : List (ℕ × ℕ)

-- A task's object is assigned.
unfoldable pub put_task : Core → ℕ → Task → Core
put_task c x t = record c { tasks = λ y. if y == x then t else c.tasks y }
