-- ===== src/Lib.antt =====
-- Verification of QuarkTS-cpp, a cooperative operating system for small microcontrollers.
--
-- The program. Tasks wait in doubly-linked lists (src/list.cpp) that share one node type. A task is
-- ready when a timer over the tick counter (src/timer.cpp, src/clock.cpp) has expired, when a
-- notification for it is queued by priority (src/prioqueue.cpp) or counted, when the queue attached
-- to it (src/queue.cpp) is in a given state, or when one of its event flags is set. Bytes from
-- interrupts pass through src/bytebuffer.cpp.
--
-- The model. C++ names are written in snake case; a member function takes the object before its
-- arguments and gives the new object beside its result. The target is a 32-bit one: `size_t`,
-- pointers and tick counts wrap at 2^32, written out by `add_word`, `sub_word` and `mul_word`
-- (Prelude/Word.antt). Signed indices are the integers of Prelude/Int.antt and stay in range. A null
-- pointer is the address 0. In the other parts a critical section is one step: nothing interrupts it.
--
--   Clock.antt       src/clock.cpp. `TickSource` is what the pointer `clock::getTick` holds; a user's
--                    tick function is an argument.
--   Timer.antt       src/timer.cpp. `now` is the tick that `clock::getTick()` returns in the call.
--     Deadline       when a timer fires.
--   Critical.antt    src/critical.cpp, with Nesting (sections inside each other).
--   Memory.antt      bytes by address, and `memcpy`.
--   Queue.antt       src/queue.cpp. The pointers are addresses into the memory.
--     Deque          the abstract queue: a list of at most a given number of items.
--     Slots, Layout  where items and pointers stand in the area.
--     Refine, Run    each call, and each sequence of calls, against the abstract queue.
--   PrioQueue.antt   src/prioqueue.cpp. `get` calls `getPriority` of a task: the argument `priority`.
--     Stack, Order   what the stack holds, and what `insert` and `get` do to it.
--     Drain          the order in which all notifications leave.
--     Stale          the copies that `clearIndex` leaves.
--   ByteBuffer.antt  src/bytebuffer.cpp, with Setup (what it accepts).
--   DList.antt       src/list.cpp. Nodes stand in a heap that all lists share, so that a write to a
--                    node of one list can be told to leave the others alone. `none` is the read or
--                    write through a null pointer.
--     Links          the sequence of nodes that a list holds.
--     Insert, InsertFront, Remove, RemoveAny, Twice   `insert` at the ends, `remove` of a node, and
--                    one after the other.
--   Pool.antt        src/memory.cpp. The headers of the blocks stand in a heap by their address.
--     Joining, Placing, Giving, Ranges, Gaps   the list of the free blocks, and a block that comes to it.
--     Freeing        `free`.
--     Fitting, Fits, Splitting, Allocating, Requests   `alloc`: the first fit, what is left of it, and
--                    which requests are met.
--   Task.antt        src/task.cpp. The flag word with the bit operations of src/include/helper.hpp
--                    (Prelude/Bits.antt).
--     Flags, Ready   what setting flags does, and when a task is due.
--   Kernel.antt      the data of src/kernel.cpp; Kernel/Notify: add, remove, notify, the event flags;
--                    Kernel/Schedule: the check of the waiting tasks; Kernel/Running: the ready tasks
--                    run, and the cycle of `core::run`; Kernel/Query: where a task stands. A list of tasks is the sequence of its
--                    nodes (Kernel/Lists), as DList shows src/list.cpp to keep it. User code, which the
--                    scheduler calls, is the argument `call`.
--     Placing, Checking   where the check at the start of a cycle puts each task.
--     Handing        the queued notification that is given out before it.
--     Dispatch, Levels   what running the ready tasks does to the lists.
--     Noting, Traces, Order  which callbacks are called, and in which order.
--     Sorting        `list::sort`, by the entry of a task.
--     Parts, Cycle, Conserve   that a cycle loses no task.
--     Pending, Adding, Iterations   notifications, new tasks, and how often a task runs.
--   Fsm.antt         the data and the setting up of src/fsm.cpp. States stand in a store by address;
--                    user code, an argument, may read and change the whole machine.
--     Setters        the setters of single members.
--     Signals, Timeouts   sent signals and the timers of a machine.
--     Activities, Transit, Running   the calls for one state, a transition, and `run`.
--     Publisher      `signalPublisher`.
--     Paths, Exits, Moves, Entries   which states a transition leaves and enters, and in which order.
--     Tree, Asks, Leaving, Settling, Turns, Returns   that a run returns.
--     Choosing, Holding, Expiring, Stopping, Subscribers, Publishing   tables, signals, timers, and
--                    subscriptions.
--   Input.antt       the channels of src/input.cpp; Input/Digital, Input/Analog: their states;
--                    Input/Watcher: the lists of channels.
--     Recorder, Turns, Edges   the events of a digital channel.
--     Bands, Zones, Sharing    the zones of an analog channel, and channels that share a value.
--   Util.antt        src/util.cpp: the length and the copy of a string.
--   Response.antt    src/response.cpp, with Match (when the pattern counts as received).
--   Tests            concrete runs.
--
-- Bounds and fuel. Loops over a stack or a list are structural. `smear` runs six rounds, one more
-- than the 32 bits of an `index_t` need. `shift_down` and `node_from` run the rounds that the bounds
-- of the C++ loops give. The loop over yields ends only if user code lets it: `rounds` bounds it, and
-- `Calm` asks that each yield goes to a task of lower rank, which makes the rounds enough. The walks of a state machine along the parents are
-- bounded by `rounds` of `User`; six are enough for a hierarchy that fits the nest depth. The walks over
-- the free blocks of a pool run one round more than the pool has bytes, so more than it has blocks.
--
-- Not modelled: the command line (src/cli.cpp), the logger (src/logger.cpp), coroutines
-- (src/coroutine.cpp), the global `new` and `delete` of src/memory.cpp, which a default heap of size
-- 0 leaves out; of src/util.cpp all but the length and the copy of strings; of src/list.cpp `swap` and `move`; names of tasks.
-- `sort`, and `move` to the back, are modelled on sequences only.
pub mod Prelude
pub mod Memory
pub mod Clock
pub mod Critical
pub mod Timer
pub mod Queue
pub mod Pool
pub mod PrioQueue
pub mod ByteBuffer
pub mod DList
pub mod Fsm
pub mod Input
pub mod Task
pub mod Kernel
pub mod Util
pub mod Response
pub mod Tests
