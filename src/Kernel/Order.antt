-- ===== src/Kernel/Order.antt =====
-- The order in which `dispatch` calls the tasks of all the ready lists.
use quark_ts_cpp.Prelude.Returns.{Returns}
use quark_ts_cpp.Prelude.{ℕ, List}
use quark_ts_cpp.Kernel.{Core}
use quark_ts_cpp.Kernel.Levels.{Spent}
use quark_ts_cpp.Kernel.Traces.{Traced}

-- The tasks `xs` of the list `p` of `c` were called, in order, and have left the list.
abbrev Done : (ℕ → ℕ) → Core → ℕ → List ℕ → Core → Type 0
Done rank c p xs d = Spent c p xs d × Traced rank c xs d
