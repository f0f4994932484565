-- ===== src/Lifecycle/Draining.antt =====
-- `LifecycleTasks` of crates/ne-supervisor/src/workspace.rs under any interleaving of its callers.
use ne_enclave.Common.{
  ℕ, zero, suc, ◌+◌, ◌-◌, ◌≡◌, Bool, false, arith, Result, ok, err, List, [], ◌∷◌, leb,
  if◌then◌else◌,
}
use ne_enclave.Lifecycle.Tasks.{
  LifecycleTasks, LifecycleTaskError, new, close, begin, drop_permit, spawn_operation,
  spawn_cleanup,
}

-- The tracker, and how many permits tasks hold.
pub record Tracked : Type 0 where
  pub tasks : LifecycleTasks
  pub live : ℕ

pub data TaskEvent : Type 0 where
  -- A client's operation, and a cleanup, each with whether there is a runtime.
  operation cleanup : Bool → TaskEvent
  -- A task that holds a permit ends.
  ends : TaskEvent
  closes : TaskEvent

abbrev pub accepted : ℕ → Result LifecycleTaskError (Unit {0}) × LifecycleTasks → Tracked
accepted live (ok _, tasks) = record { tasks = tasks; live = live + 1 }
accepted live (err _, tasks) = record { tasks = tasks; live = live }

-- Where no task holds a permit, none ends.
unfoldable pub step : Tracked → TaskEvent → Tracked
step w (operation runtime) = accepted w.live (spawn_operation runtime w.tasks)
step w (cleanup runtime) = accepted w.live (spawn_cleanup runtime w.tasks)
step w ends = if leb 1 w.live then record { tasks = drop_permit w.tasks; live = w.live - 1 } else w
step w closes = record w { tasks = close w.tasks }

unfoldable pub run : Tracked → List TaskEvent → Tracked
run w [] = w
run w (e ∷ es) = run (step w e) es

abbrev pub start : Tracked
start = record { tasks = new; live = 0 }

-- The count is the number of permits that tasks hold.
pub record Counts (w : Tracked) : Type 0 where
  pub healthy : w.tasks.is_poisoned ≡ false
  pub counted : w.tasks.state.active ≡ w.live

step-Counts : (w : Tracked) (e : TaskEvent) → Counts w → Counts (step w e)
unfolding step begin drop_permit close spawn_operation spawn_cleanup
step-Counts w (operation runtime) c = ground arith
step-Counts w (cleanup runtime) c = ground arith
step-Counts w ends c = ground arith
step-Counts w closes c = ground arith

pub run-Counts : (w : Tracked) (es : List TaskEvent) → Counts w → Counts (run w es)
unfolding run
run-Counts w [] c = c
run-Counts w (e ∷ es) c = run-Counts (step w e) es (step-Counts w e c)

-- Closed, and no task left.
pub record Drained (w : Tracked) : Type 0 where
  pub counts : Counts w
  pub refuses : w.tasks.state.accepting ≡ false
  pub quiet : w.live ≡ 0

-- `n` tasks end, one after the other.
abbrev pub all_end : ℕ → List TaskEvent
all_end zero = []
all_end (suc n) = ends ∷ all_end n

-- A tracker that closed after `before`, and saw `after` while it waited.
abbrev pub shut_down : List TaskEvent → List TaskEvent → Tracked
shut_down before after = run (step (run start before) closes) after

-- Every task that holds a permit ends.
abbrev pub ended : Tracked → Tracked
ended w = run w (all_end w.live)
