-- ===== src/Lifecycle/Tasks.antt =====
-- crates/ne-supervisor/src/workspace.rs: `LifecycleTasks`, which counts the operations and cleanups
-- that a supervisor has accepted, and stops accepting operations when it shuts down.
use ne_enclave.Common.{
  ℕ, ◌-◌, ◌^◌, Bool, true, false, not, ◌&&◌, ◌||◌, none, some, Result, ok, err, leb, nat_eq,
  checked_add, if◌then◌else◌,
}

pub record LifecycleTaskState : Type 0 where
  pub accepting : Bool
  pub active : ℕ

-- The state behind its `Mutex`, which a panic under the lock leaves poisoned.
pub record LifecycleTasks : Type 0 where
  pub is_poisoned : Bool
  pub state : LifecycleTaskState

pub data LifecycleTaskError : Type 0 where
  closed poisoned no_runtime : LifecycleTaskError

unfoldable pub new : LifecycleTasks
new = record { is_poisoned = false; state = record { accepting = true; active = 0 } }

unfoldable pub close : LifecycleTasks → LifecycleTasks
close tasks =
    if tasks.is_poisoned
    then tasks
    else record tasks { state = record (tasks.state) { accepting = false } }

unfoldable pub is_closed : LifecycleTasks → Bool
is_closed tasks = if tasks.is_poisoned then true else not tasks.state.accepting

-- `begin`: a permit is counted in `active`.
unfoldable pub begin : Bool → LifecycleTasks → Result LifecycleTaskError (Unit {0}) × LifecycleTasks
begin cleanup tasks =
    if tasks.is_poisoned
    then (err poisoned, tasks)
    else if not tasks.state.accepting && (not cleanup || nat_eq tasks.state.active 0)
    then (err closed, tasks)
    else elim (checked_add (2 ^ 64) tasks.state.active 1) [
      | none ↦ (err poisoned, tasks)
      | some active ↦ (ok tt, record tasks { state = record (tasks.state) { active = active } })
    ]

-- `Drop` of a permit, whose `checked_sub` leaves a count of 0 alone.
unfoldable pub drop_permit : LifecycleTasks → LifecycleTasks
drop_permit tasks =
    if tasks.is_poisoned
    then tasks
    else if leb 1 tasks.state.active
    then record tasks { state = record (tasks.state) { active = tasks.state.active - 1 } }
    else tasks

-- `spawn_operation`: the permit is taken first, and dropped again where no runtime takes the task.
unfoldable pub spawn_operation :
    Bool → LifecycleTasks → Result LifecycleTaskError (Unit {0}) × LifecycleTasks
unfolding begin drop_permit
spawn_operation runtime tasks =
    let (permit, tasks') = begin false tasks in
    elim permit [
      | err e ↦ (err e, tasks')
      | ok _ ↦ if runtime then (ok tt, tasks') else (err no_runtime, drop_permit tasks')
    ]

-- `spawn_cleanup`: the runtime is looked up first.
unfoldable pub spawn_cleanup :
    Bool → LifecycleTasks → Result LifecycleTaskError (Unit {0}) × LifecycleTasks
unfolding begin
spawn_cleanup runtime tasks = if runtime then begin true tasks else (err no_runtime, tasks)

-- One round of the loop of `wait`: whether it returns.
unfoldable pub wait_returns : LifecycleTasks → Bool
wait_returns tasks = if tasks.is_poisoned then true else nat_eq tasks.state.active 0
