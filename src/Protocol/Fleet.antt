-- ===== src/Protocol/Fleet.antt =====
-- crates/ne-protocol/src/fleet.rs: the inventory that a runner reports, and its validation.
use ne_enclave.Common.{
  ℕ, ◌^◌, Bool, true, false, ◌||◌, none, some, List, [], ◌∷◌, Result, ok, err, ltb, nat_eq,
  checked_add, any, Eq, ◌==◌, if◌then◌else◌,
}
use ne_enclave.Protocol.Profile.{ExecutionProfile, WorkspaceOperation, profile_eq, operation_eq}

pub data FleetValidationError : Type 0 where
  invalid_uuid invalid_token invalid_contract_id : FleetValidationError
  invalid_contract_version invalid_result_code capacity_out_of_range : FleetValidationError
  inconsistent_capacity invalid_generation invalid_sequence : FleetValidationError
  too_many_entries duplicate_attempt_operation invalid_payload_digest : FleetValidationError
  invalid_poll_delay invalid_replay_response invalid_error_guidance : FleetValidationError

abbrev pub max_runner_workspaces : ℕ
max_runner_workspaces = 1_000_000

abbrev pub max_cpu_millicores : ℕ
max_cpu_millicores = 1_000_000_000

abbrev pub max_memory_bytes : ℕ
max_memory_bytes = 2 ^ 50

pub record FleetProtocolRange : Type 0 where
  pub min_version : ℕ
  pub max_version : ℕ

-- `FleetProtocolRange::new`.
unfoldable pub protocol_range : ℕ → ℕ → Result FleetValidationError FleetProtocolRange
protocol_range min_version max_version =
    if nat_eq min_version 0 || ltb max_version min_version
    then err capacity_out_of_range
    else ok (record { min_version = min_version; max_version = max_version })

pub record RunnerCapacity : Type 0 where
  pub revision : ℕ
  pub configured_workspace_ceiling : ℕ
  pub registered_workspaces : ℕ
  pub resident_workspaces : ℕ
  pub runnable_workspaces : ℕ
  pub allocated_cpu_millicores : ℕ
  pub allocated_memory_bytes : ℕ
  pub warm_pool_reserved_slots : ℕ
  pub profiles : List ExecutionProfile
  pub operations : List WorkspaceOperation

module _ {ℓ} {A : Type ℓ} ⦃e : Eq A⦄ where
  -- The `HashSet` of the values seen so far.
  unfoldable pub contains : List A → A → Bool
  contains seen value = any (λ a. a == value) seen

  unfoldable pub has_duplicates_from : List A → List A → Bool
  unfolding contains
  has_duplicates_from seen [] = false
  has_duplicates_from seen (value ∷ rest) =
      contains seen value || has_duplicates_from (value ∷ seen) rest

  unfoldable pub has_duplicates : List A → Bool
  unfolding has_duplicates_from
  has_duplicates values = has_duplicates_from [] values

-- The first test of `RunnerCapacity::validate`.
unfoldable pub out_of_range : RunnerCapacity → Bool
out_of_range self =
    ltb max_runner_workspaces self.configured_workspace_ceiling
    || ltb max_runner_workspaces self.registered_workspaces
    || ltb max_runner_workspaces self.resident_workspaces
    || ltb max_runner_workspaces self.runnable_workspaces
    || ltb max_runner_workspaces self.warm_pool_reserved_slots
    || ltb max_cpu_millicores self.allocated_cpu_millicores
    || ltb max_memory_bytes self.allocated_memory_bytes

-- `checked_add(..).is_none_or(|total| total > ceiling)` over `u32`.
unfoldable pub exceeds_ceiling : RunnerCapacity → Bool
exceeds_ceiling self =
    elim (checked_add (2 ^ 32) self.registered_workspaces self.warm_pool_reserved_slots) [
      | none ↦ true
      | some total ↦ ltb self.configured_workspace_ceiling total
    ]

-- Its second test.
unfoldable pub inconsistent : RunnerCapacity → Bool
unfolding exceeds_ceiling
inconsistent self =
    ltb self.registered_workspaces self.runnable_workspaces
    || ltb self.resident_workspaces self.registered_workspaces
    || exceeds_ceiling self
    || has_duplicates self.profiles
    || has_duplicates self.operations

unfoldable pub validate : RunnerCapacity → Result FleetValidationError (Unit {0})
unfolding out_of_range inconsistent
validate self =
    if out_of_range self
    then err capacity_out_of_range
    else if inconsistent self
    then err inconsistent_capacity
    else ok tt
