-- ===== src/Capacity/Stepping.antt =====
-- Each operation of the ledger of crates/ne-supervisor/src/capacity.rs against its own specification:
-- the change that it makes, and the reasons for which it is refused.
use ne_enclave.Common.{
  ℕ, ◌+◌, ◌^◌, ◌≤◌, ◌<◌, ◌≡◌, ◌≢◌, true, false, String, Option, none, some, Result, ok, err,
}
use ne_enclave.Map.{lookup, remove}
use ne_enclave.Protocol.Supervisor.{WorkspaceState, workspace_state_eq}
use ne_enclave.Capacity.State.{
  CapacityState, CapacityError, CapacityEntryId, AccountedWorkspace, AccountedPoolMember, workspace,
  pool, reserved, registered, ready, entry_eq, exhausted, duplicate_workspace, missing_entry,
  invalid_transition, arithmetic_overflow,
}
use ne_enclave.Capacity.Edits.{used, IsOpen, with_workspace, with_pool_entry}
use ne_enclave.Capacity.Batch.{Fits, after_batch, batch_size}
use ne_enclave.Capacity.Admission.{
  reserve_workspace_entry, reserve_pool_batch_entries, register_entry, set_entry_state, ready_entry,
  adopt_entry, release_locked,
}
use ne_enclave.Capacity.History.{
  Call, reserves, reserves_batch, registers, sets, makes_ready, adopts, releases, fails_closed,
}

-- The change that a call makes, under its conditions.
pub data Makes (s : CapacityState) : Call → CapacityState → Type 0 where
  workspace_is_reserved :
      {id : String} {cpu memory : ℕ}
      → IsOpen s
      → used s < s.configured_workspace_ceiling
      → lookup (workspace id) s.workspaces ≡ none
      → Makes s (reserves id cpu memory) (
          with_workspace s
            (workspace id)
            (record { state = reserved; cpu_millicores = cpu; memory_bytes = memory }))
  batch_is_empty :
      {n cpu memory : ℕ}
      → s.faulted ≡ false
      → batch_size n s ≡ 0
      → Makes s (reserves_batch n cpu memory) s
  batch_is_reserved :
      {n cpu memory : ℕ}
      → Fits (batch_size n s) s
      → Makes s (reserves_batch n cpu memory) (after_batch cpu memory (batch_size n s) s)
  is_registered :
      {k : CapacityEntryId} {w : WorkspaceState} {v : AccountedWorkspace}
      → IsOpen s
      → lookup k s.workspaces ≡ some v
      → v.state ≡ reserved
      → Makes s (registers k w) (with_workspace s k (record v { state = registered w }))
  is_in_state :
      {k : CapacityEntryId} {w : WorkspaceState} {v : AccountedWorkspace}
      → s.faulted ≡ false
      → lookup k s.workspaces ≡ some v
      → v.state ≡ registered w
      → Makes s (sets k w) s
  is_set :
      {k : CapacityEntryId} {w current : WorkspaceState} {v : AccountedWorkspace}
      → IsOpen s
      → lookup k s.workspaces ≡ some v
      → v.state ≡ registered current
      → current ≢ w
      → Makes s (sets k w) (with_workspace s k (record v { state = registered w }))
  is_made_ready :
      {k : CapacityEntryId} {v : AccountedPoolMember}
      → IsOpen s
      → lookup k s.pool_entries ≡ some v
      → v.state ≡ reserved
      → Makes s (makes_ready k) (with_pool_entry s k (record v { state = ready }))
  is_adopted :
      {k w : CapacityEntryId} {state : WorkspaceState} {v : AccountedPoolMember}
      → IsOpen s
      → lookup w s.workspaces ≡ none
      → lookup k s.pool_entries ≡ some v
      → v.state ≡ ready
      → Makes s (adopts k w state) (
          with_workspace
            (record s { pool_entries = remove k s.pool_entries })
            w
            (record {
              state = registered state;
              cpu_millicores = v.cpu_millicores;
              memory_bytes = v.memory_bytes;
            }))
  workspace_is_released :
      {id : String} {v : AccountedWorkspace}
      → IsOpen s
      → lookup (workspace id) s.workspaces ≡ some v
      → Makes s
          (releases (workspace id))
          (record s { workspaces = remove (workspace id) s.workspaces; revision = s.revision + 1 })
  member_is_released :
      {i : ℕ} {v : AccountedPoolMember}
      → IsOpen s
      → lookup (pool i) s.pool_entries ≡ some v
      → Makes s
          (releases (pool i))
          (record s { pool_entries = remove (pool i) s.pool_entries; revision = s.revision + 1 })
  no_workspace :
      {id : String}
      → IsOpen s
      → lookup (workspace id) s.workspaces ≡ none
      → Makes s (releases (workspace id)) s
  no_member :
      {i : ℕ} → IsOpen s → lookup (pool i) s.pool_entries ≡ none → Makes s (releases (pool i)) s
  ledger_is_faulted : Makes s fails_closed (record s { faulted = true })

-- How many revisions a call takes.
abbrev pub revisions : Call → CapacityState → ℕ
revisions (reserves_batch n cpu memory) s = batch_size n s
revisions _ s = 1

-- The reasons for which a call is refused, each with its error, and what it leaves.
pub data Refuses (s : CapacityState) : Call → CapacityError → CapacityState → Type 0 where
  was_faulted : {c : Call} → s.faulted ≡ true → Refuses s c CapacityError.is_faulted s
  out_of_revisions :
      {c : Call}
      → 2 ^ 64 ≤ s.revision + revisions c s
      → Refuses s c CapacityError.is_faulted (record s { faulted = true })
  is_full :
      {id : String} {cpu memory : ℕ}
      → s.configured_workspace_ceiling ≤ used s
      → Refuses s (reserves id cpu memory) exhausted s
  is_taken :
      {id : String} {cpu memory : ℕ} {v : AccountedWorkspace}
      → lookup (workspace id) s.workspaces ≡ some v
      → Refuses s (reserves id cpu memory) duplicate_workspace s
  out_of_ids :
      {n cpu memory : ℕ}
      → 2 ^ 64 ≤ s.next_pool_id + batch_size n s
      → Refuses s (reserves_batch n cpu memory) arithmetic_overflow s
  nothing_to_register :
      {k : CapacityEntryId} {w : WorkspaceState}
      → lookup k s.workspaces ≡ none
      → Refuses s (registers k w) missing_entry s
  was_registered :
      {k : CapacityEntryId} {w current : WorkspaceState} {v : AccountedWorkspace}
      → lookup k s.workspaces ≡ some v
      → v.state ≡ registered current
      → Refuses s (registers k w) invalid_transition s
  nothing_to_set :
      {k : CapacityEntryId} {w : WorkspaceState}
      → lookup k s.workspaces ≡ none
      → Refuses s (sets k w) missing_entry s
  not_registered :
      {k : CapacityEntryId} {w : WorkspaceState} {v : AccountedWorkspace}
      → lookup k s.workspaces ≡ some v
      → v.state ≡ reserved
      → Refuses s (sets k w) invalid_transition s
  nothing_to_make_ready :
      {k : CapacityEntryId}
      → lookup k s.pool_entries ≡ none
      → Refuses s (makes_ready k) missing_entry s
  was_ready :
      {k : CapacityEntryId} {v : AccountedPoolMember}
      → lookup k s.pool_entries ≡ some v
      → v.state ≡ ready
      → Refuses s (makes_ready k) invalid_transition s
  adopter_exists :
      {k w : CapacityEntryId} {state : WorkspaceState} {v : AccountedWorkspace}
      → lookup w s.workspaces ≡ some v
      → Refuses s (adopts k w state) duplicate_workspace s
  nothing_to_adopt :
      {k w : CapacityEntryId} {state : WorkspaceState}
      → lookup k s.pool_entries ≡ none
      → Refuses s (adopts k w state) missing_entry s
  not_ready :
      {k w : CapacityEntryId} {state : WorkspaceState} {v : AccountedPoolMember}
      → lookup k s.pool_entries ≡ some v
      → v.state ≡ reserved
      → Refuses s (adopts k w state) invalid_transition s

abbrev pub error_of : {A : Type 0} → Result CapacityError A → Option CapacityError
error_of (ok a) = none
error_of (err e) = some e

-- The error with which a call is refused.
unfoldable pub refusal : CapacityState → Call → Option CapacityError
refusal s (reserves id cpu memory) = error_of (reserve_workspace_entry id cpu memory s).0
refusal s (reserves_batch n cpu memory) = error_of (reserve_pool_batch_entries n cpu memory s).0
refusal s (registers k w) = error_of (register_entry k w s).0
refusal s (sets k w) = error_of (set_entry_state k w s).0
refusal s (makes_ready k) = error_of (ready_entry k s).0
refusal s (adopts k w state) = error_of (adopt_entry k w state s).0
refusal s (releases k) = error_of (release_locked k s).0
refusal s fails_closed = none

-- A call makes its change, or is refused.
abbrev pub Stepped : CapacityState → Call → Option CapacityError → CapacityState → Type 0
Stepped s c none t = Makes s c t
Stepped s c (some e) t = Refuses s c e t

abbrev pub Does :
    {A : Type 0} → CapacityState → Call → Result CapacityError A × CapacityState → Type 0
Does s c r = Stepped s c (error_of r.0) r.1
