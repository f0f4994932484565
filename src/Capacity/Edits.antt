-- ===== src/Capacity/Edits.antt =====
-- The specification of crates/ne-supervisor/src/capacity.rs: the edits of a ledger, each with the
-- conditions under which the supervisor may make it. An edit of an entry takes the next revision.
use ne_enclave.Common.{
  ℕ, ◌+◌, ◌^◌, ◌<◌, ◌≡◌, true, false, String, none, some, length, ◌⊎◌, inl, inr, refl, Result, ok,
  err,
}
use ne_enclave.Map.{lookup, insert, remove}
use ne_enclave.Protocol.Supervisor.{WorkspaceState}
use ne_enclave.Capacity.State.{
  CapacityError, CapacityState, CapacityEntryId, workspace, pool, AccountedWorkspace,
  AccountedPoolMember, reserved, registered, ready, entry_eq,
}

abbrev pub used : CapacityState → ℕ
used s = length s.workspaces + length s.pool_entries

-- The ledger takes changes, and the next revision fits a `u64`.
pub record IsOpen (s : CapacityState) : Type 0 where
  pub healthy : s.faulted ≡ false
  pub revision_fits : s.revision + 1 < 2 ^ 64

abbrev pub with_workspace : CapacityState → CapacityEntryId → AccountedWorkspace → CapacityState
with_workspace s k v = record s { workspaces = insert k v s.workspaces; revision = s.revision + 1 }

abbrev pub with_pool_entry : CapacityState → CapacityEntryId → AccountedPoolMember → CapacityState
with_pool_entry s k v = record s {
  pool_entries = insert k v s.pool_entries;
  revision = s.revision + 1;
}

pub data Edit (s t : CapacityState) : Type 0 where
  reserve_workspace :
      (id : String) (cpu memory : ℕ)
      → IsOpen s
      → used s < s.configured_workspace_ceiling
      → lookup (workspace id) s.workspaces ≡ none
      → t
        ≡ with_workspace s
            (workspace id)
            (record { state = reserved; cpu_millicores = cpu; memory_bytes = memory })
      → Edit s t
  reserve_pool :
      (cpu memory : ℕ)
      → IsOpen s
      → used s < s.configured_workspace_ceiling
      → s.next_pool_id + 1 < 2 ^ 64
      → t
        ≡ with_pool_entry
            (record s { next_pool_id = s.next_pool_id + 1 })
            (pool s.next_pool_id)
            (record { state = reserved; cpu_millicores = cpu; memory_bytes = memory })
      → Edit s t
  set_workspace :
      (k : CapacityEntryId) (v : AccountedWorkspace) (new_state : WorkspaceState)
      → IsOpen s
      → lookup k s.workspaces ≡ some v
      → t ≡ with_workspace s k (record v { state = registered new_state })
      → Edit s t
  set_ready :
      (k : CapacityEntryId) (v : AccountedPoolMember)
      → IsOpen s
      → lookup k s.pool_entries ≡ some v
      → v.state ≡ reserved
      → t ≡ with_pool_entry s k (record v { state = ready })
      → Edit s t
  adopt :
      (k w : CapacityEntryId) (v : AccountedPoolMember) (new_state : WorkspaceState)
      → IsOpen s
      → lookup w s.workspaces ≡ none
      → lookup k s.pool_entries ≡ some v
      → v.state ≡ ready
      → t
        ≡ with_workspace
            (record s { pool_entries = remove k s.pool_entries })
            w
            (record {
              state = registered new_state;
              cpu_millicores = v.cpu_millicores;
              memory_bytes = v.memory_bytes;
            })
      → Edit s t
  drop_workspace :
      (k : CapacityEntryId) (v : AccountedWorkspace)
      → IsOpen s
      → lookup k s.workspaces ≡ some v
      → t ≡ record s { workspaces = remove k s.workspaces; revision = s.revision + 1 }
      → Edit s t
  drop_pool :
      (k : CapacityEntryId) (v : AccountedPoolMember)
      → IsOpen s
      → lookup k s.pool_entries ≡ some v
      → t ≡ record s { pool_entries = remove k s.pool_entries; revision = s.revision + 1 }
      → Edit s t

-- Several edits in a row.
pub data Edits : CapacityState → CapacityState → Type 0 where
  done : {s : CapacityState} → Edits s s
  and_then : {s t u : CapacityState} → Edit s t → Edits t u → Edits s u

-- A failed operation leaves the ledger as it was, or faults it.
abbrev pub Failed : CapacityState → CapacityState → Type 0
Failed s t = (t ≡ s) ⊎ (t ≡ record s { faulted = true })

-- What the specification allows an operation to do in `s`.
unfoldable pub Outcome :
    {A : Type 0} → CapacityState → Result CapacityError A × CapacityState → Type 0
Outcome s (ok a, t) = Edits s t
Outcome s (err e, t) = Failed s t

module _ (A : Type 0) (s : CapacityState) where
  pub refused : (e : CapacityError) → Outcome {A = A} s (err e, s)
  unfolding Outcome
  refused e = inl refl

  pub faults : (e : CapacityError) → Outcome {A = A} s (err e, record s { faulted = true })
  unfolding Outcome
  faults e = inr refl

  pub unchanged : (a : A) → Outcome s (ok a, s)
  unfolding Outcome
  unchanged a = done

  pub edited : (a : A) {t : CapacityState} → Edit s t → Outcome s (ok a, t)
  unfolding Outcome
  edited a e = and_then e done

  pub edits : (a : A) {t : CapacityState} → Edits s t → Outcome s (ok a, t)
  unfolding Outcome
  edits a es = es
