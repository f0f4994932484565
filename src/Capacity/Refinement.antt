-- ===== src/Capacity/Refinement.antt =====
-- The operations of crates/ne-supervisor/src/capacity.rs against the specification of its edits.
use ne_enclave.Common.{
  ℕ, ◌+◌, ◌≡◌, refl, ◌==◌, not, Bool, true, false, String, some, arith, ok, if◌then◌else◌,
}
use ne_enclave.Map.{lookup, contains_key, Map}
use ne_enclave.Map.Laws.{remove_absent}
use ne_enclave.Protocol.Supervisor.{WorkspaceState, workspace_state_eq}
use ne_enclave.Capacity.State.{
  CapacityState, CapacityEntryId, commit_revision, workspace, pool, PoolCapacityState, reserved,
  is_ready, is_reserved, entry_eq,
}
use ne_enclave.Capacity.Edits.{
  IsOpen, reserve_workspace, set_workspace, set_ready, adopt, drop_workspace, drop_pool, Outcome,
  refused, faults, unchanged, edited,
}
use ne_enclave.Capacity.Rules.{healthy_rule, room_rule, revision_rule, option_rule, if_rule}
use ne_enclave.Capacity.Admission.{
  reserve_workspace_entry, register_entry, set_entry_state, ready_entry, adopt_entry,
  release_locked, remove_entry,
}

-- In every state, `reserve_workspace` succeeds by edits of the specification, or fails
-- and leaves the state as it was or faulted.
pub reserve_workspace_entry-Outcome :
    (id : String) (cpu memory : ℕ) (s : CapacityState)
    → Outcome s (reserve_workspace_entry id cpu memory s)
unfolding reserve_workspace_entry
reserve_workspace_entry-Outcome id cpu memory s =
    healthy_rule (Outcome s) s _ (refused _ s _) λ healthy.
      room_rule (Outcome s) s _ (refused _ s _) (refused _ s _) λ room.
        revision_rule (Outcome s) s _ (refused _ s _) (faults _ s _) λ is_open.
          if_rule (Outcome s) s (contains_key (workspace id) s.workspaces) _ _ (λ _. refused _ s _)
            λ new. edited _ s _ (reserve_workspace id cpu memory is_open room (ground arith) refl)

-- In every state, `register_in_place` succeeds by edits of the specification, or fails and leaves the
-- state as it was or faulted.
pub register_entry-Outcome :
    (k : CapacityEntryId) (w : WorkspaceState) (s : CapacityState)
    → Outcome s (register_entry k w s)
unfolding register_entry
register_entry-Outcome k w s = healthy_rule (Outcome s) s _ (refused _ s _) λ healthy.
    option_rule (Outcome s) s _ _ _ (λ _. refused _ s _)
      λ existing found.
        if_rule (Outcome s) s (not (is_reserved existing.state)) _ _ (λ _. refused _ s _)
          λ is_new. revision_rule (Outcome s) s _ (refused _ s _) (faults _ s _) λ is_open.
            option_rule (Outcome s) s _ _ _ (λ _. refused _ s _)
              λ entry present. edited _ s _ (set_workspace k entry w is_open present refl)

-- In every state, `set_state` succeeds by edits of the specification, or
-- fails and leaves the state as it was or faulted.
pub set_entry_state-Outcome :
    (k : CapacityEntryId) (w : WorkspaceState) (s : CapacityState)
    → Outcome s (set_entry_state k w s)
unfolding set_entry_state
set_entry_state-Outcome k w s = healthy_rule (Outcome s) s _ (refused _ s _) λ healthy.
    option_rule (Outcome s) s _ _ _ (λ _. refused _ s _)
      λ existing found.
        option_rule (Outcome s) s _ _ _ (λ _. refused _ s _)
          λ current is_registered.
            if_rule (Outcome s) s (current == w) _ _ (λ _. unchanged _ s _)
              λ differs. revision_rule (Outcome s) s _ (refused _ s _) (faults _ s _) λ is_open.
                option_rule (Outcome s) s _ _ _ (λ _. refused _ s _)
                  λ entry present. edited _ s _ (set_workspace k entry w is_open present refl)

not_ready : (p : PoolCapacityState) → is_ready p ≡ false → p ≡ reserved
not_ready p h = ground arith

-- In every state, `ready_in_place` succeeds by edits of the specification, or fails and leaves the
-- state as it was or faulted.
pub ready_entry-Outcome : (k : CapacityEntryId) (s : CapacityState) → Outcome s (ready_entry k s)
unfolding ready_entry
ready_entry-Outcome k s = healthy_rule (Outcome s) s _ (refused _ s _) λ healthy.
    option_rule (Outcome s) s _ _ _ (λ _. refused _ s _)
      λ existing found.
        if_rule (Outcome s) s (is_ready existing.state) _ _ (λ _. refused _ s _)
          λ is_new. revision_rule (Outcome s) s _ (refused _ s _) (faults _ s _) λ is_open.
            option_rule (Outcome s) s _ _ _ (λ _. refused _ s _)
              λ entry present. edited _ s _ (set_ready k entry is_open present (ground arith) refl)

-- In every state, `adopt_in_place` succeeds by edits of the specification, or fails and leaves the
-- state as it was or faulted.
pub adopt_entry-Outcome :
    (k workspace_id : CapacityEntryId) (w : WorkspaceState) (s : CapacityState)
    → Outcome s (adopt_entry k workspace_id w s)
unfolding adopt_entry
adopt_entry-Outcome k workspace_id w s = healthy_rule (Outcome s) s _ (refused _ s _) λ healthy.
    if_rule (Outcome s) s (contains_key workspace_id s.workspaces) _ _ (λ _. refused _ s _)
      λ new.
        option_rule (Outcome s) s _ _ _ (λ _. refused _ s _)
          λ existing found.
            if_rule (Outcome s) s (not (is_ready existing.state)) _ _ (λ _. refused _ s _)
              λ has_booted. revision_rule (Outcome s) s _ (refused _ s _) (faults _ s _) λ is_open.
                option_rule (Outcome s) s _ _ _ (λ _. refused _ s _)
                  λ entry present. edited _ s _ (
                    adopt k workspace_id entry w is_open (ground arith) present (ground arith) refl)

contained_value :
    (k : CapacityEntryId) {V : Type 0} (m : Map CapacityEntryId V)
    → contains_key k m ≡ true
    → (v : V) × (lookup k m ≡ some v)
contained_value k m h = ground arith

release_found :
    (k : CapacityEntryId) (s : CapacityState) (b : Bool)
    → IsOpen s
    → (remove_entry k s).0 ≡ b
    → Outcome {A = Bool} s (
      ok b,
      if b then commit_revision (s.revision + 1) (remove_entry k s).1 else (remove_entry k s).1,
    )
unfolding remove_entry
release_found (workspace id) s true is_open h =
    let (v, found) = contained_value (workspace id) s.workspaces h in
    edited _ s _ (drop_workspace (workspace id) v is_open found refl)
release_found (workspace id) s false is_open h =
    rw (remove_absent (workspace id) s.workspaces (ground arith)) (unchanged _ s _)
release_found (pool id) s true is_open h =
    let (v, found) = contained_value (pool id) s.pool_entries h in
    edited _ s _ (drop_pool (pool id) v is_open found refl)
release_found (pool id) s false is_open h =
    rw (remove_absent (pool id) s.pool_entries (ground arith)) (unchanged _ s _)

-- In every state, `release_entry` succeeds by edits of the specification, or fails and leaves the
-- state as it was or faulted.
pub release_locked-Outcome :
    (k : CapacityEntryId) (s : CapacityState) → Outcome s (release_locked k s)
unfolding release_locked
release_locked-Outcome k s =
    revision_rule (Outcome s) s _ (refused _ s _) (faults _ s _)
      λ is_open. release_found k s (remove_entry k s).0 is_open refl
