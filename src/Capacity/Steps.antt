-- ===== src/Capacity/Steps.antt =====
-- The operations of the ledger of crates/ne-supervisor/src/capacity.rs make the changes that Stepping
-- names, or are refused for its reasons.
use ne_enclave.Common.{
  ℕ, ◌+◌, ◌≡◌, refl, not, Bool, true, false, String, Option, none, some, arith, ok, ◌==◌,
  if◌then◌else◌, subst, ap, ◌∙◌,
}
use ne_enclave.Map.{lookup, contains_key, Map}
use ne_enclave.Map.Laws.{remove_absent}
use ne_enclave.Protocol.Supervisor.{WorkspaceState, workspace_state_eq, same_state_iff}
use ne_enclave.Capacity.State.{
  CapacityState, CapacityEntryId, AccountedWorkspace, AccountedPoolMember, WorkspaceCapacityState,
  PoolCapacityState, workspace, pool, reserved, registered, ready, entry_eq, is_reserved,
  registered_state, is_ready, commit_revision,
}
use ne_enclave.Capacity.Edits.{IsOpen}
use ne_enclave.Capacity.Invariant.{Inv}
use ne_enclave.Capacity.Rules.{healthy_cases, room_cases, revision_cases, option_rule, if_rule}
use ne_enclave.Capacity.Batch.{batch_cases}
use ne_enclave.Capacity.Admission.{
  reserve_workspace_entry, reserve_pool_batch_entries, register_entry, set_entry_state, ready_entry,
  adopt_entry, release_locked, remove_entry,
}
use ne_enclave.Capacity.History.{
  Call, reserves, reserves_batch, registers, sets, makes_ready, adopts, releases, fails_closed,
  step,
}
-- The change that a call makes, under its conditions.
use ne_enclave.Capacity.Stepping.{
  refusal, Stepped, Does, workspace_is_reserved, batch_is_empty, batch_is_reserved, is_registered,
  is_in_state, is_set, is_made_ready, is_adopted, workspace_is_released, member_is_released,
  no_workspace, no_member, ledger_is_faulted, was_faulted, out_of_revisions, is_full, is_taken,
  out_of_ids, nothing_to_register, was_registered, nothing_to_set, not_registered,
  nothing_to_make_ready, was_ready, adopter_exists, nothing_to_adopt, not_ready,
}

contained :
    (k : CapacityEntryId) {V : Type 0} (m : Map CapacityEntryId V)
    → contains_key k m ≡ true
    → (v : V) × (lookup k m ≡ some v)
contained k m h = ground arith

reserves-Does :
    (id : String) (cpu memory : ℕ) (s : CapacityState)
    → Inv s
    → Does s (reserves id cpu memory) (reserve_workspace_entry id cpu memory s)
unfolding reserve_workspace_entry
reserves-Does id cpu memory s v =
    let P = Does {A = CapacityEntryId} s (reserves id cpu memory) in
    healthy_cases P s _ was_faulted λ healthy.
      room_cases P s _ (λ h. absurd (omega (arith, v.within, v.ceiling_fits, h))) is_full
        λ room. revision_cases P s _ was_faulted out_of_revisions λ o.
          if_rule P s (contains_key (workspace id) s.workspaces) _ _
            (λ h. let (x, found) = contained (workspace id) s.workspaces h in is_taken found)
            λ new. workspace_is_reserved o room (ground arith)

reserves_batch-Does :
    (n cpu memory : ℕ) (s : CapacityState)
    → Inv s
    → Does s (reserves_batch n cpu memory) (reserve_pool_batch_entries n cpu memory s)
reserves_batch-Does n cpu memory s v =
    batch_cases n cpu memory s v (Does s (reserves_batch n cpu memory)) was_faulted out_of_ids
      out_of_revisions batch_is_empty batch_is_reserved

the_same {ℓ} : {A : Type ℓ} {o : Option A} {a b : A} → o ≡ some a → o ≡ some b → a ≡ b
the_same h k = ground arith

of_reserved : (w : WorkspaceCapacityState) → not (is_reserved w) ≡ false → w ≡ reserved
of_reserved w h = ground arith

of_registered :
    (w : WorkspaceCapacityState)
    → not (is_reserved w) ≡ true
    → (current : WorkspaceState) × (w ≡ registered current)
of_registered WorkspaceCapacityState.reserved h = ground arith
of_registered (registered current) h = (current, refl)

state_found :
    (w : WorkspaceCapacityState) (current : WorkspaceState)
    → registered_state w ≡ some current
    → w ≡ registered current
state_found w current h = ground arith

no_state : (w : WorkspaceCapacityState) → registered_state w ≡ none → w ≡ reserved
no_state w h = ground arith

has_booted : (p : PoolCapacityState) → is_ready p ≡ true → p ≡ ready
has_booted p h = ground arith

still_boots : (p : PoolCapacityState) → is_ready p ≡ false → p ≡ reserved
still_boots p h = ground arith

module _ (k : CapacityEntryId) (s : CapacityState) where
  registers-Does : (w : WorkspaceState) → Does s (registers k w) (register_entry k w s)
  unfolding register_entry
  registers-Does w =
      let P = Does {A = Unit {0}} s (registers k w) in
      healthy_cases P s _ was_faulted λ healthy.
        option_rule P s _ _ _ nothing_to_register λ existing found.
          if_rule P s (not (is_reserved existing.state)) _ _
            (λ h. was_registered found (of_registered existing.state h).1)
            λ new. revision_cases P s _ was_faulted out_of_revisions λ o.
              option_rule P s _ _ _ nothing_to_register λ entry present. is_registered o present (
                subst (λ (x : AccountedWorkspace). x.state ≡ reserved) (the_same found present)
                  (of_reserved existing.state new))

  sets-Does : (w : WorkspaceState) → Does s (sets k w) (set_entry_state k w s)
  unfolding set_entry_state
  sets-Does w =
      let P = Does {A = Unit {0}} s (sets k w) in
      healthy_cases P s _ was_faulted λ healthy.
        option_rule P s _ _ _ nothing_to_set λ existing found.
          option_rule P s _ _ _ (λ h. not_registered found (no_state existing.state h))
            λ current has_state.
              let now = state_found existing.state current has_state in
              if_rule P s (current == w) _ _
                (λ same.
                  is_in_state healthy found
                    (now ∙ ap registered ((same_state_iff current w).0 same)))
                λ differs. revision_cases P s _ was_faulted out_of_revisions λ o.
                  option_rule P s _ _ _ nothing_to_set λ entry present.
                    is_set o present
                      (subst (λ (x : AccountedWorkspace). x.state ≡ registered current)
                        (the_same found present) now)
                      (λ e. ground (arith, (same_state_iff current w).1 e))

  makes_ready-Does : Does s (makes_ready k) (ready_entry k s)
  unfolding ready_entry
  makes_ready-Does =
      let P = Does {A = Unit {0}} s (makes_ready k) in
      healthy_cases P s _ was_faulted λ healthy.
        option_rule P s _ _ _ nothing_to_make_ready λ existing found.
          if_rule P s (is_ready existing.state) _ _
            (λ h. was_ready found (has_booted existing.state h))
            λ new. revision_cases P s _ was_faulted out_of_revisions λ o.
              option_rule P s _ _ _ nothing_to_make_ready λ entry present. is_made_ready o present (
                subst (λ (x : AccountedPoolMember). x.state ≡ reserved) (the_same found present)
                  (still_boots existing.state new))

  adopts-Does :
      (id : CapacityEntryId) (w : WorkspaceState) → Does s (adopts k id w) (adopt_entry k id w s)
  unfolding adopt_entry
  adopts-Does id w =
      let P = Does {A = Unit {0}} s (adopts k id w) in
      healthy_cases P s _ was_faulted λ healthy.
        if_rule P s (contains_key id s.workspaces) _ _
          (λ h. let (x, found) = contained id s.workspaces h in adopter_exists found)
          λ new. option_rule P s _ _ _ nothing_to_adopt λ existing found.
            if_rule P s (not (is_ready existing.state)) _ _
              (λ h. not_ready found (still_boots existing.state (ground arith)))
              λ booted. revision_cases P s _ was_faulted out_of_revisions λ o.
                option_rule P s _ _ _ nothing_to_adopt λ entry present.
                  is_adopted o (ground arith) present (
                    subst (λ (x : AccountedPoolMember). x.state ≡ ready) (the_same found present)
                      (has_booted existing.state (ground arith)))

release_found :
    (k : CapacityEntryId) (s : CapacityState) (b : Bool)
    → IsOpen s
    → (remove_entry k s).0 ≡ b
    → Does {A = Bool} s (releases k) (
      ok b,
      if b then commit_revision (s.revision + 1) (remove_entry k s).1 else (remove_entry k s).1,
    )
unfolding remove_entry
release_found (workspace id) s true o h =
    let (x, found) = contained (workspace id) s.workspaces h in workspace_is_released o found
release_found (workspace id) s false o h =
    rw (remove_absent (workspace id) s.workspaces (ground arith)) (no_workspace o (ground arith))
release_found (pool i) s true o h =
    let (x, found) = contained (pool i) s.pool_entries h in member_is_released o found
release_found (pool i) s false o h =
    rw (remove_absent (pool i) s.pool_entries (ground arith)) (no_member o (ground arith))

releases-Does : (k : CapacityEntryId) (s : CapacityState) → Does s (releases k) (release_locked k s)
unfolding release_locked
releases-Does k s =
    revision_cases (Does {A = Bool} s (releases k)) s _ was_faulted out_of_revisions
      λ o. release_found k s (remove_entry k s).0 o refl

-- From a state whose invariant holds, every operation either makes the change that belongs to it, whose
-- conditions then hold, or returns an error whose reason holds. The error leaves the state as it was, or
-- faulted where the revisions ran out.
pub step-Stepped : (s : CapacityState) (c : Call) → Inv s → Stepped s c (refusal s c) (step s c)
unfolding step refusal
step-Stepped s (reserves id cpu memory) v = reserves-Does id cpu memory s v
step-Stepped s (reserves_batch n cpu memory) v = reserves_batch-Does n cpu memory s v
step-Stepped s (registers k w) v = registers-Does k s w
step-Stepped s (sets k w) v = sets-Does k s w
step-Stepped s (makes_ready k) v = makes_ready-Does k s
step-Stepped s (adopts k w state) v = adopts-Does k s w state
step-Stepped s (releases k) v = releases-Does k s
step-Stepped s fails_closed v = ledger_is_faulted
