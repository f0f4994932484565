-- ===== src/Capacity/Ownership/Preserved.antt =====
-- Every operation of the guards of crates/ne-supervisor/src/capacity.rs keeps entries and guards in
-- step.
use ne_enclave.Common.{not, ℕ, ◌≤◌, ◌≡◌, refl, true, false, String, arith, some, List, Result, ◌==◌}
use ne_enclave.Map.{contains_key}
use ne_enclave.Protocol.Supervisor.{WorkspaceState}
use ne_enclave.Capacity.State.{
  CapacityState, CapacityError, CapacityEntryId, workspace, entry_eq, PoolCapacityState, reserved,
}
use ne_enclave.Capacity.Edits.{reserve_workspace, set_workspace, set_ready, adopt}
use ne_enclave.Capacity.Invariant.{Edit-Inv}
use ne_enclave.Capacity.Rules.{healthy_rule, room_rule, revision_rule, option_rule, if_rule}
use ne_enclave.Capacity.Guards.{
  hand_over, register_in_place, set_guard_state, ready_in_place, adopt_in_place,
}
use ne_enclave.Capacity.Admission.{reserve_workspace_entry}
use ne_enclave.Capacity.Ownership.{Guarded, owners_of, without_one, IsOwned, add_owner, hand_on}
use ne_enclave.Capacity.Ownership.Changes.{
  owners_of-without_one, put_back, faulted-IsOwned, replaced_workspace, replaced_pool_entry,
  added_workspace, adopted_entry,
}
use ne_enclave.Capacity.Admission.{register_entry, set_entry_state, ready_entry, adopt_entry}
use ne_enclave.Capacity.State.{is_reserved, is_ready}
use ne_enclave.Protocol.Supervisor.{workspace_state_eq}

abbrev pub IsGuarded : Guarded → Type 0
IsGuarded w = IsOwned w.ledger w.owners

not_ready : (p : PoolCapacityState) → is_ready p ≡ false → p ≡ reserved
not_ready p h = ground arith

module _ (s : CapacityState) (owners : List CapacityEntryId) (v : IsOwned s owners) where
  module _ (k : CapacityEntryId) (owned : 1 ≤ owners_of k owners) where
    pub register_in_place-IsOwned :
        (state : WorkspaceState) → IsGuarded (hand_on k owners (register_in_place (some k) state s))
    unfolding register_in_place register_entry
    register_in_place-IsOwned state =
        let P = λ (x : Result CapacityError (Unit {0}) × CapacityState).
          IsGuarded (hand_on k owners (hand_over k k x)) in
        healthy_rule P s _ (put_back v k owned) λ healthy.
          option_rule P s _ _ _ (λ _. put_back v k owned)
            λ existing found.
              if_rule P s (not (is_reserved existing.state)) _ _ (λ _. put_back v k owned)
                λ is_new.
                  revision_rule P s _ (put_back v k owned) (put_back (faulted-IsOwned v) k owned)
                    λ o.
                      option_rule P s _ _ _ (λ _. put_back v k owned)
                        λ entry present.
                          put_back
                            (replaced_workspace v k entry _ present
                              (Edit-Inv (set_workspace k entry state o present refl) v.inv))
                            k owned

    pub set_guard_state-IsOwned :
        (state : WorkspaceState) → IsOwned (set_guard_state (some k) state s).1 owners
    unfolding set_guard_state set_entry_state
    set_guard_state-IsOwned state =
        let P = λ (x : Result CapacityError (Unit {0}) × CapacityState). IsOwned x.1 owners in
        healthy_rule P s _ v λ healthy.
          option_rule P s _ _ _ (λ _. v)
            λ existing found.
              option_rule P s _ _ _ (λ _. v)
                λ current is_registered.
                  if_rule P s (current == state) _ _ (λ _. v)
                    λ differs. revision_rule P s _ v (faulted-IsOwned v) λ o.
                      option_rule P s _ _ _ (λ _. v)
                        λ entry present.
                          replaced_workspace v k entry _ present
                            (Edit-Inv (set_workspace k entry state o present refl) v.inv)

    pub ready_in_place-IsOwned : IsGuarded (hand_on k owners (ready_in_place (some k) s))
    unfolding ready_in_place ready_entry
    ready_in_place-IsOwned =
        let P = λ (x : Result CapacityError (Unit {0}) × CapacityState).
          IsGuarded (hand_on k owners (hand_over k k x)) in
        healthy_rule P s _ (put_back v k owned) λ healthy.
          option_rule P s _ _ _ (λ _. put_back v k owned)
            λ existing found.
              if_rule P s (is_ready existing.state) _ _ (λ _. put_back v k owned)
                λ is_new.
                  revision_rule P s _ (put_back v k owned) (put_back (faulted-IsOwned v) k owned)
                    λ o.
                      option_rule P s _ _ _ (λ _. put_back v k owned)
                        λ entry present.
                          put_back
                            (replaced_pool_entry v k entry _ present
                              (Edit-Inv (set_ready k entry o present (ground arith) refl) v.inv))
                            k owned

    pub adopt_in_place-IsOwned :
        (id : String) (state : WorkspaceState)
        → IsGuarded (hand_on k owners (adopt_in_place (some k) id state s))
    unfolding adopt_in_place adopt_entry
    adopt_in_place-IsOwned id state =
        let P = λ (x : Result CapacityError (Unit {0}) × CapacityState).
          IsGuarded (hand_on k owners (hand_over k (workspace id) x)) in
        healthy_rule P s _ (put_back v k owned) λ healthy.
          if_rule P s (contains_key (workspace id) s.workspaces) _ _ (λ _. put_back v k owned)
            λ free.
              option_rule P s _ _ _ (λ _. put_back v k owned)
                λ existing found.
                  if_rule P s (not (is_ready existing.state)) _ _ (λ _. put_back v k owned)
                    λ booted.
                      revision_rule P s _ (put_back v k owned)
                        (put_back (faulted-IsOwned v) k owned)
                        λ o.
                          option_rule P s _ _ _ (λ _. put_back v k owned)
                            λ entry present.
                              adopted_entry v k id entry _ owned (ground arith) present (
                                Edit-Inv
                                  (adopt k (workspace id) entry state o (ground arith) present
                                    (ground arith) refl)
                                  v.inv)

  pub reserve_workspace-IsOwned :
      (id : String) (cpu memory : ℕ)
      → IsGuarded (add_owner owners (reserve_workspace_entry id cpu memory s))
  unfolding reserve_workspace_entry
  reserve_workspace-IsOwned id cpu memory =
      let P = λ (x : Result CapacityError CapacityEntryId × CapacityState).
        IsGuarded (add_owner owners x) in
      healthy_rule P s _ v λ healthy. room_rule P s _ v v λ room.
        revision_rule P s _ v (faulted-IsOwned v) λ o.
          if_rule P s (contains_key (workspace id) s.workspaces) _ _ (λ _. v)
            λ free.
              added_workspace v id _ (ground arith)
                (Edit-Inv (reserve_workspace id cpu memory o room (ground arith) refl) v.inv)

  -- A guard that is dropped when the ledger is faulted leaves its entry behind.
  pub forgotten :
      (k : CapacityEntryId)
      → 1 ≤ owners_of k owners
      → s.faulted ≡ true
      → IsOwned s (without_one k owners)
  forgotten k owned h = record {
    inv = v.inv;
    pool_keys = v.pool_keys;
    workspace_keys = v.workspace_keys;
    at_most = λ j. omega (arith, owners_of-without_one k j owners, v.at_most j);
    exactly = λ j healthy. cc;
  }
