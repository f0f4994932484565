-- ===== src/Capacity/Dropping.antt =====
-- A proof rule for `release_entry` of crates/ne-supervisor/src/capacity.rs: what is to be shown in
-- each of the cases in which a guard is dropped.
use ne_enclave.Common.{
  ◌+◌, ◌^◌, ◌≡◌, subst, sym, true, false, some, arith, inl, inr, Bool-cases, ltb,
}
use ne_enclave.Map.Laws.{remove_absent}
use ne_enclave.Capacity.State.{
  CapacityState, CapacityEntryId, workspace, pool, entry_eq, preflight_next_revision,
}
use ne_enclave.Capacity.Edits.{IsOpen}
use ne_enclave.Capacity.Admission.{release_locked, remove_entry}
use ne_enclave.Capacity.Guards.{release_entry}

absent_lem :
    (k : CapacityEntryId) (s : CapacityState)
    → (remove_entry k s).0 ≡ false
    → (remove_entry k s).1 ≡ s
unfolding remove_entry
absent_lem (workspace id) s e = ground (arith, remove_absent (workspace id) s.workspaces)
absent_lem (pool id) s e = ground (arith, remove_absent (pool id) s.pool_entries)

pub dropped_lem :
    (k : CapacityEntryId) (s : CapacityState)
    → IsOpen s
    → (remove_entry k s).0 ≡ true
    → release_entry (some k) s ≡ record ((remove_entry k s).1) { revision = s.revision + 1 }
unfolding release_entry release_locked preflight_next_revision
dropped_lem k s o h = let p = o.healthy in let q = o.revision_fits in ground arith

pub nothing_lem :
    (k : CapacityEntryId) (s : CapacityState)
    → IsOpen s
    → (remove_entry k s).0 ≡ false
    → release_entry (some k) s ≡ s
unfolding release_entry release_locked preflight_next_revision
nothing_lem k s o h =
    let p = o.healthy in let q = o.revision_fits in ground (arith, absent_lem k s h)

pub release_faulted :
    (k : CapacityEntryId) (s : CapacityState) → s.faulted ≡ true → release_entry (some k) s ≡ s
unfolding release_entry release_locked preflight_next_revision
release_faulted k s h = ground arith

pub release_overflow :
    (k : CapacityEntryId) (s : CapacityState)
    → s.faulted ≡ false
    → ltb (s.revision + 1) (2 ^ 64) ≡ false
    → release_entry (some k) s ≡ record s { faulted = true }
unfolding release_entry release_locked preflight_next_revision
release_overflow k s h full = ground arith

module _ (P : CapacityState → Type 0) (k : CapacityEntryId) (s : CapacityState) where
  pub release_rule :
      (s.faulted ≡ true → P s)
      → P (record s { faulted = true })
      → (IsOpen s → (remove_entry k s).0 ≡ false → P s)
      → (IsOpen s
          → (remove_entry k s).0 ≡ true
          → P (record ((remove_entry k s).1) { revision = s.revision + 1 }))
      → P (release_entry (some k) s)
  release_rule stuck overflows absent drops = elim (Bool-cases s.faulted) [
    | inl h ↦ subst P (sym (release_faulted k s h)) (stuck h)
    | inr h ↦ elim (Bool-cases (ltb (s.revision + 1) (2 ^ 64))) [
      | inr full ↦ subst P (sym (release_overflow k s h full)) overflows
      | inl fits ↦
          let o : IsOpen s = record { healthy = h; revision_fits = ground arith } in
          elim (Bool-cases (remove_entry k s).0) [
            | inl there ↦ subst P (sym (dropped_lem k s o there)) (drops o there)
            | inr gone ↦ subst P (sym (nothing_lem k s o gone)) (absent o gone)
          ]
    ]
  ]
