-- ===== src/Capacity/History.antt =====
-- Histories of the capacity ledger of crates/ne-supervisor/src/capacity.rs: any sequence of the
-- operations that run under its lock, as one supervisor's tasks interleave them.
use ne_enclave.Common.{
  ℕ, ◌⊎◌, ◌+◌, ◌^◌, ◌≤◌, ◌<◌, ◌≡◌, refl, true, String, List, [], ◌∷◌, arith, inl, inr, ok, err,
  Result, ◌∙◌, subst, sym,
}
use ne_enclave.Map.{lookup}
use ne_enclave.Protocol.Supervisor.{WorkspaceState}
use ne_enclave.Capacity.State.{CapacityState, CapacityError, CapacityEntryId, entry_eq, new}
use ne_enclave.Capacity.Edits.{
  used, Edit, Edits, done, and_then, Outcome, reserve_workspace, reserve_pool, set_workspace,
  set_ready, adopt, drop_workspace, drop_pool,
}
use ne_enclave.Capacity.Invariant.{Inv, Edits-Inv}
use ne_enclave.Capacity.Batch.{reserve_pool_batch-Outcome}
use ne_enclave.Capacity.Refinement.{
  reserve_workspace_entry-Outcome, register_entry-Outcome, set_entry_state-Outcome,
  ready_entry-Outcome, adopt_entry-Outcome, release_locked-Outcome,
}
use ne_enclave.Capacity.Admission.{
  reserve_workspace_entry, reserve_pool_batch_entries, register_entry, set_entry_state, ready_entry,
  adopt_entry, release_locked,
}

pub data Call : Type 0 where
  reserves : String → ℕ → ℕ → Call
  reserves_batch : ℕ → ℕ → ℕ → Call
  registers sets : CapacityEntryId → WorkspaceState → Call
  makes_ready : CapacityEntryId → Call
  adopts : CapacityEntryId → CapacityEntryId → WorkspaceState → Call
  releases : CapacityEntryId → Call
  fails_closed : Call

-- The state after a call, whatever it returns. `fail_closed` sets the fault and returns nothing.
unfoldable pub step : CapacityState → Call → CapacityState
step s (reserves id cpu memory) = (reserve_workspace_entry id cpu memory s).1
step s (reserves_batch n cpu memory) = (reserve_pool_batch_entries n cpu memory s).1
step s (registers k w) = (register_entry k w s).1
step s (sets k w) = (set_entry_state k w s).1
step s (makes_ready k) = (ready_entry k s).1
step s (adopts k w state) = (adopt_entry k w state s).1
step s (releases k) = (release_locked k s).1
step s fails_closed = record s { faulted = true }

unfoldable pub run : CapacityState → List Call → CapacityState
run s [] = s
run s (c ∷ cs) = run (step s c) cs

-- What any step is at most: edits, or a fault.
abbrev Edited : CapacityState → CapacityState → Type 0
Edited s t = Edits s t ⊎ (t ≡ record s { faulted = true })

Outcome-Edited :
    {A : Type 0} (s : CapacityState) (r : Result CapacityError A × CapacityState)
    → Outcome s r
    → Edited s r.1
unfolding Outcome
Outcome-Edited s (ok a, t) h = inl h
Outcome-Edited s (err e, t) (inl h) = inl (subst (Edits s) (sym h) done)
Outcome-Edited s (err e, t) (inr h) = inr h

step-Edited : (s : CapacityState) (c : Call) → Inv s → Edited s (step s c)
unfolding step
step-Edited s (reserves id cpu memory) v =
    Outcome-Edited s _ (reserve_workspace_entry-Outcome id cpu memory s)
step-Edited s (reserves_batch n cpu memory) v =
    Outcome-Edited s _ (reserve_pool_batch-Outcome n cpu memory s v)
step-Edited s (registers k w) v = Outcome-Edited s _ (register_entry-Outcome k w s)
step-Edited s (sets k w) v = Outcome-Edited s _ (set_entry_state-Outcome k w s)
step-Edited s (makes_ready k) v = Outcome-Edited s _ (ready_entry-Outcome k s)
step-Edited s (adopts k w state) v = Outcome-Edited s _ (adopt_entry-Outcome k w state s)
step-Edited s (releases k) v = Outcome-Edited s _ (release_locked-Outcome k s)
step-Edited s fails_closed v = inr refl

pub fault-Inv : (s : CapacityState) → Inv s → Inv (record s { faulted = true })
fault-Inv s v = record {
  unique_workspaces = v.unique_workspaces;
  unique_pool = v.unique_pool;
  fresh = v.fresh;
  within = v.within;
  ceiling_fits = v.ceiling_fits;
  revision_fits = v.revision_fits;
}

Edited-Inv : (s t : CapacityState) → Edited s t → Inv s → Inv t
Edited-Inv s t (inl es) v = Edits-Inv es v
Edited-Inv s t (inr e) v = subst Inv (sym e) (fault-Inv s v)

pub run-Inv : (s : CapacityState) (cs : List Call) → Inv s → Inv (run s cs)
unfolding run
run-Inv s [] v = v
run-Inv s (c ∷ cs) v = run-Inv (step s c) cs (Edited-Inv s _ (step-Edited s c v) v)

pub new-Inv : (ceiling : ℕ) → ceiling < 2 ^ 32 → Inv (new ceiling).state
unfolding new lookup
new-Inv ceiling h = record {
  unique_workspaces = tt;
  unique_pool = tt;
  fresh = λ i _. refl;
  within = omega arith;
  ceiling_fits = h;
  revision_fits = omega arith;
}

-- An edit takes exactly one revision, and never gives a pool id back.
record Advances (s t : CapacityState) : Type 0 where
  revision : t.revision ≡ s.revision + 1
  ceiling : t.configured_workspace_ceiling ≡ s.configured_workspace_ceiling
  ids : s.next_pool_id ≤ t.next_pool_id

Edit-Advances : {s t : CapacityState} → Edit s t → Advances s t
Edit-Advances (reserve_workspace id cpu memory o room new_id e) = ground arith
Edit-Advances (reserve_pool cpu memory o room fits e) = ground arith
Edit-Advances (set_workspace k x w o found e) = ground arith
Edit-Advances (set_ready k x o found was_reserved e) = ground arith
Edit-Advances (adopt k w x state o new_id found is_ready e) = ground arith
Edit-Advances (drop_workspace k x o found e) = ground arith
Edit-Advances (drop_pool k x o found e) = ground arith

-- What an observer of two states may conclude from their revisions.
pub record Later (s t : CapacityState) : Type 0 where
  pub revision : s.revision ≤ t.revision
  pub ceiling : t.configured_workspace_ceiling ≡ s.configured_workspace_ceiling
  pub ids : s.next_pool_id ≤ t.next_pool_id
  pub same :
      t.revision ≡ s.revision → (t.workspaces ≡ s.workspaces) × (t.pool_entries ≡ s.pool_entries)

Edits-Later : {s t : CapacityState} → Edits s t → Later s t
Edits-Later done = record {
  revision = omega arith;
  ceiling = refl;
  ids = omega arith;
  same = λ _. (refl, refl);
}
Edits-Later (and_then e es) =
    let a = Edit-Advances e in
    let l = Edits-Later es in
    record {
      revision = omega (arith, a.revision, l.revision);
      ceiling = l.ceiling ∙ a.ceiling;
      ids = omega (arith, a.ids, l.ids);
      same = λ h. absurd (omega (arith, a.revision, l.revision));
    }

Later-trans : (s t u : CapacityState) → Later s t → Later t u → Later s u
Later-trans s t u h k = record {
  revision = omega (arith, h.revision, k.revision);
  ceiling = k.ceiling ∙ h.ceiling;
  ids = omega (arith, h.ids, k.ids);
  same = λ e.
      let first = h.same (omega (arith, h.revision, k.revision)) in
      let second = k.same (omega (arith, h.revision, k.revision)) in
      (second.0 ∙ first.0, second.1 ∙ first.1);
}

Edited-Later : (s t : CapacityState) → Edited s t → Later s t
Edited-Later s t (inl es) = Edits-Later es
Edited-Later s t (inr e) =
    subst (Later s) (sym e) (record {
      revision = omega arith;
      ceiling = refl;
      ids = omega arith;
      same = λ _. (refl, refl);
    })

run-Later : (s : CapacityState) (cs : List Call) → Inv s → Later s (run s cs)
unfolding run
run-Later s [] v = Edits-Later done
run-Later s (c ∷ cs) v =
    let st = step-Edited s c v in
    Later-trans s (step s c) _ (Edited-Later s _ st) (run-Later (step s c) cs (Edited-Inv s _ st v))

-- From a ledger whose invariant holds: if the revision after any operations is the one before them,
-- then the workspace entries and the pool entries are those before them, states and dimensions
-- included.
pub revision-run :
    (s : CapacityState) (cs : List Call)
    → Inv s
    → (run s cs).revision ≡ s.revision
    → ((run s cs).workspaces ≡ s.workspaces) × ((run s cs).pool_entries ≡ s.pool_entries)
revision-run s cs v h = (run-Later s cs v).same h

-- A new ledger, whose ceiling fits 32 bits, never holds more entries than its ceiling, whatever
-- operations follow: its invariant
-- holds after every history, and the entries of workspaces and pool members together stay within the
-- ceiling that it was made with.
pub run_within_ceiling :
    (ceiling : ℕ) (cs : List Call)
    → ceiling < 2 ^ 32
    → Inv (run (new ceiling).state cs) × (used (run (new ceiling).state cs) ≤ ceiling)
unfolding new
run_within_ceiling ceiling cs h =
    let v = run-Inv (new ceiling).state cs (new-Inv ceiling h) in
    let l = run-Later (new ceiling).state cs (new-Inv ceiling h) in
    (v, omega (arith, v.within, l.ceiling))
