-- ===== src/Manager/Ending.antt =====
-- `terminate_inner` of crates/ne-supervisor/src/workspace.rs: it leaves the registry and the ledger in
-- agreement.
use ne_enclave.Common.{
  ℕ, ◌≡◌, refl, sym, subst, Bool, true, false, String, string_eq, eq_iff, arith, Option, none, some,
  inl, inr, Bool-cases, Option-cases, ◌>>◌, if◌then◌else◌,
}
use ne_enclave.Map.{lookup, remove}
use ne_enclave.Map.Laws.{lookup-remove, remove-Unique}
use ne_enclave.Protocol.Supervisor.{workspace_state_eq}
use ne_enclave.Capacity.State.{CapacityState, workspace, entry_eq, AccountedWorkspace, registered}
use ne_enclave.Capacity.Guards.{Guard, release_entry, fault_ledger}
use ne_enclave.Lifecycle.Claims.{LifecycleClaims}
use ne_enclave.Common.{raise}
use ne_enclave.Common.{bind_rule}
use ne_enclave.Manager.State.{WorkspaceManager, FirecrackerWorkspace, fail_closed, internal}
use ne_enclave.Manager.Soundness.{Agrees, IsSound, IsBooting, faulted-IsSound, faulted_booting}
use ne_enclave.Manager.Keeping.{Sound, Keeps, others-IsSound, guard_dropped}
use ne_enclave.Capacity.Dropping.{release_faulted}
use ne_enclave.Manager.Changes.{guard_at}
use ne_enclave.Manager.Terminate.{reclaim_slot, reclaim_network, reclaim, terminate_inner}

released_faulted :
    (guard : Guard) (s : CapacityState) → s.faulted ≡ true → release_entry guard s ≡ s
unfolding release_entry
released_faulted none s h = refl
released_faulted (some k) s h = release_faulted k s h

entry_of :
    (id : String) (w : FirecrackerWorkspace) (o : Option AccountedWorkspace)
    → Agrees id (some w) o
    → (e : AccountedWorkspace) × (o ≡ some e) × (e.state ≡ registered w.instance.lifecycle_state)
entry_of id w none a = elim a [ ]
entry_of id w (some e) a = (e, refl, a.1)

module _ (claims : LifecycleClaims) (id : String) (m : WorkspaceManager) (w : FirecrackerWorkspace)
    (here : lookup id m.instances ≡ some w) (v : IsSound claims m) where
  unregistered-IsBooting :
      m.capacity.faulted ≡ false
      → IsBooting claims id w.capacity_guard
          (registered w.instance.lifecycle_state)
          (record m { instances = remove id m.instances })
  unregistered-IsBooting healthy = record {
    claims_kept = v.claims_kept;
    inv = v.inv;
    unique = remove-Unique id m.instances v.unique;
    guarded = v.guarded;
    no_instance = ground (arith, lookup-remove id id m.instances v.unique, eq_iff id id);
    owns = guard_at claims m id w here v healthy;
    entry = λ _. entry_of id w (lookup (workspace id) m.capacity.workspaces) (
        subst (λ o. Agrees id o (lookup (workspace id) m.capacity.workspaces)) here
          (v.agree healthy id));
    agree =
        λ _ j differs. rw (lookup-remove id j m.instances v.unique, differs) (v.agree healthy j);
  }

  -- A ledger that is faulted claims nothing.
  unclaimed :
      m.capacity.faulted ≡ true → IsSound claims (record m { instances = remove id m.instances })
  unclaimed faulted = record {
    claims_kept = v.claims_kept;
    inv = v.inv;
    unique = remove-Unique id m.instances v.unique;
    guarded = v.guarded;
    agree = λ healthy. cc;
  }

  released-IsSound : IsSound claims (record m {
    instances = remove id m.instances;
    capacity = release_entry w.capacity_guard m.capacity;
  })
  released-IsSound = elim (Bool-cases m.capacity.faulted) [
    | inl faulted ↦
        subst (λ s. IsSound claims (record m { instances = remove id m.instances; capacity = s }))
          (sym (released_faulted w.capacity_guard m.capacity faulted)) (unclaimed faulted)
    | inr healthy ↦ guard_dropped claims (unregistered-IsBooting healthy)
  ]

  kept_faulted :
      IsSound claims
        (record m { instances = remove id m.instances; capacity = fault_ledger m.capacity })
  kept_faulted = elim (Bool-cases m.capacity.faulted) [
    | inl faulted ↦ faulted-IsSound claims (unclaimed faulted)
    | inr healthy ↦ faulted_booting claims (unregistered-IsBooting healthy)
  ]

module _ (claims : LifecycleClaims) (id : String) where
  reclaim_network-Keeps : (slot : Option ℕ) → Keeps claims (reclaim_network id slot)
  reclaim_network-Keeps none m v = v
  reclaim_network-Keeps (some slot) m v = where_networking m.networking
    where
      where_networking : (networking : Bool) → Sound claims (reclaim_slot id slot networking m)
      where_networking true = others-IsSound claims _ _ _ _ v
      where_networking false = v

  reclaim-Sound :
      (m : WorkspaceManager) (w : FirecrackerWorkspace)
      → IsSound claims (record m { capacity = release_entry w.capacity_guard m.capacity })
      → Sound claims (reclaim id w m)
  unfolding reclaim
  reclaim-Sound m w v =
      bind_rule (Sound claims) (Sound claims) _ (λ a t u. others-IsSound claims _ _ _ _ u)
        (λ e t u. u) (reclaim_network id w.instance.network_slot)
        (record m { capacity = release_entry w.capacity_guard m.capacity })
        (reclaim_network-Keeps w.instance.network_slot _ v)

  pub terminate_inner-Keeps :
      (exit_confirmed : Bool) → Keeps claims (terminate_inner exit_confirmed id)
  unfolding terminate_inner
  terminate_inner-Keeps exit_confirmed m v = elim (Option-cases (lookup id m.instances)) [
    | inl missing ↦ rw (terminate_inner, missing) v
    | inr (w, here) ↦ rw (terminate_inner, here) (ended exit_confirmed w here)
  ]
    where
      ended :
          (exit_confirmed : Bool) (w : FirecrackerWorkspace)
          → lookup id m.instances ≡ some w
          → Sound claims (
              (if exit_confirmed then reclaim id w else (fail_closed >> raise internal))
                (record m { instances = remove id m.instances }))
      ended true w here =
          reclaim-Sound (record m { instances = remove id m.instances }) w
            (released-IsSound claims id m w here v)
      ended false w here = kept_faulted claims id m w here v
