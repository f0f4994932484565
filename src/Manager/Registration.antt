-- ===== src/Manager/Registration.antt =====
-- `register_pending_firecracker` and the leases of crates/ne-supervisor/src/workspace.rs, as far as
-- the agreement of the registry and the ledger goes.
use ne_enclave.Common.{
  ◌≡◌, refl, ap, sym, subst, ◌∙◌, Bool, String, string_eq, arith, none, some, Result, ok, err, inl,
  inr, Option-cases, ◌>>◌,
}
use ne_enclave.Map.{lookup, contains_key, insert, remove}
use ne_enclave.Protocol.Supervisor.{workspace_state_eq}
use ne_enclave.Capacity.State.{entry_eq, reserved, registered}
use ne_enclave.Capacity.Guards.{Guard, Handed, register_in_place}
use ne_enclave.Lifecycle.Claims.{LifecycleClaims}
use ne_enclave.Pool.State.{Instance}
use ne_enclave.Common.{continue, raise}
use ne_enclave.Common.{bind_rule}
use ne_enclave.Lifecycle.Claims.{claim, drop_lease}
use ne_enclave.Map.Laws.{remove-insert_new}
use ne_enclave.Manager.State.{
  WorkspaceManager, FirecrackerWorkspace, SupervisorErrorKind, Manages, claim_boot, release_lease,
  with_lease, teardown_pending, insert_pending, PendingOwner, promoted,
  register_pending_firecracker, workspace_already_exists, internal,
}
use ne_enclave.Manager.Steps.{Promotes, register-Promotes}
use ne_enclave.Manager.Soundness.{IsSound, IsBooting, inserted-IsSound}
use ne_enclave.Manager.Keeping.{Sound, Keeps, pending_gone}

module _ (claims : LifecycleClaims) (id : String) (exit_confirmed : Bool)
    (instance : Instance) where
  insert_pending-Sound :
      (guard : Guard) (m : WorkspaceManager)
      → IsBooting claims id guard (registered instance.lifecycle_state) m
      → Sound claims (insert_pending exit_confirmed id instance guard m)
  insert_pending-Sound guard m v =
      rw (insert_pending, contains_key, v.no_instance) (inserted-IsSound claims instance v)

  promoted-Sound :
      (m : WorkspaceManager) (x : Handed)
      → Promotes claims id instance.lifecycle_state m x
      → Sound claims (promoted exit_confirmed id instance m x)
  promoted-Sound m (ok guard, old, s) v = insert_pending-Sound guard _ v
  promoted-Sound m (err e, old, s) v =
      bind_rule (Sound claims) (Sound claims) (λ _. raise internal) (λ a t u. u) (λ e t u. u)
        (teardown_pending exit_confirmed instance old) _
        (pending_gone claims exit_confirmed instance (record m { capacity = s }) v)

  pub register_reserved-Sound :
      (guard : Guard) (m : WorkspaceManager)
      → IsBooting claims id guard reserved m
      → Sound claims
          (register_pending_firecracker exit_confirmed id instance (PendingOwner.reserved guard) m)
  unfolding register_pending_firecracker
  register_reserved-Sound guard m v =
      subst
        (λ g. Sound claims (
          promoted exit_confirmed id instance m
            (register_in_place g instance.lifecycle_state m.capacity)))
        (sym v.owns)
        (promoted-Sound m _ (
          register-Promotes claims m id instance.lifecycle_state
            (subst (λ g. IsBooting claims id g reserved m) v.owns v)))

  pub register_registered-Sound :
      (guard : Guard) (m : WorkspaceManager)
      → IsBooting claims id guard (registered instance.lifecycle_state) m
      → Sound claims (
          register_pending_firecracker exit_confirmed id instance (PendingOwner.registered guard) m)
  unfolding register_pending_firecracker
  register_registered-Sound guard m v = insert_pending-Sound guard m v

-- Code that holds a lease on an id which no instance has.
abbrev pub KeepsFree : {A : Type 0} → String → Manages A → Type 0
KeepsFree id body =
    (claims : LifecycleClaims) (m : WorkspaceManager)
    → lookup id m.instances ≡ none
    → IsSound claims m
    → Sound claims (body m)

-- What a claim answers in each case.
claim_held :
    (id : String) (m : WorkspaceManager) (held : Unit {0})
    → lookup id m.lifecycle_claims ≡ some held
    → claim_boot id m ≡ (err workspace_already_exists, m)
unfolding claim_boot claim
claim_held id m held e = ground arith

claim_registered :
    (id : String) (m : WorkspaceManager) (w : FirecrackerWorkspace)
    → lookup id m.lifecycle_claims ≡ none
    → lookup id m.instances ≡ some w
    → claim_boot id m ≡ (err workspace_already_exists, m)
unfolding claim_boot claim drop_lease
claim_registered id m w free there = ground (arith, remove-insert_new id tt m.lifecycle_claims free)

claim_free :
    (id : String) (m : WorkspaceManager)
    → lookup id m.lifecycle_claims ≡ none
    → lookup id m.instances ≡ none
    → claim_boot id m ≡ (ok tt, record m { lifecycle_claims = insert id tt m.lifecycle_claims })
unfolding claim_boot claim
claim_free id m free none_there = ground arith

pub leased :
    {m : WorkspaceManager} (claims ids : LifecycleClaims)
    → IsSound claims m
    → IsSound ids (record m { lifecycle_claims = ids })
leased claims ids v = record {
  claims_kept = refl;
  inv = v.inv;
  unique = v.unique;
  guarded = v.guarded;
  agree = v.agree;
}

module _ {A : Type 0} (id : String) where
  pub lease_ended :
      (claims : LifecycleClaims)
      → lookup id claims ≡ none
      → (x : Result SupervisorErrorKind A × WorkspaceManager) → Sound (insert id tt claims) x
      → Sound claims (release_lease id x)
  unfolding drop_lease
  lease_ended claims free (r, m) v = record {
    claims_kept = ap (remove id) v.claims_kept ∙ remove-insert_new id tt claims free;
    inv = v.inv;
    unique = v.unique;
    guarded = v.guarded;
    agree = v.agree;
  }

module _ {A : Type 0} (id : String) (body : Manages A) (keeps : KeepsFree id body) where
  claimed_at :
      (m : WorkspaceManager)
      → IsSound m.lifecycle_claims m
      → Sound m.lifecycle_claims ((claim_boot id >> with_lease id body) m)
  claimed_at m v =
      let P = λ (x : Result SupervisorErrorKind (Unit {0}) × WorkspaceManager).
        Sound {A = A} m.lifecycle_claims (continue x.0 (λ _. with_lease id body) x.1) in
      elim (Option-cases (lookup id m.lifecycle_claims)) [
        | inr (held, e) ↦ subst P (sym (claim_held id m held e)) v
        | inl free ↦ elim (Option-cases (lookup id m.instances)) [
          | inr (w, there) ↦ subst P (sym (claim_registered id m w free there)) v
          | inl none_there ↦ subst P (sym (claim_free id m free none_there)) (
              lease_ended id m.lifecycle_claims free
                (body (record m { lifecycle_claims = insert id tt m.lifecycle_claims }))
                (keeps _ (record m { lifecycle_claims = insert id tt m.lifecycle_claims })
                  none_there (leased _ _ v)))
        ]
      ]

  pub claimed-Keeps :
      (claims : LifecycleClaims) → Keeps claims (claim_boot id >> with_lease id body)
  claimed-Keeps claims m v =
      subst (λ c. Sound c ((claim_boot id >> with_lease id body) m)) v.claims_kept
        (claimed_at m (subst (λ c. IsSound c m) (sym v.claims_kept) v))
