-- ===== src/Manager/Keeping.antt =====
-- The steps that the operations of crates/ne-supervisor/src/workspace.rs share, as far as the
-- agreement of the registry and the ledger goes.
use ne_enclave.Common.{
  ℕ, sym, subst, Bool, true, false, String, string_eq, Option, none, some, List, Result, ◌>>=◌,
  ◌>>◌, if◌then◌else◌,
}
use ne_enclave.Map.{Map}
use ne_enclave.Protocol.Supervisor.{workspace_state_eq}
use ne_enclave.Capacity.State.{entry_eq, WorkspaceCapacityState}
use ne_enclave.Capacity.History.{fault-Inv}
use ne_enclave.Capacity.Guards.{Guard, release_entry, fault_ledger}
use ne_enclave.Lifecycle.Claims.{LifecycleClaims}
use ne_enclave.Pool.State.{Instance}
use ne_enclave.Audit.Event.{EventType}
use ne_enclave.Network.Slots.{Slots}
use ne_enclave.Text.{Text}
use ne_enclave.Lifecycle.Nonces.{NonceRing}
use ne_enclave.Ingress.Registry.{IngressRegistry}
use ne_enclave.Common.{bind_rule}
use ne_enclave.Manager.State.{
  WorkspaceManager, SupervisorErrorKind, Manages, AuditEntry, audit_emit, drop_guard, fail_closed,
  teardown_network, teardown_pending,
}
use ne_enclave.Manager.Dropped.{dropped-IsSound}
use ne_enclave.Manager.Soundness.{IsSound, IsBooting, faulted-IsSound, faulted_booting}

-- What an operation leaves, whatever it returns.
abbrev pub Sound :
    {A : Type 0} → LifecycleClaims → Result SupervisorErrorKind A × WorkspaceManager → Type 0
Sound claims x = IsSound claims x.1

abbrev pub Keeps : {A : Type 0} → LifecycleClaims → Manages A → Type 0
Keeps claims body = (m : WorkspaceManager) → IsSound claims m → Sound claims (body m)

-- An operation that keeps the boot of `id` going, whatever it returns.
abbrev pub Booting :
    {A : Type 0}
    → LifecycleClaims
    → String
    → Guard
    → WorkspaceCapacityState
    → Result SupervisorErrorKind A × WorkspaceManager
    → Type 0
Booting claims id guard state x = IsBooting claims id guard state x.1

pub either_state :
    (P : WorkspaceManager → Type 0) (b : Bool) (m n : WorkspaceManager)
    → P m
    → P n
    → P (if b then m else n)
either_state P true m n p q = p
either_state P false m n p q = q

module _ (claims : LifecycleClaims) where
  -- What the agreement does not look at.
  module _ {m : WorkspaceManager} (slots : Slots) (ingress : IngressRegistry)
      (nonces : Map String (NonceRing Text)) (events : List AuditEntry) where
    pub others-IsSound :
        IsSound claims m
        → IsSound claims (record m {
          slots = slots;
          ingress = ingress;
          attestation_nonces = nonces;
          events = events;
        })
    others-IsSound v = record {
      claims_kept = v.claims_kept;
      inv = v.inv;
      unique = v.unique;
      guarded = v.guarded;
      agree = v.agree;
    }

    pub others-IsBooting :
        {id : String} {guard : Guard} {state : WorkspaceCapacityState}
        → IsBooting claims id guard state m
        → IsBooting claims id guard state (record m {
          slots = slots;
          ingress = ingress;
          attestation_nonces = nonces;
          events = events;
        })
    others-IsBooting v = record {
      claims_kept = v.claims_kept;
      inv = v.inv;
      unique = v.unique;
      guarded = v.guarded;
      no_instance = v.no_instance;
      owns = v.owns;
      entry = v.entry;
      agree = v.agree;
    }

  pub audit_emit-Keeps :
      (event : EventType) (id : Option String) → Keeps claims (audit_emit event id)
  audit_emit-Keeps event id m v = others-IsSound _ _ _ _ v

  pub fail_closed-Keeps : Keeps claims fail_closed
  fail_closed-Keeps m v = faulted-IsSound claims v

  pub teardown_network-Keeps : (slot : Option ℕ) → Keeps claims (teardown_network slot)
  teardown_network-Keeps none m v = v
  teardown_network-Keeps (some slot) m v =
      either_state (IsSound claims) m.networking _ _ (others-IsSound _ _ _ _ v) v

  pub bind-Keeps :
      {A B : Type 0} (body : Manages A) (next : A → Manages B)
      → Keeps claims body
      → ((a : A) → Keeps claims (next a))
      → Keeps claims (body >>= next)
  bind-Keeps body next first second m v =
      bind_rule (Sound claims) (Sound claims) next second (λ e t u. u) body m (first m v)

  -- The boot of a workspace.
  module _ {id : String} {guard : Guard} {state : WorkspaceCapacityState} where
    pub faulted-IsBooting :
        {m : WorkspaceManager}
        → IsBooting claims id guard state m
        → IsBooting claims id guard state (record m { capacity = fault_ledger m.capacity })
    unfolding fault_ledger
    faulted-IsBooting {m} v = record {
      claims_kept = v.claims_kept;
      inv = fault-Inv m.capacity v.inv;
      unique = v.unique;
      guarded = v.guarded;
      no_instance = v.no_instance;
      owns = v.owns;
      entry = λ h. absurd cc;
      agree = λ h. cc;
    }

    pub guard_dropped :
        {m : WorkspaceManager}
        → IsBooting claims id guard state m
        → IsSound claims (record m { capacity = release_entry guard m.capacity })
    guard_dropped {m} v =
        let u = subst (λ g. IsBooting claims id g state m) v.owns v in
        subst (λ g. IsSound claims (record m { capacity = release_entry g m.capacity }))
          (sym v.owns) (dropped-IsSound claims m id state u)

    network_gone :
        (slot : Option ℕ) (m : WorkspaceManager)
        → IsBooting claims id guard state m
        → Sound claims ((teardown_network slot >> drop_guard guard) m)
    network_gone none m v = guard_dropped v
    network_gone (some slot) m v =
        either_state (λ t. IsSound claims (record t { capacity = release_entry guard t.capacity }))
          m.networking _ _ (guard_dropped (others-IsBooting _ _ _ _ v)) (guard_dropped v)

    pub pending_gone :
        (exit_confirmed : Bool) (instance : Instance) (m : WorkspaceManager)
        → IsBooting claims id guard state m
        → Sound claims (teardown_pending exit_confirmed instance guard m)
    unfolding teardown_pending
    pending_gone true instance m v = network_gone instance.network_slot m v
    pending_gone false instance m v = faulted_booting claims v
