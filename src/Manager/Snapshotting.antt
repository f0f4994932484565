-- ===== src/Manager/Snapshotting.antt =====
-- The parts of a snapshot and the changes of the ports in crates/ne-supervisor/src/workspace.rs: they
-- leave the registry and the ledger in agreement.
use ne_enclave.Common.{
  ℕ, ◌&&◌, ◌≡◌, refl, sym, subst, Bool, true, false, not, String, string_eq, Option, none, some,
  Result, ok, err, inl, inr, Option-cases, ◌==◌, if◌then◌else◌,
}
use ne_enclave.Map.{lookup}
use ne_enclave.Protocol.Supervisor.{running, snapshotting, workspace_state_eq}
use ne_enclave.Capacity.State.{entry_eq}
use ne_enclave.Lifecycle.Claims.{LifecycleClaims}
use ne_enclave.Pool.State.{Instance}
use ne_enclave.Audit.Event.{EventType, ingress_port_exposed}
use ne_enclave.Ingress.Registry.{IngressRegistry}
use ne_enclave.Common.{bind_rule}
use ne_enclave.Manager.State.{
  WorkspaceManager, FirecrackerWorkspace, SupervisorErrorKind, internal, snapshot_failed,
  restore_failed, workspace_not_networked, workspace_not_found,
}
use ne_enclave.Manager.Soundness.{IsSound, faulted-IsSound}
use ne_enclave.Manager.Keeping.{Sound, Keeps, others-IsSound}
use ne_enclave.Text.{codes}
use ne_enclave.Ingress.Registry.{
  PortRoute, RegistryError, IngressRegistry, expose_port, unexpose_port,
}
use ne_enclave.Manager.Boot.{
  RestoreAnswers, SnapshotDimensions, prepare_snapshot_restore, boot_prepared_snapshot,
  restored_instance, discard,
}
use ne_enclave.Manager.Booting.{prepare-state}
use ne_enclave.Manager.Swapping.{set_workspace_state-IsSound, swap_instance-IsSound}
use ne_enclave.Manager.Snapshot.{
  mark, snapshot_preflight, is_networked, set_workspace_state, Captured, SnapshotFinalize,
  next_state, finalize_snapshot_state, swap_instance, after_swap, live_hot_swap,
}
use ne_enclave.Manager.Ports.{route_changed, expose_port_inner, unexpose_port_inner}

module _ (claims : LifecycleClaims) (id : String) where
  pub mark-Keeps : (live : Bool) → Keeps claims (mark live id)
  unfolding mark
  mark-Keeps live m v = elim (Option-cases (lookup id m.instances)) [
    | inl missing ↦ rw (mark, missing) v
    | inr (w, here) ↦
        rw (mark, here)
          (marked w here (w.instance.lifecycle_state == snapshotting)
            (snapshot_preflight w.instance.rootfs_read_only (is_networked w.instance))
            (live && not (w.instance.lifecycle_state == running)))
  ]
    where
      marked :
          (w : FirecrackerWorkspace)
          → lookup id m.instances ≡ some w
          → (busy fit stopped : Bool)
          → Sound {A = Captured} claims (
              if busy
              then (err snapshot_failed, m)
              else if not fit
              then (err snapshot_failed, m)
              else if stopped
              then (err snapshot_failed, m)
              else set_workspace_state
                  (ok (record {
                    boot_id = w.instance.boot_id;
                    was_running = w.instance.lifecycle_state == running;
                  }))
                  (err internal)
                  id
                  w
                  snapshotting
                  m)
      marked w here true fit stopped = v
      marked w here false false stopped = v
      marked w here false true true = v
      marked w here false true false =
          set_workspace_state-IsSound claims m id w here v _ _ snapshotting

  pub finalize-IsSound :
      (resumes : Bool) (boot_id : String) (action : SnapshotFinalize) (m : WorkspaceManager)
      → IsSound claims m
      → IsSound claims (finalize_snapshot_state resumes id boot_id action m).1
  unfolding finalize_snapshot_state
  finalize-IsSound resumes boot_id action m v = elim (Option-cases (lookup id m.instances)) [
    | inl missing ↦ rw (finalize_snapshot_state, missing) v
    | inr (w, here) ↦
        rw (finalize_snapshot_state, here) (finalized w here (w.instance.boot_id == boot_id))
  ]
    where
      finalized :
          (w : FirecrackerWorkspace)
          → lookup id m.instances ≡ some w
          → (same : Bool)
          → IsSound claims
              (if not same
                then (false, m)
                else set_workspace_state true false id w (next_state resumes action) m).1
      finalized w here false = v
      finalized w here true =
          set_workspace_state-IsSound claims m id w here v true false (next_state resumes action)

  -- The hot swap, whose new instance runs.
  abbrev BootsRunning : Result SupervisorErrorKind Instance × WorkspaceManager → Type 0
  BootsRunning (ok instance, m) = (instance.lifecycle_state ≡ running) × IsSound claims m
  BootsRunning (err kind, m) = IsSound claims m

  discard-Keeps :
      (exit_confirmed : Bool) (kind : SupervisorErrorKind)
      → Keeps {A = Unit {0}} claims (discard exit_confirmed kind)
  unfolding discard
  discard-Keeps true kind m v = v
  discard-Keeps false kind m v = faulted-IsSound claims v

  after_swap-Sound :
      (new_exits old_exits : Bool) (x : Result SupervisorErrorKind (Unit {0}) × WorkspaceManager)
      → Sound claims x
      → Sound claims (after_swap new_exits old_exits x)
  after_swap-Sound new_exits true (ok _, m) v = v
  after_swap-Sound new_exits false (ok _, m) v = faulted-IsSound claims v
  after_swap-Sound new_exits old_exits (err kind, m) v = discard-Keeps new_exits kind m v

  swap-Keeps :
      (boot_id : String) (instance : Instance)
      → instance.lifecycle_state ≡ running
      → Keeps claims (swap_instance id boot_id instance)
  unfolding swap_instance
  swap-Keeps boot_id instance runs m v = elim (Option-cases (lookup id m.instances)) [
    | inl missing ↦ rw (swap_instance, missing) v
    | inr (w, here) ↦ swap_instance-IsSound claims m id w here v instance runs boot_id
  ]

  pub hot_swap-Keeps :
      (answers : RestoreAnswers) (old_exits : Bool) (boot_id snapshot_id provisional_id : String)
      → Keeps claims (live_hot_swap answers old_exits id boot_id snapshot_id provisional_id)
  unfolding live_hot_swap
  hot_swap-Keeps answers old_exits boot_id snapshot_id provisional_id m v =
      bind_rule (Sound claims) (Sound claims) _
        (λ manifest t u.
          bind_rule (Sound claims) BootsRunning _
            (λ instance s w. ready instance s w.0 w.1 answers.guest_ready) (λ e s w. w)
            (boot_prepared_snapshot answers provisional_id manifest) t
            (booted manifest t u answers.restore))
        (λ e t u. u) (prepare_snapshot_restore answers.verified snapshot_id provisional_id) m
        (subst (IsSound claims)
          (sym (prepare-state claims provisional_id answers.verified snapshot_id m)) v)
    where
      booted :
          (manifest : SnapshotDimensions) (t : WorkspaceManager)
          → IsSound claims t
          → (x : Result SupervisorErrorKind String)
          → BootsRunning (elim x [
            | err kind ↦ (err kind, t)
            | ok new_boot_id ↦ (ok (restored_instance provisional_id manifest new_boot_id), t)
          ])
      booted manifest t u (ok new_boot_id) = (refl, u)
      booted manifest t u (err kind) = u

      ready :
          (instance : Instance) (s : WorkspaceManager)
          → instance.lifecycle_state ≡ running
          → IsSound claims s
          → (guest_ready : Bool)
          → Sound {A = Unit {0}} claims (
              (if not guest_ready then discard answers.exit_confirmed restore_failed else λ m.
              after_swap answers.exit_confirmed old_exits (swap_instance id boot_id instance m))
                s)
      ready instance s runs w false = discard-Keeps answers.exit_confirmed restore_failed s w
      ready instance s runs w true =
          after_swap-Sound answers.exit_confirmed old_exits _ (swap-Keeps boot_id instance runs s w)

  -- The ports.
  route_changed-Sound :
      (event : EventType) (kind : RegistryError → SupervisorErrorKind) (m : WorkspaceManager)
      (x : Result RegistryError (Unit {0}) × IngressRegistry)
      → IsSound claims m
      → Sound claims (route_changed event id kind m x)
  route_changed-Sound event kind m (ok _, ingress) v = others-IsSound claims _ _ _ _ v
  route_changed-Sound event kind m (err e, ingress) v = others-IsSound claims _ _ _ _ v

  pub unexpose-Keeps : (port : ℕ) → Keeps claims (unexpose_port_inner id port)
  unfolding unexpose_port_inner
  unexpose-Keeps port m v = route_changed-Sound _ _ m (unexpose_port (codes id) port m.ingress) v

  pub expose-Keeps : (route : PortRoute) → Keeps claims (expose_port_inner id route)
  unfolding expose_port_inner
  expose-Keeps route m v = found (lookup id m.instances)
    where
      with_slot :
          (slot : Option ℕ)
          → Sound {A = Unit {0}} claims (elim slot [
            | none ↦ (err workspace_not_networked, m)
            | some slot ↦
                route_changed ingress_port_exposed id
                  (λ _. workspace_not_found)
                  m
                  (expose_port (codes id) route m.ingress)
          ])
      with_slot none = v
      with_slot (some slot) = route_changed-Sound _ _ m (expose_port (codes id) route m.ingress) v

      found :
          (o : Option FirecrackerWorkspace)
          → Sound {A = Unit {0}} claims (elim o [
            | none ↦ (err workspace_not_found, m)
            | some w ↦ elim w.instance.network_slot [
              | none ↦ (err workspace_not_networked, m)
              | some slot ↦
                  route_changed ingress_port_exposed id
                    (λ _. workspace_not_found)
                    m
                    (expose_port (codes id) route m.ingress)
            ]
          ])
      found none = v
      found (some w) = with_slot w.instance.network_slot
