-- ===== src/Protocol/Profile.antt =====
-- crates/ne-protocol/src/profile.rs: execution profiles and the operations that each supports.
use ne_enclave.Common.{
  ℕ, zero, suc, Bool, true, false, ◌≡◌, refl, ap, sym, ◌∙◌, ◌↔◌, String, Option, none, some, List,
  [], ◌∷◌, arith, Result, ok, err, Eq, ◌==◌, nat_eq, nat_eq_iff, string_eq, if◌then◌else◌, filter,
}

pub data ExecutionProfile : Type 0 where
  standard confidential_azure : ExecutionProfile

abbrev pub same_profile : ExecutionProfile → ExecutionProfile → Bool
same_profile standard standard = true
same_profile confidential_azure confidential_azure = true
same_profile _ _ = false

pub same_profile_iff : (a b : ExecutionProfile) → (same_profile a b ≡ true) ↔ (a ≡ b)
same_profile_iff a b = ground arith

instance abbrev pub profile_eq : Eq ExecutionProfile
profile_eq = record { beq = same_profile; beq_iff = same_profile_iff }

-- `Display`.
unfoldable pub to_string : ExecutionProfile → String
to_string standard = "standard"
to_string confidential_azure = "confidential-azure"

-- `FromStr`. The error keeps the refused text and drops the fixed words around it.
unfoldable pub from_str : String → Result String ExecutionProfile
from_str value =
    if value == "standard"
    then ok standard
    else if value == "confidential-azure"
    then ok confidential_azure
    else err value

pub data ExecutionBackend : Type 0 where
  firecracker open_shell : ExecutionBackend

pub data AttestationBackend : Type 0 where
  software sev_snp_direct sev_snp_azure : AttestationBackend

pub data WorkspaceOperation : Type 0 where
  create destroy execute write_file read_file pause resume snapshot restore : WorkspaceOperation
  fork warm_pool ingress attest : WorkspaceOperation

-- The discriminant, which the derived `PartialEq` compares.
abbrev pub discriminant : WorkspaceOperation → ℕ
discriminant create = 0
discriminant destroy = 1
discriminant execute = 2
discriminant write_file = 3
discriminant read_file = 4
discriminant pause = 5
discriminant resume = 6
discriminant snapshot = 7
discriminant restore = 8
discriminant fork = 9
discriminant warm_pool = 10
discriminant ingress = 11
discriminant attest = 12

-- The operations in the order of their discriminants, as the runtime lists them.
unfoldable pub all_operations : List WorkspaceOperation
all_operations =
    create ∷ destroy ∷ execute ∷ write_file ∷ read_file ∷ pause ∷ resume ∷ snapshot ∷ restore ∷ fork
    ∷ warm_pool ∷ ingress ∷ attest ∷ []

-- `ExecutionProfile::supports`.
unfoldable pub supports : ExecutionProfile → WorkspaceOperation → Bool
supports standard operation = true
supports confidential_azure create = true
supports confidential_azure destroy = true
supports confidential_azure execute = true
supports confidential_azure write_file = true
supports confidential_azure read_file = true
supports confidential_azure attest = true
supports confidential_azure _ = false

unfoldable pub execution_backend : ExecutionProfile → ExecutionBackend
execution_backend standard = firecracker
execution_backend confidential_azure = open_shell

unfoldable pub attestation_backend : ExecutionProfile → AttestationBackend
attestation_backend standard = software
attestation_backend confidential_azure = sev_snp_azure

unfoldable pub hard_workspace_capacity : ExecutionProfile → Option ℕ
hard_workspace_capacity standard = none
hard_workspace_capacity confidential_azure = some 1

pub record RuntimeCapabilitiesInfo : Type 0 where
  pub runtime_version : String
  pub execution_profile : ExecutionProfile
  pub execution_backend : ExecutionBackend
  pub attestation_backend : AttestationBackend
  pub supported_operations : List WorkspaceOperation
  pub hard_workspace_capacity : Option ℕ
  pub confidential_snapshot_supported : Bool
  pub evidence_schema_version : ℕ

unfoldable pub capabilities : ExecutionProfile → String → ℕ → RuntimeCapabilitiesInfo
unfolding all_operations supports execution_backend attestation_backend hard_workspace_capacity
capabilities self runtime_version evidence_schema_version = record {
  runtime_version = runtime_version;
  execution_profile = self;
  execution_backend = execution_backend self;
  attestation_backend = attestation_backend self;
  supported_operations = filter (supports self) all_operations;
  hard_workspace_capacity = hard_workspace_capacity self;
  confidential_snapshot_supported = false;
  evidence_schema_version = evidence_schema_version;
}

operation_at : ℕ → WorkspaceOperation
operation_at zero = create
operation_at (suc zero) = destroy
operation_at (suc (suc zero)) = execute
operation_at (suc (suc (suc zero))) = write_file
operation_at (suc (suc (suc (suc zero)))) = read_file
operation_at (suc (suc (suc (suc (suc zero))))) = pause
operation_at (suc (suc (suc (suc (suc (suc zero)))))) = resume
operation_at (suc (suc (suc (suc (suc (suc (suc zero))))))) = snapshot
operation_at (suc (suc (suc (suc (suc (suc (suc (suc zero)))))))) = restore
operation_at (suc (suc (suc (suc (suc (suc (suc (suc (suc zero))))))))) = fork
operation_at (suc (suc (suc (suc (suc (suc (suc (suc (suc (suc zero)))))))))) = warm_pool
operation_at (suc (suc (suc (suc (suc (suc (suc (suc (suc (suc (suc zero))))))))))) = ingress
operation_at _ = attest

operation_at-discriminant : (o : WorkspaceOperation) → operation_at (discriminant o) ≡ o
unfolding operation_at
operation_at-discriminant create = refl
operation_at-discriminant _ = refl

pub discriminant_iff :
    (a b : WorkspaceOperation) → (nat_eq (discriminant a) (discriminant b) ≡ true) ↔ (a ≡ b)
discriminant_iff a b = (
  λ h.
      sym (operation_at-discriminant a)
      ∙ ap operation_at ((nat_eq_iff (discriminant a) (discriminant b)).0 h)
      ∙ operation_at-discriminant b,
  λ h. (nat_eq_iff (discriminant a) (discriminant b)).1 (ap discriminant h),
)

instance abbrev pub operation_eq : Eq WorkspaceOperation
operation_eq = record {
  beq = λ a b. nat_eq (discriminant a) (discriminant b);
  beq_iff = discriminant_iff;
}
