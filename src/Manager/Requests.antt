-- ===== src/Manager/Requests.antt =====
-- crates/ne-supervisor/src/workspace.rs and crates/ne-supervisor/src/image.rs: the request to create a
-- workspace and the checks of it that need no state.
use ne_enclave.Common.{
  ℕ, Bool, not, ◌&&◌, ◌||◌, String, Option, none, some, List, [], all, length, leb, ltb, nat_eq,
  if◌then◌else◌, ◌==◌,
}
use ne_enclave.Text.{Text, is_ascii_digit, is_ascii_alphanumeric, is_empty}
use ne_enclave.Protocol.Profile.{ExecutionProfile, confidential_azure, profile_eq}
use ne_enclave.Network.Policy.{NetworkPolicy}
use ne_enclave.Ingress.Registry.{PortRoute}
use ne_enclave.Manager.State.{
  SupervisorErrorKind, invalid_request, invalid_image_digest, image_not_found, image_rejected,
  image_digest_mismatch, image_stage_failed,
}

-- The derived routes stand for the exposed ports, whose fields they copy.
pub record NetworkConfig : Type 0 where
  pub policy : NetworkPolicy
  pub exposed_ports : List PortRoute

pub record CreateWorkspaceRequest : Type 0 where
  pub workspace_id : String
  pub kernel_sha256 : Text
  pub rootfs_sha256 : Text
  pub rootfs_read_only : Bool
  pub vcpu_count : ℕ
  pub mem_size_mib : ℕ
  pub network : Option NetworkConfig
  pub tier : Option String

-- `exposed_ports_from_request`.
abbrev pub exposed_ports_from_request : Option NetworkConfig → List PortRoute
exposed_ports_from_request none = []
exposed_ports_from_request (some network) = network.exposed_ports

-- `ImageError`.
pub data ImageError : Type 0 where
  invalid_digest not_found rejected digest_mismatch stage : ImageError

-- `image_error_response`.
abbrev pub image_error_kind : ImageError → SupervisorErrorKind
image_error_kind invalid_digest = invalid_image_digest
image_error_kind not_found = image_not_found
image_error_kind rejected = image_rejected
image_error_kind digest_mismatch = image_digest_mismatch
image_error_kind stage = image_stage_failed

-- `ImageDigest::parse` succeeds. A text with other characters than ASCII is refused by their test,
-- whatever its length in bytes.
unfoldable pub is_image_digest : Text → Bool
is_image_digest raw =
    nat_eq (length raw) 64 && all (λ c. is_ascii_digit c || (leb b'a' c && leb c b'f')) raw

-- `is_valid_workspace_id`.
unfoldable pub is_valid_workspace_id : Text → Bool
is_valid_workspace_id id =
    not (is_empty id)
    && leb (length id) 64
    && all (λ b. is_ascii_alphanumeric b || nat_eq b b'-') id

-- The checks of `create_inner` before it claims the id: the kind of the first that fails.
abbrev pub both_empty : CreateWorkspaceRequest → Bool
both_empty req = is_empty req.kernel_sha256 && is_empty req.rootfs_sha256

abbrev pub both_present : CreateWorkspaceRequest → Bool
both_present req = not (is_empty req.kernel_sha256) && not (is_empty req.rootfs_sha256)

abbrev pub is_confidential : ExecutionProfile → Bool
is_confidential profile = profile == confidential_azure

unfoldable pub check_request :
    ExecutionProfile → ℕ → CreateWorkspaceRequest → Option SupervisorErrorKind
unfolding is_image_digest
check_request profile max_mem req =
    if not (is_confidential profile) && ltb max_mem req.mem_size_mib
    then some invalid_request
    else if not (is_confidential profile) && not (both_empty req) && not (both_present req)
    then some invalid_image_digest
    else if not (is_confidential profile)
        && both_present req
        && (not (is_image_digest req.kernel_sha256) || not (is_image_digest req.rootfs_sha256))
    then some invalid_image_digest
    else none
