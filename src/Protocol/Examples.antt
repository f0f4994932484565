-- ===== src/Protocol/Examples.antt =====
-- A poll request of crates/ne-protocol/src/fleet.rs and two answers, and the theorems at them.
use ne_enclave.Common.{◌≡◌, ◌↔◌, none, some, [], ◌∷◌, ok, true, List, ℕ, zero, suc}
use ne_enclave.Text.{codes}
use ne_enclave.Protocol.Profile.{standard, all_operations}
use ne_enclave.Protocol.Fleet.{RunnerCapacity}
use ne_enclave.Protocol.Poll.{FleetPollRequest, validate_request}
use ne_enclave.Protocol.Poll.Validity.{IsRequest, validate_request_iff}
use ne_enclave.Protocol.Replies.{
  FleetPollResponse, fresh, validate_response, FleetErrorResponse, sequence_gap, validate_error,
}
use ne_enclave.Protocol.Acceptance.{IsResponse, Guidance, validate_response_iff, validate_error_iff}

abbrev idle : RunnerCapacity
idle = record {
  revision = 3;
  configured_workspace_ceiling = 8;
  registered_workspaces = 1;
  resident_workspaces = 2;
  runnable_workspaces = 1;
  allocated_cpu_millicores = 3_000;
  allocated_memory_bytes = 4_096;
  warm_pool_reserved_slots = 1;
  profiles = standard ∷ [];
  operations = all_operations;
}

abbrev poll : FleetPollRequest
poll = record {
  protocol = record { min_version = 1; max_version = 1 };
  process_instance_id = 17;
  session = some (record { session_id = 18; generation = 2 });
  request_id = 19;
  sequence = 4;
  capacity = idle;
  supported_contracts = record { id = codes "job.v1"; version = codes "1" } ∷ [];
  renewals =
      record { job_id = codes "j1"; lease_id = 5; attempt_generation = 1 }
      ∷ record { job_id = codes "j2"; lease_id = 6; attempt_generation = 1 }
      ∷ [];
  releases = record { job_id = codes "j1"; lease_id = 5; attempt_generation = 2 } ∷ [];
  terminal_reports = [];
}

validate_request_iff_example : (validate_request poll ≡ ok tt) ↔ IsRequest poll
validate_request_iff_example = validate_request_iff poll

abbrev zeros : ℕ → List ℕ
zeros zero = []
zeros (suc n) = 0 ∷ zeros n

abbrev answer : FleetPollResponse
answer = record {
  protocol_version = 1;
  session = record { session_id = 18; generation = 2 };
  request_id = 19;
  accepted_sequence = 4;
  server_time_unix_ms = (true, 1_000);
  poll_after_ms = 5_000;
  replay_status = fresh;
  leases =
      record {
        job_id = codes "j3";
        lease_id = 7;
        attempt_generation = 1;
        lease_expires_at_unix_ms = (true, 61_000);
        contract = record { id = codes "job.v1"; version = codes "1" };
        payload_digest = zeros 32;
      }
      ∷ [];
}

validate_response_iff_example : (validate_response answer ≡ ok tt) ↔ IsResponse answer
validate_response_iff_example = validate_response_iff answer

abbrev gap : FleetErrorResponse
gap = record {
  code = sequence_gap;
  expected_sequence = some 5;
  retry_after_ms = some 250;
  supported_protocol = none;
}

validate_error_iff_example : (validate_error gap ≡ ok tt) ↔ Guidance sequence_gap gap
validate_error_iff_example = validate_error_iff gap
