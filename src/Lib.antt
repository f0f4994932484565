-- ===== src/Lib.antt =====
-- A model of the NeuronEdge Enclave runtime: the supervisor that admits and accounts for workspaces,
-- starts and ends them, gives them addresses and keeps a signed log of what happened, the DNS filter that bounds what a
-- workspace may resolve, the ingress edge that bounds what may reach a workspace from outside, the
-- protocol between a runner and its fleet, and the agent in the guest that handles files.
--
-- The parts, and where they stand:
-- * Capacity models crates/ne-supervisor/src/capacity.rs. State has the ledger, its lock and the
--   checks that every change starts with; Admission has one function per operation, as it runs under
--   the lock (reserve_workspace, reserve_pool_batch, register_in_place, set_state, ready_in_place,
--   adopt_in_place, release_entry), with the writes that come before an error kept; Inventory has
--   `snapshot`. Edits is the specification: the edits that the supervisor may make, with their
--   conditions. Refinement and Batch compare the operations with it, Stepping says
--   what each operation may change and why it is refused, and Steps compares. Invariant has the
--   well-formedness of a ledger, History takes any sequence of operations, as the tasks of a
--   supervisor interleave them, and Reports and Totals relate the snapshot to sums over the entries.
--   Adoption is about operations that succeed. Guards has the four guards that own an
--   entry, with their Drop and fail_closed; Ownership runs them in any interleaving against the
--   entries, and Dropping is the proof rule for a guard that drops.
-- * Pool models crates/ne-supervisor/src/pool.rs, the warm pool over the ledger: State has the pool,
--   its permits and each of its operations, Refill says what a refill starts, and Interleaving runs
--   the tasks around the pool in any order; Permits, Bounds and Histories follow what is in flight.
-- * Lifecycle models the bookkeeping at the top of crates/ne-supervisor/src/workspace.rs: Tasks is
--   LifecycleTasks, Claims is LifecycleClaims and Nonces is NonceRing; Draining, Exclusion and Replay
--   have their theorems.
-- * Manager models the WorkspaceManager of crates/ne-supervisor/src/workspace.rs, in the build without
--   the feature confidential-cvm. State has its state and the steps that the operations share
--   (claim_boot, reserve_workspace_capacity, PendingFirecracker, register_pending_firecracker),
--   Requests the checks of a request, Boot the restore and the fork, Checkout create_from_pool, Create
--   create_inner, Terminate terminate_inner, Snapshot the parts of a snapshot and the hot swap,
--   SnapshotInner snapshot_inner as a whole, and Ports the exposed ports. Soundness says how the
--   registry and the ledger agree, and what holds while an operation boots a workspace; Steps, Dropped,
--   Adoption, Changes, Swapping, Keeping and Registration follow each step, Booting, Restoring, PoolHits,
--   Creating, Ending, Snapshotting and Snapshots each operation, Histories sequences of calls, Bounds
--   the number of workspaces, and Removal a termination. Registry, Registering, ColdBoot and
--   Creation are about what the creations do to the registry.
-- * Protocol models what the ledger exchanges with the fleet's control plane: Profile is
--   crates/ne-protocol/src/profile.rs, Supervisor the workspace states of
--   crates/ne-protocol/src/supervisor.rs, and the others are crates/ne-protocol/src/fleet.rs: Fleet
--   its inventory, in whose validation the ledger's snapshot ends, Contracts the grammars, Poll the
--   request and Replies the answers. Poll.Distinct, Poll.Attempts and Poll.Validity, and Acceptance,
--   say which messages pass.
-- * Audit models the signed log of events. Event and Verify are crates/ne-protocol/src/audit.rs: the
--   signed bytes of an event and verify_chain, its loop's body split into the signature and the link.
--   Log is crates/ne-supervisor/src/audit.rs: emit, list and recover_chain_head over the bytes of the
--   file, in lines as read_line gives them; Lines is about those. Chain says what a chain is, independently of the loop, and Acceptance compares; Pinning is
--   about two exports with one root; Appending, Emission, Recovery and Listing are about the log.
-- * Dns models crates/ne-dns-filter/src/lib.rs: Allowlist, Wire (parse_query and the replies) and
--   Filter (handle_one); Policy, Query and Header have the theorems.
-- * Ingress models the crate crates/ne-ingress: Host is crates/ne-ingress/src/host.rs, Registry
--   crates/ne-ingress/src/registry.rs and Router the decision of crates/ne-ingress/src/router.rs;
--   Parsing, Table, Entries, Routing, Denial and Routes have the theorems. The router parses a host, asks the
--   registry and guards the address that it finds.
-- * Network models the slot allocator of crates/ne-supervisor/src/network.rs: Slots has it, and
--   Allocation says which slot it takes. Policy has the checks of a network policy, and what setup and
--   teardown do to the slots.
-- * Guest models the path check of crates/ne-guest-agent/src/files.rs: Paths has it, and Confinement
--   compares an accepted path with a walk by names. Symbolic links, which jailed_absolute checks on
--   the file system, are not part of that walk.
-- * Map is the standard library's maps, as association lists with one entry to a key, and Text its
--   operations on `str`, over lists of code points. Common has the shared names.
-- * An Examples module in each part has the theorems at concrete inputs.
--
-- Numbers are natural numbers, and each checked operation compares with the bound of the source's
-- type: 2 ^ 16 for a port, 2 ^ 32 for a count, 2 ^ 64 for a revision, a pool id, CPU and memory. A
-- `usize` has 64 bits. A panic under the ledger's lock leaves it poisoned, which `locked` answers by
-- its error. The loop of `parse_query` runs on fuel, one round more than the message has bytes, and
-- says so if that runs out; Dns.Query has the theorem on it. The search for a
-- slot runs over the 253 slots. Every other loop is a recursion on its list. The length of a text that
-- is compared with a bound in bytes is counted in code points; where the two differ, the text is
-- refused by the test of its characters.
--
-- Not modelled: sockets, files, subprocesses and logging, and the code that only wires them. The
-- upstream resolver is a parameter, a function that answers a query or fails, and so is Unicode (lower
-- case, and UTF-8 decoding). The audit code's use of serde_json, sha2, base64 and ed25519_dalek, and
-- its file, are the records Externals and LogExternals; what the theorems need of them stands in
-- Honest, KeepsScalars and NoClash, and Audit.Instance has a small instance of all of them. The texts
-- of error messages are dropped. A guard is the id of the entry that it owns, or none.
-- What the host answers to the manager (images, snapshots, the launch, the guest, the exit of a process,
-- the commands of the network) is an argument of its operations, any answer at all, and the locks of
-- the registry, the ledger and the nonces are not poisoned there. The manager's calls follow one
-- another, except in snapshot_inner, which takes what other tasks do while the registry is unlocked as
-- two functions. The payloads of audit events, the paths, the process ids and the jailer's data are
-- dropped. Commands and files in a workspace, the attestation evidence, the refill task and the
-- confidential tier of the manager are not modelled.
mod Common
pub mod Map
pub mod Protocol
pub mod Capacity
pub mod Audit
pub mod Text
pub mod Dns
pub mod Ingress
pub mod Lifecycle
pub mod Pool
pub mod Network
pub mod Manager
pub mod Guest
