-- ===== src/Dns.antt =====
-- crates/ne-dns-filter/src/lib.rs: the DNS forwarder that filters queries against an allowlist of
-- host names.
pub mod Allowlist
pub mod Wire
pub mod Filter
pub mod Policy
pub mod Header
pub mod Query
pub mod Examples
