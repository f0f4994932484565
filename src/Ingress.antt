-- ===== src/Ingress.antt =====
-- crates/ne-ingress: the edge that routes `{port}-{wsid}.{domain}` to the guest of a workspace.
pub mod Host
pub mod Registry
pub mod Router
pub mod Parsing
pub mod Table
pub mod Entries
pub mod Routing
pub mod Denial
pub mod Routes
pub mod Examples
