-- ===== src/Registry.antt =====
-- src/registry.rs and src/remote.rs: the durable tables of the Node. The rows are in
-- Registry/Tables, what the operations exchange with their callers in Registry/Requests, and the
-- operations in the modules named after them.
pub mod Tables
pub mod Requests
pub mod Fingerprint
pub mod Shapes
pub mod Idempotency
pub mod History
pub mod Reachable
pub mod Steps
pub mod Preserve
pub mod Invariant
pub mod Runs
pub mod Updates
pub mod Journal
pub mod Approvals
