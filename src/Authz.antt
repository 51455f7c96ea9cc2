-- ===== src/Authz.antt =====
-- backend/enterprise_platform/authz: permissions granted for a data scope, and how fresh they are.
pub mod Scopes
pub mod Subjects
pub mod Snapshot
pub mod Isolation
pub mod Freshness
pub mod Refresher
mod Tests
