-- ===== src/Manifest.antt =====
-- How the manifest of permissions reaches EasyAuth: backend/enterprise_platform/easyauth.
pub mod Scheduler
pub mod Json
pub mod Recorded
pub mod Exchange
pub mod Sync
pub mod Costs
pub mod Posts
pub mod Versions
pub mod Skips
pub mod Attempts
pub mod Concluded
pub mod Writes
mod Tests
