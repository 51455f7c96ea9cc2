-- ===== src/Manifest/Scheduler.antt =====
-- backend/enterprise_platform/easyauth/manifest_scheduler.py: runs of the synchronisation, one at a time.
pub mod Flags
pub mod Threads
pub mod Count
pub mod SingleFlight
pub mod Carried
pub mod Requests
pub mod Timer
mod Tests
