-- ===== src/DirectorySync.antt =====
-- backend/enterprise_platform/directory_sync.py: the projection of the directory onto the host's users.
pub mod Port
pub mod Sync
pub mod References
pub mod Loop
pub mod Answers
pub mod Ends
pub mod Projection
pub mod Runs
mod Tests
