-- ===== src/Login.antt =====
-- backend/enterprise_platform/login_flow.py and auth.py: logins over the shared limits.
pub mod World
pub mod Flow
pub mod Views
pub mod Sessions
pub mod Totp
pub mod Passkey
pub mod Locked
mod Tests
