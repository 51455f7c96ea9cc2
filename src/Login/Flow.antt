-- ===== src/Login/Flow.antt =====
-- backend/enterprise_platform/login_flow.py and auth.py: the three login requests.
pub mod Guard
pub mod Password
pub mod Passkey
unfoldable pub use Guard.*
unfoldable pub use Password.*
unfoldable pub use Passkey.*
