-- ===== src/Auth.antt =====
-- backend/enterprise_platform/auth.py: `AuthError`, and the password and second-factor login.
pub mod Errors
pub mod Secrets
