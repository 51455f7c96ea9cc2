-- ===== src/RateLimit.antt =====
-- backend/enterprise_platform/rate_limit.py: the sliding-window counter and the admission of logins.
pub mod Counter
pub mod Sweep
pub mod Bounded
pub mod History
pub mod Refinement
pub mod Admission
pub mod Limits
pub mod Memory
mod Tests
