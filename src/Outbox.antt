-- ===== src/Outbox.antt =====
-- backend/enterprise_platform/notification_outbox.py: the notification outbox.
pub mod Status
pub mod Tallies
pub mod Aggregate
pub mod Monotone
pub mod Calls
pub mod Delivery
pub mod Reconcile
pub mod Handling
pub mod Completion
pub mod Driver
pub mod Written
pub mod Settled
mod Tests
