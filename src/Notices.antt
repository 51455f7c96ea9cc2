-- ===== src/Notices.antt =====
-- backend/enterprise_platform/notification_settings.py: who is notified of what, on which channel.
pub mod Catalog
pub mod Views
pub mod Store
pub mod Switching
pub mod Changes
mod Tests
