-- ===== src/LocalAccounts.antt =====
-- backend/enterprise_platform/local_accounts.py: the administration of local accounts, over the
-- unit of work of backend/blank_app/adapter_account.py.
pub mod Types
pub mod Grants
pub mod Store
pub mod Service
pub mod Update
pub mod Hoare
pub mod Requests
pub mod Admins
pub mod Edits
pub mod Preservation
pub mod Survival
pub mod SelfProtection
pub mod GrantRoundTrip
mod Tests
