-- ===== src/LocalAccounts/Types.antt =====
-- backend/enterprise_platform/local_accounts.py: grants, catalog rows, accounts, requests and the
-- audit. An instant is a number of ticks in UTC, an id is a number. Optional fields are `Option`;
-- "the field was sent" is `some` around the value.
use easy_frame.Prelude.{ℕ, String, Bool, Option, List, ◌==◌, ◌&&◌, string_eq}

pub record LocalGrant : Type 0 where
  pub code : String
  pub scope : String

abbrev pub grant_beq : LocalGrant → LocalGrant → Bool
grant_beq a b = a.code == b.code && a.scope == b.scope

-- An element of the stored JSON list: no dict, or a dict whose "code" and "scope" are texts or not.
pub data StoredGrant : Type 0 where
  not_dict : StoredGrant
  dict : Option String → Option String → StoredGrant

pub record LocalPermissionRecord : Type 0 where
  pub code : String
  pub name_zh : String
  pub name_en : String
  pub domain : String
  pub group_key : Option String
  pub supported_scopes : List String
  pub risk_level : String
  pub active : Bool

-- A row of the accounts table (backend/blank_app/models.py), as far as the administration reads or
-- writes it.
pub record Account : Type 0 where
  pub id : ℕ
  pub external_source : Option String
  pub username : String
  pub email : Option String
  pub password_hash : Option String
  pub active : Bool
  pub is_admin : Bool
  pub local_permissions : List StoredGrant
  pub local_grants_version : ℕ
  pub expires_at : Option ℕ
  pub must_change_password : Bool
  pub ui_locale : String
  pub totp_enabled : Bool
  pub totp_secret : Option String
  pub totp_pending_secret : Option String
  pub sessions_revoked_at : Option ℕ
  pub created_at : ℕ

pub record LocalAccountRecord : Type 0 where
  pub id : ℕ
  pub username : String
  pub email : Option String
  pub active : Bool
  pub is_admin : Bool
  pub local_permissions : List StoredGrant
  pub local_grants_version : ℕ
  pub expires_at : Option ℕ
  pub must_change_password : Bool
  pub ui_locale : String
  pub totp_enabled : Bool
  pub totp_secret : Option String
  pub totp_pending_secret : Option String
  pub created_at : ℕ
  pub passkey_count : ℕ

-- One item of `**values`, the columns that an update writes.
pub data Change : Type 0 where
  set_email : Option String → Change
  set_ui_locale : String → Change
  set_active : Bool → Change
  set_is_admin : Bool → Change
  set_local_permissions : List StoredGrant → Change
  set_local_grants_version : ℕ → Change
  set_expires_at : Option ℕ → Change
  set_password : String → Change
  set_must_change_password : Bool → Change
  set_sessions_revoked_at : ℕ → Change
  set_totp_enabled : Bool → Change
  set_totp_secret : Option String → Change
  set_totp_pending_secret : Option String → Change

pub record CurrentUser : Type 0 where
  pub id : String
  pub account_id : Option String
  pub is_local_superadmin : Bool

pub record CreateLocalAccountRequest : Type 0 where
  pub username : String
  pub email : Option String
  pub password : String
  pub must_change_password : Bool
  pub is_admin : Bool
  pub permissions : List LocalGrant
  pub expires_at : Option ℕ

-- `email` and `expires_at` may be sent as null, which differs from not being sent.
pub record UpdateLocalAccountRequest : Type 0 where
  pub email : Option (Option String)
  pub active : Option Bool
  pub is_admin : Option Bool
  pub ui_locale : Option String
  pub expires_at : Option (Option ℕ)

pub record ResetLocalAccountPasswordRequest : Type 0 where
  pub password : String
  pub must_change_password : Bool

pub record SetLocalAccountPermissionsRequest : Type 0 where
  pub permissions : List LocalGrant
  pub expected_version : ℕ

-- `_account_state`
pub record AccountState : Type 0 where
  pub target_account_id : ℕ
  pub username : String
  pub email : Option String
  pub active : Bool
  pub is_admin : Bool
  pub ui_locale : String
  pub expires_at : Option ℕ
  pub permissions : List LocalGrant
  pub must_change_password : Bool
  pub totp_enabled : Bool

-- The `before` of an audit entry: nothing, the target alone, the target's grants or TOTP flag, or
-- the account's state.
pub data Before : Type 0 where
  no_before : Before
  target : ℕ → Before
  target_permissions : ℕ → List LocalGrant → Before
  target_totp : ℕ → Bool → Before
  account_state : AccountState → Before

pub record After : Type 0 where
  pub target_account_id : ℕ
  pub permissions : Option (List LocalGrant)
  pub changed_keys : List String

pub record AuditEntry : Type 0 where
  pub actor_id : String
  pub action : String
  pub before : Before
  pub after : After

pub record LocalAccountDetail : Type 0 where
  pub id : ℕ
  pub username : String
  pub email : Option String
  pub active : Bool
  pub is_admin : Bool
  pub totp_enabled : Bool
  pub passkey_count : ℕ
  pub must_change_password : Bool
  pub permission_count : ℕ
  pub expires_at : Option ℕ
  pub expired : Bool
  pub created_at : ℕ
  pub ui_locale : String
  pub permissions : List LocalGrant
  pub baseline_permissions : List String
  pub local_grants_version : ℕ
