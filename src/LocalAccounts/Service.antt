-- ===== src/LocalAccounts/Service.antt =====
-- backend/enterprise_platform/local_accounts.py, `_LocalAccountService`: every operation but the
-- update, which is in Update.antt. Each is one transaction; its time `now` is handed in.
use easy_frame.Prelude.{
  ℕ, ◌+◌, String, Bool, true, false, not, ◌&&◌, ◌||◌, Option, none, some, List, [], ◌∷◌, ◌==◌,
  string_eq, nat_eq, length, any, ltb, if◌then◌else◌,
}
use easy_frame.Prelude.Text.{TextOps}
use easy_frame.Prelude.Result.{ok, err}
use easy_frame.Auth.Errors.{AuthError, auth_error}
use easy_frame.Auth.Secrets.{is_unsafe_bootstrap_secret}
use easy_frame.LocalAccounts.Types.{
  LocalGrant, Account, LocalAccountRecord, LocalAccountDetail, CurrentUser,
  CreateLocalAccountRequest, ResetLocalAccountPasswordRequest, SetLocalAccountPermissionsRequest,
  AuditEntry, Before, no_before, target, target_permissions, target_totp, account_state,
  set_password, set_must_change_password, set_sessions_revoked_at, set_totp_enabled,
  set_totp_secret, set_totp_pending_secret, set_local_permissions, set_local_grants_version,
}
use easy_frame.LocalAccounts.Grants.{
  Catalog, catalog_map, normalize_stored_grants, validate_grants, grant_dicts, difference,
  grants_differ, sort_grants, high_codes, touches_high, is_privileged, account_state_of,
}
use easy_frame.LocalAccounts.Store.{
  Tx, ◌>>=◌, ◌>>◌, pure, guard, lift, not_found, get_account, usable_local_admin_count,
  append_audit, update_account, create_account, delete_account,
}

-- What the service takes from the libraries below it: text operations, the password hash, and the
-- reading of a UUID, which fails on a text that is none.
pub record Runtime : Type 0 where
  pub text : TextOps
  pub hash : String → String
  pub parse_uuid : String → Option ℕ

-- `user.account_id or user.id`
unfoldable pub actor_id_of : CurrentUser → String
actor_id_of user = elim user.account_id [
  | none ↦ user.id
  | some account_id ↦ if account_id == "" then user.id else account_id
]

-- `_is_self`
unfoldable pub is_self : Runtime → ℕ → String → Bool
is_self runtime account_id actor_id = elim (runtime.parse_uuid actor_id) [
  | none ↦ false
  | some id ↦ account_id == id
]

-- `_expired`
abbrev pub expired : Option ℕ → ℕ → Bool
expired none now = false
expired (some at) now = not (ltb now at)

abbrev pub is_set {ℓ} : {A : Type ℓ} → Option A → Bool
is_set none = false
is_set (some _) = true

-- the truth of an optional text: there, and not empty
abbrev pub has_text : Option String → Bool
has_text none = false
has_text (some value) = not (value == "")

-- `value or None` after `strip`
unfoldable pub normalized_email : TextOps → Option String → Option String
normalized_email text none = none
normalized_email text (some value) =
    let normalized = text.strip value in if normalized == "" then none else some normalized

unfoldable pub require_local : ℕ → Tx LocalAccountRecord
unfolding get_account
require_local account_id db = elim (get_account account_id db) [
  | none ↦ err not_found
  | some account ↦ ok (account, db)
]

-- `_catalog`
unfoldable pub catalog_of : Tx Catalog
catalog_of db = ok (catalog_map db.catalog, db)

abbrev pub privileged_target : AuthError
privileged_target = auth_error 403 "无权修改特权账户"

-- `_guard_privileged_target`
abbrev pub guard_privileged_target : CurrentUser → Bool → Tx Unit
guard_privileged_target user privileged =
    guard (privileged && not user.is_local_superadmin) privileged_target

abbrev pub no_admin_left : AuthError
no_admin_left = auth_error 422 "必须保留至少一个可用的本地管理员"

-- `_ensure_admin_remains`
unfoldable pub ensure_admin_remains : ℕ → Tx Unit
unfolding guard
ensure_admin_remains now db = guard (ltb (usable_local_admin_count now db) 1) no_admin_left db

-- `_summary` and `_detail`
unfoldable pub detail : LocalAccountRecord → Catalog → ℕ → LocalAccountDetail
detail account catalog now =
    let grants = normalize_stored_grants account.local_permissions catalog in
    record {
      id = account.id;
      username = account.username;
      email = account.email;
      active = account.active;
      is_admin = account.is_admin;
      totp_enabled = account.totp_enabled;
      passkey_count = account.passkey_count;
      must_change_password = account.must_change_password;
      permission_count = length grants;
      expires_at = account.expires_at;
      expired = expired account.expires_at now;
      created_at = account.created_at;
      ui_locale = account.ui_locale;
      permissions = grants;
      baseline_permissions =
          "auth.passkey.create" ∷ "auth.passkey.view" ∷ "auth.totp.advance" ∷ "auth.totp.create"
          ∷ "notification.center.view" ∷ [];
      local_grants_version = account.local_grants_version;
    }

abbrev pub audit : String → String → Before → ℕ → List String → AuditEntry
audit actor_id action before account_id changed_keys = record {
  actor_id = actor_id;
  action = action;
  before = before;
  after = record {
    target_account_id = account_id;
    permissions = none;
    changed_keys = changed_keys;
  };
}

unfoldable pub get : ℕ → ℕ → Tx LocalAccountDetail
get now account_id = do
  account ← require_local account_id
  catalog ← catalog_of
  pure (detail account catalog now)

abbrev pub high_risk_denied : AuthError
high_risk_denied = auth_error 422 "委派管理员不能变更高风险权限"

module _ (runtime : Runtime) (now : ℕ) (user : CurrentUser) where
  -- the tests of `create` before its transaction
  unfoldable pub check_create : CreateLocalAccountRequest → Tx Unit
  check_create payload = do
    guard (runtime.text.strip payload.username == "") (auth_error 422 "用户名不能为空")
    guard (payload.is_admin && any (λ _. true) payload.permissions) (auth_error 422 "管理员账户不能携带本地权限")
    guard (payload.is_admin && not user.is_local_superadmin) (auth_error 422 "委派管理员不能创建管理员账户")
    guard (expired payload.expires_at now) (auth_error 422 "有效期必须晚于当前时间")
    guard (payload.is_admin && is_set payload.expires_at) (auth_error 422 "管理员账户不能设置有效期")

  -- the row that `create` writes, under the id that the database draws
  unfoldable pub new_account : ℕ → CreateLocalAccountRequest → List LocalGrant → Account
  new_account new_id payload grants = record {
    id = new_id;
    external_source = none;
    username = runtime.text.strip payload.username;
    email = normalized_email runtime.text payload.email;
    password_hash = some (runtime.hash payload.password);
    active = true;
    is_admin = payload.is_admin;
    local_permissions = if payload.is_admin then [] else grant_dicts grants;
    local_grants_version = 0;
    expires_at = payload.expires_at;
    must_change_password = payload.must_change_password;
    ui_locale = "zh-CN";
    totp_enabled = false;
    totp_secret = none;
    totp_pending_secret = none;
    sessions_revoked_at = none;
    created_at = now;
  }

  unfoldable pub create : ℕ → CreateLocalAccountRequest → Tx LocalAccountDetail
  unfolding check_create new_account
  create new_id payload = do
    check_create payload
    catalog ← catalog_of
    grants ← lift (validate_grants payload.permissions catalog)
    guard (not user.is_local_superadmin && touches_high [] grants (high_codes catalog))
        high_risk_denied
    account ← create_account (new_account new_id payload grants)
    append_audit (
        audit (actor_id_of user) "accounts.local.create" no_before account.id (
          "username" ∷ "email" ∷ "password" ∷ "mustChangePassword" ∷ "isAdmin" ∷ "permissions"
          ∷ "expiresAt" ∷ []))
    ensure_admin_remains now
    pure (detail account catalog now)

  unfoldable pub delete : ℕ → Tx Unit
  delete account_id = do
    account ← require_local account_id
    catalog ← catalog_of
    let grants = normalize_stored_grants account.local_permissions catalog
    guard (is_self runtime account.id (actor_id_of user)) (auth_error 403 "不能删除自己的账户")
    guard_privileged_target user (is_privileged account grants (high_codes catalog))
    delete_account account.id
    ensure_admin_remains now
    append_audit (
        audit (actor_id_of user) "accounts.local.delete"
          (account_state (account_state_of account grants)) account.id ("deleted" ∷ []))

  unfoldable pub reset_password : ℕ → ResetLocalAccountPasswordRequest → Tx LocalAccountDetail
  reset_password account_id payload = do
    account ← require_local account_id
    catalog ← catalog_of
    let grants = normalize_stored_grants account.local_permissions catalog
    guard (is_self runtime account.id (actor_id_of user)) (auth_error 403 "管理面不能重置自己的密码")
    guard_privileged_target user (is_privileged account grants (high_codes catalog))
    guard (account.is_admin && is_unsafe_bootstrap_secret runtime.text payload.password 12)
        (auth_error 422 "管理员密码不符合强度要求")
    updated ← update_account runtime.hash account.id (
        set_password payload.password
        ∷ set_must_change_password payload.must_change_password
        ∷ set_sessions_revoked_at now
        ∷ [])
    append_audit (
        audit (actor_id_of user) "accounts.local.password.reset" (target account.id) account.id
          ("password" ∷ "mustChangePassword" ∷ "sessionsRevokedAt" ∷ []))
    ensure_admin_remains now
    pure (detail updated catalog now)

  -- `update_account(…) if changed else account`
  unfoldable pub store_permissions :
      LocalAccountRecord → List LocalGrant → Bool → Tx LocalAccountRecord
  store_permissions account after true = update_account runtime.hash account.id (
      set_local_permissions (grant_dicts after)
      ∷ set_local_grants_version (account.local_grants_version + 1)
      ∷ [])
  store_permissions account after false = pure account

  unfoldable pub set_permissions : ℕ → SetLocalAccountPermissionsRequest → Tx LocalAccountDetail
  unfolding store_permissions
  set_permissions account_id payload = do
    account ← require_local account_id
    guard (not (payload.expected_version == account.local_grants_version))
        (auth_error 409 "权限版本已过期")
    catalog ← catalog_of
    let before = normalize_stored_grants account.local_permissions catalog
    after ← lift (validate_grants payload.permissions catalog)
    guard account.is_admin (auth_error 422 "管理员账户不能写入本地权限")
    let high = high_codes catalog
    guard (not user.is_local_superadmin && touches_high before after high) high_risk_denied
    let changed = grants_differ before after
    guard (changed && is_privileged account before high && not user.is_local_superadmin)
        privileged_target
    updated ← store_permissions account after changed
    append_audit (record {
      actor_id = actor_id_of user;
      action = "accounts.local.permissions.set";
      before = target_permissions account.id (sort_grants (difference before after));
      after = record {
        target_account_id = account.id;
        permissions = some (sort_grants (difference after before));
        changed_keys = if changed then "permissions" ∷ [] else [];
      };
    })
    ensure_admin_remains now
    pure (detail updated catalog now)

  unfoldable pub disable_totp : ℕ → Tx LocalAccountDetail
  disable_totp account_id = do
    account ← require_local account_id
    catalog ← catalog_of
    let grants = normalize_stored_grants account.local_permissions catalog
    guard (is_self runtime account.id (actor_id_of user)) (auth_error 403 "管理面不能救援自己的 TOTP")
    guard_privileged_target user (is_privileged account grants (high_codes catalog))
    let configured =
        account.totp_enabled || has_text account.totp_secret || has_text account.totp_pending_secret
    updated ← update_account runtime.hash account.id (
        set_totp_enabled false
        ∷ set_totp_secret none
        ∷ set_totp_pending_secret none
        ∷ set_sessions_revoked_at now
        ∷ [])
    append_audit (
        audit (actor_id_of user) "accounts.local.totp.disable"
          (target_totp account.id account.totp_enabled) account.id
          (if configured
            then "totpConfiguration" ∷ "sessionsRevokedAt" ∷ []
            else "sessionsRevokedAt" ∷ []))
    ensure_admin_remains now
    pure (detail updated catalog now)
