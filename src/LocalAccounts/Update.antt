-- ===== src/LocalAccounts/Update.antt =====
-- backend/enterprise_platform/local_accounts.py, `_LocalAccountService.update` and its parts.
use easy_frame.Prelude.{
  ℕ, ◌+◌, String, Bool, true, false, not, ◌&&◌, ◌||◌, Option, none, some, List, [], ◌∷◌, ◌++◌, ◌==◌,
  string_eq, nat_eq, bool_eq, option_eq, any, if◌then◌else◌,
}
use easy_frame.Prelude.Result.{Result, ok, err}
use easy_frame.Auth.Errors.{AuthError, auth_error}
use easy_frame.LocalAccounts.Types.{
  LocalAccountRecord, LocalAccountDetail, CurrentUser, UpdateLocalAccountRequest, account_state,
  Change, set_email, set_ui_locale, set_active, set_is_admin, set_local_permissions,
  set_local_grants_version, set_expires_at,
}
use easy_frame.LocalAccounts.Grants.{
  normalize_stored_grants, high_codes, is_privileged, account_state_of,
}
use easy_frame.LocalAccounts.Store.{
  Tx, ◌>>=◌, ◌>>◌, pure, guard, lift, append_audit, update_account,
}
use easy_frame.LocalAccounts.Service.{
  Runtime, actor_id_of, is_self, expired, is_set, normalized_email, require_local, catalog_of,
  privileged_target, ensure_admin_remains, detail, audit,
}

-- The dict `values` and the list `changed_keys`.
pub record Edits : Type 0 where
  pub values : List Change
  pub changed_keys : List String

abbrev pub no_edits : Edits
no_edits = record { values = []; changed_keys = [] }

abbrev pub edit : Change → String → Edits → Edits
edit change key edits = record {
  values = edits.values ++ change ∷ [];
  changed_keys = edits.changed_keys ++ key ∷ [];
}

-- `"expires_at" in values`
abbrev pub is_expiry_change : Change → Bool
is_expiry_change (set_expires_at _) = true
is_expiry_change _ = false

-- `values.get("is_admin", account.is_admin)`
unfoldable pub resulting_admin : List Change → Bool → Bool
resulting_admin [] admin = admin
resulting_admin (set_is_admin b ∷ values) admin = resulting_admin values b
resulting_admin (_ ∷ values) admin = resulting_admin values admin

-- a field that was sent, and differs from the account's
abbrev pub differs_email : Runtime → Option (Option String) → Option String → Bool
differs_email runtime none old = false
differs_email runtime (some email) old = not (normalized_email runtime.text email == old)

abbrev pub differs_text : Option String → String → Bool
differs_text none old = false
differs_text (some value) old = not (value == old)

abbrev pub differs_flag : Option Bool → Bool → Bool
differs_flag none old = false
differs_flag (some value) old = not (value == old)

abbrev pub differs_expiry : Option (Option ℕ) → Option ℕ → Bool
differs_expiry none old = false
differs_expiry (some value) old = not (value == old)

module _ (runtime : Runtime) (account : LocalAccountRecord) where
  -- `_update_requests_change`
  unfoldable pub requests_change : UpdateLocalAccountRequest → Bool
  requests_change payload =
      differs_email runtime payload.email account.email
      || differs_text payload.ui_locale account.ui_locale
      || differs_flag payload.active account.active
      || differs_flag payload.is_admin account.is_admin
      || differs_expiry payload.expires_at account.expires_at

  -- the three parts of `_update_profile_values`
  unfoldable pub edit_email : Option (Option String) → Edits → Edits
  edit_email none edits = edits
  edit_email (some email) edits =
      if differs_email runtime (some email) account.email
      then edit (set_email (normalized_email runtime.text email)) "email" edits
      else edits

  unfoldable pub edit_locale : Option String → Edits → Edits
  edit_locale none edits = edits
  edit_locale (some locale) edits =
      if differs_text (some locale) account.ui_locale
      then edit (set_ui_locale locale) "uiLocale" edits
      else edits

  unfoldable pub edit_active : String → Option Bool → Edits → Result AuthError Edits
  edit_active actor_id none edits = ok edits
  edit_active actor_id (some active) edits =
      if differs_flag (some active) account.active
      then if is_self runtime account.id actor_id && not active
        then err (auth_error 403 "不能停用自己的账户")
        else ok (edit (set_active active) "active" edits)
      else ok edits

  -- `_update_profile_values`
  unfoldable pub profile_values : String → UpdateLocalAccountRequest → Result AuthError Edits
  unfolding edit_email edit_locale edit_active
  profile_values actor_id payload =
      edit_active actor_id payload.active
        (edit_locale payload.ui_locale (edit_email payload.email no_edits))

  abbrev pub admin_never_expires : AuthError
  admin_never_expires = auth_error 422 "管理员账户不能设置有效期"

  abbrev pub sends_expiry : Option (Option ℕ) → Bool
  sends_expiry none = false
  sends_expiry (some at) = is_set at

  -- the end of `_apply_admin_change`, for a promotion: an admin has no local grants and no expiry
  unfoldable pub promote : Option (Option ℕ) → Edits → Result AuthError Edits
  promote sent edits =
      if sends_expiry sent
      then err admin_never_expires
      else let stripped = record edits {
        values =
            edits.values
            ++ (set_local_permissions []
                ∷ set_local_grants_version (account.local_grants_version + 1)
                ∷ []);
      } in
        ok (
          if is_set account.expires_at
          then edit (set_expires_at none) "expiresAt" stripped
          else stripped)

  -- `_apply_admin_change`, called only where the flag changes
  unfoldable pub apply_admin_change :
      String → Bool → Option (Option ℕ) → Edits → Result AuthError Edits
  unfolding promote
  apply_admin_change actor_id is_admin sent edits =
      if is_self runtime account.id actor_id && not is_admin
      then err (auth_error 403 "不能撤销自己的管理员权限")
      else let edits' = edit (set_is_admin is_admin) "isAdmin" edits in
        if is_admin then promote sent edits' else ok edits'

  -- `_apply_expiry_change`, called only where the field was sent
  unfoldable pub apply_expiry_change : String → ℕ → Option ℕ → Edits → Result AuthError Edits
  unfolding resulting_admin
  apply_expiry_change actor_id now at edits =
      if is_self runtime account.id actor_id
      then err (auth_error 403 "不能修改自己的有效期")
      else if expired at now
      then err (auth_error 422 "有效期必须晚于当前时间")
      else if resulting_admin edits.values account.is_admin && is_set at
      then err admin_never_expires
      else if not (at == account.expires_at) && not (any is_expiry_change edits.values)
      then ok (edit (set_expires_at at) "expiresAt" edits)
      else ok edits

  unfoldable pub admin_edits :
      String → UpdateLocalAccountRequest → Option Bool → Edits → Result AuthError Edits
  unfolding apply_admin_change
  admin_edits actor_id payload none edits = ok edits
  admin_edits actor_id payload (some is_admin) edits =
      if differs_flag (some is_admin) account.is_admin
      then apply_admin_change actor_id is_admin payload.expires_at edits
      else ok edits

  unfoldable pub expiry_edits : String → ℕ → Option (Option ℕ) → Edits → Result AuthError Edits
  unfolding apply_expiry_change
  expiry_edits actor_id now none edits = ok edits
  expiry_edits actor_id now (some at) edits = apply_expiry_change actor_id now at edits

-- `uow.update_account(account.id, **values) if values else account`
unfoldable pub store_values : Runtime → LocalAccountRecord → List Change → Tx LocalAccountRecord
store_values runtime account [] = pure account
store_values runtime account (value ∷ values) =
    update_account runtime.hash account.id (value ∷ values)

module _ (runtime : Runtime) (now : ℕ) (user : CurrentUser) where
  -- `_guard_update`
  unfoldable pub guard_update : UpdateLocalAccountRequest → LocalAccountRecord → Bool → Tx Unit
  unfolding requests_change
  guard_update payload account privileged = do
    guard (differs_flag payload.is_admin account.is_admin && not user.is_local_superadmin)
        (auth_error 422 "委派管理员不能变更管理员身份")
    guard (requests_change runtime account payload && not user.is_local_superadmin && privileged)
        privileged_target

  unfoldable pub update : ℕ → UpdateLocalAccountRequest → Tx LocalAccountDetail
  unfolding store_values guard_update
  update account_id payload = do
    account ← require_local account_id
    catalog ← catalog_of
    let before_grants = normalize_stored_grants account.local_permissions catalog
    let actor_id = actor_id_of user
    guard_update payload account (is_privileged account before_grants (high_codes catalog))
    profile ← lift (profile_values runtime account actor_id payload)
    with_admin ← lift (admin_edits runtime account actor_id payload payload.is_admin profile)
    edits ← lift (expiry_edits runtime account actor_id now payload.expires_at with_admin)
    updated ← store_values runtime account edits.values
    ensure_admin_remains now
    append_audit (
        audit actor_id "accounts.local.update"
          (account_state (account_state_of account before_grants)) account.id edits.changed_keys)
    pure (detail updated catalog now)
