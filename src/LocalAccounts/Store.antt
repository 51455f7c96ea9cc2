-- ===== src/LocalAccounts/Store.antt =====
-- backend/blank_app/adapter_account.py, `BlankLocalAccountUnitOfWork`: the tables that the
-- administration reads and writes, in one transaction. The audit keeps what it is handed; the
-- adapter's redaction and truncation of texts are not modelled, nor are row locks.
use easy_frame.Prelude.{
  ℕ, String, Bool, true, false, not, ◌&&◌, ◌||◌, Option, none, some, List, [], ◌∷◌, ◌++◌, ◌==◌,
  string_eq, nat_eq, length, filter, any, ltb, if◌then◌else◌,
}
use easy_frame.Prelude.Result.{Result, ok, err}
use easy_frame.Auth.Errors.{AuthError, auth_error}
use easy_frame.LocalAccounts.Types.{
  Account, LocalAccountRecord, LocalPermissionRecord, AuditEntry, Change, set_email, set_ui_locale,
  set_active, set_is_admin, set_local_permissions, set_local_grants_version, set_expires_at,
  set_password, set_must_change_password, set_sessions_revoked_at, set_totp_enabled,
  set_totp_secret, set_totp_pending_secret,
}

-- Passkeys, notifications and permission snapshots count only by the account that owns them.
pub record Db : Type 0 where
  pub accounts : List Account
  pub catalog : List LocalPermissionRecord
  pub passkeys : List ℕ
  pub notifications : List ℕ
  pub snapshots : List ℕ
  pub audits : List AuditEntry

-- An action in a transaction. An error carries no state: leaving the block by an exception rolls back.
abbrev pub Tx : Type 0 → Type 0
Tx A = Db → Result AuthError (A × Db)

abbrev pub after_tx :
    {A B : Type 0} → Result AuthError (A × Db) → (A → Tx B) → Result AuthError (B × Db)
after_tx (ok (a, db)) f = f a db
after_tx (err e) f = err e

infixl 5 ◌>>=◌ ◌>>◌
unfoldable pub ◌>>=◌ : {A B : Type 0} → Tx A → (A → Tx B) → Tx B
◌>>=◌ m f db = after_tx (m db) f

abbrev pub ◌>>◌ : {B : Type 0} → Tx Unit → Tx B → Tx B
m >> k = m >>= λ _. k

abbrev pub pure : {A : Type 0} → A → Tx A
pure a db = ok (a, db)

abbrev pub raise : {A : Type 0} → AuthError → Tx A
raise e db = err e

-- `if test: raise error`
unfoldable pub guard : Bool → AuthError → Tx Unit
guard true e = raise e
guard false e = pure tt

unfoldable pub lift : {A : Type 0} → Result AuthError A → Tx A
lift (ok a) = pure a
lift (err e) = raise e

abbrev pub not_found : AuthError
not_found = auth_error 404 "本地账户不存在"

abbrev pub username_taken : AuthError
username_taken = auth_error 409 "用户名已被占用"

-- `external_source IS NULL`
unfoldable pub is_local : Account → Bool
is_local account = elim account.external_source [ none ↦ true | some _ ↦ false ]

unfoldable pub count_owned : ℕ → List ℕ → ℕ
count_owned account_id owners = length (filter (λ owner. owner == account_id) owners)

-- `_record`
unfoldable pub to_record : Account → ℕ → LocalAccountRecord
to_record account passkey_count = record {
  id = account.id;
  username = account.username;
  email = account.email;
  active = account.active;
  is_admin = account.is_admin;
  local_permissions = account.local_permissions;
  local_grants_version = account.local_grants_version;
  expires_at = account.expires_at;
  must_change_password = account.must_change_password;
  ui_locale = account.ui_locale;
  totp_enabled = account.totp_enabled;
  totp_secret = account.totp_secret;
  totp_pending_secret = account.totp_pending_secret;
  created_at = account.created_at;
  passkey_count = passkey_count;
}

-- The row with the id, by primary key.
unfoldable pub find_row : ℕ → List Account → Option Account
find_row account_id [] = none
find_row account_id (row ∷ rows) =
    if row.id == account_id then some row else find_row account_id rows

-- `get_account`: an external identity is not found
unfoldable pub get_account : ℕ → Db → Option LocalAccountRecord
unfolding find_row is_local to_record
get_account account_id db = elim (find_row account_id db.accounts) [
  | none ↦ none
  | some row ↦
      if is_local row then some (to_record row (count_owned account_id db.passkeys)) else none
]

-- `expires_at IS NULL OR expires_at > now`
abbrev pub unexpired : ℕ → Option ℕ → Bool
unexpired now none = true
unexpired now (some at) = ltb now at

unfoldable pub is_usable_admin : ℕ → Account → Bool
unfolding is_local
is_usable_admin now row = is_local row && row.is_admin && row.active && unexpired now row.expires_at

unfoldable pub usable_local_admin_count : ℕ → Db → ℕ
unfolding is_usable_admin
usable_local_admin_count now db = length (filter (is_usable_admin now) db.accounts)

-- `append_audit`
unfoldable pub append_audit : AuditEntry → Tx Unit
append_audit entry db = ok (tt, record db { audits = db.audits ++ entry ∷ [] })

-- `create_account` writes a new row; the unique constraints refuse a user name or an id that is there.
unfoldable pub create_account : Account → Tx LocalAccountRecord
unfolding to_record
create_account row db =
    if any (λ other. other.username == row.username || other.id == row.id) db.accounts
    then err username_taken
    else ok (to_record row 0, record db { accounts = db.accounts ++ row ∷ [] })

-- The password hash is the library passlib's.
module _ (hash : String → String) where
  -- `setattr(account, key, value)`, and the hash for "password"
  unfoldable pub apply_change : Account → Change → Account
  apply_change row (set_email email) = record row { email = email }
  apply_change row (set_ui_locale locale) = record row { ui_locale = locale }
  apply_change row (set_active active) = record row { active = active }
  apply_change row (set_is_admin is_admin) = record row { is_admin = is_admin }
  apply_change row (set_local_permissions grants) = record row { local_permissions = grants }
  apply_change row (set_local_grants_version v) = record row { local_grants_version = v }
  apply_change row (set_expires_at at) = record row { expires_at = at }
  apply_change row (set_password password) = record row { password_hash = some (hash password) }
  apply_change row (set_must_change_password b) = record row { must_change_password = b }
  apply_change row (set_sessions_revoked_at now) = record row { sessions_revoked_at = some now }
  apply_change row (set_totp_enabled b) = record row { totp_enabled = b }
  apply_change row (set_totp_secret secret) = record row { totp_secret = secret }
  apply_change row (set_totp_pending_secret secret) = record row { totp_pending_secret = secret }

  unfoldable pub apply_changes : Account → List Change → Account
  unfolding apply_change
  apply_changes row [] = row
  apply_changes row (change ∷ changes) = apply_changes (apply_change row change) changes

  unfoldable pub update_rows : ℕ → List Change → List Account → List Account
  unfolding apply_changes
  update_rows account_id changes [] = []
  update_rows account_id changes (row ∷ rows) =
      if row.id == account_id
      then apply_changes row changes ∷ rows
      else row ∷ update_rows account_id changes rows

  unfoldable pub update_account : ℕ → List Change → Tx LocalAccountRecord
  unfolding find_row update_rows to_record
  update_account account_id changes db = elim (find_row account_id db.accounts) [
    | none ↦ err not_found
    | some row ↦ ok (
      to_record (apply_changes row changes) (count_owned account_id db.passkeys),
      record db { accounts = update_rows account_id changes db.accounts },
    )
  ]

abbrev pub remove_owned : ℕ → List ℕ → List ℕ
remove_owned account_id owners = filter (λ owner. not (owner == account_id)) owners

unfoldable pub delete_rows : ℕ → List Account → List Account
delete_rows account_id [] = []
delete_rows account_id (row ∷ rows) =
    if row.id == account_id then rows else row ∷ delete_rows account_id rows

unfoldable pub delete_account : ℕ → Tx Unit
unfolding find_row delete_rows
delete_account account_id db = elim (find_row account_id db.accounts) [
  | none ↦ err not_found
  | some _ ↦ ok (
    tt,
    record db {
      accounts = delete_rows account_id db.accounts;
      passkeys = remove_owned account_id db.passkeys;
      notifications = remove_owned account_id db.notifications;
      snapshots = remove_owned account_id db.snapshots;
    },
  )
]
