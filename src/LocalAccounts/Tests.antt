-- ===== src/LocalAccounts/Tests.antt =====
-- The theorems of the administration at concrete accounts.
use easy_frame.Prelude.{
  ℕ, ◌≤◌, ◌≡◌, refl, true, false, none, some, List, [], ◌∷◌, arith, ◌==◌, string_eq, if◌then◌else◌,
}
use easy_frame.Prelude.Dict.{lookup, insert}
use easy_frame.LocalAccounts.Types.{
  Account, CurrentUser, LocalGrant, LocalPermissionRecord, UpdateLocalAccountRequest,
}
use easy_frame.LocalAccounts.Grants.{
  Catalog, catalog_map, validate_grants, normalize_stored_grants, grant_dicts, is_privileged,
}
use easy_frame.LocalAccounts.Store.{
  Db, to_record, usable_local_admin_count, find_row, get_account, is_local, count_owned, ◌>>=◌,
  guard, delete_account, append_audit, lift,
}
use easy_frame.LocalAccounts.Service.{
  Runtime, is_self, require_local, delete, catalog_of, actor_id_of, ensure_admin_remains,
}
use easy_frame.LocalAccounts.Update.{update, profile_values, admin_edits}
use easy_frame.LocalAccounts.Requests.{Request, delete_request, update_request, handle, run}
use easy_frame.LocalAccounts.Admins.{admins_permanent}
use easy_frame.LocalAccounts.Survival.{run-keeps_admin}
use easy_frame.LocalAccounts.SelfProtection.{raises, self-request_raises, is_forbidden_on_self}
use easy_frame.LocalAccounts.GrantRoundTrip.{without_baseline, normalize-validated}

program : Unit {0}
unfolding handle run is_self require_local find_row get_account is_local count_owned
    usable_local_admin_count admins_permanent is_forbidden_on_self validate_grants lookup insert
    catalog_map normalize_stored_grants grant_dicts to_record ◌>>=◌ update delete catalog_of guard
    actor_id_of is_privileged delete_account ensure_admin_remains append_audit lift profile_values
    admin_edits
program = tt

abbrev runtime : Runtime
runtime = record {
  text = record { strip = λ s. s; lower = λ s. s; size = λ _. 14; contains = λ part s. part == s };
  hash = λ password. password;
  parse_uuid = λ text. if text == "7" then some 7 else none;
}

abbrev root : Account
root = record {
  id = 7;
  external_source = none;
  username = "root";
  email = none;
  password_hash = some "pbkdf2";
  active = true;
  is_admin = true;
  local_permissions = [];
  local_grants_version = 0;
  expires_at = none;
  must_change_password = false;
  ui_locale = "zh-CN";
  totp_enabled = false;
  totp_secret = none;
  totp_pending_secret = none;
  sessions_revoked_at = none;
  created_at = 0;
}

abbrev guest : Account
guest = record root { id = 8; username = "guest"; is_admin = false; expires_at = some 90 }

abbrev tables : Db
tables = record {
  accounts = root ∷ guest ∷ [];
  catalog = [];
  passkeys = [];
  notifications = [];
  snapshots = [];
  audits = [];
}

abbrev root_user : CurrentUser
root_user = record { id = "7"; account_id = none; is_local_superadmin = true }

abbrev demotion : UpdateLocalAccountRequest
demotion = record {
  email = none;
  active = none;
  is_admin = some false;
  ui_locale = none;
  expires_at = none;
}

abbrev requests : List (ℕ × CurrentUser × Request)
requests =
    (5, root_user, delete_request 8)
    ∷ (6, root_user, delete_request 7)
    ∷ (7, root_user, update_request 7 demotion)
    ∷ []

run-keeps_admin_example :
    (admins_permanent (run runtime requests tables).accounts ≡ true)
    × (1 ≤ usable_local_admin_count 9 (run runtime requests tables))
unfolding program
run-keeps_admin_example = run-keeps_admin runtime 9 requests tables refl (omega arith)

run-deletes_guest : (run runtime requests tables).accounts ≡ root ∷ []
unfolding program
run-deletes_guest = refl

self-request_raises_example :
    raises (handle runtime 6 root_user (update_request 7 demotion) tables) ≡ true
unfolding program
self-request_raises_example =
    self-request_raises runtime 6 root_user 7 (to_record root 0) (update_request 7 demotion) tables
      refl refl refl refl

abbrev reports : LocalPermissionRecord
reports = record {
  code = "reports.view";
  name_zh = "报表";
  name_en = "Reports";
  domain = "reports";
  group_key = none;
  supported_scopes = "SELF" ∷ "ALL" ∷ [];
  risk_level = "standard";
  active = true;
}

abbrev catalog : Catalog
catalog = ("reports.view", reports) ∷ []

abbrev grant : LocalGrant
grant = record { code = "reports.view"; scope = "ALL" }

-- a permission that every account has without a grant
abbrev basic : LocalPermissionRecord
basic = record reports { code = "auth.passkey.view" }

abbrev basic_grant : LocalGrant
basic_grant = record { code = "auth.passkey.view"; scope = "SELF" }

abbrev wide_catalog : Catalog
wide_catalog = ("auth.passkey.view", basic) ∷ catalog

normalize-validated_example :
    (grant ∷ [] ≡ without_baseline (basic_grant ∷ grant ∷ []))
    × (normalize_stored_grants (grant_dicts (grant ∷ [])) wide_catalog
        ≡ without_baseline (basic_grant ∷ grant ∷ []))
unfolding program
normalize-validated_example =
    normalize-validated wide_catalog (basic_grant ∷ grant ∷ []) (grant ∷ []) refl
