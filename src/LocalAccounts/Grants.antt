-- ===== src/LocalAccounts/Grants.antt =====
-- backend/enterprise_platform/local_accounts.py: reading stored grants, validating requested ones,
-- and what makes an account privileged. Python's sets of pairs are lists here, compared by
-- membership.
use easy_frame.Prelude.{
  String, Bool, true, false, not, ◌&&◌, ◌||◌, Option, none, some, List, [], ◌∷◌, ◌++◌, ◌==◌,
  string_eq, filter, any, if◌then◌else◌,
}
use Prim.Native.Nat.{Ordering}
use Prim.Native.String.{compare}
use easy_frame.Prelude.Result.{Result, ok, err, ◌>>=◌, ◌>>◌}
use easy_frame.Prelude.Dict.{Dict, lookup, insert}
use easy_frame.Auth.Errors.{AuthError, auth_error}
use easy_frame.LocalAccounts.Types.{
  LocalGrant, grant_beq, StoredGrant, dict, LocalPermissionRecord, LocalAccountRecord, AccountState,
}

abbrev pub local_grantable_scopes : List String
local_grantable_scopes = "SELF" ∷ "ALL" ∷ []

abbrev pub baseline_self_service : List String
baseline_self_service =
    "auth.totp.create" ∷ "auth.totp.advance" ∷ "auth.passkey.view" ∷ "auth.passkey.create"
    ∷ "notification.center.view" ∷ []

abbrev pub mem : String → List String → Bool
mem x xs = any (λ y. y == x) xs

abbrev pub Catalog : Type 0
Catalog = Dict String LocalPermissionRecord

-- `{row.code: row for row in rows if row.active}`
unfoldable pub catalog_map_from : Catalog → List LocalPermissionRecord → Catalog
catalog_map_from catalog [] = catalog
catalog_map_from catalog (row ∷ rows) =
    catalog_map_from (if row.active then insert row.code row catalog else catalog) rows

unfoldable pub catalog_map : List LocalPermissionRecord → Catalog
unfolding catalog_map_from
catalog_map rows = catalog_map_from [] rows

-- `scope in set(row.supported_scopes) & LOCAL_GRANTABLE_SCOPES`
unfoldable pub is_grantable : LocalPermissionRecord → String → Bool
is_grantable row scope = mem scope row.supported_scopes && mem scope local_grantable_scopes

-- The test of one stored value: the grant that it stands for, unless it is skipped.
unfoldable pub stored_grant : Catalog → List String → StoredGrant → Option LocalGrant
unfolding is_grantable
stored_grant catalog seen (dict (some code) (some scope)) = elim (lookup code catalog) [
  | none ↦ none
  | some row ↦
      if mem code seen
      then none
      else if is_grantable row scope
      then some (record { code = code; scope = scope })
      else none
]
stored_grant catalog seen _ = none

-- the loop of `_normalize_stored_grants`
unfoldable pub normalize_from : Catalog → List String → List StoredGrant → List LocalGrant
unfolding stored_grant
normalize_from catalog seen [] = []
normalize_from catalog seen (value ∷ values) = elim (stored_grant catalog seen value) [
  | none ↦ normalize_from catalog seen values
  | some grant ↦ grant ∷ normalize_from catalog (grant.code ∷ seen) values
]

unfoldable pub normalize_stored_grants : List StoredGrant → Catalog → List LocalGrant
unfolding normalize_from
normalize_stored_grants values catalog = normalize_from catalog [] values

abbrev pub duplicate_code : AuthError
duplicate_code = auth_error 422 "权限代码不能重复"

abbrev pub invalid_code : AuthError
invalid_code = auth_error 422 "权限代码无效"

abbrev pub invalid_scope : AuthError
invalid_scope = auth_error 422 "权限范围无效"

-- the tests of one requested grant, in the order of the source
unfoldable pub check_grant : Catalog → List String → LocalGrant → Result AuthError Unit
unfolding is_grantable
check_grant catalog seen grant =
    if mem grant.code seen then err duplicate_code else elim (lookup grant.code catalog) [
      | none ↦ err invalid_code
      | some row ↦ if is_grantable row grant.scope then ok tt else err invalid_scope
    ]

-- the loop of `_validate_grants`; baseline permissions are accepted and not stored
unfoldable pub validate_from :
    Catalog → List String → List LocalGrant → Result AuthError (List LocalGrant)
unfolding check_grant
validate_from catalog seen [] = ok []
validate_from catalog seen (grant ∷ grants) = do
  check_grant catalog seen grant
  rest ← validate_from catalog (grant.code ∷ seen) grants
  ok (if mem grant.code baseline_self_service then rest else grant ∷ rest)

unfoldable pub validate_grants : List LocalGrant → Catalog → Result AuthError (List LocalGrant)
unfolding validate_from
validate_grants grants catalog = validate_from catalog [] grants

-- `_grant_dicts`
unfoldable pub grant_dicts : List LocalGrant → List StoredGrant
grant_dicts [] = []
grant_dicts (grant ∷ grants) = dict (some grant.code) (some grant.scope) ∷ grant_dicts grants

-- `_grant_tuples(xs) - _grant_tuples(ys)`
unfoldable pub difference : List LocalGrant → List LocalGrant → List LocalGrant
difference xs ys = filter (λ grant. not (any (λ other. grant_beq other grant) ys)) xs

-- `_grant_tuples(before) != _grant_tuples(after)`
unfoldable pub grants_differ : List LocalGrant → List LocalGrant → Bool
unfolding difference
grants_differ before after = any (λ _. true) (difference before after ++ difference after before)

-- the order of the pairs (code, scope), by code points
abbrev pub grant_leb : LocalGrant → LocalGrant → Bool
grant_leb a b = elim (compare a.code b.code) [
  | Ordering.lt ↦ true
  | Ordering.gt ↦ false
  | Ordering.eq ↦ elim (compare a.scope b.scope) [ Ordering.gt ↦ false | _ ↦ true ]
]

unfoldable pub insert_grant : LocalGrant → List LocalGrant → List LocalGrant
insert_grant grant [] = grant ∷ []
insert_grant grant (other ∷ grants) =
    if grant_leb grant other then grant ∷ other ∷ grants else other ∷ insert_grant grant grants

-- `sorted`
unfoldable pub sort_grants : List LocalGrant → List LocalGrant
unfolding insert_grant
sort_grants [] = []
sort_grants (grant ∷ grants) = insert_grant grant (sort_grants grants)

-- `normalize_catalog_risk_level(row.risk_level) == "high"`: every level but "standard" is high
abbrev pub is_high : LocalPermissionRecord → Bool
is_high row = not (row.risk_level == "standard")

-- `_high_codes`
unfoldable pub high_codes : Catalog → List String
high_codes [] = []
high_codes ((code, row) ∷ catalog) =
    let rest = high_codes catalog in if is_high row then code ∷ rest else rest

-- `_touches_high`
unfoldable pub touches_high : List LocalGrant → List LocalGrant → List String → Bool
unfolding difference
touches_high before after high =
    any (λ grant. mem grant.code high) (difference before after ++ difference after before)

-- `_is_privileged`
unfoldable pub is_privileged : LocalAccountRecord → List LocalGrant → List String → Bool
is_privileged account grants high = account.is_admin || any (λ grant. mem grant.code high) grants

-- `_account_state`
unfoldable pub account_state_of : LocalAccountRecord → List LocalGrant → AccountState
account_state_of account grants = record {
  target_account_id = account.id;
  username = account.username;
  email = account.email;
  active = account.active;
  is_admin = account.is_admin;
  ui_locale = account.ui_locale;
  expires_at = account.expires_at;
  permissions = grants;
  must_change_password = account.must_change_password;
  totp_enabled = account.totp_enabled;
}
