-- ===== src/Authz/Snapshot.antt =====
-- backend/enterprise_platform/authz/core.py: reading grants against the catalog. A raw grant is what
-- the validation library makes of the JSON: an item, or nothing.
use easy_frame.Prelude.{
  ℕ, String, Bool, true, false, not, ◌&&◌, Option, none, some, List, [], ◌∷◌, ◌++◌, ◌==◌, string_eq,
  any, if◌then◌else◌,
}
use Prim.Native.String.{◌++◌ as ◌<>◌}
use easy_frame.Prelude.Result.{Result, ok, err}
use easy_frame.Prelude.Dict.{Dict, lookup}
use easy_frame.Authz.Scopes.{
  DataScope, managed_users, same_scope, parse_data_scope, UnsupportedDataScope,
  union_subject_ids_for_permission, self, all_data,
}

pub record GrantResolved : Type 0 where
  pub user_ids : List String
  pub resolver : Option String
  pub resolved_at : Option ℕ
  pub snapshot_version : Option String
  pub expires_at : Option ℕ

pub record GrantItem : Type 0 where
  pub permission : String
  pub scope : String
  pub source_type : String
  pub source_key : String
  pub resolved : Option GrantResolved

-- `EasyAuthGrantItem.source`
unfoldable pub source_of : GrantItem → String
source_of item =
    if item.source_type == "group" && not (item.source_key == "")
    then "group:" <> item.source_key
    else item.source_type

pub record CatalogPermission : Type 0 where
  pub code : String
  pub supported_scopes : List DataScope
  pub active : Bool

-- `_ResolvedEasyAuthGrant`
pub record ResolvedGrant : Type 0 where
  pub code : String
  pub scope : DataScope
  pub source : Option String
  pub resolved : Option GrantResolved

pub record NormalizedGrant : Type 0 where
  pub code : String
  pub scope : DataScope

-- a call of `on_skip`: the reason, and the permission if there is one
pub record Skip : Type 0 where
  pub reason : String
  pub permission : Option String

-- The grants that a loop keeps, and its calls of `on_skip`.
pub record Reading (A : Type 0) : Type 0 where
  pub kept : List A
  pub skips : List Skip

abbrev pub keep : {A : Type 0} → A → Reading A → Reading A
keep a reading = record { kept = a ∷ reading.kept; skips = reading.skips }

abbrev pub skip : {A : Type 0} → Skip → Reading A → Reading A
skip reported reading = record { kept = reading.kept; skips = reported ∷ reading.skips }

unfoldable pub parse_grants_isolated : List (Option GrantItem) → Reading GrantItem
parse_grants_isolated [] = record { kept = []; skips = [] }
parse_grants_isolated (none ∷ raws) =
    skip (record { reason = "malformed"; permission = none }) (parse_grants_isolated raws)
parse_grants_isolated (some item ∷ raws) = keep item (parse_grants_isolated raws)

abbrev pub supports : CatalogPermission → DataScope → Bool
supports permission scope = any (same_scope scope) permission.supported_scopes

abbrev pub lacks_users : DataScope → Option GrantResolved → Bool
lacks_users managed_users none = true
lacks_users _ _ = false

-- the last tests of one grant, with its permission and its scope
unfoldable pub check_scope : GrantItem → CatalogPermission → DataScope → Result String ResolvedGrant
unfolding source_of
check_scope item permission scope =
    if not (supports permission scope)
    then err "unsupported_scope"
    else if lacks_users scope item.resolved
    then err "missing_resolved_users"
    else ok (record {
      code = item.permission;
      scope = scope;
      source = some (source_of item);
      resolved = item.resolved;
    })

unfoldable pub check_parsed :
    GrantItem
    → CatalogPermission
    → Result UnsupportedDataScope DataScope
    → Result String ResolvedGrant
unfolding check_scope
check_parsed item permission (err _) = err "invalid_scope"
check_parsed item permission (ok scope) = check_scope item permission scope

unfoldable pub check_permission : GrantItem → Option CatalogPermission → Result String ResolvedGrant
unfolding check_parsed
check_permission item none = err "unknown_permission"
check_permission item (some permission) =
    if not permission.active
    then err "inactive_permission"
    else check_parsed item permission (parse_data_scope item.scope)

-- the body of the loop of `normalize_grants`
unfoldable pub add_checked :
    GrantItem → Result String ResolvedGrant → Reading ResolvedGrant → Reading ResolvedGrant
add_checked item (ok grant) reading = keep grant reading
add_checked item (err reason) reading =
    skip (record { reason = reason; permission = some item.permission }) reading

unfoldable pub normalize_items :
    Dict String CatalogPermission → List GrantItem → Reading ResolvedGrant
unfolding check_permission add_checked
normalize_items catalog [] = record { kept = []; skips = [] }
normalize_items catalog (item ∷ items) =
    add_checked item (check_permission item (lookup item.permission catalog))
      (normalize_items catalog items)

-- The malformed grants are reported first.
unfoldable pub normalize_grants :
    List (Option GrantItem) → Dict String CatalogPermission → Reading ResolvedGrant
unfolding parse_grants_isolated normalize_items
normalize_grants raws catalog =
    let parsed = parse_grants_isolated raws in
    let reading = normalize_items catalog parsed.kept in
    record { kept = reading.kept; skips = parsed.skips ++ reading.skips }

-- an element of the stored JSON list: a mapping with a code and a scope, which may be no texts
pub data RawLocalGrant : Type 0 where
  not_mapping : RawLocalGrant
  mapping : Option String → Option String → RawLocalGrant

abbrev pub is_locally_grantable : DataScope → Bool
is_locally_grantable managed_users = false
is_locally_grantable _ = true

-- the tests of one grant of `normalize_local_grants`
unfoldable pub check_local : Dict String CatalogPermission → RawLocalGrant → Option NormalizedGrant
check_local catalog (mapping (some code) (some raw_scope)) = elim (lookup code catalog) [
  | none ↦ none
  | some permission ↦ if not permission.active then none else elim (parse_data_scope raw_scope) [
    | err _ ↦ none
    | ok scope ↦
        if not (supports permission scope && is_locally_grantable scope)
        then none
        else some (record { code = code; scope = scope })
  ]
]
check_local catalog _ = none

unfoldable pub normalize_local_grants :
    Dict String CatalogPermission → List RawLocalGrant → List NormalizedGrant
unfolding check_local
normalize_local_grants catalog [] = []
normalize_local_grants catalog (raw ∷ raws) = elim (check_local catalog raw) [
  | none ↦ normalize_local_grants catalog raws
  | some grant ↦ grant ∷ normalize_local_grants catalog raws
]

-- `str(scope)`
abbrev pub scope_text : DataScope → String
scope_text self = "SELF"
scope_text managed_users = "MANAGED_USERS"
scope_text all_data = "ALL"

abbrev pub users_of : Option GrantResolved → List String
users_of none = []
users_of (some resolved) = resolved.user_ids

unfoldable pub allowed_external_user_ids :
    List ResolvedGrant → String → String → Result UnsupportedDataScope (Option (List String))
unfolding union_subject_ids_for_permission
allowed_external_user_ids grants permission_code current_external_user_id =
    union_subject_ids_for_permission (λ grant. grant.code) (λ grant. scope_text grant.scope)
      permission_code current_external_user_id (λ grant. users_of grant.resolved) grants
