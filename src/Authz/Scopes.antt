-- ===== src/Authz/Scopes.antt =====
-- backend/enterprise_platform/authz/core.py: data scopes, and the subjects that a grant admits.
-- Python's sets are lists here, compared by membership.
use easy_frame.Prelude.{
  String, Bool, true, false, not, Option, none, some, List, [], ◌∷◌, ◌++◌, Eq, ◌==◌, string_eq, any,
  filter, if◌then◌else◌,
}
use easy_frame.Prelude.Result.{Result, ok, err, ◌>>=◌}

pub data DataScope : Type 0 where
  self : DataScope
  managed_users : DataScope
  all_data : DataScope

-- `UnsupportedDataScopeError`, with the text that it names
pub data UnsupportedDataScope : Type 0 where
  unsupported : String → UnsupportedDataScope

unfoldable pub parse_data_scope : String → Result UnsupportedDataScope DataScope
parse_data_scope value =
    if value == "SELF"
    then ok self
    else if value == "MANAGED_USERS"
    then ok managed_users
    else if value == "ALL"
    then ok all_data
    else err (unsupported value)

-- `ScopeGrant`, with the text of its scope
pub record ScopeGrant : Type 0 where
  pub code : String
  pub scope : String

abbrev pub is_all : DataScope → Bool
is_all all_data = true
is_all _ = false

abbrev pub same_scope : DataScope → DataScope → Bool
same_scope self self = true
same_scope managed_users managed_users = true
same_scope all_data all_data = true
same_scope _ _ = false

-- `scopes.add(…)`
abbrev pub add_scope : DataScope → List DataScope → List DataScope
add_scope scope scopes = if any (same_scope scope) scopes then scopes else scope ∷ scopes

-- the loop of `best_scope_for_grants`
unfoldable pub scopes_from :
    String → List DataScope → List ScopeGrant → Result UnsupportedDataScope (List DataScope)
scopes_from permission_code scopes [] = ok scopes
scopes_from permission_code scopes (grant ∷ grants) = elim (grant.code == permission_code) [
  | false ↦ scopes_from permission_code scopes grants
  | true ↦ parse_data_scope grant.scope >>= λ scope.
      scopes_from permission_code (add_scope scope scopes) grants
]

-- the end of `best_scope_for_grants`
unfoldable pub best_of : List DataScope → Option DataScope
best_of scopes =
    if any is_all scopes then some all_data else elim scopes [ scope ∷ [] ↦ some scope | _ ↦ none ]

unfoldable pub best_scope_for_grants :
    List ScopeGrant → String → Result UnsupportedDataScope (Option DataScope)
unfolding scopes_from best_of
best_scope_for_grants grants permission_code =
    scopes_from permission_code [] grants >>= λ scopes. ok (best_of scopes)

module _ {Subject : Type 0} ⦃e : Eq Subject⦄ where
  -- `subject in subjects`
  abbrev pub includes : Subject → List Subject → Bool
  includes subject subjects = any (λ other. e.beq other subject) subjects

  -- `subject_ids_for_scope`; nothing stands for no restriction
  unfoldable pub subject_ids_for_scope : DataScope → Subject → List Subject → Option (List Subject)
  subject_ids_for_scope all_data current managed = none
  subject_ids_for_scope self current managed = some (current ∷ [])
  subject_ids_for_scope managed_users current managed =
      some (filter (λ subject. not (e.beq subject current)) managed)

  -- `managed_subject_ids(grant) if scope is DataScope.MANAGED_USERS else ()`
  abbrev pub managed_of : {G : Type 0} → (G → List Subject) → DataScope → G → List Subject
  managed_of managed managed_users grant = managed grant
  managed_of managed _ grant = []

  module _ {G : Type 0} (code_of scope_of : G → String) (permission_code : String)
      (current : Subject) (managed : G → List Subject) where
    -- the loop of `union_subject_ids_for_permission`
    unfoldable pub union_from :
        List Subject → List G → Result UnsupportedDataScope (Option (List Subject))
    union_from allowed [] = ok (some allowed)
    union_from allowed (grant ∷ grants) = elim (code_of grant == permission_code) [
      | false ↦ union_from allowed grants
      | true ↦ parse_data_scope (scope_of grant) >>= λ scope.
          elim (subject_ids_for_scope scope current (managed_of managed scope grant)) [
            | none ↦ ok none
            | some subjects ↦ union_from (allowed ++ subjects) grants
          ]
    ]

    unfoldable pub union_subject_ids_for_permission :
        List G → Result UnsupportedDataScope (Option (List Subject))
    union_subject_ids_for_permission grants = union_from [] grants
