-- ===== src/Authz/Isolation.antt =====
-- backend/enterprise_platform/authz/core.py: a grant is honoured only with the catalog behind it, and
-- none is lost silently.
use easy_frame.Prelude.{
  String, true, false, ◌≡◌, refl, Option, none, some, List, [], ◌∷◌, ◌++◌, string_eq, Bool-cases,
  inl, inr,
}
use easy_frame.Prelude.Result.{Result, ok, err}
use easy_frame.Prelude.Dict.{Dict, lookup}
use easy_frame.Authz.Scopes.{DataScope, parse_data_scope, UnsupportedDataScope}
use easy_frame.Authz.Snapshot.{
  GrantItem, CatalogPermission, ResolvedGrant, Skip, Reading, source_of, check_parsed, supports,
  lacks_users, parse_grants_isolated, check_scope, check_permission, add_checked, normalize_items,
  normalize_grants,
}

-- The catalog has the permission, active, and the item's scope is this one.
abbrev pub IsActive : Dict String CatalogPermission → GrantItem → CatalogPermission → Type 0
IsActive catalog item permission =
    (lookup item.permission catalog ≡ some permission) × (permission.active ≡ true)

-- A grant that an item stands for: its permission is in the catalog, active; the scope is the item's,
-- and one that the permission supports; a grant for managed users names them; the rest is the item's.
pub data Fit (catalog : Dict String CatalogPermission) (item : GrantItem)
    : ResolvedGrant → Type 0 where
  fit :
      (permission : CatalogPermission) (scope : DataScope)
      → IsActive catalog item permission
      → parse_data_scope item.scope ≡ ok scope
      → supports permission scope ≡ true
      → lacks_users scope item.resolved ≡ false
      → Fit catalog item (record {
        code = item.permission;
        scope = scope;
        source = some (source_of item);
        resolved = item.resolved;
      })

-- The reason for which an item stands for no grant.
pub data Unfit (catalog : Dict String CatalogPermission) (item : GrantItem) : String → Type 0 where
  unknown : lookup item.permission catalog ≡ none → Unfit catalog item "unknown_permission"
  inactive :
      (permission : CatalogPermission)
      → lookup item.permission catalog ≡ some permission
      → permission.active ≡ false
      → Unfit catalog item "inactive_permission"
  ill_scoped :
      (permission : CatalogPermission) (e : UnsupportedDataScope)
      → IsActive catalog item permission
      → parse_data_scope item.scope ≡ err e
      → Unfit catalog item "invalid_scope"
  out_of_scope :
      (permission : CatalogPermission) (scope : DataScope)
      → IsActive catalog item permission
      → parse_data_scope item.scope ≡ ok scope
      → supports permission scope ≡ false
      → Unfit catalog item "unsupported_scope"
  unresolved :
      (permission : CatalogPermission) (scope : DataScope)
      → IsActive catalog item permission
      → parse_data_scope item.scope ≡ ok scope
      → supports permission scope ≡ true
      → lacks_users scope item.resolved ≡ true
      → Unfit catalog item "missing_resolved_users"

abbrev malformed : Skip
malformed = record { reason = "malformed"; permission = none }

-- What becomes of the raw grants, one by one and in order: the grants kept, the skips of malformed
-- ones, and the skips of the others.
pub data Decided (catalog : Dict String CatalogPermission)
    : List (Option GrantItem) → List ResolvedGrant → List Skip → List Skip → Type 0 where
  no_grants : Decided catalog [] [] [] []
  is_malformed :
      {raws : List (Option GrantItem)} {kept : List ResolvedGrant} {bad skips : List Skip}
      → Decided catalog raws kept bad skips
      → Decided catalog (none ∷ raws) kept (malformed ∷ bad) skips
  is_kept :
      {raws : List (Option GrantItem)} {kept : List ResolvedGrant} {bad skips : List Skip}
      (item : GrantItem) (grant : ResolvedGrant)
      → Fit catalog item grant
      → Decided catalog raws kept bad skips
      → Decided catalog (some item ∷ raws) (grant ∷ kept) bad skips
  is_skipped :
      {raws : List (Option GrantItem)} {kept : List ResolvedGrant} {bad skips : List Skip}
      (item : GrantItem) (reason : String)
      → Unfit catalog item reason
      → Decided catalog raws kept bad skips
      → Decided catalog
          (some item ∷ raws)
          kept
          bad
          (record { reason = reason; permission = some item.permission } ∷ skips)

module _ (catalog : Dict String CatalogPermission) (item : GrantItem) where
  -- the result of the tests of one item
  abbrev Verdict : Result String ResolvedGrant → Type 0
  Verdict (ok grant) = Fit catalog item grant
  Verdict (err reason) = Unfit catalog item reason

  scope-Verdict :
      (permission : CatalogPermission) (scope : DataScope)
      → IsActive catalog item permission
      → parse_data_scope item.scope ≡ ok scope
      → Verdict (check_scope item permission scope)
  unfolding check_scope
  scope-Verdict permission scope a p = elim (Bool-cases (supports permission scope)) [
    | inr s ↦ rw (s, check_scope) (out_of_scope permission scope a p s)
    | inl s ↦ elim (Bool-cases (lacks_users scope item.resolved)) [
      | inl l ↦ rw (s, l, check_scope) (unresolved permission scope a p s l)
      | inr l ↦ rw (s, l, check_scope) (fit permission scope a p s l)
    ]
  ]

  parsed-Verdict :
      (permission : CatalogPermission) (parsed : Result UnsupportedDataScope DataScope)
      → IsActive catalog item permission
      → parse_data_scope item.scope ≡ parsed
      → Verdict (check_parsed item permission parsed)
  unfolding check_parsed
  parsed-Verdict permission (ok scope) a p = scope-Verdict permission scope a p
  parsed-Verdict permission (err e) a p = ill_scoped permission e a p

  permission-Verdict :
      (found : Option CatalogPermission)
      → lookup item.permission catalog ≡ found
      → Verdict (check_permission item found)
  unfolding check_permission
  permission-Verdict none l = unknown l
  permission-Verdict (some permission) l = elim (Bool-cases permission.active) [
    | inl a ↦
        rw (a, check_permission)
          (parsed-Verdict permission (parse_data_scope item.scope) (l, a) refl)
    | inr a ↦ rw (a, check_permission) (inactive permission l a)
  ]

  added-Decided :
      (checked : Result String ResolvedGrant) (raws : List (Option GrantItem)) (bad : List Skip)
      (reading : Reading ResolvedGrant)
      → Verdict checked
      → Decided catalog raws reading.kept bad reading.skips
      → Decided catalog
          (some item ∷ raws)
          (add_checked item checked reading).kept
          bad
          (add_checked item checked reading).skips
  unfolding add_checked
  added-Decided (ok grant) raws bad reading v d = is_kept item grant v d
  added-Decided (err reason) raws bad reading v d = is_skipped item reason v d

raws-Decided :
    (catalog : Dict String CatalogPermission) (raws : List (Option GrantItem))
    → let parsed = parse_grants_isolated raws in
      let reading = normalize_items catalog parsed.kept in
      Decided catalog raws reading.kept parsed.skips reading.skips
unfolding parse_grants_isolated normalize_items
raws-Decided catalog [] = no_grants
raws-Decided catalog (none ∷ raws) = is_malformed (raws-Decided catalog raws)
raws-Decided catalog (some item ∷ raws) =
    added-Decided catalog item (check_permission item (lookup item.permission catalog)) raws _ _
      (permission-Verdict catalog item (lookup item.permission catalog) refl)
      (raws-Decided catalog raws)

-- Whatever upstream sends, each raw grant is decided on its own, in order. It is kept exactly once, as
-- the grant that it stands for, if the catalog has its permission, active and with the scope, and if
-- a grant for managed users names them. Otherwise it is reported exactly once, under its permission
-- and for the first of these reasons that applies; and if it is malformed, it is reported as such,
-- before all the others. Nothing else is kept or reported.
pub normalize-Decided :
    (catalog : Dict String CatalogPermission) (raws : List (Option GrantItem))
    → let reading = normalize_grants raws catalog in
      (bad : List Skip) × (skips : List Skip) × (reading.skips ≡ bad ++ skips)
      × Decided catalog raws reading.kept bad skips
unfolding normalize_grants
normalize-Decided catalog raws = (_, _, refl, raws-Decided catalog raws)
