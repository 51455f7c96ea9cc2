-- ===== src/LocalAccounts/GrantRoundTrip.antt =====
-- backend/enterprise_platform/local_accounts.py: which grants pass the validation, and how they are
-- read back from the table.
use easy_frame.Prelude.{
  String, Bool, true, false, ◌≡◌, refl, none, some, List, [], ◌∷◌, arith, if◌then◌else◌, string_eq,
  Bool-cases, Option-cases, inl, inr, ap, ◌∙◌, filter, not,
}
use easy_frame.Auth.Errors.{AuthError}
use easy_frame.Prelude.Result.{Result, ok, err, >>=-eq-ok}
use easy_frame.Prelude.Dict.{lookup}
use easy_frame.LocalAccounts.Types.{LocalGrant, LocalPermissionRecord, dict}
use easy_frame.LocalAccounts.Grants.{
  Catalog, mem, baseline_self_service, is_grantable, stored_grant, normalize_from,
  normalize_stored_grants, duplicate_code, invalid_code, invalid_scope, check_grant, validate_from,
  validate_grants, grant_dicts,
}

check_grant_unknown :
    (catalog : Catalog) (seen : List String) (grant : LocalGrant)
    → lookup grant.code catalog ≡ none
    → check_grant catalog seen grant ≡ ok tt
    → ⊥
unfolding check_grant
check_grant_unknown catalog seen grant p h =
    let h' : (if mem grant.code seen then err duplicate_code else err invalid_code) ≡ ok tt =
      rw p at h in
    ground (arith, h')

check_grant_known :
    (catalog : Catalog) (seen : List String) (grant : LocalGrant) (row : LocalPermissionRecord)
    → lookup grant.code catalog ≡ some row
    → check_grant catalog seen grant ≡ ok tt
    → (mem grant.code seen ≡ false) × (is_grantable row grant.scope ≡ true)
unfolding check_grant
check_grant_known catalog seen grant row p h =
    let h' : (if mem grant.code seen
          then err duplicate_code
          else if is_grantable row grant.scope
          then ok tt
          else err invalid_scope)
        ≡ ok tt =
      rw p at h in
    ground (arith, h')

-- What a passed test says of the grant.
check_grant_passed :
    (catalog : Catalog) (seen : List String) (grant : LocalGrant)
    → check_grant catalog seen grant ≡ ok tt
    → (mem grant.code seen ≡ false)
      × (row : LocalPermissionRecord) × (lookup grant.code catalog ≡ some row)
      × (is_grantable row grant.scope ≡ true)
unfolding check_grant
check_grant_passed catalog seen grant h = elim (Option-cases (lookup grant.code catalog)) [
  | inl p ↦ elim (check_grant_unknown catalog seen grant p h) [ ]
  | inr (row, p) ↦ let (q, r) = check_grant_known catalog seen grant row p h in (q, row, p, r)
]

stored_grant_reads :
    (catalog : Catalog) (read : List String) (grant : LocalGrant) (row : LocalPermissionRecord)
    → mem grant.code read ≡ false
    → lookup grant.code catalog ≡ some row
    → is_grantable row grant.scope ≡ true
    → stored_grant catalog read (dict (some grant.code) (some grant.scope)) ≡ some grant
unfolding stored_grant
stored_grant_reads catalog read grant row n l g = rw (l, n, g, stored_grant) refl

normalize-cons :
    (catalog : Catalog) (read : List String) (grant : LocalGrant) (rest : List LocalGrant)
    → stored_grant catalog read (dict (some grant.code) (some grant.scope)) ≡ some grant
    → normalize_from catalog (grant.code ∷ read) (grant_dicts rest) ≡ rest
    → normalize_from catalog read (grant_dicts (grant ∷ rest)) ≡ grant ∷ rest
unfolding normalize_from grant_dicts
normalize-cons catalog read grant rest p h = rw (p, normalize_from) (ap (λ xs. grant ∷ xs) h)

nothing_stored :
    (catalog : Catalog) (read : List String) → normalize_from catalog read (grant_dicts []) ≡ []
unfolding normalize_from grant_dicts
nothing_stored catalog read = refl

-- Codes that the validation has not seen are not read yet.
abbrev Within : List String → List String → Type 0
Within read seen = (code : String) → mem code seen ≡ false → mem code read ≡ false

validated_from :
    (catalog : Catalog) (seen read : List String) (grants valid : List LocalGrant)
    → Within read seen
    → validate_from catalog seen grants ≡ ok valid
    → normalize_from catalog read (grant_dicts valid) ≡ valid
unfolding validate_from
validated_from catalog seen read [] valid sub h =
    let e : valid ≡ [] = cc in rw e (nothing_stored catalog read)
validated_from catalog seen read (grant ∷ grants) valid sub h =
    let (u, p, h') = >>=-eq-ok (check_grant catalog seen grant) _ h in
    let (rest, q, h'') = >>=-eq-ok (validate_from catalog (grant.code ∷ seen) grants) _ h' in
    let (n, row, l, g) = check_grant_passed catalog seen grant p in
    elim (Bool-cases (mem grant.code baseline_self_service)) [
      | inl b ↦
          let e : valid ≡ rest = ground (arith, h'', b) in
          rw e (
            validated_from catalog (grant.code ∷ seen) read grants rest
              (λ code m. sub code (ground (arith, m))) q)
      | inr b ↦
          let e : valid ≡ grant ∷ rest = ground (arith, h'', b) in
          rw e (
            normalize-cons catalog read grant rest
              (stored_grant_reads catalog read grant row (sub grant.code n) l g)
              (validated_from catalog (grant.code ∷ seen) (grant.code ∷ read) grants rest
                (λ code m. ground (arith, m, sub code)) q))
    ]

-- what is stored of requested grants: all but the baseline permissions
abbrev pub without_baseline : List LocalGrant → List LocalGrant
without_baseline grants = filter (λ grant. not (mem grant.code baseline_self_service)) grants

kept_or_dropped :
    (b : Bool) (grant : LocalGrant) (rest valid kept : List LocalGrant)
    → ◌≡◌ {A = Result AuthError (List LocalGrant)}
        (ok (if b then rest else grant ∷ rest))
        (ok valid)
    → rest ≡ kept
    → valid ≡ (if not b then grant ∷ kept else kept)
kept_or_dropped true grant rest valid kept h e = cc
kept_or_dropped false grant rest valid kept h e = cc

validated_keeps :
    (catalog : Catalog) (seen : List String) (grants valid : List LocalGrant)
    → validate_from catalog seen grants ≡ ok valid
    → valid ≡ without_baseline grants
unfolding validate_from
validated_keeps catalog seen [] valid h = cc
validated_keeps catalog seen (grant ∷ grants) valid h =
    let (u, p, h') = >>=-eq-ok (check_grant catalog seen grant) _ h in
    let (rest, q, h'') = >>=-eq-ok (validate_from catalog (grant.code ∷ seen) grants) _ h' in
    kept_or_dropped (mem grant.code baseline_self_service) grant rest valid
      (without_baseline grants) h'' (validated_keeps catalog (grant.code ∷ seen) grants rest q)

-- If the validation accepts requested grants, it gives all of them but the baseline permissions, which
-- every account has without a grant, in the order of the request; and what it gives is read back from
-- the table unchanged, as long as the catalog is the one of the validation.
pub normalize-validated :
    (catalog : Catalog) (grants valid : List LocalGrant)
    → validate_grants grants catalog ≡ ok valid
    → (valid ≡ without_baseline grants)
      × (normalize_stored_grants (grant_dicts valid) catalog ≡ without_baseline grants)
unfolding validate_grants normalize_stored_grants
normalize-validated catalog grants valid h =
    let kept = validated_keeps catalog [] grants valid h in
    (kept, validated_from catalog [] [] grants valid (λ code m. refl) h ∙ kept)
