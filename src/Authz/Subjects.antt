-- ===== src/Authz/Subjects.antt =====
-- backend/enterprise_platform/authz/core.py: the union over the grants of a permission admits whom
-- one of them admits.
use easy_frame.Prelude.{
  String, Bool, true, false, not, ◌&&◌, ◌||◌, ◌≡◌, refl, ◌↔◌, Option, none, some, List, [], ◌∷◌,
  ◌++◌, Eq, ◌==◌, string_eq, any, filter, arith, Bool-cases, Option-cases, inl, inr,
}
use easy_frame.Prelude.Result.{Result, ok, err, ◌>>=◌, >>=-eq-ok}
use easy_frame.Authz.Scopes.{
  DataScope, self, managed_users, all_data, UnsupportedDataScope, parse_data_scope, includes,
  subject_ids_for_scope, managed_of, union_from, union_subject_ids_for_permission,
}

module _ {Subject : Type 0} ⦃e : Eq Subject⦄ where
  -- `None` does not restrict the subjects.
  abbrev pub allows : Option (List Subject) → Subject → Bool
  allows none subject = true
  allows (some subjects) subject = includes subject subjects

  includes-append :
      (subject : Subject) (xs ys : List Subject)
      → includes subject (xs ++ ys) ≡ (includes subject xs || includes subject ys)
  includes-append subject [] ys = refl
  includes-append subject (x ∷ xs) ys = ground (arith, includes-append subject xs ys)

  includes-filter :
      (subject current : Subject) (xs : List Subject)
      → includes subject (filter (λ x. not (e.beq x current)) xs)
        ≡ (includes subject xs && not (e.beq subject current))
  includes-filter subject current [] = refl
  includes-filter subject current (x ∷ xs) =
      ground (arith, e.beq_iff x subject, includes-filter subject current xs)

  module _ {G : Type 0} (code_of scope_of : G → String) (permission_code : String)
      (current : Subject) (managed : G → List Subject) where
    -- Whom a scope admits: the user alone; those the user manages, without the user; everybody.
    unfoldable pub scope_admits : DataScope → G → Subject → Bool
    scope_admits self grant subject = e.beq current subject
    scope_admits managed_users grant subject =
        includes subject (managed grant) && not (e.beq subject current)
    scope_admits all_data grant subject = true

    abbrev parsed_admits : Result UnsupportedDataScope DataScope → G → Subject → Bool
    parsed_admits (ok scope) grant subject = scope_admits scope grant subject
    parsed_admits (err _) grant subject = false

    -- Whom a grant admits, of the permission only.
    unfoldable pub admits : Subject → G → Bool
    unfolding scope_admits
    admits subject grant =
        code_of grant == permission_code
        && parsed_admits (parse_data_scope (scope_of grant)) grant subject

    scope_allows :
        (scope : DataScope) (grant : G) (subject : Subject)
        → allows (subject_ids_for_scope scope current (managed_of managed scope grant)) subject
          ≡ scope_admits scope grant subject
    unfolding subject_ids_for_scope scope_admits
    scope_allows self grant subject = ground arith
    scope_allows managed_users grant subject = includes-filter subject current (managed grant)
    scope_allows all_data grant subject = refl

    admits_parsed :
        (grant : G) (scope : DataScope) (subject : Subject)
        → (code_of grant == permission_code) ≡ true
        → parse_data_scope (scope_of grant) ≡ ok scope
        → admits subject grant ≡ scope_admits scope grant subject
    unfolding admits
    admits_parsed grant scope subject q p = rw (q, p, admits) refl

    admits_other :
        (grant : G) (subject : Subject)
        → (code_of grant == permission_code) ≡ false
        → admits subject grant ≡ false
    unfolding admits
    admits_other grant subject q = rw (q, admits) refl

    abbrev union : List Subject → List G → Result UnsupportedDataScope (Option (List Subject))
    union = union_from code_of scope_of permission_code current managed

    union_from_allows :
        (allowed : List Subject) (grants : List G) (result : Option (List Subject))
        (subject : Subject)
        → union allowed grants ≡ ok result
        → allows result subject ≡ (includes subject allowed || any (admits subject) grants)
    unfolding union_from
    union_from_allows allowed [] result subject h =
        let p : result ≡ some allowed = cc in rw p (ground arith)
    union_from_allows allowed (grant ∷ grants) result subject h =
        elim (Bool-cases (code_of grant == permission_code)) [
          | inr q ↦
              let h' : union allowed grants ≡ ok result = rw (q, union_from) at h in
              ground (
                arith,
                admits_other grant subject q,
                union_from_allows allowed grants result subject h',
              )
          | inl q ↦
              let h' : (parse_data_scope (scope_of grant) >>= λ scope.
              elim (subject_ids_for_scope scope current (managed_of managed scope grant)) [
                | none ↦ ok none
                | some subjects ↦ union (allowed ++ subjects) grants
              ])
                  ≡ ok result =
                rw (q, union_from) at h in
              let (scope, p, h'') = >>=-eq-ok (parse_data_scope (scope_of grant)) _ h' in
              let a = scope_allows scope grant subject in
              elim (Option-cases
                (subject_ids_for_scope scope current (managed_of managed scope grant))) [
                  | inl n ↦
                      let r : ok none ≡ ok result = rw n at h'' in
                      let a' : true ≡ scope_admits scope grant subject = rw n at a in
                      ground (arith, r, a', admits_parsed grant scope subject q p)
                  | inr (subjects, n) ↦
                      let r : union (allowed ++ subjects) grants ≡ ok result = rw n at h'' in
                      let a' : includes subject subjects ≡ scope_admits scope grant subject =
                        rw n at a in
                      ground (
                        arith,
                        a',
                        includes-append subject allowed subjects,
                        admits_parsed grant scope subject q p,
                        union_from_allows (allowed ++ subjects) grants result subject r,
                      )
                ]
        ]

    -- The union over the grants of a permission, where no scope is refused, admits a subject exactly
    -- when one of the grants of that permission admits it: as the user, as one that the user manages
    -- and not the user, or as everybody.
    pub union-allows_iff :
        (grants : List G) (result : Option (List Subject)) (subject : Subject)
        → union_subject_ids_for_permission code_of scope_of permission_code current managed grants
          ≡ ok result
        → (allows result subject ≡ true) ↔ (any (admits subject) grants ≡ true)
    unfolding union_subject_ids_for_permission
    union-allows_iff grants result subject h =
        ground (arith, union_from_allows [] grants result subject h)
