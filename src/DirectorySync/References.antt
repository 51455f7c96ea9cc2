-- ===== src/DirectorySync/References.antt =====
-- backend/enterprise_platform/directory_sync.py: which users `_reject_duplicate_or_empty_refs` lets through.
use easy_frame.Prelude.{
  String, false, List, [], ◌∷◌, ◌==◌, ==_iff, string_eq, option_eq, ◌≡◌, ◌≢◌, any, All, All-map,
  arith, true, Bool-cases, inl, inr,
}
use easy_frame.Prelude.Result.{ok, err}
use easy_frame.DirectorySync.Port.{UserRecord, Raised}
use easy_frame.DirectorySync.Sync.{reject_refs}

-- Every user has a reference, and no two have the same.
abbrev pub IsValid : List UserRecord → Type 0
IsValid [] = Unit
IsValid (user ∷ users) =
    (user.user_ref ≢ "") × All (λ other. user.user_ref ≢ other.user_ref) users × IsValid users

abbrev NotIn : String → List String → Type 0
NotIn ref seen = All (λ other. other ≢ ref) seen

any-NotIn :
    (ref : String) (seen : List String) → any (λ other. other == ref) seen ≡ false → NotIn ref seen
any-NotIn ref [] h = tt
any-NotIn ref (other ∷ seen) h =
    (ground (arith, h, ==_iff other ref), any-NotIn ref seen (ground (arith, h)))

accept_ref :
    (seen : List String) (user : UserRecord) (users : List UserRecord)
    → reject_refs seen (user ∷ users) ≡ ok tt
    → (reject_refs (user.user_ref ∷ seen) users ≡ ok tt)
      × (user.user_ref ≢ "")
      × (any (λ other. other == user.user_ref) seen ≡ false)
unfolding reject_refs
accept_ref seen user users h = ground (arith, h, ==_iff user.user_ref "")

pub reject_refs-IsValid :
    (seen : List String) (users : List UserRecord)
    → reject_refs seen users ≡ ok tt
    → IsValid users × All (λ user. NotIn user.user_ref seen) users
reject_refs-IsValid seen [] h = (tt, tt)
reject_refs-IsValid seen (user ∷ users) h =
    let (rest, named, new) = accept_ref seen user users h in
    let (valid, others) = reject_refs-IsValid (user.user_ref ∷ seen) users rest in
    (
      (named, All-map (λ other p. p.0) users others, valid),
      (any-NotIn user.user_ref seen new, All-map (λ other p. p.1) users others),
    )

in-any :
    (ref : String) (seen : List String) → any (λ other. other == ref) seen ≡ true → ¬ NotIn ref seen
in-any ref [] h = λ n. cc
in-any ref (other ∷ seen) h = λ (n, ns). elim (Bool-cases (other == ref)) [
  | inl e ↦ n ((==_iff other ref).0 e)
  | inr e ↦ in-any ref seen (ground (arith, h, e)) ns
]

newer :
    (ref : String) (seen : List String) (users : List UserRecord)
    → All (λ other. ref ≢ other.user_ref) users
    → All (λ user. NotIn user.user_ref seen) users
    → All (λ user. NotIn user.user_ref (ref ∷ seen)) users
newer ref seen [] h g = tt
newer ref seen (user ∷ users) (p, h) (q, g) = ((p, q), newer ref seen users h g)

refused_ref :
    (seen : List String) (user : UserRecord) (users : List UserRecord) (e : Raised)
    → reject_refs seen (user ∷ users) ≡ err e
    → user.user_ref ≢ ""
    → any (λ other. other == user.user_ref) seen ≡ false
    → reject_refs (user.user_ref ∷ seen) users ≡ err e
unfolding reject_refs
refused_ref seen user users e h named new = ground (arith, h, named, new, ==_iff user.user_ref "")

-- and no others: users that are refused are not valid, or one of them was seen before
refused_from :
    (seen : List String) (users : List UserRecord) (e : Raised)
    → reject_refs seen users ≡ err e
    → IsValid users
    → All (λ user. NotIn user.user_ref seen) users
    → ⊥
unfolding reject_refs
refused_from seen [] e h v n = cc
refused_from seen (user ∷ users) e h (named, others, valid) (new, news) =
    elim (Bool-cases (any (λ other. other == user.user_ref) seen)) [
      | inl a ↦ in-any user.user_ref seen a new
      | inr a ↦
          refused_from (user.user_ref ∷ seen) users e (refused_ref seen user users e h named a)
            valid (newer user.user_ref seen users others news)
    ]

unseen : (users : List UserRecord) → All (λ user. NotIn user.user_ref []) users
unseen [] = tt
unseen (user ∷ users) = (tt, unseen users)

pub refused-not-IsValid :
    (users : List UserRecord) (e : Raised) → reject_refs [] users ≡ err e → ¬ IsValid users
refused-not-IsValid users e h = λ valid. refused_from [] users e h valid (unseen users)
