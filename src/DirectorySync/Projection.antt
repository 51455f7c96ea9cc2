-- ===== src/DirectorySync/Projection.antt =====
-- backend/enterprise_platform/directory_sync.py: which calls `_project_authoritative` makes.
use easy_frame.Prelude.{ℕ, String, List, [], ◌∷◌, ◌++◌, map, string_eq, option_eq, ◌≡◌, refl}
use easy_frame.Prelude.Result.{Result, ok, err}
use easy_frame.Prelude.Traced.{after_act, ◌>>=◌, ◌>>◌, pure, raise, call}
use easy_frame.DirectorySync.Port.{
  UserRecord, SnapshotMeta, Raised, Call, begin, upsert_user, deactivate_missing, commit,
  Environment,
}
use easy_frame.DirectorySync.Sync.{
  Counts, no_counts, reject_refs, lift, upsert_users, finish_projection, project_authoritative,
}
use easy_frame.DirectorySync.References.{IsValid, reject_refs-IsValid}
use easy_frame.DirectorySync.Loop.{Tally, Looped, partway, through, upsert_users-Looped}

abbrev pub refs : List UserRecord → List String
refs users = map (λ user. user.user_ref) users

-- The calls of a whole projection.
abbrev pub full_projection : List UserRecord → SnapshotMeta → List Call
full_projection users meta =
    begin meta ∷ (map upsert_user users ++ deactivate_missing (refs users) ∷ commit ∷ [])

-- The calls of a projection, with its result: none, or a beginning of the whole projection, of users
-- with distinct references; and the whole of it if it succeeds.
pub data Projected (users : List UserRecord) (meta : SnapshotMeta)
    : List Call → Result Raised Counts → Type 0 where
  refused : {e : Raised} → Projected users meta [] (err e)
  upserting :
      {e : Raised} (done rest : List UserRecord)
      → IsValid users
      → users ≡ done ++ rest
      → Projected users meta (begin meta ∷ map upsert_user done) (err e)
  deactivating :
      {e : Raised}
      → IsValid users
      → Projected users meta
          (begin meta ∷ (map upsert_user users ++ deactivate_missing (refs users) ∷ []))
          (err e)
  committing :
      {e : Raised} → IsValid users → Projected users meta (full_projection users meta) (err e)
  committed :
      (counts : Counts)
      → IsValid users
      → Tally users no_counts counts
      → Projected users meta (full_projection users meta) (ok counts)

module _ (environment : Environment) (users : List UserRecord) (meta : SnapshotMeta)
    (valid : IsValid users) where
  committed-Projected :
      (counts : Counts) (deactivated : ℕ) (history : List Call) (r : Result Raised Unit)
      → Tally users no_counts counts
      → let rest =
          after_act history
            (commit ∷ [], r)
            λ _. pure (record counts { deactivated = deactivated }) in
        Projected users meta
          (begin meta ∷ (map upsert_user users ++ deactivate_missing (refs users) ∷ rest.0))
          rest.1
  unfolding pure
  committed-Projected counts deactivated history (ok tt) t =
      committed (record counts { deactivated = deactivated }) valid t
  committed-Projected counts deactivated history (err e) t = committing valid

  deactivated-Projected :
      (counts : Counts) (history : List Call) (r : Result Raised ℕ)
      → Tally users no_counts counts
      → let rest =
          after_act history
            (deactivate_missing (refs users) ∷ [], r)
            λ deactivated.
              call commit environment.commit_answer
              >> pure (record counts { deactivated = deactivated }) in
        Projected users meta (begin meta ∷ (map upsert_user users ++ rest.0)) rest.1
  unfolding ◌>>◌ call
  deactivated-Projected counts history (ok deactivated) t =
      committed-Projected counts deactivated (history ++ deactivate_missing (refs users) ∷ [])
        (environment.commit_answer (history ++ deactivate_missing (refs users) ∷ [])) t
  deactivated-Projected counts history (err e) t = deactivating valid

  looped-Projected :
      (history : List Call) (calls : List Call) (r : Result Raised Counts)
      → Looped users no_counts calls r
      → let rest =
          after_act history (begin meta ∷ calls, r) (finish_projection environment users) in
        Projected users meta rest.0 rest.1
  unfolding finish_projection ◌>>=◌ call
  looped-Projected history _ _ (partway done rest e) = upserting done rest valid e
  looped-Projected history _ _ (through counts t) =
      let before = history ++ begin meta ∷ map upsert_user users in
      deactivated-Projected counts before (environment.deactivate_answer before) t

  begun-Projected :
      (history : List Call) (r : Result Raised Unit)
      → let rest =
          after_act history
            (after_act history (begin meta ∷ [], r) λ _. upsert_users environment users no_counts)
            (finish_projection environment users) in
        Projected users meta rest.0 rest.1
  begun-Projected history (ok tt) =
      let before = history ++ begin meta ∷ [] in
      looped-Projected history _ _ (upsert_users-Looped environment users no_counts before)
  begun-Projected history (err e) = upserting [] users valid refl

checked-Projected :
    (environment : Environment) (users : List UserRecord) (meta : SnapshotMeta)
    (history : List Call) (r : Result Raised Unit)
    → (r ≡ ok tt → IsValid users)
    → let rest =
        (lift r
            >> call (begin meta) environment.begin_answer
            >> upsert_users environment users no_counts
            >>= finish_projection environment users)
          history in
      Projected users meta rest.0 rest.1
unfolding ◌>>=◌ ◌>>◌ pure raise call
checked-Projected environment users meta history (ok tt) g =
    begun-Projected environment users meta (g refl) history
      (environment.begin_answer (history ++ []))
checked-Projected environment users meta history (err e) g = refused

pub project_authoritative-Projected :
    (environment : Environment) (users : List UserRecord) (meta : SnapshotMeta)
    (history : List Call)
    → let rest = project_authoritative environment users meta history in
      Projected users meta rest.0 rest.1
unfolding project_authoritative
project_authoritative-Projected environment users meta history =
    checked-Projected environment users meta history (reject_refs [] users)
      (λ accepted. (reject_refs-IsValid [] users accepted).0)
