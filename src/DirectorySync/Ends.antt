-- ===== src/DirectorySync/Ends.antt =====
-- backend/enterprise_platform/directory_sync.py: how `_project_authoritative` ends.
use easy_frame.Prelude.{List, [], ◌∷◌, Option, ◌≡◌, refl, ◌⊎◌, inl, inr, string_eq, option_eq}
use easy_frame.Prelude.Result.{Result, ok, err}
use easy_frame.Prelude.Traced.{after_act, ◌>>=◌, ◌>>◌, pure, raise, call}
use easy_frame.DirectorySync.Port.{
  UserRecord, SnapshotMeta, Raised, Call, read_full_snapshot, begin, Environment,
}
use easy_frame.DirectorySync.Sync.{
  no_counts, reject_refs, lift, upsert_users, finish_projection, project_authoritative,
}
use easy_frame.DirectorySync.References.{IsValid, reject_refs-IsValid, refused-not-IsValid}
use easy_frame.DirectorySync.Answers.{
  raised_of, Went, Goes, after-Goes, call-Goes, upsert_users-Goes, finish-Goes,
}

-- How a projection comes to its end, after the reading: it starts exactly if the users are valid, and then
-- goes on as long as the host answers.
abbrev pub Ends : Environment → List UserRecord → List Call → Option Raised → Type 0
Ends environment users calls end =
    (IsValid users × Went environment (read_full_snapshot ∷ []) calls end)
    ⊎ ((¬ IsValid users) × (calls ≡ []))

begun-Goes :
    (environment : Environment) (users : List UserRecord) (meta : SnapshotMeta)
    (history : List Call)
    → Goes environment history (
        after_act history
          (after_act history
            (begin meta ∷ [], environment.begin_answer history)
            λ _. upsert_users environment users no_counts)
          (finish_projection environment users))
begun-Goes environment users meta history =
    after-Goes environment history _ _
      (call-Goes environment (begin meta) (environment.begin_answer history) _ history refl
        λ u h. upsert_users-Goes environment users no_counts h)
      (λ counts h. finish-Goes environment users counts h)

checked-Ends :
    (environment : Environment) (users : List UserRecord) (meta : SnapshotMeta)
    (r : Result Raised Unit)
    → reject_refs [] users ≡ r
    → let rest =
        (lift r
            >> call (begin meta) environment.begin_answer
            >> upsert_users environment users no_counts
            >>= finish_projection environment users)
          (read_full_snapshot ∷ []) in
      Ends environment users rest.0 (raised_of rest.1)
unfolding ◌>>=◌ ◌>>◌ pure raise call
checked-Ends environment users meta (ok tt) g = inl (
  (reject_refs-IsValid [] users g).0,
  begun-Goes environment users meta (read_full_snapshot ∷ []),
)
checked-Ends environment users meta (err e) g = inr (refused-not-IsValid users e g, refl)

pub project_authoritative-Ends :
    (environment : Environment) (users : List UserRecord) (meta : SnapshotMeta)
    → let rest = project_authoritative environment users meta (read_full_snapshot ∷ []) in
      Ends environment users rest.0 (raised_of rest.1)
unfolding project_authoritative
project_authoritative-Ends environment users meta =
    checked-Ends environment users meta (reject_refs [] users) refl
