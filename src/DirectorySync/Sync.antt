-- ===== src/DirectorySync/Sync.antt =====
-- backend/enterprise_platform/directory_sync.py: `run_directory_sync`.
use Prim.Native.String.{◌++◌ as ◌<>◌}
use easy_frame.Prelude.{
  ℕ, ◌+◌, String, Bool, false, not, ◌&&◌, Option, none, some, List, [], ◌∷◌, ◌++◌, map, ◌==◌,
  string_eq, option_eq, any, filter, length, if◌then◌else◌,
}
use easy_frame.Prelude.Result.{Result, ok, err}
use easy_frame.Prelude.Traced.{◌>>=◌, ◌>>◌, pure, raise, call}
use easy_frame.DirectorySync.Port.{
  UserRecord, SnapshotMeta, SnapshotRead, Raised, drift_error, access_error, unavailable_error,
  credential_error, other_error, Call, read_full_snapshot, begin, upsert_user, deactivate_missing,
  commit, rollback, Environment, Act,
}

pub data SyncStatus : Type 0 where
  completed : SyncStatus
  not_authoritative : SyncStatus
  drift : SyncStatus
  failed : SyncStatus
  not_configured : SyncStatus

pub record Counts : Type 0 where
  pub created : ℕ
  pub updated : ℕ
  pub unchanged : ℕ
  pub deactivated : ℕ
  pub unmapped : ℕ

pub record SyncResult : Type 0 where
  pub status : SyncStatus
  pub at : ℕ
  pub authoritative : Bool
  pub complete : Bool
  pub stale : Bool
  pub snapshot_id : String
  pub upstream_total : ℕ
  pub counts : Counts
  pub summary : String
  pub error_detail : Option String

abbrev pub is_unmapped : UserRecord → Bool
is_unmapped user = user.user_id == none

-- `_unmapped_count`
unfoldable pub unmapped_count : List UserRecord → ℕ
unmapped_count users = length (filter is_unmapped users)

abbrev pub value_error : String → Raised
value_error text = other_error "ValueError" text

-- the type's name, and the hint that belongs to it
unfoldable pub error_name : Raised → String
error_name (drift_error _) = "DirectorySnapshotDriftError"
error_name (access_error _) = "DirectoryAccessError"
error_name (unavailable_error _) = "DirectoryUnavailableError"
error_name (credential_error _) = "EasyAuthCredentialError"
error_name (other_error name _) = name

-- `_SAFE_ERROR_HINTS_BY_NAME`
unfoldable pub error_hint : String → Option String
error_hint name =
    if name == "DirectorySnapshotDriftError"
    then some "目录快照在读取期间发生变化"
    else if name == "DirectoryAccessError"
    then some "目录拒绝访问"
    else if name == "DirectoryUnavailableError"
    then some "目录暂不可用"
    else if name == "EasyAuthCredentialError"
    then some "EasyAuth 凭据无效或未配置"
    else none

abbrev pub detail_with : String → Option String → String
detail_with name none = name
detail_with name (some hint) = name <> ": " <> hint

-- `_safe_error_detail`
unfoldable pub safe_error_detail : Raised → String
unfolding error_name error_hint
safe_error_detail raised = detail_with (error_name raised) (error_hint (error_name raised))

-- `_reject_duplicate_or_empty_refs`, after the references `seen`
unfoldable pub reject_refs : List String → List UserRecord → Result Raised Unit
reject_refs seen [] = ok tt
reject_refs seen (user ∷ users) =
    let rest = reject_refs (user.user_ref ∷ seen) users in
    if user.user_ref == ""
    then err (value_error "目录用户缺少 user_ref")
    else if any (λ ref. ref == user.user_ref) seen
    then err (value_error ("目录快照含重复 user_ref: " <> user.user_ref))
    else rest

abbrev pub no_counts : Counts
no_counts = record { created = 0; updated = 0; unchanged = 0; deactivated = 0; unmapped = 0 }

-- what one outcome adds to the counts
unfoldable pub count_outcome : String → Counts → Result Raised Counts
count_outcome outcome counts =
    if outcome == "created"
    then ok (record counts { created = counts.created + 1 })
    else if outcome == "updated"
    then ok (record counts { updated = counts.updated + 1 })
    else if outcome == "unchanged"
    then ok (record counts { unchanged = counts.unchanged + 1 })
    else err (value_error ("未知的 upsert 结果: " <> outcome))

unfoldable pub count_unmapped : UserRecord → Counts → Counts
count_unmapped user counts =
    if is_unmapped user then record counts { unmapped = counts.unmapped + 1 } else counts

abbrev pub lift : {A : Type 0} → Result Raised A → Act A
lift (ok a) = pure a
lift (err e) = raise e

abbrev pub counted : Result Raised Counts → UserRecord → Result Raised Counts
unfolding count_unmapped
counted (ok counts) user = ok (count_unmapped user counts)
counted (err e) user = err e

module _ (environment : Environment) where
  unfoldable pub upsert : UserRecord → Act String
  unfolding call
  upsert user = call (upsert_user user) (environment.upsert_answer user)

  -- the loop of `_project_authoritative`
  unfoldable pub upsert_users : List UserRecord → Counts → Act Counts
  unfolding upsert count_outcome ◌>>=◌ pure
  upsert_users [] counts = pure counts
  upsert_users (user ∷ users) counts = upsert user >>= λ outcome.
      lift (counted (count_outcome outcome counts) user) >>= λ next. upsert_users users next

  unfoldable pub finish_projection : List UserRecord → Counts → Act Counts
  unfolding ◌>>=◌ ◌>>◌ pure call
  finish_projection users counts =
      call (deactivate_missing (map (λ user. user.user_ref) users)) environment.deactivate_answer
      >>= λ deactivated.
          call commit environment.commit_answer
          >> pure (record counts { deactivated = deactivated })

  -- `_project_authoritative`
  unfoldable pub project_authoritative : List UserRecord → SnapshotMeta → Act Counts
  unfolding reject_refs ◌>>=◌ ◌>>◌ call upsert_users finish_projection
  project_authoritative users meta =
      lift (reject_refs [] users)
      >> call (begin meta) environment.begin_answer
      >> upsert_users users no_counts
      >>= finish_projection users

-- The result of a run that has read no snapshot: `_result` with its defaults.
abbrev pub bare_result : SyncStatus → ℕ → String → Option String → SyncResult
bare_result status at summary detail = record {
  status = status;
  at = at;
  authoritative = false;
  complete = false;
  stale = false;
  snapshot_id = "";
  upstream_total = 0;
  counts = no_counts;
  summary = summary;
  error_detail = detail;
}

-- the result of a run that has read this snapshot
abbrev pub snapshot_result :
    SyncStatus → ℕ → SnapshotRead → String → Counts → Option String → SyncResult
snapshot_result status at read summary counts detail = record {
  status = status;
  at = at;
  authoritative = read.snapshot.authoritative;
  complete = read.snapshot.complete;
  stale = read.snapshot.stale;
  snapshot_id = read.snapshot.snapshot_id;
  upstream_total = length read.users;
  counts = counts;
  summary = summary;
  error_detail = detail;
}

abbrev pub is_trusted : SnapshotMeta → Bool
is_trusted meta = meta.authoritative && meta.complete && not meta.stale

unfoldable pub completed_summary : (ℕ → String) → ℕ → Counts → String
completed_summary decimal total counts =
    "目录同步完成：上游 "
    <> decimal total
    <> " 人，新建 "
    <> decimal counts.created
    <> "，更新 "
    <> decimal counts.updated
    <> "，未变 "
    <> decimal counts.unchanged
    <> "，停用 "
    <> decimal counts.deactivated
    <> "，其中 "
    <> decimal counts.unmapped
    <> " 人无登录标识。"

abbrev pub untrusted_summary : SnapshotMeta → String
untrusted_summary meta =
    if meta.authoritative
    then "目录快照元数据不一致（声称权威但不完整或已过期），已保留本地用户状态，未写入。"
    else "目录快照非权威（不完整或已过期），已保留本地用户状态，未写入。"

abbrev pub failed_summary : String
failed_summary = "目录同步失败。"

module _ (environment : Environment) (at : ℕ) where
  -- `except Exception`: the host rolls back, and the run reports the failure
  unfoldable pub roll_back : SyncResult → Act SyncResult
  unfolding ◌>>◌ pure call
  roll_back result = call rollback environment.rollback_answer >> pure result

  unfoldable pub after_projection :
      SnapshotRead
      → List Call
      → List Call × Result Raised Counts
      → List Call × Result Raised SyncResult
  unfolding roll_back completed_summary
  after_projection read history (calls, ok counts) =
      let summary = completed_summary environment.decimal (length read.users) counts in
      (calls, ok (snapshot_result completed at read summary counts none))
  after_projection read history (calls, err e) =
      let later =
        roll_back
          (snapshot_result failed at read failed_summary no_counts (some (safe_error_detail e)))
          (history ++ calls) in
      (calls ++ later.0, later.1)

  unfoldable pub sync_snapshot : SnapshotRead → Act SyncResult
  unfolding pure project_authoritative after_projection unmapped_count
  sync_snapshot read history =
      if is_trusted read.snapshot
      then after_projection read history
          (project_authoritative environment read.users read.snapshot history)
      else pure
          (snapshot_result not_authoritative at read (untrusted_summary read.snapshot)
            (record no_counts { unmapped = unmapped_count read.users }) none)
          history

  -- what follows the reading
  unfoldable pub after_read : Result Raised SnapshotRead → Act SyncResult
  unfolding pure roll_back sync_snapshot safe_error_detail
  after_read (ok read) = sync_snapshot read
  after_read (err (drift_error text)) =
      pure (
        bare_result drift at "读取目录时快照发生变化，已中止同步，未写入。" (some (safe_error_detail (drift_error text))))
  after_read (err e) = roll_back (bare_result failed at failed_summary (some (safe_error_detail e)))

  abbrev pub caught : {A : Type 0} → Result Raised A → Result Raised (Result Raised A)
  caught r = ok r

  -- `run_directory_sync`
  unfoldable pub run_directory_sync : String → Act SyncResult
  unfolding raise call ◌>>=◌ after_read
  run_directory_sync actor_id =
      if actor_id == ""
      then raise (value_error "actor_id 不能为空")
      else call read_full_snapshot (λ history. caught (environment.read_answer history))
        >>= after_read
