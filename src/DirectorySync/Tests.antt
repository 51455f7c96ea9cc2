-- ===== src/DirectorySync/Tests.antt =====
-- A directory of two users, one without a login name, and a host that creates both.
use easy_frame.Prelude.{◌≡◌, refl, true, false, none, some, [], ◌∷◌}
use easy_frame.Prelude.Result.{ok}
use easy_frame.Prelude.Traced.{◌>>=◌, ◌>>◌, pure, raise, call}
use easy_frame.DirectorySync.Port.{SnapshotRead, Environment}
use easy_frame.DirectorySync.Sync.{
  SyncResult, completed, snapshot_result, completed_summary, count_outcome, count_unmapped,
  reject_refs, upsert, upsert_users, finish_projection, project_authoritative, roll_back,
  after_projection, sync_snapshot, after_read, run_directory_sync,
}
use easy_frame.DirectorySync.Runs.{Ran, run-Ran, Counted, completed-counts}

abbrev snapshot : SnapshotRead
snapshot = record {
  users =
      record { user_ref = "u1"; user_id = some "ada"; profile = "" }
      ∷ record { user_ref = "u2"; user_id = none; profile = "" }
      ∷ [];
  snapshot = record { snapshot_id = "s"; complete = true; stale = false; authoritative = true };
}

abbrev host : Environment
host = record {
  decimal = λ _. "?";
  read_answer = λ _. ok snapshot;
  begin_answer = λ _. ok tt;
  upsert_answer = λ _ _. ok "created";
  deactivate_answer = λ _. ok 3;
  commit_answer = λ _. ok tt;
  rollback_answer = λ _. ok tt;
}

abbrev report : SyncResult
report =
    snapshot_result completed 7 snapshot "目录同步完成：上游 ? 人，新建 ?，更新 ?，未变 ?，停用 ?，其中 ? 人无登录标识。"
      (record { created = 2; updated = 0; unchanged = 0; deactivated = 3; unmapped = 1 }) none

host-run : (run_directory_sync host 7 "admin" []).1 ≡ ok report
unfolding completed_summary run_directory_sync after_read sync_snapshot after_projection roll_back
    project_authoritative upsert_users upsert finish_projection reject_refs count_outcome
    count_unmapped ◌>>=◌ ◌>>◌ pure raise call
host-run = refl

run-Ran_example :
    Ran host true (run_directory_sync host 7 "admin" []).0 (run_directory_sync host 7 "admin" []).1
run-Ran_example = run-Ran host 7 "admin"

completed-counts_example : Counted (ok snapshot) report
completed-counts_example = completed-counts host 7 "admin" report host-run refl
