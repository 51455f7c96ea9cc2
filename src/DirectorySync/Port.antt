-- ===== src/DirectorySync/Port.antt =====
-- backend/enterprise_platform/directory_sync.py: the snapshot that the directory sends, and the calls
-- on its reader and on the host's projection. What these answer may depend on every call made before.
use easy_frame.Prelude.{ℕ, String, Bool, Option, List}
use easy_frame.Prelude.Result.{Result}
use easy_frame.Prelude.Traced

-- `DirectoryUserRecord`: its reference, its login name, and the rest, which is only handed on.
pub record UserRecord : Type 0 where
  pub user_ref : String
  pub user_id : Option String
  pub profile : String

pub record SnapshotMeta : Type 0 where
  pub snapshot_id : String
  pub complete : Bool
  pub stale : Bool
  pub authoritative : Bool

pub record SnapshotRead : Type 0 where
  pub users : List UserRecord
  pub snapshot : SnapshotMeta

-- What may be raised: the exceptions of backend/enterprise_platform/easyauth/types.py and credentials.py,
-- and any other one with the name of its type and its text.
pub data Raised : Type 0 where
  drift_error : String → Raised
  access_error : String → Raised
  unavailable_error : String → Raised
  credential_error : String → Raised
  other_error : String → String → Raised

pub data Call : Type 0 where
  read_full_snapshot : Call
  begin : SnapshotMeta → Call
  upsert_user : UserRecord → Call
  deactivate_missing : List String → Call
  commit : Call
  rollback : Call

pub record Environment : Type 0 where
  -- how Python prints a number
  pub decimal : ℕ → String
  pub read_answer : List Call → Result Raised SnapshotRead
  pub begin_answer : List Call → Result Raised Unit
  -- the text that the host returns: it need not be one of the three that its type promises
  pub upsert_answer : UserRecord → List Call → Result Raised String
  pub deactivate_answer : List Call → Result Raised ℕ
  pub commit_answer : List Call → Result Raised Unit
  pub rollback_answer : List Call → Result Raised Unit

abbrev pub Act : Type 0 → Type 0
Act = Traced.Act Call Raised
