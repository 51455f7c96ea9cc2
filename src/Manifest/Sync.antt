-- ===== src/Manifest/Sync.antt =====
-- backend/enterprise_platform/easyauth/manifest_sync.py: `sync_manifest`, with what it stores and whether
-- it asks the scheduler to put a run off; and the credential of backend/enterprise_platform/easyauth/credentials.py.
use easy_frame.Prelude.{
  ℕ, String, Bool, true, false, ◌||◌, Option, none, some, List, [], ◌∷◌, ◌==◌, string_eq, nat_eq,
  option_eq, if◌then◌else◌,
}
use easy_frame.Prelude.Dict.{insert}
use easy_frame.Prelude.Result.{Result, ok, err}
use easy_frame.Prelude.Traced.{raise}
use easy_frame.Manifest.Json.{ℤ, pos, Json, null, int, text}
use easy_frame.Manifest.Recorded.{
  State, Document, Target, Ops, manifest_content_hash, destination_base, destination_app, recorded,
  should_skip, accepted_version, next_schema_version, with_version,
}
use easy_frame.Manifest.Exchange.{
  Prepared, Body, Response, HttpError, transport_error, credential_error, unsafe_url, other_error,
  Kind, accepted, failed, retryable, Attempt, Act, retry_after_fallback, exchange, unsuccessful,
  interpret,
}

pub record SyncResult : Type 0 where
  pub skipped : Bool
  pub pushed : Bool
  pub content_hash : String
  pub schema_version : Option ℕ
  pub status : Option String
  pub already_up_to_date : Option Bool
  pub template_version : Option ℤ
  pub catalog_version : Option ℤ

-- A result, the state that was saved, and the seconds by which the scheduler was asked to put a run off.
pub record Outcome : Type 0 where
  pub result : SyncResult
  pub saved : Option State
  pub deferred : Option ℕ

unfoldable pub prepare : Ops → Target → Document → Option State → String → Prepared
unfolding next_schema_version with_version destination_base destination_app
prepare ops target manifest state digest =
    let version = next_schema_version manifest state digest in
    record {
      target = target;
      manifest = with_version manifest version;
      content_hash = digest;
      schema_version = version;
      base_url = destination_base ops target;
      app_key = destination_app ops target;
    }

-- `resolve_bearer_token` of the static token that `_credential` makes
unfoldable pub resolve_bearer_token : Ops → Target → Result HttpError String
unfolding destination_base destination_app
resolve_bearer_token ops target =
    if ops.strip (destination_base ops target) == ""
      || ops.strip (destination_app ops target) == ""
      || ops.strip target.token == ""
    then err credential_error
    else ok target.token

abbrev pub or_null : Option ℤ → Json
or_null none = null
or_null (some i) = int i

-- `_ok_payload`
unfoldable pub ok_payload : String → Prepared → Attempt → State
ok_payload now prepared attempt =
    ("content_hash", text prepared.content_hash)
    ∷ ("schema_version", int (pos attempt.schema_version))
    ∷ ("status", text "ok")
    ∷ ("base_url", text prepared.base_url)
    ∷ ("app_key", text prepared.app_key)
    ∷ ("template_version", or_null attempt.template_version)
    ∷ ("catalog_version", or_null attempt.catalog_version)
    ∷ ("synced_at", text now)
    ∷ []

unfoldable pub mark_422 : String → State → State
unfolding insert
mark_422 now payload = insert "synced_at" (text now) (insert "http_status" (int (pos 422)) payload)

unfoldable pub mark_rejected : Prepared → State → State
unfolding insert
mark_rejected prepared previous = insert "rejected_app_key" (text prepared.app_key) (
    insert "rejected_base_url" (text prepared.base_url)
      (insert "rejected_hash" (text prepared.content_hash) previous))

unfoldable pub failed_payload : Prepared → State
failed_payload prepared =
    ("content_hash", text prepared.content_hash)
    ∷ ("status", text "failed")
    ∷ ("base_url", text prepared.base_url)
    ∷ ("app_key", text prepared.app_key)
    ∷ []

-- `_failure_422`
unfoldable pub failure_422 : String → Option State → Prepared → State
unfolding accepted_version mark_422 mark_rejected failed_payload
failure_422 now none prepared = mark_422 now (failed_payload prepared)
failure_422 now (some previous) prepared =
    if accepted_version (some previous) == none
    then mark_422 now (failed_payload prepared)
    else mark_422 now (mark_rejected prepared previous)

abbrev pub status_of : Kind → Option String
status_of accepted = some "ok"
status_of failed = some "failed"
status_of retryable = none

abbrev pub is_accepted : Kind → Bool
is_accepted accepted = true
is_accepted failed = false
is_accepted retryable = false

-- `_to_result`
unfoldable pub to_result : Prepared → Attempt → SyncResult
to_result prepared attempt = record {
  skipped = false;
  pushed = is_accepted attempt.kind;
  content_hash = prepared.content_hash;
  schema_version = some attempt.schema_version;
  status = status_of attempt.kind;
  already_up_to_date = attempt.already_up_to_date;
  template_version = attempt.template_version;
  catalog_version = attempt.catalog_version;
}

-- `_skipped`
unfoldable pub skipped_result : String → Option State → SyncResult
unfolding accepted_version
skipped_result digest state = record {
  skipped = true;
  pushed = false;
  content_hash = digest;
  schema_version = accepted_version state;
  status = none;
  already_up_to_date = none;
  template_version = none;
  catalog_version = none;
}

-- what `_commit` saves
unfoldable pub saved_state : String → Option State → Prepared → Attempt → Kind → Option State
unfolding ok_payload failure_422
saved_state now previous prepared attempt accepted = some (ok_payload now prepared attempt)
saved_state now previous prepared attempt retryable = none
saved_state now previous prepared attempt failed =
    if attempt.http_status == some 422 then some (failure_422 now previous prepared) else none

-- the delay that `_commit` hands to `_defer`
unfoldable pub deferral : Attempt → Kind → Option ℕ
deferral attempt accepted = none
deferral attempt failed = none
deferral attempt retryable = attempt.retry_after

-- `_commit`, and the result
unfoldable pub conclude : String → Option State → Prepared → Attempt → Outcome
unfolding saved_state deferral to_result
conclude now previous prepared attempt = record {
  result = to_result prepared attempt;
  saved = saved_state now previous prepared attempt attempt.kind;
  deferred = deferral attempt attempt.kind;
}

module _ (ops : Ops) (now : String) (connect : Target → Result HttpError Unit)
    (answer : Body → List Body → Result HttpError Response) where
  -- the `except` clauses of `_push`
  unfoldable pub caught : Prepared → HttpError → Result HttpError Attempt
  caught prepared transport_error =
      ok (unsuccessful retryable prepared.schema_version none (some retry_after_fallback))
  caught prepared credential_error = ok (unsuccessful retryable prepared.schema_version none none)
  caught prepared unsafe_url = ok (unsuccessful retryable prepared.schema_version none none)
  caught prepared (other_error e) = err (other_error e)

  unfoldable pub attempt_of : Prepared → Result HttpError (Response × ℕ) → Result HttpError Attempt
  unfolding interpret caught
  attempt_of prepared (ok (response, version)) = ok (interpret ops response version)
  attempt_of prepared (err e) = caught prepared e

  -- `EasyAuthHttp(…)`, and then `_exchange`
  unfoldable pub connected :
      Prepared → Result HttpError String → Result HttpError Unit → Act (Response × ℕ)
  unfolding raise exchange
  connected prepared (err e) c = raise e
  connected prepared (ok token) (err e) = raise e
  connected prepared (ok token) (ok _) = exchange ops answer prepared

  -- `_push`
  unfoldable pub push : Prepared → List Body × Result HttpError Attempt
  unfolding resolve_bearer_token connected attempt_of
  push prepared =
      let (posts, r) =
        connected prepared (resolve_bearer_token ops prepared.target) (connect prepared.target)
          [] in
      (posts, attempt_of prepared r)

  unfoldable pub concluded :
      Option State
      → Prepared
      → List Body × Result HttpError Attempt
      → List Body × Result HttpError Outcome
  unfolding conclude
  concluded state prepared (posts, ok attempt) = (posts, ok (conclude now state prepared attempt))
  concluded state prepared (posts, err e) = (posts, err e)

  -- `sync_manifest`, for what the store has loaded
  unfoldable pub sync_manifest :
      Target → Document → Option State → Bool → List Body × Result HttpError Outcome
  unfolding recorded manifest_content_hash should_skip skipped_result prepare push concluded
  sync_manifest target manifest loaded force =
      let state = recorded ops loaded in
      let digest = manifest_content_hash ops manifest in
      if should_skip ops state digest target force
      then ([], ok (record { result = skipped_result digest state; saved = none; deferred = none }))
      else let prepared = prepare ops target manifest state digest in
        concluded state prepared (push prepared)
