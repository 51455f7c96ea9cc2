-- ===== src/Manifest/Tests.antt =====
-- A manifest that EasyAuth accepts, and later another that it refuses.
use easy_frame.Prelude.{
  ◌≤◌, String, true, false, none, some, List, [], ◌∷◌, ◌≡◌, refl, ◌==◌, string_eq, nat_eq, length,
  All, if◌then◌else◌,
}
use easy_frame.Prelude.Dict.{lookup, insert}
use easy_frame.Prelude.Result.{Result, ok}
use easy_frame.Prelude.Traced.{◌>>=◌, pure, call}
use easy_frame.Manifest.Json.{pos, Json, truth, int, text, object, opaque, get}
use easy_frame.Manifest.Recorded.{
  State, Document, Target, Ops, content, manifest_content_hash, destination_base, destination_app,
  recorded, should_skip, is_current, accepted_version, next_schema_version, next_version_of,
  version_after, with_version, same_422, same_destination, matches,
}
use easy_frame.Manifest.Exchange.{
  Prepared, Body, Response, HttpError, accepted, failed, Attempt, https_base_url, request_body,
  post, after_first, send, after_send, exchange, unsuccessful, interpret, attempt_from_json,
  success, version_from_success,
}
use easy_frame.Manifest.Sync.{
  Outcome, prepare, resolve_bearer_token, conclude, saved_state, to_result, ok_payload, failure_422,
  mark_422, mark_rejected, skipped_result, attempt_of, connected, push, concluded, sync_manifest,
}
use easy_frame.Manifest.Posts.{Carries}
use easy_frame.Manifest.Writes.{
  sync_manifest-posts, pushed_is_recorded, refusal_keeps_accepted, saved_needs_no_run,
}

abbrev ops : Ops
ops = record {
  strip = λ s. s;
  rstrip_slash = λ s. s;
  render = λ _. "";
  digest = λ d. if length d == 1 then "h1" else "h2";
  is_https = λ _. true;
  imported = λ _. none;
  decimal = λ _. none;
}

abbrev target : Target
target = record { base_url = "https://a"; app_key = "k"; token = "t"; public_base_url = none }

abbrev old_manifest : Document
old_manifest = ("schema_version", int (pos 3)) ∷ ("app", text "x") ∷ []

abbrev new_manifest : Document
new_manifest = ("app", text "x") ∷ ("scopes", opaque "[]") ∷ []

abbrev payload : String → Json
payload key = if key == "already_up_to_date" then truth false else int (pos 3)

abbrev accept : Body → List Body → Result HttpError Response
accept _ _ =
    ok (record {
      status_code = 200;
      json = some (object payload);
      body_text = "";
      retry_after = none;
    })

abbrev refuse : Body → List Body → Result HttpError Response
refuse _ _ = ok (record { status_code = 422; json = none; body_text = ""; retry_after = none })

abbrev connect : Target → Result HttpError Unit
connect _ = ok tt

abbrev old_prepared : Prepared
old_prepared = record {
  target = target;
  manifest = old_manifest;
  content_hash = "h1";
  schema_version = 3;
  base_url = "https://a";
  app_key = "k";
}

abbrev old_attempt : Attempt
old_attempt = record {
  kind = accepted;
  schema_version = 3;
  already_up_to_date = some false;
  template_version = some (pos 3);
  catalog_version = some (pos 3);
  http_status = none;
  retry_after = none;
}

abbrev pushed : Outcome
unfolding conclude
pushed = conclude "now" none old_prepared old_attempt

pushed-run :
    sync_manifest ops "now" connect accept target old_manifest none false
    ≡ (record { manifest = old_manifest; base_url = none } ∷ [], ok pushed)
unfolding pushed sync_manifest recorded manifest_content_hash content should_skip prepare
    next_schema_version next_version_of with_version insert get lookup destination_base
    destination_app push connected resolve_bearer_token exchange send post request_body
    https_base_url after_first after_send attempt_of interpret attempt_from_json success
    version_from_success concluded conclude ◌>>=◌ pure call
pushed-run = refl

abbrev stored : State
unfolding ok_payload
stored = ok_payload "now" old_prepared old_attempt

abbrev new_prepared : Prepared
new_prepared = record {
  target = target;
  manifest = ("app", text "x") ∷ ("scopes", opaque "[]") ∷ ("schema_version", int (pos 4)) ∷ [];
  content_hash = "h2";
  schema_version = 4;
  base_url = "https://a";
  app_key = "k";
}

abbrev refused : Outcome
unfolding conclude stored
refused = conclude "later" (some stored) new_prepared (unsuccessful failed 4 (some 422) none)

refused-run :
    sync_manifest ops "later" connect refuse target new_manifest (some stored) false
    ≡ (record { manifest = new_prepared.manifest; base_url = none } ∷ [], ok refused)
unfolding refused stored ok_payload sync_manifest recorded manifest_content_hash content should_skip
    same_422 is_current same_destination matches prepare next_schema_version next_version_of
    version_after accepted_version with_version insert get lookup destination_base destination_app
    push connected resolve_bearer_token exchange send post request_body https_base_url after_first
    after_send attempt_of interpret concluded conclude ◌>>=◌ pure call
refused-run = refl

sync_manifest-posts_example :
    All
      (Carries ops old_manifest)
      (sync_manifest ops "now" connect accept target old_manifest none false).0
    × (length (sync_manifest ops "now" connect accept target old_manifest none false).0 ≤ 4)
sync_manifest-posts_example =
    sync_manifest-posts ops "now" connect accept target old_manifest none false

pushed_is_recorded_example :
    (state : State) × (pushed.saved ≡ some state)
    × (accepted_version (some state) ≡ some 3)
    × (pushed.deferred ≡ none)
unfolding pushed conclude to_result
pushed_is_recorded_example =
    pushed_is_recorded ops "now" connect accept target old_manifest none false
      (record { manifest = old_manifest; base_url = none } ∷ []) pushed pushed-run refl

abbrev marked : State
unfolding stored
marked = mark_422 "later" (mark_rejected new_prepared stored)

refusal_keeps_accepted_example :
    (accepted_version (some marked) ≡ some 3)
    × ((digest : String) (target : Target)
        → is_current ops marked digest target ≡ is_current ops stored digest target)
unfolding marked refused conclude to_result saved_state failure_422 stored ok_payload
    accepted_version get lookup recorded
refusal_keeps_accepted_example =
    refusal_keeps_accepted ops "later" connect refuse target new_manifest (some stored) false
      (record { manifest = new_prepared.manifest; base_url = none } ∷ []) refused stored marked 3
      refused-run refl refl refl refl

saved_needs_no_run_example :
    sync_manifest ops "later" connect refuse target old_manifest (some stored) false ≡ (
      [],
      ok (record { result = skipped_result "h1" (some stored); saved = none; deferred = none }),
    )
unfolding stored ok_payload pushed conclude saved_state recorded manifest_content_hash content
    destination_base destination_app
saved_needs_no_run_example =
    saved_needs_no_run ops "now" "later" connect connect accept refuse target old_manifest none
      false (record { manifest = old_manifest; base_url = none } ∷ []) pushed stored (refl, refl)
      pushed-run refl
