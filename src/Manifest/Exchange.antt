-- ===== src/Manifest/Exchange.antt =====
-- backend/enterprise_platform/easyauth/manifest_sync.py: the requests of one synchronisation. What
-- EasyAuth answers may depend on all requests before.
use easy_frame.Prelude.{
  ℕ, ◌+◌, String, Bool, true, false, not, ◌||◌, Option, none, some, List, ◌==◌, string_eq, nat_eq,
  option_eq, leb, if◌then◌else◌,
}
use easy_frame.Prelude.Result.{Result}
use easy_frame.Prelude.Traced
use easy_frame.Prelude.Traced.{◌>>=◌, pure, raise, call}
use easy_frame.Manifest.Json.{ℤ, Json, int, object, positive_int, as_int, as_bool, as_text}
use easy_frame.Manifest.Recorded.{Document, Target, Ops, with_version}

pub record Prepared : Type 0 where
  pub target : Target
  pub manifest : Document
  pub content_hash : String
  pub schema_version : ℕ
  pub base_url : String
  pub app_key : String

pub record Body : Type 0 where
  pub manifest : Document
  pub base_url : Option String

-- `httpx.Response`: its body as JSON, if it is that, and the header `Retry-After`.
pub record Response : Type 0 where
  pub status_code : ℕ
  pub json : Option Json
  pub body_text : String
  pub retry_after : Option String

pub data HttpError : Type 0 where
  transport_error : HttpError
  credential_error : HttpError
  unsafe_url : HttpError
  other_error : String → HttpError

pub data Kind : Type 0 where
  accepted : Kind
  failed : Kind
  retryable : Kind

pub record Attempt : Type 0 where
  pub kind : Kind
  pub schema_version : ℕ
  pub already_up_to_date : Option Bool
  pub template_version : Option ℤ
  pub catalog_version : Option ℤ
  pub http_status : Option ℕ
  pub retry_after : Option ℕ

abbrev pub Act : Type 0 → Type 0
Act = Traced.Act Body HttpError

-- `_RETRY_AFTER_FALLBACK_SECONDS`
abbrev pub retry_after_fallback : ℕ
retry_after_fallback = 60

-- an attempt that EasyAuth has not accepted
abbrev pub unsuccessful : Kind → ℕ → Option ℕ → Option ℕ → Attempt
unsuccessful kind version status retry = record {
  kind = kind;
  schema_version = version;
  already_up_to_date = none;
  template_version = none;
  catalog_version = none;
  http_status = status;
  retry_after = retry;
}

abbrev pub with_sent : ℕ → Response × Bool → Response × ℕ
with_sent version (response, _) = (response, version)

module _ (ops : Ops) where
  unfoldable pub https_base_url : Option String → Option String
  https_base_url none = none
  https_base_url (some raw) =
      let trimmed = ops.rstrip_slash (ops.strip raw) in
      if trimmed == "" || not (ops.is_https trimmed) then none else some trimmed

  unfoldable pub request_body : Document → Option String → Body
  unfolding https_base_url
  request_body manifest public = record { manifest = manifest; base_url = https_base_url public }

  -- `_parse_imported_version`
  unfoldable pub parse_imported_version : Option String → Option ℕ
  parse_imported_version none = none
  parse_imported_version (some detail) = if detail == "" then none else ops.imported detail

  abbrev pub message_of : Json → Option String
  message_of (object error) = as_text (error "message")
  message_of _ = none

  abbrev pub error_in : Json → Option String
  error_in (object body) = message_of (body "error")
  error_in _ = none

  unfoldable pub error_message : Response → Option String
  error_message response = elim response.json [ none ↦ none | some body ↦ error_in body ]

  abbrev pub or_else : Option ℕ → Option ℕ → Option ℕ
  or_else (some n) m = some n
  or_else none m = m

  abbrev pub at_least_one : Option ℕ → Option ℕ
  at_least_one none = none
  at_least_one (some n) = if n == 0 then none else some n

  unfoldable pub downstream_version : Response → Option ℕ
  unfolding error_message parse_imported_version
  downstream_version response = at_least_one (
      or_else (parse_imported_version (error_message response))
        (parse_imported_version (some response.body_text)))

  module _ (answer : Body → List Body → Result HttpError Response) where
    unfoldable pub post : Body → Act Response
    unfolding call
    post body = call body (answer body)

    -- `_Poster.send`, after the first answer
    unfoldable pub after_first : Document → Bool → Body → Response → Act (Response × Bool)
    unfolding ◌>>=◌ pure post
    after_first manifest stripped body response =
        if not (response.status_code == 422) || stripped || body.base_url == none
        then pure (response, stripped)
        else post (record { manifest = manifest; base_url = none }) >>= λ again. pure (again, true)

    -- `_Poster.send`, with the flag `stripped`
    unfoldable pub send : Option String → Document → Bool → Act (Response × Bool)
    unfolding ◌>>=◌ post request_body after_first
    send public manifest stripped =
        let body = request_body manifest (if stripped then none else public) in
        post body >>= after_first manifest stripped body

    -- `poster.send` of the manifest with this version
    unfoldable pub send_version : Prepared → ℕ → Bool → Act (Response × Bool)
    unfolding send with_version
    send_version prepared version stripped =
        send prepared.target.public_base_url (with_version prepared.manifest version) stripped

    -- the last request of `_resolve_conflict`
    unfoldable pub bump : Prepared → ℕ → Bool → Act (Response × ℕ)
    unfolding send_version ◌>>=◌ pure
    bump prepared version stripped =
        send_version prepared version stripped >>= λ sent. pure (with_sent version sent)

    unfoldable pub after_probe : Prepared → ℕ → Response × Bool → Act (Response × ℕ)
    unfolding bump pure
    after_probe prepared latest (probed, stripped) =
        if probed.status_code == 409
        then bump prepared (latest + 1) stripped
        else pure (probed, latest)

    unfoldable pub resolve_conflict : Prepared → Bool → Option ℕ → Act (Response × ℕ)
    unfolding bump after_probe send_version ◌>>=◌
    resolve_conflict prepared stripped none = bump prepared (prepared.schema_version + 1) stripped
    resolve_conflict prepared stripped (some latest) =
        if latest == prepared.schema_version
        then bump prepared (latest + 1) stripped
        else send_version prepared latest stripped >>= after_probe prepared latest

    unfoldable pub after_send : Prepared → Response × Bool → Act (Response × ℕ)
    unfolding pure downstream_version resolve_conflict
    after_send prepared (response, stripped) =
        if response.status_code == 409
        then resolve_conflict prepared stripped (downstream_version response)
        else pure (response, prepared.schema_version)

    -- `_exchange`
    unfoldable pub exchange : Prepared → Act (Response × ℕ)
    unfolding send ◌>>=◌ after_send
    exchange prepared =
        send prepared.target.public_base_url prepared.manifest false >>= after_send prepared

  unfoldable pub retry_after_seconds : Response → ℕ
  retry_after_seconds response = elim response.retry_after [
    | none ↦ retry_after_fallback
    | some raw ↦ elim (ops.decimal (ops.strip raw)) [ none ↦ retry_after_fallback | some n ↦ n ]
  ]

  unfoldable pub version_from_success : Bool → ℤ → ℕ → ℕ
  version_from_success false template sent = sent
  version_from_success true template sent = elim (positive_int (int template)) [
    | none ↦ sent
    | some version ↦ version
  ]

  -- `_outcome`, and the rest of `_attempt_from_success`
  unfoldable pub success : Option Bool → Option ℤ → Option ℤ → ℕ → Attempt
  unfolding version_from_success
  success (some already) (some template) (some catalog) version = record {
    kind = accepted;
    schema_version = version_from_success already template version;
    already_up_to_date = some already;
    template_version = some template;
    catalog_version = some catalog;
    http_status = none;
    retry_after = none;
  }
  success _ _ _ version = unsuccessful retryable version none (some retry_after_fallback)

  unfoldable pub attempt_from_json : Option Json → ℕ → Attempt
  unfolding success
  attempt_from_json (some (object payload)) version =
      success (as_bool (payload "already_up_to_date")) (as_int (payload "template_version"))
        (as_int (payload "catalog_version")) version
  attempt_from_json _ version = unsuccessful retryable version none (some retry_after_fallback)

  unfoldable pub interpret : Response → ℕ → Attempt
  unfolding retry_after_seconds attempt_from_json
  interpret response version =
      let status = response.status_code in
      if leb 400 status
      then if status == 401 || status == 403 || status == 429 || leb 500 status
        then unsuccessful retryable version (some status) (some (retry_after_seconds response))
        else unsuccessful failed version (some status) none
      else attempt_from_json response.json version
