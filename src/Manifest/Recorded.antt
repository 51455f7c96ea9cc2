-- ===== src/Manifest/Recorded.antt =====
-- backend/enterprise_platform/easyauth/manifest_sync.py: what the stored state says before a request.
use easy_frame.Prelude.{
  ℕ, ◌+◌, max, String, Bool, false, not, ◌&&◌, ◌||◌, Option, none, some, [], ◌∷◌, ◌==◌, string_eq,
  nat_eq, filter, if◌then◌else◌,
}
use easy_frame.Prelude.Dict.{Dict, insert}
use easy_frame.Manifest.Json.{Json, int, pos, text, get, is_text, is_nat, positive_int}

abbrev pub State : Type 0
State = Dict String Json

abbrev pub Document : Type 0
Document = Dict String Json

pub record Target : Type 0 where
  pub base_url : String
  pub app_key : String
  pub token : String
  pub public_base_url : Option String

-- What the code takes from Python and its libraries.
pub record Ops : Type 0 where
  pub strip : String → String
  -- `text.rstrip("/")`
  pub rstrip_slash : String → String
  -- `str(value or "")` of a value that is not a text
  pub render : Json → String
  -- the hash of the canonical JSON
  pub digest : Document → String
  -- `urlsplit`: is the scheme https, and is there a host?
  pub is_https : String → Bool
  -- the number in `已导入版本 (N)`, if the text has one
  pub imported : String → Option ℕ
  -- `int(text)` of a text of ASCII digits
  pub decimal : String → Option ℕ

module _ (ops : Ops) where
  unfoldable pub content : Document → Document
  content manifest = filter (λ entry. not (entry.0 == "schema_version")) manifest

  unfoldable pub manifest_content_hash : Document → String
  unfolding content
  manifest_content_hash manifest = ops.digest (content manifest)

  unfoldable pub destination_base : Target → String
  destination_base target = ops.rstrip_slash (ops.strip target.base_url)

  unfoldable pub destination_app : Target → String
  destination_app target = ops.strip target.app_key

  -- `str(value or "")`
  abbrev pub text_of : Json → String
  text_of (text s) = s
  text_of value = ops.render value

  unfoldable pub matches : Json → Json → Target → Bool
  unfolding destination_base destination_app
  matches base app target =
      ops.rstrip_slash (ops.strip (text_of base)) == destination_base target
      && ops.strip (text_of app) == destination_app target

  unfoldable pub same_destination : State → Target → Bool
  unfolding get matches
  same_destination state target = matches (get "base_url" state) (get "app_key" state) target

  -- the test of `_same_422`, for what `rejected_hash` is
  unfoldable pub same_rejected : Json → State → String → Target → Bool
  unfolding get matches same_destination
  same_rejected (text rejected) state digest target =
      rejected == digest
      && matches (get "rejected_base_url" state) (get "rejected_app_key" state) target
  same_rejected _ state digest target =
      is_text (get "content_hash" state) digest && same_destination state target

  unfoldable pub same_422 : State → String → Target → Bool
  unfolding get same_rejected
  same_422 state digest target =
      is_nat (get "http_status" state) 422
      && same_rejected (get "rejected_hash" state) state digest target

  -- `_recorded`, of a state that is a dict or missing
  unfoldable pub recorded : Option State → Option State
  recorded none = none
  recorded (some []) = none
  recorded (some (entry ∷ state)) = some (entry ∷ state)

  unfoldable pub is_current : State → String → Target → Bool
  unfolding get same_destination
  is_current state digest target =
      is_text (get "status" state) "ok"
      && is_text (get "content_hash" state) digest
      && same_destination state target

  unfoldable pub should_skip : Option State → String → Target → Bool → Bool
  unfolding same_422 is_current
  should_skip none digest target force = false
  should_skip (some state) digest target force =
      not force && (same_422 state digest target || is_current state digest target)

-- `_schema_version_floor`
abbrev pub or_one : Option ℕ → ℕ
or_one none = 1
or_one (some n) = n

unfoldable pub accepted_version : Option State → Option ℕ
unfolding get
accepted_version none = none
accepted_version (some state) =
    if is_text (get "status" state) "ok" then positive_int (get "schema_version" state) else none

-- the version after an accepted one
unfoldable pub version_after : ℕ → State → String → Option ℕ → ℕ
unfolding get
version_after local state digest none = local
version_after local state digest (some accepted) =
    if is_text (get "content_hash" state) digest then accepted else max local (accepted + 1)

unfoldable pub next_version_of : ℕ → Option State → String → ℕ
unfolding accepted_version version_after
next_version_of local none digest = local
next_version_of local (some state) digest =
    version_after local state digest (accepted_version (some state))

unfoldable pub next_schema_version : Document → Option State → String → ℕ
unfolding get next_version_of
next_schema_version manifest state digest =
    next_version_of (or_one (positive_int (get "schema_version" manifest))) state digest

unfoldable pub with_version : Document → ℕ → Document
unfolding insert
with_version manifest version = insert "schema_version" (int (pos version)) manifest
