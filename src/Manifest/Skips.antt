-- ===== src/Manifest/Skips.antt =====
-- backend/enterprise_platform/easyauth/manifest_sync.py: which runs of `sync_manifest` the stored state
-- makes unnecessary.
use easy_frame.Prelude.{
  some-injective, String, Bool, true, false, Option, none, some, [], ◌∷◌, ◌==◌, ==_refl, string_eq,
  nat_eq, option_eq, ◌≡◌, refl, subst, inl, inr, Bool-cases, if◌then◌else◌, arith,
}
use easy_frame.Prelude.Dict.{lookup, insert, lookup-insert}
use easy_frame.Manifest.Json.{pos, Json, int, text, or_null, get}
use easy_frame.Manifest.Recorded.{
  State, Target, Ops, destination_base, destination_app, matches, same_destination, same_rejected,
  same_422, recorded, is_current, should_skip, accepted_version,
}
use easy_frame.Manifest.Exchange.{Prepared, Kind, accepted, failed, retryable, Attempt}
use easy_frame.Manifest.Sync.{
  ok_payload, mark_422, mark_rejected, failed_payload, failure_422, saved_state,
}

-- Stripping the parts of a target a second time changes nothing.
abbrev pub IsClean : Ops → Target → Type 0
IsClean ops target =
    (ops.rstrip_slash (ops.strip (destination_base ops target)) ≡ destination_base ops target)
    × (ops.strip (destination_app ops target) ≡ destination_app ops target)

if-or_null :
    (b : Bool) (value : Json) (o : Option Json)
    → or_null (if b then some value else o) ≡ (if b then value else or_null o)
if-or_null true value o = refl
if-or_null false value o = refl

get-insert :
    (key j : String) (value : Json) (state : State)
    → get key (insert j value state) ≡ (if j == key then value else get key state)
unfolding get
get-insert key j value state =
    rw (get, lookup-insert j key value state) (if-or_null (j == key) value (lookup key state))

-- What is under a key once a 422 has been recorded beside an accepted state.
pub get-marked :
    (now key : String) (prepared : Prepared) (previous : State)
    → get key (mark_422 now (mark_rejected prepared previous)) ≡ (
        if "synced_at" == key
        then text now
        else if "http_status" == key
        then int (pos 422)
        else if "rejected_app_key" == key
        then text prepared.app_key
        else if "rejected_base_url" == key
        then text prepared.base_url
        else if "rejected_hash" == key
        then text prepared.content_hash
        else get key previous)
unfolding mark_422 mark_rejected
get-marked now key prepared previous =
    let s1 : State = insert "rejected_hash" (text prepared.content_hash) previous in
    let s2 : State = insert "rejected_base_url" (text prepared.base_url) s1 in
    let s3 : State = insert "rejected_app_key" (text prepared.app_key) s2 in
    let s4 : State = insert "http_status" (int (pos 422)) s3 in
    rw
      (
        get-insert key "synced_at" (text now) s4,
        get-insert key "http_status" (int (pos 422)) s3,
        get-insert key "rejected_app_key" (text prepared.app_key) s2,
        get-insert key "rejected_base_url" (text prepared.base_url) s1,
        get-insert key "rejected_hash" (text prepared.content_hash) previous,
      )
      refl

-- a state that is stored for this target and content
abbrev IsFor : Ops → Target → String → Prepared → Type 0
IsFor ops target digest prepared =
    (prepared.content_hash ≡ digest)
    × (prepared.base_url ≡ destination_base ops target)
    × (prepared.app_key ≡ destination_app ops target)

module _ (ops : Ops) (target : Target) (digest : String) (prepared : Prepared)
    (clean : IsClean ops target) (own : IsFor ops target digest prepared) where
  matches-own : matches ops (text prepared.base_url) (text prepared.app_key) target ≡ true
  unfolding matches
  matches-own =
      rw
        (
          own.1,
          own.2,
          clean.0,
          clean.1,
          ==_refl (destination_base ops target),
          ==_refl (destination_app ops target),
        )
        refl

  ok_payload-current :
      (now : String) (attempt : Attempt)
      → is_current ops (ok_payload now prepared attempt) digest target ≡ true
  unfolding is_current ok_payload get lookup same_destination
  ok_payload-current now attempt = rw (matches-own, own.0, ==_refl digest) refl

  failed_payload-rejected :
      (now : String) → same_422 ops (mark_422 now (failed_payload prepared)) digest target ≡ true
  unfolding same_422 same_rejected mark_422 failed_payload get lookup insert same_destination
  failed_payload-rejected now = rw (matches-own, own.0, ==_refl digest) refl

  mark_rejected-rejected :
      (now : String) (previous : State)
      → same_422 ops (mark_422 now (mark_rejected prepared previous)) digest target ≡ true
  unfolding same_422 same_rejected
  mark_rejected-rejected now previous =
      rw
        (
          get-marked now "http_status" prepared previous,
          get-marked now "rejected_hash" prepared previous,
          same_rejected,
          get-marked now "rejected_base_url" prepared previous,
          get-marked now "rejected_app_key" prepared previous,
          matches-own,
          own.0,
          ==_refl digest,
        )
        refl

  failure_422-rejected :
      (now : String) (previous : Option State)
      → same_422 ops (failure_422 now previous prepared) digest target ≡ true
  unfolding failure_422
  failure_422-rejected now none = failed_payload-rejected now
  failure_422-rejected now (some previous) =
      elim (Bool-cases (accepted_version (some previous) == none)) [
        | inl new ↦ rw new (failed_payload-rejected now)
        | inr old ↦ rw old (mark_rejected-rejected now previous)
      ]

recorded-insert :
    (ops : Ops) (key : String) (value : Json) (state : State)
    → recorded ops (some (insert key value state)) ≡ some (insert key value state)
unfolding recorded insert
recorded-insert ops key value [] = refl
recorded-insert ops key value ((j, w) ∷ state) = ground (arith, j == key)

recorded-mark_422 :
    (ops : Ops) (now : String) (payload : State)
    → recorded ops (some (mark_422 now payload)) ≡ some (mark_422 now payload)
unfolding mark_422
recorded-mark_422 ops now payload =
    recorded-insert ops "synced_at" (text now) (insert "http_status" (int (pos 422)) payload)

recorded-failure :
    (ops : Ops) (now : String) (previous : Option State) (prepared : Prepared)
    → recorded ops (some (failure_422 now previous prepared))
      ≡ some (failure_422 now previous prepared)
unfolding failure_422
recorded-failure ops now none prepared = recorded-mark_422 ops now (failed_payload prepared)
recorded-failure ops now (some previous) prepared =
    elim (Bool-cases (accepted_version (some previous) == none)) [
      | inl new ↦ rw new (recorded-mark_422 ops now (failed_payload prepared))
      | inr old ↦ rw old (recorded-mark_422 ops now (mark_rejected prepared previous))
    ]

module _ (ops : Ops) (target : Target) (digest now : String) (prepared : Prepared)
    (attempt : Attempt) where
  abbrev Skips : State → Type 0
  Skips state = should_skip ops (recorded ops (some state)) digest target false ≡ true

  ok_payload-Skips :
      IsClean ops target
      → IsFor ops target digest prepared
      → Skips (ok_payload now prepared attempt)
  unfolding should_skip recorded ok_payload
  ok_payload-Skips clean own =
      rw (ok_payload-current ops target digest prepared clean own now attempt) refl

  failure_422-Skips :
      (previous : Option State)
      → IsClean ops target
      → IsFor ops target digest prepared
      → Skips (failure_422 now previous prepared)
  unfolding should_skip
  failure_422-Skips previous clean own =
      rw
        (
          recorded-failure ops now previous prepared,
          failure_422-rejected ops target digest prepared clean own now previous,
        )
        refl

  -- Whatever is saved for a target and a content makes the next run for them needless.
  pub saved-Skips :
      (previous : Option State) (kind : Kind) (state : State)
      → IsClean ops target
      → IsFor ops target digest prepared
      → saved_state now previous prepared attempt kind ≡ some state
      → Skips state
  unfolding saved_state
  saved-Skips previous accepted state clean own e =
      subst Skips (some-injective e) (ok_payload-Skips clean own)
  saved-Skips previous retryable state clean own e = cc
  saved-Skips previous failed state clean own e =
      elim (Bool-cases (attempt.http_status == some 422)) [
        | inl rejected ↦
            subst Skips (some-injective (ground (arith, e, rejected)))
              (failure_422-Skips previous clean own)
        | inr other ↦ ground (arith, e, other)
      ]
