-- ===== src/Manifest/Attempts.antt =====
-- backend/enterprise_platform/easyauth/manifest_sync.py: the requests of `_push`, and the version that
-- its attempt goes by.
use easy_frame.Prelude.{
  ℕ, ◌≤◌, String, Bool, true, false, ◌||◌, Option, none, some, List, [], ◌==◌, string_eq, nat_eq,
  option_eq, inl, inr, Bool-cases, Option-cases, length, leb, All, arith,
}
use easy_frame.Prelude.Result.{Result, ok, err}
use easy_frame.Prelude.Traced.{raise}
use easy_frame.Manifest.Json.{
  ℤ, Json, null, truth, int, text, object, opaque, positive_int, as_bool, as_int,
}
use easy_frame.Manifest.Recorded.{Target, Ops}
use easy_frame.Manifest.Exchange.{
  Prepared, Body, Response, HttpError, transport_error, credential_error, unsafe_url, other_error,
  Attempt, interpret, version_from_success, success, attempt_from_json,
}
use easy_frame.Manifest.Sync.{resolve_bearer_token, caught, attempt_of, connected, push}
use easy_frame.Manifest.Posts.{Carries, Exchanged, exchange-Exchanged}
use easy_frame.Manifest.Versions.{positive_int-positive}

abbrev IsPositive : Attempt → Type 0
IsPositive attempt = 1 ≤ attempt.schema_version

version_from_success-positive :
    (ops : Ops) (already : Bool) (template : ℤ) (sent : ℕ)
    → 1 ≤ sent
    → 1 ≤ version_from_success ops already template sent
unfolding version_from_success
version_from_success-positive ops false template sent p = p
version_from_success-positive ops true template sent p =
    elim (Option-cases (positive_int (int template))) [
      | inl n ↦ rw (version_from_success, n) p
      | inr (v, e) ↦ rw (version_from_success, e) (positive_int-positive (int template) v e)
    ]

success-IsPositive :
    (ops : Ops) (already : Option Bool) (template catalog : Option ℤ) (sent : ℕ)
    → 1 ≤ sent
    → IsPositive (success ops already template catalog sent)
unfolding success
success-IsPositive ops (some a) (some t) (some c) sent p =
    version_from_success-positive ops a t sent p
success-IsPositive ops (some a) (some t) none sent p = p
success-IsPositive ops (some a) none catalog sent p = p
success-IsPositive ops none template catalog sent p = p

attempt_from_json-IsPositive :
    (ops : Ops) (json : Option Json) (sent : ℕ)
    → 1 ≤ sent
    → IsPositive (attempt_from_json ops json sent)
unfolding attempt_from_json
attempt_from_json-IsPositive ops (some (object f)) sent p =
    success-IsPositive ops (as_bool (f "already_up_to_date")) (as_int (f "template_version"))
      (as_int (f "catalog_version")) sent p
attempt_from_json-IsPositive ops (some null) sent p = p
attempt_from_json-IsPositive ops (some (truth b)) sent p = p
attempt_from_json-IsPositive ops (some (int i)) sent p = p
attempt_from_json-IsPositive ops (some (text t)) sent p = p
attempt_from_json-IsPositive ops (some (opaque t)) sent p = p
attempt_from_json-IsPositive ops none sent p = p

interpret-IsPositive :
    (ops : Ops) (response : Response) (sent : ℕ)
    → 1 ≤ sent
    → IsPositive (interpret ops response sent)
unfolding interpret
interpret-IsPositive ops response sent p =
    let status = response.status_code in
    elim (Bool-cases (leb 400 status)) [
      | inl bad ↦
          elim (Bool-cases (status == 401 || status == 403 || status == 429 || leb 500 status)) [
            | inl again ↦ rw (interpret, bad, again) p
            | inr never ↦ rw (interpret, bad, never) p
          ]
      | inr good ↦ rw (interpret, good) (attempt_from_json-IsPositive ops response.json sent p)
    ]

module _ (ops : Ops) (now : String) (connect : Target → Result HttpError Unit)
    (answer : Body → List Body → Result HttpError Response) (prepared : Prepared) where
  -- Of a push: at most four requests, all for the document prepared, and a positive version.
  abbrev pub Pushed : List Body × Result HttpError Attempt → Type 0
  Pushed (posts, ok attempt) =
      All (Carries ops prepared.manifest) posts × (length posts ≤ 4) × (1 ≤ attempt.schema_version)
  Pushed (posts, err e) = All (Carries ops prepared.manifest) posts × (length posts ≤ 4)

  caught-Pushed :
      (posts : List Body) (e : HttpError)
      → 1 ≤ prepared.schema_version
      → All (Carries ops prepared.manifest) posts × (length posts ≤ 4)
      → Pushed (posts, caught ops now connect answer prepared e)
  unfolding caught
  caught-Pushed posts transport_error p (c, l) = (c, l, p)
  caught-Pushed posts credential_error p (c, l) = (c, l, p)
  caught-Pushed posts unsafe_url p (c, l) = (c, l, p)
  caught-Pushed posts (other_error e) p h = h

  attempt_of-Pushed :
      (r : List Body × Result HttpError (Response × ℕ))
      → 1 ≤ prepared.schema_version
      → Exchanged ops prepared r
      → Pushed (r.0, attempt_of ops now connect answer prepared r.1)
  unfolding attempt_of
  attempt_of-Pushed (posts, ok (response, version)) p (c, l, q) =
      (c, l, interpret-IsPositive ops response version q)
  attempt_of-Pushed (posts, err e) p h = caught-Pushed posts e p h

  connected-Exchanged :
      (token : Result HttpError String) (c : Result HttpError Unit)
      → 1 ≤ prepared.schema_version
      → Exchanged ops prepared (connected ops now connect answer prepared token c [])
  unfolding connected raise
  connected-Exchanged (err e) c p = (tt, omega arith)
  connected-Exchanged (ok token) (err e) p = (tt, omega arith)
  connected-Exchanged (ok token) (ok _) p = exchange-Exchanged ops answer prepared [] p

  pub push-Pushed : 1 ≤ prepared.schema_version → Pushed (push ops now connect answer prepared)
  unfolding push
  push-Pushed p =
      attempt_of-Pushed
        (connected ops now connect answer prepared (resolve_bearer_token ops prepared.target)
          (connect prepared.target) [])
        p
        (connected-Exchanged (resolve_bearer_token ops prepared.target) (connect prepared.target) p)
