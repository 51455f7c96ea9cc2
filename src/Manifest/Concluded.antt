-- ===== src/Manifest/Concluded.antt =====
-- backend/enterprise_platform/easyauth/manifest_sync.py: the ways that a run of `sync_manifest` ends.
use easy_frame.Prelude.{
  String, Bool, true, false, Option, none, List, [], string_eq, nat_eq, option_eq, ◌≡◌, refl, inl,
  inr, Bool-cases,
}
use easy_frame.Prelude.Result.{Result, ok, err}
use easy_frame.Manifest.Recorded.{
  State, Document, Target, Ops, manifest_content_hash, recorded, should_skip,
}
use easy_frame.Manifest.Exchange.{Prepared, Body, Response, HttpError, Attempt}
use easy_frame.Manifest.Sync.{
  Outcome, prepare, skipped_result, conclude, push, concluded, sync_manifest,
}

module _ (ops : Ops) (now : String) (connect : Target → Result HttpError Unit)
    (answer : Body → List Body → Result HttpError Response) where
  -- A run is skipped, or it concludes an attempt.
  pub data Concluded (target : Target) (manifest : Document) (state : Option State)
      : List Body × Result HttpError Outcome → Type 0 where
    skips :
        (outcome : Outcome)
        → outcome.result.skipped ≡ true
        → outcome.result.pushed ≡ false
        → outcome.saved ≡ none
        → outcome.deferred ≡ none
        → Concluded target manifest state ([], ok outcome)
    attempts :
        (prepared : Prepared) (posts : List Body) (attempt : Attempt)
        → prepared ≡ prepare ops target manifest state (manifest_content_hash ops manifest)
        → (posts, ok attempt) ≡ push ops now connect answer prepared
        → Concluded target manifest state (posts, ok (conclude now state prepared attempt))
    raises :
        (prepared : Prepared) (posts : List Body) (e : HttpError)
        → prepared ≡ prepare ops target manifest state (manifest_content_hash ops manifest)
        → (posts, err e) ≡ push ops now connect answer prepared
        → Concluded target manifest state (posts, err e)

  concluded-Concluded :
      (target : Target) (manifest : Document) (state : Option State) (prepared : Prepared)
      (r : List Body × Result HttpError Attempt)
      → prepared ≡ prepare ops target manifest state (manifest_content_hash ops manifest)
      → r ≡ push ops now connect answer prepared
      → Concluded target manifest state (concluded ops now connect answer state prepared r)
  unfolding concluded
  concluded-Concluded target manifest state prepared (posts, ok attempt) p e =
      attempts prepared posts attempt p e
  concluded-Concluded target manifest state prepared (posts, err e') p e =
      raises prepared posts e' p e

  pub sync_manifest-Concluded :
      (target : Target) (manifest : Document) (loaded : Option State) (force : Bool)
      → Concluded target manifest
          (recorded ops loaded)
          (sync_manifest ops now connect answer target manifest loaded force)
  unfolding sync_manifest skipped_result
  sync_manifest-Concluded target manifest loaded force =
      let state = recorded ops loaded in
      let digest = manifest_content_hash ops manifest in
      elim (Bool-cases (should_skip ops state digest target force)) [
        | inl s ↦ rw s (skips _ refl refl refl refl)
        | inr go ↦ rw go (
            concluded-Concluded target manifest state (prepare ops target manifest state digest) _
              refl refl)
      ]

  -- what a run's outcome must satisfy, if it has one
  abbrev pub If : (Outcome → Type 0) → List Body × Result HttpError Outcome → Type 0
  If P (posts, ok outcome) = P outcome
  If P (posts, err e) = Unit
