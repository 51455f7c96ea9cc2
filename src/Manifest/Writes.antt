-- ===== src/Manifest/Writes.antt =====
-- backend/enterprise_platform/easyauth/manifest_sync.py: what runs of `sync_manifest` send and save.
use easy_frame.Prelude.{
  some-injective, ℕ, ◌≤◌, String, Bool, true, false, Option, none, some, List, [], ◌==◌, string_eq,
  nat_eq, option_eq, ◌≡◌, refl, sym, ap, ◌∙◌, subst, inl, inr, Bool-cases, length, All, All-map,
  arith,
}
use easy_frame.Prelude.Dict.{lookup}
use easy_frame.Prelude.Result.{Result, ok, err}
use easy_frame.Manifest.Json.{get}
use easy_frame.Manifest.Recorded.{
  State, Document, Target, Ops, content, manifest_content_hash, recorded, should_skip, is_current,
  same_destination, accepted_version, next_schema_version,
}
use easy_frame.Manifest.Exchange.{
  Prepared, Body, Response, HttpError, Kind, accepted, failed, retryable, Attempt,
}
use easy_frame.Manifest.Sync.{
  Outcome, prepare, ok_payload, mark_422, mark_rejected, failure_422, saved_state, to_result,
  is_accepted, skipped_result, deferral, conclude, push, sync_manifest,
}
use easy_frame.Manifest.Costs.{content-with_version}
use easy_frame.Manifest.Posts.{Carries}
use easy_frame.Manifest.Attempts.{Pushed, push-Pushed}
use easy_frame.Manifest.Versions.{next_schema_version-positive}
use easy_frame.Manifest.Skips.{IsClean, saved-Skips, get-marked}
use easy_frame.Manifest.Concluded.{Concluded, skips, attempts, raises, sync_manifest-Concluded, If}

module _ (ops : Ops) (now : String) (connect : Target → Result HttpError Unit)
    (answer : Body → List Body → Result HttpError Response) where
  abbrev SavesNeedless : Target → Document → Outcome → Type 0
  SavesNeedless target manifest outcome =
      (state : State)
      → outcome.saved ≡ some state
      → should_skip ops (recorded ops (some state)) (manifest_content_hash ops manifest) target
          false
        ≡ true

  Concluded-SavesNeedless :
      (target : Target) (manifest : Document) (state : Option State)
      {r : List Body × Result HttpError Outcome}
      → IsClean ops target
      → Concluded ops now connect answer target manifest state r
      → If ops now connect answer (SavesNeedless target manifest) r
  unfolding conclude prepare
  Concluded-SavesNeedless target manifest state clean (skips outcome s u' n d) =
      λ saved e. ground (arith, n, e)
  Concluded-SavesNeedless target manifest state clean (attempts prepared posts attempt p e) =
      λ saved s.
        saved-Skips ops target (manifest_content_hash ops manifest) now prepared attempt state
          attempt.kind saved clean
          (ap (λ x. x.content_hash) p, ap (λ x. x.base_url) p, ap (λ x. x.app_key) p) s
  Concluded-SavesNeedless target manifest state clean (raises prepared posts e p q) = tt

  abbrev KeepsAccepted : Option State → Outcome → Type 0
  KeepsAccepted none outcome = Unit
  KeepsAccepted (some previous) outcome =
      outcome.result.pushed ≡ false
      → (state : State) → outcome.saved ≡ some state
      → (accepted : ℕ) → accepted_version (some previous) ≡ some accepted
      → (accepted_version (some state) ≡ some accepted)
        × ((digest : String) (target : Target)
            → is_current ops state digest target ≡ is_current ops previous digest target)

  marked-keeps :
      (prepared : Prepared) (previous : State)
      → (accepted_version (some (mark_422 now (mark_rejected prepared previous)))
          ≡ accepted_version (some previous))
        × ((digest : String) (target : Target)
            → is_current ops (mark_422 now (mark_rejected prepared previous)) digest target
              ≡ is_current ops previous digest target)
  unfolding accepted_version is_current same_destination
  marked-keeps prepared previous = (
    rw
        (
          get-marked now "status" prepared previous,
          get-marked now "schema_version" prepared previous,
        )
        refl,
    λ digest target.
        rw
          (
            is_current,
            get-marked now "status" prepared previous,
            get-marked now "content_hash" prepared previous,
            same_destination,
            get-marked now "base_url" prepared previous,
            get-marked now "app_key" prepared previous,
          )
          refl,
  )

  saved-keeps :
      (prepared : Prepared) (attempt : Attempt) (kind : Kind) (previous state : State) (version : ℕ)
      → is_accepted kind ≡ false
      → saved_state now (some previous) prepared attempt kind ≡ some state
      → accepted_version (some previous) ≡ some version
      → state ≡ mark_422 now (mark_rejected prepared previous)
  unfolding saved_state failure_422
  saved-keeps prepared attempt accepted previous state version n e a = ground (arith, n)
  saved-keeps prepared attempt retryable previous state version n e a = cc
  saved-keeps prepared attempt failed previous state version n e a =
      elim (Bool-cases (attempt.http_status == some 422)) [
        | inl rejected ↦ sym (some-injective (ground (arith, e, rejected, a)))
        | inr other ↦ ground (arith, e, other)
      ]

  Concluded-KeepsAccepted :
      (target : Target) (manifest : Document) (state : Option State)
      {r : List Body × Result HttpError Outcome}
      → Concluded ops now connect answer target manifest state r
      → If ops now connect answer (KeepsAccepted state) r
  unfolding conclude to_result
  Concluded-KeepsAccepted target manifest none (skips outcome s u' n d) = tt
  Concluded-KeepsAccepted target manifest none (attempts prepared posts attempt p e) = tt
  Concluded-KeepsAccepted target manifest none (raises prepared posts e p q) = tt
  Concluded-KeepsAccepted target manifest (some previous) (skips outcome s u' n d) =
      λ u saved e. ground (arith, n, e)
  Concluded-KeepsAccepted target manifest (some previous) (attempts prepared posts attempt p e) =
      λ u saved s version a.
        let same : saved ≡ mark_422 now (mark_rejected prepared previous) =
          saved-keeps prepared attempt attempt.kind previous saved version u s a in
        let (v, c) = marked-keeps prepared previous in
        (
          ap (λ x. accepted_version (some x)) same ∙ v ∙ a,
          λ digest target'. ap (λ x. is_current ops x digest target') same ∙ c digest target',
        )
  Concluded-KeepsAccepted target manifest (some previous) (raises prepared posts e p q) = tt

  prepared-positive :
      (target : Target) (manifest : Document) (state : Option State) (prepared : Prepared)
      → prepared ≡ prepare ops target manifest state (manifest_content_hash ops manifest)
      → 1 ≤ prepared.schema_version
  unfolding prepare
  prepared-positive target manifest state prepared p =
      subst (λ version. 1 ≤ version) (sym (ap (λ x. x.schema_version) p))
        (next_schema_version-positive manifest state (manifest_content_hash ops manifest))

  few_pushes :
      (target : Target) (manifest : Document) (state : Option State) (prepared : Prepared)
      (r : List Body × Result HttpError Attempt)
      → prepared ≡ prepare ops target manifest state (manifest_content_hash ops manifest)
      → r ≡ push ops now connect answer prepared
      → Pushed ops now connect answer prepared r
  few_pushes target manifest state prepared r p e =
      subst (Pushed ops now connect answer prepared) (sym e) (
        push-Pushed ops now connect answer prepared
          (prepared-positive target manifest state prepared p))

  prepared-content :
      (target : Target) (manifest : Document) (state : Option State) (prepared : Prepared)
      → prepared ≡ prepare ops target manifest state (manifest_content_hash ops manifest)
      → content ops prepared.manifest ≡ content ops manifest
  unfolding prepare
  prepared-content target manifest state prepared p =
      ap (λ x. content ops x.manifest) p
      ∙ content-with_version ops manifest
          (next_schema_version manifest state (manifest_content_hash ops manifest))

  abbrev FewPosts : Document → List Body → Type 0
  FewPosts manifest posts = All (Carries ops manifest) posts × (length posts ≤ 4)

  recarried :
      (target : Target) (manifest : Document) (state : Option State) (prepared : Prepared)
      (posts : List Body)
      → prepared ≡ prepare ops target manifest state (manifest_content_hash ops manifest)
      → All (Carries ops prepared.manifest) posts
      → All (Carries ops manifest) posts
  recarried target manifest state prepared posts p h =
      All-map (λ body c. c ∙ prepared-content target manifest state prepared p) posts h

  Concluded-FewPosts :
      (target : Target) (manifest : Document) (state : Option State)
      {r : List Body × Result HttpError Outcome}
      → Concluded ops now connect answer target manifest state r
      → FewPosts manifest r.0
  Concluded-FewPosts target manifest state (skips outcome s u' n d) = (tt, omega arith)
  Concluded-FewPosts target manifest state (attempts prepared posts attempt p e) =
      let (c, l, q) = few_pushes target manifest state prepared (posts, ok attempt) p e in
      (recarried target manifest state prepared posts p c, l)
  Concluded-FewPosts target manifest state (raises prepared posts e p q) =
      let (c, l) = few_pushes target manifest state prepared (posts, err e) p q in
      (recarried target manifest state prepared posts p c, l)

  abbrev SavesAccepted : Outcome → Type 0
  SavesAccepted outcome =
      outcome.result.pushed ≡ true
      → (state : State) × (outcome.saved ≡ some state)
        × (accepted_version (some state) ≡ outcome.result.schema_version)
        × (outcome.deferred ≡ none)

  accepted-saves :
      (previous : Option State) (prepared : Prepared) (attempt : Attempt) (kind : Kind)
      → 1 ≤ attempt.schema_version
      → is_accepted kind ≡ true
      → (state : State) × (saved_state now previous prepared attempt kind ≡ some state)
        × (accepted_version (some state) ≡ some attempt.schema_version)
        × (deferral attempt kind ≡ none)
  unfolding saved_state deferral ok_payload accepted_version get lookup
  accepted-saves previous prepared attempt accepted p u =
      (ok_payload now prepared attempt, refl, ground arith, refl)
  accepted-saves previous prepared attempt failed p u = ground (arith, u)
  accepted-saves previous prepared attempt retryable p u = ground (arith, u)

  Concluded-SavesAccepted :
      (target : Target) (manifest : Document) (state : Option State)
      {r : List Body × Result HttpError Outcome}
      → Concluded ops now connect answer target manifest state r
      → If ops now connect answer SavesAccepted r
  unfolding conclude to_result
  Concluded-SavesAccepted target manifest state (skips outcome s u' n d) =
      λ u. ground (arith, u, u')
  Concluded-SavesAccepted target manifest state (attempts prepared posts attempt p e) =
      let (c, l, q) = few_pushes target manifest state prepared (posts, ok attempt) p e in
      λ u. accepted-saves state prepared attempt attempt.kind q u
  Concluded-SavesAccepted target manifest state (raises prepared posts e p q) = tt

  -- Whatever EasyAuth answers, one run of `sync_manifest` makes at most four requests, and each carries
  -- the manifest that was given, in whichever version.
  pub sync_manifest-posts :
      (target : Target) (manifest : Document) (loaded : Option State) (force : Bool)
      → let posts = (sync_manifest ops now connect answer target manifest loaded force).0 in
        All (Carries ops manifest) posts × (length posts ≤ 4)
  sync_manifest-posts target manifest loaded force =
      Concluded-FewPosts target manifest (recorded ops loaded)
        (sync_manifest-Concluded ops now connect answer target manifest loaded force)

  -- When EasyAuth has accepted a push, a state is saved, the version that it records as accepted is the
  -- one that the result reports, and no run is put off.
  pub pushed_is_recorded :
      (target : Target) (manifest : Document) (loaded : Option State) (force : Bool)
      (posts : List Body) (outcome : Outcome)
      → sync_manifest ops now connect answer target manifest loaded force ≡ (posts, ok outcome)
      → outcome.result.pushed ≡ true
      → (state : State) × (outcome.saved ≡ some state)
        × (accepted_version (some state) ≡ outcome.result.schema_version)
        × (outcome.deferred ≡ none)
  pushed_is_recorded target manifest loaded force posts outcome e =
      subst (If ops now connect answer SavesAccepted) e (
        Concluded-SavesAccepted target manifest (recorded ops loaded)
          (sync_manifest-Concluded ops now connect answer target manifest loaded force))

  -- A run that EasyAuth has not accepted, where it had accepted a version before, leaves that version
  -- in what it saves, if it saves anything; and what was up to date before still is.
  pub refusal_keeps_accepted :
      (target : Target) (manifest : Document) (loaded : Option State) (force : Bool)
      (posts : List Body) (outcome : Outcome) (previous state : State) (accepted : ℕ)
      → sync_manifest ops now connect answer target manifest loaded force ≡ (posts, ok outcome)
      → recorded ops loaded ≡ some previous
      → outcome.result.pushed ≡ false
      → outcome.saved ≡ some state
      → accepted_version (some previous) ≡ some accepted
      → (accepted_version (some state) ≡ some accepted)
        × ((digest : String) (target : Target)
            → is_current ops state digest target ≡ is_current ops previous digest target)
  refusal_keeps_accepted target manifest loaded force posts outcome previous state version e l u s
        a =
      let kept : If ops now connect answer (KeepsAccepted (recorded ops loaded))
          (posts, ok outcome) =
        subst (If ops now connect answer (KeepsAccepted (recorded ops loaded))) e (
          Concluded-KeepsAccepted target manifest (recorded ops loaded)
            (sync_manifest-Concluded ops now connect answer target manifest loaded force)) in
      subst (λ state. KeepsAccepted state outcome) l kept u state s version a

-- the same run, for what a run before has saved
module _ (ops : Ops) (now later : String) (connect reconnect : Target → Result HttpError Unit)
    (answer reply : Body → List Body → Result HttpError Response) where
  -- Whatever a run saves, be it an acceptance or a refusal with 422: the next run for the same manifest
  -- and target, not forced, makes no request and saves nothing, whatever EasyAuth would answer by then;
  -- if stripping the target's parts a second time changes nothing.
  pub saved_needs_no_run :
      (target : Target) (manifest : Document) (loaded : Option State) (force : Bool)
      (posts : List Body) (outcome : Outcome) (state : State)
      → IsClean ops target
      → sync_manifest ops now connect answer target manifest loaded force ≡ (posts, ok outcome)
      → outcome.saved ≡ some state
      → sync_manifest ops later reconnect reply target manifest (some state) false ≡ (
        [],
        ok (record {
          result = skipped_result (manifest_content_hash ops manifest) (recorded ops (some state));
          saved = none;
          deferred = none;
        }),
      )
  unfolding sync_manifest
  saved_needs_no_run target manifest loaded force posts outcome state clean e s =
      let needless : If ops now connect answer
          (SavesNeedless ops now connect answer target manifest) (posts, ok outcome) =
        subst (If ops now connect answer (SavesNeedless ops now connect answer target manifest)) e (
          Concluded-SavesNeedless ops now connect answer target manifest (recorded ops loaded) clean
            (sync_manifest-Concluded ops now connect answer target manifest loaded force)) in
      rw (needless state s) refl
