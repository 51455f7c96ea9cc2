-- ===== src/Manifest/Posts.antt =====
-- backend/enterprise_platform/easyauth/manifest_sync.py: which requests one `_exchange` makes.
use easy_frame.Prelude.{
  ℕ, ◌+◌, ◌≤◌, String, Bool, true, false, not, ◌||◌, Option, none, some, List, ◌==◌, string_eq,
  nat_eq, option_eq, ◌≡◌, refl, inl, inr, Bool-cases, length, All, if◌then◌else◌, arith,
}
use easy_frame.Prelude.Result.{Result, ok, err}
use easy_frame.Prelude.Traced.{◌>>=◌, pure, call}
use easy_frame.Manifest.Recorded.{Document, Ops, content, with_version}
use easy_frame.Manifest.Exchange.{
  Prepared, Body, Response, HttpError, Act, request_body, post, after_first, send, with_sent,
  send_version, bump, after_probe, resolve_conflict, after_send, exchange, downstream_version,
  at_least_one, or_else, parse_imported_version, error_message,
}
use easy_frame.Manifest.Costs.{
  content-with_version, Spent, Costs, bind-Costs, weaken-Costs, pure-Costs, answered-Spent,
}

-- What the flag `stripped` leaves to be spent.
abbrev slack_of : Bool → ℕ
slack_of true = 0
slack_of false = 1

abbrev slack : Response × Bool → ℕ
slack (response, stripped) = slack_of stripped

abbrev Any : {A : Type 0} → A → Type 0
Any _ = Unit

-- The request carries the document, in whichever version.
abbrev pub Carries : Ops → Document → Body → Type 0
Carries ops document body = content ops body.manifest ≡ content ops document

module _ (ops : Ops) (answer : Body → List Body → Result HttpError Response)
    (document : Document) where
  abbrev Fits : Body → Type 0
  Fits = Carries ops document

  post-Costs : (body : Body) → Fits body → Costs Fits Any 1 (λ _. 0) (post ops answer body)
  unfolding Costs post call
  post-Costs body p history = answered-Spent Fits body (answer body history) p

  again-Costs :
      (manifest : Document) (test stripped : Bool) (response : Response)
      → content ops manifest ≡ content ops document
      → (stripped ≡ true → test ≡ true)
      → Costs Fits Any (slack_of stripped) slack (
          if test
          then pure (response, stripped)
          else (post ops answer (record { manifest = manifest; base_url = none }) >>= λ again.
              pure (again, true)))
  again-Costs manifest true true response c h =
      pure-Costs Fits Any slack 0 (response, true) tt (omega arith)
  again-Costs manifest true false response c h =
      pure-Costs Fits Any slack 1 (response, false) tt (omega arith)
  again-Costs manifest false true response c h = ground (arith, h refl)
  again-Costs manifest false false response c h =
      bind-Costs Fits Any Any 1 0 (λ _. 0) slack
        (post ops answer (record { manifest = manifest; base_url = none }))
        (λ again. pure (again, true))
        (post-Costs (record { manifest = manifest; base_url = none }) c)
        (λ again _. pure-Costs Fits Any slack 0 (again, true) tt (omega arith))

  after_first-Costs :
      (manifest : Document) (stripped : Bool) (body : Body) (response : Response)
      → content ops manifest ≡ content ops document
      → Costs Fits Any
          (slack_of stripped)
          slack
          (after_first ops answer manifest stripped body response)
  unfolding after_first
  after_first-Costs manifest stripped body response c =
      again-Costs manifest (not (response.status_code == 422) || stripped || body.base_url == none)
        stripped response c (λ t. ground (arith, t))

  send-Costs :
      (public : Option String) (manifest : Document) (stripped : Bool)
      → content ops manifest ≡ content ops document
      → Costs Fits Any (1 + slack_of stripped) slack (send ops answer public manifest stripped)
  unfolding send request_body
  send-Costs public manifest stripped c =
      let body = request_body ops manifest (if stripped then none else public) in
      bind-Costs Fits Any Any 1 (slack_of stripped) (λ _. 0) slack (post ops answer body)
        (after_first ops answer manifest stripped body) (post-Costs body c)
        (λ response _.
          weaken-Costs Fits Any slack (slack_of stripped) (0 + slack_of stripped)
            (after_first ops answer manifest stripped body response) (omega arith)
            (after_first-Costs manifest stripped body response c))

abbrev IsPositive : Response × ℕ → Type 0
IsPositive (response, version) = 1 ≤ version

abbrev nothing_left : Response × ℕ → ℕ
nothing_left _ = 0

module _ (ops : Ops) (answer : Body → List Body → Result HttpError Response)
    (prepared : Prepared) where
  abbrev Spends : (Response × ℕ → Type 0) → ℕ → (Response × ℕ → ℕ) → Act (Response × ℕ) → Type 0
  Spends Q n w m = Costs (Carries ops prepared.manifest) Q n w m

  send_version-Costs :
      (version : ℕ) (stripped : Bool)
      → Costs
          (Carries ops prepared.manifest)
          Any
          (1 + slack_of stripped)
          slack
          (send_version ops answer prepared version stripped)
  unfolding send_version
  send_version-Costs version stripped =
      send-Costs ops answer prepared.manifest prepared.target.public_base_url
        (with_version prepared.manifest version) stripped
        (content-with_version ops prepared.manifest version)

  bump-Costs :
      (version : ℕ) (stripped : Bool)
      → 1 ≤ version
      → Spends IsPositive
          (1 + slack_of stripped)
          nothing_left
          (bump ops answer prepared version stripped)
  unfolding bump
  bump-Costs version stripped positive =
      weaken-Costs (Carries ops prepared.manifest) IsPositive nothing_left
        (1 + slack_of stripped + 0) (1 + slack_of stripped)
        (send_version ops answer prepared version stripped >>= λ sent.
          pure (with_sent version sent))
        (omega arith)
        (bind-Costs (Carries ops prepared.manifest) Any IsPositive (1 + slack_of stripped) 0 slack
          nothing_left (send_version ops answer prepared version stripped)
          (λ sent. pure (with_sent version sent)) (send_version-Costs version stripped)
          (λ sent _.
            pure-Costs (Carries ops prepared.manifest) IsPositive nothing_left (slack sent + 0)
              (with_sent version sent) positive (omega arith)))

  after_probe-Costs :
      (latest : ℕ) (probe : Response × Bool)
      → 1 ≤ latest
      → Spends IsPositive
          (slack probe + 1)
          nothing_left
          (after_probe ops answer prepared latest probe)
  unfolding after_probe
  after_probe-Costs latest (probed, stripped) positive =
      elim (Bool-cases (probed.status_code == 409)) [
        | inl conflict ↦ rw conflict (
            weaken-Costs (Carries ops prepared.manifest) IsPositive nothing_left
              (1 + slack_of stripped) (slack_of stripped + 1)
              (bump ops answer prepared (latest + 1) stripped) (omega arith)
              (bump-Costs (latest + 1) stripped (omega arith)))
        | inr fine ↦ rw fine (
            pure-Costs (Carries ops prepared.manifest) IsPositive nothing_left
              (slack_of stripped + 1) (probed, latest) positive (omega arith))
      ]

  probe-Costs :
      (latest : ℕ) (stripped : Bool)
      → 1 ≤ latest
      → Spends IsPositive (1 + slack_of stripped + 1) nothing_left (
          send_version ops answer prepared latest stripped
          >>= after_probe ops answer prepared latest)
  probe-Costs latest stripped positive =
      bind-Costs (Carries ops prepared.manifest) Any IsPositive (1 + slack_of stripped) 1 slack
        nothing_left (send_version ops answer prepared latest stripped)
        (after_probe ops answer prepared latest) (send_version-Costs latest stripped)
        (λ probe _. after_probe-Costs latest probe positive)

  resolve_conflict-Costs :
      (stripped : Bool) (latest : Option ℕ)
      → ((n : ℕ) → latest ≡ some n → 1 ≤ n)
      → Spends IsPositive
          (slack_of stripped + 2)
          nothing_left
          (resolve_conflict ops answer prepared stripped latest)
  unfolding resolve_conflict
  resolve_conflict-Costs stripped none positive =
      weaken-Costs (Carries ops prepared.manifest) IsPositive nothing_left (1 + slack_of stripped)
        (slack_of stripped + 2) (bump ops answer prepared (prepared.schema_version + 1) stripped)
        (omega arith) (bump-Costs (prepared.schema_version + 1) stripped (omega arith))
  resolve_conflict-Costs stripped (some latest) positive =
      elim (Bool-cases (latest == prepared.schema_version)) [
        | inl same ↦ rw same (
            weaken-Costs (Carries ops prepared.manifest) IsPositive nothing_left
              (1 + slack_of stripped) (slack_of stripped + 2)
              (bump ops answer prepared (latest + 1) stripped) (omega arith)
              (bump-Costs (latest + 1) stripped (omega arith)))
        | inr other ↦ rw other (
            weaken-Costs (Carries ops prepared.manifest) IsPositive nothing_left
              (1 + slack_of stripped + 1) (slack_of stripped + 2)
              (send_version ops answer prepared latest stripped
                >>= after_probe ops answer prepared latest)
              (omega arith) (probe-Costs latest stripped (positive latest refl)))
      ]

  at_least_one-positive : (o : Option ℕ) (n : ℕ) → at_least_one ops o ≡ some n → 1 ≤ n
  at_least_one-positive none n h = cc
  at_least_one-positive (some m) n h = ground (arith, h)

  downstream_positive :
      (response : Response) (n : ℕ) → downstream_version ops response ≡ some n → 1 ≤ n
  unfolding downstream_version
  downstream_positive response n h =
      at_least_one-positive
        (or_else ops (parse_imported_version ops (error_message ops response))
          (parse_imported_version ops (some response.body_text)))
        n h

  after_send-Costs :
      1 ≤ prepared.schema_version
      → (sent : Response × Bool)
      → Spends IsPositive (slack sent + 2) nothing_left (after_send ops answer prepared sent)
  unfolding after_send
  after_send-Costs positive (response, stripped) = elim (Bool-cases (response.status_code == 409)) [
    | inl conflict ↦ rw conflict (
        resolve_conflict-Costs stripped (downstream_version ops response)
          (downstream_positive response))
    | inr fine ↦ rw fine (
        pure-Costs (Carries ops prepared.manifest) IsPositive nothing_left (slack_of stripped + 2)
          (response, prepared.schema_version) positive (omega arith))
  ]

  exchange-Costs :
      1 ≤ prepared.schema_version → Spends IsPositive 4 nothing_left (exchange ops answer prepared)
  unfolding exchange
  exchange-Costs positive =
      bind-Costs (Carries ops prepared.manifest) Any IsPositive 2 2 slack nothing_left
        (send ops answer prepared.target.public_base_url prepared.manifest false)
        (after_send ops answer prepared)
        (send-Costs ops answer prepared.manifest prepared.target.public_base_url prepared.manifest
          false refl)
        (λ sent _. after_send-Costs positive sent)

-- Of an exchange: at most four requests, all of them for the document that was prepared, and the
-- version that the result goes by is positive.
abbrev pub Exchanged : Ops → Prepared → List Body × Result HttpError (Response × ℕ) → Type 0
Exchanged ops prepared (posts, ok (response, version)) =
    All (Carries ops prepared.manifest) posts × (length posts ≤ 4) × (1 ≤ version)
Exchanged ops prepared (posts, err e) =
    All (Carries ops prepared.manifest) posts × (length posts ≤ 4)

Spent-Exchanged :
    (ops : Ops) (prepared : Prepared) (r : List Body × Result HttpError (Response × ℕ))
    → Spent (Carries ops prepared.manifest) IsPositive 4 nothing_left r
    → Exchanged ops prepared r
Spent-Exchanged ops prepared (posts, ok (response, version)) (p, l, q) = (p, omega (arith, l), q)
Spent-Exchanged ops prepared (posts, err e) h = h

pub exchange-Exchanged :
    (ops : Ops) (answer : Body → List Body → Result HttpError Response) (prepared : Prepared)
    (history : List Body)
    → 1 ≤ prepared.schema_version
    → Exchanged ops prepared (exchange ops answer prepared history)
unfolding Costs
exchange-Exchanged ops answer prepared history positive =
    Spent-Exchanged ops prepared (exchange ops answer prepared history)
      (exchange-Costs ops answer prepared positive history)
