-- ===== src/Outbox/Driver.antt =====
-- backend/enterprise_platform/notification_outbox.py: `process_outbox_once` as a whole.
use easy_frame.Prelude.{
  ℕ, String, Bool, true, false, not, ◌&&◌, ◌==◌, leb, ◌≡◌, refl, Option, some, List, [], ◌∷◌, ◌++◌,
  string_eq, arith, ++-empty,
}
use easy_frame.Prelude.Result.{Result, ok, err, returns}
use easy_frame.Prelude.Traced.{mapped-calls, mapped-returns}
use easy_frame.Outbox.Calls.{
  OutboxItem, Failure, Call, claim_due, Environment, Act, after_act, ◌>>=◌, pure, raise, call_claim,
}
use easy_frame.Outbox.Delivery.{
  lift, require, require_lease_token, Outcome, process_item, process_items, process_outbox_once,
  ProcessSummary,
}
use easy_frame.Outbox.Handling.{
  Handled, done, ended, next, process_item-Makes, Makes, Within, writes,
}
use easy_frame.Outbox.Completion.{Settles, item-Settles}

pub token_of_item :
    (item : OutboxItem) (token : String)
    → require_lease_token item ≡ ok token
    → some token ≡ item.lease_token
unfolding require_lease_token
token_of_item item token h = ground arith

module _ (environment : Environment) (jitter : ℕ → Option ℕ) (now max : ℕ) where
  abbrev rest_of : List OutboxItem → Outcome → Act (List Outcome)
  rest_of items outcome =
      process_items environment jitter now max items >>= λ outcomes. pure (outcome ∷ outcomes)

  abbrev Handles : List OutboxItem → {A : Type 0} → List Call × Result Failure A → Type 0
  Handles items r = Handled now max items r.0 (returns r.1)

  abbrev LoopHandled : List OutboxItem → Type 0
  LoopHandled items =
      (h : List Call) → Handles items (process_items environment jitter now max items h)

  rest-Handled :
      (items : List OutboxItem) (outcome : Outcome) (history : List Call)
      → LoopHandled items
      → Handles items (rest_of items outcome history)
  unfolding ◌>>=◌
  rest-Handled items outcome history g =
      let r = process_items environment jitter now max items history in
      rw
        (
          mapped-calls (λ outcomes. outcome ∷ outcomes) history r,
          mapped-returns (λ outcomes. outcome ∷ outcomes) history r,
        )
        (g history)

  -- the calls of one item, and then those of the others
  item-Handled :
      (item : OutboxItem) (items : List OutboxItem) (history : List Call)
      (r : List Call × Result Failure Outcome)
      → Within now max item 1 1 r.0
      → ((outcome : Outcome) → r.1 ≡ ok outcome → writes r.0 ≡ 1)
      → LoopHandled items
      → Handles (item ∷ items) (after_act history r (rest_of items))
  item-Handled item items history (calls, err e) (p, a, b) w g = ended item items calls p a b
  item-Handled item items history (calls, ok outcome) (p, a, b) w g =
      next item items calls _ p a (w outcome refl) (rest-Handled items outcome (history ++ calls) g)

  token-Handled :
      (item : OutboxItem) (items : List OutboxItem) (r : Result Failure String)
      (f : String → Act (List Outcome)) (history : List Call)
      → ((token : String) → r ≡ ok token → (h : List Call) → Handles (item ∷ items) (f token h))
      → Handles (item ∷ items) ((lift r >>= f) history)
  unfolding ◌>>=◌ lift pure raise
  token-Handled item items (ok token) f history g = g token refl (history ++ [])
  token-Handled item items (err e) f history g = ended item items [] tt (omega arith) (omega arith)

  process_items-Handled : (items : List OutboxItem) → LoopHandled items
  unfolding process_items ◌>>=◌ pure Makes Settles
  process_items-Handled [] history = done
  process_items-Handled (item ∷ items) history =
      token-Handled item items (require_lease_token item) _ history λ token p h.
        item-Handled item items h (process_item environment jitter now max item token h)
          (process_item-Makes now max item environment jitter token (token_of_item item token p) h)
          (item-Settles environment jitter now max item token h) (process_items-Handled items)

-- The calls of a run, and whether it returns: the claim is made exactly if the arguments are in
-- range; if the port answers it with items, the calls that follow serve these items.
pub data Shape (now max : ℕ) (claim : Call) (answer : Result Failure (List OutboxItem))
    : Bool → List Call → Bool → Type 0 where
  refused : Shape now max claim answer false [] false
  unclaimed : {e : Failure} → answer ≡ err e → Shape now max claim answer true (claim ∷ []) false
  served :
      {returned : Bool} (items : List OutboxItem) (later : List Call)
      → answer ≡ ok items
      → Handled now max items later returned
      → Shape now max claim answer true (claim ∷ later) returned

module _ (now max : ℕ) (claim : Call) (environment : Environment) where
  abbrev Shapes : {A : Type 0} → Bool → List Call → List Call × Result Failure A → Type 0
  Shapes in_range history r =
      Shape now max claim (environment.claim history claim) in_range r.0 (returns r.1)

  require-Shape :
      {A : Type 0} (test in_range : Bool) (text : String) (k : Act A)
      → ((h : List Call) → Shapes in_range h (k h))
      → (h : List Call) → Shapes (test && in_range) h ((require test text >>= λ _. k) h)
  unfolding ◌>>=◌ pure raise
  require-Shape true in_range text k g h = rw (++-empty h) (g h)
  require-Shape false in_range text k g h = refused

  claim-Shape :
      (jitter : ℕ → Option ℕ) (f : List OutboxItem → List Outcome → ProcessSummary)
      (history : List Call) (r : Result Failure (List OutboxItem))
      → environment.claim history claim ≡ r
      → Shapes true history (
          after_act history
            (claim ∷ [], r)
            λ items. process_items environment jitter now max items >>= λ outcomes.
              pure (f items outcomes))
  unfolding ◌>>=◌
  claim-Shape jitter f history (err e) a = unclaimed a
  claim-Shape jitter f history (ok items) a =
      let h = history ++ claim ∷ [] in
      let r = process_items environment jitter now max items h in
      served items _ a (
        rw (mapped-calls (f items) h r, mapped-returns (f items) h r)
          (process_items-Handled environment jitter now max items h))

  claimed-Shape :
      (jitter : ℕ → Option ℕ) (f : List OutboxItem → List Outcome → ProcessSummary)
      (history : List Call)
      → Shapes true history (
          (call_claim environment claim >>= λ items.
          process_items environment jitter now max items >>= λ outcomes. pure (f items outcomes))
            history)
  unfolding ◌>>=◌ call_claim
  claimed-Shape jitter f history =
      claim-Shape jitter f history (environment.claim history claim) refl

-- the tests of the arguments
abbrev pub is_in_range : String → ℕ → ℕ → ℕ → Bool
is_in_range owner limit lease_seconds max_attempts =
    not (owner == "") && (leb 1 limit && (leb 1 lease_seconds && (leb 1 max_attempts && true)))

-- All calls of a run of `process_outbox_once`: none, if an argument is out of range; else the claim,
-- and then those for the items that the port answers to the claim, in turn. For each item there is at
-- most one send and at most one write, and nothing else: it is sent only under its own key, only its
-- own row is written, with its own lease, and it is put off only while it has attempts left and never
-- into the past. A run that returns has made exactly one write for every item; an exception ends the
-- calls early.
pub process-Shape :
    (environment : Environment) (jitter : ℕ → Option ℕ) (now : ℕ) (owner : String)
    (limit lease_seconds max_attempts : ℕ) (history : List Call)
    → let claim = claim_due limit now lease_seconds owner in
      let run =
        process_outbox_once environment jitter now owner limit lease_seconds max_attempts history in
      Shape now max_attempts claim
        (environment.claim history claim)
        (is_in_range owner limit lease_seconds max_attempts)
        run.0
        (returns run.1)
unfolding process_outbox_once
process-Shape environment jitter now owner limit lease_seconds max history =
    let claim = claim_due limit now lease_seconds owner in
    require-Shape now max claim environment _ _ _ _
      (require-Shape now max claim environment _ _ _ _ (
        require-Shape now max claim environment _ _ _ _ (
          require-Shape now max claim environment _ true _ _
            (claimed-Shape now max claim environment jitter _))))
      history
