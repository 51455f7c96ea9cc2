-- ===== src/Outbox/Settled.antt =====
-- backend/enterprise_platform/notification_outbox.py: what `process_outbox_once` writes and counts for
-- the items that it has claimed.
use easy_frame.Prelude.{
  ℕ, String, ◌==◌, ==_iff, ◌≡◌, ◌≢◌, refl, sym, subst, inl, inr, Bool-cases, Option, some, List, [],
  ◌∷◌, ◌++◌, string_eq, option_eq, arith, ++-empty, All,
}
use easy_frame.Prelude.Result.{Result, ok, err}
use easy_frame.Outbox.Calls.{
  OutboxItem, Failure, Call, send, mark_failed, Environment, Act, after_act, ◌>>=◌, pure, raise,
  call_send,
}
use easy_frame.Outbox.Delivery.{
  lift, require_lease_token, Outcome, failed, write_outcome, after_send, process_item,
  process_items,
}
use easy_frame.Outbox.Handling.{Permitted, Makes, after_send-Makes}
use easy_frame.Outbox.Driver.{token_of_item}
use easy_frame.Outbox.Written.{
  outcome_of, Settled, unsent, answered, AllSettled, none_left, one_settled, OneWrite,
  outcome-OneWrite, after_send-OneWrite,
}

module _ (environment : Environment) (jitter : ℕ → Option ℕ) (now max : ℕ) (item : OutboxItem)
    (token : String) (t : some token ≡ item.lease_token) where
  unsent-Settled :
      item.payload.dedup_key ≢ some item.dedup_key
      → (history : List Call) (outcome : Outcome)
      → let r =
          write_outcome environment
            (mark_failed item.id "dedup_key_mismatch" now token)
            failed
            history in
        r.1 ≡ ok outcome → Settled environment now max item history r.0 outcome
  unfolding OneWrite
  unsent-Settled other history outcome h =
      let (write, calls, (f, p), told) =
        outcome-OneWrite environment
          (λ write. (outcome_of write ≡ failed) × Permitted now max item write)
          (mark_failed item.id "dedup_key_mismatch" now token) (refl, (refl, t, refl)) history
          outcome h in
      subst (λ calls. Settled environment now max item history calls outcome) (sym calls)
        (unsent write other p f told)

  answered-Settled :
      item.payload.dedup_key ≡ some item.dedup_key
      → (history : List Call) (outcome : Outcome)
      → let r =
          after_send environment jitter now max item token
            (environment.send_answer history item.payload)
            (history ++ send item.payload ∷ []) in
        r.1 ≡ ok outcome
        → Settled environment now max item history (send item.payload ∷ r.0) outcome
  unfolding OneWrite Makes
  answered-Settled own history outcome h =
      let reply = environment.send_answer history item.payload in
      let after = history ++ send item.payload ∷ [] in
      let (write, calls, follows, told) =
        after_send-OneWrite environment jitter now max item token reply after outcome h in
      let (permitted, _, _) =
        after_send-Makes now max item environment jitter token t reply after in
      let (p, _) = subst (All (Permitted now max item)) calls permitted in
      subst (λ later. Settled environment now max item history (send item.payload ∷ later) outcome)
        (sym calls) (answered write own p follows told)

  item-Settled :
      (history : List Call) (outcome : Outcome)
      → let r = process_item environment jitter now max item token history in
        r.1 ≡ ok outcome → Settled environment now max item history r.0 outcome
  unfolding process_item ◌>>=◌ call_send
  item-Settled history outcome = elim (Bool-cases (item.payload.dedup_key == some item.dedup_key)) [
    | inl b ↦
        rw (b, process_item)
          (answered-Settled ((==_iff item.payload.dedup_key (some item.dedup_key)).0 b) history
            outcome)
    | inr b ↦
        rw (b, process_item)
          (unsent-Settled
            (λ e. ground (arith, b, (==_iff item.payload.dedup_key (some item.dedup_key)).1 e))
            history outcome)
  ]

module _ (environment : Environment) (jitter : ℕ → Option ℕ) (now max : ℕ) where
  abbrev Serves : List OutboxItem → List Call → List Call × Result Failure (List Outcome) → Type 0
  Serves items history r =
      (outcomes : List Outcome)
      → r.1 ≡ ok outcomes
      → AllSettled environment now max history items r.0 outcomes

  counted-Serves :
      (item : OutboxItem) (items : List OutboxItem) (history own : List Call) (outcome : Outcome)
      (r : List Call × Result Failure (List Outcome))
      → Settled environment now max item history own outcome
      → Serves items (history ++ own) r
      → let rest = after_act (history ++ own) r λ outcomes. pure (outcome ∷ outcomes) in
        Serves (item ∷ items) history (own ++ rest.0, rest.1)
  unfolding pure
  counted-Serves item items history own outcome (later, ok found) s g = λ outcomes h.
      let e : outcome ∷ found ≡ outcomes = cc in
      subst (AllSettled environment now max history (item ∷ items) (own ++ (later ++ []))) e
        (one_settled own (later ++ []) s (rw (++-empty later) (g found refl)))
  counted-Serves item items history own outcome (later, err e) s g = λ outcomes h. cc

  item-Serves :
      (item : OutboxItem) (items : List OutboxItem) (history : List Call)
      (r : List Call × Result Failure Outcome)
      → ((outcome : Outcome)
          → r.1 ≡ ok outcome
          → Settled environment now max item history r.0 outcome)
      → ((h : List Call) → Serves items h (process_items environment jitter now max items h))
      → Serves (item ∷ items) history (
          after_act history r λ outcome.
            process_items environment jitter now max items >>= λ outcomes.
            pure (outcome ∷ outcomes))
  unfolding ◌>>=◌
  item-Serves item items history (own, ok outcome) s g =
      counted-Serves item items history own outcome _ (s outcome refl) (g (history ++ own))
  item-Serves item items history (own, err e) s g = λ outcomes h. cc

  token-Serves :
      (items : List OutboxItem) (r : Result Failure String) (f : String → Act (List Outcome))
      → ((token : String) → r ≡ ok token → (h : List Call) → Serves items h (f token h))
      → (h : List Call) → Serves items h ((lift r >>= f) h)
  unfolding ◌>>=◌ lift pure raise
  token-Serves items (ok token) f g h = rw (++-empty h) (g token refl h)
  token-Serves items (err e) f g h = λ outcomes p. cc

  all-Serves :
      (items : List OutboxItem) (h : List Call)
      → Serves items h (process_items environment jitter now max items h)
  unfolding process_items ◌>>=◌ pure
  all-Serves [] h = λ outcomes p.
      let e : [] ≡ outcomes = cc in subst (AllSettled environment now max h [] []) e none_left
  all-Serves (item ∷ items) h =
      token-Serves (item ∷ items) (require_lease_token item) _
        (λ token p h'.
          item-Serves item items h' (process_item environment jitter now max item token h')
            (item-Settled environment jitter now max item token (token_of_item item token p) h')
            (all-Serves items))
        h

-- If the loop over claimed items returns, then each item in turn is settled by exactly one write to its
-- own row, with its own lease, which the port has answered; the item counts as that write says, or as
-- nothing if the lease was lost. An item whose payload has another key is failed without a send. Any
-- other item is sent once, and the write follows the answer: the message id that the sender gave is
-- kept; an error that may be retried puts the item off exactly if it has attempts left; any other one
-- fails it.
pub process_items-AllSettled :
    (environment : Environment) (jitter : ℕ → Option ℕ) (now max_attempts : ℕ)
    (items : List OutboxItem) (history : List Call) (outcomes : List Outcome)
    → let run = process_items environment jitter now max_attempts items history in
      run.1 ≡ ok outcomes → AllSettled environment now max_attempts history items run.0 outcomes
process_items-AllSettled environment jitter now max_attempts items history outcomes =
    all-Serves environment jitter now max_attempts items history outcomes
