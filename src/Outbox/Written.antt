-- ===== src/Outbox/Written.antt =====
-- backend/enterprise_platform/notification_outbox.py: the write that `process_outbox_once` makes for an
-- item that it has claimed.
use easy_frame.Prelude.{
  ℕ, ◌+◌, ◌<◌, ◌≤◌, String, Bool, true, false, ◌==◌, ==_iff, leb, ◌≡◌, ◌≢◌, refl, ◌⊎◌, inl, inr,
  Option, some, List, [], ◌∷◌, ◌++◌, string_eq, option_eq, arith, ++-empty, if◌then◌else◌,
}
use easy_frame.Prelude.Result.{Result, ok, err}
use easy_frame.Outbox.Calls.{
  OutboxItem, SendError, Failure, Call, send, mark_accepted, mark_retry, mark_failed, SendReply,
  sent, send_raised, Environment, Act, after_act, ◌>>=◌, pure, raise, port_write, write_result,
}
use easy_frame.Outbox.Delivery.{
  SendDecision, retry, fail, classify_send_error, lift, Outcome, accepted, retried, failed, untold,
  when_written, write_outcome, retry_later, retry_or_exhaust, handle_classified,
  handle_send_failure, after_send,
}
use easy_frame.Outbox.Handling.{Permitted}

-- the outcome that a write stands for
abbrev pub outcome_of : Call → Outcome
outcome_of (mark_accepted _ _ _ _) = accepted
outcome_of (mark_retry _ _ _ _) = retried
outcome_of (mark_failed _ _ _ _) = failed
outcome_of _ = untold

-- The port has answered the write, and the item counts as the write says, unless the lease was lost.
abbrev pub Told : Environment → List Call → Call → Outcome → Type 0
Told environment history write outcome =
    (written : Bool) × (write_result (environment.write_answer history write) ≡ ok written)
    × (outcome ≡ when_written (outcome_of write) written)

-- The write that follows an answer of the sender: the message id is kept; an error that may be retried
-- puts the item off while it has attempts left; any other one fails it.
abbrev pub Follows : ℕ → OutboxItem → SendReply → Call → Type 0
Follows max item (sent message_id) write =
    (message_id ≢ "")
    × (at : ℕ) × (token : String) × (write ≡ mark_accepted item.id message_id at token)
Follows max item (send_raised error) write =
    ((classify_send_error error ≡ ok retry)
      × (item.attempt_count + 1 < max)
      × (outcome_of write ≡ retried))
    ⊎ (((classify_send_error error ≡ ok retry)
          × (max ≤ item.attempt_count + 1)
          × (outcome_of write ≡ failed))
        ⊎ ((classify_send_error error ≡ ok fail) × (outcome_of write ≡ failed)))

-- The calls for one item, and what it counts as.
pub data Settled (environment : Environment) (now max : ℕ) (item : OutboxItem)
    : List Call → List Call → Outcome → Type 0 where
  unsent :
      {history : List Call} {outcome : Outcome} (write : Call)
      → item.payload.dedup_key ≢ some item.dedup_key
      → Permitted now max item write
      → outcome_of write ≡ failed
      → Told environment history write outcome
      → Settled environment now max item history (write ∷ []) outcome
  answered :
      {history : List Call} {outcome : Outcome} (write : Call)
      → item.payload.dedup_key ≡ some item.dedup_key
      → Permitted now max item write
      → Follows max item (environment.send_answer history item.payload) write
      → Told environment (history ++ send item.payload ∷ []) write outcome
      → Settled environment now max item history (send item.payload ∷ write ∷ []) outcome

-- The calls for items in turn, and what each counts as.
pub data AllSettled (environment : Environment) (now max : ℕ)
    : List Call → List OutboxItem → List Call → List Outcome → Type 0 where
  none_left : {history : List Call} → AllSettled environment now max history [] [] []
  one_settled :
      {history : List Call} {item : OutboxItem} {items : List OutboxItem} (own later : List Call)
      {outcome : Outcome} {outcomes : List Outcome}
      → Settled environment now max item history own outcome
      → AllSettled environment now max (history ++ own) items later outcomes
      → AllSettled environment now max history (item ∷ items) (own ++ later) (outcome ∷ outcomes)

module _ (environment : Environment) where
  abbrev pub Written : (Call → Type 0) → List Call → List Call × Result Failure Outcome → Type 0
  Written P history r =
      (outcome : Outcome)
      → r.1 ≡ ok outcome
      → (write : Call) × (r.0 ≡ write ∷ []) × P write × Told environment history write outcome

  -- Where the step returns, it has made one call, a write with the property, and counts it.
  unfoldable pub OneWrite : (Call → Type 0) → Act Outcome → Type 0
  OneWrite P m = (history : List Call) → Written P history (m history)

  answer-Written :
      (P : Call → Type 0) (call : Call) (history : List Call) (r : Result Failure Bool)
      → P call
      → write_result (environment.write_answer history call) ≡ r
      → Written P history (
          after_act history (call ∷ [], r) λ written. pure (when_written (outcome_of call) written))
  unfolding pure
  answer-Written P call history (ok written) p a = λ outcome h. (call, refl, p, (written, a, cc))
  answer-Written P call history (err e) p a = λ outcome h. cc

  pub outcome-OneWrite :
      (P : Call → Type 0) (call : Call)
      → P call
      → OneWrite P (write_outcome environment call (outcome_of call))
  unfolding OneWrite ◌>>=◌ port_write
  outcome-OneWrite P call p history =
      answer-Written P call history (write_result (environment.write_answer history call)) p refl

  raise-OneWrite : (P : Call → Type 0) (e : Failure) → OneWrite P (raise e)
  unfolding OneWrite raise
  raise-OneWrite P e history outcome h = cc

  lift-OneWrite :
      {A : Type 0} (P : Call → Type 0) (r : Result Failure A) (f : A → Act Outcome)
      → ((a : A) → OneWrite P (f a))
      → OneWrite P (lift r >>= f)
  unfolding OneWrite ◌>>=◌ lift pure raise
  lift-OneWrite P (ok a) f g history = rw (++-empty history) (g a history)
  lift-OneWrite P (err e) f g history = λ outcome h. cc

  if-OneWrite :
      (P : Call → Type 0) (b : Bool) (m n : Act Outcome)
      → (b ≡ true → OneWrite P m)
      → (b ≡ false → OneWrite P n)
      → OneWrite P (if b then m else n)
  if-OneWrite P true m n h g = h refl
  if-OneWrite P false m n h g = g refl

  raised-Written :
      (P : Call → Type 0) (history : List Call) (r : List Call × Result Failure Bool) (e : Failure)
      → Written P history (after_act history r λ _. raise e)
  unfolding raise
  raised-Written P history (calls, ok b) e = λ outcome h. cc
  raised-Written P history (calls, err d) e = λ outcome h. cc

  -- a step that raises after another one
  then_raise-OneWrite :
      (P : Call → Type 0) (m : Act Bool) (e : Failure) → OneWrite P (m >>= λ _. raise e)
  unfolding OneWrite ◌>>=◌
  then_raise-OneWrite P m e history = raised-Written P history (m history) e

  module _ (jitter : ℕ → Option ℕ) (now max : ℕ) (item : OutboxItem) (token : String) where
    abbrev FollowsError : SendError → Call → Type 0
    FollowsError error = Follows max item (send_raised error)

    retry-OneWrite :
        (error : SendError)
        → classify_send_error error ≡ ok retry
        → OneWrite
            (FollowsError error)
            (retry_or_exhaust environment jitter now max item error token)
    unfolding retry_or_exhaust retry_later
    retry-OneWrite error c =
        if-OneWrite (FollowsError error) (leb max (item.attempt_count + 1)) _ _
          (λ b.
            outcome-OneWrite (FollowsError error) (mark_failed item.id "exhausted" now token)
              (inr (inl (c, ground (arith, b), refl))))
          λ b. lift-OneWrite (FollowsError error) _ _ λ at.
            lift-OneWrite (FollowsError error) _ _ λ code.
              outcome-OneWrite (FollowsError error) (mark_retry item.id at code token)
                (inl (c, ground (arith, b), refl))

    classified-OneWrite :
        (error : SendError) (decision : Result Failure SendDecision)
        → classify_send_error error ≡ decision
        → OneWrite
            (FollowsError error)
            (handle_classified environment jitter now max item error token decision)
    unfolding handle_classified
    classified-OneWrite error (err e) c = raise-OneWrite (FollowsError error) e
    classified-OneWrite error (ok retry) c = retry-OneWrite error c
    classified-OneWrite error (ok fail) c = lift-OneWrite (FollowsError error) _ _ λ code.
        outcome-OneWrite (FollowsError error) (mark_failed item.id code now token)
          (inr (inr (c, refl)))

    pub after_send-OneWrite :
        (reply : SendReply)
        → OneWrite (Follows max item reply) (after_send environment jitter now max item token reply)
    unfolding after_send handle_send_failure
    after_send-OneWrite (send_raised error) =
        classified-OneWrite error (classify_send_error error) refl
    after_send-OneWrite (sent message_id) =
        let P : Call → Type 0 = Follows max item (sent message_id) in
        if-OneWrite P (message_id == "") _ _ (λ b. then_raise-OneWrite P _ _)
          λ b.
            outcome-OneWrite P (mark_accepted item.id message_id now token)
              (ground (arith, b, ==_iff message_id ""), now, token, refl)
