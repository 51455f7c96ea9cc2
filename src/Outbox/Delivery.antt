-- ===== src/Outbox/Delivery.antt =====
-- backend/enterprise_platform/notification_outbox.py: the backoff, the classes of errors and
-- `process_outbox_once`.
use easy_frame.Prelude.{
  ℕ, ◌+◌, String, Bool, true, false, not, ◌||◌, Option, none, some, List, [], ◌∷◌, ◌==◌, string_eq,
  option_eq, length, ltb, leb, if◌then◌else◌,
}
use Prim.Native.String.{◌++◌ as ◌<>◌}
use Prim.Native.Nat.{◌-◌, ◌*◌, ◌^◌}
use easy_frame.Prelude.Result.{Result, ok, err}
use easy_frame.Outbox.Calls.{
  OutboxItem, SendError, dedup_conflict, rejected, throttled, unavailable, protocol_error,
  other_error, Failure, value_error, type_error, Call, claim_due, mark_accepted, mark_retry,
  mark_failed, release, SendReply, sent, send_raised, Environment, Act, ◌>>=◌, pure, raise,
  port_write, call_send, call_claim, error_name,
}

abbrev pub backoff_base : ℕ
backoff_base = 1_000_000

abbrev pub backoff_cap : ℕ
backoff_cap = 1_800_000_000

abbrev pub min : ℕ → ℕ → ℕ
min a b = if leb a b then a else b

-- `backoff_delay`; the jitter is handed in, and returns nothing where the source's is negative
unfoldable pub backoff_delay : (ℕ → Option ℕ) → ℕ → ℕ → ℕ → Result Failure ℕ
backoff_delay jitter base cap attempt =
    if ltb attempt 1
    then err (value_error "attempt 必须从 1 起算")
    else if ltb base 1 || ltb cap 1
    then err (value_error "退避基数与上限必须为正")
    else elim (jitter (min (base * 2 ^ (attempt - 1)) cap)) [
      | none ↦ err (value_error "jitter 不得返回负数")
      | some delayed ↦ ok delayed
    ]

pub data SendDecision : Type 0 where
  retry : SendDecision
  fail : SendDecision

unfoldable pub classify_send_error : SendError → Result Failure SendDecision
classify_send_error (throttled _) = ok retry
classify_send_error (unavailable _) = ok retry
classify_send_error (protocol_error _) = ok retry
classify_send_error (dedup_conflict _) = ok fail
classify_send_error (rejected _ _) = ok fail
classify_send_error (other_error name _) = err (type_error ("未分类的发送错误: " <> name))

-- `_fail_error_code`
unfoldable pub fail_error_code : SendError → Result Failure String
fail_error_code (dedup_conflict _) = ok "dedup_conflict"
fail_error_code (rejected _ _) = ok "rejected"
fail_error_code error = err (type_error ("永久失败缺少错误码: " <> error_name error))

-- `_retry_error_code`
unfoldable pub retry_error_code : SendError → Result Failure String
retry_error_code (throttled _) = ok "throttled"
retry_error_code (unavailable _) = ok "unavailable"
retry_error_code (protocol_error _) = ok "unavailable"
retry_error_code error = err (type_error ("可重试失败缺少错误码: " <> error_name error))

abbrev pub later_by : ℕ → Result Failure ℕ → Result Failure ℕ
later_by now (ok delay) = ok (now + delay)
later_by now (err e) = err e

-- `_next_retry_at`
unfoldable pub next_retry_at : (ℕ → Option ℕ) → ℕ → ℕ → SendError → Result Failure ℕ
next_retry_at jitter now attempt (throttled (some retry_after)) = ok (now + retry_after)
next_retry_at jitter now attempt (other_error name _) = err (type_error ("不可用于计算重试时间: " <> name))
next_retry_at jitter now attempt _ =
    later_by now (backoff_delay jitter backoff_base backoff_cap attempt)

unfoldable pub lift : {A : Type 0} → Result Failure A → Act A
lift (ok a) = pure a
lift (err e) = raise e

-- `_require_lease_token`
unfoldable pub require_lease_token : OutboxItem → Result Failure String
require_lease_token item = elim item.lease_token [
  | none ↦ err (value_error ("claim 必须返回 lease_token,条目 " <> item.id))
  | some token ↦
      if token == "" then err (value_error ("claim 必须返回 lease_token,条目 " <> item.id)) else ok token
]

-- What happened to an item, for the summary.
pub data Outcome : Type 0 where
  accepted : Outcome
  retried : Outcome
  failed : Outcome
  untold : Outcome

abbrev pub when_written : Outcome → Bool → Outcome
when_written outcome written = if written then outcome else untold

-- one write, and what it counts as
abbrev pub write_outcome : Environment → Call → Outcome → Act Outcome
write_outcome environment call outcome = do
  written ← port_write environment call
  pure (when_written outcome written)

-- `release`, then `ValueError`
abbrev pub release_and_raise : Environment → OutboxItem → String → Act Outcome
release_and_raise environment item token = do
  _ ← port_write environment (release item.id token)
  raise (value_error ("NotifySender.send 必须返回 message_id,条目 " <> item.id))

module _ (environment : Environment) (jitter : ℕ → Option ℕ) (now max_attempts : ℕ) where
  unfoldable pub retry_later : OutboxItem → SendError → String → ℕ → Act Outcome
  retry_later item error token next_attempt = do
    next_at ← lift (next_retry_at jitter now next_attempt error)
    code ← lift (retry_error_code error)
    write_outcome environment (mark_retry item.id next_at code token) retried

  -- the end of `_handle_send_failure`
  unfoldable pub retry_or_exhaust : OutboxItem → SendError → String → Act Outcome
  retry_or_exhaust item error token =
      let next_attempt = item.attempt_count + 1 in
      if leb max_attempts next_attempt
      then write_outcome environment (mark_failed item.id "exhausted" now token) failed
      else retry_later item error token next_attempt

  -- `_handle_send_failure`, by the class of the error
  unfoldable pub handle_classified :
      OutboxItem → SendError → String → Result Failure SendDecision → Act Outcome
  handle_classified item error token (err e) = raise e
  handle_classified item error token (ok retry) = retry_or_exhaust item error token
  handle_classified item error token (ok fail) = do
    code ← lift (fail_error_code error)
    write_outcome environment (mark_failed item.id code now token) failed

  unfoldable pub handle_send_failure : OutboxItem → SendError → String → Act Outcome
  handle_send_failure item error token =
      handle_classified item error token (classify_send_error error)

  -- what follows the answer of the sender
  unfoldable pub after_send : OutboxItem → String → SendReply → Act Outcome
  after_send item token (send_raised error) = handle_send_failure item error token
  after_send item token (sent message_id) =
      if message_id == ""
      then release_and_raise environment item token
      else write_outcome environment (mark_accepted item.id message_id now token) accepted

  -- the body of the loop, with the item's token
  unfoldable pub process_item : OutboxItem → String → Act Outcome
  process_item item token =
      if not (item.payload.dedup_key == some item.dedup_key)
      then write_outcome environment (mark_failed item.id "dedup_key_mismatch" now token) failed
      else call_send environment item.payload >>= λ reply. after_send item token reply

  unfoldable pub process_items : List OutboxItem → Act (List Outcome)
  process_items [] = pure []
  process_items (item ∷ items) = do
    token ← lift (require_lease_token item)
    outcome ← process_item item token
    outcomes ← process_items items
    pure (outcome ∷ outcomes)

pub record ProcessSummary : Type 0 where
  pub claimed : ℕ
  pub accepted : ℕ
  pub retried : ℕ
  pub failed : ℕ

-- the counters, one step for each outcome
unfoldable pub tally : List Outcome → ProcessSummary → ProcessSummary
tally [] summary = summary
tally (accepted ∷ outcomes) summary =
    tally outcomes (record summary { accepted = summary.accepted + 1 })
tally (retried ∷ outcomes) summary =
    tally outcomes (record summary { retried = summary.retried + 1 })
tally (failed ∷ outcomes) summary = tally outcomes (record summary { failed = summary.failed + 1 })
tally (untold ∷ outcomes) summary = tally outcomes summary

-- `if test: raise ValueError(text)`
abbrev pub require : Bool → String → Act (Unit {0})
require true text = pure tt
require false text = raise (value_error text)

unfoldable pub process_outbox_once :
    Environment → (ℕ → Option ℕ) → ℕ → String → ℕ → ℕ → ℕ → Act ProcessSummary
unfolding process_items tally
process_outbox_once environment jitter now owner limit lease_seconds max_attempts = do
  _ ← require (not (owner == "")) "owner 不能为空"
  _ ← require (leb 1 limit) "limit 必须为正"
  _ ← require (leb 1 lease_seconds) "lease_seconds 必须为正"
  _ ← require (leb 1 max_attempts) "max_attempts 必须为正"
  claimed ← call_claim environment (claim_due limit now lease_seconds owner)
  outcomes ← process_items environment jitter now max_attempts claimed
  pure (tally outcomes (record { claimed = length claimed; accepted = 0; retried = 0; failed = 0 }))
