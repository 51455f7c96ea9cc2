-- ===== src/Outbox/Calls.antt =====
-- backend/enterprise_platform/notification_outbox.py: items, the calls that a driver makes on its port
-- and its sender, and what these answer. Both are code of the host, so an answer may depend on
-- every call made before. An instant is a number of microseconds in UTC.
use easy_frame.Prelude.{ℕ, String, Bool, true, false, Option, List, [], ◌∷◌}
use easy_frame.Prelude.Result.{Result, ok, err}
use easy_frame.Prelude.Traced
unfoldable pub use easy_frame.Prelude.Traced.{after_act, ◌>>=◌, pure, raise}

-- `OutboxNotifyPayload`: the key, and the rest of the request, which the driver only hands on.
pub record Payload : Type 0 where
  pub dedup_key : Option String
  pub body : String

pub record OutboxItem : Type 0 where
  pub id : String
  pub dedup_key : String
  pub payload : Payload
  pub status : String
  pub attempt_count : ℕ
  pub next_attempt_at : Option ℕ
  pub provider_message_id : Option String
  pub last_error : Option String
  pub lease_owner : Option String
  pub lease_expires_at : Option ℕ
  pub last_reconciled_at : Option ℕ
  pub lease_token : Option String

-- What `NotifySender` raises: backend/enterprise_platform/easyauth/errors.py, and any other exception
-- with its text and the name of its type.
pub data SendError : Type 0 where
  dedup_conflict : String → SendError
  rejected : String → Option ℕ → SendError
  throttled : Option ℕ → SendError
  unavailable : String → SendError
  protocol_error : String → SendError
  other_error : String → String → SendError

-- the name of an exception's type
abbrev pub error_name : SendError → String
error_name (dedup_conflict _) = "NotifyDedupConflictError"
error_name (rejected _ _) = "NotifyRejectedError"
error_name (throttled _) = "NotifyThrottledError"
error_name (unavailable _) = "NotifyUnavailableError"
error_name (protocol_error _) = "NotifyProtocolError"
error_name (other_error name _) = name

-- What leaves the driver as an exception.
pub data Failure : Type 0 where
  value_error : String → Failure
  type_error : String → Failure
  raised_by_port : String → Failure

pub record MessageStatus : Type 0 where
  pub status : String
  pub recipients : List String

pub data Call : Type 0 where
  claim_due : ℕ → ℕ → ℕ → String → Call
  claim_reconcile_due : ℕ → ℕ → ℕ → String → Call
  send : Payload → Call
  get_message : String → Call
  mark_accepted : String → String → ℕ → String → Call
  mark_retry : String → ℕ → String → String → Call
  mark_failed : String → String → ℕ → String → Call
  apply_provider_status : String → MessageStatus → ℕ → String → Call
  mark_reconcile_error : String → String → ℕ → String → Call
  release : String → String → Call

pub data SendReply : Type 0 where
  sent : String → SendReply
  send_raised : SendError → SendReply

pub data MessageReply : Type 0 where
  found : MessageStatus → MessageReply
  get_raised : SendError → MessageReply

-- A write returns `False`, or anything else; it raises `StaleLeaseError`, or anything else.
pub data WriteReply : Type 0 where
  returned_false : WriteReply
  returned_other : WriteReply
  stale_lease : WriteReply
  write_raised : String → WriteReply

pub record Environment : Type 0 where
  pub claim : List Call → Call → Result Failure (List OutboxItem)
  pub send_answer : List Call → Payload → SendReply
  pub message_answer : List Call → String → MessageReply
  pub write_answer : List Call → Call → WriteReply

-- A step of the driver.
abbrev pub Act : Type 0 → Type 0
Act = Traced.Act Call Failure

abbrev pub write_result : WriteReply → Result Failure Bool
write_result returned_false = ok false
write_result returned_other = ok true
write_result stale_lease = ok false
write_result (write_raised e) = err (raised_by_port e)

-- `_port_write`
unfoldable pub port_write : Environment → Call → Act Bool
port_write environment call history =
    (call ∷ [], write_result (environment.write_answer history call))

unfoldable pub call_send : Environment → Payload → Act SendReply
call_send environment payload history =
    (send payload ∷ [], ok (environment.send_answer history payload))

unfoldable pub call_get_message : Environment → String → Act MessageReply
call_get_message environment message_id history =
    (get_message message_id ∷ [], ok (environment.message_answer history message_id))

unfoldable pub call_claim : Environment → Call → Act (List OutboxItem)
call_claim environment call history = (call ∷ [], environment.claim history call)
