-- ===== src/Outbox/Reconcile.antt =====
-- backend/enterprise_platform/notification_outbox.py: `reconcile_outbox_once`.
use easy_frame.Prelude.{
  ℕ, ◌+◌, String, Bool, false, not, none, some, List, [], ◌∷◌, ◌==◌, string_eq, nat_eq, option_eq,
  length, leb, if◌then◌else◌,
}
use Prim.Native.String.{◌++◌ as ◌<>◌}
use easy_frame.Prelude.Text.{TextOps}
use easy_frame.Outbox.Calls.{
  OutboxItem, SendError, dedup_conflict, rejected, throttled, unavailable, protocol_error,
  other_error, claim_reconcile_due, mark_failed, mark_reconcile_error, apply_provider_status,
  release, MessageReply, found, get_raised, Environment, Act, ◌>>=◌, pure, port_write,
  call_get_message, call_claim, error_name,
}
use easy_frame.Outbox.Delivery.{lift, require, require_lease_token}

-- `_is_provider_message_missing`
unfoldable pub is_provider_message_missing : SendError → Bool
is_provider_message_missing (rejected _ status) = status == some 404
is_provider_message_missing _ = false

-- the text of an exception
abbrev pub error_text : SendError → String
error_text (dedup_conflict text) = text
error_text (rejected text _) = text
error_text (throttled _) = "通知接口限流"
error_text (unavailable text) = text
error_text (protocol_error text) = text
error_text (other_error _ text) = text

-- `_reconcile_error_text`
unfoldable pub reconcile_error_text : TextOps → SendError → String
reconcile_error_text text error =
    let stripped = text.strip (error_text error) in
    if stripped == "" then error_name error else stripped

module _ (text : TextOps) (environment : Environment) (now : ℕ) where
  -- an exception inside the `try`
  unfoldable pub after_error : OutboxItem → String → SendError → Act Bool
  unfolding is_provider_message_missing reconcile_error_text
  after_error item token error = do
    _ ← port_write environment (
        if is_provider_message_missing error
        then mark_failed item.id "provider_message_missing" now token
        else mark_reconcile_error item.id (reconcile_error_text text error) now token)
    _ ← port_write environment (release item.id token)
    pure false

  unfoldable pub after_message : OutboxItem → String → MessageReply → Act Bool
  unfolding after_error
  after_message item token (get_raised error) = after_error item token error
  after_message item token (found message) = do
    applied ← port_write environment (apply_provider_status item.id message now token)
    _ ← port_write environment (release item.id token)
    pure applied

  -- the body of the loop, which tells whether the status was applied
  unfoldable pub reconcile_item : OutboxItem → String → Act Bool
  unfolding after_message
  reconcile_item item token = elim item.provider_message_id [
    | none ↦
        after_error item token
          (other_error "ValueError" ("待对账条目 " <> item.id <> " 缺少 provider_message_id"))
    | some message_id ↦
        if message_id == ""
        then after_error item token
            (other_error "ValueError" ("待对账条目 " <> item.id <> " 缺少 provider_message_id"))
        else call_get_message environment message_id >>= λ reply. after_message item token reply
  ]

  unfoldable pub reconcile_items : List OutboxItem → Act ℕ
  unfolding reconcile_item
  reconcile_items [] = pure 0
  reconcile_items (item ∷ items) = do
    token ← lift (require_lease_token item)
    applied ← reconcile_item item token
    rest ← reconcile_items items
    pure (if applied then rest + 1 else rest)

  -- the summary: how many were claimed, and how many applied
  unfoldable pub reconcile_outbox_once : String → ℕ → ℕ → Act (ℕ × ℕ)
  unfolding reconcile_items
  reconcile_outbox_once owner limit lease_seconds = do
    _ ← require (not (owner == "")) "owner 不能为空"
    _ ← require (leb 1 limit) "limit 必须为正"
    _ ← require (leb 1 lease_seconds) "lease_seconds 必须为正"
    claimed ← call_claim environment (claim_reconcile_due limit now lease_seconds owner)
    applied ← reconcile_items claimed
    pure (length claimed, applied)
