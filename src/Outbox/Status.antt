-- ===== src/Outbox/Status.antt =====
-- backend/enterprise_platform/notification_outbox.py: the statuses of outbox items, which the source
-- keeps as texts, and the functions on them.
use easy_frame.Prelude.{
  ℕ, ◌+◌, String, Bool, false, not, ◌||◌, Option, none, some, List, [], ◌∷◌, ◌==◌, string_eq, any,
  all, ltb, if◌then◌else◌,
}
use easy_frame.Prelude.Result.{Result, ok, err}

-- `ValueError`
pub data ValueError : Type 0 where
  unknown_provider_status : String → ValueError
  no_recipients : ValueError
  unknown_local_status : String → ValueError

pub record AggregatedLocalStatus : Type 0 where
  pub status : String
  pub partial : Bool

-- `_PROVIDER_RECIPIENT_TO_LOCAL` and the function that reads it
unfoldable pub map_provider_recipient_status : String → Result ValueError String
map_provider_recipient_status status =
    if status == "pending" || status == "throttled"
    then ok "accepted"
    else if status == "sent"
    then ok "sent"
    else if status == "delivered"
    then ok "delivered"
    else if status == "failed"
    then ok "failed"
    else err (unknown_provider_status status)

-- `_LOCAL_RECIPIENT_STATUSES`
abbrev pub is_local_status : String → Bool
is_local_status status =
    status == "accepted" || status == "sent" || status == "delivered" || status == "failed"

abbrev pub is_success : String → Bool
is_success status = status == "sent" || status == "delivered"

-- the first status that is unknown
unfoldable pub first_unknown : List String → Option String
first_unknown [] = none
first_unknown (status ∷ statuses) =
    let rest = first_unknown statuses in if is_local_status status then rest else some status

-- the summary of known statuses
unfoldable pub summarize : List String → AggregatedLocalStatus
summarize statuses =
    let has_failed = any (λ status. status == "failed") statuses in
    if all (λ status. status == "delivered") statuses
    then record { status = "delivered"; partial = false }
    else if all (λ status. status == "failed") statuses
    then record { status = "failed"; partial = false }
    else if any is_success statuses
    then record { status = "sent"; partial = has_failed }
    else record { status = "accepted"; partial = has_failed }

unfoldable pub aggregate_local_status : List String → Result ValueError AggregatedLocalStatus
unfolding first_unknown summarize
aggregate_local_status [] = err no_recipients
aggregate_local_status (status ∷ statuses) = elim (first_unknown (status ∷ statuses)) [
  | some unknown ↦ err (unknown_local_status unknown)
  | none ↦ ok (summarize (status ∷ statuses))
]

-- `_TERMINAL_OUTBOX_STATUSES`
abbrev pub is_terminal : String → Bool
is_terminal status = status == "delivered" || status == "failed"

-- `_STATUS_PROGRESS.get(status, -1)`, one more than in the source, so that an unknown status has 0
unfoldable pub status_progress : String → ℕ
status_progress status =
    if status == "accepted"
    then 1
    else if status == "sent"
    then 2
    else if is_terminal status
    then 3
    else 0

unfoldable pub clamp_outbox_status : String → String → String
unfolding status_progress
clamp_outbox_status current incoming =
    if is_terminal current
    then current
    else if ltb (status_progress incoming) (status_progress current)
    then current
    else incoming

-- `RECONCILE_HORIZON`, 24 hours in seconds
abbrev pub reconcile_horizon : ℕ
reconcile_horizon = 86_400

-- `now - sent_at >= RECONCILE_HORIZON`, where `sent_at` may lie in the future
unfoldable pub sent_reconcile_expired : ℕ → ℕ → Bool
sent_reconcile_expired sent_at now = not (ltb now (sent_at + reconcile_horizon))
