-- ===== src/Outbox/Tests.antt =====
-- The theorems of the outbox at concrete items.
use easy_frame.Prelude.{◌≤◌, ◌≡◌, refl, true, none, some, [], ◌∷◌, string_eq}
use easy_frame.Prelude.Result.{ok}
use easy_frame.Outbox.Status.{
  summarize, aggregate_local_status, first_unknown, status_progress, is_terminal,
}
use easy_frame.Outbox.Aggregate.{Aggregated, aggregate-Aggregated}
use easy_frame.Outbox.Monotone.{observe, observe_monotone}
use easy_frame.Outbox.Calls.{
  OutboxItem, Environment, claim_due, send, mark_accepted, sent, found, returned_other, ◌>>=◌, pure,
  port_write, call_send, call_claim,
}
use easy_frame.Outbox.Delivery.{
  accepted, process_outbox_once, process_items, process_item, after_send, require_lease_token, lift,
  tally,
}
use easy_frame.Outbox.Driver.{Shape, process-Shape}
use easy_frame.Outbox.Settled.{process_items-AllSettled}
use easy_frame.Outbox.Written.{AllSettled}

program : Unit {0}
unfolding aggregate_local_status summarize process_outbox_once process_items process_item after_send
    require_lease_token lift tally ◌>>=◌ pure port_write call_send call_claim first_unknown
program = tt

aggregate-Aggregated_example :
    Aggregated ("accepted" ∷ "failed" ∷ []) (ok (record { status = "accepted"; partial = true }))
unfolding program
aggregate-Aggregated_example = aggregate-Aggregated ("accepted" ∷ "failed" ∷ [])

observe_monotone_example :
    (status_progress (observe "accepted" ("delivered" ∷ []))
      ≤ status_progress (observe "accepted" ("delivered" ∷ "sent" ∷ [])))
    × (is_terminal (observe "accepted" ("delivered" ∷ [])) ≡ true
        → observe "accepted" ("delivered" ∷ "sent" ∷ []) ≡ observe "accepted" ("delivered" ∷ []))
observe_monotone_example = observe_monotone "accepted" ("delivered" ∷ []) ("sent" ∷ [])

abbrev item : OutboxItem
item = record {
  id = "n1";
  dedup_key = "order-1";
  payload = record { dedup_key = some "order-1"; body = "hello" };
  status = "queued";
  attempt_count = 0;
  next_attempt_at = none;
  provider_message_id = none;
  last_error = none;
  lease_owner = some "worker";
  lease_expires_at = some 30;
  last_reconciled_at = none;
  lease_token = some "t1";
}

abbrev host : Environment
host = record {
  claim = λ _ _. ok (item ∷ []);
  send_answer = λ _ _. sent "m1";
  message_answer = λ _ _. found (record { status = "sent"; recipients = [] });
  write_answer = λ _ _. returned_other;
}

process-Shape_example :
    Shape 5 12
      (claim_due 50 5 30 "worker")
      (ok (item ∷ []))
      true
      (process_outbox_once host (λ delay. some delay) 5 "worker" 50 30 12 []).0
      true
unfolding program
process-Shape_example = process-Shape host (λ delay. some delay) 5 "worker" 50 30 12 []

process-accepts : process_outbox_once host (λ delay. some delay) 5 "worker" 50 30 12 [] ≡ (
  claim_due 50 5 30 "worker" ∷ send item.payload ∷ mark_accepted "n1" "m1" 5 "t1" ∷ [],
  ok (record { claimed = 1; accepted = 1; retried = 0; failed = 0 }),
)
unfolding program
process-accepts = refl

process_items-AllSettled_example :
    AllSettled host 5 12 []
      (item ∷ [])
      (send item.payload ∷ mark_accepted "n1" "m1" 5 "t1" ∷ [])
      (accepted ∷ [])
unfolding program
process_items-AllSettled_example =
    process_items-AllSettled host (λ delay. some delay) 5 12 (item ∷ []) [] (accepted ∷ []) refl
