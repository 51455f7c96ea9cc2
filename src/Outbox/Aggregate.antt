-- ===== src/Outbox/Aggregate.antt =====
-- backend/enterprise_platform/notification_outbox.py: what the summary of the recipients' statuses
-- says.
use easy_frame.Prelude.{
  some, ◌++◌, ◌+◌, length, String, true, false, ◌≡◌, refl, none, List, [], ◌∷◌, string_eq, all,
  arith, ap, Bool-cases, Option-cases, inl, inr, sym, subst,
}
use easy_frame.Prelude.Result.{Result, ok, err}
use easy_frame.Outbox.Status.{
  ValueError, no_recipients, unknown_local_status, AggregatedLocalStatus, is_local_status,
  first_unknown, aggregate_local_status,
}
use easy_frame.Outbox.Tallies.{
  occurs, all_local, aggregate_known, tally_of, occurs-tally_of, four-add, one_status, Summarizes,
  bits-Summarizes,
}

-- a status that is not known, after known ones only
abbrev pub FirstUnknown : List String → String → Type 0
FirstUnknown statuses status =
    (before : List String) × (after : List String) × (statuses ≡ before ++ status ∷ after)
    × (all is_local_status before ≡ true)
    × (is_local_status status ≡ false)

-- The answer for the statuses of recipients.
pub data Aggregated (statuses : List String)
    : Result ValueError AggregatedLocalStatus → Type 0 where
  made :
      (summary : AggregatedLocalStatus)
      → tally_of "accepted" statuses
          + tally_of "sent" statuses
          + tally_of "delivered" statuses
          + tally_of "failed" statuses
        ≡ length statuses
      → Summarizes
          (length statuses)
          (tally_of "accepted" statuses)
          (tally_of "sent" statuses)
          (tally_of "delivered" statuses)
          (tally_of "failed" statuses)
          summary
      → Aggregated statuses (ok summary)
  empty : statuses ≡ [] → Aggregated statuses (err no_recipients)
  unknown :
      (status : String)
      → FirstUnknown statuses status
      → Aggregated statuses (err (unknown_local_status status))

unknown_here :
    (first : String) (rest : List String) (status : String)
    → first_unknown (first ∷ rest) ≡ some status
    → is_local_status first ≡ false
    → first ≡ status
unfolding first_unknown
unknown_here first rest status h l = ground (arith, h, l)

unknown_later :
    (first : String) (rest : List String) (status : String)
    → first_unknown (first ∷ rest) ≡ some status
    → is_local_status first ≡ true
    → first_unknown rest ≡ some status
unfolding first_unknown
unknown_later first rest status h l = ground (arith, h, l)

first_unknown-FirstUnknown :
    (statuses : List String) (status : String)
    → first_unknown statuses ≡ some status
    → FirstUnknown statuses status
unfolding first_unknown
first_unknown-FirstUnknown [] status h = cc
first_unknown-FirstUnknown (first ∷ rest) status h = elim (Bool-cases (is_local_status first)) [
  | inr l ↦
      let e : first ≡ status = unknown_here first rest status h l in
      ([], rest, ap (λ x. x ∷ rest) e, refl, subst (λ x. is_local_status x ≡ false) e l)
  | inl l ↦
      let (before, after, e, known, u) =
        first_unknown-FirstUnknown rest status (unknown_later first rest status h l) in
      (first ∷ before, after, ap (λ xs. first ∷ xs) e, rw (l, known) refl, u)
]

known-Aggregated :
    (first : String) (rest : List String)
    → first_unknown (first ∷ rest) ≡ none
    → Aggregated (first ∷ rest) (aggregate_local_status (first ∷ rest))
known-Aggregated first rest known =
    let statuses = first ∷ rest in
    let total = four-add is_local_status _ _ _ _ statuses one_status (all_local statuses known) in
    subst (Aggregated statuses) (sym (aggregate_known first rest known)) (
      made _ total (
        bits-Summarizes (length statuses) (tally_of "accepted" statuses) (tally_of "sent" statuses)
          (tally_of "delivered" statuses) (tally_of "failed" statuses) (occurs "accepted" statuses)
          (occurs "sent" statuses) (occurs "delivered" statuses) (occurs "failed" statuses) total
          (omega arith) (sym (occurs-tally_of "accepted" statuses))
          (sym (occurs-tally_of "sent" statuses)) (sym (occurs-tally_of "delivered" statuses))
          (sym (occurs-tally_of "failed" statuses))))

-- The summary of the statuses of recipients is refused exactly if there is none, or if one is not among
-- the four that are known, and then the first of these is named. Otherwise it says delivered exactly
-- if all are delivered, failed exactly if all have failed, sent exactly if some are sent or delivered
-- but not all delivered, and accepted exactly if none is sent or delivered and not all have
-- failed. It is partial exactly if some have failed, but not all.
pub aggregate-Aggregated :
    (statuses : List String) → Aggregated statuses (aggregate_local_status statuses)
unfolding aggregate_local_status
aggregate-Aggregated [] = empty refl
aggregate-Aggregated (first ∷ rest) = elim (Option-cases (first_unknown (first ∷ rest))) [
  | inl known ↦ known-Aggregated first rest known
  | inr (status, u) ↦
      rw (u, aggregate_local_status)
        (unknown status (first_unknown-FirstUnknown (first ∷ rest) status u))
]
