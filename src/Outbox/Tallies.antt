-- ===== src/Outbox/Tallies.antt =====
-- backend/enterprise_platform/notification_outbox.py: how many recipients have each status, and what a
-- summary of known statuses says of them.
use easy_frame.Prelude.{
  ℕ, ◌+◌, ◌≤◌, ltb, leb, length, filter, ◌&&◌, String, Bool, true, false, not, ◌||◌, ◌≡◌, refl,
  none, List, [], ◌∷◌, ◌==◌, string_eq, ==_iff, any, all, if◌then◌else◌, arith, ap, Bool-cases, inl,
  inr,
}
use easy_frame.Prelude.Result.{ok}
use easy_frame.Outbox.Status.{
  AggregatedLocalStatus, is_local_status, first_unknown, summarize, aggregate_local_status,
}

abbrev pub occurs : String → List String → Bool
occurs status statuses = any (λ other. other == status) statuses

-- A known status is one of the four, and no other.
pub local_status_cases :
    (status : String)
    → is_local_status status ≡ true
    → ((status == "delivered")
        ≡ not (status == "accepted" || (status == "sent" || status == "failed")))
      × ((status == "failed")
          ≡ not (status == "accepted" || (status == "sent" || status == "delivered")))
local_status_cases status h = elim (Bool-cases (status == "accepted")) [
  | inl p ↦ rw ((==_iff status "accepted").0 p) (refl, refl)
  | inr p ↦ elim (Bool-cases (status == "sent")) [
    | inl q ↦ rw ((==_iff status "sent").0 q) (refl, refl)
    | inr q ↦ elim (Bool-cases (status == "delivered")) [
      | inl r ↦ rw ((==_iff status "delivered").0 r) (refl, refl)
      | inr r ↦ rw ((==_iff status "failed").0 (ground (arith, h, p, q, r))) (refl, refl)
    ]
  ]
]

-- If `p` is the absence of three others on the elements, "all are `p`" is the absence of them.
pub all-absent :
    (l p a b c : String → Bool) (xs : List String)
    → ((x : String) → l x ≡ true → p x ≡ not (a x || (b x || c x)))
    → all l xs ≡ true
    → all p xs ≡ not (any a xs || (any b xs || any c xs))
all-absent l p a b c [] f h = refl
all-absent l p a b c (x ∷ xs) f h = ground (arith, f x, all-absent l p a b c xs f)

pub all_local :
    (statuses : List String) → first_unknown statuses ≡ none → all is_local_status statuses ≡ true
unfolding first_unknown
all_local [] h = refl
all_local (status ∷ statuses) h = ground (arith, all_local statuses)

pub all_delivered :
    (statuses : List String)
    → first_unknown statuses ≡ none
    → all (λ status. status == "delivered") statuses
      ≡ not (occurs "accepted" statuses || (occurs "sent" statuses || occurs "failed" statuses))
all_delivered statuses h =
    all-absent is_local_status (λ status. status == "delivered") (λ status. status == "accepted")
      (λ status. status == "sent") (λ status. status == "failed") statuses
      (λ status l. (local_status_cases status l).0) (all_local statuses h)

pub all_failed :
    (statuses : List String)
    → first_unknown statuses ≡ none
    → all (λ status. status == "failed") statuses
      ≡ not (occurs "accepted" statuses || (occurs "sent" statuses || occurs "delivered" statuses))
all_failed statuses h =
    all-absent is_local_status (λ status. status == "failed") (λ status. status == "accepted")
      (λ status. status == "sent") (λ status. status == "delivered") statuses
      (λ status l. (local_status_cases status l).1) (all_local statuses h)

pub any_or :
    (p q : String → Bool) (xs : List String) → any (λ x. p x || q x) xs ≡ (any p xs || any q xs)
any_or p q [] = refl
any_or p q (x ∷ xs) = ground (arith, any_or p q xs)

-- The summary read off from which of the four statuses occur.
unfoldable pub summary_of : Bool → Bool → Bool → Bool → AggregatedLocalStatus
summary_of accepted sent delivered failed =
    if not (accepted || (sent || failed))
    then record { status = "delivered"; partial = false }
    else if not (accepted || (sent || delivered))
    then record { status = "failed"; partial = false }
    else if sent || delivered
    then record { status = "sent"; partial = failed }
    else record { status = "accepted"; partial = failed }

pub summarize_lem :
    (statuses : List String)
    → first_unknown statuses ≡ none
    → summarize statuses
      ≡ summary_of
          (occurs "accepted" statuses)
          (occurs "sent" statuses)
          (occurs "delivered" statuses)
          (occurs "failed" statuses)
unfolding summarize summary_of
summarize_lem statuses h =
    rw
      (
        all_delivered statuses h,
        all_failed statuses h,
        any_or (λ status. status == "sent") (λ status. status == "delivered") statuses,
      )
      refl

pub aggregate_known :
    (first : String) (rest : List String)
    → first_unknown (first ∷ rest) ≡ none
    → aggregate_local_status (first ∷ rest)
      ≡ ok (
          summary_of
            (occurs "accepted" (first ∷ rest))
            (occurs "sent" (first ∷ rest))
            (occurs "delivered" (first ∷ rest))
            (occurs "failed" (first ∷ rest)))
unfolding aggregate_local_status
aggregate_known first rest h =
    rw (h, aggregate_local_status) (ap ok (summarize_lem (first ∷ rest) h))

-- the number of recipients with a status
abbrev pub tally_of : String → List String → ℕ
tally_of status statuses = length (filter (λ other. other == status) statuses)

pub occurs-tally_of :
    (status : String) (statuses : List String)
    → occurs status statuses ≡ ltb 0 (tally_of status statuses)
occurs-tally_of status [] = refl
occurs-tally_of status (other ∷ statuses) = ground (arith, occurs-tally_of status statuses)

-- the numbers of four tests, of which each element passes exactly one
pub four-add :
    (l a b c d : String → Bool) (xs : List String)
    → ((x : String)
        → l x ≡ true
        → length (filter a (x ∷ []))
            + length (filter b (x ∷ []))
            + length (filter c (x ∷ []))
            + length (filter d (x ∷ []))
          ≡ 1)
    → all l xs ≡ true
    → length (filter a xs) + length (filter b xs) + length (filter c xs) + length (filter d xs)
      ≡ length xs
four-add l a b c d [] one h = omega arith
four-add l a b c d (x ∷ xs) one h = ground (arith, one x, four-add l a b c d xs one)

pub one_status :
    (status : String)
    → is_local_status status ≡ true
    → tally_of "accepted" (status ∷ [])
        + tally_of "sent" (status ∷ [])
        + tally_of "delivered" (status ∷ [])
        + tally_of "failed" (status ∷ [])
      ≡ 1
one_status status h = elim (Bool-cases (status == "accepted")) [
  | inl p ↦ rw ((==_iff status "accepted").0 p) refl
  | inr p ↦ elim (Bool-cases (status == "sent")) [
    | inl q ↦ rw ((==_iff status "sent").0 q) refl
    | inr q ↦ elim (Bool-cases (status == "delivered")) [
      | inl r ↦ rw ((==_iff status "delivered").0 r) refl
      | inr r ↦ rw ((==_iff status "failed").0 (ground (arith, h, p, q, r))) refl
    ]
  ]
]

-- What a summary of `n` recipients says, by how many of them have each status.
abbrev pub Summarizes : ℕ → ℕ → ℕ → ℕ → ℕ → AggregatedLocalStatus → Type 0
Summarizes n accepted sent delivered failed summary =
    ((summary.status == "delivered") ≡ leb n delivered)
    × ((summary.status == "failed") ≡ leb n failed)
    × ((summary.status == "sent") ≡ (ltb 0 (sent + delivered) && ltb delivered n))
    × ((summary.status == "accepted") ≡ (leb (sent + delivered) 0 && ltb failed n))
    × (summary.partial ≡ (ltb 0 failed && ltb failed n))

pub bits-Summarizes :
    (n accepted sent delivered failed : ℕ) (a s d f : Bool)
    → accepted + sent + delivered + failed ≡ n
    → 1 ≤ n
    → ltb 0 accepted ≡ a
    → ltb 0 sent ≡ s
    → ltb 0 delivered ≡ d
    → ltb 0 failed ≡ f
    → Summarizes n accepted sent delivered failed (summary_of a s d f)
unfolding summary_of
bits-Summarizes n accepted sent delivered failed true true true true h q pa ps pd pf =
    ground (arith, h, q, pa, ps, pd, pf)
bits-Summarizes n accepted sent delivered failed true true true false h q pa ps pd pf =
    ground (arith, h, q, pa, ps, pd, pf)
bits-Summarizes n accepted sent delivered failed true true false true h q pa ps pd pf =
    ground (arith, h, q, pa, ps, pd, pf)
bits-Summarizes n accepted sent delivered failed true true false false h q pa ps pd pf =
    ground (arith, h, q, pa, ps, pd, pf)
bits-Summarizes n accepted sent delivered failed true false true true h q pa ps pd pf =
    ground (arith, h, q, pa, ps, pd, pf)
bits-Summarizes n accepted sent delivered failed true false true false h q pa ps pd pf =
    ground (arith, h, q, pa, ps, pd, pf)
bits-Summarizes n accepted sent delivered failed true false false true h q pa ps pd pf =
    ground (arith, h, q, pa, ps, pd, pf)
bits-Summarizes n accepted sent delivered failed true false false false h q pa ps pd pf =
    ground (arith, h, q, pa, ps, pd, pf)
bits-Summarizes n accepted sent delivered failed false true true true h q pa ps pd pf =
    ground (arith, h, q, pa, ps, pd, pf)
bits-Summarizes n accepted sent delivered failed false true true false h q pa ps pd pf =
    ground (arith, h, q, pa, ps, pd, pf)
bits-Summarizes n accepted sent delivered failed false true false true h q pa ps pd pf =
    ground (arith, h, q, pa, ps, pd, pf)
bits-Summarizes n accepted sent delivered failed false true false false h q pa ps pd pf =
    ground (arith, h, q, pa, ps, pd, pf)
bits-Summarizes n accepted sent delivered failed false false true true h q pa ps pd pf =
    ground (arith, h, q, pa, ps, pd, pf)
bits-Summarizes n accepted sent delivered failed false false true false h q pa ps pd pf =
    ground (arith, h, q, pa, ps, pd, pf)
bits-Summarizes n accepted sent delivered failed false false false true h q pa ps pd pf =
    ground (arith, h, q, pa, ps, pd, pf)
bits-Summarizes n accepted sent delivered failed false false false false h q pa ps pd pf =
    ground (arith, h, q, pa, ps, pd, pf)
