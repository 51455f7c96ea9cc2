-- ===== src/Authz/Refresher.antt =====
-- backend/enterprise_platform/authz/snapshot_freshness.py: `BackgroundRefresher`, which runs at most
-- one refresh of a key at a time. Each critical section is one step; the thread pool is a library's, so
-- whether it takes a job is left open. What only serves `wait` and the log is not modelled.
use easy_frame.Prelude.{
  ℕ, ◌+◌, ◌≤◌, String, Bool, true, false, not, ◌&&◌, ◌||◌, ◌≡◌, refl, ◌↔◌, List, [], ◌∷◌, ◌==◌,
  string_eq, ==_iff, any, filter, length, if◌then◌else◌, arith,
}

pub record Refresher : Type 0 where
  pub has_pool : Bool
  pub is_shutdown : Bool
  pub inflight : List String

abbrev pub in_flight : String → List String → Bool
in_flight key keys = any (λ other. other == key) keys

unfoldable pub new_refresher : Refresher
new_refresher = record { has_pool = false; is_shutdown = false; inflight = [] }

-- `_claim_key`
unfoldable pub claim_key : String → Refresher → Bool × Refresher
claim_key key s =
    if s.is_shutdown || in_flight key s.inflight
    then (false, s)
    else (true, record s { inflight = key ∷ s.inflight })

-- `_release_key`
unfoldable pub release_key : String → Refresher → Refresher
release_key key s = record s { inflight = filter (λ other. not (other == key)) s.inflight }

-- `_executor`: whether there is one, which a shutdown forbids
unfoldable pub executor : Refresher → Bool × Refresher
executor s = if s.is_shutdown then (false, s) else (true, record s { has_pool = true })

-- the two critical sections of `shutdown`
unfoldable pub forbid : Refresher → Refresher
forbid s = record s { is_shutdown = true }

unfoldable pub drop_pool : Refresher → Refresher
drop_pool s = record s { has_pool = false }

-- The refresher with the calls of `schedule` that have claimed a key and not submitted yet, and the
-- jobs that the pool has taken and not finished, each by its key.
pub record System : Type 0 where
  pub refresher : Refresher
  pub claimed : List String
  pub running : List String

-- one occurrence less
unfoldable pub without : String → List String → List String
without key [] = []
without key (other ∷ keys) =
    let rest = without key keys in if other == key then keys else other ∷ rest

-- One step of some thread.
pub data Step : System → System → Type 0 where
  -- `schedule` begins; where the claim is refused it returns `False` and changes nothing
  claims :
      (key : String) (s : System)
      → (claim_key key s.refresher).0 ≡ true
      → Step s (record {
        refresher = (claim_key key s.refresher).1;
        claimed = key ∷ s.claimed;
        running = s.running;
      })
  -- the executor takes the job
  submits :
      (key : String) (s : System)
      → in_flight key s.claimed ≡ true
      → (executor s.refresher).0 ≡ true
      → Step s (record {
        refresher = (executor s.refresher).1;
        claimed = without key s.claimed;
        running = key ∷ s.running;
      })
  -- there is no executor, or it does not take the job: the key is released
  fails :
      (key : String) (s : System)
      → in_flight key s.claimed ≡ true
      → Step s (record {
        refresher = release_key key (executor s.refresher).1;
        claimed = without key s.claimed;
        running = s.running;
      })
  -- `_on_done`, after the job returned, raised or was cancelled
  finishes :
      (key : String) (s : System)
      → in_flight key s.running ≡ true
      → Step s (record {
        refresher = release_key key s.refresher;
        claimed = s.claimed;
        running = without key s.running;
      })
  forbids : (s : System) → Step s (record s { refresher = forbid s.refresher })
  drops : (s : System) → Step s (record s { refresher = drop_pool s.refresher })

pub data Reachable : System → Type 0 where
  begin : Reachable (record { refresher = new_refresher; claimed = []; running = [] })
  then_step : (s t : System) → Reachable s → Step s t → Reachable t

abbrev pub occurrences : String → List String → ℕ
occurrences key keys = length (filter (λ other. other == key) keys)

-- Calls and jobs of the key.
abbrev pub work : String → System → ℕ
work key s = occurrences key s.claimed + occurrences key s.running

occurrences-without :
    (key other : String) (keys : List String)
    → in_flight key keys ≡ true
    → occurrences other keys
      ≡ occurrences other (without key keys) + (if key == other then 1 else 0)
unfolding without
occurrences-without key other [] h = cc
occurrences-without key other (first ∷ keys) h = ground (
  arith,
  ==_iff first key,
  ==_iff first other,
  ==_iff key other,
  occurrences-without key other keys,
)

in_flight-release :
    (key other : String) (keys : List String)
    → in_flight other (filter (λ k. not (k == key)) keys)
      ≡ (in_flight other keys && not (key == other))
in_flight-release key other [] = refl
in_flight-release key other (first ∷ keys) = ground (
  arith,
  ==_iff first key,
  ==_iff first other,
  ==_iff key other,
  in_flight-release key other keys,
)

abbrev Counted : String → System → Type 0
Counted other s = work other s ≡ (if in_flight other s.refresher.inflight then 1 else 0)

executor_keeps : (s : Refresher) → (executor s).1.inflight ≡ s.inflight
unfolding executor
executor_keeps s = ground arith

step-Counted :
    (s t : System)
    → Step s t
    → ((key : String) → Counted key s)
    → (other : String) → Counted other t
unfolding claim_key release_key forbid drop_pool
step-Counted s t (claims key _ p) h other = ground (arith, p, h other, ==_iff key other)
step-Counted s t (submits key _ p q) h other =
    rw (executor_keeps s.refresher)
      (ground (arith, h other, occurrences-without key other s.claimed p))
step-Counted s t (fails key _ p) h other =
    rw (executor_keeps s.refresher, in_flight-release key other s.refresher.inflight)
      (ground (arith, h other, ==_iff key other, occurrences-without key other s.claimed p))
step-Counted s t (finishes key _ p) h other =
    rw (in_flight-release key other s.refresher.inflight)
      (ground (arith, h other, ==_iff key other, occurrences-without key other s.running p))
step-Counted s t (forbids _) h other = h other
step-Counted s t (drops _) h other = h other

Reachable-Counted : (s : System) → Reachable s → (key : String) → Counted key s
unfolding new_refresher
Reachable-Counted s begin key = omega arith
Reachable-Counted t (then_step s _ r p) key = step-Counted s t p (Reachable-Counted s r) key

-- In every state that any interleaving of schedules, jobs and shutdowns reaches: for each key there is
-- at most one call or job under way, and there is one exactly when the key is in flight. So no key
-- is refreshed twice at a time, and none stays blocked once its work has ended.
pub Reachable-single :
    (s : System) (key : String)
    → Reachable s
    → (work key s ≤ 1) × ((work key s ≡ 1) ↔ (in_flight key s.refresher.inflight ≡ true))
Reachable-single s key r = ground (arith, Reachable-Counted s r key)
