-- ===== src/RateLimit/Counter.antt =====
-- backend/enterprise_platform/rate_limit.py, `Window` and `BoundedSlidingWindowCounter`. Times are
-- whole ticks of the monotonic clock, handed in where the source reads it, and each method is one
-- critical section of `self._lock`. A comparison with `now - seconds` is written without the
-- subtraction, which stops at 0 on ℕ.
use easy_frame.Prelude.{
  ℕ, ◌+◌, String, Bool, true, Option, none, some, List, [], ◌∷◌, ◌++◌, ltb, leb, length, filter,
  if◌then◌else◌, pair_eq, string_eq,
}
use easy_frame.Prelude.Dict.{Dict, lookup, insert, remove}
use easy_frame.Prelude.Recency.{move_to_end, pop_oldest}
use easy_frame.Prelude.Selection.{keys_where, remove_all}

pub record Window : Type 0 where
  pub max_attempts : ℕ
  pub window_seconds : ℕ

abbrev pub Key : Type 0
Key = String × String

pub record Counter : Type 0 where
  pub hits : Dict Key (List ℕ)
  pub max_keys : ℕ
  pub entry_ttl_seconds : ℕ
  pub last_sweep : ℕ

abbrev pub sweep_interval_seconds : ℕ
sweep_interval_seconds = 60

abbrev pub max_tracked_keys : ℕ
max_tracked_keys = 20_000

abbrev pub entry_ttl_seconds_default : ℕ
entry_ttl_seconds_default = 900

unfoldable pub init : ℕ → ℕ → ℕ → Counter
init now max_keys entry_ttl_seconds = record {
  hits = [];
  max_keys = max_keys;
  entry_ttl_seconds = entry_ttl_seconds;
  last_sweep = now;
}

abbrev pub items_or_none : Option (List ℕ) → List ℕ
items_or_none none = []
items_or_none (some items) = items

-- `self._hits.get(key, ())`
unfoldable pub timestamps : Counter → Key → List ℕ
timestamps s key = items_or_none (lookup key s.hits)

-- `[item for item in items if item > now - window.window_seconds]`
unfoldable pub in_window : ℕ → Window → List ℕ → List ℕ
in_window now window = filter (λ item. ltb now (item + window.window_seconds))

-- `not timestamps or timestamps[-1] <= now - ttl`
unfoldable pub is_stale : ℕ → ℕ → List ℕ → Bool
is_stale now ttl [] = true
is_stale now ttl (item ∷ []) = leb (item + ttl) now
is_stale now ttl (_ ∷ item ∷ items) = is_stale now ttl (item ∷ items)

-- `_sweep_expired`: the expired keys are collected, then deleted
unfoldable pub sweep_expired : ℕ → Counter → Counter
unfolding is_stale
sweep_expired now s = if ltb now (s.last_sweep + sweep_interval_seconds) then s else record s {
  last_sweep = now;
  hits = remove_all (keys_where (is_stale now s.entry_ttl_seconds) s.hits) s.hits;
}

-- `record`: the new state, and the attempts in the window with this one
unfoldable pub record_attempt : ℕ → Key → Window → Counter → Counter × ℕ
unfolding sweep_expired timestamps in_window
record_attempt now key window s =
    let swept = sweep_expired now s in
    let items = in_window now window (timestamps swept key) ++ now ∷ [] in
    let hits = move_to_end key (insert key items swept.hits) in
    (record swept { hits = pop_oldest swept.max_keys hits }, length items)

unfoldable pub count : ℕ → Key → Window → Counter → ℕ
unfolding timestamps in_window
count now key window s = length (in_window now window (timestamps s key))

unfoldable pub clear : Key → Counter → Counter
clear key s = record s { hits = remove key s.hits }

unfoldable pub reset : ℕ → Counter → Counter
reset now s = record s { hits = []; last_sweep = now }

unfoldable pub tracked_keys : Counter → ℕ
tracked_keys s = length s.hits
