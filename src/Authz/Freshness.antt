-- ===== src/Authz/Freshness.antt =====
-- backend/enterprise_platform/authz/snapshot_freshness.py: how fresh a permission snapshot is. An
-- instant is a number of seconds in UTC; the ratio is 40 in a hundred, and may be any other.
use easy_frame.Prelude.{ℕ, ◌+◌, ◌-◌, ◌*◌, ◌≤◌, ◌≡◌, if◌then◌else◌, ltb, leb, arith}

pub data SnapshotFreshness : Type 0 where
  fresh : SnapshotFreshness
  near_expiry : SnapshotFreshness
  stale_grace : SnapshotFreshness
  expired : SnapshotFreshness

abbrev pub near_expiry_percent : ℕ
near_expiry_percent = 40

abbrev pub stale_grace_seconds : ℕ
stale_grace_seconds = 600

-- `_freshness_before_expiry`, called only before the expiry, and after the fetch of a snapshot that
-- expires later
unfoldable pub freshness_before_expiry : ℕ → ℕ → ℕ → ℕ → SnapshotFreshness
freshness_before_expiry fetched_at expires_at now percent =
    if ltb (100 * (expires_at - now)) (percent * (expires_at - fetched_at))
    then near_expiry
    else fresh

unfoldable pub classify_snapshot : ℕ → ℕ → ℕ → ℕ → ℕ → SnapshotFreshness
unfolding freshness_before_expiry
classify_snapshot fetched_at expires_at now percent grace =
    if leb expires_at fetched_at
    then expired
    else if ltb now expires_at
    then freshness_before_expiry fetched_at expires_at now percent
    else if ltb now (expires_at + grace)
    then stale_grace
    else expired

-- `invalidated_expires_at`
unfoldable pub invalidated_expires_at : ℕ → ℕ
invalidated_expires_at fetched_at = fetched_at

-- how stale a class is
unfoldable pub staleness : SnapshotFreshness → ℕ
staleness fresh = 0
staleness near_expiry = 1
staleness stale_grace = 2
staleness expired = 3

before_expiry_monotone :
    (fetched_at expires_at now later percent : ℕ)
    → now ≤ later
    → staleness (freshness_before_expiry fetched_at expires_at now percent)
      ≤ staleness (freshness_before_expiry fetched_at expires_at later percent)
unfolding staleness freshness_before_expiry
before_expiry_monotone fetched_at expires_at now later percent h = ground arith

-- As time goes on a snapshot only gets staler, whatever the ratio and the grace; and one that was
-- invalidated has expired at every time, also one before the fetch.
pub classify_monotone :
    (fetched_at expires_at now later percent grace : ℕ)
    → now ≤ later
    → (staleness (classify_snapshot fetched_at expires_at now percent grace)
        ≤ staleness (classify_snapshot fetched_at expires_at later percent grace))
      × (classify_snapshot fetched_at (invalidated_expires_at fetched_at) now percent grace
          ≡ expired)
unfolding staleness classify_snapshot invalidated_expires_at
classify_monotone fetched_at expires_at now later percent grace h =
    (ground (arith, before_expiry_monotone fetched_at expires_at now later percent h), ground arith)
