-- ===== src/Manifest/Scheduler/Count.antt =====
-- backend/enterprise_platform/easyauth/manifest_scheduler.py: what the threads of a scheduler weigh.
use easy_frame.Prelude.{ℕ, ◌+◌, ◌≤◌, Bool, true, false, List, [], ◌∷◌, ◌++◌, ◌≡◌, ap, arith}
use easy_frame.Manifest.Scheduler.Threads.{
  Activity, spawning, starting, calling, stopping, straying, arming, waiting, firing,
}

abbrev pub bit : Bool → ℕ
bit true = 1
bit false = 0

pub bit-le : (b : Bool) → bit b ≤ 1
bit-le true = omega arith
bit-le false = omega arith

-- the threads that own the worker's place
abbrev pub owner : Activity → ℕ
owner (spawning _ _ _) = 1
owner (starting _ _) = 1
owner (calling _ _) = 1
owner stopping = 1
owner straying = 0
owner (arming _) = 0
owner (waiting _) = 0
owner (firing _) = 0

-- those that will stop a worker that is not theirs
abbrev pub stray : Activity → ℕ
stray straying = 1
stray _ = 0

-- those that are to put off a run, or are the timer that does
abbrev pub deferral : Activity → ℕ
deferral (arming _) = 1
deferral (waiting _) = 1
deferral _ = 0

-- those on the way to a forced run
abbrev pub forced : Activity → ℕ
forced (spawning _ force _) = bit force
forced (starting force _) = bit force
forced _ = 0

abbrev pub total : (Activity → ℕ) → List Activity → ℕ
total weight [] = 0
total weight (a ∷ xs) = weight a + total weight xs

pub total-append :
    (weight : Activity → ℕ) (xs ys : List Activity)
    → total weight (xs ++ ys) ≡ total weight xs + total weight ys
total-append weight [] ys = omega arith
total-append weight (a ∷ xs) ys = omega (arith, total-append weight xs ys)

-- One thread goes on xs others.
pub total-turn :
    (weight : Activity → ℕ) (all before after : List Activity) (a : Activity) (now : List Activity)
    → all ≡ before ++ a ∷ after
    → total weight (before ++ (now ++ after)) + weight a ≡ total weight all + total weight now
total-turn weight all before after a now e = omega (
  arith,
  total-append weight before (now ++ after),
  total-append weight now after,
  total-append weight before (a ∷ after),
  ap (total weight) e,
)
