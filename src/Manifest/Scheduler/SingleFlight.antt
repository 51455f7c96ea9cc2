-- ===== src/Manifest/Scheduler/SingleFlight.antt =====
-- backend/enterprise_platform/easyauth/manifest_scheduler.py: one worker and one timer at a time.
use easy_frame.Prelude.{
  ◌+◌, ◌≤◌, Bool, true, false, ◌||◌, Option, none, some, List, [], ◌∷◌, ◌++◌, ◌≡◌, refl, ap, ◌∙◌,
  arith,
}
use easy_frame.Manifest.Scheduler.Flags.{
  Flags, init_flags, enter, take_pending, mark_stopped, arm, clear_defer, Taken, nothing, claimed,
  take_pending-Taken, Entered, merged, owned, enter-Entered, Armed, already, newly, arm-Armed,
}
use easy_frame.Manifest.Scheduler.Threads.{
  Activity, spawning, starting, calling, stopping, straying, arming, waiting, firing, System,
  if_owner, spawn_again, work_again, give_up, is_none, if_armed, Step, schedules, starts, misses,
  misses_last, stops, strays, calls, ends, crashes, arms, waits, waits_not, fires, restarts, Reach,
  initial, later,
}
use easy_frame.Manifest.Scheduler.Count.{bit, owner, stray, total, total-turn, bit-le}

-- The place of the worker is taken exactly if a thread owns it, and none strays.
abbrev Owned : Flags → List Activity → Type 0
Owned flags activities = (total owner activities ≡ bit flags.running) × (total stray activities ≡ 0)

-- A thread gives its place to what `_take_pending` leaves of it.
Taken-Owned :
    (flags : Flags) (all before after : List Activity) (a : Activity)
    (again : Option (Bool × Bool) → List Activity) (p : Option (Bool × Bool) × Flags)
    → Taken flags p
    → all ≡ before ++ a ∷ after
    → owner a ≡ 1
    → stray a ≡ 0
    → (total owner (again none) ≡ 0) × (total stray (again none) ≡ 0)
    → ((c : Bool × Bool) → (total owner (again (some c)) ≡ 1) × (total stray (again (some c)) ≡ 0))
    → Owned flags all
    → Owned p.1 (before ++ (again p.0 ++ after))
Taken-Owned flags all before after a again _ (nothing p) e o t n c (h, g) = (
  omega
      (arith, total-turn owner all before after a (again none) e, h, o, n.0, bit-le flags.running),
  omega (arith, total-turn stray all before after a (again none) e, g, n.1),
)
Taken-Owned flags all before after a again _ (claimed p) e o t n c (h, g) =
    let got : Bool × Bool = (flags.pending_force, flags.pending_defer) in
    (
      omega (
        arith,
        total-turn owner all before after a (again (some got)) e,
        total-turn owner all before after a [] e,
        h,
        o,
        (c got).0,
        bit-le flags.running,
      ),
      omega (arith, total-turn stray all before after a (again (some got)) e, g, (c got).1),
    )

-- A claim that is not spawned.
abbrev kept : Option (Bool × Bool) → List Activity
kept none = []
kept (some _) = stopping ∷ []

-- A thread goes on with the same weights.
turn-Owned :
    (flags : Flags) (all before after : List Activity) (a b : Activity)
    → all ≡ before ++ a ∷ after
    → owner a ≡ owner b
    → stray b ≡ 0
    → Owned flags all
    → Owned flags (before ++ b ∷ after)
turn-Owned flags all before after a b e o t (h, g) = (
  omega (arith, total-turn owner all before after a (b ∷ []) e, o, h),
  omega (arith, total-turn stray all before after a (b ∷ []) e, t, g),
)

-- `_start`, by threads that weigh nothing
Entered-Owned :
    (flags : Flags) (activities : List Activity) (force defer : Bool) (p : Bool × Flags)
    → Entered force defer flags p
    → Owned flags activities
    → Owned p.1 (if_owner p.0 force defer ++ activities)
Entered-Owned flags activities force defer _ (merged r) (h, g) = (h ∙ ap bit refl, g)
Entered-Owned flags activities force defer _ (owned r) (h, g) =
    (omega (arith, h, ap bit r), omega (arith, g))

restarted-Owned :
    (flags : Flags) (all before after : List Activity) (force : Bool) (p : Bool × Flags)
    → Entered force false flags p
    → all ≡ before ++ firing force ∷ after
    → Owned flags all
    → Owned p.1 (before ++ (if_owner p.0 force false ++ after))
restarted-Owned flags all before after force _ (merged r) e (h, g) = (
  omega (arith, total-turn owner all before after (firing force) [] e, h),
  omega (arith, total-turn stray all before after (firing force) [] e, g),
)
restarted-Owned flags all before after force _ (owned r) e (h, g) =
    let fresh : List Activity = spawning 3 force false ∷ [] in
    (
      omega (arith, total-turn owner all before after (firing force) fresh e, h, ap bit r),
      omega (arith, total-turn stray all before after (firing force) fresh e, g),
    )

Armed-Owned :
    (flags : Flags) (activities : List Activity) (force : Bool) (p : Bool × Flags)
    → Armed flags p
    → Owned flags activities
    → Owned p.1 (if_armed p.0 force ++ activities)
Armed-Owned flags activities force _ (already _) h = h
Armed-Owned flags activities force _ (newly _) (h, g) = (omega (arith, h), omega (arith, g))

abbrev pub SingleWorker : System → Type 0
SingleWorker s = s.strayed ≡ false → Owned s.flags s.activities

last-Owned :
    (flags : Flags) (all before after : List Activity) (force defer strayed : Bool)
    (p : Option (Bool × Bool) × Flags)
    → Taken flags p
    → all ≡ before ++ spawning 0 force defer ∷ after
    → (strayed ≡ false → Owned flags all)
    → strayed || is_none p.0 ≡ false
    → Owned p.1 (before ++ (give_up p.0 ++ after))
last-Owned flags all before after force defer true _ (nothing p) e h q = ground (arith, q)
last-Owned flags all before after force defer false _ (nothing p) e h q = ground (arith, q)
last-Owned flags all before after force defer true _ (claimed p) e h q = ground (arith, q)
last-Owned flags all before after force defer false _ (claimed p) e h q =
    Taken-Owned flags all before after (spawning 0 force defer) kept _ (claimed p) e refl refl
      (refl, refl) (λ c. (refl, refl)) (h refl)

pub Step-SingleWorker : {s t : System} → Step s t → SingleWorker s → SingleWorker t
unfolding mark_stopped clear_defer
Step-SingleWorker {s} (schedules force) h q =
    Entered-Owned s.flags s.activities force true (enter force true s.flags)
      (enter-Entered force true s.flags) (h q)
Step-SingleWorker {s} (starts before after n force defer e) h q =
    turn-Owned s.flags s.activities before after (spawning n force defer) (starting force defer) e
      refl refl (h q)
Step-SingleWorker {s} (misses before after n force defer e) h q =
    Taken-Owned s.flags s.activities before after (spawning (n + 1) force defer) (spawn_again n)
      (take_pending s.flags) (take_pending-Taken s.flags) e refl refl (refl, refl)
      (λ c. (refl, refl)) (h q)
Step-SingleWorker {s} (misses_last before after force defer e) h q =
    last-Owned s.flags s.activities before after force defer s.strayed (take_pending s.flags)
      (take_pending-Taken s.flags) e h q
Step-SingleWorker {s} (stops before after e) h q = (
  omega (
    arith,
    total-turn owner s.activities before after stopping [] e,
    (h q).0,
    bit-le s.flags.running,
  ),
  omega (arith, total-turn stray s.activities before after stopping [] e, (h q).1),
)
Step-SingleWorker {s} (strays before after e) h q = (
  omega (
    arith,
    total-turn owner s.activities before after straying [] e,
    total-turn stray s.activities before after straying [] e,
    h q,
  ),
  omega (arith, total-turn stray s.activities before after straying [] e, (h q).1),
)
Step-SingleWorker {s} (calls before after force defer e) h q =
    turn-Owned s.flags s.activities before after (starting force defer) (calling force defer) e refl
      refl (h q)
Step-SingleWorker {s} (ends before after force defer e) h q =
    Taken-Owned s.flags s.activities before after (calling force defer) work_again
      (take_pending s.flags) (take_pending-Taken s.flags) e refl refl (refl, refl)
      (λ c. (refl, refl)) (h q)
Step-SingleWorker {s} (crashes before after force defer e) h q =
    Taken-Owned s.flags s.activities before after (calling force defer) (spawn_again 3)
      (take_pending s.flags) (take_pending-Taken s.flags) e refl refl (refl, refl)
      (λ c. (refl, refl)) (h q)
Step-SingleWorker {s} (arms before after force e) h q =
    Armed-Owned s.flags s.activities force (arm s.flags) (arm-Armed s.flags) (h q)
Step-SingleWorker {s} (waits before after force e) h q =
    turn-Owned s.flags s.activities before after (arming force) (waiting force) e refl refl (h q)
Step-SingleWorker {s} (waits_not before after force e) h q = (
  omega (
    arith,
    total-turn owner s.activities before after (arming force) [] e,
    (h q).0,
    bit-le s.flags.running,
  ),
  omega (arith, total-turn stray s.activities before after (arming force) [] e, (h q).1),
)
Step-SingleWorker {s} (fires before after force e) h q =
    turn-Owned s.flags s.activities before after (waiting force) (firing force) e refl refl (h q)
Step-SingleWorker {s} (restarts before after force e) h q =
    restarted-Owned s.flags s.activities before after force (enter force false s.flags)
      (enter-Entered force false s.flags) e (h q)

Reach-SingleWorker : {s : System} → Reach s → SingleWorker s
unfolding init_flags
Reach-SingleWorker initial = λ q. (refl, refl)
Reach-SingleWorker (later h step) = Step-SingleWorker step (Reach-SingleWorker h)

-- In every state that the threads of a scheduler can reach, whatever their interleaving and whichever
-- threads and timers fail to start: at most one thread spawns, is or ends as a worker, and there is one
-- exactly while the scheduler counts as running; unless at some time the fourth try of a start has
-- failed with nothing pending.
pub Reach-one_worker :
    {s : System}
    → Reach s
    → s.strayed ≡ false
    → (total owner s.activities ≡ bit s.flags.running) × (total owner s.activities ≤ 1)
Reach-one_worker {s} h q =
    let (n, m) = Reach-SingleWorker h q in (n, omega (arith, n, bit-le s.flags.running))
