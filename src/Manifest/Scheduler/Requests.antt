-- ===== src/Manifest/Scheduler/Requests.antt =====
-- backend/enterprise_platform/easyauth/manifest_scheduler.py: no forced request is lost, and one timer.
use easy_frame.Prelude.{◌≤◌, Bool, true, false, not, ◌&&◌, List, [], ◌∷◌, ◌++◌, ◌≡◌, refl, arith}
use easy_frame.Manifest.Scheduler.Flags.{
  Flags, init_flags, enter, take_pending, mark_stopped, arm, clear_defer, take_pending-Taken,
  enter-Entered, Armed, already, newly, arm-Armed,
}
use easy_frame.Manifest.Scheduler.Threads.{
  Activity, spawning, starting, calling, stopping, straying, arming, waiting, firing, System,
  spawn_again, work_again, if_armed, Step, schedules, starts, misses, misses_last, stops, strays,
  calls, ends, crashes, arms, waits, waits_not, fires, restarts, Reach, initial, later,
}
use easy_frame.Manifest.Scheduler.Count.{bit, owner, forced, total, total-turn, bit-le}
use easy_frame.Manifest.Scheduler.SingleFlight.{Reach-one_worker}
use easy_frame.Manifest.Scheduler.Carried.{
  ending, Carried, Taken-Carried, Entered-Carried, turn-Carried,
}

-- While every start has succeeded, every forced request is carried.
abbrev AllCarried : System → Type 0
AllCarried s = s.dropped ≡ false → Carried s.wanted s.flags s.activities

wanted-cleared :
    (wanted : Bool) → (bit (wanted && not true) ≡ 0) × (bit (wanted && not false) ≡ bit wanted)
wanted-cleared true = (refl, refl)
wanted-cleared false = (refl, refl)

called-Carried :
    (wanted : Bool) (flags : Flags) (all before after : List Activity) (force defer : Bool)
    → all ≡ before ++ starting force defer ∷ after
    → Carried wanted flags all
    → Carried (wanted && not force) flags (before ++ calling force defer ∷ after)
called-Carried wanted flags all before after true defer e (w, k, l, m) =
    let now : List Activity = calling true defer ∷ [] in
    (
      omega (arith, wanted-cleared wanted),
      k,
      l,
      omega (arith, total-turn ending all before after (starting true defer) now e, m),
    )
called-Carried wanted flags all before after false defer e h =
    turn-Carried wanted (wanted && not false) flags flags all before after (starting false defer)
      (calling false defer ∷ []) e (omega (arith, wanted-cleared wanted)) refl refl refl refl h

Armed-Carried :
    (wanted : Bool) (flags : Flags) (activities : List Activity) (force : Bool) (p : Bool × Flags)
    → Armed flags p
    → Carried wanted flags activities
    → Carried wanted p.1 (if_armed p.0 force ++ activities)
Armed-Carried wanted flags activities force _ (already _) h = h
Armed-Carried wanted flags activities force _ (newly _) (w, k, l, m) =
    (omega (arith, w), k, l, omega (arith, m))

Step-AllCarried : {s t : System} → Step s t → AllCarried s → AllCarried t
unfolding mark_stopped clear_defer
Step-AllCarried {s} (schedules force) h q =
    Entered-Carried s.wanted s.flags [] s.activities force true (enter force true s.flags)
      (enter-Entered force true s.flags) (h q)
Step-AllCarried {s} (starts before after n force defer e) h q =
    turn-Carried s.wanted s.wanted s.flags s.flags s.activities before after
      (spawning n force defer) (starting force defer ∷ []) e (omega arith) refl refl refl refl (h q)
Step-AllCarried {s} (misses before after n force defer e) h q = ground (arith, q)
Step-AllCarried {s} (misses_last before after force defer e) h q = ground (arith, q)
Step-AllCarried {s} (stops before after e) h q =
    omega (arith, total-turn ending s.activities before after stopping [] e, h q)
Step-AllCarried {s} (strays before after e) h q =
    omega (arith, total-turn ending s.activities before after straying [] e, h q)
Step-AllCarried {s} (calls before after force defer e) h q =
    called-Carried s.wanted s.flags s.activities before after force defer e (h q)
Step-AllCarried {s} (ends before after force defer e) h q =
    Taken-Carried s.wanted s.flags s.activities before after (calling force defer) work_again
      (take_pending s.flags) (take_pending-Taken s.flags) e refl (refl, refl)
      (λ f d. (omega arith, refl)) (h q)
Step-AllCarried {s} (crashes before after force defer e) h q =
    Taken-Carried s.wanted s.flags s.activities before after (calling force defer) (spawn_again 3)
      (take_pending s.flags) (take_pending-Taken s.flags) e refl (refl, refl)
      (λ f d. (omega arith, refl)) (h q)
Step-AllCarried {s} (arms before after force e) h q =
    Armed-Carried s.wanted s.flags s.activities force (arm s.flags) (arm-Armed s.flags) (h q)
Step-AllCarried {s} (waits before after force e) h q =
    turn-Carried s.wanted s.wanted s.flags s.flags s.activities before after (arming force)
      (waiting force ∷ []) e (omega arith) refl refl refl refl (h q)
Step-AllCarried {s} (waits_not before after force e) h q =
    turn-Carried s.wanted s.wanted s.flags (clear_defer s.flags) s.activities before after
      (arming force) [] e (omega arith) refl refl refl refl (h q)
Step-AllCarried {s} (fires before after force e) h q =
    turn-Carried s.wanted s.wanted s.flags (clear_defer s.flags) s.activities before after
      (waiting force) (firing force ∷ []) e (omega arith) refl refl refl refl (h q)
Step-AllCarried {s} (restarts before after force e) h q =
    Entered-Carried s.wanted s.flags before after force false (enter force false s.flags)
      (enter-Entered force false s.flags)
      (turn-Carried s.wanted s.wanted s.flags s.flags s.activities before after (firing force) [] e
        (omega arith) refl refl refl refl (h q))

Reach-AllCarried : {s : System} → Reach s → AllCarried s
unfolding init_flags
Reach-AllCarried initial = λ q. (omega arith, omega arith, omega arith, refl)
Reach-AllCarried (later h step) = Step-AllCarried step (Reach-AllCarried h)

-- A start that fails is the only way to stray.
Unstrayed : System → Type 0
Unstrayed s = s.dropped ≡ false → s.strayed ≡ false

Step-Unstrayed : {s t : System} → Step s t → Unstrayed s → Unstrayed t
unfolding Unstrayed
Step-Unstrayed (schedules force) h = h
Step-Unstrayed (starts before after n force defer e) h = h
Step-Unstrayed (misses before after n force defer e) h = λ q. ground (arith, q)
Step-Unstrayed (misses_last before after force defer e) h = λ q. ground (arith, q)
Step-Unstrayed (stops before after e) h = h
Step-Unstrayed (strays before after e) h = h
Step-Unstrayed (calls before after force defer e) h = h
Step-Unstrayed (ends before after force defer e) h = h
Step-Unstrayed (crashes before after force defer e) h = h
Step-Unstrayed (arms before after force e) h = h
Step-Unstrayed (waits before after force e) h = h
Step-Unstrayed (waits_not before after force e) h = h
Step-Unstrayed (fires before after force e) h = h
Step-Unstrayed (restarts before after force e) h = h

Reach-Unstrayed : {s : System} → Reach s → Unstrayed s
unfolding Unstrayed
Reach-Unstrayed initial = λ q. refl
Reach-Unstrayed (later h step) = Step-Unstrayed step (Reach-Unstrayed h)

forced-owner : (a : Activity) → forced a ≤ owner a
forced-owner (spawning n force defer) = bit-le force
forced-owner (starting force defer) = bit-le force
forced-owner (calling force defer) = omega arith
forced-owner stopping = omega arith
forced-owner straying = omega arith
forced-owner (arming force) = omega arith
forced-owner (waiting force) = omega arith
forced-owner (firing force) = omega arith

forced-owners : (activities : List Activity) → total forced activities ≤ total owner activities
forced-owners [] = omega arith
forced-owners (a ∷ activities) = omega (arith, forced-owner a, forced-owners activities)

bit-false : (b : Bool) → bit b ≡ 0 → b ≡ false
bit-false true h = ground (arith, h)
bit-false false h = refl

-- In every state that the threads of a scheduler can reach while no start of a worker has failed: when
-- no thread owns the worker's place, neither to spawn it nor as the worker, every forced request, made
-- by a caller or by a timer, has been followed by the begin of a forced run.
pub idle_has_run :
    {s : System} → Reach s → s.dropped ≡ false → total owner s.activities ≡ 0 → s.wanted ≡ false
unfolding Unstrayed
idle_has_run {s} h q idle =
    let (w, k, l, m) = Reach-AllCarried h q in
    let (n, o) = Reach-one_worker h (Reach-Unstrayed h q) in
    bit-false s.wanted (omega (arith, w, k, l, n, idle, forced-owners s.activities))
