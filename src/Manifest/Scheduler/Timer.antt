-- ===== src/Manifest/Scheduler/Timer.antt =====
-- backend/enterprise_platform/easyauth/manifest_scheduler.py: one timer at a time.
use easy_frame.Prelude.{
  ℕ, ◌+◌, ◌≤◌, Bool, true, false, Option, none, some, List, [], ◌∷◌, ◌++◌, ◌≡◌, refl, ap, arith,
}
use easy_frame.Manifest.Scheduler.Flags.{
  Flags, init_flags, enter, take_pending, mark_stopped, arm, clear_defer, Taken, nothing, claimed,
  take_pending-Taken, Entered, merged, owned, enter-Entered, Armed, already, newly, arm-Armed,
}
use easy_frame.Manifest.Scheduler.Threads.{
  Activity, spawning, starting, calling, stopping, straying, arming, waiting, firing, System,
  if_owner, spawn_again, work_again, give_up, if_armed, Step, schedules, starts, misses,
  misses_last, stops, strays, calls, ends, crashes, arms, waits, waits_not, fires, restarts, Reach,
  initial, later,
}
use easy_frame.Manifest.Scheduler.Count.{bit, deferral, total, total-append, total-turn, bit-le}

-- A run is put off exactly while a thread is to start the timer, or the timer waits.
abbrev Deferred : Flags → List Activity → Type 0
Deferred flags activities = total deferral activities ≡ bit flags.defer_armed

Taken-Deferred :
    (flags : Flags) (all before after : List Activity) (a : Activity)
    (next : Option (Bool × Bool) → List Activity) (p : Option (Bool × Bool) × Flags)
    → Taken flags p
    → all ≡ before ++ a ∷ after
    → deferral a ≡ 0
    → ((o : Option (Bool × Bool)) → total deferral (next o) ≡ 0)
    → Deferred flags all
    → Deferred p.1 (before ++ (next p.0 ++ after))
Taken-Deferred flags all before after a next _ (nothing p) e d n h =
    omega (arith, total-turn deferral all before after a (next none) e, d, n none, h)
Taken-Deferred flags all before after a next _ (claimed p) e d n h =
    let got : Option (Bool × Bool) = some (flags.pending_force, flags.pending_defer) in
    omega (arith, total-turn deferral all before after a (next got) e, d, n got, h)

Entered-Deferred :
    (flags : Flags) (before after : List Activity) (force defer : Bool) (p : Bool × Flags)
    → Entered force defer flags p
    → Deferred flags (before ++ after)
    → Deferred p.1 (before ++ (if_owner p.0 force defer ++ after))
Entered-Deferred flags before after force defer _ (merged r) h = h
Entered-Deferred flags before after force defer _ (owned r) h =
    let fresh = spawning 3 force defer in
    omega
      (arith, h, total-append deferral before after, total-append deferral before (fresh ∷ after))

turn-Deferred :
    (flags flags' : Flags) (all before after : List Activity) (a : Activity) (now : List Activity)
    → all ≡ before ++ a ∷ after
    → total deferral now + bit flags.defer_armed ≡ deferral a + bit flags'.defer_armed
    → Deferred flags all
    → Deferred flags' (before ++ (now ++ after))
turn-Deferred flags flags' all before after a now e d h =
    omega (arith, total-turn deferral all before after a now e, d, h)

Armed-Deferred :
    (flags : Flags) (activities : List Activity) (force : Bool) (p : Bool × Flags)
    → Armed flags p
    → Deferred flags activities
    → Deferred p.1 (if_armed p.0 force ++ activities)
Armed-Deferred flags activities force _ (already _) h = h
Armed-Deferred flags activities force _ (newly n) h = omega (arith, h, ap bit n)

spawn_again-deferral : (n : ℕ) (o : Option (Bool × Bool)) → total deferral (spawn_again n o) ≡ 0
spawn_again-deferral n none = refl
spawn_again-deferral n (some (force, defer)) = refl

work_again-deferral : (o : Option (Bool × Bool)) → total deferral (work_again o) ≡ 0
work_again-deferral none = refl
work_again-deferral (some (force, defer)) = refl

give_up-deferral : (o : Option (Bool × Bool)) → total deferral (give_up o) ≡ 0
give_up-deferral none = refl
give_up-deferral (some _) = refl

-- a waiting timer has been armed
waiting-armed :
    (flags : Flags) (all before after : List Activity) (a : Activity)
    → all ≡ before ++ a ∷ after
    → deferral a ≡ 1
    → Deferred flags all
    → bit flags.defer_armed ≡ 1
waiting-armed flags all before after a e d h =
    omega (arith, total-turn deferral all before after a [] e, d, h, bit-le flags.defer_armed)

abbrev SingleTimer : System → Type 0
SingleTimer s = Deferred s.flags s.activities

Step-SingleTimer : {s t : System} → Step s t → SingleTimer s → SingleTimer t
unfolding mark_stopped clear_defer
Step-SingleTimer {s} (schedules force) h =
    Entered-Deferred s.flags [] s.activities force true (enter force true s.flags)
      (enter-Entered force true s.flags) h
Step-SingleTimer {s} (starts before after n force defer e) h =
    turn-Deferred s.flags s.flags s.activities before after (spawning n force defer)
      (starting force defer ∷ []) e (omega arith) h
Step-SingleTimer {s} (misses before after n force defer e) h =
    Taken-Deferred s.flags s.activities before after (spawning (n + 1) force defer) (spawn_again n)
      (take_pending s.flags) (take_pending-Taken s.flags) e refl (spawn_again-deferral n) h
Step-SingleTimer {s} (misses_last before after force defer e) h =
    Taken-Deferred s.flags s.activities before after (spawning 0 force defer) give_up
      (take_pending s.flags) (take_pending-Taken s.flags) e refl give_up-deferral h
Step-SingleTimer {s} (stops before after e) h =
    turn-Deferred s.flags (mark_stopped s.flags) s.activities before after stopping [] e
      (omega arith) h
Step-SingleTimer {s} (strays before after e) h =
    turn-Deferred s.flags (mark_stopped s.flags) s.activities before after straying [] e
      (omega arith) h
Step-SingleTimer {s} (calls before after force defer e) h =
    turn-Deferred s.flags s.flags s.activities before after (starting force defer)
      (calling force defer ∷ []) e (omega arith) h
Step-SingleTimer {s} (ends before after force defer e) h =
    Taken-Deferred s.flags s.activities before after (calling force defer) work_again
      (take_pending s.flags) (take_pending-Taken s.flags) e refl work_again-deferral h
Step-SingleTimer {s} (crashes before after force defer e) h =
    Taken-Deferred s.flags s.activities before after (calling force defer) (spawn_again 3)
      (take_pending s.flags) (take_pending-Taken s.flags) e refl (spawn_again-deferral 3) h
Step-SingleTimer {s} (arms before after force e) h =
    Armed-Deferred s.flags s.activities force (arm s.flags) (arm-Armed s.flags) h
Step-SingleTimer {s} (waits before after force e) h =
    turn-Deferred s.flags s.flags s.activities before after (arming force) (waiting force ∷ []) e
      (omega arith) h
Step-SingleTimer {s} (waits_not before after force e) h =
    turn-Deferred s.flags (clear_defer s.flags) s.activities before after (arming force) [] e
      (omega (arith, waiting-armed s.flags s.activities before after (arming force) e refl h)) h
Step-SingleTimer {s} (fires before after force e) h =
    turn-Deferred s.flags (clear_defer s.flags) s.activities before after (waiting force)
      (firing force ∷ []) e
      (omega (arith, waiting-armed s.flags s.activities before after (waiting force) e refl h)) h
Step-SingleTimer {s} (restarts before after force e) h =
    Entered-Deferred s.flags before after force false (enter force false s.flags)
      (enter-Entered force false s.flags)
      (turn-Deferred s.flags s.flags s.activities before after (firing force) [] e (omega arith) h)

Reach-SingleTimer : {s : System} → Reach s → SingleTimer s
unfolding init_flags
Reach-SingleTimer initial = refl
Reach-SingleTimer (later h step) = Step-SingleTimer step (Reach-SingleTimer h)

-- In every state that the threads of a scheduler can reach, whichever threads and timers fail to start:
-- at most one thread is to start the timer or is the timer, and there is one exactly while the
-- scheduler counts a run as put off, so that a timer that failed to start blocks no later one.
pub Reach-one_timer :
    {s : System}
    → Reach s
    → (total deferral s.activities ≡ bit s.flags.defer_armed) × (total deferral s.activities ≤ 1)
Reach-one_timer {s} h =
    let n = Reach-SingleTimer h in (n, omega (arith, n, bit-le s.flags.defer_armed))
