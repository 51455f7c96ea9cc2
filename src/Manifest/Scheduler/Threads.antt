-- ===== src/Manifest/Scheduler/Threads.antt =====
-- backend/enterprise_platform/easyauth/manifest_scheduler.py: the threads of one scheduler, in any
-- interleaving. Whether the operating system starts a thread or a timer is open.
use easy_frame.Prelude.{
  ℕ, ◌+◌, Bool, true, false, not, ◌&&◌, ◌||◌, Option, none, some, List, [], ◌∷◌, ◌++◌, ◌≡◌,
}
use easy_frame.Manifest.Scheduler.Flags.{
  Flags, init_flags, enter, take_pending, mark_stopped, arm, clear_defer,
}

-- Where a thread is.
pub data Activity : Type 0 where
  -- in `_spawn`, with this many tries left after this one
  spawning : ℕ → Bool → Bool → Activity
  -- a worker before its call of `run`, and in it
  starting : Bool → Bool → Activity
  calling : Bool → Bool → Activity
  -- in `_spawn` after the fourth try, with a claim and without
  stopping : Activity
  straying : Activity
  -- in `_arm_defer` before the start of the timer, the timer, and `_fire_defer` after `_clear_defer`
  arming : Bool → Activity
  waiting : Bool → Activity
  firing : Bool → Activity

pub record System : Type 0 where
  pub flags : Flags
  pub activities : List Activity
  -- Was a forced run asked for, and none has begun since?
  pub wanted : Bool
  -- Has a worker ever failed to start?
  pub dropped : Bool
  -- Has the fourth try of a `_spawn` ever failed with nothing pending?
  pub strayed : Bool

abbrev pub init : System
init = record {
  flags = init_flags;
  activities = [];
  wanted = false;
  dropped = false;
  strayed = false;
}

abbrev pub if_owner : Bool → Bool → Bool → List Activity
if_owner true force defer = spawning 3 force defer ∷ []
if_owner false force defer = []

-- what a thread goes on with after `_take_pending`
abbrev pub spawn_again : ℕ → Option (Bool × Bool) → List Activity
spawn_again tries (some (force, defer)) = spawning tries force defer ∷ []
spawn_again tries none = []

abbrev pub work_again : Option (Bool × Bool) → List Activity
work_again (some (force, defer)) = starting force defer ∷ []
work_again none = []

abbrev pub give_up : Option (Bool × Bool) → List Activity
give_up (some _) = stopping ∷ []
give_up none = straying ∷ []

abbrev pub is_none : Option (Bool × Bool) → Bool
is_none none = true
is_none (some _) = false

abbrev pub if_armed : Bool → Bool → List Activity
if_armed true force = arming force ∷ []
if_armed false force = []

pub data Step (s : System) : System → Type 0 where
  -- `schedule`
  schedules :
      (force : Bool)
      → Step s (record s {
        flags = (enter force true s.flags).1;
        activities = if_owner (enter force true s.flags).0 force true ++ s.activities;
        wanted = s.wanted || force;
      })
  starts :
      (before after : List Activity) (tries : ℕ) (force defer : Bool)
      → s.activities ≡ before ++ spawning tries force defer ∷ after
      → Step s (record s { activities = before ++ starting force defer ∷ after })
  misses :
      (before after : List Activity) (tries : ℕ) (force defer : Bool)
      → s.activities ≡ before ++ spawning (tries + 1) force defer ∷ after
      → Step s (record s {
        flags = (take_pending s.flags).1;
        activities = before ++ (spawn_again tries (take_pending s.flags).0 ++ after);
        dropped = true;
      })
  misses_last :
      (before after : List Activity) (force defer : Bool)
      → s.activities ≡ before ++ spawning 0 force defer ∷ after
      → Step s (record s {
        flags = (take_pending s.flags).1;
        activities = before ++ (give_up (take_pending s.flags).0 ++ after);
        dropped = true;
        strayed = s.strayed || is_none (take_pending s.flags).0;
      })
  stops :
      (before after : List Activity)
      → s.activities ≡ before ++ stopping ∷ after
      → Step s (record s { flags = mark_stopped s.flags; activities = before ++ after })
  strays :
      (before after : List Activity)
      → s.activities ≡ before ++ straying ∷ after
      → Step s (record s { flags = mark_stopped s.flags; activities = before ++ after })
  -- `_invoke`
  calls :
      (before after : List Activity) (force defer : Bool)
      → s.activities ≡ before ++ starting force defer ∷ after
      → Step s (record s {
        activities = before ++ calling force defer ∷ after;
        wanted = s.wanted && not force;
      })
  -- the loop of `_worker`
  ends :
      (before after : List Activity) (force defer : Bool)
      → s.activities ≡ before ++ calling force defer ∷ after
      → Step s (record s {
        flags = (take_pending s.flags).1;
        activities = before ++ (work_again (take_pending s.flags).0 ++ after);
      })
  -- its `except`, with `_respawn`
  crashes :
      (before after : List Activity) (force defer : Bool)
      → s.activities ≡ before ++ calling force defer ∷ after
      → Step s (record s {
        flags = (take_pending s.flags).1;
        activities = before ++ (spawn_again 3 (take_pending s.flags).0 ++ after);
      })
  -- `_arm_defer`, from within `run`
  arms :
      (before after : List Activity) (force : Bool)
      → s.activities ≡ before ++ calling force true ∷ after
      → Step s (record s {
        flags = (arm s.flags).1;
        activities = if_armed (arm s.flags).0 force ++ s.activities;
      })
  waits :
      (before after : List Activity) (force : Bool)
      → s.activities ≡ before ++ arming force ∷ after
      → Step s (record s { activities = before ++ waiting force ∷ after })
  waits_not :
      (before after : List Activity) (force : Bool)
      → s.activities ≡ before ++ arming force ∷ after
      → Step s (record s { flags = clear_defer s.flags; activities = before ++ after })
  fires :
      (before after : List Activity) (force : Bool)
      → s.activities ≡ before ++ waiting force ∷ after
      → Step s
          (record s { flags = clear_defer s.flags; activities = before ++ firing force ∷ after })
  -- `_start` from `_fire_defer`
  restarts :
      (before after : List Activity) (force : Bool)
      → s.activities ≡ before ++ firing force ∷ after
      → Step s (record s {
        flags = (enter force false s.flags).1;
        activities = before ++ (if_owner (enter force false s.flags).0 force false ++ after);
        wanted = s.wanted || force;
      })

pub data Reach : System → Type 0 where
  initial : Reach init
  later : {s t : System} → Reach s → Step s t → Reach t
