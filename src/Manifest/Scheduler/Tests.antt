-- ===== src/Manifest/Scheduler/Tests.antt =====
-- Some runs of a scheduler.
use easy_frame.Prelude.{◌≤◌, true, false, [], ◌∷◌, ◌≡◌, refl}
use easy_frame.Manifest.Scheduler.Flags.{Flags, init_flags, enter, take_pending, mark_stopped, arm}
use easy_frame.Manifest.Scheduler.Threads.{
  spawning, calling, straying, System, schedules, starts, misses, misses_last, strays, calls, ends,
  arms, arming, Reach, initial, later,
}
use easy_frame.Manifest.Scheduler.Count.{bit, owner, total}
use easy_frame.Manifest.Scheduler.SingleFlight.{Reach-one_worker}
use easy_frame.Manifest.Scheduler.Requests.{idle_has_run}
use easy_frame.Manifest.Scheduler.Timer.{Reach-one_timer}

abbrev quiet : Flags
quiet = record {
  running = true;
  pending = false;
  pending_force = false;
  pending_defer = false;
  defer_armed = false;
}

-- a forced run under way, and another forced request
abbrev busy : System
busy = record {
  flags = record quiet { pending = true; pending_force = true; pending_defer = true };
  activities = calling true true ∷ [];
  wanted = true;
  dropped = false;
  strayed = false;
}

busy-Reach : Reach busy
unfolding init_flags enter
busy-Reach =
    later
      (later (later (later initial (schedules true)) (starts [] [] 3 true true refl))
        (calls [] [] true true refl))
      (schedules true)

abbrev rested : System
rested = record {
  flags = record quiet { running = false };
  activities = [];
  wanted = false;
  dropped = false;
  strayed = false;
}

rested-Reach : Reach rested
unfolding take_pending
rested-Reach =
    later (later (later busy-Reach (ends [] [] true true refl)) (calls [] [] true true refl))
      (ends [] [] true true refl)

Reach-one_worker_example : (1 ≡ bit true) × (1 ≤ 1)
Reach-one_worker_example = Reach-one_worker busy-Reach refl

idle_has_run_example : rested.wanted ≡ false
idle_has_run_example = idle_has_run rested-Reach refl refl

abbrev put_off : System
put_off = record busy {
  flags = record busy.flags { defer_armed = true };
  activities = arming true ∷ calling true true ∷ [];
}

put_off-Reach : Reach put_off
unfolding arm
put_off-Reach = later busy-Reach (arms [] [] true refl)

Reach-one_timer_example : (1 ≡ bit true) × (1 ≤ 1)
Reach-one_timer_example = Reach-one_timer put_off-Reach

-- After four starts that fail, the last with nothing pending, two workers may run at once.
abbrev strayed_once : System
strayed_once = record {
  flags = record quiet { running = false };
  activities = straying ∷ [];
  wanted = false;
  dropped = true;
  strayed = true;
}

strayed_once-Reach : Reach strayed_once
unfolding init_flags enter take_pending
strayed_once-Reach =
    later
      (later
        (later
          (later
            (later
              (later (later (later initial (schedules false)) (schedules false))
                (misses [] [] 2 false true refl))
              (schedules false))
            (misses [] [] 1 false true refl))
          (schedules false))
        (misses [] [] 0 false true refl))
      (misses_last [] [] false true refl)

abbrev doubled : System
doubled = record strayed_once {
  flags = quiet;
  activities = spawning 3 false true ∷ calling false true ∷ [];
}

two_workers : Reach doubled × (total owner doubled.activities ≡ 2)
unfolding enter mark_stopped
two_workers = (
  later
      (later
        (later
          (later (later strayed_once-Reach (schedules false))
            (starts [] (straying ∷ []) 3 false true refl))
          (calls [] (straying ∷ []) false true refl))
        (strays (calling false true ∷ []) [] refl))
      (schedules false),
  refl,
)
