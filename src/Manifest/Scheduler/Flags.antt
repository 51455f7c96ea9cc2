-- ===== src/Manifest/Scheduler/Flags.antt =====
-- backend/enterprise_platform/easyauth/manifest_scheduler.py: the flags of `ManifestSyncScheduler` and
-- the critical sections that change them.
use easy_frame.Prelude.{
  Bool, true, false, ◌||◌, Option, none, some, if◌then◌else◌, ◌≡◌, refl, inl, inr, Bool-cases,
}

pub record Flags : Type 0 where
  pub running : Bool
  pub pending : Bool
  pub pending_force : Bool
  pub pending_defer : Bool
  pub defer_armed : Bool

-- `__init__`
unfoldable pub init_flags : Flags
init_flags = record {
  running = false;
  pending = false;
  pending_force = false;
  pending_defer = false;
  defer_armed = false;
}

-- `_start`: whether the caller is to spawn a worker
unfoldable pub enter : Bool → Bool → Flags → Bool × Flags
enter force defer flags =
    if flags.running
    then (
      false,
      record flags {
        pending = true;
        pending_force = flags.pending_force || force;
        pending_defer = flags.pending_defer || defer;
      },
    )
    else (true, record flags { running = true })

-- `_take_pending`
unfoldable pub take_pending : Flags → Option (Bool × Bool) × Flags
take_pending flags =
    if flags.pending
    then (
      some (flags.pending_force, flags.pending_defer),
      record flags {
        pending = false;
        pending_force = false;
        pending_defer = false;
        running = true;
      },
    )
    else (none, record flags { running = false })

-- `_mark_stopped`
unfoldable pub mark_stopped : Flags → Flags
mark_stopped flags = record flags { running = false }

-- `_arm_defer`: whether the caller is to start the timer
unfoldable pub arm : Flags → Bool × Flags
arm flags =
    if flags.defer_armed then (false, flags) else (true, record flags { defer_armed = true })

-- `_clear_defer`
unfoldable pub clear_defer : Flags → Flags
clear_defer flags = record flags { defer_armed = false }

-- The two ways that `_take_pending` goes.
pub data Taken (flags : Flags) : Option (Bool × Bool) × Flags → Type 0 where
  nothing : flags.pending ≡ false → Taken flags (none, record flags { running = false })
  claimed :
      flags.pending ≡ true
      → Taken flags (
        some (flags.pending_force, flags.pending_defer),
        record flags {
          pending = false;
          pending_force = false;
          pending_defer = false;
          running = true;
        },
      )

pub take_pending-Taken : (flags : Flags) → Taken flags (take_pending flags)
unfolding take_pending
take_pending-Taken flags = elim (Bool-cases flags.pending) [
  | inl p ↦ rw (take_pending, p) (claimed refl)
  | inr p ↦ rw (take_pending, p) (nothing refl)
]

-- The two ways that `_start` goes.
pub data Entered (force defer : Bool) (flags : Flags) : Bool × Flags → Type 0 where
  merged :
      flags.running ≡ true
      → Entered force defer flags (
        false,
        record flags {
          pending = true;
          pending_force = flags.pending_force || force;
          pending_defer = flags.pending_defer || defer;
        },
      )
  owned : flags.running ≡ false → Entered force defer flags (true, record flags { running = true })

pub enter-Entered :
    (force defer : Bool) (flags : Flags) → Entered force defer flags (enter force defer flags)
unfolding enter
enter-Entered force defer flags = elim (Bool-cases flags.running) [
  | inl r ↦ rw (enter, r) (merged refl)
  | inr r ↦ rw (enter, r) (owned refl)
]

-- The two ways that `_arm_defer` begins.
pub data Armed (flags : Flags) : Bool × Flags → Type 0 where
  already : flags.defer_armed ≡ true → Armed flags (false, flags)
  newly : flags.defer_armed ≡ false → Armed flags (true, record flags { defer_armed = true })

pub arm-Armed : (flags : Flags) → Armed flags (arm flags)
unfolding arm
arm-Armed flags = elim (Bool-cases flags.defer_armed) [
  | inl a ↦ rw (arm, a) (already refl)
  | inr a ↦ rw (arm, a) (newly refl)
]
