-- ===== src/Outbox/Monotone.antt =====
-- backend/enterprise_platform/notification_outbox.py: an item's status under observations of the
-- provider that arrive in any order.
use easy_frame.Prelude.{◌≤◌, String, true, ◌≡◌, refl, List, [], ◌∷◌, ◌++◌, string_eq, arith}
use easy_frame.Outbox.Status.{is_terminal, status_progress, clamp_outbox_status}

-- the status after observations, the first one first
unfoldable pub observe : String → List String → String
observe current [] = current
observe current (incoming ∷ later) = observe (clamp_outbox_status current incoming) later

clamp_progress :
    (current incoming : String)
    → status_progress current ≤ status_progress (clamp_outbox_status current incoming)
unfolding clamp_outbox_status
clamp_progress current incoming = ground arith

clamp_terminal :
    (current incoming : String)
    → is_terminal current ≡ true
    → clamp_outbox_status current incoming ≡ current
unfolding clamp_outbox_status
clamp_terminal current incoming h = rw (h, clamp_outbox_status) refl

observe-append :
    (current : String) (earlier later : List String)
    → observe current (earlier ++ later) ≡ observe (observe current earlier) later
unfolding observe
observe-append current [] later = refl
observe-append current (incoming ∷ earlier) later =
    observe-append (clamp_outbox_status current incoming) earlier later

observe_terminal :
    (current : String) (later : List String)
    → is_terminal current ≡ true
    → observe current later ≡ current
unfolding observe
observe_terminal current [] h = refl
observe_terminal current (incoming ∷ later) h =
    rw (clamp_terminal current incoming h) (observe_terminal current later h)

observe_progress :
    (current : String) (later : List String)
    → status_progress current ≤ status_progress (observe current later)
unfolding observe
observe_progress current [] = omega arith
observe_progress current (incoming ∷ later) = omega (
  arith,
  clamp_progress current incoming,
  observe_progress (clamp_outbox_status current incoming) later,
)

-- Whatever the provider reports, and in whatever order: the progress of an item never falls, and once
-- it is delivered or failed no later report changes it.
pub observe_monotone :
    (current : String) (earlier later : List String)
    → (status_progress (observe current earlier)
        ≤ status_progress (observe current (earlier ++ later)))
      × (is_terminal (observe current earlier) ≡ true
          → observe current (earlier ++ later) ≡ observe current earlier)
observe_monotone current earlier later = rw (observe-append current earlier later) (
  observe_progress (observe current earlier) later,
  observe_terminal (observe current earlier) later,
)
