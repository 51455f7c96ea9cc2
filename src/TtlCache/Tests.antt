-- ===== src/TtlCache/Tests.antt =====
-- Two threads on one box: the first leads, the source changes and the box is invalidated while it loads.
use easy_frame.Prelude.{ℕ, none, some, List, [], ◌∷◌, ◌++◌, ◌≡◌, refl, ◌≤◌, ◌≢◌}
use easy_frame.TtlCache.Box.{
  begin_miss, store, Box, peek, begin_load, commit_load, drop_inflight, new_box,
  store_if_generation, invalidate,
}
use easy_frame.TtlCache.System.{
  Load, leader, System, begins, reads, finishes, changes, invalidates, Reach, start, later,
  add_load, write_back,
}
use easy_frame.TtlCache.Invariant.{hits_survive_no_invalidation}
use easy_frame.TtlCache.Leaders.{leaders}
use easy_frame.TtlCache.SingleFlight.{waiters_have_a_leader, leader_frees_box}

-- The source was at 5 and is at 6 when the box is invalidated; then thread 1 leads.
abbrev dirty : Box ℕ
unfolding new_box invalidate
dirty = invalidate (new_box 60)

abbrev first : Load
first = record { kind = leader 0; thread = 1; generation = 1; read = none }

abbrev led : Box ℕ
unfolding dirty
led = record dirty { inflight = some 0; loader_thread = some 1; next_future = 1 }

abbrev leading : System
leading = record { box = led; loads = first ∷ []; source = 6; floor = 6 }

leading-Reach : Reach 60 5 leading
unfolding dirty led new_box invalidate begin_load begin_miss peek add_load
leading-Reach = later (later (later start changes) invalidates) (begins 10 1)

abbrev filled : System
unfolding led write_back commit_load store_if_generation store drop_inflight
filled = record { box = commit_load 12 1 1 6 0 led; loads = []; source = 6; floor = 6 }

filled-Reach : Reach 60 5 filled
unfolding filled led write_back commit_load store_if_generation store drop_inflight
filled-Reach =
    later (later leading-Reach (reads [] [] first refl))
      (finishes 12 6 [] [] (record first { read = some 6 }) refl refl)

hits_survive_no_invalidation_example : (6 ≤ 6) × (6 ≤ 6)
unfolding filled led dirty new_box invalidate commit_load store_if_generation store drop_inflight
    peek
hits_survive_no_invalidation_example = hits_survive_no_invalidation 20 6 filled-Reach refl

waiters_have_a_leader_example :
    (before : List Load) × (load : Load) × (after : List Load) × (leading.loads
      ≡ before ++ load ∷ after)
    × (load.kind ≡ leader 0)
    × (load.thread ≢ 2)
    × (leaders (before ++ after) ≡ 0)
unfolding led dirty new_box invalidate begin_load begin_miss peek
waiters_have_a_leader_example = waiters_have_a_leader 11 2 0 leading-Reach refl

leader_frees_box_example :
    ((commit_load 12 1 1 6 0 led).inflight ≡ none)
    × ((commit_load 12 1 1 6 0 led).loader_thread ≡ none)
    × ((drop_inflight 1 0 led).inflight ≡ none)
    × ((drop_inflight 1 0 led).loader_thread ≡ none)
leader_frees_box_example = leader_frees_box 12 6 0 [] [] first leading-Reach refl refl
