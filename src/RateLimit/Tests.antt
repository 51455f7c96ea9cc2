-- ===== src/RateLimit/Tests.antt =====
-- The theorems of the limiter at concrete tables.
use easy_frame.Prelude.{ℕ, ◌≡◌, refl, ◌↔◌, List, [], ◌∷◌, none, arith, pair_eq, string_eq, ◌==◌}
use easy_frame.Prelude.Dict.{lookup, insert, remove}
use easy_frame.Prelude.Recency.{move_to_end, pop_oldest}
use easy_frame.Prelude.Selection.{keys_where, remove_all}
use easy_frame.Prelude.Result.{ok}
use easy_frame.Prelude.Text.{TextOps}
use easy_frame.RateLimit.Counter.{Key, Window, Counter, init, record_attempt, count}
use easy_frame.RateLimit.Bounded.{IsValid, init-IsValid}
use easy_frame.RateLimit.Refinement.{Use, attempt, query, run, run_log, counter-refines-log}
use easy_frame.RateLimit.Admission.{login, admit, record_failure, clear_failures, failure_key}
use easy_frame.RateLimit.Limits.{IsWithinLimits, admit_iff}
use easy_frame.RateLimit.Memory.{admit-no_account_entry, limiter-IsValid}

program : Unit {0}
unfolding admit init record_attempt count run lookup insert remove move_to_end pop_oldest keys_where
    remove_all
program = tt

abbrev plain : TextOps
plain = record { strip = λ s. s; lower = λ s. s; size = λ _. 12; contains = λ part s. part == s }

abbrev minute : Key → Window
minute key = record { max_attempts = 10; window_seconds = 60 }

abbrev alice : Key
alice = ("login:account-failure", "alice")

abbrev uses : List (ℕ × Use)
uses = (5, attempt alice) ∷ (5, attempt alice) ∷ (70, query alice) ∷ (1, attempt alice) ∷ []

counter-refines-log_example : run minute 0 (init 0 4 900) uses ≡ run_log minute 0 (λ _. []) uses
counter-refines-log_example =
    counter-refines-log minute 0 4 900 uses (λ key. omega arith) (omega arith)

run-uses : run minute 0 (init 0 4 900) uses ≡ 1 ∷ 2 ∷ 0 ∷ 1 ∷ []
unfolding program
run-uses = refl

abbrev empty : Counter
empty = init 0 20_000 900

admit_iff_example :
    ((admit plain 0 login "10.0.0.1" "alice" empty).1 ≡ ok tt)
    ↔ IsWithinLimits plain 0 login "10.0.0.1" "alice" empty
unfolding init
admit_iff_example =
    admit_iff plain 0 login "10.0.0.1" "alice" empty (init-IsValid 0 20_000 900) (omega arith)
      (omega arith)

admit_first : (admit plain 0 login "10.0.0.1" "alice" empty).1 ≡ ok tt
unfolding program
admit_first = refl

admit-no_account_entry_example :
    lookup (failure_key plain login "alice") (admit plain 0 login "10.0.0.1" "alice" empty).0.hits
    ≡ none
unfolding init lookup
admit-no_account_entry_example =
    admit-no_account_entry plain 0 login "10.0.0.1" "alice" empty (init-IsValid 0 20_000 900) refl

limiter-IsValid_example :
    IsValid 0 (admit plain 0 login "10.0.0.1" "alice" empty).0
    × IsValid 0 (record_failure plain 0 login "alice" empty)
    × IsValid 0 (clear_failures plain login "alice" empty)
limiter-IsValid_example =
    limiter-IsValid plain 0 login "10.0.0.1" "alice" empty (init-IsValid 0 20_000 900)
