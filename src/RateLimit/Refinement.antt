-- ===== src/RateLimit/Refinement.antt =====
-- Any sequence of uses of the counter, against the same uses of the log of attempts.
use easy_frame.Prelude.{ℕ, ◌+◌, ◌≤◌, ◌≡◌, refl, List, [], ◌∷◌, arith, pair_eq, string_eq, length}
use easy_frame.Prelude.Dict.{lookup, length-remove}
use mathlib.Core.Path.{ap₂}
use easy_frame.RateLimit.Counter.{
  Key, Window, Counter, init, timestamps, record_attempt, count, clear,
}
use easy_frame.RateLimit.Bounded.{
  IsValid, init-IsValid, record-IsValid, clear-IsValid, later-IsValid, length-record,
  max_keys-record, entry_ttl-record,
}
use easy_frame.RateLimit.History.{
  History, note_attempt, forget, recent, Tracks, FitsTtl, record-Tracks, clear-Tracks, later-Tracks,
  count-recent, record-recent,
}

-- One use of the counter; a list of uses carries the ticks that pass before each.
pub data Use : Type 0 where
  attempt : Key → Use
  query : Key → Use
  forgive : Key → Use

module _ (windows : Key → Window) where
  unfoldable pub run : ℕ → Counter → List (ℕ × Use) → List ℕ
  run now s [] = []
  run now s ((wait, attempt key) ∷ uses) =
      let t = now + wait in let (s', n) = record_attempt t key (windows key) s in n ∷ run t s' uses
  run now s ((wait, query key) ∷ uses) =
      let t = now + wait in count t key (windows key) s ∷ run t s uses
  run now s ((wait, forgive key) ∷ uses) = run (now + wait) (clear key s) uses

  -- The same uses of the log, which forgets nothing but what is forgiven.
  pub run_log : ℕ → History → List (ℕ × Use) → List ℕ
  run_log now h [] = []
  run_log now h ((wait, attempt key) ∷ uses) =
      let t = now + wait in (recent windows t key h + 1) ∷ run_log t (note_attempt t key h) uses
  run_log now h ((wait, query key) ∷ uses) =
      let t = now + wait in recent windows t key h ∷ run_log t h uses
  run_log now h ((wait, forgive key) ∷ uses) = run_log (now + wait) (forget key h) uses

  run-eq-run_log :
      (now : ℕ) (s : Counter) (h : History) (uses : List (ℕ × Use))
      → IsValid now s
      → FitsTtl windows s
      → Tracks windows now s h
      → length s.hits + length uses ≤ s.max_keys
      → run now s uses ≡ run_log now h uses
  unfolding run run_log
  run-eq-run_log now s h [] v f tr room = refl
  run-eq-run_log now s h ((wait, attempt key) ∷ uses) v f tr room =
      let t = now + wait in
      let v' = later-IsValid now t s (omega arith) v in
      let tr' = later-Tracks windows now t s h (omega arith) tr in
      let s' = (record_attempt t key (windows key) s).0 in
      ap₂ ◌∷◌ (record-recent windows t key s h v' f tr') (
        run-eq-run_log t s' (note_attempt t key h) uses (record-IsValid t key (windows key) s v')
          (record { fits = λ k. rw (entry_ttl-record t key (windows key) s) (f.fits k) })
          (record-Tracks windows t key s h v' f (omega arith) tr')
          (omega
            (arith, length-record t key (windows key) s, max_keys-record t key (windows key) s)))
  run-eq-run_log now s h ((wait, query key) ∷ uses) v f tr room =
      let t = now + wait in
      let tr' = later-Tracks windows now t s h (omega arith) tr in
      ap₂ ◌∷◌ (count-recent windows t key s h tr')
        (run-eq-run_log t s h uses (later-IsValid now t s (omega arith) v) f tr' (omega arith))
  run-eq-run_log now s h ((wait, forgive key) ∷ uses) v f tr room =
      let t = now + wait in
      let tr' = later-Tracks windows now t s h (omega arith) tr in
      run-eq-run_log t (clear key s) (forget key h) uses
        (clear-IsValid t key s (later-IsValid now t s (omega arith) v))
        (record { fits = λ k. unfold clear in f.fits k }) (clear-Tracks windows t key s h tr')
        (unfold clear in omega (arith, length-remove key s.hits))

  -- A counter started empty answers every attempt and query, in any order and at any times, as the
  -- log does: a key's number of attempts within its window, since it was last forgiven. Needed: no
  -- window is longer than the TTL, and there is room for as many keys as there are uses.
  pub counter-refines-log :
      (now max_keys ttl : ℕ) (uses : List (ℕ × Use))
      → ((key : Key) → (windows key).window_seconds ≤ ttl)
      → length uses ≤ max_keys
      → run now (init now max_keys ttl) uses ≡ run_log now (λ _. []) uses
  unfolding init timestamps lookup
  counter-refines-log now max_keys ttl uses f room =
      run-eq-run_log now (init now max_keys ttl) (λ _. []) uses (init-IsValid now max_keys ttl)
        (record { fits = f }) (record { shows = λ t key p. refl }) (omega arith)
