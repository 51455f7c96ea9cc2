-- ===== src/RateLimit/History.antt =====
-- The counter against its specification: a log of the attempts of each key, and a count of those
-- that the window still holds.
use easy_frame.Prelude.{
  ℕ, ◌+◌, ◌≤◌, ◌<◌, ◌≡◌, refl, ap, ◌∙◌, List, [], ◌∷◌, ◌++◌, arith, if◌then◌else◌, Bool-cases,
  pair_eq, string_eq, ◌==◌, ==_iff, inl, inr, length, length-append,
}
use mathlib.Core.Path.{subst}
use easy_frame.RateLimit.Counter.{
  Key, Window, Counter, timestamps, in_window, sweep_expired, record_attempt, count, clear,
}
use easy_frame.RateLimit.Sweep.{in_window-sweep}
use easy_frame.RateLimit.Bounded.{IsValid, recorded, timestamps-record_fits, timestamps-clear}

abbrev pub History : Type 0
History = Key → List ℕ

abbrev pub note_attempt : ℕ → Key → History → History
note_attempt now key h j = if key == j then h j ++ now ∷ [] else h j

abbrev pub forget : Key → History → History
forget key h j = if key == j then [] else h j

-- The log's own count: the attempts at `key` that are younger than its window.
abbrev pub recent : (Key → Window) → ℕ → Key → History → ℕ
recent windows now key h = length (in_window now (windows key) (h key))

in_window-append :
    (t : ℕ) (w : Window) (xs ys : List ℕ)
    → in_window t w (xs ++ ys) ≡ in_window t w xs ++ in_window t w ys
unfolding in_window
in_window-append t w [] ys = refl
in_window-append t w (x ∷ xs) ys = ground (arith, in_window-append t w xs ys)

-- A window only moves on, so filtering at an earlier time loses nothing.
in_window-in_window :
    (now t : ℕ) (w : Window) (xs : List ℕ)
    → now ≤ t
    → in_window t w (in_window now w xs) ≡ in_window t w xs
unfolding in_window
in_window-in_window now t w [] p = refl
in_window-in_window now t w (x ∷ xs) p = ground (arith, in_window-in_window now t w xs p)

module _ (windows : Key → Window) where
  -- From `now` on, the table and the log show the same attempts.
  pub record Tracks (now : ℕ) (s : Counter) (h : History) : Type 0 where
    pub shows :
        (t : ℕ) (key : Key)
        → now ≤ t
        → in_window t (windows key) (timestamps s key) ≡ in_window t (windows key) (h key)

  pub record FitsTtl (s : Counter) : Type 0 where
    pub fits : (key : Key) → (windows key).window_seconds ≤ s.entry_ttl_seconds

  in_window-recorded :
      (now t : ℕ) (key : Key) (s : Counter) (h : History)
      → IsValid now s
      → FitsTtl s
      → Tracks now s h
      → now ≤ t
      → in_window t (windows key) (recorded now key (windows key) s)
        ≡ in_window t (windows key) (h key ++ now ∷ [])
  unfolding recorded
  in_window-recorded now t key s h v f tr p =
      let w = windows key in
      simp (
        in_window-append,
        in_window-in_window now t w (timestamps (sweep_expired now s) key) p,
        in_window-sweep now t key w s v.distinct (v.chronological key) (f.fits key) p,
        tr.shows t key p,
      )

  pub record-Tracks :
      (now : ℕ) (key : Key) (s : Counter) (h : History)
      → IsValid now s
      → FitsTtl s
      → length s.hits < s.max_keys
      → Tracks now s h
      → Tracks now (record_attempt now key (windows key) s).0 (note_attempt now key h)
  record-Tracks now key s h v f room tr = record {
    shows = λ t j p. elim (Bool-cases (key == j)) [
      | inl e ↦
          rw (timestamps-record_fits now key j (windows key) s room, e)
            (subst
              (λ k.
                in_window t (windows k) (recorded now key (windows key) s)
                ≡ in_window t (windows k) (h k ++ now ∷ []))
              ((==_iff key j).0 e) (in_window-recorded now t key s h v f tr p))
      | inr e ↦
          rw (timestamps-record_fits now key j (windows key) s room, e)
            (in_window-sweep now t j (windows j) s v.distinct (v.chronological j) (f.fits j) p
              ∙ tr.shows t j p)
    ];
  }

  pub clear-Tracks :
      (now : ℕ) (key : Key) (s : Counter) (h : History)
      → Tracks now s h
      → Tracks now (clear key s) (forget key h)
  clear-Tracks now key s h tr = record {
    shows = λ t j p. elim (Bool-cases (key == j)) [
      | inl e ↦ rw (timestamps-clear key j s, e)
      | inr e ↦ rw (timestamps-clear key j s, e) (tr.shows t j p)
    ];
  }

  pub later-Tracks :
      (now t : ℕ) (s : Counter) (h : History) → now ≤ t → Tracks now s h → Tracks t s h
  later-Tracks now t s h p tr = record { shows = λ u j q. tr.shows u j (omega arith) }

  pub count-recent :
      (now : ℕ) (key : Key) (s : Counter) (h : History)
      → Tracks now s h
      → count now key (windows key) s ≡ recent windows now key h
  unfolding count
  count-recent now key s h tr = ap length (tr.shows now key (omega arith))

  -- What `record` returns is the log's count with this attempt in it.
  pub record-recent :
      (now : ℕ) (key : Key) (s : Counter) (h : History)
      → IsValid now s
      → FitsTtl s
      → Tracks now s h
      → (record_attempt now key (windows key) s).1 ≡ recent windows now key h + 1
  unfolding record_attempt
  record-recent now key s h v f tr =
      let w = windows key in
      let xs = in_window now w (timestamps (sweep_expired now s) key) in
      omega (
        arith,
        length-append xs (now ∷ []),
        ap length (
            in_window-sweep now now key w s v.distinct (v.chronological key) (f.fits key)
              (omega arith)
            ∙ tr.shows now key (omega arith)),
      )
