-- ===== src/RateLimit/Sweep.antt =====
-- The sweep of expired entries, and lists of time stamps in the order of the clock.
use easy_frame.Prelude.{
  ℕ, ◌+◌, ◌≤◌, ◌≡◌, refl, inl, inr, Bool, true, List, [], ◌∷◌, ◌++◌, ltb, filter, All, arith,
  if◌then◌else◌, Bool-cases, Option-cases, pair_eq, string_eq,
}
use easy_frame.Prelude.Dict.{lookup, IsDistinct}
use easy_frame.Prelude.Selection.{
  keys_where, lookup-remove_where, remove_all-IsDistinct, length-remove_all,
}
use easy_frame.Prelude.{length}
use easy_frame.RateLimit.Counter.{
  Key, Window, Counter, timestamps, in_window, is_stale, sweep_expired, sweep_interval_seconds,
}

-- Each item is at most every later one, and at most `now`.
abbrev pub IsChronological : ℕ → List ℕ → Type 0
IsChronological now [] = Unit
IsChronological now (item ∷ items) =
    All (λ later. item ≤ later) items × (item ≤ now) × IsChronological now items

All-filter {ℓ κ} :
    {A : Type ℓ} (P : A → Type κ) (p : A → Bool) (xs : List A) → All P xs → All P (filter p xs)
All-filter P p [] h = tt
All-filter P p (x ∷ xs) h = ground (arith, All-filter P p xs h.1)

pub filter-IsChronological :
    (now : ℕ) (p : ℕ → Bool) (items : List ℕ)
    → IsChronological now items
    → IsChronological now (filter p items)
filter-IsChronological now p [] h = tt
filter-IsChronological now p (x ∷ xs) h =
    ground (arith, All-filter (λ later. x ≤ later) p xs h.0, filter-IsChronological now p xs h.2)

All-snoc :
    (x now t : ℕ) (xs : List ℕ)
    → x ≤ now
    → now ≤ t
    → All (λ later. x ≤ later) xs
    → All (λ later. x ≤ later) (xs ++ t ∷ [])
All-snoc x now t [] p q h = (omega arith, tt)
All-snoc x now t (y ∷ xs) p q h = (h.0, All-snoc x now t xs p q h.1)

pub snoc-IsChronological :
    (now t : ℕ) (items : List ℕ)
    → now ≤ t
    → IsChronological now items
    → IsChronological t (items ++ t ∷ [])
snoc-IsChronological now t [] p h = (tt, omega arith, tt)
snoc-IsChronological now t (x ∷ xs) p h =
    (All-snoc x now t xs h.1 p h.0, omega arith, snoc-IsChronological now t xs p h.2)

pub later-IsChronological :
    (now t : ℕ) (items : List ℕ) → now ≤ t → IsChronological now items → IsChronological t items
later-IsChronological now t [] p h = tt
later-IsChronological now t (x ∷ xs) p h = (h.0, omega arith, later-IsChronological now t xs p h.2)

in_window_none : (t : ℕ) (w : Window) → in_window t w [] ≡ []
unfolding in_window
in_window_none t w = refl

module _ (now ttl : ℕ) where
  -- A stale entry has no item that is younger than the TTL.
  pub stale_bounds :
      (now' : ℕ) (items : List ℕ)
      → IsChronological now' items
      → is_stale now ttl items ≡ true
      → All (λ item. item + ttl ≤ now) items
  unfolding is_stale
  stale_bounds now' [] c h = tt
  stale_bounds now' (x ∷ []) c h = ground arith
  stale_bounds now' (x ∷ y ∷ xs) c h =
      let below = stale_bounds now' (y ∷ xs) c.2 h in (omega arith, below)

  pub old_outside :
      (t : ℕ) (w : Window) (items : List ℕ)
      → now ≤ t
      → w.window_seconds ≤ ttl
      → All (λ item. item + ttl ≤ now) items
      → in_window t w items ≡ []
  unfolding in_window
  old_outside t w [] p q h = refl
  old_outside t w (x ∷ xs) p q h = ground (arith, old_outside t w xs p q h.1)

timestamps-sweep :
    (now : ℕ) (key : Key) (s : Counter)
    → IsDistinct s.hits
    → timestamps (sweep_expired now s) key ≡ (
        if ltb now (s.last_sweep + sweep_interval_seconds)
        then timestamps s key
        else if is_stale now s.entry_ttl_seconds (timestamps s key)
        then []
        else timestamps s key)
unfolding sweep_expired timestamps
timestamps-sweep now key s d = elim (Bool-cases (ltb now (s.last_sweep + sweep_interval_seconds))) [
  | inl h ↦ rw (h, sweep_expired)
  | inr h ↦ elim (Option-cases (lookup key s.hits)) [
    | inl p ↦ ground (arith, lookup-remove_where (is_stale now s.entry_ttl_seconds) key s.hits d)
    | inr (items, p) ↦
        ground (arith, lookup-remove_where (is_stale now s.entry_ttl_seconds) key s.hits d)
  ]
]

-- A sweep does not change what a window of at most the TTL shows, at that time or later.
pub in_window-sweep :
    (now t : ℕ) (key : Key) (w : Window) (s : Counter)
    → IsDistinct s.hits
    → IsChronological now (timestamps s key)
    → w.window_seconds ≤ s.entry_ttl_seconds
    → now ≤ t
    → in_window t w (timestamps (sweep_expired now s) key) ≡ in_window t w (timestamps s key)
in_window-sweep now t key w s d c q p = ground (
  arith,
  timestamps-sweep now key s d,
  old_outside now s.entry_ttl_seconds t w (timestamps s key) p q,
  stale_bounds now s.entry_ttl_seconds now (timestamps s key) c,
  in_window_none t w,
)

pub sweep-IsDistinct :
    (now : ℕ) (s : Counter) → IsDistinct s.hits → IsDistinct (sweep_expired now s).hits
unfolding sweep_expired
sweep-IsDistinct now s d =
    ground
      (arith, remove_all-IsDistinct (keys_where (is_stale now s.entry_ttl_seconds) s.hits) s.hits d)

pub length-sweep : (now : ℕ) (s : Counter) → length (sweep_expired now s).hits ≤ length s.hits
unfolding sweep_expired
length-sweep now s =
    ground (arith, length-remove_all (keys_where (is_stale now s.entry_ttl_seconds) s.hits) s.hits)

pub sweep-IsChronological :
    (now : ℕ) (key : Key) (s : Counter)
    → IsDistinct s.hits
    → IsChronological now (timestamps s key)
    → IsChronological now (timestamps (sweep_expired now s) key)
sweep-IsChronological now key s d c = ground (arith, timestamps-sweep now key s d)
