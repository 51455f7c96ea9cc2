-- ===== src/RateLimit/Bounded.antt =====
-- What every method of the counter keeps: a bounded table of distinct keys, each with its attempts
-- in the order of the clock.
use easy_frame.Prelude.{
  ℕ, ◌+◌, ◌≤◌, ◌<◌, ◌≡◌, refl, ap, sym, ◌∙◌, inl, inr, Bool, true, false, Option, none, some, List,
  [], ◌∷◌, ◌++◌, ltb, arith, if◌then◌else◌, Bool-cases, pair_eq, string_eq, ◌==◌, length,
}
use mathlib.Core.Path.{subst}
use easy_frame.Prelude.Dict.{lookup, IsDistinct, lookup-remove, remove-IsDistinct, length-remove}
use easy_frame.Prelude.Recency.{
  lookup-put_last, lookup-put_last_fits, lookup-put_last_self, put_last-IsDistinct, length-put_last,
  length-pop_oldest,
}
use easy_frame.RateLimit.Counter.{
  Key, Window, Counter, init, timestamps, items_or_none, in_window, sweep_expired, record_attempt,
  clear,
}
use easy_frame.RateLimit.Sweep.{
  IsChronological, filter-IsChronological, snoc-IsChronological, later-IsChronological,
  sweep-IsDistinct, length-sweep, sweep-IsChronological,
}

pub record IsValid (now : ℕ) (s : Counter) : Type 0 where
  pub distinct : IsDistinct s.hits
  pub bounded : length s.hits ≤ s.max_keys
  pub chronological : (key : Key) → IsChronological now (timestamps s key)

pub later-IsValid : (now t : ℕ) (s : Counter) → now ≤ t → IsValid now s → IsValid t s
later-IsValid now t s p v = record {
  distinct = v.distinct;
  bounded = v.bounded;
  chronological = λ key. later-IsChronological now t (timestamps s key) p (v.chronological key);
}

pub init-IsValid : (now max_keys ttl : ℕ) → IsValid now (init now max_keys ttl)
unfolding init timestamps lookup
init-IsValid now max_keys ttl = record {
  distinct = tt;
  bounded = omega arith;
  chronological = λ key. tt;
}

max_keys-sweep : (now : ℕ) (s : Counter) → (sweep_expired now s).max_keys ≡ s.max_keys
unfolding sweep_expired
max_keys-sweep now s = ground arith

-- The attempts that `record_attempt` stores under the key it is called with.
unfoldable pub recorded : ℕ → Key → Window → Counter → List ℕ
recorded now key w s = in_window now w (timestamps (sweep_expired now s) key) ++ now ∷ []

recorded-IsChronological :
    (now : ℕ) (key : Key) (w : Window) (s : Counter)
    → IsValid now s
    → IsChronological now (recorded now key w s)
unfolding recorded in_window
recorded-IsChronological now key w s v =
    let swept = sweep-IsChronological now key s v.distinct (v.chronological key) in
    snoc-IsChronological now now (in_window now w (timestamps (sweep_expired now s) key))
      (omega arith)
      (filter-IsChronological now (λ item. ltb now (item + w.window_seconds))
        (timestamps (sweep_expired now s) key) swept)

-- An entry of the new table is the recorded one or is from the swept table.
pub lookup-record :
    (now : ℕ) (key j : Key) (w : Window) (s : Counter) (items : List ℕ)
    → IsDistinct s.hits
    → lookup j (record_attempt now key w s).0.hits ≡ some items
    → some items
      ≡ (if key == j then some (recorded now key w s) else lookup j (sweep_expired now s).hits)
unfolding record_attempt recorded
lookup-record now key j w s items d p =
    let swept = sweep_expired now s in
    lookup-put_last swept.max_keys key j (recorded now key w s) items swept.hits
      (sweep-IsDistinct now s d) p

pub lookup-record_fits :
    (now : ℕ) (key j : Key) (w : Window) (s : Counter)
    → length s.hits < s.max_keys
    → lookup j (record_attempt now key w s).0.hits
      ≡ (if key == j then some (recorded now key w s) else lookup j (sweep_expired now s).hits)
unfolding record_attempt recorded
lookup-record_fits now key j w s h =
    let swept = sweep_expired now s in
    lookup-put_last_fits swept.max_keys key j (recorded now key w s) swept.hits
      (omega (arith, length-sweep now s, max_keys-sweep now s))

pub lookup-record_self :
    (now : ℕ) (key : Key) (w : Window) (s : Counter)
    → 0 < s.max_keys
    → lookup key (record_attempt now key w s).0.hits ≡ some (recorded now key w s)
unfolding record_attempt recorded
lookup-record_self now key w s h =
    let swept = sweep_expired now s in
    lookup-put_last_self swept.max_keys key (recorded now key w s) swept.hits
      (omega (arith, max_keys-sweep now s))

pub max_keys-record :
    (now : ℕ) (key : Key) (w : Window) (s : Counter)
    → (record_attempt now key w s).0.max_keys ≡ s.max_keys
unfolding record_attempt
max_keys-record now key w s = max_keys-sweep now s

pub entry_ttl-record :
    (now : ℕ) (key : Key) (w : Window) (s : Counter)
    → (record_attempt now key w s).0.entry_ttl_seconds ≡ s.entry_ttl_seconds
unfolding record_attempt sweep_expired
entry_ttl-record now key w s = ground arith

pub length-record :
    (now : ℕ) (key : Key) (w : Window) (s : Counter)
    → length (record_attempt now key w s).0.hits ≤ length s.hits + 1
unfolding record_attempt recorded
length-record now key w s =
    let swept = sweep_expired now s in
    omega (
      arith,
      length-sweep now s,
      length-put_last swept.max_keys key (recorded now key w s) swept.hits,
    )

timestamps-IsChronological :
    (now : ℕ) (j : Key) (o : Option (List ℕ)) (s : Counter)
    → lookup j s.hits ≡ o
    → ((items : List ℕ) → o ≡ some items → IsChronological now items)
    → IsChronological now (timestamps s j)
unfolding timestamps
timestamps-IsChronological now j none s p h = rw (ap items_or_none p) tt
timestamps-IsChronological now j (some items) s p h = rw (ap items_or_none p) (h items refl)

pub timestamps-some :
    (j : Key) (s : Counter) (items : List ℕ) → lookup j s.hits ≡ some items → timestamps s j ≡ items
unfolding timestamps
timestamps-some j s items p = ap items_or_none p

pick-IsChronological :
    (now : ℕ) (b : Bool) (new items : List ℕ) (old : Option (List ℕ))
    → IsChronological now new
    → ((kept : List ℕ) → old ≡ some kept → IsChronological now kept)
    → some items ≡ (if b then some new else old)
    → IsChronological now items
pick-IsChronological now true new items old c h p = let q : items ≡ new = cc in rw q c
pick-IsChronological now false new items old c h p = h items (sym p)

-- `record` keeps the table valid: at most `max_keys` keys, whatever identifiers arrive.
pub record-IsValid :
    (now : ℕ) (key : Key) (w : Window) (s : Counter)
    → IsValid now s
    → IsValid now (record_attempt now key w s).0
record-IsValid now key w s v = record {
  distinct =
      unfold record_attempt recorded in
      (put_last-IsDistinct (sweep_expired now s).max_keys key (recorded now key w s)
        (sweep_expired now s).hits (sweep-IsDistinct now s v.distinct));
  bounded = unfold record_attempt in length-pop_oldest (sweep_expired now s).max_keys _;
  chronological = λ j.
      timestamps-IsChronological now j (lookup j (record_attempt now key w s).0.hits)
        (record_attempt now key w s).0 refl
        λ items p.
          pick-IsChronological now (key == j) (recorded now key w s) items
            (lookup j (sweep_expired now s).hits) (recorded-IsChronological now key w s v)
            (λ kept q.
              subst (IsChronological now) (timestamps-some j (sweep_expired now s) kept q)
                (sweep-IsChronological now j s v.distinct (v.chronological j)))
            (lookup-record now key j w s items v.distinct p);
}

pub items_or_none-if :
    (b : Bool) (new old : Option (List ℕ))
    → items_or_none (if b then new else old) ≡ (if b then items_or_none new else items_or_none old)
items_or_none-if true new old = refl
items_or_none-if false new old = refl

pub timestamps-clear :
    (key j : Key) (s : Counter)
    → timestamps (clear key s) j ≡ (if key == j then [] else timestamps s j)
unfolding clear timestamps
timestamps-clear key j s =
    ap items_or_none (lookup-remove key j s.hits)
    ∙ items_or_none-if (key == j) none (lookup j s.hits)

pub clear-IsValid : (now : ℕ) (key : Key) (s : Counter) → IsValid now s → IsValid now (clear key s)
clear-IsValid now key s v = record {
  distinct = unfold clear in remove-IsDistinct key s.hits v.distinct;
  bounded = unfold clear in omega (arith, length-remove key s.hits, v.bounded);
  chronological = λ j. elim (Bool-cases (key == j)) [
    | inl e ↦ rw (timestamps-clear key j s, e) tt
    | inr e ↦ rw (timestamps-clear key j s, e) (v.chronological j)
  ];
}

-- With room for the key, every key but the recorded one is as the sweep left it.
pub timestamps-record_fits :
    (now : ℕ) (key j : Key) (w : Window) (s : Counter)
    → length s.hits < s.max_keys
    → timestamps (record_attempt now key w s).0 j
      ≡ (if key == j then recorded now key w s else timestamps (sweep_expired now s) j)
unfolding timestamps
timestamps-record_fits now key j w s room =
    ap items_or_none (lookup-record_fits now key j w s room)
    ∙ items_or_none-if (key == j) (some (recorded now key w s))
        (lookup j (sweep_expired now s).hits)
