-- ===== src/Prelude/Recency.antt =====
-- `OrderedDict` as a table of what was used most recently: `move_to_end`, and `popitem(last=False)`
-- until a bound is met.
use mathlib.Core.Path.{◌≡◌, refl, ◌∙◌}
use mathlib.Core.Logic.{inl, inr}
use mathlib.Core.Option.{none, some}
use mathlib.Core.List.{[], ◌∷◌, ◌++◌}
use Prim.Native.Nat.{ℕ, ◌+◌, ◌≤◌, ◌<◌}
use native.Mathlib.Omega.{arith}
use easy_frame.Prelude.Tests.{ltb, if◌then◌else◌, Option-cases}
use easy_frame.Prelude.Lists.{length, length-append}
use easy_frame.Prelude.Dict.{
  Dict, lookup, insert, remove, IsDistinct, lookup-insert, lookup-remove, lookup-append,
  insert-IsDistinct, remove-IsDistinct, length-remove, length-insert,
}
use easy_frame.Prelude.Equality.{Eq, ◌==◌, ==_refl}

module _ {ℓ} {K V : Type ℓ} ⦃e : Eq K⦄ where
  -- `d.move_to_end(k)`, called only on a key that is there
  unfoldable pub move_to_end : K → Dict K V → Dict K V
  move_to_end k d = elim (lookup k d) [ none ↦ d | some v ↦ remove k d ++ (k, v) ∷ [] ]

  -- `while len(d) > n: d.popitem(last=False)`
  unfoldable pub pop_oldest : ℕ → Dict K V → Dict K V
  pop_oldest n [] = []
  pop_oldest n ((k, v) ∷ d) = if ltb n (length ((k, v) ∷ d)) then pop_oldest n d else (k, v) ∷ d

  lookup_one : (k j : K) (v : V) → lookup j ((k, v) ∷ []) ≡ (if k == j then some v else none)
  unfolding lookup
  lookup_one k j v = refl

  pub lookup-move_to_end : (k j : K) (d : Dict K V) → lookup j (move_to_end k d) ≡ lookup j d
  unfolding move_to_end
  lookup-move_to_end k j d = elim (Option-cases (lookup k d)) [
    | inl p ↦ rw (p, move_to_end)
    | inr (v, p) ↦
        rw (p, move_to_end)
          (ground (
            arith,
            lookup-append j (remove k d) ((k, v) ∷ []),
            lookup-remove k j d,
            lookup_one k j v,
            e.beq_iff k j,
          ))
  ]

  length-pop_oldest-le : (n : ℕ) (d : Dict K V) → length (pop_oldest n d) ≤ length d
  unfolding pop_oldest
  length-pop_oldest-le n [] = omega arith
  length-pop_oldest-le n ((k, v) ∷ d) = ground (arith, length-pop_oldest-le n d)

  pub length-pop_oldest : (n : ℕ) (d : Dict K V) → length (pop_oldest n d) ≤ n
  unfolding pop_oldest
  length-pop_oldest n [] = omega arith
  length-pop_oldest n ((k, v) ∷ d) = ground (arith, length-pop_oldest n d)

  pub pop_oldest_fits : (n : ℕ) (d : Dict K V) → length d ≤ n → pop_oldest n d ≡ d
  unfolding pop_oldest
  pop_oldest_fits n [] h = refl
  pop_oldest_fits n ((k, v) ∷ d) h = ground arith

  -- The key at the end stays.
  pub lookup-pop_oldest_last :
      (n : ℕ) (k : K) (v : V) (d : Dict K V)
      → 0 < n
      → lookup k d ≡ none
      → lookup k (pop_oldest n (d ++ (k, v) ∷ [])) ≡ some v
  unfolding pop_oldest lookup
  lookup-pop_oldest_last n k v [] h p = ground (arith, e.beq_iff k k)
  lookup-pop_oldest_last n k v ((j, w) ∷ d) h p =
      ground
        (arith, e.beq_iff k k, lookup-append k d ((k, v) ∷ []), lookup-pop_oldest_last n k v d h)

  -- What is left is as it was.
  pub pop_oldest_keeps :
      (n : ℕ) (k : K) (v : V) (d : Dict K V)
      → IsDistinct d
      → lookup k (pop_oldest n d) ≡ some v
      → lookup k d ≡ some v
  unfolding pop_oldest lookup
  pop_oldest_keeps n k v [] h p = p
  pop_oldest_keeps n k v ((j, w) ∷ d) h p =
      ground (arith, e.beq_iff j k, pop_oldest_keeps n k v d h.1)

  snoc-IsDistinct :
      (k : K) (v : V) (d : Dict K V)
      → lookup k d ≡ none
      → IsDistinct d
      → IsDistinct (d ++ (k, v) ∷ [])
  unfolding lookup
  snoc-IsDistinct k v [] p h = (refl, tt)
  snoc-IsDistinct k v ((j, w) ∷ d) p h =
      ground (
        arith,
        e.beq_iff j k,
        e.beq_iff k j,
        lookup-append j d ((k, v) ∷ []),
        snoc-IsDistinct k v d,
      )

  pub move_to_end-IsDistinct : (k : K) (d : Dict K V) → IsDistinct d → IsDistinct (move_to_end k d)
  unfolding move_to_end
  move_to_end-IsDistinct k d h = elim (Option-cases (lookup k d)) [
    | inl p ↦ rw (p, move_to_end) h
    | inr (v, p) ↦
        rw (p, move_to_end)
          (snoc-IsDistinct k v (remove k d) (simp (lookup-remove, ==_refl))
            (remove-IsDistinct k d h))
  ]

  pub pop_oldest-IsDistinct : (n : ℕ) (d : Dict K V) → IsDistinct d → IsDistinct (pop_oldest n d)
  unfolding pop_oldest
  pop_oldest-IsDistinct n [] h = tt
  pop_oldest-IsDistinct n ((j, w) ∷ d) h = ground (arith, pop_oldest-IsDistinct n d h.1)

  -- A key that is there is dropped for good, so moving it keeps the length.
  length-remove_of_some :
      (k : K) (v : V) (d : Dict K V) → lookup k d ≡ some v → length (remove k d) + 1 ≤ length d
  unfolding lookup remove
  length-remove_of_some k v [] p = cc
  length-remove_of_some k v ((j, w) ∷ d) p =
      ground (arith, length-remove k d, length-remove_of_some k v d)

  pub length-move_to_end : (k : K) (d : Dict K V) → length (move_to_end k d) ≤ length d
  unfolding move_to_end
  length-move_to_end k d = elim (Option-cases (lookup k d)) [
    | inl p ↦ rw (p, move_to_end) (omega arith)
    | inr (v, p) ↦
        rw (p, move_to_end)
          (omega (arith, length-append (remove k d) ((k, v) ∷ []), length-remove_of_some k v d p))
  ]

  -- `d[k] = v; d.move_to_end(k)`, then the oldest are dropped: what is left is the new entry and old ones.
  pub lookup-put_last :
      (n : ℕ) (k j : K) (v u : V) (d : Dict K V)
      → IsDistinct d
      → lookup j (pop_oldest n (move_to_end k (insert k v d))) ≡ some u
      → some u ≡ (if k == j then some v else lookup j d)
  lookup-put_last n k j v u d h p = ground (
    arith,
    pop_oldest_keeps n j u (move_to_end k (insert k v d))
        (move_to_end-IsDistinct k (insert k v d) (insert-IsDistinct k v d h)) p,
    lookup-move_to_end k j (insert k v d),
    lookup-insert k j v d,
  )

  pub lookup-put_last_self :
      (n : ℕ) (k : K) (v : V) (d : Dict K V)
      → 0 < n
      → lookup k (pop_oldest n (move_to_end k (insert k v d))) ≡ some v
  unfolding move_to_end
  lookup-put_last_self n k v d h =
      let p : lookup k (insert k v d) ≡ some v = simp (lookup-insert, ==_refl) in
      rw (p, move_to_end)
        (lookup-pop_oldest_last n k v (remove k (insert k v d)) h (simp (lookup-remove, ==_refl)))

  -- With room for the key, nothing is dropped.
  pub lookup-put_last_fits :
      (n : ℕ) (k j : K) (v : V) (d : Dict K V)
      → length d < n
      → lookup j (pop_oldest n (move_to_end k (insert k v d)))
        ≡ (if k == j then some v else lookup j d)
  lookup-put_last_fits n k j v d h =
      rw
        (pop_oldest_fits n (move_to_end k (insert k v d))
          (omega (arith, length-move_to_end k (insert k v d), length-insert k v d)))
        (lookup-move_to_end k j (insert k v d) ∙ lookup-insert k j v d)

  pub put_last-IsDistinct :
      (n : ℕ) (k : K) (v : V) (d : Dict K V)
      → IsDistinct d
      → IsDistinct (pop_oldest n (move_to_end k (insert k v d)))
  put_last-IsDistinct n k v d h =
      pop_oldest-IsDistinct n (move_to_end k (insert k v d))
        (move_to_end-IsDistinct k (insert k v d) (insert-IsDistinct k v d h))

  pub length-put_last :
      (n : ℕ) (k : K) (v : V) (d : Dict K V)
      → length (pop_oldest n (move_to_end k (insert k v d))) ≤ length d + 1
  length-put_last n k v d = omega (
    arith,
    length-pop_oldest-le n (move_to_end k (insert k v d)),
    length-move_to_end k (insert k v d),
    length-insert k v d,
  )
