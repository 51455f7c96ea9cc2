-- ===== src/Prelude/Selection.antt =====
-- Deleting the entries of a dict that a test picks: the keys are collected first, and each is then
-- deleted.
use mathlib.Core.Path.{◌≡◌, refl}
use mathlib.Core.Logic.{inl, inr}
use mathlib.Core.Bool.{Bool, false}
use mathlib.Core.Option.{Option, none, some}
use mathlib.Core.List.{List, [], ◌∷◌}
use Prim.Native.Nat.{◌≤◌}
use native.Mathlib.Omega.{arith}
use easy_frame.Prelude.Tests.{if◌then◌else◌, Option-cases}
use easy_frame.Prelude.Lists.{length, any}
use easy_frame.Prelude.Equality.{Eq, ◌==◌}
use easy_frame.Prelude.Dict.{
  Dict, lookup, remove, IsDistinct, lookup-remove, remove-IsDistinct, length-remove,
}

abbrev pub keep_unless {ℓ} : {V : Type ℓ} → (V → Bool) → Option V → Option V
keep_unless p none = none
keep_unless p (some v) = if p v then none else some v

module _ {ℓ} {K V : Type ℓ} ⦃e : Eq K⦄ where
  -- `[k for k, v in d.items() if p(v)]`
  unfoldable pub keys_where : (V → Bool) → Dict K V → List K
  keys_where p [] = []
  keys_where p ((k, v) ∷ d) = let rest = keys_where p d in if p v then k ∷ rest else rest

  -- `for k in keys: del d[k]`
  unfoldable pub remove_all : List K → Dict K V → Dict K V
  remove_all [] d = d
  remove_all (k ∷ keys) d = remove_all keys (remove k d)

  pub lookup-remove_all :
      (k : K) (keys : List K) (d : Dict K V)
      → lookup k (remove_all keys d) ≡ (if any (λ j. j == k) keys then none else lookup k d)
  unfolding remove_all
  lookup-remove_all k [] d = refl
  lookup-remove_all k (j ∷ keys) d =
      ground (arith, lookup-remove_all k keys (remove j d), lookup-remove j k d)

  pub remove_all-IsDistinct :
      (keys : List K) (d : Dict K V) → IsDistinct d → IsDistinct (remove_all keys d)
  unfolding remove_all
  remove_all-IsDistinct [] d h = h
  remove_all-IsDistinct (k ∷ keys) d h =
      remove_all-IsDistinct keys (remove k d) (remove-IsDistinct k d h)

  pub length-remove_all : (keys : List K) (d : Dict K V) → length (remove_all keys d) ≤ length d
  unfolding remove_all
  length-remove_all [] d = omega arith
  length-remove_all (k ∷ keys) d =
      omega (arith, length-remove_all keys (remove k d), length-remove k d)

  not_picked :
      (p : V → Bool) (k : K) (d : Dict K V)
      → lookup k d ≡ none
      → any (λ j. j == k) (keys_where p d) ≡ false
  unfolding lookup keys_where
  not_picked p k [] h = refl
  not_picked p k ((j, w) ∷ d) h = ground (arith, not_picked p k d)

  picked_iff :
      (p : V → Bool) (k : K) (v : V) (d : Dict K V)
      → IsDistinct d
      → lookup k d ≡ some v
      → any (λ j. j == k) (keys_where p d) ≡ p v
  unfolding lookup keys_where
  picked_iff p k v [] h q = cc
  picked_iff p k v ((j, w) ∷ d) h q =
      ground (arith, e.beq_iff j k, not_picked p k d, picked_iff p k v d h.1)

  -- Exactly the picked entries are gone.
  pub lookup-remove_where :
      (p : V → Bool) (k : K) (d : Dict K V)
      → IsDistinct d
      → lookup k (remove_all (keys_where p d) d) ≡ keep_unless p (lookup k d)
  lookup-remove_where p k d h = elim (Option-cases (lookup k d)) [
    | inl q ↦ rw (lookup-remove_all k (keys_where p d) d, not_picked p k d q, q)
    | inr (v, q) ↦ rw (lookup-remove_all k (keys_where p d) d, picked_iff p k v d h q, q)
  ]
