-- ===== src/Prelude/Traced.antt =====
-- Code that calls out: after the calls so far, the calls that it makes, and its result.
use mathlib.Core.Path.{◌≡◌, refl}
use mathlib.Core.List.{List, [], ◌∷◌, ◌++◌}
use easy_frame.Prelude.Lists.{++-empty}
use easy_frame.Prelude.Result.{Result, ok, err, returns}

abbrev pub Act : Type 0 → Type 0 → Type 0 → Type 0
Act C E A = List C → List C × Result E A

module _ {C E : Type 0} where
  abbrev pub after_act :
      {A B : Type 0} → List C → List C × Result E A → (A → Act C E B) → List C × Result E B
  after_act history (calls, err e) f = (calls, err e)
  after_act history (calls, ok a) f =
      let later = f a (history ++ calls) in (calls ++ later.0, later.1)

  infixl 5 ◌>>=◌ ◌>>◌
  unfoldable pub ◌>>=◌ : {A B : Type 0} → Act C E A → (A → Act C E B) → Act C E B
  ◌>>=◌ m f history = after_act history (m history) f

  unfoldable pub ◌>>◌ : {A B : Type 0} → Act C E A → Act C E B → Act C E B
  ◌>>◌ m n history = after_act history (m history) (λ _. n)

  unfoldable pub pure : {A : Type 0} → A → Act C E A
  pure a history = ([], ok a)

  unfoldable pub raise : {A : Type 0} → E → Act C E A
  raise e history = ([], err e)

  -- one call, and what its answer means, which may depend on the calls before
  unfoldable pub call : {A : Type 0} → C → (List C → Result E A) → Act C E A
  call c answer history = (c ∷ [], answer history)

  -- A step that only maps the result makes the calls of the step before.
  pub mapped-calls :
      {A B : Type 0} (f : A → B) (history : List C) (r : List C × Result E A)
      → (after_act history r (λ a. pure (f a))).0 ≡ r.0
  unfolding pure
  mapped-calls f history (calls, err e) = refl
  mapped-calls f history (calls, ok a) = ++-empty calls

  -- And it returns if the step before does
  pub mapped-returns :
      {A B : Type 0} (f : A → B) (history : List C) (r : List C × Result E A)
      → returns (after_act history r (λ a. pure (f a))).1 ≡ returns r.1
  unfolding pure
  mapped-returns f history (calls, err e) = refl
  mapped-returns f history (calls, ok a) = refl
