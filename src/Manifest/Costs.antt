-- ===== src/Manifest/Costs.antt =====
-- backend/enterprise_platform/easyauth/manifest_sync.py: how many requests a step costs.
use easy_frame.Prelude.{
  ℕ, ◌+◌, ◌≤◌, List, [], ◌∷◌, ◌++◌, ==_iff, string_eq, nat_eq, option_eq, ◌≡◌, refl, length,
  length-append, All, All-append, arith,
}
use easy_frame.Prelude.Dict.{insert}
use easy_frame.Prelude.Result.{Result, ok, err}
use easy_frame.Prelude.Traced.{after_act, ◌>>=◌, pure}
use easy_frame.Manifest.Recorded.{Document, Ops, content, with_version}
use easy_frame.Manifest.Exchange.{Body, Response, HttpError, Act}

pub content-with_version :
    (ops : Ops) (manifest : Document) (version : ℕ)
    → content ops (with_version manifest version) ≡ content ops manifest
unfolding content with_version insert
content-with_version ops [] version = refl
content-with_version ops ((key, value) ∷ manifest) version =
    ground (arith, content-with_version ops manifest version, ==_iff key "schema_version")

-- What a step costs: each request is allowed, and their number with what the result leaves to be
-- spent is within a bound; and the result is as it should be.
module _ (P : Body → Type 0) where
  abbrev pub Spent :
      {A : Type 0} → (A → Type 0) → ℕ → (A → ℕ) → List Body × Result HttpError A → Type 0
  Spent Q n weight (posts, ok a) = All P posts × (length posts + weight a ≤ n) × Q a
  Spent Q n weight (posts, err e) = All P posts × (length posts ≤ n)

  unfoldable pub Costs : {A : Type 0} → (A → Type 0) → ℕ → (A → ℕ) → Act A → Type 0
  Costs Q n weight m = (history : List Body) → Spent Q n weight (m history)

  module _ {A B : Type 0} (Q : A → Type 0) (R : B → Type 0) (n k : ℕ) (v : A → ℕ) (w : B → ℕ) where
    joined-Spent :
        (posts : List Body) (a : A) (r : List Body × Result HttpError B)
        → All P posts
        → length posts + v a ≤ n
        → Spent R (v a + k) w r
        → Spent R (n + k) w (posts ++ r.0, r.1)
    joined-Spent posts a (more, ok b) p l (q, m, x) =
        (All-append P posts more p q, omega (arith, l, m, length-append posts more), x)
    joined-Spent posts a (more, err e) p l (q, m) =
        (All-append P posts more p q, omega (arith, l, m, length-append posts more))

    after-Spent :
        (history : List Body) (r : List Body × Result HttpError A) (f : A → Act B)
        → Spent Q n v r
        → ((a : A) → Q a → Costs R (v a + k) w (f a))
        → Spent R (n + k) w (after_act history r f)
    unfolding Costs
    after-Spent history (posts, ok a) f (p, l, q) g =
        joined-Spent posts a (f a (history ++ posts)) p l (g a q (history ++ posts))
    after-Spent history (posts, err e) f (p, l) g = (p, omega (arith, l))

    pub bind-Costs :
        (m : Act A) (f : A → Act B)
        → Costs Q n v m
        → ((a : A) → Q a → Costs R (v a + k) w (f a))
        → Costs R (n + k) w (m >>= f)
    unfolding Costs ◌>>=◌
    bind-Costs m f h g history = after-Spent history (m history) f (h history) g

  weaken-Spent :
      {A : Type 0} (Q : A → Type 0) (w : A → ℕ) (n n' : ℕ) (r : List Body × Result HttpError A)
      → n ≤ n'
      → Spent Q n w r
      → Spent Q n' w r
  weaken-Spent Q w n n' (posts, ok a) l (p, m, q) = (p, omega (arith, l, m), q)
  weaken-Spent Q w n n' (posts, err e) l (p, m) = (p, omega (arith, l, m))

  pub weaken-Costs :
      {A : Type 0} (Q : A → Type 0) (w : A → ℕ) (n n' : ℕ) (m : Act A)
      → n ≤ n'
      → Costs Q n w m
      → Costs Q n' w m
  unfolding Costs
  weaken-Costs Q w n n' m l h history = weaken-Spent Q w n n' (m history) l (h history)

  pub pure-Costs :
      {A : Type 0} (Q : A → Type 0) (w : A → ℕ) (n : ℕ) (a : A)
      → Q a
      → w a ≤ n
      → Costs Q n w (pure a)
  unfolding Costs pure
  pure-Costs Q w n a q l history = (tt, omega (arith, l), q)

  pub answered-Spent :
      (body : Body) (r : Result HttpError Response)
      → P body
      → Spent (λ _. Unit) 1 (λ _. 0) (body ∷ [], r)
  answered-Spent body (ok response) p = ((p, tt), omega arith, tt)
  answered-Spent body (err e) p = ((p, tt), omega arith)
