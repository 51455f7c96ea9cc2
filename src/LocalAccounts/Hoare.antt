-- ===== src/LocalAccounts/Hoare.antt =====
-- Reasoning about transactions: what an action leaves behind when it does not raise.
use easy_frame.Prelude.{Bool, true, false, ◌≡◌, refl}
use easy_frame.Prelude.Result.{Result, ok, err}
use easy_frame.Auth.Errors.{AuthError}
use easy_frame.LocalAccounts.Store.{Db, Tx, after_tx, ◌>>=◌, ◌>>◌, guard, lift}

-- The result meets `Q` unless it is an error.
unfoldable pub Holds : {A : Type 0} → (A → Db → Type 0) → Result AuthError (A × Db) → Type 0
Holds Q (ok (a, db)) = Q a db
Holds Q (err e) = Unit

-- From a state that meets `P`, the action raises or ends in a state that meets `Q`.
unfoldable pub Ensures : {A : Type 0} → (Db → Type 0) → Tx A → (A → Db → Type 0) → Type 0
unfolding Holds
Ensures P m Q = (db : Db) → P db → Holds Q (m db)

module _ {A B : Type 0} (Q : A → Db → Type 0) (R : B → Db → Type 0) where
  after-Holds :
      (r : Result AuthError (A × Db)) (f : A → Tx B)
      → Holds Q r
      → ((a : A) → Ensures (Q a) (f a) R)
      → Holds R (after_tx r f)
  unfolding Ensures Holds
  after-Holds (ok (a, db)) f h g = g a db h
  after-Holds (err e) f h g = tt

  pub bind-Ensures :
      (P : Db → Type 0) (m : Tx A) (f : A → Tx B)
      → Ensures P m Q
      → ((a : A) → Ensures (Q a) (f a) R)
      → Ensures P (m >>= f) R
  unfolding Ensures ◌>>=◌
  bind-Ensures P m f h g db p = after-Holds (m db) f (h db p) g

module _ {B : Type 0} (P : Db → Type 0) (R : B → Db → Type 0) where
  -- A guard that does not raise has found its test false.
  pub guard-Ensures :
      (b : Bool) (e : AuthError) (k : Tx B)
      → (b ≡ false → Ensures P k R)
      → Ensures P (guard b e >> k) R
  unfolding Ensures Holds ◌>>=◌ guard
  guard-Ensures true e k h db p = tt
  guard-Ensures false e k h db p = h refl db p

  pub lift-Ensures :
      {A : Type 0} (r : Result AuthError A) (f : A → Tx B)
      → ((a : A) → r ≡ ok a → Ensures P (f a) R)
      → Ensures P (lift r >>= f) R
  unfolding Ensures Holds ◌>>=◌ lift
  lift-Ensures (ok a) f h db p = h a refl db p
  lift-Ensures (err e) f h db p = tt

pub guard_only-Ensures :
    (P : Db → Type 0) (b : Bool) (e : AuthError) → Ensures P (guard b e) (λ _. P)
unfolding Ensures Holds guard
guard_only-Ensures P true e db p = tt
guard_only-Ensures P false e db p = p

pub ensured :
    {A : Type 0} (P : Db → Type 0) (m : Tx A) (Q : A → Db → Type 0)
    → Ensures P m Q
    → (db : Db) → P db
    → Holds Q (m db)
unfolding Ensures
ensured P m Q h = h
