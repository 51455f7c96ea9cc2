-- ===== src/Login/World.antt =====
-- backend/enterprise_platform/login_flow.py: what one login request changes and whom it calls. The host's
-- answers may depend on every call made before, and so may the time.
use easy_frame.Prelude.{ℕ, String, Bool, Option, List, [], ◌∷◌, ◌++◌}
use easy_frame.Prelude.Result.{Result, ok, err}
use easy_frame.Prelude.Text.{TextOps}
use easy_frame.Auth.Errors.{AuthError, Detail}
use easy_frame.RateLimit.Counter.{Counter}

pub record LocalAccount : Type 0 where
  pub id : String
  pub active : Bool
  pub must_change_password : Bool
  pub totp_enabled : Bool
  pub has_passkey : Bool

pub record PasskeyChallenge : Type 0 where
  pub options : String
  pub state_token : String

pub data Call : Type 0 where
  authenticate_password : String → String → Call
  verify_totp : String → String → Call
  begin_passkey : String → Call
  complete_passkey : String → String → String → Call
  issue_session : String → Call

-- An `AuthError`, an `HTTPException`, and any other exception.
pub data Failure : Type 0 where
  auth : AuthError → Failure
  http : ℕ → Detail → Failure
  other : String → Failure

-- the arguments of `login_event`: the user's name, the action and the method
pub record Event : Type 0 where
  pub username : String
  pub action : String
  pub method : String

-- The counter of all requests, and of this one the calls, the events and `_SecondFactorState`.
pub record World : Type 0 where
  pub counter : Counter
  pub calls : List Call
  pub events : List Event
  pub used : Bool
  pub failure_audited : Bool

pub record Host : Type 0 where
  pub text : TextOps
  pub clock : List Call → ℕ
  -- `client_ip`
  pub ip : String
  pub enforce_shared : Bool
  pub before_password_login : List Call → String → Result Failure Unit
  pub before_second_factor : List Call → String → Result Failure Unit
  pub authenticate : List Call → String → String → Result Failure (Option LocalAccount)
  pub totp_answer : List Call → String → String → Result Failure Bool
  pub begin_answer : List Call → String → Result Failure PasskeyChallenge
  pub complete_answer : List Call → String → String → String → Result Failure Bool
  pub session_answer : List Call → String → Result Failure String

abbrev pub Flow : Type 0 → Type 0
Flow A = World → World × Result Failure A

module _ {A B : Type 0} where
  abbrev pub after : World × Result Failure A → (A → Flow B) → World × Result Failure B
  after (w, ok a) f = f a w
  after (w, err e) f = (w, err e)

  infixl 5 ◌>>=◌ ◌>>◌
  unfoldable pub ◌>>=◌ : Flow A → (A → Flow B) → Flow B
  ◌>>=◌ m f w = after (m w) f

  unfoldable pub ◌>>◌ : Flow A → Flow B → Flow B
  ◌>>◌ m n w = after (m w) (λ _. n)

unfoldable pub pure : {A : Type 0} → A → Flow A
pure a w = (w, ok a)

unfoldable pub raise : {A : Type 0} → Failure → Flow A
raise e w = (w, err e)

unfoldable pub call : {A : Type 0} → Call → (List Call → Result Failure A) → Flow A
call c answer w = (record w { calls = w.calls ++ c ∷ [] }, answer w.calls)
