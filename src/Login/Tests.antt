-- ===== src/Login/Tests.antt =====
-- Logins of an account with TOTP, and of one that is locked.
use easy_frame.Prelude.{ℕ, String, true, false, Option, some, List, [], ◌∷◌, refl, arith}
use easy_frame.Prelude.Result.{ok}
use easy_frame.Prelude.Text.{TextOps}
use easy_frame.Prelude.Dict.{lookup, insert, remove}
use easy_frame.Prelude.Recency.{move_to_end, pop_oldest}
use easy_frame.Prelude.Selection.{keys_where, remove_all}
use easy_frame.RateLimit.Counter.{Counter, Key, init, record_attempt, count}
use easy_frame.RateLimit.Bounded.{IsValid, init-IsValid, record-IsValid}
use easy_frame.RateLimit.Admission.{login, failure_key, failure_window}
use easy_frame.Login.World.{LocalAccount, World, Host}
use easy_frame.Login.Flow.{run_password_login, run_passkey_login_begin, run_passkey_login_complete}
use easy_frame.Login.Views.{view}
use easy_frame.Login.Sessions.{Guarded}
use easy_frame.Login.Totp.{PasswordSession, run_password_login-Guarded}
use easy_frame.Login.Passkey.{PasskeySession, run_passkey_login_complete-Guarded}
use easy_frame.Login.Locked.{TurnedAway, locked_account_asks_nobody}

abbrev plain : TextOps
plain = record { strip = λ s. s; lower = λ s. s; size = λ _. 12; contains = λ _ _. false }

abbrev alice : LocalAccount
alice = record {
  id = "7";
  active = true;
  must_change_password = false;
  totp_enabled = true;
  has_passkey = true;
}

abbrev host : Host
host = record {
  text = plain;
  clock = λ _. 5;
  ip = "10.0.0.1";
  enforce_shared = true;
  before_password_login = λ _ _. ok tt;
  before_second_factor = λ _ _. ok tt;
  authenticate = λ _ _ _. ok (some alice);
  totp_answer = λ _ _ _. ok true;
  begin_answer = λ _ _. ok (record { options = "{}"; state_token = "s" });
  complete_answer = λ _ _ _ _. ok true;
  session_answer = λ _ _. ok "token";
}

abbrev world : Counter → World
world counter = record {
  counter = counter;
  calls = [];
  events = [];
  used = false;
  failure_audited = false;
}

run_password_login-Guarded_example :
    Guarded
      (PasswordSession host "alice" "pw" (some "123456"))
      (view (run_password_login host "alice" "pw" (some "123456") (world (init 0 20_000 900))))
run_password_login-Guarded_example =
    run_password_login-Guarded host "alice" "pw" (some "123456") (world (init 0 20_000 900)) refl

run_passkey_login_complete-Guarded_example :
    Guarded
      (PasskeySession host "alice" "pw" "s" "{}")
      (view (run_passkey_login_complete host "alice" "pw" "s" "{}" (world (init 0 20_000 900))))
run_passkey_login_complete-Guarded_example =
    run_passkey_login_complete-Guarded host "alice" "pw" "s" "{}" (world (init 0 20_000 900)) refl

abbrev failure : Key
failure = failure_key plain login "alice"

-- one failure of alice for each element, all at the same time
abbrev fail_all : List ℕ → Counter → Counter
fail_all [] s = s
fail_all (_ ∷ more) s = fail_all more (record_attempt 5 failure (failure_window login) s).0

fail_all-IsValid : (more : List ℕ) (s : Counter) → IsValid 5 s → IsValid 5 (fail_all more s)
fail_all-IsValid [] s v = v
fail_all-IsValid (_ ∷ more) s v =
    fail_all-IsValid more (record_attempt 5 failure (failure_window login) s).0
      (record-IsValid 5 failure (failure_window login) s v)

abbrev ten : List ℕ
ten = 1 ∷ 2 ∷ 3 ∷ 4 ∷ 5 ∷ 6 ∷ 7 ∷ 8 ∷ 9 ∷ 10 ∷ []

abbrev locked : Counter
locked = fail_all ten (init 5 20_000 900)

locked_account_asks_nobody_example :
    ((password : String) (totp_code : Option String)
      → TurnedAway "alice"
          (world locked)
          (run_password_login host "alice" password totp_code (world locked)))
    × ((password : String)
        → TurnedAway "alice"
            (world locked)
            (run_passkey_login_begin host "alice" password (world locked)))
    × ((password state_token credential : String)
        → TurnedAway "alice" (world locked) (
            run_passkey_login_complete host "alice" password state_token credential (world locked)))
unfolding init record_attempt count lookup insert remove move_to_end pop_oldest keys_where
    remove_all
locked_account_asks_nobody_example =
    locked_account_asks_nobody host "alice" (world locked) refl refl
      (fail_all-IsValid ten (init 5 20_000 900) (init-IsValid 5 20_000 900)) (omega arith)
      (omega arith) (omega arith)
