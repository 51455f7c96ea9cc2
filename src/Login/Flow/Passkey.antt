-- ===== src/Login/Flow/Passkey.antt =====
-- backend/enterprise_platform/login_flow.py and auth.py: the two requests of a login by passkey.
use easy_frame.Prelude.{String, Bool, true, false, not, ◌==◌, string_eq, nat_eq, if◌then◌else◌}
use easy_frame.Prelude.Result.{Result, ok, err}
use easy_frame.Auth.Errors.{auth_error}
use easy_frame.Login.World.{
  LocalAccount, PasskeyChallenge, begin_passkey, complete_passkey, Failure, auth, http, other,
  World, Host, Flow, ◌>>=◌, ◌>>◌, raise, call,
}
use easy_frame.Login.Flow.Guard.{event, guard_run, second_factor_admission}
use easy_frame.Login.Flow.Password.{require_password, issue, require_true, method_name}

module _ (host : Host) where
  -- `begin_passkey_login`
  unfoldable pub begin_passkey_login : String → String → Flow PasskeyChallenge
  unfolding ◌>>=◌ call raise require_password
  begin_passkey_login username password = require_password host username password >>= λ account.
      if account.has_passkey
      then call (begin_passkey account.id) (λ calls. host.begin_answer calls account.id)
      else raise (auth (auth_error 400 "该账户未注册通行密钥"))

  unfoldable pub after_begin :
      {A : Type 0} → String → World × Result Failure A → World × Result Failure A
  unfolding event
  after_begin username (w, err (http status detail)) = (
    event host username (if status == 429 then "auth.login.rate_limited" else "auth.login.failure")
        "password" w,
    err (http status detail),
  )
  after_begin username (w, ok a) = (w, ok a)
  after_begin username (w, err (auth e)) = (w, err (auth e))
  after_begin username (w, err (other e)) = (w, err (other e))

  -- `_run_passkey_login_begin`
  unfoldable pub run_passkey_login_begin : String → String → Flow PasskeyChallenge
  unfolding guard_run begin_passkey_login after_begin
  run_passkey_login_begin username password w =
      after_begin username (guard_run host username false (begin_passkey_login username password) w)

  -- `except AuthError` around the host's verification
  abbrev pub as_second_factor : {A : Type 0} → World × Result Failure A → World × Result Failure A
  as_second_factor (w, ok a) = (w, ok a)
  as_second_factor (w, err (auth e)) = (w, err (auth (record e { kind = "second_factor" })))
  as_second_factor (w, err (http status detail)) = (w, err (http status detail))
  as_second_factor (w, err (other e)) = (w, err (other e))

  unfoldable pub verify_passkey : String → String → String → Flow Bool
  unfolding call
  verify_passkey id state_token credential w = as_second_factor (
      call (complete_passkey id state_token credential)
        (λ calls. host.complete_answer calls id state_token credential) w)

  -- the body of `complete_passkey_login` in its second factor
  unfoldable pub check_passkey : LocalAccount → String → String → Flow Unit
  unfolding ◌>>=◌ verify_passkey
  check_passkey account state_token credential =
      verify_passkey account.id state_token credential >>= require_true host "通行密钥验证失败"

  -- `complete_passkey_login`
  unfoldable pub complete_passkey_login : String → String → String → String → Flow (String × Bool)
  unfolding ◌>>=◌ ◌>>◌ require_password second_factor_admission check_passkey issue
  complete_passkey_login username password state_token credential =
      require_password host username password >>= λ account.
      second_factor_admission host account.id username "passkey"
        (check_passkey account state_token credential)
      >> issue host account

  unfoldable pub after_passkey :
      {A : Type 0} → String → World × Result Failure A → World × Result Failure A
  unfolding event
  after_passkey username (w, ok a) = (event host username "auth.login.success" "passkey" w, ok a)
  after_passkey username (w, err (http status detail)) = (
    if status == 429
        then event host username "auth.login.rate_limited" (method_name host w "passkey") w
        else if not w.failure_audited
        then event host username "auth.login.failure" "password" w
        else w,
    err (http status detail),
  )
  after_passkey username (w, err (auth e)) = (w, err (auth e))
  after_passkey username (w, err (other e)) = (w, err (other e))

  -- `_run_passkey_login_complete`
  unfoldable pub run_passkey_login_complete :
      String → String → String → String → Flow (String × Bool)
  unfolding guard_run complete_passkey_login after_passkey
  run_passkey_login_complete username password state_token credential w = after_passkey username (
      guard_run host username true (complete_passkey_login username password state_token credential)
        w)
