-- ===== src/Login/Flow/Password.antt =====
-- backend/enterprise_platform/login_flow.py and auth.py: the login by password, with TOTP.
use easy_frame.Prelude.{
  String, Bool, true, false, not, ◌&&◌, Option, none, some, List, [], ◌∷◌, ◌++◌, ◌==◌, string_eq,
  nat_eq, any, if◌then◌else◌,
}
use easy_frame.Prelude.Result.{Result, ok, err}
use easy_frame.Auth.Errors.{message, require_second_factor, auth_error, asks_second_factor}
use easy_frame.Login.World.{
  LocalAccount, authenticate_password, verify_totp, issue_session, Failure, auth, http, other,
  World, Host, Flow, ◌>>=◌, ◌>>◌, pure, raise, call,
}
use easy_frame.Login.Flow.Guard.{event, guard_run, second_factor_admission}

-- `second_factor_methods_for_flags`
unfoldable pub second_factor_methods : LocalAccount → List String
second_factor_methods account =
    (if account.totp_enabled then "totp" ∷ [] else [])
    ++ (if account.has_passkey then "passkey" ∷ [] else [])

module _ (host : Host) where
  -- `require_password`, for what the host answers
  abbrev pub check_account : Option LocalAccount → Result Failure LocalAccount
  check_account none = err (auth (auth_error 401 "用户名或密码错误"))
  check_account (some account) =
      if account.active then ok account else err (auth (auth_error 401 "用户名或密码错误"))

  abbrev pub lift : {A : Type 0} → Result Failure A → Flow A
  lift r w = (w, r)

  unfoldable pub require_password : String → String → Flow LocalAccount
  unfolding ◌>>=◌ call
  require_password username password =
      call (authenticate_password username password)
        (λ calls. host.authenticate calls username password)
      >>= λ found. lift (check_account found)

  -- `port.issue_session(account.id), account.must_change_password`
  unfoldable pub issue : LocalAccount → Flow (String × Bool)
  unfolding ◌>>=◌ call pure
  issue account =
      call (issue_session account.id) (λ calls. host.session_answer calls account.id) >>= λ token.
      pure (token, account.must_change_password)

  abbrev pub second_factor_error : String → Failure
  second_factor_error text =
      auth (record { status_code = 401; detail = message text; kind = "second_factor" })

  abbrev pub require_true : String → Bool → Flow Unit
  unfolding pure raise
  require_true text true = pure tt
  require_true text false = raise (second_factor_error text)

  abbrev pub is_given : Option String → Bool
  is_given none = false
  is_given (some code) = not (code == "")

  abbrev pub code_of : Option String → String
  code_of none = ""
  code_of (some code) = code

  -- the body of `authenticate_login` in its second factor
  unfoldable pub check_totp : LocalAccount → List String → Option String → Flow Unit
  unfolding ◌>>=◌ call raise
  check_totp account methods totp_code =
      if is_given totp_code && any (λ method. method == "totp") methods
      then (call (verify_totp account.id (code_of totp_code))
            (λ calls. host.totp_answer calls account.id (code_of totp_code))
          >>= require_true "TOTP 验证码错误")
      else raise (
          auth (record {
            status_code = 401;
            detail = require_second_factor methods;
            kind = "second_factor_challenge";
          }))

  unfoldable pub after_password :
      String → Option String → LocalAccount → List String → Flow (String × Bool)
  unfolding ◌>>◌ issue second_factor_admission check_totp
  after_password username totp_code account [] = issue account
  after_password username totp_code account (method ∷ methods) =
      second_factor_admission host account.id username "totp"
        (check_totp account (method ∷ methods) totp_code)
      >> issue account

  -- `authenticate_login`
  unfoldable pub authenticate_login : String → String → Option String → Flow (String × Bool)
  unfolding ◌>>=◌ require_password after_password second_factor_methods
  authenticate_login username password totp_code = require_password username password >>= λ account.
      after_password username totp_code account (second_factor_methods account)

  abbrev pub method_name : World → String → String
  method_name w method = if w.used then method else "password"

  -- the events of `_run_password_login`
  unfoldable pub after_login :
      {A : Type 0} → String → World × Result Failure A → World × Result Failure A
  unfolding event
  after_login username (w, ok a) =
      (event host username "auth.login.success" (method_name w "totp") w, ok a)
  after_login username (w, err (http status detail)) = (
    if status == 429
        then event host username "auth.login.rate_limited" (method_name w "totp") w
        else if not (asks_second_factor detail) && not w.used
        then event host username "auth.login.failure" "password" w
        else w,
    err (http status detail),
  )
  after_login username (w, err (auth e)) = (w, err (auth e))
  after_login username (w, err (other e)) = (w, err (other e))

  -- `_run_password_login`
  unfoldable pub run_password_login : String → String → Option String → Flow (String × Bool)
  unfolding guard_run authenticate_login after_login
  run_password_login username password totp_code w =
      after_login username
        (guard_run host username true (authenticate_login username password totp_code) w)
