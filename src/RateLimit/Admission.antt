-- ===== src/RateLimit/Admission.antt =====
-- backend/enterprise_platform/rate_limit.py: the admission of logins and second factors over one
-- shared counter. A function that raises gives the counter back beside the error, since what it
-- recorded stays recorded.
use easy_frame.Prelude.{ℕ, String, ltb, leb, if◌then◌else◌}
use easy_frame.Prelude.Result.{Result, ok, err}
use easy_frame.Prelude.Text.{TextOps}
use easy_frame.Auth.Errors.{AuthError, auth_error}
use easy_frame.RateLimit.Counter.{Key, Window, Counter, record_attempt, count, clear}

-- The two families of buckets, "login" and "second-factor".
pub data Family : Type 0 where
  login second_factor : Family

abbrev pub global_identifier : String
global_identifier = "*"

abbrev pub rate_limit_detail : String
rate_limit_detail = "尝试过于频繁, 请稍后再试"

-- f"{bucket}:global"
abbrev pub global_bucket : Family → String
global_bucket login = "login:global"
global_bucket second_factor = "second-factor:global"

-- f"{bucket}:ip"
abbrev pub ip_bucket : Family → String
ip_bucket login = "login:ip"
ip_bucket second_factor = "second-factor:ip"

abbrev pub failure_bucket : Family → String
failure_bucket login = "login:account-failure"
failure_bucket second_factor = "second-factor:account-failure"

-- LOGIN_GLOBAL and SECOND_FACTOR_GLOBAL
abbrev pub global_window : Family → Window
global_window login = record { max_attempts = 600; window_seconds = 60 }
global_window second_factor = record { max_attempts = 600; window_seconds = 60 }

-- LOGIN_IP and SECOND_FACTOR_IP
abbrev pub ip_window : Family → Window
ip_window login = record { max_attempts = 30; window_seconds = 300 }
ip_window second_factor = record { max_attempts = 30; window_seconds = 300 }

-- LOGIN_ACCOUNT_FAILURES and SECOND_FACTOR_ACCOUNT_FAILURES
abbrev pub failure_window : Family → Window
failure_window login = record { max_attempts = 10; window_seconds = 300 }
failure_window second_factor = record { max_attempts = 10; window_seconds = 300 }

abbrev pub global_key : Family → Key
global_key family = (global_bucket family, global_identifier)

abbrev pub ip_key : Family → String → Key
ip_key family ip = (ip_bucket family, ip)

abbrev pub rate_limited : AuthError
rate_limited = auth_error 429 rate_limit_detail

abbrev pub Step : Type 0 → Type 0
Step A = Counter × Result AuthError A

module _ (text : TextOps) where
  abbrev pub account_identifier : String → String
  account_identifier value = text.lower (text.strip value)

  abbrev pub failure_key : Family → String → Key
  failure_key family identifier = (failure_bucket family, account_identifier identifier)

  -- the last of the three tests of `_admit`: a read of the account's failures
  unfoldable pub admit_account : ℕ → Family → String → Counter → Step Unit
  admit_account now family identifier s =
      if leb (failure_window family).max_attempts
        (count now (failure_key family identifier) (failure_window family) s)
      then (s, err rate_limited)
      else (s, ok tt)

  -- the second test of `_admit`: one more request from the address
  unfoldable pub admit_ip : ℕ → Family → String → String → Counter → Step Unit
  unfolding admit_account
  admit_ip now family ip identifier s =
      let (s', n) = record_attempt now (ip_key family ip) (ip_window family) s in
      if ltb (ip_window family).max_attempts n
      then (s', err rate_limited)
      else admit_account now family identifier s'

  -- `_admit`
  unfoldable pub admit : ℕ → Family → String → String → Counter → Step Unit
  unfolding admit_ip
  admit now family ip identifier s =
      let (s', n) = record_attempt now (global_key family) (global_window family) s in
      if ltb (global_window family).max_attempts n
      then (s', err rate_limited)
      else admit_ip now family ip identifier s'

  -- `record_login_failure` and `record_second_factor_failure`
  unfoldable pub record_failure : ℕ → Family → String → Counter → Counter
  record_failure now family identifier s =
      (record_attempt now (failure_key family identifier) (failure_window family) s).0

  -- `clear_login_failures` and `clear_second_factor_failures`
  unfoldable pub clear_failures : Family → String → Counter → Counter
  clear_failures family identifier s = clear (failure_key family identifier) s
