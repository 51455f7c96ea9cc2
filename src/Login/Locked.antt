-- ===== src/Login/Locked.antt =====
-- backend/enterprise_platform/login_flow.py over rate_limit.py: logins to an account that has failed too often.
use easy_frame.Prelude.{
  ◌+◌, ◌≤◌, String, Bool, true, false, Option, [], ◌∷◌, ◌++◌, ◌≡◌, refl, length, arith,
}
use easy_frame.Prelude.Result.{Result, err}
use easy_frame.RateLimit.Counter.{count}
use easy_frame.RateLimit.Admission.{login, admit, failure_key, failure_window, rate_limited}
use easy_frame.RateLimit.Bounded.{IsValid}
use easy_frame.RateLimit.Limits.{admit_refusal}
use easy_frame.Login.World.{Failure, http, World, Host, Flow, ◌>>◌}
use easy_frame.Login.Flow.{
  enforce, admission, event, guard_run, after_login, after_passkey, after_begin, authenticate_login,
  run_password_login, begin_passkey_login, run_passkey_login_begin, complete_passkey_login,
  run_passkey_login_complete,
}

-- A request that has been turned away: a 429, one event, and no call.
abbrev pub TurnedAway : {A : Type 0} → String → World → World × Result Failure A → Type 0
TurnedAway username before (w, r) =
    (r ≡ err (http rate_limited.status_code rate_limited.detail))
    × (w.calls ≡ before.calls)
    × (w.events
        ≡ before.events
          ++ record { username = username; action = "auth.login.rate_limited"; method = "password" }
            ∷ [])

module _ (host : Host) (username : String) (w : World) (shared : host.enforce_shared ≡ true)
    (fresh : w.used ≡ false)
    (refused : (admit host.text (host.clock w.calls) login host.ip username w.counter).1
      ≡ err rate_limited) where
  guard_run-refused :
      {A : Type 0} (clear : Bool) (check : Flow A)
      → guard_run host username clear check w ≡ (
        record w {
          counter = (admit host.text (host.clock w.calls) login host.ip username w.counter).0;
        },
        err (http rate_limited.status_code rate_limited.detail),
      )
  unfolding guard_run admission enforce ◌>>◌
  guard_run-refused clear check = rw (shared, refused) refl

  refused_login :
      (password : String) (totp_code : Option String)
      → TurnedAway username w (run_password_login host username password totp_code w)
  unfolding run_password_login after_login event
  refused_login password totp_code =
      rw (guard_run-refused true (authenticate_login host username password totp_code), fresh)
        (refl, refl, refl)

  refused_begin :
      (password : String) → TurnedAway username w (run_passkey_login_begin host username password w)
  unfolding run_passkey_login_begin after_begin event
  refused_begin password =
      rw (guard_run-refused false (begin_passkey_login host username password)) (refl, refl, refl)

  refused_complete :
      (password state_token credential : String)
      → TurnedAway username w
          (run_passkey_login_complete host username password state_token credential w)
  unfolding run_passkey_login_complete after_passkey event
  refused_complete password state_token credential =
      rw
        (
          guard_run-refused true
              (complete_passkey_login host username password state_token credential),
          fresh,
        )
        (refl, refl, refl)

-- While the shared limits are on, and on a valid table with room for two keys whose TTL covers the
-- windows: an account with as many recent failures as its limit allows is locked for every kind of
-- login request, whatever the password, the code or the assertion. The request gets a 429, one event
-- says so, and the host is asked nothing, so that no password is tried.
pub locked_account_asks_nobody :
    (host : Host) (username : String) (w : World)
    → host.enforce_shared ≡ true
    → w.used ≡ false
    → IsValid (host.clock w.calls) w.counter
    → length w.counter.hits + 2 ≤ w.counter.max_keys
    → 300 ≤ w.counter.entry_ttl_seconds
    → (failure_window login).max_attempts
      ≤ count
          (host.clock w.calls)
          (failure_key host.text login username)
          (failure_window login)
          w.counter
    → ((password : String) (totp_code : Option String)
        → TurnedAway username w (run_password_login host username password totp_code w))
      × ((password : String)
          → TurnedAway username w (run_passkey_login_begin host username password w))
      × ((password state_token credential : String)
          → TurnedAway username w
              (run_passkey_login_complete host username password state_token credential w))
locked_account_asks_nobody host username w shared fresh v room ttl full =
    let refused =
      admit_refusal host.text (host.clock w.calls) login host.ip username w.counter v room ttl
        (λ within. omega (arith, within.account, full)) in
    (
      refused_login host username w shared fresh refused,
      refused_begin host username w shared fresh refused,
      refused_complete host username w shared fresh refused,
    )
