-- ===== src/Login/Totp.antt =====
-- backend/enterprise_platform/login_flow.py: when a login with a password, and maybe a code, issues a session.
use easy_frame.Prelude.{
  String, Bool, true, false, ◌&&◌, Option, none, some, List, [], ◌∷◌, ◌++◌, ◌==◌, string_eq, ◌≡◌,
  refl, sym, ap, ◌∙◌, subst, inl, inr, any, Bool-cases, arith,
}
use easy_frame.Prelude.Result.{Result, ok, err}
use easy_frame.Login.World.{
  LocalAccount, Call, authenticate_password, verify_totp, issue_session, Failure, World, Host,
  after, ◌>>=◌, pure, raise, call,
}
use easy_frame.Login.Flow.{
  second_factor_methods, require_true, is_given, check_totp, after_password, authenticate_login,
  guard_run, run_password_login,
}
use easy_frame.Login.Views.{view, after_login-view, guard_run-view}
use easy_frame.Login.Sessions.{
  is_issue, Guarded, Checked, issue-Guarded, second_issue-Guarded, password-Guarded,
}

-- All calls of a login that asks for a session: the host has accepted the password for an active
-- account, and the account has no second factor, or the host has accepted the code of its TOTP.
pub data PasswordSession (host : Host) (username password : String) (totp_code : Option String)
    : List Call → Bool → Type 0 where
  by_password :
      (account : LocalAccount)
      → host.authenticate [] username password ≡ ok (some account)
      → account.active ≡ true
      → account.totp_enabled ≡ false
      → account.has_passkey ≡ false
      → PasswordSession host username password totp_code
          (authenticate_password username password ∷ issue_session account.id ∷ [])
          account.must_change_password
  by_totp :
      (account : LocalAccount) (code : String)
      → host.authenticate [] username password ≡ ok (some account)
      → account.active ≡ true
      → account.totp_enabled ≡ true
      → totp_code ≡ some code
      → host.totp_answer (authenticate_password username password ∷ []) account.id code ≡ ok true
      → PasswordSession host username password totp_code
          (authenticate_password username password
            ∷ verify_totp account.id code
            ∷ issue_session account.id
            ∷ [])
          account.must_change_password

methods-none :
    (account : LocalAccount)
    → [] ≡ second_factor_methods account
    → (account.totp_enabled ≡ false) × (account.has_passkey ≡ false)
unfolding second_factor_methods
methods-none account e = ground (arith, e)

methods-totp :
    (account : LocalAccount)
    → any (λ method. method == "totp") (second_factor_methods account) ≡ true
    → account.totp_enabled ≡ true
unfolding second_factor_methods
methods-totp account h = ground (arith, h)

module _ (host : Host) (username password : String) where
  -- the calls of an accepted code
  abbrev Verified : LocalAccount → Option String → List Call → Type 0
  Verified account totp_code calls =
      (code : String) × (totp_code ≡ some code)
      × (account.totp_enabled ≡ true)
      × (host.totp_answer (authenticate_password username password ∷ []) account.id code ≡ ok true)
      × (calls ≡ authenticate_password username password ∷ verify_totp account.id code ∷ [])

  answered-Checked :
      (account : LocalAccount) (code : String) (w : World) (r : Result Failure Bool)
      → w.calls ≡ authenticate_password username password ∷ verify_totp account.id code ∷ []
      → account.totp_enabled ≡ true
      → host.totp_answer (authenticate_password username password ∷ []) account.id code ≡ r
      → Checked
          (Verified account (some code))
          (view (after (w, r) (require_true host "TOTP 验证码错误")))
  unfolding pure raise
  answered-Checked account code w (ok true) c t a = (code, refl, t, a, c)
  answered-Checked account code w (ok false) c t a = ap (any is_issue) c
  answered-Checked account code w (err e) c t a = ap (any is_issue) c

  check_totp-Checked :
      (account : LocalAccount) (totp_code : Option String) (w : World)
      → w.calls ≡ authenticate_password username password ∷ []
      → Checked
          (Verified account totp_code)
          (view (check_totp host account (second_factor_methods account) totp_code w))
  unfolding check_totp raise call ◌>>=◌
  check_totp-Checked account none w c = ap (any is_issue) c
  check_totp-Checked account (some code) w c =
      elim (Bool-cases (
        is_given host (some code)
        && any (λ method. method == "totp") (second_factor_methods account))) [
          | inl t ↦
              rw (check_totp, t)
                (answered-Checked account code
                  (record w { calls = w.calls ++ verify_totp account.id code ∷ [] })
                  (host.totp_answer w.calls account.id code)
                  (ap (λ calls. calls ++ verify_totp account.id code ∷ []) c)
                  (methods-totp account (ground (arith, t)))
                  (ap (λ calls. host.totp_answer calls account.id code) (sym c)))
          | inr n ↦ rw (check_totp, n) (ap (any is_issue) c)
        ]

  after_password-Guarded :
      (totp_code : Option String) (account : LocalAccount) (v : World) (methods : List String)
      → host.authenticate [] username password ≡ ok (some account)
      → account.active ≡ true
      → v.calls ≡ authenticate_password username password ∷ []
      → methods ≡ second_factor_methods account
      → Guarded
          (PasswordSession host username password totp_code)
          (view (after_password host username totp_code account methods v))
  unfolding after_password
  after_password-Guarded totp_code account v [] a l c m =
      let (t, p) = methods-none account m in
      issue-Guarded host (PasswordSession host username password totp_code) account v (
        subst
          (λ calls.
            PasswordSession host username password totp_code
              (calls ++ issue_session account.id ∷ []) account.must_change_password)
          (sym c) (by_password account a l t p))
  after_password-Guarded totp_code account v (method ∷ methods) a l c m =
      second_issue-Guarded host (PasswordSession host username password totp_code)
        (Verified account totp_code) account account.id username "totp"
        (check_totp host account (method ∷ methods) totp_code) v (ap (any is_issue) c)
        (λ u e.
          subst
            (λ ms.
              Checked (Verified account totp_code) (view (check_totp host account ms totp_code u)))
            (sym m) (check_totp-Checked account totp_code u (e ∙ c)))
        (λ calls (code, given, t, answered, e).
          subst
            (λ calls.
              PasswordSession host username password totp_code
                (calls ++ issue_session account.id ∷ []) account.must_change_password)
            (sym e) (by_totp account code a l t given answered))

  -- Of a login by password: a session is asked for only after the host has accepted the password for an
  -- active account, and, where the account has a second factor, the code of its TOTP, each of them just
  -- once and in this order; and no token is returned without that.
  pub run_password_login-Guarded :
      (totp_code : Option String) (w : World)
      → w.calls ≡ []
      → Guarded
          (PasswordSession host username password totp_code)
          (view (run_password_login host username password totp_code w))
  unfolding run_password_login authenticate_login
  run_password_login-Guarded totp_code w start =
      let check = authenticate_login host username password totp_code in
      subst (Guarded (PasswordSession host username password totp_code))
        (sym (after_login-view host username (guard_run host username true check w)))
        (guard_run-view host (Guarded (PasswordSession host username password totp_code)) username
          true check w (inl (ap (any is_issue) start))
          (λ v e.
            password-Guarded host (PasswordSession host username password totp_code) username
              password
              (λ account.
                after_password host username totp_code account (second_factor_methods account))
              v (e ∙ start)
              (λ account u a l c.
                after_password-Guarded totp_code account u (second_factor_methods account) a l c
                  refl)))
