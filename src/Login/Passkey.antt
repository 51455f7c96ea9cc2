-- ===== src/Login/Passkey.antt =====
-- backend/enterprise_platform/login_flow.py: when the completion of a login with a passkey issues a session.
use easy_frame.Prelude.{
  String, Bool, true, false, some, List, [], ◌∷◌, ◌++◌, string_eq, ◌≡◌, sym, ap, ◌∙◌, subst, inl,
  any,
}
use easy_frame.Prelude.Result.{Result, ok, err}
use easy_frame.Login.World.{
  LocalAccount, Call, authenticate_password, complete_passkey, issue_session, Failure, auth, http,
  other, World, Host, after, ◌>>=◌, ◌>>◌, pure, raise, call,
}
use easy_frame.Login.Flow.{
  issue, require_true, second_factor_admission, guard_run, as_second_factor, verify_passkey,
  check_passkey, complete_passkey_login, run_passkey_login_complete,
}
use easy_frame.Login.Views.{view, after_passkey-view, guard_run-view}
use easy_frame.Login.Sessions.{is_issue, Guarded, Checked, second_issue-Guarded, password-Guarded}

-- All calls of a completion that asks for a session: the host has accepted the password for an active
-- account, and then the assertion.
pub data PasskeySession (host : Host) (username password state_token credential : String)
    : List Call → Bool → Type 0 where
  by_passkey :
      (account : LocalAccount)
      → host.authenticate [] username password ≡ ok (some account)
      → account.active ≡ true
      → host.complete_answer
          (authenticate_password username password ∷ [])
          account.id
          state_token
          credential
        ≡ ok true
      → PasskeySession host username password state_token credential
          (authenticate_password username password
            ∷ complete_passkey account.id state_token credential
            ∷ issue_session account.id
            ∷ [])
          account.must_change_password

module _ (host : Host) (username password state_token credential : String) where
  abbrev Asserted : LocalAccount → List Call → Type 0
  Asserted account calls =
      (host.complete_answer (authenticate_password username password ∷ []) account.id state_token
          credential
        ≡ ok true)
      × (calls
          ≡ authenticate_password username password
            ∷ complete_passkey account.id state_token credential
            ∷ [])

  Asserted-Checked :
      (account : LocalAccount) (w : World) (r : Result Failure Bool)
      → w.calls
        ≡ authenticate_password username password
          ∷ complete_passkey account.id state_token credential
          ∷ []
      → host.complete_answer
          (authenticate_password username password ∷ [])
          account.id
          state_token
          credential
        ≡ r
      → Checked
          (Asserted account)
          (view (after (as_second_factor host (w, r)) (require_true host "通行密钥验证失败")))
  unfolding pure raise
  Asserted-Checked account w (ok true) c a = (a, c)
  Asserted-Checked account w (ok false) c a = ap (any is_issue) c
  Asserted-Checked account w (err (auth e)) c a = ap (any is_issue) c
  Asserted-Checked account w (err (http status detail)) c a = ap (any is_issue) c
  Asserted-Checked account w (err (other e)) c a = ap (any is_issue) c

  check_passkey-Checked :
      (account : LocalAccount) (w : World)
      → w.calls ≡ authenticate_password username password ∷ []
      → Checked (Asserted account) (view (check_passkey host account state_token credential w))
  unfolding check_passkey verify_passkey call ◌>>=◌
  check_passkey-Checked account w c =
      let next = complete_passkey account.id state_token credential in
      Asserted-Checked account (record w { calls = w.calls ++ next ∷ [] })
        (host.complete_answer w.calls account.id state_token credential)
        (ap (λ calls. calls ++ next ∷ []) c)
        (ap (λ calls. host.complete_answer calls account.id state_token credential) (sym c))

  -- Of the completion of a login by passkey: a session is asked for only after the host has accepted
  -- the password for an active account and then the assertion, each of them just once; and no token is
  -- returned without that.
  pub run_passkey_login_complete-Guarded :
      (w : World)
      → w.calls ≡ []
      → Guarded
          (PasskeySession host username password state_token credential)
          (view (run_passkey_login_complete host username password state_token credential w))
  unfolding run_passkey_login_complete complete_passkey_login
  run_passkey_login_complete-Guarded w start =
      let Session = PasskeySession host username password state_token credential in
      let check = complete_passkey_login host username password state_token credential in
      subst (Guarded Session)
        (sym (after_passkey-view host username (guard_run host username true check w)))
        (guard_run-view host (Guarded Session) username true check w (inl (ap (any is_issue) start))
          (λ v e.
            password-Guarded host Session username password
              (λ account.
                second_factor_admission host account.id username "passkey"
                  (check_passkey host account state_token credential)
                >> issue host account)
              v (e ∙ start)
              (λ account u a l c.
                second_issue-Guarded host Session (Asserted account) account account.id username
                  "passkey" (check_passkey host account state_token credential) u
                  (ap (any is_issue) c) (λ x f. check_passkey-Checked account x (f ∙ c))
                  (λ calls (answered, f).
                    subst
                      (λ calls.
                        Session (calls ++ issue_session account.id ∷ [])
                          account.must_change_password)
                      (sym f) (by_passkey account a l answered)))))
