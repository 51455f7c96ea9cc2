-- ===== src/Login/Sessions.antt =====
-- backend/enterprise_platform/login_flow.py and auth.py: when a login issues a session.
use easy_frame.Prelude.{
  String, Bool, true, false, Option, none, some, List, [], ◌∷◌, ◌++◌, string_eq, ◌≡◌, refl, sym, ap,
  ◌∙◌, subst, ◌⊎◌, inl, inr, any, Bool-cases, if◌then◌else◌, arith,
}
use easy_frame.Prelude.Result.{Result, ok, err}
use easy_frame.Auth.Errors.{auth_error}
use easy_frame.Login.World.{
  LocalAccount, Call, authenticate_password, issue_session, Failure, auth, World, Host, Flow, after,
  ◌>>=◌, ◌>>◌, pure, call,
}
use easy_frame.Login.Flow.{check_account, require_password, issue, second_factor_admission}
use easy_frame.Login.Views.{view, after-view, second_factor-view}

abbrev pub is_issue : Call → Bool
is_issue (issue_session _) = true
is_issue _ = false

-- The calls of a login and its result: a session is asked for only as the relation allows, and without
-- that there is no token.
abbrev pub Guarded : (List Call → Bool → Type 0) → List Call × Option (String × Bool) → Type 0
Guarded Session (calls, some (token, must_change)) = Session calls must_change
Guarded Session (calls, none) =
    (any is_issue calls ≡ false) ⊎ ((must_change : Bool) × Session calls must_change)

-- The calls of a second factor: none of them asks for a session.
abbrev pub Checked : (List Call → Type 0) → List Call × Option (Unit {0}) → Type 0
Checked Verified (calls, some _) = Verified calls
Checked Verified (calls, none) = any is_issue calls ≡ false

module _ (host : Host) (Session : List Call → Bool → Type 0) where
  issued-Guarded :
      (account : LocalAccount) (w : World) (r : Result Failure String)
      → Session (w.calls ++ issue_session account.id ∷ []) account.must_change_password
      → Guarded Session (
          view (
            after
              (record w { calls = w.calls ++ issue_session account.id ∷ [] }, r)
              λ token. pure (token, account.must_change_password)))
  unfolding pure
  issued-Guarded account w (ok token) s = s
  issued-Guarded account w (err e) s = inr (account.must_change_password, s)

  pub issue-Guarded :
      (account : LocalAccount) (w : World)
      → Session (w.calls ++ issue_session account.id ∷ []) account.must_change_password
      → Guarded Session (view (issue host account w))
  unfolding issue ◌>>=◌ call
  issue-Guarded account w s = issued-Guarded account w (host.session_answer w.calls account.id) s

  -- a second factor, and then the session
  pub second_issue-Guarded :
      (Verified : List Call → Type 0) (account : LocalAccount) (id username method : String)
      (body : Flow Unit) (w : World)
      → any is_issue w.calls ≡ false
      → ((v : World) → v.calls ≡ w.calls → Checked Verified (view (body v)))
      → ((calls : List Call)
          → Verified calls
          → Session (calls ++ issue_session account.id ∷ []) account.must_change_password)
      → Guarded Session
          (view ((second_factor_admission host id username method body >> issue host account) w))
  unfolding ◌>>◌
  second_issue-Guarded Verified account id username method body w n b s =
      after-view (Checked Verified) (Guarded Session)
        (second_factor_admission host id username method body w) (λ _. issue host account)
        (second_factor-view host (Checked Verified) id username method body w n b)
        (λ calls u. inl u) (λ v _ verified. issue-Guarded account v (s v.calls verified))

  found-Guarded :
      (first : Call) (rest : LocalAccount → Flow (String × Bool)) (v : World)
      (answer : Result Failure (Option LocalAccount))
      → is_issue first ≡ false
      → v.calls ≡ first ∷ []
      → ((account : LocalAccount)
          → answer ≡ ok (some account)
          → account.active ≡ true
          → Guarded Session (view (rest account v)))
      → Guarded Session
          (view (after (after (v, answer) (λ found w. (w, check_account host found))) rest))
  found-Guarded first rest v (err x) i e k = inl (ground (arith, ap (any is_issue) e, i))
  found-Guarded first rest v (ok none) i e k = inl (ground (arith, ap (any is_issue) e, i))
  found-Guarded first rest v (ok (some account)) i e k =
      let refused : Result Failure LocalAccount = err (auth (auth_error 401 "用户名或密码错误")) in
      let Ends : Bool → Type 0 =
        λ active. Guarded Session (view (after (v, if active then ok account else refused) rest)) in
      elim (Bool-cases account.active) [
        | inl a ↦ subst Ends (sym a) (k account refl a)
        | inr a ↦ subst Ends (sym a) (inl (ground (arith, ap (any is_issue) e, i)))
      ]

  -- the password, and then what follows for an active account
  pub password-Guarded :
      (username password : String) (rest : LocalAccount → Flow (String × Bool)) (w : World)
      → w.calls ≡ []
      → ((account : LocalAccount) (v : World)
          → host.authenticate [] username password ≡ ok (some account)
          → account.active ≡ true
          → v.calls ≡ authenticate_password username password ∷ []
          → Guarded Session (view (rest account v)))
      → Guarded Session (view ((require_password host username password >>= rest) w))
  unfolding ◌>>=◌ require_password call
  password-Guarded username password rest w e k =
      let first = authenticate_password username password in
      found-Guarded first rest (record w { calls = w.calls ++ first ∷ [] })
        (host.authenticate w.calls username password) refl (ap (λ calls. calls ++ first ∷ []) e)
        (λ account answered active.
          k account (record w { calls = w.calls ++ first ∷ [] })
            (ap (λ calls. host.authenticate calls username password) (sym e) ∙ answered) active
            (ap (λ calls. calls ++ first ∷ []) e))
