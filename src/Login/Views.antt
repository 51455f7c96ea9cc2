-- ===== src/Login/Views.antt =====
-- backend/enterprise_platform/login_flow.py: the calls of a step and whether it returns, through the
-- functions that keep the limits and write the events.
use easy_frame.Prelude.{
  String, Bool, true, false, not, ◌&&◌, Option, none, some, List, ◌==◌, string_eq, nat_eq, ◌≡◌,
  refl, sym, ◌∙◌, subst, inl, inr, Bool-cases,
}
use easy_frame.Prelude.Result.{Result, ok, err}
use easy_frame.Auth.Errors.{is_credential_failure, asks_second_factor}
use easy_frame.RateLimit.Admission.{Family, login, second_factor}
use easy_frame.Login.World.{Call, Failure, auth, http, other, World, Host, Flow, after, ◌>>◌}
use easy_frame.Login.Flow.{
  to_http, enforce, hook, admission, record_failed, clear_failed, event, after_check, guard_run,
  after_second, second_factor_admission, after_login, after_passkey,
}

abbrev pub view : {A : Type 0} → World × Result Failure A → List Call × Option A
view (w, ok a) = (w.calls, some a)
view (w, err e) = (w.calls, none)

module _ {A B : Type 0} where
  -- what a predicate says of two steps
  pub after-view :
      (P : List Call × Option A → Type 0) (Q : List Call × Option B → Type 0)
      (r : World × Result Failure A) (f : A → Flow B)
      → P (view r)
      → ((calls : List Call) → P (calls, none) → Q (calls, none))
      → ((w : World) (a : A) → P (w.calls, some a) → Q (view (f a w)))
      → Q (view (after r f))
  after-view P Q (w, ok a) f p g h = h w a p
  after-view P Q (w, err e) f p g h = g w.calls p

module _ {A : Type 0} (host : Host) where
  after_check-view :
      (username : String) (clear : Bool) (r : World × Result Failure A)
      → view (after_check host username clear r) ≡ view r
  unfolding after_check record_failed clear_failed
  after_check-view username true (w, ok a) = refl
  after_check-view username false (w, ok a) = refl
  after_check-view username clear (w, err (auth e)) = elim (Bool-cases (is_credential_failure e)) [
    | inl c ↦ rw c refl
    | inr n ↦ rw n refl
  ]
  after_check-view username clear (w, err (http status detail)) = refl
  after_check-view username clear (w, err (other e)) = refl

  after_second-view :
      (id username method : String) (r : World × Result Failure A)
      → view (after_second host id username method r) ≡ view r
  unfolding after_second record_failed clear_failed event
  after_second-view id username method (w, ok a) = refl
  after_second-view id username method (w, err (auth e)) =
      elim (Bool-cases (e.kind == "second_factor")) [
        | inl c ↦ rw (after_second, c) refl
        | inr n ↦ rw (after_second, n) refl
      ]
  after_second-view id username method (w, err (http status detail)) = refl
  after_second-view id username method (w, err (other e)) = refl

  pub after_login-view :
      (username : String) (r : World × Result Failure A)
      → view (after_login host username r) ≡ view r
  unfolding after_login event
  after_login-view username (w, ok a) = refl
  after_login-view username (w, err (http status detail)) = elim (Bool-cases (status == 429)) [
    | inl c ↦ rw c refl
    | inr n ↦ elim (Bool-cases (not (asks_second_factor detail) && not w.used)) [
      | inl c ↦ rw (n, after_login, c) refl
      | inr m ↦ rw (n, after_login, m) refl
    ]
  ]
  after_login-view username (w, err (auth e)) = refl
  after_login-view username (w, err (other e)) = refl

  pub after_passkey-view :
      (username : String) (r : World × Result Failure A)
      → view (after_passkey host username r) ≡ view r
  unfolding after_passkey event
  after_passkey-view username (w, ok a) = refl
  after_passkey-view username (w, err (http status detail)) = elim (Bool-cases (status == 429)) [
    | inl c ↦ rw c refl
    | inr n ↦ elim (Bool-cases w.failure_audited) [
      | inl c ↦ rw (n, after_passkey, c) refl
      | inr m ↦ rw (n, after_passkey, m) refl
    ]
  ]
  after_passkey-view username (w, err (auth e)) = refl
  after_passkey-view username (w, err (other e)) = refl

  to_http-view : (r : World × Result Failure A) → view (to_http r) ≡ view r
  to_http-view (w, ok a) = refl
  to_http-view (w, err (auth e)) = refl
  to_http-view (w, err (http status detail)) = refl
  to_http-view (w, err (other e)) = refl

module _ (host : Host) where
  enforce-calls :
      (family : Family) (identifier : String) (w : World)
      → (enforce host family identifier w).0.calls ≡ w.calls
  unfolding enforce
  enforce-calls family identifier w = elim (Bool-cases host.enforce_shared) [
    | inl t ↦ rw t refl
    | inr f ↦ rw f refl
  ]

  hook-calls :
      (family : Family) (identifier : String) (w : World)
      → (hook host family identifier w).0.calls ≡ w.calls
  hook-calls login identifier w = refl
  hook-calls second_factor identifier w = refl

  view-any :
      (Q : List Call × Option Unit → Type 0) (calls : List Call) (r : World × Result Failure Unit)
      → r.0.calls ≡ calls
      → Q (calls, none)
      → Q (calls, some tt)
      → Q (view r)
  view-any Q calls (w, ok _) e n s = subst (λ c. Q (c, some tt)) (sym e) s
  view-any Q calls (w, err _) e n s = subst (λ c. Q (c, none)) (sym e) n

  -- An admission calls nobody: what holds of the calls before and of any return holds after it.
  pub admission-view :
      (Q : List Call × Option Unit → Type 0) (family : Family) (identifier : String) (w : World)
      → Q (w.calls, none)
      → Q (w.calls, some tt)
      → Q (view (admission host family identifier w))
  unfolding admission ◌>>◌
  admission-view Q family identifier w n s =
      subst Q
        (sym
          (to_http-view host ((enforce host family identifier >> hook host family identifier) w)))
        (after-view (λ v. v.0 ≡ w.calls) Q (enforce host family identifier w)
          (λ _. hook host family identifier)
          (view-any (λ v. v.0 ≡ w.calls) w.calls (enforce host family identifier w)
            (enforce-calls family identifier w) refl refl)
          (λ calls e. subst (λ c. Q (c, none)) (sym e) n)
          (λ v _ e.
            view-any Q w.calls (hook host family identifier v) (hook-calls family identifier v ∙ e)
              n s))

  -- What holds of the calls before, and of the check where the calls are those before, holds of the
  -- guarded check.
  pub guard_run-view :
      {A : Type 0} (Q : List Call × Option A → Type 0) (username : String) (clear : Bool)
      (check : Flow A) (w : World)
      → Q (w.calls, none)
      → ((v : World) → v.calls ≡ w.calls → Q (view (check v)))
      → Q (view (guard_run host username clear check w))
  unfolding guard_run ◌>>◌
  guard_run-view Q username clear check w n c =
      after-view (λ v. v.0 ≡ w.calls) Q (admission host login username w)
        (λ _ v. after_check host username clear (check v))
        (admission-view (λ v. v.0 ≡ w.calls) login username w refl refl)
        (λ calls e. subst (λ c. Q (c, none)) (sym e) n)
        (λ v _ e. subst Q (sym (after_check-view host username clear (check v))) (c v e))

  pub second_factor-view :
      {A : Type 0} (Q : List Call × Option A → Type 0) (id username method : String) (body : Flow A)
      (w : World)
      → Q (w.calls, none)
      → ((v : World) → v.calls ≡ w.calls → Q (view (body v)))
      → Q (view (second_factor_admission host id username method body w))
  unfolding second_factor_admission ◌>>◌
  second_factor-view Q id username method body w n c =
      let start : World = record w { used = true } in
      after-view (λ v. v.0 ≡ w.calls) Q (admission host second_factor id start)
        (λ _ v. after_second host id username method (body v))
        (admission-view (λ v. v.0 ≡ w.calls) second_factor id start refl refl)
        (λ calls e. subst (λ c. Q (c, none)) (sym e) n)
        (λ v _ e. subst Q (sym (after_second-view host id username method (body v))) (c v e))
