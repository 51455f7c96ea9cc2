-- ===== src/Login/Flow/Guard.antt =====
-- backend/enterprise_platform/login_flow.py: admissions, and what a failure or a success leaves on the limits.
use easy_frame.Prelude.{String, Bool, true, [], ◌∷◌, ◌++◌, ◌==◌, string_eq, nat_eq, if◌then◌else◌}
use easy_frame.Prelude.Result.{Result, ok, err}
use easy_frame.Auth.Errors.{AuthError, is_credential_failure}
use easy_frame.RateLimit.Admission.{
  Family, login, second_factor, admit, record_failure, clear_failures,
}
use easy_frame.Login.World.{Failure, auth, http, other, World, Host, Flow, ◌>>◌, pure}

abbrev pub to_http : {A : Type 0} → World × Result Failure A → World × Result Failure A
to_http (w, ok a) = (w, ok a)
to_http (w, err (auth e)) = (w, err (http e.status_code e.detail))
to_http (w, err (http status detail)) = (w, err (http status detail))
to_http (w, err (other e)) = (w, err (other e))

abbrev pub auth_result : Result AuthError Unit → Result Failure Unit
auth_result (ok _) = ok tt
auth_result (err e) = err (auth e)

module _ (host : Host) where
  -- `enforce_login` and `enforce_second_factor`, if the shared limits are on
  unfoldable pub enforce : Family → String → Flow Unit
  unfolding pure
  enforce family identifier w =
      if host.enforce_shared
      then (let (counter, r) =
            admit host.text (host.clock w.calls) family host.ip identifier w.counter in
          (record w { counter = counter }, auth_result r))
      else (w, ok tt)

  abbrev pub hook : Family → String → Flow Unit
  hook login identifier w = (w, host.before_password_login w.calls identifier)
  hook second_factor identifier w = (w, host.before_second_factor w.calls identifier)

  -- `_LoginAdmission` and `_SecondFactorAdmission` of assembly/dependencies.py
  unfoldable pub admission : Family → String → Flow Unit
  unfolding enforce ◌>>◌
  admission family identifier w = to_http ((enforce family identifier >> hook family identifier) w)

  unfoldable pub record_failed : Family → String → World → World
  record_failed family identifier w = record w {
    counter = record_failure host.text (host.clock w.calls) family identifier w.counter;
  }

  unfoldable pub clear_failed : Family → String → World → World
  clear_failed family identifier w = record w {
    counter = clear_failures host.text family identifier w.counter;
  }

  unfoldable pub event : String → String → String → World → World
  event username action method w = record w {
    events = w.events ++ record { username = username; action = action; method = method } ∷ [];
  }

  -- what `LoginAdmissionGuard.run` does with the result of the check
  unfoldable pub after_check :
      {A : Type 0} → String → Bool → World × Result Failure A → World × Result Failure A
  unfolding record_failed clear_failed is_credential_failure
  after_check username clear (w, ok a) = (if clear then clear_failed login username w else w, ok a)
  after_check username clear (w, err (auth e)) = (
    if is_credential_failure e then record_failed login username w else w,
    err (http e.status_code e.detail),
  )
  after_check username clear (w, err (http status detail)) = (w, err (http status detail))
  after_check username clear (w, err (other e)) = (w, err (other e))

  -- `LoginAdmissionGuard.run`
  unfoldable pub guard_run : {A : Type 0} → String → Bool → Flow A → Flow A
  unfolding admission ◌>>◌ after_check
  guard_run username clear check =
      admission login username >> λ w. after_check username clear (check w)

  -- what `_second_factor_admission` does with the result of its body
  unfoldable pub after_second :
      {A : Type 0} → String → String → String → World × Result Failure A → World × Result Failure A
  unfolding record_failed clear_failed event
  after_second id username method (w, ok a) = (clear_failed second_factor id w, ok a)
  after_second id username method (w, err (auth e)) = (
    if e.kind == "second_factor"
        then record (event username "auth.login.second_factor_failure" method
            (record_failed second_factor id w)) { failure_audited = true }
        else w,
    err (auth e),
  )
  after_second id username method (w, err (http status detail)) = (w, err (http status detail))
  after_second id username method (w, err (other e)) = (w, err (other e))

  -- `_second_factor_admission`
  unfoldable pub second_factor_admission : {A : Type 0} → String → String → String → Flow A → Flow A
  unfolding admission ◌>>◌ after_second
  second_factor_admission id username method body w =
      (admission second_factor id >> λ v. after_second id username method (body v))
        (record w { used = true })
