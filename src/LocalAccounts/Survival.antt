-- ===== src/LocalAccounts/Survival.antt =====
-- backend/enterprise_platform/local_accounts.py: through any history of requests the installation
-- keeps a usable local administrator.
use easy_frame.Prelude.{ℕ, ◌≤◌, ◌≡◌, true, arith, List, [], ◌∷◌}
use easy_frame.Prelude.Result.{Result, ok, err}
use easy_frame.Auth.Errors.{AuthError}
use easy_frame.LocalAccounts.Types.{
  Account, CurrentUser, UpdateLocalAccountRequest, LocalAccountRecord, Change,
}
use easy_frame.LocalAccounts.Store.{
  Db, Tx, pure, is_local, to_record, apply_changes, usable_local_admin_count, ◌>>=◌,
}
use easy_frame.LocalAccounts.Service.{Runtime}
use easy_frame.LocalAccounts.Update.{update, store_values, guard_update}
use easy_frame.LocalAccounts.Requests.{
  Request, create_request, update_request, delete_request, reset_request, permissions_request,
  totp_request, handle, settle, run,
}
use easy_frame.LocalAccounts.Hoare.{
  Ensures, Holds, bind-Ensures, guard-Ensures, lift-Ensures, guard_only-Ensures, ensured,
}
use easy_frame.LocalAccounts.Admins.{admins_permanent, is_permanent, count_any_time}
use easy_frame.LocalAccounts.Edits.{update_permanent}
use easy_frame.LocalAccounts.Preservation.{
  Permanent, Kept, Found, target-Ensures, Found-Ensures, ensure_admin-Ensures, audit_last-Ensures,
  update_account-Ensures, pure-Ensures, delete-Ensures, create-Ensures, reset_password-Ensures,
  disable_totp-Ensures, set_permissions-Ensures,
}

store_values-Ensures :
    (runtime : Runtime) (id : ℕ) (account : LocalAccountRecord) (values : List Change)
    → ((row : Account) (n : ℕ)
        → account ≡ to_record row n
        → is_local row ≡ true
        → is_permanent row ≡ true
        → is_permanent (apply_changes runtime.hash row values) ≡ true)
    → Ensures (Found id account) (store_values runtime account values) (λ _. Permanent)
unfolding store_values
store_values-Ensures runtime id account [] h = Found-Ensures id account account
store_values-Ensures runtime id account (value ∷ values) h =
    update_account-Ensures runtime.hash id account (value ∷ values) h

drop-Ensures :
    {A : Type 0} (now : ℕ) (m : Tx A)
    → Ensures Permanent m (Kept now)
    → Ensures Permanent (m >>= λ _. pure tt) (Kept now)
drop-Ensures now m h = bind-Ensures (Kept now) (Kept now) Permanent m _ h λ a. pure-Ensures now tt a

module _ (runtime : Runtime) (now : ℕ) (user : CurrentUser) where
  update-Ensures :
      (id : ℕ) (payload : UpdateLocalAccountRequest)
      → Ensures Permanent (update runtime now user id payload) (Kept now)
  unfolding update guard_update
  update-Ensures id payload = target-Ensures now id _ λ account catalog.
      bind-Ensures (λ _. Found id account) (Kept now) (Found id account) _ _
        (guard-Ensures (Found id account) (λ _. Found id account) _ _ _
          λ _. guard_only-Ensures (Found id account) _ _)
        λ _. lift-Ensures (Found id account) (Kept now) _ _ λ profile p.
          lift-Ensures (Found id account) (Kept now) _ _ λ with_admin q.
            lift-Ensures (Found id account) (Kept now) _ _ λ edits r.
              bind-Ensures (λ _. Permanent) (Kept now) (Found id account) _ _
                (store_values-Ensures runtime id account edits.values (λ row n.
                  update_permanent runtime account _ now payload profile with_admin edits row n p q
                    r))
                λ updated.
                  bind-Ensures (Kept now) (Kept now) Permanent _ _ (ensure_admin-Ensures now) λ _.
                    bind-Ensures (Kept now) (Kept now) (Kept now tt) _ _ (audit_last-Ensures now _)
                      λ done. pure-Ensures now _ done

  -- Every request that commits, of any kind, by anyone and for any target, leaves a usable local
  -- administrator, and no local administrator that expires, if none did before.
  pub handle-Ensures :
      (request : Request) → Ensures Permanent (handle runtime now user request) (Kept now)
  unfolding handle
  handle-Ensures (create_request new_id payload) =
      drop-Ensures now _ (create-Ensures runtime now user new_id payload)
  handle-Ensures (update_request id payload) = drop-Ensures now _ (update-Ensures id payload)
  handle-Ensures (delete_request id) = delete-Ensures runtime now user id
  handle-Ensures (reset_request id payload) =
      drop-Ensures now _ (reset_password-Ensures runtime now user id payload)
  handle-Ensures (permissions_request id payload) =
      drop-Ensures now _ (set_permissions-Ensures runtime now user id payload)
  handle-Ensures (totp_request id) = drop-Ensures now _ (disable_totp-Ensures runtime now user id)

settle_keeps :
    (now later : ℕ) (db : Db) (r : Result AuthError (Unit {0} × Db))
    → Holds (Kept now) r
    → admins_permanent db.accounts ≡ true
    → 1 ≤ usable_local_admin_count later db
    → (admins_permanent (settle db r).accounts ≡ true)
      × (1 ≤ usable_local_admin_count later (settle db r))
unfolding Holds usable_local_admin_count
settle_keeps now later db (ok (_, committed)) (p, n) h g =
    (p, omega (arith, n, count_any_time now later committed.accounts p))
settle_keeps now later db (err e) q h g = (h, g)

-- If no local administrator expires and one is usable, then after any sequence of requests, by any
-- users, for any targets, at any times in any order, some local administrator is usable at any time,
-- and still none expires.
pub run-keeps_admin :
    (runtime : Runtime) (now : ℕ) (requests : List (ℕ × CurrentUser × Request)) (db : Db)
    → admins_permanent db.accounts ≡ true
    → 1 ≤ usable_local_admin_count now db
    → (admins_permanent (run runtime requests db).accounts ≡ true)
      × (1 ≤ usable_local_admin_count now (run runtime requests db))
unfolding run
run-keeps_admin runtime now [] db p n = (p, n)
run-keeps_admin runtime now ((at, user, request) ∷ requests) db p n =
    let (p', n') =
      settle_keeps at now db (handle runtime at user request db)
        (ensured Permanent _ (Kept at) (handle-Ensures runtime at user request) db p) p n in
    run-keeps_admin runtime now requests (settle db (handle runtime at user request db)) p' n'
