-- ===== src/LocalAccounts/Requests.antt =====
-- backend/enterprise_platform/local_accounts.py: the requests that change accounts, and a history
-- of them, where a request that raises rolls its transaction back.
use easy_frame.Prelude.{ℕ, List, [], ◌∷◌}
use easy_frame.Prelude.Result.{Result, ok, err}
use easy_frame.Auth.Errors.{AuthError}
use easy_frame.LocalAccounts.Types.{
  CurrentUser, CreateLocalAccountRequest, UpdateLocalAccountRequest,
  ResetLocalAccountPasswordRequest, SetLocalAccountPermissionsRequest,
}
use easy_frame.LocalAccounts.Store.{Db, Tx, ◌>>=◌, pure}
use easy_frame.LocalAccounts.Service.{
  Runtime, create, delete, reset_password, set_permissions, disable_totp,
}
use easy_frame.LocalAccounts.Update.{update}

-- The number is the target's id, or the id that the database draws for a new account.
pub data Request : Type 0 where
  create_request : ℕ → CreateLocalAccountRequest → Request
  update_request : ℕ → UpdateLocalAccountRequest → Request
  delete_request : ℕ → Request
  reset_request : ℕ → ResetLocalAccountPasswordRequest → Request
  permissions_request : ℕ → SetLocalAccountPermissionsRequest → Request
  totp_request : ℕ → Request

-- the transaction of the request, without its answer
unfoldable pub handle : Runtime → ℕ → CurrentUser → Request → Tx Unit
handle runtime now user (create_request new_id payload) =
    create runtime now user new_id payload >>= λ _. pure tt
handle runtime now user (update_request id payload) =
    update runtime now user id payload >>= λ _. pure tt
handle runtime now user (delete_request id) = delete runtime now user id
handle runtime now user (reset_request id payload) =
    reset_password runtime now user id payload >>= λ _. pure tt
handle runtime now user (permissions_request id payload) =
    set_permissions runtime now user id payload >>= λ _. pure tt
handle runtime now user (totp_request id) = disable_totp runtime now user id >>= λ _. pure tt

-- `__exit__`: commit, or roll back on an exception
abbrev pub settle : Db → Result AuthError (Unit {0} × Db) → Db
settle db (ok (_, committed)) = committed
settle db (err _) = db

unfoldable pub run : Runtime → List (ℕ × CurrentUser × Request) → Db → Db
unfolding handle
run runtime [] db = db
run runtime ((now, user, request) ∷ requests) db =
    run runtime requests (settle db (handle runtime now user request db))
