-- ===== src/LocalAccounts/SelfProtection.antt =====
-- backend/enterprise_platform/local_accounts.py: what nobody may do to the own account.
use easy_frame.Prelude.{
  ℕ, Bool, true, false, not, ◌&&◌, ◌||◌, ◌≡◌, refl, Option, none, some, arith, ◌==◌, string_eq,
  nat_eq, nat_beq_iff, bool_eq, option_eq,
}
use easy_frame.LocalAccounts.Grants.{Catalog, is_privileged, normalize_stored_grants, high_codes}
use easy_frame.Prelude.Result.{Result, ok, err}
use easy_frame.Auth.Errors.{AuthError}
use easy_frame.LocalAccounts.Types.{
  LocalAccountRecord, CurrentUser, UpdateLocalAccountRequest, ResetLocalAccountPasswordRequest,
  LocalAccountDetail,
}
use easy_frame.LocalAccounts.Store.{Db, Tx, ◌>>=◌, ◌>>◌, guard, pure}
use easy_frame.LocalAccounts.Service.{
  Runtime, actor_id_of, is_self, is_set, require_local, catalog_of, delete, reset_password,
  disable_totp,
}
use easy_frame.LocalAccounts.Update.{
  Edits, update, guard_update, edit_active, profile_values, apply_admin_change, apply_expiry_change,
  admin_edits, expiry_edits,
}
use easy_frame.LocalAccounts.Requests.{
  Request, create_request, update_request, delete_request, reset_request, permissions_request,
  totp_request, handle,
}
use easy_frame.LocalAccounts.Hoare.{
  Ensures, Holds, bind-Ensures, guard-Ensures, lift-Ensures, guard_only-Ensures, ensured,
}
use easy_frame.LocalAccounts.Preservation.{catalog-Ensures}

abbrev pub raises : {A : Type 0} → Result AuthError A → Bool
raises (ok a) = false
raises (err e) = true

abbrev pub sends_false : Option Bool → Bool
sends_false none = false
sends_false (some value) = not value

-- The request is for the account with the id.
abbrev pub is_for : ℕ → Request → Bool
is_for id (create_request _ _) = false
is_for id (update_request target _) = target == id
is_for id (delete_request target) = target == id
is_for id (reset_request target _) = target == id
is_for id (permissions_request target _) = target == id
is_for id (totp_request target) = target == id

-- What the administration refuses on the own account: deletion, the password, TOTP, the loss of the
-- active state or of the administrator's role, and any expiry that is sent.
unfoldable pub is_forbidden_on_self : LocalAccountRecord → Request → Bool
is_forbidden_on_self account (update_request _ payload) =
    sends_false payload.active && account.active
    || sends_false payload.is_admin && account.is_admin
    || is_set payload.expires_at
is_forbidden_on_self account (delete_request _) = true
is_forbidden_on_self account (reset_request _ _) = true
is_forbidden_on_self account (totp_request _) = true
is_forbidden_on_self account _ = false

abbrev Never : {A : Type 0} → A → Db → Type 0
Never _ _ = ⊥

Never-raises : {A : Type 0} (r : Result AuthError (A × Db)) → Holds Never r → raises r ≡ true
unfolding Holds
Never-raises (ok a) h = elim h [ ]
Never-raises (err e) h = refl

module _ (runtime : Runtime) (now : ℕ) (user : CurrentUser) (id : ℕ)
    (account : LocalAccountRecord) where
  abbrev IsTarget : Db → Type 0
  IsTarget db = require_local id db ≡ ok (account, db)

  IsTarget-start :
      {B : Type 0} (k : LocalAccountRecord → Tx B)
      → Ensures (λ _. Unit) (k account) Never
      → Ensures IsTarget (require_local id >>= k) Never
  unfolding Ensures Holds ◌>>=◌
  IsTarget-start k h db p = rw p (h db tt)

  abbrev Always : Db → Type 0
  Always db = Unit {0}

  -- A request for the target that never gets past its tests.
  IsTarget-Never :
      {B : Type 0} (k : LocalAccountRecord → Catalog → Tx B)
      → ((catalog : Catalog) → Ensures Always (k account catalog) Never)
      → Ensures IsTarget (require_local id >>= λ a. catalog_of >>= λ catalog. k a catalog) Never
  IsTarget-Never k h =
      IsTarget-start _ (bind-Ensures (λ _. Always) Never Always _ _ (catalog-Ensures Always) h)

  refused :
      {B : Type 0} (b : Bool) (e : AuthError) (k : Tx B)
      → b ≡ true
      → Ensures Always (guard b e >> k) Never
  refused b e k p = guard-Ensures Always Never b e k λ q. cc

  drop-Never :
      (m : Tx LocalAccountDetail)
      → Ensures IsTarget m Never
      → Ensures IsTarget (m >>= λ _. pure tt) Never
  unfolding Ensures
  drop-Never m h = bind-Ensures Never Never IsTarget m _ h λ a db e. elim e [ ]

  guard_update_keeps :
      (payload : UpdateLocalAccountRequest) (privileged : Bool)
      → Ensures Always (guard_update runtime now user payload account privileged) (λ _. Always)
  unfolding guard_update
  guard_update_keeps payload privileged =
      guard-Ensures Always (λ _. Always) _ _ _ λ _. guard_only-Ensures Always _ _

  -- What the parts of an update refuse.
  edits_refused :
      (payload : UpdateLocalAccountRequest) (profile with_admin edits : Edits)
      → is_self runtime account.id (actor_id_of user) ≡ true
      → is_forbidden_on_self account (update_request id payload) ≡ true
      → profile_values runtime account (actor_id_of user) payload ≡ ok profile
      → admin_edits runtime account (actor_id_of user) payload payload.is_admin profile
        ≡ ok with_admin
      → expiry_edits runtime account (actor_id_of user) now payload.expires_at with_admin ≡ ok edits
      → ⊥
  unfolding is_forbidden_on_self profile_values edit_active admin_edits apply_admin_change
      expiry_edits apply_expiry_change
  edits_refused payload profile with_admin edits self f p q r = ground arith

  update-Never :
      (payload : UpdateLocalAccountRequest)
      → is_self runtime account.id (actor_id_of user) ≡ true
      → is_forbidden_on_self account (update_request id payload) ≡ true
      → Ensures IsTarget (update runtime now user id payload) Never
  unfolding update
  update-Never payload self f = IsTarget-Never _ λ catalog.
      bind-Ensures (λ _. Always) Never Always _ _
        (guard_update_keeps payload (
          is_privileged account (normalize_stored_grants account.local_permissions catalog)
            (high_codes catalog)))
        λ _. lift-Ensures Always Never _ _ λ profile p.
          lift-Ensures Always Never _ _ λ with_admin q.
            lift-Ensures Always Never _ _
              λ edits r. elim (edits_refused payload profile with_admin edits self f p q r) [ ]

  abbrev IsOwn : Type 0
  IsOwn = is_self runtime account.id (actor_id_of user) ≡ true

  delete-Never : IsOwn → Ensures IsTarget (delete runtime now user id) Never
  unfolding delete
  delete-Never self = IsTarget-Never _ λ catalog. refused _ _ _ self

  reset-Never :
      (payload : ResetLocalAccountPasswordRequest)
      → IsOwn
      → Ensures IsTarget (reset_password runtime now user id payload) Never
  unfolding reset_password
  reset-Never payload self = IsTarget-Never _ λ catalog. refused _ _ _ self

  totp-Never : IsOwn → Ensures IsTarget (disable_totp runtime now user id) Never
  unfolding disable_totp
  totp-Never self = IsTarget-Never _ λ catalog. refused _ _ _ self

  handle-Never :
      (request : Request)
      → is_for id request ≡ true
      → IsOwn
      → is_forbidden_on_self account request ≡ true
      → Ensures IsTarget (handle runtime now user request) Never
  unfolding handle is_forbidden_on_self
  handle-Never (create_request new_id payload) for self f = cc
  handle-Never (update_request target payload) for self f =
      rw ((nat_beq_iff target id).0 for) (drop-Never _ (update-Never payload self f))
  handle-Never (delete_request target) for self f =
      rw ((nat_beq_iff target id).0 for) (delete-Never self)
  handle-Never (reset_request target payload) for self f =
      rw ((nat_beq_iff target id).0 for) (drop-Never _ (reset-Never payload self))
  handle-Never (permissions_request target payload) for self f = cc
  handle-Never (totp_request target) for self f =
      rw ((nat_beq_iff target id).0 for) (drop-Never _ (totp-Never self))

  -- A request that targets the own account always raises, so it is rolled back, if it deletes the
  -- account, resets its password or its TOTP, deactivates it while active, demotes it while an
  -- administrator, or sends an expiry: whoever the user is, a superadministrator too.
  pub self-request_raises :
      (request : Request) (db : Db)
      → require_local id db ≡ ok (account, db)
      → is_for id request ≡ true
      → is_self runtime account.id (actor_id_of user) ≡ true
      → is_forbidden_on_self account request ≡ true
      → raises (handle runtime now user request db) ≡ true
  self-request_raises request db p for self f =
      Never-raises (handle runtime now user request db)
        (ensured IsTarget _ Never (handle-Never request for self f) db p)
