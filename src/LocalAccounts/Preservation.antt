-- ===== src/LocalAccounts/Preservation.antt =====
-- backend/enterprise_platform/local_accounts.py: each request keeps the administrators permanent
-- and leaves one that is usable.
use easy_frame.Prelude.{
  ℕ, ◌≤◌, ◌≡◌, refl, Bool, true, false, ◌&&◌, ◌||◌, some, List, [], ◌∷◌, String, ◌==◌, string_eq,
  nat_eq, nat_beq_iff, any, arith, ltb, Bool-cases, inl, inr, Option-cases,
}
use easy_frame.Auth.Errors.{AuthError}
use easy_frame.LocalAccounts.Types.{
  Account, LocalAccountRecord, Change, AuditEntry, CurrentUser, LocalGrant,
  SetLocalAccountPermissionsRequest, ResetLocalAccountPasswordRequest, CreateLocalAccountRequest,
}
use easy_frame.LocalAccounts.Grants.{Catalog}
use easy_frame.LocalAccounts.Store.{
  Db, Tx, pure, guard, ◌>>=◌, ◌>>◌, is_local, to_record, usable_local_admin_count, find_row,
  get_account, apply_changes, update_account, delete_account, create_account, append_audit,
}
use easy_frame.LocalAccounts.Service.{
  Runtime, is_set, require_local, catalog_of, ensure_admin_remains, create, delete, reset_password,
  set_permissions, store_permissions, disable_totp, check_create, new_account,
}
use easy_frame.LocalAccounts.Hoare.{Ensures, Holds, bind-Ensures, guard-Ensures, lift-Ensures}
use easy_frame.LocalAccounts.Admins.{
  is_permanent, admins_permanent, update_rows_permanent, delete_rows_permanent, append_permanent,
  find_row_permanent,
}

abbrev pub Permanent : Db → Type 0
Permanent db = admins_permanent db.accounts ≡ true

abbrev pub Kept : {A : Type 0} → ℕ → A → Db → Type 0
Kept now _ db = (admins_permanent db.accounts ≡ true) × (1 ≤ usable_local_admin_count now db)

-- The target, as it stands in the table.
abbrev pub Found : ℕ → LocalAccountRecord → Db → Type 0
Found id account db =
    (row : Account) × (passkey_count : ℕ) × (find_row id db.accounts ≡ some row)
    × (account ≡ to_record row passkey_count)
    × (account.id ≡ id)
    × (is_local row ≡ true)
    × Permanent db

find_row_id :
    (id : ℕ) (row : Account) (rows : List Account) → find_row id rows ≡ some row → row.id ≡ id
unfolding find_row
find_row_id id row [] p = cc
find_row_id id row (other ∷ rows) p =
    ground (arith, nat_beq_iff other.id id, find_row_id id row rows)

pub require_local-Ensures : (id : ℕ) → Ensures Permanent (require_local id) (Found id)
unfolding Ensures Holds require_local get_account to_record
require_local-Ensures id db p = elim (Option-cases (find_row id db.accounts)) [
  | inl q ↦ rw (q, Holds) tt
  | inr (row, q) ↦ elim (Bool-cases (is_local row)) [
    | inl l ↦ rw (q, l, Holds) (row, _, q, refl, find_row_id id row db.accounts q, l, p)
    | inr l ↦ rw (q, l, Holds) tt
  ]
]

pub ensure_admin-Ensures : (now : ℕ) → Ensures Permanent (ensure_admin_remains now) (Kept now)
unfolding Ensures Holds ensure_admin_remains guard
ensure_admin-Ensures now db p = elim (Bool-cases (ltb (usable_local_admin_count now db) 1)) [
  | inl q ↦ rw (q, Holds) tt
  | inr q ↦ rw (q, Holds) (p, ground arith)
]

pub audit-Ensures : (entry : AuditEntry) → Ensures Permanent (append_audit entry) (λ _. Permanent)
unfolding Ensures Holds append_audit
audit-Ensures entry db p = p

pub audit_last-Ensures :
    (now : ℕ) (entry : AuditEntry) → Ensures (Kept now tt) (append_audit entry) (Kept now)
unfolding Ensures Holds append_audit usable_local_admin_count
audit_last-Ensures now entry db p = p

pub catalog-Ensures : (P : Db → Type 0) → Ensures P catalog_of (λ _. P)
unfolding Ensures Holds catalog_of
catalog-Ensures P db p = p

pub pure-Ensures :
    {A B : Type 0} (now : ℕ) (a : A) (b : B) → Ensures (Kept now b) (pure a) (Kept now)
unfolding Ensures Holds
pure-Ensures now a b db p = p

-- A change of a row that keeps it permanent may be made to the target.
pub update_account-Ensures :
    (hash : String → String) (id : ℕ) (account : LocalAccountRecord) (changes : List Change)
    → ((row : Account) (n : ℕ)
        → account ≡ to_record row n
        → is_local row ≡ true
        → is_permanent row ≡ true
        → is_permanent (apply_changes hash row changes) ≡ true)
    → Ensures (Found id account) (update_account hash account.id changes) (λ _. Permanent)
unfolding Ensures Holds update_account
update_account-Ensures hash id account changes h db (row, n, q, e, i, l, p) =
    let q' : find_row account.id db.accounts ≡ some row = rw i q in
    rw (q', Holds)
      (update_rows_permanent hash account.id changes row db.accounts q'
        (h row n e l (find_row_permanent id row db.accounts q p)) p)

pub delete_account-Ensures :
    (id : ℕ) (account : LocalAccountRecord)
    → Ensures (Found id account) (delete_account account.id) (λ _. Permanent)
unfolding Ensures Holds delete_account
delete_account-Ensures id account db (row, n, q, e, i, l, p) =
    let q' : find_row account.id db.accounts ≡ some row = rw i q in
    rw (q', Holds) (delete_rows_permanent account.id db.accounts p)

pub create_account-Ensures :
    (row : Account)
    → is_permanent row ≡ true
    → Ensures Permanent (create_account row) (λ _. Permanent)
unfolding Ensures Holds create_account
create_account-Ensures row h db p =
    elim (Bool-cases
      (any (λ other. other.username == row.username || other.id == row.id) db.accounts)) [
        | inl q ↦ rw (q, Holds) tt
        | inr q ↦ rw (q, Holds) (append_permanent row db.accounts h p)
      ]

pub Found-Ensures :
    {B : Type 0} (id : ℕ) (account : LocalAccountRecord) (b : B)
    → Ensures (Found id account) (pure b) (λ _. Permanent)
unfolding Ensures Holds
Found-Ensures id account b db (row, n, q, e, i, l, p) = p

module _ {B : Type 0} (now : ℕ) where
  -- the start of a request for a target
  pub target-Ensures :
      (id : ℕ) (k : LocalAccountRecord → Catalog → Tx B)
      → ((account : LocalAccountRecord) (catalog : Catalog)
          → Ensures (Found id account) (k account catalog) (Kept now))
      → Ensures Permanent
          (require_local id >>= λ account. catalog_of >>= λ catalog. k account catalog)
          (Kept now)
  target-Ensures id k h =
      bind-Ensures (Found id) (Kept now) Permanent _ _ (require_local-Ensures id) λ account.
        bind-Ensures (λ _. Found id account) (Kept now) (Found id account) _ _
          (catalog-Ensures (Found id account)) (h account)

  -- the end of a request: the audit entry, then the test
  pub finish-Ensures :
      (entry : AuditEntry) (answer : B)
      → Ensures Permanent
          (append_audit entry >> (ensure_admin_remains now >> pure answer))
          (Kept now)
  finish-Ensures entry answer =
      bind-Ensures (λ _. Permanent) (Kept now) Permanent _ _ (audit-Ensures entry)
        λ _.
          bind-Ensures (Kept now) (Kept now) Permanent _ _ (ensure_admin-Ensures now)
            λ done. pure-Ensures now answer done

  -- the write of a request, and its end
  pub write-Ensures :
      (hash : String → String) (id : ℕ) (account : LocalAccountRecord) (changes : List Change)
      (entry : LocalAccountRecord → AuditEntry) (answer : LocalAccountRecord → B)
      → ((row : Account) (n : ℕ)
          → account ≡ to_record row n
          → is_local row ≡ true
          → is_permanent row ≡ true
          → is_permanent (apply_changes hash row changes) ≡ true)
      → Ensures
          (Found id account)
          (update_account hash account.id changes >>= λ updated.
            append_audit (entry updated) >> (ensure_admin_remains now >> pure (answer updated)))
          (Kept now)
  write-Ensures hash id account changes entry answer h =
      bind-Ensures (λ _. Permanent) (Kept now) (Found id account) _ _
        (update_account-Ensures hash id account changes h)
        λ updated. finish-Ensures (entry updated) (answer updated)

guard_last-Ensures :
    (b : Bool) (e : AuthError) → Ensures Permanent (guard b e) (λ _ db. (b ≡ false) × Permanent db)
unfolding Ensures Holds guard
guard_last-Ensures true e db p = tt
guard_last-Ensures false e db p = (refl, p)

create_checked-Ensures :
    (row : Account) (C : Type 0)
    → (C → is_permanent row ≡ true)
    → Ensures (λ db. C × Permanent db) (create_account row) (λ _. Permanent)
unfolding Ensures
create_checked-Ensures row C h db (c, p) = create_account-Ensures row (h c) db p

module _ (runtime : Runtime) (now : ℕ) (user : CurrentUser) where
  pub delete-Ensures : (id : ℕ) → Ensures Permanent (delete runtime now user id) (Kept now)
  unfolding delete
  delete-Ensures id = target-Ensures now id _ λ account catalog.
      guard-Ensures (Found id account) (Kept now) _ _ _ λ _.
        guard-Ensures (Found id account) (Kept now) _ _ _ λ _.
          bind-Ensures (λ _. Permanent) (Kept now) (Found id account) _ _
            (delete_account-Ensures id account)
            λ _.
              bind-Ensures (Kept now) (Kept now) Permanent _ _ (ensure_admin-Ensures now)
                λ _. audit_last-Ensures now _

  pub reset_password-Ensures :
      (id : ℕ) (payload : ResetLocalAccountPasswordRequest)
      → Ensures Permanent (reset_password runtime now user id payload) (Kept now)
  unfolding reset_password is_permanent apply_changes is_local
  reset_password-Ensures id payload = target-Ensures now id _ λ account catalog.
      guard-Ensures (Found id account) (Kept now) _ _ _ λ _.
        guard-Ensures (Found id account) (Kept now) _ _ _ λ _.
          guard-Ensures (Found id account) (Kept now) _ _ _
            λ _. write-Ensures now runtime.hash id account _ _ _ λ row n e l h. h

  pub disable_totp-Ensures :
      (id : ℕ) → Ensures Permanent (disable_totp runtime now user id) (Kept now)
  unfolding disable_totp is_permanent apply_changes is_local
  disable_totp-Ensures id = target-Ensures now id _ λ account catalog.
      guard-Ensures (Found id account) (Kept now) _ _ _ λ _.
        guard-Ensures (Found id account) (Kept now) _ _ _
          λ _. write-Ensures now runtime.hash id account _ _ _ λ row n e l h. h

  store_permissions-Ensures :
      (id : ℕ) (account : LocalAccountRecord) (after : List LocalGrant) (changed : Bool)
      → Ensures
          (Found id account)
          (store_permissions runtime now user account after changed)
          (λ _. Permanent)
  unfolding store_permissions is_permanent apply_changes is_local
  store_permissions-Ensures id account after true =
      update_account-Ensures runtime.hash id account _ λ row n e l h. h
  store_permissions-Ensures id account after false = Found-Ensures id account account

  pub set_permissions-Ensures :
      (id : ℕ) (payload : SetLocalAccountPermissionsRequest)
      → Ensures Permanent (set_permissions runtime now user id payload) (Kept now)
  unfolding set_permissions
  set_permissions-Ensures id payload =
      bind-Ensures (Found id) (Kept now) Permanent _ _ (require_local-Ensures id) λ account.
        guard-Ensures (Found id account) (Kept now) _ _ _ λ _.
          bind-Ensures (λ _. Found id account) (Kept now) (Found id account) _ _
            (catalog-Ensures (Found id account))
            λ catalog. lift-Ensures (Found id account) (Kept now) _ _ λ after _.
              guard-Ensures (Found id account) (Kept now) _ _ _ λ _.
                guard-Ensures (Found id account) (Kept now) _ _ _ λ _.
                  guard-Ensures (Found id account) (Kept now) _ _ _ λ _.
                    bind-Ensures (λ _. Permanent) (Kept now) (Found id account) _ _
                      (store_permissions-Ensures id account after _)
                      λ updated. finish-Ensures now _ _

  new_account_permanent :
      (new_id : ℕ) (payload : CreateLocalAccountRequest) (grants : List LocalGrant)
      → (payload.is_admin && is_set payload.expires_at) ≡ false
      → is_permanent (new_account runtime now user new_id payload grants) ≡ true
  unfolding is_permanent new_account is_local
  new_account_permanent new_id payload grants h = ground arith

  -- A request that passes the tests before the transaction makes no administrator with an expiry.
  check_create-Ensures :
      (payload : CreateLocalAccountRequest)
      → Ensures Permanent
          (check_create runtime now user payload)
          (λ _ db. ((payload.is_admin && is_set payload.expires_at) ≡ false) × Permanent db)
  unfolding check_create
  check_create-Ensures payload =
      let Q : Unit {0} → Db → Type 0 =
        λ _ db. ((payload.is_admin && is_set payload.expires_at) ≡ false) × Permanent db in
      guard-Ensures Permanent Q _ _ _ λ _. guard-Ensures Permanent Q _ _ _ λ _.
        guard-Ensures Permanent Q _ _ _
          λ _. guard-Ensures Permanent Q _ _ _ λ _. guard_last-Ensures _ _

  pub create-Ensures :
      (new_id : ℕ) (payload : CreateLocalAccountRequest)
      → Ensures Permanent (create runtime now user new_id payload) (Kept now)
  unfolding create
  create-Ensures new_id payload =
      let Checked : Db → Type 0 =
        λ db. ((payload.is_admin && is_set payload.expires_at) ≡ false) × Permanent db in
      bind-Ensures (λ _. Checked) (Kept now) Permanent _ _ (check_create-Ensures payload)
        λ _.
          bind-Ensures (λ _. Checked) (Kept now) Checked _ _ (catalog-Ensures Checked)
            λ catalog. lift-Ensures Checked (Kept now) _ _ λ grants _.
              guard-Ensures Checked (Kept now) _ _ _ λ _.
                bind-Ensures (λ _. Permanent) (Kept now) Checked _ _
                  (create_checked-Ensures (new_account runtime now user new_id payload grants) _
                    (new_account_permanent new_id payload grants))
                  λ account. finish-Ensures now _ _
