-- ===== src/LocalAccounts/Edits.antt =====
-- backend/enterprise_platform/local_accounts.py: what the parts of `update` write keeps an
-- administrator without an expiry.
use easy_frame.Prelude.{
  ℕ, ◌+◌, ◌≡◌, refl, Bool, true, not, ◌||◌, Option, none, some, List, [], ◌∷◌, ◌++◌, String,
  string_eq, nat_eq, bool_eq, option_eq, arith,
}
use easy_frame.Prelude.Result.{ok}
use easy_frame.LocalAccounts.Types.{
  Account, LocalAccountRecord, Change, UpdateLocalAccountRequest, set_expires_at, set_is_admin,
  set_email, set_ui_locale, set_active, set_local_permissions, set_local_grants_version,
}
use easy_frame.LocalAccounts.Store.{is_local, apply_change, apply_changes, to_record}
use easy_frame.LocalAccounts.Service.{Runtime, is_set, normalized_email}
use easy_frame.LocalAccounts.Admins.{is_permanent}
use easy_frame.LocalAccounts.Update.{
  Edits, no_edits, edit, resulting_admin, edit_email, edit_locale, edit_active, profile_values,
  promote, apply_admin_change, apply_expiry_change, admin_edits, expiry_edits,
}

-- the expiry after the changes
unfoldable pub resulting_expiry : List Change → Option ℕ → Option ℕ
resulting_expiry [] at = at
resulting_expiry (set_expires_at new ∷ values) at = resulting_expiry values new
resulting_expiry (_ ∷ values) at = resulting_expiry values at

resulting_admin-cons :
    (x : Change) (xs : List Change) (b : Bool)
    → resulting_admin (x ∷ xs) b ≡ resulting_admin xs (resulting_admin (x ∷ []) b)
unfolding resulting_admin
resulting_admin-cons x xs b = ground arith

resulting_expiry-cons :
    (x : Change) (xs : List Change) (at : Option ℕ)
    → resulting_expiry (x ∷ xs) at ≡ resulting_expiry xs (resulting_expiry (x ∷ []) at)
unfolding resulting_expiry
resulting_expiry-cons x xs at = ground arith

resulting_admin-append :
    (xs ys : List Change) (b : Bool)
    → resulting_admin (xs ++ ys) b ≡ resulting_admin ys (resulting_admin xs b)
unfolding resulting_admin
resulting_admin-append [] ys b = refl
resulting_admin-append (x ∷ xs) ys b = cc (
  resulting_admin-cons x (xs ++ ys) b,
  resulting_admin-cons x xs b,
  resulting_admin-append xs ys (resulting_admin (x ∷ []) b),
)

resulting_expiry-append :
    (xs ys : List Change) (at : Option ℕ)
    → resulting_expiry (xs ++ ys) at ≡ resulting_expiry ys (resulting_expiry xs at)
unfolding resulting_expiry
resulting_expiry-append [] ys at = refl
resulting_expiry-append (x ∷ xs) ys at = cc (
  resulting_expiry-cons x (xs ++ ys) at,
  resulting_expiry-cons x xs at,
  resulting_expiry-append xs ys (resulting_expiry (x ∷ []) at),
)

module _ (hash : String → String) where
  change_columns :
      (row : Account) (v : Change)
      → ((apply_change hash row v).is_admin ≡ resulting_admin (v ∷ []) row.is_admin)
        × ((apply_change hash row v).expires_at ≡ resulting_expiry (v ∷ []) row.expires_at)
        × ((apply_change hash row v).external_source ≡ row.external_source)
  unfolding apply_change resulting_admin resulting_expiry
  change_columns row v = ground arith

  -- The three columns of the row after the changes.
  columns :
      (values : List Change) (row : Account)
      → ((apply_changes hash row values).is_admin ≡ resulting_admin values row.is_admin)
        × ((apply_changes hash row values).expires_at ≡ resulting_expiry values row.expires_at)
        × ((apply_changes hash row values).external_source ≡ row.external_source)
  unfolding apply_changes resulting_admin resulting_expiry
  columns [] row = (refl, refl, refl)
  columns (v ∷ values) row =
      let (a, e, x) = columns values (apply_change hash row v) in
      let (a', e', x') = change_columns row v in
      (
        cc (a, a', resulting_admin-cons v values row.is_admin),
        cc (e, e', resulting_expiry-cons v values row.expires_at),
        cc (x, x'),
      )

-- No administrator with an expiry.
abbrev pub safe : Bool → Option ℕ → Bool
safe admin at = not admin || not (is_set at)

module _ (runtime : Runtime) (account : LocalAccountRecord) where
  abbrev admin_of : Edits → Bool
  admin_of edits = resulting_admin edits.values account.is_admin

  abbrev expiry_of : Edits → Option ℕ
  expiry_of edits = resulting_expiry edits.values account.expires_at

  -- The profile part touches neither column.
  abbrev Untouched : Edits → Type 0
  Untouched edits = (admin_of edits ≡ account.is_admin) × (expiry_of edits ≡ account.expires_at)

  -- One more change, on both columns.
  edit_columns :
      (change : Change) (key : String) (edits : Edits)
      → (admin_of (edit change key edits) ≡ resulting_admin (change ∷ []) (admin_of edits))
        × (expiry_of (edit change key edits) ≡ resulting_expiry (change ∷ []) (expiry_of edits))
  edit_columns change key edits = (
    resulting_admin-append edits.values (change ∷ []) account.is_admin,
    resulting_expiry-append edits.values (change ∷ []) account.expires_at,
  )

  email-Untouched :
      (sent : Option (Option String)) (edits : Edits)
      → Untouched edits
      → Untouched (edit_email runtime account sent edits)
  unfolding edit_email resulting_admin resulting_expiry
  email-Untouched none edits h = h
  email-Untouched (some email) edits (h, g) =
      ground (arith, edit_columns (set_email (normalized_email runtime.text email)) "email" edits)

  locale-Untouched :
      (sent : Option String) (edits : Edits)
      → Untouched edits
      → Untouched (edit_locale runtime account sent edits)
  unfolding edit_locale resulting_admin resulting_expiry
  locale-Untouched none edits h = h
  locale-Untouched (some locale) edits (h, g) =
      ground (arith, edit_columns (set_ui_locale locale) "uiLocale" edits)

  active-Untouched :
      (actor_id : String) (sent : Option Bool) (edits done : Edits)
      → Untouched edits
      → edit_active runtime account actor_id sent edits ≡ ok done
      → Untouched done
  unfolding edit_active resulting_admin resulting_expiry
  active-Untouched actor_id none edits done (h, g) p = ground arith
  active-Untouched actor_id (some active) edits done (h, g) p =
      ground (arith, edit_columns (set_active active) "active" edits)

  pub profile-Untouched :
      (actor_id : String) (payload : UpdateLocalAccountRequest) (done : Edits)
      → profile_values runtime account actor_id payload ≡ ok done
      → Untouched done
  unfolding profile_values resulting_admin resulting_expiry
  profile-Untouched actor_id payload done p =
      active-Untouched actor_id payload.active _ done
        (locale-Untouched payload.ui_locale _ (email-Untouched payload.email no_edits (refl, refl)))
        p

  abbrev Safe : Edits → Type 0
  Safe edits = safe (admin_of edits) (expiry_of edits) ≡ true

  promote-Safe :
      (sent : Option (Option ℕ)) (edits done : Edits)
      → expiry_of edits ≡ account.expires_at
      → promote runtime account sent edits ≡ ok done
      → Safe done
  unfolding promote resulting_admin resulting_expiry
  promote-Safe sent edits done g p =
      let strip : List Change =
        set_local_permissions []
        ∷ set_local_grants_version (account.local_grants_version + 1)
        ∷ [] in
      ground (
        arith,
        resulting_expiry-append edits.values strip account.expires_at,
        edit_columns (set_expires_at none) "expiresAt"
            (record edits { values = edits.values ++ strip }),
      )

  admin-Safe :
      (actor_id : String) (payload : UpdateLocalAccountRequest) (sent : Option Bool)
      (edits done : Edits)
      → safe account.is_admin account.expires_at ≡ true
      → Untouched edits
      → admin_edits runtime account actor_id payload sent edits ≡ ok done
      → Safe done
  unfolding admin_edits apply_admin_change resulting_admin resulting_expiry
  admin-Safe actor_id payload none edits done s (h, g) p = ground arith
  admin-Safe actor_id payload (some is_admin) edits done s (h, g) p = ground (
    arith,
    edit_columns (set_is_admin is_admin) "isAdmin" edits,
    promote-Safe payload.expires_at (edit (set_is_admin is_admin) "isAdmin" edits) done,
  )

  expiry-Safe :
      (actor_id : String) (now : ℕ) (sent : Option (Option ℕ)) (edits done : Edits)
      → Safe edits
      → expiry_edits runtime account actor_id now sent edits ≡ ok done
      → Safe done
  unfolding expiry_edits apply_expiry_change resulting_admin resulting_expiry
  expiry-Safe actor_id now none edits done h p = ground arith
  expiry-Safe actor_id now (some at) edits done h p =
      ground (arith, edit_columns (set_expires_at at) "expiresAt" edits)

-- What an update writes keeps a local row without an expiring administrator.
pub update_permanent :
    (runtime : Runtime) (account : LocalAccountRecord) (actor_id : String) (now : ℕ)
    (payload : UpdateLocalAccountRequest) (profile with_admin edits : Edits) (row : Account) (n : ℕ)
    → profile_values runtime account actor_id payload ≡ ok profile
    → admin_edits runtime account actor_id payload payload.is_admin profile ≡ ok with_admin
    → expiry_edits runtime account actor_id now payload.expires_at with_admin ≡ ok edits
    → account ≡ to_record row n
    → is_local row ≡ true
    → is_permanent row ≡ true
    → is_permanent (apply_changes runtime.hash row edits.values) ≡ true
unfolding is_permanent to_record
update_permanent runtime account actor_id now payload profile with_admin edits row n p q r e l h =
    let s : safe account.is_admin account.expires_at ≡ true = rw e (ground (arith, l, h)) in
    let t : safe (resulting_admin edits.values account.is_admin)
          (resulting_expiry edits.values account.expires_at)
        ≡ true =
      expiry-Safe runtime account actor_id now payload.expires_at with_admin edits
        (admin-Safe runtime account actor_id payload payload.is_admin profile with_admin s
          (profile-Untouched runtime account actor_id payload profile p) q)
        r in
    let t' : safe (resulting_admin edits.values row.is_admin)
          (resulting_expiry edits.values row.expires_at)
        ≡ true =
      rw e at t in
    let (a, b, c) = columns runtime.hash edits.values row in rw (a, b) (ground (arith, t'))
