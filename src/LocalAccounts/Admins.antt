-- ===== src/LocalAccounts/Admins.antt =====
-- backend/enterprise_platform/local_accounts.py: the installation never loses its last usable local
-- administrator.
use easy_frame.Prelude.{
  ℕ, ◌≡◌, refl, Bool, true, not, ◌&&◌, ◌||◌, some, List, [], ◌∷◌, ◌++◌, String, nat_eq, nat_beq,
  length, filter, all, arith, Bool-cases, inl, inr,
}
use easy_frame.LocalAccounts.Types.{Account, Change}
use easy_frame.LocalAccounts.Store.{
  is_local, is_usable_admin, find_row, apply_changes, update_rows, delete_rows,
}
use easy_frame.LocalAccounts.Service.{is_set}

-- Not a local administrator, or one that never expires.
unfoldable pub is_permanent : Account → Bool
unfolding is_local
is_permanent row = not (is_local row && row.is_admin) || not (is_set row.expires_at)

-- No local administrator has an expiry.
unfoldable pub admins_permanent : List Account → Bool
unfolding is_permanent
admins_permanent rows = all is_permanent rows

abbrev pub count_usable : ℕ → List Account → ℕ
count_usable now rows = length (filter (is_usable_admin now) rows)

usable_any_time :
    (now later : ℕ) (row : Account)
    → is_permanent row ≡ true
    → is_usable_admin now row ≡ is_usable_admin later row
unfolding is_permanent is_usable_admin is_local
usable_any_time now later row h = ground arith

-- Then who is usable does not depend on the time.
pub count_any_time :
    (now later : ℕ) (rows : List Account)
    → admins_permanent rows ≡ true
    → count_usable now rows ≡ count_usable later rows
unfolding admins_permanent
count_any_time now later [] h = refl
count_any_time now later (row ∷ rows) h =
    ground (arith, usable_any_time now later row, count_any_time now later rows)

module _ (hash : String → String) (id : ℕ) (changes : List Change) where
  pub update_rows_permanent :
      (row : Account) (rows : List Account)
      → find_row id rows ≡ some row
      → is_permanent (apply_changes hash row changes) ≡ true
      → admins_permanent rows ≡ true
      → admins_permanent (update_rows hash id changes rows) ≡ true
  unfolding admins_permanent update_rows find_row
  update_rows_permanent row [] p h g = refl
  update_rows_permanent row (other ∷ rows) p h g = elim (Bool-cases (nat_beq other.id id)) [
    | inl e ↦ ground (arith, e)
    | inr e ↦ ground (arith, e, update_rows_permanent row rows)
  ]

pub delete_rows_permanent :
    (id : ℕ) (rows : List Account)
    → admins_permanent rows ≡ true
    → admins_permanent (delete_rows id rows) ≡ true
unfolding admins_permanent delete_rows
delete_rows_permanent id [] h = refl
delete_rows_permanent id (row ∷ rows) h = ground (arith, delete_rows_permanent id rows)

pub append_permanent :
    (row : Account) (rows : List Account)
    → is_permanent row ≡ true
    → admins_permanent rows ≡ true
    → admins_permanent (rows ++ row ∷ []) ≡ true
unfolding admins_permanent
append_permanent row [] h g = ground arith
append_permanent row (other ∷ rows) h g = ground (arith, append_permanent row rows)

pub find_row_permanent :
    (id : ℕ) (row : Account) (rows : List Account)
    → find_row id rows ≡ some row
    → admins_permanent rows ≡ true
    → is_permanent row ≡ true
unfolding admins_permanent find_row
find_row_permanent id row [] p h = cc
find_row_permanent id row (other ∷ rows) p h = ground (arith, find_row_permanent id row rows)
