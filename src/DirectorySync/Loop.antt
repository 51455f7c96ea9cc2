-- ===== src/DirectorySync/Loop.antt =====
-- backend/enterprise_platform/directory_sync.py: the loop of `_project_authoritative`.
use easy_frame.Prelude.{
  ◌+◌, String, List, [], ◌∷◌, ◌++◌, map, string_eq, option_eq, ◌≡◌, refl, ap, length, arith,
}
use easy_frame.Prelude.Result.{Result, ok, err}
use easy_frame.Prelude.Traced.{after_act, ◌>>=◌, pure, raise, call}
use easy_frame.DirectorySync.Port.{UserRecord, Raised, Call, upsert_user, Environment}
use easy_frame.DirectorySync.Sync.{
  Counts, unmapped_count, count_outcome, count_unmapped, counted, lift, upsert, upsert_users,
}

-- what the counts say of the users counted
abbrev pub Tally : List UserRecord → Counts → Counts → Type 0
Tally users before counts =
    (counts.created + counts.updated + counts.unchanged
      ≡ before.created + before.updated + before.unchanged + length users)
    × (counts.unmapped ≡ before.unmapped + unmapped_count users)

count_outcome-adds :
    (outcome : String) (before counts : Counts)
    → count_outcome outcome before ≡ ok counts
    → (counts.created + counts.updated + counts.unchanged
        ≡ before.created + before.updated + before.unchanged + 1)
      × (counts.unmapped ≡ before.unmapped)
unfolding count_outcome
count_outcome-adds outcome before counts h = ground (arith, h)

counted-adds :
    (user : UserRecord) (before : Counts) (r : Result Raised Counts) (counts : Counts)
    → ((middle : Counts)
        → r ≡ ok middle
        → (middle.created + middle.updated + middle.unchanged
            ≡ before.created + before.updated + before.unchanged + 1)
          × (middle.unmapped ≡ before.unmapped))
    → counted r user ≡ ok counts
    → Tally (user ∷ []) before counts
unfolding count_unmapped unmapped_count
counted-adds user before (ok middle) counts g h = ground (arith, h, g middle refl)
counted-adds user before (err e) counts g h = ground (arith, h)

unmapped_count-[] : unmapped_count [] ≡ 0
unfolding unmapped_count
unmapped_count-[] = refl

unmapped_count-∷ :
    (user : UserRecord) (users : List UserRecord)
    → unmapped_count (user ∷ users) ≡ unmapped_count (user ∷ []) + unmapped_count users
unfolding unmapped_count
unmapped_count-∷ user users = ground arith

-- The calls of the loop: one for each user in turn, until one fails.
pub data Looped (users : List UserRecord) (before : Counts)
    : List Call → Result Raised Counts → Type 0 where
  partway :
      {e : Raised} (done rest : List UserRecord)
      → users ≡ done ++ rest
      → Looped users before (map upsert_user done) (err e)
  through :
      (counts : Counts)
      → Tally users before counts
      → Looped users before (map upsert_user users) (ok counts)

module _ (environment : Environment) where
  abbrev LoopsFrom : List UserRecord → Type 0
  LoopsFrom users =
      (before : Counts) (history : List Call)
      → Looped users before (upsert_users environment users before history).0
          (upsert_users environment users before history).1

  one_more :
      (user : UserRecord) (users : List UserRecord) (before middle : Counts) {calls : List Call}
      {r : Result Raised Counts}
      → Tally (user ∷ []) before middle
      → Looped users middle calls r
      → Looped (user ∷ users) before (upsert_user user ∷ calls) r
  one_more user users before middle (n, m) (partway done rest e) =
      partway (user ∷ done) rest (ap (λ xs. user ∷ xs) e)
  one_more user users before middle (n, m) (through counts (p, q)) =
      through counts (omega (arith, n, p), omega (arith, m, q, unmapped_count-∷ user users))

  counted-Looped :
      (user : UserRecord) (users : List UserRecord) (before : Counts) (history : List Call)
      (r : Result Raised Counts)
      → ((middle : Counts) → r ≡ ok middle → Tally (user ∷ []) before middle)
      → LoopsFrom users
      → let rest = (lift r >>= λ next. upsert_users environment users next) history in
        Looped (user ∷ users) before (upsert_user user ∷ rest.0) rest.1
  unfolding ◌>>=◌ pure raise
  counted-Looped user users before history (ok middle) g h =
      one_more user users before middle (g middle refl) (h middle (history ++ []))
  counted-Looped user users before history (err e) g h = partway (user ∷ []) users refl

  answered-Looped :
      (user : UserRecord) (users : List UserRecord) (before : Counts) (history : List Call)
      (r : Result Raised String)
      → LoopsFrom users
      → let rest =
          after_act history
            (upsert_user user ∷ [], r)
            λ outcome. lift (counted (count_outcome outcome before) user) >>= λ next.
              upsert_users environment users next in
        Looped (user ∷ users) before rest.0 rest.1
  answered-Looped user users before history (ok outcome) h =
      counted-Looped user users before (history ++ upsert_user user ∷ [])
        (counted (count_outcome outcome before) user)
        (λ middle e.
          counted-adds user before (count_outcome outcome before) middle
            (λ first. count_outcome-adds outcome before first) e)
        h
  answered-Looped user users before history (err e) h = partway (user ∷ []) users refl

  pub upsert_users-Looped : (users : List UserRecord) → LoopsFrom users
  unfolding upsert_users upsert call ◌>>=◌ pure
  upsert_users-Looped [] before history =
      through before (omega arith, omega (arith, unmapped_count-[]))
  upsert_users-Looped (user ∷ users) before history =
      answered-Looped user users before history (environment.upsert_answer user history)
        (upsert_users-Looped users)
