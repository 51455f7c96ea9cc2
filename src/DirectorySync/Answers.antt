-- ===== src/DirectorySync/Answers.antt =====
-- backend/enterprise_platform/directory_sync.py: `_project_authoritative` goes on as long as the host
-- answers, and stops at the first call that fails.
use easy_frame.Prelude.{
  String, ◌||◌, Option, none, some, List, [], ◌∷◌, ◌++◌, ◌==◌, string_eq, option_eq, ◌≡◌, refl, ap,
  ◌∙◌, subst, ++-empty, arith, if◌then◌else◌,
}
use Prim.Native.String.{◌++◌ as ◌<>◌}
use easy_frame.Prelude.Result.{Result, ok, err}
use easy_frame.Prelude.Traced.{after_act, ◌>>=◌, ◌>>◌, pure, raise, call}
use easy_frame.DirectorySync.Port.{
  UserRecord, Raised, Call, read_full_snapshot, begin, upsert_user, deactivate_missing, commit,
  rollback, Environment, Act,
}
use easy_frame.DirectorySync.Sync.{
  Counts, value_error, count_outcome, count_unmapped, counted, lift, upsert, upsert_users,
  finish_projection,
}

abbrev pub raised_of : {A : Type 0} → Result Raised A → Option Raised
raised_of (ok _) = none
raised_of (err e) = some e

-- an outcome that the host must not give
abbrev outcome_fault : String → Option Raised
outcome_fault outcome =
    if outcome == "created" || (outcome == "updated" || outcome == "unchanged")
    then none
    else some (value_error ("未知的 upsert 结果: " <> outcome))

abbrev upsert_fault : Result Raised String → Option Raised
upsert_fault (ok outcome) = outcome_fault outcome
upsert_fault (err e) = some e

-- What a call fails with, after the calls so far, if it fails.
abbrev pub fault : Environment → List Call → Call → Option Raised
fault environment history read_full_snapshot = raised_of (environment.read_answer history)
fault environment history (begin _) = raised_of (environment.begin_answer history)
fault environment history (upsert_user user) = upsert_fault (environment.upsert_answer user history)
fault environment history (deactivate_missing _) = raised_of (environment.deactivate_answer history)
fault environment history commit = raised_of (environment.commit_answer history)
fault environment history rollback = raised_of (environment.rollback_answer history)

-- Calls one after the other, by what the host answers: none of them fails; or the last one does, with
-- this exception, and none before.
pub data Went (environment : Environment) : List Call → List Call → Option Raised → Type 0 where
  finished : {history : List Call} → Went environment history [] none
  stops :
      {history : List Call} (c : Call) {e : Raised}
      → fault environment history c ≡ some e
      → Went environment history (c ∷ []) (some e)
  goes_on :
      {history : List Call} (c : Call) (calls : List Call) {end : Option Raised}
      → fault environment history c ≡ none
      → Went environment (history ++ c ∷ []) calls end
      → Went environment history (c ∷ calls) end

snoc-++ : (xs : List Call) (c : Call) (ys : List Call) → xs ++ c ∷ ys ≡ (xs ++ c ∷ []) ++ ys
snoc-++ [] c ys = refl
snoc-++ (x ∷ xs) c ys = ap (λ zs. x ∷ zs) (snoc-++ xs c ys)

outcome_fault-count :
    (outcome : String) (counts : Counts)
    → outcome_fault outcome ≡ raised_of (count_outcome outcome counts)
unfolding count_outcome
outcome_fault-count outcome counts = ground arith

counted-raised :
    (r : Result Raised Counts) (user : UserRecord) → raised_of r ≡ raised_of (counted r user)
unfolding count_unmapped
counted-raised (ok counts) user = refl
counted-raised (err e) user = refl

module _ (environment : Environment) where
  -- a step that goes as the host answers
  abbrev pub Goes : List Call → {A : Type 0} → List Call × Result Raised A → Type 0
  Goes history r = Went environment history r.0 (raised_of r.1)

  append-Went :
      {history xs ys : List Call} {end : Option Raised}
      → Went environment history xs none
      → Went environment (history ++ xs) ys end
      → Went environment history (xs ++ ys) end
  append-Went {history} {xs} {ys} {end} finished g =
      subst (λ h. Went environment h ys end) (++-empty history) g
  append-Went {history} {xs} {ys} {end} (goes_on c calls p w) g =
      goes_on c (calls ++ ys) p
        (append-Went w (subst (λ h. Went environment h ys end) (snoc-++ history c calls) g))

  pub after-Goes :
      {A B : Type 0} (history : List Call) (r : List Call × Result Raised A) (f : A → Act B)
      → Goes history r
      → ((a : A) (h : List Call) → Goes h (f a h))
      → Goes history (after_act history r f)
  after-Goes history (calls, ok a) f w g = append-Went w (g a (history ++ calls))
  after-Goes history (calls, err e) f w g = w

  pub call-Goes :
      {A B : Type 0} (c : Call) (answer : Result Raised A) (f : A → Act B) (history : List Call)
      → fault environment history c ≡ raised_of answer
      → ((a : A) (h : List Call) → Goes h (f a h))
      → Goes history (after_act history (c ∷ [], answer) f)
  call-Goes c (ok a) f history p g = goes_on c _ p (g a (history ++ c ∷ []))
  call-Goes c (err e) f history p g = stops c p

  pure-Goes : {A : Type 0} (a : A) (history : List Call) → Goes history (pure a history)
  unfolding pure
  pure-Goes a history = finished

  counted-Goes :
      (c : Call) (r : Result Raised Counts) (f : Counts → Act Counts) (history : List Call)
      → fault environment history c ≡ raised_of r
      → ((counts : Counts) (h : List Call) → Goes h (f counts h))
      → let rest = (lift r >>= f) (history ++ c ∷ []) in Goes history (c ∷ rest.0, rest.1)
  unfolding ◌>>=◌ pure raise
  counted-Goes c (ok counts) f history p g =
      goes_on c _ p (rw (++-empty (history ++ c ∷ [])) (g counts (history ++ c ∷ [])))
  counted-Goes c (err e) f history p g = stops c p

  answered-Goes :
      (user : UserRecord) (before : Counts) (f : Counts → Act Counts) (r : Result Raised String)
      (history : List Call)
      → environment.upsert_answer user history ≡ r
      → ((counts : Counts) (h : List Call) → Goes h (f counts h))
      → Goes history (
          after_act history
            (upsert_user user ∷ [], r)
            λ outcome. lift (counted (count_outcome outcome before) user) >>= f)
  answered-Goes user before f (ok outcome) history p g =
      counted-Goes (upsert_user user) (counted (count_outcome outcome before) user) f history
        (rw p
          (outcome_fault-count outcome before ∙ counted-raised (count_outcome outcome before) user))
        g
  answered-Goes user before f (err e) history p g = stops (upsert_user user) (rw p refl)

  pub upsert_users-Goes :
      (users : List UserRecord) (before : Counts) (history : List Call)
      → Goes history (upsert_users environment users before history)
  unfolding upsert_users upsert call ◌>>=◌ pure
  upsert_users-Goes [] before history = finished
  upsert_users-Goes (user ∷ users) before history =
      answered-Goes user before (upsert_users environment users)
        (environment.upsert_answer user history) history refl (upsert_users-Goes users)

  pub finish-Goes :
      (users : List UserRecord) (counts : Counts) (history : List Call)
      → Goes history (finish_projection environment users counts history)
  unfolding finish_projection ◌>>=◌ ◌>>◌ call
  finish-Goes users counts history =
      call-Goes _ (environment.deactivate_answer history) _ history refl λ deactivated h.
        call-Goes commit (environment.commit_answer h) _ h refl
          λ u. pure-Goes (record counts { deactivated = deactivated })
