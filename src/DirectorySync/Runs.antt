-- ===== src/DirectorySync/Runs.antt =====
-- backend/enterprise_platform/directory_sync.py: whole runs of `run_directory_sync`.
use easy_frame.Prelude.{
  ℕ, ◌+◌, String, Bool, true, false, not, none, some, List, [], ◌∷◌, ◌++◌, ◌==◌, string_eq, ◌≡◌,
  refl, sym, inl, inr, length, Bool-cases, arith, subst,
}
use easy_frame.Prelude.Result.{Result, ok, err}
use easy_frame.Prelude.Traced.{after_act, ◌>>=◌, ◌>>◌, pure, raise, call}
use easy_frame.DirectorySync.Port.{
  SnapshotRead, Raised, drift_error, access_error, unavailable_error, credential_error, other_error,
  Call, read_full_snapshot, rollback, Environment,
}
use easy_frame.DirectorySync.Sync.{
  completed, not_authoritative, drift, failed, Counts, no_counts, SyncResult, unmapped_count,
  safe_error_detail, snapshot_result, failed_summary, completed_summary, is_trusted, roll_back,
  after_projection, sync_snapshot, after_read, run_directory_sync,
}
use easy_frame.DirectorySync.References.{IsValid}
use easy_frame.DirectorySync.Loop.{Tally}
use easy_frame.DirectorySync.Answers.{raised_of, Went}
use easy_frame.DirectorySync.Ends.{Ends, project_authoritative-Ends}
use easy_frame.DirectorySync.Projection.{
  full_projection, Projected, committed, project_authoritative-Projected,
}

-- after the rollback: a failure reported, or the exception of the rollback
abbrev pub Fails : Result Raised Unit → Result Raised SyncResult → Type 0
Fails (ok tt) (ok result) = result.status ≡ failed
Fails (ok tt) (err _) = ⊥
Fails (err e) r = r ≡ err e

abbrev is_drift : Raised → Bool
is_drift (drift_error _) = true
is_drift _ = false

-- All the ways a run goes, with an actor or without: its calls and its result, for what the reader and
-- the host answer.
pub data Ran (environment : Environment)
    : Bool → List Call → Result Raised SyncResult → Type 0 where
  without_actor : {e : Raised} → Ran environment false [] (err e)
  drifted :
      (text : String) (result : SyncResult)
      → environment.read_answer [] ≡ err (drift_error text)
      → result.status ≡ drift
      → Ran environment true (read_full_snapshot ∷ []) (ok result)
  unreadable :
      (e : Raised) (r : Result Raised SyncResult)
      → environment.read_answer [] ≡ err e
      → is_drift e ≡ false
      → Fails (environment.rollback_answer (read_full_snapshot ∷ [])) r
      → Ran environment true (read_full_snapshot ∷ rollback ∷ []) r
  untrusted :
      (read : SnapshotRead) (result : SyncResult)
      → environment.read_answer [] ≡ ok read
      → is_trusted read.snapshot ≡ false
      → result.status ≡ not_authoritative
      → Ran environment true (read_full_snapshot ∷ []) (ok result)
  broken :
      {e : Raised} (read : SnapshotRead) (calls : List Call) (r : Result Raised SyncResult)
      → environment.read_answer [] ≡ ok read
      → is_trusted read.snapshot ≡ true
      → Projected read.users read.snapshot calls (err e)
      → Ends environment read.users calls (some e)
      → Fails (environment.rollback_answer (read_full_snapshot ∷ calls)) r
      → Ran environment true (read_full_snapshot ∷ (calls ++ rollback ∷ [])) r
  projected :
      (read : SnapshotRead) (result : SyncResult)
      → environment.read_answer [] ≡ ok read
      → is_trusted read.snapshot ≡ true
      → IsValid read.users
      → Went environment (read_full_snapshot ∷ []) (full_projection read.users read.snapshot) none
      → result.status ≡ completed
      → result.upstream_total ≡ length read.users
      → Tally read.users no_counts result.counts
      → Ran environment true
          (read_full_snapshot ∷ full_projection read.users read.snapshot)
          (ok result)

module _ (environment : Environment) (at : ℕ) where
  rolled_Fails :
      (result : SyncResult) (history : List Call) (r : Result Raised Unit)
      → result.status ≡ failed
      → let rest = after_act history (rollback ∷ [], r) λ _. pure result in
        (rest.0 ≡ rollback ∷ []) × Fails r rest.1
  unfolding pure
  rolled_Fails result history (ok tt) f = (refl, f)
  rolled_Fails result history (err e) f = (refl, refl)

  roll_back-Fails :
      (result : SyncResult) (history : List Call)
      → result.status ≡ failed
      → ((roll_back environment at result history).0 ≡ rollback ∷ [])
        × Fails (environment.rollback_answer history) (roll_back environment at result history).1
  unfolding roll_back ◌>>◌ call
  roll_back-Fails result history f =
      rolled_Fails result history (environment.rollback_answer history) f

  projection-Ran :
      (read : SnapshotRead) (calls : List Call) (r : Result Raised Counts)
      → environment.read_answer [] ≡ ok read
      → is_trusted read.snapshot ≡ true
      → Projected read.users read.snapshot calls r
      → Ends environment read.users calls (raised_of r)
      → let rest = after_projection environment at read (read_full_snapshot ∷ []) (calls, r) in
        Ran environment true (read_full_snapshot ∷ rest.0) rest.1
  unfolding after_projection
  projection-Ran read calls (err e) a t p ends =
      let (c, f) =
        roll_back-Fails
          (snapshot_result failed at read failed_summary no_counts (some (safe_error_detail e)))
          (read_full_snapshot ∷ calls) refl in
      subst
        (λ xs.
          Ran environment true (read_full_snapshot ∷ (calls ++ xs))
            (after_projection environment at read (read_full_snapshot ∷ []) (calls, err e)).1)
        (sym c) (broken read calls _ a t p ends f)
  projection-Ran read _ (ok _) a t (committed counts valid tally) (inl (_, went)) =
      let summary = completed_summary environment.decimal (length read.users) counts in
      projected read (snapshot_result completed at read summary counts none) a t valid went refl
        refl tally
  projection-Ran read _ (ok _) a t (committed counts valid tally) (inr (invalid, _)) =
      elim (invalid valid) [ ]

  unreadable-Ran :
      (e : Raised) (result : SyncResult)
      → environment.read_answer [] ≡ err e
      → is_drift e ≡ false
      → result.status ≡ failed
      → let rest = roll_back environment at result (read_full_snapshot ∷ []) in
        Ran environment true (read_full_snapshot ∷ rest.0) rest.1
  unreadable-Ran e result a d f =
      let (c, g) = roll_back-Fails result (read_full_snapshot ∷ []) f in
      subst
        (λ xs.
          Ran environment true (read_full_snapshot ∷ xs)
            (roll_back environment at result (read_full_snapshot ∷ [])).1)
        (sym c) (unreadable e _ a d g)

  read-Ran :
      (answer : Result Raised SnapshotRead)
      → environment.read_answer [] ≡ answer
      → let rest = after_read environment at answer (read_full_snapshot ∷ []) in
        Ran environment true (read_full_snapshot ∷ rest.0) rest.1
  unfolding after_read sync_snapshot pure
  read-Ran (ok read) a = elim (Bool-cases (is_trusted read.snapshot)) [
    | inl t ↦
        rw (sync_snapshot, t)
          (projection-Ran read _ _ a t
            (project_authoritative-Projected environment read.users read.snapshot
              (read_full_snapshot ∷ []))
            (project_authoritative-Ends environment read.users read.snapshot))
    | inr u ↦ rw (sync_snapshot, u) (untrusted read _ a u refl)
  ]
  read-Ran (err (drift_error text)) a = drifted text _ a refl
  read-Ran (err (access_error text)) a = unreadable-Ran _ _ a refl refl
  read-Ran (err (unavailable_error text)) a = unreadable-Ran _ _ a refl refl
  read-Ran (err (credential_error text)) a = unreadable-Ran _ _ a refl refl
  read-Ran (err (other_error name text)) a = unreadable-Ran _ _ a refl refl

  asked-Ran :
      (actor_id : String) (b : Bool)
      → (actor_id == "") ≡ b
      → Ran environment
          (not b)
          (run_directory_sync environment at actor_id []).0
          (run_directory_sync environment at actor_id []).1
  unfolding run_directory_sync raise call ◌>>=◌
  asked-Ran actor_id true e = rw e without_actor
  asked-Ran actor_id false e = rw e (read-Ran (environment.read_answer []) refl)

-- All the ways a run of `run_directory_sync` goes, by what the reader and the host answer. Without an
-- actor it raises, and calls nothing. It only reads exactly if the reading fails with a drift of the
-- snapshot, or if the snapshot is not authoritative, complete and current. Else, if the reading fails,
-- or if some user has no reference or the reference of another, it rolls back. For any other
-- snapshot it begins, upserts the users in turn, deactivates those not among them, and commits. It does
-- all of this and reports completion exactly if the host answers each call, and none of the
-- outcomes is unknown. After the first call that fails it makes no other but the rollback, and
-- reports failure, unless the rollback fails too, whose exception it raises.
pub run-Ran :
    (environment : Environment) (at : ℕ) (actor_id : String)
    → Ran environment
        (not (actor_id == ""))
        (run_directory_sync environment at actor_id []).0
        (run_directory_sync environment at actor_id []).1
run-Ran environment at actor_id = asked-Ran environment at actor_id (actor_id == "") refl

-- What the counts of a result say, if it reports completion.
abbrev pub Counted : Result Raised SnapshotRead → SyncResult → Type 0
Counted answer result =
    (read : SnapshotRead) × (answer ≡ ok read)
    × (result.upstream_total ≡ length read.users)
    × (result.counts.created + result.counts.updated + result.counts.unchanged
        ≡ result.upstream_total)
    × (result.counts.unmapped ≡ unmapped_count read.users)

abbrev CountedIf : Result Raised SnapshotRead → Result Raised SyncResult → Type 0
CountedIf answer (ok result) = result.status ≡ completed → Counted answer result
CountedIf answer (err e) = Unit

Fails-CountedIf :
    (answer : Result Raised SnapshotRead) (rolled : Result Raised Unit)
    (r : Result Raised SyncResult)
    → Fails rolled r
    → CountedIf answer r
Fails-CountedIf answer (ok tt) (ok result) f = λ c. cc
Fails-CountedIf answer (ok tt) (err e) f = tt
Fails-CountedIf answer (err d) (ok result) f = λ c. cc
Fails-CountedIf answer (err d) (err e) f = tt

Ran-CountedIf :
    {environment : Environment} {b : Bool} {calls : List Call} {r : Result Raised SyncResult}
    → Ran environment b calls r
    → CountedIf (environment.read_answer []) r
Ran-CountedIf without_actor = tt
Ran-CountedIf (drifted _ _ _ g) = λ c. cc
Ran-CountedIf (unreadable e r _ _ g) = Fails-CountedIf _ _ r g
Ran-CountedIf (untrusted _ _ _ _ g) = λ c. cc
Ran-CountedIf (broken read calls r a t p w g) = Fails-CountedIf _ _ r g
Ran-CountedIf (projected read own a t v w c u (n, m)) =
    λ _. (read, a, u, omega (arith, n, u), omega (arith, m))

-- A run that reports completion has counted every user of the snapshot that was read: those created,
-- updated and unchanged make up the upstream total, which is the number of users, and the unmapped
-- ones are those without a login name.
pub completed-counts :
    (environment : Environment) (at : ℕ) (actor_id : String) (result : SyncResult)
    → (run_directory_sync environment at actor_id []).1 ≡ ok result
    → result.status ≡ completed
    → Counted (environment.read_answer []) result
completed-counts environment at actor_id result e =
    subst (CountedIf (environment.read_answer [])) e
      (Ran-CountedIf (run-Ran environment at actor_id))
