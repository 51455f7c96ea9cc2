-- ===== src/TtlCache/Invariant.antt =====
-- backend/enterprise_platform/ttl_cache.py: what the critical sections keep, whatever the threads do.
use easy_frame.Prelude.{
  subst, All-at, All-without, All-with, All-map, ℕ, ◌+◌, ◌≤◌, Option, none, some, List, ◌∷◌, ◌++◌,
  ◌≡◌, refl, sym, ◌∙◌, ◌≢◌, ◌⊎◌, inl, inr, ◌==◌, ==_iff, nat_eq, nat_beq_iff, option_eq, Bool-cases,
  leb, Option-cases, All, arith,
}
use easy_frame.TtlCache.Box.{
  Box, Role, hit, wait, reenter, lead, new_box, peek, store, begin_miss, begin_load,
  store_if_generation, invalidate, drop_inflight, commit_load,
}
use easy_frame.TtlCache.System.{
  Kind, leader, nested, setter, Load, System, add_load, write_back, give_up, Step, begins, observes,
  reads, finishes, fails, changes, invalidates, Reach, start, later,
}

-- The four ways a load begins.
pub data Begun (now thread : ℕ) (b : Box ℕ) : Role ℕ × Box ℕ → Type 0 where
  hits : (v : ℕ) → peek now b ≡ some v → Begun now thread b (hit v, b)
  reenters : b.loader_thread ≡ some thread → Begun now thread b (reenter b.generation, b)
  waits :
      (future : ℕ)
      → b.loader_thread ≢ some thread
      → b.inflight ≡ some future
      → Begun now thread b (wait future, b)
  leads :
      b.inflight ≡ none
      → Begun now thread b (
        lead b.next_future b.generation,
        record b {
          inflight = some b.next_future;
          loader_thread = some thread;
          next_future = b.next_future + 1;
        },
      )

pub begin_miss-Begun :
    (now thread : ℕ) (b : Box ℕ) (future : Option ℕ)
    → b.inflight ≡ future
    → b.loader_thread ≢ some thread
    → Begun now thread b (begin_miss thread b future)
unfolding begin_miss
begin_miss-Begun now thread b none absent other = leads absent
begin_miss-Begun now thread b (some future) present other = waits future other present

pub begin_load-Begun : (now thread : ℕ) (b : Box ℕ) → Begun now thread b (begin_load now thread b)
unfolding begin_load
begin_load-Begun now thread b = elim (Option-cases (peek now b)) [
  | inl m ↦ elim (Bool-cases (b.loader_thread == some thread)) [
    | inl t ↦
        rw (begin_load, m, t) (reenters (ground (arith, t, ==_iff b.loader_thread (some thread))))
    | inr t ↦
        rw (begin_load, m, t)
          (begin_miss-Begun now thread b b.inflight refl
            (ground (arith, t, ==_iff b.loader_thread (some thread))))
  ]
  | inr (v, m) ↦ rw (begin_load, m) (hits v m)
]

-- What a load knows: the generation that it read is not later than the box's, and as long as it is the
-- box's, what it has read is not older than the last invalidation.
abbrev pub IsCurrent : ℕ → ℕ → ℕ → Load → Type 0
IsCurrent generation source floor load =
    (load.generation ≤ generation)
    × ((v : ℕ) → load.read ≡ some v → (v ≤ source) × (load.generation ≡ generation → floor ≤ v))

-- The box's value is not older than the last invalidation, and neither will it be.
abbrev pub Fresh : System → Type 0
Fresh s =
    (s.floor ≤ s.source)
    × ((v : ℕ) → s.box.value ≡ some v → (s.floor ≤ v) × (v ≤ s.source))
    × All (IsCurrent s.box.generation s.source s.floor) s.loads

begins-Fresh :
    (s : System) (now thread : ℕ) (p : Role ℕ × Box ℕ)
    → Begun now thread s.box p
    → Fresh s
    → Fresh (record s { box = p.1; loads = add_load thread p.0 s.loads })
unfolding add_load
begins-Fresh s now thread _ (hits v m) h = h
begins-Fresh s now thread _ (waits future o p) h = h
begins-Fresh s now thread _ (reenters t) (f, v, l) =
    (f, v, ((omega arith, λ v n. ground (arith, n)), l))
begins-Fresh s now thread _ (leads n) (f, v, l) =
    (f, v, ((omega arith, λ v n. ground (arith, n)), l))

write_back-generation :
    (now v : ℕ) (load : Load) (kind : Kind) (b : Box ℕ)
    → (write_back now v load kind b).generation ≡ b.generation
unfolding write_back commit_load store_if_generation store drop_inflight
write_back-generation now v load (leader future) b = ground arith
write_back-generation now v load nested b = ground arith
write_back-generation now v load setter b = ground arith

-- A load of another generation leaves the value alone.
write_back-value :
    (now v : ℕ) (load : Load) (kind : Kind) (b : Box ℕ)
    → ((write_back now v load kind b).value ≡ b.value)
      ⊎ ((load.generation ≡ b.generation) × ((write_back now v load kind b).value ≡ some v))
unfolding write_back commit_load store_if_generation store drop_inflight
write_back-value now v load (leader future) b =
    ground (arith, nat_beq_iff load.generation b.generation)
write_back-value now v load nested b = ground (arith, nat_beq_iff load.generation b.generation)
write_back-value now v load setter b = ground (arith, nat_beq_iff load.generation b.generation)

-- A load leaves, and what it leaves in the box is of the box's generation and as fresh.
leaves-Fresh :
    (s : System) (b : Box ℕ) (before after : List Load) (load : Load)
    → s.loads ≡ before ++ load ∷ after
    → b.generation ≡ s.box.generation
    → ((v : ℕ) → b.value ≡ some v → (s.floor ≤ v) × (v ≤ s.source))
    → Fresh s
    → Fresh (record s { box = b; loads = before ++ after })
leaves-Fresh s b before after load e g v (f, w, l) =
    let P = IsCurrent s.box.generation s.source s.floor in
    let others : All P (before ++ after) = All-without P before load after (subst (All P) e l) in
    (f, v, subst (λ n. All (IsCurrent n s.source s.floor) (before ++ after)) (sym g) others)

finishes-value :
    (s : System) (now v : ℕ) (before after : List Load) (load : Load)
    → s.loads ≡ before ++ load ∷ after
    → load.read ≡ some v
    → Fresh s
    → (w : ℕ) → (write_back now v load load.kind s.box).value ≡ some w
    → (s.floor ≤ w) × (w ≤ s.source)
finishes-value s now v before after load e r (f, old, l) w k =
    let P = IsCurrent s.box.generation s.source s.floor in
    let mine : P load = All-at P before load after (subst (All P) e l) in
    elim (write_back-value now v load load.kind s.box) [
      | inl same ↦ old w (sym same ∙ k)
      | inr (current, new) ↦ ground (arith, mine.1 v r, current, new, k)
    ]

reads-Fresh :
    (s : System) (before after : List Load) (load : Load)
    → s.loads ≡ before ++ load ∷ after
    → Fresh s
    → Fresh (record s { loads = before ++ record load { read = some s.source } ∷ after })
reads-Fresh s before after load e (f, v, l) =
    let P = IsCurrent s.box.generation s.source s.floor in
    let known : All P (before ++ load ∷ after) = subst (All P) e l in
    let mine : P load = All-at P before load after known in
    let new : P (record load { read = some s.source }) = (mine.0, λ w r. ground (arith, r, f)) in
    (
      f,
      v,
      All-with P before (record load { read = some s.source }) after new
          (All-without P before load after known),
    )

give_up-box :
    (load : Load) (kind : Kind) (b : Box ℕ)
    → ((give_up load kind b).generation ≡ b.generation) × ((give_up load kind b).value ≡ b.value)
unfolding give_up drop_inflight
give_up-box load (leader future) b = (refl, refl)
give_up-box load nested b = (refl, refl)
give_up-box load setter b = (refl, refl)

pub Step-Fresh : {s t : System} → Step s t → Fresh s → Fresh t
unfolding invalidate
Step-Fresh {s} (begins now thread) h =
    begins-Fresh s now thread (begin_load now thread s.box) (begin_load-Begun now thread s.box) h
Step-Fresh (observes thread) (f, v, l) = (f, v, ((omega arith, λ w n. ground (arith, n)), l))
Step-Fresh {s} (reads before after load e) h = reads-Fresh s before after load e h
Step-Fresh {s} (finishes now v before after load e r) h =
    leaves-Fresh s (write_back now v load load.kind s.box) before after load e
      (write_back-generation now v load load.kind s.box)
      (finishes-value s now v before after load e r h) h
Step-Fresh {s} (fails before after load e) h =
    let (g, same) = give_up-box load load.kind s.box in
    leaves-Fresh s (give_up load load.kind s.box) before after load e g
      (λ v k. h.1 v (sym same ∙ k)) h
Step-Fresh {s} changes (f, v, l) = (
  omega arith,
  λ w k. ground (arith, v w k),
  All-map (λ load (g, h). (g, λ w r. ground (arith, h w r))) s.loads l,
)
Step-Fresh {s} invalidates (f, v, l) = (
  omega arith,
  λ w k. ground (arith, k),
  All-map (λ load (g, h). (omega (arith, g), λ w r. ground (arith, g, h w r))) s.loads l,
)

pub Reach-Fresh : {ttl source : ℕ} {s : System} → Reach ttl source s → Fresh s
unfolding new_box
Reach-Fresh start = (omega arith, λ v n. ground (arith, n), tt)
Reach-Fresh (later h step) = Step-Fresh step (Reach-Fresh h)

-- In every state that the threads can reach, whatever their interleaving and whatever the clock says:
-- a value that the box serves as a hit was read from the source after the last invalidation, or was
-- current at it, and is no version that the source has not had.
pub hits_survive_no_invalidation :
    {ttl source : ℕ} {s : System} (now v : ℕ)
    → Reach ttl source s
    → peek now s.box ≡ some v
    → (s.floor ≤ v) × (v ≤ s.source)
unfolding peek
hits_survive_no_invalidation {s} now v h found =
    let (f, kept, l) = Reach-Fresh h in
    elim (Bool-cases (leb s.box.expires_at now)) [
      | inl expired ↦ ground (arith, found, expired)
      | inr live ↦ kept v (ground (arith, found, live))
    ]
