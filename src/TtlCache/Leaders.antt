-- ===== src/TtlCache/Leaders.antt =====
-- backend/enterprise_platform/ttl_cache.py: the loads that lead, and the box that they hold.
use easy_frame.Prelude.{
  ℕ, ◌+◌, Option, none, some, List, [], ◌∷◌, ◌++◌, ◌≡◌, refl, sym, ap, ◌∙◌, subst, ==_refl, nat_eq,
  option_eq, All, All-at, All-without, All-with, All-map, arith,
}
use easy_frame.TtlCache.Box.{
  Box, Role, new_box, store, begin_load, store_if_generation, invalidate, drop_inflight,
  commit_load,
}
use easy_frame.TtlCache.System.{
  Kind, leader, nested, setter, Load, System, add_load, write_back, give_up, Step, begins, observes,
  reads, finishes, fails, changes, invalidates, Reach, start, later,
}
use easy_frame.TtlCache.Invariant.{Begun, hits, waits, reenters, leads, begin_load-Begun}

-- how many of the loads lead
abbrev pub one : Kind → ℕ
one (leader _) = 1
one nested = 0
one setter = 0

abbrev pub leaders : List Load → ℕ
leaders [] = 0
leaders (load ∷ loads) = one load.kind + leaders loads

abbrev pub held : Option ℕ → ℕ
held none = 0
held (some _) = 1

-- The box's future and thread are those of a leader.
abbrev pub LeadsBox : Box ℕ → Kind → ℕ → Type 0
LeadsBox b (leader future) thread = (b.inflight ≡ some future) × (b.loader_thread ≡ some thread)
LeadsBox b nested thread = Unit
LeadsBox b setter thread = Unit

abbrev pub Leads : Box ℕ → Load → Type 0
Leads b load = LeadsBox b load.kind load.thread

abbrev pub Single : System → Type 0
Single s =
    All (Leads s.box) s.loads
    × (leaders s.loads ≡ held s.box.inflight)
    × (s.box.inflight ≡ none → s.box.loader_thread ≡ none)

pub leaders-split :
    (before : List Load) (load : Load) (after : List Load)
    → leaders (before ++ load ∷ after) ≡ one load.kind + leaders (before ++ after)
leaders-split [] load after = refl
leaders-split (x ∷ before) load after = omega (arith, leaders-split before load after)

Leads-any :
    (b c : Box ℕ) (kind : Kind) (thread : ℕ)
    → one kind ≡ 0
    → LeadsBox b kind thread
    → LeadsBox c kind thread
Leads-any b c (leader f) thread n h = ground (arith, n)
Leads-any b c nested thread n h = tt
Leads-any b c setter thread n h = tt

-- Without leaders the box may change.
All-Leads-any :
    (b c : Box ℕ) (loads : List Load)
    → leaders loads ≡ 0
    → All (Leads b) loads
    → All (Leads c) loads
All-Leads-any b c [] n h = tt
All-Leads-any b c (load ∷ loads) n (p, h) = (
  Leads-any b c load.kind load.thread (omega (arith, n)) p,
  All-Leads-any b c loads (omega (arith, n)) h,
)

-- The loads keep their bond to a box with the same future and thread.
Leads-same :
    (b c : Box ℕ) (kind : Kind) (thread : ℕ)
    → c.inflight ≡ b.inflight
    → c.loader_thread ≡ b.loader_thread
    → LeadsBox b kind thread
    → LeadsBox c kind thread
Leads-same b c (leader f) thread i t (p, q) = (i ∙ p, t ∙ q)
Leads-same b c nested thread i t h = tt
Leads-same b c setter thread i t h = tt

begins-Single :
    (s : System) (now thread : ℕ) (p : Role ℕ × Box ℕ)
    → Begun now thread s.box p
    → Single s
    → Single (record s { box = p.1; loads = add_load thread p.0 s.loads })
unfolding add_load
begins-Single s now thread _ (hits v m) h = h
begins-Single s now thread _ (waits future o p) h = h
begins-Single s now thread _ (reenters t) (l, n, o) = ((tt, l), omega (arith, n), o)
begins-Single s now thread _ (leads i) (l, n, o) =
    let idle : leaders s.loads ≡ 0 = n ∙ ap held i in
    (
      (
        (refl, refl),
        All-Leads-any s.box
            (record s.box {
              inflight = some s.box.next_future;
              loader_thread = some thread;
              next_future = s.box.next_future + 1;
            })
            s.loads idle l,
      ),
      omega (arith, idle),
      λ e. ground (arith, e),
    )

-- How a load leaves the box's future and thread: a leader frees them, another keeps them.
abbrev LeftBox : Kind → Box ℕ → Box ℕ → Type 0
LeftBox (leader _) b c = (c.inflight ≡ none) × (c.loader_thread ≡ none)
LeftBox nested b c = (c.inflight ≡ b.inflight) × (c.loader_thread ≡ b.loader_thread)
LeftBox setter b c = (c.inflight ≡ b.inflight) × (c.loader_thread ≡ b.loader_thread)

drop_inflight-frees :
    (thread future : ℕ) (b : Box ℕ)
    → b.inflight ≡ some future
    → b.loader_thread ≡ some thread
    → ((drop_inflight thread future b).inflight ≡ none)
      × ((drop_inflight thread future b).loader_thread ≡ none)
unfolding drop_inflight
drop_inflight-frees thread future b i t =
    rw (i, t, ==_refl (some future), ==_refl (some thread)) (refl, refl)

pub write_back-LeftBox :
    (now v : ℕ) (load : Load) (kind : Kind) (b : Box ℕ)
    → LeadsBox b kind load.thread
    → LeftBox kind b (write_back now v load kind b)
unfolding write_back commit_load store_if_generation store
write_back-LeftBox now v load (leader future) b (i, t) =
    drop_inflight-frees load.thread future (store_if_generation now load.generation v b)
      (ground (arith, i)) (ground (arith, t))
write_back-LeftBox now v load nested b h = ground arith
write_back-LeftBox now v load setter b h = ground arith

pub give_up-LeftBox :
    (load : Load) (kind : Kind) (b : Box ℕ)
    → LeadsBox b kind load.thread
    → LeftBox kind b (give_up load kind b)
unfolding give_up
give_up-LeftBox load (leader future) b (i, t) = drop_inflight-frees load.thread future b i t
give_up-LeftBox load nested b h = (refl, refl)
give_up-LeftBox load setter b h = (refl, refl)

-- A load that does not lead leaves.
bystander-Single :
    (s : System) (b : Box ℕ) (before after : List Load) (load : Load)
    → one load.kind ≡ 0
    → s.loads ≡ before ++ load ∷ after
    → b.inflight ≡ s.box.inflight
    → b.loader_thread ≡ s.box.loader_thread
    → Single s
    → Single (record s { box = b; loads = before ++ after })
bystander-Single s b before after load k e i t (l, n, o) = (
  All-map (λ load. Leads-same s.box b load.kind load.thread i t) (before ++ after)
      (All-without (Leads s.box) before load after (subst (All (Leads s.box)) e l)),
  omega (arith, leaders-split before load after, ap leaders e, n, k, ap held i),
  λ none_now. t ∙ o (sym i ∙ none_now),
)

leaves-Single :
    (s : System) (b : Box ℕ) (before after : List Load) (load : Load) (kind : Kind)
    → load.kind ≡ kind
    → s.loads ≡ before ++ load ∷ after
    → LeftBox kind s.box b
    → Single s
    → Single (record s { box = b; loads = before ++ after })
leaves-Single s b before after load (leader f) k e (i, t) (l, n, o) =
    let others : All (Leads s.box) (before ++ after) =
      All-without (Leads s.box) before load after (subst (All (Leads s.box)) e l) in
    let mine : LeadsBox s.box (leader f) load.thread =
      subst (λ kind. LeadsBox s.box kind load.thread) k
        (All-at (Leads s.box) before load after (subst (All (Leads s.box)) e l)) in
    let idle : leaders (before ++ after) ≡ 0 =
      omega (arith, leaders-split before load after, ap one k, ap leaders e, n, ap held mine.0) in
    (All-Leads-any s.box b (before ++ after) idle others, idle ∙ sym (ap held i), λ _. t)
leaves-Single s b before after load nested k e (i, t) h =
    bystander-Single s b before after load (ap one k) e i t h
leaves-Single s b before after load setter k e (i, t) h =
    bystander-Single s b before after load (ap one k) e i t h

pub Step-Single : {s t : System} → Step s t → Single s → Single t
unfolding invalidate
Step-Single {s} (begins now thread) h =
    begins-Single s now thread (begin_load now thread s.box) (begin_load-Begun now thread s.box) h
Step-Single (observes thread) (l, n, o) = ((tt, l), omega (arith, n), o)
Step-Single {s} (reads before after load e) (l, n, o) =
    let known : All (Leads s.box) (before ++ load ∷ after) = subst (All (Leads s.box)) e l in
    (
      All-with (Leads s.box) before (record load { read = some s.source }) after
          (All-at (Leads s.box) before load after known)
          (All-without (Leads s.box) before load after known),
      leaders-split before (record load { read = some s.source }) after
          ∙ sym (leaders-split before load after)
          ∙ sym (ap leaders e)
          ∙ n,
      o,
    )
Step-Single {s} (finishes now v before after load e r) h =
    leaves-Single s (write_back now v load load.kind s.box) before after load load.kind refl e
      (write_back-LeftBox now v load load.kind s.box
        (All-at (Leads s.box) before load after (subst (All (Leads s.box)) e h.0)))
      h
Step-Single {s} (fails before after load e) h =
    leaves-Single s (give_up load load.kind s.box) before after load load.kind refl e
      (give_up-LeftBox load load.kind s.box
        (All-at (Leads s.box) before load after (subst (All (Leads s.box)) e h.0)))
      h
Step-Single changes h = h
Step-Single {s} invalidates (l, n, o) = (
  All-map (λ load. Leads-same s.box (invalidate s.box) load.kind load.thread refl refl) s.loads l,
  n,
  o,
)

pub Reach-Single : {ttl source : ℕ} {s : System} → Reach ttl source s → Single s
unfolding new_box
Reach-Single start = (tt, refl, λ _. refl)
Reach-Single (later h step) = Step-Single step (Reach-Single h)
