-- ===== src/TtlCache/SingleFlight.antt =====
-- backend/enterprise_platform/ttl_cache.py: one load at a time fills the box.
use easy_frame.Prelude.{
  some-injective, ℕ, none, some, List, [], ◌∷◌, ◌++◌, ◌≡◌, refl, sym, ap, ◌∙◌, subst, ◌≢◌, ◌⊎◌, inl,
  inr, nat_eq, option_eq, All, All-at, arith,
}
use easy_frame.TtlCache.Box.{Box, Role, wait, begin_load, drop_inflight, commit_load}
use easy_frame.TtlCache.System.{
  Kind, leader, nested, setter, Load, System, write_back, give_up, Reach,
}
use easy_frame.TtlCache.Invariant.{Begun, hits, waits, reenters, leads, begin_load-Begun}
use easy_frame.TtlCache.Leaders.{
  one, leaders, held, LeadsBox, Leads, leaders-split, write_back-LeftBox, give_up-LeftBox,
  Reach-Single,
}

Kind-cases : (kind : Kind) → ((future : ℕ) × (kind ≡ leader future)) ⊎ (one kind ≡ 0)
Kind-cases (leader future) = inl (future, refl)
Kind-cases nested = inr refl
Kind-cases setter = inr refl

-- the leader among the loads of a box that has a future
find_leader :
    (b : Box ℕ) (loads : List Load)
    → leaders loads ≡ 1
    → All (Leads b) loads
    → (before : List Load) × (load : Load) × (after : List Load) × (future : ℕ) × (loads
        ≡ before ++ load ∷ after)
      × (load.kind ≡ leader future)
find_leader b [] n h = ground (arith, n)
find_leader b (load ∷ loads) n (p, h) = elim (Kind-cases load.kind) [
  | inl (future, k) ↦ ([], load, loads, future, refl, k)
  | inr k ↦
      let (before, x, after, future, e, l) = find_leader b loads (omega (arith, n, k)) h in
      (load ∷ before, x, after, future, ap (λ xs. load ∷ xs) e, l)
]

-- A thread that `_begin_load` tells to wait has somebody to wait for.
wait_lem :
    (s : System) (now thread future : ℕ) (p : Role ℕ × Box ℕ)
    → Begun now thread s.box p
    → p.0 ≡ wait future
    → (s.box.inflight ≡ some future) × (s.box.loader_thread ≢ some thread)
wait_lem s now thread future _ (hits v m) e = cc
wait_lem s now thread future _ (waits f o p) e = (p ∙ cc, o)
wait_lem s now thread future _ (reenters t) e = cc
wait_lem s now thread future _ (leads n) e = cc

-- In every state that the threads can reach, whatever their interleaving: when `_begin_load` tells a
-- thread to wait for a future, exactly one load under way leads, the future is that load's, and its
-- thread is another thread than the one that waits.
pub waiters_have_a_leader :
    {ttl source : ℕ} {s : System} (now thread future : ℕ)
    → Reach ttl source s
    → (begin_load now thread s.box).0 ≡ wait future
    → (before : List Load) × (load : Load) × (after : List Load) × (s.loads
        ≡ before ++ load ∷ after)
      × (load.kind ≡ leader future)
      × (load.thread ≢ thread)
      × (leaders (before ++ after) ≡ 0)
waiters_have_a_leader {s} now thread future h told =
    let (l, n, o) = Reach-Single h in
    let (i, other) =
      wait_lem s now thread future (begin_load now thread s.box) (begin_load-Begun now thread s.box)
        told in
    let lone : leaders s.loads ≡ 1 = n ∙ ap held i in
    let (before, load, after, f, e, k) = find_leader s.box s.loads lone l in
    let (mine, its) =
      subst (λ kind. LeadsBox s.box kind load.thread) k
        (All-at (Leads s.box) before load after (subst (All (Leads s.box)) e l)) in
    (
      before,
      load,
      after,
      e,
      k ∙ ap leader (some-injective (sym mine ∙ i)),
      λ same. other (its ∙ ap some same),
      omega (arith, leaders-split before load after, ap leaders e, lone, ap one k),
    )

-- In every state that the threads can reach: when a load that leads ends, whether its loader returned a
-- value or raised, the box has no future and no loading thread left, so the next miss leads.
pub leader_frees_box :
    {ttl source : ℕ} {s : System} (now v future : ℕ) (before after : List Load) (load : Load)
    → Reach ttl source s
    → s.loads ≡ before ++ load ∷ after
    → load.kind ≡ leader future
    → ((commit_load now load.thread load.generation v future s.box).inflight ≡ none)
      × ((commit_load now load.thread load.generation v future s.box).loader_thread ≡ none)
      × ((drop_inflight load.thread future s.box).inflight ≡ none)
      × ((drop_inflight load.thread future s.box).loader_thread ≡ none)
unfolding commit_load write_back give_up
leader_frees_box {s} now v future before after load h e k =
    let mine : LeadsBox s.box (leader future) load.thread =
      subst (λ kind. LeadsBox s.box kind load.thread) k
        (All-at (Leads s.box) before load after (subst (All (Leads s.box)) e (Reach-Single h).0)) in
    let (i, t) = write_back-LeftBox now v load (leader future) s.box mine in
    let (i', t') = give_up-LeftBox load (leader future) s.box mine in (i, t, i', t')
