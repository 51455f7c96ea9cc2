-- ===== src/Manifest/Scheduler/Carried.antt =====
-- backend/enterprise_platform/easyauth/manifest_scheduler.py: how the threads carry a forced request.
use easy_frame.Prelude.{
  ℕ, ◌+◌, ◌≤◌, Bool, true, false, ◌||◌, Option, none, some, List, ◌∷◌, ◌++◌, ◌≡◌, ap, arith,
}
use easy_frame.Manifest.Scheduler.Flags.{Flags, Taken, nothing, claimed, Entered, merged, owned}
use easy_frame.Manifest.Scheduler.Threads.{Activity, spawning, stopping, straying, if_owner}
use easy_frame.Manifest.Scheduler.Count.{bit, forced, total, total-append, total-turn, bit-le}

-- the threads that can only be there once a start has failed
abbrev pub ending : Activity → ℕ
ending stopping = 1
ending straying = 1
ending _ = 0

-- A forced request that no forced run has followed yet is among the pending ones, or on its way to one;
-- and only a running scheduler has pending ones.
abbrev pub Carried : Bool → Flags → List Activity → Type 0
Carried wanted flags activities =
    (bit wanted ≤ bit flags.pending_force + total forced activities)
    × (bit flags.pending_force ≤ bit flags.pending)
    × (bit flags.pending ≤ bit flags.running)
    × (total ending activities ≡ 0)

bit-or :
    (a b : Bool) → (bit a ≤ bit (a || b)) × (bit b ≤ bit (a || b)) × (bit (a || b) ≤ bit a + bit b)
bit-or true true = omega arith
bit-or true false = omega arith
bit-or false true = omega arith
bit-or false false = omega arith

-- One request more keeps the bound.
bit-or_le : (a b f : Bool) (n : ℕ) → bit a ≤ bit b + n → bit (a || f) ≤ bit (b || f) + n
bit-or_le true true f n h = omega arith
bit-or_le true false true n h = omega arith
bit-or_le true false false n h = h
bit-or_le false b f n h = omega (arith, bit-or b f)

pub Taken-Carried :
    (wanted : Bool) (flags : Flags) (all before after : List Activity) (a : Activity)
    (next : Option (Bool × Bool) → List Activity) (p : Option (Bool × Bool) × Flags)
    → Taken flags p
    → all ≡ before ++ a ∷ after
    → forced a ≡ 0
    → (total forced (next none) ≡ 0) × (total ending (next none) ≡ 0)
    → ((force defer : Bool)
        → (total forced (next (some (force, defer))) ≡ bit force)
          × (total ending (next (some (force, defer))) ≡ 0))
    → Carried wanted flags all
    → Carried wanted p.1 (before ++ (next p.0 ++ after))
Taken-Carried wanted flags all before after a next _ (nothing p) e f n c (w, k, l, m) = (
  omega (arith, total-turn forced all before after a (next none) e, f, n.0, w),
  k,
  omega (arith, l, ap bit p),
  omega (arith, total-turn ending all before after a (next none) e, n.1, m),
)
Taken-Carried wanted flags all before after a next _ (claimed p) e f n c (w, k, l, m) =
    let got : Bool × Bool = (flags.pending_force, flags.pending_defer) in
    let (g, h) = c flags.pending_force flags.pending_defer in
    (
      omega (arith, total-turn forced all before after a (next (some got)) e, f, g, w),
      omega arith,
      omega arith,
      omega (arith, total-turn ending all before after a (next (some got)) e, h, m),
    )

pub Entered-Carried :
    (wanted : Bool) (flags : Flags) (before after : List Activity) (force defer : Bool)
    (p : Bool × Flags)
    → Entered force defer flags p
    → Carried wanted flags (before ++ after)
    → Carried (wanted || force) p.1 (before ++ (if_owner p.0 force defer ++ after))
Entered-Carried wanted flags before after force defer _ (merged r) (w, k, l, m) = (
  bit-or_le wanted flags.pending_force force (total forced (before ++ after)) w,
  omega (arith, bit-le (flags.pending_force || force)),
  omega (arith, ap bit r),
  m,
)
Entered-Carried wanted flags before after force defer _ (owned r) (w, k, l, m) =
    let fresh = spawning 3 force defer in
    (
      omega (
        arith,
        w,
        bit-or wanted force,
        total-append forced before after,
        total-append forced before (fresh ∷ after),
      ),
      k,
      omega (arith, bit-le flags.pending),
      omega
          (arith, total-append ending before after, total-append ending before (fresh ∷ after), m),
    )

pub turn-Carried :
    (wanted wanted' : Bool) (flags flags' : Flags) (all before after : List Activity) (a : Activity)
    (now : List Activity)
    → all ≡ before ++ a ∷ after
    → bit wanted' + forced a ≤ bit wanted + total forced now
    → total ending now ≡ 0
    → flags'.pending_force ≡ flags.pending_force
    → flags'.pending ≡ flags.pending
    → flags'.running ≡ flags.running
    → Carried wanted flags all
    → Carried wanted' flags' (before ++ (now ++ after))
turn-Carried wanted wanted' flags flags' all before after a now e f n pf pd rn (w, k, l, m) = (
  omega (arith, total-turn forced all before after a now e, f, w, ap bit pf),
  omega (arith, k, ap bit pf, ap bit pd),
  omega (arith, l, ap bit pd, ap bit rn),
  omega (arith, total-turn ending all before after a now e, n, m),
)
