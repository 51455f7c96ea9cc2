-- ===== src/TtlCache/System.antt =====
-- backend/enterprise_platform/ttl_cache.py: threads that load, set and invalidate one box, in any
-- interleaving. The loaders read a source outside the program, which changes; what they read is
-- represented by the version of the source at that moment.
use easy_frame.Prelude.{ℕ, ◌+◌, Option, none, some, List, [], ◌∷◌, ◌++◌, ◌≡◌}
use easy_frame.TtlCache.Box.{
  Box, Role, hit, wait, reenter, lead, new_box, begin_load, store_if_generation, invalidate,
  drop_inflight, commit_load,
}

-- Who will write what it loads: the leader with its future, a nested load of the leader's thread, or a
-- caller of `set`.
pub data Kind : Type 0 where
  leader : ℕ → Kind
  nested : Kind
  setter : Kind

-- A load under way: its thread, the generation that it read at its begin, and what it has read from
-- the source, if it has.
pub record Load : Type 0 where
  pub kind : Kind
  pub thread : ℕ
  pub generation : ℕ
  pub read : Option ℕ

pub record System : Type 0 where
  pub box : Box ℕ
  pub loads : List Load
  pub source : ℕ
  -- the source's version at the last invalidation
  pub floor : ℕ

abbrev pub init : ℕ → ℕ → System
init ttl source = record { box = new_box ttl; loads = []; source = source; floor = 0 }

-- the load that a role begins
unfoldable pub add_load : ℕ → Role ℕ → List Load → List Load
add_load thread (hit _) loads = loads
add_load thread (wait _) loads = loads
add_load thread (reenter generation) loads =
    record { kind = nested; thread = thread; generation = generation; read = none } ∷ loads
add_load thread (lead future generation) loads =
    record { kind = leader future; thread = thread; generation = generation; read = none } ∷ loads

-- `_commit_load` of a leader, `_store_if_generation` of a nested load, `set` of a setter
unfoldable pub write_back : ℕ → ℕ → Load → Kind → Box ℕ → Box ℕ
write_back now v load (leader future) b = commit_load now load.thread load.generation v future b
write_back now v load nested b = store_if_generation now load.generation v b
write_back now v load setter b = store_if_generation now load.generation v b

-- `_clear_inflight` of a leader whose loader raised
unfoldable pub give_up : Load → Kind → Box ℕ → Box ℕ
give_up load (leader future) b = drop_inflight load.thread future b
give_up load nested b = b
give_up load setter b = b

pub data Step (s : System) : System → Type 0 where
  begins :
      (now thread : ℕ)
      → Step s (record s {
        box = (begin_load now thread s.box).1;
        loads = add_load thread (begin_load now thread s.box).0 s.loads;
      })
  -- the property `generation`, read by a caller that will `set`
  observes :
      (thread : ℕ)
      → Step s (record s {
        loads =
            record { kind = setter; thread = thread; generation = s.box.generation; read = none }
            ∷ s.loads;
      })
  reads :
      (before after : List Load) (load : Load)
      → s.loads ≡ before ++ load ∷ after
      → Step s (record s { loads = before ++ record load { read = some s.source } ∷ after })
  finishes :
      (now v : ℕ) (before after : List Load) (load : Load)
      → s.loads ≡ before ++ load ∷ after
      → load.read ≡ some v
      → Step s (record s { box = write_back now v load load.kind s.box; loads = before ++ after })
  fails :
      (before after : List Load) (load : Load)
      → s.loads ≡ before ++ load ∷ after
      → Step s (record s { box = give_up load load.kind s.box; loads = before ++ after })
  changes : Step s (record s { source = s.source + 1 })
  invalidates : Step s (record s { box = invalidate s.box; floor = s.source })

pub data Reach (ttl source : ℕ) : System → Type 0 where
  start : Reach ttl source (init ttl source)
  later : {s t : System} → Reach ttl source s → Step s t → Reach ttl source t
