-- ===== src/TtlCache/Box.antt =====
-- backend/enterprise_platform/ttl_cache.py: `TtlBox`. Each critical section is a function of the
-- time and of the thread that runs it; threads and futures are numbers, drawn in order.
use easy_frame.Prelude.{ℕ, ◌+◌, Option, none, some, ◌==◌, nat_eq, option_eq, leb, if◌then◌else◌}

pub record Box (V : Type 0) : Type 0 where
  pub ttl : ℕ
  pub expires_at : ℕ
  pub value : Option V
  pub generation : ℕ
  pub inflight : Option ℕ
  pub loader_thread : Option ℕ
  pub next_future : ℕ

-- What `_begin_load` tells its caller to do.
pub data Role (V : Type 0) : Type 0 where
  hit : V → Role V
  wait : ℕ → Role V
  reenter : ℕ → Role V
  lead : ℕ → ℕ → Role V

module _ {V : Type 0} where
  unfoldable pub new_box : ℕ → Box V
  new_box ttl = record {
    ttl = ttl;
    expires_at = 0;
    value = none;
    generation = 0;
    inflight = none;
    loader_thread = none;
    next_future = 0;
  }

  -- `_peek_unlocked`
  unfoldable pub peek : ℕ → Box V → Option V
  peek now b = if leb b.expires_at now then none else b.value

  -- `_store_unlocked`
  unfoldable pub store : ℕ → V → Box V → Box V
  store now v b = record b { value = some v; expires_at = now + b.ttl }

  -- the tests of `_begin_load` after a miss, with the next future
  unfoldable pub begin_miss : ℕ → Box V → Option ℕ → Role V × Box V
  begin_miss thread b (some future) = (wait future, b)
  begin_miss thread b none = (
    lead b.next_future b.generation,
    record b {
      inflight = some b.next_future;
      loader_thread = some thread;
      next_future = b.next_future + 1;
    },
  )

  -- `_begin_load`
  unfoldable pub begin_load : ℕ → ℕ → Box V → Role V × Box V
  unfolding begin_miss
  begin_load now thread b = elim (peek now b) [
    | some v ↦ (hit v, b)
    | none ↦
        if b.loader_thread == some thread
        then (reenter b.generation, b)
        else begin_miss thread b b.inflight
  ]

  -- `set` and `_store_if_generation`
  unfoldable pub store_if_generation : ℕ → ℕ → V → Box V → Box V
  unfolding store
  store_if_generation now generation v b = if generation == b.generation then store now v b else b

  unfoldable pub invalidate : Box V → Box V
  invalidate b = record b { value = none; expires_at = 0; generation = b.generation + 1 }

  -- `_drop_inflight_unlocked`
  unfoldable pub drop_inflight : ℕ → ℕ → Box V → Box V
  drop_inflight thread future b = record b {
    inflight = if b.inflight == some future then none else b.inflight;
    loader_thread = if b.loader_thread == some thread then none else b.loader_thread;
  }

  -- `_commit_load`, in its critical section
  unfoldable pub commit_load : ℕ → ℕ → ℕ → V → ℕ → Box V → Box V
  unfolding store_if_generation drop_inflight
  commit_load now thread generation v future b =
      drop_inflight thread future (store_if_generation now generation v b)
