-- ===== src/Pool/Topology/Settings.antt =====
-- What the settings of crates/ozd-app/src/pool.rs do to the topology: `set_shard_status` and
-- `set_shard_slow`.
use ozd.Prelude.{ℕ, zero, suc, ◌+◌, ◌%◌, ◌^◌, List, [], ◌∷◌, Bool, false, none, get_or}
use ozd.Domain.{ShardStatus}
use ozd.Placement.{Row}
use ozd.Shards.{ShardEngine}
use ozd.Pool.{Pool, escalated, override_or, capacity_or_default}

module _ (eng : ShardEngine) where
  -- The rows of n shards from the i-th on, for given statuses and slow flags: the engine's capacity or the
  -- override of it, and the status, which is Suspect for an online shard that is slow.
  abbrev pub shown : (ℕ → ShardStatus) → (ℕ → Bool) → ℕ → ℕ → Pool eng → List Row
  shown status slow i zero p = []
  shown status slow i (suc n) p =
      (
        i % 2 ^ 16,
        override_or eng (get_or p.cap_overrides i none)
            (capacity_or_default eng (eng.usage (p.shards i))),
        escalated eng (status i) (slow i),
      )
      ∷ shown status slow (i + 1) n p

  abbrev pub status_of : Pool eng → ℕ → ShardStatus
  status_of p i = get_or p.statuses i ShardStatus.online

  abbrev pub slow_of : Pool eng → ℕ → Bool
  slow_of p i = get_or p.slow_flags i false
