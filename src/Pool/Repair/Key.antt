-- ===== src/Pool/Repair/Key.antt =====
-- `repair_key` of crates/ozd-app/src/pool.rs while erasure coding is off.
use ozd.Prelude.{ℕ, ◌^◌, ◌<◌, List, ◌≡◌, none, length}
use ozd.Domain.{BlockKey, Body, ShardId}
use ozd.Erasure.{ReedSolomon}
use ozd.Placement.{Row}
use ozd.Shards.{ShardEngine, IsShard}
use ozd.Pool.{Pool, topology}
use ozd.Pool.Topology.{IsValid, Looked, topology-Looked}
use ozd.Pool.Write.Arrival.{IsPolicy}
use ozd.Pool.Read.Found.{Found}

module _ (eng : ShardEngine) (Good : eng.Shard → Type 0) (law : IsShard eng Good) (rs : ReedSolomon)
    (select : BlockKey → List Row → ℕ → List ShardId) (policy : IsPolicy select) (now later : ℕ)
    (key : BlockKey) (p : Pool eng) (valid : IsValid eng p)
    (good : (i : ShardId) → i < p.shard_count → Good (p.shards i))
    (short : (b : Body) → Found eng key p.shards p.shard_count b → length b < 2 ^ 32)
    (no_ec : p.cfg.ec ≡ none) where
  looked : Looked eng p (topology eng now p)
  looked = topology-Looked eng now p valid

  seen : Pool eng
  seen = (topology eng now p).1

  desired : List ShardId
  desired = select key (topology eng now p).0 seen.cfg.replicas
