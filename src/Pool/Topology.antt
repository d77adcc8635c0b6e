-- ===== src/Pool/Topology.antt =====
-- The topology of crates/ozd-app/src/pool.rs: its rows are the shards of the pool, each once.
pub mod Settings
use ozd.Prelude.{
  ℕ, zero, suc, ◌+◌, ◌%◌, ◌-◌, ◌^◌, ◌<◌, ◌≤◌, List, Bool, true, false, Option, none, some, ◌≡◌, ◌≢◌,
  refl, arith, map, All, Bool-cases, inl, inr, ltb, if◌then◌else◌, length, not, ◌&&◌, get_or, set,
}
use ozd.Domain.{BlockKey, ShardId, Capacity, ShardStatus}
use ozd.HealQueue.{HealPriority}
use ozd.Placement.{Row}
use ozd.Placement.Choice.{Distinct}
use ozd.Shards.{ShardEngine}
use ozd.Pool.{
  Pool, PoolConfig, TopoCache, rows_from, refreshed, topology_from, topology, built,
  set_shard_capacity, set_shard_status, set_shard_slow, same_status, same_bool, shutdown,
  enqueue_heal,
}

abbrev pub row_ids : List Row → List ShardId
row_ids rows = map (λ r. r.0) rows

abbrev pub RowsOf : ℕ → List Row → Type 0
RowsOf n rows = Distinct (row_ids rows) × All (λ i. i < n) (row_ids rows)

abbrev CachedOf : ℕ → Option TopoCache → Type 0
CachedOf n none = Unit
CachedOf n (some c) = RowsOf n c.topo

module _ (eng : ShardEngine) where
  -- A shard's number fits its type, and the cached topology is one of this pool's shards.
  pub record IsValid (p : Pool eng) : Type 0 where
    pub small : p.shard_count ≤ 2 ^ 16
    pub cached : CachedOf p.shard_count p.topo

  -- What a look at the topology may not change.
  pub record Same (p p' : Pool eng) : Type 0 where
    pub cfg : p'.cfg ≡ p.cfg
    pub shards : p'.shards ≡ p.shards
    pub shard_count : p'.shard_count ≡ p.shard_count

  rows_from-All :
      (p : Pool eng) (P : ShardId → Type 0) (i n : ℕ)
      → ((j : ℕ) → i ≤ j → j < i + n → P (j % 2 ^ 16))
      → All P (row_ids (rows_from eng i n p))
  unfolding rows_from
  rows_from-All p P i zero h = tt
  rows_from-All p P i (suc n) h = (
    h i (omega arith) (omega arith),
    rows_from-All p P (i + 1) n (λ j l u. h j (omega arith) (omega arith)),
  )

  rows_from-Distinct :
      (p : Pool eng) (i n : ℕ) → i + n ≤ 2 ^ 16 → Distinct (row_ids (rows_from eng i n p))
  unfolding rows_from
  rows_from-Distinct p i zero h = tt
  rows_from-Distinct p i (suc n) h = (
    rows_from-All p (λ j. j ≢ i % 2 ^ 16) (i + 1) n (λ j l u e. omega arith),
    rows_from-Distinct p (i + 1) n (omega arith),
  )

  rows_from-RowsOf : (p : Pool eng) (n : ℕ) → n ≤ 2 ^ 16 → RowsOf n (rows_from eng 0 n p)
  rows_from-RowsOf p n h = (
    rows_from-Distinct p 0 n (omega arith),
    rows_from-All p (λ i. i < n) 0 n (λ j l u. omega arith),
  )

  -- What a look at the topology of a pool gives.
  pub record Looked (p : Pool eng) (x : List Row × Pool eng) : Type 0 where
    pub rows : RowsOf p.shard_count x.0
    pub valid : IsValid x.1
    pub cfg : x.1.cfg ≡ p.cfg
    pub shards : x.1.shards ≡ p.shards
    pub shard_count : x.1.shard_count ≡ p.shard_count
    pub mrf : x.1.mrf ≡ p.mrf

  refreshed-Looked : (now : ℕ) (p : Pool eng) → IsValid p → Looked p (refreshed eng now p)
  unfolding refreshed
  refreshed-Looked now p v =
      let rows = rows_from-RowsOf p p.shard_count v.small in
      record {
        rows = rows;
        valid = record { small = v.small; cached = rows };
        cfg = refl;
        shards = refl;
        shard_count = refl;
        mrf = refl;
      }

  kept-Looked :
      (p : Pool eng) (rows : List Row) → IsValid p → RowsOf p.shard_count rows → Looked p (rows, p)
  kept-Looked p rows v r = record {
    rows = r;
    valid = v;
    cfg = refl;
    shards = refl;
    shard_count = refl;
    mrf = refl;
  }

  topology_from-Looked :
      (c : Option TopoCache) (now : ℕ) (p : Pool eng)
      → CachedOf p.shard_count c
      → IsValid p
      → Looked p (topology_from eng c now p)
  unfolding topology_from
  topology_from-Looked none now p h v = refreshed-Looked now p v
  topology_from-Looked (some c) now p h v =
      elim (Bool-cases (ltb (now - c.at) p.cfg.free_space_cache_ttl)) [
        | inl young ↦ rw (topology_from, young) (kept-Looked p c.topo v h)
        | inr old ↦ rw (topology_from, old) (refreshed-Looked now p v)
      ]

  -- A look at the topology of a valid pool gives rows of different shards below its count, a valid
  -- pool, and the same configuration, shards and heal queue.
  pub topology-Looked : (now : ℕ) (p : Pool eng) → IsValid p → Looked p (topology eng now p)
  unfolding topology
  topology-Looked now p v = topology_from-Looked p.topo now p v.cached v

  -- A pool of at most 2^16 shards is valid at first.
  pub built-IsValid :
      (cfg : PoolConfig) (shards : ℕ → eng.Shard) (n : ℕ)
      → n ≤ 2 ^ 16
      → IsValid (built eng cfg shards n)
  built-IsValid cfg shards n h = record { small = h; cached = tt }
