-- ===== src/Pool.antt =====
-- `Pool` of crates/ozd-app/src/pool.rs: its state, its topology, and the settings from outside.
-- Metrics, log messages, latency samples and the background throttle are left out.
pub mod Topology
pub mod Policy
pub mod Write
pub mod Read
pub mod Durable
pub mod Catalog
pub mod Repair
pub mod Walk
pub mod Drain
pub mod Migrate
mod Tests
use ozd.Prelude.{
  ℕ, zero, suc, ◌+◌, ◌-◌, ◌%◌, ◌^◌, List, [], ◌∷◌, Bool, true, false, not, ◌&&◌, Option, none, some,
  ltb, leb, ◌==◌, if◌then◌else◌, length, get_or, set, get_elem?, replicate,
}
use ozd.Domain.{BlockKey, Body, ShardId, Capacity, ShardStatus, DomainResult, ok, err}
use ozd.Erasure.{EcConfig}
use ozd.HealQueue.{HealQueue}
use ozd.HealQueue
use ozd.Placement.{Row}
use ozd.Shards.{ShardEngine}

-- `outboard` is the smallest body with an outboard, if there are any. The hedging and the healing
-- settings are arguments where they are used (`Read.hedge_threshold`, `Drain.step`).
pub record PoolConfig : Type 0 where
  pub replicas : ℕ
  pub write_quorum : ℕ
  pub free_space_cache_ttl : ℕ
  pub ec : Option EcConfig
  pub outboard : Option ℕ

-- Times are numbers that grow.
pub record TopoCache : Type 0 where
  pub at : ℕ
  pub topo : List Row

module _ (eng : ShardEngine) where
  open eng use {Shard}

  -- The shards are numbered below `shard_count`.
  pub record Pool : Type 0 where
    pub cfg : PoolConfig
    pub shards : ℕ → Shard
    pub shard_count : ℕ
    pub topo : Option TopoCache
    pub statuses : List ShardStatus
    pub cap_overrides : List (Option Capacity)
    pub slow_flags : List Bool
    pub mrf : HealQueue
    pub shutting_down : Bool

  abbrev pub built : PoolConfig → (ℕ → Shard) → ℕ → Pool
  built cfg shards n = record {
    cfg = cfg;
    shards = shards;
    shard_count = n;
    topo = none;
    statuses = replicate n ShardStatus.online;
    cap_overrides = replicate n none;
    slow_flags = replicate n false;
    mrf = HealQueue.empty;
    shutting_down = false;
  }

  -- None where an assert panics: no replica or no quorum, a quorum above the replicas, or fewer shards
  -- than replicas.
  unfoldable pub new : PoolConfig → (ℕ → Shard) → ℕ → Option Pool
  new cfg shards n =
      if leb 1 cfg.replicas
        && leb 1 cfg.write_quorum
        && leb cfg.write_quorum cfg.replicas
        && leb cfg.replicas n
      then some (built cfg shards n)
      else none

  abbrev pub capacity_or_default : DomainResult Capacity → Capacity
  capacity_or_default (ok cap) = cap
  capacity_or_default (err e) = record { total_bytes = 0; free_bytes = 0 }

  abbrev pub override_or : Option Capacity → Capacity → Capacity
  override_or none cap = cap
  override_or (some c) cap = c

  -- A slow disk that is online counts as suspect.
  abbrev pub escalated : ShardStatus → Bool → ShardStatus
  escalated ShardStatus.online true = ShardStatus.suspect
  escalated ShardStatus.online false = ShardStatus.online
  escalated ShardStatus.suspect slow = ShardStatus.suspect
  escalated ShardStatus.faulted slow = ShardStatus.faulted

  -- The rows of n shards from the i-th on.
  unfoldable pub rows_from : ℕ → ℕ → Pool → List Row
  rows_from i zero p = []
  rows_from i (suc n) p =
      (
        i % 2 ^ 16,
        override_or (get_or p.cap_overrides i none) (capacity_or_default (eng.usage (p.shards i))),
        escalated (get_or p.statuses i ShardStatus.online) (get_or p.slow_flags i false),
      )
      ∷ rows_from (i + 1) n p

  unfoldable pub refreshed : ℕ → Pool → List Row × Pool
  unfolding rows_from
  refreshed now p =
      let rows = rows_from 0 p.shard_count p in
      (rows, record p { topo = some (record { at = now; topo = rows }) })

  -- The cached topology, while it is younger than its time to live.
  unfoldable pub topology_from : Option TopoCache → ℕ → Pool → List Row × Pool
  unfolding refreshed
  topology_from none now p = refreshed now p
  topology_from (some c) now p =
      if ltb (now - c.at) p.cfg.free_space_cache_ttl then (c.topo, p) else refreshed now p

  unfoldable pub topology : ℕ → Pool → List Row × Pool
  unfolding topology_from
  topology now p = topology_from p.topo now p

  unfoldable pub set_shard_capacity : ℕ → Capacity → Pool → Pool
  set_shard_capacity idx cap p =
      if ltb idx (length p.cap_overrides)
      then record p { cap_overrides = set p.cap_overrides idx (some cap) }
      else p

  abbrev pub same_status : ShardStatus → ShardStatus → Bool
  same_status ShardStatus.online ShardStatus.online = true
  same_status ShardStatus.online ShardStatus.suspect = false
  same_status ShardStatus.online ShardStatus.faulted = false
  same_status ShardStatus.suspect ShardStatus.online = false
  same_status ShardStatus.suspect ShardStatus.suspect = true
  same_status ShardStatus.suspect ShardStatus.faulted = false
  same_status ShardStatus.faulted ShardStatus.online = false
  same_status ShardStatus.faulted ShardStatus.suspect = false
  same_status ShardStatus.faulted ShardStatus.faulted = true

  -- A change of a status drops the cached topology.
  unfoldable pub set_shard_status : ℕ → ShardStatus → Pool → Pool
  set_shard_status idx st p =
      if ltb idx (length p.statuses)
        && not (same_status (get_or p.statuses idx ShardStatus.online) st)
      then record p { statuses = set p.statuses idx st; topo = none }
      else p

  abbrev pub same_bool : Bool → Bool → Bool
  same_bool true b = b
  same_bool false b = not b

  unfoldable pub set_shard_slow : ℕ → Bool → Pool → Pool
  set_shard_slow idx slow p =
      if ltb idx (length p.slow_flags) && not (same_bool (get_or p.slow_flags idx false) slow)
      then record p { slow_flags = set p.slow_flags idx slow; topo = none }
      else p

  unfoldable pub shutdown : Pool → Pool
  shutdown p = record p { shutting_down = true }

  unfoldable pub enqueue_heal : BlockKey → HealQueue.HealPriority → Pool → Pool
  enqueue_heal key prio p = record p { mrf = HealQueue.push key prio p.mrf }

  -- The placement policy.
  module _ (select : BlockKey → List Row → ℕ → List ShardId) where
    unfoldable pub ranking_for : ℕ → BlockKey → ℕ → Pool → List ShardId × Pool
    unfolding topology
    ranking_for now key n p = let (topo, p') = topology now p in (select key topo n, p')

    unfoldable pub replicas_for : ℕ → BlockKey → Pool → List ShardId × Pool
    unfolding topology
    replicas_for now key p =
        let (topo, p') = topology now p in (select key topo p'.cfg.replicas, p')
