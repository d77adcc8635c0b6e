-- ===== src/Cache.antt =====
-- `CacheTier` of crates/ozd-app/src/cache.rs: a fast disk that caches the bodies of a block store.
-- The slots of the reads that are under way are in Cache/Flights.antt.
pub mod Evict
pub mod Coherent
pub mod Calls
pub mod Flights
mod Tests
use ozd.Prelude.{
  ℕ, zero, suc, ◌+◌, ◌-◌, ◌/◌, ◌%◌, ◌^◌, List, Bool, true, false, Option, ltb, leb, ◌==◌,
  if◌then◌else◌, length,
}
use ozd.Domain.{BlockKey, Body, DomainError, DomainResult, ok, err, not_found}

-- `BlockStore` of crates/ozd-domain/src/lib.rs: what the tier reads through to.
pub record BlockStore : Type 1 where
  pub Store : Type 0
  pub put : BlockKey → Body → Store → DomainResult (Unit {0}) × Store
  pub get : BlockKey → Store → DomainResult Body × Store
  pub stat : BlockKey → Store → DomainResult ℕ
  pub has : BlockKey → Store → DomainResult Bool
  pub delete : BlockKey → Store → DomainResult (Unit {0}) × Store
  pub list : List ℕ → Option BlockKey → ℕ → Store → DomainResult (List (BlockKey × ℕ))

-- The operations of `ShardEngine` that the tier calls on the fast disk.
pub record CacheEngine : Type 1 where
  pub Disk : Type 0
  pub put : BlockKey → Body → Disk → DomainResult (Unit {0}) × Disk
  pub get : BlockKey → Disk → DomainResult Body
  pub delete : BlockKey → Disk → DomainResult (Unit {0}) × Disk
  pub data_bytes : Disk → DomainResult ℕ
  pub evict_oldest_segment : Disk → DomainResult (ℕ × ℕ) × Disk

pub record CacheConfig : Type 0 where
  pub max_bytes : ℕ
  pub min_size : ℕ

-- The counters of `OpsMetrics` that the tier keeps.
pub record CacheMetrics : Type 0 where
  pub hits : ℕ
  pub misses : ℕ
  pub self_heals : ℕ
  pub populated_bytes : ℕ
  pub evicted_segments : ℕ
  pub evicted_bytes : ℕ

-- `fetch_add` on an `AtomicU64`.
abbrev pub fetch_add : ℕ → ℕ → ℕ
fetch_add c n = (c + n) % 2 ^ 64

abbrev unwrap_or_0 : DomainResult ℕ → ℕ
unwrap_or_0 (ok n) = n
unwrap_or_0 (err e) = 0

abbrev pub is_not_found : DomainError → Bool
is_not_found not_found = true
is_not_found e = false

module _ (inner : BlockStore) (cache : CacheEngine) (cfg : CacheConfig) where
  pub record CacheTier : Type 0 where
    pub store : inner.Store
    pub disk : cache.Disk
    pub bytes : ℕ
    pub metrics : CacheMetrics

  unfoldable pub new : inner.Store → cache.Disk → CacheMetrics → CacheTier
  new store disk metrics = record {
    store = store;
    disk = disk;
    bytes = unwrap_or_0 (cache.data_bytes disk);
    metrics = metrics;
  }

  -- The mark under which an eviction would stop.
  abbrev pub low : ℕ
  low = cfg.max_bytes - cfg.max_bytes / 10

  -- The tier after an eviction that freed so many bytes.
  unfoldable pub evicted : ℕ → cache.Disk → CacheTier → CacheTier
  evicted freed d t = record t {
    disk = d;
    bytes = t.bytes - freed;
    metrics = record t.metrics {
      evicted_segments = fetch_add t.metrics.evicted_segments 1;
      evicted_bytes = fetch_add t.metrics.evicted_bytes freed;
    };
  }

  -- One pass of the loop: the tier after it, and whether the loop stops there.
  unfoldable pub evict_step : DomainResult (ℕ × ℕ) × cache.Disk → CacheTier → Bool × CacheTier
  unfolding evicted
  evict_step (err e, d) t = (true, record t { disk = d })
  evict_step (ok (freed, keys), d) t =
      if freed == 0
      then (true, record t { disk = d })
      else (leb (t.bytes - freed) low, evicted freed d t)

  -- The loop, at most so many passes of it.
  unfoldable pub evict_loop : ℕ → CacheTier → CacheTier
  unfolding evict_step
  evict_loop zero t = t
  evict_loop (suc n) t =
      let pass = evict_step (cache.evict_oldest_segment t.disk) t in
      let rest = evict_loop n pass.1 in
      if ltb cfg.max_bytes t.bytes then (if pass.0 then pass.1 else rest) else t

  -- A pass that does not stop the loop frees a byte at least.
  unfoldable pub maybe_evict : CacheTier → CacheTier
  unfolding evict_loop
  maybe_evict t = if cfg.max_bytes == 0 then t else evict_loop t.bytes t

  unfoldable pub populated : Body → DomainResult (Unit {0}) × cache.Disk → CacheTier → CacheTier
  unfolding maybe_evict
  populated body (err e, d) t = record t { disk = d }
  populated body (ok _, d) t = maybe_evict (record t {
    disk = d;
    bytes = fetch_add t.bytes (length body);
    metrics = record t.metrics {
      populated_bytes = fetch_add t.metrics.populated_bytes (length body);
    };
  })

  unfoldable pub populate : BlockKey → Body → CacheTier → CacheTier
  unfolding populated
  populate key body t =
      if ltb (length body) cfg.min_size then t else populated body (cache.put key body t.disk) t

  -- What the pool answered, and the tier after it.
  unfoldable pub from_inner :
      BlockKey → DomainResult Body × inner.Store → CacheTier → DomainResult Body × CacheTier
  unfolding populate
  from_inner key (ok v, s) t = (ok v, populate key v (record t { store = s }))
  from_inner key (err e, s) t = (err e, record t { store = s })

  abbrev pub missed : CacheTier → CacheTier
  missed t = record t { metrics = record t.metrics { misses = fetch_add t.metrics.misses 1 } }

  -- A copy that cannot be read is thrown away.
  abbrev pub healed : BlockKey → CacheTier → CacheTier
  healed key t = record t {
    disk = (cache.delete key t.disk).1;
    metrics = record t.metrics { self_heals = fetch_add t.metrics.self_heals 1 };
  }

  -- What the fast disk answered.
  unfoldable pub read_answered :
      BlockKey → DomainResult Body → CacheTier → DomainResult Body × CacheTier
  unfolding from_inner
  read_answered key (ok v) t =
      (ok v, record t { metrics = record t.metrics { hits = fetch_add t.metrics.hits 1 } })
  read_answered key (err e) t =
      let t' = missed (if is_not_found e then t else healed key t) in
      from_inner key (inner.get key t.store) t'

  unfoldable pub read_through : BlockKey → CacheTier → DomainResult Body × CacheTier
  unfolding read_answered
  read_through key t = read_answered key (cache.get key t.disk) t

  unfoldable pub put_answered :
      BlockKey
      → Body
      → DomainResult (Unit {0}) × inner.Store
      → CacheTier
      → DomainResult (Unit {0}) × CacheTier
  unfolding populate
  put_answered key body (err e, s) t = (err e, record t { store = s })
  put_answered key body (ok _, s) t = (ok tt, populate key body (record t { store = s }))

  unfoldable pub put : BlockKey → Body → CacheTier → DomainResult (Unit {0}) × CacheTier
  unfolding put_answered
  put key body t = put_answered key body (inner.put key body t.store) t

  unfoldable pub delete_answered :
      BlockKey
      → DomainResult (Unit {0}) × inner.Store
      → CacheTier
      → DomainResult (Unit {0}) × CacheTier
  delete_answered key (err e, s) t = (err e, record t { store = s })
  delete_answered key (ok _, s) t =
      (ok tt, record t { store = s; disk = (cache.delete key t.disk).1 })

  unfoldable pub delete : BlockKey → CacheTier → DomainResult (Unit {0}) × CacheTier
  unfolding delete_answered
  delete key t = delete_answered key (inner.delete key t.store) t

  abbrev pub stat : BlockKey → CacheTier → DomainResult ℕ
  stat key t = inner.stat key t.store

  abbrev pub has : BlockKey → CacheTier → DomainResult Bool
  has key t = inner.has key t.store

  abbrev pub list : List ℕ → Option BlockKey → ℕ → CacheTier → DomainResult (List (BlockKey × ℕ))
  list prefix after limit t = inner.list prefix after limit t.store
