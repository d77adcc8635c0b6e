-- ===== src/Pool/Catalog.antt =====
-- `stat`, `has`, `delete` and `list` of crates/ozd-app/src/pool.rs, and what waits for every disk.
use ozd.Prelude.{
  ℕ, zero, suc, ◌+◌, List, [], ◌∷◌, Bool, true, false, not, Option, none, some, if◌then◌else◌, take,
  bytes_eq,
}
use ozd.Domain.{key_lt, BlockKey, ShardId, not_found, DomainResult, ok, err, ◌>>=◌}
use ozd.Erasure.{EcConfig}
use ozd.Placement.{Row}
use ozd.Shards.{ShardEngine, update}
use ozd.Pool.{Pool, ranking_for, replicas_for}
use ozd.Pool.Write.{Outboard}
use ozd.Pool.Read.{others}

-- `entry(k).or_insert(sz)` of a BTreeMap, as the list of its entries in order.
unfoldable pub or_insert : BlockKey → ℕ → List (BlockKey × ℕ) → List (BlockKey × ℕ)
unfolding key_lt bytes_eq
or_insert k sz [] = (k, sz) ∷ []
or_insert k sz ((k', sz') ∷ rows) =
    if bytes_eq k k'
    then (k', sz') ∷ rows
    else (let rest = or_insert k sz rows in
        if key_lt k k' then (k, sz) ∷ (k', sz') ∷ rows else (k', sz') ∷ rest)

unfoldable pub merge_rows : List (BlockKey × ℕ) → List (BlockKey × ℕ) → List (BlockKey × ℕ)
unfolding or_insert
merge_rows [] merged = merged
merge_rows ((k, sz) ∷ rows) merged = merge_rows rows (or_insert k sz merged)

abbrev logical : ℕ × Option ℕ → ℕ
logical (sz, none) = sz
logical (sz, some obj) = obj

module _ (eng : ShardEngine) where
  open eng use {Shard}

  -- The first shard that knows the size of a block.
  unfoldable pub stat_in : BlockKey → (ℕ → Shard) → List ShardId → DomainResult ℕ
  stat_in key shards [] = err not_found
  stat_in key shards (i ∷ is) = elim (eng.stat key (shards i)) [
    | ok sz ↦ ok sz
    | err e ↦ stat_in key shards is
  ]

  unfoldable pub stat_obj_in : BlockKey → (ℕ → Shard) → List ShardId → DomainResult ℕ
  stat_obj_in key shards [] = err not_found
  stat_obj_in key shards (i ∷ is) = elim (eng.stat_obj key (shards i)) [
    | ok x ↦ ok (logical x)
    | err e ↦ stat_obj_in key shards is
  ]

  abbrev or_stat : DomainResult ℕ → DomainResult ℕ → DomainResult ℕ
  or_stat (ok sz) x = ok sz
  or_stat (err e) x = x

  -- The first shard that has a block, or the first error.
  unfoldable pub has_in : BlockKey → (ℕ → Shard) → List ShardId → DomainResult Bool
  has_in key shards [] = ok false
  has_in key shards (i ∷ is) = elim (eng.has key (shards i)) [
    | ok true ↦ ok true
    | ok false ↦ has_in key shards is
    | err e ↦ err e
  ]

  abbrev or_has : DomainResult Bool → DomainResult Bool → DomainResult Bool
  or_has (ok true) x = ok true
  or_has (ok false) x = x
  or_has (err e) x = err e

  -- Deletions on n shards from the i-th on; their results are ignored.
  unfoldable pub delete_on : BlockKey → ℕ → ℕ → (ℕ → Shard) → ℕ → Shard
  delete_on key i zero shards = shards
  delete_on key i (suc n) shards =
      delete_on key (i + 1) n (update shards i (eng.delete key (shards i)).1)

  unfoldable pub list_from :
      List ℕ
      → Option BlockKey
      → ℕ
      → (ℕ → Shard)
      → ℕ
      → ℕ
      → List (BlockKey × ℕ)
      → DomainResult (List (BlockKey × ℕ))
  unfolding merge_rows
  list_from prefix after limit shards i zero merged = ok merged
  list_from prefix after limit shards i (suc n) merged =
      elim (eng.list prefix after limit (shards i)) [
        | err e ↦ err e
        | ok rows ↦ list_from prefix after limit shards (i + 1) n (merge_rows rows merged)
      ]

  unfoldable pub list : List ℕ → Option BlockKey → ℕ → Pool eng → DomainResult (List (BlockKey × ℕ))
  unfolding list_from
  list prefix after limit p =
      list_from prefix after limit p.shards 0 p.shard_count [] >>= λ merged. ok (take limit merged)

  abbrev sweeps_outboard : Outboard → Option ℕ → BlockKey → Bool
  sweeps_outboard ob none key = false
  sweeps_outboard ob (some n) key = not (ob.is_ob_key key)

  unfoldable pub delete : Outboard → BlockKey → Pool eng → Pool eng
  unfolding delete_on
  delete ob key p =
      let shards = delete_on key 0 p.shard_count p.shards in
      if sweeps_outboard ob p.cfg.outboard key
      then record p { shards = delete_on (ob.ob_key key) 0 p.shard_count shards }
      else record p { shards = shards }

  -- The first disk that fails ends it.
  unfoldable pub flush_from : ℕ → ℕ → (ℕ → Shard) → DomainResult (Unit {0}) × (ℕ → Shard)
  flush_from i zero shards = (ok tt, shards)
  flush_from i (suc n) shards =
      let later = flush_from (i + 1) n (update shards i (eng.flush (shards i)).1) in
      elim (eng.flush (shards i)).0 [
        | ok u ↦ later
        | err e ↦ (err e, update shards i (eng.flush (shards i)).1)
      ]

  unfoldable pub flush_all : Pool eng → DomainResult (Unit {0}) × Pool eng
  unfolding flush_from
  flush_all p =
      let (r, shards) = flush_from 0 p.shard_count p.shards in (r, record p { shards = shards })

  module _ (select : BlockKey → List Row → ℕ → List ShardId) where
    unfoldable pub has : ℕ → BlockKey → Pool eng → DomainResult Bool × Pool eng
    unfolding replicas_for has_in others
    has now key p =
        let (reps, p') = replicas_for eng select now key p in
        (
          or_has (has_in key p'.shards reps)
              (has_in key p'.shards (others eng 0 p'.shard_count reps)),
          p',
        )

    unfoldable pub stat_as : Option EcConfig → ℕ → BlockKey → Pool eng → DomainResult ℕ × Pool eng
    unfolding replicas_for ranking_for stat_in stat_obj_in others
    stat_as (some ec) now key p =
        let (targets, p') = ranking_for eng select now key p.shard_count p in
        (stat_obj_in key p'.shards targets, p')
    stat_as none now key p =
        let (reps, p') = replicas_for eng select now key p in
        (
          or_stat (stat_in key p'.shards reps)
              (stat_in key p'.shards (others eng 0 p'.shard_count reps)),
          p',
        )

    unfoldable pub stat : ℕ → BlockKey → Pool eng → DomainResult ℕ × Pool eng
    unfolding stat_as
    stat now key p = stat_as p.cfg.ec now key p
