-- ===== src/Pool/Migrate.antt =====
-- The migration from mirrors to erasure sets in crates/ozd-app/src/pool.rs.
pub mod Pass
pub mod Canary
pub mod Mirrors
use ozd.Prelude.{
  ℕ, zero, suc, ◌+◌, ◌-◌, ◌%◌, ◌^◌, min, List, [], ◌∷◌, Bool, true, false, not, ◌&&◌, ◌||◌, Option,
  none, some, ltb, ◌==◌, if◌then◌else◌, length, take, drop, get_or, bytes_eq,
}
use ozd.Domain.{BlockKey, Body, ShardId, DomainError, io, not_found, DomainResult, ok, err}
use ozd.Domain.Piece.{PieceHeader, parse_piece_header}
use ozd.Erasure.{ReedSolomon, EcConfig, total, ec_encode}
use ozd.HealQueue.{high}
use ozd.HealQueue
use ozd.Placement.{Row}
use ozd.Shards.{ShardEngine, update}
use ozd.Pool.{Pool, ranking_for}
use ozd.Pool.Write.{contains, Job, jobs_of}
use ozd.Pool.Read.{others, read_legs}
use ozd.Pool.Repair.{has_block, holders}

pub data MigrateOutcome : Type 0 where
  migrated skipped_small skipped_ec canary_failed : MigrateOutcome

module _ (eng : ShardEngine) where
  open eng use {Shard}

  unfoldable pub any_has : BlockKey → (ℕ → Shard) → List ShardId → Bool
  any_has key shards [] = false
  any_has key shards (i ∷ is) = has_block eng key shards i || any_has key shards is

  abbrev mark : BlockKey → DomainResult (ℕ × Option ℕ) → DomainResult Body → Shard → Shard
  unfolding parse_piece_header
  mark key (err e) b s = s
  mark key (ok (sz, some obj)) b s = s
  mark key (ok (sz, none)) (err e) s = s
  mark key (ok (sz, none)) (ok b) s = elim (parse_piece_header b) [
    | none ↦ s
    | some h ↦ (eng.set_obj_logical key h.logical_len s).1
  ]

  -- A piece from before the mark of pieces gets its mark.
  unfoldable pub backfill : BlockKey → List ShardId → (ℕ → Shard) → ℕ → Shard
  unfolding mark
  backfill key [] shards = shards
  backfill key (i ∷ is) shards =
      backfill key is (
        update shards i
          (mark key (eng.stat_obj key (shards i)) (eng.get key (shards i)) (shards i)))

  unfoldable pub delete_at : BlockKey → List ShardId → (ℕ → Shard) → ℕ → Shard
  delete_at key [] shards = shards
  delete_at key (i ∷ is) shards = delete_at key is (update shards i (eng.delete key (shards i)).1)

  abbrev pub read_as : Body → DomainResult Body → DomainResult Bool
  read_as b (ok back) = ok (bytes_eq back b)
  read_as b (err e) = err e

  -- The first phase: each piece is written and read again, until one is not as it was written.
  unfoldable pub canary : BlockKey → ℕ → List Job → (ℕ → Shard) → DomainResult Bool × (ℕ → Shard)
  unfolding bytes_eq
  canary key obj [] shards = (ok true, shards)
  canary key obj ((i, b) ∷ js) shards =
      let (r, s) = eng.put_meta key b (some obj) (shards i) in
      let rest = canary key obj js (update shards i s) in
      elim r [
        | err e ↦ (err e, update shards i s)
        | ok u ↦ elim (read_as b (eng.get key s)) [
          | err e ↦ (err e, update shards i s)
          | ok false ↦ (ok false, update shards i s)
          | ok true ↦ rest
        ]
      ]

  abbrev is_written : DomainResult (Unit {0}) → DomainResult Bool → Bool
  is_written (err e) back = false
  is_written (ok u) (err e) = true
  is_written (ok u) (ok same) = same

  -- The second phase: the pieces over the mirrors; how many of them go to the heal queue.
  unfoldable pub overwrite : BlockKey → ℕ → List Job → ℕ × (ℕ → Shard) → ℕ × (ℕ → Shard)
  unfolding bytes_eq
  overwrite key obj [] (bad, shards) = (bad, shards)
  overwrite key obj ((i, b) ∷ js) (bad, shards) =
      let (r, s) = eng.put_meta key b (some obj) (shards i) in
      overwrite key obj js
        (if is_written r (read_as b (eng.get key s)) then bad else bad + 1, update shards i s)

  unfoldable pub push_high : ℕ → BlockKey → HealQueue.HealQueue → HealQueue.HealQueue
  push_high zero key q = q
  push_high (suc n) key q = push_high n key (HealQueue.push key high q)

  -- The end of a migration whose pieces were read again as they were written.
  unfoldable pub commit_pieces :
      BlockKey → ℕ → List ShardId → List Job → Pool eng → DomainResult MigrateOutcome × Pool eng
  unfolding overwrite push_high delete_at others
  commit_pieces key obj targets heads p =
      let (bad, shards) = overwrite key obj heads (0, p.shards) in
      (
        ok MigrateOutcome.migrated,
        record p {
          shards = delete_at key (others eng 0 p.shard_count targets) shards;
          mrf = push_high bad key p.mrf;
        },
      )

  unfoldable pub move_pieces :
      BlockKey
      → ℕ
      → ℕ
      → List ShardId
      → List Job
      → List Job
      → Pool eng
      → DomainResult MigrateOutcome × Pool eng
  unfolding canary delete_at commit_pieces
  move_pieces key obj legs targets heads tails p =
      let (r, shards) = canary key obj tails p.shards in
      let undone = record p { shards = delete_at key (drop legs targets) shards } in
      elim r [
        | err e ↦ (err e, undone)
        | ok false ↦ (ok MigrateOutcome.canary_failed, undone)
        | ok true ↦ commit_pieces key obj targets heads (record p { shards = shards })
      ]

  module _ (rs : ReedSolomon) where
    -- A body that was read from a mirror.
    unfoldable pub migrate_body :
        BlockKey
        → EcConfig
        → List ShardId
        → ℕ
        → Body
        → Pool eng
        → DomainResult MigrateOutcome × Pool eng
    unfolding parse_piece_header ec_encode move_pieces
    migrate_body key ec targets legs body p = elim (parse_piece_header body) [
      | some h ↦ (ok MigrateOutcome.skipped_ec, p)
      | none ↦
          if ltb (length body) ec.min_size
          then (ok MigrateOutcome.skipped_small, p)
          else elim (ec_encode rs body ec) [
            | err e ↦ (err e, p)
            | ok pieces ↦
                move_pieces key (length body % 2 ^ 64) legs targets
                  (jobs_of (take legs targets) (take legs pieces))
                  (jobs_of (drop legs targets) (drop legs pieces)) p
          ]
    ]

    abbrev pub is_small : DomainResult ℕ → ℕ → Bool
    is_small (ok sz) limit = ltb sz limit
    is_small (err e) limit = false

    unfoldable pub migrate_held :
        BlockKey
        → EcConfig
        → List ShardId
        → ℕ
        → List ShardId
        → Pool eng
        → DomainResult MigrateOutcome × Pool eng
    unfolding migrate_body read_legs
    migrate_held key ec targets legs [] p = (err io, p)
    migrate_held key ec targets legs (i ∷ is) p =
        if is_small (eng.stat key (p.shards i)) ec.min_size
        then (ok MigrateOutcome.skipped_small, p)
        else elim (read_legs eng key p.shards (i ∷ is) not_found) [
          | err e ↦ (err io, p)
          | ok body ↦ migrate_body key ec targets legs body p
        ]

    unfoldable pub migrate_at :
        BlockKey → EcConfig → List ShardId → Pool eng → DomainResult MigrateOutcome × Pool eng
    unfolding any_has backfill holders migrate_held total
    migrate_at key ec targets p =
        if ltb (length targets) (total ec)
        then (err io, p)
        else (let ranked = take (total ec) targets in
            let legs = min p.cfg.replicas (total ec) in
            if any_has key p.shards (drop legs ranked)
            then (ok MigrateOutcome.skipped_ec, record p { shards = backfill key ranked p.shards })
            else migrate_held key ec ranked legs (holders eng key p.shards (take legs ranked)) p)

    module _ (select : BlockKey → List Row → ℕ → List ShardId) where
      unfoldable pub migrate_key :
          ℕ → BlockKey → EcConfig → Pool eng → DomainResult MigrateOutcome × Pool eng
      unfolding ranking_for migrate_at total
      migrate_key now key ec p =
          let (targets, p') = ranking_for eng select now key (total ec) p in
          migrate_at key ec targets p'
