-- ===== src/Pool/Repair.antt =====
-- The repair of one block in crates/ozd-app/src/pool.rs: mirrors, and erasure sets.
pub mod Mirror
pub mod Lacking
pub mod Whole
pub mod Key
use ozd.Prelude.{
  ℕ, zero, suc, ◌+◌, ◌-◌, min, max, List, [], ◌∷◌, Bool, true, false, not, ◌&&◌, Option, none, some,
  ltb, leb, ◌==◌, if◌then◌else◌, length, take, get_or, replicate, all_of,
}
use ozd.Domain.{BlockKey, Body, ShardId, DomainError, not_found, io, DomainResult, ok, err}
use ozd.Domain.Piece.{PieceHeader, parse_piece_header}
use ozd.Erasure.{ReedSolomon, EcConfig, total, present, ec_repair_pieces}
use ozd.Placement.{Row}
use ozd.Shards.{ShardEngine, update}
use ozd.Pool.{Pool, ranking_for, replicas_for}
use ozd.Pool.Write.{contains}
use ozd.Pool.Read.{place, read_legs, others, scan, gather}

-- `has(key).unwrap_or(false)`
abbrev pub or_false : DomainResult Bool → Bool
or_false (ok b) = b
or_false (err e) = false

-- What a repair has written, and what it could not write.
abbrev pub Repaired : Type 0
Repaired = DomainResult (ℕ × ℕ)

module _ (eng : ShardEngine) where
  open eng use {Shard}

  abbrev pub has_block : BlockKey → (ℕ → Shard) → ShardId → Bool
  has_block key shards i = or_false (eng.has key (shards i))

  unfoldable pub holders : BlockKey → (ℕ → Shard) → List ShardId → List ShardId
  holders key shards [] = []
  holders key shards (i ∷ is) =
      let rest = holders key shards is in if has_block key shards i then i ∷ rest else rest

  unfoldable pub lacking : BlockKey → (ℕ → Shard) → List ShardId → List ShardId
  lacking key shards [] = []
  lacking key shards (i ∷ is) =
      let rest = lacking key shards is in if has_block key shards i then rest else i ∷ rest

  -- The ranks, from r on, whose disk has nothing.
  unfoldable pub missing_ranks : BlockKey → (ℕ → Shard) → ℕ → List ShardId → List ℕ
  missing_ranks key shards r [] = []
  missing_ranks key shards r (i ∷ is) =
      let rest = missing_ranks key shards (r + 1) is in
      if has_block key shards i then rest else r ∷ rest

  -- A copy of the body for each shard.
  abbrev pub copied :
      ShardId → DomainResult (Unit {0}) × Shard → ℕ × ℕ × (ℕ → Shard) → ℕ × ℕ × (ℕ → Shard)
  copied i (ok u, s) (done, left, shards) = (done + 1, left, update shards i s)
  copied i (err e, s) (done, left, shards) = (done, left + 1, update shards i s)

  unfoldable pub copy_to :
      BlockKey → Body → List ShardId → ℕ × ℕ × (ℕ → Shard) → ℕ × ℕ × (ℕ → Shard)
  copy_to key body [] (done, left, shards) = (done, left, shards)
  copy_to key body (i ∷ is) (done, left, shards) =
      copy_to key body is (copied i (eng.put_meta key body none (shards i)) (done, left, shards))

  abbrev pub or_any : DomainResult Body → Option Body → DomainResult Body
  or_any (ok b) x = ok b
  or_any (err e) none = err not_found
  or_any (err e) (some b) = ok b

  -- The shards that should have it, and then all of them.
  unfoldable pub read_for_repair : BlockKey → List ShardId → (ℕ → Shard) → ℕ → DomainResult Body
  unfolding read_legs scan others
  read_for_repair key have shards n =
      or_any (read_legs eng key shards have not_found) (scan eng key shards (others eng 0 n []))

  abbrev pub probed : Option Body → DomainResult Body → DomainResult Body
  probed none x = x
  probed (some b) x = ok b

  -- The mirror: a source and the copies.
  unfoldable pub fill : BlockKey → DomainResult Body → List ShardId → Pool eng → Repaired × Pool eng
  unfolding copy_to
  fill key (err e) missing p = (err e, p)
  fill key (ok body) missing p =
      let (done, left, shards) = copy_to key body missing (0, 0, p.shards) in
      (ok (done, left), record p { shards = shards })

  unfoldable pub repair_missing :
      BlockKey → Option Body → List ShardId → List ShardId → Pool eng → Repaired × Pool eng
  unfolding holders read_for_repair fill
  repair_missing key probe desired [] p = (ok (0, 0), p)
  repair_missing key probe desired (m ∷ ms) p =
      fill key
        (probed probe (read_for_repair key (holders key p.shards desired) p.shards p.shard_count))
        (m ∷ ms) p

  unfoldable pub repair_desired :
      BlockKey → Option Body → List ShardId → Pool eng → Repaired × Pool eng
  unfolding lacking repair_missing
  repair_desired key probe desired p =
      repair_missing key probe desired (lacking key p.shards desired) p

  -- A rank is in order if its disk has the piece of that rank.
  unfoldable pub misplaced : BlockKey → (ℕ → Shard) → ℕ → List ShardId → List (ℕ × ShardId)
  unfolding parse_piece_header
  misplaced key shards r [] = []
  misplaced key shards r (i ∷ is) =
      let rest = misplaced key shards (r + 1) is in
      elim (eng.get key (shards i)) [
        | err e ↦ (r, i) ∷ rest
        | ok b ↦ elim (parse_piece_header b) [
          | none ↦ (r, i) ∷ rest
          | some h ↦ if h.piece_idx == r then rest else (r, i) ∷ rest
        ]
      ]

  unfoldable pub rewrite :
      BlockKey → ℕ → List Body → List (ℕ × ShardId) → ℕ × ℕ × (ℕ → Shard) → ℕ × ℕ × (ℕ → Shard)
  rewrite key len pieces [] (done, left, shards) = (done, left, shards)
  rewrite key len pieces ((r, i) ∷ ms) (done, left, shards) =
      rewrite key len pieces ms (
        copied i (eng.put_meta key (get_or pieces r []) (some len) (shards i)) (done, left, shards))

  module _ (rs : ReedSolomon) where
    -- The pieces are at their ranks already, or are rebuilt.
    unfoldable pub rebuild :
        BlockKey
        → PieceHeader
        → List (Option Body)
        → List (ℕ × ShardId)
        → Pool eng
        → Repaired × Pool eng
    unfolding ec_repair_pieces rewrite
    rebuild key h slots [] p = (ok (0, 0), p)
    rebuild key h slots (m ∷ ms) p = elim (ec_repair_pieces rs slots h.k h.m) [
      | err e ↦ (err e, p)
      | ok pieces ↦
          let (done, left, shards) = rewrite key h.logical_len pieces (m ∷ ms) (0, 0, p.shards) in
          (ok (done, left), record p { shards = shards })
    ]

    unfoldable pub repair_key_ec :
        BlockKey → PieceHeader → List ShardId → Pool eng → Repaired × Pool eng
    unfolding gather others misplaced rebuild
    repair_key_ec key h targets p =
        let ranked = take (h.k + h.m) targets in
        let near = gather eng key p.shards ranked (replicate (h.k + h.m) none) in
        let slots =
          if ltb (length (present rs near)) h.k
          then gather eng key p.shards (others eng 0 p.shard_count targets) near
          else near in
        if ltb (length (present rs slots)) h.k
        then (err io, p)
        else rebuild key h slots (misplaced key p.shards 0 ranked) p

    module _ (select : BlockKey → List Row → ℕ → List ShardId) where
      unfoldable pub repair_key_mirror : ℕ → BlockKey → Option Body → Pool eng → Repaired × Pool eng
      unfolding replicas_for repair_desired
      repair_key_mirror now key probe p =
          let (desired, p') = replicas_for eng select now key p in
          repair_desired key probe desired p'

      -- The kind of a block that is not whole is that of the first body that can be read.
      unfoldable pub repair_found :
          ℕ → BlockKey → List ShardId → Option Body → Pool eng → Repaired × Pool eng
      unfolding parse_piece_header repair_key_ec repair_key_mirror
      repair_found now key targets none p = (err io, p)
      repair_found now key targets (some b) p = elim (parse_piece_header b) [
        | none ↦ repair_key_mirror now key (some b) p
        | some h ↦ repair_key_ec key h targets p
      ]

      abbrev or_else : Option Body → Option Body → Option Body
      or_else none x = x
      or_else (some b) x = some b

      -- All pieces are there, or the first `legs` ranks are and no other: a small mirror.
      unfoldable pub looks_whole : ℕ → ℕ → List ℕ → Bool
      looks_whole n legs [] = true
      looks_whole n legs (r ∷ rs) = all_of (λ r. leb legs r) (r ∷ rs) && length (r ∷ rs) == n - legs

      unfoldable pub repair_key_as :
          Option EcConfig → ℕ → ℕ → BlockKey → Pool eng → Repaired × Pool eng
      unfolding ranking_for missing_ranks looks_whole repair_found scan others total
      repair_key_as none now later key p = repair_key_mirror now key none p
      repair_key_as (some ec) now later key p =
          let (targets, p') = ranking_for eng select now key (max (total ec) p.cfg.replicas) p in
          let missing = missing_ranks key p'.shards 0 (take (total ec) targets) in
          if looks_whole (total ec) (min p.cfg.replicas (length targets)) missing
          then (ok (0, 0), p')
          else repair_found later key targets
              (or_else (scan eng key p'.shards targets)
                (scan eng key p'.shards (others eng 0 p'.shard_count targets)))
              p'

      unfoldable pub repair_key : ℕ → ℕ → BlockKey → Pool eng → Repaired × Pool eng
      unfolding repair_key_as
      repair_key now later key p = repair_key_as p.cfg.ec now later key p
