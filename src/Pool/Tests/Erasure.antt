-- ===== src/Pool/Tests/Erasure.antt =====
-- Runs of the repair of crates/ozd-app/src/pool.rs on erasure-coded blocks: two data pieces and a
-- parity piece, with two replicas.
use ozd.Prelude.{
  true, take, min, All, ◌≢◌, arith, ℕ, List, [], ◌∷◌, ◌++◌, none, some, ◌≡◌, refl, bytes_eq,
  if◌then◌else◌, ◌==◌, ◌+◌, false,
}
use ozd.Domain.{BlockKey, Body, ShardId, ok, err, io}
use ozd.Domain.Piece.{encode_piece_header, parse_piece_header}
use ozd.Erasure.{ReedSolomon, EcConfig, total, ec_encode, stripes_from, stripe_at, pieces_from}
use ozd.Placement.{Row}
use ozd.Pool.{Pool, PoolConfig, built, ranking_for, topology, topology_from, refreshed, rows_from}
use ozd.Pool.Read.{scan, others}
use ozd.Pool.Repair.{repair_key, repair_key_as, missing_ranks, looks_whole, repair_found}
use ozd.Pool.Read.{read_legs}
use ozd.Pool.Repair.{holders}
use ozd.Pool.Migrate.{
  MigrateOutcome, migrate_at, migrate_held, migrate_body, move_pieces, canary, delete_at, any_has,
}
use ozd.Pool.Migrate.Mirrors.{migrate_at-Untouched}
use ozd.Pool.Tests.Fleet.{Memory, memory}

abbrev two_and_one : EcConfig
two_and_one = record { data_pieces = 2; parity = 1; min_size = 2; write_quorum = 3 }

abbrev config : PoolConfig
config = record {
  replicas = 2;
  write_quorum = 2;
  free_space_cache_ttl = 5;
  ec = some two_and_one;
  outboard = none;
}

abbrev no_code : ReedSolomon
no_code = record { exists = λ k m. false; encode = λ k m ss. none; reconstruct = λ k m ss. none }

-- The ids of the rows, in their order.
abbrev by_number : BlockKey → List Row → ℕ → List ShardId
by_number key [] n = []
by_number key (row ∷ rows) n = row.0 ∷ by_number key rows n

abbrev key : BlockKey
key = 7 ∷ []

-- The first and the second half of a body of two bytes, as `ec_encode` makes them.
abbrev piece : ℕ → ℕ → Body
piece idx byte =
    encode_piece_header (record { k = 2; m = 1; piece_idx = idx; logical_len = 2 }) ++ byte ∷ []

abbrev disks : ℕ → Memory
disks i = if i == 2 then Memory.live [] else Memory.live ((key, piece i (i + 1), some 2) ∷ [])

abbrev fleet : Pool memory
fleet = built memory config disks 3

program : Unit {0}
unfolding ranking_for topology topology_from refreshed rows_from scan others repair_key
    repair_key_as missing_ranks looks_whole repair_found encode_piece_header parse_piece_header
    bytes_eq total
program = tt

-- the parity piece is lost, and the repair does nothing
lost_parity_unrepaired : (repair_key memory no_code by_number 1 2 key fleet).0 ≡ ok (0, 0)
unfolding program
lost_parity_unrepaired = refl

-- the two pieces that are left are pieces of the same block
pieces_left : (memory.get key (fleet.shards 0)) ≡ ok (piece 0 1)
unfolding program
pieces_left = refl

-- A mirror on disks 0 and 1, and disk 2 is dead.
abbrev mirror_disks : ℕ → Memory
mirror_disks i = if i == 2 then Memory.dead else Memory.live ((key, 1 ∷ 2 ∷ [], none) ∷ [])

abbrev mirror_fleet : Pool memory
mirror_fleet = built memory config mirror_disks 3

abbrev copy_code : ReedSolomon
copy_code = record {
  exists = λ k m. true;
  encode = λ k m ss. some ss;
  reconstruct = λ k m ss. none;
}

migrates : Unit {0}
unfolding program migrate_at migrate_held migrate_body move_pieces canary delete_at any_has holders
    read_legs ec_encode stripes_from stripe_at pieces_from
migrates = tt

dead_tail : (migrate_at memory copy_code key two_and_one (0 ∷ 1 ∷ 2 ∷ []) mirror_fleet).0 ≡ err io
unfolding migrates
dead_tail = refl

not_moved :
    (migrate_at memory copy_code key two_and_one (0 ∷ 1 ∷ 2 ∷ []) mirror_fleet).0
    ≢ ok MigrateOutcome.migrated
unfolding migrates
not_moved h = ground arith

not_pieces :
    (migrate_at memory copy_code key two_and_one (0 ∷ 1 ∷ 2 ∷ []) mirror_fleet).0
    ≢ ok MigrateOutcome.skipped_ec
unfolding migrates
not_pieces h = ground arith

migrate_at-Untouched_example :
    All
      (λ i.
        (migrate_at memory copy_code key two_and_one (0 ∷ 1 ∷ 2 ∷ []) mirror_fleet).1.shards i
        ≡ mirror_fleet.shards i)
      (take (min 2 (total two_and_one)) (take (total two_and_one) (0 ∷ 1 ∷ 2 ∷ [])))
unfolding migrates
migrate_at-Untouched_example =
    migrate_at-Untouched memory key copy_code two_and_one (0 ∷ 1 ∷ 2 ∷ []) mirror_fleet
      (omega arith) not_moved not_pieces
