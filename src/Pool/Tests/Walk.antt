-- ===== src/Pool/Tests/Walk.antt =====
-- A run of `resilver_full` of crates/ozd-app/src/pool.rs, over disks that list keys by their first
-- byte.
use ozd.Prelude.{
  ℕ, ◌+◌, List, [], ◌∷◌, Bool, true, false, ◌&&◌, Option, none, some, ◌≡◌, refl, ltb, get_or,
  if◌then◌else◌, bytes_eq,
}
use ozd.Domain.{BlockKey, ShardId, DomainResult, ok}
use ozd.Erasure.{ReedSolomon}
use ozd.Placement.{Row}
use ozd.Shards.{ShardEngine, update}
use ozd.Pool.{Pool, PoolConfig, built, replicas_for, topology, topology_from, refreshed, rows_from}
use ozd.Pool.Catalog.{or_insert, merge_rows, list_from, list, flush_from, flush_all}
use ozd.Domain.{key_lt}
use ozd.Pool.Read.{read_legs, others, scan}
use ozd.Pool.Repair.{
  repair_key, repair_key_as, repair_key_mirror, repair_desired, repair_missing, lacking, holders,
  read_for_repair, fill, copy_to,
}
use ozd.Pool.Walk.{repair_all, resilver_batch, resilver_step, resilver_loop, flushed, resilver_full}
use ozd.Pool.Tests.Fleet.{Memory, MemoryRow, memory}

abbrev first_byte : BlockKey → ℕ
first_byte k = get_or k 0 0

abbrev to_list : Option BlockKey → BlockKey → Bool
to_list none k = ltb (first_byte k) 256
to_list (some a) k = ltb (first_byte k) 256 && ltb (first_byte a) (first_byte k)

abbrev listing : Option BlockKey → List MemoryRow → List (BlockKey × ℕ)
listing after [] = []
listing after ((k, b, o) ∷ rows) =
    let rest = listing after rows in if to_list after k then (k, 1) ∷ rest else rest

abbrev memory_list : Option BlockKey → Memory → DomainResult (List (BlockKey × ℕ))
memory_list after (Memory.live rows) = ok (listing after rows)
memory_list after Memory.dead = ok []

abbrev disk : ShardEngine
disk = record memory { list = λ prefix after limit s. memory_list after s }

abbrev config : PoolConfig
config = record {
  replicas = 2;
  write_quorum = 2;
  free_space_cache_ttl = 5;
  ec = none;
  outboard = none;
}

abbrev no_code : ReedSolomon
no_code = record { exists = λ k m. false; encode = λ k m ss. none; reconstruct = λ k m ss. none }

-- The ids of the first n rows.
abbrev by_number : BlockKey → List Row → ℕ → List ShardId
by_number key [] n = []
by_number key (row ∷ rows) n = if ltb row.0 n then row.0 ∷ by_number key rows n else []

-- Disk 0 has two blocks, disk 1 is new.
abbrev disks : ℕ → Memory
disks =
    update (λ i. Memory.live []) 0
      (Memory.live ((7 ∷ [], 1 ∷ [], none) ∷ (9 ∷ [], 2 ∷ [], none) ∷ []))

abbrev fleet : Pool disk
fleet = built disk config disks 3

abbrev clock : ℕ → ℕ → ℕ
clock i j = i + j

program : Unit {0}
unfolding replicas_for topology topology_from refreshed rows_from key_lt or_insert merge_rows
    list_from list flush_from flush_all read_legs others scan repair_key repair_key_as
    repair_key_mirror repair_desired repair_missing lacking holders read_for_repair fill copy_to
    repair_all resilver_batch resilver_step resilver_loop flushed resilver_full bytes_eq
program = tt

-- both blocks are copied, in three batches of one
two_copied :
    (resilver_full disk no_code by_number 9 clock 1 fleet).0
    ≡ some (ok (record { scanned = 2; repaired = 2; errors = 0; last_key = none; done = true }))
unfolding program
two_copied = refl
