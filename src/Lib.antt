-- ===== src/Lib.antt =====
-- A verification library of ozd, the OpenZFS daemon: a store of content-addressed blocks over a
-- pool of single disks, behind an S3 and an admin gateway.
--
-- The program. A block has a key and a body (crates/ozd-domain). A disk, a "shard", is an engine
-- (crates/ozd-engine): bodies go to append-only pack segments, addresses to an index, and after a
-- crash the tail of the active segment is scanned again. The pool (crates/ozd-app/src/pool.rs)
-- chooses disks by rendezvous hashing (placement.rs), cuts large bodies into Reed-Solomon pieces
-- (erasure.rs), asks the health machine of each disk whether it may be used (health.rs), times its
-- reads for the hedging threshold (latency.rs), and queues blocks for repair. A cache tier on a fast
-- disk (cache.rs) may stand in front of it.
--
-- The files, and what they model:
--   Prelude, Io: shared types, Boolean tests, lists and little-endian bytes; `std::io::Result`.
--   Domain, Domain/Piece: crates/ozd-domain/src/lib.rs and piece.rs, the types and the envelope of
--     a piece (`encode_piece_header`, `parse_piece_header`).
--   Segment, Segment/Scan: crates/ozd-engine/src/segment.rs, record headers, `seg.meta`, the
--     recovery loop of `SegmentWriter::open`, `scan_segment` and `read_record`.
--   Segment/Writer: `SegmentWriter` with appends, flushes, rotation and failover. The disk is two
--     directories of files and a list of outcomes, one for each operation: it succeeds, or it fails
--     after some of its bytes were written; an error keeps the state that was reached.
--   Index: the rows of the address table of crates/ozd-engine/src/lib.rs.
--   Tables: its tables and the transactions on them; a transaction commits or changes nothing.
--   Engine: `put_impl`, `get`, `delete` and `stat` of `DiskEngine`, over any pack segments that only
--     grow (`IsAppendOnly` in Engine/Reads); `get` takes the state at each of its two attempts.
--     Its children: Catalog (`list`, `scrub_step`, `set_obj_logical`, the cursors), Open (`open`
--     after `SegmentWriter::open`, `ensure_ballast`), Gc (`gc_once`,
--     `sweep_orphans`, and in Gc/Evict `evict_oldest_segment` and `verify_structure`) over the
--     segment files (`Files`, with what they promise in Gc/Rows), and Shard, which makes the engine a
--     `ShardEngine` of the pool. The rows of a table in the order of their keys, and the keys whose
--     lookup fails while a segment is scanned, are a parameter (`DbReads`); the reads of `get` do not
--     fail.
--   Cache: `CacheTier` of crates/ozd-app/src/cache.rs over any block store and any fast disk.
--     Evict is its eviction loop, Coherent and Calls relate its answers to those of the store;
--     Flights is `get` with its slots for reads that are under way, as steps of the calls.
--   Health: `HealthFsm` of crates/ozd-app/src/health.rs.
--   HealQueue: `HealQueue` of crates/ozd-app/src/pool.rs; the binary heap is a list from which the
--     first item of the order is taken.
--   Placement: `RendezvousHrw::select` of crates/ozd-app/src/placement.rs.
--   Erasure: `ec_encode`, `ec_decode` and `ec_repair_pieces` of crates/ozd-app/src/erasure.rs.
--   Latency: `RollingP99` of crates/ozd-app/src/latency.rs.
--   DiskSlow: `DiskSlowMonitor` of crates/ozd-app/src/diskslow.rs; the product with the relative
--     factor, a floating-point number, is a parameter.
--   Shards: the trait `ShardEngine` of crates/ozd-domain/src/lib.rs as a record of operations, and
--     what an engine promises of its keys (`IsShardOn`, for all keys `IsShard`); a fleet is a function from the numbers of
--     its shards.
--   Pool: crates/ozd-app/src/pool.rs over any shard engine: `Pool`, its topology with the cache, and
--     the settings from outside. Its children: Write (`put`, `put_body`, `put_ec`, hinted handoff),
--     Read (`get`, `get_ec_aware`, `gather_ec`), Catalog (`stat`, `has`, `delete`, `list`,
--     `flush_all`), Repair (`repair_key` for mirrors and erasure sets), Walk (`resilver_step`,
--     `resilver_full`, `scrub_shard_step`), Drain (`mrf_drain`), Migrate (`migrate_key`,
--     `migrate_step`, `migrate_full`). Policy fills the interface of the placement policy by
--     `RendezvousHrw::select`; Durable relates a get to a put before it.
--   Car: the varints and the identifiers of crates/ozd-app/src/car.rs; Car/Import the keys of blocks
--     (`base32_nopad`) and `car_import`, with one worker, which puts the blocks in their order;
--     Car/Export `car_export`, to a writer that takes every byte.
-- A component's children hold its theorems and, in Tests, concrete runs.
--
-- Numbers are natural numbers; casts to `u8`, `u16`, `u32` and `u64` are written as remainders, and
-- sums that wrap in a release build wrap here, except the sequence number of the heal queue, a
-- `u64` that counts its pushes. crc32, xxh3, the floating-point score, zstd and the Reed-Solomon
-- code are parameters; what is relied on is stated as a hypothesis next to its use (`IsCode` in
-- Erasure/Decode, `IsLossless` in Engine/Roundtrip).
--
-- Time and threads in the pool. The time of each look at the topology is an argument, or the value
-- of a clock. Threads that write or read the replicas of one block answer in an order that is an
-- argument (`arrive`, `answers`); a hedged read takes which of its two legs answers first (`Race`).
-- The workers that drain the heal queue are a sequence of events, each of which claims a request,
-- adds to or subtracts from the count of one disk, or is a whole repair; two operations on one pool
-- do not otherwise run at the same time. A read of a shard changes nothing. In the cache tier the
-- calls of `get` interleave in any order (Cache/Flights): a call enters under the lock of the map,
-- a leader reads and writes its slot in one step, wakes the sleepers in another and leaves the map
-- in a third; a follower sleeps on an empty slot and returns when it finds it full. A pass of the
-- garbage collection is not interrupted by other calls. A leader does not panic: in the program a
-- panic of it leaves the waiting calls asleep. Latency samples, metrics and the background throttle
-- are left out.
--
-- Fuel: the recovery loop and the segment scan take at least a header of 20 bytes in each round, so
-- the length of the file is enough; a pop of the heal queue takes an item in each round, so the size
-- of the heap is enough; the highest bit of a `u64` is found in 64 halvings, and a varint
-- of a `u64` has ten groups. Each pass of the eviction loop of the cache frees a byte at least, so the
-- bytes that are counted are enough. Each frame of an import takes a byte at least, so the length of
-- the stream and one round more are enough. An export takes the number of its pages as fuel, and has
-- no result without enough of it. `resilver_full` and `migrate_full` take the number of their batches as
-- fuel, and have no result without enough of it: that their passes end is not shown.
--
-- Not modelled: threads beyond those of the pool above, the races of relaxed atomics (each call is
-- one step), the bytes of the ballast file, the two directories of the sealed segments,
-- page cache advice, log messages and metrics, the network gateways, and the ZFS command line.
pub mod Cache
pub mod Car
pub mod DiskSlow
pub mod Domain
pub mod Engine
pub mod Erasure
pub mod HealQueue
pub mod Health
pub mod Index
pub mod Io
pub mod Latency
pub mod Placement
pub mod Pool
pub mod Prelude
pub mod Segment
pub mod Shards
pub mod Tables
