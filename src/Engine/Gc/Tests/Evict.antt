-- ===== src/Engine/Gc/Tests/Evict.antt =====
-- Evictions, the structural check and listings of crates/ozd-engine/src/lib.rs on the same two segments.
use ozd.Prelude.{
  ℕ, List, [], ◌∷◌, true, false, none, some, ◌≡◌, ◌⊎◌, refl, arith, bytes_eq, from_le,
}
use mathlib.Core.List.{Memᴰ}
use ozd.Io.{ok, err}
use ozd.Domain.{io, ok, err, not_found, key_lt}
use ozd.Segment.Scan.{RecoveredRecord}
use ozd.Index.{AddrEntry, encode_addr, decode_addr}
use ozd.Tables.{lookup, insert, addressed}
use ozd.Engine.{get, get_between, unpack, read_answer}
use ozd.Engine.Tests.{plain, plain-IsLossless, config, other_cid}
use ozd.Engine.Gc.{
  read_row, same_place, choose_victim, referenced_segments, contains_key, alive, cas, clear_discard,
}
use ozd.Shards.{ShardEngine, IsShardOn}
use ozd.Engine.Shard.{disk_engine, IsShort, IsWritable, disk_engine-IsShard}
use ozd.Engine.Catalog
use ozd.Engine.Catalog.{
  from_key, starts_with, scan_addr, scan_inline, sort, dedup, insert_sorted, dedup_after,
}
use ozd.Engine.Gc.Evict.{
  StructureReport, evict_oldest_segment, oldest, victims, drop_rows, evict_rows, verify_structure,
  count_missing, ids_on_disk, insert_id, contains_id, orphans,
}
use ozd.Engine.Gc.Evict.Missed.{get-evict}
use ozd.Engine.Gc.Evict.Structure.{verify_structure_complete}
use ozd.Engine.Gc.Collect.{gc_once}
use ozd.Engine.Gc.Tests.{
  second_body, packs, record_in, sealed_if, scanning, both, entry, before, rows, failing_rows, Any,
  packs-IsAppendOnly, packs-IsFiles, other_row, second_readable,
}

-- The eviction drops both rows and removes the file.
evictions : Unit {0}
unfolding lookup insert encode_addr decode_addr from_le bytes_eq get_between unpack read_answer
    gc_once choose_victim referenced_segments contains_key alive read_row cas clear_discard
    evict_oldest_segment oldest victims drop_rows evict_rows verify_structure count_missing
    ids_on_disk insert_id contains_id orphans
evictions = tt

evicts : (evict_oldest_segment packs plain config (scanning both) rows before).0 ≡ ok (100, 2)
unfolding evictions
evicts = refl

evicted_missing :
    get packs plain config other_cid
      (evict_oldest_segment packs plain config (scanning both) rows before).1
    ≡ err not_found
unfolding evictions
evicted_missing = refl

-- The row of a key whose lookup fails stays, and its file goes.
evicted_unread :
    get packs plain config other_cid
      (evict_oldest_segment packs plain config (scanning both) failing_rows before).1
    ≡ err io
unfolding evictions
evicted_unread = refl

second_found :
    (id size : ℕ) (rs : List RecoveredRecord)
    → Memᴰ (id, size) (sealed_if true)
    → (scanning both).scan before.store id ≡ ok rs
    → (e : AddrEntry) → lookup other_cid before.db.index ≡ ok (addressed e)
    → e.addr.seg_id ≡ id
    → (r : RecoveredRecord) × Memᴰ r rs × (r.key ≡ other_cid) × (same_place e.addr r.addr ≡ true)
second_found id size rs m h e row at_id =
    let scanned : both id ≡ rs = grind arith in
    rw (← scanned, ← at_id, ← other_row e row)
      (record_in 1 other_cid 1 second_body, Memᴰ.tail (Memᴰ.head refl), refl, refl)

get-evict_example :
    (get packs plain config other_cid
        (evict_oldest_segment packs plain config (scanning both) rows before).1
      ≡ ok second_body)
    ⊎ (get packs plain config other_cid
          (evict_oldest_segment packs plain config (scanning both) rows before).1
        ≡ err not_found)
get-evict_example =
    get-evict packs plain config (scanning both) rows packs-IsFiles.removed other_cid second_body
      refl before second_readable second_found

abbrev healthy : StructureReport
healthy = record {
  segments_referenced = 1;
  segments_missing = [];
  keys_at_risk = 0;
  orphan_segments = [];
}

checks : verify_structure packs plain config (scanning both) rows before ≡ ok healthy
unfolding evictions
checks = refl

entry_row : decode_addr (encode_addr (entry 1)) ≡ some (entry 1)
unfolding evictions
entry_row = refl

other_listed : Memᴰ (other_cid, encode_addr (entry 1)) (rows.iter before.db.index.addr)
unfolding evictions
other_listed = Memᴰ.tail (Memᴰ.head refl)

verify_structure_complete_example :
    ((entry 1).addr.seg_id ≡ 9) ⊎ ((size : ℕ) × Memᴰ ((entry 1).addr.seg_id, size) (sealed_if true))
verify_structure_complete_example =
    verify_structure_complete packs plain config (scanning both) rows before healthy other_cid
      (encode_addr (entry 1)) (entry 1) checks refl other_listed entry_row

-- A segment whose file is gone is reported with the number of its keys.
lost_reported :
    verify_structure packs plain config
      (scanning both)
      rows
      (record before { store = record before.store { has_one = false } })
    ≡ ok (record healthy { segments_missing = 1 ∷ []; keys_at_risk = 2 })
unfolding evictions
lost_reported = refl

-- A listing of the keys with a prefix, from a key on that is smaller than the prefix: the first row
-- from there on lacks the prefix, and the listing is empty although a key has it.
listings : Unit {0}
unfolding evictions Catalog.list from_key starts_with scan_addr scan_inline sort dedup insert_sorted
    dedup_after key_lt
listings = tt

prefix_listed :
    Catalog.list packs plain config rows.iter other_cid none 10 before ≡ ok ((other_cid, 3) ∷ [])
unfolding listings
prefix_listed = refl

prefix_missed :
    Catalog.list packs plain config rows.iter other_cid (some (1 ∷ [])) 10 before ≡ ok []
unfolding listings
prefix_missed = refl

abbrev whole_disk : ShardEngine
whole_disk = disk_engine packs plain config (scanning both) rows (λ s. some 4096) (λ s. some 1024)

disk_engine-IsShard_example : IsShardOn IsShort whole_disk (
    IsWritable packs plain config
      (scanning both)
      rows
      (λ s. some 4096)
      (λ s. some 1024)
      Any
      packs-IsAppendOnly
      plain-IsLossless)
disk_engine-IsShard_example =
    disk_engine-IsShard packs plain config (scanning both) rows (λ s. some 4096) (λ s. some 1024)
      Any packs-IsAppendOnly plain-IsLossless
