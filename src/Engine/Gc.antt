-- ===== src/Engine/Gc.antt =====
-- The garbage collection of crates/ozd-engine/src/lib.rs: `gc_once`, the sweep of orphans, the
-- eviction of the oldest segment and the check of the structure.
pub mod Collect
pub mod Rows
pub mod Moved
pub mod References
pub mod Parts
pub mod Kept
pub mod Evict
mod Tests
use ozd.Prelude.{
  ℕ, suc, ◌+◌, ◌-◌, ◌%◌, ◌^◌, List, [], ◌∷◌, ◌++◌, Bool, true, false, not, ◌&&◌, Option, none, some,
  ltb, ◌==◌, if◌then◌else◌,
}
use ozd.Io.{IoResult, ok, err, other}
use ozd.Domain.{BlockKey, Body, DomainResult, ok, err, io}
use ozd.Segment.{Record, RecordAddr}
use ozd.Segment.Scan.{RecoveredRecord}
use ozd.Index.{AddrEntry, encode_addr, decode_addr}
use ozd.Tables.{
  Table, Index, Db, transaction, Lookup, inlined, addressed, missing, lookup, insert, remove,
  bump_in, unwrap_or,
}
use ozd.Engine.{Segments, Zstd, EngineConfig, Engine}

-- The segment files beside the active one: their numbers and sizes, the records that
-- `scan_segment` hands to its callback, `SegmentWriter::flush`, the removal of a file, and
-- the number and the length of the active segment.
pub record Files (segments : Segments) : Type 0 where
  pub sealed_segments : segments.Store → List (ℕ × ℕ)
  pub scan : segments.Store → ℕ → IoResult (List RecoveredRecord)
  pub flush : segments.Store → IoResult (Unit {0}) × segments.Store
  pub remove_file : ℕ → segments.Store → IoResult (Unit {0}) × segments.Store
  pub active_segment : segments.Store → ℕ
  pub active_len : segments.Store → ℕ

pub record GcReport : Type 0 where
  pub victim_seg : Option ℕ
  pub live_moved : ℕ
  pub reclaimed_bytes : ℕ
  pub orphans_removed : ℕ
  pub orphan_bytes : ℕ

abbrev pub empty_report : GcReport
empty_report = record {
  victim_seg = none;
  live_moved = 0;
  reclaimed_bytes = 0;
  orphans_removed = 0;
  orphan_bytes = 0;
}

-- The sealed segment with the most discarded bytes, the first of them in the order of the list.
abbrev pub more_discarded : ℕ × ℕ → ℕ → Option (ℕ × ℕ × ℕ) → Option (ℕ × ℕ × ℕ)
more_discarded (id, size) d none = if d == 0 then none else some (id, size, d)
more_discarded (id, size) d (some (vid, vsize, vd)) =
    if d == 0
    then some (vid, vsize, vd)
    else if ltb vd d
    then some (id, size, d)
    else some (vid, vsize, vd)

unfoldable pub choose_victim :
    (ℕ → Option ℕ) → List (ℕ × ℕ) → Option (ℕ × ℕ × ℕ) → Option (ℕ × ℕ × ℕ)
choose_victim discard [] victim = victim
choose_victim discard ((id, size) ∷ rest) victim =
    choose_victim discard rest (more_discarded (id, size) (unwrap_or (discard id) 0) victim)

-- The map of `referenced_segments`: how many rows point to each segment, by ascending number.
unfoldable pub count_ref : ℕ → List (ℕ × ℕ) → List (ℕ × ℕ)
count_ref id [] = (id, 1) ∷ []
count_ref id ((j, n) ∷ refs) =
    let rest = count_ref id refs in
    if id == j
    then (j, n + 1) ∷ refs
    else if ltb id j
    then (id, 1) ∷ (j, n) ∷ refs
    else (j, n) ∷ rest

abbrev pub count_row : Option AddrEntry → List (ℕ × ℕ) → List (ℕ × ℕ)
count_row none refs = refs
count_row (some e) refs = count_ref e.addr.seg_id refs

unfoldable pub referenced_segments : List (BlockKey × List ℕ) → List (ℕ × ℕ) → List (ℕ × ℕ)
unfolding count_ref
referenced_segments [] refs = refs
referenced_segments ((k, v) ∷ rows) refs = referenced_segments rows (count_row (decode_addr v) refs)

unfoldable pub contains_key : ℕ → List (ℕ × ℕ) → Bool
contains_key id [] = false
contains_key id ((j, n) ∷ refs) = if id == j then true else contains_key id refs

-- Whether a row points to the record: the same segment and offset.
abbrev pub same_place : RecordAddr → RecordAddr → Bool
same_place a b = a.seg_id == b.seg_id && a.offset == b.offset

-- What the reads of the database give besides the rows of the index: the order in which a table is
-- iterated over, and the keys whose lookup ends in an error of the database.
pub record DbReads : Type 0 where
  pub iter : Table → List (BlockKey × List ℕ)
  pub fails : BlockKey → Bool

-- The lookup of a key while a segment is scanned.
unfoldable pub read_row : DbReads → BlockKey → Index → DomainResult Lookup
unfolding lookup
read_row reads key ix = if reads.fails key then err io else lookup key ix

unfoldable pub alive : RecordAddr → DomainResult Lookup → Bool
alive old (ok (addressed e)) = same_place e.addr old
alive old (ok (inlined v)) = false
alive old (ok missing) = false
alive old (err x) = false

-- The row of the record's copy.
abbrev pub copy_entry : RecoveredRecord → RecordAddr → ℕ → AddrEntry → AddrEntry
copy_entry r addr crc e = record {
  addr = addr;
  crc = crc;
  logical_len = r.logical_len;
  flags = r.flags;
  obj_logical = e.obj_logical;
}

abbrev pub row_at : Option (List ℕ) → Option AddrEntry
row_at none = none
row_at (some v) = decode_addr v

abbrev pub still_there : RecordAddr → Option AddrEntry → Bool
still_there old none = false
still_there old (some e) = same_place e.addr old

abbrev pub swap_row : RecoveredRecord → RecordAddr → ℕ → Option AddrEntry → Index → Index
swap_row r addr crc none ix = ix
swap_row r addr crc (some e) ix =
    if same_place e.addr r.addr
    then record ix { addr = insert r.key (encode_addr (copy_entry r addr crc e)) ix.addr }
    else ix

-- The row is replaced only if it still points to the record that was moved.
unfoldable pub cas : RecoveredRecord → RecordAddr → ℕ → Index → Index
unfolding insert
cas r addr crc ix = swap_row r addr crc (row_at (ix.addr r.key)) ix

unfoldable pub clear_discard : ℕ → Index → Index
clear_discard id ix = record ix { discard = λ j. if id == j then none else ix.discard j }

unfoldable pub clear_discards : List ℕ → Index → Index
unfolding clear_discard
clear_discards [] ix = ix
clear_discards (id ∷ ids) ix = clear_discards ids (clear_discard id ix)

unfoldable pub bump_all : List (ℕ × ℕ) → Index → Index
unfolding bump_in
bump_all [] ix = ix
bump_all ((seg, bytes) ∷ rest) ix =
    bump_all rest (record ix { discard = bump_in seg bytes ix.discard })

-- What the scan of the victim counts.
pub record Moving : Type 0 where
  pub moved : ℕ
  pub orphaned : List (ℕ × ℕ)

abbrev pub count_move : Bool → RecordAddr → Moving → Moving
count_move true addr m = record m { moved = m.moved + 1 }
count_move false addr m = record m { orphaned = m.orphaned ++ (addr.seg_id, addr.stored_len) ∷ [] }

abbrev pub as_record : RecoveredRecord → Record
as_record r = record {
  key = r.key;
  stored = r.stored;
  logical_len = r.logical_len;
  flags = r.flags;
}
