-- ===== src/Engine/Gc/Tests.antt =====
-- The garbage collection of crates/ozd-engine/src/lib.rs on a sealed segment and an active one.
mod Evict
use ozd.Prelude.{
  ℕ, ◌^◌, ◌<◌, List, [], ◌∷◌, ◌++◌, Bool, true, false, Option, none, some, ◌≡◌, ◌⊎◌, refl, ◌∙◌, ap,
  arith, ltb, ◌==◌, length, get_elem?, bytes_eq, from_le, if◌then◌else◌, Bool-cases, inl, inr,
}
use mathlib.Core.List.{Memᴰ}
use ozd.Io.{IoResult, ok, err, enospc, other}
use ozd.Domain.{BlockKey, Body, ok, err, io, not_found, key_lt}
use ozd.Segment.{Record, RecordAddr}
use ozd.Segment.Scan.{RecoveredRecord}
use ozd.Segment.Recovery.{FitsRecord}
use ozd.Index.{AddrEntry, encode_addr, decode_addr}
use ozd.Index.Roundtrip.{FitsAddr}
use ozd.Tables.{Table, lookup, insert, addressed}
use ozd.Engine.{Segments, Engine, get, get_between, unpack, read_answer}
use ozd.Engine.Reads.{IsAppendOnly}
use ozd.Engine.Tests.{
  read_at, get_elem-append, get_elem-last, plain, plain-IsLossless, config, cid, other_cid,
}
use ozd.Engine.Gc.{
  DbReads, read_row, as_record, Files, same_place, choose_victim, referenced_segments, contains_key,
  alive, cas, clear_discard,
}
use ozd.Shards.{ShardEngine, IsShard}
use ozd.Engine.Shard.{disk_engine, disk_engine-IsShard}
use ozd.Engine.Catalog.{
  from_key, starts_with, scan_addr, scan_inline, sort, dedup, insert_sorted, dedup_after,
}
use ozd.Engine.Gc.Evict.{
  StructureReport, evict_oldest_segment, oldest, victims, drop_rows, evict_rows, verify_structure,
  count_missing, ids_on_disk, insert_id, contains_id, orphans,
}
use ozd.Engine.Gc.Evict.Missed.{get-evict}
use ozd.Engine.Gc.Evict.Structure.{verify_structure_complete}
use ozd.Engine.Gc.Collect.{gc_once}
use ozd.Engine.Gc.Rows.{IsFiles, Scanned, Finds, here, there}
use ozd.Engine.Gc.Kept.{get-gc_once}

-- Segment 1 is sealed and holds two bodies until it is removed; segment 9 is active.
pub record Packs : Type 0 where
  pub active : List Body
  pub has_one : Bool

abbrev pub first_body : Body
first_body = 7 ∷ 8 ∷ 9 ∷ []

abbrev pub second_body : Body
second_body = 4 ∷ 5 ∷ 6 ∷ []

abbrev pub address : ℕ → ℕ → RecordAddr
address seg_id offset = record { seg_id = seg_id; offset = offset; stored_len = 3; key_len = 2 }

abbrev pub read_one : Bool → ℕ → IoResult Body
read_one true offset = read_at (get_elem? (first_body ∷ second_body ∷ []) offset)
read_one false offset = err other

abbrev pub packs : Segments
packs = record {
  Store = Packs;
  append = λ r s.
      if ltb (length s.active) 1000
      then (ok (address 9 (length s.active), 0), record s { active = s.active ++ r.stored ∷ [] })
      else (err enospc, s);
  read = λ s a crc.
      if a.seg_id == 1 then read_one s.has_one a.offset else read_at (get_elem? s.active a.offset);
}

abbrev pub record_in : ℕ → BlockKey → ℕ → Body → RecoveredRecord
record_in id key offset body = record {
  key = key;
  addr = address id offset;
  crc = 0;
  flags = 0;
  logical_len = 3;
  stored = body;
}

abbrev pub sealed_if : Bool → List (ℕ × ℕ)
sealed_if true = (1, 100) ∷ []
sealed_if false = []

-- What the scan of the segment comes to is given: a scan stops at a damaged record.
abbrev pub scanning : (ℕ → List RecoveredRecord) → Files packs
scanning records = record {
  sealed_segments = λ s. sealed_if s.has_one;
  scan = λ s id. ok (records id);
  flush = λ s. (ok tt, s);
  active_segment = λ s. 9;
  active_len = λ s. length s.active;
  remove_file = λ id s. (ok tt, if id == 1 then record s { has_one = false } else s);
}

abbrev pub both : ℕ → List RecoveredRecord
both id = record_in id cid 0 first_body ∷ record_in id other_cid 1 second_body ∷ []

abbrev pub entry : ℕ → AddrEntry
entry offset = record {
  addr = address 1 offset;
  crc = 0;
  logical_len = 3;
  flags = 0;
  obj_logical = none;
}

abbrev pub table : Table
table key =
    if bytes_eq cid key
    then some (encode_addr (entry 0))
    else if bytes_eq other_cid key
    then some (encode_addr (entry 1))
    else none

abbrev pub before : Engine packs plain config
before = record {
  store = record { active = []; has_one = true };
  db = record {
    index = record {
      addr = table;
      inline = λ k. none;
      discard = λ id. if id == 1 then some 60 else none;
      cursor = λ k. none;
    };
    commits = [];
  };
  ballast_file = false;
  ballast_present = false;
  used_bytes = 0;
}

abbrev pub row_of : BlockKey → Option (List ℕ) → List (BlockKey × List ℕ)
row_of key none = []
row_of key (some v) = (key, v) ∷ []

-- The rows are iterated over in this order, and the lookups of these keys fail.
abbrev pub reading : (BlockKey → Bool) → DbReads
reading fails = record {
  iter = λ t. row_of cid (t cid) ++ row_of other_cid (t other_cid);
  fails = fails;
}

abbrev pub rows : DbReads
rows = reading (λ k. false)

collected : Unit {0}
unfolding lookup insert encode_addr decode_addr from_le bytes_eq get_between unpack read_answer
    gc_once choose_victim referenced_segments contains_key alive read_row cas clear_discard
collected = tt

abbrev pub after : (ℕ → List RecoveredRecord) → Engine packs plain config
after records = (gc_once packs plain config (scanning records) rows (λ d s. false) 0 before).1

-- Both records are moved, the file is removed, and both bodies are read.
moves :
    (gc_once packs plain config (scanning both) rows (λ d s. false) 0 before).0
    ≡ ok (record {
      victim_seg = some 1;
      live_moved = 2;
      reclaimed_bytes = 100;
      orphans_removed = 0;
      orphan_bytes = 0;
    })
unfolding collected
moves = refl

first_kept : get packs plain config cid (after both) ≡ ok first_body
unfolding collected
first_kept = refl

second_kept : get packs plain config other_cid (after both) ≡ ok second_body
unfolding collected
second_kept = refl

-- The scan stops at a damaged first record, and the file is removed all the same: the undamaged
-- second body, which was readable before, is lost.
pub second_readable : get packs plain config other_cid before ≡ ok second_body
unfolding collected
second_readable = refl

second_lost : get packs plain config other_cid (after (λ id. [])) ≡ err io
unfolding collected
second_lost = refl

-- A database whose lookup of the second key fails while the segment is scanned.
abbrev pub failing_rows : DbReads
failing_rows = reading (λ k. bytes_eq k other_cid)

-- The second record counts as dead, the pass reports success, and its body is lost.
second_taken_for_dead :
    get packs plain config other_cid
      (gc_once packs plain config (scanning both) failing_rows (λ d s. false) 0 before).1
    ≡ err io
unfolding collected
second_taken_for_dead = refl

abbrev pub Any : Packs → Type 0
Any s = Unit {0}

packs-kept :
    (r : Record) (s : Packs) (a : RecordAddr) (crc : ℕ) (stored : Body)
    → packs.read s a crc ≡ ok stored
    → packs.read (packs.append r s).1 a crc ≡ ok stored
packs-kept r s a crc stored h = elim (Bool-cases (ltb (length s.active) 1000)) [
  | inr full ↦ rw full h
  | inl room ↦ elim (Bool-cases (a.seg_id == 1)) [
    | inl one ↦ rw (room, one) (rw one at h)
    | inr more ↦
        rw (room, more) (get_elem-append s.active (r.stored ∷ []) a.offset stored (rw more at h))
  ]
]

-- Where an append of the active segment stands.
packs-append :
    (r : Record) (s : Packs) (a : RecordAddr) (crc : ℕ)
    → (packs.append r s).0 ≡ ok (a, crc)
    → (address 9 (length s.active) ≡ a) × (0 ≡ crc) × (ltb (length s.active) 1000 ≡ true)
packs-append r s a crc h = elim (Bool-cases (ltb (length s.active) 1000)) [
  | inr full ↦ absurd (let failed = rw full at h in ground arith)
  | inl room ↦ let done = rw room at h in (cc, cc, room)
]

packs-appended :
    (r : Record) (s : Packs) (a : RecordAddr) (crc : ℕ)
    → FitsRecord r
    → Any s
    → (packs.append r s).0 ≡ ok (a, crc)
    → (packs.read (packs.append r s).1 a crc ≡ ok r.stored) × FitsAddr a × (crc < 256 ^ 4)
packs-appended r s a crc fits any h =
    let (at, no_crc, room) = packs-append r s a crc h in
    rw (← at, ← no_crc, room)
      (get_elem-last s.active r.stored, address-Fits (length s.active) (ground arith), omega arith)
  where
    address-Fits : (n : ℕ) → n < 1000 → FitsAddr (address 9 n)
    address-Fits n h = record {
      seg_id = omega arith;
      offset = omega arith;
      stored_len = omega arith;
      key_len = omega arith;
    }

pub packs-IsAppendOnly : IsAppendOnly packs Any
packs-IsAppendOnly = record { kept = packs-kept; appended = packs-appended }

not_nine : (has_one : Bool) (id size : ℕ) → Memᴰ (id, size) (sealed_if has_one) → 9 ≡ id → ⊥
not_nine true id size (Memᴰ.head same) nine = let one = ap (λ p. p.0) same in omega arith
not_nine true id size (Memᴰ.tail rest) nine = elim rest [ ]
not_nine false id size m nine = elim m [ ]

record_in-Fits :
    (id : ℕ) (key : BlockKey) (offset : ℕ) (body : Body)
    → length key < 2 ^ 16
    → length body < 2 ^ 32
    → FitsRecord (as_record (record_in id key offset body))
record_in-Fits id key offset body short fits = record {
  key = short;
  stored = fits;
  logical_len = omega arith;
  flags = omega arith;
}

pub packs-IsFiles : IsFiles packs (scanning both) Any
packs-IsFiles = record {
  whole = λ r s x any h. tt;
  sealed = λ r s x m. elim (Bool-cases (ltb (length s.active) 1000)) [
    | inl room ↦ rw room m
    | inr full ↦ rw full m
  ];
  active = λ r s id size crc a m h at_id.
      not_nine s.has_one id size m (ap (λ a. a.seg_id) (packs-append r s a crc h).0 ∙ at_id);
  scanned = λ s id rs h.
      let e : both id ≡ rs = grind arith in
      rw (← e) (
        (refl, record_in-Fits id cid 0 first_body (omega arith) (omega arith)),
        ((refl, record_in-Fits id other_cid 1 second_body (omega arith) (omega arith)), tt),
      );
  flushed = λ s a crc stored h. h;
  removed = λ s id a crc stored away h. elim (Bool-cases (id == 1)) [
    | inr not_one ↦ rw not_one h
    | inl one ↦ let kept : (a.seg_id == 1) ≡ false = ground arith in rw (one, kept) (rw kept at h)
  ];
}

rows_listed : (t : Table) (v : List ℕ) → t other_cid ≡ some v → Memᴰ (other_cid, v) (rows.iter t)
rows_listed t v h = go (t cid)
  where
    go :
        (o : Option (List ℕ)) → Memᴰ (other_cid, v) (row_of cid o ++ row_of other_cid (t other_cid))
    go none = rw h (Memᴰ.head refl)
    go (some w) = rw h (Memᴰ.tail (Memᴰ.head refl))

pub other_row : (e : AddrEntry) → lookup other_cid before.db.index ≡ ok (addressed e) → entry 1 ≡ e
unfolding collected
other_row e h = cc

second_Finds :
    (e : AddrEntry)
    → entry 1 ≡ e
    → Finds packs plain config
        (scanning both)
        rows
        Any
        packs-IsAppendOnly
        packs-IsFiles
        other_cid
        second_body
        e
        (both e.addr.seg_id)
unfolding collected
second_Finds e same = rw (← same) (
    there (record_in 1 cid 0 first_body) _ refl (
      here (record_in 1 other_cid 1 second_body) [] refl (record {
        unpacked = λ a crc. refl;
        logical_len = omega arith;
        flags = omega arith;
        obj = tt;
      })))

second_scanned :
    (id size : ℕ) (rs : List RecoveredRecord)
    → Memᴰ (id, size) (sealed_if true)
    → (scanning both).scan before.store id ≡ ok rs
    → Scanned packs plain config
        (scanning both)
        rows
        Any
        packs-IsAppendOnly
        packs-IsFiles
        other_cid
        second_body
        id
        rs
        (lookup other_cid before.db.index)
second_scanned id size rs m h e row at_id =
    let scanned : both id ≡ rs = grind arith in
    rw (← scanned, ← at_id) (second_Finds e (other_row e row))

get-gc_once_example :
    get packs plain config other_cid
      (gc_once packs plain config (scanning both) rows (λ d s. false) 0 before).1
    ≡ ok second_body
get-gc_once_example =
    get-gc_once packs plain config (scanning both) rows Any packs-IsAppendOnly packs-IsFiles
      other_cid second_body refl rows_listed (λ d s. false) 0 before tt second_scanned
      second_readable
