-- ===== src/Engine/Tests.antt =====
-- Tests of the engine of crates/ozd-engine/src/lib.rs over segments that are a list of records.
use ozd.Prelude.{
  ℕ, zero, suc, ◌%◌, ◌^◌, ◌<◌, List, [], ◌∷◌, ◌++◌, Bool, true, false, Option, none, some, ◌≡◌,
  refl, arith, length, get_elem?, bytes_eq, if◌then◌else◌, from_le,
}
use ozd.Io.{IoResult, ok, err, unexpected_eof}
use ozd.Domain.{BlockKey, Body, ok, err, io, not_found}
use ozd.Segment.{Record, RecordAddr}
use ozd.Index.{encode_addr, decode_addr}
use ozd.Index.Roundtrip.{FitsAddr, FitsEntry}
use ozd.Tables.{
  lookup, put_inline, put_addr, delete_rows, insert, remove, bump_in, discard_old, stat, has,
}
use ozd.Engine.{
  Segments, Zstd, EngineConfig, Engine, get, get_between, put_impl, delete, append_retried,
  index_record, release_ballast_file, record_of, pack, unpack, read_answer,
}
use ozd.Segment.Scan.{RecoveredRecord}
use ozd.Segment.Recovery.{FitsRecord}
use ozd.Domain.Piece.{parse_piece_header}
use ozd.Engine.Open.{index_tail, open_engine, open_with, recovered_entry, last_of, get-open}
use ozd.Engine.Reads.{IsAppendOnly}
use ozd.Engine.Durable.{get-delete}
use ozd.Engine.Roundtrip.{IsLossless, get-put}

program : Unit {0}
unfolding lookup put_inline put_addr delete_rows insert remove bump_in discard_old stat has
    get_between put_impl delete append_retried index_record release_ballast_file pack unpack
    read_answer encode_addr decode_addr from_le bytes_eq
program = tt

abbrev pub read_at : Option Body → IoResult Body
read_at none = err unexpected_eof
read_at (some b) = ok b

abbrev listed : Segments
listed = record {
  Store = List Body;
  append = λ r s. (
    ok (
      record {
        seg_id = 0;
        offset = length s;
        stored_len = length r.stored % 2 ^ 32;
        key_len = length r.key % 2 ^ 16;
      },
      0,
    ),
    s ++ r.stored ∷ [],
  );
  read = λ s a crc. read_at (get_elem? s a.offset);
}

abbrev Short : List Body → Type 0
Short s = length s < 1000

pub get_elem-append :
    (s t : List Body) (i : ℕ) (b : Body)
    → read_at (get_elem? s i) ≡ ok b
    → read_at (get_elem? (s ++ t) i) ≡ ok b
get_elem-append [] t i b h = absurd cc
get_elem-append (x ∷ s) t zero b h = h
get_elem-append (x ∷ s) t (suc i) b h = get_elem-append s t i b h

pub get_elem-last : (s : List Body) (b : Body) → read_at (get_elem? (s ++ b ∷ []) (length s)) ≡ ok b
get_elem-last [] b = refl
get_elem-last (x ∷ s) b = get_elem-last s b

abbrev address : Record → List Body → RecordAddr
address r s = record {
  seg_id = 0;
  offset = length s;
  stored_len = length r.stored % 2 ^ 32;
  key_len = length r.key % 2 ^ 16;
}

address-Fits : (r : Record) (s : List Body) → Short s → FitsAddr (address r s)
address-Fits r s short = record {
  seg_id = omega arith;
  offset = omega arith;
  stored_len = omega arith;
  key_len = omega arith;
}

listed-appended :
    (r : Record) (s : List Body) (a : RecordAddr) (crc : ℕ)
    → FitsRecord r
    → Short s
    → (listed.append r s).0 ≡ ok (a, crc)
    → (listed.read (listed.append r s).1 a crc ≡ ok r.stored) × FitsAddr a × (crc < 256 ^ 4)
listed-appended r s a crc fits short h =
    let ea : address r s ≡ a = cc in
    let ec : 0 ≡ crc = cc in
    rw (← ea, ← ec) (get_elem-last s r.stored, address-Fits r s short, omega arith)

listed-IsAppendOnly : IsAppendOnly listed Short
listed-IsAppendOnly = record {
  kept = λ r s a crc stored h. get_elem-append s (r.stored ∷ []) a.offset stored h;
  appended = listed-appended;
}

abbrev pub plain : Zstd
plain = record { compress = λ b. none; decompress = λ b n. none }

pub plain-IsLossless : IsLossless plain
plain-IsLossless = record { restores = λ b c h. absurd cc }

abbrev pub config : EngineConfig
config = record { inline_min = 2; compress_zstd = true; compress_min = 1; ballast_bytes = 0 }

abbrev fresh : List Bool → Engine listed plain config
fresh commits = record {
  store = [];
  db = record {
    index = record {
      addr = λ k. none;
      inline = λ k. none;
      discard = λ id. none;
      cursor = λ k. none;
    };
    commits = commits;
  };
  ballast_file = false;
  ballast_present = false;
  used_bytes = 0;
}

abbrev pub cid : BlockKey
cid = 1 ∷ 2 ∷ []

abbrev pub other_cid : BlockKey
other_cid = 1 ∷ 3 ∷ []

abbrev body : Body
body = 7 ∷ 8 ∷ 9 ∷ []

abbrev stored : List Bool → Engine listed plain config
stored commits = (put_impl listed plain config cid body none (fresh commits)).1

put_succeeds : (put_impl listed plain config cid body none (fresh [])).0 ≡ ok tt
unfolding program
put_succeeds = refl

stat_of_stored : stat cid (stored []).db.index ≡ ok 3
unfolding program
stat_of_stored = refl

-- a second put counts the first record as discarded
discards : (put_impl listed plain config cid body none (stored [])).1.db.index.discard 0 ≡ some 3
unfolding program
discards = refl

fresh-Short : Short (fresh []).store
fresh-Short = omega arith

append-Short : Short (listed.append (record_of listed plain config cid body) (fresh []).store).1
unfolding program
append-Short = omega arith

get-put_example :
    get listed plain config cid (put_impl listed plain config cid body none (fresh [])).1 ≡ ok body
get-put_example =
    get-put listed plain config Short listed-IsAppendOnly plain-IsLossless cid body none
      (omega arith) (omega arith) tt (fresh []) fresh-Short append-Short put_succeeds

abbrev once : List Bool
once = true ∷ false ∷ []

second_fails : (put_impl listed plain config cid (5 ∷ 5 ∷ 5 ∷ []) none (stored once)).0 ≡ err io
unfolding program
second_fails = refl

first_read : get listed plain config cid (stored once) ≡ ok body
unfolding program
first_read = refl

different : bytes_eq other_cid cid ≡ false
unfolding program
different = refl

deleted : (delete listed plain config cid (stored [])).0 ≡ ok tt
unfolding program
deleted = refl

get-delete_example :
    get listed plain config cid (delete listed plain config cid (stored [])).1
    ≡ (if bytes_eq cid cid then err not_found else get listed plain config cid (stored []))
get-delete_example =
    get-delete listed plain config Short listed-IsAppendOnly cid cid (stored []) deleted

-- The record of a key whose row a delete has removed, in the tail of the active segment.
abbrev tail_record : RecoveredRecord
tail_record = record {
  key = cid;
  addr = record { seg_id = 0; offset = 0; stored_len = 3; key_len = 2 };
  crc = 0;
  flags = 0;
  logical_len = 3;
  stored = body;
}

abbrev reopened : Engine listed plain config
reopened = record {
  store = body ∷ [];
  db = record {
    index = record (fresh []).db.index {
      addr = index_tail listed plain config (tail_record ∷ []) (λ k. none);
    };
    commits = [];
  };
  ballast_file = false;
  ballast_present = false;
  used_bytes = 3;
}

start : Unit {0}
unfolding lookup insert get_between unpack read_answer encode_addr decode_addr from_le bytes_eq
    open_engine open_with index_tail recovered_entry parse_piece_header
start = tt

reopens :
    open_engine listed plain config (ok (tail_record ∷ [], body ∷ [])) 3 false false (fresh []).db
    ≡ ok reopened
unfolding start
reopens = refl

tail_fits : FitsEntry (recovered_entry listed plain config tail_record)
unfolding start
tail_fits = record {
  addr = record {
    seg_id = omega arith;
    offset = omega arith;
    stored_len = omega arith;
    key_len = omega arith;
  };
  crc = omega arith;
  logical_len = omega arith;
  flags = omega arith;
  obj = tt;
}

tail_last : last_of cid (tail_record ∷ []) ≡ some tail_record
unfolding start
tail_last = refl

get-open_example :
    get listed plain config cid reopened
    ≡ unpack listed plain config (recovered_entry listed plain config tail_record) body
get-open_example =
    get-open listed plain config (tail_record ∷ []) (body ∷ []) 3 false false (fresh []).db reopened
      cid tail_record reopens refl tail_last tail_fits refl

-- The key was not found before the restart, and its deleted body is read after it.
gone_before : get listed plain config cid (fresh []) ≡ err not_found
unfolding start
gone_before = refl

back_after : get listed plain config cid reopened ≡ ok body
unfolding start
back_after = refl
