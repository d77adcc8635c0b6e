-- ===== src/Segment/Tests.antt =====
-- Tests of the segments of crates/ozd-engine/src/segment.rs, with a checksum that adds the bytes.
use ozd.Prelude.{
  ℕ, ◌+◌, ◌%◌, ◌^◌, ◌<◌, List, [], ◌∷◌, ◌++◌, ◌≡◌, ◌≢◌, refl, true, false, none, arith, length,
  take, from_le,
}
use ozd.Io.{enospc, IoResult, ok}
use ozd.Segment.{
  ParsedHeader, Record, encode_header, parse_header, encode_record, header_bytes, record_crc,
  write_meta, read_meta,
}
use ozd.Segment.Header.{FitsHeader}
use ozd.Segment.Scan.{RecoveredRecord, read_exact, recover_loop, recover_tail, read_record}
use ozd.Segment.Recovery.{FitsRecord, segment_of, recovered_all, recover-crash}
use ozd.Segment.Writer.{Writer, SegDir, DirName, primary, append_with_flags}
use ozd.Segment.Writer.Append.{calm, file_of, active_file, next_addr}
use ozd.Segment.Writer.Stands.{read_record-append}
use ozd.Segment.Writer.Rotation.{failing, torn_append_misplaced}

program : Unit {0}
unfolding encode_header parse_header encode_record recover_tail recover_loop read_record read_exact
    from_le write_meta read_meta
program = tt

total : List ℕ → ℕ
total [] = 0
total (b ∷ bs) = b + total bs

checksum : List ℕ → ℕ
unfolding total
checksum bs = total bs % 2 ^ 32

checksum_fits : (bs : List ℕ) → checksum bs < 2 ^ 32
unfolding checksum
checksum_fits bs = omega arith

abbrev first : Record
first = record { key = 47 ∷ 97 ∷ []; stored = 1 ∷ 2 ∷ 3 ∷ []; logical_len = 3; flags = 0 }

abbrev second : Record
second = record { key = 47 ∷ 98 ∷ []; stored = 9 ∷ []; logical_len = 1; flags = 0 }

first_fits : FitsRecord first
first_fits = record {
  key = omega arith;
  stored = omega arith;
  logical_len = omega arith;
  flags = omega arith;
}

second_fits : FitsRecord second
second_fits = record {
  key = omega arith;
  stored = omega arith;
  logical_len = omega arith;
  flags = omega arith;
}

abbrev header : ParsedHeader
header = record { key_len = 2; flags = 1; stored_len = 300; logical_len = 70000; crc = 77 }

header_fits : FitsHeader header
header_fits = record {
  key_len = omega arith;
  flags = omega arith;
  stored_len = omega arith;
  logical_len = omega arith;
  crc = omega arith;
}

recover-crash_example :
    recover_tail checksum 3 2 (
      (8 ∷ 8 ∷ [])
      ++ (segment_of checksum checksum_fits (first ∷ second ∷ [])
          ++ take 21 (encode_record checksum first)))
    ≡ (
      recovered_all checksum checksum_fits 3 2 (first ∷ second ∷ []),
      length ((8 ∷ 8 ∷ []) ++ segment_of checksum checksum_fits (first ∷ second ∷ [])),
    )
recover-crash_example =
    recover-crash checksum checksum_fits 3 21 (8 ∷ 8 ∷ []) (first ∷ second ∷ []) first
      (first_fits, (second_fits, tt)) first_fits (omega arith)

abbrev count_records : RecoveredRecord → ℕ → IoResult ℕ
count_records _ n = ok (n + 1)

abbrev alone : Writer
alone = record {
  has_failover = false;
  active_dir = primary;
  seg_id = 0;
  len = 0;
  flush_offset = 0;
  unflushed_items = 0;
  max_size = 1000;
  fsync_items = 2;
  failed_over = false;
}

abbrev guarded : Writer
guarded = record alone { has_failover = true }

abbrev empty_dirs : DirName → SegDir
empty_dirs _ = record { files = λ _. []; meta = none }

read_record-append_example :
    let after = append_with_flags checksum first (calm alone empty_dirs) in
    (after.0 ≡ ok (next_addr alone first, record_crc checksum first))
    × (read_record checksum
          (active_file after.1)
          (next_addr alone first)
          (record_crc checksum first)
        ≡ ok first.stored)
    × (active_file after.1 ≡ file_of alone empty_dirs ++ encode_record checksum first)
    × (after.1.writer.len ≡ length (active_file after.1))
read_record-append_example =
    read_record-append checksum checksum_fits first alone empty_dirs first_fits (omega arith) refl

torn_append_misplaced_example :
    let after =
      append_with_flags checksum first
        (append_with_flags checksum first (failing checksum 5 enospc alone empty_dirs)).1 in
    let before = file_of alone empty_dirs ++ take 5 (header_bytes checksum first) in
    (after.0 ≡ ok (next_addr alone first, record_crc checksum first))
    × (active_file after.1 ≡ before ++ encode_record checksum first)
    × (length before ≡ (next_addr alone first).offset + 5)
    × (length before ≢ (next_addr alone first).offset)
torn_append_misplaced_example =
    torn_append_misplaced checksum 5 enospc first alone empty_dirs (omega arith) refl refl
      (omega arith) (omega arith)
