-- ===== src/Segment/Scan.antt =====
-- The scans of crates/ozd-engine/src/segment.rs: the tail scan of `SegmentWriter::open`, the scan
-- of a sealed segment, and the read of one record.
use ozd.Prelude.{
  ℕ, zero, suc, min, ◌+◌, ◌%◌, ◌^◌, List, [], ◌∷◌, ◌++◌, not, Option, none, some, ltb, ◌==◌,
  if◌then◌else◌, length, take, drop,
}
use ozd.Io.{invalid_data, unexpected_eof, IoResult, ok, err, ◌>>=◌}
use ozd.Segment.{RecordAddr, ParsedHeader, header_len, parse_header}

pub record RecoveredRecord : Type 0 where
  pub key : List ℕ
  pub addr : RecordAddr
  pub crc : ℕ
  pub flags : ℕ
  pub logical_len : ℕ
  pub stored : List ℕ

abbrev pub total_len : ParsedHeader → ℕ
total_len h = header_len + h.key_len + h.stored_len

-- The record that a header announces, with the bytes that follow it.
abbrev pub recovered : ℕ → ℕ → ParsedHeader → List ℕ → List ℕ → RecoveredRecord
recovered seg_id pos h key stored = record {
  key = key;
  addr = record {
    seg_id = seg_id;
    offset = pos;
    stored_len = h.stored_len % 2 ^ 32;
    key_len = h.key_len % 2 ^ 16;
  };
  crc = h.crc;
  flags = h.flags;
  logical_len = h.logical_len;
  stored = stored;
}

-- `read_exact` of a stream: the bytes and the rest, or an end of file.
unfoldable pub read_exact : ℕ → List ℕ → Option (List ℕ × List ℕ)
read_exact n s = if ltb (length s) n then none else some (take n s, drop n s)

module _ (crc32 : List ℕ → ℕ) where
  -- The loop of `open` over the bytes after the flush offset: the records, and where they end.
  -- Every round takes at least a header, so the length of the buffer is enough fuel.
  unfoldable pub recover_loop : ℕ → ℕ → ℕ → List ℕ → List RecoveredRecord × ℕ
  recover_loop zero seg_id pos buf = ([], pos)
  recover_loop (suc fuel) seg_id pos buf =
      if ltb (length buf) header_len then ([], pos) else elim (parse_header (take header_len buf)) [
        | none ↦ ([], pos)
        | some h ↦
            let key = take h.key_len (drop header_len buf) in
            let stored = take h.stored_len (drop h.key_len (drop header_len buf)) in
            let rest = recover_loop fuel seg_id (pos + total_len h) (drop (total_len h) buf) in
            if ltb (length buf) (total_len h)
            then ([], pos)
            else if not (crc32 (key ++ stored) == h.crc)
            then ([], pos)
            else (recovered seg_id pos h key stored ∷ rest.0, rest.1)
      ]

  -- The part of `open` that looks at the active file: the records after the recovery point, and
  -- the length to which the file is cut back.
  unfoldable pub recover_tail : ℕ → ℕ → List ℕ → List RecoveredRecord × ℕ
  recover_tail seg_id flush_offset file =
      let pos = min flush_offset (length file) in
      recover_loop (length file) seg_id pos (drop pos file)

  module _ {S : Type 0} (f : RecoveredRecord → S → IoResult S) where
    -- `scan_segment`: the callback gets each record in turn, and may stop the scan by an error.
    unfoldable pub scan_segment : ℕ → ℕ → ℕ → List ℕ → S → IoResult S
    scan_segment zero seg_id offset rdr s = ok s
    scan_segment (suc fuel) seg_id offset rdr s = elim (read_exact header_len rdr) [
      | none ↦ ok s
      | some (header, rdr1) ↦ elim (parse_header header) [
        | none ↦ ok s
        | some h ↦ elim (read_exact h.key_len rdr1) [
          | none ↦ ok s
          | some (key, rdr2) ↦ elim (read_exact h.stored_len rdr2) [
            | none ↦ ok s
            | some (stored, rdr3) ↦ if not (crc32 (key ++ stored) == h.crc) then ok s else (do
              s' ← f (recovered seg_id offset h key stored) s
              scan_segment fuel seg_id (offset + total_len h) rdr3 s')
          ]
        ]
      ]
    ]

  -- `read_record` of the file of the address' segment.
  unfoldable pub read_record : List ℕ → RecordAddr → ℕ → IoResult (List ℕ)
  read_record file addr expect_crc =
      elim (read_exact (header_len + addr.key_len + addr.stored_len) (drop addr.offset file)) [
        | none ↦ err unexpected_eof
        | some (buf, _) ↦
            let key = take addr.key_len (drop header_len buf) in
            let stored = drop (header_len + addr.key_len) buf in
            if not (crc32 (key ++ stored) == expect_crc) then err invalid_data else ok stored
      ]
