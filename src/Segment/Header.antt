-- ===== src/Segment/Header.antt =====
-- The record header and the recovery point of crates/ozd-engine/src/segment.rs survive the disk.
use ozd.Prelude.{ℕ, ◌^◌, ◌<◌, List, ◌++◌, ◌≡◌, some, arith, from_le-le_bytes}
use ozd.Segment.{ParsedHeader, encode_header, parse_header, write_meta, read_meta}

pub record FitsHeader (h : ParsedHeader) : Type 0 where
  pub key_len : h.key_len < 256 ^ 2
  pub flags : h.flags < 256 ^ 2
  pub stored_len : h.stored_len < 256 ^ 4
  pub logical_len : h.logical_len < 256 ^ 4
  pub crc : h.crc < 256 ^ 4

abbrev pub bytes_of : ParsedHeader → List ℕ
bytes_of h = encode_header h.key_len h.flags h.stored_len h.logical_len h.crc

-- A header whose fields fit their widths parses back to the same fields, whatever follows it.
pub parse-encode_header :
    (h : ParsedHeader) (rest : List ℕ) → FitsHeader h → parse_header (bytes_of h ++ rest) ≡ some h
unfolding parse_header encode_header
parse-encode_header h rest v = ground (
  arith,
  from_le-le_bytes 2 h.key_len,
  from_le-le_bytes 2 h.flags,
  from_le-le_bytes 4 h.stored_len,
  from_le-le_bytes 4 h.logical_len,
  from_le-le_bytes 4 h.crc,
)

-- The recovery point that is written to `seg.meta` is the one that the next open reads.
pub read-write_meta :
    (seg_id flush_offset : ℕ)
    → seg_id < 256 ^ 4
    → flush_offset < 256 ^ 8
    → read_meta (write_meta seg_id flush_offset) ≡ some (seg_id, flush_offset)
unfolding read_meta write_meta
read-write_meta s o hs ho = ground (arith, from_le-le_bytes 4 s, from_le-le_bytes 8 o)
