-- ===== src/Segment.antt =====
-- crates/ozd-engine/src/segment.rs: the record format of the append-only segments.
pub mod Header
pub mod Scan
pub mod Recovery
pub mod Read
pub mod Writer
mod Tests
use ozd.Prelude.{
  ℕ, ◌+◌, ◌%◌, ◌^◌, List, [], ◌∷◌, ◌++◌, not, ◌||◌, Option, none, some, ltb, ◌==◌, if◌then◌else◌,
  bytes_eq, length, take, drop, le_bytes, from_le,
}

abbrev pub magic : List ℕ
magic = b'O' ∷ b'Z' ∷ b'B' ∷ b'2' ∷ []

abbrev pub header_len : ℕ
header_len = 20

abbrev pub flag_zstd : ℕ
flag_zstd = 1

pub record RecordAddr : Type 0 where
  pub seg_id : ℕ
  pub offset : ℕ
  pub stored_len : ℕ
  pub key_len : ℕ

-- `seg.meta`: the active segment's id and the flush offset
unfoldable pub write_meta : ℕ → ℕ → List ℕ
write_meta seg_id flush_offset = le_bytes 4 seg_id ++ le_bytes 8 flush_offset

unfoldable pub read_meta : List ℕ → Option (ℕ × ℕ)
read_meta buf =
    if not (length buf == 12)
    then none
    else some (from_le (take 4 buf), from_le (take 8 (drop 4 buf)))

pub record ParsedHeader : Type 0 where
  pub key_len : ℕ
  pub flags : ℕ
  pub stored_len : ℕ
  pub logical_len : ℕ
  pub crc : ℕ

unfoldable pub encode_header : ℕ → ℕ → ℕ → ℕ → ℕ → List ℕ
encode_header key_len flags stored_len logical_len crc =
    magic
    ++ (le_bytes 2 key_len
        ++ (le_bytes 2 flags
            ++ (le_bytes 4 stored_len ++ (le_bytes 4 logical_len ++ le_bytes 4 crc))))

unfoldable pub parse_header : List ℕ → Option ParsedHeader
unfolding bytes_eq
parse_header h =
    if ltb (length h) header_len || not (bytes_eq (take 4 h) magic)
    then none
    else some (record {
      key_len = from_le (take 2 (drop 4 h));
      flags = from_le (take 2 (drop 6 h));
      stored_len = from_le (take 4 (drop 8 h));
      logical_len = from_le (take 4 (drop 12 h));
      crc = from_le (take 4 (drop 16 h));
    })

-- What one append puts on the disk.
pub record Record : Type 0 where
  pub key : List ℕ
  pub stored : List ℕ
  pub logical_len : ℕ
  pub flags : ℕ

-- `crc32fast` over the key and then the stored bytes
module _ (crc32 : List ℕ → ℕ) where
  abbrev pub record_crc : Record → ℕ
  record_crc r = crc32 (r.key ++ r.stored)

  -- The header, the key and the stored bytes, as `write_record` writes them; the lengths are cast
  -- to `u16` and `u32`.
  abbrev pub header_bytes : Record → List ℕ
  header_bytes r =
      encode_header (length r.key % 2 ^ 16) r.flags (length r.stored % 2 ^ 32) r.logical_len
        (record_crc r)

  unfoldable pub encode_record : Record → List ℕ
  encode_record r = header_bytes r ++ (r.key ++ r.stored)
