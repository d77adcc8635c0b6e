-- ===== src/Segment/Writer/Stands.antt =====
-- What an append of crates/ozd-engine/src/segment.rs reports, and what `read_record` finds there.
use ozd.Prelude.{ℕ, ◌^◌, ◌<◌, List, [], ◌++◌, ◌≡◌, refl, arith, length, length-append, append-nil}
use ozd.Io.{ok}
use ozd.Segment.{Record, encode_record, record_crc}
use ozd.Segment.Scan.{read_record}
use ozd.Segment.Recovery.{FitsRecord, length-record}
use ozd.Segment.Read.{read-record}
use ozd.Segment.Writer.{Writer, SegDir, DirName, append_with_flags}
use ozd.Segment.Writer.Append.{calm, file_of, active_file, next_addr, append-calm}

module _ (crc32 : List ℕ → ℕ) (crc_fits : (bs : List ℕ) → crc32 bs < 2 ^ 32) where
  stored_at :
      (r : Record) (w : Writer) (file : List ℕ)
      → FitsRecord r
      → w.len ≡ length file
      → read_record crc32 (file ++ encode_record crc32 r) (next_addr w r) (record_crc crc32 r)
        ≡ ok r.stored
  stored_at r w file v level =
      rw (level, ← append-nil (encode_record crc32 r))
        (read-record crc32 crc_fits w.seg_id file [] r v)

  -- If the active length of a segment that is not full is the length of its file, and the record
  -- fits the widths of its header, then an append on a disk without faults succeeds, the record
  -- reads back from the reported address with the reported checksum, the bytes before it are the
  -- file's as it was, and the active length is the length of the file again.
  pub read_record-append :
      (r : Record) (w : Writer) (d : DirName → SegDir)
      → FitsRecord r
      → w.len < w.max_size
      → w.len ≡ length (file_of w d)
      → let after = append_with_flags crc32 r (calm w d) in
        (after.0 ≡ ok (next_addr w r, record_crc crc32 r))
        × (read_record crc32 (active_file after.1) (next_addr w r) (record_crc crc32 r)
            ≡ ok r.stored)
        × (active_file after.1 ≡ file_of w d ++ encode_record crc32 r)
        × (after.1.writer.len ≡ length (active_file after.1))
  read_record-append r w d v room level =
      let done = append-calm crc32 r w d room in
      rw done.file (
        done.address,
        stored_at r w (file_of w d) v level,
        refl,
        omega (
          arith,
          done.len,
          length-append (file_of w d) (encode_record crc32 r),
          length-record crc32 crc_fits r,
        ),
      )
