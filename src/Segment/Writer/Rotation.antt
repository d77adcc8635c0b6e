-- ===== src/Segment/Writer/Rotation.antt =====
-- What a failed write of crates/ozd-engine/src/segment.rs leaves behind, with and without a
-- failover directory.
use ozd.Prelude.{
  ℕ, ◌+◌, ◌<◌, List, [], ◌∷◌, ◌++◌, ◌≡◌, refl, some, false, arith, take, leb, ◌≤◌, ◌≢◌, length,
  length-append, length-take,
}
use ozd.Io.{ok, err, IoError}
use ozd.Segment.{Record, encode_header, encode_record, record_crc, header_bytes, header_len}
use ozd.Segment.Writer.{
  Writer, State, SegDir, DirName, failover, append_bytes, set_dir, fails, append_with_flags,
  write_record, retry, write_all,
}
use ozd.Segment.Writer.Append.{calm, file_of, active_file, next_addr, append-calm, file-append}

module _ (crc32 : List ℕ → ℕ) where
  -- A disk whose next write fails after n bytes, and on which nothing fails afterwards.
  abbrev pub failing : ℕ → IoError → Writer → (DirName → SegDir) → State
  failing n e w d = record { writer = w; disk = record { dir = d; outcomes = fails n e ∷ [] } }

  abbrev torn_dirs : ℕ → Record → Writer → (DirName → SegDir) → DirName → SegDir
  torn_dirs n r w d =
      (append_bytes w.active_dir w.seg_id (take n (header_bytes crc32 r))
        (record { dir = d; outcomes = [] })).dir

  length-torn :
      (n : ℕ) (r : Record) (w : Writer) (d : DirName → SegDir)
      → w.len ≡ length (file_of w d)
      → n ≤ header_len
      → length (file_of w d ++ take n (header_bytes crc32 r)) ≡ w.len + n
  unfolding encode_header
  length-torn n r w d level h = omega (
    arith,
    length-append (file_of w d) (take n (header_bytes crc32 r)),
    length-take n (header_bytes crc32 r),
  )

  failed-append :
      (n : ℕ) (e : IoError) (r : Record) (w : Writer) (d : DirName → SegDir)
      → w.len < w.max_size
      → w.has_failover ≡ false
      → append_with_flags crc32 r (failing n e w d) ≡ (err e, calm w (torn_dirs n r w d))
  unfolding append_with_flags write_record write_all retry
  failed-append n e r w d room alone =
      let small : leb w.max_size w.len ≡ false = ground arith in rw (small, retry) (rw alone refl)

  -- The file of a segment whose active length is the file's, without a failover directory, after
  -- an append that failed after 0 < n bytes of its header, at most all of it, and was tried again on a disk
  -- without faults: the second append reports the old length as the offset of the record, but its
  -- bytes begin n further on, behind the n bytes of the failed attempt.
  pub torn_append_misplaced :
      (n : ℕ) (e : IoError) (r : Record) (w : Writer) (d : DirName → SegDir)
      → w.len < w.max_size
      → w.has_failover ≡ false
      → w.len ≡ length (file_of w d)
      → 0 < n
      → n ≤ header_len
      → let after = append_with_flags crc32 r (append_with_flags crc32 r (failing n e w d)).1 in
        let before = file_of w d ++ take n (header_bytes crc32 r) in
        (after.0 ≡ ok (next_addr w r, record_crc crc32 r))
        × (active_file after.1 ≡ before ++ encode_record crc32 r)
        × (length before ≡ (next_addr w r).offset + n)
        × (length before ≢ (next_addr w r).offset)
  torn_append_misplaced n e r w d room alone level some_bytes in_header =
      let again = append-calm crc32 r w (torn_dirs n r w d) room in
      let torn : file_of w (torn_dirs n r w d) ≡ file_of w d ++ take n (header_bytes crc32 r) =
        file-append w.active_dir w.seg_id (take n (header_bytes crc32 r))
          (record { dir = d; outcomes = [] }) in
      let before : length (file_of w d ++ take n (header_bytes crc32 r)) ≡ w.len + n =
        length-torn n r w d level in_header in
      rw (failed-append n e r w d room alone, again.file, torn)
        (again.address, refl, before, λ same. omega arith)

  -- The directories after the failover rotation that follows a torn write.
  abbrev over_dirs : ℕ → Record → Writer → (DirName → SegDir) → DirName → SegDir
  over_dirs n r w d =
      let torn = torn_dirs n r w d in
      set_dir failover (record (torn failover) { meta = some (w.seg_id + 1, 0) }) torn
