-- ===== src/Segment/Writer/Append.antt =====
-- What an append of crates/ozd-engine/src/segment.rs leaves in the active segment.
use ozd.Prelude.{
  ℕ, ◌+◌, ◌%◌, ◌^◌, ◌<◌, List, [], ◌++◌, ◌≡◌, ◌∙◌, refl, ap, true, false, arith, length,
  append_assoc, Bool-cases, inl, inr, leb, ==_refl, Bool, ◌==◌, ◌&&◌, if◌then◌else◌,
}
use ozd.Io.{ok, err, IoResult}
use ozd.Segment.{RecordAddr, Record, encode_record, record_crc, header_bytes, header_len}
use ozd.Segment.Writer.{
  pure, continue, Exec, retry, Writer, State, SegDir, Disk, DirName, primary, failover, set_dir,
  append_bytes, flush, write_record, append_with_flags,
}

-- A disk on which nothing will fail.
abbrev pub calm : Writer → (DirName → SegDir) → State
calm w d = record { writer = w; disk = record { dir = d; outcomes = [] } }

abbrev pub file_of : Writer → (DirName → SegDir) → List ℕ
file_of w d = (d w.active_dir).files w.seg_id

abbrev pub active_file : State → List ℕ
active_file s = file_of s.writer s.disk.dir

-- The address that an append to a writer reports.
abbrev pub next_addr : Writer → Record → RecordAddr
next_addr w r = record {
  seg_id = w.seg_id;
  offset = w.len;
  stored_len = length r.stored % 2 ^ 32;
  key_len = length r.key % 2 ^ 16;
}

set_dir_same : (n : DirName) (x : SegDir) (d : DirName → SegDir) → set_dir n x d n ≡ x
set_dir_same primary x d = refl
set_dir_same failover x d = refl

pub file-append :
    (n : DirName) (id : ℕ) (bytes : List ℕ) (k : Disk)
    → ((append_bytes n id bytes k).dir n).files id ≡ (k.dir n).files id ++ bytes
file-append primary id bytes k = rw ==_refl refl
file-append failover id bytes k = rw ==_refl refl

-- What `flush` leaves alone.
pub record Flushed (s s' : State) : Type 0 where
  pub file : active_file s' ≡ active_file s
  pub len : s'.writer.len ≡ s.writer.len
  pub seg_id : s'.writer.seg_id ≡ s.writer.seg_id
  pub active_dir : s'.writer.active_dir ≡ s.writer.active_dir
  pub failed_over : s'.writer.failed_over ≡ s.writer.failed_over
  pub outcomes : s'.disk.outcomes ≡ []

flush-calm :
    (w : Writer) (d : DirName → SegDir)
    → ((flush (calm w d)).0 ≡ ok tt) × Flushed (calm w d) (flush (calm w d)).1
unfolding flush
flush-calm w d = elim (Bool-cases (w.flush_offset == w.len && w.unflushed_items == 0)) [
  | inl clean ↦ rw clean (
    refl,
    record {
      file = refl;
      len = refl;
      seg_id = refl;
      active_dir = refl;
      failed_over = refl;
      outcomes = refl;
    },
  )
  | inr dirty ↦ rw dirty (
    refl,
    record {
      file = ap (λ (x : SegDir). x.files w.seg_id) (set_dir_same w.active_dir _ d);
      len = refl;
      seg_id = refl;
      active_dir = refl;
      failed_over = refl;
      outcomes = refl;
    },
  )
]

-- The rest of a block after a step that succeeded.
pub continue-ok :
    {A B : Type 0} {a : A} (r : IoResult A) (s : State) (f : A → Exec B)
    → r ≡ ok a
    → continue (r, s) f ≡ f a s
continue-ok (ok b) s f e = ground arith
continue-ok (err x) s f e = cc

maybe_flush-calm :
    (b : Bool) (w : Writer) (d : DirName → SegDir)
    → (((if b then flush else pure tt) (calm w d)).0 ≡ ok tt)
      × Flushed (calm w d) ((if b then flush else pure tt) (calm w d)).1
maybe_flush-calm true w d = flush-calm w d
maybe_flush-calm false w d = (
  refl,
  record {
    file = refl;
    len = refl;
    seg_id = refl;
    active_dir = refl;
    failed_over = refl;
    outcomes = refl;
  },
)

-- The directories after the three writes of a record.
abbrev written : (List ℕ → ℕ) → Record → Writer → (DirName → SegDir) → DirName → SegDir
written crc32 r w d =
    let put = append_bytes w.active_dir w.seg_id in
    let start : Disk = record { dir = d; outcomes = [] } in
    (put r.stored (put r.key (put (header_bytes crc32 r) start))).dir

file-written :
    (crc32 : List ℕ → ℕ) (r : Record) (w : Writer) (d : DirName → SegDir)
    → file_of w (written crc32 r w d) ≡ file_of w d ++ encode_record crc32 r
unfolding encode_record
file-written crc32 r w d =
    rw (file-append w.active_dir, file-append w.active_dir, file-append w.active_dir)
      (simp append_assoc)

module _ (crc32 : List ℕ → ℕ) where
  -- An append that succeeded and wrote the whole record.
  pub record Appended (r : Record) (s : State) (result : IoResult (RecordAddr × ℕ) × State)
      : Type 0 where
    pub address : result.0 ≡ ok (next_addr s.writer r, record_crc crc32 r)
    pub file : active_file result.1 ≡ active_file s ++ encode_record crc32 r
    pub len : result.1.writer.len ≡ s.writer.len + (header_len + length r.key + length r.stored)
    pub seg_id : result.1.writer.seg_id ≡ s.writer.seg_id
    pub active_dir : result.1.writer.active_dir ≡ s.writer.active_dir
    pub failed_over : result.1.writer.failed_over ≡ s.writer.failed_over
    pub outcomes : result.1.disk.outcomes ≡ []

  retry-ok :
      {a : RecordAddr × ℕ} (r : Record) (x : IoResult (RecordAddr × ℕ)) (s : State)
      → x ≡ ok a
      → retry crc32 r (x, s) ≡ (ok a, s)
  unfolding retry
  retry-ok r (ok b) s e = ground arith
  retry-ok r (err x) s e = cc

  pub write_record-calm :
      (r : Record) (w : Writer) (d : DirName → SegDir)
      → Appended r (calm w d) (write_record crc32 r (calm w d))
  unfolding write_record
  write_record-calm r w d =
      let w' : Writer = record w {
        len = w.len + (header_len + length r.key + length r.stored);
        unflushed_items = w.unflushed_items + 1;
      } in
      let due = leb w'.fsync_items w'.unflushed_items in
      let after : State = ((if due then flush else pure tt) (calm w' (written crc32 r w d))).1 in
      let (fine, kept) = maybe_flush-calm due w' (written crc32 r w d) in
      rw
        (continue-ok {B = RecordAddr × ℕ} _ after (λ _. pure (next_addr w r, record_crc crc32 r))
          fine)
        (record {
          address = refl;
          file = kept.file ∙ file-written crc32 r w d;
          len = kept.len;
          seg_id = kept.seg_id;
          active_dir = kept.active_dir;
          failed_over = kept.failed_over;
          outcomes = kept.outcomes;
        })

  -- On a disk without faults, an append to a segment that is not full reports the old length as
  -- the record's offset, appends exactly the encoded record to the active file, and advances the
  -- length by the record's length.
  pub append-calm :
      (r : Record) (w : Writer) (d : DirName → SegDir)
      → w.len < w.max_size
      → Appended r (calm w d) (append_with_flags crc32 r (calm w d))
  unfolding append_with_flags
  append-calm r w d room =
      let done = write_record-calm r w d in
      let small : leb w.max_size w.len ≡ false = ground arith in
      rw (small, retry-ok r _ (write_record crc32 r (calm w d)).1 done.address)
        (record {
          address = refl;
          file = done.file;
          len = done.len;
          seg_id = done.seg_id;
          active_dir = done.active_dir;
          failed_over = done.failed_over;
          outcomes = done.outcomes;
        })
