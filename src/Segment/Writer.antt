-- ===== src/Segment/Writer.antt =====
-- `SegmentWriter` of crates/ozd-engine/src/segment.rs over a disk whose operations may fail.
pub mod Append
pub mod Rotation
pub mod Stands
use ozd.Prelude.{
  ℕ, ◌+◌, ◌%◌, ◌^◌, List, [], ◌∷◌, ◌++◌, Bool, true, false, not, ◌&&◌, Option, none, some, leb,
  ◌==◌, if◌then◌else◌, length, take,
}
use ozd.Io.{IoError, other, IoResult, ok, err}
use ozd.Segment.{RecordAddr, Record, header_len, record_crc, header_bytes}

-- The two directories that a writer may use.
pub data DirName : Type 0 where
  primary failover : DirName

-- A directory: the segment files, and the recovery point of `seg.meta`.
pub record SegDir : Type 0 where
  pub files : ℕ → List ℕ
  pub meta : Option (ℕ × ℕ)

-- What the next disk operation does: it succeeds, or it fails after n bytes have been written.
pub data Outcome : Type 0 where
  done : Outcome
  fails : ℕ → IoError → Outcome

-- The disk, and what its next operations will do; past the end of the list all succeed.
pub record Disk : Type 0 where
  pub dir : DirName → SegDir
  pub outcomes : List Outcome

pub record Writer : Type 0 where
  pub has_failover : Bool
  pub active_dir : DirName
  pub seg_id : ℕ
  pub len : ℕ
  pub flush_offset : ℕ
  pub unflushed_items : ℕ
  pub max_size : ℕ
  pub fsync_items : ℕ
  pub failed_over : Bool

pub record State : Type 0 where
  pub writer : Writer
  pub disk : Disk

-- An operation keeps what it did before an error.
abbrev pub Exec : Type 0 → Type 0
Exec A = State → IoResult A × State

infixl 5 ◌>>=◌ ◌>>◌
abbrev continue : {A B : Type 0} → IoResult A × State → (A → Exec B) → IoResult B × State
continue (ok a, s) f = f a s
continue (err e, s) f = (err e, s)

abbrev pub ◌>>=◌ : {A B : Type 0} → Exec A → (A → Exec B) → Exec B
◌>>=◌ m f s = continue (m s) f

abbrev pub ◌>>◌ : {B : Type 0} → Exec (Unit {0}) → Exec B → Exec B
m >> n = m >>= λ _. n

abbrev pub pure : {A : Type 0} → A → Exec A
pure a s = (ok a, s)

abbrev pub set_dir : DirName → SegDir → (DirName → SegDir) → DirName → SegDir
set_dir primary d dirs primary = d
set_dir primary d dirs failover = dirs failover
set_dir failover d dirs primary = dirs primary
set_dir failover d dirs failover = d

abbrev pub set_file : ℕ → List ℕ → (ℕ → List ℕ) → ℕ → List ℕ
set_file id bytes files i = if i == id then bytes else files i

-- One disk operation: the change that it makes when it succeeds, and when it fails after n bytes.
abbrev perform : List Outcome → (Disk → Disk) → (ℕ → Disk → Disk) → Exec (Unit {0})
perform [] good bad s = (ok tt, record s { disk = good s.disk })
perform (done ∷ os) good bad s = (ok tt, record s { disk = good (record s.disk { outcomes = os }) })
perform (fails n e ∷ os) good bad s =
    (err e, record s { disk = bad n (record s.disk { outcomes = os }) })

abbrev operation : (Disk → Disk) → (ℕ → Disk → Disk) → Exec (Unit {0})
operation good bad s = perform s.disk.outcomes good bad s

abbrev pub append_bytes : DirName → ℕ → List ℕ → Disk → Disk
append_bytes name id bytes d = record d {
  dir =
      set_dir name
        (record (d.dir name) {
          files = set_file id ((d.dir name).files id ++ bytes) (d.dir name).files;
        })
        d.dir;
}

abbrev keep : ℕ → Disk → Disk
keep _ d = d

-- `file.write_all`: the file was opened for appending.
unfoldable pub write_all : List ℕ → Exec (Unit {0})
write_all bytes s =
    let w = s.writer in
    operation (append_bytes w.active_dir w.seg_id bytes)
      (λ n. append_bytes w.active_dir w.seg_id (take n bytes)) s

-- `file.sync_data`, `create_dir_all` and `open_active` change no byte that is modelled.
unfoldable pub touch_disk : Exec (Unit {0})
touch_disk = operation (λ d. d) keep

-- `write_meta` replaces the file as a whole, by a rename.
unfoldable pub write_meta : DirName → ℕ → ℕ → Exec (Unit {0})
write_meta name id offset =
    operation
      (λ d. record d {
        dir = set_dir name (record (d.dir name) { meta = some (id, offset) }) d.dir;
      })
      keep

abbrev pub get_writer : Exec Writer
get_writer s = (ok s.writer, s)

abbrev pub put_writer : Writer → Exec (Unit {0})
put_writer w s = (ok tt, record s { writer = w })

unfoldable pub flush : Exec (Unit {0})
unfolding touch_disk write_meta
flush = do
  w ← get_writer
  if w.flush_offset == w.len && w.unflushed_items == 0 then pure tt else do
    touch_disk
    put_writer (record w { flush_offset = w.len; unflushed_items = 0 })
    write_meta w.active_dir w.seg_id w.len

-- `install`
abbrev pub installed : DirName → ℕ → Bool → Writer → Writer
installed name id failed w = record w {
  active_dir = name;
  seg_id = id;
  failed_over = failed;
  len = 0;
  flush_offset = 0;
  unflushed_items = 0;
}

-- The file of a new segment, opened in a directory.
unfoldable pub open_segment : DirName → ℕ → Exec (Unit {0})
unfolding touch_disk write_meta
open_segment name id = do touch_disk; touch_disk; write_meta name id 0

-- `let _ = ...`: the result is dropped.
abbrev pub ignoring : Exec (Unit {0}) → Exec (Unit {0})
ignoring m s = (ok tt, (m s).1)

unfoldable pub failover_rotate : Exec (Unit {0})
unfolding touch_disk open_segment
failover_rotate = do
  w ← get_writer
  if not w.has_failover then (λ s. (err other, s)) else do
    ignoring touch_disk
    open_segment failover (w.seg_id + 1)
    put_writer (installed failover (w.seg_id + 1) true w)

-- A handler of errors: what was done before the error stays done.
abbrev pub or_else : Exec (Unit {0}) → (IoError → Exec (Unit {0})) → Exec (Unit {0})
or_else m h s = handle (m s)
  where
    handle : IoResult (Unit {0}) × State → IoResult (Unit {0}) × State
    handle (ok u, s') = (ok u, s')
    handle (err e, s') = h e s'

-- Always to the primary directory first, which is the failback after a repair.
unfoldable pub rotate : Exec (Unit {0})
unfolding flush touch_disk open_segment failover_rotate
rotate = do
  w ← get_writer
  or_else flush (λ e. if not w.has_failover then (λ s. (err e, s)) else ignoring touch_disk)
  or_else
      (do
        open_segment primary (w.seg_id + 1)
        w' ← get_writer
        put_writer (installed primary (w.seg_id + 1) false w'))
      (λ e. if not w.has_failover then (λ s. (err e, s)) else failover_rotate)

module _ (crc32 : List ℕ → ℕ) where
  unfoldable pub write_record : Record → Exec (RecordAddr × ℕ)
  unfolding write_all flush
  write_record r = do
    w ← get_writer
    write_all (header_bytes crc32 r)
    write_all r.key
    write_all r.stored
    let w' = record w {
      len = w.len + (header_len + length r.key + length r.stored);
      unflushed_items = w.unflushed_items + 1;
    }
    put_writer w'
    (if leb w'.fsync_items w'.unflushed_items then flush else pure tt)
    pure (
      record {
        seg_id = w.seg_id;
        offset = w.len;
        stored_len = length r.stored % 2 ^ 32;
        key_len = length r.key % 2 ^ 16;
      },
      record_crc crc32 r,
    )

  -- The record again on the failover path, if the first write failed and there is one.
  retry : Record → IoResult (RecordAddr × ℕ) × State → IoResult (RecordAddr × ℕ) × State
  unfolding failover_rotate write_record
  retry r (ok a, s) = (ok a, s)
  retry r (err e, s) =
      if s.writer.has_failover && not s.writer.failed_over
      then (do failover_rotate; write_record r) s
      else (err e, s)

  unfoldable pub append_with_flags : Record → Exec (RecordAddr × ℕ)
  unfolding rotate write_record retry
  append_with_flags r = do
    w ← get_writer
    (if leb w.max_size w.len then rotate else pure tt)
    λ s. retry r (write_record r s)
