-- ===== src/Engine.antt =====
-- `DiskEngine` of crates/ozd-engine/src/lib.rs: two tables of the index over the pack segments.
pub mod Reads
pub mod Append
pub mod Durable
pub mod Gc
pub mod Catalog
pub mod Shard
pub mod Open
pub mod Roundtrip
mod Tests
use ozd.Prelude.{
  ℕ, ◌+◌, ◌%◌, ◌^◌, List, [], ◌∷◌, Bool, true, false, not, ◌&&◌, ◌||◌, ◌⊎◌, inl, inr, Option, none,
  some, ltb, leb, ◌==◌, if◌then◌else◌, length, bytes_eq, Option-cases,
}
use ozd.Io.{IoError, enospc, invalid_data, unexpected_eof, other, IoResult, ok, err}
use ozd.Domain.{BlockKey, Body, DomainResult, ok, err, io, not_found, integrity_violation, corrupt}
use ozd.Segment.{Record, RecordAddr}
use ozd.Index.{AddrEntry}
use ozd.Tables.{
  Index, Db, transaction, put_inline, put_addr, delete_rows, Lookup, inlined, addressed, missing,
  lookup, is_some,
}

pub record EngineConfig : Type 0 where
  pub inline_min : ℕ
  pub compress_zstd : Bool
  pub compress_min : ℕ
  pub ballast_bytes : ℕ

-- The pack segments as the engine uses them. `append` is `SegmentWriter::append_with_flags`, and
-- `read` is `read_record` in the directory that holds the segment.
pub record Segments : Type 1 where
  pub Store : Type 0
  pub append : Record → Store → IoResult (RecordAddr × ℕ) × Store
  pub read : Store → RecordAddr → ℕ → IoResult (List ℕ)

-- `zstd::bulk`: a compressed body, and a body of at most so many bytes.
pub record Zstd : Type 0 where
  pub compress : Body → Option Body
  pub decompress : Body → ℕ → Option Body

-- `FLAG_ZSTD` is the lowest bit of the flags.
abbrev pub is_zstd : ℕ → Bool
is_zstd flags = not (flags % 2 == 0)

abbrev same_obj : Option ℕ → Option ℕ → Bool
same_obj none none = true
same_obj none (some b) = false
same_obj (some a) none = false
same_obj (some a) (some b) = a == b

abbrev pub is_enospc : IoError → Bool
is_enospc enospc = true
is_enospc invalid_data = false
is_enospc unexpected_eof = false
is_enospc other = false

module _ (segments : Segments) (zstd : Zstd) (cfg : EngineConfig) where
  open segments use {Store}

  -- `ballast_file`: the file lies on the disk; `ballast_present`: the engine's own note of it.
  pub record Engine : Type 0 where
    pub store : Store
    pub db : Db
    pub ballast_file : Bool
    pub ballast_present : Bool
    pub used_bytes : ℕ

  -- Whether the file was there and has been removed.
  unfoldable pub release_ballast_file : Engine → Bool × Engine
  release_ballast_file e =
      if cfg.ballast_bytes == 0 || not e.ballast_file
      then (false, e)
      else (true, record e { ballast_file = false; ballast_present = false })

  -- The flags and the bytes that are stored for a body.
  unfoldable pub pack : Body → ℕ × Body
  pack body =
      if cfg.compress_zstd && leb cfg.compress_min (length body)
      then elim (zstd.compress body) [
        | none ↦ (0, body)
        | some c ↦ if ltb (length c) (length body) then (1, c) else (0, body)
      ]
      else (0, body)

  abbrev pub with_db : Engine → DomainResult (Unit {0}) × Db → DomainResult (Unit {0}) × Engine
  with_db e (r, db) = (r, record e { db = db })

  -- After an append: the row of the new address.
  unfoldable pub index_record :
      BlockKey
      → Body
      → Option ℕ
      → IoResult (RecordAddr × ℕ)
      → Engine
      → DomainResult (Unit {0}) × Engine
  unfolding pack put_addr
  index_record key body obj (err x) e = (err io, e)
  index_record key body obj (ok (addr, crc)) e =
      with_db (record e { used_bytes = (e.used_bytes + length (pack body).1) % 2 ^ 64 })
        (transaction
          (put_addr key (record {
            addr = addr;
            crc = crc;
            logical_len = length body % 2 ^ 32;
            flags = (pack body).0;
            obj_logical = obj;
          }))
          e.db)

  abbrev pub record_of : BlockKey → Body → Record
  record_of key body = record {
    key = key;
    stored = (pack body).1;
    logical_len = length body % 2 ^ 32;
    flags = (pack body).0;
  }

  -- An append whose disk is full is tried once more, if a ballast could be released.
  unfoldable pub append_retried :
      Record → IoResult (RecordAddr × ℕ) × Store → Engine → IoResult (RecordAddr × ℕ) × Engine
  unfolding release_ballast_file
  append_retried r (ok a, s) e = (ok a, record e { store = s })
  append_retried r (err x, s) e =
      let (released, e') = release_ballast_file (record e { store = s }) in
      let again = segments.append r s in
      if is_enospc x && released
      then (again.0, record e' { store = again.1 })
      else (err x, record e { store = s })

  unfoldable pub put_impl : BlockKey → Body → Option ℕ → Engine → DomainResult (Unit {0}) × Engine
  unfolding put_inline index_record append_retried
  put_impl key body obj e =
      let r = record_of key body in
      let appended = append_retried r (segments.append r e.store) e in
      if not (is_some obj) && ltb (length body % 2 ^ 32) cfg.inline_min
      then with_db e (transaction (put_inline key body) e.db)
      else index_record key body obj appended.0 appended.1

  unfoldable pub delete : BlockKey → Engine → DomainResult (Unit {0}) × Engine
  delete key e = with_db e (transaction (delete_rows key) e.db)

  -- What `get` makes of the stored bytes of a row.
  unfoldable pub unpack : AddrEntry → Body → DomainResult Body
  unpack entry stored =
      if not (is_zstd entry.flags)
      then ok stored
      else elim (zstd.decompress stored entry.logical_len) [
        | none ↦ err integrity_violation
        | some out ↦
            if not (length out == entry.logical_len) then err integrity_violation else ok out
      ]

  -- One attempt of `get`: an answer, or the row whose record could not be read.
  unfoldable pub read_answer : AddrEntry → IoResult (List ℕ) → DomainResult Body ⊎ AddrEntry
  unfolding unpack
  read_answer e (ok stored) = inl (unpack e stored)
  read_answer e (err invalid_data) = inl (err corrupt)
  read_answer e (err enospc) = inr e
  read_answer e (err unexpected_eof) = inr e
  read_answer e (err other) = inr e

  abbrev pub answer : DomainResult Lookup → Store → DomainResult Body ⊎ AddrEntry
  answer (err x) s = inl (err x)
  answer (ok (inlined v)) s = inl (ok v)
  answer (ok missing) s = inl (err not_found)
  answer (ok (addressed e)) s = read_answer e (segments.read s e.addr e.crc)

  -- `AddrEntry` derives equality; its fields are what its row holds.
  abbrev pub same_entry : AddrEntry → AddrEntry → Bool
  same_entry a b =
      a.addr.seg_id == b.addr.seg_id
      && a.addr.offset == b.addr.offset
      && a.addr.stored_len == b.addr.stored_len
      && a.addr.key_len == b.addr.key_len
      && a.crc == b.crc
      && a.logical_len == b.logical_len
      && a.flags == b.flags
      && same_obj a.obj_logical b.obj_logical

  -- The second attempt, after the row of the first one could not be read: it reads only a row that
  -- has changed meanwhile.
  abbrev pub last_answer : DomainResult Body ⊎ AddrEntry → DomainResult Body
  last_answer (inl r) = r
  last_answer (inr _) = err io

  abbrev pub retry_get : AddrEntry → Store → DomainResult Lookup → DomainResult Body
  retry_get prev s (ok (addressed e)) =
      if same_entry prev e then err io else last_answer (answer (ok (addressed e)) s)
  retry_get prev s (ok (inlined v)) = ok v
  retry_get prev s (ok missing) = err not_found
  retry_get prev s (err x) = err x

  abbrev pub after_first :
      DomainResult Body ⊎ AddrEntry → DomainResult Lookup → Store → DomainResult Body
  after_first (inl r) found s = r
  after_first (inr prev) found s = retry_get prev s found

  -- `get`: each attempt sees the tables and the segments as they are at its time.
  unfoldable pub get_between : BlockKey → Index × Store → Index × Store → DomainResult Body
  unfolding lookup
  get_between key (ix1, s1) (ix2, s2) = after_first (answer (lookup key ix1) s1) (lookup key ix2) s2

  abbrev pub get : BlockKey → Engine → DomainResult Body
  get key e = get_between key (e.db.index, e.store) (e.db.index, e.store)
