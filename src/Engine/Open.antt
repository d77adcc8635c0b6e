-- ===== src/Engine/Open.antt =====
-- `DiskEngine::open` of crates/ozd-engine/src/lib.rs: the tail of the active segment comes back to
-- the index, and the ballast file is kept at its size.
use ozd.Prelude.{
  ℕ, ◌*◌, ◌-◌, ◌^◌, min, List, [], ◌∷◌, Bool, true, false, Option, none, some, ltb, ◌==◌,
  if◌then◌else◌, ◌≡◌, refl, ◌∙◌, ap, sym, inl, inr, arith, bytes_eq, Bool-cases,
}
use ozd.Io.{IoResult, ok, err}
use ozd.Domain.{BlockKey, Body, DomainResult, ok, err, io}
use ozd.Domain.Piece.{PieceHeader, parse_piece_header}
use ozd.Segment.Scan.{RecoveredRecord}
use ozd.Index.{AddrEntry, encode_addr}
use ozd.Index.Roundtrip.{FitsEntry, decode-encode}
use ozd.Tables.{Table, Db, transaction, insert, Lookup, lookup, found, addressed}
use ozd.Engine.{
  Segments, Zstd, EngineConfig, Engine, get, get_between, unpack, read_answer, is_zstd,
}
use ozd.Engine.Reads.{final}
use ozd.Engine.Append.{commit-ok}

abbrev same_size : Option ℕ → ℕ → Bool
same_size none m = false
same_size (some n) m = n == m

-- `ensure_ballast`: the size of the file if there is one, the free bytes, and whether a new file can
-- be written. The answer is whether the ballast lies on the disk.
unfoldable pub ensure_ballast : EngineConfig → Option ℕ → ℕ → Bool → Bool
ensure_ballast cfg file free writes =
    if cfg.ballast_bytes == 0
    then false
    else if same_size file cfg.ballast_bytes
    then true
    else if ltb free (min (cfg.ballast_bytes * 2) (2 ^ 64 - 1))
    then false
    else writes

abbrev piece_len : Option PieceHeader → Option ℕ
piece_len none = none
piece_len (some h) = some h.logical_len

abbrev piece_of : Option Body → Option ℕ
piece_of none = none
piece_of (some body) = piece_len (parse_piece_header body)

abbrev pub last_or : BlockKey → RecoveredRecord → Option RecoveredRecord → Option RecoveredRecord
last_or k r (some q) = some q
last_or k r none = if bytes_eq r.key k then some r else none

-- The last record of a key.
abbrev pub last_of : BlockKey → List RecoveredRecord → Option RecoveredRecord
last_of k [] = none
last_of k (r ∷ rs) = last_or k r (last_of k rs)

module _ (segments : Segments) (zstd : Zstd) (cfg : EngineConfig) where
  abbrev State : Type 0
  State = Engine segments zstd cfg

  -- The stored bytes of a record, unpacked if they can be.
  abbrev pub raw_of : RecoveredRecord → Option Body
  raw_of r = if is_zstd r.flags then zstd.decompress r.stored r.logical_len else some r.stored

  -- The row of a recovered record; the length of the object comes from the envelope of a piece.
  unfoldable pub recovered_entry : RecoveredRecord → AddrEntry
  unfolding parse_piece_header
  recovered_entry r = record {
    addr = r.addr;
    crc = r.crc;
    logical_len = r.logical_len;
    flags = r.flags;
    obj_logical = piece_of (raw_of r);
  }

  -- The rows of the tail, in the order of the file.
  unfoldable pub index_tail : List RecoveredRecord → Table → Table
  unfolding insert recovered_entry
  index_tail [] t = t
  index_tail (r ∷ rs) t = index_tail rs (insert r.key (encode_addr (recovered_entry r)) t)

  abbrev pub recover_rows : List RecoveredRecord → Db → DomainResult (Unit {0}) × Db
  recover_rows [] db = (ok tt, db)
  recover_rows (r ∷ rs) db = transaction (λ ix. record ix { addr = index_tail (r ∷ rs) ix.addr }) db

  -- The engine after `SegmentWriter::open`, which gave the records of the tail, the files and the
  -- length of the active segment.
  unfoldable pub open_with :
      Bool → Bool → DomainResult (Unit {0}) × Db → segments.Store → ℕ → DomainResult State
  open_with file present (err x, db) s used = err x
  open_with file present (ok _, db) s used = ok (record {
    store = s;
    db = db;
    ballast_file = file;
    ballast_present = present;
    used_bytes = used;
  })

  unfoldable pub open_engine :
      IoResult (List RecoveredRecord × segments.Store) → ℕ → Bool → Bool → Db → DomainResult State
  unfolding open_with index_tail
  open_engine (err x) used file present db = err io
  open_engine (ok (rs, s)) used file present db = open_with file present (recover_rows rs db) s used

  index_tail-none :
      (rs : List RecoveredRecord) (t : Table) (k : BlockKey)
      → last_of k rs ≡ none
      → index_tail rs t k ≡ t k
  unfolding index_tail insert
  index_tail-none [] t k h = refl
  index_tail-none (r ∷ rs) t k h =
      index_tail-none rs _ k (rest_none (last_of k rs) h) ∙ rw (foreign (last_of k rs) h) refl
    where
      rest_none : (o : Option RecoveredRecord) → last_or k r o ≡ none → o ≡ none
      rest_none none e = refl
      rest_none (some q) e = ground arith

      foreign : (o : Option RecoveredRecord) → last_or k r o ≡ none → bytes_eq r.key k ≡ false
      foreign none e = elim (Bool-cases (bytes_eq r.key k)) [
        | inl own ↦ absurd (let no = rw own at e in ground arith)
        | inr other ↦ other
      ]
      foreign (some q) e = absurd (ground arith)

  abbrev row_of : Option RecoveredRecord → Option (List ℕ)
  row_of none = none
  row_of (some r) = some (encode_addr (recovered_entry r))

  index_tail-last :
      (rs : List RecoveredRecord) (t : Table) (k : BlockKey) (r : RecoveredRecord)
      → last_of k rs ≡ some r
      → index_tail rs t k ≡ some (encode_addr (recovered_entry r))
  unfolding index_tail insert
  index_tail-last [] t k r h = absurd (ground arith)
  index_tail-last (q ∷ rs) t k r h =
      go (last_of k rs) h (index_tail-last rs _ k r) (index_tail-none rs _ k)
    where
      t' : Table
      t' = insert q.key (encode_addr (recovered_entry q)) t

      go :
          (o : Option RecoveredRecord)
          → last_or k q o ≡ some r
          → (o ≡ some r → index_tail rs t' k ≡ some (encode_addr (recovered_entry r)))
          → (o ≡ none → index_tail rs t' k ≡ t' k)
          → index_tail rs t' k ≡ some (encode_addr (recovered_entry r))
      go (some p) e later earlier = later e
      go none e later earlier = elim (Bool-cases (bytes_eq q.key k)) [
        | inl own ↦
            let same : some q ≡ some r = rw own at e in
            let here : t' k ≡ row_of (some q) = rw own refl in earlier refl ∙ here ∙ ap row_of same
        | inr other ↦ absurd (let no = rw other at e in ground arith)
      ]

  -- The row of the last record of a key is found, unless the key is in the inline table.
  recovered-lookup :
      (rs : List RecoveredRecord) (db : Db) (k : BlockKey) (r : RecoveredRecord)
      → (recover_rows rs db).0 ≡ ok tt
      → db.index.inline k ≡ none
      → last_of k rs ≡ some r
      → FitsEntry (recovered_entry r)
      → lookup k (recover_rows rs db).1.index ≡ ok (addressed (recovered_entry r))
  unfolding lookup
  recovered-lookup [] db k r done no_inline last fits = absurd (ground arith)
  recovered-lookup (q ∷ rs) db k r done no_inline last fits =
      ap (lookup k) (commit-ok db.commits _ db.index done)
      ∙ rw (no_inline, index_tail-last (q ∷ rs) db.index.addr k r last, decode-encode _ fits) refl

  read_entry :
      (l : DomainResult Lookup) (s : segments.Store) (x : AddrEntry) (stored : Body)
      → l ≡ ok (addressed x)
      → segments.read s x.addr x.crc ≡ ok stored
      → final segments zstd cfg l s ≡ unpack segments zstd cfg x stored
  unfolding read_answer
  read_entry l s x stored found read = rw (found, read, read_answer) refl

  abbrev get_from : BlockKey → DomainResult State → DomainResult Body
  get_from k (ok e) = get segments zstd cfg k e
  get_from k (err x) = err x

  -- After an engine is opened, a key of the recovered tail reads the last of its records there, if
  -- the key is not in the inline table, its row's fields fit and the record can be read. That is so
  -- whatever the address table held for the key: also if the key had been deleted since, or its
  -- record moved.
  pub get-open :
      (rs : List RecoveredRecord) (s : segments.Store) (used : ℕ) (file present : Bool) (db : Db)
      (e : State) (k : BlockKey) (r : RecoveredRecord)
      → open_engine (ok (rs, s)) used file present db ≡ ok e
      → db.index.inline k ≡ none
      → last_of k rs ≡ some r
      → FitsEntry (recovered_entry r)
      → segments.read s r.addr r.crc ≡ ok r.stored
      → get segments zstd cfg k e ≡ unpack segments zstd cfg (recovered_entry r) r.stored
  unfolding open_engine open_with get_between
  get-open rs s used file present db e k r opened no_inline last fits read =
      go (recover_rows rs db) refl opened
    where
      go :
          (x : DomainResult (Unit {0}) × Db)
          → recover_rows rs db ≡ x
          → open_with file present x s used ≡ ok e
          → get segments zstd cfg k e ≡ unpack segments zstd cfg (recovered_entry r) r.stored
      go (err y, db') same opened' = absurd (ground arith)
      go (ok u, db') same opened' =
          let found : lookup k db'.index ≡ ok (addressed (recovered_entry r)) =
            ap (λ x. lookup k x.1.index) (sym same)
            ∙ recovered-lookup rs db k r (ap (λ x. x.0) same) no_inline last fits in
          ap (get_from k) (sym opened')
          ∙ read_entry (lookup k db'.index) s (recovered_entry r) r.stored found read
