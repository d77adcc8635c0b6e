-- ===== src/Engine/Gc/Rows.antt =====
-- The garbage collection of crates/ozd-engine/src/lib.rs and the row of one readable key.
use ozd.Prelude.{
  ℕ, ◌^◌, ◌<◌, List, [], ◌∷◌, Bool, true, false, ◌&&◌, Option, none, some, ◌≡◌, refl, ◌∙◌, ap, inl,
  inr, bytes_eq, bytes_eq_iff, Bool-cases, All,
}
use mathlib.Core.List.{Memᴰ}
use ozd.Io.{ok, err}
use ozd.Domain.{BlockKey, Body, DomainResult, ok, err}
use ozd.Segment.{RecordAddr}
use ozd.Segment.Scan.{RecoveredRecord}
use ozd.Segment.Recovery.{FitsRecord}
use ozd.Index.{AddrEntry}
use ozd.Index.Roundtrip.{FitsObj, FitsEntry, decode-encode}
use ozd.Tables.Laws.{found_row}
use ozd.Tables.{Index, Db, commit, lookup, addressed, Lookup, insert}
use ozd.Engine.{Segments, Zstd, EngineConfig, Engine, unpack}
use ozd.Engine.Reads.{IsAppendOnly, Held}
use ozd.Engine.Gc.{DbReads, Files, same_place, copy_entry, swap_row, row_at, cas, as_record}
use ozd.Engine.Gc.Collect.{then_do, transact}

-- A record that a scan of a segment gives: it stands there, and its lengths, read from the fields of
-- a header, fit them.
abbrev pub OfSegment : ℕ → RecoveredRecord → Type 0
OfSegment id r = (r.addr.seg_id ≡ id) × FitsRecord (as_record r)

-- What is documented of the files: an append writes to the active segment, never to a sealed one,
-- and leaves nothing torn when it succeeds; a flush loses nothing; a removal takes one segment.
pub record IsFiles (segments : Segments) (files : Files segments) (Whole : segments.Store → Type 0)
    : Type 0 where
  pub whole :
      (r : _) (s : segments.Store) (x : RecordAddr × ℕ)
      → Whole s
      → (segments.append r s).0 ≡ ok x
      → Whole (segments.append r s).1
  pub sealed :
      (r : _) (s : segments.Store) (x : ℕ × ℕ)
      → Memᴰ x (files.sealed_segments s)
      → Memᴰ x (files.sealed_segments (segments.append r s).1)
  pub active :
      (r : _) (s : segments.Store) (id size crc : ℕ) (a : RecordAddr)
      → Memᴰ (id, size) (files.sealed_segments s)
      → (segments.append r s).0 ≡ ok (a, crc)
      → ¬ (a.seg_id ≡ id)
  pub scanned :
      (s : segments.Store) (id : ℕ) (rs : List RecoveredRecord)
      → files.scan s id ≡ ok rs
      → All (OfSegment id) rs
  pub flushed :
      (s : segments.Store) (a : RecordAddr) (crc : ℕ) (stored : Body)
      → segments.read s a crc ≡ ok stored
      → segments.read (files.flush s).1 a crc ≡ ok stored
  pub removed :
      (s : segments.Store) (id : ℕ) (a : RecordAddr) (crc : ℕ) (stored : Body)
      → ¬ (a.seg_id ≡ id)
      → segments.read s a crc ≡ ok stored
      → segments.read (files.remove_file id s).1 a crc ≡ ok stored

module _ (segments : Segments) (zstd : Zstd) (cfg : EngineConfig) (files : Files segments)
    (reads : DbReads) (Whole : segments.Store → Type 0) (append_only : IsAppendOnly segments Whole)
    (law : IsFiles segments files Whole) (k : BlockKey) (b : Body) where
  abbrev pub S : Type 0
  S = Engine segments zstd cfg

  -- The body of the key is readable.
  abbrev pub Safe : S → Type 0
  Safe e = Held segments zstd cfg (lookup k e.db.index) e.store b

  -- The record's copy gives the body, and its fields fit the row.
  pub record Restores (e : AddrEntry) (r : RecoveredRecord) : Type 0 where
    pub unpacked :
        (a : RecordAddr) (crc : ℕ) → unpack segments zstd cfg (copy_entry r a crc e) r.stored ≡ ok b
    pub logical_len : r.logical_len < 256 ^ 4
    pub flags : r.flags < 256 ^ 2
    pub obj : FitsObj e.obj_logical

  abbrev pub is_row : AddrEntry → RecoveredRecord → Bool
  is_row e r = bytes_eq r.key k && same_place e.addr r.addr

  -- The first record of the list at the row's place, under the key, gives the body.
  pub data Finds (e : AddrEntry) : List RecoveredRecord → Type 0 where
    here :
        (r : RecoveredRecord) (rs : List RecoveredRecord)
        → is_row e r ≡ true
        → Restores e r
        → Finds e (r ∷ rs)
    there :
        (r : RecoveredRecord) (rs : List RecoveredRecord)
        → is_row e r ≡ false
        → Finds e rs
        → Finds e (r ∷ rs)

  -- The row of the key, if it points to the segment, is among its records.
  abbrev pub Scanned : ℕ → List RecoveredRecord → DomainResult Lookup → Type 0
  Scanned id rs l = (e : AddrEntry) → l ≡ ok (addressed e) → e.addr.seg_id ≡ id → Finds e rs

  abbrev pub Away : ℕ → DomainResult Lookup → Type 0
  Away id l = (e : AddrEntry) → l ≡ ok (addressed e) → ¬ (e.addr.seg_id ≡ id)

  -- After a step the body is readable, and if it succeeded then more holds.
  abbrev pub Outcome {ℓ} : {A : Type ℓ} → (A → S → Type 0) → DomainResult A × S → Type 0
  Outcome Q (ok a, e) = Q a e
  Outcome Q (err x, e) = Safe e

  pub then-Outcome {ℓ κ} :
      {A : Type ℓ} {B : Type κ} (Q : A → S → Type 0) (R : B → S → Type 0) (x : DomainResult A × S)
      (f : A → S → DomainResult B × S)
      → Outcome Q x
      → ((a : A) (e : S) → Q a e → Outcome R (f a e))
      → Outcome R (then_do segments zstd cfg files reads x f)
  then-Outcome Q R (ok a, e) f h g = g a e h
  then-Outcome Q R (err x, e) f h g = h

  commit-Outcome :
      (Q : S → Type 0) (f : Index → Index) (e : S) (cs : List Bool)
      → Safe e
      → ((db : Db) → db.index ≡ f e.db.index → Q (record e { db = db }))
      → Outcome (λ _. Q) ((commit cs f e.db.index).0, record e { db = (commit cs f e.db.index).1 })
  commit-Outcome Q f e [] safe h = h _ refl
  commit-Outcome Q f e (true ∷ cs) safe h = h _ refl
  commit-Outcome Q f e (false ∷ cs) safe h = safe

  -- A transaction changes the index as it says, or not at all.
  pub transact-Outcome :
      (Q : S → Type 0) (f : Index → Index) (e : S)
      → Safe e
      → ((db : Db) → db.index ≡ f e.db.index → Q (record e { db = db }))
      → Outcome (λ _. Q) (transact segments zstd cfg files reads f e)
  unfolding transact
  transact-Outcome Q f e = commit-Outcome Q f e e.db.commits

  -- The row of a key points to the copy after the swap.
  pub lookup-cas :
      (r : RecoveredRecord) (a : RecordAddr) (crc : ℕ) (ix : Index) (e : AddrEntry)
      → bytes_eq r.key k ≡ true
      → lookup k ix ≡ ok (addressed e)
      → same_place e.addr r.addr ≡ true
      → FitsEntry (copy_entry r a crc e)
      → lookup k (cas r a crc ix) ≡ ok (addressed (copy_entry r a crc e))
  unfolding cas lookup insert
  lookup-cas r a crc ix e own row place fits =
      let (no_inline, v, at, decoded) = found_row (ix.inline k) (ix.addr k) e row in
      let key≡k : r.key ≡ k = (bytes_eq_iff r.key k).0 own in
      let is_row : row_at (ix.addr r.key) ≡ some e =
        ap (λ j. row_at (ix.addr j)) key≡k ∙ ap row_at at ∙ decoded in
      rw (is_row, place, own, no_inline, decode-encode (copy_entry r a crc e) fits) refl

  -- The other rows stay as they are.
  pub lookup-cas_other :
      (r : RecoveredRecord) (a : RecordAddr) (crc : ℕ) (ix : Index)
      → bytes_eq r.key k ≡ false
      → lookup k (cas r a crc ix) ≡ lookup k ix
  unfolding cas lookup insert
  lookup-cas_other r a crc ix foreign = swapped (row_at (ix.addr r.key))
    where
      swapped : (o : Option AddrEntry) → lookup k (swap_row r a crc o ix) ≡ lookup k ix
      swapped none = refl
      swapped (some e) = elim (Bool-cases (same_place e.addr r.addr)) [
        | inl same ↦ rw (same, foreign) refl
        | inr moved ↦ rw moved refl
      ]
