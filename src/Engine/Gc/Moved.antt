-- ===== src/Engine/Gc/Moved.antt =====
-- The scan of the victim in `gc_once` of crates/ozd-engine/src/lib.rs keeps what is readable.
use ozd.Prelude.{
  ℕ, List, [], ◌∷◌, Bool, true, false, ◌≡◌, refl, ◌∙◌, ap, sym, inl, inr, arith, bytes_eq,
  bytes_eq_iff, Bool-cases, All,
}
use mathlib.Core.List.{Memᴰ}
use ozd.Io.{IoResult, ok, err}
use ozd.Domain.{BlockKey, Body, DomainResult, ok, err}
use ozd.Segment.{RecordAddr}
use ozd.Segment.Scan.{RecoveredRecord}
use ozd.Index.{AddrEntry}
use ozd.Index.Roundtrip.{FitsEntry}
use ozd.Tables.{Index, Db, lookup, addressed, inlined, missing, Lookup}
use ozd.Engine.{Segments, Zstd, EngineConfig, Engine}
use ozd.Engine.Reads.{IsAppendOnly, Held, Held-append}
use ozd.Engine.Gc.{DbReads, read_row, Files, Moving, alive, same_place, copy_entry, cas, as_record}
use ozd.Engine.Gc.Rows.{
  IsFiles, OfSegment, Finds, here, there, then-Outcome, transact-Outcome, lookup-cas,
  lookup-cas_other,
}
use ozd.Engine.Gc.Collect.{transact, copied, move_record, move_all}
use ozd.Engine.Gc.Rows

module _ (segments : Segments) (zstd : Zstd) (cfg : EngineConfig) (files : Files segments)
    (reads : DbReads) (Whole : segments.Store → Type 0) (append_only : IsAppendOnly segments Whole)
    (law : IsFiles segments files Whole) (k : BlockKey) (b : Body) where
  abbrev S : Type 0
  S = Engine segments zstd cfg

  abbrev Safe : S → Type 0
  Safe = Rows.Safe segments zstd cfg files reads Whole append_only law k b

  abbrev Restores : AddrEntry → RecoveredRecord → Type 0
  Restores = Rows.Restores segments zstd cfg files reads Whole append_only law k b

  abbrev is_row : AddrEntry → RecoveredRecord → Bool
  is_row = Rows.is_row segments zstd cfg files reads Whole append_only law k b

  abbrev Scanned : ℕ → List RecoveredRecord → DomainResult Lookup → Type 0
  Scanned = Rows.Scanned segments zstd cfg files reads Whole append_only law k b

  abbrev Outcome {ℓ} : {A : Type ℓ} → (A → S → Type 0) → DomainResult A × S → Type 0
  Outcome = Rows.Outcome segments zstd cfg files reads Whole append_only law k b

  -- Before each record of the victim: the body is readable, the store is whole, the victim is sealed,
  -- and the row of the key is among the records that are left, if it points to the victim.
  pub record Loop (id size : ℕ) (rs : List RecoveredRecord) (e : S) : Type 0 where
    pub fine : reads.fails k ≡ false
    pub safe : Safe e
    pub whole : Whole e.store
    pub sealed : Memᴰ (id, size) (files.sealed_segments e.store)
    pub rows : Scanned id rs (lookup k e.db.index)

  alive-row :
      (old : RecordAddr) (l : DomainResult Lookup)
      → alive old l ≡ true
      → (e : AddrEntry) × (l ≡ ok (addressed e)) × (same_place e.addr old ≡ true)
  unfolding alive
  alive-row old (ok (addressed e)) h = (e, refl, h)
  alive-row old (ok (inlined v)) h = absurd cc
  alive-row old (ok missing) h = absurd cc
  alive-row old (err x) h = absurd cc

  Finds-rest :
      (e : AddrEntry) (r : RecoveredRecord) (rs : List RecoveredRecord)
      → is_row e r ≡ false
      → Finds segments zstd cfg files reads Whole append_only law k b e (r ∷ rs)
      → Finds segments zstd cfg files reads Whole append_only law k b e rs
  Finds-rest e r rs skip (here _ _ hit restores) = absurd (ground arith)
  Finds-rest e r rs skip (there _ _ skipped rest) = rest

  Finds-first :
      (e : AddrEntry) (r : RecoveredRecord) (rs : List RecoveredRecord)
      → is_row e r ≡ true
      → Finds segments zstd cfg files reads Whole append_only law k b e (r ∷ rs)
      → Restores e r
  Finds-first e r rs hit (here _ _ _ restores) = restores
  Finds-first e r rs hit (there _ _ skipped rest) = absurd (ground arith)

  read_row-own :
      (r : RecoveredRecord) (ix : Index)
      → bytes_eq r.key k ≡ true
      → reads.fails k ≡ false
      → read_row reads r.key ix ≡ lookup k ix
  unfolding read_row
  read_row-own r ix own fine = rw ((bytes_eq_iff r.key k).0 own, fine) refl

  dead-Loop :
      (id size : ℕ) (r : RecoveredRecord) (rs : List RecoveredRecord) (e : S)
      → alive r.addr (read_row reads r.key e.db.index) ≡ false
      → Loop id size (r ∷ rs) e
      → Loop id size rs e
  unfolding alive
  dead-Loop id size r rs e dead loop = record {
    fine = loop.fine;
    safe = loop.safe;
    whole = loop.whole;
    sealed = loop.sealed;
    rows = λ x row at_id. Finds-rest x r rs (other_row x row) (loop.rows x row at_id);
  }
    where
      other_row : (x : AddrEntry) → lookup k e.db.index ≡ ok (addressed x) → is_row x r ≡ false
      other_row x row = elim (Bool-cases (bytes_eq r.key k)) [
        | inr foreign ↦ rw foreign refl
        | inl own ↦
            let found_r : read_row reads r.key e.db.index ≡ ok (addressed x) =
              read_row-own r e.db.index own loop.fine ∙ row in
            rw own (rw found_r at dead)
      ]

  abbrev appended_to : RecoveredRecord → S → S
  appended_to r e = record e { store = (segments.append (as_record r) e.store).1 }

  foreign-Loop :
      (id size : ℕ) (r : RecoveredRecord) (rs : List RecoveredRecord) (e : S) (a : RecordAddr)
      (crc : ℕ) (db : Db)
      → (segments.append (as_record r) e.store).0 ≡ ok (a, crc)
      → bytes_eq r.key k ≡ false
      → db.index ≡ cas r a crc e.db.index
      → Loop id size (r ∷ rs) e
      → Loop id size rs (record (appended_to r e) { db = db })
  foreign-Loop id size r rs e a crc db appended foreign moved loop =
      let same : lookup k db.index ≡ lookup k e.db.index =
        ap (lookup k) moved
        ∙ lookup-cas_other segments zstd cfg files reads Whole append_only law k b r a crc
            e.db.index foreign in
      record {
        fine = loop.fine;
        safe =
            rw same
              (Held-append segments zstd cfg Whole append_only (as_record r) _ e.store b loop.safe);
        whole = law.whole (as_record r) e.store (a, crc) loop.whole appended;
        sealed = law.sealed (as_record r) e.store (id, size) loop.sealed;
        rows =
            λ x row at_id. Finds-rest x r rs (rw foreign refl) (loop.rows x (sym same ∙ row) at_id);
      }

  abbrev segment_of : DomainResult Lookup → ℕ
  segment_of (ok (addressed x)) = x.addr.seg_id
  segment_of (ok (inlined v)) = 0
  segment_of (ok missing) = 0
  segment_of (err x) = 0

  own-Loop :
      (id size : ℕ) (r : RecoveredRecord) (rs : List RecoveredRecord) (e : S) (a : RecordAddr)
      (crc : ℕ) (db : Db)
      → (segments.append (as_record r) e.store).0 ≡ ok (a, crc)
      → OfSegment id r
      → bytes_eq r.key k ≡ true
      → alive r.addr (read_row reads r.key e.db.index) ≡ true
      → db.index ≡ cas r a crc e.db.index
      → Loop id size (r ∷ rs) e
      → Loop id size rs (record (appended_to r e) { db = db })
  unfolding Held
  own-Loop id size r rs e a crc db appended in_id own live moved loop =
      let (x, row_r, place) = alive-row r.addr (read_row reads r.key e.db.index) live in
      let row : lookup k e.db.index ≡ ok (addressed x) =
        sym (read_row-own r e.db.index own loop.fine) ∙ row_r in
      let at_id : x.addr.seg_id ≡ id = ground (arith, in_id.0, place) in
      let restores : Restores x r = Finds-first x r rs (rw own place) (loop.rows x row at_id) in
      let (read, addr_fits, crc_fits) =
        append_only.appended (as_record r) e.store a crc in_id.1 loop.whole appended in
      let copy = copy_entry r a crc x in
      let fits : FitsEntry copy = record {
        addr = addr_fits;
        crc = crc_fits;
        logical_len = restores.logical_len;
        flags = restores.flags;
        obj = restores.obj;
      } in
      let now : lookup k db.index ≡ ok (addressed copy) =
        ap (lookup k) moved
        ∙ lookup-cas segments zstd cfg files reads Whole append_only law k b r a crc e.db.index x
            own row place fits in
      record {
        fine = loop.fine;
        safe = inr (copy, r.stored, now, read, restores.unpacked a crc);
        whole = law.whole (as_record r) e.store (a, crc) loop.whole appended;
        sealed = law.sealed (as_record r) e.store (id, size) loop.sealed;
        rows = λ y row' at_id'. absurd (
            law.active (as_record r) e.store id size crc a loop.sealed appended
              (ap segment_of (sym now ∙ row') ∙ at_id'));
      }

  moved-Loop :
      (id size : ℕ) (r : RecoveredRecord) (rs : List RecoveredRecord) (e : S) (a : RecordAddr)
      (crc : ℕ) (db : Db)
      → (segments.append (as_record r) e.store).0 ≡ ok (a, crc)
      → OfSegment id r
      → alive r.addr (read_row reads r.key e.db.index) ≡ true
      → db.index ≡ cas r a crc e.db.index
      → Loop id size (r ∷ rs) e
      → Loop id size rs (record (appended_to r e) { db = db })
  moved-Loop id size r rs e a crc db appended in_id live moved loop =
      elim (Bool-cases (bytes_eq r.key k)) [
        | inl own ↦ own-Loop id size r rs e a crc db appended in_id own live moved loop
        | inr foreign ↦ foreign-Loop id size r rs e a crc db appended foreign moved loop
      ]

  copied-Outcome :
      (id size : ℕ) (r : RecoveredRecord) (rs : List RecoveredRecord) (m : Moving) (e : S)
      (x : IoResult (RecordAddr × ℕ))
      → (segments.append (as_record r) e.store).0 ≡ x
      → OfSegment id r
      → alive r.addr (read_row reads r.key e.db.index) ≡ true
      → Loop id size (r ∷ rs) e
      → Outcome
          (λ _. Loop id size rs)
          (copied segments zstd cfg files reads r x m (appended_to r e))
  unfolding copied
  copied-Outcome id size r rs m e (err y) appended in_id live loop =
      Held-append segments zstd cfg Whole append_only (as_record r) _ e.store b loop.safe
  copied-Outcome id size r rs m e (ok (a, crc)) appended in_id live loop =
      then-Outcome segments zstd cfg files reads Whole append_only law k b (λ _. Loop id size rs)
        (λ _. Loop id size rs)
        (transact segments zstd cfg files reads (cas r a crc) (appended_to r e)) _
        (transact-Outcome segments zstd cfg files reads Whole append_only law k b (Loop id size rs)
          (cas r a crc) (appended_to r e)
          (Held-append segments zstd cfg Whole append_only (as_record r) _ e.store b loop.safe)
          (λ db moved. moved-Loop id size r rs e a crc db appended in_id live moved loop))
        (λ _ e' h. h)

  move-Outcome :
      (id size : ℕ) (r : RecoveredRecord) (rs : List RecoveredRecord) (m : Moving) (e : S)
      → OfSegment id r
      → Loop id size (r ∷ rs) e
      → Outcome (λ _. Loop id size rs) (move_record segments zstd cfg files reads r m e)
  unfolding move_record
  move-Outcome id size r rs m e in_id loop =
      elim (Bool-cases (alive r.addr (read_row reads r.key e.db.index))) [
        | inl live ↦ rw live (copied-Outcome id size r rs m e _ refl in_id live loop)
        | inr dead ↦ rw dead (dead-Loop id size r rs e dead loop)
      ]

  -- The scan of the victim keeps the body readable, and when it ends the row points elsewhere.
  pub move_all-Outcome :
      (id size : ℕ) (rs : List RecoveredRecord) (m : Moving) (e : S)
      → All (OfSegment id) rs
      → Loop id size rs e
      → Outcome (λ _. Loop id size []) (move_all segments zstd cfg files reads rs m e)
  unfolding move_all
  move_all-Outcome id size [] m e in_id loop = loop
  move_all-Outcome id size (r ∷ rs) m e in_id loop =
      then-Outcome segments zstd cfg files reads Whole append_only law k b (λ _. Loop id size rs)
        (λ _. Loop id size []) (move_record segments zstd cfg files reads r m e)
        (move_all segments zstd cfg files reads rs) (move-Outcome id size r rs m e in_id.0 loop)
        (λ m' e' h. move_all-Outcome id size rs m' e' in_id.1 h)
