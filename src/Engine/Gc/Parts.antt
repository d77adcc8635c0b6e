-- ===== src/Engine/Gc/Parts.antt =====
-- The parts of `gc_once` of crates/ozd-engine/src/lib.rs keep what is readable.
use ozd.Prelude.{
  ℕ, List, [], ◌∷◌, true, false, ◌≡◌, refl, ◌∙◌, ap, sym, inl, inr, arith, if◌then◌else◌,
  Bool-cases,
}
use mathlib.Core.List.{Memᴰ}
use ozd.Io.{IoResult, ok, err}
use ozd.Domain.{BlockKey, Body, DomainResult, ok, err}
use ozd.Segment.Scan.{RecoveredRecord}
use ozd.Index.{AddrEntry}
use ozd.Tables.{Index, lookup, addressed, Lookup}
use ozd.Engine.{Segments, Zstd, EngineConfig, Engine}
use ozd.Engine.Reads.{IsAppendOnly, Held}
use ozd.Engine.Gc.{DbReads, Files, GcReport, contains_key, clear_discards, bump_all}
use ozd.Engine.Gc.References.{lookup-bump_all, lookup-clear_discards}
use ozd.Engine.Gc.Collect.{
  then_do, transact, flush, remove_file, scan_moving, note_orphans, swept, forget_discards,
  sweep_orphans, sweep_if, move_all, rewrite, collect, gc_once, uncount,
}
use ozd.Engine.Gc.Collect
use ozd.Engine.Gc.Rows
use ozd.Engine.Gc.Rows.{IsFiles, then-Outcome, transact-Outcome}
use ozd.Engine.Gc.Moved.{Loop, move_all-Outcome}

module _ (segments : Segments) (zstd : Zstd) (cfg : EngineConfig) (files : Files segments)
    (reads : DbReads) (Whole : segments.Store → Type 0) (append_only : IsAppendOnly segments Whole)
    (law : IsFiles segments files Whole) (k : BlockKey) (b : Body) where
  abbrev S : Type 0
  S = Engine segments zstd cfg

  abbrev Safe : S → Type 0
  Safe = Rows.Safe segments zstd cfg files reads Whole append_only law k b

  abbrev Away : ℕ → DomainResult Lookup → Type 0
  Away = Rows.Away segments zstd cfg files reads Whole append_only law k b

  abbrev Outcome {ℓ} : {A : Type ℓ} → (A → S → Type 0) → DomainResult A × S → Type 0
  Outcome = Rows.Outcome segments zstd cfg files reads Whole append_only law k b

  -- The body is readable, and its row does not point to the segment.
  abbrev pub Clear : ℕ → S → Type 0
  Clear id e = Safe e × Away id (lookup k e.db.index)

  pub Held-removed :
      (l : DomainResult Lookup) (s : segments.Store) (id : ℕ)
      → Held segments zstd cfg l s b
      → Away id l
      → Held segments zstd cfg l (files.remove_file id s).1 b
  unfolding Held
  Held-removed l s id (inl h) away = inl h
  Held-removed l s id (inr (e, stored, row, read, u)) away =
      inr (e, stored, row, law.removed s id e.addr e.crc stored (away e row) read, u)

  Held-flushed :
      (l : DomainResult Lookup) (s : segments.Store)
      → Held segments zstd cfg l s b
      → Held segments zstd cfg l (files.flush s).1 b
  unfolding Held
  Held-flushed l s (inl h) = inl h
  Held-flushed l s (inr (e, stored, row, read, u)) =
      inr (e, stored, row, law.flushed s e.addr e.crc stored read, u)

  answered :
      (Q : S → Type 0) (x : IoResult (Unit {0})) (e : S)
      → Safe e
      → Q e
      → Outcome (λ _. Q) (Collect.io_err segments zstd cfg files reads x, e)
  answered Q (ok u) e safe q = q
  answered Q (err y) e safe q = safe

  pub flush-Outcome :
      (id : ℕ) (e : S)
      → Clear id e
      → Outcome (λ _. Clear id) (flush segments zstd cfg files reads e)
  unfolding flush
  flush-Outcome id e (safe, away) =
      answered (Clear id) (files.flush e.store).0 (record e { store = (files.flush e.store).1 })
        (Held-flushed (lookup k e.db.index) e.store safe)
        (Held-flushed (lookup k e.db.index) e.store safe, away)

  removed-Safe :
      (id : ℕ) (e : S) → Clear id e → Safe (remove_file segments zstd cfg files reads id e).1
  unfolding remove_file
  removed-Safe id e (safe, away) = Held-removed (lookup k e.db.index) e.store id safe away

  pub remove-Outcome :
      (id : ℕ) (e : S)
      → Clear id e
      → Outcome (λ _. Safe) (remove_file segments zstd cfg files reads id e)
  unfolding remove_file
  remove-Outcome id e clear =
      answered Safe (files.remove_file id e.store).0
        (record e { store = (files.remove_file id e.store).1 })
        (Held-removed (lookup k e.db.index) e.store id clear.0 clear.1)
        (Held-removed (lookup k e.db.index) e.store id clear.0 clear.1)

  -- A transaction that leaves the row as it is keeps what depends on it.
  index-Outcome :
      (id : ℕ) (f : Index → Index) (e : S)
      → lookup k (f e.db.index) ≡ lookup k e.db.index
      → Clear id e
      → Outcome (λ _. Clear id) (transact segments zstd cfg files reads f e)
  index-Outcome id f e same (safe, away) =
      transact-Outcome segments zstd cfg files reads Whole append_only law k b (Clear id) f e safe
        (λ db moved.
          let now : lookup k db.index ≡ lookup k e.db.index = ap (lookup k) moved ∙ same in
          (rw now safe, λ x row. away x (sym now ∙ row)))

  pub note-Outcome :
      (id : ℕ) (os : List (ℕ × ℕ)) (e : S)
      → Clear id e
      → Outcome (λ _. Clear id) (note_orphans segments zstd cfg files reads os e)
  note-Outcome id [] e clear = clear
  note-Outcome id (o ∷ os) e clear =
      index-Outcome id (bump_all (o ∷ os)) e (lookup-bump_all (o ∷ os) k e.db.index) clear

  weaken {ℓ} :
      {A : Type ℓ} (Q R : A → S → Type 0) (x : DomainResult A × S)
      → ((a : A) (e : S) → Q a e → R a e)
      → Outcome Q x
      → Outcome R x
  weaken Q R (ok a, e) f h = f a e h
  weaken Q R (err x, e) f h = h

  nothing :
      (x : AddrEntry) → Rows.Finds segments zstd cfg files reads Whole append_only law k b x [] → ⊥
  nothing x found = elim found [ ]

  abbrev Loop' : ℕ → ℕ → List RecoveredRecord → S → Type 0
  Loop' = Loop segments zstd cfg files reads Whole append_only law k b

  pub scan-Outcome :
      (id size : ℕ) (x : IoResult (List RecoveredRecord)) (e : S)
      → files.scan e.store id ≡ x
      → reads.fails k ≡ false
      → Safe e
      → Whole e.store
      → Memᴰ (id, size) (files.sealed_segments e.store)
      → ((rs : List RecoveredRecord)
          → x ≡ ok rs
          → Rows.Scanned segments zstd cfg files reads Whole append_only law k b id rs
              (lookup k e.db.index))
      → Outcome (λ _. Clear id) (scan_moving segments zstd cfg files reads x e)
  unfolding scan_moving
  scan-Outcome id size (err y) e scan fine safe whole sealed rows = safe
  scan-Outcome id size (ok rs) e scan fine safe whole sealed rows =
      weaken (λ _. Loop' id size []) (λ _. Clear id)
        (move_all segments zstd cfg files reads rs (record { moved = 0; orphaned = [] }) e)
        (λ m e' loop. (loop.safe, λ x row at_id. nothing x (loop.rows x row at_id)))
        (move_all-Outcome segments zstd cfg files reads Whole append_only law k b id size rs _ e
          (law.scanned e.store id rs scan)
          (record {
            fine = fine;
            safe = safe;
            whole = whole;
            sealed = sealed;
            rows = rows rs refl;
          }))

  -- The segment of the key's row is in the map.
  abbrev pub Contained : List (ℕ × ℕ) → DomainResult Lookup → Type 0
  Contained refs l = (x : AddrEntry) → l ≡ ok (addressed x) → contains_key x.addr.seg_id refs ≡ true

  one_removal :
      (refs : List (ℕ × ℕ)) (id : ℕ) (e : S)
      → Contained refs (lookup k e.db.index)
      → Safe e
      → let e' =
          if contains_key id refs then e else (remove_file segments zstd cfg files reads id e).1 in
        Safe e' × Contained refs (lookup k e'.db.index)
  unfolding remove_file
  one_removal refs id e contained safe = elim (Bool-cases (contains_key id refs)) [
    | inl kept ↦ rw kept (safe, contained)
    | inr gone ↦ rw gone (removed-Safe id e (safe, away gone), contained)
  ]
    where
      away : contains_key id refs ≡ false → Away id (lookup k e.db.index)
      away gone x row at_id =
          let yes : contains_key id refs ≡ true =
            ap (λ j. contains_key j refs) (sym at_id) ∙ contained x row in
          ground arith

  pub swept-Safe :
      (refs sealed : List (ℕ × ℕ)) (noted : GcReport × List ℕ) (e : S)
      → Contained refs (lookup k e.db.index)
      → Safe e
      → Safe (swept segments zstd cfg files reads refs sealed noted e).1
  unfolding swept
  swept-Safe refs [] noted e contained safe = safe
  swept-Safe refs ((id, size) ∷ rest) noted e contained safe =
      let next = one_removal refs id e contained safe in swept-Safe refs rest _ _ next.1 next.0

  pub index-Safe :
      (f : Index → Index) (e : S)
      → lookup k (f e.db.index) ≡ lookup k e.db.index
      → Safe e
      → Outcome (λ _. Safe) (transact segments zstd cfg files reads f e)
  index-Safe f e same safe =
      transact-Outcome segments zstd cfg files reads Whole append_only law k b Safe f e safe
        (λ db moved. rw (ap (lookup k) moved ∙ same) safe)

  pub forget-Outcome :
      (ids : List ℕ) (e : S)
      → Safe e
      → Outcome (λ _. Safe) (forget_discards segments zstd cfg files reads ids e)
  forget-Outcome [] e safe = safe
  forget-Outcome (id ∷ ids) e safe =
      index-Safe (clear_discards (id ∷ ids)) e (lookup-clear_discards (id ∷ ids) k e.db.index) safe

  -- `?` keeps what its two parts keep.
  pub chain {ℓ κ} :
      {A : Type ℓ} {B : Type κ} (Q : A → S → Type 0) (R : B → S → Type 0) (x : DomainResult A × S)
      (f : A → S → DomainResult B × S)
      → Outcome Q x
      → ((a : A) (e' : S) → Q a e' → Outcome R (f a e'))
      → Outcome R (then_do segments zstd cfg files reads x f)
  chain = then-Outcome segments zstd cfg files reads Whole append_only law k b
