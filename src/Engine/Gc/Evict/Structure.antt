-- ===== src/Engine/Gc/Evict/Structure.antt =====
-- What a healthy report of `verify_structure` of crates/ozd-engine/src/lib.rs says.
use ozd.Prelude.{
  ℕ, List, [], ◌∷◌, ◌++◌, Bool, true, false, some, ◌≡◌, refl, ◌∙◌, ap, ◌⊎◌, inl, inr, arith, ◌==◌,
  ==_iff, Bool-cases,
}
use mathlib.Core.List.{Memᴰ}
use ozd.Domain.{BlockKey, DomainResult, ok, err}
use ozd.Index.{AddrEntry, decode_addr}
use ozd.Engine.{Segments, Zstd, EngineConfig, Engine}
use ozd.Engine.Gc.{DbReads, Files, referenced_segments, contains_key}
use ozd.Engine.Gc.References.{referenced_row}
use ozd.Engine.Gc.Evict.{
  StructureReport, insert_id, ids_on_disk, contains_id, note_missing, count_missing, started,
  verify_structure,
}

snoc_not_nil : (xs : List ℕ) (x : ℕ) → ¬ (xs ++ x ∷ [] ≡ [])
snoc_not_nil [] x e = ground arith
snoc_not_nil (y ∷ ys) x e = ground arith

-- Missing segments only come in.
missing_stays :
    (on_disk : List ℕ) (refs : List (ℕ × ℕ)) (rep : StructureReport)
    → (count_missing on_disk refs rep).segments_missing ≡ []
    → rep.segments_missing ≡ []
unfolding count_missing
missing_stays on_disk [] rep h = h
missing_stays on_disk ((seg, keys) ∷ refs) rep h =
    before (contains_id seg on_disk)
      (missing_stays on_disk refs (note_missing (contains_id seg on_disk) seg keys rep) h)
  where
    before :
        (c : Bool) → (note_missing c seg keys rep).segments_missing ≡ [] → rep.segments_missing ≡ []
    before true later = later
    before false later = absurd (snoc_not_nil rep.segments_missing seg later)

none_missing :
    (on_disk : List ℕ) (refs : List (ℕ × ℕ)) (rep : StructureReport) (id : ℕ)
    → (count_missing on_disk refs rep).segments_missing ≡ []
    → contains_key id refs ≡ true
    → contains_id id on_disk ≡ true
unfolding count_missing contains_key
none_missing on_disk [] rep id h there = absurd cc
none_missing on_disk ((seg, keys) ∷ refs) rep id h there = elim (Bool-cases (id == seg)) [
  | inl same ↦
      ap (λ j. contains_id j on_disk) ((==_iff id seg).0 same)
      ∙ on_it (contains_id seg on_disk)
          (missing_stays on_disk refs (note_missing (contains_id seg on_disk) seg keys rep) h)
  | inr differs ↦
      none_missing on_disk refs (note_missing (contains_id seg on_disk) seg keys rep) id h
        (rw differs at there)
]
  where
    on_it : (c : Bool) → (note_missing c seg keys rep).segments_missing ≡ [] → c ≡ true
    on_it true later = refl
    on_it false later = absurd (snoc_not_nil rep.segments_missing seg later)

contains-insert_id :
    (id j : ℕ) (ids : List ℕ)
    → contains_id j (insert_id id ids) ≡ true
    → (j ≡ id) ⊎ (contains_id j ids ≡ true)
unfolding contains_id insert_id
contains-insert_id id j [] h = ground arith
contains-insert_id id j (i ∷ ids) h = ground (arith, contains-insert_id id j ids)

-- A number on the disk is that of a file, or was there from the start.
on_disk-files :
    (files : List (ℕ × ℕ)) (ids : List ℕ) (j : ℕ)
    → contains_id j (ids_on_disk files ids) ≡ true
    → (contains_id j ids ≡ true) ⊎ ((size : ℕ) × Memᴰ (j, size) files)
unfolding ids_on_disk
on_disk-files [] ids j h = inl h
on_disk-files ((id, size) ∷ files) ids j h = elim (on_disk-files files (insert_id id ids) j h) [
  | inr (n, later) ↦ inr (n, Memᴰ.tail later)
  | inl now ↦ elim (contains-insert_id id j ids now) [
    | inl same ↦ inr (size, Memᴰ.head (ap (λ i. (i, size)) same))
    | inr before ↦ inl before
  ]
]

abbrev missing_of : DomainResult StructureReport → List ℕ
missing_of (ok rep) = rep.segments_missing
missing_of (err x) = []

module _ (segments : Segments) (zstd : Zstd) (cfg : EngineConfig) (files : Files segments)
    (reads : DbReads) where
  -- If the structural check reports no missing segment, then the row of every key at which the
  -- iteration over the address table comes points to a segment that has a file: the active one or
  -- a sealed one.
  pub verify_structure_complete :
      (e : Engine segments zstd cfg) (rep : StructureReport) (k : BlockKey) (v : List ℕ)
      (x : AddrEntry)
      → verify_structure segments zstd cfg files reads e ≡ ok rep
      → rep.segments_missing ≡ []
      → Memᴰ (k, v) (reads.iter e.db.index.addr)
      → decode_addr v ≡ some x
      → (x.addr.seg_id ≡ files.active_segment e.store)
        ⊎ ((size : ℕ) × Memᴰ (x.addr.seg_id, size) (files.sealed_segments e.store))
  unfolding verify_structure contains_id
  verify_structure_complete e rep k v x checked healthy listed row =
      let refs = referenced_segments (reads.iter e.db.index.addr) [] in
      let on_disk =
        ids_on_disk (files.sealed_segments e.store) (files.active_segment e.store ∷ []) in
      elim (on_disk-files (files.sealed_segments e.store) (files.active_segment e.store ∷ [])
        x.addr.seg_id
        (none_missing on_disk refs (started refs) x.addr.seg_id (ap missing_of checked ∙ healthy)
          (referenced_row (reads.iter e.db.index.addr) [] k v x listed row))) [
            | inr sealed ↦ inr sealed
            | inl active ↦ inl (ground arith)
          ]
