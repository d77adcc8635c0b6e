-- ===== src/Engine/Gc/Evict.antt =====
-- `evict_oldest_segment`, `data_bytes` and `verify_structure` of crates/ozd-engine/src/lib.rs.
pub mod Missed
pub mod Structure
use ozd.Prelude.{
  ℕ, ◌+◌, ◌-◌, List, [], ◌∷◌, ◌++◌, Bool, true, false, not, ◌&&◌, Option, none, some, ltb, ◌==◌,
  if◌then◌else◌, length,
}
use ozd.Io.{IoResult, ok, err}
use ozd.Domain.{BlockKey, DomainResult, ok, err, io}
use ozd.Segment.Scan.{RecoveredRecord}
use ozd.Tables.{Table, Index, lookup, remove}
use ozd.Engine.{Segments, Zstd, EngineConfig, Engine}
use ozd.Engine.Gc.{
  DbReads, read_row, Files, referenced_segments, contains_key, alive, clear_discard,
}
use ozd.Engine.Gc.Collect.{then_do, transact, remove_file, uncount}

-- The first of the segments with the lowest number.
abbrev pub older : ℕ × ℕ → Option (ℕ × ℕ) → ℕ × ℕ
older f none = f
older (id, size) (some (j, n)) = if ltb j id then (j, n) else (id, size)

unfoldable pub oldest : List (ℕ × ℕ) → Option (ℕ × ℕ)
oldest [] = none
oldest (f ∷ files) = some (older f (oldest files))

-- The keys whose row points to their record in the segment; a key whose lookup fails is none.
unfoldable pub victims : DbReads → List RecoveredRecord → Index → List BlockKey
unfolding alive read_row
victims reads [] ix = []
victims reads (r ∷ rs) ix =
    let rest = victims reads rs ix in
    if alive r.addr (read_row reads r.key ix) then r.key ∷ rest else rest

unfoldable pub drop_rows : List BlockKey → Table → Table
unfolding remove
drop_rows [] t = t
drop_rows (k ∷ ks) t = drop_rows ks (remove k t)

-- The rows of the victims go, and the count of the segment's discarded bytes.
unfoldable pub evict_rows : List BlockKey → ℕ → Index → Index
unfolding drop_rows clear_discard
evict_rows keys id ix = clear_discard id (record ix { addr = drop_rows keys ix.addr })

pub record StructureReport : Type 0 where
  pub segments_referenced : ℕ
  pub segments_missing : List ℕ
  pub keys_at_risk : ℕ
  pub orphan_segments : List ℕ

-- A number in an ascending list of numbers, each once.
unfoldable pub insert_id : ℕ → List ℕ → List ℕ
insert_id id [] = id ∷ []
insert_id id (j ∷ ids) =
    let rest = insert_id id ids in
    if id == j then j ∷ ids else if ltb id j then id ∷ j ∷ ids else j ∷ rest

unfoldable pub ids_on_disk : List (ℕ × ℕ) → List ℕ → List ℕ
unfolding insert_id
ids_on_disk [] ids = ids
ids_on_disk ((id, size) ∷ files) ids = ids_on_disk files (insert_id id ids)

unfoldable pub contains_id : ℕ → List ℕ → Bool
contains_id id [] = false
contains_id id (j ∷ ids) = if id == j then true else contains_id id ids

abbrev pub note_missing : Bool → ℕ → ℕ → StructureReport → StructureReport
note_missing true seg keys rep = rep
note_missing false seg keys rep = record rep {
  segments_missing = rep.segments_missing ++ seg ∷ [];
  keys_at_risk = rep.keys_at_risk + keys;
}

unfoldable pub count_missing : List ℕ → List (ℕ × ℕ) → StructureReport → StructureReport
unfolding contains_id
count_missing on_disk [] rep = rep
count_missing on_disk ((seg, keys) ∷ refs) rep =
    count_missing on_disk refs (note_missing (contains_id seg on_disk) seg keys rep)

unfoldable pub orphans : ℕ → List (ℕ × ℕ) → List ℕ → List ℕ
unfolding contains_key
orphans active refs [] = []
orphans active refs (seg ∷ ids) =
    let rest = orphans active refs ids in
    if not (seg == active) && not (contains_key seg refs) then seg ∷ rest else rest

abbrev pub started : List (ℕ × ℕ) → StructureReport
started refs = record {
  segments_referenced = length refs;
  segments_missing = [];
  keys_at_risk = 0;
  orphan_segments = [];
}

abbrev pub sum_sizes : List (ℕ × ℕ) → ℕ
sum_sizes [] = 0
sum_sizes ((id, size) ∷ files) = size + sum_sizes files

module _ (segments : Segments) (zstd : Zstd) (cfg : EngineConfig) (files : Files segments)
    (reads : DbReads) where
  abbrev State : Type 0
  State = Engine segments zstd cfg

  unfoldable pub data_bytes : State → DomainResult ℕ
  data_bytes e = ok (sum_sizes (files.sealed_segments e.store) + files.active_len e.store)

  -- The rows go before the file.
  unfoldable pub evict_keys : ℕ → ℕ → List BlockKey → State → DomainResult (ℕ × ℕ) × State
  unfolding transact remove_file evict_rows
  evict_keys vid vsize keys e =
      then_do segments zstd cfg files reads
        (transact segments zstd cfg files reads (evict_rows keys vid) e)
        (λ _ e1.
          then_do segments zstd cfg files reads (remove_file segments zstd cfg files reads vid e1)
            (λ _ e2. (ok (vsize, length keys), uncount segments zstd cfg files reads vsize e2)))

  unfoldable pub evict_scanned :
      ℕ → ℕ → IoResult (List RecoveredRecord) → State → DomainResult (ℕ × ℕ) × State
  unfolding victims evict_keys
  evict_scanned vid vsize (err x) e = (err io, e)
  evict_scanned vid vsize (ok rs) e = evict_keys vid vsize (victims reads rs e.db.index) e

  unfoldable pub evict_segment : Option (ℕ × ℕ) → State → DomainResult (ℕ × ℕ) × State
  unfolding evict_scanned
  evict_segment none e = (ok (0, 0), e)
  evict_segment (some (vid, vsize)) e = evict_scanned vid vsize (files.scan e.store vid) e

  unfoldable pub evict_oldest_segment : State → DomainResult (ℕ × ℕ) × State
  unfolding evict_segment oldest
  evict_oldest_segment e = evict_segment (oldest (files.sealed_segments e.store)) e

  unfoldable pub verify_structure : State → DomainResult StructureReport
  unfolding count_missing orphans ids_on_disk referenced_segments
  verify_structure e =
      let refs = referenced_segments (reads.iter e.db.index.addr) [] in
      let active = files.active_segment e.store in
      let on_disk = ids_on_disk (files.sealed_segments e.store) (active ∷ []) in
      ok (record (count_missing on_disk refs (started refs)) {
        orphan_segments = orphans active refs on_disk;
      })
