-- ===== src/Engine/Gc/Collect.antt =====
-- `gc_once`, `sweep_orphans`, `evict_oldest_segment` and `verify_structure` of
-- crates/ozd-engine/src/lib.rs over the tables and the segment files.
use ozd.Prelude.{
  ℕ, ◌+◌, ◌-◌, ◌%◌, min, List, [], ◌∷◌, ◌++◌, Bool, true, false, ◌&&◌, Option, none, some, ltb,
  ◌==◌, if◌then◌else◌,
}
use ozd.Io.{IoResult, ok, err}
use ozd.Domain.{DomainResult, ok, err, io}
use ozd.Segment.{RecordAddr}
use ozd.Segment.Scan.{RecoveredRecord}
use ozd.Tables.{Index, transaction}
use ozd.Engine.{Segments, Zstd, EngineConfig, Engine}
use ozd.Engine.Gc.{
  DbReads, read_row, Files, GcReport, empty_report, choose_victim, referenced_segments,
  contains_key, alive, row_at, still_there, cas, clear_discard, clear_discards, bump_all, Moving,
  count_move, as_record,
}

module _ (segments : Segments) (zstd : Zstd) (cfg : EngineConfig) (files : Files segments)
    (reads : DbReads) where
  abbrev pub State : Type 0
  State = Engine segments zstd cfg

  -- `?` after an operation on the engine.
  abbrev pub then_do {ℓ κ} :
      {A : Type ℓ} {B : Type κ}
      → DomainResult A × State
      → (A → State → DomainResult B × State)
      → DomainResult B × State
  then_do (ok a, e) f = f a e
  then_do (err x, e) f = (err x, e)

  abbrev pub io_err {ℓ} : {A : Type ℓ} → IoResult A → DomainResult A
  io_err (ok a) = ok a
  io_err (err x) = err io

  -- A transaction of the engine.
  unfoldable pub transact : (Index → Index) → State → DomainResult (Unit {0}) × State
  transact f e = ((transaction f e.db).0, record e { db = (transaction f e.db).1 })

  unfoldable pub flush : State → DomainResult (Unit {0}) × State
  flush e = (io_err (files.flush e.store).0, record e { store = (files.flush e.store).1 })

  unfoldable pub remove_file : ℕ → State → DomainResult (Unit {0}) × State
  remove_file id e = (
    io_err (files.remove_file id e.store).0,
    record e { store = (files.remove_file id e.store).1 },
  )

  -- The copy of a live record has been appended: the index is pointed to it.
  unfoldable pub copied :
      RecoveredRecord → IoResult (RecordAddr × ℕ) → Moving → State → DomainResult Moving × State
  unfolding transact cas
  copied r (err x) m e = (err io, e)
  copied r (ok (addr, crc)) m e =
      then_do (transact (cas r addr crc) e)
        (λ _ e'. (ok (count_move (still_there r.addr (row_at (e.db.index.addr r.key))) addr m), e'))

  -- The callback of the scan.
  unfoldable pub move_record : RecoveredRecord → Moving → State → DomainResult Moving × State
  unfolding copied alive read_row
  move_record r m e =
      let appended = segments.append (as_record r) e.store in
      if alive r.addr (read_row reads r.key e.db.index)
      then copied r appended.0 m (record e { store = appended.1 })
      else (ok m, e)

  unfoldable pub move_all : List RecoveredRecord → Moving → State → DomainResult Moving × State
  unfolding move_record
  move_all [] m e = (ok m, e)
  move_all (r ∷ rs) m e = then_do (move_record r m e) (move_all rs)

  unfoldable pub scan_moving : IoResult (List RecoveredRecord) → State → DomainResult Moving × State
  unfolding move_all
  scan_moving (err x) e = (err io, e)
  scan_moving (ok rs) e = move_all rs (record { moved = 0; orphaned = [] }) e

  abbrev pub note_orphans : List (ℕ × ℕ) → State → DomainResult (Unit {0}) × State
  note_orphans [] e = (ok tt, e)
  note_orphans (o ∷ os) e = transact (bump_all (o ∷ os)) e

  -- What a removal adds to the report and to the removed numbers.
  abbrev pub removal_noted : DomainResult (Unit {0}) → ℕ × ℕ → GcReport × List ℕ → GcReport × List ℕ
  removal_noted (err x) file noted = noted
  removal_noted (ok _) (id, size) (report, ids) = (
    record report {
      orphans_removed = report.orphans_removed + 1;
      orphan_bytes = report.orphan_bytes + size;
    },
    ids ++ id ∷ [],
  )

  -- The segments without a row are removed; a file that cannot be removed is left.
  unfoldable pub swept :
      List (ℕ × ℕ) → List (ℕ × ℕ) → GcReport × List ℕ → State → (GcReport × List ℕ) × State
  unfolding contains_key remove_file
  swept refs [] noted e = (noted, e)
  swept refs ((id, size) ∷ rest) noted e =
      let kept = contains_key id refs in
      let removal = remove_file id e in
      swept refs rest (if kept then noted else removal_noted removal.0 (id, size) noted)
        (if kept then e else removal.1)

  abbrev pub forget_discards : List ℕ → State → DomainResult (Unit {0}) × State
  forget_discards [] e = (ok tt, e)
  forget_discards (id ∷ ids) e = transact (clear_discards (id ∷ ids)) e

  unfoldable pub sweep_orphans : GcReport → State → DomainResult GcReport × State
  unfolding swept referenced_segments
  sweep_orphans report e =
      let refs = referenced_segments (reads.iter e.db.index.addr) [] in
      let done = swept refs (files.sealed_segments e.store) (report, []) e in
      then_do (forget_discards done.0.1 done.1) (λ _ e'. (ok done.0.0, e'))

  abbrev pub sweep_if : Bool → GcReport → State → DomainResult GcReport × State
  sweep_if false report e = (ok report, e)
  sweep_if true report e = sweep_orphans report e

  abbrev pub uncount : ℕ → State → State
  uncount size e = record e { used_bytes = e.used_bytes - min size e.used_bytes }

  -- The victim is rewritten: its live records are moved and made durable, then its file goes.
  unfoldable pub rewrite : ℕ → ℕ → Bool → State → DomainResult GcReport × State
  unfolding scan_moving flush remove_file transact
  rewrite vid vsize do_sweep e = then_do (scan_moving (files.scan e.store vid) e) (λ m e1.
      then_do (note_orphans m.orphaned e1) (λ _ e2. then_do (flush e2) (λ _ e3.
        then_do (remove_file vid e3) (λ _ e4. then_do (transact (clear_discard vid) e4) (λ _ e5.
          sweep_if do_sweep
            (record {
              victim_seg = some vid;
              live_moved = m.moved;
              reclaimed_bytes = vsize;
              orphans_removed = 0;
              orphan_bytes = 0;
            })
            (uncount vsize e5))))))

  module _ (below_ratio : ℕ → ℕ → Bool) where
    unfoldable pub collect : Option (ℕ × ℕ × ℕ) → Bool → State → DomainResult GcReport × State
    unfolding rewrite sweep_orphans
    collect none do_sweep e = sweep_if do_sweep empty_report e
    collect (some (vid, vsize, vdiscard)) do_sweep e =
        if ltb 0 vsize && below_ratio vdiscard vsize
        then sweep_if do_sweep empty_report e
        else rewrite vid vsize do_sweep e

    -- `below_ratio d s` is the comparison `d < discard_ratio * s` of floats; `pass` is the count of
    -- passes before this one.
    unfoldable pub gc_once : ℕ → State → DomainResult GcReport × State
    unfolding collect choose_victim
    gc_once pass e =
        collect (choose_victim e.db.index.discard (files.sealed_segments e.store) none)
          (pass % 5 == 0) e
