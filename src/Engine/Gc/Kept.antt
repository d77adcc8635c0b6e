-- ===== src/Engine/Gc/Kept.antt =====
-- `gc_once` and `sweep_orphans` of crates/ozd-engine/src/lib.rs keep what is readable.
use ozd.Prelude.{
  ℕ, ◌%◌, List, [], Bool, true, false, ◌&&◌, Option, none, some, ◌≡◌, refl, inl, inr, arith, ltb,
  ◌==◌, Bool-cases,
}
use mathlib.Core.List.{Memᴰ}
use ozd.Io.{ok, err}
use ozd.Domain.{BlockKey, Body, DomainResult, ok, err}
use ozd.Segment.Scan.{RecoveredRecord}
use ozd.Tables.Laws.{found_row}
use ozd.Tables.{Table, lookup, Lookup}
use ozd.Engine.{Segments, Zstd, EngineConfig, Engine, get, get_between}
use ozd.Engine.Reads.{IsAppendOnly, final-Held, Held-final}
use ozd.Engine.Gc.{
  DbReads, Files, GcReport, empty_report, choose_victim, referenced_segments, clear_discard,
}
use ozd.Engine.Gc.References.{referenced_row, choose_victim-Memᴰ, lookup-clear_discard}
use ozd.Engine.Gc.Collect.{
  swept, forget_discards, sweep_orphans, sweep_if, rewrite, collect, gc_once, uncount,
}
use ozd.Engine.Gc.Rows
use ozd.Engine.Gc.Rows.{IsFiles, then-Outcome, transact-Outcome}
use ozd.Engine.Gc.Parts
use ozd.Engine.Gc.Parts.{
  Held-removed, scan-Outcome, note-Outcome, flush-Outcome, remove-Outcome, index-Safe, swept-Safe,
  forget-Outcome, chain,
}

module _ (segments : Segments) (zstd : Zstd) (cfg : EngineConfig) (files : Files segments)
    (reads : DbReads) (Whole : segments.Store → Type 0) (append_only : IsAppendOnly segments Whole)
    (law : IsFiles segments files Whole) (k : BlockKey) (b : Body) where
  abbrev S : Type 0
  S = Engine segments zstd cfg

  abbrev Safe : S → Type 0
  Safe = Rows.Safe segments zstd cfg files reads Whole append_only law k b

  abbrev Outcome {ℓ} : {A : Type ℓ} → (A → S → Type 0) → DomainResult A × S → Type 0
  Outcome = Rows.Outcome segments zstd cfg files reads Whole append_only law k b

  abbrev Clear : ℕ → S → Type 0
  Clear = Parts.Clear segments zstd cfg files reads Whole append_only law k b

  abbrev Contained : List (ℕ × ℕ) → DomainResult Lookup → Type 0
  Contained = Parts.Contained segments zstd cfg files reads Whole append_only law k b

  -- The iteration over the table comes to the key's row.
  module _ (fine : reads.fails k ≡ false)
      (listed : (t : Table) (v : List ℕ) → t k ≡ some v → Memᴰ (k, v) (reads.iter t)) where
    sweep-Outcome :
        (report : GcReport) (e : S)
        → Safe e
        → Outcome (λ _. Safe) (sweep_orphans segments zstd cfg files reads report e)
    unfolding sweep_orphans lookup
    sweep-Outcome report e safe =
        let rows = reads.iter e.db.index.addr in
        let refs = referenced_segments rows [] in
        let swept_e =
          swept segments zstd cfg files reads refs (files.sealed_segments e.store) (report, []) e in
        then-Outcome segments zstd cfg files reads Whole append_only law k b (λ _. Safe) (λ _. Safe)
          (forget_discards segments zstd cfg files reads swept_e.0.1 swept_e.1) _
          (forget-Outcome segments zstd cfg files reads Whole append_only law k b swept_e.0.1
            swept_e.1
            (swept-Safe segments zstd cfg files reads Whole append_only law k b refs
              (files.sealed_segments e.store) (report, []) e contained safe))
          (λ _ e' h. h)
      where
        contained :
            Contained (referenced_segments (reads.iter e.db.index.addr) []) (lookup k e.db.index)
        contained x row =
            let (_, v, at, decoded) = found_row (e.db.index.inline k) (e.db.index.addr k) x row in
            referenced_row (reads.iter e.db.index.addr) [] k v x (listed e.db.index.addr v at)
              decoded

    sweep_if-Outcome :
        (do_sweep : Bool) (report : GcReport) (e : S)
        → Safe e
        → Outcome (λ _. Safe) (sweep_if segments zstd cfg files reads do_sweep report e)
    sweep_if-Outcome false report e safe = safe
    sweep_if-Outcome true report e safe = sweep-Outcome report e safe

    rewrite-Outcome :
        (id size : ℕ) (do_sweep : Bool) (e : S)
        → Safe e
        → Whole e.store
        → Memᴰ (id, size) (files.sealed_segments e.store)
        → ((rs : List RecoveredRecord)
            → files.scan e.store id ≡ ok rs
            → Rows.Scanned segments zstd cfg files reads Whole append_only law k b id rs
                (lookup k e.db.index))
        → Outcome (λ _. Safe) (rewrite segments zstd cfg files reads id size do_sweep e)
    unfolding rewrite
    rewrite-Outcome id size do_sweep e safe whole sealed rows =
        chain segments zstd cfg files reads Whole append_only law k b (λ _. Clear id) (λ _. Safe) _
          _
          (scan-Outcome segments zstd cfg files reads Whole append_only law k b id size
            (files.scan e.store id) e refl fine safe whole sealed rows)
          (λ m e1 h1.
            chain segments zstd cfg files reads Whole append_only law k b (λ _. Clear id)
              (λ _. Safe) _ _
              (note-Outcome segments zstd cfg files reads Whole append_only law k b id m.orphaned e1
                h1)
              (λ _ e2 h2.
                chain segments zstd cfg files reads Whole append_only law k b (λ _. Clear id)
                  (λ _. Safe) _ _
                  (flush-Outcome segments zstd cfg files reads Whole append_only law k b id e2 h2)
                  (λ _ e3 h3.
                    chain segments zstd cfg files reads Whole append_only law k b (λ _. Safe)
                      (λ _. Safe) _ _
                      (remove-Outcome segments zstd cfg files reads Whole append_only law k b id e3
                        h3)
                      (λ _ e4 h4.
                        chain segments zstd cfg files reads Whole append_only law k b (λ _. Safe)
                          (λ _. Safe) _ _
                          (index-Safe segments zstd cfg files reads Whole append_only law k b
                            (clear_discard id) e4 (lookup-clear_discard id k e4.db.index) h4)
                          (λ _ e5 h5.
                            sweep_if-Outcome do_sweep _
                              (uncount segments zstd cfg files reads size e5) h5)))))

    collect-Outcome :
        (below_ratio : ℕ → ℕ → Bool) (victim : Option (ℕ × ℕ × ℕ)) (do_sweep : Bool) (e : S)
        → Safe e
        → Whole e.store
        → ((id size d : ℕ)
            → victim ≡ some (id, size, d)
            → Memᴰ (id, size) (files.sealed_segments e.store))
        → ((id size : ℕ) (rs : List RecoveredRecord)
            → Memᴰ (id, size) (files.sealed_segments e.store)
            → files.scan e.store id ≡ ok rs
            → Rows.Scanned segments zstd cfg files reads Whole append_only law k b id rs
                (lookup k e.db.index))
        → Outcome (λ _. Safe) (collect segments zstd cfg files reads below_ratio victim do_sweep e)
    unfolding collect
    collect-Outcome below_ratio none do_sweep e safe whole member rows =
        sweep_if-Outcome do_sweep empty_report e safe
    collect-Outcome below_ratio (some (id, size, d)) do_sweep e safe whole member rows =
        elim (Bool-cases (ltb 0 size && below_ratio d size)) [
          | inl skip ↦ rw skip (sweep_if-Outcome do_sweep empty_report e safe)
          | inr go ↦
              let sealed : Memᴰ (id, size) (files.sealed_segments e.store) =
                member id size d refl in
              rw go (
                rewrite-Outcome id size do_sweep e safe whole sealed
                  (λ rs scan. rows id size rs sealed scan))
        ]

    outcome-Safe {ℓ} : {A : Type ℓ} (x : DomainResult A × S) → Outcome (λ _. Safe) x → Safe x.1
    outcome-Safe (ok a, e) h = h
    outcome-Safe (err x, e) h = h

    -- A pass of the garbage collection, whichever victim it takes, whatever ratio it is given, and
    -- whichever append, flush, removal or transaction fails, keeps a readable body readable, if the
    -- lookup of its key in the scan does not fail (a record whose lookup fails counts as dead, and its
    -- file goes), if the store holds nothing torn, if the
    -- scan of a sealed segment to which the row of the key points comes to a record of the key at
    -- the row's place that gives the body, and if the iteration over
    -- the table comes to the row. The record's fields fit those of the row, and the segments and the
    -- files are as IsAppendOnly and IsFiles say.
    pub get-gc_once :
        (below_ratio : ℕ → ℕ → Bool) (pass : ℕ) (e : S)
        → Whole e.store
        → ((id size : ℕ) (rs : List RecoveredRecord)
            → Memᴰ (id, size) (files.sealed_segments e.store)
            → files.scan e.store id ≡ ok rs
            → Rows.Scanned segments zstd cfg files reads Whole append_only law k b id rs
                (lookup k e.db.index))
        → get segments zstd cfg k e ≡ ok b
        → get segments zstd cfg k (gc_once segments zstd cfg files reads below_ratio pass e).1
          ≡ ok b
    unfolding gc_once get_between
    get-gc_once below_ratio pass e whole rows readable = Held-final segments zstd cfg _ _ b (
        outcome-Safe (gc_once segments zstd cfg files reads below_ratio pass e) (
          collect-Outcome below_ratio _ (pass % 5 == 0) e
            (final-Held segments zstd cfg (lookup k e.db.index) e.store b readable) whole chosen
            rows))
      where
        chosen :
            (id size d : ℕ)
            → choose_victim e.db.index.discard (files.sealed_segments e.store) none
              ≡ some (id, size, d)
            → Memᴰ (id, size) (files.sealed_segments e.store)
        chosen id size d h =
            elim (choose_victim-Memᴰ e.db.index.discard (files.sealed_segments e.store) none id size
              d h) [ inl row_contradiction ↦ absurd (ground arith) | inr member ↦ member ]
