-- ===== src/Engine/Append.antt =====
-- The append of `put_impl` of crates/ozd-engine/src/lib.rs, tried once more after a ballast is released.
use ozd.Prelude.{
  ℕ, ◌^◌, ◌<◌, ◌&&◌, ◌||◌, List, [], ◌∷◌, Bool, true, false, not, ◌≡◌, refl, inl, inr, Bool-cases,
  ◌==◌,
}
use ozd.Io.{IoResult, ok, err}
use ozd.Domain.{Body, ok, err}
use ozd.Segment.{Record, RecordAddr}
use ozd.Segment.Recovery.{FitsRecord}
use ozd.Index.Roundtrip.{FitsAddr}
use ozd.Tables.{Index, commit}
use ozd.Engine.{
  Segments, Zstd, EngineConfig, Engine, append_retried, release_ballast_file, is_enospc,
}
use ozd.Engine.Reads.{IsAppendOnly, Held, Held-append}

pub commit-err :
    (cs : List Bool) (f : Index → Index) (ix : Index) (x : _)
    → (commit cs f ix).0 ≡ err x
    → (commit cs f ix).1.index ≡ ix
commit-err [] f ix x h = absurd cc
commit-err (true ∷ cs) f ix x h = absurd cc
commit-err (false ∷ cs) f ix x h = refl

pub commit-ok :
    (cs : List Bool) (f : Index → Index) (ix : Index)
    → (commit cs f ix).0 ≡ ok tt
    → (commit cs f ix).1.index ≡ f ix
commit-ok [] f ix h = refl
commit-ok (true ∷ cs) f ix h = refl
commit-ok (false ∷ cs) f ix h = absurd cc

module _ (segments : Segments) (zstd : Zstd) (cfg : EngineConfig) (Whole : segments.Store → Type 0)
    (law : IsAppendOnly segments Whole) where
  abbrev pub State : Type 0
  State = Engine segments zstd cfg

  pub retried-Held :
      (r : Record) (x : IoResult (RecordAddr × ℕ) × segments.Store) (e : State) (l : _) (b : Body)
      → Held segments zstd cfg l x.1 b
      → Held segments zstd cfg l (append_retried segments zstd cfg r x e).1.store b
  unfolding append_retried release_ballast_file
  retried-Held r (ok a, s) e l b h = h
  retried-Held r (err y, s) e l b h =
      elim (Bool-cases
        (is_enospc y && (release_ballast_file segments zstd cfg (record e { store = s })).0)) [
          | inl yes_again ↦ rw yes_again (Held-append segments zstd cfg Whole law r l s b h)
          | inr once ↦ rw once h
        ]

  release-db : (e : State) → (release_ballast_file segments zstd cfg e).1.db ≡ e.db
  unfolding release_ballast_file
  release-db e = elim (Bool-cases (cfg.ballast_bytes == 0 || not e.ballast_file)) [
    | inl none_left ↦ rw none_left refl
    | inr there ↦ rw there refl
  ]

  pub retried-db :
      (r : Record) (x : IoResult (RecordAddr × ℕ) × segments.Store) (e : State)
      → (append_retried segments zstd cfg r x e).1.db ≡ e.db
  unfolding append_retried
  retried-db r (ok a, s) e = refl
  retried-db r (err y, s) e =
      elim (Bool-cases
        (is_enospc y && (release_ballast_file segments zstd cfg (record e { store = s })).0)) [
          | inl yes_again ↦ rw yes_again (release-db (record e { store = s }))
          | inr once ↦ rw once refl
        ]

  -- The record that an append, tried once more or not, reports.
  unfoldable pub Reported : Record → segments.Store → RecordAddr → ℕ → Type 0
  Reported r s a crc = (segments.read s a crc ≡ ok r.stored) × FitsAddr a × (crc < 256 ^ 4)

  pub retried-Reported :
      (r : Record) (x : IoResult (RecordAddr × ℕ) × segments.Store) (e : State) (a : RecordAddr)
      (crc : ℕ)
      → FitsRecord r
      → Whole x.1
      → ((a' : RecordAddr) (crc' : ℕ) → x.0 ≡ ok (a', crc') → Reported r x.1 a' crc')
      → (append_retried segments zstd cfg r x e).0 ≡ ok (a, crc)
      → Reported r (append_retried segments zstd cfg r x e).1.store a crc
  unfolding append_retried Reported
  retried-Reported r (ok v, s) e a crc fits whole first h = first a crc h
  retried-Reported r (err y, s) e a crc fits whole first h =
      elim (Bool-cases
        (is_enospc y && (release_ballast_file segments zstd cfg (record e { store = s })).0)) [
          | inl yes_again ↦ rw yes_again (law.appended r s a crc fits whole (rw yes_again at h))
          | inr once ↦ absurd (let failed = rw once at h in cc)
        ]
