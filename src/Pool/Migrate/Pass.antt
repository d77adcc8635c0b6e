-- ===== src/Pool/Migrate/Pass.antt =====
-- The passes of the migration in crates/ozd-app/src/pool.rs, over all blocks.
use ozd.Prelude.{
  ℕ, zero, suc, ◌+◌, List, [], ◌∷◌, Bool, true, false, ◌||◌, Option, none, some, ltb, length,
}
use ozd.Domain.{BlockKey, ShardId, io, DomainResult, ok, err}
use ozd.Erasure.{ReedSolomon, EcConfig}
use ozd.Placement.{Row}
use ozd.Shards.{ShardEngine, update}
use ozd.Pool.{Pool}
use ozd.Pool.Catalog.{list, flush_all}
use ozd.Pool.Walk.{last_of, is_none}
use ozd.Pool.Migrate.{MigrateOutcome, migrate_key}

pub record MigrateReport : Type 0 where
  pub scanned : ℕ
  pub migrated : ℕ
  pub skipped_small : ℕ
  pub skipped_ec : ℕ
  pub canary_failed : ℕ
  pub errors : ℕ
  pub last_key : Option BlockKey
  pub done : Bool

abbrev pub no_report : MigrateReport
no_report = record {
  scanned = 0;
  migrated = 0;
  skipped_small = 0;
  skipped_ec = 0;
  canary_failed = 0;
  errors = 0;
  last_key = none;
  done = false;
}

abbrev pub counted : DomainResult MigrateOutcome → MigrateReport → MigrateReport
counted (ok MigrateOutcome.migrated) rep = record rep { migrated = rep.migrated + 1 }
counted (ok MigrateOutcome.skipped_small) rep = record rep { skipped_small = rep.skipped_small + 1 }
counted (ok MigrateOutcome.skipped_ec) rep = record rep { skipped_ec = rep.skipped_ec + 1 }
counted (ok MigrateOutcome.canary_failed) rep = record rep { canary_failed = rep.canary_failed + 1 }
counted (err e) rep = record rep { errors = rep.errors + 1 }

abbrev pub added : MigrateReport → MigrateReport → MigrateReport
added sum r = record {
  scanned = sum.scanned + r.scanned;
  migrated = sum.migrated + r.migrated;
  skipped_small = sum.skipped_small + r.skipped_small;
  skipped_ec = sum.skipped_ec + r.skipped_ec;
  canary_failed = sum.canary_failed + r.canary_failed;
  errors = sum.errors + r.errors;
  last_key = r.last_key;
  done = sum.done;
}

-- "migrate"
abbrev pub migrate_cursor : BlockKey
migrate_cursor = b'm' ∷ b'i' ∷ b'g' ∷ b'r' ∷ b'a' ∷ b't' ∷ b'e' ∷ []

module _ (eng : ShardEngine) (rs : ReedSolomon)
    (select : BlockKey → List Row → ℕ → List ShardId) where
  unfoldable pub migrate_all :
      (ℕ → ℕ) → EcConfig → List (BlockKey × ℕ) → MigrateReport → Pool eng → MigrateReport × Pool eng
  unfolding migrate_key
  migrate_all clock ec [] rep p = (rep, p)
  migrate_all clock ec ((key, sz) ∷ rows) rep p =
      let (r, p') = migrate_key eng rs select (clock 0) key ec p in
      migrate_all (λ i. clock (i + 1)) ec rows (counted r rep) p'

  unfoldable pub migrate_batch :
      (ℕ → ℕ)
      → EcConfig
      → ℕ
      → DomainResult (List (BlockKey × ℕ))
      → Pool eng
      → DomainResult MigrateReport × Pool eng
  unfolding migrate_all
  migrate_batch clock ec batch (err e) p = (err e, p)
  migrate_batch clock ec batch (ok rows) p =
      let first = record no_report { scanned = length rows; done = ltb (length rows) batch } in
      let (rep, p') = migrate_all clock ec rows first p in
      (ok (record rep { last_key = last_of rows }), p')

  -- Without erasure coding there is nothing to migrate to.
  unfoldable pub migrate_step :
      (ℕ → ℕ) → Option BlockKey → ℕ → Pool eng → DomainResult MigrateReport × Pool eng
  unfolding list migrate_batch
  migrate_step clock after batch p = elim p.cfg.ec [
    | none ↦ (err io, p)
    | some ec ↦ migrate_batch clock ec batch (list eng [] after batch p) p
  ]

  abbrev save : Option BlockKey → Pool eng → Pool eng
  save at p = record p {
    shards = update p.shards 0 (eng.save_cursor migrate_cursor at (p.shards 0)).1;
  }

  -- The loop of `migrate_full`, on fuel.
  unfoldable pub migrate_loop :
      ℕ
      → (ℕ → ℕ → ℕ)
      → ℕ
      → Option BlockKey
      → MigrateReport
      → Pool eng
      → Option (DomainResult MigrateReport) × Pool eng
  unfolding migrate_step
  migrate_loop zero clock batch after sum p = (none, p)
  migrate_loop (suc fuel) clock batch after sum p =
      let p' = (migrate_step (clock 0) after batch p).1 in
      elim (migrate_step (clock 0) after batch p).0 [
        | err e ↦ (some (err e), p')
        | ok r ↦ elim (r.done || is_none r.last_key) [
          | true ↦ (some (ok (record (added sum r) { done = true })), save none p')
          | false ↦
              migrate_loop fuel (λ i. clock (i + 1)) batch r.last_key (added sum r)
                (save r.last_key p')
        ]
      ]

  unfoldable pub migrate_flushed :
      Option (DomainResult MigrateReport) × Pool eng
      → Option (DomainResult MigrateReport) × Pool eng
  unfolding flush_all
  migrate_flushed (none, p) = (none, p)
  migrate_flushed (some (err e), p) = (some (err e), p)
  migrate_flushed (some (ok rep), p) = elim (flush_all eng p).0 [
    | ok u ↦ (some (ok rep), (flush_all eng p).1)
    | err e ↦ (some (err e), (flush_all eng p).1)
  ]

  unfoldable pub migrate_full :
      ℕ → (ℕ → ℕ → ℕ) → ℕ → Pool eng → Option (DomainResult MigrateReport) × Pool eng
  unfolding migrate_loop migrate_flushed
  migrate_full fuel clock batch p = elim (eng.load_cursor migrate_cursor (p.shards 0)) [
    | err e ↦ (some (err e), p)
    | ok after ↦ migrate_flushed (migrate_loop fuel clock batch after no_report p)
  ]
