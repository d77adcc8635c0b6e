-- ===== src/Pool/Walk.antt =====
-- The background passes of crates/ozd-app/src/pool.rs: resilver and scrub. The clock gives the time
-- of each look at the topology.
use ozd.Prelude.{
  ℕ, zero, suc, ◌+◌, List, [], ◌∷◌, Bool, true, false, ◌&&◌, ◌||◌, Option, none, some, ltb, ◌==◌,
  length,
}
use ozd.Domain.{BlockKey, ShardId, DomainResult, ok, err}
use ozd.Erasure.{ReedSolomon}
use ozd.HealQueue.{HealPriority, urgent}
use ozd.HealQueue
use ozd.Placement.{Row}
use ozd.Shards.{ShardEngine, ScrubStep, update}
use ozd.Pool.{Pool}
use ozd.Pool.Catalog.{list, flush_all}
use ozd.Pool.Repair.{Repaired, repair_key}

pub record ResilverReport : Type 0 where
  pub scanned : ℕ
  pub repaired : ℕ
  pub errors : ℕ
  pub last_key : Option BlockKey
  pub done : Bool

abbrev pub no_report : ResilverReport
no_report = record { scanned = 0; repaired = 0; errors = 0; last_key = none; done = false }

pub record ScrubReport : Type 0 where
  pub checked : ℕ
  pub corrupt : ℕ
  pub repaired : ℕ
  pub unrepairable : ℕ
  pub last_key : Option BlockKey
  pub done : Bool

abbrev pub last_of : List (BlockKey × ℕ) → Option BlockKey
last_of [] = none
last_of ((k, sz) ∷ []) = some k
last_of (row ∷ row' ∷ rows) = last_of (row' ∷ rows)

-- `matches!(r, Ok((r, l)) if r > 0 && l == 0)`
abbrev pub is_fixed : Repaired → Bool
is_fixed (ok (done, left)) = ltb 0 done && left == 0
is_fixed (err e) = false

abbrev pub counted : Repaired → ResilverReport → ResilverReport
counted (ok (done, left)) rep = record rep {
  repaired = rep.repaired + done;
  errors = rep.errors + left;
}
counted (err e) rep = record rep { errors = rep.errors + 1 }

-- "resilver"
abbrev pub resilver_cursor : BlockKey
resilver_cursor = b'r' ∷ b'e' ∷ b's' ∷ b'i' ∷ b'l' ∷ b'v' ∷ b'e' ∷ b'r' ∷ []

abbrev pub is_none : Option BlockKey → Bool
is_none none = true
is_none (some k) = false

abbrev pub added : ResilverReport → ResilverReport → ResilverReport
added total r = record {
  scanned = total.scanned + r.scanned;
  repaired = total.repaired + r.repaired;
  errors = total.errors + r.errors;
  last_key = r.last_key;
  done = total.done;
}

module _ (eng : ShardEngine) where
  open eng use {Shard}

  module _ (rs : ReedSolomon) (select : BlockKey → List Row → ℕ → List ShardId) where
    unfoldable pub repair_all :
        (ℕ → ℕ) → List (BlockKey × ℕ) → ResilverReport → Pool eng → ResilverReport × Pool eng
    unfolding repair_key
    repair_all clock [] rep p = (rep, p)
    repair_all clock ((key, sz) ∷ rows) rep p =
        let (r, p') = repair_key eng rs select (clock 0) (clock 1) key p in
        repair_all (λ i. clock (i + 2)) rows (counted r rep) p'

    -- A batch of the listed blocks.
    unfoldable pub resilver_batch :
        (ℕ → ℕ)
        → ℕ
        → DomainResult (List (BlockKey × ℕ))
        → Pool eng
        → DomainResult ResilverReport × Pool eng
    unfolding repair_all
    resilver_batch clock batch (err e) p = (err e, p)
    resilver_batch clock batch (ok rows) p =
        let (rep, p') =
          repair_all clock rows
            (record {
              scanned = length rows;
              repaired = 0;
              errors = 0;
              last_key = none;
              done = ltb (length rows) batch;
            })
            p in
        (ok (record rep { last_key = last_of rows }), p')

    unfoldable pub resilver_step :
        (ℕ → ℕ) → Option BlockKey → ℕ → Pool eng → DomainResult ResilverReport × Pool eng
    unfolding list resilver_batch
    resilver_step clock after batch p = resilver_batch clock batch (list eng [] after batch p) p

    abbrev pub save : Option BlockKey → Pool eng → Pool eng
    save at p = record p {
      shards = update p.shards 0 (eng.save_cursor resilver_cursor at (p.shards 0)).1;
    }

    -- The loop of `resilver_full`, on fuel; the clock of each round is its own.
    unfoldable pub resilver_loop :
        ℕ
        → (ℕ → ℕ → ℕ)
        → ℕ
        → Option BlockKey
        → ResilverReport
        → Pool eng
        → Option (DomainResult ResilverReport) × Pool eng
    unfolding resilver_step
    resilver_loop zero clock batch after total p = (none, p)
    resilver_loop (suc fuel) clock batch after total p =
        elim (resilver_step (clock 0) after batch p).0 [
          | err e ↦ (some (err e), (resilver_step (clock 0) after batch p).1)
          | ok r ↦
              let p' = (resilver_step (clock 0) after batch p).1 in
              elim (r.done || is_none r.last_key) [
                | true ↦ (some (ok (record (added total r) { done = true })), save none p')
                | false ↦
                    resilver_loop fuel (λ i. clock (i + 1)) batch r.last_key (added total r)
                      (save r.last_key p')
              ]
        ]

    unfoldable pub flushed :
        Option (DomainResult ResilverReport) × Pool eng
        → Option (DomainResult ResilverReport) × Pool eng
    unfolding flush_all
    flushed (none, p) = (none, p)
    flushed (some (err e), p) = (some (err e), p)
    flushed (some (ok rep), p) = elim (flush_all eng p).0 [
      | ok u ↦ (some (ok rep), (flush_all eng p).1)
      | err e ↦ (some (err e), (flush_all eng p).1)
    ]

    unfoldable pub resilver_full :
        ℕ → (ℕ → ℕ → ℕ) → ℕ → Pool eng → Option (DomainResult ResilverReport) × Pool eng
    unfolding resilver_loop flushed
    resilver_full fuel clock batch p = elim (eng.load_cursor resilver_cursor (p.shards 0)) [
      | err e ↦ (some (err e), p)
      | ok after ↦ flushed (resilver_loop fuel clock batch after no_report p)
    ]

    -- Each corrupt record is deleted, and repaired from the other shards or queued.
    unfoldable pub heal_corrupt :
        (ℕ → ℕ) → ShardId → List BlockKey → ScrubReport → Pool eng → ScrubReport × Pool eng
    unfolding repair_key
    heal_corrupt clock shard [] rep p = (rep, p)
    heal_corrupt clock shard (key ∷ keys) rep p =
        let q = record p { shards = update p.shards shard (eng.delete key (p.shards shard)).1 } in
        let (r, p') = repair_key eng rs select (clock 0) (clock 1) key q in
        let next : ℕ → ℕ = λ i. clock (i + 2) in
        elim (is_fixed r) [
          | true ↦ heal_corrupt next shard keys (record rep { repaired = rep.repaired + 1 }) p'
          | false ↦
              heal_corrupt next shard keys (record rep { unrepairable = rep.unrepairable + 1 })
                (record p' { mrf = HealQueue.push key urgent p'.mrf })
        ]

    unfoldable pub scrubbed :
        (ℕ → ℕ) → ShardId → DomainResult ScrubStep → Pool eng → DomainResult ScrubReport × Pool eng
    unfolding heal_corrupt
    scrubbed clock shard (err e) p = (err e, p)
    scrubbed clock shard (ok step) p =
        let (rep, p') =
          heal_corrupt clock shard step.corrupt
            (record {
              checked = step.checked;
              corrupt = length step.corrupt;
              repaired = 0;
              unrepairable = 0;
              last_key = step.last_key;
              done = step.done;
            })
            p in
        (ok rep, p')

    unfoldable pub scrub_shard_step :
        (ℕ → ℕ) → ShardId → Option BlockKey → ℕ → Pool eng → DomainResult ScrubReport × Pool eng
    unfolding scrubbed
    scrub_shard_step clock shard after limit p =
        scrubbed clock shard (eng.scrub_step after limit (p.shards shard)) p
