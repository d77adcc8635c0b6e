-- ===== src/Pool/Migrate/Mirrors.antt =====
-- A migration of one block in crates/ozd-app/src/pool.rs either moves it or leaves its mirrors alone.
use ozd.Prelude.{
  ℕ, min, List, [], ◌∷◌, false, ◌≡◌, ◌≢◌, inl, inr, refl, ap, ◌∙◌, All, Bool-cases, take, drop,
  length, ltb,
}
use ozd.Domain.{BlockKey, Body, ShardId, not_found, ok}
use ozd.Erasure.{ReedSolomon, EcConfig, total}
use ozd.Placement.Choice.{Distinct}
use ozd.Shards.{ShardEngine}
use ozd.Shards.Laws.{All-map}
use ozd.Pool.{Pool}
use ozd.Pool.Read.{read_legs}
use ozd.Pool.Repair.{holders}
use ozd.Pool.Migrate.{MigrateOutcome, any_has, is_small, migrate_body, migrate_held, migrate_at}
use ozd.Pool.Migrate.Canary.{answer-cases, Undone, Untouched, take-Fresh, migrate_body-Untouched}

module _ (eng : ShardEngine) (key : BlockKey) (rs : ReedSolomon) (ec : EcConfig) where
  same_shards :
      (targets : List ShardId) (legs : ℕ) (p : Pool eng)
      → Distinct targets
      → Untouched eng key rs ec targets legs p p
  same_shards targets legs p d =
      All-map (take legs targets) (λ i h. refl) (take-Fresh legs targets d)

  held_body :
      (targets : List ShardId) (legs : ℕ) (i : ShardId) (is : List ShardId) (p : Pool eng)
      (body : Body)
      → is_small eng rs (eng.stat key (p.shards i)) ec.min_size ≡ false
      → read_legs eng key p.shards (i ∷ is) not_found ≡ ok body
      → migrate_held eng rs key ec targets legs (i ∷ is) p
        ≡ migrate_body eng rs key ec targets legs body p
  unfolding migrate_held
  held_body targets legs i is p body big r = rw (migrate_held, big, r) refl

  migrate_held-Untouched :
      (targets : List ShardId) (legs : ℕ) (is : List ShardId) (p : Pool eng)
      → Distinct targets
      → Undone eng key (migrate_held eng rs key ec targets legs is p).0
      → Untouched eng key rs ec targets legs p (migrate_held eng rs key ec targets legs is p).1
  unfolding migrate_held
  migrate_held-Untouched targets legs [] p d undone = same_shards targets legs p d
  migrate_held-Untouched targets legs (i ∷ is) p d undone =
      elim (Bool-cases (is_small eng rs (eng.stat key (p.shards i)) ec.min_size)) [
        | inl small ↦ rw (migrate_held, small) (same_shards targets legs p d)
        | inr big ↦ elim (answer-cases (read_legs eng key p.shards (i ∷ is) not_found)) [
          | inr (x, r) ↦ rw (migrate_held, big, r) (same_shards targets legs p d)
          | inl (body, r) ↦
              let e = held_body targets legs i is p body big r in
              All-map (take legs targets) (λ j h. ap (λ x. x.1.shards j) e ∙ h)
                (migrate_body-Untouched eng key rs ec targets legs body p d
                  (λ h. undone (ap (λ x. x.0) e ∙ h)))
        ]
      ]

  at_held :
      (targets : List ShardId) (p : Pool eng)
      → ltb (length targets) (total ec) ≡ false
      → any_has eng key p.shards (drop (min p.cfg.replicas (total ec)) (take (total ec) targets))
        ≡ false
      → migrate_at eng rs key ec targets p
        ≡ migrate_held eng rs key ec
            (take (total ec) targets)
            (min p.cfg.replicas (total ec))
            (holders eng key p.shards
              (take (min p.cfg.replicas (total ec)) (take (total ec) targets)))
            p
  unfolding migrate_at
  at_held targets p many nothing = rw (migrate_at, many, nothing) refl

  -- A migration to targets of which the first K + M are different disks, and which neither succeeds
  -- nor finds that the block has pieces already, leaves the disks of the first ranks, as many as
  -- there are replicas, as they were: also where a piece is read back otherwise than it was written,
  -- or an operation fails.
  pub migrate_at-Untouched :
      (targets : List ShardId) (p : Pool eng)
      → Distinct (take (total ec) targets)
      → (migrate_at eng rs key ec targets p).0 ≢ ok MigrateOutcome.migrated
      → (migrate_at eng rs key ec targets p).0 ≢ ok MigrateOutcome.skipped_ec
      → All
          (λ i. (migrate_at eng rs key ec targets p).1.shards i ≡ p.shards i)
          (take (min p.cfg.replicas (total ec)) (take (total ec) targets))
  unfolding migrate_at
  migrate_at-Untouched targets p d undone no_pieces =
      let ranked = take (total ec) targets in
      let legs = min p.cfg.replicas (total ec) in
      elim (Bool-cases (ltb (length targets) (total ec))) [
        | inl few ↦ rw (migrate_at, few) (same_shards ranked legs p d)
        | inr many ↦ elim (Bool-cases (any_has eng key p.shards (drop legs ranked))) [
          | inl has ↦ absurd (no_pieces (rw (migrate_at, many, has) refl))
          | inr nothing ↦
              let e = at_held targets p many nothing in
              All-map (take legs ranked) (λ j h. ap (λ x. x.1.shards j) e ∙ h)
                (migrate_held-Untouched ranked legs (holders eng key p.shards (take legs ranked)) p
                  d (λ h. undone (ap (λ x. x.0) e ∙ h)))
        ]
      ]
