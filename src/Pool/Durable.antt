-- ===== src/Pool/Durable.antt =====
-- A get of crates/ozd-app/src/pool.rs against a put before it, with mirrors.
use ozd.Prelude.{ℕ, ◌<◌, List, false, Option, none, ◌≡◌, ◌⊎◌, inl, inr, ap, ap₂, ◌∙◌}
use ozd.Domain.{BlockKey, Body, ShardId, DomainError, ok, err}
use ozd.Erasure.{ReedSolomon}
use ozd.Placement.{Row}
use ozd.Shards.{ShardEngine}
use ozd.Pool.{Pool, topology, replicas_for}
use ozd.Pool.Topology.{IsValid, topology-Looked}
use ozd.Pool.Write.{contains}
use ozd.Pool.Write.Arrival.{IsPolicy}
use ozd.Pool.Read.{Race, read_replicas, get_as}
use ozd.Pool.Read as Read
use ozd.Pool.Read.Found.{Found, read_replicas-cases}

module _ (eng : ShardEngine) (rs : ReedSolomon) (answers : List ShardId → List ShardId)
    (select : BlockKey → List Row → ℕ → List ShardId) (policy : IsPolicy select) where
  get-read_replicas :
      (race : Option Race) (now : ℕ) (key : BlockKey) (p : Pool eng)
      → IsValid eng p
      → p.cfg.ec ≡ none
      → (Read.get eng rs answers select race now key p).0
        ≡ read_replicas eng race key (replicas_for eng select now key p).0 p.shards p.shard_count
  unfolding Read.get get_as
  get-read_replicas race now key p v no_ec =
      let looked = topology-Looked eng now p v in
      let reps = (replicas_for eng select now key p).0 in
      ap (λ c. (get_as eng rs answers select c race now key p).0) no_ec
      ∙ ap₂ (λ s n. read_replicas eng race key reps s n) looked.shards looked.shard_count

  -- While erasure coding is off, a get from a valid pool gives a body that one of its shards has,
  -- or every shard of the pool fails; whichever of two reads answers first.
  pub get-cases :
      (race : Option Race) (now : ℕ) (key : BlockKey) (p : Pool eng)
      → IsValid eng p
      → p.cfg.ec ≡ none
      → ((b : Body) × ((Read.get eng rs answers select race now key p).0 ≡ ok b)
          × Found eng key p.shards p.shard_count b)
        ⊎ (((e : DomainError) × ((Read.get eng rs answers select race now key p).0 ≡ err e))
            × ((i : ShardId)
                → i < p.shard_count
                → (e : DomainError) × (eng.get key (p.shards i) ≡ err e)))
  unfolding replicas_for
  get-cases race now key p v no_ec =
      let e = get-read_replicas race now key p v no_ec in
      let looked = topology-Looked eng now p v in
      let reps = (replicas_for eng select now key p).0 in
      elim (read_replicas-cases eng key p.shards race reps p.shard_count (
        policy.chosen-All (λ i. i < p.shard_count) key (topology eng now p).0
          (topology eng now p).1.cfg.replicas looked.rows.1)) [
            | inl (b, r, f) ↦ inl (b, e ∙ r, f)
            | inr ((x, r), fails) ↦ inr ((x, e ∙ r), fails)
          ]

  -- What may happen to a block that was put: on the shards that are not lost a read answers as it
  -- did, and no shard answers with another body.
  pub record Outlived (key : BlockKey) (body : Body) (lost : List ShardId) (p p' : Pool eng)
      : Type 0 where
    pub kept :
        (i : ShardId)
        → contains lost i ≡ false
        → eng.get key (p'.shards i) ≡ eng.get key (p.shards i)
    pub only :
        (i : ShardId) (b : Body) → i < p'.shard_count → eng.get key (p'.shards i) ≡ ok b → b ≡ body
