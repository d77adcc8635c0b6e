-- ===== src/Pool/Write/Copies.antt =====
-- The copies that a successful put of crates/ozd-app/src/pool.rs leaves behind.
use ozd.Prelude.{
  ℕ, ◌^◌, ◌≤◌, ◌<◌, min, List, [], ◌∷◌, none, ◌≡◌, refl, ap, ◌∙◌, arith, length, All, length-map,
}
use ozd.Domain.{BlockKey, Body, ShardId, ok}
use ozd.Placement.{Row}
use ozd.Placement.Choice.{Distinct}
use ozd.Shards.{ShardEngine, IsShard}
use ozd.Shards.Laws.{All-map}
use ozd.Pool.{Pool, topology, replicas_for}
use ozd.Pool.Topology.{IsValid, topology-Looked}
use ozd.Pool.Write.{Job, Tally, mirrored, write_jobs, put_replicas, quorum_result, put_mirror}
use ozd.Pool.Write.Acked.{ids, Holds}
use ozd.Pool.Write.Arrival.{IsPolicy, Arrives}
use ozd.Pool.Write.Quorum.{Copies, write_jobs-Counted, mirrored-ids, mirrored-All, holds_own}

module _ (eng : ShardEngine) where
  open eng use {Shard, get}

  quorum_reached :
      (quorum want : ℕ) (t : Tally eng) → quorum_result eng quorum want t ≡ ok tt → quorum ≤ t.acks
  unfolding quorum_result
  quorum_reached quorum want t h = ground arith

  copies_held :
      (key : BlockKey) (body : Body) (shards : ℕ → Shard) (acked : List Job)
      → All (λ j. j.1 ≡ body) acked
      → All (Holds eng key shards) acked
      → All (λ i. get key (shards i) ≡ ok body) (ids acked)
  copies_held key body shards [] same h = tt
  copies_held key body shards (j ∷ js) same h =
      (h.0 ∙ ap ok same.0, copies_held key body shards js same.1 h.1)

  module _ (select : BlockKey → List Row → ℕ → List ShardId) (policy : IsPolicy select)
      (arrive : List Job → List Job) (all_arrive : Arrives arrive) (Good : Shard → Type 0)
      (law : IsShard eng Good) where
    put_replicas-Copies :
        (now : ℕ) (key : BlockKey) (body : Body) (reps : List ShardId) (p : Pool eng)
        → IsValid eng p
        → ((i : ShardId) → i < p.shard_count → Good (p.shards i))
        → length body < 2 ^ 32
        → Distinct reps
        → All (λ i. i < p.shard_count) reps
        → (put_replicas eng select arrive now key body reps p).0 ≡ ok tt
        → (on : List ShardId) × Copies eng key body p.shard_count
            (put_replicas eng select arrive now key body reps p).1.shards
            on
          × (min p.cfg.write_quorum (length reps) ≤ length on)
    unfolding put_replicas
    put_replicas-Copies now key body [] p v good short d below h =
        ([], record { held = tt; distinct = tt; below = tt }, omega arith)
    put_replicas-Copies now key body (i ∷ is) p v good short d below h =
        let reps = i ∷ is in
        let js = mirrored body reps in
        let (acked, c) =
          write_jobs-Counted eng select policy arrive all_arrive Good law key none tt
            (λ b. b ≡ body) (λ b e. rw e short) now reps js p v good (rw (mirrored-ids body is) d)
            (rw (mirrored-ids body is) below) (rw (mirrored-ids body is) (holds_own reps))
            (mirrored-All body (λ b. b ≡ body) reps refl) in
        let t = (write_jobs eng select arrive now key none reps js p).0 in
        let a = c.acked_ok in
        (
          ids acked,
          record {
            held = rw c.same (copies_held key body t.shards acked a.bodies a.held);
            distinct = a.distinct;
            below = a.on;
          },
          omega (
            arith,
            quorum_reached (min p.cfg.write_quorum (length reps)) p.cfg.write_quorum t h,
            a.count,
            length-map (λ j. j.0) acked,
          ),
        )

    -- A put of a mirrored block shorter than 4 GiB that succeeds, into a valid pool all of whose
    -- shards write whole, leaves the block on different shards of the pool, at least as many as the
    -- write quorum or, where that is less, as the policy chose; in whatever order the answers arrive.
    pub put_mirror-Copies :
        (now later : ℕ) (key : BlockKey) (body : Body) (p : Pool eng)
        → IsValid eng p
        → ((i : ShardId) → i < p.shard_count → Good (p.shards i))
        → length body < 2 ^ 32
        → (put_mirror eng select arrive now later key body p).0 ≡ ok tt
        → (on : List ShardId) × Copies eng key body p.shard_count
            (put_mirror eng select arrive now later key body p).1.shards
            on
          × (min p.cfg.write_quorum (length (replicas_for eng select now key p).0) ≤ length on)
    unfolding put_mirror
    put_mirror-Copies now later key body p v good short h =
        let looked = topology-Looked eng now p v in
        let p1 = (topology eng now p).1 in
        let rows = (topology eng now p).0 in
        let chosen = select key rows p1.cfg.replicas in
        let good' : (i : ShardId) → i < p1.shard_count → Good (p1.shards i) =
          rw (looked.shards, looked.shard_count) good in
        let (on, copies, enough) =
          put_replicas-Copies later key body chosen p1 looked.valid good' short
            (policy.chosen-Distinct key rows p1.cfg.replicas looked.rows.0)
            (rw looked.shard_count
              (policy.chosen-All (λ i. i < p.shard_count) key rows p1.cfg.replicas looked.rows.1))
            h in
        (
          on,
          record {
            held = copies.held;
            distinct = copies.distinct;
            below = All-map on (λ i b. omega (arith, b, looked.shard_count)) copies.below;
          },
          omega (arith, enough, ap (λ c. c.write_quorum) looked.cfg),
        )
