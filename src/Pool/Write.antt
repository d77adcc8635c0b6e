-- ===== src/Pool/Write.antt =====
-- `put` of crates/ozd-app/src/pool.rs: mirrors and erasure sets, with hinted handoff. The threads
-- that write the replicas answer in an order that `arrive` chooses.
pub mod Acked
pub mod Arrival
pub mod Quorum
pub mod Copies
use ozd.Prelude.{
  ℕ, zero, suc, ◌+◌, ◌%◌, ◌^◌, min, List, [], ◌∷◌, ◌++◌, Bool, true, false, not, ◌&&◌, ◌||◌, Option,
  none, some, ltb, leb, ◌==◌, if◌then◌else◌, length, map,
}
use ozd.Domain.{
  BlockKey, Body, ShardId, DomainError, quorum_not_reached, shutdown, DomainResult, ok, err,
}
use ozd.Erasure.{ReedSolomon, EcConfig, total, ec_encode}
use ozd.HealQueue.{normal}
use ozd.HealQueue
use ozd.Placement.{Row}
use ozd.Shards.{ShardEngine, update}
use ozd.Pool.{Pool, PoolConfig, topology, ranking_for, replicas_for}

abbrev pub contains : List ShardId → ShardId → Bool
contains [] i = false
contains (j ∷ js) i = i == j || contains js i

abbrev pub without : List ShardId → List ShardId → List ShardId
without reps [] = []
without reps (i ∷ is) = if contains reps i then without reps is else i ∷ without reps is

-- A write for one shard.
abbrev pub Job : Type 0
Job = ShardId × Body

abbrev pub jobs_of : List ShardId → List Body → List Job
jobs_of [] bs = []
jobs_of (i ∷ is) [] = []
jobs_of (i ∷ is) (b ∷ bs) = (i, b) ∷ jobs_of is bs

abbrev pub mirrored : Body → List ShardId → List Job
mirrored body [] = []
mirrored body (i ∷ is) = (i, body) ∷ mirrored body is

abbrev pub error_or : Option DomainError → DomainError → DomainError
error_or none d = d
error_or (some e) d = e

-- `put_ec` makes the outboard record of a body, `ob_key` its key: the BLAKE3 library and a prefix.
pub record Outboard : Type 0 where
  pub make_outboard : Body → Body
  pub ob_key : BlockKey → BlockKey
  pub is_ob_key : BlockKey → Bool

module _ (eng : ShardEngine) where
  open eng use {Shard, put_meta}

  -- What the answers of the threads add up to, and the shards after them.
  pub record Tally : Type 0 where
    pub acks : ℕ
    pub failed : List Body
    pub last_err : Option DomainError
    pub shards : ℕ → Shard

  abbrev pub answered : ShardId → Body → DomainResult (Unit {0}) × Shard → Tally → Tally
  answered i b (ok u, s) t = record t { acks = t.acks + 1; shards = update t.shards i s }
  answered i b (err e, s) t = record t {
    failed = t.failed ++ b ∷ [];
    last_err = some e;
    shards = update t.shards i s;
  }

  -- The writes in the order in which they are answered.
  unfoldable pub write_all : BlockKey → Option ℕ → List Job → Tally → Tally
  write_all key obj [] t = t
  write_all key obj ((i, b) ∷ js) t =
      write_all key obj js (answered i b (put_meta key b obj (t.shards i)) t)

  abbrev pub is_ok : DomainResult (Unit {0}) → Bool
  is_ok (ok u) = true
  is_ok (err e) = false

  -- A body that a failed write had, on a spare disk.
  abbrev pub spared : ShardId → DomainResult (Unit {0}) × Shard → Tally → Tally
  spared i (ok u, s) t = record t { acks = t.acks + 1; shards = update t.shards i s }
  spared i (err e, s) t = record t { last_err = some e; shards = update t.shards i s }

  -- Each body that failed goes to the next spare disk that takes it.
  unfoldable pub handoff : BlockKey → Option ℕ → List Body → List ShardId → Tally → Tally
  handoff key obj [] spares t = t
  handoff key obj (b ∷ bs) [] t = t
  handoff key obj (b ∷ bs) (i ∷ is) t = elim (is_ok (put_meta key b obj (t.shards i)).0) [
    | true ↦ handoff key obj bs is (spared i (put_meta key b obj (t.shards i)) t)
    | false ↦ handoff key obj (b ∷ bs) is (spared i (put_meta key b obj (t.shards i)) t)
  ]

  unfoldable pub quorum_result : ℕ → ℕ → Tally → DomainResult (Unit {0})
  quorum_result quorum want t =
      if leb quorum t.acks
      then ok tt
      else err (error_or t.last_err (quorum_not_reached t.acks want))

  abbrev pub start : (ℕ → Shard) → Tally
  start shards = record { acks = 0; failed = []; last_err = none; shards = shards }

  module _ (select : BlockKey → List Row → ℕ → List ShardId) (arrive : List Job → List Job) where
    -- The handoff, if a write failed.
    unfoldable pub hand_off :
        ℕ → BlockKey → Option ℕ → List ShardId → List Body → Tally → Pool eng → Tally × Pool eng
    unfolding handoff ranking_for
    hand_off now key obj chosen [] t p = (t, p)
    hand_off now key obj chosen (b ∷ bs) t p =
        let (ranking, p') = ranking_for eng select now key p.shard_count p in
        let t' = handoff key obj (b ∷ bs) (without chosen ranking) t in
        (t', record p' { shards = t'.shards; mrf = HealQueue.push key normal p'.mrf })

    -- The writes to the chosen shards.
    unfoldable pub write_jobs :
        ℕ → BlockKey → Option ℕ → List ShardId → List Job → Pool eng → Tally × Pool eng
    unfolding write_all hand_off
    write_jobs now key obj chosen jobs p =
        let t = write_all key obj (arrive jobs) (start p.shards) in
        hand_off now key obj chosen t.failed t (record p { shards = t.shards })

    unfoldable pub put_replicas :
        ℕ → BlockKey → Body → List ShardId → Pool eng → DomainResult (Unit {0}) × Pool eng
    unfolding write_jobs quorum_result
    put_replicas now key body [] p = (err (quorum_not_reached 0 p.cfg.write_quorum), p)
    put_replicas now key body (i ∷ is) p =
        let (t, p') = write_jobs now key none (i ∷ is) (mirrored body (i ∷ is)) p in
        (quorum_result (min p.cfg.write_quorum (length (i ∷ is))) p.cfg.write_quorum t, p')

    -- The mirror part of `put_body`, which looks at the clock twice.
    unfoldable pub put_mirror :
        ℕ → ℕ → BlockKey → Body → Pool eng → DomainResult (Unit {0}) × Pool eng
    unfolding replicas_for put_replicas
    put_mirror now later key body p =
        let (reps, p1) = replicas_for eng select now key p in put_replicas later key body reps p1

    module _ (rs : ReedSolomon) where
      unfoldable pub put_ec :
          ℕ → ℕ → BlockKey → Body → EcConfig → Pool eng → DomainResult (Unit {0}) × Pool eng
      unfolding ranking_for write_jobs quorum_result total
      put_ec now later key body ec p =
          let (targets, p1) = ranking_for eng select now key (total ec) p in
          if ltb (length targets) ec.write_quorum
          then (err (quorum_not_reached 0 ec.write_quorum), p1)
          else elim (ec_encode rs body ec) [
            | err e ↦ (err e, p1)
            | ok pieces ↦
                let (t, p2) =
                  write_jobs later key (some (length body % 2 ^ 64)) targets
                    (jobs_of targets pieces) p1 in
                (quorum_result ec.write_quorum ec.write_quorum t, p2)
          ]

      unfoldable pub put_as :
          Option EcConfig → ℕ → ℕ → BlockKey → Body → Pool eng → DomainResult (Unit {0}) × Pool eng
      unfolding put_mirror put_ec
      put_as none now later key body p = put_mirror now later key body p
      put_as (some ec) now later key body p =
          if leb ec.min_size (length body)
          then put_ec now later key body ec p
          else put_mirror now later key body p

      unfoldable pub put_body :
          ℕ → ℕ → BlockKey → Body → Pool eng → DomainResult (Unit {0}) × Pool eng
      unfolding put_as
      put_body now later key body p = put_as p.cfg.ec now later key body p

      module _ (ob : Outboard) where
        abbrev pub wants_outboard : Option ℕ → BlockKey → Body → Bool
        wants_outboard none key body = false
        wants_outboard (some min_size) key body =
            leb min_size (length body) && not (ob.is_ob_key key)

        unfoldable pub with_outboard :
            ℕ
            → BlockKey
            → Body
            → DomainResult (Unit {0}) × Pool eng
            → DomainResult (Unit {0}) × Pool eng
        unfolding put_body
        with_outboard later key body (err e, p) = (err e, p)
        with_outboard later key body (ok u, p) =
            (ok u, (put_body later later (ob.ob_key key) (ob.make_outboard body) p).1)

        unfoldable pub put_inner :
            ℕ → ℕ → BlockKey → Body → Pool eng → DomainResult (Unit {0}) × Pool eng
        unfolding put_body with_outboard
        put_inner now later key body p =
            if wants_outboard p.cfg.outboard key body
            then with_outboard later key body (put_body now later key body p)
            else put_body now later key body p

        -- `put`: nothing is accepted while the pool shuts down.
        unfoldable pub put : ℕ → ℕ → BlockKey → Body → Pool eng → DomainResult (Unit {0}) × Pool eng
        unfolding put_inner
        put now later key body p =
            if p.shutting_down then (err shutdown, p) else put_inner now later key body p
