-- ===== src/Pool/Drain.antt =====
-- `mrf_drain` of crates/ozd-app/src/pool.rs: workers repair the blocks of the heal queue, at most
-- `heal_max_per_shard` at a time on one disk. What the workers do is a sequence of events.
pub mod Slots
pub mod Totals
use ozd.Prelude.{
  ℕ, zero, suc, ◌+◌, ◌-◌, max, List, [], ◌∷◌, ◌++◌, Bool, true, false, Option, none, some, leb,
  ◌==◌, if◌then◌else◌, length, take, drop, get_elem?, set,
}
use ozd.Domain.{BlockKey, ShardId, DomainResult, ok, err}
use ozd.Erasure.{ReedSolomon}
use ozd.HealQueue.{HealPriority}
use ozd.HealQueue
use ozd.Placement.{Row}
use ozd.Shards.{ShardEngine, update}
use ozd.Pool.{Pool, replicas_for}
use ozd.Pool.Repair.{Repaired, repair_key}

abbrev pub Request : Type 0
Request = BlockKey × HealPriority

-- What a worker does next: it takes a slot of each disk that is left, gives back the one that was
-- too many, or gives its slots back after a repair that healed the block or not.
pub data Phase : Type 0 where
  acquiring : List ShardId → Phase
  over : ShardId → Phase
  releasing : Bool → Phase

-- A request that a worker has claimed, with the disks whose slots it holds.
pub record Running : Type 0 where
  pub request : Request
  pub slots : List ShardId
  pub phase : Phase

-- A worker takes the next request, or the n-th of those that are at work takes one step.
pub data Event : Type 0 where
  claim : ℕ → Event
  advance : ℕ → ℕ → ℕ → Event

-- `matches!(r, Ok((_, 0)))`
abbrev pub is_whole : Repaired → Bool
is_whole (ok (done, left)) = left == 0
is_whole (err e) = false

-- Up to n requests, in the order of the queue.
unfoldable pub pop_batch : ℕ → HealQueue.HealQueue → List Request × HealQueue.HealQueue
pop_batch zero q = ([], q)
pop_batch (suc n) q =
    let x = HealQueue.pop q in
    let (rest, q') = pop_batch n x.1 in elim x.0 [ none ↦ ([], x.1) | some r ↦ (r ∷ rest, q') ]

unfoldable pub requeue : List Request → HealQueue.HealQueue → HealQueue.HealQueue
requeue [] q = q
requeue ((key, prio) ∷ rs) q = requeue rs (HealQueue.push key prio q)

module _ (eng : ShardEngine) where
  open eng use {Shard}

  pub record Drain : Type 0 where
    pub todo : List Request
    pub running : List Running
    pub inflight : ℕ → ℕ
    pub healed : ℕ
    pub deferred : List Request
    pub pool : Pool eng

  abbrev pub start : List Request → Pool eng → Drain
  start batch p = record {
    todo = batch;
    running = [];
    inflight = λ t. 0;
    healed = 0;
    deferred = [];
    pool = p;
  }

  -- The n-th worker goes on as `w`.
  abbrev pub goes_on : ℕ → Running → (ℕ → ℕ) → Drain → Drain
  goes_on n w inflight d = record d { running = set d.running n w; inflight = inflight }

  -- The `fetch_add` of one disk: the slot is the worker's if there were fewer than the cap.
  unfoldable pub acquire : ℕ → ℕ → Running → ShardId → List ShardId → Drain → Drain
  acquire cap n w t left d =
      let inflight = update d.inflight t (d.inflight t + 1) in
      if leb cap (d.inflight t)
      then goes_on n (record w { phase = Phase.over t }) inflight d
      else goes_on n (record w { slots = w.slots ++ t ∷ []; phase = Phase.acquiring left }) inflight
          d

  -- The `fetch_sub` of the slot that was one too many.
  unfoldable pub back_out : ℕ → Running → ShardId → Drain → Drain
  back_out n w t d =
      goes_on n (record w { phase = Phase.releasing false })
        (update d.inflight t (d.inflight t - 1)) d

  -- The `fetch_sub` of each slot in turn; then the request is healed or put off.
  unfoldable pub release : ℕ → Bool → Running → List ShardId → Drain → Drain
  release n healed w (t ∷ ts) d =
      goes_on n (record w { slots = ts; phase = Phase.releasing healed })
        (update d.inflight t (d.inflight t - 1)) d
  release n healed w [] d =
      let d' = record d { running = take n d.running ++ drop (suc n) d.running } in
      if healed
      then record d' { healed = d.healed + 1 }
      else record d' { deferred = d.deferred ++ w.request ∷ [] }

  module _ (rs : ReedSolomon) (select : BlockKey → List Row → ℕ → List ShardId) where
    unfoldable pub claim_next : ℕ → List Request → Drain → Drain
    unfolding replicas_for
    claim_next now [] d = d
    claim_next now (r ∷ rest) d =
        let (targets, p) = replicas_for eng select now r.0 d.pool in
        record d {
          pool = p;
          todo = rest;
          running =
              d.running ++ record { request = r; slots = []; phase = Phase.acquiring targets } ∷ [];
        }

    -- With all its slots a worker repairs the block.
    unfoldable pub heal : ℕ → ℕ → ℕ → Running → Drain → Drain
    unfolding repair_key
    heal n now later w d =
        let (r, p) = repair_key eng rs select now later w.request.0 d.pool in
        goes_on n (record w { phase = Phase.releasing (is_whole r) }) d.inflight
          (record d { pool = p })

    unfoldable pub advance_in : ℕ → ℕ → ℕ → ℕ → Running → Phase → Drain → Drain
    unfolding acquire back_out release heal
    advance_in cap n now later w (Phase.acquiring []) d = heal n now later w d
    advance_in cap n now later w (Phase.acquiring (t ∷ ts)) d = acquire (max cap 1) n w t ts d
    advance_in cap n now later w (Phase.over t) d = back_out n w t d
    advance_in cap n now later w (Phase.releasing healed) d = release n healed w w.slots d

    unfoldable pub advance_one : ℕ → ℕ → ℕ → ℕ → Option Running → Drain → Drain
    unfolding advance_in
    advance_one cap n now later none d = d
    advance_one cap n now later (some w) d = advance_in cap n now later w w.phase d

    unfoldable pub step : ℕ → Event → Drain → Drain
    unfolding claim_next advance_one
    step cap (Event.claim now) d = claim_next now d.todo d
    step cap (Event.advance n now later) d = advance_one cap n now later (get_elem? d.running n) d

    unfoldable pub run : ℕ → List Event → Drain → Drain
    unfolding step
    run cap [] d = d
    run cap (e ∷ es) d = run cap es (step cap e d)

    -- What was put off is queued again.
    unfoldable pub mrf_drain : ℕ → ℕ → List Event → Pool eng → ℕ × ℕ × Pool eng
    unfolding pop_batch run requeue
    mrf_drain cap most events p =
        let (batch, q) = pop_batch most p.mrf in
        let d = run cap events (start batch (record p { mrf = q })) in
        (d.healed, length d.deferred, record d.pool { mrf = requeue d.deferred d.pool.mrf })
