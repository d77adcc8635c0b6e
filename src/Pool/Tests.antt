-- ===== src/Pool/Tests.antt =====
-- Concrete runs of the pool (crates/ozd-app/src/pool.rs), and the theorems applied to them: three
-- disks in memory, two replicas, and a write quorum of two.
pub mod Fleet
mod Erasure
mod Walk
use ozd.Prelude.{
  ℕ, ◌+◌, ◌<◌, List, [], ◌∷◌, Bool, false, Option, none, some, ◌≡◌, ◌⊎◌, inl, inr, refl, arith,
  length,
}
use ozd.Domain.{BlockKey, Body, ShardId, DomainError, not_found, io, DomainResult, ok, err}
use ozd.Domain.Piece.{parse_piece_header}
use ozd.Erasure.{ReedSolomon}
use ozd.Placement.{Row, select, h01, is_target, weight, score, scored, insert_sorted, sort_by_score}
use ozd.Placement.Tests.{numbers, hash}
use ozd.Shards.{ShardEngine, update}
use ozd.Pool.{
  Pool, PoolConfig, new, built, replicas_for, topology, topology_from, refreshed, rows_from,
  ranking_for,
}
use ozd.Pool.Topology.{IsValid, built-IsValid}
use ozd.Pool.Policy.{select-IsPolicy}
use ozd.Pool.Write.{
  Outboard, put, put_inner, put_body, put_as, put_mirror, put_replicas, write_jobs, write_all,
  hand_off, handoff, quorum_result,
}
use ozd.Pool.Write.Arrival.{IsPolicy}
use ozd.Pool.Write.Quorum.{Copies}
use ozd.Pool.Read.{Race, asked, read_legs, others, scan, read_replicas, get_as}
use ozd.Pool.Read as Read
use ozd.Pool.Read.Found.{Found}
use ozd.Pool.Durable.{get-cases, Outlived}
use ozd.Pool.Repair.{
  repair_key, repair_key_as, repair_key_mirror, repair_desired, repair_missing, lacking, holders,
  read_for_repair, fill, copy_to,
}
use ozd.Pool.Drain.{
  Request, Event, run, start, step, claim_next, advance_one, advance_in, acquire, back_out, release,
  heal,
}
use ozd.Pool.Drain.Slots.{Balanced, drain-Balanced}
use ozd.HealQueue.{high, urgent}
use ozd.Pool.Tests.Fleet.{Memory, memory, swapped}
use ozd.Prelude.{bytes_eq}

abbrev config : PoolConfig
config = record {
  replicas = 2;
  write_quorum = 2;
  free_space_cache_ttl = 5;
  ec = none;
  outboard = none;
}

abbrev no_code : ReedSolomon
no_code = record { exists = λ k m. false; encode = λ k m ss. none; reconstruct = λ k m ss. none }

abbrev plain : Outboard
plain = record { make_outboard = λ b. b; ob_key = λ k. 0 ∷ k; is_ob_key = λ k. false }

abbrev policy : BlockKey → List Row → ℕ → List ShardId
policy = select numbers hash 95

-- Disk 1 is dead.
abbrev disks : ℕ → Memory
disks = update (λ i. Memory.live []) 1 Memory.dead

abbrev fleet : Pool memory
fleet = built memory config disks 3

fleet_made : new memory config disks 3 ≡ some fleet
unfolding new
fleet_made = refl

-- two replicas on one disk
fleet_refused : new memory config disks 1 ≡ none
unfolding new
fleet_refused = refl

abbrev key : BlockKey
key = 7 ∷ []

abbrev body : Body
body = 1 ∷ 2 ∷ 3 ∷ []

abbrev after_put : Pool memory
after_put = (put memory policy swapped no_code plain 1 2 key body fleet).1

program : Unit {0}
unfolding replicas_for topology topology_from refreshed rows_from ranking_for put put_inner put_body
    put_as put_mirror put_replicas write_jobs write_all hand_off handoff quorum_result h01 is_target
    weight score scored insert_sorted sort_by_score select bytes_eq asked read_legs others scan
    read_replicas get_as Read.get
program = tt

chosen_disks : (replicas_for memory policy 1 key fleet).0 ≡ 0 ∷ 1 ∷ []
unfolding program
chosen_disks = refl

-- Disk 0 dies after the put, which left the copies on disks 0 and 2.
abbrev later_fleet : Pool memory
later_fleet = record after_put { shards = update after_put.shards 0 Memory.dead }

read_after_loss :
    (Read.get memory no_code swapped policy (some Race.second_leg) 9 key later_fleet).0 ≡ ok body
unfolding program
read_after_loss = refl

abbrev fleet-IsValid : IsValid memory fleet
fleet-IsValid = built-IsValid memory config disks 3 (omega arith)

later_fleet-IsValid : IsValid memory later_fleet
unfolding program
later_fleet-IsValid = record { small = omega arith; cached = (omega arith, omega arith) }

get-cases_example :
    ((b : Body) × ((Read.get memory no_code swapped policy (some Race.in_time) 9 key later_fleet).0
        ≡ ok b)
      × Found memory key later_fleet.shards 3 b)
    ⊎ (((e : DomainError) × ((Read.get memory no_code swapped policy
              (some Race.in_time)
              9
              key
              later_fleet).0
            ≡ err e))
        × ((i : ShardId)
            → i < 3
            → (e : DomainError) × (memory.get key (later_fleet.shards i) ≡ err e)))
unfolding program
get-cases_example =
    get-cases memory no_code swapped policy (select-IsPolicy numbers hash 95) (some Race.in_time) 9
      key later_fleet later_fleet-IsValid refl

-- Disk 1 is new and empty, and disk 0 has the block.
abbrev half : ℕ → Memory
half = update (λ i. Memory.live []) 0 (Memory.live ((key, body, none) ∷ []))

abbrev half_fleet : Pool memory
half_fleet = built memory config half 3

repairs : Unit {0}
unfolding program repair_key repair_key_as repair_key_mirror repair_desired repair_missing lacking
    holders read_for_repair fill copy_to
repairs = tt

-- Two requests for the same disks; the second is put off while the first runs.
abbrev batch : List Request
batch = (key, urgent) ∷ (8 ∷ [], high) ∷ []

abbrev forward : ℕ → Event
forward n = Event.advance n 1 1

abbrev events : List Event
events =
    Event.claim 1
    ∷ Event.claim 1
    ∷ forward 0
    ∷ forward 0
    ∷ forward 1
    ∷ forward 1
    ∷ forward 1
    ∷ forward 0
    ∷ forward 0
    ∷ forward 0
    ∷ forward 0
    ∷ []

drains : Unit {0}
unfolding repairs run step claim_next advance_one advance_in acquire back_out release heal
drains = tt

second_put_off :
    length (run memory no_code policy 1 events (start memory batch half_fleet)).deferred ≡ 1
unfolding drains
second_put_off = refl

first_healed : (run memory no_code policy 1 events (start memory batch half_fleet)).healed ≡ 1
unfolding drains
first_healed = refl

drain-Balanced_example :
    Balanced memory 1 batch (run memory no_code policy 1 events (start memory batch half_fleet))
drain-Balanced_example = drain-Balanced memory no_code policy 1 batch events half_fleet
