-- ===== src/Placement/Tests.antt =====
-- Tests of the placement of crates/ozd-app/src/placement.rs, with numbers for floats: an id's hash
-- is the id, and the score of a shard is what it has free, less its id.
use ozd.Prelude.{ℕ, ◌+◌, ◌-◌, List, [], ◌∷◌, ◌≡◌, refl, arith, ltb, leb, All}
use ozd.Domain.{BlockKey, ShardId, ShardStatus}
use ozd.Placement.{
  Float, Row, h01, is_target, weight, score, scored, insert_sorted, sort_by_score, select,
}
use ozd.Placement.Choice.{Distinct, Roomy, select-Roomy, select-Distinct}
use ozd.Placement.Order.{IsOrder}

abbrev pub numbers : Float
numbers = record {
  F = ℕ;
  of_u64 = λ n. n;
  add = ◌+◌;
  sub = λ a b. 100 - b;
  mul = λ a b. a;
  div = λ a b. a;
  neg = λ a. a;
  ln = λ a. a;
  ge = λ a b. leb b a;
  gt = λ a b. ltb b a;
  hundredth = 0;
}

numbers_order : IsOrder numbers
numbers_order = record {
  asymmetric = λ a b h. ground arith;
  transitive = λ a b c h k. ground arith;
}

abbrev pub hash : BlockKey → ℕ → ℕ
hash key seed = seed

abbrev row : ShardId → ℕ → ShardStatus → Row
row id free st = (id, record { total_bytes = 100; free_bytes = free }, st)

abbrev disks : List Row
disks =
    row 0 50 ShardStatus.faulted
    ∷ row 1 2 ShardStatus.online
    ∷ row 2 40 ShardStatus.online
    ∷ row 3 70 ShardStatus.suspect
    ∷ []

program : Unit {0}
unfolding h01 is_target weight score scored insert_sorted sort_by_score select
program = tt

-- a faulted disk and a full one are no targets
skips_faulted_and_full : select numbers hash 95 [] disks 3 ≡ 3 ∷ 2 ∷ []
unfolding program
skips_faulted_and_full = refl

select-Roomy_example : All (Roomy numbers hash 95 disks) (select numbers hash 95 [] disks 3)
select-Roomy_example = select-Roomy numbers hash 95 [] disks 3

select-Distinct_example : Distinct (select numbers hash 95 [] disks 3)
select-Distinct_example = select-Distinct numbers hash 95 [] disks 3 (omega arith)
