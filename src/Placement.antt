-- ===== src/Placement.antt =====
-- crates/ozd-app/src/placement.rs: weighted rendezvous hashing. The floats and the hash are
-- parameters.
pub mod Ranking
pub mod Choice
pub mod Order
pub mod Tests
use ozd.Prelude.{ℕ, ◌+◌, List, [], ◌∷◌, map, Bool, true, false, ltb, leb, if◌then◌else◌, take}
use ozd.Domain.{BlockKey, ShardId, ShardStatus, Capacity}

-- `f64`, as far as the policy uses it; `gt a b` is `a.partial_cmp(b) == Some(Greater)`.
pub record Float : Type 1 where
  pub F : Type 0
  pub of_u64 : ℕ → F
  pub add : F → F → F
  pub sub : F → F → F
  pub mul : F → F → F
  pub div : F → F → F
  pub neg : F → F
  pub ln : F → F
  pub ge : F → F → Bool
  pub gt : F → F → Bool
  pub hundredth : F

-- One shard of the topology.
abbrev pub Row : Type 0
Row = ShardId × Capacity × ShardStatus

abbrev pub is_faulted : ShardStatus → Bool
is_faulted ShardStatus.faulted = true
is_faulted _ = false

abbrev pub is_suspect : ShardStatus → Bool
is_suspect ShardStatus.suspect = true
is_suspect _ = false

module _ (f : Float) (xxh3 : BlockKey → ℕ → ℕ) (fill_block : f.F) where
  open f use {F, of_u64, add, sub, mul, div, neg, ln, ge, gt, hundredth}

  -- `u64::MAX`
  abbrev u64_max : ℕ
  u64_max = 18446744073709551615

  unfoldable pub h01 : BlockKey → ShardId → F
  h01 key shard =
      let h = xxh3 key (shard + 1) in
      div (add (of_u64 h) (of_u64 1)) (add (of_u64 u64_max) (of_u64 2))

  -- The filter: not Faulted, and not filled up to the threshold.
  unfoldable pub is_target : Row → Bool
  is_target (id, cap, st) =
      if is_faulted st
      then false
      else if ltb 0 cap.total_bytes
      then (if ge (sub (of_u64 1) (div (of_u64 cap.free_bytes) (of_u64 cap.total_bytes))) fill_block
          then false
          else true)
      else true

  unfoldable pub weight : Row → F
  weight (id, cap, st) =
      let w = if ltb 0 cap.free_bytes then of_u64 cap.free_bytes else of_u64 1 in
      if is_suspect st then mul w hundredth else w

  unfoldable pub score : BlockKey → Row → F × ShardId
  unfolding weight h01
  score key row = (div (neg (weight row)) (ln (h01 key row.0)), row.0)

  -- `filter` and `map`
  unfoldable pub scored : BlockKey → List Row → List (F × ShardId)
  scored key [] = []
  scored key (row ∷ rows) =
      let rest = scored key rows in if is_target row then score key row ∷ rest else rest

  -- `sort_by` is stable; higher scores come first.
  unfoldable pub insert_sorted : F × ShardId → List (F × ShardId) → List (F × ShardId)
  insert_sorted x [] = x ∷ []
  insert_sorted x (y ∷ ys) = if gt y.0 x.0 then y ∷ insert_sorted x ys else x ∷ y ∷ ys

  unfoldable pub sort_by_score : List (F × ShardId) → List (F × ShardId)
  sort_by_score [] = []
  sort_by_score (x ∷ xs) = insert_sorted x (sort_by_score xs)

  unfoldable pub select : BlockKey → List Row → ℕ → List ShardId
  select key topology rf = map (λ s. s.1) (take rf (sort_by_score (scored key topology)))
