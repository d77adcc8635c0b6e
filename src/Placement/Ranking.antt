-- ===== src/Placement/Ranking.antt =====
-- What the ranking of crates/ozd-app/src/placement.rs promises to the pool.
use ozd.Prelude.{
  ℕ, zero, suc, ◌≤◌, List, [], ◌∷◌, map, ◌≡◌, ◌⊎◌, refl, ap, ◌∙◌, true, arith, length, take, min,
  take-take, length-take, length-map, if◌then◌else◌,
}
use ozd.Domain.{BlockKey, ShardId}
use ozd.Placement.{Float, Row, is_target, scored, insert_sorted, sort_by_score, select}

module _ (f : Float) (xxh3 : BlockKey → ℕ → ℕ) (fill_block : f.F) where
  open f use {F, gt}

  -- How many shards may take new blocks.
  abbrev pub count_targets : List Row → ℕ
  count_targets [] = 0
  count_targets (row ∷ rows) =
      if is_target f xxh3 fill_block row then suc (count_targets rows) else count_targets rows

  -- The shard stands in the topology, and may take new blocks.
  abbrev pub IsTarget : List Row → ShardId → Type 0
  IsTarget [] id = ⊥
  IsTarget (row ∷ rows) id =
      ((row.0 ≡ id) × (is_target f xxh3 fill_block row ≡ true)) ⊎ IsTarget rows id

  length-insert_sorted :
      (x : F × ShardId) (ys : List (F × ShardId))
      → length (insert_sorted f xxh3 fill_block x ys) ≡ suc (length ys)
  unfolding insert_sorted
  length-insert_sorted x [] = refl
  length-insert_sorted x (y ∷ ys) = ground (arith, length-insert_sorted x ys)

  length-sort : (xs : List (F × ShardId)) → length (sort_by_score f xxh3 fill_block xs) ≡ length xs
  unfolding sort_by_score
  length-sort [] = refl
  length-sort (x ∷ xs) = length-insert_sorted x _ ∙ ap suc (length-sort xs)

  length-scored :
      (key : BlockKey) (rows : List Row)
      → length (scored f xxh3 fill_block key rows) ≡ count_targets rows
  unfolding scored
  length-scored key [] = refl
  length-scored key (row ∷ rows) = ground (arith, length-scored key rows)

  -- The policy gives as many shards as are asked for, or all that may take new blocks if these are
  -- fewer.
  pub length-select :
      (key : BlockKey) (topology : List Row) (rf : ℕ)
      → length (select f xxh3 fill_block key topology rf) ≡ min rf (count_targets topology)
  unfolding select
  length-select key topology rf = omega (
    arith,
    length-map (λ (s : F × ShardId). s.1)
        (take rf (sort_by_score f xxh3 fill_block (scored f xxh3 fill_block key topology))),
    length-take rf (sort_by_score f xxh3 fill_block (scored f xxh3 fill_block key topology)),
    length-sort (scored f xxh3 fill_block key topology),
    length-scored key topology,
  )

  take-map :
      {A B : Type 0} (g : A → B) (n : ℕ) (xs : List A) → take n (map g xs) ≡ map g (take n xs)
  take-map g zero xs = refl
  take-map g (suc n) [] = refl
  take-map g (suc n) (x ∷ xs) = ap (◌∷◌ (g x)) (take-map g n xs)

  -- The first n shards of a longer ranking are the ranking of n: the mirror's replicas are a prefix
  -- of the places of the erasure-coded pieces.
  pub select-prefix :
      (key : BlockKey) (topology : List Row) (n more : ℕ)
      → n ≤ more
      → take n (select f xxh3 fill_block key topology more)
        ≡ select f xxh3 fill_block key topology n
  unfolding select
  select-prefix key topology n more h =
      let ranked = sort_by_score f xxh3 fill_block (scored f xxh3 fill_block key topology) in
      take-map (λ (s : F × ShardId). s.1) n (take more ranked)
      ∙ ap (map (λ s. s.1)) (take-take n more ranked h)
