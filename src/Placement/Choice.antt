-- ===== src/Placement/Choice.antt =====
-- Which shards the policy of crates/ozd-app/src/placement.rs chooses, and in which order.
use ozd.Prelude.{
  ℕ, zero, suc, List, [], ◌∷◌, map, ◌≢◌, inl, inr, refl, sym, ◌∙◌, take, All, Bool-cases, true,
  false, ◌≡◌, ◌⊎◌, ltb, if◌then◌else◌, arith,
}
use ozd.Domain.{BlockKey, ShardId, ShardStatus, Capacity}
use ozd.Placement.{
  Float, Row, is_faulted, is_target, score, scored, insert_sorted, sort_by_score, select,
}
use ozd.Placement.Ranking.{IsTarget}

-- Ids that differ.
abbrev pub Fresh : ShardId → List ShardId → Type 0
Fresh id ids = All (λ j. j ≢ id) ids

abbrev pub Distinct : List ShardId → Type 0
Distinct [] = Unit
Distinct (id ∷ ids) = Fresh id ids × Distinct ids

module _ (f : Float) (xxh3 : BlockKey → ℕ → ℕ) (fill_block : f.F) where
  open f use {F, gt}

  abbrev ids : List (F × ShardId) → List ShardId
  ids = map (λ s. s.1)

  module _ (P : ShardId → Type 0) where
    All-insert :
        (x : F × ShardId) (ys : List (F × ShardId))
        → P x.1
        → All P (ids ys)
        → All P (ids (insert_sorted f xxh3 fill_block x ys))
    unfolding insert_sorted
    All-insert x [] h hs = (h, tt)
    All-insert x (y ∷ ys) h hs = elim (Bool-cases (gt y.0 x.0)) [
      | inl e ↦ rw e (hs.0, All-insert x ys h hs.1)
      | inr e ↦ rw e (h, hs)
    ]

    All-sort :
        (xs : List (F × ShardId))
        → All P (ids xs)
        → All P (ids (sort_by_score f xxh3 fill_block xs))
    unfolding sort_by_score
    All-sort [] h = tt
    All-sort (x ∷ xs) h = All-insert x _ h.0 (All-sort xs h.1)

    All-take : (n : ℕ) (xs : List (F × ShardId)) → All P (ids xs) → All P (ids (take n xs))
    All-take zero xs h = tt
    All-take (suc n) [] h = tt
    All-take (suc n) (x ∷ xs) h = (h.0, All-take n xs h.1)

    All-scored :
        (key : BlockKey) (rows : List Row)
        → ((id : ShardId) → IsTarget f xxh3 fill_block rows id → P id)
        → All P (ids (scored f xxh3 fill_block key rows))
    unfolding scored score
    All-scored key [] h = tt
    All-scored key (row ∷ rows) h =
        let rest = All-scored key rows (λ id t. h id (inr t)) in
        elim (Bool-cases (is_target f xxh3 fill_block row)) [
          | inl e ↦ rw e (h row.0 (inl (refl, e)), rest)
          | inr e ↦ rw e rest
        ]

  pub select-IsTarget :
      (key : BlockKey) (topology : List Row) (rf : ℕ)
      → All (IsTarget f xxh3 fill_block topology) (select f xxh3 fill_block key topology rf)
  unfolding select
  select-IsTarget key topology rf =
      let P = IsTarget f xxh3 fill_block topology in
      All-take P rf _
        (All-sort P (scored f xxh3 fill_block key topology) (All-scored P key topology (λ id t. t)))

  -- A disk may take blocks: it is not Faulted, and it reports no size, or its share of used bytes
  -- is not at the threshold.
  abbrev pub HasRoom : Row → Type 0
  HasRoom row =
      (row.2 ≢ ShardStatus.faulted)
      × ((row.1.total_bytes ≡ 0)
          ⊎ (f.ge
                (f.sub (f.of_u64 1)
                  (f.div (f.of_u64 row.1.free_bytes) (f.of_u64 row.1.total_bytes)))
                fill_block
              ≡ false))

  is_faulted-false : (st : ShardStatus) → is_faulted st ≡ false → st ≢ ShardStatus.faulted
  is_faulted-false ShardStatus.online h e = absurd (ground arith)
  is_faulted-false ShardStatus.suspect h e = absurd (ground arith)
  is_faulted-false ShardStatus.faulted h e = absurd (ground arith)

  is_target-HasRoom : (row : Row) → is_target f xxh3 fill_block row ≡ true → HasRoom row
  unfolding is_target
  is_target-HasRoom (id, cap, st) h = elim (Bool-cases (is_faulted st)) [
    | inl bad ↦ absurd (ground arith)
    | inr fine ↦ (is_faulted-false st fine, room cap (rw fine at h))
  ]
    where
      room :
          (cap : Capacity)
          → (if ltb 0 cap.total_bytes
              then (if f.ge
                    (f.sub
                      (f.of_u64 1)
                      (f.div (f.of_u64 cap.free_bytes) (f.of_u64 cap.total_bytes)))
                    fill_block
                  then false
                  else true)
              else true)
            ≡ true
          → (cap.total_bytes ≡ 0)
            ⊎ (f.ge
                  (f.sub (f.of_u64 1) (f.div (f.of_u64 cap.free_bytes) (f.of_u64 cap.total_bytes)))
                  fill_block
                ≡ false)
      room cap e = elim (Bool-cases (ltb 0 cap.total_bytes)) [
        | inl sized ↦ inr (ground arith)
        | inr unsized ↦ inl (ground arith)
      ]

  -- The topology has a row of this id whose disk may take blocks.
  abbrev pub Roomy : List Row → ShardId → Type 0
  Roomy [] id = ⊥
  Roomy (row ∷ rows) id = ((row.0 ≡ id) × HasRoom row) ⊎ Roomy rows id

  IsTarget-Roomy :
      (rows : List Row) (id : ShardId) → IsTarget f xxh3 fill_block rows id → Roomy rows id
  IsTarget-Roomy [] id t = absurd t
  IsTarget-Roomy (row ∷ rows) id (inl (same, t)) = inl (same, is_target-HasRoom row t)
  IsTarget-Roomy (row ∷ rows) id (inr t) = inr (IsTarget-Roomy rows id t)

  -- Every chosen shard has a row in the topology that is not Faulted, and whose disk reports no
  -- size or is filled below the threshold: one less the share of free bytes is not at least it.
  pub select-Roomy :
      (key : BlockKey) (topology : List Row) (rf : ℕ)
      → All (Roomy topology) (select f xxh3 fill_block key topology rf)
  unfolding select
  select-Roomy key topology rf =
      let P = Roomy topology in
      All-take P rf _ (
        All-sort P (scored f xxh3 fill_block key topology)
          (All-scored P key topology (IsTarget-Roomy topology)))

  Distinct-insert :
      (x : F × ShardId) (ys : List (F × ShardId))
      → Fresh x.1 (ids ys)
      → Distinct (ids ys)
      → Distinct (ids (insert_sorted f xxh3 fill_block x ys))
  unfolding insert_sorted
  Distinct-insert x [] h d = (tt, tt)
  Distinct-insert x (y ∷ ys) h d = elim (Bool-cases (gt y.0 x.0)) [
    | inl e ↦
        rw e (All-insert (λ j. j ≢ y.1) x ys (λ p. h.0 (sym p)) d.0, Distinct-insert x ys h.1 d.1)
    | inr e ↦ rw e (h, d)
  ]

  Distinct-sort :
      (xs : List (F × ShardId))
      → Distinct (ids xs)
      → Distinct (ids (sort_by_score f xxh3 fill_block xs))
  unfolding sort_by_score
  Distinct-sort [] d = tt
  Distinct-sort (x ∷ xs) d =
      Distinct-insert x _ (All-sort (λ j. j ≢ x.1) xs d.0) (Distinct-sort xs d.1)

  Distinct-take : (n : ℕ) (xs : List (F × ShardId)) → Distinct (ids xs) → Distinct (ids (take n xs))
  Distinct-take zero xs d = tt
  Distinct-take (suc n) [] d = tt
  Distinct-take (suc n) (x ∷ xs) d = (All-take (λ j. j ≢ x.1) n xs d.0, Distinct-take n xs d.1)

  Fresh-target :
      (rows : List Row) (id j : ShardId)
      → Fresh id (map (λ r. r.0) rows)
      → IsTarget f xxh3 fill_block rows j
      → j ≢ id
  Fresh-target [] id j h t = absurd t
  Fresh-target (row ∷ rows) id j h (inl (p, _)) = λ q. h.0 (p ∙ q)
  Fresh-target (row ∷ rows) id j h (inr t) = Fresh-target rows id j h.1 t

  Distinct-scored :
      (key : BlockKey) (rows : List Row)
      → Distinct (map (λ r. r.0) rows)
      → Distinct (ids (scored f xxh3 fill_block key rows))
  unfolding scored score
  Distinct-scored key [] d = tt
  Distinct-scored key (row ∷ rows) d =
      let rest = Distinct-scored key rows d.1 in
      elim (Bool-cases (is_target f xxh3 fill_block row)) [
        | inl e ↦
            rw e
              (All-scored (λ j. j ≢ row.0) key rows (λ j t. Fresh-target rows row.0 j d.0 t), rest)
        | inr e ↦ rw e rest
      ]

  -- If the shards of the topology have different ids, so have the chosen ones: no two replicas of a
  -- block are on one disk.
  pub select-Distinct :
      (key : BlockKey) (topology : List Row) (rf : ℕ)
      → Distinct (map (λ r. r.0) topology)
      → Distinct (select f xxh3 fill_block key topology rf)
  unfolding select
  select-Distinct key topology rf d =
      Distinct-take rf _ (Distinct-sort _ (Distinct-scored key topology d))
