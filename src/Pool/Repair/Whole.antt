-- ===== src/Pool/Repair/Whole.antt =====
-- A repair of a mirrored block in crates/ozd-app/src/pool.rs that leaves nothing undone makes the
-- block whole, and no repair loses a readable copy.
use mathlib.Core.Bool.{true≢false}
use ozd.Prelude.{
  ℕ, ◌^◌, ◌<◌, List, [], ◌∷◌, true, false, none, ◌≡◌, ◌⊎◌, inl, inr, refl, sym, ap, ◌∙◌, arith, All,
  Bool-cases, bytes_eq, bytes_eq→eq, length,
}
use ozd.Domain.{BlockKey, Body, ShardId, DomainResult, ok, err}
use ozd.Placement.Choice.{Distinct}
use ozd.Shards.{ShardEngine, IsShard}
use ozd.Shards.Laws.{All-map}
use ozd.Pool.{Pool}
use ozd.Pool.Write.{contains}
use ozd.Pool.Read.Found.{Found, contains-at}
use ozd.Pool.Repair.{
  or_false, has_block, holders, lacking, read_for_repair, fill, repair_missing, repair_desired,
  Repaired,
}
use ozd.Pool.Repair.Mirror.{copy_to-whole, copy_to-keeps}
use ozd.Pool.Repair.Lacking.{
  holders-All, lacking-All, lacking-Distinct, lacking-false, lacking-rest, read_for_repair-Found,
}

-- How many copies a repair could not write.
abbrev left_of : Repaired → ℕ
left_of (ok (done, left)) = left
left_of (err e) = 1

module _ (eng : ShardEngine) (Good : eng.Shard → Type 0) (law : IsShard eng Good) where
  -- A desired disk had the block, or gives a body now that some disk of the pool had.
  abbrev pub IsWhole : BlockKey → List ShardId → (ℕ → eng.Shard) → ℕ → (ℕ → eng.Shard) → Type 0
  IsWhole key desired shards n shards' =
      All
        (λ i.
          (has_block eng key shards i ≡ true)
          ⊎ ((b : Body) × Found eng key shards n b × (eng.get key (shards' i) ≡ ok b)))
        desired

  -- Nothing that could be read is lost.
  abbrev pub Keeps : (ℕ → eng.Shard) → (ℕ → eng.Shard) → Type 0
  Keeps shards shards' =
      (i : ShardId) (k : BlockKey) (b : Body)
      → eng.get k (shards i) ≡ ok b
      → eng.get k (shards' i) ≡ ok b

  module _ (key : BlockKey) (p : Pool eng)
      (good : (i : ShardId) → i < p.shard_count → Good (p.shards i))
      (short : (b : Body) → Found eng key p.shards p.shard_count b → length b < 2 ^ 32) where
    not_its_own :
        (missing : List ShardId) (i : ShardId) (k : BlockKey) (b : Body)
        → All (λ i. has_block eng key p.shards i ≡ false) missing
        → eng.get k (p.shards i) ≡ ok b
        → contains missing i ≡ true
        → bytes_eq key k ≡ false
    not_its_own missing i k b lack h c = elim (Bool-cases (bytes_eq key k)) [
      | inr e ↦ e
      | inl e ↦
          let at : eng.get key (p.shards i) ≡ ok b = rw (bytes_eq→eq key k e) h in
          absurd (
            true≢false (
              sym (ap or_false (law.has-get key b (p.shards i) at))
              ∙ contains-at eng key p.shards (λ i. has_block eng key p.shards i ≡ false) missing i c
                  lack))
    ]

    fill-Keeps :
        (x : DomainResult Body) (missing : List ShardId)
        → All (λ i. has_block eng key p.shards i ≡ false) missing
        → ((b : Body) → x ≡ ok b → Found eng key p.shards p.shard_count b)
        → Keeps p.shards (fill eng key x missing p).1.shards
    unfolding fill
    fill-Keeps (err e) missing lack found i k b h = h
    fill-Keeps (ok body) missing lack found i k b h =
        copy_to-keeps eng Good law key body (short body (found body refl)) missing (0, 0, p.shards)
          i k b (not_its_own missing i k b lack h) h

    fill-whole :
        (x : DomainResult Body) (missing : List ShardId) (done : ℕ)
        → Distinct missing
        → All (λ i. i < p.shard_count) missing
        → ((b : Body) → x ≡ ok b → Found eng key p.shards p.shard_count b)
        → (fill eng key x missing p).0 ≡ ok (done, 0)
        → All
            (λ i.
              (b : Body) × Found eng key p.shards p.shard_count b
              × (eng.get key ((fill eng key x missing p).1.shards i) ≡ ok b))
            missing
    unfolding fill
    fill-whole (err e) missing done d below found h = absurd (ground arith)
    fill-whole (ok body) missing done d below found h =
        let whole =
          copy_to-whole eng Good law key body (short body (found body refl)) missing
            (0, 0, p.shards) d (All-map missing good below) (ap left_of h) in
        All-map missing (λ i r. (body, found body refl, r)) whole.1

    source-Found :
        (desired : List ShardId)
        → All (λ i. i < p.shard_count) desired
        → (b : Body)
        → read_for_repair eng key (holders eng key p.shards desired) p.shards p.shard_count ≡ ok b
        → Found eng key p.shards p.shard_count b
    source-Found desired below b h =
        read_for_repair-Found eng key p.shards (holders eng key p.shards desired) p.shard_count b
          (holders-All eng key p.shards (λ i. i < p.shard_count) desired below) h

    repair_missing-Keeps :
        (desired missing : List ShardId)
        → All (λ i. i < p.shard_count) desired
        → All (λ i. has_block eng key p.shards i ≡ false) missing
        → Keeps p.shards (repair_missing eng key none desired missing p).1.shards
    unfolding repair_missing
    repair_missing-Keeps desired [] below lack i k b h = h
    repair_missing-Keeps desired (m ∷ ms) below lack i k b h =
        fill-Keeps
          (read_for_repair eng key (holders eng key p.shards desired) p.shards p.shard_count)
          (m ∷ ms) lack (source-Found desired below) i k b h

    repair_missing-whole :
        (desired missing : List ShardId) (done : ℕ)
        → Distinct missing
        → All (λ i. i < p.shard_count) missing
        → All (λ i. i < p.shard_count) desired
        → (repair_missing eng key none desired missing p).0 ≡ ok (done, 0)
        → All
            (λ i.
              (b : Body) × Found eng key p.shards p.shard_count b
              × (eng.get key ((repair_missing eng key none desired missing p).1.shards i) ≡ ok b))
            missing
    unfolding repair_missing
    repair_missing-whole desired [] done d near below h = tt
    repair_missing-whole desired (m ∷ ms) done d near below h =
        fill-whole
          (read_for_repair eng key (holders eng key p.shards desired) p.shards p.shard_count)
          (m ∷ ms) done d near (source-Found desired below) h

    pub repair_desired-Keeps :
        (desired : List ShardId)
        → All (λ i. i < p.shard_count) desired
        → Keeps p.shards (repair_desired eng key none desired p).1.shards
    unfolding repair_desired
    repair_desired-Keeps desired below =
        repair_missing-Keeps desired (lacking eng key p.shards desired) below
          (lacking-false eng key p.shards desired)

    pub repair_desired-IsWhole :
        (desired : List ShardId) (done : ℕ)
        → Distinct desired
        → All (λ i. i < p.shard_count) desired
        → (repair_desired eng key none desired p).0 ≡ ok (done, 0)
        → IsWhole key desired p.shards p.shard_count
            (repair_desired eng key none desired p).1.shards
    unfolding repair_desired
    repair_desired-IsWhole desired done d below h = lacking-rest eng key p.shards _ desired (
        repair_missing-whole desired (lacking eng key p.shards desired) done
          (lacking-Distinct eng key p.shards desired d)
          (lacking-All eng key p.shards (λ i. i < p.shard_count) desired below) below h)
