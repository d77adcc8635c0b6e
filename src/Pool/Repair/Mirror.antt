-- ===== src/Pool/Repair/Mirror.antt =====
-- What the repair of a mirrored block in crates/ozd-app/src/pool.rs restores, and that it loses
-- nothing.
use ozd.Prelude.{
  ℕ, ◌^◌, ◌<◌, List, [], ◌∷◌, true, false, none, ◌≡◌, refl, ap, ◌∙◌, arith, All, ◌==◌, ==_refl,
  bytes_eq, length,
}
use ozd.Domain.{BlockKey, Body, ShardId, DomainResult, ok, err}
use ozd.Placement.Choice.{Fresh, Distinct}
use ozd.Shards.{ShardEngine, IsShard, update}
use ozd.Shards.Laws.{update-same, update-other, update-All, update-Fresh}
use ozd.Pool.Write.{contains}
use ozd.Pool.Write.Quorum.{or_true}
use ozd.Pool.Repair.{copied, copy_to}

module _ (eng : ShardEngine) where
  open eng use {Shard, get, put_meta}

  copied-shards :
      (i : ShardId) (x : DomainResult (Unit {0}) × Shard) (t : ℕ × ℕ × (ℕ → Shard))
      → (copied eng i x t).2 ≡ update t.2 i x.1
  copied-shards i (ok u, s) (done, left, shards) = refl
  copied-shards i (err e, s) (done, left, shards) = refl

  copied-whole :
      (i : ShardId) (x : DomainResult (Unit {0}) × Shard) (t : ℕ × ℕ × (ℕ → Shard))
      → (copied eng i x t).1 ≡ 0
      → (t.1 ≡ 0) × (x.0 ≡ ok tt)
  copied-whole i (ok u, s) (done, left, shards) h = (h, refl)
  copied-whole i (err e, s) (done, left, shards) h = absurd (omega arith)

  -- A shard that is not written to stays as it is.
  copy_to-other :
      (key : BlockKey) (body : Body) (is : List ShardId) (t : ℕ × ℕ × (ℕ → Shard)) (j : ShardId)
      → Fresh j is
      → (copy_to eng key body is t).2 j ≡ t.2 j
  unfolding copy_to
  copy_to-other key body [] t j h = refl
  copy_to-other key body (i ∷ is) t j h =
      let x = put_meta key body none (t.2 i) in
      copy_to-other key body is (copied eng i x t) j h.1
      ∙ ap (λ f. f j) (copied-shards i x t)
      ∙ update-other t.2 i x.1 j h.0

  module _ (Good : Shard → Type 0) (law : IsShard eng Good) (key : BlockKey) (body : Body)
      (short : length body < 2 ^ 32) where
    -- If no copy failed, none had failed before, and each shard has the body.
    pub copy_to-whole :
        (is : List ShardId) (t : ℕ × ℕ × (ℕ → Shard))
        → Distinct is
        → All (λ i. Good (t.2 i)) is
        → (copy_to eng key body is t).1 ≡ 0
        → (t.1 ≡ 0) × All (λ i. get key ((copy_to eng key body is t).2 i) ≡ ok body) is
    unfolding copy_to
    copy_to-whole [] t d good h = (h, tt)
    copy_to-whole (i ∷ is) t d good h =
        let x = put_meta key body none (t.2 i) in
        let t' = copied eng i x t in
        let (none_left, rest) =
          copy_to-whole is t' d.1
            (rw (copied-shards i x t) (update-Fresh Good t.2 i x.1 is d.0 good.1)) h in
        let (before, written) = copied-whole i x t none_left in
        (
          before,
          (
            ap (get key) (
                  copy_to-other key body is t' i d.0
                  ∙ ap (λ f. f i) (copied-shards i x t)
                  ∙ update-same t.2 i x.1)
                ∙ law.get-put key body none (t.2 i) tt good.0 short tt written,
            rest,
          ),
        )

    -- What could be read can be read, but for the key itself on the shards that are written to.
    pub copy_to-keeps :
        (is : List ShardId) (t : ℕ × ℕ × (ℕ → Shard)) (i : ShardId) (k : BlockKey) (b : Body)
        → (contains is i ≡ true → bytes_eq key k ≡ false)
        → get k (t.2 i) ≡ ok b
        → get k ((copy_to eng key body is t).2 i) ≡ ok b
    unfolding copy_to
    copy_to-keeps [] t i k b other h = h
    copy_to-keeps (j ∷ js) t i k b other h =
        let x = put_meta key body none (t.2 j) in
        let t' = copied eng j x t in
        let step : get k (t'.2 i) ≡ ok b =
          ap (λ f. get k (f i)) (copied-shards j x t)
          ∙ update-All (λ s. get k s ≡ ok b) t.2 j x.1 i
              (λ e.
                law.get-put_other key k body b none (t.2 j) (other (rw (e, ==_refl i) refl))
                  (rw e h))
              h in
        copy_to-keeps js t' i k b (λ c. other (rw c (or_true (i == j)))) step
