-- ===== src/Pool/Policy.antt =====
-- The placement of crates/ozd-app/src/placement.rs as the policy of the pool.
use ozd.Prelude.{ℕ, List, [], ◌∷◌, inl, inr, All}
use ozd.Domain.{BlockKey, ShardId}
use ozd.Placement.{Float, Row, select}
use ozd.Placement.Ranking.{IsTarget}
use ozd.Placement.Choice.{select-IsTarget, select-Distinct}
use ozd.Shards.Laws.{All-map}
use ozd.Pool.Topology.{row_ids}
use ozd.Pool.Write.Arrival.{IsPolicy}

module _ (f : Float) (xxh3 : BlockKey → ℕ → ℕ) (fill_block : f.F) where
  target-row :
      (P : ShardId → Type 0) (rows : List Row) (id : ShardId)
      → All P (row_ids rows)
      → IsTarget f xxh3 fill_block rows id
      → P id
  target-row P [] id h t = absurd t
  target-row P (row ∷ rows) id h (inl (e, ok)) = rw⁻¹ e h.0
  target-row P (row ∷ rows) id h (inr t) = target-row P rows id h.1 t

  -- Rendezvous hashing is a placement policy: it chooses different ones of the shards it is given.
  pub select-IsPolicy : IsPolicy (select f xxh3 fill_block)
  select-IsPolicy = record {
    chosen-Distinct = λ key rows n d. select-Distinct f xxh3 fill_block key rows n d;
    chosen-All = λ P key rows n h.
        All-map (select f xxh3 fill_block key rows n) (λ id t. target-row P rows id h t)
          (select-IsTarget f xxh3 fill_block key rows n);
  }
