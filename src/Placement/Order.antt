-- ===== src/Placement/Order.antt =====
-- The ranking of crates/ozd-app/src/placement.rs is by falling score.
use ozd.Prelude.{ℕ, List, [], ◌∷◌, ◌≡◌, inl, inr, true, false, All, Bool-cases}
use ozd.Domain.{BlockKey, ShardId}
use ozd.Placement.{Float, Row, scored, insert_sorted, sort_by_score}

-- The laws of the comparison where no score is a NaN.
pub record IsOrder (f : Float) : Type 0 where
  pub asymmetric : (a b : f.F) → f.gt a b ≡ true → f.gt b a ≡ false
  pub transitive : (a b c : f.F) → f.gt b a ≡ false → f.gt c b ≡ false → f.gt c a ≡ false

module _ (f : Float) (order : IsOrder f) (xxh3 : BlockKey → ℕ → ℕ) (fill_block : f.F) where
  open f use {F, gt}

  -- No later entry has a higher score than an earlier one.
  abbrev pub Ranked : List (F × ShardId) → Type 0
  Ranked [] = Unit
  Ranked (x ∷ xs) = All (λ y. gt y.0 x.0 ≡ false) xs × Ranked xs

  below-insert :
      (a : F) (x : F × ShardId) (ys : List (F × ShardId))
      → gt x.0 a ≡ false
      → All (λ y. gt y.0 a ≡ false) ys
      → All (λ y. gt y.0 a ≡ false) (insert_sorted f xxh3 fill_block x ys)
  unfolding insert_sorted
  below-insert a x [] h hs = (h, tt)
  below-insert a x (y ∷ ys) h hs = elim (Bool-cases (gt y.0 x.0)) [
    | inl e ↦ rw e (hs.0, below-insert a x ys h hs.1)
    | inr e ↦ rw e (h, hs)
  ]

  below-All :
      (a b : F) (ys : List (F × ShardId))
      → gt b a ≡ false
      → All (λ y. gt y.0 b ≡ false) ys
      → All (λ y. gt y.0 a ≡ false) ys
  below-All a b [] h hs = tt
  below-All a b (y ∷ ys) h hs = (order.transitive a b y.0 h hs.0, below-All a b ys h hs.1)

  Ranked-insert :
      (x : F × ShardId) (ys : List (F × ShardId))
      → Ranked ys
      → Ranked (insert_sorted f xxh3 fill_block x ys)
  unfolding insert_sorted
  Ranked-insert x [] r = (tt, tt)
  Ranked-insert x (y ∷ ys) r = elim (Bool-cases (gt y.0 x.0)) [
    | inl e ↦ rw e (below-insert y.0 x ys (order.asymmetric y.0 x.0 e) r.0, Ranked-insert x ys r.1)
    | inr e ↦ rw e ((e, below-All x.0 y.0 ys e r.0), r)
  ]

  Ranked-sort : (xs : List (F × ShardId)) → Ranked (sort_by_score f xxh3 fill_block xs)
  unfolding sort_by_score
  Ranked-sort [] = tt
  Ranked-sort (x ∷ xs) = Ranked-insert x _ (Ranked-sort xs)

  -- If the comparison of scores is a total preorder, the list of which `select` takes the first rf
  -- has no shard behind one with a lower score.
  pub ranking-Ranked :
      (key : BlockKey) (topology : List Row)
      → Ranked (sort_by_score f xxh3 fill_block (scored f xxh3 fill_block key topology))
  ranking-Ranked key topology = Ranked-sort (scored f xxh3 fill_block key topology)
