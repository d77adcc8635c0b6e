-- ===== src/Pool/Repair/Lacking.antt =====
-- Which shards lack a block, and where a repair of crates/ozd-app/src/pool.rs reads it.
use ozd.Prelude.{
  ℕ, ◌<◌, List, [], ◌∷◌, true, false, ◌≡◌, ◌≢◌, ◌⊎◌, inl, inr, refl, sym, ap, ◌∙◌, arith, All,
  Bool-cases,
}
use ozd.Domain.{BlockKey, Body, ShardId, DomainError, not_found, DomainResult, ok, err}
use ozd.Placement.Choice.{Distinct}
use ozd.Shards.{ShardEngine}
use ozd.Pool.Read.{scan, others}
use ozd.Pool.Read.Found.{Found, all_along, read_legs-cases, scan-cases, others-All}
use ozd.Pool.Repair.{has_block, holders, lacking, or_any, read_for_repair}

module _ (eng : ShardEngine) (key : BlockKey) (shards : ℕ → eng.Shard) where
  pub holders-All :
      (P : ShardId → Type 0) (is : List ShardId) → All P is → All P (holders eng key shards is)
  unfolding holders
  holders-All P [] h = tt
  holders-All P (i ∷ is) h = elim (Bool-cases (has_block eng key shards i)) [
    | inl e ↦ rw (holders, e) (h.0, holders-All P is h.1)
    | inr e ↦ rw (holders, e) (holders-All P is h.1)
  ]

  pub lacking-All :
      (P : ShardId → Type 0) (is : List ShardId) → All P is → All P (lacking eng key shards is)
  unfolding lacking
  lacking-All P [] h = tt
  lacking-All P (i ∷ is) h = elim (Bool-cases (has_block eng key shards i)) [
    | inl e ↦ rw (lacking, e) (lacking-All P is h.1)
    | inr e ↦ rw (lacking, e) (h.0, lacking-All P is h.1)
  ]

  pub lacking-Distinct : (is : List ShardId) → Distinct is → Distinct (lacking eng key shards is)
  unfolding lacking
  lacking-Distinct [] h = tt
  lacking-Distinct (i ∷ is) h = elim (Bool-cases (has_block eng key shards i)) [
    | inl e ↦ rw (lacking, e) (lacking-Distinct is h.1)
    | inr e ↦ rw (lacking, e) (lacking-All (λ j. j ≢ i) is h.0, lacking-Distinct is h.1)
  ]

  pub lacking-false :
      (is : List ShardId)
      → All (λ i. has_block eng key shards i ≡ false) (lacking eng key shards is)
  unfolding lacking
  lacking-false [] = tt
  lacking-false (i ∷ is) = elim (Bool-cases (has_block eng key shards i)) [
    | inl e ↦ rw (lacking, e) (lacking-false is)
    | inr e ↦ rw (lacking, e) (e, lacking-false is)
  ]

  lacking_has :
      (i : ShardId) (is : List ShardId)
      → has_block eng key shards i ≡ true
      → lacking eng key shards (i ∷ is) ≡ lacking eng key shards is
  unfolding lacking
  lacking_has i is e = rw (lacking, e) refl

  lacking_not :
      (i : ShardId) (is : List ShardId)
      → has_block eng key shards i ≡ false
      → lacking eng key shards (i ∷ is) ≡ i ∷ lacking eng key shards is
  unfolding lacking
  lacking_not i is e = rw (lacking, e) refl

  -- Where something holds of the shards that lack the block, every other one has it.
  pub lacking-rest :
      (Q : ShardId → Type 0) (is : List ShardId)
      → All Q (lacking eng key shards is)
      → All (λ i. (has_block eng key shards i ≡ true) ⊎ Q i) is
  lacking-rest Q [] h = tt
  lacking-rest Q (i ∷ is) h = elim (Bool-cases (has_block eng key shards i)) [
    | inl e ↦ (inl e, lacking-rest Q is (all_along eng key shards Q _ _ (lacking_has i is e) h))
    | inr e ↦
        let both = all_along eng key shards Q _ _ (lacking_not i is e) h in
        (inr both.0, lacking-rest Q is both.1)
  ]

  same_body : (b c : Body) → DomainResult.ok b ≡ DomainResult.ok c → b ≡ c
  same_body b c h = grind arith

  refused : (e : DomainError) (b : Body) → DomainResult.err e ≡ DomainResult.ok b → ⊥
  refused e b h = ground arith

  -- The source of a repair is a body that one of the shards has.
  pub read_for_repair-Found :
      (have : List ShardId) (n : ℕ) (b : Body)
      → All (λ i. i < n) have
      → read_for_repair eng key have shards n ≡ ok b
      → Found eng key shards n b
  unfolding read_for_repair
  read_for_repair-Found have n b below h =
      let all_shards = others eng 0 n [] in
      elim (read_legs-cases eng key shards n have not_found below) [
        | inl (c, e, f) ↦
            rw⁻¹
              (same_body c b (sym (ap (λ x. or_any eng x (scan eng key shards all_shards)) e) ∙ h))
              f
        | inr ((x, e), fails) ↦
            let e' = sym (ap (λ x. or_any eng x (scan eng key shards all_shards)) e) ∙ h in
            elim (scan-cases eng key shards n all_shards
              (others-All eng key shards (λ i. i < n) 0 n [] (λ j l u. omega arith))) [
                | inl (c, s, f) ↦ rw⁻¹ (same_body c b (sym (ap (or_any eng (err x)) s) ∙ e')) f
                | inr (s, rest) ↦
                    absurd (refused not_found b (sym (ap (or_any eng (err x)) s) ∙ e'))
              ]
      ]
