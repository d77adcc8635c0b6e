-- ===== src/Pool/Read/Found.antt =====
-- What a get of crates/ozd-app/src/pool.rs finds, whichever of two reads answers first.
use mathlib.Core.Bool.{true≢false}
use ozd.Prelude.{
  ==_iff, ℕ, zero, suc, ◌+◌, ◌<◌, ◌≤◌, List, [], ◌∷◌, ◌++◌, true, false, Option, none, some, ◌≡◌,
  ◌⊎◌, inl, inr, refl, sym, ap, ◌∙◌, arith, All, Bool-cases, ◌==◌, ◌||◌, drop, length,
}
use ozd.Domain.{BlockKey, Body, ShardId, DomainError, not_found, DomainResult, ok, err}
use ozd.Shards.{ShardEngine}
use ozd.Pool.Write.{contains}
use ozd.Pool.Read.{Race, asked, kept, read_legs, others, scan, or_scanned, read_replicas}

module _ (eng : ShardEngine) (key : BlockKey) (shards : ℕ → eng.Shard) where
  -- A shard that has no readable copy of the block.
  abbrev Fails : ShardId → Type 0
  Fails i = (e : DomainError) × (eng.get key (shards i) ≡ err e)

  -- A shard below n that has the block.
  abbrev pub Found : ℕ → Body → Type 0
  Found n b = (i : ShardId) × (i < n) × (eng.get key (shards i) ≡ ok b)

  result-cases :
      (x : DomainResult Body) → ((b : Body) × (x ≡ ok b)) ⊎ ((e : DomainError) × (x ≡ err e))
  result-cases (ok b) = inl (b, refl)
  result-cases (err e) = inr (e, refl)

  read_hit :
      (i : ShardId) (is : List ShardId) (last : DomainError) (b : Body)
      → eng.get key (shards i) ≡ ok b
      → read_legs eng key shards (i ∷ is) last ≡ ok b
  unfolding read_legs
  read_hit i is last b h = rw (read_legs, h) refl

  read_miss :
      (i : ShardId) (is : List ShardId) (last x : DomainError)
      → eng.get key (shards i) ≡ err x
      → read_legs eng key shards (i ∷ is) last ≡ read_legs eng key shards is (kept x last)
  unfolding read_legs
  read_miss i is last x h = rw (read_legs, h) refl

  scan_hit :
      (i : ShardId) (is : List ShardId) (b : Body)
      → eng.get key (shards i) ≡ ok b
      → scan eng key shards (i ∷ is) ≡ some b
  unfolding scan
  scan_hit i is b h = rw (scan, h) refl

  scan_miss :
      (i : ShardId) (is : List ShardId) (x : DomainError)
      → eng.get key (shards i) ≡ err x
      → scan eng key shards (i ∷ is) ≡ scan eng key shards is
  unfolding scan
  scan_miss i is x h = rw (scan, h) refl

  -- The first readable copy, or the failure of every shard.
  pub read_legs-cases :
      (n : ℕ) (is : List ShardId) (last : DomainError)
      → All (λ i. i < n) is
      → ((b : Body) × (read_legs eng key shards is last ≡ ok b) × Found n b)
        ⊎ (((e : DomainError) × (read_legs eng key shards is last ≡ err e)) × All Fails is)
  unfolding read_legs
  read_legs-cases n [] last h = inr ((last, refl), tt)
  read_legs-cases n (i ∷ is) last h = elim (result-cases (eng.get key (shards i))) [
    | inl (b, e) ↦ inl (b, read_hit i is last b e, (i, h.0, e))
    | inr (x, e) ↦ elim (read_legs-cases n is (kept x last) h.1) [
      | inl (b, e', f) ↦ inl (b, read_miss i is last x e ∙ e', f)
      | inr ((y, e'), fails) ↦ inr ((y, read_miss i is last x e ∙ e'), ((x, e), fails))
    ]
  ]

  pub scan-cases :
      (n : ℕ) (is : List ShardId)
      → All (λ i. i < n) is
      → ((b : Body) × (scan eng key shards is ≡ some b) × Found n b)
        ⊎ ((scan eng key shards is ≡ none) × All Fails is)
  unfolding scan
  scan-cases n [] h = inr (refl, tt)
  scan-cases n (i ∷ is) h = elim (result-cases (eng.get key (shards i))) [
    | inl (b, e) ↦ inl (b, scan_hit i is b e, (i, h.0, e))
    | inr (x, e) ↦ elim (scan-cases n is h.1) [
      | inl (b, e', f) ↦ inl (b, scan_miss i is x e ∙ e', f)
      | inr (e', fails) ↦ inr (scan_miss i is x e ∙ e', ((x, e), fails))
    ]
  ]

  pub others-All :
      (P : ShardId → Type 0) (i n : ℕ) (reps : List ShardId)
      → ((j : ℕ) → i ≤ j → j < i + n → P j)
      → All P (others eng i n reps)
  unfolding others
  others-All P i zero reps h = tt
  others-All P i (suc n) reps h =
      let rest = others-All P (i + 1) n reps (λ j l u. h j (omega arith) (omega arith)) in
      elim (Bool-cases (contains reps i)) [
        | inl e ↦ rw (others, e) rest
        | inr e ↦ rw (others, e) (h i (omega arith) (omega arith), rest)
      ]

  pub contains-at :
      (P : ShardId → Type 0) (reps : List ShardId) (i : ℕ)
      → contains reps i ≡ true
      → All P reps
      → P i
  contains-at P [] i e h = absurd (true≢false (sym e))
  contains-at P (j ∷ js) i e h = elim (Bool-cases (i == j)) [
    | inl same ↦ rw ((==_iff i j).0 same) h.0
    | inr other ↦ contains-at P js i (sym (ap (λ b. b || contains js i) other) ∙ e) h.1
  ]

  others_skipped :
      (i n : ℕ) (reps : List ShardId)
      → contains reps i ≡ true
      → others eng i (suc n) reps ≡ others eng (i + 1) n reps
  unfolding others
  others_skipped i n reps e = rw (others, e) refl

  others_taken :
      (i n : ℕ) (reps : List ShardId)
      → contains reps i ≡ false
      → others eng i (suc n) reps ≡ i ∷ others eng (i + 1) n reps
  unfolding others
  others_taken i n reps e = rw (others, e) refl

  pub all_along : (P : ShardId → Type 0) (xs ys : List ShardId) → xs ≡ ys → All P xs → All P ys
  all_along P xs ys e h = rw⁻¹ e h

  -- A shard is one of those asked before or one of the others.
  asked_or_other :
      (P : ShardId → Type 0) (i n : ℕ) (reps : List ShardId) (j : ℕ)
      → i ≤ j
      → j < i + n
      → All P reps
      → All P (others eng i n reps)
      → P j
  unfolding others
  asked_or_other P i zero reps j l u asked_fail fail = absurd (omega arith)
  asked_or_other P i (suc n) reps j l u asked_fail fail = elim (Bool-cases (contains reps i)) [
    | inl e ↦ elim (Bool-cases (i == j)) [
      | inl same ↦ rw⁻¹ ((==_iff i j).0 same) (contains-at P reps i e asked_fail)
      | inr other ↦
          asked_or_other P (i + 1) n reps j (ground arith) (omega arith) asked_fail
            (all_along P _ _ (others_skipped i n reps e) fail)
    ]
    | inr e ↦
        let both = all_along P _ _ (others_taken i n reps e) fail in
        elim (Bool-cases (i == j)) [
          | inl same ↦ rw⁻¹ ((==_iff i j).0 same) both.0
          | inr other ↦
              asked_or_other P (i + 1) n reps j (ground arith) (omega arith) asked_fail both.1
        ]
  ]

  -- The replicas in the order in which they are heard, and those that are asked afterwards.
  heard : Option Race → List ShardId → List ShardId
  heard race reps = asked race reps ++ drop (length (asked race reps)) reps

  heard-All :
      (P : ShardId → Type 0) (race : Option Race) (reps : List ShardId)
      → All P reps
      → All P (heard race reps)
  unfolding heard asked
  heard-All P none reps h = h
  heard-All P (some r) [] h = h
  heard-All P (some r) (i ∷ []) h = h
  heard-All P (some Race.in_time) (i ∷ j ∷ is) h = h
  heard-All P (some Race.first_leg) (i ∷ j ∷ is) h = h
  heard-All P (some Race.second_leg) (i ∷ j ∷ is) h = (h.1.0, (h.0, h.1.1))

  heard-all :
      (P : ShardId → Type 0) (race : Option Race) (reps : List ShardId)
      → All P (heard race reps)
      → All P reps
  unfolding heard asked
  heard-all P none reps h = h
  heard-all P (some r) [] h = h
  heard-all P (some r) (i ∷ []) h = h
  heard-all P (some Race.in_time) (i ∷ j ∷ is) h = h
  heard-all P (some Race.first_leg) (i ∷ j ∷ is) h = h
  heard-all P (some Race.second_leg) (i ∷ j ∷ is) h = (h.1.0, (h.0, h.1.1))

  -- A read of the replicas gives a body that one of the shards has, or every shard fails.
  pub read_replicas-cases :
      (race : Option Race) (reps : List ShardId) (n : ℕ)
      → All (λ i. i < n) reps
      → ((b : Body) × (read_replicas eng race key reps shards n ≡ ok b) × Found n b)
        ⊎ (((e : DomainError) × (read_replicas eng race key reps shards n ≡ err e))
            × ((i : ShardId) → i < n → Fails i))
  unfolding read_replicas heard
  read_replicas-cases race reps n below =
      elim (read_legs-cases n (heard race reps) not_found
        (heard-All (λ i. i < n) race reps below)) [
          | inl (b, e, f) ↦
              inl (b, ap (λ x. or_scanned eng x (scan eng key shards (others eng 0 n reps))) e, f)
          | inr ((x, e), fails) ↦
              let e' = ap (λ x. or_scanned eng x (scan eng key shards (others eng 0 n reps))) e in
              elim (scan-cases n (others eng 0 n reps)
                (others-All (λ i. i < n) 0 n reps (λ j l u. omega arith))) [
                  | inl (b, s, f) ↦ inl (b, e' ∙ ap (or_scanned eng (err x)) s, f)
                  | inr (s, rest) ↦ inr (
                    (x, e' ∙ ap (or_scanned eng (err x)) s),
                    λ i l.
                        asked_or_other Fails 0 n reps i (omega arith) (omega arith)
                          (heard-all Fails race reps fails) rest,
                  )
                ]
        ]
