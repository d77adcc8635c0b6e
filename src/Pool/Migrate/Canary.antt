-- ===== src/Pool/Migrate/Canary.antt =====
-- A migration in crates/ozd-app/src/pool.rs that does not succeed leaves the mirrors alone.
use ozd.Prelude.{
  ℕ, suc, ◌%◌, ◌^◌, List, [], ◌∷◌, false, Option, none, some, ◌≡◌, ◌≢◌, ◌⊎◌, inl, inr, refl, ap,
  ◌∙◌, All, Bool-cases, take, drop, length, ltb, zero,
}
use ozd.Domain.{BlockKey, Body, ShardId, DomainError, DomainResult, ok, err}
use ozd.Domain.Piece.{PieceHeader, parse_piece_header}
use ozd.Erasure.{ReedSolomon, EcConfig, ec_encode}
use ozd.Placement.Choice.{Fresh, Distinct}
use ozd.Shards.{ShardEngine, update}
use ozd.Shards.Laws.{update-other, All-map}
use ozd.Pool.{Pool}
use ozd.Pool.Write.{Job, jobs_of}
use ozd.Pool.Write.Acked.{ids}
use ozd.Pool.Migrate.{
  MigrateOutcome, read_as, delete_at, canary, commit_pieces, move_pieces, migrate_body,
}

pub answer-cases {ℓ} :
    {A : Type ℓ} (x : DomainResult A) → ((a : A) × (x ≡ ok a)) ⊎ ((e : DomainError) × (x ≡ err e))
answer-cases (ok a) = inl (a, refl)
answer-cases (err e) = inr (e, refl)

-- The ranks from n on are on other disks than the ranks below n.
drop-Fresh : (i : ShardId) (n : ℕ) (is : List ShardId) → Fresh i is → Fresh i (drop n is)
drop-Fresh i zero is h = h
drop-Fresh i (suc n) [] h = tt
drop-Fresh i (suc n) (j ∷ js) h = drop-Fresh i n js h.1

pub take-Fresh :
    (n : ℕ) (is : List ShardId) → Distinct is → All (λ i. Fresh i (drop n is)) (take n is)
take-Fresh zero is d = tt
take-Fresh (suc n) [] d = tt
take-Fresh (suc n) (i ∷ is) d = (drop-Fresh i n is d.0, take-Fresh n is d.1)

jobs_of-Fresh :
    (i : ShardId) (is : List ShardId) (bs : List Body) → Fresh i is → Fresh i (ids (jobs_of is bs))
jobs_of-Fresh i [] bs h = tt
jobs_of-Fresh i (j ∷ js) [] h = tt
jobs_of-Fresh i (j ∷ js) (b ∷ bs) h = (h.0, jobs_of-Fresh i js bs h.1)

header-cases : (o : Option PieceHeader) → (o ≡ none) ⊎ ((h : PieceHeader) × (o ≡ some h))
header-cases none = inl refl
header-cases (some h) = inr (h, refl)

module _ (eng : ShardEngine) (key : BlockKey) where
  delete_at-other :
      (is : List ShardId) (shards : ℕ → eng.Shard) (j : ShardId)
      → Fresh j is
      → delete_at eng key is shards j ≡ shards j
  unfolding delete_at
  delete_at-other [] shards j h = refl
  delete_at-other (i ∷ is) shards j h =
      delete_at-other is (update shards i (eng.delete key (shards i)).1) j h.1
      ∙ update-other shards i (eng.delete key (shards i)).1 j h.0

  canary-other :
      (obj : ℕ) (js : List Job) (shards : ℕ → eng.Shard) (j : ShardId)
      → Fresh j (ids js)
      → (canary eng key obj js shards).1 j ≡ shards j
  unfolding canary
  canary-other obj [] shards j h = refl
  canary-other obj ((i, b) ∷ js) shards j h =
      let x = eng.put_meta key b (some obj) (shards i) in
      let kept = update-other shards i x.1 j h.0 in
      elim (answer-cases x.0) [
        | inr (e, r) ↦ rw (canary, r) kept
        | inl (u, r) ↦ elim (answer-cases (read_as eng b (eng.get key x.1))) [
          | inr (e, back) ↦ rw (canary, r, back) kept
          | inl (same, back) ↦ elim (Bool-cases same) [
            | inl t ↦
                rw (canary, r, back, t) (canary-other obj js (update shards i x.1) j h.1 ∙ kept)
            | inr f ↦ rw (canary, r, back, f) kept
          ]
        ]
      ]

  -- The migration did not reach the point of no return.
  abbrev pub Undone : DomainResult MigrateOutcome → Type 0
  Undone r = r ≢ ok MigrateOutcome.migrated

  move_pieces-other :
      (obj legs : ℕ) (targets : List ShardId) (heads tails : List Job) (p : Pool eng) (j : ShardId)
      → Fresh j (ids tails)
      → Fresh j (drop legs targets)
      → Undone (move_pieces eng key obj legs targets heads tails p).0
      → (move_pieces eng key obj legs targets heads tails p).1.shards j ≡ p.shards j
  unfolding move_pieces commit_pieces
  move_pieces-other obj legs targets heads tails p j fresh spare undone =
      let x = canary eng key obj tails p.shards in
      let kept =
        delete_at-other (drop legs targets) x.1 j spare ∙ canary-other obj tails p.shards j fresh in
      elim (answer-cases x.0) [
        | inr (e, r) ↦ rw (move_pieces, r) kept
        | inl (same, r) ↦ elim (Bool-cases same) [
          | inr f ↦ rw (move_pieces, r, f) kept
          | inl t ↦ absurd (undone (rw (move_pieces, r, t, commit_pieces) refl))
        ]
      ]

  module _ (rs : ReedSolomon) (ec : EcConfig) (targets : List ShardId) (legs : ℕ) where
    -- The first disks, which hold the mirrors, are as they were.
    abbrev pub Untouched : Pool eng → Pool eng → Type 0
    Untouched p p' = All (λ i. p'.shards i ≡ p.shards i) (take legs targets)

    moved : Body → List Body → Pool eng → DomainResult MigrateOutcome × Pool eng
    moved body pieces p =
        move_pieces eng key (length body % 2 ^ 64) legs targets
          (jobs_of (take legs targets) (take legs pieces))
          (jobs_of (drop legs targets) (drop legs pieces)) p

    migrate_body-moved :
        (body : Body) (pieces : List Body) (p : Pool eng)
        → parse_piece_header body ≡ none
        → ltb (length body) ec.min_size ≡ false
        → ec_encode rs body ec ≡ ok pieces
        → migrate_body eng rs key ec targets legs body p ≡ moved body pieces p
    unfolding migrate_body moved
    migrate_body-moved body pieces p e big r = rw (migrate_body, e, big, r) refl

    moved-Untouched :
        (body : Body) (pieces : List Body) (p : Pool eng)
        → Distinct targets
        → Undone (moved body pieces p).0
        → Untouched p (moved body pieces p).1
    unfolding moved
    moved-Untouched body pieces p d undone =
        All-map (take legs targets)
          (λ i h.
            move_pieces-other (length body % 2 ^ 64) legs targets
              (jobs_of (take legs targets) (take legs pieces))
              (jobs_of (drop legs targets) (drop legs pieces)) p i
              (jobs_of-Fresh i (drop legs targets) (drop legs pieces) h) h undone)
          (take-Fresh legs targets d)

    pub migrate_body-Untouched :
        (body : Body) (p : Pool eng)
        → Distinct targets
        → Undone (migrate_body eng rs key ec targets legs body p).0
        → Untouched p (migrate_body eng rs key ec targets legs body p).1
    unfolding migrate_body
    migrate_body-Untouched body p d undone = elim (header-cases (parse_piece_header body)) [
      | inr (h, e) ↦ rw (migrate_body, e) untouched
      | inl e ↦ elim (Bool-cases (ltb (length body) ec.min_size)) [
        | inl small ↦ rw (migrate_body, e, small) untouched
        | inr big ↦ elim (answer-cases (ec_encode rs body ec)) [
          | inr (x, r) ↦ rw (migrate_body, e, big, r) untouched
          | inl (pieces, r) ↦
              let e' = migrate_body-moved body pieces p e big r in
              All-map (take legs targets) (λ i h. ap (λ x. x.1.shards i) e' ∙ h)
                (moved-Untouched body pieces p d (λ h. undone (ap (λ x. x.0) e' ∙ h)))
        ]
      ]
    ]
      where
        untouched : Untouched p p
        untouched = All-map (take legs targets) (λ i h. refl) (take-Fresh legs targets d)
