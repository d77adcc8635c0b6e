-- ===== src/Pool/Write/Quorum.antt =====
-- What a put of crates/ozd-app/src/pool.rs promises when it succeeds: enough different disks hold
-- the block, whatever the order in which the writes are answered.
use mathlib.Core.Bool.{true≢false}
use ozd.Prelude.{
  ℕ, ◌^◌, ◌<◌, List, [], ◌∷◌, Bool, true, false, ◌||◌, Option, ◌≡◌, ◌≢◌, refl, sym, ap, ◌∙◌, length,
  All, Bool-cases, inl, inr, ==_refl, ◌==◌,
}
use ozd.Domain.{BlockKey, Body, ShardId, ok}
use ozd.Index.Roundtrip.{FitsObj}
use ozd.Placement.{Row}
use ozd.Placement.Choice.{Fresh, Distinct}
use ozd.Shards.{ShardEngine, IsShard}
use ozd.Shards.Laws.{update-other, All-map}
use ozd.Pool.{Pool, topology}
use ozd.Pool.Topology.{IsValid, topology-Looked}
use ozd.Pool.Write.{
  Job, Tally, answered, contains, without, mirrored, write_all, hand_off, write_jobs, start,
}
use ozd.Pool.Write.Acked.{ids, Acked, answered-shards, write_all-Acked, handoff-Acked}
use ozd.Pool.Write.Arrival.{IsPolicy, Arrives, arrive-Distinct, arrive-All, arrive-ids}

-- Not one of the chosen shards is a spare.
contains-Fresh :
    (chosen : List ShardId) (i : ShardId) (is : List ShardId)
    → contains chosen i ≡ false
    → All (λ j. contains chosen j ≡ true) is
    → Fresh i is
contains-Fresh chosen i [] h all = tt
contains-Fresh chosen i (j ∷ is) h all =
    (λ e. true≢false (sym all.0 ∙ ap (contains chosen) e ∙ h), contains-Fresh chosen i is h all.1)

without-Spare :
    (chosen ranking acked : List ShardId)
    → All (λ j. contains chosen j ≡ true) acked
    → All (λ i. Fresh i acked) (without chosen ranking)
without-Spare chosen [] acked h = tt
without-Spare chosen (i ∷ is) acked h = elim (Bool-cases (contains chosen i)) [
  | inl e ↦ rw e (without-Spare chosen is acked h)
  | inr e ↦ rw e (contains-Fresh chosen i acked e h, without-Spare chosen is acked h)
]

without-All :
    (P : ShardId → Type 0) (chosen ranking : List ShardId)
    → All P ranking
    → All P (without chosen ranking)
without-All P chosen [] h = tt
without-All P chosen (i ∷ is) h = elim (Bool-cases (contains chosen i)) [
  | inl e ↦ rw e (without-All P chosen is h.1)
  | inr e ↦ rw e (h.0, without-All P chosen is h.1)
]

without-Distinct :
    (chosen ranking : List ShardId) → Distinct ranking → Distinct (without chosen ranking)
without-Distinct chosen [] h = tt
without-Distinct chosen (i ∷ is) h = elim (Bool-cases (contains chosen i)) [
  | inl e ↦ rw e (without-Distinct chosen is h.1)
  | inr e ↦ rw e (without-All (λ j. j ≢ i) chosen is h.0, without-Distinct chosen is h.1)
]

pub or_true : (b : Bool) → (b || true) ≡ true
or_true true = refl
or_true false = refl

contains_later :
    (i : ShardId) (is js : List ShardId)
    → All (λ j. contains is j ≡ true) js
    → All (λ j. contains (i ∷ is) j ≡ true) js
contains_later i is [] h = tt
contains_later i is (j ∷ js) h = (rw h.0 (or_true (j == i)), contains_later i is js h.1)

pub holds_own : (is : List ShardId) → All (λ j. contains is j ≡ true) is
holds_own [] = tt
holds_own (i ∷ is) = (rw (==_refl i) refl, contains_later i is is (holds_own is))

pub mirrored-ids : (b : Body) (is : List ShardId) → ids (mirrored b is) ≡ is
mirrored-ids b [] = refl
mirrored-ids b (i ∷ is) = rw (mirrored-ids b is) refl

pub mirrored-All :
    (b : Body) (B : Body → Type 0) (is : List ShardId) → B b → All (λ j. B j.1) (mirrored b is)
mirrored-All b B [] h = tt
mirrored-All b B (i ∷ is) h = (h, mirrored-All b B is h)

pub All-both :
    (P Q : ShardId → Type 0) (is : List ShardId) → All P is → All Q is → All (λ i. P i × Q i) is
All-both P Q [] g h = tt
All-both P Q (i ∷ is) g h = ((g.0, h.0), All-both P Q is g.1 h.1)

module _ (eng : ShardEngine) where
  open eng use {Shard, get}

  -- A shard that is not written to stays as it is.
  write_all-other :
      (key : BlockKey) (obj : Option ℕ) (i : ShardId) (js : List Job) (t : Tally eng)
      → Fresh i (ids js)
      → (write_all eng key obj js t).shards i ≡ t.shards i
  unfolding write_all
  write_all-other key obj i [] t h = refl
  write_all-other key obj i ((j, b) ∷ js) t h =
      let x = eng.put_meta key b obj (t.shards j) in
      write_all-other key obj i js (answered eng j b x t) h.1
      ∙ ap (λ f. f i) (answered-shards eng j b x t)
      ∙ update-other t.shards j x.1 i h.0

  spares-Good :
      (Good : Shard → Type 0) (key : BlockKey) (obj : Option ℕ) (chosen : List ShardId)
      (js : List Job) (ranking : List ShardId) (t : Tally eng)
      → All (λ j. contains chosen j ≡ true) (ids js)
      → All (λ i. Good (t.shards i)) ranking
      → All (λ i. Good ((write_all eng key obj js t).shards i)) (without chosen ranking)
  spares-Good Good key obj chosen js [] t h g = tt
  spares-Good Good key obj chosen js (i ∷ is) t h g = elim (Bool-cases (contains chosen i)) [
    | inl e ↦ rw e (spares-Good Good key obj chosen js is t h g.1)
    | inr e ↦
        rw (e, write_all-other key obj i js t (contains-Fresh chosen i (ids js) e h))
          (g.0, spares-Good Good key obj chosen js is t h g.1)
  ]

  module _ (select : BlockKey → List Row → ℕ → List ShardId) (policy : IsPolicy select)
      (arrive : List Job → List Job) (all_arrive : Arrives arrive) (Good : Shard → Type 0)
      (law : IsShard eng Good) (key : BlockKey) (obj : Option ℕ) (obj_fits : FitsObj obj)
      (B : Body → Type 0) (fits : (b : Body) → B b → length b < 2 ^ 32) where
    -- A put of jobs, and what it counts.
    pub record Counted (n : ℕ) (x : Tally eng × Pool eng) (acked : List Job) : Type 0 where
      pub acked_ok : Acked eng key (λ i. i < n) B x.0 acked
      pub same : x.1.shards ≡ x.0.shards
      pub valid : IsValid eng x.1

    hand_off-Counted :
        (now : ℕ) (chosen : List ShardId) (bs : List Body) (acked : List Job) (p : Pool eng)
        (t : Tally eng)
        → IsValid eng p
        → All B bs
        → All (λ i. contains chosen i ≡ true) (ids acked)
        → ((ranking : List ShardId)
            → All (λ i. i < p.shard_count) ranking
            → All (λ i. Good (t.shards i)) (without chosen ranking))
        → Acked eng key (λ i. i < p.shard_count) B t acked
        → (p.shards ≡ t.shards)
        → (acked' : List Job) × Counted p.shard_count
            (hand_off eng select arrive now key obj chosen bs t p)
            acked'
    unfolding hand_off
    hand_off-Counted now chosen [] acked p t v bodies on good a same =
        (acked, record { acked_ok = a; same = same; valid = v })
    hand_off-Counted now chosen (b ∷ bs) acked p t v bodies on good a same =
        let looked = topology-Looked eng now p v in
        let rows = (topology eng now p).0 in
        let ranking = select key rows p.shard_count in
        let ranked =
          policy.chosen-All (λ i. i < p.shard_count) key rows p.shard_count looked.rows.1 in
        let (acked', a') =
          handoff-Acked eng Good law key obj obj_fits (λ i. i < p.shard_count) B fits (b ∷ bs)
            (without chosen ranking) t acked
            (without-Distinct chosen ranking
              (policy.chosen-Distinct key rows p.shard_count looked.rows.0))
            (without-Spare chosen ranking (ids acked) on) (good ranking ranked)
            (without-All (λ i. i < p.shard_count) chosen ranking ranked) bodies a in
        (
          acked',
          record {
            acked_ok = a';
            same = refl;
            valid = record { small = looked.valid.small; cached = looked.valid.cached };
          },
        )

    -- After the writes to the chosen shards and the handoff, every counted write is held by another
    -- shard of the pool.
    pub write_jobs-Counted :
        (now : ℕ) (chosen : List ShardId) (js : List Job) (p : Pool eng)
        → IsValid eng p
        → ((i : ShardId) → i < p.shard_count → Good (p.shards i))
        → Distinct (ids js)
        → All (λ i. i < p.shard_count) (ids js)
        → All (λ i. contains chosen i ≡ true) (ids js)
        → All (λ j. B j.1) js
        → (acked : List Job) × Counted p.shard_count
            (write_jobs eng select arrive now key obj chosen js p)
            acked
    unfolding write_jobs
    write_jobs-Counted now chosen js p v good d below on bodies =
        let t0 = start eng p.shards in
        let t = write_all eng key obj (arrive js) t0 in
        let on' = arrive-ids (λ i. contains chosen i ≡ true) arrive js all_arrive on in
        let below' = arrive-ids (λ i. i < p.shard_count) arrive js all_arrive below in
        let (acked, a) =
          write_all-Acked eng Good law key obj obj_fits
            (λ i. (contains chosen i ≡ true) × (i < p.shard_count)) B fits (arrive js) t0 []
            (arrive-Distinct arrive js all_arrive d) (All-map (ids (arrive js)) (λ i h. tt) below')
            (All-map (ids (arrive js)) good below')
            (All-both (λ i. contains chosen i ≡ true) (λ i. i < p.shard_count) (ids (arrive js)) on'
              below')
            (arrive-All (λ j. B j.1) arrive js all_arrive bodies)
            (record { held = tt; distinct = tt; count = refl; on = tt; bodies = tt; left = tt }) in
        hand_off-Counted now chosen t.failed acked (record p { shards = t.shards }) t
          (record { small = v.small; cached = v.cached }) a.left
          (All-map (ids acked) (λ i h. h.0) a.on)
          (λ ranking ranked.
            spares-Good Good key obj chosen (arrive js) ranking t0 on'
              (All-map ranking good ranked))
          (record {
            held = a.held;
            distinct = a.distinct;
            count = a.count;
            on = All-map (ids acked) (λ i h. h.1) a.on;
            bodies = a.bodies;
            left = a.left;
          })
          refl

  -- Different shards of the first n that hold a block.
  pub record Copies (key : BlockKey) (body : Body) (n : ℕ) (shards : ℕ → Shard) (on : List ShardId)
      : Type 0 where
    pub held : All (λ i. get key (shards i) ≡ ok body) on
    pub distinct : Distinct on
    pub below : All (λ i. i < n) on
