-- ===== src/Pool/Write/Acked.antt =====
-- The writes that a put of crates/ozd-app/src/pool.rs counts as done are on different disks, and
-- can be read back.
use ozd.Prelude.{
  ℕ, ◌^◌, ◌<◌, List, [], ◌∷◌, Option, ◌≡◌, ◌≢◌, refl, sym, arith, map, length, All, Bool-cases, inl,
  inr,
}
use ozd.Domain.{BlockKey, Body, ShardId, DomainResult, ok, err}
use ozd.Index.Roundtrip.{FitsObj}
use ozd.Placement.Choice.{Fresh, Distinct}
use ozd.Shards.{ShardEngine, IsShard, update}
use ozd.Shards.Laws.{update-same, update-other, update-Fresh, All-snoc}
use ozd.Pool.Write.{Job, Tally, answered, spared, write_all, handoff, is_ok}

abbrev pub ids : List Job → List ShardId
ids js = map (λ j. j.0) js

module _ (eng : ShardEngine) where
  open eng use {Shard, put_meta, get}

  -- A job whose body the shard gives back.
  abbrev pub Holds : BlockKey → (ℕ → Shard) → Job → Type 0
  Holds key shards j = get key (shards j.0) ≡ ok j.1

  -- The jobs that a tally counts: on shards of which I holds, with bodies of which B holds.
  pub record Acked (key : BlockKey) (I : ShardId → Type 0) (B : Body → Type 0) (t : Tally eng)
      (acked : List Job) : Type 0 where
    pub held : All (Holds key t.shards) acked
    pub distinct : Distinct (ids acked)
    pub count : length acked ≡ t.acks
    pub on : All I (ids acked)
    pub bodies : All (λ j. B j.1) acked
    pub left : All B t.failed

  Holds-update :
      (key : BlockKey) (shards : ℕ → Shard) (i : ShardId) (s : Shard) (acked : List Job)
      → Fresh i (ids acked)
      → All (Holds key shards) acked
      → All (Holds key (update shards i s)) acked
  Holds-update key shards i s [] f h = tt
  Holds-update key shards i s (j ∷ js) f h = (
    rw (update-other shards i s j.0 (λ e. f.0 (sym e))) h.0,
    Holds-update key shards i s js f.1 h.1,
  )

  -- What holds of a shard and of those that are counted holds of those that are counted after it.
  FromOr : ShardId → List Job → List Job → Type 1
  FromOr i acked acked' = (Q : ShardId → Type 0) → Q i → All Q (ids acked) → All Q (ids acked')

  pub answered-shards :
      (i : ShardId) (b : Body) (x : DomainResult (Unit {0}) × Shard) (t : Tally eng)
      → (answered eng i b x t).shards ≡ update t.shards i x.1
  answered-shards i b (ok u, s) t = refl
  answered-shards i b (err e, s) t = refl

  module _ (Good : Shard → Type 0) (law : IsShard eng Good) (key : BlockKey) (obj : Option ℕ)
      (obj_fits : FitsObj obj) (I : ShardId → Type 0) (B : Body → Type 0)
      (fits : (b : Body) → B b → length b < 2 ^ 32) where
    answered-Acked :
        (i : ShardId) (b : Body) (t : Tally eng) (acked : List Job)
        (x : DomainResult (Unit {0}) × Shard)
        → I i
        → B b
        → Fresh i (ids acked)
        → (x.0 ≡ ok tt → get key x.1 ≡ ok b)
        → Acked key I B t acked
        → (acked' : List Job) × Acked key I B (answered eng i b x t) acked' × FromOr i acked acked'
    unfolding FromOr
    answered-Acked i b t acked (ok u, s) ii bb fresh read v = (
      (i, b) ∷ acked,
      record {
        held = (
          rw (update-same t.shards i s) (read refl),
          Holds-update key t.shards i s acked fresh v.held,
        );
        distinct = (fresh, v.distinct);
        count = omega (arith, v.count);
        on = (ii, v.on);
        bodies = (bb, v.bodies);
        left = v.left;
      },
      λ Q q h. (q, h),
    )
    answered-Acked i b t acked (err e, s) ii bb fresh read v = (
      acked,
      record {
        held = Holds-update key t.shards i s acked fresh v.held;
        distinct = v.distinct;
        count = v.count;
        on = v.on;
        bodies = v.bodies;
        left = All-snoc B t.failed b v.left bb;
      },
      λ Q q h. h,
    )

    -- The shards of a job and of what is still to be written differ from those that are counted.
    abbrev Apart : List Job → List Job → Type 0
    Apart js acked = All (λ i. Fresh i (ids acked)) (ids js)

    clear_step :
        (i : ShardId) (b : Body) (js acked acked' : List Job)
        → FromOr i acked acked'
        → Fresh i (ids js)
        → Apart js acked
        → Apart js acked'
    unfolding FromOr
    clear_step i b [] acked acked' from f h = tt
    clear_step i b (j ∷ js) acked acked' from f h =
        (from (λ k. k ≢ j.0) (λ e. f.0 (sym e)) h.0, clear_step i b js acked acked' from f.1 h.1)

    -- After the writes of jobs on different shards, every counted one is held.
    pub write_all-Acked :
        (js : List Job) (t : Tally eng) (acked : List Job)
        → Distinct (ids js)
        → Apart js acked
        → All (λ i. Good (t.shards i)) (ids js)
        → All I (ids js)
        → All (λ j. B j.1) js
        → Acked key I B t acked
        → (acked' : List Job) × Acked key I B (write_all eng key obj js t) acked'
    unfolding write_all
    write_all-Acked [] t acked d apart good on bodies v = (acked, v)
    write_all-Acked ((i, b) ∷ js) t acked d apart good on bodies v =
        let x = put_meta key b obj (t.shards i) in
        let (acked', v', from) =
          answered-Acked i b t acked x on.0 bodies.0 apart.0
            (λ h. law.get-put key b obj (t.shards i) tt good.0 (fits b bodies.0) obj_fits h) v in
        write_all-Acked js (answered eng i b x t) acked' d.1
          (clear_step i b js acked acked' from d.0 apart.1)
          (rw (answered-shards i b x t) (update-Fresh Good t.shards i x.1 (ids js) d.0 good.1)) on.1
          bodies.1 v'

    spared-Acked :
        (i : ShardId) (b : Body) (t : Tally eng) (acked : List Job)
        (x : DomainResult (Unit {0}) × Shard)
        → I i
        → B b
        → Fresh i (ids acked)
        → (x.0 ≡ ok tt → get key x.1 ≡ ok b)
        → Acked key I B t acked
        → (acked' : List Job) × Acked key I B (spared eng i x t) acked' × FromOr i acked acked'
    unfolding FromOr
    spared-Acked i b t acked (ok u, s) ii bb fresh read v =
        let (acked', v', from) = answered-Acked i b t acked (ok u, s) ii bb fresh read v in
        (acked', v', from)
    spared-Acked i b t acked (err e, s) ii bb fresh read v = (
      acked,
      record {
        held = Holds-update key t.shards i s acked fresh v.held;
        distinct = v.distinct;
        count = v.count;
        on = v.on;
        bodies = v.bodies;
        left = v.left;
      },
      λ Q q h. h,
    )

    spared-shards :
        (i : ShardId) (x : DomainResult (Unit {0}) × Shard) (t : Tally eng)
        → (spared eng i x t).shards ≡ update t.shards i x.1
    spared-shards i (ok u, s) t = refl
    spared-shards i (err e, s) t = refl

    abbrev Spare : List ShardId → List Job → Type 0
    Spare is acked = All (λ i. Fresh i (ids acked)) is

    unused_step :
        (i : ShardId) (is : List ShardId) (acked acked' : List Job)
        → FromOr i acked acked'
        → Fresh i is
        → Spare is acked
        → Spare is acked'
    unfolding FromOr
    unused_step i [] acked acked' from f h = tt
    unused_step i (j ∷ is) acked acked' from f h =
        (from (λ k. k ≢ j) (λ e. f.0 (sym e)) h.0, unused_step i is acked acked' from f.1 h.1)

    -- After a handoff to spare disks, every counted write is held.
    pub handoff-Acked :
        (bs : List Body) (is : List ShardId) (t : Tally eng) (acked : List Job)
        → Distinct is
        → Spare is acked
        → All (λ i. Good (t.shards i)) is
        → All I is
        → All B bs
        → Acked key I B t acked
        → (acked' : List Job) × Acked key I B (handoff eng key obj bs is t) acked'
    unfolding handoff
    handoff-Acked [] is t acked d spare good on bodies v = (acked, v)
    handoff-Acked (b ∷ bs) [] t acked d spare good on bodies v = (acked, v)
    handoff-Acked (b ∷ bs) (i ∷ is) t acked d spare good on bodies v =
        let x = put_meta key b obj (t.shards i) in
        let (acked', v', from) =
          spared-Acked i b t acked x on.0 bodies.0 spare.0
            (λ h. law.get-put key b obj (t.shards i) tt good.0 (fits b bodies.0) obj_fits h) v in
        let later = unused_step i is acked acked' from d.0 spare.1 in
        let good' : All (λ j. Good ((spared eng i x t).shards j)) is =
          rw (spared-shards i x t) (update-Fresh Good t.shards i x.1 is d.0 good.1) in
        elim (Bool-cases (is_ok eng x.0)) [
          | inl placed ↦
              rw (handoff, placed)
                (handoff-Acked bs is (spared eng i x t) acked' d.1 later good' on.1 bodies.1 v')
          | inr refused ↦
              rw (handoff, refused)
                (handoff-Acked (b ∷ bs) is (spared eng i x t) acked' d.1 later good' on.1 bodies v')
        ]
