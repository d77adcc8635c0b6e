-- ===== src/Shards.antt =====
-- `ShardEngine` of crates/ozd-domain/src/lib.rs, as the pool uses it, and a fleet of shards.
pub mod Laws
use ozd.Prelude.{
  ℕ, zero, suc, ◌+◌, ◌^◌, ◌<◌, List, [], ◌∷◌, Bool, true, false, Option, none, some, ◌≡◌, ◌==◌,
  if◌then◌else◌, length, bytes_eq,
}
use ozd.Domain.{BlockKey, Body, Capacity, DomainError, DomainResult, ok, err}
use ozd.Index.Roundtrip.{FitsObj}

pub record ScrubStep : Type 0 where
  pub checked : ℕ
  pub bytes : ℕ
  pub corrupt : List BlockKey
  pub last_key : Option BlockKey
  pub done : Bool

-- One disk. `put` is `put_meta` without metadata. A read changes nothing, and a disk that is not
-- written to answers the same read in the same way.
pub record ShardEngine : Type 1 where
  pub Shard : Type 0
  pub put_meta : BlockKey → Body → Option ℕ → Shard → DomainResult (Unit {0}) × Shard
  pub get : BlockKey → Shard → DomainResult Body
  pub has : BlockKey → Shard → DomainResult Bool
  pub delete : BlockKey → Shard → DomainResult (Unit {0}) × Shard
  pub list : List ℕ → Option BlockKey → ℕ → Shard → DomainResult (List (BlockKey × ℕ))
  pub stat : BlockKey → Shard → DomainResult ℕ
  pub stat_obj : BlockKey → Shard → DomainResult (ℕ × Option ℕ)
  pub set_obj_logical : BlockKey → ℕ → Shard → DomainResult Bool × Shard
  pub scrub_step : Option BlockKey → ℕ → Shard → DomainResult ScrubStep
  pub usage : Shard → DomainResult Capacity
  pub flush : Shard → DomainResult (Unit {0}) × Shard
  pub load_cursor : BlockKey → Shard → DomainResult (Option BlockKey)
  pub save_cursor : BlockKey → Option BlockKey → Shard → DomainResult (Unit {0}) × Shard

-- What an engine promises of its keys. `Good` says of a shard that its next put is whole, and `Fits`
-- of a key that the engine can store a body under it.
pub record IsShardOn (Fits : BlockKey → Type 0) (eng : ShardEngine) (Good : eng.Shard → Type 0)
    : Type 0 where
  pub get-put :
      (key : BlockKey) (body : Body) (obj : Option ℕ) (s : eng.Shard)
      → Fits key
      → Good s
      → length body < 2 ^ 32
      → FitsObj obj
      → (eng.put_meta key body obj s).0 ≡ ok tt
      → eng.get key (eng.put_meta key body obj s).1 ≡ ok body
  pub get-put_failed :
      (key k : BlockKey) (body b : Body) (obj : Option ℕ) (s : eng.Shard) (e : DomainError)
      → (eng.put_meta key body obj s).0 ≡ err e
      → eng.get k s ≡ ok b
      → eng.get k (eng.put_meta key body obj s).1 ≡ ok b
  pub get-put_other :
      (key k : BlockKey) (body b : Body) (obj : Option ℕ) (s : eng.Shard)
      → bytes_eq key k ≡ false
      → eng.get k s ≡ ok b
      → eng.get k (eng.put_meta key body obj s).1 ≡ ok b
  pub has-get :
      (key : BlockKey) (b : Body) (s : eng.Shard) → eng.get key s ≡ ok b → eng.has key s ≡ ok true

-- An engine that stores bodies under every key.
abbrev pub IsShard : (eng : ShardEngine) → (eng.Shard → Type 0) → Type 0
IsShard eng Good = IsShardOn (λ _. Unit {0}) eng Good

-- The shards of a fleet by their number, with one of them replaced.
abbrev pub update {ℓ} : {A : Type ℓ} → (ℕ → A) → ℕ → A → ℕ → A
update f i a j = if i == j then a else f j
