-- ===== src/Domain.antt =====
-- crates/ozd-domain/src/lib.rs: the shared types of the domain.
pub mod Piece
use ozd.Prelude.{[], ◌∷◌, Bool, true, false, ◌&&◌, ◌||◌, ltb, ◌==◌, ℕ, List, Option, none, some}

-- `BlockKey(Vec<u8>)`
abbrev pub BlockKey : Type 0
BlockKey = List ℕ

abbrev pub Body : Type 0
Body = List ℕ

-- The order of keys: that of their bytes.
unfoldable pub key_lt : BlockKey → BlockKey → Bool
key_lt [] [] = false
key_lt [] (b ∷ ys) = true
key_lt (a ∷ xs) [] = false
key_lt (a ∷ xs) (b ∷ ys) = ltb a b || (a == b && key_lt xs ys)

-- `ShardId(u16)`
abbrev pub ShardId : Type 0
ShardId = ℕ

pub data ShardStatus : Type 0 where
  online suspect faulted : ShardStatus

pub record Capacity : Type 0 where
  pub total_bytes : ℕ
  pub free_bytes : ℕ

-- `DomainError`; the message of a variant is left out, the numbers are kept.
pub data DomainError : Type 0 where
  not_found : DomainError
  shard_unavailable : ShardId → DomainError
  integrity_violation : DomainError
  quorum_not_reached : ℕ → ℕ → DomainError
  timeout : DomainError
  disk_full : DomainError
  corrupt : DomainError
  config : DomainError
  shutdown : DomainError
  io : DomainError

-- `DomainResult<T>`
pub data DomainResult {ℓ} (A : Type ℓ) : Type ℓ where
  ok : A → DomainResult A
  err : DomainError → DomainResult A

infixl 5 ◌>>=◌ ◌>>◌
abbrev pub ◌>>=◌ {ℓ κ} :
    {A : Type ℓ} {B : Type κ} → DomainResult A → (A → DomainResult B) → DomainResult B
ok a >>= f = f a
err e >>= f = err e

abbrev pub ◌>>◌ {ℓ} : {B : Type ℓ} → DomainResult (Unit {0}) → DomainResult B → DomainResult B
m >> k = m >>= λ _. k

-- `ok_or(e)`
abbrev pub ok_or {ℓ} : {A : Type ℓ} → Option A → DomainError → DomainResult A
ok_or none e = err e
ok_or (some a) e = ok a
