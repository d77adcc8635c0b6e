-- ===== src/Pool/Tests/Fleet.antt =====
-- A disk in memory for the tests of the pool (crates/ozd-app/src/pool.rs); a dead one refuses all.
use mathlib.Core.List.{Permᴰ}
use ozd.Prelude.{
  ℕ, List, [], ◌∷◌, Bool, true, false, Option, none, some, ◌≡◌, refl, ap, arith, if◌then◌else◌,
  length, bytes_eq, bytes_eq_refl, take,
}
use ozd.Domain.{BlockKey, Body, DomainError, not_found, io, DomainResult, ok, err}
use ozd.Shards.{ShardEngine, IsShard}
use ozd.Pool.Catalog.{merge_rows}
use ozd.Domain.{key_lt}

abbrev pub MemoryRow : Type 0
MemoryRow = BlockKey × Body × Option ℕ

pub data Memory : Type 0 where
  live : List MemoryRow → Memory
  dead : Memory

abbrev body_of : BlockKey → List MemoryRow → DomainResult Body
body_of key [] = err not_found
body_of key ((k, b, o) ∷ rows) = if bytes_eq k key then ok b else body_of key rows

abbrev obj_of : BlockKey → List MemoryRow → DomainResult (ℕ × Option ℕ)
obj_of key [] = err not_found
obj_of key ((k, b, o) ∷ rows) = if bytes_eq k key then ok (length b, o) else obj_of key rows

abbrev held : DomainResult Body → Bool
held (ok b) = true
held (err e) = false

abbrev size : DomainResult Body → DomainResult ℕ
size (ok b) = ok (length b)
size (err e) = err e

abbrev without_key : BlockKey → List MemoryRow → List MemoryRow
without_key key [] = []
without_key key ((k, b, o) ∷ rows) =
    let rest = without_key key rows in if bytes_eq k key then rest else (k, b, o) ∷ rest

abbrev comes_after : Option BlockKey → BlockKey → Bool
comes_after none k = true
comes_after (some a) k = key_lt a k

abbrev listed : Option BlockKey → List MemoryRow → List (BlockKey × ℕ)
listed after [] = []
listed after ((k, b, o) ∷ rows) =
    let rest = listed after rows in if comes_after after k then (k, length b) ∷ rest else rest

abbrev memory_get : BlockKey → Memory → DomainResult Body
memory_get key (Memory.live rows) = body_of key rows
memory_get key Memory.dead = err io

abbrev memory_put : BlockKey → Body → Option ℕ → Memory → DomainResult (Unit {0}) × Memory
memory_put key b obj (Memory.live rows) = (ok tt, Memory.live ((key, b, obj) ∷ rows))
memory_put key b obj Memory.dead = (err io, Memory.dead)

-- A question that a dead disk does not answer.
abbrev memory_ask {ℓ} : {A : Type ℓ} → (List MemoryRow → DomainResult A) → Memory → DomainResult A
memory_ask f (Memory.live rows) = f rows
memory_ask f Memory.dead = err io

abbrev memory_delete : BlockKey → Memory → DomainResult (Unit {0}) × Memory
memory_delete key (Memory.live rows) = (ok tt, Memory.live (without_key key rows))
memory_delete key Memory.dead = (err io, Memory.dead)

abbrev pub memory : ShardEngine
memory = record {
  Shard = Memory;
  put_meta = memory_put;
  get = memory_get;
  has = λ key s. memory_ask (λ rows. ok (held (body_of key rows))) s;
  delete = memory_delete;
  list = λ prefix after limit s.
      memory_ask (λ rows. ok (take limit (merge_rows (listed after rows) []))) s;
  stat = λ key s. memory_ask (λ rows. size (body_of key rows)) s;
  stat_obj = λ key s. memory_ask (obj_of key) s;
  set_obj_logical = λ key obj s. (ok false, s);
  scrub_step = λ after limit s.
      ok (record { checked = 0; bytes = 0; corrupt = []; last_key = none; done = true });
  usage = λ s. ok (record { total_bytes = 100; free_bytes = 50 });
  flush = λ s. (ok tt, s);
  load_cursor = λ name s. ok none;
  save_cursor = λ name at s. (ok tt, s);
}

memory-get-put :
    (key : BlockKey) (body : Body) (obj : Option ℕ) (s : Memory)
    → (memory_put key body obj s).0 ≡ ok tt
    → memory_get key (memory_put key body obj s).1 ≡ ok body
memory-get-put key body obj (Memory.live rows) h = rw (bytes_eq_refl key) refl
memory-get-put key body obj Memory.dead h = absurd (ground arith)

memory-get-put_failed :
    (key k : BlockKey) (body b : Body) (obj : Option ℕ) (s : Memory) (e : DomainError)
    → (memory_put key body obj s).0 ≡ err e
    → memory_get k s ≡ ok b
    → memory_get k (memory_put key body obj s).1 ≡ ok b
memory-get-put_failed key k body b obj (Memory.live rows) e h g = absurd (ground arith)
memory-get-put_failed key k body b obj Memory.dead e h g = g

memory-get-put_other :
    (key k : BlockKey) (body b : Body) (obj : Option ℕ) (s : Memory)
    → bytes_eq key k ≡ false
    → memory_get k s ≡ ok b
    → memory_get k (memory_put key body obj s).1 ≡ ok b
memory-get-put_other key k body b obj (Memory.live rows) ne g = rw ne g
memory-get-put_other key k body b obj Memory.dead ne g = g

has-memory_get :
    (key : BlockKey) (b : Body) (s : Memory) → memory_get key s ≡ ok b → memory.has key s ≡ ok true
has-memory_get key b (Memory.live rows) h = ap (λ x. DomainResult.ok (held x)) h
has-memory_get key b Memory.dead h = absurd (ground arith)

abbrev pub AnyDisk : Memory → Type 0
AnyDisk s = Unit

pub memory-IsShard : IsShard memory AnyDisk
memory-IsShard = record {
  get-put = λ key body obj s any good short fits h. memory-get-put key body obj s h;
  get-put_failed = memory-get-put_failed;
  get-put_other = memory-get-put_other;
  has-get = has-memory_get;
}

-- The first two answers change places.
abbrev pub swapped {ℓ} : {A : Type ℓ} → List A → List A
swapped [] = []
swapped (x ∷ []) = x ∷ []
swapped (x ∷ y ∷ xs) = y ∷ x ∷ xs

pub swapped-Perm : {A : Type 0} (xs : List A) → Permᴰ xs (swapped xs)
swapped-Perm [] = Permᴰ.nil
swapped-Perm (x ∷ []) = Permᴰ.cons refl Permᴰ.nil
swapped-Perm (x ∷ y ∷ xs) = Permᴰ.swap refl refl
