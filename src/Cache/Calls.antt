-- ===== src/Cache/Calls.antt =====
-- Histories of calls of the tier of crates/ozd-app/src/cache.rs, one after the other.
use ozd.Prelude.{List, [], ◌∷◌, ◌≡◌}
use ozd.Domain.{BlockKey, Body, ok}
use ozd.Cache.{BlockStore, CacheEngine, CacheConfig, CacheTier, read_through, put, delete}
use ozd.Cache.Coherent.{
  IsBlockStore, IsCacheEngine, IsCoherent, read_through-transparent, put-IsCoherent,
  delete-IsCoherent,
}

pub data Call : Type 0 where
  gets : BlockKey → Call
  puts : BlockKey → Body → Call
  deletes : BlockKey → Call

module _ (inner : BlockStore) (cache : CacheEngine) (cfg : CacheConfig)
    (store_laws : IsBlockStore inner) (disk_laws : IsCacheEngine cache) where
  abbrev Tier : Type 0
  Tier = CacheTier inner cache cfg

  unfoldable pub after_call : Call → Tier → Tier
  unfolding read_through put delete
  after_call (gets key) t = (read_through inner cache cfg key t).1
  after_call (puts key body) t = (put inner cache cfg key body t).1
  after_call (deletes key) t = (delete inner cache cfg key t).1

  unfoldable pub run : List Call → Tier → Tier
  unfolding after_call
  run [] t = t
  run (c ∷ cs) t = run cs (after_call c t)

  -- A body that is cached for the key of a put is the body that is put, since keys are content
  -- addresses; a delete is done by the store and by the fast disk.
  abbrev pub IsAllowed : Call → Tier → Type 0
  IsAllowed (gets key) t = Unit {0}
  IsAllowed (puts key body) t = (b : Body) → cache.get key t.disk ≡ ok b → b ≡ body
  IsAllowed (deletes key) t =
      ((inner.delete key t.store).0 ≡ ok tt) × ((cache.delete key t.disk).0 ≡ ok tt)

  abbrev pub AreAllowed : List Call → Tier → Type 0
  AreAllowed [] t = Unit {0}
  AreAllowed (c ∷ cs) t = IsAllowed c t × AreAllowed cs (after_call c t)

  call-IsCoherent :
      (c : Call) (t : Tier)
      → IsAllowed c t
      → IsCoherent inner cache cfg store_laws disk_laws t
      → IsCoherent inner cache cfg store_laws disk_laws (after_call c t)
  unfolding after_call
  call-IsCoherent (gets key) t allowed coherent =
      (read_through-transparent inner cache cfg store_laws disk_laws key t coherent).1
  call-IsCoherent (puts key body) t allowed coherent =
      (put-IsCoherent inner cache cfg store_laws disk_laws key body t allowed coherent).1
  call-IsCoherent (deletes key) t allowed coherent =
      (delete-IsCoherent inner cache cfg store_laws disk_laws key t allowed.0 allowed.1 coherent).1

  -- After any history of gets, puts and deletes on a tier whose cached bodies are what the store
  -- answers, they still are, if no put changes a body that is cached for its key and every
  -- delete is done by the store and by the fast disk, which are as IsBlockStore and IsCacheEngine say.
  pub run-IsCoherent :
      (cs : List Call) (t : Tier)
      → AreAllowed cs t
      → IsCoherent inner cache cfg store_laws disk_laws t
      → IsCoherent inner cache cfg store_laws disk_laws (run cs t)
  unfolding run
  run-IsCoherent [] t allowed coherent = coherent
  run-IsCoherent (c ∷ cs) t allowed coherent =
      run-IsCoherent cs (after_call c t) allowed.1 (call-IsCoherent c t allowed.0 coherent)
