-- ===== src/Cache/Coherent.antt =====
-- The tier of crates/ozd-app/src/cache.rs answers as the block store under it does, as long as every
-- cached body is what that store would answer; every call keeps that so.
use ozd.Prelude.{
  ℕ, zero, suc, ◌≡◌, ◌⊎◌, inl, inr, refl, arith, ap, sym, ◌∙◌, false, ltb, ◌==◌, Bool-cases, length,
  bytes_eq, bytes_eq_iff,
}
use ozd.Domain.{BlockKey, Body, DomainResult, ok, err}
use ozd.Cache.{
  BlockStore, CacheEngine, CacheConfig, CacheTier, evicted, evict_step, evict_loop, maybe_evict,
  populated, populate, missed, healed, from_inner, read_answered, read_through, put_answered, put,
  delete_answered, delete, is_not_found,
}

-- What the tier needs of the store under it: a read changes no later answer, a body that was put
-- is read, and no call but a delete of its key takes a body away.
pub record IsBlockStore (inner : BlockStore) : Type 0 where
  pub get-get :
      (key k : BlockKey) (s : inner.Store) → (inner.get k (inner.get key s).1).0 ≡ (inner.get k s).0
  pub get-put :
      (key : BlockKey) (body : Body) (s : inner.Store)
      → (inner.put key body s).0 ≡ ok tt
      → (inner.get key (inner.put key body s).1).0 ≡ ok body
  pub get-put_again :
      (key : BlockKey) (body : Body) (s : inner.Store)
      → (inner.get key s).0 ≡ ok body
      → (inner.get key (inner.put key body s).1).0 ≡ ok body
  pub get-put_other :
      (key k : BlockKey) (body b : Body) (s : inner.Store)
      → bytes_eq key k ≡ false
      → (inner.get k s).0 ≡ ok b
      → (inner.get k (inner.put key body s).1).0 ≡ ok b
  pub get-delete_other :
      (key k : BlockKey) (b : Body) (s : inner.Store)
      → bytes_eq key k ≡ false
      → (inner.get k s).0 ≡ ok b
      → (inner.get k (inner.delete key s).1).0 ≡ ok b

-- What the tier needs of the fast disk: it reads no body that was not put, and none after a delete
-- that it reports as done.
pub record IsCacheEngine (cache : CacheEngine) : Type 0 where
  pub get-put :
      (key k : BlockKey) (body b : Body) (d : cache.Disk)
      → cache.get k (cache.put key body d).1 ≡ ok b
      → (cache.get k d ≡ ok b) ⊎ ((key ≡ k) × (body ≡ b))
  pub get-delete :
      (key k : BlockKey) (b : Body) (d : cache.Disk)
      → cache.get k (cache.delete key d).1 ≡ ok b
      → cache.get k d ≡ ok b
  pub get-deleted :
      (key : BlockKey) (b : Body) (d : cache.Disk)
      → (cache.delete key d).0 ≡ ok tt
      → ¬ (cache.get key (cache.delete key d).1 ≡ ok b)
  pub get-evict :
      (k : BlockKey) (b : Body) (d : cache.Disk)
      → cache.get k (cache.evict_oldest_segment d).1 ≡ ok b
      → cache.get k d ≡ ok b

module _ (inner : BlockStore) (cache : CacheEngine) (cfg : CacheConfig)
    (store_laws : IsBlockStore inner) (disk_laws : IsCacheEngine cache) where
  abbrev Tier : Type 0
  Tier = CacheTier inner cache cfg

  -- Every cached body is what the store under the tier answers.
  abbrev pub IsCoherent : Tier → Type 0
  IsCoherent t =
      (k : BlockKey) (b : Body) → cache.get k t.disk ≡ ok b → (inner.get k t.store).0 ≡ ok b

  -- An eviction leaves the store as it is, and caches nothing new.
  abbrev Shrinks : Tier → Tier → Type 0
  Shrinks t t' =
      (t'.store ≡ t.store)
      × ((k : BlockKey) (b : Body) → cache.get k t'.disk ≡ ok b → cache.get k t.disk ≡ ok b)

  step-Shrinks :
      (a : DomainResult (ℕ × ℕ) × cache.Disk) (t : Tier)
      → ((k : BlockKey) (b : Body) → cache.get k a.1 ≡ ok b → cache.get k t.disk ≡ ok b)
      → Shrinks t (evict_step inner cache cfg a t).1
  unfolding evict_step evicted
  step-Shrinks (err e, d) t h = (refl, h)
  step-Shrinks (ok (freed, keys), d) t h = elim (Bool-cases (freed == 0)) [
    | inl e ↦ rw e (refl, h)
    | inr e ↦ rw e (refl, h)
  ]

  loop-Shrinks : (n : ℕ) (t : Tier) → Shrinks t (evict_loop inner cache cfg n t)
  unfolding evict_loop
  loop-Shrinks zero t = (refl, λ k b h. h)
  loop-Shrinks (suc n) t =
      let a = cache.evict_oldest_segment t.disk in
      let here : Shrinks t (evict_step inner cache cfg a t).1 =
        step-Shrinks a t (λ k b. disk_laws.get-evict k b t.disk) in
      let there : Shrinks (evict_step inner cache cfg a t).1
          (evict_loop inner cache cfg n (evict_step inner cache cfg a t).1) =
        loop-Shrinks n (evict_step inner cache cfg a t).1 in
      elim (Bool-cases (ltb cfg.max_bytes t.bytes)) [
        | inr fits ↦ rw fits (refl, λ k b h. h)
        | inl over ↦ elim (Bool-cases (evict_step inner cache cfg a t).0) [
          | inl stop ↦ rw (over, stop) here
          | inr go ↦ rw (over, go) (there.0 ∙ here.0, λ k b h. here.1 k b (there.1 k b h))
        ]
      ]

  maybe_evict-Shrinks : (t : Tier) → Shrinks t (maybe_evict inner cache cfg t)
  unfolding maybe_evict
  maybe_evict-Shrinks t = elim (Bool-cases (cfg.max_bytes == 0)) [
    | inl off ↦ rw off (refl, λ k b h. h)
    | inr on ↦ rw on (loop-Shrinks t.bytes t)
  ]

  -- After a body was offered to the cache: the store is as it was, and a cached body is one that
  -- was cached before or the new one.
  abbrev Offered : BlockKey → Body → Tier → Tier → Type 0
  Offered key body t t' =
      (t'.store ≡ t.store)
      × ((k : BlockKey) (b : Body)
          → cache.get k t'.disk ≡ ok b
          → (cache.get k t.disk ≡ ok b) ⊎ ((key ≡ k) × (body ≡ b)))

  populated-Offered :
      (key : BlockKey) (body : Body) (a : DomainResult (Unit {0}) × cache.Disk) (t : Tier)
      → ((k : BlockKey) (b : Body)
          → cache.get k a.1 ≡ ok b
          → (cache.get k t.disk ≡ ok b) ⊎ ((key ≡ k) × (body ≡ b)))
      → Offered key body t (populated inner cache cfg body a t)
  unfolding populated
  populated-Offered key body (err e, d) t h = (refl, h)
  populated-Offered key body (ok _, d) t h =
      let less = maybe_evict-Shrinks _ in (less.0, λ k b got. h k b (less.1 k b got))

  populate-Offered :
      (key : BlockKey) (body : Body) (t : Tier)
      → Offered key body t (populate inner cache cfg key body t)
  unfolding populate
  populate-Offered key body t = elim (Bool-cases (ltb (length body) cfg.min_size)) [
    | inl small ↦ rw small (refl, λ k b h. inl h)
    | inr large ↦ rw large (
        populated-Offered key body (cache.put key body t.disk) t
          (λ k b. disk_laws.get-put key k body b t.disk))
  ]

  -- A tier that is coherent but for one key stays so when the store's body of that key is offered.
  refilled-IsCoherent :
      (key : BlockKey) (body : Body) (t t' : Tier)
      → Offered key body t t'
      → (inner.get key t.store).0 ≡ ok body
      → IsCoherent t
      → IsCoherent t'
  refilled-IsCoherent key body t t' offered has coherent k b got = elim (offered.1 k b got) [
    | inl old ↦ rw offered.0 (coherent k b old)
    | inr (same_key, same_body) ↦ rw (offered.0, sym same_key, sym same_body) has
  ]

  -- After the store was read the tier is coherent, whatever it answered.
  from_inner-IsCoherent :
      (key : BlockKey) (a : DomainResult Body × inner.Store) (t : Tier)
      → inner.get key t.store ≡ a
      → IsCoherent t
      → ((from_inner inner cache cfg key a t).0 ≡ a.0)
        × IsCoherent (from_inner inner cache cfg key a t).1
  unfolding from_inner
  from_inner-IsCoherent key (err e, s) t asked coherent = (
    refl,
    λ k b got.
        ap (λ a. (inner.get k a.1).0) (sym asked)
        ∙ store_laws.get-get key k t.store
        ∙ coherent k b got,
  )
  from_inner-IsCoherent key (ok v, s) t asked coherent =
      let same : (k : BlockKey) → (inner.get k s).0 ≡ (inner.get k t.store).0 =
        λ k. ap (λ a. (inner.get k a.1).0) (sym asked) ∙ store_laws.get-get key k t.store in
      (
        refl,
        refilled-IsCoherent key v (record t { store = s })
            (populate inner cache cfg key v (record t { store = s }))
            (populate-Offered key v (record t { store = s })) (same key ∙ ap (λ a. a.0) asked)
            (λ k b got. same k ∙ coherent k b got),
      )

  read_answered-IsCoherent :
      (key : BlockKey) (a : DomainResult Body) (t : Tier)
      → cache.get key t.disk ≡ a
      → IsCoherent t
      → ((read_answered inner cache cfg key a t).0 ≡ (inner.get key t.store).0)
        × IsCoherent (read_answered inner cache cfg key a t).1
  unfolding read_answered
  read_answered-IsCoherent key (ok v) t asked coherent = (sym (coherent key v asked), coherent)
  read_answered-IsCoherent key (err e) t asked coherent = elim (Bool-cases (is_not_found e)) [
    | inl absent ↦
        rw absent (
          from_inner-IsCoherent key (inner.get key t.store) (missed inner cache cfg t) refl
            coherent)
    | inr broken ↦ rw broken (
        from_inner-IsCoherent key (inner.get key t.store)
          (missed inner cache cfg (healed inner cache cfg key t)) refl
          (λ k b got. coherent k b (disk_laws.get-delete key k b t.disk got)))
  ]

  -- If every cached body is what the store under the tier answers, then a read through the cache
  -- answers what the store answers, failures included, and every cached body still is what the
  -- store answers: whether the copy was there, was
  -- missing or could not be read. The store and the fast disk are as IsBlockStore and IsCacheEngine
  -- say.
  pub read_through-transparent :
      (key : BlockKey) (t : Tier)
      → IsCoherent t
      → ((read_through inner cache cfg key t).0 ≡ (inner.get key t.store).0)
        × IsCoherent (read_through inner cache cfg key t).1
  unfolding read_through
  read_through-transparent key t coherent =
      read_answered-IsCoherent key (cache.get key t.disk) t refl coherent

  -- A put under a content address: a body that is cached for the key is the one that is put. The
  -- tier answers what the store answered, and every cached body is what the store answers.
  pub put-IsCoherent :
      (key : BlockKey) (body : Body) (t : Tier)
      → ((b : Body) → cache.get key t.disk ≡ ok b → b ≡ body)
      → IsCoherent t
      → ((put inner cache cfg key body t).0 ≡ (inner.put key body t.store).0)
        × IsCoherent (put inner cache cfg key body t).1
  unfolding put
  put-IsCoherent key body t same coherent = answered (inner.put key body t.store) refl
    where
      kept :
          (k : BlockKey) (b : Body)
          → cache.get k t.disk ≡ ok b
          → (inner.get k (inner.put key body t.store).1).0 ≡ ok b
      kept k b got = elim (Bool-cases (bytes_eq key k)) [
        | inl e ↦
            let key≡k : key ≡ k = (bytes_eq_iff key k).0 e in
            let held : cache.get key t.disk ≡ ok b = ap (λ j. cache.get j t.disk) key≡k ∙ got in
            ap (λ j. (inner.get j (inner.put key body t.store).1).0) (sym key≡k)
            ∙ store_laws.get-put_again key body t.store
                (coherent key body (held ∙ ap (λ c. ok c) (same b held)))
            ∙ ap (λ c. ok c) (sym (same b held))
        | inr e ↦ store_laws.get-put_other key k body b t.store e (coherent k b got)
      ]

      answered :
          (a : DomainResult (Unit {0}) × inner.Store)
          → inner.put key body t.store ≡ a
          → ((put_answered inner cache cfg key body a t).0 ≡ a.0)
            × IsCoherent (put_answered inner cache cfg key body a t).1
      answered (err e, s) asked =
          (refl, λ k b got. ap (λ a. (inner.get k a.1).0) (sym asked) ∙ kept k b got)
      answered (ok u, s) asked = (
        refl,
        refilled-IsCoherent key body (record t { store = s })
            (populate inner cache cfg key body (record t { store = s }))
            (populate-Offered key body (record t { store = s }))
            (ap (λ a. (inner.get key a.1).0) (sym asked)
              ∙ store_laws.get-put key body t.store (ap (λ a. a.0) asked))
            (λ k b got. ap (λ a. (inner.get k a.1).0) (sym asked) ∙ kept k b got),
      )

  -- A delete that the store and the fast disk report as done: every cached body is what the store
  -- answers, and the key is no longer cached.
  pub delete-IsCoherent :
      (key : BlockKey) (t : Tier)
      → (inner.delete key t.store).0 ≡ ok tt
      → (cache.delete key t.disk).0 ≡ ok tt
      → IsCoherent t
      → ((delete inner cache cfg key t).0 ≡ ok tt)
        × IsCoherent (delete inner cache cfg key t).1
        × ((b : Body) → ¬ (cache.get key (delete inner cache cfg key t).1.disk ≡ ok b))
  unfolding delete
  delete-IsCoherent key t done cleared coherent = answered (inner.delete key t.store) refl done
    where
      kept :
          (k : BlockKey) (b : Body)
          → cache.get k (cache.delete key t.disk).1 ≡ ok b
          → (inner.get k (inner.delete key t.store).1).0 ≡ ok b
      kept k b got = elim (Bool-cases (bytes_eq key k)) [
        | inl e ↦ absurd (
            disk_laws.get-deleted key b t.disk cleared
              (ap (λ j. cache.get j (cache.delete key t.disk).1) ((bytes_eq_iff key k).0 e) ∙ got))
        | inr e ↦
            store_laws.get-delete_other key k b t.store e
              (coherent k b (disk_laws.get-delete key k b t.disk got))
      ]

      answered :
          (a : DomainResult (Unit {0}) × inner.Store)
          → inner.delete key t.store ≡ a
          → a.0 ≡ ok tt
          → ((delete_answered inner cache cfg key a t).0 ≡ ok tt)
            × IsCoherent (delete_answered inner cache cfg key a t).1
            × ((b : Body)
                → ¬ (cache.get key (delete_answered inner cache cfg key a t).1.disk ≡ ok b))
      answered (err e, s) asked fine = absurd (ground arith)
      answered (ok u, s) asked fine = (
        refl,
        λ k b got. ap (λ a. (inner.get k a.1).0) (sym asked) ∙ kept k b got,
        λ b. disk_laws.get-deleted key b t.disk cleared,
      )
