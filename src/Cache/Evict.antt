-- ===== src/Cache/Evict.antt =====
-- The eviction loop of crates/ozd-app/src/cache.rs: where it stops.
use ozd.Prelude.{
  ℕ, zero, suc, ◌≤◌, ◌<◌, ◌≡◌, ◌⊎◌, inl, inr, refl, arith, ap, Bool, true, false, ltb, ◌==◌,
  if◌then◌else◌, Bool-cases, ==_iff, ◌∙◌, sym,
}
use ozd.Domain.{DomainError, DomainResult, ok, err}
use ozd.Cache.{
  BlockStore, CacheEngine, CacheConfig, CacheTier, evicted, evict_step, evict_loop, maybe_evict,
}

module _ (inner : BlockStore) (cache : CacheEngine) (cfg : CacheConfig) where
  -- A pass that stops at a failure, or when nothing is left to evict, and has no lower mark.
  unfoldable pub pass_to_max :
      DomainResult (ℕ × ℕ) × cache.Disk
      → CacheTier inner cache cfg
      → Bool × CacheTier inner cache cfg
  unfolding evicted
  pass_to_max (err e, d) t = (true, record t { disk = d })
  pass_to_max (ok (freed, keys), d) t =
      if freed == 0
      then (true, record t { disk = d })
      else (false, evicted inner cache cfg freed d t)

  -- The oldest segments go, one after the other, until the bodies fit the budget.
  unfoldable pub evict_to_max : ℕ → CacheTier inner cache cfg → CacheTier inner cache cfg
  unfolding pass_to_max
  evict_to_max zero t = t
  evict_to_max (suc n) t =
      let pass = pass_to_max (cache.evict_oldest_segment t.disk) t in
      let rest = evict_to_max n pass.1 in
      if ltb cfg.max_bytes t.bytes then (if pass.0 then pass.1 else rest) else t

  -- The loop has come to its end: the bodies fit the budget, or the last eviction freed nothing,
  -- or it failed.
  abbrev pub IsSettled : CacheTier inner cache cfg → Type 0
  IsSettled t =
      (t.bytes ≤ cfg.max_bytes)
      ⊎ ((d : cache.Disk) × (keys : ℕ) × (cache.evict_oldest_segment d ≡ (ok (0, keys), t.disk)))
      ⊎ ((d : cache.Disk) × (e : DomainError) × (cache.evict_oldest_segment d ≡ (err e, t.disk)))

  fits_stays :
      (n : ℕ) (t : CacheTier inner cache cfg) → t.bytes ≤ cfg.max_bytes → evict_to_max n t ≡ t
  unfolding evict_to_max
  fits_stays zero t h = refl
  fits_stays (suc n) t h = ground arith

  -- One pass: it stops, settled, or frees some bytes; the mark stops it only in the budget.
  one_pass :
      (n : ℕ) (a : DomainResult (ℕ × ℕ) × cache.Disk) (t : CacheTier inner cache cfg)
      → (if (evict_step inner cache cfg a t).0
          then (evict_step inner cache cfg a t).1
          else evict_to_max n (evict_step inner cache cfg a t).1)
        ≡ (if (pass_to_max a t).0 then (pass_to_max a t).1 else evict_to_max n (pass_to_max a t).1)
  unfolding evict_step evicted pass_to_max
  one_pass n (err e, d) t = refl
  one_pass n (ok (freed, keys), d) t =
      ground (arith, fits_stays n (evicted inner cache cfg freed d t))

  -- The lower mark is never what stops the loop: it evicts as the loop that knows the budget only.
  pub evict_loop-evict_to_max :
      (n : ℕ) (t : CacheTier inner cache cfg) → evict_loop inner cache cfg n t ≡ evict_to_max n t
  unfolding evict_loop evict_to_max
  evict_loop-evict_to_max zero t = refl
  evict_loop-evict_to_max (suc n) t = rw (evict_loop-evict_to_max n, one_pass n) refl

  -- A pass that does not stop the loop leaves fewer bytes.
  pass_fewer :
      (a : DomainResult (ℕ × ℕ) × cache.Disk) (t : CacheTier inner cache cfg)
      → 0 < t.bytes
      → (pass_to_max a t).0 ≡ false
      → (pass_to_max a t).1.bytes < t.bytes
  unfolding pass_to_max evicted
  pass_fewer (err e, d) t pos go = ground arith
  pass_fewer (ok (freed, keys), d) t pos go = ground arith

  last_pass :
      (t : CacheTier inner cache cfg) (a : DomainResult (ℕ × ℕ) × cache.Disk)
      → cache.evict_oldest_segment t.disk ≡ a
      → (pass_to_max a t).0 ≡ true
      → IsSettled (pass_to_max a t).1
  unfolding pass_to_max
  last_pass t (err e, d) asked stop = inr (inr (t.disk, e, asked))
  last_pass t (ok (freed, keys), d) asked stop = elim (Bool-cases (freed == 0)) [
    | inl none_freed ↦ rw none_freed (
        inr
          (inl (t.disk, keys, asked ∙ ap (λ f. (ok (f, keys), d)) ((==_iff freed 0).0 none_freed))))
    | inr some_freed ↦ ground arith
  ]

  more_fuel :
      (m n : ℕ) (t : CacheTier inner cache cfg)
      → t.bytes ≤ m
      → t.bytes ≤ n
      → evict_to_max m t ≡ evict_to_max n t
  unfolding evict_to_max
  more_fuel zero n t hm hn = sym (fits_stays n t (omega arith))
  more_fuel (suc m) zero t hm hn = fits_stays (suc m) t (omega arith)
  more_fuel (suc m) (suc n) t hm hn =
      let a = cache.evict_oldest_segment t.disk in
      ground (arith, pass_fewer a t, more_fuel m n (pass_to_max a t).1)

  settles : (n : ℕ) (t : CacheTier inner cache cfg) → t.bytes ≤ n → IsSettled (evict_to_max n t)
  unfolding evict_to_max
  settles zero t h = inl (omega arith)
  settles (suc n) t h =
      let a = cache.evict_oldest_segment t.disk in
      elim (Bool-cases (ltb cfg.max_bytes t.bytes)) [
        | inr fits ↦ rw fits (inl (ground arith))
        | inl over ↦ elim (Bool-cases (pass_to_max a t).0) [
          | inl stop ↦ rw (over, stop) (last_pass t a refl stop)
          | inr go ↦ rw (over, go) (settles n (pass_to_max a t).1 (ground (arith, pass_fewer a t)))
        ]
      ]

  -- The loop that evicts ends: more passes than the bytes counted change nothing. With a budget it
  -- ends with the bodies in the budget, or after an eviction that freed nothing or failed.
  pub maybe_evict-settles :
      (n : ℕ) (t : CacheTier inner cache cfg)
      → 0 < cfg.max_bytes
      → t.bytes ≤ n
      → (evict_loop inner cache cfg n t ≡ maybe_evict inner cache cfg t)
        × IsSettled (maybe_evict inner cache cfg t)
  unfolding maybe_evict
  maybe_evict-settles n t limited h =
      let on : (cfg.max_bytes == 0) ≡ false = ground arith in
      rw (on, evict_loop-evict_to_max n t, evict_loop-evict_to_max t.bytes t)
        (more_fuel n t.bytes t h (omega arith), settles t.bytes t (omega arith))
