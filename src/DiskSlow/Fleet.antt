-- ===== src/DiskSlow/Fleet.antt =====
-- The averages of crates/ozd-app/src/diskslow.rs stay among the samples, and an even fleet has no
-- slow disk.
use ozd.Prelude.{
  ℕ, zero, suc, ◌/◌, ◌^◌, ◌≤◌, ◌<◌, List, [], ◌∷◌, map, false, ◌≡◌, ◌⊎◌, inl, inr, refl, ap, arith,
  leb, length, get_elem?, replicate, All, Bool-cases,
}
use native.Mathlib.Decide.{dec_le}
use ozd.DiskSlow.{
  DiskSlowConfig, Tracker, DiskSlowMonitor, sampled, record_sample, participating, insert_sorted,
  sort, unwrap_or_zero, median_us, threshold, is_slow, verdicts,
}

-- A disk without samples, or with an average between two bounds.
abbrev pub Within : ℕ → ℕ → Tracker → Type 0
Within lo hi t = (t.count ≡ 0) ⊎ (lo ≤ t.ewma_us) × (t.ewma_us ≤ hi)

sampled-Within :
    (lo hi us : ℕ) (t : Tracker)
    → hi < 2 ^ 60
    → lo ≤ us
    → us ≤ hi
    → Within lo hi t
    → Within lo hi (sampled us t)
unfolding sampled
sampled-Within lo hi us t fits above below v = inr (ground arith)

-- If the samples of every disk have been between two bounds, and the next one is, then so are all
-- averages after it, whichever disk it is for; the bounds are below 2 ^ 60.
pub record_sample-Within :
    (lo hi us shard : ℕ) (s : DiskSlowMonitor)
    → hi < 2 ^ 60
    → lo ≤ us
    → us ≤ hi
    → All (Within lo hi) s
    → All (Within lo hi) (record_sample shard us s)
unfolding record_sample
record_sample-Within lo hi us shard [] fits above below v = tt
record_sample-Within lo hi us zero (t ∷ ts) fits above below v =
    (sampled-Within lo hi us t fits above below v.0, v.1)
record_sample-Within lo hi us (suc shard) (t ∷ ts) fits above below v =
    (v.0, record_sample-Within lo hi us shard ts fits above below v.1)

insert-All : (P : ℕ → Type 0) (x : ℕ) (xs : List ℕ) → P x → All P xs → All P (insert_sorted x xs)
insert-All P x [] p v = (p, tt)
insert-All P x (y ∷ ys) p v = elim (Bool-cases (leb x y)) [
  | inl first ↦ rw first (p, v)
  | inr later ↦ rw later (v.0, insert-All P x ys p v.1)
]

sort-All : (P : ℕ → Type 0) (xs : List ℕ) → All P xs → All P (sort xs)
sort-All P [] v = tt
sort-All P (x ∷ xs) v = insert-All P x (sort xs) v.0 (sort-All P xs v.1)

length-insert : (x : ℕ) (xs : List ℕ) → length (insert_sorted x xs) ≡ suc (length xs)
length-insert x [] = refl
length-insert x (y ∷ ys) = elim (Bool-cases (leb x y)) [
  | inl first ↦ rw first refl
  | inr later ↦ rw later (ap suc (length-insert x ys))
]

length-sort : (xs : List ℕ) → length (sort xs) ≡ length xs
length-sort [] = refl
length-sort (x ∷ xs) = omega (arith, length-insert x (sort xs), length-sort xs)

get_elem-All :
    (P : ℕ → Type 0) (xs : List ℕ) (i : ℕ)
    → i < length xs
    → All P xs
    → P (unwrap_or_zero (get_elem? xs i))
get_elem-All P [] i h v = absurd (omega arith)
get_elem-All P (x ∷ xs) zero h v = v.0
get_elem-All P (x ∷ xs) (suc i) h v = get_elem-All P xs i (omega arith) v.1

-- A disk with too few samples, or with an average between two bounds.
abbrev pub Even : ℕ → ℕ → ℕ → Tracker → Type 0
Even min_samples lo hi t = (t.count < min_samples) ⊎ (lo ≤ t.ewma_us) × (t.ewma_us ≤ hi)

participating-All :
    (n lo hi : ℕ) (s : DiskSlowMonitor)
    → All (Even n lo hi) s
    → All (λ x. lo ≤ x) (participating n s)
unfolding participating
participating-All n lo hi [] v = tt
participating-All n lo hi (t ∷ ts) v = elim (Bool-cases (leb n t.count)) [
  | inl in_it ↦
      let above : lo ≤ t.ewma_us = ground (arith, v.0, in_it) in
      rw in_it (above, participating-All n lo hi ts v.1)
  | inr out ↦ rw out (participating-All n lo hi ts v.1)
]

few-participating :
    (n : ℕ) (s : DiskSlowMonitor) → length (participating n s) ≡ 0 → All (λ t. t.count < n) s
unfolding participating
few-participating n [] h = tt
few-participating n (t ∷ ts) h = elim (Bool-cases (leb n t.count)) [
  | inl in_it ↦ absurd (let more = rw in_it at h in omega (arith, more))
  | inr out ↦ (ground (arith, out), few-participating n ts (rw out at h))
]

module _ (scale : ℕ → ℕ) (cfg : DiskSlowConfig) where
  no_slow :
      (limit : ℕ) (s : DiskSlowMonitor)
      → All (λ t. is_slow scale cfg limit t ≡ false) s
      → map (is_slow scale cfg limit) s ≡ replicate (length s) false
  no_slow limit [] v = refl
  no_slow limit (t ∷ ts) v = rw v.0 (ap (◌∷◌ false) (no_slow limit ts v.1))

  idle :
      (limit : ℕ) (s : DiskSlowMonitor)
      → All (λ t. t.count < cfg.min_samples) s
      → All (λ t. is_slow scale cfg limit t ≡ false) s
  idle limit [] v = tt
  idle limit (t ∷ ts) v = (ground (arith, v.0), idle limit ts v.1)

  steady :
      (limit lo hi : ℕ) (s : DiskSlowMonitor)
      → hi ≤ limit
      → All (Even cfg.min_samples lo hi) s
      → All (λ t. is_slow scale cfg limit t ≡ false) s
  steady limit lo hi [] h v = tt
  steady limit lo hi (t ∷ ts) h v = (ground (arith, v.0), steady limit lo hi ts h v.1)

  -- In a fleet whose disks with enough samples all have averages between two bounds no disk is
  -- slow, if the factor takes every median from the lower bound on to the upper bound or higher.
  pub verdicts-Even :
      (lo hi : ℕ) (s : DiskSlowMonitor)
      → ((m : ℕ) → lo ≤ m → hi ≤ scale m)
      → All (Even cfg.min_samples lo hi) s
      → verdicts scale cfg s ≡ replicate (length s) false
  unfolding verdicts threshold median_us
  verdicts-Even lo hi s factor v =
      let xs = participating cfg.min_samples s in
      elim (dec_le 1 (length xs)) [
        | no nobody ↦ no_slow _ s (idle _ s (few-participating cfg.min_samples s (omega arith)))
        | yes somebody ↦
            let median = unwrap_or_zero (get_elem? (sort xs) (length xs / 2)) in
            let high : lo ≤ median =
              get_elem-All (λ x. lo ≤ x) (sort xs) (length xs / 2) (omega (arith, length-sort xs))
                (sort-All (λ x. lo ≤ x) xs (participating-All cfg.min_samples lo hi s v)) in
            no_slow _ s (steady _ lo hi s (omega (arith, factor median high)) v)
      ]
