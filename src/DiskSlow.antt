-- ===== src/DiskSlow.antt =====
-- crates/ozd-app/src/diskslow.rs: the moving averages of the disks' latencies, and which disks are
-- slow against the fleet.
pub mod Fleet
mod Tests
use ozd.Prelude.{
  ℕ, zero, suc, ◌+◌, ◌*◌, ◌/◌, ◌%◌, ◌^◌, max, List, [], ◌∷◌, map, Bool, true, false, ◌&&◌, Option,
  none, some, ltb, leb, ◌==◌, if◌then◌else◌, length, get_elem?, replicate,
}

pub record DiskSlowConfig : Type 0 where
  pub abs_floor_ms : ℕ
  pub min_samples : ℕ

-- The average and the number of samples of one disk.
pub record Tracker : Type 0 where
  pub ewma_us : ℕ
  pub count : ℕ

-- The two vectors of the monitor, which have the same length, as one list.
abbrev pub DiskSlowMonitor : Type 0
DiskSlowMonitor = List Tracker

unfoldable pub new : ℕ → DiskSlowMonitor
new n = replicate n (record { ewma_us = 0; count = 0 })

-- One sample of so many microseconds, which are cast to `u64`: the average moves by an eighth.
unfoldable pub sampled : ℕ → Tracker → Tracker
sampled us t = record {
  ewma_us = if t.count == 0 then us % 2 ^ 64 else (t.ewma_us * 7 + us % 2 ^ 64) % 2 ^ 64 / 8;
  count = (t.count + 1) % 2 ^ 64;
}

unfoldable pub record_sample : ℕ → ℕ → DiskSlowMonitor → DiskSlowMonitor
unfolding sampled
record_sample shard us [] = []
record_sample zero us (t ∷ ts) = sampled us t ∷ ts
record_sample (suc shard) us (t ∷ ts) = t ∷ record_sample shard us ts

unfoldable pub participating : ℕ → DiskSlowMonitor → List ℕ
participating min_samples [] = []
participating min_samples (t ∷ ts) =
    let rest = participating min_samples ts in
    if leb min_samples t.count then t.ewma_us ∷ rest else rest

abbrev pub insert_sorted : ℕ → List ℕ → List ℕ
insert_sorted x [] = x ∷ []
insert_sorted x (y ∷ ys) = let rest = insert_sorted x ys in if leb x y then x ∷ y ∷ ys else y ∷ rest

-- `sort_unstable`
abbrev pub sort : List ℕ → List ℕ
sort [] = []
sort (x ∷ xs) = insert_sorted x (sort xs)

abbrev pub unwrap_or_zero : Option ℕ → ℕ
unwrap_or_zero none = 0
unwrap_or_zero (some x) = x

unfoldable pub median_us : ℕ → DiskSlowMonitor → ℕ
unfolding participating
median_us min_samples s =
    let xs = participating min_samples s in unwrap_or_zero (get_elem? (sort xs) (length xs / 2))

-- `scale` is the product with `rel_factor`, a floating-point number, cast to `u64`.
module _ (scale : ℕ → ℕ) where
  unfoldable pub threshold : DiskSlowConfig → DiskSlowMonitor → ℕ
  unfolding median_us
  threshold cfg s = max (cfg.abs_floor_ms * 1000 % 2 ^ 64) (scale (median_us cfg.min_samples s))

  abbrev pub is_slow : DiskSlowConfig → ℕ → Tracker → Bool
  is_slow cfg limit t = leb cfg.min_samples t.count && ltb limit t.ewma_us

  unfoldable pub verdicts : DiskSlowConfig → DiskSlowMonitor → List Bool
  unfolding threshold
  verdicts cfg s = map (is_slow cfg (threshold cfg s)) s

abbrev ms_of : Option Tracker → ℕ
ms_of none = 0
ms_of (some t) = t.ewma_us / 1000

abbrev count_of : Option Tracker → ℕ
count_of none = 0
count_of (some t) = t.count

unfoldable pub ewma_ms : DiskSlowMonitor → ℕ → ℕ
ewma_ms m shard = ms_of (get_elem? m shard)

unfoldable pub samples : DiskSlowMonitor → ℕ → ℕ
samples m shard = count_of (get_elem? m shard)
