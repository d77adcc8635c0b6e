-- ===== src/Latency.antt =====
-- crates/ozd-app/src/latency.rs: the rolling 99th percentile of the read latencies. A call is one
-- step: rotation is under its mutex, and the races of the counters are left out.
pub mod Window
pub mod Quantile
pub mod Counters
mod Tests
use ozd.Prelude.{
  ℕ, zero, suc, ◌+◌, ◌-◌, ◌*◌, ◌/◌, ◌%◌, ◌^◌, min, max, Bool, true, false, not, List, [], ◌∷◌,
  Option, none, some, ltb, leb, if◌then◌else◌, replicate, set, get_elem?, div_ceil,
}

abbrev pub buckets_len : ℕ
buckets_len = 22

-- The buckets and the count of one epoch.
pub record Epoch : Type 0 where
  pub buckets : List ℕ
  pub count : ℕ

-- Of the two epochs, `cur` names the one that records; times are microseconds since `base`.
pub record RollingP99 : Type 0 where
  pub window_us : ℕ
  pub min_samples : ℕ
  pub cur : Bool
  pub epoch_start_us : ℕ
  pub epoch_0 : Epoch
  pub epoch_1 : Epoch

abbrev pub no_samples : Epoch
no_samples = record { buckets = replicate 22 0; count = 0 }

unfoldable pub new : ℕ → ℕ → RollingP99
new window_us min_samples = record {
  window_us = window_us;
  min_samples = min_samples;
  cur = false;
  epoch_start_us = 0;
  epoch_0 = no_samples;
  epoch_1 = no_samples;
}

-- The position of the highest set bit, for a number below 2 ^ fuel.
unfoldable pub top_bit : ℕ → ℕ → ℕ
top_bit zero x = 0
top_bit (suc fuel) x = let rest = top_bit fuel (x / 2) in if ltb x 2 then 0 else suc rest

-- `u64::leading_zeros` of a positive number
abbrev pub leading_zeros : ℕ → ℕ
leading_zeros x = 63 - top_bit 64 x

unfoldable pub bucket_idx : ℕ → ℕ
bucket_idx us = min (63 - leading_zeros (max us 1)) (buckets_len - 1)

abbrev pub fetch_add : ℕ → ℕ → ℕ
fetch_add x n = (x + n) % 2 ^ 64

abbrev pub add_u64 : ℕ → ℕ → ℕ
add_u64 x y = (x + y) % 2 ^ 64

abbrev pub mul_u64 : ℕ → ℕ → ℕ
mul_u64 x y = x * y % 2 ^ 64

-- `buckets[i].fetch_add(1)`
abbrev pub bump : List ℕ → ℕ → List ℕ
bump [] i = []
bump (b ∷ bs) zero = fetch_add b 1 ∷ bs
bump (b ∷ bs) (suc i) = b ∷ bump bs i

abbrev pub epoch : RollingP99 → Bool → Epoch
epoch s false = s.epoch_0
epoch s true = s.epoch_1

abbrev pub with_epoch : RollingP99 → Bool → Epoch → RollingP99
with_epoch s false e = record s { epoch_0 = e }
with_epoch s true e = record s { epoch_1 = e }

unfoldable pub maybe_rotate : RollingP99 → ℕ → RollingP99
maybe_rotate s now_us =
    let next = not s.cur in
    let rotated = record (with_epoch s next no_samples) { cur = next } in
    let emptied = with_epoch rotated (not next) no_samples in
    if ltb (now_us - s.epoch_start_us) s.window_us
    then s
    else if leb (mul_u64 s.window_us 2) (now_us - s.epoch_start_us)
    then record emptied { epoch_start_us = now_us }
    else record rotated { epoch_start_us = now_us }

abbrev pub add_sample : Epoch → ℕ → Epoch
add_sample e i = record { buckets = bump e.buckets i; count = fetch_add e.count 1 }

unfoldable pub record_at : RollingP99 → ℕ → ℕ → RollingP99
record_at s lat_us now_us =
    let s' = maybe_rotate s now_us in
    with_epoch s' s'.cur (add_sample (epoch s' s'.cur) (bucket_idx lat_us))

-- The loop over the buckets from the i-th on, with what was counted before it.
unfoldable pub quantile : ℕ → ℕ → ℕ → List ℕ → List ℕ → ℕ
quantile target i cum [] bs = 2 ^ buckets_len
quantile target i cum (a ∷ rest_a) [] = 2 ^ buckets_len
quantile target i cum (a ∷ rest_a) (b ∷ bs) =
    let cum' = add_u64 cum (add_u64 a b) in
    let rest = quantile target (i + 1) cum' rest_a bs in
    if leb target cum' then 2 ^ (i + 1) else rest

abbrev pub total : RollingP99 → ℕ
total s = add_u64 s.epoch_0.count s.epoch_1.count

-- The rotated state, and the upper bound of the bucket of the 99th percentile.
unfoldable pub p99_at : RollingP99 → ℕ → Option ℕ × RollingP99
p99_at s now_us =
    let s' = maybe_rotate s now_us in
    if ltb (total s') s'.min_samples then (none, s') else (
      some (
          quantile (div_ceil (mul_u64 (total s') 99) 100) 0 0 s'.epoch_0.buckets
            s'.epoch_1.buckets),
      s',
    )
