-- ===== src/Latency/Tests.antt =====
-- Tests of the rolling percentile of crates/ozd-app/src/latency.rs.
use ozd.Prelude.{ℕ, ◌+◌, ◌*◌, ◌^◌, ◌≤◌, ◌<◌, ◌≡◌, refl, arith, none, some, div_ceil}
use ozd.Latency.{
  RollingP99, epoch, new, maybe_rotate, record_at, p99_at, total, bucket_idx, top_bit, quantile,
}
use ozd.Latency.Quantile.{IsConsistent, up_to, p99_at_quantile}

program : Unit {0}
unfolding new maybe_rotate record_at p99_at bucket_idx top_bit quantile div_ceil
program = tt

abbrev fresh : RollingP99
fresh = new 1000 1

abbrev once : RollingP99
once = record_at fresh 300 10

bucket_of_1000 : bucket_idx 1000 ≡ 9
unfolding program
bucket_of_1000 = refl

bucket_of_huge : bucket_idx 5000000 ≡ 21
unfolding program
bucket_of_huge = refl

bound_of_one : (p99_at once 20).0 ≡ some 512
unfolding program
bound_of_one = refl

counted_after_rotation : (p99_at once 1005).0 ≡ some 512
unfolding program
counted_after_rotation = refl

gone_after_two_windows : (p99_at once 2000).0 ≡ none
unfolding program
gone_after_two_windows = refl

room :
    (fresh.epoch_0.count + 1 < 2 ^ 63)
    × (fresh.epoch_1.count + 1 < 2 ^ 63)
    × (fresh.window_us < 2 ^ 63)
unfolding program
room = (omega arith, omega arith, omega arith)

started : fresh.epoch_start_us ≤ 10
unfolding program
started = omega arith

soon : 1009 < 10 + fresh.window_us
unfolding program
soon = omega arith

stale : once.epoch_start_us + once.window_us * 2 ≤ 2000
unfolding program
stale = omega arith

asks : 0 < once.min_samples
unfolding program
asks = omega arith

once_rotated : IsConsistent (maybe_rotate once 20)
unfolding program
once_rotated = record { length_0 = refl; length_1 = refl; count_0 = refl; count_1 = refl }

few : (maybe_rotate once 20).epoch_0.count + (maybe_rotate once 20).epoch_1.count < 2 ^ 57
unfolding program
few = omega arith

any : 0 < total (maybe_rotate once 20)
unfolding program
any = omega arith

enough : (maybe_rotate once 20).min_samples ≤ total (maybe_rotate once 20)
unfolding program
enough = omega arith

p99_at_quantile_example :
    (j : ℕ) × ((p99_at once 20).0 ≡ some (2 ^ (j + 1)))
    × (j < 22)
    × (total (maybe_rotate once 20) * 99
        ≤ 100
          * up_to
              (j + 1)
              (maybe_rotate once 20).epoch_0.buckets
              (maybe_rotate once 20).epoch_1.buckets)
    × (100 * up_to j (maybe_rotate once 20).epoch_0.buckets (maybe_rotate once 20).epoch_1.buckets
        < total (maybe_rotate once 20) * 99)
p99_at_quantile_example = p99_at_quantile once 20 once_rotated few any enough

not_full : (epoch (maybe_rotate fresh 10) (maybe_rotate fresh 10).cur).count + 1 < 2 ^ 64
unfolding program
not_full = omega arith
