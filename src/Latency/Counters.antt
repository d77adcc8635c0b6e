-- ===== src/Latency/Counters.antt =====
-- The counters of crates/ozd-app/src/latency.rs agree with their buckets.
use ozd.Prelude.{
  ℕ, zero, suc, ◌+◌, ◌^◌, ◌<◌, List, [], ◌∷◌, Bool, true, false, ◌≡◌, refl, arith, length,
}
use ozd.Latency.{
  RollingP99, Epoch, epoch, with_epoch, new, maybe_rotate, record_at, add_sample, bump, bucket_idx,
  no_samples,
}
use ozd.Latency.Quantile.{IsConsistent, sum}

length-bump : (bs : List ℕ) (i : ℕ) → length (bump bs i) ≡ length bs
length-bump [] i = refl
length-bump (b ∷ bs) zero = refl
length-bump (b ∷ bs) (suc i) = omega (arith, length-bump bs i)

sum-bump :
    (bs : List ℕ) (i : ℕ) → i < length bs → sum bs + 1 < 2 ^ 64 → sum (bump bs i) ≡ sum bs + 1
sum-bump [] i h fits = absurd (omega arith)
sum-bump (b ∷ bs) zero h fits = omega arith
sum-bump (b ∷ bs) (suc i) h fits = omega (arith, sum-bump bs i (omega arith) (omega arith))

bucket_idx-lt : (us : ℕ) → bucket_idx us < 22
unfolding bucket_idx
bucket_idx-lt us = omega arith

Agrees : Epoch → Type 0
Agrees e = (length e.buckets ≡ 22) × (sum e.buckets ≡ e.count)

add_sample-Agrees :
    (e : Epoch) (i : ℕ) → i < 22 → e.count + 1 < 2 ^ 64 → Agrees e → Agrees (add_sample e i)
unfolding Agrees
add_sample-Agrees e i h fits (len, count) = (
  omega (arith, len, length-bump e.buckets i),
  omega (arith, count, sum-bump e.buckets i (omega (arith, len)) (omega (arith, count))),
)

no_samples-Agrees : Agrees no_samples
unfolding Agrees
no_samples-Agrees = (refl, refl)

Both : RollingP99 → Type 0
Both s = Agrees s.epoch_0 × Agrees s.epoch_1

both : (s : RollingP99) → IsConsistent s → Both s
unfolding Both Agrees
both s v = ((v.length_0, v.count_0), (v.length_1, v.count_1))

consistent : (s : RollingP99) → Both s → IsConsistent s
unfolding Both Agrees
consistent s ((l0, c0), (l1, c1)) = record {
  length_0 = l0;
  length_1 = l1;
  count_0 = c0;
  count_1 = c1;
}

module _ (w m st : ℕ) (e0 e1 : Epoch) where
  abbrev state : Bool → RollingP99
  state b = record {
    window_us = w;
    min_samples = m;
    cur = b;
    epoch_start_us = st;
    epoch_0 = e0;
    epoch_1 = e1;
  }

  state_rotates : (b : Bool) (now : ℕ) → Both (state b) → Both (maybe_rotate (state b) now)
  unfolding maybe_rotate Both
  state_rotates true now v = ground (arith, no_samples-Agrees, v)
  state_rotates false now v = ground (arith, no_samples-Agrees, v)

  state_adds :
      (b : Bool) (i : ℕ)
      → i < 22
      → (epoch (state b) b).count + 1 < 2 ^ 64
      → Both (state b)
      → Both (with_epoch (state b) b (add_sample (epoch (state b) b) i))
  unfolding Both
  state_adds true i h fits v = (v.0, add_sample-Agrees e1 i h fits v.1)
  state_adds false i h fits v = (add_sample-Agrees e0 i h fits v.0, v.1)

rotates : (s : RollingP99) (now : ℕ) → Both s → Both (maybe_rotate s now)
rotates s = state_rotates s.window_us s.min_samples s.epoch_start_us s.epoch_0 s.epoch_1 s.cur

adds :
    (s : RollingP99) (i : ℕ)
    → i < 22
    → (epoch s s.cur).count + 1 < 2 ^ 64
    → Both s
    → Both (with_epoch s s.cur (add_sample (epoch s s.cur) i))
adds s = state_adds s.window_us s.min_samples s.epoch_start_us s.epoch_0 s.epoch_1 s.cur

pub new-IsConsistent : (window_us min_samples : ℕ) → IsConsistent (new window_us min_samples)
unfolding new
new-IsConsistent window_us min_samples = record {
  length_0 = refl;
  length_1 = refl;
  count_0 = refl;
  count_1 = refl;
}

-- If each epoch's count is the sum of its 22 buckets, it is still so after a rotation, and after a
-- sample is recorded, if the counter that records is not about to wrap.
pub record_at-IsConsistent :
    (s : RollingP99) (lat now : ℕ)
    → IsConsistent s
    → (epoch (maybe_rotate s now) (maybe_rotate s now).cur).count + 1 < 2 ^ 64
    → IsConsistent (maybe_rotate s now) × IsConsistent (record_at s lat now)
unfolding record_at
record_at-IsConsistent s lat now v fits =
    let r = rotates s now (both s v) in
    (
      consistent (maybe_rotate s now) r,
      consistent _ (adds (maybe_rotate s now) (bucket_idx lat) (bucket_idx-lt lat) fits r),
    )
