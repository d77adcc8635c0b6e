-- ===== src/Latency/Quantile.antt =====
-- What the 99th percentile of crates/ozd-app/src/latency.rs bounds.
use ozd.Prelude.{
  ℕ, zero, suc, ◌+◌, ◌-◌, ◌*◌, ◌/◌, ◌^◌, ◌≤◌, ◌<◌, min, max, List, [], ◌∷◌, ◌≡◌, refl, arith, inl,
  inr, ◌⊎◌, le→ltb, lt→ltb, take, length, ap, ◌∙◌, div_ceil, some,
}
use native.Mathlib.Decide.{dec_le}
use ozd.Latency.{
  RollingP99, maybe_rotate, bucket_idx, top_bit, total, add_u64, mul_u64, p99_at, quantile,
  buckets_len,
}

abbrev pub sum : List ℕ → ℕ
sum [] = 0
sum (x ∷ xs) = x + sum xs

-- The two halves of a whole that a bucket bound splits the samples in.
abbrev pub up_to : ℕ → List ℕ → List ℕ → ℕ
up_to n xs ys = sum (take n xs) + sum (take n ys)

shift : (i j : ℕ) → 2 ^ (i + 1 + (j + 1)) ≡ 2 ^ (i + (suc j + 1))
shift i j = ap (λ n. 2 ^ n) {x = i + 1 + (j + 1)} (omega arith)

up_to-cons :
    (x y : ℕ) (xs ys : List ℕ) (j : ℕ)
    → up_to (suc j + 1) (x ∷ xs) (y ∷ ys) ≡ x + y + up_to (j + 1) xs ys
up_to-cons x y xs ys j =
    ap (λ n. up_to n (x ∷ xs) (y ∷ ys)) {x = suc j + 1} {y = suc (j + 1)} (omega arith)
    ∙ omega arith

half_bounds :
    (r x : ℕ) → (2 ^ r ≤ x / 2) × (x / 2 < 2 ^ (r + 1)) → (2 ^ suc r ≤ x) × (x < 2 ^ (suc r + 1))
half_bounds r x (lo, hi) =
    let double : 2 ^ (suc r + 1) ≡ 2 ^ (r + 1) * 2 =
      ap (λ n. 2 ^ n) {x = suc r + 1} {y = suc (r + 1)} (omega arith) ∙ omega arith in
    (omega (arith, lo), omega (arith, hi, double))

pub quantile_lem :
    (target i cum : ℕ) (xs ys : List ℕ)
    → length xs ≡ length ys
    → cum < target
    → target ≤ cum + sum xs + sum ys
    → cum + sum xs + sum ys < 2 ^ 64
    → (j : ℕ) × (quantile target i cum xs ys ≡ 2 ^ (i + (j + 1)))
      × (j < length xs)
      × (cum + up_to j xs ys < target)
      × (target ≤ cum + up_to (j + 1) xs ys)
unfolding quantile
quantile_lem target i cum [] [] len below above fits = absurd (omega arith)
quantile_lem target i cum [] (y ∷ ys) len below above fits = absurd (omega arith)
quantile_lem target i cum (x ∷ xs) [] len below above fits = absurd (omega arith)
quantile_lem target i cum (x ∷ xs) (y ∷ ys) len below above fits =
    let sum_fits : add_u64 cum (add_u64 x y) ≡ cum + (x + y) = omega arith in
    rw (quantile, sum_fits)
      (elim (dec_le target (cum + (x + y))) [
        | yes h ↦ (0, ground arith, omega arith, omega arith, omega arith)
        | no h ↦
            let (j, e, short, lo, hi) =
              quantile_lem target (i + 1) (cum + (x + y)) xs ys (omega arith) (omega arith)
                (omega arith) (omega arith) in
            (
              suc j,
              ground (arith, e, shift i j),
              omega arith,
              omega (arith, lo),
              omega (arith, hi, up_to-cons x y xs ys j),
            )
      ])

pow_mono : (a d : ℕ) → a ≤ d → 2 ^ a ≤ 2 ^ d
pow_mono a zero h = let same : a ≡ 0 = omega arith in rw same (omega arith)
pow_mono a (suc d) h = elim (dec_le a d) [
  | yes le ↦ omega (arith, pow_mono a d le)
  | no gt ↦ let same : a ≡ suc d = omega arith in rw same (omega arith)
]

top_bit_lem :
    (fuel x : ℕ) → 0 < x → x < 2 ^ fuel → (2 ^ top_bit fuel x ≤ x) × (x < 2 ^ (top_bit fuel x + 1))
unfolding top_bit
top_bit_lem zero x p h = absurd (omega arith)
top_bit_lem (suc fuel) x p h = elim (dec_le 2 x) [
  | yes big ↦
      let ih = top_bit_lem fuel (x / 2) (omega arith) (omega arith) in
      rw (top_bit, le→ltb x 2 big) (half_bounds (top_bit fuel (x / 2)) x ih)
  | no small ↦ rw (top_bit, lt→ltb x 2 (omega arith)) (omega arith)
]

top_bit-lt : (fuel x : ℕ) → 0 < x → x < 2 ^ fuel → top_bit fuel x < fuel
unfolding top_bit
top_bit-lt zero x p h = absurd (omega arith)
top_bit-lt (suc fuel) x p h = elim (dec_le 2 x) [
  | yes big ↦
      rw (top_bit, le→ltb x 2 big)
        (omega (arith, top_bit-lt fuel (x / 2) (omega arith) (omega arith)))
  | no small ↦ rw (top_bit, lt→ltb x 2 (omega arith)) (omega arith)
]

-- The bucket of a latency is the highest power of two that is not above it, or the last bucket for
-- a latency of 2 ^ 21 microseconds or more; zero counts as one microsecond,
-- and a latency fits 64 bits.
pub bucket_idx_bounds :
    (us : ℕ)
    → us < 2 ^ 64
    → (2 ^ bucket_idx us ≤ max us 1)
      × ((max us 1 < 2 ^ (bucket_idx us + 1)) ⊎ (bucket_idx us ≡ 21) × (2 ^ 21 ≤ us))
unfolding bucket_idx
bucket_idx_bounds us h =
    let x = max us 1 in
    let (lo, hi) = top_bit_lem 64 x (omega arith) (omega arith) in
    let short = top_bit-lt 64 x (omega arith) (omega arith) in
    elim (dec_le 22 (top_bit 64 x)) [
      | yes big ↦
          (let cut : min (63 - (63 - top_bit 64 x)) (buckets_len - 1) ≡ 21 = omega arith in
            let high : 2 ^ 21 ≤ x = omega (arith, lo, pow_mono 21 (top_bit 64 x) (omega arith)) in
            rw cut (high, inr (refl, omega arith)))
      | no small ↦
          let same : min (63 - (63 - top_bit 64 x)) (buckets_len - 1) ≡ top_bit 64 x =
            omega arith in
          rw same (lo, inl hi)
    ]

div_ceil_bounds : (n : ℕ) → (n ≤ 100 * div_ceil n 100) × (100 * div_ceil n 100 < n + 100)
unfolding div_ceil
div_ceil_bounds n = ground arith

-- Each count is the sum of its buckets.
pub record IsConsistent (s : RollingP99) : Type 0 where
  pub length_0 : length s.epoch_0.buckets ≡ 22
  pub length_1 : length s.epoch_1.buckets ≡ 22
  pub count_0 : sum s.epoch_0.buckets ≡ s.epoch_0.count
  pub count_1 : sum s.epoch_1.buckets ≡ s.epoch_1.count

take-all : (n : ℕ) (xs : List ℕ) → length xs ≡ n → sum (take n xs) ≡ sum xs
take-all zero [] h = refl
take-all zero (x ∷ xs) h = absurd (omega arith)
take-all (suc n) [] h = refl
take-all (suc n) (x ∷ xs) h = omega (arith, take-all n xs (omega arith))

-- If the counters are consistent and below 2 ^ 57 together, samples are counted, and as many as are asked for, the answer is the upper bound 2 ^ (j + 1)
-- of a bucket j such that 99 percent of the samples are in the buckets up to j, and fewer in the
-- buckets before it.
pub p99_at_quantile :
    (s : RollingP99) (now : ℕ)
    → IsConsistent (maybe_rotate s now)
    → (maybe_rotate s now).epoch_0.count + (maybe_rotate s now).epoch_1.count < 2 ^ 57
    → 0 < total (maybe_rotate s now)
    → (maybe_rotate s now).min_samples ≤ total (maybe_rotate s now)
    → (j : ℕ) × ((p99_at s now).0 ≡ some (2 ^ (j + 1)))
      × (j < 22)
      × (total (maybe_rotate s now) * 99
          ≤ 100
            * up_to
                (j + 1)
                (maybe_rotate s now).epoch_0.buckets
                (maybe_rotate s now).epoch_1.buckets)
      × (100 * up_to j (maybe_rotate s now).epoch_0.buckets (maybe_rotate s now).epoch_1.buckets
          < total (maybe_rotate s now) * 99)
unfolding p99_at
p99_at_quantile s now v fits some_counted enough =
    let r = maybe_rotate s now in
    let n = mul_u64 (total r) 99 in
    let exact : n ≡ (r.epoch_0.count + r.epoch_1.count) * 99 = omega arith in
    let (above, below) = div_ceil_bounds n in
    let (j, e, short, lo, hi) =
      quantile_lem (div_ceil n 100) 0 0 r.epoch_0.buckets r.epoch_1.buckets
        (omega (arith, v.length_0, v.length_1)) (omega (arith, above, exact, some_counted))
        (omega (arith, below, exact, v.count_0, v.count_1))
        (omega (arith, fits, v.count_0, v.count_1)) in
    (
      j,
      rw (le→ltb (total r) r.min_samples enough, e)
          (ap (λ k. some (2 ^ k)) {x = 0 + (j + 1)} (omega arith)),
      omega (arith, v.length_0),
      omega (arith, hi, above, exact),
      omega (arith, lo, below, exact),
    )
