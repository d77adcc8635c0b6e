-- ===== src/Latency/Window.antt =====
-- How long a latency sample of crates/ozd-app/src/latency.rs is counted.
use ozd.Prelude.{ℕ, ◌+◌, ◌-◌, ◌*◌, ◌^◌, ◌≤◌, ◌<◌, Bool, true, false, ◌≡◌, arith, none}
use ozd.Latency.{
  RollingP99, Epoch, epoch, with_epoch, maybe_rotate, record_at, add_sample, bucket_idx, total,
  p99_at,
}

-- A counter that is not about to wrap.
abbrev pub HasRoom : RollingP99 → Type 0
HasRoom s = (s.epoch_0.count + 1 < 2 ^ 63) × (s.epoch_1.count + 1 < 2 ^ 63) × (s.window_us < 2 ^ 63)

abbrev NoWrap : RollingP99 → Type 0
NoWrap s = (s.epoch_0.count < 2 ^ 63) × (s.epoch_1.count < 2 ^ 63) × (s.window_us < 2 ^ 63)

abbrev now_recording : RollingP99 → Epoch
now_recording s = epoch s s.cur

abbrev counted : RollingP99 → ℕ → RollingP99
counted s i = with_epoch s s.cur (add_sample (epoch s s.cur) i)

module _ (w m st : ℕ) (e0 e1 : Epoch) where
  abbrev state : Bool → RollingP99
  state b = record {
    window_us = w;
    min_samples = m;
    cur = b;
    epoch_start_us = st;
    epoch_0 = e0;
    epoch_1 = e1;
  }

  state_keeps :
      (b : Bool) (now : ℕ)
      → 1 ≤ (now_recording (state b)).count
      → now - st < w * 2
      → NoWrap (state b)
      → 1 ≤ total (maybe_rotate (state b) now)
  unfolding maybe_rotate
  state_keeps true now h1 h2 room = ground arith
  state_keeps false now h1 h2 room = ground arith

  state-HasRoom : (b : Bool) (now : ℕ) → HasRoom (state b) → HasRoom (maybe_rotate (state b) now)
  unfolding maybe_rotate
  state-HasRoom true now h = ground arith
  state-HasRoom false now h = ground arith

  state_start :
      (b : Bool) (now : ℕ)
      → st ≤ now
      → 0 < w
      → ((maybe_rotate (state b) now).window_us ≡ w)
        × (now - (maybe_rotate (state b) now).epoch_start_us < w)
  unfolding maybe_rotate
  state_start true now h p = ground arith
  state_start false now h p = ground arith

  state_expires : (b : Bool) (now : ℕ) → st + w * 2 ≤ now → 0 < m → (p99_at (state b) now).0 ≡ none
  unfolding p99_at maybe_rotate
  state_expires true now h p = ground arith
  state_expires false now h p = ground arith

  state_added :
      (b : Bool) (i : ℕ)
      → HasRoom (state b)
      → NoWrap (counted (state b) i)
        × (1 ≤ (now_recording (counted (state b) i)).count)
        × ((counted (state b) i).window_us ≡ w)
        × ((counted (state b) i).epoch_start_us ≡ st)
  state_added true i h = ground arith
  state_added false i h = ground arith

added :
    (s : RollingP99) (i : ℕ)
    → HasRoom s
    → NoWrap (counted s i)
      × (1 ≤ (now_recording (counted s i)).count)
      × ((counted s i).window_us ≡ s.window_us)
      × ((counted s i).epoch_start_us ≡ s.epoch_start_us)
added s = state_added s.window_us s.min_samples s.epoch_start_us s.epoch_0 s.epoch_1 s.cur

rotate_keeps :
    (s : RollingP99) (now : ℕ)
    → 1 ≤ (now_recording s).count
    → now - s.epoch_start_us < s.window_us * 2
    → NoWrap s
    → 1 ≤ total (maybe_rotate s now)
rotate_keeps s = state_keeps s.window_us s.min_samples s.epoch_start_us s.epoch_0 s.epoch_1 s.cur

rotate_start :
    (s : RollingP99) (now : ℕ)
    → s.epoch_start_us ≤ now
    → 0 < s.window_us
    → ((maybe_rotate s now).window_us ≡ s.window_us)
      × (now - (maybe_rotate s now).epoch_start_us < s.window_us)
rotate_start s = state_start s.window_us s.min_samples s.epoch_start_us s.epoch_0 s.epoch_1 s.cur

rotate-HasRoom : (s : RollingP99) (now : ℕ) → HasRoom s → HasRoom (maybe_rotate s now)
rotate-HasRoom s =
    state-HasRoom s.window_us s.min_samples s.epoch_start_us s.epoch_0 s.epoch_1 s.cur

-- A sample recorded at time t is still counted by every call less than a window later, if time
-- does not run backwards, no counter is about to wrap, and the window is below 2 ^ 63.
pub record_at_counted :
    (s : RollingP99) (lat t now : ℕ)
    → HasRoom s
    → s.epoch_start_us ≤ t
    → t ≤ now
    → now < t + s.window_us
    → 1 ≤ total (maybe_rotate (record_at s lat t) now)
unfolding record_at
record_at_counted s lat t now room h1 h2 h3 =
    let r = maybe_rotate s t in
    let (fits, one, window, start) = added r (bucket_idx lat) (rotate-HasRoom s t room) in
    let (window', recent) = rotate_start s t h1 (omega arith) in
    rotate_keeps (counted r (bucket_idx lat)) now one
      (omega (arith, one, window, start, window', recent)) fits

-- Once two windows have passed since the start of an epoch no sample is left, and no percentile is
-- given, if one sample at least is asked for.
pub p99_at_expires :
    (s : RollingP99) (now : ℕ)
    → s.epoch_start_us + s.window_us * 2 ≤ now
    → 0 < s.min_samples
    → (p99_at s now).0 ≡ none
p99_at_expires s =
    state_expires s.window_us s.min_samples s.epoch_start_us s.epoch_0 s.epoch_1 s.cur
