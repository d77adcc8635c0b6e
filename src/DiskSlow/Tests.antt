-- ===== src/DiskSlow/Tests.antt =====
-- Tests of the slow disk monitor of crates/ozd-app/src/diskslow.rs.
use ozd.Prelude.{ℕ, ◌*◌, ◌≤◌, [], ◌∷◌, true, false, ◌≡◌, inr, refl, arith, length, replicate, All}
use ozd.DiskSlow.{
  ewma_ms, samples, DiskSlowConfig, DiskSlowMonitor, new, sampled, record_sample, participating,
  median_us, threshold, verdicts,
}
use ozd.DiskSlow.Fleet.{Within, Even, verdicts-Even}

program : Unit {0}
unfolding new sampled record_sample participating median_us threshold verdicts
program = tt

abbrev config : DiskSlowConfig
config = record { abs_floor_ms = 1; min_samples = 2 }

abbrev fleet : DiskSlowMonitor
fleet =
    record { ewma_us = 2000; count = 3 }
    ∷ record { ewma_us = 2100; count = 3 }
    ∷ record { ewma_us = 9000; count = 3 }
    ∷ []

one_outlier : verdicts (λ m. m * 4) config fleet ≡ false ∷ false ∷ true ∷ []
unfolding program
one_outlier = refl

moves_by_an_eighth :
    record_sample 0 10000 fleet
    ≡ record { ewma_us = 3000; count = 4 }
      ∷ record { ewma_us = 2100; count = 3 }
      ∷ record { ewma_us = 9000; count = 3 }
      ∷ []
unfolding program
moves_by_an_eighth = refl

fleet-Within : All (Within 2000 9000) fleet
fleet-Within = (
  inr (omega arith, omega arith),
  (inr (omega arith, omega arith), (inr (omega arith, omega arith), tt)),
)

fleet-Even : All (Even 2 2000 9000) fleet
fleet-Even = (
  inr (omega arith, omega arith),
  (inr (omega arith, omega arith), (inr (omega arith, omega arith), tt)),
)

times_five : (m : ℕ) → 2000 ≤ m → 9000 ≤ m * 5
times_five m h = omega arith

verdicts-Even_example : verdicts (λ m. m * 5) config fleet ≡ replicate (length fleet) false
verdicts-Even_example = verdicts-Even (λ m. m * 5) config 2000 9000 fleet times_five fleet-Even

-- A disk that is not there has no latency and no samples.
no_disk : (ewma_ms (new 2) 5 ≡ 0) × (samples (new 2) 5 ≡ 0)
unfolding new ewma_ms samples
no_disk = (refl, refl)
