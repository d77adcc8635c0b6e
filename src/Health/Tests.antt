-- ===== src/Health/Tests.antt =====
-- Tests of the health machine, after those of crates/ozd-app/src/health.rs.
use ozd.Prelude.{[], ◌∷◌, ◌≡◌, refl}
use ozd.Domain.{ShardStatus}
use ozd.Health.{HealthFsm, faulted, healthy, degraded, down, new, observe, observe_all, status}
use ozd.Health.Invariant.{IsValid, observe_all-IsValid}

program : Unit {0}
unfolding new observe observe_all status
program = tt

single_glitch :
    status (observe_all (new 3 2) (degraded ∷ healthy ∷ degraded ∷ degraded ∷ []))
    ≡ ShardStatus.online
unfolding program
single_glitch = refl

relapse_on_probe :
    status (observe_all (new 1 3) (down ∷ down ∷ healthy ∷ down ∷ [])) ≡ ShardStatus.faulted
unfolding program
relapse_on_probe = refl

abbrev broken : HealthFsm
broken = record { state = faulted; fails = 0; oks = 0; suspect_after = 2; recover_after = 3 }

observe_all-IsValid_example : IsValid (observe_all (new 2 3) (down ∷ degraded ∷ healthy ∷ []))
observe_all-IsValid_example = observe_all-IsValid 2 3 (down ∷ degraded ∷ healthy ∷ [])
