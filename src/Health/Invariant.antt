-- ===== src/Health/Invariant.antt =====
-- The counters of the health machine of crates/ozd-app/src/health.rs stay under their thresholds.
use ozd.Prelude.{ℕ, ◌≤◌, ◌<◌, List, [], ◌∷◌, ◌≡◌, refl, arith}
use ozd.Health.{
  HealthFsm, FsmState, online, suspect, faulted, returning, Observation, healthy, degraded, down,
  new, observe, observe_all,
}

-- What each state says of the two counters.
abbrev pub CountersFit : FsmState → HealthFsm → Type 0
CountersFit online f = (f.fails < f.suspect_after) × (f.oks ≡ 0)
CountersFit suspect f = (f.fails < f.suspect_after) × (f.oks < f.recover_after)
CountersFit faulted f = (f.fails ≡ 0) × (f.oks ≡ 0)
CountersFit returning f = (f.fails ≡ 0) × (0 < f.oks) × (f.oks ≤ f.recover_after)

pub record IsValid (f : HealthFsm) : Type 0 where
  pub positive_suspect : 0 < f.suspect_after
  pub positive_recover : 0 < f.recover_after
  pub counters : CountersFit f.state f

pub new-IsValid : (s r : ℕ) → IsValid (new s r)
unfolding new
new-IsValid s r = record {
  positive_suspect = omega arith;
  positive_recover = omega arith;
  counters = omega arith;
}

observe_from-IsValid :
    (s : FsmState) (o : Observation) (f : HealthFsm)
    → f.state ≡ s
    → IsValid f
    → IsValid (observe f o)
unfolding observe
observe_from-IsValid online healthy f e v = ground arith
observe_from-IsValid online degraded f e v = ground arith
observe_from-IsValid online down f e v = ground arith
observe_from-IsValid suspect healthy f e v = ground arith
observe_from-IsValid suspect degraded f e v = ground arith
observe_from-IsValid suspect down f e v = ground arith
observe_from-IsValid faulted healthy f e v = ground arith
observe_from-IsValid faulted degraded f e v = ground arith
observe_from-IsValid faulted down f e v = ground arith
observe_from-IsValid returning healthy f e v = ground arith
observe_from-IsValid returning degraded f e v = ground arith
observe_from-IsValid returning down f e v = ground arith

pub observe-IsValid : (f : HealthFsm) (o : Observation) → IsValid f → IsValid (observe f o)
observe-IsValid f o v = observe_from-IsValid f.state o f refl v

observe_all_from-IsValid :
    (os : List Observation) (f : HealthFsm) → IsValid f → IsValid (observe_all f os)
unfolding observe_all
observe_all_from-IsValid [] f v = v
observe_all_from-IsValid (o ∷ os) f v =
    observe_all_from-IsValid os (observe f o) (observe-IsValid f o v)

-- After any observations, a machine made by `new` has positive thresholds, and counters that fit
-- its state: Online holds fewer failures than `suspect_after` and no successes, Suspect fewer of
-- both than the thresholds, Faulted none, and Returning between one and `recover_after` successes.
pub observe_all-IsValid :
    (suspect_after recover_after : ℕ) (os : List Observation)
    → IsValid (observe_all (new suspect_after recover_after) os)
observe_all-IsValid s r os = observe_all_from-IsValid os (new s r) (new-IsValid s r)
