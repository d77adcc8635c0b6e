-- ===== src/Health/Hysteresis.antt =====
-- How many observations the health machine of crates/ozd-app/src/health.rs wants before it moves.
use ozd.Prelude.{ℕ, zero, suc, ◌+◌, ◌<◌, max, replicate, ◌≡◌, ◌≢◌, refl, arith, ltb, if◌then◌else◌}
use ozd.Domain.{ShardStatus}
use ozd.Health.{
  HealthFsm, FsmState, online, suspect, faulted, returning, Observation, healthy, degraded, down,
  new, observe, observe_all, status,
}

-- What is said of a run is said of the states, for every counter that the run may start with.
suspect_stays :
    (n : ℕ) (f : HealthFsm)
    → f.state ≡ suspect
    → (observe_all f (replicate n degraded)).state ≡ suspect
unfolding observe_all observe
suspect_stays zero f e = e
suspect_stays (suc n) f e = ground (arith, suspect_stays n (observe f degraded))

online_degraded :
    (n : ℕ) (f : HealthFsm)
    → f.state ≡ online
    → f.fails < f.suspect_after
    → (observe_all f (replicate n degraded)).state
      ≡ (if ltb (f.fails + n) f.suspect_after then online else suspect)
unfolding observe_all observe
online_degraded zero f e h = ground arith
online_degraded (suc n) f e h =
    ground (arith, online_degraded n (observe f degraded), suspect_stays n (observe f degraded))

faulted_stays :
    (n : ℕ) (f : HealthFsm) → f.state ≡ faulted → (observe_all f (replicate n down)).state ≡ faulted
unfolding observe_all observe
faulted_stays zero f e = e
faulted_stays (suc n) f e = ground (arith, faulted_stays n (observe f down))

suspect_down :
    (n : ℕ) (f : HealthFsm)
    → f.state ≡ suspect
    → f.fails < f.suspect_after
    → (observe_all f (replicate n down)).state
      ≡ (if ltb (f.fails + n) f.suspect_after then suspect else faulted)
unfolding observe_all observe
suspect_down zero f e h = ground arith
suspect_down (suc n) f e h =
    ground (arith, suspect_down n (observe f down), faulted_stays n (observe f down))

online_stays :
    (n : ℕ) (f : HealthFsm)
    → f.state ≡ online
    → (observe_all f (replicate n healthy)).state ≡ online
unfolding observe_all observe
online_stays zero f e = e
online_stays (suc n) f e = ground (arith, online_stays n (observe f healthy))

returning_healthy :
    (n : ℕ) (f : HealthFsm)
    → f.state ≡ returning
    → (observe_all f (replicate (suc n) healthy)).state
      ≡ (if ltb (f.oks + suc n) f.recover_after then returning else online)
unfolding observe_all observe
returning_healthy zero f e = ground arith
returning_healthy (suc n) f e =
    ground
      (arith, returning_healthy n (observe f healthy), online_stays (suc n) (observe f healthy))

-- A machine made by `new` that sees n degraded observations in a row is Online while n is below
-- the threshold (at least one), and Suspect from there on; it is never Faulted by them.
pub degraded_hysteresis :
    (suspect_after recover_after n : ℕ)
    → status (observe_all (new suspect_after recover_after) (replicate n degraded))
      ≡ (if ltb n (max suspect_after 1) then ShardStatus.online else ShardStatus.suspect)
unfolding status new
degraded_hysteresis s r n = ground (arith, online_degraded n (new s r))

-- A machine made by `new` that sees n + 1 observations `Down` in a row is Suspect while n is below
-- the threshold (at least one), and Faulted from there on.
pub down_hysteresis :
    (suspect_after recover_after n : ℕ)
    → status (observe_all (new suspect_after recover_after) (replicate (suc n) down))
      ≡ (if ltb n (max suspect_after 1) then ShardStatus.suspect else ShardStatus.faulted)
unfolding status new observe_all observe
down_hysteresis s r n = ground (arith, suspect_down n (observe (new s r) down))

-- A Faulted machine that sees n + 1 healthy observations in a row is Online exactly if n is
-- positive and n + 1 reaches `recover_after`; otherwise it is Suspect. So one success never
-- suffices.
pub probe_back :
    (f : HealthFsm) (n : ℕ)
    → f.state ≡ faulted
    → status (observe_all f (replicate (suc n) healthy))
      ≡ (if ltb (suc n) (max f.recover_after 2) then ShardStatus.suspect else ShardStatus.online)
unfolding status observe_all observe
probe_back f zero e = ground arith
probe_back f (suc n) e = ground (arith, returning_healthy n (observe f healthy))

no_jump_from :
    (s : FsmState) (o : Observation) (f : HealthFsm)
    → f.state ≡ s
    → (status f ≡ ShardStatus.online → status (observe f o) ≢ ShardStatus.faulted)
      × (status f ≡ ShardStatus.faulted → status (observe f o) ≢ ShardStatus.online)
unfolding status observe
no_jump_from online o f e = ground arith
no_jump_from suspect o f e = ground arith
no_jump_from faulted o f e = ground arith
no_jump_from returning o f e = ground arith

-- No single observation takes a disk from Online to Faulted, nor from Faulted to Online.
pub no_jump :
    (f : HealthFsm) (o : Observation)
    → (status f ≡ ShardStatus.online → status (observe f o) ≢ ShardStatus.faulted)
      × (status f ≡ ShardStatus.faulted → status (observe f o) ≢ ShardStatus.online)
no_jump f o = no_jump_from f.state o f refl
