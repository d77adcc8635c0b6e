-- ===== src/Health.antt =====
-- crates/ozd-app/src/health.rs: the disk-health state machine with hysteresis.
pub mod Invariant
pub mod Hysteresis
mod Tests
use ozd.Prelude.{ℕ, ◌+◌, max, List, [], ◌∷◌, leb, if◌then◌else◌}
use ozd.Domain.{ShardStatus}

pub data Observation : Type 0 where
  healthy degraded down : Observation

pub data FsmState : Type 0 where
  online suspect faulted returning : FsmState

pub record HealthFsm : Type 0 where
  pub state : FsmState
  pub fails : ℕ
  pub oks : ℕ
  pub suspect_after : ℕ
  pub recover_after : ℕ

unfoldable pub new : ℕ → ℕ → HealthFsm
new suspect_after recover_after = record {
  state = online;
  fails = 0;
  oks = 0;
  suspect_after = max suspect_after 1;
  recover_after = max recover_after 1;
}

abbrev reset : HealthFsm → HealthFsm
reset f = record f { fails = 0; oks = 0 }

-- The arms of the match in `observe`, each with the counters that it leaves.
transition : FsmState → Observation → HealthFsm → HealthFsm
transition online healthy f = record f { fails = 0; state = online }
transition online degraded f =
    let f' = record f { fails = f.fails + 1 } in
    if leb f'.suspect_after f'.fails
    then record (reset f') { state = suspect }
    else record f' { state = online }
transition online down f = record (reset f) { state = suspect }
transition suspect healthy f =
    let f' = record f { fails = 0; oks = f.oks + 1 } in
    if leb f'.recover_after f'.oks
    then record (reset f') { state = online }
    else record f' { state = suspect }
transition suspect degraded f = record f { oks = 0; state = suspect }
transition suspect down f =
    let f' = record f { oks = 0; fails = f.fails + 1 } in
    if leb f'.suspect_after f'.fails
    then record (reset f') { state = faulted }
    else record f' { state = suspect }
transition faulted healthy f = record (reset f) { oks = 1; state = returning }
transition faulted _ f = record f { state = faulted }
transition returning healthy f =
    let f' = record f { oks = f.oks + 1 } in
    if leb f'.recover_after f'.oks
    then record (reset f') { state = online }
    else record f' { state = returning }
transition returning _ f = record (reset f) { state = faulted }

abbrev status_of : FsmState → ShardStatus
status_of online = ShardStatus.online
status_of suspect = ShardStatus.suspect
status_of returning = ShardStatus.suspect
status_of faulted = ShardStatus.faulted

unfoldable pub status : HealthFsm → ShardStatus
status f = status_of f.state

-- `observe` without its result, which is `status` of the new machine.
unfoldable pub observe : HealthFsm → Observation → HealthFsm
unfolding transition
observe f obs = transition f.state obs f

-- The monitor's loop: one observation after another.
unfoldable pub observe_all : HealthFsm → List Observation → HealthFsm
observe_all f [] = f
observe_all f (o ∷ os) = observe_all (observe f o) os
