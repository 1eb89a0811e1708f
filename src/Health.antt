-- ===== src/Health.antt =====
-- Health of the backends. This module is src/health/HealthState.h, the state machine over the
-- results of probes; `History` compares it with the run lengths of the results.
pub mod History
mod Tests
use l4_load_balancer_with_xd.Prelude.{
  ℕ, ◌+◌, ◌≤◌, ◌≡◌, Bool, true, false, not, min, ◌==◌, if◌then◌else◌, add32,
}

pub data HealthStatus : Type 0 where
  unknown healthy unhealthy : HealthStatus

pub record HealthState : Type 0 where
  pub status : HealthStatus
  pub successes : ℕ
  pub failures : ℕ

abbrev pub initial_state : HealthState
initial_state = record { status = unknown; successes = 0; failures = 0 }

-- `before != status`
unfoldable pub differs : HealthStatus → HealthStatus → Bool
differs unknown unknown = false
differs healthy healthy = false
differs unhealthy unhealthy = false
differs _ _ = true

-- The counters are `unsigned`, so the increment is modulo 2^32.
unfoldable pub apply_probe_result : HealthState → Bool → HealthState × Bool
unfolding differs
apply_probe_result s true =
    let successes = min (add32 s.successes 1) 2 in
    let status = if successes == 2 then healthy else s.status in
    (record { status = status; successes = successes; failures = 0 }, differs s.status status)
apply_probe_result s false =
    let failures = min (add32 s.failures 1) 3 in
    let status = if failures == 3 then unhealthy else s.status in
    (record { status = status; successes = 0; failures = failures }, differs s.status status)
