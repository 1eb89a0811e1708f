-- ===== src/Health/History.antt =====
-- The health state machine against a specification that reads the whole history of results.
use mathlib.Core.Path.{subst}
use l4_load_balancer_with_xd.Prelude.{
  ℕ, suc, ◌≡◌, ◌≢◌, ◌↔◌, refl, ap, Bool, true, false, min, List, [], ◌∷◌, arith, leb, if◌then◌else◌,
}
use l4_load_balancer_with_xd.Health.{
  HealthStatus, unknown, healthy, unhealthy, HealthState, initial_state, apply_probe_result,
}

-- The state after the results in the list, the newest first.
unfoldable pub replay : List Bool → HealthState
replay [] = initial_state
replay (r ∷ rs) = (apply_probe_result (replay rs) r).0

-- How many of the newest results are successes in a row, and failures in a row.
abbrev pub success_run : List Bool → ℕ
success_run (true ∷ rs) = suc (success_run rs)
success_run _ = 0

abbrev pub failure_run : List Bool → ℕ
failure_run (false ∷ rs) = suc (failure_run rs)
failure_run _ = 0

-- Two successes in a row make a backend healthy, three failures in a row unhealthy; any other
-- result leaves it what it was.
abbrev pub verdict : List Bool → HealthStatus
verdict [] = unknown
verdict (r ∷ rs) =
    if leb 2 (success_run (r ∷ rs))
    then healthy
    else if leb 3 (failure_run (r ∷ rs))
    then unhealthy
    else verdict rs

-- After any history of probe results the counters are the lengths of the current runs, cut off at
-- the thresholds 2 and 3, and the status is the verdict on the history.
pub replay_lem :
    (rs : List Bool)
    → replay rs ≡ record {
      status = verdict rs;
      successes = min (success_run rs) 2;
      failures = min (failure_run rs) 3;
    }
unfolding replay apply_probe_result
replay_lem [] = refl
replay_lem (true ∷ rs) = ground (arith, replay_lem rs)
replay_lem (false ∷ rs) = ground (arith, replay_lem rs)

-- Whatever came before, the result of `applyProbeResult` is true for a probe result just when it
-- changes the verdict.
pub change_reported :
    (rs : List Bool) (r : Bool)
    → ((apply_probe_result (replay rs) r).1 ≡ true) ↔ (verdict (r ∷ rs) ≢ verdict rs)
unfolding apply_probe_result replay
change_reported rs r =
    let status_of = λ (qs : List Bool). ap (λ s. s.status) (replay_lem qs) in
    let before_after =
      λ (p q : HealthStatus). ((apply_probe_result (replay rs) r).1 ≡ true) ↔ (q ≢ p) in
    subst (λ p. before_after p (verdict (r ∷ rs))) (status_of rs)
      (subst (λ q. before_after (replay rs).status q) (status_of (r ∷ rs)) (reported r))
  where
    reported :
        (b : Bool)
        → ((apply_probe_result (replay rs) b).1 ≡ true)
          ↔ ((apply_probe_result (replay rs) b).0.status ≢ (replay rs).status)
    reported true = ground arith
    reported false = ground arith
