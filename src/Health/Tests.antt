-- ===== src/Health/Tests.antt =====
-- The health state machine on short histories.
use l4_load_balancer_with_xd.Prelude.{◌≡◌, ◌≢◌, ◌↔◌, refl, true, false, [], ◌∷◌}
use l4_load_balancer_with_xd.Health.{unknown, healthy, unhealthy, initial_state, apply_probe_result}
use l4_load_balancer_with_xd.Health.History.{replay, replay_lem, change_reported}

one_success_is_not_enough :
    (apply_probe_result initial_state true) ≡ (record initial_state { successes = 1 }, false)
unfolding apply_probe_result
one_success_is_not_enough = refl

third_failure_reports :
    (apply_probe_result (record { status = healthy; successes = 0; failures = 2 }) false)
    ≡ (record { status = unhealthy; successes = 0; failures = 3 }, true)
unfolding apply_probe_result
third_failure_reports = refl

-- The newest result first: healthy, then one failure.
replay_lem_example :
    replay (false ∷ true ∷ true ∷ true ∷ [])
    ≡ record { status = healthy; successes = 0; failures = 1 }
replay_lem_example = replay_lem (false ∷ true ∷ true ∷ true ∷ [])

change_reported_example :
    ((apply_probe_result (replay (true ∷ [])) true).1 ≡ true) ↔ (healthy ≢ unknown)
change_reported_example = change_reported (true ∷ []) true
