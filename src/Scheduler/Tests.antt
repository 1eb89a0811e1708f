-- ===== src/Scheduler/Tests.antt =====
-- The scheduler on a pool of three backends, at the second one.
use l4_load_balancer_with_xd.Prelude.{
  ℕ, ◌+◌, ◌*◌, ◌<◌, ◌≡◌, ◌≢◌, refl, ◌⊎◌, Bool, true, false, none, some, List, [], ◌∷◌, arith,
  get_elem?,
}
use l4_load_balancer_with_xd.Scheduler.{
  Scheduler, ok, thrown, empty_backend_pool, out_of_range, IsValid, SchedulerKind,
  create_backend_scheduler, select_next_backend_index, none_eligible, attempt_selection,
  select_eligible_backend_index,
}
use l4_load_balancer_with_xd.Scheduler.Rotation.{selections}
use l4_load_balancer_with_xd.Scheduler.Fairness.{occurrences, fair_share}
use l4_load_balancer_with_xd.Scheduler.Eligible.{Chosen, select_eligible_lem}

abbrev three : Scheduler
three = record { backend_count = 3; next_backend_index = 1 }

abbrev fresh : Scheduler
fresh = record { backend_count = 3; next_backend_index = 0 }

three-IsValid : IsValid three
three-IsValid = record { in_range = omega arith; fits = omega arith }

abbrev last_only : List Bool
last_only = false ∷ false ∷ true ∷ []

wraps_around : selections 4 three ≡ 1 ∷ 2 ∷ 0 ∷ 1 ∷ []
unfolding selections select_next_backend_index
wraps_around = refl

skips_ineligible :
    select_eligible_backend_index three (true ∷ false ∷ false ∷ []) ≡ (ok (some 0), three)
unfolding select_eligible_backend_index none_eligible attempt_selection select_next_backend_index
skips_ineligible = refl

short_flags_throw : (select_eligible_backend_index three (true ∷ [])).0 ≡ thrown out_of_range
unfolding select_eligible_backend_index none_eligible attempt_selection select_next_backend_index
short_flags_throw = refl

empty_pool_throws : create_backend_scheduler SchedulerKind.round_robin 0 ≡ thrown empty_backend_pool
unfolding create_backend_scheduler
empty_pool_throws = refl

fair_share_example :
    (7 < occurrences 2 (selections 7 three) * 3 + 3)
    × (occurrences 2 (selections 7 three) * 3 < 7 + 3)
fair_share_example = fair_share 7 2 {s = three} three-IsValid (omega arith)

select_eligible_lem_example :
    (((i : ℕ) → get_elem? last_only i ≢ some true)
      × (select_eligible_backend_index three last_only ≡ (ok none, three)))
    ⊎ ((j : ℕ) × (j < 3) × Chosen three last_only (select_eligible_backend_index three last_only) j)
select_eligible_lem_example = select_eligible_lem {s = three} last_only three-IsValid refl
