-- ===== src/Scheduler.antt =====
-- Round-robin choice of a backend: src/core/BackendScheduler.cpp, src/core/RoundRobinScheduler.h,
-- and the eligible choice of src/control/HealthSelection.cpp. The modules below prove fairness,
-- the contract of the eligible choice, and hold the tests.
pub mod Rotation
pub mod Fairness
pub mod Eligible
mod Tests
use l4_load_balancer_with_xd.Prelude.{
  ℕ, zero, suc, ◌+◌, ◌<◌, ◌≡◌, Bool, true, false, not, ◌&&◌, ◌||◌, Option, none, some, List, [],
  ◌∷◌, arith, ◌==◌, if◌then◌else◌, length, get_elem?, add64, sub64, u64_mod,
}

-- `RoundRobinScheduler`
pub record Scheduler : Type 0 where
  pub backend_count : ℕ
  pub next_backend_index : ℕ

pub data Fault : Type 0 where
  empty_backend_pool out_of_range scheduler_did_not_visit : Fault

pub data Result (A : Type 0) : Type 0 where
  ok : A → Result A
  thrown : Fault → Result A

-- `SchedulerKind` has the one value `kRoundRobin`, so the switch has one case.
pub data SchedulerKind : Type 0 where
  round_robin : SchedulerKind

-- The constructor of `RoundRobinScheduler`
unfoldable pub round_robin_scheduler : ℕ → Result Scheduler
round_robin_scheduler backend_count =
    if backend_count == 0
    then thrown empty_backend_pool
    else ok (record { backend_count = backend_count; next_backend_index = 0 })

unfoldable pub create_backend_scheduler : SchedulerKind → ℕ → Result Scheduler
unfolding round_robin_scheduler
create_backend_scheduler round_robin backend_count = round_robin_scheduler backend_count

unfoldable pub select_next_backend_index : Scheduler → ℕ × Scheduler
select_next_backend_index s = (
  s.next_backend_index,
  record s {
    next_backend_index =
        if s.next_backend_index == sub64 s.backend_count 1 then 0 else add64 s.next_backend_index 1;
  },
)

-- `std::none_of` with `isBackendEligible`
unfoldable pub none_eligible : List Bool → Bool
none_eligible [] = true
none_eligible (b ∷ bs) = not b && none_eligible bs

-- The `for` loop, over the attempts left: `eligible.at` throws out of range.
unfoldable pub attempt_selection : ℕ → Scheduler → List Bool → Result (Option ℕ) × Scheduler
attempt_selection zero s eligible = (thrown scheduler_did_not_visit, s)
attempt_selection (suc attempts) s eligible =
    let (index, s') = select_next_backend_index s in
    elim (get_elem? eligible index) [
      | none ↦ (thrown out_of_range, s')
      | some true ↦ (ok (some index), s')
      | some false ↦ attempt_selection attempts s' eligible
    ]

unfoldable pub select_eligible_backend_index : Scheduler → List Bool → Result (Option ℕ) × Scheduler
select_eligible_backend_index s eligible =
    if none_eligible eligible then (ok none, s) else attempt_selection (length eligible) s eligible

-- What the constructor establishes, on a pool that fits `std::size_t`.
pub record IsValid (s : Scheduler) : Type 0 where
  pub in_range : s.next_backend_index < s.backend_count
  pub fits : s.backend_count < u64_mod
