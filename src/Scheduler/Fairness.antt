-- ===== src/Scheduler/Fairness.antt =====
-- Fairness of the rotation: how often each backend is chosen in a run of selections.
use l4_load_balancer_with_xd.Prelude.{
  ℕ, zero, suc, ◌+◌, ◌-◌, ◌*◌, ◌≤◌, ◌<◌, ◌≡◌, ◌⊎◌, inl, inr, List, [], ◌∷◌, arith, ◌==◌, leb,
  if◌then◌else◌,
}
use l4_load_balancer_with_xd.Scheduler.{Scheduler, IsValid, select_next_backend_index}
use l4_load_balancer_with_xd.Scheduler.Rotation.{
  selections, select_next-IsValid, next-select_next_cases, backend_count-select_next, selected,
}

abbrev pub occurrences : ℕ → List ℕ → ℕ
occurrences i [] = 0
occurrences i (x ∷ xs) = if x == i then suc (occurrences i xs) else occurrences i xs

-- How many selections go by before backend `i` is chosen.
unfoldable pub distance : Scheduler → ℕ → ℕ
distance s i =
    if leb s.next_backend_index i
    then i - s.next_backend_index
    else i + s.backend_count - s.next_backend_index

-- A selection is of `i`, or brings it one closer.
pub select_next_distance :
    {s : Scheduler} (i : ℕ)
    → IsValid s
    → i < s.backend_count
    → ((s.next_backend_index ≡ i)
        × (distance s i ≡ 0)
        × (distance (select_next_backend_index s).1 i + 1 ≡ s.backend_count))
      ⊎ ((s.next_backend_index ≡ i → ⊥)
          × (distance s i ≡ distance (select_next_backend_index s).1 i + 1)
          × (distance s i < s.backend_count))
unfolding distance
select_next_distance {s} i v h =
    ground (arith, next-select_next_cases v, backend_count-select_next s)

module _ (k : ℕ) (s : Scheduler) (i : ℕ) where
  occurrences-hit :
      s.next_backend_index ≡ i
      → occurrences i (selections (suc k) s)
        ≡ suc (occurrences i (selections k (select_next_backend_index s).1))
  unfolding selections
  occurrences-hit e = ground (arith, selected s)

  occurrences-miss :
      (s.next_backend_index ≡ i → ⊥)
      → occurrences i (selections (suc k) s)
        ≡ occurrences i (selections k (select_next_backend_index s).1)
  unfolding selections
  occurrences-miss e = ground (arith, selected s, e)

occurrences_bounds :
    (k : ℕ) {s : Scheduler} (i : ℕ)
    → IsValid s
    → i < s.backend_count
    → (k ≤ occurrences i (selections k s) * s.backend_count + distance s i)
      × (occurrences i (selections k s) * s.backend_count + distance s i < k + s.backend_count)
unfolding selections
occurrences_bounds zero {s} i v h = ground (arith, select_next_distance i v h)
occurrences_bounds (suc k) {s} i v h =
    let within : i < (select_next_backend_index s).1.backend_count =
      rw (backend_count-select_next s) h in
    let rest =
      rw (backend_count-select_next s) at (occurrences_bounds k i (select_next-IsValid v) within) in
    elim (select_next_distance i v h) [
      | inl (e, now, next) ↦ rw (occurrences-hit k s i e) (omega (arith, rest))
      | inr (e, now, far) ↦ rw (occurrences-miss k s i e) (omega (arith, rest))
    ]

-- In `k` selections in a row, from any point of the rotation, each backend is chosen `k / n` times,
-- rounded down or up, where `n` is the number of backends.
pub fair_share :
    (k i : ℕ) {s : Scheduler}
    → IsValid s
    → i < s.backend_count
    → (k < occurrences i (selections k s) * s.backend_count + s.backend_count)
      × (occurrences i (selections k s) * s.backend_count < k + s.backend_count)
fair_share k i v h = ground (arith, occurrences_bounds k i v h, select_next_distance i v h)
