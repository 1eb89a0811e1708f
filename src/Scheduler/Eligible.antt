-- ===== src/Scheduler/Eligible.antt =====
-- The choice among eligible backends: `selectEligibleBackendIndex` of
-- src/control/HealthSelection.cpp against the order of the rotation.
use mathlib.Core.Logic.{◌≢◌}
use native.Mathlib.Nat.{mod-eq_of_lt, mod-eq-sub-mod}
use l4_load_balancer_with_xd.Prelude.{
  ℕ, zero, suc, ◌+◌, ◌-◌, ◌<◌, ◌≡◌, refl, sym, ◌∙◌, ◌⊎◌, inl, inr, Bool, true, false, Option, none,
  some, List, [], ◌∷◌, arith, length, get_elem?, Bool-cases, Option-cases,
}
use l4_load_balancer_with_xd.Scheduler.{
  Scheduler, Result, ok, IsValid, select_next_backend_index, none_eligible, attempt_selection,
  select_eligible_backend_index,
}
use l4_load_balancer_with_xd.Scheduler.Rotation.{
  after, select_next-IsValid, backend_count-select_next, next-after,
}
use l4_load_balancer_with_xd.Scheduler.Fairness.{distance, select_next_distance}

-- The index that the selection after `j` others would return.
abbrev pub candidate : Scheduler → ℕ → ℕ
candidate s j = (after j s).next_backend_index

-- Selection `j` is the first of an eligible backend, the call returns it, and it has consumed just
-- the selections up to that one.
pub record Chosen (s : Scheduler) (eligible : List Bool) (r : Result (Option ℕ) × Scheduler) (j : ℕ)
    : Type 0 where
  pub returned : r ≡ (ok (some (candidate s j)), after (suc j) s)
  pub is_eligible : get_elem? eligible (candidate s j) ≡ some true
  pub is_first : (i : ℕ) → i < j → get_elem? eligible (candidate s i) ≡ some false

get_elem?-in_range : (bs : List Bool) (i : ℕ) → i < length bs → get_elem? bs i ≢ none
get_elem?-in_range [] i h e = elim h [ ]
get_elem?-in_range (b ∷ bs) zero h e = cc
get_elem?-in_range (b ∷ bs) (suc i) h e = get_elem?-in_range bs i (omega arith) e

module _ (attempts : ℕ) (s : Scheduler) (eligible : List Bool) where
  attempt_here :
      get_elem? eligible s.next_backend_index ≡ some true
      → Chosen s eligible (attempt_selection (suc attempts) s eligible) 0
  unfolding attempt_selection select_next_backend_index after
  attempt_here e = record { returned = ground arith; is_eligible = e; is_first = λ i h. elim h [ ] }

  attempt_later :
      (j : ℕ)
      → get_elem? eligible s.next_backend_index ≡ some false
      → Chosen
          (select_next_backend_index s).1
          eligible
          (attempt_selection attempts (select_next_backend_index s).1 eligible)
          j
      → Chosen s eligible (attempt_selection (suc attempts) s eligible) (suc j)
  unfolding attempt_selection select_next_backend_index after
  attempt_later j e c = record {
    returned = rw (e, attempt_selection) (c.returned);
    is_eligible = c.is_eligible;
    is_first = elim [ zero ↦ λ h. e | suc i ↦ λ h. c.is_first i (omega arith) ];
  }

-- An eligible backend that the rotation reaches in `j0` more selections is enough.
attempt_selection_lem :
    (attempts : ℕ) {s : Scheduler} (eligible : List Bool) (j0 : ℕ)
    → IsValid s
    → length eligible ≡ s.backend_count
    → j0 < attempts
    → get_elem? eligible (candidate s j0) ≡ some true
    → (j : ℕ) × (j < attempts) × Chosen s eligible (attempt_selection attempts s eligible) j
attempt_selection_lem zero eligible j0 v len h e = elim h [ ]
attempt_selection_lem (suc attempts) {s} eligible zero v len h e =
    (0, omega arith, attempt_here attempts s eligible (unfold after in e))
attempt_selection_lem (suc attempts) {s} eligible (suc j0) v len h e =
    elim (Option-cases (get_elem? eligible s.next_backend_index)) [
      | inl e' ↦ absurd (get_elem?-in_range eligible _ (omega (arith, v.in_range)) e')
      | inr (true, e') ↦ (0, omega arith, attempt_here attempts s eligible e')
      | inr (false, e') ↦
          let (j, small, c) =
            attempt_selection_lem attempts eligible j0 (select_next-IsValid v)
              (len ∙ sym (backend_count-select_next s)) (omega arith) (unfold after in e) in
          (suc j, omega arith, attempt_later attempts s eligible j e' c)
    ]

none_eligible-get_elem? :
    (bs : List Bool) (i : ℕ) → none_eligible bs ≡ true → get_elem? bs i ≢ some true
unfolding none_eligible
none_eligible-get_elem? [] i h e = cc
none_eligible-get_elem? (b ∷ bs) zero h e = ground arith
none_eligible-get_elem? (b ∷ bs) (suc i) h e = none_eligible-get_elem? bs i (ground arith) e

some_eligible :
    (bs : List Bool)
    → none_eligible bs ≡ false
    → (i : ℕ) × (i < length bs) × (get_elem? bs i ≡ some true)
unfolding none_eligible
some_eligible [] h = cc
some_eligible (true ∷ bs) h = (0, omega arith, refl)
some_eligible (false ∷ bs) h = let (i, small, e) = some_eligible bs h in (suc i, omega arith, e)

-- The rotation comes to backend `i` after `distance s i` selections.
candidate-distance :
    {s : Scheduler} (i : ℕ) → IsValid s → i < s.backend_count → candidate s (distance s i) ≡ i
unfolding distance
candidate-distance {s} i v h = ground (
  arith,
  next-after (i - s.next_backend_index) v,
  next-after (i + s.backend_count - s.next_backend_index) v,
  mod-eq_of_lt h,
  mod-eq-sub-mod {n = i + s.backend_count} {m = s.backend_count} (omega arith),
)

-- With one flag for each backend, the call never throws. Either no backend is eligible, and the
-- result is empty and the rotation does not move; or the result is the first eligible backend in
-- the order of the rotation, found within one round, and the rotation goes on behind it.
pub select_eligible_lem :
    {s : Scheduler} (eligible : List Bool)
    → IsValid s
    → length eligible ≡ s.backend_count
    → (((i : ℕ) → get_elem? eligible i ≢ some true)
        × (select_eligible_backend_index s eligible ≡ (ok none, s)))
      ⊎ ((j : ℕ) × (j < s.backend_count)
          × Chosen s eligible (select_eligible_backend_index s eligible) j)
unfolding select_eligible_backend_index
select_eligible_lem {s} eligible v len = elim (Bool-cases (none_eligible eligible)) [
  | inl e ↦ inl ((λ i. none_eligible-get_elem? eligible i e), rw e)
  | inr e ↦
      let (i, small, hit) = some_eligible eligible e in
      let reached = candidate-distance i v (omega arith) in
      let close : distance s i < length eligible =
        ground (arith, select_next_distance i v (omega arith)) in
      let (j, soon, c) =
        attempt_selection_lem (length eligible) eligible (distance s i) v len close
          (rw reached hit) in
      inr (j, omega arith, rw e c)
]
