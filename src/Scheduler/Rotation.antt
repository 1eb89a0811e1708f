-- ===== src/Scheduler/Rotation.antt =====
-- One call of the scheduler, and the state after many.
use l4_load_balancer_with_xd.Prelude.{
  ℕ, zero, suc, ◌+◌, ◌%◌, ◌<◌, ◌≡◌, refl, sym, ◌⊎◌, ◌∙◌, List, [], ◌∷◌, arith, u64_mod, inl, inr,
  ap,
}
use native.Mathlib.Nat.{add-zero, mod-eq_of_lt, mod-add-mod, mod_self}
use l4_load_balancer_with_xd.Scheduler.{
  Scheduler, ok, IsValid, SchedulerKind, create_backend_scheduler, select_next_backend_index,
}

-- The scheduler after `k` selections.
unfoldable pub after : ℕ → Scheduler → Scheduler
after zero s = s
after (suc k) s = after k (select_next_backend_index s).1

-- The indices of `k` selections in a row.
unfoldable pub selections : ℕ → Scheduler → List ℕ
selections zero s = []
selections (suc k) s = let (index, s') = select_next_backend_index s in index ∷ selections k s'

-- The pool that a scheduler is created for decides: an empty one is refused, and any other gives a
-- valid scheduler at index 0.
pub create_backend_scheduler-IsValid :
    (kind : SchedulerKind) (n : ℕ) {s : Scheduler}
    → n < u64_mod
    → create_backend_scheduler kind n ≡ ok s
    → IsValid s × (s.next_backend_index ≡ 0) × (s.backend_count ≡ n)
unfolding create_backend_scheduler
create_backend_scheduler-IsValid SchedulerKind.round_robin n h e = ground arith

pub select_next-IsValid : {s : Scheduler} → IsValid s → IsValid (select_next_backend_index s).1
unfolding select_next_backend_index
select_next-IsValid v = ground arith

pub after-IsValid : (k : ℕ) {s : Scheduler} → IsValid s → IsValid (after k s)
unfolding after
after-IsValid zero v = v
after-IsValid (suc k) v = after-IsValid k (select_next-IsValid v)

pub selected : (s : Scheduler) → (select_next_backend_index s).0 ≡ s.next_backend_index
unfolding select_next_backend_index
selected s = refl

pub backend_count-select_next :
    (s : Scheduler) → (select_next_backend_index s).1.backend_count ≡ s.backend_count
unfolding select_next_backend_index
backend_count-select_next s = refl

pub backend_count-after : (k : ℕ) (s : Scheduler) → (after k s).backend_count ≡ s.backend_count
unfolding after
backend_count-after zero s = refl
backend_count-after (suc k) s = backend_count-after k _ ∙ backend_count-select_next s

-- One selection moves to the next index, or from the last one back to 0.
pub next-select_next_cases :
    {s : Scheduler}
    → IsValid s
    → let index = (select_next_backend_index s).1.next_backend_index in
      ((s.next_backend_index + 1 < s.backend_count) × (index ≡ s.next_backend_index + 1))
      ⊎ ((s.next_backend_index + 1 ≡ s.backend_count) × (index ≡ 0))
unfolding select_next_backend_index
next-select_next_cases {s} v = ground arith

pub next-select_next :
    {s : Scheduler}
    → IsValid s
    → (select_next_backend_index s).1.next_backend_index
      ≡ (s.next_backend_index + 1) % s.backend_count
next-select_next {s} v = elim (next-select_next_cases v) [
  | inl (small, e) ↦ e ∙ sym (mod-eq_of_lt small)
  | inr (last, e) ↦ rw (last) (e ∙ sym (mod_self s.backend_count))
]

-- After `k` selections the next index is `k` further on, modulo the number of backends.
pub next-after :
    (k : ℕ) {s : Scheduler}
    → IsValid s
    → (after k s).next_backend_index ≡ (s.next_backend_index + k) % s.backend_count
unfolding after
next-after zero {s} v = rw add-zero (sym (mod-eq_of_lt v.in_range))
next-after (suc k) {s} v =
    next-after k (select_next-IsValid v)
    ∙ rw (next-select_next v, backend_count-select_next s, mod-add-mod)
        (ap (λ m. m % s.backend_count) (omega arith))
