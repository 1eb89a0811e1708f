-- ===== src/Prelude/Map.antt =====
-- `std::unordered_map` as an association list. The order of the list is the order in which the
-- code's loops over a map visit it, and no law below depends on it.
use Prim.Native.Nat.{◌+◌, ◌≤◌, ◌<◌}
use mathlib.Core.Path.{◌≡◌, refl, ap, sym, ◌∙◌}
use mathlib.Core.Logic.{◌⊎◌, inl, inr}
use mathlib.Core.Bool.{true, false}
use mathlib.Core.Option.{Option, none, some}
use mathlib.Core.List.{List, [], ◌∷◌}
use native.Mathlib.Omega.{arith}
use l4_load_balancer_with_xd.Prelude.Tests.{if◌then◌else◌, Option-cases, Bool-cases}
use l4_load_balancer_with_xd.Prelude.Lists.{length}
use l4_load_balancer_with_xd.Prelude.Equality.{Eq}

abbrev pub Map {ℓ κ} : Type ℓ → Type κ → Type (ℓ ⊔ κ)
Map K V = List (K × V)

pub beq_self {ℓ} : {K : Type ℓ} ⦃e : Eq K⦄ (k : K) → e.beq k k ≡ true
beq_self ⦃e⦄ k = (e.beq_iff k k).1 refl

module _ {ℓ κ} {K : Type ℓ} {V : Type κ} ⦃e : Eq K⦄ where
  unfoldable pub find : K → Map K V → Option V
  find k [] = none
  find k ((j, v) ∷ m) = if e.beq j k then some v else find k m

  unfoldable pub erase : K → Map K V → Map K V
  erase k [] = []
  erase k ((j, v) ∷ m) = let rest = erase k m in if e.beq j k then rest else (j, v) ∷ rest

  -- `emplace` leaves an entry that is there already.
  unfoldable pub emplace : K → V → Map K V → Map K V
  emplace k v m = elim (find k m) [ none ↦ (k, v) ∷ m | some _ ↦ m ]

  -- `m[k] = v`
  unfoldable pub assign : K → V → Map K V → Map K V
  assign k v [] = (k, v) ∷ []
  assign k v ((j, w) ∷ m) = if e.beq j k then (k, v) ∷ m else (j, w) ∷ assign k v m

  -- The change that a loop or a call makes to an entry through a reference to it.
  unfoldable pub update : K → (V → V) → Map K V → Map K V
  update k f [] = []
  update k f ((j, v) ∷ m) = if e.beq j k then (j, f v) ∷ m else (j, v) ∷ update k f m

  pub find-erase_self : (k : K) (m : Map K V) → find k (erase k m) ≡ none
  unfolding find erase
  find-erase_self k [] = refl
  find-erase_self k ((j, v) ∷ m) = ground (arith, find-erase_self k m)

  pub find-erase_ne : (j k : K) (m : Map K V) → e.beq k j ≡ false → find j (erase k m) ≡ find j m
  unfolding find erase
  find-erase_ne j k [] h = refl
  find-erase_ne j k ((i, v) ∷ m) h =
      ground (arith, find-erase_ne j k m h, e.beq_iff i k, e.beq_iff i j, e.beq_iff k j)

  pub find-emplace_self :
      (k : K) (v : V) (m : Map K V) → find k m ≡ none → find k (emplace k v m) ≡ some v
  unfolding emplace find
  find-emplace_self k v m h = rw (h, emplace) (ground (arith, beq_self k))

  pub find-emplace_ne :
      (j k : K) (v : V) (m : Map K V) → e.beq k j ≡ false → find j (emplace k v m) ≡ find j m
  unfolding emplace find
  find-emplace_ne j k v m h = elim (Option-cases (find k m)) [
    | inl p ↦ rw (p, emplace) (rw h)
    | inr (w, p) ↦ rw (p, emplace)
  ]

  pub length-emplace :
      (k : K) (v : V) (m : Map K V) → find k m ≡ none → length (emplace k v m) ≡ length m + 1
  unfolding emplace
  length-emplace k v m h = rw (h, emplace) (omega arith)

  pub length-erase-le : (k : K) (m : Map K V) → length (erase k m) ≤ length m
  unfolding erase
  length-erase-le k [] = omega arith
  length-erase-le k ((j, v) ∷ m) = ground (arith, length-erase-le k m)

  pub length-erase-lt :
      (k : K) (v : V) (m : Map K V) → find k m ≡ some v → length (erase k m) < length m
  unfolding erase find
  length-erase-lt k v [] h = cc
  length-erase-lt k v ((j, w) ∷ m) h = ground (arith, length-erase-lt k v m, length-erase-le k m)

  pub erase-none : (k : K) (m : Map K V) → find k m ≡ none → erase k m ≡ m
  unfolding erase find
  erase-none k [] h = refl
  erase-none k ((j, v) ∷ m) h =
      let e = λ (p : find k m ≡ none). erase-none k m p in ground (arith, e)

  pub erase-emplace : (k : K) (v : V) (m : Map K V) → find k m ≡ none → erase k (emplace k v m) ≡ m
  unfolding emplace erase
  erase-emplace k v m h = rw (h, emplace) (rw (beq_self k) (erase-none k m h))

  pub find-update_self :
      (k : K) (f : V → V) (m : Map K V) (v : V)
      → find k m ≡ some v
      → find k (update k f m) ≡ some (f v)
  unfolding find update
  find-update_self k f [] v h = cc
  find-update_self k f ((j, w) ∷ m) v h = elim (Bool-cases (e.beq j k)) [
    | inl same ↦
        rw same (rw same (ap (λ o. elim o [ none ↦ none | some x ↦ some (f x) ]) (rw same at h)))
    | inr other ↦ rw other (rw other (find-update_self k f m v (rw other at h)))
  ]

  pub find-update_ne :
      (j k : K) (f : V → V) (m : Map K V) → e.beq k j ≡ false → find j (update k f m) ≡ find j m
  unfolding find update
  find-update_ne j k f [] h = refl
  find-update_ne j k f ((i, v) ∷ m) h =
      ground (arith, find-update_ne j k f m h, e.beq_iff i k, e.beq_iff i j, e.beq_iff k j)

  pub length-update : (k : K) (f : V → V) (m : Map K V) → length (update k f m) ≡ length m
  unfolding update
  length-update k f [] = refl
  length-update k f ((j, v) ∷ m) = ground (arith, length-update k f m)

  pub find-update-none :
      (k : K) (f : V → V) (m : Map K V) → find k m ≡ none → find k (update k f m) ≡ none
  unfolding find update
  find-update-none k f [] h = refl
  find-update-none k f ((j, v) ∷ m) h = let e = find-update-none k f m in ground (arith, e)

  pub update-none : (k : K) (f : V → V) (m : Map K V) → find k m ≡ none → update k f m ≡ m
  unfolding find update
  update-none k f [] h = refl
  update-none k f ((j, v) ∷ m) h =
      let e = λ (p : find k m ≡ none). update-none k f m p in ground (arith, e)

  -- What an entry of an updated map was before.
  pub find-update_cases :
      (j k : K) (f : V → V) (m : Map K V) (x y : V)
      → find k m ≡ some x
      → find j (update k f m) ≡ some y
      → ((k ≡ j) × (y ≡ f x)) ⊎ ((e.beq k j ≡ false) × (find j m ≡ some y))
  find-update_cases j k f m x y hx hy = elim (Bool-cases (e.beq k j)) [
    | inl same ↦
        let e = (e.beq_iff k j).0 same in
        let p = find-update_self k f m x hx in
        let q : some y ≡ some (f x) = sym hy ∙ ap (λ i. find i (update k f m)) (sym e) ∙ p in
        inl (e, cc)
    | inr differs ↦ inr (differs, sym (find-update_ne j k f m differs) ∙ hy)
  ]

  -- What is left after an erasure was there, at another key.
  pub find-erase-some :
      (j k : K) (m : Map K V) (v : V)
      → find j (erase k m) ≡ some v
      → (e.beq k j ≡ false) × (find j m ≡ some v)
  find-erase-some j k m v h = elim (Bool-cases (e.beq k j)) [
    | inl same ↦
        let p = find-erase_self k m in
        let q = ap (λ i. find i (erase k m)) ((e.beq_iff k j).0 same) in absurd (cc)
    | inr differs ↦ (differs, sym (find-erase_ne j k m differs) ∙ h)
  ]

  pub find-erase-none : (j k : K) (m : Map K V) → find j m ≡ none → find j (erase k m) ≡ none
  find-erase-none j k m h = elim (Bool-cases (e.beq k j)) [
    | inl same ↦ rw ((e.beq_iff k j).0 same) (find-erase_self j m)
    | inr other ↦ rw (find-erase_ne j k m other) h
  ]
