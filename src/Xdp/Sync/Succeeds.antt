-- ===== src/Xdp/Sync/Succeeds.antt =====
-- With a kernel that accepts every call and stores what it is given, publishing succeeds.
use mathlib.Core.Path.{◌≡◌, refl}
use l4_load_balancer_with_xd.Prelude.{
  ℕ, zero, suc, ◌+◌, ◌≤◌, ◌<◌, ◌∙◌, Bool, true, false, not, List, arith, ltb, ◌==◌, if◌then◌else◌,
  length, Eq, Bool-cases, inl, inr,
}
use l4_load_balancer_with_xd.Prelude.Exec.{Outcome, ok, thrown}
use l4_load_balancer_with_xd.Prelude.Exec.Triple.{
  Post, Triple, Triple-pure, Triple-throw, Triple-gets, Triple-if, Triple-weaken, Triple-modify,
  Triple-bind,
}
use l4_load_balancer_with_xd.Xdp.Maps.{
  Fault, KernelMaps, Kernel, system_call, write_backend, write_config, read_backend, read_config,
  freeze_backends, freeze_config,
}
use l4_load_balancer_with_xd.Xdp.Sync.{
  max_backends, slot_value, write_slots, check_slots, publish, XdpConfigValue, XdpBackendValue,
  empty_xdp_backend, xdp_config_of, synchronize_xdp_config, xdp_config_instance,
  xdp_backend_instance,
}

pub record IsHonest {C B : Type 0} (k : Kernel C B) : Type 0 where
  pub never_fails : (n : ℕ) → k.fails n ≡ false
  pub keeps_config : (n : ℕ) (c : C) → k.stores_config n c ≡ c
  pub keeps_backend : (n : ℕ) (b : B) → k.stores_backend n b ≡ b

module _ {C B : Type 0} ⦃ec : Eq C⦄ ⦃eb : Eq B⦄ (k : Kernel C B) (honest : IsHonest k) (empty : B)
    (backends : List B) where
  abbrev Never : Fault → KernelMaps C B → Type 0
  Never x m = ⊥

  -- What does not depend on the number of calls.
  abbrev Maps : Type 1
  Maps = C → (ℕ → B) → Bool → Bool → Type 0

  abbrev Has : Maps → KernelMaps C B → Type 0
  Has P m = P m.config m.backends m.config_frozen m.backends_frozen

  call-Has : (P : Maps) → Triple (Has P) (system_call k) (λ _. Has P) Never
  unfolding system_call
  call-Has P = Triple-bind {M = λ _. Has P} (Triple-gets _ (λ m p. p)) (λ n.
      Triple-bind {M = λ _. Has P} (Triple-modify _ (λ m p. p)) (λ _.
        Triple-if (k.fails n) (λ fails. Triple-throw _ (λ m p. absurd (cc (honest.never_fails n))))
          (λ _. Triple-pure n (λ m p. p))))

  -- The slots below `index` are written, and nothing is frozen.
  abbrev Written : ℕ → Maps
  Written index config' backends' config_frozen backends_frozen =
      (config_frozen ≡ false)
      × (backends_frozen ≡ false)
      × ((i : ℕ) → i < index → backends' i ≡ slot_value empty backends i)

  write_slots-Written :
      (left index : ℕ)
      → Triple
          (Has (Written index))
          (write_slots k empty backends left index)
          (λ _. Has (Written (left + index)))
          Never
  unfolding write_slots write_backend
  write_slots-Written zero index =
      Triple-pure tt (λ m (cf, bf, s). (cf, bf, λ i h. s i (omega arith)))
  write_slots-Written (suc left) index =
      Triple-bind {M = λ _. Has (Written (suc index))}
        (Triple-bind {M = λ _. Has (Written index)} (call-Has (Written index)) (λ n.
          Triple-bind {M = λ frozen m. Has (Written index) m × (frozen ≡ false)}
            (Triple-gets _ (λ m p. (p, p.1)))
            (λ frozen.
              Triple-if frozen (λ f. Triple-throw _ (λ m p. absurd (cc (p.1))))
                (λ _. Triple-modify _ (λ m ((cf, bf, s), e). (cf, bf, written n m s))))))
        (λ _.
          Triple-weaken (write_slots-Written left (suc index)) (λ m p. p)
            (λ a m (cf, bf, s). (cf, bf, λ i h. s i (omega arith))) (λ x m p. p))
    where
      written :
          (n : ℕ) (m : KernelMaps C B)
          → ((i : ℕ) → i < index → m.backends i ≡ slot_value empty backends i)
          → (i : ℕ) → i < suc index
          → (if i == index
              then k.stores_backend n (slot_value empty backends index)
              else m.backends i)
            ≡ slot_value empty backends i
      written n m s i h = elim (Bool-cases (i == index)) [
        | inl here ↦
            let eq : i ≡ index = ground arith in rw here (honest.keeps_backend n _ ∙ rw eq refl)
        | inr below ↦ rw below (s i (ground arith))
      ]

  check_slots-Written :
      (left index : ℕ)
      → left + index ≤ max_backends
      → Triple
          (Has (Written max_backends))
          (check_slots k empty backends left index)
          (λ _. Has (Written max_backends))
          Never
  unfolding check_slots read_backend
  check_slots-Written zero index h = Triple-pure tt (λ m p. p)
  check_slots-Written (suc left) index h =
      Triple-bind
        {M = λ actual m. Has (Written max_backends) m × (actual ≡ slot_value empty backends index)}
        (Triple-bind {M = λ _. Has (Written max_backends)} (call-Has (Written max_backends))
          (λ n. Triple-gets _ (λ m (cf, bf, s). ((cf, bf, s), s index (omega arith)))))
        (λ actual.
          Triple-if (not (eb.beq actual (slot_value empty backends index)))
            (λ wrong. Triple-throw _ (λ m (p, e). absurd (differs actual e wrong)))
            (λ _.
              Triple-weaken (check_slots-Written left (suc index) (omega arith)) (λ m p. p.0)
                (λ a m p. p) (λ x m p. p)))
    where
      differs :
          (actual : B)
          → actual ≡ slot_value empty backends index
          → not (eb.beq actual (slot_value empty backends index)) ≡ true
          → ⊥
      differs actual e wrong =
          let same = (eb.beq_iff actual (slot_value empty backends index)).1 e in ground arith

  abbrev ConfigOpen : Maps
  ConfigOpen config' backends' config_frozen backends_frozen = config_frozen ≡ false

  abbrev BothOpen : Maps
  BothOpen config' backends' config_frozen backends_frozen =
      (config_frozen ≡ false) × (backends_frozen ≡ false)

  freeze_backends-Succeeds : Triple (Has BothOpen) (freeze_backends k) (λ _. Has ConfigOpen) Never
  unfolding freeze_backends
  freeze_backends-Succeeds = Triple-bind {M = λ _. Has BothOpen} (call-Has BothOpen) (λ n.
      Triple-bind {M = λ frozen m. Has BothOpen m × (frozen ≡ false)}
        (Triple-gets _ (λ m p. (p, p.1)))
        (λ frozen.
          Triple-if frozen (λ f. Triple-throw _ (λ m p. absurd (cc (p.1))))
            (λ _. Triple-modify _ (λ m p. p.0.0))))

  freeze_config-Succeeds : Triple (Has ConfigOpen) (freeze_config k) (λ _ m. Unit {0}) Never
  unfolding freeze_config
  freeze_config-Succeeds = Triple-bind {M = λ _. Has ConfigOpen} (call-Has ConfigOpen) (λ n.
      Triple-bind {M = λ frozen m. frozen ≡ false} (Triple-gets _ (λ m p. p)) (λ frozen.
        Triple-if frozen (λ f. Triple-throw _ (λ m p. absurd (cc)))
          (λ _. Triple-modify _ (λ m p. tt))))

  publish-Succeeds :
      (config : C)
      → Triple (Has (Written 0)) (publish k empty backends config) (λ _ m. Unit {0}) Never
  unfolding publish write_config read_config
  publish-Succeeds config =
      Triple-bind {M = λ _. Has (Written max_backends)}
        (Triple-weaken (write_slots-Written max_backends 0) (λ m p. p)
          (λ a m (cf, bf, s). (cf, bf, λ i h. s i (omega arith))) (λ x m p. p))
        (λ _.
          Triple-bind {M = λ _ m. Has (Written max_backends) m × (m.config ≡ config)} write (λ _.
            Triple-bind {M = λ actual m. Has (Written max_backends) m × (actual ≡ config)}
              (Triple-bind {M = λ _. Has Stored} (call-Has Stored) (λ n. Triple-gets _ (λ m p. p)))
              (λ actual.
                Triple-if (not (ec.beq actual config))
                  (λ wrong. Triple-throw _ (λ m (p, e).
                    absurd (let same = (ec.beq_iff actual config).1 e in ground arith)))
                  (λ _.
                    Triple-bind {M = λ _. Has (Written max_backends)}
                      (Triple-weaken (check_slots-Written max_backends 0 (omega arith)) (λ m p. p.0)
                        (λ a m p. p) (λ x m p. p))
                      (λ _.
                        Triple-bind {M = λ _. Has ConfigOpen}
                          (Triple-weaken freeze_backends-Succeeds (λ m p. (p.0, p.1)) (λ a m p. p)
                            (λ x m p. p))
                          (λ _. freeze_config-Succeeds))))))
    where
      Stored : Maps
      Stored config' backends' config_frozen backends_frozen =
          Written max_backends config' backends' config_frozen backends_frozen × (config' ≡ config)

      write :
          Triple
            (Has (Written max_backends))
            (write_config k config)
            (λ _ m. Has (Written max_backends) m × (m.config ≡ config))
            Never
      write =
          Triple-bind {M = λ _. Has (Written max_backends)} (call-Has (Written max_backends)) (λ n.
            Triple-bind {M = λ frozen m. Has (Written max_backends) m × (frozen ≡ false)}
              (Triple-gets _ (λ m p. (p, p.0)))
              (λ frozen.
                Triple-if frozen (λ f. Triple-throw _ (λ m p. absurd (cc (p.1))))
                  (λ _. Triple-modify _ (λ m (p, e). (p, honest.keeps_config n config)))))

-- With a kernel that refuses no call and keeps what it stores, and maps that are not frozen yet, a
-- configuration of at most 64 backends is published without an exception.
pub synchronize_xdp_total :
    (k : Kernel XdpConfigValue XdpBackendValue) (backends : List XdpBackendValue)
    (m : KernelMaps XdpConfigValue XdpBackendValue)
    → IsHonest k
    → length backends ≤ 64
    → m.config_frozen ≡ false
    → m.backends_frozen ≡ false
    → (synchronize_xdp_config k backends m).0 ≡ ok tt
unfolding synchronize_xdp_config
synchronize_xdp_total k backends m honest few cf bf =
    let fits : ltb max_backends (length backends) ≡ false = ground arith in
    rw fits (
      go (publish k empty_xdp_backend backends (xdp_config_of backends) m) (
        (publish-Succeeds k honest empty_xdp_backend backends (xdp_config_of backends)).at m
          (cf, bf, λ i h. absurd (omega arith))))
  where
    go :
        (rt : Outcome Fault (Unit {0}) × KernelMaps XdpConfigValue XdpBackendValue)
        → Post (λ _ t. Unit {0}) (λ _ t. ⊥) rt
        → rt.0 ≡ ok tt
    go (ok u, t) p = refl
    go (thrown x, t) p = elim p [ ]
