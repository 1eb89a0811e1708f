-- ===== src/Xdp/Sync/Published.antt =====
-- A configuration is frozen only as it was given, whatever the kernel refuses or stores.
use mathlib.Core.Path.{◌≡◌, refl}
use l4_load_balancer_with_xd.Prelude.{
  ℕ, zero, suc, ◌+◌, ◌<◌, ◌≤◌, ◌≢◌, ◌⊎◌, inl, inr, ◌∙◌, Bool, true, false, not, List, arith, ltb,
  ◌==◌, length, Eq, Bool-cases,
}
use l4_load_balancer_with_xd.Prelude.Exec.{Outcome, ok, thrown, ◌>>◌}
use l4_load_balancer_with_xd.Prelude.Exec.Triple.{
  Post, Triple, Triple-pure, Triple-throw, Triple-gets, Triple-if, Triple-weaken, Triple-modify,
  Triple-bind,
}
use l4_load_balancer_with_xd.Xdp.Maps.{
  Fault, KernelMaps, Kernel, system_call, write_backend, write_config, read_backend, read_config,
  freeze_backends, freeze_config,
}
use l4_load_balancer_with_xd.Xdp.Sync.{
  max_backends, slot_value, write_slots, check_slots, publish, XdpConfigValue, XdpBackendValue,
  empty_xdp_backend, xdp_config_of, synchronize_xdp_config, UdpDsrConfigValue, UdpDsrBackendValue,
  empty_dsr_backend, valid_dsr_config, valid_dsr_backends, synchronize_dsr_config,
  xdp_config_instance, xdp_backend_instance, dsr_config_instance, dsr_backend_instance,
}

-- The maps hold the configuration, with every slot from the first of the given backends on, the
-- empty value behind them, and both maps frozen.
pub record IsPublished {C B : Type 0} (config : C) (empty : B) (backends : List B)
    (m : KernelMaps C B) : Type 0 where
  pub config_stored : m.config ≡ config
  pub slots : (i : ℕ) → i < max_backends → m.backends i ≡ slot_value empty backends i
  pub config_frozen : m.config_frozen ≡ true
  pub backends_frozen : m.backends_frozen ≡ true

module _ {C B : Type 0} (k : Kernel C B) where
  abbrev Maps : Type 1
  Maps = C → (ℕ → B) → Bool → Bool → Type 0

  abbrev Has : Maps → KernelMaps C B → Type 0
  Has P m = P m.config m.backends m.config_frozen m.backends_frozen

  abbrev Open : KernelMaps C B → Type 0
  Open m = m.config_frozen ≡ false

  -- A system call changes none of the maps.
  system_call-Has :
      (P : Maps)
      → ((m : KernelMaps C B) → Has P m → Open m)
      → Triple (Has P) (system_call k) (λ _. Has P) (λ _. Open)
  unfolding system_call
  system_call-Has P still_open = Triple-bind {M = λ _. Has P} (Triple-gets _ (λ m p. p)) (λ n.
      Triple-bind {M = λ _. Has P} (Triple-modify _ (λ m p. p)) (λ _.
        Triple-if (k.fails n) (λ _. Triple-throw _ still_open) (λ _. Triple-pure n (λ m p. p))))

  abbrev Unfrozen : Maps
  Unfrozen config backends config_frozen backends_frozen = config_frozen ≡ false

  module _ ⦃ec : Eq C⦄ ⦃eb : Eq B⦄ (empty : B) (backends : List B) where
    write_slots-Open :
        (left index : ℕ)
        → Triple Open (write_slots k empty backends left index) (λ _. Open) (λ _. Open)
    unfolding write_slots write_backend
    write_slots-Open zero index = Triple-pure tt (λ m p. p)
    write_slots-Open (suc left) index =
        Triple-bind {M = λ _. Open}
          (Triple-bind {M = λ _. Open} (system_call-Has Unfrozen (λ m p. p)) (λ n.
            Triple-bind {M = λ _. Open} (Triple-gets _ (λ m p. p)) (λ frozen.
              Triple-if frozen (λ _. Triple-throw _ (λ m p. p)) (λ _. Triple-modify _ (λ m p. p)))))
          (λ _. write_slots-Open left (suc index))

    write_config-Open : (config : C) → Triple Open (write_config k config) (λ _. Open) (λ _. Open)
    unfolding write_config
    write_config-Open config =
        Triple-bind {M = λ _. Open} (system_call-Has Unfrozen (λ m p. p)) (λ n.
          Triple-bind {M = λ _. Open} (Triple-gets _ (λ m p. p)) (λ frozen.
            Triple-if frozen (λ _. Triple-throw _ (λ m p. p)) (λ _. Triple-modify _ (λ m p. p))))

    module _ (config : C) where
      -- The configuration and the slots below `index` were found as expected.
      abbrev Checked : ℕ → Bool → Maps
      Checked index frozen config' backends' config_frozen backends_frozen =
          (config_frozen ≡ false)
          × (config' ≡ config)
          × ((i : ℕ) → i < index → backends' i ≡ slot_value empty backends i)
          × (frozen ≡ true → backends_frozen ≡ true)

      check_slots-Checked :
          (left index : ℕ)
          → Triple
              (Has (Checked index false))
              (check_slots k empty backends left index)
              (λ _. Has (Checked (left + index) false))
              (λ _. Open)
      unfolding check_slots read_backend
      check_slots-Checked zero index =
          Triple-pure tt (λ m (unfrozen, c, s, f). (unfrozen, c, (λ i h. s i (omega arith)), f))
      check_slots-Checked (suc left) index =
          Triple-bind {M = λ actual m. Has (Checked index false) m × (m.backends index ≡ actual)}
            (Triple-bind {M = λ _. Has (Checked index false)}
              (system_call-Has (Checked index false) (λ m p. p.0))
              (λ n. Triple-gets _ (λ m p. (p, refl))))
            (λ actual.
              Triple-if (not (eb.beq actual (slot_value empty backends index)))
                (λ _. Triple-throw _ (λ m p. p.0.0))
                (λ same.
                  Triple-weaken (check_slots-Checked left (suc index))
                    (λ m ((unfrozen, c, s, f), e). (unfrozen, c, (λ i h. next m s e same i h), f))
                    (λ a m (unfrozen, c, s, f). (unfrozen, c, (λ i h. s i (omega arith)), f))
                    (λ x m p. p)))
        where
          next :
              {actual : B} (m : KernelMaps C B)
              → ((i : ℕ) → i < index → m.backends i ≡ slot_value empty backends i)
              → m.backends index ≡ actual
              → not (eb.beq actual (slot_value empty backends index)) ≡ false
              → (i : ℕ) → i < suc index
              → m.backends i ≡ slot_value empty backends i
          next {actual} m s e same i h = elim (Bool-cases (i == index)) [
            | inl here ↦
                let eq : i ≡ index = ground arith in
                rw eq (e ∙ (eb.beq_iff actual (slot_value empty backends index)).0 (ground arith))
            | inr below ↦ s i (ground arith)
          ]

      freeze-Published :
          Triple
            (Has (Checked max_backends false))
            (freeze_backends k >> freeze_config k)
            (λ _. IsPublished config empty backends)
            (λ _. Open)
      unfolding freeze_backends freeze_config
      freeze-Published =
          Triple-bind {M = λ _. Has (Checked max_backends true)}
            (Triple-bind {M = λ _. Has (Checked max_backends false)}
              (system_call-Has (Checked max_backends false) (λ m p. p.0))
              (λ n.
                Triple-bind {M = λ _. Has (Checked max_backends false)} (Triple-gets _ (λ m p. p))
                  (λ frozen.
                    Triple-if frozen (λ _. Triple-throw _ (λ m p. p.0))
                      (λ _.
                        Triple-modify _ (λ m (unfrozen, c, s, f). (unfrozen, c, s, λ t. refl))))))
            (λ _.
              Triple-bind {M = λ _. Has (Checked max_backends true)}
                (system_call-Has (Checked max_backends true) (λ m p. p.0))
                (λ n.
                  Triple-bind {M = λ _. Has (Checked max_backends true)} (Triple-gets _ (λ m p. p))
                    (λ frozen.
                      Triple-if frozen (λ _. Triple-throw _ (λ m p. p.0))
                        (λ _. Triple-modify _ (λ m (unfrozen, c, s, f). record {
                          config_stored = c;
                          slots = s;
                          config_frozen = refl;
                          backends_frozen = f refl;
                        })))))

      publish-Published :
          Triple Open
            (publish k empty backends config)
            (λ _. IsPublished config empty backends)
            (λ _. Open)
      unfolding publish read_config
      publish-Published = Triple-bind {M = λ _. Open} (write_slots-Open max_backends 0) (λ _.
          Triple-bind {M = λ _. Open} (write_config-Open config) (λ _.
            Triple-bind {M = λ actual m. Open m × (m.config ≡ actual)}
              (Triple-bind {M = λ _. Open} (system_call-Has Unfrozen (λ m p. p))
                (λ n. Triple-gets _ (λ m p. (p, refl))))
              (λ actual.
                Triple-if (not (ec.beq actual config)) (λ _. Triple-throw _ (λ m p. p.0))
                  (λ same.
                    Triple-bind {M = λ _. Has (Checked max_backends false)}
                      (Triple-weaken (check_slots-Checked max_backends 0)
                        (λ m (unfrozen, e). (
                          unfrozen,
                          e ∙ (ec.beq_iff actual config).0 (ground arith),
                          (λ i h. absurd (omega arith)),
                          λ t. absurd (cc),
                        ))
                        (λ a m (unfrozen, c, s, f). (unfrozen, c, (λ i h. s i (omega arith)), f))
                        (λ x m p. p))
                      (λ _. freeze-Published)))))

-- Where the configuration map is not frozen yet, the call either returns, and then there are at most
-- 64 backends, the maps hold just them, their number, and empty slots behind them, and are frozen;
-- or it throws, and the configuration map is still not frozen. Which call the kernel refuses and
-- what it stores instead of the given values makes no difference.
pub synchronize_xdp_lem :
    (k : Kernel XdpConfigValue XdpBackendValue) (backends : List XdpBackendValue)
    (m : KernelMaps XdpConfigValue XdpBackendValue)
    → m.config_frozen ≡ false
    → let (r, t) = synchronize_xdp_config k backends m in
      ((r ≡ ok tt)
        × (length backends ≤ 64)
        × IsPublished (xdp_config_of backends) empty_xdp_backend backends t)
      ⊎ ((r ≢ ok tt) × (t.config_frozen ≡ false))
synchronize_xdp_lem k backends m unfrozen =
    go (synchronize_xdp_config k backends m) (run.at m unfrozen)
  where
    Stored : KernelMaps XdpConfigValue XdpBackendValue → Type 0
    Stored t =
        (length backends ≤ 64) × IsPublished (xdp_config_of backends) empty_xdp_backend backends t

    run : Triple (Open k) (synchronize_xdp_config k backends) (λ _. Stored) (λ _. Open k)
    run =
        unfold synchronize_xdp_config in
        Triple-if (ltb max_backends (length backends)) (λ _. Triple-throw _ (λ m p. p))
          (λ few.
            Triple-weaken (publish-Published k empty_xdp_backend backends (xdp_config_of backends))
              (λ m p. p) (λ a m p. (ground arith, p)) (λ x m p. p))

    go :
        (rt : Outcome Fault (Unit {0}) × KernelMaps XdpConfigValue XdpBackendValue)
        → Post (λ _. Stored) (λ _. Open k) rt
        → ((rt.0 ≡ ok tt)
            × (length backends ≤ 64)
            × IsPublished (xdp_config_of backends) empty_xdp_backend backends rt.1)
          ⊎ ((rt.0 ≢ ok tt) × (rt.1.config_frozen ≡ false))
    go (ok u, t) (few, p) = inl (refl, few, p)
    go (thrown x, t) p = inr ((λ e. cc), p)

abbrev Good :
    UdpDsrConfigValue
    → List UdpDsrBackendValue
    → KernelMaps UdpDsrConfigValue UdpDsrBackendValue
    → Type 0
Good config backends t =
    (length backends ≤ 64)
    × IsPublished config empty_dsr_backend backends t
    × (valid_dsr_config config backends ≡ true)
    × (valid_dsr_backends backends ≡ true)

-- Where the configuration map is not frozen yet, the publication of a configuration for direct
-- server return either returns, and then the configuration and its backends are valid, there are at
-- most 64 of them, and the maps hold just them, with empty slots behind the backends, and are
-- frozen; or it throws, and the configuration map is still not frozen.
pub synchronize_dsr_lem :
    (k : Kernel UdpDsrConfigValue UdpDsrBackendValue) (config : UdpDsrConfigValue)
    (backends : List UdpDsrBackendValue) (m : KernelMaps UdpDsrConfigValue UdpDsrBackendValue)
    → m.config_frozen ≡ false
    → let (r, t) = synchronize_dsr_config k config backends m in
      ((r ≡ ok tt)
        × (length backends ≤ 64)
        × IsPublished config empty_dsr_backend backends t
        × (valid_dsr_config config backends ≡ true)
        × (valid_dsr_backends backends ≡ true))
      ⊎ ((r ≢ ok tt) × (t.config_frozen ≡ false))
synchronize_dsr_lem k config backends m unfrozen =
    go (synchronize_dsr_config k config backends m) (run.at m unfrozen)
  where
    run :
        Triple
          (Open k)
          (synchronize_dsr_config k config backends)
          (λ _. Good config backends)
          (λ _. Open k)
    run =
        unfold synchronize_dsr_config in
        Triple-if (ltb max_backends (length backends)) (λ _. Triple-throw _ (λ m p. p))
          (λ few.
            Triple-if (not (valid_dsr_config config backends)) (λ _. Triple-throw _ (λ m p. p))
              (λ vc.
                Triple-if (not (valid_dsr_backends backends)) (λ _. Triple-throw _ (λ m p. p))
                  (λ vb.
                    Triple-weaken (publish-Published k empty_dsr_backend backends config) (λ m p. p)
                      (λ a m p. (ground arith, p, ground arith, ground arith)) (λ x m p. p))))

    go :
        (rt : Outcome Fault (Unit {0}) × KernelMaps UdpDsrConfigValue UdpDsrBackendValue)
        → Post (λ _. Good config backends) (λ _. Open k) rt
        → ((rt.0 ≡ ok tt)
            × (length backends ≤ 64)
            × IsPublished config empty_dsr_backend backends rt.1
            × (valid_dsr_config config backends ≡ true)
            × (valid_dsr_backends backends ≡ true))
          ⊎ ((rt.0 ≢ ok tt) × (rt.1.config_frozen ≡ false))
    go (ok u, t) (few, p, vc, vb) = inl (refl, few, p, vc, vb)
    go (thrown x, t) p = inr ((λ e. cc), p)
