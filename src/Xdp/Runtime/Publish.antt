-- ===== src/Xdp/Runtime/Publish.antt =====
-- The one commit point of `publishSnapshot`.
use mathlib.Core.Path.{◌≡◌, refl}
use l4_load_balancer_with_xd.Prelude.{
  ◌≢◌, ℕ, suc, ◌+◌, ◌≤◌, ◌⊎◌, inl, inr, sym, ap, ◌∙◌, Bool, true, false, not, ◌&&◌, some, List, [],
  ◌∷◌, arith, ◌==◌, u64_max,
}
use l4_load_balancer_with_xd.Prelude.Exec.{Outcome, ok, thrown}
use l4_load_balancer_with_xd.Prelude.Exec.Triple.{
  Post, Triple, Triple-pure, Triple-throw, Triple-gets, Triple-if, Triple-catch, Triple-modify,
  Triple-bind,
}
use l4_load_balancer_with_xd.Xdp.Sync.{UdpDsrBackendValue, dsr_backend_eq, dsr_backend_eq_iff}
use l4_load_balancer_with_xd.Xdp.Runtime.{
  UdpRuntimeSnapshot, slots_eq, snapshot_eq, RuntimeFault, invalid_snapshot, call_failed,
  readback_mismatch, metadata_mismatch, not_frozen, publish_error, RuntimeMapStore, RuntimeKernel,
  Action, valid_candidate, close_map, system_call_or, create_inner, write_snapshot, check_snapshot,
  freeze_snapshot, set_outer, fill_candidate, verify_published, publish_snapshot,
}

slots_eq-same : (xs ys : List UdpDsrBackendValue) → slots_eq xs ys ≡ true → xs ≡ ys
slots_eq-same [] [] h = refl
slots_eq-same [] (y ∷ ys) h = absurd (cc)
slots_eq-same (x ∷ xs) [] h = absurd (cc)
slots_eq-same (x ∷ xs) (y ∷ ys) h =
    let rest = slots_eq-same xs ys in
    let first = (dsr_backend_eq_iff x y).0 in go (dsr_backend_eq x y) (slots_eq xs ys) h first rest
  where
    go :
        (a b : Bool)
        → (a && b) ≡ true
        → (a ≡ true → x ≡ y)
        → (b ≡ true → xs ≡ ys)
        → Path (List UdpDsrBackendValue) (x ∷ xs) (y ∷ ys)
    go true true h first rest = let e = first refl in let es = rest refl in cc
    go true false h first rest = absurd (cc)
    go false b h first rest = absurd (cc)

snapshot_eq-same : (a b : UdpRuntimeSnapshot) → snapshot_eq a b ≡ true → a ≡ b
snapshot_eq-same a b h = ground (arith, slots_eq-same a.backends b.backends)

module _ (s : UdpRuntimeSnapshot) (m : RuntimeMapStore) where
  -- Nothing was published.
  abbrev Same : RuntimeMapStore → Type 0
  Same t = (t.active_fd ≡ m.active_fd) × (t.generation ≡ m.generation) × (t.outer ≡ m.outer)

  -- The candidate stands in the outer map.
  abbrev Filled : ℕ → RuntimeMapStore → Type 0
  Filled fd t =
      (t.active_fd ≡ m.active_fd)
      × (t.generation ≡ m.generation)
      × (t.outer ≡ some fd)
      × (t.contents fd ≡ s)

  pub record IsCommitted (t : RuntimeMapStore) : Type 0 where
    pub fd : ℕ
    pub active : t.active_fd ≡ some fd
    pub published : t.outer ≡ some fd
    pub stored : t.contents fd ≡ s
    pub generation : t.generation ≡ m.generation + 1

  abbrev Rejected : RuntimeFault → RuntimeMapStore → Type 0
  Rejected publish_error t = ⊥
  Rejected _ t = Same t

  abbrev Left : RuntimeFault → RuntimeMapStore → Type 0
  Left publish_error t = IsCommitted t
  Left _ t = Same t

  Rejected-Left : (x : RuntimeFault) (t : RuntimeMapStore) → Rejected x t → Left x t
  Rejected-Left publish_error t p = elim p [ ]
  Rejected-Left invalid_snapshot t p = p
  Rejected-Left call_failed t p = p
  Rejected-Left readback_mismatch t p = p
  Rejected-Left metadata_mismatch t p = p
  Rejected-Left not_frozen t p = p

  -- A call changes only the number of calls.
  abbrev Calm : (RuntimeMapStore → Type 0) → Type 0
  Calm P = (t : RuntimeMapStore) → P t → P (record t { calls = suc t.calls })

  call_or :
      (k : RuntimeKernel) {P : RuntimeMapStore → Type 0}
      {E : RuntimeFault → RuntimeMapStore → Type 0} (fault : RuntimeFault)
      → Calm P
      → ((t : RuntimeMapStore) → P t → E fault t)
      → Triple P (system_call_or k fault) (λ _. P) E
  unfolding system_call_or
  call_or k {P} fault calm rejected = Triple-bind {M = λ _. P} (Triple-gets _ (λ t p. p)) (λ n.
      Triple-bind {M = λ _. P} (Triple-modify _ calm)
        (λ _. Triple-if (k.fails n) (λ _. Triple-throw _ rejected) (λ _. Triple-pure n (λ t p. p))))

  abbrev Read : ℕ → RuntimeMapStore → Type 0
  Read fd t = Same t × (t.contents fd ≡ s)

  fill-Filled :
      (k : RuntimeKernel) (fd : ℕ) → Triple Same (fill_candidate k fd s) (λ _. Filled fd) Rejected
  unfolding fill_candidate write_snapshot check_snapshot freeze_snapshot set_outer
  fill-Filled k fd =
      Triple-bind {M = λ _. Same}
        (Triple-bind {M = λ _. Same} (call_or k call_failed (λ t p. p) (λ t p. p))
          (λ n. Triple-modify _ (λ t p. p)))
        (λ _. Triple-bind {M = λ _. Read fd} check (λ _.
          Triple-bind {M = λ _. Read fd} freeze (λ id.
            Triple-bind {M = λ _. Filled fd}
              (Triple-bind {M = λ _. Read fd} (call_or k call_failed (λ t p. p) (λ t p. p.0))
                (λ n. Triple-modify _ (λ t ((a, g, o), c). (a, g, refl, c))))
              (λ _. Triple-pure id (λ t p. p)))))
    where
      check : Triple Same (check_snapshot k fd s) (λ _. Read fd) Rejected
      check =
          unfold check_snapshot in
          Triple-bind {M = λ _. Same} (call_or k call_failed (λ t p. p) (λ t p. p)) (λ n.
            Triple-bind {M = λ readback t. Same t × (t.contents fd ≡ readback)}
              (Triple-gets _ (λ t p. (p, refl)))
              (λ readback.
                Triple-if (snapshot_eq s readback)
                  (λ same.
                    Triple-pure tt (λ t (p, e). (p, e ∙ sym (snapshot_eq-same s readback same))))
                  (λ _. Triple-throw _ (λ t p. p.0))))

      freeze : Triple (Read fd) (freeze_snapshot k) (λ _. Read fd) Rejected
      freeze =
          unfold freeze_snapshot in
          Triple-bind {M = λ _. Read fd} (call_or k call_failed (λ t p. p) (λ t p. p.0)) (λ _.
            Triple-bind {M = λ _. Read fd} (call_or k call_failed (λ t p. p) (λ t p. p.0)) (λ n.
              Triple-if (not (k.metadata_matches n)) (λ _. Triple-throw _ (λ t p. p.0))
                (λ _. Triple-bind {M = λ _. Read fd} (Triple-gets _ (λ t p. p)) (λ attempted.
                  Triple-bind {M = λ _. Read fd} (Triple-modify _ (λ t p. p)) (λ _.
                    Triple-if (k.refuses_write attempted) (λ _. Triple-pure _ (λ t p. p))
                      (λ _. Triple-throw _ (λ t p. p.0)))))))

  next_generation : (g : ℕ) → not (valid_candidate s g) ≡ false → g ≤ u64_max → s.generation ≡ g + 1
  unfolding valid_candidate
  next_generation g valid fits = ground arith

  abbrev Known : ℕ → ℕ → RuntimeMapStore → Type 0
  Known g fd t = Filled fd t × (g ≡ m.generation)

  closing :
      (fd : ℕ) (x : RuntimeFault) (t : RuntimeMapStore) → Rejected x t → Rejected x (close_map fd t)
  closing fd publish_error t p = elim p [ ]
  closing fd invalid_snapshot t p = p
  closing fd call_failed t p = p
  closing fd readback_mismatch t p = p
  closing fd metadata_mismatch t p = p
  closing fd not_frozen t p = p

  still : Calm IsCommitted
  still t p = record {
    fd = p.fd;
    active = p.active;
    published = p.published;
    stored = p.stored;
    generation = p.generation;
  }

  verified :
      (k : RuntimeKernel) (id : ℕ)
      → Triple IsCommitted (verify_published k id) (λ _. IsCommitted) Left
  unfolding verify_published
  verified k id =
      Triple-bind {M = λ _. IsCommitted} (call_or k publish_error still (λ t p. p)) (λ n.
        Triple-if (k.published_id n == id) (λ _. Triple-pure tt (λ t p. p))
          (λ _. Triple-throw _ (λ t p. p)))

  -- A fact that does not depend on the state stays true.
  Triple-keep :
      {F : Type 0} {fd : ℕ} {action : Action ℕ}
      → Triple Same action (λ _. Filled fd) Rejected
      → Triple (λ t. Same t × F) action (λ _ t. Filled fd t × F) Rejected
  Triple-keep {F} {fd} {action} h = record { at = λ t (p, e). go (action t) e (h.at t p) }
    where
      go :
          (r : Outcome RuntimeFault ℕ × RuntimeMapStore)
          → F
          → Post (λ _. Filled fd) Rejected r
          → Post (λ _ t. Filled fd t × F) Rejected r
      go (ok a, t) e q = (q, e)
      go (thrown x, t) e q = q

  publish-Left :
      (k : RuntimeKernel)
      → m.generation ≤ u64_max
      → Triple (λ t. t ≡ m) (publish_snapshot k s) (λ _. IsCommitted) Left
  unfolding publish_snapshot create_inner verify_published
  publish-Left k fits =
      Triple-bind {M = λ g t. Same t × (g ≡ m.generation)}
        (Triple-gets _ (λ t e. rw e ((refl, refl, refl), refl)))
        (λ g.
          Triple-if (not (valid_candidate s g)) (λ _. Triple-throw _ (λ t p. p.0))
            (λ valid.
              Triple-bind {M = λ _ t. Same t × (g ≡ m.generation)}
                (Triple-bind {M = λ _ t. Same t × (g ≡ m.generation)}
                  (call_or k call_failed (λ t p. p) (λ t p. p.0)) (λ n. Triple-pure _ (λ t p. p)))
                (λ fd.
                  Triple-bind {M = λ _. Known g fd}
                    (Triple-catch {E' = Rejected}
                      (Triple-keep {F = g ≡ m.generation} (fill-Filled k fd))
                      (λ x.
                        Triple-bind {M = λ _. Rejected x} (Triple-modify _ (closing fd x))
                          (λ _. Triple-throw x (λ t p. Rejected-Left x t p))))
                    (λ id.
                      Triple-bind {M = λ _. IsCommitted}
                        (Triple-modify _ (λ t ((a, old, o, c), e). record {
                          fd = fd;
                          active = refl;
                          published = o;
                          stored = c;
                          generation = next_generation g valid (rw e fits) ∙ ap (λ n. n + 1) e;
                        }))
                        (λ _. verified k id)))))

abbrev Published :
    UdpRuntimeSnapshot
    → RuntimeMapStore
    → Outcome RuntimeFault (Unit {0})
    → RuntimeMapStore
    → Type 0
Published s m r t = ((r ≡ ok tt) ⊎ (r ≡ thrown publish_error)) × IsCommitted s m t

abbrev Unpublished : RuntimeMapStore → Outcome RuntimeFault (Unit {0}) → RuntimeMapStore → Type 0
Unpublished m r t =
    (r ≢ ok tt)
    × (r ≢ thrown publish_error)
    × (t.active_fd ≡ m.active_fd)
    × (t.generation ≡ m.generation)
    × (t.outer ≡ m.outer)

commit_or_none :
    (s : UdpRuntimeSnapshot) (m : RuntimeMapStore)
    (r : Outcome RuntimeFault (Unit {0}) × RuntimeMapStore)
    → Post (λ _. IsCommitted s m) (Left s m) r
    → Published s m r.0 r.1 ⊎ Unpublished m r.0 r.1
commit_or_none s m (ok a, t) p = inl (inl refl, p)
commit_or_none s m (thrown publish_error, t) p = inl (inr refl, p)
commit_or_none s m (thrown invalid_snapshot, t) p = inr ((λ e. cc), (λ e. cc), p.0, p.1, p.2)
commit_or_none s m (thrown call_failed, t) p = inr ((λ e. cc), (λ e. cc), p.0, p.1, p.2)
commit_or_none s m (thrown readback_mismatch, t) p = inr ((λ e. cc), (λ e. cc), p.0, p.1, p.2)
commit_or_none s m (thrown metadata_mismatch, t) p = inr ((λ e. cc), (λ e. cc), p.0, p.1, p.2)
commit_or_none s m (thrown not_frozen, t) p = inr ((λ e. cc), (λ e. cc), p.0, p.1, p.2)

-- Whichever calls the kernel refuses and whatever it stores, from a generation of 64 bits: either
-- the call returns, or throws the error that says the snapshot is published, and then one map is
-- the active one, stands in the outer map and holds exactly the snapshot, and the generation is
-- the next one; or it throws another error, and the active map, the generation and the outer map are
-- the ones before.
pub publish_snapshot_lem :
    (k : RuntimeKernel) (s : UdpRuntimeSnapshot) (m : RuntimeMapStore)
    → m.generation ≤ u64_max
    → let (r, t) = publish_snapshot k s m in
      (((r ≡ ok tt) ⊎ (r ≡ thrown publish_error)) × IsCommitted s m t)
      ⊎ ((r ≢ ok tt)
          × (r ≢ thrown publish_error)
          × (t.active_fd ≡ m.active_fd)
          × (t.generation ≡ m.generation)
          × (t.outer ≡ m.outer))
publish_snapshot_lem k s m fits =
    commit_or_none s m (publish_snapshot k s m) ((publish-Left s m k fits).at m refl)
