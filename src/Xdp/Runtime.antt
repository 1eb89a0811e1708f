-- ===== src/Xdp/Runtime.antt =====
-- `RuntimeMapStore` of src/xdp/RuntimeMapStore.cpp: a snapshot is checked, written to a map of its
-- own, read back, frozen, and published through the one slot of the outer map. The kernel may refuse
-- any call and store another value. `Publish` is about the commit point.
pub mod Publish
use l4_load_balancer_with_xd.Prelude.{
  ℕ, zero, suc, ◌+◌, ◌≡◌, refl, sym, ap, ◌∙◌, Bool, true, false, not, ◌&&◌, ◌||◌, Option, none,
  some, List, [], ◌∷◌, arith, ltb, ◌==◌, if◌then◌else◌, u64_max, add64,
}
use l4_load_balancer_with_xd.Prelude.Exec.{Exec, pure, throw, gets, catch, modify, ◌>>=◌, ◌>>◌}
use l4_load_balancer_with_xd.Config.Endpoint.{Address, address_eq, zero_address}
use l4_load_balancer_with_xd.Xdp.Sync.{
  UdpDsrBackendValue, empty_dsr_backend, dsr_backend_eq, dsr_backend_eq_iff, valid_mac,
}

-- `backends` lists the 64 slots.
pub record UdpRuntimeSnapshot : Type 0 where
  pub schema_version : ℕ
  pub backend_count : ℕ
  pub generation : ℕ
  pub vip_address : Address
  pub vip_port : ℕ
  pub reserved : ℕ
  pub backends : List UdpDsrBackendValue

abbrev pub slots_eq : List UdpDsrBackendValue → List UdpDsrBackendValue → Bool
slots_eq [] [] = true
slots_eq (x ∷ xs) (y ∷ ys) = dsr_backend_eq x y && slots_eq xs ys
slots_eq _ _ = false

abbrev pub snapshot_eq : UdpRuntimeSnapshot → UdpRuntimeSnapshot → Bool
snapshot_eq a b =
    a.schema_version == b.schema_version
    && (a.backend_count == b.backend_count
        && (a.generation == b.generation
            && (address_eq a.vip_address b.vip_address
                && (a.vip_port == b.vip_port
                    && (a.reserved == b.reserved && slots_eq a.backends b.backends)))))

pub data RuntimeFault : Type 0 where
  invalid_snapshot call_failed readback_mismatch metadata_mismatch not_frozen : RuntimeFault
  -- `RuntimePublishError` with `committed`
  publish_error : RuntimeFault

-- The members that change, the descriptors that were closed, and what the kernel keeps: the contents
-- of the inner maps by descriptor, and the inner map in the slot of the outer one.
pub record RuntimeMapStore : Type 0 where
  pub active_fd : Option ℕ
  pub generation : ℕ
  pub closed : List ℕ
  pub contents : ℕ → UdpRuntimeSnapshot
  pub outer : Option ℕ
  pub calls : ℕ

-- The kernel's answers to the call of the given number.
pub record RuntimeKernel : Type 0 where
  pub fails : ℕ → Bool
  pub creates : ℕ → ℕ
  pub stores : ℕ → UdpRuntimeSnapshot → UdpRuntimeSnapshot
  pub metadata_matches : ℕ → Bool
  pub refuses_write : ℕ → Bool
  pub inner_id : ℕ → ℕ
  pub published_id : ℕ → ℕ

abbrev pub Action : Type 0 → Type 0
Action A = Exec RuntimeMapStore RuntimeFault A

-- The test on one slot: a backend below the count, or zeros.
abbrev pub valid_slot : Bool → UdpDsrBackendValue → Bool
valid_slot true b =
    not (b.ifindex == 0 || (not (valid_mac b.destination_mac) || not (valid_mac b.source_mac)))
valid_slot false b = dsr_backend_eq b empty_dsr_backend

abbrev pub valid_slots : ℕ → ℕ → List UdpDsrBackendValue → Bool
valid_slots index count [] = true
valid_slots index count (b ∷ bs) =
    valid_slot (ltb index count) b && valid_slots (suc index) count bs

unfoldable pub valid_candidate : UdpRuntimeSnapshot → ℕ → Bool
valid_candidate s generation =
    not (
      not (s.schema_version == 3)
      || (ltb 64 s.backend_count
          || (not (s.reserved == 0)
              || (generation == u64_max
                  || (not (s.generation == add64 generation 1)
                      || (address_eq s.vip_address zero_address || s.vip_port == 0))))))
    && valid_slots 0 s.backend_count s.backends

abbrev pub close_map : ℕ → RuntimeMapStore → RuntimeMapStore
close_map fd m = record m { closed = fd ∷ m.closed }

abbrev close_previous : Option ℕ → List ℕ → List ℕ
close_previous none closed = closed
close_previous (some fd) closed = fd ∷ closed

-- The commit point: the candidate becomes the active map, and the previous one is closed.
abbrev pub commit : ℕ → UdpRuntimeSnapshot → RuntimeMapStore → RuntimeMapStore
commit fd s m = record m {
  active_fd = some fd;
  generation = s.generation;
  closed = close_previous m.active_fd m.closed;
}

module _ (k : RuntimeKernel) where
  abbrev count_call : RuntimeMapStore → RuntimeMapStore
  count_call m = record m { calls = suc m.calls }

  -- A system call that throws the given fault where it fails; its number is the result.
  unfoldable pub system_call_or : RuntimeFault → Action ℕ
  system_call_or fault = do
    n ← gets (λ m. m.calls)
    modify count_call
    if k.fails n then throw fault else pure n

  unfoldable pub create_inner : Action ℕ
  unfolding system_call_or
  create_inner = do n ← system_call_or call_failed; pure (k.creates n)

  unfoldable pub write_snapshot : ℕ → UdpRuntimeSnapshot → Action (Unit {0})
  unfolding system_call_or
  write_snapshot fd s = do
    n ← system_call_or call_failed
    modify (λ m. record m { contents = λ i. if i == fd then k.stores n s else m.contents i })

  unfoldable pub check_snapshot : ℕ → UdpRuntimeSnapshot → Action (Unit {0})
  unfolding system_call_or
  check_snapshot fd s = do
    n ← system_call_or call_failed
    readback ← gets (λ m. m.contents fd)
    if snapshot_eq s readback then pure tt else throw readback_mismatch

  -- Freezing, the metadata with the identity of the map, and the proof that it is frozen: a write
  -- that is refused.
  unfoldable pub freeze_snapshot : Action ℕ
  unfolding system_call_or
  freeze_snapshot = do
    system_call_or call_failed
    n ← system_call_or call_failed
    if not (k.metadata_matches n) then throw metadata_mismatch else do
      attempted ← gets (λ m. m.calls)
      modify count_call
      if k.refuses_write attempted then pure (k.inner_id n) else throw not_frozen

  unfoldable pub set_outer : ℕ → Action (Unit {0})
  unfolding system_call_or
  set_outer fd = system_call_or call_failed >> modify (λ m. record m { outer = some fd })

  unfoldable pub fill_candidate : ℕ → UdpRuntimeSnapshot → Action ℕ
  unfolding write_snapshot check_snapshot freeze_snapshot set_outer
  fill_candidate fd s = do
    write_snapshot fd s
    check_snapshot fd s
    id ← freeze_snapshot
    set_outer fd
    pure id

  unfoldable pub verify_published : ℕ → Action (Unit {0})
  unfolding system_call_or
  verify_published id = do
    n ← system_call_or publish_error
    if k.published_id n == id then pure tt else throw publish_error

  unfoldable pub publish_snapshot : UdpRuntimeSnapshot → Action (Unit {0})
  unfolding create_inner fill_candidate verify_published
  publish_snapshot s = do
    generation ← gets (λ m. m.generation)
    if not (valid_candidate s generation) then throw invalid_snapshot else do
      fd ← create_inner
      id ← catch (fill_candidate fd s) (λ x. modify (close_map fd) >> throw x)
      modify (commit fd s)
      verify_published id
