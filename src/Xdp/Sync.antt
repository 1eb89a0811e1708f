-- ===== src/Xdp/Sync.antt =====
-- `synchronizeXdpConfig` of src/control/XdpConfigSync.cpp and `synchronizeDsrConfig` of
-- src/control/DsrConfigSync.cpp: write everything, read it back, and freeze it.
pub mod Published
pub mod Succeeds
use l4_load_balancer_with_xd.Prelude.{
  ℕ, zero, suc, ◌+◌, ◌/◌, ◌≡◌, ◌↔◌, Bool, true, false, not, ◌&&◌, ◌||◌, Option, none, some, List,
  [], ◌∷◌, arith, ltb, ◌==◌, ◌%◌, if◌then◌else◌, length, get_elem?, Eq,
}
use l4_load_balancer_with_xd.Prelude.Exec.{Exec, pure, throw, ◌>>=◌, ◌>>◌}
use l4_load_balancer_with_xd.Config.Endpoint.{Address, address_eq, zero_address}
use l4_load_balancer_with_xd.Xdp.Maps.{
  Fault, too_many, invalid_configuration, invalid_backend, config_mismatch, backend_mismatch,
  KernelMaps, Kernel, Action, write_backend, write_config, read_backend, read_config,
  freeze_backends, freeze_config,
}

-- `L4LB_XDP_MAX_BACKENDS` and `L4LB_DSR_MAX_BACKENDS`
abbrev pub max_backends : ℕ
max_backends = 64

-- `index < backends.size() ? backends[index] : {}`
abbrev pub or_zero : {B : Type 0} → B → Option B → B
or_zero empty none = empty
or_zero empty (some b) = b

abbrev pub slot_value : {B : Type 0} → B → List B → ℕ → B
slot_value empty backends index = or_zero empty (get_elem? backends index)

module _ {C B : Type 0} ⦃ec : Eq C⦄ ⦃eb : Eq B⦄ (k : Kernel C B) (empty : B)
    (backends : List B) where
  -- The two `for` loops, over the rounds left.
  unfoldable pub write_slots : ℕ → ℕ → Action k (Unit {0})
  write_slots zero index = pure tt
  write_slots (suc left) index = do
    write_backend k index (slot_value empty backends index)
    write_slots left (suc index)

  unfoldable pub check_slots : ℕ → ℕ → Action k (Unit {0})
  check_slots zero index = pure tt
  check_slots (suc left) index = do
    actual ← read_backend k index
    if not (eb.beq actual (slot_value empty backends index))
        then throw (backend_mismatch index)
        else check_slots left (suc index)

  -- From the first write on.
  unfoldable pub publish : C → Action k (Unit {0})
  unfolding write_slots check_slots
  publish config = do
    write_slots max_backends 0
    write_config k config
    actual ← read_config k
    if not (ec.beq actual config)
        then throw config_mismatch
        else do check_slots max_backends 0; freeze_backends k; freeze_config k

pub record XdpConfigValue : Type 0 where
  pub schema_version : ℕ
  pub backend_count : ℕ

-- An address is kept as its four bytes in memory order.
pub record XdpBackendValue : Type 0 where
  pub address : Address
  pub port : ℕ
  pub reserved : ℕ

abbrev pub xdp_config_eq : XdpConfigValue → XdpConfigValue → Bool
xdp_config_eq a b = a.schema_version == b.schema_version && a.backend_count == b.backend_count

pub xdp_config_eq_iff : (a b : XdpConfigValue) → (xdp_config_eq a b ≡ true) ↔ (a ≡ b)
xdp_config_eq_iff a b = ground arith

instance abbrev pub xdp_config_instance : Eq XdpConfigValue
xdp_config_instance = record { beq = xdp_config_eq; beq_iff = xdp_config_eq_iff }

abbrev pub xdp_backend_eq : XdpBackendValue → XdpBackendValue → Bool
xdp_backend_eq a b =
    address_eq a.address b.address && (a.port == b.port && a.reserved == b.reserved)

pub xdp_backend_eq_iff : (a b : XdpBackendValue) → (xdp_backend_eq a b ≡ true) ↔ (a ≡ b)
xdp_backend_eq_iff a b = ground arith

instance abbrev pub xdp_backend_instance : Eq XdpBackendValue
xdp_backend_instance = record { beq = xdp_backend_eq; beq_iff = xdp_backend_eq_iff }

abbrev pub empty_xdp_backend : XdpBackendValue
empty_xdp_backend = record { address = zero_address; port = 0; reserved = 0 }

abbrev pub xdp_schema_version : ℕ
xdp_schema_version = 1

abbrev pub xdp_config_of : List XdpBackendValue → XdpConfigValue
xdp_config_of backends = record {
  schema_version = xdp_schema_version;
  backend_count = length backends;
}

unfoldable pub synchronize_xdp_config :
    (k : Kernel XdpConfigValue XdpBackendValue) → List XdpBackendValue → Action k (Unit {0})
synchronize_xdp_config k backends =
    if ltb max_backends (length backends)
    then throw too_many
    else publish k empty_xdp_backend backends (xdp_config_of backends)

pub record Mac : Type 0 where
  pub m0 : ℕ
  pub m1 : ℕ
  pub m2 : ℕ
  pub m3 : ℕ
  pub m4 : ℕ
  pub m5 : ℕ

pub record UdpDsrConfigValue : Type 0 where
  pub schema_version : ℕ
  pub backend_count : ℕ
  pub vip_address : Address
  pub vip_port : ℕ
  pub reserved : ℕ

pub record UdpDsrBackendValue : Type 0 where
  pub ifindex : ℕ
  pub destination_mac : Mac
  pub source_mac : Mac

abbrev pub mac_eq : Mac → Mac → Bool
mac_eq a b =
    a.m0 == b.m0
    && (a.m1 == b.m1 && (a.m2 == b.m2 && (a.m3 == b.m3 && (a.m4 == b.m4 && a.m5 == b.m5))))

mac_eq_iff : (a b : Mac) → (mac_eq a b ≡ true) ↔ (a ≡ b)
mac_eq_iff a b = ground arith

abbrev pub dsr_config_eq : UdpDsrConfigValue → UdpDsrConfigValue → Bool
dsr_config_eq a b =
    a.schema_version == b.schema_version
    && (a.backend_count == b.backend_count
        && (address_eq a.vip_address b.vip_address
            && (a.vip_port == b.vip_port && a.reserved == b.reserved)))

pub dsr_config_eq_iff : (a b : UdpDsrConfigValue) → (dsr_config_eq a b ≡ true) ↔ (a ≡ b)
dsr_config_eq_iff a b = ground arith

instance abbrev pub dsr_config_instance : Eq UdpDsrConfigValue
dsr_config_instance = record { beq = dsr_config_eq; beq_iff = dsr_config_eq_iff }

abbrev pub dsr_backend_eq : UdpDsrBackendValue → UdpDsrBackendValue → Bool
dsr_backend_eq a b =
    a.ifindex == b.ifindex
    && (mac_eq a.destination_mac b.destination_mac && mac_eq a.source_mac b.source_mac)

pub dsr_backend_eq_iff : (a b : UdpDsrBackendValue) → (dsr_backend_eq a b ≡ true) ↔ (a ≡ b)
dsr_backend_eq_iff a b = ground arith

instance abbrev pub dsr_backend_instance : Eq UdpDsrBackendValue
dsr_backend_instance = record { beq = dsr_backend_eq; beq_iff = dsr_backend_eq_iff }

abbrev pub zero_mac : Mac
zero_mac = record { m0 = 0; m1 = 0; m2 = 0; m3 = 0; m4 = 0; m5 = 0 }

abbrev pub empty_dsr_backend : UdpDsrBackendValue
empty_dsr_backend = record { ifindex = 0; destination_mac = zero_mac; source_mac = zero_mac }

abbrev pub dsr_schema_version : ℕ
dsr_schema_version = 2

-- `validMac`: a unicast address other than zero
abbrev pub valid_mac : Mac → Bool
valid_mac mac = mac.m0 % 2 == 0 && not (mac_eq mac zero_mac)

-- `address & 0xf0000000` is `0xe0000000`.
abbrev pub is_multicast : Address → Bool
is_multicast a = a.b0 / 16 == 14

abbrev pub valid_dsr_config : UdpDsrConfigValue → List UdpDsrBackendValue → Bool
valid_dsr_config config backends = not (
    not (config.schema_version == dsr_schema_version)
    || (not (config.backend_count == length backends)
        || (not (config.reserved == 0)
            || (config.vip_port == 0
                || (address_eq config.vip_address zero_address
                    || (address_eq config.vip_address
                          (record { b0 = 255; b1 = 255; b2 = 255; b3 = 255 })
                        || is_multicast config.vip_address))))))

abbrev pub valid_dsr_backends : List UdpDsrBackendValue → Bool
valid_dsr_backends [] = true
valid_dsr_backends (b ∷ bs) =
    not (b.ifindex == 0 || (not (valid_mac b.destination_mac) || not (valid_mac b.source_mac)))
    && valid_dsr_backends bs

unfoldable pub synchronize_dsr_config :
    (k : Kernel UdpDsrConfigValue UdpDsrBackendValue)
    → UdpDsrConfigValue
    → List UdpDsrBackendValue
    → Action k (Unit {0})
synchronize_dsr_config k config backends =
    if ltb max_backends (length backends)
    then throw too_many
    else if not (valid_dsr_config config backends)
    then throw invalid_configuration
    else if not (valid_dsr_backends backends)
    then throw invalid_backend
    else publish k empty_dsr_backend backends config
