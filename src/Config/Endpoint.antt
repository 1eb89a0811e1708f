-- ===== src/Config/Endpoint.antt =====
-- `Endpoint` of src/config/Config.h, `parseIpv4Endpoint` of src/config/Config.cpp, and
-- `formatEndpoint` of src/control/TcpService.cpp and src/control/UdpService.cpp, which have the
-- same text.
pub mod RoundTrip
use l4_load_balancer_with_xd.Prelude.{
  ℕ, zero, suc, ◌+◌, ◌≤◌, ◌<◌, ◌≡◌, ◌≢◌, ◌↔◌, refl, Bool, true, false, not, ◌&&◌, ◌||◌, Option,
  none, some, List, [], ◌∷◌, ◌++◌, arith, ltb, leb, ◌==◌, if◌then◌else◌, drop, Eq,
}
use l4_load_balancer_with_xd.Config.Bytes.{Bytes, find_byte, before, is_some}
use l4_load_balancer_with_xd.Config.Decimal.{parse_unsigned_decimal, to_string}

-- `std::array<std::uint8_t, 4>`
pub record Address : Type 0 where
  pub b0 : ℕ
  pub b1 : ℕ
  pub b2 : ℕ
  pub b3 : ℕ

pub record Endpoint : Type 0 where
  pub address : Address
  pub port : ℕ

abbrev pub zero_address : Address
zero_address = record { b0 = 0; b1 = 0; b2 = 0; b3 = 0 }

abbrev pub address_eq : Address → Address → Bool
address_eq a b = a.b0 == b.b0 && (a.b1 == b.b1 && (a.b2 == b.b2 && a.b3 == b.b3))

abbrev pub endpoint_eq : Endpoint → Endpoint → Bool
endpoint_eq a b = address_eq a.address b.address && a.port == b.port

pub endpoint_eq_iff : (a b : Endpoint) → (endpoint_eq a b ≡ true) ↔ (a ≡ b)
endpoint_eq_iff a b = ground arith

instance abbrev pub endpoint_instance : Eq Endpoint
endpoint_instance = record { beq = endpoint_eq; beq_iff = endpoint_eq_iff }

-- `result.address[index] = …`
set_octet : ℕ → ℕ → Address → Address
set_octet zero v a = record a { b0 = v }
set_octet (suc zero) v a = record a { b1 = v }
set_octet (suc (suc zero)) v a = record a { b2 = v }
set_octet _ v a = record a { b3 = v }

-- `(addressOctetIndex < 3) != (dot != npos)`
dot_mismatch : ℕ → Option ℕ → Bool
dot_mismatch index dot = if ltb index 3 then not (is_some dot) else is_some dot

-- `address.remove_prefix(dot + 1)`, which runs only where a dot was found
after_dot : Option ℕ → Bytes → Bytes
after_dot none address = address
after_dot (some dot) address = drop (dot + 1) address

-- The `for` loop, over the octets left.
unfoldable pub parse_octets : ℕ → ℕ → Bytes → Address → Option Address
unfolding set_octet dot_mismatch after_dot
parse_octets zero index address result = some result
parse_octets (suc left) index address result =
    let dot = find_byte b'.' address in
    if dot_mismatch index dot
    then none
    else elim (parse_unsigned_decimal (before dot address) 255) [
      | none ↦ none
      | some part ↦
          parse_octets left (suc index) (if ltb index 3 then after_dot dot address else address)
            (set_octet index part result)
    ]

-- The addresses that a configuration may not name.
unfoldable pub forbidden_address : Address → Bool → Bool
forbidden_address a backend =
    (leb 224 a.b0 && leb a.b0 239)
    || (address_eq a (record { b0 = 255; b1 = 255; b2 = 255; b3 = 255 })
        || (backend && address_eq a zero_address))

checked_endpoint : ℕ → Bool → Option Address → Option Endpoint
unfolding forbidden_address
checked_endpoint port backend none = none
checked_endpoint port backend (some address) =
    if forbidden_address address backend
    then none
    else some (record { address = address; port = port })

-- From the colon on.
parse_at_colon : Bytes → Bool → Option ℕ → Option Endpoint
unfolding checked_endpoint
parse_at_colon value backend none = none
parse_at_colon value backend (some colon) =
    elim (parse_unsigned_decimal (drop (colon + 1) value) 65535) [
      | none ↦ none
      | some zero ↦ none
      | some (suc port) ↦
          checked_endpoint (suc port) backend
            (parse_octets 4 0 (before (some colon) value) zero_address)
    ]

unfoldable pub parse_ipv4_endpoint : Bytes → Bool → Option Endpoint
unfolding parse_at_colon
parse_ipv4_endpoint value backend = parse_at_colon value backend (find_byte b':' value)

unfoldable pub format_address : Address → Bytes
format_address a =
    to_string a.b0 ++ b'.' ∷ (to_string a.b1 ++ b'.' ∷ (to_string a.b2 ++ b'.' ∷ to_string a.b3))

unfoldable pub format_endpoint : Endpoint → Bytes
unfolding format_address
format_endpoint e = format_address e.address ++ b':' ∷ to_string e.port

-- The machine types of the fields.
pub record IsWord (e : Endpoint) : Type 0 where
  pub octet0 : e.address.b0 < 256
  pub octet1 : e.address.b1 < 256
  pub octet2 : e.address.b2 < 256
  pub octet3 : e.address.b3 < 256
  pub port16 : e.port < 65536
