-- ===== src/Udp/Packet.antt =====
-- `parsePacketMetadata` of src/net/UdpReactor.cpp, over what the kernel filled in of a `msghdr`.
use l4_load_balancer_with_xd.Prelude.{
  ℕ, zero, suc, ◌≡◌, ◌↔◌, refl, ap, Bool, true, not, ◌&&◌, ◌||◌, Option, none, some, List, [], ◌∷◌,
  arith, ltb, ◌==◌, if◌then◌else◌,
}
use l4_load_balancer_with_xd.Config.Endpoint.{Address, Endpoint, address_eq, zero_address}
use l4_load_balancer_with_xd.Udp.Flow.{UdpFlowKey, is_unicast_address}

-- A `cmsghdr` with the payload read as `in_pktinfo`; `left` is the number of bytes from the header
-- to the end of the control buffer.
pub record Control : Type 0 where
  pub level : ℕ
  pub type : ℕ
  pub len : ℕ
  pub left : ℕ
  pub addr : Address
  pub spec_dst : Address

pub record Message : Type 0 where
  pub name_len : ℕ
  pub family : ℕ
  pub from : Endpoint
  pub control_truncated : Bool
  pub control : List Control

abbrev sockaddr_len : ℕ
sockaddr_len = 16

abbrev af_inet : ℕ
af_inet = 2

abbrev ipproto_ip : ℕ
ipproto_ip = 0

abbrev ip_pktinfo : ℕ
ip_pktinfo = 8

-- `CMSG_LEN(sizeof(in_pktinfo))`
abbrev pktinfo_len : ℕ
pktinfo_len = 28

abbrev pub is_pktinfo : Control → Bool
is_pktinfo c = c.level == ipproto_ip && c.type == ip_pktinfo

-- The tests on a packet information before it is counted, and after.
abbrev pub acceptable : Control → Bool
acceptable c =
    not (ltb c.left pktinfo_len || not (c.len == pktinfo_len))
    && (is_unicast_address c.addr && address_eq c.addr c.spec_dst)

-- The loop over the control messages, with `found` and the address that was last copied; `none` is
-- `return false`.
unfoldable pub scan_control : List Control → ℕ → Address → Option (ℕ × Address)
scan_control [] found local = some (found, local)
scan_control (c ∷ cs) found local =
    let skipped = scan_control cs found local in
    let taken = scan_control cs (suc found) c.addr in
    if not (is_pktinfo c)
    then skipped
    else if ltb c.left pktinfo_len || not (c.len == pktinfo_len)
    then none
    else if not (suc found == 1)
        || (not (is_unicast_address c.addr) || not (address_eq c.addr c.spec_dst))
    then none
    else taken

abbrev pub sender_ok : Message → Bool
sender_ok m =
    not (
      ltb m.name_len sockaddr_len
      || (not (m.family == af_inet) || (m.from.port == 0 || m.control_truncated)))
    && is_unicast_address m.from.address

-- After the loop: exactly one packet information, for the listener's address.
key_if : Address → Endpoint → Option (ℕ × Address) → Option UdpFlowKey
key_if listen client none = none
key_if listen client (some (found, local)) =
    if found == 1 && (address_eq listen zero_address || address_eq listen local)
    then some (record { client = client; local_address = local })
    else none

unfoldable pub parse_packet_metadata : Address → Message → Option UdpFlowKey
unfolding key_if
parse_packet_metadata listen m =
    if not (sender_ok m) then none else key_if listen m.from (scan_control m.control 0 zero_address)

-- The packet informations among the control messages.
abbrev pub pktinfos : List Control → List Control
pktinfos [] = []
pktinfos (c ∷ cs) = if is_pktinfo c then c ∷ pktinfos cs else pktinfos cs

-- What the loop comes to, read off the packet informations.
abbrev scanned : List Control → ℕ → Address → Option (ℕ × Address)
scanned [] found local = some (found, local)
scanned (c ∷ cs) found local =
    let rest = scanned cs 1 c.addr in if found == 0 && acceptable c then rest else none

scan_control-pktinfos :
    (cs : List Control) (found : ℕ) (local : Address)
    → scan_control cs found local ≡ scanned (pktinfos cs) found local
unfolding scan_control
scan_control-pktinfos [] found local = refl
scan_control-pktinfos (c ∷ cs) zero local =
    ground (arith, scan_control-pktinfos cs 0 local, scan_control-pktinfos cs 1 c.addr)
scan_control-pktinfos (c ∷ cs) (suc found) local =
    ground (arith, scan_control-pktinfos cs (suc found) local)

-- A datagram is assigned to a flow just when its sender is a unicast IPv4 endpoint with a port,
-- nothing of its control data was cut off, and among that there is exactly one packet information,
-- which is complete, unicast, received on the address it was sent to, and for the listener. The
-- key is then that sender and that address.
pub parse_packet_metadata_iff :
    (listen : Address) (m : Message) (key : UdpFlowKey)
    → (parse_packet_metadata listen m ≡ some key) ↔ (
        (sender_ok m ≡ true)
        × (c : Control) × (pktinfos m.control ≡ c ∷ [])
        × (acceptable c ≡ true)
        × ((address_eq listen zero_address || address_eq listen c.addr) ≡ true)
        × (key ≡ record { client = m.from; local_address = c.addr }))
unfolding parse_packet_metadata
parse_packet_metadata_iff listen m key =
    rw (scan_control-pktinfos m.control 0 zero_address) (go (pktinfos m.control) (sender_ok m))
  where
    head : {x y : Control} {xs ys : List Control} → Path (List Control) (x ∷ xs) (y ∷ ys) → x ≡ y
    head {x} e = ap (elim [ [] ↦ x | z ∷ zs ↦ z ]) e

    one :
        (s : Bool) (c : Control)
        → (if not s then none else key_if listen m.from (scanned (c ∷ []) 0 zero_address))
          ≡ some key
        → (s ≡ true)
          × (acceptable c ≡ true)
          × ((address_eq listen zero_address || address_eq listen c.addr) ≡ true)
          × (key ≡ record { client = m.from; local_address = c.addr })
    one s c e = ground arith

    back :
        (s : Bool) (c : Control)
        → s ≡ true
        → acceptable c ≡ true
        → (address_eq listen zero_address || address_eq listen c.addr) ≡ true
        → key ≡ record { client = m.from; local_address = c.addr }
        → (if not s then none else key_if listen m.from (scanned (c ∷ []) 0 zero_address))
          ≡ some key
    back s c ok a l e = rw (ok, a, l, e)

    go :
        (cs : List Control) (s : Bool)
        → ((if not s then none else key_if listen m.from (scanned cs 0 zero_address)) ≡ some key)
          ↔ ((s ≡ true)
              × (c : Control) × (cs ≡ c ∷ [])
              × (acceptable c ≡ true)
              × ((address_eq listen zero_address || address_eq listen c.addr) ≡ true)
              × (key ≡ record { client = m.from; local_address = c.addr }))
    go [] s = ((λ e. absurd (ground arith)), λ (ok, c, e, a, l, k). absurd (cc))
    go (c ∷ []) s = (
      (λ e. let (ok, a, l, k) = one s c e in (ok, c, refl, a, l, k)),
      λ (ok, d, e, a, l, k). let same = head e in back s c ok (rw same a) (rw same l) (rw same k),
    )
    go (c ∷ d ∷ cs) s = ((λ e. absurd (ground arith)), λ (ok, x, e, a, l, k). absurd (cc))
