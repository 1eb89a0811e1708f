-- ===== src/Udp/Flow.antt =====
-- Keys and deadlines of flows (src/core/UdpFlow.h), and the tests on addresses and error numbers of
-- src/net/UdpReactor.cpp. The error numbers are those of Linux, where `EWOULDBLOCK` is `EAGAIN`.
use l4_load_balancer_with_xd.Prelude.{
  ℕ, ◌+◌, ◌≡◌, ◌↔◌, Bool, true, not, ◌&&◌, ◌||◌, arith, leb, ◌==◌, Eq,
}
use l4_load_balancer_with_xd.Config.Endpoint.{
  Address, Endpoint, address_eq, endpoint_eq, zero_address,
}

pub record UdpFlowKey : Type 0 where
  pub client : Endpoint
  pub local_address : Address

abbrev pub key_eq : UdpFlowKey → UdpFlowKey → Bool
key_eq a b = endpoint_eq a.client b.client && address_eq a.local_address b.local_address

pub key_eq_iff : (a b : UdpFlowKey) → (key_eq a b ≡ true) ↔ (a ≡ b)
key_eq_iff a b = ground arith

instance abbrev pub key_instance : Eq UdpFlowKey
key_instance = record { beq = key_eq; beq_iff = key_eq_iff }

-- `UdpFlow`; the deadline is the time of the last submission.
pub record UdpFlow : Type 0 where
  pub key : UdpFlowKey
  pub backend : Endpoint
  pub fd : ℕ
  pub token : ℕ
  pub last_submission_time : ℕ

-- `UdpIdleDeadline::expired`: `now - lastSubmissionTime >= timeout`
abbrev pub expired : UdpFlow → ℕ → ℕ → Bool
expired flow now timeout = leb (flow.last_submission_time + timeout) now

abbrev pub broadcast_address : Address
broadcast_address = record { b0 = 255; b1 = 255; b2 = 255; b3 = 255 }

unfoldable pub is_unicast_address : Address → Bool
is_unicast_address a =
    not (address_eq a zero_address)
    && (not (address_eq a broadcast_address) && not (leb 224 a.b0 && leb a.b0 239))

abbrev pub eintr : ℕ
eintr = 4

abbrev pub enoent : ℕ
enoent = 2

abbrev pub eio : ℕ
eio = 5

abbrev pub ebadf : ℕ
ebadf = 9

abbrev pub eagain : ℕ
eagain = 11

abbrev pub enomem : ℕ
enomem = 12

abbrev pub eacces : ℕ
eacces = 13

abbrev pub einval : ℕ
einval = 22

abbrev pub enotsock : ℕ
enotsock = 88

abbrev pub emsgsize : ℕ
emsgsize = 90

abbrev pub enetunreach : ℕ
enetunreach = 101

abbrev pub econnreset : ℕ
econnreset = 104

abbrev pub enobufs : ℕ
enobufs = 105

abbrev pub econnrefused : ℕ
econnrefused = 111

abbrev pub ehostunreach : ℕ
ehostunreach = 113

unfoldable pub is_resource_pressure : ℕ → Bool
is_resource_pressure e = e == eagain || (e == enobufs || (e == enomem || e == emsgsize))

unfoldable pub is_shared_socket_error : ℕ → Bool
unfolding is_resource_pressure
is_shared_socket_error e =
    is_resource_pressure e
    || (e == econnrefused
        || (e == econnreset || (e == enetunreach || (e == ehostunreach || e == eacces))))
