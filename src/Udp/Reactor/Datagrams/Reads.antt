-- ===== src/Udp/Reactor/Datagrams/Reads.antt =====
-- The two loops that receive datagrams keep the tables consistent.
use l4_load_balancer_with_xd.Prelude.{
  ℕ, zero, suc, Bool, true, false, Option, none, some, ◌==◌, nat_eq,
}
use l4_load_balancer_with_xd.Prelude.Exec.{Outcome, ok, thrown, pure, ◌>>◌}
use l4_load_balancer_with_xd.Config.Bytes.{Bytes}
use l4_load_balancer_with_xd.Udp.Flow.{UdpFlowKey, UdpFlow, key_instance, eintr, eagain}
use l4_load_balancer_with_xd.Udp.World.{Datagram, World}
use l4_load_balancer_with_xd.Udp.Reactor.{Action, Unit₀}
use l4_load_balancer_with_xd.Udp.Reactor.Keeps.{
  Keeps, Keeps-if, keeps_rules, Keeps-pure, Keeps-gets, Keeps-call, Keeps-bind,
}
use l4_load_balancer_with_xd.Udp.Reactor.Close.{handle_socket_error}
use l4_load_balancer_with_xd.Udp.Reactor.Datagrams.{
  forward, forward_parsed, accept_datagram, listener_received, listener_attempts,
  handle_listener_read, return_datagram, backend_received, backend_attempt, backend_attempts,
  handle_backend_read,
}
use l4_load_balancer_with_xd.Udp.Reactor.Datagrams.Indexed.{
  Indexed, indexed_rules, resolve-Indexed, drop_datagram-Indexed, send_flow_datagram-Indexed,
}

module _ (w : World) where
  forward-Indexed : (key : UdpFlowKey) (size : ℕ) → Keeps (Indexed w) (forward w key size)
  unfolding forward
  forward-Indexed key size =
      search (keeps_rules, resolve-Indexed, send_flow_datagram-Indexed) depth 16 fits 3000

  forward_parsed-Indexed :
      (parsed : Option UdpFlowKey) (size : ℕ) → Keeps (Indexed w) (forward_parsed w parsed size)
  unfolding forward_parsed
  forward_parsed-Indexed none size = drop_datagram-Indexed w _
  forward_parsed-Indexed (some key) size = forward-Indexed key size

  accept_datagram-Indexed : (d : Datagram) → Keeps (Indexed w) (accept_datagram w d)
  unfolding accept_datagram
  accept_datagram-Indexed d = search (indexed_rules, forward_parsed-Indexed)

  -- After an error of a read.
  after_error :
      (code : ℕ) (listener : Bool) (token : ℕ) (kind : Bytes)
      → Keeps (Indexed w) (handle_socket_error w code listener token kind >> pure tt)
  after_error code listener token kind = search indexed_rules

  listener_received-Indexed :
      {again : Action Unit₀}
      → Keeps (Indexed w) again
      → (r : Outcome ℕ Datagram) → Keeps (Indexed w) (listener_received w r again)
  unfolding listener_received
  listener_received-Indexed rest (ok d) =
      Keeps-bind (Indexed w) (accept_datagram-Indexed d) (λ _. rest)
  listener_received-Indexed rest (thrown errno) = Keeps-if (Indexed w) (errno == eintr) rest (
      Keeps-if (Indexed w) (errno == eagain) (Keeps-pure (Indexed w) tt)
        (after_error errno true 0 _))

  listener_attempts-Indexed : (attempts : ℕ) → Keeps (Indexed w) (listener_attempts w attempts)
  unfolding listener_attempts
  listener_attempts-Indexed zero = search keeps_rules
  listener_attempts-Indexed (suc attempts) =
      Keeps-bind (Indexed w) (Keeps-call (Indexed w) _ _)
        (listener_received-Indexed (listener_attempts-Indexed attempts))

  pub handle_listener_read-Indexed : Keeps (Indexed w) (handle_listener_read w)
  unfolding handle_listener_read
  handle_listener_read-Indexed = listener_attempts-Indexed 64

  return_datagram-Indexed :
      (flow : UdpFlow) (d : Datagram) → Keeps (Indexed w) (return_datagram w flow d)
  unfolding return_datagram
  return_datagram-Indexed flow d = search (indexed_rules, send_flow_datagram-Indexed)

  module _ (token : ℕ) {again : Action Unit₀} (rest : Keeps (Indexed w) again) where
    backend_received-Indexed :
        (flow : UdpFlow) (r : Outcome ℕ Datagram)
        → Keeps (Indexed w) (backend_received w token flow r again)
    unfolding backend_received
    backend_received-Indexed flow (ok d) =
        Keeps-bind (Indexed w) (return_datagram-Indexed flow d) (λ _. rest)
    backend_received-Indexed flow (thrown errno) = Keeps-if (Indexed w) (errno == eintr) rest (
        Keeps-if (Indexed w) (errno == eagain) (Keeps-pure (Indexed w) tt)
          (after_error errno false token _))

    backend_attempt-Indexed :
        (found : Option UdpFlow) → Keeps (Indexed w) (backend_attempt w token found again)
    unfolding backend_attempt
    backend_attempt-Indexed none = Keeps-pure (Indexed w) tt
    backend_attempt-Indexed (some flow) =
        search (indexed_rules, backend_received-Indexed) depth 16 fits 3000

  backend_attempts-Indexed :
      (token attempts : ℕ) → Keeps (Indexed w) (backend_attempts w token attempts)
  unfolding backend_attempts
  backend_attempts-Indexed token zero = search keeps_rules
  backend_attempts-Indexed token (suc attempts) =
      Keeps-bind (Indexed w) (Keeps-gets (Indexed w) _)
        (backend_attempt-Indexed token (backend_attempts-Indexed token attempts))

  pub handle_backend_read-Indexed : (token : ℕ) → Keeps (Indexed w) (handle_backend_read w token)
  unfolding handle_backend_read
  handle_backend_read-Indexed token = backend_attempts-Indexed token 64
