-- ===== src/Udp/Reactor/Datagrams.antt =====
-- The loops of src/net/UdpReactor.cpp that receive and send datagrams, and `dispatchFlowEvent`.
-- Each loop has a fixed number of attempts, which is the fuel.
pub mod Indexed
pub mod Reads
use l4_load_balancer_with_xd.Prelude.{
  ℕ, zero, suc, ◌+◌, ◌≡◌, Bool, true, false, not, ◌&&◌, ◌||◌, Option, none, some, List, [], ◌∷◌,
  ◌==◌, leb, ltb, if◌then◌else◌, length, nat_eq,
}
use l4_load_balancer_with_xd.Prelude.Map.{Map, find, update}
use l4_load_balancer_with_xd.Prelude.Exec.{
  Outcome, ok, thrown, Exec, pure, throw, gets, catch, modify, ◌>>=◌, ◌>>◌, when,
}
use l4_load_balancer_with_xd.Config.Bytes.{Bytes, codes}
use l4_load_balancer_with_xd.Config.Endpoint.{Address, Endpoint}
use l4_load_balancer_with_xd.Metrics.{
  StatKind, bytes_c2b, bytes_b2c, datagram_c2b, datagram_b2c, dropped, error, timeout,
}
use l4_load_balancer_with_xd.Udp.Flow.{
  UdpFlowKey, UdpFlow, key_instance, expired, eintr, eagain, ebadf, enotsock, eio,
}
use l4_load_balancer_with_xd.Udp.Packet.{Message, parse_packet_metadata}
use l4_load_balancer_with_xd.Udp.World.{
  Exception, system_error, Event, receive, send, read_socket_error, Datagram, World,
}
use l4_load_balancer_with_xd.Udp.Reactor.{
  UdpReactor, Action, Unit₀, call, flow_at, report_stat_event, current_time, report_observation,
  report_diagnostic,
}
use l4_load_balancer_with_xd.Udp.Reactor.Close.{close_flow, handle_socket_error, counts_as_error}
use l4_load_balancer_with_xd.Udp.Reactor.Create.{create_flow}

abbrev pub udp_payload_limit : ℕ
udp_payload_limit = 65507

-- `flow.deadline.recordSubmission(time)`
abbrev pub record_submission : ℕ → ℕ → UdpReactor → UdpReactor
record_submission token time s = record s {
  flows = update token (λ flow. record flow { last_submission_time = time }) s.flows;
}

abbrev choose {ℓ} : {A : Type ℓ} → Bool → A → A → A
choose b x y = if b then x else y

module _ (w : World) where
  -- A flow whose deadline has passed is closed.
  pub close_expired : ℕ → Action Unit₀
  unfolding report_stat_event close_flow
  close_expired token = do
    report_stat_event w timeout 1
    close_flow w token (codes "idle-timeout") 0

  module _ (flow : UdpFlow) (size : ℕ) (reply : Bool) where
    sent : ℕ → ℕ → Action Unit₀
    unfolding report_stat_event current_time report_observation report_diagnostic
    sent fd count =
        if count == size
        then (do
          report_stat_event w (choose reply bytes_b2c bytes_c2b) size
          report_stat_event w (choose reply datagram_b2c datagram_c2b) 1
          time ← current_time w
          modify (record_submission flow.token time)
          report_observation w (choose reply (codes "sent-reply") (codes "sent-request")) flow.token
              (some fd))
        else (do
          report_stat_event w error 1
          report_stat_event w dropped 1
          report_diagnostic w (codes "short-send-drop") 0)

    send_failed : ℕ → Action Unit₀
    unfolding report_stat_event handle_socket_error
    send_failed errno = do
      report_stat_event w dropped 1
      keep ←
          handle_socket_error w errno reply flow.token
            (choose reply (codes "listener-send-drop") (codes "backend-send-error"))
      pure tt

    send_fd : ℕ
    send_fd = choose reply w.listener_fd flow.fd

    destination : Option (Endpoint × Address)
    destination = choose reply (some (flow.key.client, flow.key.local_address)) none

    send_result : Outcome ℕ ℕ → Action Unit₀ → Action Unit₀
    unfolding sent send_failed send_fd
    send_result (ok count) again = sent send_fd count
    send_result (thrown errno) again = if errno == eintr then again else send_failed errno

    send_attempts : ℕ → Action Unit₀
    unfolding report_stat_event report_diagnostic call send_result destination send_fd
    send_attempts zero = do
      report_stat_event w dropped 1
      report_diagnostic w (codes "send-budget-drop") 0
    send_attempts (suc attempts) = do
      count ← call (send send_fd destination size) w.sendmsg
      send_result count (send_attempts attempts)

    unfoldable pub send_flow_datagram : Action Unit₀
    unfolding send_attempts
    send_flow_datagram = send_attempts 4

  -- `tokenIt == end() ? 0 : tokenIt->second`
  abbrev token_or_zero : Option ℕ → ℕ
  token_or_zero none = 0
  token_or_zero (some token) = token

  -- The flow of the key as far as it is not expired; 0 stands for none.
  live_token : ℕ → Action ℕ
  unfolding flow_at current_time close_expired
  live_token token = if token == 0 then pure 0 else do
    flow ← flow_at token
    time ← current_time w
    if not (expired flow time w.idle_timeout) then pure token else do close_expired token; pure 0

  create_or_drop : UdpFlowKey → Action ℕ
  unfolding create_flow report_stat_event
  create_or_drop key = catch (create_flow w key) (λ x. report_stat_event w dropped 1 >> throw x)

  unfoldable pub resolve_flow_token_for_datagram : UdpFlowKey → Action ℕ
  unfolding live_token create_or_drop
  resolve_flow_token_for_datagram key = do
    found ← gets (λ s. find key s.flow_tokens_by_key)
    token ← live_token (token_or_zero found)
    if token == 0 then create_or_drop key else pure token

  pub drop_datagram : Bytes → Action Unit₀
  unfolding report_stat_event report_diagnostic
  drop_datagram kind = do report_stat_event w dropped 1; report_diagnostic w kind 0

  forward : UdpFlowKey → ℕ → Action Unit₀
  unfolding resolve_flow_token_for_datagram report_stat_event flow_at send_flow_datagram
  forward key size = do
    token ← resolve_flow_token_for_datagram key
    if token == 0
        then report_stat_event w dropped 1
        else do flow ← flow_at token; send_flow_datagram flow size false

  forward_parsed : Option UdpFlowKey → ℕ → Action Unit₀
  unfolding drop_datagram forward
  forward_parsed none size = drop_datagram (codes "metadata-drop")
  forward_parsed (some key) size = forward key size

  -- One datagram at the listener.
  accept_datagram : Datagram → Action Unit₀
  unfolding drop_datagram parse_packet_metadata forward_parsed
  accept_datagram d =
      if d.truncated || ltb udp_payload_limit d.size
      then drop_datagram (codes "listener-truncated")
      else forward_parsed (parse_packet_metadata w.listen_address d.message) d.size

  -- The answer of `recvmsg`, and the attempts after it.
  listener_received : Outcome ℕ Datagram → Action Unit₀ → Action Unit₀
  unfolding accept_datagram handle_socket_error
  listener_received (ok d) again = accept_datagram d >> again
  listener_received (thrown errno) again =
      if errno == eintr
      then again
      else if errno == eagain
      then pure tt
      else handle_socket_error w errno true 0 (codes "listener-recv-error") >> pure tt

  listener_attempts : ℕ → Action Unit₀
  unfolding report_observation call listener_received
  listener_attempts zero = report_observation w (codes "listener-budget") 0 none
  listener_attempts (suc attempts) = do
    received ← call (receive w.listener_fd) w.recvmsg
    listener_received received (listener_attempts attempts)

  unfoldable pub handle_listener_read : Action Unit₀
  unfolding listener_attempts
  handle_listener_read = listener_attempts 64

  -- One datagram of a backend.
  return_datagram : UdpFlow → Datagram → Action Unit₀
  unfolding drop_datagram send_flow_datagram
  return_datagram flow d =
      if d.truncated || ltb udp_payload_limit d.size
      then drop_datagram (codes "backend-truncated")
      else send_flow_datagram flow d.size true

  backend_received : ℕ → UdpFlow → Outcome ℕ Datagram → Action Unit₀ → Action Unit₀
  unfolding return_datagram handle_socket_error
  backend_received token flow (ok d) again = return_datagram flow d >> again
  backend_received token flow (thrown errno) again =
      if errno == eintr
      then again
      else if errno == eagain
      then pure tt
      else handle_socket_error w errno false token (codes "backend-recv-error") >> pure tt

  backend_attempt : ℕ → Option UdpFlow → Action Unit₀ → Action Unit₀
  unfolding current_time close_expired call backend_received
  backend_attempt token none again = pure tt
  backend_attempt token (some flow) again = do
    time ← current_time w
    if expired flow time w.idle_timeout then close_expired token else do
      received ← call (receive flow.fd) w.recvmsg
      backend_received token flow received again

  backend_attempts : ℕ → ℕ → Action Unit₀
  unfolding report_observation backend_attempt
  backend_attempts token zero = report_observation w (codes "backend-budget") token none
  backend_attempts token (suc attempts) = do
    found ← gets (λ s. find token s.flows)
    backend_attempt token found (backend_attempts token attempts)

  unfoldable pub handle_backend_read : ℕ → Action Unit₀
  unfolding backend_attempts
  handle_backend_read token = backend_attempts token 64
