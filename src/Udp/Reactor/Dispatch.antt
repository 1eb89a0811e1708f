-- ===== src/Udp/Reactor/Dispatch.antt =====
-- `dispatchFlowEvent`, `consumeStopSignals`, the event loop and `runUdpReactor` of
-- src/net/UdpReactor.cpp. The event loop ends at a signal: a round uses one unit of fuel, and `none`
-- is the end of the fuel, so that the runs with each fuel are the beginnings of a run.
pub mod Indexed
pub mod Finish
use l4_load_balancer_with_xd.Prelude.{
  ℕ, zero, suc, ◌+◌, ◌≡◌, Bool, true, false, not, ◌&&◌, ◌||◌, Option, none, some, List, [], ◌∷◌,
  ◌==◌, if◌then◌else◌, nat_eq,
}
use l4_load_balancer_with_xd.Prelude.Map.{find}
use l4_load_balancer_with_xd.Prelude.Exec.{
  Outcome, ok, thrown, Exec, pure, throw, gets, catch, modify, ◌>>=◌, ◌>>◌, when,
}
use l4_load_balancer_with_xd.Config.Bytes.{Bytes, codes}
use l4_load_balancer_with_xd.Metrics.{StatKind, error, timeout}
use l4_load_balancer_with_xd.Udp.Flow.{UdpFlow, expired, eintr, eagain, ebadf, enotsock, eio}
use l4_load_balancer_with_xd.Udp.World.{
  Exception, system_error, Event, read_signals, wait_events, ready, maintenance, read_socket_error,
  Flags, World,
}
use l4_load_balancer_with_xd.Udp.Reactor.{
  UdpReactor, Action, Unit₀, call, callback, report_stat_event, current_time, report_observation,
}
use l4_load_balancer_with_xd.Udp.Reactor.Close.{
  close_flow, handle_socket_error, expire_idle_flows, close_all_flows, counts_as_error,
}
use l4_load_balancer_with_xd.Udp.Reactor.Datagrams.{handle_listener_read, handle_backend_read}

module _ (w : World) where
  -- The branches for an event of the listener.
  listener_error : Outcome ℕ ℕ → Action Bool
  unfolding report_observation handle_socket_error
  listener_error (thrown errno) = throw (system_error (codes "listener SO_ERROR") errno)
  listener_error (ok code) = do
    report_observation w (codes "epoll-error") 1 (some w.listener_fd)
    if code == 0
        then pure true
        else handle_socket_error w code true 1 (codes "listener-async-error")

  check_listener_error : Bool → Action Bool
  unfolding call listener_error
  check_listener_error false = pure true
  check_listener_error true = do
    answer ← call (read_socket_error w.listener_fd) w.socket_error
    listener_error answer

  dispatch_listener_event : Flags → Action Unit₀
  unfolding check_listener_error handle_listener_read
  dispatch_listener_event flags = do
    goes_on ← check_listener_error flags.err
    if not goes_on
        then pure tt
        else if flags.hup
        then throw (system_error (codes "UDP listener HUP") eio)
        else when flags.readable (handle_listener_read w)

  -- The branches for an event of a flow; `false` is a `return`.
  backend_error : ℕ → ℕ → Outcome ℕ ℕ → Action Bool
  unfolding report_stat_event report_observation close_flow handle_socket_error
  backend_error token fd (thrown errno) =
      if errno == ebadf || errno == enotsock
      then throw (system_error (codes "backend SO_ERROR") errno)
      else (do
        when (counts_as_error w errno) (report_stat_event w error 1)
        close_flow w token (codes "socket-error-read") errno
        pure false)
  backend_error token fd (ok code) = do
    report_observation w (codes "epoll-error") token (some fd)
    if code == 0
        then pure true
        else handle_socket_error w code false token (codes "backend-async-error")

  check_backend_error : Bool → ℕ → ℕ → Action Bool
  unfolding call backend_error
  check_backend_error false token fd = pure true
  check_backend_error true token fd = do
    answer ← call (read_socket_error fd) w.socket_error
    backend_error token fd answer

  hang_up : ℕ → Action Unit₀
  unfolding report_stat_event close_flow
  hang_up token = do report_stat_event w error 1; close_flow w token (codes "backend-hup") 0

  dispatch_live_flow : ℕ → UdpFlow → Flags → Action Unit₀
  unfolding check_backend_error hang_up handle_backend_read
  dispatch_live_flow token flow flags = do
    goes_on ← check_backend_error flags.err token flow.fd
    if not goes_on
        then pure tt
        else if flags.hup
        then hang_up token
        else when flags.readable (handle_backend_read w token)

  dispatch_backend_event : ℕ → Option UdpFlow → Flags → Action Unit₀
  unfolding report_observation current_time report_stat_event close_flow dispatch_live_flow
  dispatch_backend_event token none flags = report_observation w (codes "stale-token") token none
  dispatch_backend_event token (some flow) flags = do
    time ← current_time w
    if not (expired flow time w.idle_timeout)
        then dispatch_live_flow token flow flags
        else do report_stat_event w timeout 1; close_flow w token (codes "idle-timeout") 0

  unfoldable pub dispatch_flow_event : ℕ → Flags → Action Unit₀
  unfolding dispatch_listener_event dispatch_backend_event
  dispatch_flow_event token flags =
      if token == 2
      then pure tt
      else if token == 1
      then dispatch_listener_event flags
      else (do found ← gets (λ s. find token s.flows); dispatch_backend_event token found flags)

  -- `sizeof(signalfd_siginfo)`
  abbrev siginfo_size : ℕ
  siginfo_size = 128

  signals_read : Outcome ℕ ℕ → Action Bool
  signals_read (ok count) =
      if count == siginfo_size
      then pure true
      else throw (system_error (codes "UDP signalfd read") eio)
  signals_read (thrown errno) =
      if errno == eagain || errno == eintr
      then pure false
      else throw (system_error (codes "UDP signalfd read") errno)

  unfoldable pub consume_stop_signals : Action Bool
  unfolding call signals_read
  consume_stop_signals = do answer ← call read_signals w.read_signal; signals_read answer

  -- What a round of the loop comes to: `true` goes on, `false` ends the loop.
  dispatch_events : List (ℕ × Flags) → Action Bool
  unfolding consume_stop_signals dispatch_flow_event
  dispatch_events [] = pure true
  dispatch_events ((token, flags) ∷ events) = do
    stopped ← consume_stop_signals
    if stopped then pure false else do dispatch_flow_event token flags; dispatch_events events

  handle_batch : Outcome ℕ (List (ℕ × Flags)) → Action Bool
  unfolding consume_stop_signals expire_idle_flows callback dispatch_events
  handle_batch (thrown errno) =
      if errno == eintr then pure true else throw (system_error (codes "UDP epoll_wait") errno)
  handle_batch (ok events) = do
    stopped ← consume_stop_signals
    if stopped then pure false else do
      expire_idle_flows w
      callback w.maintenance_callback maintenance
      dispatch_events events

  unfoldable pub event_round : Action Bool
  unfolding consume_stop_signals expire_idle_flows call handle_batch
  event_round = do
    stopped ← consume_stop_signals
    if stopped
        then pure false
        else do expire_idle_flows w; batch ← call wait_events w.epoll_wait; handle_batch batch

  unfoldable pub event_rounds : ℕ → Action (Option ℕ)
  unfolding event_round
  event_rounds zero = pure none
  event_rounds (suc rounds) = do
    goes_on ← event_round
    if goes_on then event_rounds rounds else pure (some 0)

  unfoldable pub run_udp_event_loop : ℕ → Action (Option ℕ)
  unfolding callback event_rounds
  run_udp_event_loop rounds = do callback w.ready_callback ready; event_rounds rounds

  -- After the checks of the options. An exception of the loop or of the last closing leaves through
  -- the destructor, which closes what is left and swallows what that throws.
  finish : Option ℕ → Action (Option ℕ)
  unfolding close_all_flows
  finish none = pure none
  finish (some result) = do close_all_flows w; pure (some result)

  unfoldable pub run_udp_reactor : ℕ → Action (Option ℕ)
  unfolding run_udp_event_loop finish close_all_flows
  run_udp_reactor rounds =
      catch (run_udp_event_loop rounds >>= finish)
        (λ x. catch (close_all_flows w) (λ _. pure tt) >> throw x)
