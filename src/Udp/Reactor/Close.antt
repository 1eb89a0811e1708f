-- ===== src/Udp/Reactor/Close.antt =====
-- `closeFlow`, `expireIdleFlows`, `closeAllFlows` and `handleSocketError` of src/net/UdpReactor.cpp.
pub mod Keeps
pub mod Reports
pub mod All
use l4_load_balancer_with_xd.Prelude.{
  ℕ, zero, suc, ◌+◌, ◌≡◌, Bool, true, false, not, ◌&&◌, ◌||◌, Option, none, some, List, [], ◌∷◌,
  ◌==◌, if◌then◌else◌, length, nat_eq,
}
use l4_load_balancer_with_xd.Prelude.Map.{Map, find, erase}
use l4_load_balancer_with_xd.Prelude.Exec.{
  Outcome, ok, thrown, Exec, pure, throw, gets, catch, modify, ◌>>=◌, ◌>>◌, when,
}
use l4_load_balancer_with_xd.Config.Bytes.{Bytes, codes}
use l4_load_balancer_with_xd.Config.Endpoint.{Endpoint}
use l4_load_balancer_with_xd.Metrics.{StatKind, closed, error, timeout}
use l4_load_balancer_with_xd.Udp.Flow.{
  UdpFlowKey, UdpFlow, key_instance, expired, is_resource_pressure, is_shared_socket_error, eintr,
  eagain, enoent, ebadf, enotsock, einval,
}
use l4_load_balancer_with_xd.Udp.World.{
  Exception, system_error, Event, diagnostic, flow_event, detach, close_fd, Log, World,
}
use l4_load_balancer_with_xd.Udp.Reactor.{
  UdpReactor, Action, Unit₀, record_event, call, rethrow, callback, report_stat_event, current_time,
  report_observation, report_diagnostic,
}

-- `if (!firstFailure) firstFailure = std::current_exception();`
abbrev pub first_failure : Option Exception → Exception → Option Exception
first_failure none x = some x
first_failure (some y) x = some y

-- One of the `attempt…Report` functions around a report.
unfoldable pub attempt : Action Unit₀ → Option Exception → Action (Option Exception)
attempt report failure = catch (report >> pure failure) (λ x. pure (first_failure failure x))

unfoldable pub drop_fd : ℕ → Action Unit₀
drop_fd fd = modify (record_event (close_fd fd))

-- The two erasures at the start of `closeFlow`.
abbrev pub unlink : ℕ → UdpFlow → UdpReactor → UdpReactor
unlink token flow s = record s {
  flow_tokens_by_key = erase flow.key s.flow_tokens_by_key;
  flows = erase token s.flows;
}

abbrev pub detach_error : ℕ → ℕ
detach_error errno = if errno == enoent || errno == ebadf then 0 else errno

module _ (w : World) where
  unfoldable pub attempt_close_error_report : Option Exception → Action (Option Exception)
  unfolding attempt report_stat_event
  attempt_close_error_report failure = attempt (report_stat_event w error 1) failure

  unfoldable pub attempt_close_diagnostic_report : ℕ → Option Exception → Action (Option Exception)
  unfolding attempt callback
  attempt_close_diagnostic_report errno failure =
      attempt (callback w.diagnostic_callback (diagnostic (codes "UDP epoll DEL") errno)) failure

  unfoldable pub attempt_closed_stat_report : Option Exception → Action (Option Exception)
  unfolding attempt report_stat_event
  attempt_closed_stat_report failure = attempt (report_stat_event w closed 1) failure

  unfoldable pub attempt_closed_observation_report :
      Bytes → ℕ → ℕ → Option Exception → Action (Option Exception)
  unfolding attempt report_observation
  attempt_closed_observation_report reason token fd failure =
      attempt (report_observation w reason token (some fd)) failure

  unfoldable pub attempt_flow_event_report :
      ℕ → Endpoint → Bytes → ℕ → Option Exception → Action (Option Exception)
  unfolding attempt callback
  attempt_flow_event_report token backend reason errno failure =
      attempt (callback w.flow_callback (flow_event token backend reason errno)) failure

  attempt_detach_reports : ℕ → Action (Option Exception)
  unfolding attempt_close_error_report attempt_close_diagnostic_report
  attempt_detach_reports errno = if errno == 0 then pure none else do
    failure ← attempt_close_error_report none
    attempt_close_diagnostic_report errno failure

  unfoldable pub report_close : ℕ → UdpFlow → Bytes → ℕ → ℕ → Action Unit₀
  unfolding attempt_detach_reports attempt_closed_stat_report attempt_closed_observation_report
      attempt_flow_event_report rethrow
  report_close token flow reason errno detached = do
    f0 ← attempt_detach_reports detached
    f1 ← attempt_closed_stat_report f0
    f2 ← attempt_closed_observation_report reason token flow.fd f1
    f3 ← attempt_flow_event_report token flow.backend reason errno f2
    rethrow f3

  -- What follows where the flow was found.
  unfoldable pub close_found : ℕ → Bytes → ℕ → Option UdpFlow → Action Unit₀
  unfolding call drop_fd report_close
  close_found token reason errno none = pure tt
  close_found token reason errno (some flow) = do
    modify (unlink token flow)
    detached ← call (detach flow.fd) w.epoll_del
    drop_fd flow.fd
    report_close token flow reason errno (detach_error detached)

  unfoldable pub close_flow : ℕ → Bytes → ℕ → Action Unit₀
  unfolding close_found
  close_flow token reason errno = do
    found ← gets (λ s. find token s.flows)
    close_found token reason errno found

  close_due : ℕ → Action Unit₀
  unfolding report_stat_event close_flow
  close_due token = do report_stat_event w timeout 1; close_flow token (codes "idle-timeout") 0

  -- The loop over the table as it is at the start; a round erases only its own entry.
  unfoldable pub expire_each : ℕ → Map ℕ UdpFlow → Action Unit₀
  unfolding close_due
  expire_each time [] = pure tt
  expire_each time ((token, flow) ∷ rest) =
      when (expired flow time w.idle_timeout) (close_due token) >> expire_each time rest

  unfoldable pub expire_idle_flows : Action Unit₀
  unfolding current_time expire_each
  expire_idle_flows = do
    time ← current_time w
    entries ← gets (λ s. s.flows)
    expire_each time entries

  -- The `while` loop; a round uses one unit of fuel, and the number of flows is enough.
  close_first : Map ℕ UdpFlow → Option Exception → Action (Option Exception)
  unfolding attempt close_flow
  close_first [] failure = pure failure
  close_first ((token, flow) ∷ rest) failure =
      attempt (close_flow token (codes "service-stop") 0) failure

  unfoldable pub close_each : ℕ → Option Exception → Action (Option Exception)
  unfolding close_first
  close_each zero failure = pure failure
  close_each (suc fuel) failure = do
    entries ← gets (λ s. s.flows)
    next ← close_first entries failure
    close_each fuel next

  unfoldable pub close_all_flows : Action Unit₀
  unfolding close_each rethrow
  close_all_flows = do
    fuel ← gets (λ s. length s.flows)
    failure ← close_each fuel none
    rethrow failure

  -- `code != EAGAIN && code != EWOULDBLOCK && code != EINTR`
  abbrev pub counts_as_error : ℕ → Bool
  counts_as_error code = not (code == eagain || code == eintr)

  unfoldable pub handle_socket_error : ℕ → Bool → ℕ → Bytes → Action Bool
  unfolding is_resource_pressure is_shared_socket_error report_stat_event report_diagnostic
      close_flow
  handle_socket_error code listener token kind =
      if code == ebadf || (code == enotsock || code == einval)
      then throw (system_error kind code)
      else if listener && not (is_shared_socket_error code)
      then throw (system_error kind code)
      else if listener || is_resource_pressure code
      then (do
        when (counts_as_error code) (report_stat_event w error 1)
        report_diagnostic w kind code
        pure true)
      else (do
        when (counts_as_error code) (report_stat_event w error 1)
        close_flow token kind code
        pure false)
