-- ===== src/Tcp/Reactor/Accept.antt =====
-- `acceptClientSessions` and `connectSessionBackend` of src/net/TcpReactor.cpp. The error numbers are
-- those of Linux.
use l4_load_balancer_with_xd.Prelude.{
  ℕ, zero, suc, ◌+◌, Bool, true, false, not, ◌||◌, Option, none, some, List, [], ◌∷◌, leb, ◌==◌,
  if◌then◌else◌, length, add64, nat_eq,
}
use l4_load_balancer_with_xd.Prelude.Map.{emplace}
use l4_load_balancer_with_xd.Prelude.Exec.{
  Outcome, ok, thrown, pure, throw, gets, catch, modify, ◌>>=◌, ◌>>◌, when,
}
use l4_load_balancer_with_xd.Config.Bytes.{codes}
use l4_load_balancer_with_xd.Config.Endpoint.{Endpoint}
use l4_load_balancer_with_xd.Metrics.{StatKind}
use l4_load_balancer_with_xd.Udp.Flow.{eintr, eagain}
use l4_load_balancer_with_xd.Tcp.Tokens.{EndpointTokens, register_endpoint}
use l4_load_balancer_with_xd.Tcp.World.{
  Side, client, backend, Exception, system_error, session_failure, foreign, SessionEvent, quiet,
  open_socket, detach_listener, diagnostic, connect_socket, close_fd, accept_connection,
  select_backend, World,
}
use l4_load_balancer_with_xd.Tcp.World.Call.{session}
use l4_load_balancer_with_xd.Tcp.Reactor.{
  Session, TcpReactor, Action, Done, with_end, new_session, call_as, call, required_callback,
  session_at, change, record_event, throw_errno, report_stat_event, current_time,
  report_observation, on_failure,
}
use l4_load_balancer_with_xd.Tcp.Reactor.Stop.{consume_stop_signals}
use l4_load_balancer_with_xd.Tcp.Reactor.Close.{close_session}
use l4_load_balancer_with_xd.Tcp.Reactor.Interests.{update_session_interests}

-- `EINPROGRESS`
abbrev pub einprogress : ℕ
einprogress = 115

abbrev pub member : ℕ → List ℕ → Bool
member n [] = false
member n (x ∷ xs) = n == x || member n xs

-- `ECONNABORTED`, `EPROTO`, `ENETDOWN`, `ENOPROTOOPT`, `EHOSTDOWN`, `ENONET`, `EHOSTUNREACH`,
-- `EOPNOTSUPP` and `ENETUNREACH`
unfoldable pub is_lost_connection : ℕ → Bool
is_lost_connection n = member n (103 ∷ 71 ∷ 100 ∷ 92 ∷ 112 ∷ 64 ∷ 113 ∷ 95 ∷ 101 ∷ [])

-- `EMFILE`, `ENFILE`, `ENOBUFS` and `ENOMEM`
unfoldable pub is_resource_error : ℕ → Bool
is_resource_error n = member n (24 ∷ 23 ∷ 105 ∷ 12 ∷ [])

-- The number of a side in a token.
abbrev pub side_number : Side → ℕ
side_number client = 0
side_number backend = 1

abbrev pub set_token : Side → ℕ → Session → Session
set_token side token = with_end side (λ e. record e { token = token })

-- `session.ends[side].token = tokens_.registerEndpoint(id, side);`
abbrev pub token_or_throw : ℕ → Side → Option (ℕ × EndpointTokens) → Action Done
token_or_throw id side none = throw Exception.overflow_error
token_or_throw id side (some (token, tokens)) =
    modify (λ s. change id (set_token side token) (record s { tokens = tokens }))

unfoldable pub register_side : ℕ → Side → Action Done
unfolding register_endpoint
register_side id side = do
  result ← gets (λ s. register_endpoint s.tokens id (side_number side))
  token_or_throw id side result

-- An attempt that goes on to the next, is repeated, or ends the loop.
pub data AcceptStep : Type 0 where
  goes_on repeated finished : AcceptStep

module _ (w : World) where
  unfoldable pub open_backend_socket : ℕ → Outcome ℕ ℕ → Action Done
  open_backend_socket id (thrown errno) = throw (session_failure (codes "socket backend") errno)
  open_backend_socket id (ok fd) =
      modify (change id (with_end backend (λ e. record e { fd = some fd })))

  unfoldable pub connect_answer : ℕ → ℕ → Action Done
  unfolding current_time report_observation
  connect_answer id errno =
      if errno == 0
      then (do
        time ← current_time w
        modify (change id (λ x. record x { connecting = false; last_io_time = time }))
        report_observation w (codes "connect-immediate") id none 0)
      else if errno == einprogress
      then report_observation w (codes "connect-inprogress") id none 0
      else throw (session_failure (codes "connect") errno)

  unfoldable pub connect_to : ℕ → Endpoint → Option ℕ → Action Done
  unfolding call connect_answer
  connect_to id target none = pure tt
  connect_to id target (some fd) = do
    errno ← call (connect_socket fd target) w.connect
    connect_answer id errno

  unfoldable pub connect_session_backend : ℕ → Action Done
  unfolding call open_backend_socket register_side session_at connect_to update_session_interests
  connect_session_backend id = do
    opened ← call open_socket w.socket
    open_backend_socket id opened
    register_side id client
    register_side id backend
    x ← session_at id
    connect_to id x.target (x.ends backend).fd
    update_session_interests w id

  abbrev pub accepted_event : ℕ → Endpoint → SessionEvent
  accepted_event id target = record {
    id = id;
    backend = target;
    accepted = true;
    reason = codes "accepted";
    error = 0;
    sent = λ _. 0;
  }

  -- `sessions_.emplace` with the next identity.
  abbrev pub insert_session : ℕ → ℕ → Endpoint → ℕ → TcpReactor → TcpReactor
  insert_session id fd target time s = record s {
    next_session_id = add64 id 1;
    sessions = emplace id (new_session id fd target time) s.sessions;
  }

  unfoldable pub start_session : ℕ → Endpoint → Action Done
  unfolding current_time report_stat_event session_at required_callback connect_session_backend
      close_session
  start_session fd target = do
    time ← current_time w
    id ← gets (λ s. s.next_session_id)
    modify (insert_session id fd target time)
    report_stat_event w StatKind.created 1
    x ← session_at id
    required_callback w.session_callback (session (accepted_event x.id x.target))
    catch (connect_session_backend id) (
        on_failure w (λ operation errno. do
          report_stat_event w StatKind.error 1
          close_session w id operation errno))

  unfoldable pub close_rejected : ℕ → Action Done
  close_rejected fd = modify (record_event (quiet (close_fd fd)))

  unfoldable pub start_selected : ℕ → Outcome ℕ (Option Endpoint) → Action Done
  unfolding close_rejected report_stat_event start_session
  start_selected fd (thrown x) = close_rejected fd >> throw (foreign x)
  start_selected fd (ok none) = do
    catch (report_stat_event w StatKind.rejected 1) (λ x. close_rejected fd >> throw x)
    close_rejected fd
  start_selected fd (ok (some target)) = start_session fd target

  unfoldable pub reject_full : ℕ → Action Done
  unfolding close_rejected report_stat_event report_observation
  reject_full fd = do
    catch
        (report_stat_event w StatKind.rejected 1
          >> report_observation w (codes "capacity-reject") 0 none 0)
        (λ x. close_rejected fd >> throw x)
    close_rejected fd

  unfoldable pub accepted_connection : ℕ → Action Done
  unfolding reject_full call_as start_selected
  accepted_connection fd = do
    modify (λ s. record s { resource_warning = false })
    count ← gets (λ s. length s.sessions)
    if leb w.max_sessions count
        then reject_full fd
        else do answer ← call_as (λ _. select_backend) w.backend_selector; start_selected fd answer

  -- The listener rests for 100 ms.
  unfoldable pub back_off : ℕ → Action Done
  unfolding report_stat_event required_callback call throw_errno current_time report_observation
  back_off errno = do
    report_stat_event w StatKind.error 1
    warned ← gets (λ s. s.resource_warning)
    when (not warned) (
        required_callback w.diagnostic_callback
          (diagnostic (codes "accept4 resource backoff") errno))
    modify (λ s. record s { resource_warning = true })
    failed ← call detach_listener w.epoll_ctl
    throw_errno (codes "epoll_ctl") failed
    modify (λ s. record s { listener_deferred = true })
    time ← current_time w
    modify (λ s. record s { listener_retry_time = time + 100000000 })
    report_observation w (codes "listener-backoff") 0 none 0

  unfoldable pub accept_answer : Outcome ℕ ℕ → Action AcceptStep
  unfolding is_lost_connection report_stat_event is_resource_error back_off accepted_connection
  accept_answer (ok fd) = do accepted_connection fd; pure goes_on
  accept_answer (thrown errno) =
      if errno == eagain
      then pure finished
      else if errno == eintr
      then pure repeated
      else if is_lost_connection errno
      then (do report_stat_event w StatKind.error 1; pure goes_on)
      else if is_resource_error errno
      then (do back_off errno; pure finished)
      else throw (system_error (codes "accept4") errno)

  unfoldable pub after_accept : (ℕ → Action Done) → ℕ → AcceptStep → Action Done
  after_accept loop left goes_on = loop left
  after_accept loop left repeated = loop (suc left)
  after_accept loop left finished = pure tt

  -- The loop over the attempts that are left.
  unfoldable pub accept_loop : ℕ → ℕ → Action Done
  unfolding consume_stop_signals call_as accept_answer after_accept
  accept_loop zero left = throw Exception.unfinished
  accept_loop (suc fuel) zero = pure tt
  accept_loop (suc fuel) (suc left) = do
    stop ← consume_stop_signals w
    if stop then pure tt else do
      answer ← call_as (λ _. accept_connection) w.accept
      step ← accept_answer answer
      after_accept (accept_loop fuel) left step

  unfoldable pub accept_client_sessions : Action Done
  unfolding accept_loop
  accept_client_sessions = accept_loop w.patience 64
