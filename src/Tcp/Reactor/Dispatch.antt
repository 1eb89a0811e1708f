-- ===== src/Tcp/Reactor/Dispatch.antt =====
-- The event loop of src/net/TcpReactor.cpp: `dispatchEndpointEvent`, `processSessionDeadlines`,
-- `advanceStopDrain`, `dispatchTcpReadyEvents` and `runTcpEventLoop`, with the life of the reactor
-- in `runTcpReactor`. A round of the loop uses one unit of fuel, and `none` is the end of the fuel,
-- so that the runs with each fuel are the beginnings of a run.
use l4_load_balancer_with_xd.Prelude.{
  ℕ, zero, suc, ◌+◌, ◌-◌, ◌/◌, Bool, true, false, not, ◌&&◌, ◌||◌, Option, none, some, List, [],
  ◌∷◌, map, leb, ltb, ◌==◌, if◌then◌else◌, nat_eq, min, length,
}
use l4_load_balancer_with_xd.Prelude.Map.{Map}
use l4_load_balancer_with_xd.Prelude.Exec.{
  Outcome, ok, thrown, pure, throw, gets, catch, modify, ◌>>=◌, ◌>>◌, when,
}
use l4_load_balancer_with_xd.Config.Bytes.{Bytes, codes}
use l4_load_balancer_with_xd.Metrics.{StatKind}
use l4_load_balancer_with_xd.Udp.Flow.{eintr, eio}
use l4_load_balancer_with_xd.Tcp.Tokens.{Target, find_endpoint}
use l4_load_balancer_with_xd.Tcp.World.{
  Side, client, backend, Exception, system_error, session_failure, wait_events, ready, maintenance,
  attach_listener, read_socket_error, Flags, World,
}
use l4_load_balancer_with_xd.Tcp.Reactor.{
  EndpointState, Session, Action, Done, with_end, call, callback, required_callback, session_at,
  change, throw_errno, report_stat_event, current_time, report_observation, remove_endpoint,
  on_failure,
}
use l4_load_balancer_with_xd.Tcp.Reactor.Stop.{consume_stop_signals}
use l4_load_balancer_with_xd.Tcp.Reactor.Close.{close_session, close_all_sessions}
use l4_load_balancer_with_xd.Tcp.Reactor.Transfer.{advance_session_io, fd_of}
use l4_load_balancer_with_xd.Tcp.Reactor.Interests.{
  epollin, epollout, epollerr, epollhup, epollrdhup, update_session_interests,
}
use l4_load_balancer_with_xd.Tcp.Reactor.Accept.{accept_client_sessions}

-- `ETIMEDOUT`
abbrev pub etimedout : ℕ
etimedout = 110

abbrev pub int_max : ℕ
int_max = 0x7fffffff

abbrev pub bit : Bool → ℕ → ℕ
bit b n = if b then n else 0

abbrev pub flags_value : Flags → ℕ
flags_value f =
    bit f.readable epollin
    + bit f.writable epollout
    + bit f.err epollerr
    + bit f.hup epollhup
    + bit f.peer_closed epollrdhup

abbrev pub side_of : ℕ → Side
side_of zero = client
side_of (suc n) = backend

-- `TcpIdleDeadline::expired`: `now - lastIoTime >= duration`
abbrev pub expired : Session → ℕ → ℕ → Bool
expired x now duration = leb (x.last_io_time + duration) now

abbrev pub is_connecting_event : Session → Side → Flags → Bool
is_connecting_event x client f = false
is_connecting_event x backend f = x.connecting && (f.writable || (f.err || f.hup))

module _ (w : World) where
  unfoldable pub socket_error_or_fail : Outcome ℕ ℕ → Action ℕ
  socket_error_or_fail (thrown errno) = throw (session_failure (codes "getsockopt SO_ERROR") errno)
  socket_error_or_fail (ok code) = pure code

  unfoldable pub read_socket_error_of : ℕ → Action ℕ
  unfolding call socket_error_or_fail
  read_socket_error_of fd = do
    answer ← call (read_socket_error fd) w.socket_error
    socket_error_or_fail answer

  unfoldable pub check_socket_error : ℕ → Side → Flags → Session → Action Done
  unfolding report_observation read_socket_error_of current_time
  check_socket_error id side flags x = do
    let connected = is_connecting_event x side flags
    when (connected || flags.err) (do
      report_observation w (codes "error-event") id (some side) (flags_value flags)
      code ← read_socket_error_of (fd_of w (x.ends side).fd)
      report_observation w (codes "so-error") id (some side) code
      if not (code == 0)
          then throw (session_failure (codes "SO_ERROR") code)
          else when connected (do
            time ← current_time w
            modify (change id (λ x. record x { connecting = false; last_io_time = time }))))

  abbrev pub drained_reason : Bool → Bool → Bytes → Bytes
  drained_reason true draining reason = reason
  drained_reason false true reason = codes "service-stop-drained"
  drained_reason false false reason = codes "drained"

  unfoldable pub close_drained : ℕ → Action Done
  unfolding close_session
  close_drained id = do
    reason ← gets (λ s. drained_reason s.stop_requested s.draining s.stop_reason)
    close_session w id reason 0

  -- `!session.connecting && advanceSessionIo(session)`
  unfoldable pub advance_connected : ℕ → Action Bool
  unfolding session_at advance_session_io
  advance_connected id = do
    x ← session_at id
    if x.connecting then pure false else advance_session_io w id

  -- A hang-up cannot be masked: without progress the end rests for 100 ms.
  unfoldable pub defer_hang_up : ℕ → Side → Flags → ℕ → Action Done
  unfolding session_at current_time report_observation remove_endpoint
  defer_hang_up id side flags before = do
    x ← session_at id
    when ((flags.hup || flags.peer_closed) && x.last_io_time == before) (do
      time ← current_time w
      modify (change id (with_end side (λ e. record e { deferred = time + 100000000 })))
      report_observation w (codes "hup-defer") id (some side) 0
      remove_endpoint w id side)

  unfoldable pub dispatch_live : ℕ → Side → Flags → Action Done
  unfolding session_at close_session check_socket_error advance_connected close_drained
      defer_hang_up update_session_interests
  dispatch_live id side flags = do
    x ← session_at id
    draining ← gets (λ s. s.draining)
    if draining && x.connecting then close_session w id (codes "service-stop-connecting") 0 else do
      check_socket_error id side flags x
      y ← session_at id
      finished ← advance_connected id
      if finished
          then close_drained id
          else do defer_hang_up id side flags y.last_io_time; update_session_interests w id

  -- `catch (const SessionFailure& error)`
  unfoldable pub guarded : ℕ → Action Done → Action Done
  unfolding report_stat_event close_session
  guarded id action = catch action (
      on_failure w (λ operation errno. do
        report_stat_event w StatKind.error 1
        close_session w id operation errno))

  unfoldable pub dispatch_target : Flags → Option Target → Action Done
  unfolding report_observation session_at guarded dispatch_live
  dispatch_target flags none = report_observation w (codes "stale-token") 0 none 0
  dispatch_target flags (some target) = do
    session_at target.session_id
    guarded target.session_id (dispatch_live target.session_id (side_of target.side) flags)

  unfoldable pub dispatch_endpoint_event : ℕ → Flags → Action Done
  unfolding find_endpoint dispatch_target
  dispatch_endpoint_event token flags = do
    target ← gets (λ s. find_endpoint s.tokens token)
    dispatch_target flags target

  -- One end whose rest is over; `true` where there was one.
  abbrev pub is_due : ℕ → EndpointState → Bool
  is_due time e = not (e.deferred == 0) && leb e.deferred time

  unfoldable pub wake_end : ℕ → ℕ → Side → Action Bool
  unfolding session_at
  wake_end time id side = do
    x ← session_at id
    if is_due time (x.ends side)
        then (do modify (change id (with_end side (λ e. record e { deferred = 0 }))); pure true)
        else pure false

  unfoldable pub retry_session : ℕ → Action Done
  unfolding report_observation advance_connected close_drained update_session_interests
  retry_session id = do
    report_observation w (codes "hup-retry") id none 0
    finished ← advance_connected id
    if finished then close_drained id else update_session_interests w id

  abbrev pub timeout_of : Session → ℕ
  timeout_of x = if x.connecting then w.connect_timeout else w.idle_timeout

  abbrev pub timeout_reason : Session → Bytes
  timeout_reason x = if x.connecting then codes "connect-timeout" else codes "idle-timeout"

  unfoldable pub process_deadline : ℕ → ℕ → Action Done
  unfolding session_at report_stat_event close_session wake_end guarded retry_session
  process_deadline time id = do
    x ← session_at id
    if expired x time (timeout_of x)
        then (do
          report_stat_event w StatKind.timeout 1
          close_session w id (timeout_reason x) etimedout)
        else (do
          r0 ← wake_end time id client
          r1 ← wake_end time id backend
          when (r0 || r1) (guarded id (retry_session id)))

  unfoldable pub process_deadlines : ℕ → List ℕ → Action Done
  unfolding process_deadline
  process_deadlines time [] = pure tt
  process_deadlines time (id ∷ ids) = do
    stop ← gets (λ s. s.draining || s.stop_requested)
    if stop then pure tt else do process_deadline time id; process_deadlines time ids

  unfoldable pub restore_listener : Action Done
  unfolding call throw_errno
  restore_listener = do
    errno ← call attach_listener w.epoll_ctl
    throw_errno (codes "epoll_ctl") errno
    modify (λ s. record s { listener_deferred = false })

  abbrev pub session_ids : Map ℕ Session → List ℕ
  session_ids entries = map (λ p. p.0) entries

  unfoldable pub process_session_deadlines : Action Done
  unfolding current_time restore_listener process_deadlines
  process_session_deadlines = do
    stop ← gets (λ s. s.draining || s.stop_requested)
    if stop then pure tt else do
      time ← current_time w
      due ← gets (λ s. s.listener_deferred && leb s.listener_retry_time time)
      when due restore_listener
      ids ← gets (λ s. session_ids s.sessions)
      process_deadlines time ids

  abbrev pub no_flags : Flags
  no_flags = record {
    readable = false;
    writable = false;
    err = false;
    hup = false;
    peer_closed = false;
  }

  -- `if (Clock::now() >= end.deferred) end.deferred = {};`
  unfoldable pub end_rest : ℕ → Side → Action Done
  unfolding current_time session_at
  end_rest id side = do
    time ← current_time w
    x ← session_at id
    when (leb (x.ends side).deferred time)
        (modify (change id (with_end side (λ e. record e { deferred = 0 }))))

  unfoldable pub drain_session : ℕ → Action Done
  unfolding session_at close_session end_rest dispatch_endpoint_event
  drain_session id = do
    x ← session_at id
    if x.connecting then close_session w id (codes "service-stop-connecting") 0 else do
      end_rest id client
      end_rest id backend
      dispatch_endpoint_event (x.ends client).token no_flags

  -- The loop over the table as it is at the start; a round erases only its own session.
  unfoldable pub drain_sessions : List ℕ → Action Done
  unfolding consume_stop_signals drain_session
  drain_sessions [] = pure tt
  drain_sessions (id ∷ ids) = do
    consume_stop_signals w
    stop ← gets (λ s. s.stop_requested)
    if stop then pure tt else do drain_session id; drain_sessions ids

  unfoldable pub advance_stop_drain : Action Done
  unfolding drain_sessions
  advance_stop_drain = do ids ← gets (λ s. session_ids s.sessions); drain_sessions ids

  unfoldable pub dispatch_listener : Flags → Action Done
  unfolding current_time accept_client_sessions
  dispatch_listener flags = do
    draining ← gets (λ s. s.draining)
    if draining
        then pure tt
        else if flags.err || flags.hup
        then throw (system_error (codes "listener epoll") eio)
        else (do
          time ← current_time w
          retry ← gets (λ s. s.listener_retry_time)
          when (leb retry time) (accept_client_sessions w))

  unfoldable pub dispatch_tcp_ready_events : List (ℕ × Flags) → Action Done
  unfolding consume_stop_signals dispatch_listener dispatch_endpoint_event
  dispatch_tcp_ready_events [] = pure tt
  dispatch_tcp_ready_events ((token, flags) ∷ events) = do
    consume_stop_signals w
    stop ← gets (λ s. s.stop_requested)
    if stop then pure tt else do
      if token == 1
          then dispatch_listener flags
          else when (not (token == 2)) (dispatch_endpoint_event token flags)
      dispatch_tcp_ready_events events

  -- What a round of the loop comes to: `true` goes on, `false` ends the loop.
  unfoldable pub maintain : Action Done
  unfolding process_session_deadlines callback
  maintain = do
    process_session_deadlines
    draining ← gets (λ s. s.draining)
    when (not draining) (callback w.maintenance_callback maintenance)

  unfoldable pub handle_batch : Outcome ℕ (List (ℕ × Flags)) → Action Bool
  unfolding consume_stop_signals maintain dispatch_tcp_ready_events
  handle_batch (thrown errno) =
      if errno == eintr then pure true else throw (system_error (codes "epoll_wait") errno)
  handle_batch (ok events) = do
    consume_stop_signals w
    stop ← gets (λ s. s.stop_requested)
    if stop then pure true else do
      draining ← gets (λ s. s.draining)
      when (not draining) maintain
      dispatch_tcp_ready_events events
      pure true

  -- The rest until the deadline in milliseconds, rounded up, and at most 100.
  unfoldable pub poll_timeout : Bool → Action ℕ
  unfolding current_time
  poll_timeout false = pure 100
  poll_timeout true = do
    time ← current_time w
    gets (λ s. min 100 ((s.drain_deadline - time + 999999) / 1000000))

  unfoldable pub poll_events : Action Bool
  unfolding poll_timeout report_observation call handle_batch
  poll_events = do
    draining ← gets (λ s. s.draining)
    timeout ← poll_timeout draining
    report_observation w (codes "poll") 0 none timeout
    batch ← call wait_events w.epoll_wait
    handle_batch batch

  unfoldable pub drain_round : Action Bool
  unfolding advance_stop_drain poll_events
  drain_round = do
    advance_stop_drain
    left ← gets (λ s. length s.sessions)
    if left == 0 then pure false else poll_events

  unfoldable pub stop_now : Action Bool
  unfolding close_all_sessions
  stop_now = do reason ← gets (λ s. s.stop_reason); close_all_sessions w reason; pure false

  unfoldable pub event_round : Action Bool
  unfolding consume_stop_signals stop_now drain_round process_session_deadlines poll_events
  event_round = do
    consume_stop_signals w
    stop ← gets (λ s. s.stop_requested)
    if stop then stop_now else do
      draining ← gets (λ s. s.draining)
      if draining then drain_round else do process_session_deadlines; poll_events

  unfoldable pub event_rounds : ℕ → Action (Option ℕ)
  unfolding event_round
  event_rounds zero = pure none
  event_rounds (suc rounds) = do
    goes_on ← event_round
    if goes_on then event_rounds rounds else pure (some 0)

  unfoldable pub run_tcp_event_loop : ℕ → Action (Option ℕ)
  unfolding required_callback event_rounds
  run_tcp_event_loop rounds = do required_callback w.ready_callback ready; event_rounds rounds

  -- `runTcpReactor` after the set-up of its descriptors. The destructor closes what is left and
  -- swallows what that throws; where the loop returned, no session is left.
  unfoldable pub run_tcp_reactor : ℕ → Action (Option ℕ)
  unfolding run_tcp_event_loop close_all_sessions
  run_tcp_reactor rounds =
      if w.drain_timeout_ms == 0 || ltb int_max w.drain_timeout_ms
      then throw Exception.invalid_argument
      else catch (run_tcp_event_loop rounds)
          (λ x. catch (close_all_sessions w (codes "service-error")) (λ _. pure tt) >> throw x)
