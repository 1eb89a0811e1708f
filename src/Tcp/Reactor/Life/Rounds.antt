-- ===== src/Tcp/Reactor/Life/Rounds.antt =====
-- Every round of the event loop, and so every run of the reactor, keeps the count of the reports.
use l4_load_balancer_with_xd.Prelude.{
  ℕ, zero, suc, Bool, true, false, Option, none, some, List, [], ◌∷◌, ◌==◌, nat_eq,
}
use l4_load_balancer_with_xd.Prelude.Exec.{Outcome, ok, thrown}
use l4_load_balancer_with_xd.Tcp.Tokens.{Target}
use l4_load_balancer_with_xd.Tcp.World.{Side, Flags, World}
use l4_load_balancer_with_xd.Tcp.Reactor.{Session}
use l4_load_balancer_with_xd.Tcp.Reactor.Dispatch.{
  socket_error_or_fail, read_socket_error_of, check_socket_error, close_drained, advance_connected,
  defer_hang_up, dispatch_live, guarded, dispatch_target, dispatch_endpoint_event, wake_end,
  retry_session, process_deadline, process_deadlines, restore_listener, process_session_deadlines,
  end_rest, drain_session, drain_sessions, advance_stop_drain, dispatch_listener,
  dispatch_tcp_ready_events, maintain, handle_batch, poll_timeout, poll_events, drain_round,
  stop_now, event_round, event_rounds, run_tcp_event_loop, run_tcp_reactor, side_of,
}
use l4_load_balancer_with_xd.Tcp.Reactor.Life.Rules.{
  Lives, Lives-pure, Lives-throw, Lives-gets, Lives-if, Lives-catch, Lives-bind, Lives-when,
  Lives-session_at, lives_rules,
}
use l4_load_balancer_with_xd.Tcp.Reactor.Life.Closing.{Lives-close_session, Lives-close_all}
use l4_load_balancer_with_xd.Tcp.Reactor.Life.Signals.{Lives-consume}
use l4_load_balancer_with_xd.Tcp.Reactor.Life.Traffic.{Lives-advance, Lives-update_interests}
use l4_load_balancer_with_xd.Tcp.Reactor.Life.Connecting.{Lives-guarded}
use l4_load_balancer_with_xd.Tcp.Reactor.Life.Starting.{Lives-accept}

module _ (w : World) where
  Lives-error_answer : (r : Outcome ℕ ℕ) → Lives w (socket_error_or_fail w r)
  unfolding socket_error_or_fail
  Lives-error_answer (thrown errno) = search lives_rules
  Lives-error_answer (ok code) = search lives_rules

  Lives-socket_error : (fd : ℕ) → Lives w (read_socket_error_of w fd)
  unfolding read_socket_error_of
  Lives-socket_error fd = search (lives_rules, Lives-error_answer)

  Lives-check_error :
      (id : ℕ) (side : Side) (flags : Flags) (x : Session)
      → Lives w (check_socket_error w id side flags x)
  unfolding check_socket_error
  Lives-check_error id side flags x = search (lives_rules, Lives-socket_error) depth 20 fits 5000

  Lives-close_drained : (id : ℕ) → Lives w (close_drained w id)
  unfolding close_drained
  Lives-close_drained id = search (lives_rules, Lives-close_session)

  Lives-advance_connected : (id : ℕ) → Lives w (advance_connected w id)
  unfolding advance_connected
  Lives-advance_connected id = search (lives_rules, Lives-advance) depth 16

  Lives-defer :
      (id : ℕ) (side : Side) (flags : Flags) (before : ℕ)
      → Lives w (defer_hang_up w id side flags before)
  unfolding defer_hang_up
  Lives-defer id side flags before = search lives_rules depth 20 fits 5000

  Lives-live : (id : ℕ) (side : Side) (flags : Flags) → Lives w (dispatch_live w id side flags)
  unfolding dispatch_live
  Lives-live id side flags =
      search
        (
          lives_rules, Lives-close_session, Lives-check_error, Lives-advance_connected,
          Lives-close_drained, Lives-defer, Lives-update_interests,
        )
        depth 20 fits 5000

  Lives-target : (flags : Flags) (target : Option Target) → Lives w (dispatch_target w flags target)
  unfolding dispatch_target guarded
  Lives-target flags none = search lives_rules
  Lives-target flags (some target) =
      Lives-bind w (Lives-session_at w _)
        (λ x. Lives-guarded w _ (Lives-live target.session_id (side_of target.side) flags))

  Lives-endpoint : (token : ℕ) (flags : Flags) → Lives w (dispatch_endpoint_event w token flags)
  unfolding dispatch_endpoint_event
  Lives-endpoint token flags = Lives-bind w (Lives-gets w _) (Lives-target flags)

  Lives-wake : (time id : ℕ) (side : Side) → Lives w (wake_end w time id side)
  unfolding wake_end
  Lives-wake time id side = search lives_rules depth 16 fits 3000

  Lives-retry : (id : ℕ) → Lives w (retry_session w id)
  unfolding retry_session
  Lives-retry id =
      search (lives_rules, Lives-advance_connected, Lives-close_drained, Lives-update_interests)
        depth 16 fits 3000

  Lives-guarded_retry : (id : ℕ) → Lives w (guarded w id (retry_session w id))
  unfolding guarded
  Lives-guarded_retry id = Lives-guarded w id (Lives-retry id)

  Lives-deadline : (time id : ℕ) → Lives w (process_deadline w time id)
  unfolding process_deadline
  Lives-deadline time id =
      search (lives_rules, Lives-close_session, Lives-wake, Lives-guarded_retry) depth 16 fits 3000

  Lives-deadlines : (time : ℕ) (ids : List ℕ) → Lives w (process_deadlines w time ids)
  unfolding process_deadlines
  Lives-deadlines time [] = Lives-pure w tt
  Lives-deadlines time (id ∷ ids) = Lives-bind w (Lives-gets w _) (λ stop.
      Lives-if w stop (Lives-pure w tt)
        (Lives-bind w (Lives-deadline time id) (λ _. Lives-deadlines time ids)))

  Lives-restore : Lives w (restore_listener w)
  unfolding restore_listener
  Lives-restore = search lives_rules depth 16 fits 3000

  Lives-session_deadlines : Lives w (process_session_deadlines w)
  unfolding process_session_deadlines
  Lives-session_deadlines = search (lives_rules, Lives-restore, Lives-deadlines) depth 16 fits 3000

  Lives-end_rest : (id : ℕ) (side : Side) → Lives w (end_rest w id side)
  unfolding end_rest
  Lives-end_rest id side = search lives_rules depth 16 fits 3000

  Lives-drain_session : (id : ℕ) → Lives w (drain_session w id)
  unfolding drain_session
  Lives-drain_session id =
      search (lives_rules, Lives-close_session, Lives-end_rest, Lives-endpoint) depth 16 fits 3000

  Lives-drain_sessions : (ids : List ℕ) → Lives w (drain_sessions w ids)
  unfolding drain_sessions
  Lives-drain_sessions [] = Lives-pure w tt
  Lives-drain_sessions (id ∷ ids) = Lives-bind w (Lives-consume w) (λ _.
      Lives-bind w (Lives-gets w _) (λ stop.
        Lives-if w stop (Lives-pure w tt)
          (Lives-bind w (Lives-drain_session id) (λ _. Lives-drain_sessions ids))))

  Lives-stop_drain : Lives w (advance_stop_drain w)
  unfolding advance_stop_drain
  Lives-stop_drain = search (lives_rules, Lives-drain_sessions)

  Lives-listener : (flags : Flags) → Lives w (dispatch_listener w flags)
  unfolding dispatch_listener
  Lives-listener flags = search (lives_rules, Lives-accept) depth 16 fits 3000

  Lives-events : (events : List (ℕ × Flags)) → Lives w (dispatch_tcp_ready_events w events)
  unfolding dispatch_tcp_ready_events
  Lives-events [] = Lives-pure w tt
  Lives-events ((token, flags) ∷ events) = Lives-bind w (Lives-consume w) (λ _.
      Lives-bind w (Lives-gets w _) (λ stop. Lives-if w stop (Lives-pure w tt) (
        Lives-bind w
          (Lives-if w (token == 1) (Lives-listener flags)
            (Lives-when w _ (Lives-endpoint token flags)))
          (λ _. Lives-events events))))

  Lives-maintain : Lives w (maintain w)
  unfolding maintain
  Lives-maintain = search (lives_rules, Lives-session_deadlines) depth 16 fits 3000

  Lives-batch : (batch : Outcome ℕ (List (ℕ × Flags))) → Lives w (handle_batch w batch)
  unfolding handle_batch
  Lives-batch (thrown errno) = search lives_rules
  Lives-batch (ok events) =
      search (lives_rules, Lives-consume, Lives-maintain, Lives-events) depth 16 fits 3000

  Lives-timeout : (draining : Bool) → Lives w (poll_timeout w draining)
  unfolding poll_timeout
  Lives-timeout false = search lives_rules
  Lives-timeout true = search lives_rules

  Lives-poll : Lives w (poll_events w)
  unfolding poll_events
  Lives-poll = search (lives_rules, Lives-timeout, Lives-batch) depth 16 fits 3000

  Lives-drain_round : Lives w (drain_round w)
  unfolding drain_round
  Lives-drain_round = search (lives_rules, Lives-stop_drain, Lives-poll) depth 16

  Lives-stop_now : Lives w (stop_now w)
  unfolding stop_now
  Lives-stop_now = search (lives_rules, Lives-close_all)

  Lives-round : Lives w (event_round w)
  unfolding event_round
  Lives-round =
      search
        (
          lives_rules, Lives-consume, Lives-stop_now, Lives-drain_round, Lives-session_deadlines,
          Lives-poll,
        )
        depth 16 fits 3000

  Lives-rounds : (rounds : ℕ) → Lives w (event_rounds w rounds)
  unfolding event_rounds
  Lives-rounds zero = Lives-pure w none
  Lives-rounds (suc rounds) =
      Lives-bind w Lives-round
        (λ goes_on. Lives-if w goes_on (Lives-rounds rounds) (Lives-pure w _))

  Lives-event_loop : (rounds : ℕ) → Lives w (run_tcp_event_loop w rounds)
  unfolding run_tcp_event_loop
  Lives-event_loop rounds = search (lives_rules, Lives-rounds)

  pub Lives-run : (rounds : ℕ) → Lives w (run_tcp_reactor w rounds)
  unfolding run_tcp_reactor
  Lives-run rounds = Lives-if w _ (Lives-throw w _) (
      Lives-catch w (Lives-event_loop rounds) (λ x.
        Lives-bind w (Lives-catch w (Lives-close_all w _) (λ y. Lives-pure w tt))
          (λ _. Lives-throw w x)))
