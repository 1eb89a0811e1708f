-- ===== src/Tcp/Reactor/Facts/Dispatch.antt =====
-- The event loop keeps the invariant.
use mathlib.Core.Path.{◌≡◌, refl}
use l4_load_balancer_with_xd.Prelude.{
  ◌≢◌, ℕ, zero, suc, ◌+◌, length, arith, Bool, true, false, not, ◌&&◌, ◌||◌, Option, none, some,
  List, [], ◌∷◌, leb, ◌==◌, nat_eq,
}
use l4_load_balancer_with_xd.Prelude.Map.{Map}
use l4_load_balancer_with_xd.Prelude.Exec.{Outcome, ok, thrown, pure, when}
use l4_load_balancer_with_xd.Prelude.Exec.Triple.{
  Triple-pure, Triple-throw, Triple-gets, Triple-if, Triple-catch, Triple-modify, Triple-bind,
  Triple-weaken, Triple-both,
}
use l4_load_balancer_with_xd.Udp.Flow.{eintr}
use l4_load_balancer_with_xd.Tcp.Tokens.{Target}
use l4_load_balancer_with_xd.Tcp.World.{Side, client, backend, Flags, World}
use l4_load_balancer_with_xd.Tcp.Reactor.{Session, TcpReactor, Action, Done, with_end}
use l4_load_balancer_with_xd.Tcp.Reactor.Dispatch.{
  side_of, expired, is_connecting_event, socket_error_or_fail, read_socket_error_of,
  check_socket_error, close_drained, advance_connected, defer_hang_up, dispatch_live, guarded,
  dispatch_target, dispatch_endpoint_event, is_due, wake_end, retry_session, timeout_of,
  process_deadline, process_deadlines, restore_listener, process_session_deadlines, end_rest,
  drain_session, drain_sessions, advance_stop_drain, dispatch_listener, dispatch_tcp_ready_events,
  maintain, handle_batch, poll_timeout, poll_events, drain_round, stop_now, event_round,
  event_rounds, run_tcp_event_loop,
}
use l4_load_balancer_with_xd.Tcp.Reactor.Stop.{consume_stop_signals}
use l4_load_balancer_with_xd.Tcp.Reactor.Facts.{Facts, On, Left}
use l4_load_balancer_with_xd.Tcp.Reactor.Facts.Rules.{
  Runs, Runs-keeps, Runs-then, Runs-gets, Runs-after, Runs-modify, Keeps-gets, Keeps-call,
  Keeps-callback, Keeps-required, Keeps-stat, Keeps-time, Keeps-observation, Left-callback,
}
use l4_load_balancer_with_xd.Tcp.Reactor.Facts.Stop.{consume-keeps}
use l4_load_balancer_with_xd.Tcp.Reactor.Facts.Close.{
  close_session-Runs, close_all-Keeps, Facts-Unlinks,
}
use l4_load_balancer_with_xd.Tcp.Reactor.Facts.Empties.{Has, close_all-Has}
use l4_load_balancer_with_xd.Tcp.Reactor.Facts.Sessions.{
  change-On, IsHarmless, with_end-IsHarmless, times-IsHarmless, Runs-read,
}
use l4_load_balancer_with_xd.Tcp.Reactor.Facts.Transfer.{advance-On}
use l4_load_balancer_with_xd.Tcp.Reactor.Facts.Interests.{
  v, update_interests-On, remove_endpoint-On,
}
use l4_load_balancer_with_xd.Tcp.Reactor.Facts.Connect.{on_failure-On}
use l4_load_balancer_with_xd.Tcp.Reactor.Facts.Accept.{accept-On, throw_errno-On}

-- An action of the reactor keeps the invariant.
abbrev Sound : {A : Type 0} → World → Action A → Type 0
Sound w m = Runs w (On Facts) m (λ _. On Facts)

deferred-IsHarmless :
    (side : Side) (time : ℕ) → IsHarmless (with_end side (λ e. record e { deferred = time }))
deferred-IsHarmless side time =
    with_end-IsHarmless side (λ e. record e { deferred = time }) (λ e. refl) (λ e p. p) (λ e. refl)

module _ (w : World) where
  Sound-pure : {A : Type 0} (a : A) → Sound w (pure a)
  Sound-pure a = Triple-pure a (λ s p. p)

  Sound-when : (b : Bool) {m : Action Done} → Sound w m → Sound w (when b m)
  Sound-when true t = t
  Sound-when false t = Sound-pure tt

  consume : Sound w (consume_stop_signals w)
  consume = consume-keeps w Facts v

  socket_error-On : (answer : Outcome ℕ ℕ) → Sound w (socket_error_or_fail w answer)
  unfolding socket_error_or_fail
  socket_error-On (thrown errno) = Triple-throw _ (λ s p. p)
  socket_error-On (ok code) = Sound-pure code

  read_error-On : (fd : ℕ) → Sound w (read_socket_error_of w fd)
  unfolding read_socket_error_of
  read_error-On fd = Runs-after w v (Keeps-call v.calm _ _) socket_error-On

  check_socket_error-On :
      (id : ℕ) (side : Side) (flags : Flags) (x : Session)
      → Sound w (check_socket_error w id side flags x)
  unfolding check_socket_error
  check_socket_error-On id side flags x =
      Sound-when (is_connecting_event x side flags || flags.err) (
        Runs-after w v (Keeps-observation v.calm w _ _ _ _) (λ _.
          Runs-then w (read_error-On _) (λ code.
            Runs-after w v (Keeps-observation v.calm w _ _ _ _) (λ _.
              Triple-if (not (code == 0)) (λ _. Triple-throw _ (λ s p. p))
                (λ _. Sound-when (is_connecting_event x side flags) (
                  Runs-after w v (Keeps-time v.calm w) (λ time.
                    Triple-modify _
                      (change-On id (times-IsHarmless (λ x. false) (λ x. time))))))))))

  close_drained-On : (id : ℕ) → Sound w (close_drained w id)
  unfolding close_drained
  close_drained-On id = Runs-gets w _ (λ reason. close_session-Runs w id reason 0)

  advance_connected-On : (id : ℕ) → Sound w (advance_connected w id)
  unfolding advance_connected
  advance_connected-On id =
      Runs-read w id (λ x. Triple-if x.connecting (λ _. Sound-pure false) (λ _. advance-On w id))

  defer_hang_up-On :
      (id : ℕ) (side : Side) (flags : Flags) (before : ℕ)
      → Sound w (defer_hang_up w id side flags before)
  unfolding defer_hang_up
  defer_hang_up-On id side flags before = Runs-read w id (λ x.
      Sound-when ((flags.hup || flags.peer_closed) && x.last_io_time == before) (
        Runs-after w v (Keeps-time v.calm w) (λ time.
          Runs-modify w _ (change-On id (deferred-IsHarmless side (time + 100000000))) (
            Runs-after w v (Keeps-observation v.calm w _ _ _ _)
              (λ _. remove_endpoint-On w id side)))))

  dispatch_live-On :
      (id : ℕ) (side : Side) (flags : Flags) → Sound w (dispatch_live w id side flags)
  unfolding dispatch_live
  dispatch_live-On id side flags = Runs-read w id (λ x. Runs-gets w _ (λ draining.
      Triple-if (draining && x.connecting) (λ _. close_session-Runs w id _ 0)
        (λ _. Runs-then w (check_socket_error-On id side flags x) (λ _. Runs-read w id (λ y.
          Runs-then w (advance_connected-On id) (λ finished.
            Triple-if finished (λ _. close_drained-On id)
              (λ _.
                Runs-then w (defer_hang_up-On id side flags _)
                  (λ _. update_interests-On w id))))))))

  guarded-On : (id : ℕ) {action : Action Done} → Sound w action → Sound w (guarded w id action)
  unfolding guarded
  guarded-On id t = Triple-catch {E' = Left w} t (
      on_failure-On w (λ operation errno.
        Runs-after w v (Keeps-stat v.calm w _ _) (λ _. close_session-Runs w id operation errno)))

  dispatch_target-On :
      (flags : Flags) (target : Option Target) → Sound w (dispatch_target w flags target)
  unfolding dispatch_target
  dispatch_target-On flags none = Runs-keeps w v (Keeps-observation v.calm w _ _ _ _)
  dispatch_target-On flags (some target) = Runs-read w target.session_id (λ x.
      guarded-On target.session_id (dispatch_live-On target.session_id (side_of target.side) flags))

  dispatch_endpoint-On :
      (token : ℕ) (flags : Flags) → Sound w (dispatch_endpoint_event w token flags)
  unfolding dispatch_endpoint_event
  dispatch_endpoint-On token flags = Runs-gets w _ (dispatch_target-On flags)

  wake_end-On : (time id : ℕ) (side : Side) → Sound w (wake_end w time id side)
  unfolding wake_end
  wake_end-On time id side = Runs-read w id (λ x.
      Triple-if (is_due w time (x.ends side))
        (λ _. Runs-modify w _ (change-On id (deferred-IsHarmless side 0)) (Sound-pure true))
        (λ _. Sound-pure false))

  retry_session-On : (id : ℕ) → Sound w (retry_session w id)
  unfolding retry_session
  retry_session-On id = Runs-after w v (Keeps-observation v.calm w _ _ _ _) (λ _.
      Runs-then w (advance_connected-On id)
        (λ finished. Triple-if finished (λ _. close_drained-On id) (λ _. update_interests-On w id)))

  process_deadline-On : (time id : ℕ) → Sound w (process_deadline w time id)
  unfolding process_deadline
  process_deadline-On time id = Runs-read w id (λ x.
      Triple-if (expired x time (timeout_of w x))
        (λ _. Runs-after w v (Keeps-stat v.calm w _ _) (λ _. close_session-Runs w id _ _))
        (λ _. Runs-then w (wake_end-On time id client) (λ r0.
          Runs-then w (wake_end-On time id backend)
            (λ r1. Sound-when (r0 || r1) (guarded-On id (retry_session-On id))))))

  process_deadlines-On : (time : ℕ) (ids : List ℕ) → Sound w (process_deadlines w time ids)
  unfolding process_deadlines
  process_deadlines-On time [] = Sound-pure tt
  process_deadlines-On time (id ∷ ids) = Runs-gets w _ (λ stop.
      Triple-if stop (λ _. Sound-pure tt)
        (λ _. Runs-then w (process_deadline-On time id) (λ _. process_deadlines-On time ids)))

  restore_listener-On : Sound w (restore_listener w)
  unfolding restore_listener
  restore_listener-On =
      Runs-after w v (Keeps-call v.calm _ _)
        (λ errno. Runs-then w (throw_errno-On w _ errno) (λ _. Triple-modify _ (λ s p. p)))

  process_session_deadlines-On : Sound w (process_session_deadlines w)
  unfolding process_session_deadlines
  process_session_deadlines-On = Runs-gets w _ (λ stop.
      Triple-if stop (λ _. Sound-pure tt)
        (λ _. Runs-after w v (Keeps-time v.calm w) (λ time. Runs-gets w _ (λ due.
          Runs-then w (Sound-when due restore_listener-On)
            (λ _. Runs-gets w _ (process_deadlines-On time))))))

  end_rest-On : (id : ℕ) (side : Side) → Sound w (end_rest w id side)
  unfolding end_rest
  end_rest-On id side = Runs-after w v (Keeps-time v.calm w) (λ time. Runs-read w id (λ x.
      Sound-when (leb (x.ends side).deferred time)
        (Triple-modify _ (change-On id (deferred-IsHarmless side 0)))))

  drain_session-On : (id : ℕ) → Sound w (drain_session w id)
  unfolding drain_session
  drain_session-On id = Runs-read w id (λ x.
      Triple-if x.connecting (λ _. close_session-Runs w id _ 0)
        (λ _.
          Runs-then w (end_rest-On id client)
            (λ _. Runs-then w (end_rest-On id backend) (λ _. dispatch_endpoint-On _ _))))

  drain_sessions-On : (ids : List ℕ) → Sound w (drain_sessions w ids)
  unfolding drain_sessions
  drain_sessions-On [] = Sound-pure tt
  drain_sessions-On (id ∷ ids) = Runs-then w consume (λ _. Runs-gets w _ (λ stop.
      Triple-if stop (λ _. Sound-pure tt)
        (λ _. Runs-then w (drain_session-On id) (λ _. drain_sessions-On ids))))

  dispatch_listener-On : (flags : Flags) → Sound w (dispatch_listener w flags)
  unfolding dispatch_listener
  dispatch_listener-On flags = Runs-gets w _ (λ draining.
      Triple-if draining (λ _. Sound-pure tt)
        (λ _.
          Triple-if (flags.err || flags.hup) (λ _. Triple-throw _ v.weak)
            (λ _.
              Runs-after w v (Keeps-time v.calm w)
                (λ time. Runs-gets w _ (λ retry. Sound-when (leb retry time) (accept-On w))))))

  dispatch_ready-On : (events : List (ℕ × Flags)) → Sound w (dispatch_tcp_ready_events w events)
  unfolding dispatch_tcp_ready_events
  dispatch_ready-On [] = Sound-pure tt
  dispatch_ready-On ((token, flags) ∷ events) = Runs-then w consume (λ _. Runs-gets w _ (λ stop.
      Triple-if stop (λ _. Sound-pure tt)
        (λ _.
          Runs-then w
            (Triple-if (token == 1) (λ _. dispatch_listener-On flags)
              (λ _. Sound-when (not (token == 2)) (dispatch_endpoint-On token flags)))
            (λ _. dispatch_ready-On events))))

  maintain-On : Sound w (maintain w)
  unfolding maintain
  maintain-On = Runs-then w process_session_deadlines-On (λ _.
      Runs-gets w _
        (λ draining. Sound-when (not draining) (Runs-keeps w v (Keeps-callback v.calm _ _))))

  -- A round that ends the loop leaves no session.
  abbrev pub Ends : Bool → TcpReactor → Type 0
  Ends goes_on s = On Facts s × (goes_on ≡ false → s.sessions ≡ [])

  goes_on-Ends : Runs w (On Facts) (pure true) Ends
  goes_on-Ends = Triple-pure true (λ s p. (p, λ e. absurd (cc)))

  handle_batch-On :
      (batch : Outcome ℕ (List (ℕ × Flags))) → Runs w (On Facts) (handle_batch w batch) Ends
  unfolding handle_batch
  handle_batch-On (thrown errno) =
      Triple-if (errno == eintr) (λ _. goes_on-Ends) (λ _. Triple-throw _ v.weak)
  handle_batch-On (ok events) = Runs-then w consume (λ _. Runs-gets w _ (λ stop.
      Triple-if stop (λ _. goes_on-Ends)
        (λ _. Runs-gets w _ (λ draining.
          Runs-then w (Sound-when (not draining) maintain-On)
            (λ _. Runs-then w (dispatch_ready-On events) (λ _. goes_on-Ends))))))

  poll_timeout-On : (draining : Bool) → Sound w (poll_timeout w draining)
  unfolding poll_timeout
  poll_timeout-On false = Sound-pure 100
  poll_timeout-On true =
      Runs-after w v (Keeps-time v.calm w) (λ time. Runs-keeps w v (Keeps-gets v.calm _))

  poll_events-On : Runs w (On Facts) (poll_events w) Ends
  unfolding poll_events
  poll_events-On = Runs-gets w _ (λ draining. Runs-then w (poll_timeout-On draining) (λ timeout.
      Runs-after w v (Keeps-observation v.calm w _ _ _ _)
        (λ _. Runs-after w v (Keeps-call v.calm _ _) handle_batch-On)))

  nil_of_length : (m : Map ℕ Session) (n : ℕ) → length m ≡ n → (n == 0) ≡ true → m ≡ []
  nil_of_length [] n h e = refl
  nil_of_length (p ∷ m) n h e = absurd (ground arith)

  drain_round-On : Runs w (On Facts) (drain_round w) Ends
  unfolding drain_round advance_stop_drain
  drain_round-On = Runs-then w (Runs-gets w _ drain_sessions-On) (λ _.
      Triple-bind {M = λ left s. On Facts s × (length s.sessions ≡ left)}
        (Triple-gets _ (λ s p. (p, refl)))
        (λ left.
          Triple-if (left == 0)
            (λ e. Triple-pure false (λ s (p, h). (p, λ _. nil_of_length s.sessions left h e)))
            (λ _. Triple-weaken poll_events-On (λ s p. p.0) (λ a s p. p) (λ x s p. p))))

  stop_now-On : Runs w (On Facts) (stop_now w) Ends
  unfolding stop_now
  stop_now-On = Runs-gets w _ (λ reason.
      Triple-bind {M = λ _ s. On Facts s × Has [] s}
        (Triple-weaken
          (Triple-both (close_all-Keeps v Facts-Unlinks w reason) (close_all-Has w reason))
          (λ s p. (p, v.weak s p)) (λ a s p. p)
          (λ x s ((c, p), q). Left-callback w x s c (v.weak s p)))
        (λ _. Triple-pure false (λ s (p, (q, e)). (p, λ _. e))))

  event_round-On : Runs w (On Facts) (event_round w) Ends
  unfolding event_round
  event_round-On = Runs-then w consume (λ _. Runs-gets w _ (λ stop.
      Triple-if stop (λ _. stop_now-On)
        (λ _. Runs-gets w _ (λ draining.
          Triple-if draining (λ _. drain_round-On)
            (λ _. Runs-then w process_session_deadlines-On (λ _. poll_events-On))))))

  -- The loop was cut, or it ended and no session is left.
  abbrev pub Ended : Option ℕ → TcpReactor → Type 0
  Ended result s = On Facts s × (result ≢ none → s.sessions ≡ [])

  event_rounds-On : (rounds : ℕ) → Runs w (On Facts) (event_rounds w rounds) Ended
  unfolding event_rounds
  event_rounds-On zero = Triple-pure none (λ s p. (p, λ h. absurd (h refl)))
  event_rounds-On (suc rounds) = Triple-bind {M = Ends} event_round-On (λ goes_on.
      Triple-if goes_on
        (λ _. Triple-weaken (event_rounds-On rounds) (λ s p. p.0) (λ a s p. p) (λ x s p. p))
        (λ e. Triple-pure (some 0) (λ s (p, h). (p, λ _. h e))))

  pub event_loop-On : (rounds : ℕ) → Runs w (On Facts) (run_tcp_event_loop w rounds) Ended
  unfolding run_tcp_event_loop
  event_loop-On rounds = Runs-after w v (Keeps-required v.calm _ _) (λ _. event_rounds-On rounds)
