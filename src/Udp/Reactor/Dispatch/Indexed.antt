-- ===== src/Udp/Reactor/Dispatch/Indexed.antt =====
-- Every event, and so every run of the reactor, keeps the tables consistent.
use l4_load_balancer_with_xd.Prelude.{
  ℕ, zero, suc, Bool, true, false, Option, none, some, List, [], ◌∷◌, if◌then◌else◌, nat_eq,
}
use l4_load_balancer_with_xd.Prelude.Exec.{Outcome, ok, thrown, pure, ◌>>=◌}
use l4_load_balancer_with_xd.Prelude.Exec.Triple.{at_the_end}
use l4_load_balancer_with_xd.Udp.Flow.{UdpFlow}
use l4_load_balancer_with_xd.Udp.World.{Flags, World}
use l4_load_balancer_with_xd.Udp.Reactor.{Action, initial_reactor}
use l4_load_balancer_with_xd.Udp.Reactor.Keeps.{
  On, Keeps, Keeps-if, keeps_rules, Keeps-pure, Keeps-bind,
}
use l4_load_balancer_with_xd.Udp.Reactor.Close.{expire_idle_flows}
use l4_load_balancer_with_xd.Udp.Reactor.Close.Keeps.{Keeps-expire_idle_flows}
use l4_load_balancer_with_xd.Udp.Reactor.Indexes.{IsIndexed, IsIndexed-Unlinks, initial-IsIndexed}
use l4_load_balancer_with_xd.Udp.Reactor.Datagrams.Indexed.{Indexed, indexed_rules}
use l4_load_balancer_with_xd.Udp.Reactor.Datagrams.Reads.{
  handle_listener_read-Indexed, handle_backend_read-Indexed,
}
use l4_load_balancer_with_xd.Udp.Reactor.Dispatch.{
  listener_error, check_listener_error, dispatch_listener_event, backend_error, check_backend_error,
  hang_up, dispatch_live_flow, dispatch_backend_event, dispatch_flow_event, signals_read,
  consume_stop_signals, dispatch_events, handle_batch, event_round, event_rounds,
  run_udp_event_loop,
}

module _ (w : World) where
  listener_error-Indexed : (r : Outcome ℕ ℕ) → Keeps (Indexed w) (listener_error w r)
  unfolding listener_error
  listener_error-Indexed (thrown errno) = search keeps_rules
  listener_error-Indexed (ok code) = search indexed_rules

  check_listener_error-Indexed : (err : Bool) → Keeps (Indexed w) (check_listener_error w err)
  unfolding check_listener_error
  check_listener_error-Indexed false = search keeps_rules
  check_listener_error-Indexed true = search (keeps_rules, listener_error-Indexed)

  dispatch_listener-Indexed : (flags : Flags) → Keeps (Indexed w) (dispatch_listener_event w flags)
  unfolding dispatch_listener_event
  dispatch_listener-Indexed flags =
      search (keeps_rules, check_listener_error-Indexed, handle_listener_read-Indexed) depth 16 fits
        3000

  module _ (token : ℕ) where
    backend_error-Indexed :
        (fd : ℕ) (r : Outcome ℕ ℕ) → Keeps (Indexed w) (backend_error w token fd r)
    unfolding backend_error
    backend_error-Indexed fd (thrown errno) = search indexed_rules depth 16 fits 3000
    backend_error-Indexed fd (ok code) = search indexed_rules depth 16 fits 3000

    check_backend_error-Indexed :
        (err : Bool) (fd : ℕ) → Keeps (Indexed w) (check_backend_error w err token fd)
    unfolding check_backend_error
    check_backend_error-Indexed false fd = search keeps_rules
    check_backend_error-Indexed true fd = search (keeps_rules, backend_error-Indexed)

    hang_up-Indexed : Keeps (Indexed w) (hang_up w token)
    unfolding hang_up
    hang_up-Indexed = search indexed_rules

    dispatch_live_flow-Indexed :
        (flow : UdpFlow) (flags : Flags) → Keeps (Indexed w) (dispatch_live_flow w token flow flags)
    unfolding dispatch_live_flow
    dispatch_live_flow-Indexed flow flags =
        search
          (keeps_rules, check_backend_error-Indexed, hang_up-Indexed, handle_backend_read-Indexed)
          depth 16 fits 3000

    dispatch_backend-Indexed :
        (found : Option UdpFlow) (flags : Flags)
        → Keeps (Indexed w) (dispatch_backend_event w token found flags)
    unfolding dispatch_backend_event
    dispatch_backend-Indexed none flags = search keeps_rules
    dispatch_backend-Indexed (some flow) flags =
        search (indexed_rules, dispatch_live_flow-Indexed) depth 16 fits 3000

  dispatch_flow_event-Indexed :
      (token : ℕ) (flags : Flags) → Keeps (Indexed w) (dispatch_flow_event w token flags)
  unfolding dispatch_flow_event
  dispatch_flow_event-Indexed token flags =
      search (keeps_rules, dispatch_listener-Indexed, dispatch_backend-Indexed) depth 16 fits 3000

  signals_read-Indexed : (r : Outcome ℕ ℕ) → Keeps (Indexed w) (signals_read w r)
  unfolding signals_read
  signals_read-Indexed (ok count) = search keeps_rules
  signals_read-Indexed (thrown errno) = search keeps_rules

  consume_stop_signals-Indexed : Keeps (Indexed w) (consume_stop_signals w)
  unfolding consume_stop_signals
  consume_stop_signals-Indexed = search (keeps_rules, signals_read-Indexed)

  -- What the loop does unless a signal has come.
  unless_stopped :
      {m : Action Bool}
      → Keeps (Indexed w) m
      → Keeps (Indexed w) (consume_stop_signals w >>= λ stopped. if stopped then pure false else m)
  unless_stopped t =
      Keeps-bind (Indexed w) consume_stop_signals-Indexed
        (λ stopped. Keeps-if (Indexed w) stopped (Keeps-pure (Indexed w) false) t)

  dispatch_events-Indexed :
      (events : List (ℕ × Flags)) → Keeps (Indexed w) (dispatch_events w events)
  unfolding dispatch_events
  dispatch_events-Indexed [] = Keeps-pure (Indexed w) true
  dispatch_events-Indexed ((token, flags) ∷ events) = unless_stopped (
      Keeps-bind (Indexed w) (dispatch_flow_event-Indexed token flags)
        (λ _. dispatch_events-Indexed events))

  expire_idle_flows-Indexed : Keeps (Indexed w) (expire_idle_flows w)
  expire_idle_flows-Indexed = Keeps-expire_idle_flows (Indexed w) w (IsIndexed-Unlinks w)

  handle_batch-Indexed : (r : Outcome ℕ (List (ℕ × Flags))) → Keeps (Indexed w) (handle_batch w r)
  unfolding handle_batch
  handle_batch-Indexed (thrown errno) = search keeps_rules
  handle_batch-Indexed (ok events) =
      unless_stopped (search (keeps_rules, expire_idle_flows-Indexed, dispatch_events-Indexed))

  event_round-Indexed : Keeps (Indexed w) (event_round w)
  unfolding event_round
  event_round-Indexed =
      unless_stopped (search (keeps_rules, expire_idle_flows-Indexed, handle_batch-Indexed))

  event_rounds-Indexed : (rounds : ℕ) → Keeps (Indexed w) (event_rounds w rounds)
  unfolding event_rounds
  event_rounds-Indexed zero = Keeps-pure (Indexed w) none
  event_rounds-Indexed (suc rounds) = Keeps-bind (Indexed w) event_round-Indexed (λ goes_on.
      Keeps-if (Indexed w) goes_on (event_rounds-Indexed rounds) (Keeps-pure (Indexed w) (some 0)))

  run_udp_event_loop-Indexed : (rounds : ℕ) → Keeps (Indexed w) (run_udp_event_loop w rounds)
  unfolding run_udp_event_loop
  run_udp_event_loop-Indexed rounds = search (keeps_rules, event_rounds-Indexed)

-- From the start, after any number of rounds of the event loop, whatever the system calls and the
-- callbacks answer and wherever one of them throws: the two tables agree, that is each key leads to
-- a flow with that key and each flow is the one that its key leads to, no flow has one of the
-- tokens 1 and 2 or one that was not given out, and there are at most `max_flows` flows.
pub event_loop-IsIndexed :
    (w : World) (rounds : ℕ)
    → let s = (run_udp_event_loop w rounds initial_reactor).1 in
      IsIndexed w s.next_flow_token s.flow_tokens_by_key s.flows
event_loop-IsIndexed w rounds =
    at_the_end (On (Indexed w)) (run_udp_event_loop w rounds initial_reactor)
      ((run_udp_event_loop-Indexed w rounds).at initial_reactor (initial-IsIndexed w))
