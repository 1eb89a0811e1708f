-- ===== src/Udp/Reactor/Close/Keeps.antt =====
-- The closing of flows keeps every property of the tables that the removal of a flow from both of
-- them keeps.
use mathlib.Core.Path.{◌≡◌, refl}
use l4_load_balancer_with_xd.Prelude.{ℕ, zero, suc, Bool, Option, none, some, [], ◌∷◌, nat_eq}
use l4_load_balancer_with_xd.Prelude.Map.{Map, find, erase}
use l4_load_balancer_with_xd.Prelude.Exec.Triple.{
  Triple, Triple-pure, Triple-gets, Triple-modify, Triple-bind,
}
use l4_load_balancer_with_xd.Config.Bytes.{Bytes}
use l4_load_balancer_with_xd.Udp.Flow.{UdpFlowKey, UdpFlow, key_instance}
use l4_load_balancer_with_xd.Udp.World.{Exception, World}
use l4_load_balancer_with_xd.Udp.Reactor.{Action, Unit₀}
use l4_load_balancer_with_xd.Udp.Reactor.Keeps.{
  Tables, On, Keeps, Keeps-pure, Keeps-gets, Keeps-catch, Keeps-call, Keeps-modify, Keeps-bind,
  Keeps-when, keeps_rules,
}
use l4_load_balancer_with_xd.Udp.Reactor.Close.{
  attempt, drop_fd, attempt_close_error_report, attempt_close_diagnostic_report,
  attempt_closed_stat_report, attempt_closed_observation_report, attempt_flow_event_report,
  attempt_detach_reports, report_close, close_found, close_flow, close_due, expire_each,
  expire_idle_flows, close_first, close_each, close_all_flows, handle_socket_error,
}

abbrev pub Unlinks : Tables → Type 0
Unlinks T =
    (n : ℕ) (tokens : Map UdpFlowKey ℕ) (flows : Map ℕ UdpFlow) (token : ℕ) (flow : UdpFlow)
    → find token flows ≡ some flow
    → T n tokens flows
    → T n (erase flow.key tokens) (erase token flows)

module _ (T : Tables) where
  pub Keeps-attempt :
      {report : Action Unit₀} (failure : Option Exception)
      → Keeps T report
      → Keeps T (attempt report failure)
  unfolding attempt
  Keeps-attempt failure t =
      Keeps-catch T (Keeps-bind T t (λ _. Keeps-pure T failure)) (λ x. Keeps-pure T _)

  pub Keeps-drop_fd : (fd : ℕ) → Keeps T (drop_fd fd)
  unfolding drop_fd
  Keeps-drop_fd fd = Keeps-modify T _ (λ s p. p)

  module _ (w : World) where
    Keeps-attempt_detach_reports : (errno : ℕ) → Keeps T (attempt_detach_reports w errno)
    unfolding attempt_detach_reports attempt_close_error_report attempt_close_diagnostic_report
    Keeps-attempt_detach_reports errno = search (keeps_rules, Keeps-attempt) depth 16 fits 3000

    pub Keeps-report_close :
        (token : ℕ) (flow : UdpFlow) (reason : Bytes) (errno detached : ℕ)
        → Keeps T (report_close w token flow reason errno detached)
    unfolding report_close attempt_closed_stat_report attempt_closed_observation_report
        attempt_flow_event_report
    Keeps-report_close token flow reason errno detached =
        search (keeps_rules, Keeps-attempt, Keeps-attempt_detach_reports) depth 16 fits 3000

    module _ (unlinks : Unlinks T) where
      Keeps-close_found :
          (token : ℕ) (reason : Bytes) (errno : ℕ) (found : Option UdpFlow)
          → Triple
              (λ s. On T s × (find token s.flows ≡ found))
              (close_found w token reason errno found)
              (λ _. On T)
              (λ _. On T)
      unfolding close_found
      Keeps-close_found token reason errno none = Triple-pure tt (λ s p. p.0)
      Keeps-close_found token reason errno (some flow) =
          Triple-bind {M = λ _. On T} (Triple-modify _ (λ s (p, e). unlinks _ _ _ token flow e p))
            (λ _. Keeps-bind T (Keeps-call T _ _) (λ detached.
              Keeps-bind T (Keeps-drop_fd flow.fd)
                (λ _. Keeps-report_close token flow reason errno _)))

      pub Keeps-close_flow :
          (token : ℕ) (reason : Bytes) (errno : ℕ) → Keeps T (close_flow w token reason errno)
      unfolding close_flow
      Keeps-close_flow token reason errno =
          Triple-bind {M = λ found s. On T s × (find token s.flows ≡ found)}
            (Triple-gets _ (λ s p. (p, refl))) (Keeps-close_found token reason errno)

      Keeps-close_due : (token : ℕ) → Keeps T (close_due w token)
      unfolding close_due
      Keeps-close_due token = search (keeps_rules, Keeps-close_flow)

      Keeps-expire_each :
          (time : ℕ) (entries : Map ℕ UdpFlow) → Keeps T (expire_each w time entries)
      unfolding expire_each
      Keeps-expire_each time [] = Keeps-pure T tt
      Keeps-expire_each time ((token, flow) ∷ rest) =
          Keeps-bind T (Keeps-when T _ (Keeps-close_due token)) (λ _. Keeps-expire_each time rest)

      pub Keeps-expire_idle_flows : Keeps T (expire_idle_flows w)
      unfolding expire_idle_flows
      Keeps-expire_idle_flows = search (keeps_rules, Keeps-expire_each)

      Keeps-close_first :
          (entries : Map ℕ UdpFlow) (failure : Option Exception)
          → Keeps T (close_first w entries failure)
      unfolding close_first
      Keeps-close_first [] failure = Keeps-pure T failure
      Keeps-close_first ((token, flow) ∷ rest) failure =
          Keeps-attempt failure (Keeps-close_flow token _ 0)

      Keeps-close_each :
          (fuel : ℕ) (failure : Option Exception) → Keeps T (close_each w fuel failure)
      unfolding close_each
      Keeps-close_each zero failure = Keeps-pure T failure
      Keeps-close_each (suc fuel) failure =
          Keeps-bind T (Keeps-gets T _)
            (λ entries. Keeps-bind T (Keeps-close_first entries failure) (Keeps-close_each fuel))

      pub Keeps-close_all_flows : Keeps T (close_all_flows w)
      unfolding close_all_flows
      Keeps-close_all_flows = search (keeps_rules, Keeps-close_each)

      pub Keeps-handle_socket_error :
          (code : ℕ) (listener : Bool) (token : ℕ) (kind : Bytes)
          → Keeps T (handle_socket_error w code listener token kind)
      unfolding handle_socket_error
      Keeps-handle_socket_error code listener token kind =
          search (keeps_rules, Keeps-close_flow) depth 20 fits 5000
