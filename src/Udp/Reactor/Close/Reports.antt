-- ===== src/Udp/Reactor/Close/Reports.antt =====
-- Closing a flow goes through to its end, whichever of its reports throw; so does closing them all.
use mathlib.Core.Path.{◌≡◌, refl}
use l4_load_balancer_with_xd.Prelude.{
  ℕ, inl, inr, ap, ◌∙◌, Option, none, some, ◌∷◌, ◌==◌, if◌then◌else◌, length, nat_eq, Option-cases,
  Bool-cases,
}
use l4_load_balancer_with_xd.Prelude.Map.{find}
use l4_load_balancer_with_xd.Prelude.Exec.{Outcome, ok, pure, throw, gets, catch, modify, ◌>>=◌}
use l4_load_balancer_with_xd.Prelude.Exec.Triple.{bind-runs}
use l4_load_balancer_with_xd.Config.Bytes.{Bytes, codes}
use l4_load_balancer_with_xd.Metrics.{closed, error}
use l4_load_balancer_with_xd.Udp.Flow.{UdpFlow, key_instance}
use l4_load_balancer_with_xd.Udp.World.{
  Exception, Event, stat, observation, diagnostic, flow_event, detach, close_fd, Log, World,
}
use l4_load_balancer_with_xd.Udp.Reactor.{
  UdpReactor, Action, Unit₀, call, callback, rethrow, report_stat_event, report_observation,
}
use l4_load_balancer_with_xd.Udp.Reactor.Close.{
  attempt, drop_fd, unlink, detach_error, first_failure, attempt_close_error_report,
  attempt_close_diagnostic_report, attempt_closed_stat_report, attempt_closed_observation_report,
  attempt_flow_event_report, attempt_detach_reports, report_close, close_found, close_flow,
}

abbrev pub Callback : Type 0
Callback = Option (Log → Option Exception)

-- The event of a callback that is there.
abbrev pub logged : Callback → Event → Log → Log
logged none e log = log
logged (some f) e log = e ∷ log

abbrev with_log : Log → UdpReactor → UdpReactor
with_log log s = record s { log = log }

-- An action that returns, and whose only effect is on the log.
record Logs {A : Type 0} (m : Action A) (f : UdpReactor → Log → Log) (s : UdpReactor) : Type 0 where
  value : A
  runs : m s ≡ (ok value, with_log (f s s.log) s)

attempt-callback :
    (c : Callback) (e : Event) (failure : Option Exception) (s : UdpReactor)
    → Logs (attempt (callback c e) failure) (λ _. logged c e) s
unfolding attempt callback call pure throw gets modify catch ◌>>=◌
attempt-callback none e failure s = record { value = failure; runs = refl }
attempt-callback (some f) e failure s = elim (Option-cases (f s.log)) [
  | inl quiet ↦ record { value = failure; runs = rw quiet (unfold rethrow in refl) }
  | inr (x, thrown_x) ↦ record {
    value = first_failure failure x;
    runs = rw thrown_x (unfold rethrow in refl);
  }
]

pub rethrow-state : (failure : Option Exception) (s : UdpReactor) → (rethrow failure s).1 ≡ s
unfolding rethrow pure throw
rethrow-state none s = refl
rethrow-state (some x) s = refl

module _ (w : World) where
  -- The log after the reports of an error of the detachment.
  abbrev detach_log : ℕ → Log → Log
  detach_log detached log =
      if detached == 0
      then log
      else logged w.diagnostic_callback (diagnostic (codes "UDP epoll DEL") detached)
          (logged w.statistics_callback (stat error 1) log)

  detach-Logs :
      (detached : ℕ) (s : UdpReactor)
      → Logs (attempt_detach_reports w detached) (λ _. detach_log detached) s
  unfolding attempt_detach_reports attempt_close_error_report attempt_close_diagnostic_report
      report_stat_event pure
  detach-Logs detached s = elim (Bool-cases (detached == 0)) [
    | inl fine ↦ record { value = none; runs = rw (fine) refl }
    | inr failed ↦
        let first = attempt-callback w.statistics_callback (stat error 1) none s in
        let s' = with_log (logged w.statistics_callback (stat error 1) s.log) s in
        let second =
          attempt-callback w.diagnostic_callback (diagnostic (codes "UDP epoll DEL") detached)
            first.value s' in
        record { value = second.value; runs = rw failed (bind-runs _ _ first.runs ∙ second.runs) }
  ]

  -- The log after a closing, the newest event first.
  abbrev pub close_log : ℕ → UdpFlow → Bytes → ℕ → UdpReactor → Log
  close_log token flow reason errno s =
      let after = unlink token flow s in
      logged w.flow_callback (flow_event token flow.backend reason errno) (
        logged w.observation_callback
          (observation reason token (some flow.fd) (length after.flows)
            (length after.flow_tokens_by_key))
          (logged w.statistics_callback (stat closed 1) (
            detach_log (detach_error (w.epoll_del s.log))
              (close_fd flow.fd ∷ detach flow.fd ∷ s.log))))

  module _ (token : ℕ) (flow : UdpFlow) (reason : Bytes) (errno detached : ℕ) (s : UdpReactor) where
    report_close-state :
        (report_close w token flow reason errno detached s).1
        ≡ with_log
            (logged w.flow_callback (flow_event token flow.backend reason errno) (
              logged w.observation_callback
                (observation reason token
                  (some flow.fd)
                  (length s.flows)
                  (length s.flow_tokens_by_key))
                (logged w.statistics_callback (stat closed 1) (detach_log detached s.log))))
            s
    unfolding report_close attempt_closed_stat_report attempt_closed_observation_report
        attempt_flow_event_report report_stat_event
    report_close-state =
        let r0 = detach-Logs detached s in
        let l0 = detach_log detached s.log in
        let r1 = attempt-callback w.statistics_callback (stat closed 1) r0.value (with_log l0 s) in
        let l1 = logged w.statistics_callback (stat closed 1) l0 in
        let e2 =
          observation reason token (some flow.fd) (length s.flows) (length s.flow_tokens_by_key) in
        let r2 = attempt-callback w.observation_callback e2 r1.value (with_log l1 s) in
        let l2 = logged w.observation_callback e2 l1 in
        let observed : attempt (report_observation w reason token (some flow.fd)) r1.value
              (with_log l1 s)
            ≡ (ok r2.value, with_log (logged w.observation_callback e2 l1) s) =
          unfold report_observation attempt gets ◌>>=◌ in r2.runs in
        let r3 =
          attempt-callback w.flow_callback (flow_event token flow.backend reason errno) r2.value
            (with_log l2 s) in
        ap (λ (p : Outcome Exception Unit₀ × UdpReactor). p.1)
          (bind-runs _ _ r0.runs
            ∙ bind-runs _ _ r1.runs
            ∙ bind-runs _ _ observed
            ∙ bind-runs _ _ r3.runs)
        ∙ rethrow-state r3.value _

  -- Closing a flow takes it out of both tables, detaches and closes its descriptor, and makes each
  -- report whose callback is there, in this order: an error of the detachment, the end of the flow
  -- to the statistics, to the observer and to the service. No report that throws keeps a later one
  -- from being made or a table entry alive.
  pub close_flow_lem :
      (token : ℕ) (flow : UdpFlow) (reason : Bytes) (errno : ℕ) (s : UdpReactor)
      → find token s.flows ≡ some flow
      → (close_flow w token reason errno s).1
        ≡ record (unlink token flow s) { log = close_log token flow reason errno s }
  unfolding close_flow
  close_flow_lem token flow reason errno s found =
      unfold close_found call drop_fd gets modify pure ◌>>=◌ in
      rw found (
        report_close-state token flow reason errno (detach_error (w.epoll_del s.log))
          (record (unlink token flow s) { log = close_fd flow.fd ∷ detach flow.fd ∷ s.log }))
