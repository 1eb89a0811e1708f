-- ===== src/Tcp/Reactor/Life/Connecting.antt =====
-- `connectSessionBackend` keeps the count of the reports, and so does closing what it could not
-- connect.
use mathlib.Core.Path.{refl}
use l4_load_balancer_with_xd.Prelude.{ℕ, Option, none, some, nat_eq}
use l4_load_balancer_with_xd.Prelude.Exec.{Outcome, ok, thrown, catch, ◌>>◌}
use l4_load_balancer_with_xd.Config.Endpoint.{Endpoint}
use l4_load_balancer_with_xd.Metrics.{StatKind}
use l4_load_balancer_with_xd.Tcp.Tokens.{EndpointTokens}
use l4_load_balancer_with_xd.Tcp.World.{Side, Exception, session_failure, World}
use l4_load_balancer_with_xd.Tcp.Reactor.{Action, Done, report_stat_event, on_failure}
use l4_load_balancer_with_xd.Tcp.Reactor.Accept.{
  token_or_throw, register_side, set_token, open_backend_socket, connect_answer, connect_to,
  connect_session_backend,
}
use l4_load_balancer_with_xd.Tcp.Reactor.Close.{close_session}
use l4_load_balancer_with_xd.Tcp.Reactor.Life.{update-Alive}
use l4_load_balancer_with_xd.Tcp.Reactor.Life.Rules.{
  Lives, Lives-throw, Lives-gets, Lives-catch, Lives-modify, Lives-bind, Lives-stat, lives_rules,
}
use l4_load_balancer_with_xd.Tcp.Reactor.Life.Traffic.{Lives-update_interests}
use l4_load_balancer_with_xd.Tcp.Reactor.Life.Closing.{Lives-close_session}

module _ (w : World) where
  Lives-token :
      (id : ℕ) (side : Side) (r : Option (ℕ × EndpointTokens)) → Lives w (token_or_throw id side r)
  Lives-token id side none = search lives_rules
  Lives-token id side (some (token, tokens)) =
      Lives-modify w _ (λ s p few. update-Alive id (set_token side token) (λ x. refl) (p few))

  Lives-register : (id : ℕ) (side : Side) → Lives w (register_side id side)
  unfolding register_side
  Lives-register id side = Lives-bind w (Lives-gets w _) (Lives-token id side)

  Lives-open : (id : ℕ) (r : Outcome ℕ ℕ) → Lives w (open_backend_socket w id r)
  unfolding open_backend_socket
  Lives-open id (thrown errno) = search lives_rules
  Lives-open id (ok fd) = search lives_rules

  Lives-connect_answer : (id errno : ℕ) → Lives w (connect_answer w id errno)
  unfolding connect_answer
  Lives-connect_answer id errno = search lives_rules depth 16 fits 3000

  Lives-connect_to :
      (id : ℕ) (target : Endpoint) (fd : Option ℕ) → Lives w (connect_to w id target fd)
  unfolding connect_to
  Lives-connect_to id target none = search lives_rules
  Lives-connect_to id target (some fd) =
      search (lives_rules, Lives-connect_answer) depth 16 fits 3000

  pub Lives-connect : (id : ℕ) → Lives w (connect_session_backend w id)
  unfolding connect_session_backend
  Lives-connect id =
      search (lives_rules, Lives-open, Lives-register, Lives-connect_to, Lives-update_interests)
        depth 20 fits 5000

  -- The handler of a `SessionFailure` closes the session.
  pub Lives-guarded :
      (id : ℕ) {m : Action Done}
      → Lives w m
      → Lives w (
          catch m (
            on_failure w (λ operation errno.
              report_stat_event w StatKind.error 1 >> close_session w id operation errno)))
  Lives-guarded id t = Lives-catch w t handled
    where
      handled :
          (x : Exception)
          → Lives w (
              on_failure w
                (λ operation errno.
                  report_stat_event w StatKind.error 1 >> close_session w id operation errno)
                x)
      handled (session_failure operation errno) =
          Lives-bind w (Lives-stat w _ _) (λ _. Lives-close_session w id operation errno)
      handled Exception.bad_function_call = Lives-throw w _
      handled Exception.invalid_argument = Lives-throw w _
      handled Exception.logic_error = Lives-throw w _
      handled Exception.out_of_range = Lives-throw w _
      handled Exception.overflow_error = Lives-throw w _
      handled Exception.unfinished = Lives-throw w _
      handled (Exception.system_error operation errno) = Lives-throw w _
      handled (Exception.foreign x) = Lives-throw w _
