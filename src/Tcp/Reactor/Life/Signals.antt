-- ===== src/Tcp/Reactor/Life/Signals.antt =====
-- The handling of signals keeps the count of the reports.
use mathlib.Core.Path.{refl}
use l4_load_balancer_with_xd.Prelude.{ℕ, zero, suc, Bool, true, false, ◌∷◌, arith, nat_eq}
use l4_load_balancer_with_xd.Prelude.Exec.{Outcome, ok, thrown, modify}
use l4_load_balancer_with_xd.Tcp.World.{World, close_listener}
use l4_load_balancer_with_xd.Tcp.Reactor.{Action}
use l4_load_balancer_with_xd.Tcp.Reactor.Stop.{
  SignalStep, again, drained, stopped, force_stop, detach_open_listener, announce_stop,
  start_draining, signal_read, check_deadline, after_signal, read_stop_signals, unless_stopped,
  consume_stop_signals,
}
use l4_load_balancer_with_xd.Tcp.Reactor.Life.{plain-Alive}
use l4_load_balancer_with_xd.Tcp.Reactor.Life.Rules.{
  Lives, Lives-gets, Lives-call_as, Lives-modify, Lives-bind, lives_rules,
}

module _ (w : World) where
  Lives-force_stop : Lives w (force_stop w)
  unfolding force_stop
  Lives-force_stop = search lives_rules depth 16 fits 3000

  Lives-detach_listener : (deferred : Bool) → Lives w (detach_open_listener w deferred)
  unfolding detach_open_listener
  Lives-detach_listener true = search lives_rules
  Lives-detach_listener false = search lives_rules

  Lives-announce_stop : (errno : ℕ) → Lives w (announce_stop w errno)
  unfolding announce_stop
  Lives-announce_stop errno = search lives_rules depth 16 fits 3000

  Lives-close_listener : Lives w (
      modify (λ s. record s {
        listener_open = false;
        listener_deferred = false;
        log = close_listener ∷ s.log;
      }))
  Lives-close_listener =
      Lives-modify w _ (λ s p few. plain-Alive close_listener (λ b id. refl) (omega arith) (p few))

  Lives-start_draining : Lives w (start_draining w)
  unfolding start_draining
  Lives-start_draining =
      search (Lives-close_listener, lives_rules, Lives-detach_listener, Lives-announce_stop) depth
        16 fits 3000

  Lives-signal_read :
      (answer : Outcome ℕ ℕ) (draining : Bool) → Lives w (signal_read w answer draining)
  unfolding signal_read
  Lives-signal_read (thrown errno) draining = search lives_rules depth 16 fits 3000
  Lives-signal_read (ok count) draining =
      search (lives_rules, Lives-force_stop, Lives-start_draining) depth 16 fits 3000

  Lives-check_deadline : (draining : Bool) → Lives w (check_deadline w draining)
  unfolding check_deadline
  Lives-check_deadline false = search lives_rules
  Lives-check_deadline true = search lives_rules depth 16 fits 3000

  Lives-after_signal :
      {loop : Action Bool} (step : SignalStep) → Lives w loop → Lives w (after_signal w loop step)
  unfolding after_signal
  Lives-after_signal again t = t
  Lives-after_signal drained t = search (lives_rules, Lives-check_deadline)
  Lives-after_signal stopped t = search lives_rules

  Lives-read_signals : (fuel : ℕ) → Lives w (read_stop_signals w fuel)
  unfolding read_stop_signals
  Lives-read_signals zero = search lives_rules
  Lives-read_signals (suc fuel) =
      Lives-bind w (Lives-call_as w _ _ (λ a b id. refl) (λ a log. omega arith)) (λ answer.
        Lives-bind w (Lives-gets w _) (λ draining.
          Lives-bind w (Lives-signal_read answer draining)
            (λ step. Lives-after_signal step (Lives-read_signals fuel))))

  Lives-unless_stopped : (stop : Bool) → Lives w (unless_stopped w stop)
  unfolding unless_stopped
  Lives-unless_stopped true = search lives_rules
  Lives-unless_stopped false = Lives-read_signals w.patience

  pub Lives-consume : Lives w (consume_stop_signals w)
  unfolding consume_stop_signals
  Lives-consume = search (lives_rules, Lives-unless_stopped)
