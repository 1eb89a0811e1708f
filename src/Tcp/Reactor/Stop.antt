-- ===== src/Tcp/Reactor/Stop.antt =====
-- `consumeStopSignals` of src/net/TcpReactor.cpp: the first signal starts the draining, the second
-- one or the deadline ends it.
use l4_load_balancer_with_xd.Prelude.{
  ℕ, zero, suc, ◌+◌, ◌*◌, Bool, true, false, not, none, [], ◌∷◌, leb, ◌==◌, if◌then◌else◌, add64,
}
use l4_load_balancer_with_xd.Prelude.Map.{Map}
use l4_load_balancer_with_xd.Prelude.Exec.{
  Outcome, ok, thrown, pure, throw, gets, modify, ◌>>=◌, ◌>>◌, when,
}
use l4_load_balancer_with_xd.Config.Bytes.{codes}
use l4_load_balancer_with_xd.Udp.Flow.{eintr, eagain, eio}
use l4_load_balancer_with_xd.Tcp.World.{
  Side, client, backend, Exception, system_error, reads_signal, detach_listener, close_listener,
  stopping, diagnostic, World,
}
use l4_load_balancer_with_xd.Tcp.Reactor.{
  Session, Action, call_as, call, callback, current_time, report_observation,
}

-- `event.pending[side] += session->pending[side].size()` over the sessions.
unfoldable pub pending_total : Side → Map ℕ Session → ℕ
pending_total side [] = 0
pending_total side ((id, x) ∷ rest) = add64 (x.pending side).size (pending_total side rest)

pub data SignalStep : Type 0 where
  again drained stopped : SignalStep

module _ (w : World) where
  -- The branch of the second signal.
  unfoldable pub force_stop : Action SignalStep
  unfolding report_observation
  force_stop = do
    modify (λ s. record s { stop_requested = true; stop_reason = codes "service-stop-forced" })
    report_observation w (codes "stop-forced") 0 none 0
    pure stopped

  unfoldable pub detach_open_listener : Bool → Action ℕ
  unfolding call
  detach_open_listener true = pure 0
  detach_open_listener false = call detach_listener w.epoll_ctl

  -- The reports of the first signal, after the listener was closed.
  unfoldable pub announce_stop : ℕ → Action SignalStep
  unfolding report_observation callback
  announce_stop errno = do
    clients ← gets (λ s. pending_total client s.sessions)
    backends ← gets (λ s. pending_total backend s.sessions)
    deadline ← gets (λ s. s.drain_deadline)
    report_observation w (codes "draining") 0 none 0
    callback w.stopping_callback (
        stopping (record {
          pending = λ side. elim side [ client ↦ clients | backend ↦ backends ];
          deadline_ns = deadline;
        }))
    when (not (errno == 0))
        (callback w.diagnostic_callback (diagnostic (codes "stop listener DEL") errno))
    pure again

  -- The branch of the first signal.
  unfoldable pub start_draining : Action SignalStep
  unfolding current_time detach_open_listener announce_stop
  start_draining = do
    modify (λ s. record s { draining = true })
    time ← current_time w
    modify (λ s. record s { drain_deadline = time + w.drain_timeout_ms * 1000000 })
    deferred ← gets (λ s. s.listener_deferred)
    errno ← detach_open_listener deferred
    modify (λ s. record s {
      listener_open = false;
      listener_deferred = false;
      log = close_listener ∷ s.log;
    })
    announce_stop errno

  -- `sizeof(signalfd_siginfo)`
  abbrev pub siginfo_size : ℕ
  siginfo_size = 128

  unfoldable pub signal_read : Outcome ℕ ℕ → Bool → Action SignalStep
  unfolding force_stop start_draining
  signal_read (thrown errno) draining =
      if errno == eintr
      then pure again
      else if errno == eagain
      then pure drained
      else throw (system_error (codes "read signalfd") errno)
  signal_read (ok count) draining =
      if not (count == siginfo_size)
      then throw (system_error (codes "read signalfd") eio)
      else if draining
      then force_stop
      else start_draining

  unfoldable pub check_deadline : Bool → Action Bool
  unfolding current_time report_observation
  check_deadline false = gets (λ s. s.stop_requested)
  check_deadline true = do
    time ← current_time w
    deadline ← gets (λ s. s.drain_deadline)
    when (leb deadline time) (do
      modify (λ s. record s { stop_requested = true; stop_reason = codes "service-stop-deadline" })
      report_observation w (codes "stop-deadline") 0 none 0)
    pure true

  unfoldable pub after_signal : Action Bool → SignalStep → Action Bool
  unfolding check_deadline
  after_signal loop again = loop
  after_signal loop drained = do draining ← gets (λ s. s.draining); check_deadline draining
  after_signal loop stopped = pure true

  unfoldable pub read_stop_signals : ℕ → Action Bool
  unfolding call_as signal_read after_signal
  read_stop_signals zero = throw Exception.unfinished
  read_stop_signals (suc fuel) = do
    answer ← call_as reads_signal w.read_signal
    draining ← gets (λ s. s.draining)
    step ← signal_read answer draining
    after_signal (read_stop_signals fuel) step

  unfoldable pub unless_stopped : Bool → Action Bool
  unfolding read_stop_signals
  unless_stopped true = pure true
  unless_stopped false = read_stop_signals w.patience

  unfoldable pub consume_stop_signals : Action Bool
  unfolding unless_stopped
  consume_stop_signals = do stop ← gets (λ s. s.stop_requested); unless_stopped stop
