-- ===== src/Tcp/Reactor/Facts/Stop.antt =====
-- `consumeStopSignals` keeps every property of the tables, ends, and returns `false` only while no
-- signal has come.
use mathlib.Core.Path.{◌≡◌, refl}
use l4_load_balancer_with_xd.Prelude.{
  ◌≢◌, ℕ, zero, suc, ◌≤◌, Bool, true, false, not, leb, ◌==◌, ==_iff, arith, ap, ◌<◌, ◌||◌, ◌∙◌, sym,
  u64_max, if◌then◌else◌,
}
use l4_load_balancer_with_xd.Prelude.Exec.{Outcome, ok, thrown, pure, gets, modify, ◌>>=◌}
use l4_load_balancer_with_xd.Prelude.Exec.Triple.{
  Triple-pure, Triple-throw, Triple-gets, Triple-if, Triple-bind, Triple-weaken, Triple-assume,
}
use l4_load_balancer_with_xd.Udp.Flow.{eintr, eagain}
use l4_load_balancer_with_xd.Tcp.World.{reads_signal, World}
use l4_load_balancer_with_xd.Tcp.Reactor.{TcpReactor, Action, call_as, current_time}
use l4_load_balancer_with_xd.Tcp.Reactor.Stop.{
  SignalStep, again, drained, stopped, announce_stop, force_stop, detach_open_listener,
  start_draining, siginfo_size, signal_read, check_deadline, after_signal, read_stop_signals,
  unless_stopped, consume_stop_signals,
}
use l4_load_balancer_with_xd.Tcp.Reactor.Facts.{
  On, Tables, IsPrompt, trace, listener_closed, is_signal, signal_came, IsOrderly,
}
use l4_load_balancer_with_xd.Tcp.Reactor.Facts.Rules.{
  IsSteady, Runs, Runs-call, Runs-keeps, Keeps-when, Keeps-callback, Keeps-time, Keeps-observation,
  draining-IsSteady, Runs-then, Runs-gets, Runs-after, Runs-modify,
}

-- The rounds that the loop takes where no call is interrupted.
abbrev needed : Bool → ℕ
needed true = 1
needed false = 2

module _ (w : World) (T : Tables) (v : IsSteady (On T)) where
  abbrev Draining : TcpReactor → Type 0
  Draining s = On T s × (s.draining ≡ true)

  d : IsSteady Draining
  d = draining-IsSteady true v

  abbrev Enough : ℕ → TcpReactor → Type 0
  Enough fuel s = IsPrompt w → needed s.draining ≤ fuel

  abbrev Stepped : ℕ → SignalStep → TcpReactor → Type 0
  Stepped fuel step s = On T s × (step ≡ again → Enough fuel s)

  abbrev pub Answered : Bool → TcpReactor → Type 0
  Answered b s = On T s × (b ≡ false → s.draining ≡ false)

  force_stop-On : (fuel : ℕ) → Runs w (On T) (force_stop w) (Stepped fuel)
  unfolding force_stop
  force_stop-On fuel =
      Runs-modify w _ (λ s p. p)
        (Runs-after w v (Keeps-observation v.calm w _ _ _ _)
          (λ _. Triple-pure stopped (λ s p. (p, λ e. absurd (cc)))))

  -- A signal was read, but the listener is not closed yet.
  abbrev Closing : TcpReactor → Type 0
  Closing s =
      ((trace s.log).selects < u64_max → T s.next_session_id s.tokens s.sessions (trace s.log))
      × IsOrderly s.log
      × (signal_came s.log ≡ true)
      × (s.draining ≡ true)

  detach-Closing : (b : Bool) → Runs w Closing (detach_open_listener w b) (λ _. Closing)
  unfolding detach_open_listener
  detach-Closing true = Triple-pure 0 (λ s p. p)
  detach-Closing false = Runs-call w (λ c s p. p) _ _

  again_after_first :
      (fuel : ℕ) → (IsPrompt w → 1 ≤ fuel) → Runs w Draining (pure again) (Stepped fuel)
  again_after_first fuel enough =
      Triple-pure again (λ s (p, e). (p, λ _ prompt. rw e (enough prompt)))

  announce_stop-On :
      (fuel errno : ℕ)
      → (IsPrompt w → 1 ≤ fuel)
      → Runs w Draining (announce_stop w errno) (Stepped fuel)
  unfolding announce_stop
  announce_stop-On fuel errno enough = Runs-gets w _ (λ clients. Runs-gets w _ (λ backends.
      Runs-gets w _ (λ deadline. Runs-after w d (Keeps-observation d.calm w _ _ _ _) (λ _.
        Runs-after w d (Keeps-callback d.calm _ _) (λ _.
          Runs-after w d (Keeps-when d.calm _ (Keeps-callback d.calm _ _))
            (λ _. again_after_first fuel enough))))))

  -- Right after the reading of the signal descriptor, with the given draining.
  abbrev Came : Outcome ℕ ℕ → Bool → TcpReactor → Type 0
  Came answer b s =
      ((trace s.log).selects < u64_max → T s.next_session_id s.tokens s.sessions (trace s.log))
      × (IsOrderly s.log × (listener_closed s.log ≡ b))
      × (signal_came s.log ≡ (is_signal answer || b))
      × (s.draining ≡ b)

  -- No signal came, or another one.
  Came-On :
      (answer : Outcome ℕ ℕ) (b : Bool)
      → (is_signal answer || b) ≡ b
      → (s : TcpReactor) → Came answer b s
      → On T s
  Came-On answer b same s (f, o, h, e) = (f, (o.0, o.1 ∙ sym e), h ∙ same ∙ sym e)

  start_draining-On :
      (fuel : ℕ) (answer : Outcome ℕ ℕ)
      → is_signal answer ≡ true
      → (IsPrompt w → 1 ≤ fuel)
      → Runs w (Came answer false) (start_draining w) (Stepped fuel)
  unfolding start_draining current_time
  start_draining-On fuel answer signal enough =
      Runs-modify w {R = Closing} _ (λ s (f, o, h, e). (f, o.0, ground arith, refl))
        (Triple-bind {M = λ _. Closing} (Runs-call w (λ c s p. p) _ _) (λ time.
          Runs-modify w {R = Closing} _ (λ s p. p)
            (Runs-gets w _ (λ deferred. Runs-then w (detach-Closing deferred) (λ errno.
              Runs-modify w {R = Draining} _
                (λ s (f, o, h, e). ((f, ((h, o), sym e), h ∙ sym e), e))
                (announce_stop-On fuel errno enough))))))

  signal_read-On :
      (fuel : ℕ) (answer : Outcome ℕ ℕ) (b : Bool)
      → (IsPrompt w → needed b ≤ suc fuel)
      → (IsPrompt w → answer ≢ thrown eintr)
      → Runs w (Came answer b) (signal_read w answer b) (Stepped fuel)
  unfolding signal_read
  signal_read-On fuel (thrown errno) b enough calls =
      let on = Came-On (thrown errno) b refl in
      Triple-if (errno == eintr)
        (λ e. Triple-pure again (λ s p.
          (on s p, λ _ prompt. absurd (calls prompt (ap thrown ((==_iff errno eintr).0 e))))))
        (λ _.
          Triple-if (errno == eagain) (λ _. Triple-pure drained (λ s p. (on s p, λ e. absurd (cc))))
            (λ _. Triple-throw _ (λ s p. v.weak s (on s p))))
  signal_read-On fuel (ok count) b enough calls =
      Triple-if (not (count == siginfo_size w))
        (λ e. Triple-throw _ (λ s p. v.weak s (Came-On (ok count) b (ground arith) s p)))
        (λ signal. after_reading b enough (ground arith))
    where
      after_reading :
          (b : Bool)
          → (IsPrompt w → needed b ≤ suc fuel)
          → is_signal (ok count) ≡ true
          → Runs w (Came (ok count) b) (if b then force_stop w else start_draining w) (Stepped fuel)
      after_reading true enough signal =
          Triple-weaken (force_stop-On fuel) (Came-On (ok count) true (ground arith)) (λ a s p. p)
            (λ x s p. p)
      after_reading false enough signal =
          start_draining-On fuel (ok count) signal (λ prompt. ground (arith, enough prompt))

  check_deadline-On :
      (b : Bool) → Runs w (λ s. On T s × (s.draining ≡ b)) (check_deadline w b) Answered
  unfolding check_deadline
  check_deadline-On false = Triple-gets _ (λ s (p, e). (p, λ _. e))
  check_deadline-On true = Runs-after w d (Keeps-time d.calm w) (λ time. Runs-gets w _ (λ deadline.
      Triple-bind {M = λ _. Draining}
        (Triple-if (leb deadline time)
          (λ _. Runs-modify w _ (λ s p. p) (Runs-keeps w d (Keeps-observation d.calm w _ _ _ _)))
          (λ _. Triple-pure tt (λ s p. p)))
        (λ _. Triple-pure true (λ s (p, e). (p, λ e. absurd (cc))))))

  after_signal-On :
      (fuel : ℕ) (step : SignalStep) {loop : Action Bool}
      → Runs w (λ s. On T s × Enough fuel s) loop Answered
      → Runs w (Stepped fuel step) (after_signal w loop step) Answered
  unfolding after_signal
  after_signal-On fuel again t = Triple-weaken t (λ s (p, e). (p, e refl)) (λ a s p. p) (λ x s p. p)
  after_signal-On fuel drained t =
      Triple-bind {M = λ b s. On T s × (s.draining ≡ b)} (Triple-gets _ (λ s p. (p.0, refl)))
        check_deadline-On
  after_signal-On fuel stopped t = Triple-pure true (λ s p. (p.0, λ e. absurd (cc)))

  abbrev Read : ℕ → Outcome ℕ ℕ → TcpReactor → Type 0
  Read fuel answer s =
      Came answer s.draining s × Enough fuel s × (IsPrompt w → answer ≢ thrown eintr)

  signal_call :
      (fuel : ℕ)
      → Runs w (λ s. On T s × Enough fuel s) (call_as reads_signal w.read_signal) (Read fuel)
  unfolding call_as pure gets modify ◌>>=◌
  signal_call fuel = record {
    at = λ s ((f, o, h), e). (
      (f, o, ap (λ b. is_signal (w.read_signal s.log) || b) h, refl),
      e,
      λ prompt. prompt.signals s.log,
    );
  }

  read_stop_signals-On :
      (fuel : ℕ) → Runs w (λ s. On T s × Enough fuel s) (read_stop_signals w fuel) Answered
  unfolding read_stop_signals
  read_stop_signals-On zero =
      Triple-throw _ (λ s (p, e). (v.weak s p, λ prompt. none_left s.draining (e prompt)))
    where
      none_left : (b : Bool) → needed b ≤ 0 → ⊥
      none_left true h = omega arith
      none_left false h = omega arith
  read_stop_signals-On (suc fuel) =
      Triple-bind {M = Read (suc fuel)} (signal_call (suc fuel)) (λ answer.
        Triple-bind
          {M = λ b s.
            Came answer b s
            × ((IsPrompt w → needed b ≤ suc fuel) × (IsPrompt w → answer ≢ thrown eintr))}
          (Triple-gets _ (λ s (p, e, c). (p, (e, c))))
          (λ b.
            Triple-bind {M = Stepped fuel}
              (Triple-assume (λ f. signal_read-On fuel answer b f.0 f.1))
              (λ step. after_signal-On fuel step (read_stop_signals-On fuel))))

  patient : IsPrompt w → (b : Bool) → needed b ≤ w.patience
  patient prompt true = omega (arith, prompt.patient)
  patient prompt false = omega (arith, prompt.patient)

  unless_stopped-On : (b : Bool) → Runs w (On T) (unless_stopped w b) Answered
  unfolding unless_stopped
  unless_stopped-On true = Triple-pure true (λ s p. (p, λ e. absurd (cc)))
  unless_stopped-On false =
      Triple-weaken (read_stop_signals-On w.patience)
        (λ s p. (p, λ prompt. patient prompt s.draining)) (λ a s p. p) (λ x s p. p)

  pub consume-On : Runs w (On T) (consume_stop_signals w) Answered
  unfolding consume_stop_signals
  consume-On = Runs-gets w _ unless_stopped-On

  -- Where the answer is not used.
  pub consume-keeps : Runs w (On T) (consume_stop_signals w) (λ _. On T)
  consume-keeps = Triple-weaken consume-On (λ s p. p) (λ a s p. p.0) (λ x s p. p)
