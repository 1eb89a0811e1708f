-- ===== src/Tcp/Reactor/Facts/Accept.antt =====
-- `acceptClientSessions` keeps the invariant, whatever becomes of the connections.
use mathlib.Core.Path.{◌≡◌, refl}
use l4_load_balancer_with_xd.Prelude.{
  ◌≢◌, ℕ, zero, suc, ◌<◌, true, false, Option, none, some, leb, ◌==◌, ==_iff, arith, ap, ◌∙◌,
  nat_eq,
}
use l4_load_balancer_with_xd.Prelude.Exec.{
  Outcome, ok, thrown, pure, throw, gets, catch, modify, ◌>>=◌, ◌>>◌,
}
use l4_load_balancer_with_xd.Prelude.Exec.Triple.{
  Triple, Triple-pure, Triple-throw, Triple-gets, Triple-if, Triple-catch, Triple-modify,
  Triple-bind, Triple-weaken, Triple-assume,
}
use l4_load_balancer_with_xd.Config.Bytes.{Bytes}
use l4_load_balancer_with_xd.Config.Endpoint.{Endpoint}
use l4_load_balancer_with_xd.Udp.Flow.{eintr, eagain}
use l4_load_balancer_with_xd.Tcp.World.{Exception, select_backend, accept_connection, World}
use l4_load_balancer_with_xd.Tcp.Reactor.{TcpReactor, Action, Done, call_as, throw_errno}
use l4_load_balancer_with_xd.Tcp.Reactor.Accept.{
  is_lost_connection, is_resource_error, AcceptStep, goes_on, repeated, finished, start_session,
  close_rejected, start_selected, reject_full, accepted_connection, back_off, accept_answer,
  after_accept, accept_loop, accept_client_sessions,
}
use l4_load_balancer_with_xd.Tcp.Reactor.Facts.{Facts, On, Left, IsPrompt}
use l4_load_balancer_with_xd.Tcp.Reactor.Facts.Rules.{
  IsSteady, FromCallback, Keeps, Left-callback, Keeps-bind, Runs, Runs-keeps, Runs-then, Runs-gets,
  Runs-after, Runs-modify, Keeps-call, Keeps-when, Keeps-required, Keeps-stat, Keeps-time,
  Keeps-observation,
}
use l4_load_balancer_with_xd.Tcp.Reactor.Facts.Stop.{Answered, consume-On}
use l4_load_balancer_with_xd.Tcp.Reactor.Facts.Close.{close_session-Runs}
use l4_load_balancer_with_xd.Tcp.Reactor.Facts.Interests.{v}
use l4_load_balancer_with_xd.Tcp.Reactor.Facts.Connect.{
  Selected, Unset, Selected-IsSteady, Unset-IsSteady, select-On, insert-On, session_at-keeps,
  connect_session-On, on_failure-On,
}

module _ (w : World) where
  -- The identity that the session is about to get.
  abbrev Next : ℕ → TcpReactor → Type 0
  Next id s = On Selected s × (s.next_session_id ≡ id)

  start_session-On :
      (fd : ℕ) (target : Endpoint)
      → Runs w (On Selected) (start_session w fd target) (λ _. On Facts)
  unfolding start_session
  start_session-On fd target =
      Runs-after w Selected-IsSteady (Keeps-time Selected-IsSteady.calm w) (λ time.
        Triple-bind {M = Next} (Triple-gets _ (λ s p. (p, refl))) (λ id.
          let u = Unset-IsSteady id true in
          Runs-modify w {R = On (Unset id true)} _ (λ s (p, e). insert-On id fd time target w s p e)
            (Runs-after w u (Keeps-stat u.calm w _ _) (λ _.
              Runs-then w (session_at-keeps w u id) (λ x.
                Runs-after w u (Keeps-required u.calm _ _) (λ _.
                  Triple-catch {E' = Left w} (connect_session-On w id) (
                    on_failure-On w (λ operation errno.
                      Runs-after w v (Keeps-stat v.calm w _ _)
                        (λ _. close_session-Runs w id operation errno)))))))))

  close_rejected-On :
      {P : TcpReactor → Type 0} {E : Exception → TcpReactor → Type 0} (fd : ℕ)
      → IsSteady P
      → Triple P (close_rejected w fd) (λ _. P) E
  unfolding close_rejected
  close_rejected-On fd p = Triple-modify _ (p.calm _)

  -- Reports about a connection that is closed, also where one of them throws.
  rejected :
      {P : TcpReactor → Type 0} {m : Action Done} (fd : ℕ)
      → IsSteady P
      → Keeps P m
      → Runs w P (catch m (λ x. close_rejected w fd >> throw x) >> close_rejected w fd) (λ _. P)
  unfolding close_rejected
  rejected {P} fd p t =
      Triple-bind {M = λ _. P}
        (Triple-catch {E' = λ x s. FromCallback x × P s} t (λ x.
          Triple-bind {M = λ _ s. FromCallback x × P s}
            (Triple-modify _ (λ s (c, h). (c, p.calm _ s h)))
            (λ _. Triple-throw x (λ s (c, h). Left-callback w x s c (p.weak s h)))))
        (λ _. close_rejected-On fd p)

  start_selected-On :
      (fd : ℕ) (answer : Outcome ℕ (Option Endpoint))
      → Runs w (On Selected) (start_selected w fd answer) (λ _. On Facts)
  unfolding start_selected
  start_selected-On fd (thrown x) =
      Triple-bind {M = λ _. On Selected} (close_rejected-On fd Selected-IsSteady)
        (λ _. Triple-throw _ Selected-IsSteady.weak)
  start_selected-On fd (ok none) =
      Triple-weaken (rejected fd Selected-IsSteady (Keeps-stat Selected-IsSteady.calm w _ _))
        (λ s p. p) (λ a s (selected, orderly, stops). ((λ few. (selected few).0), orderly, stops))
        (λ x s p. p)
  start_selected-On fd (ok (some target)) = start_session-On fd target

  select_call :
      Runs w (On Facts) (call_as (λ _. select_backend) w.backend_selector) (λ _. On Selected)
  unfolding call_as pure gets modify ◌>>=◌
  select_call = record { at = λ s p. select-On s p }

  accepted-On : (fd : ℕ) → Runs w (On Facts) (accepted_connection w fd) (λ _. On Facts)
  unfolding accepted_connection reject_full
  accepted-On fd =
      Runs-modify w _ (λ s p. p)
        (Runs-gets w _ (λ count.
          Triple-if (leb w.max_sessions count)
            (λ _. rejected fd v (
              Keeps-bind v.calm (Keeps-stat v.calm w _ _)
                (λ _. Keeps-observation v.calm w _ _ _ _)))
            (λ _. Triple-bind {M = λ _. On Selected} select_call (start_selected-On fd))))

  pub throw_errno-On :
      (operation : Bytes) (errno : ℕ)
      → Runs w (On Facts) (throw_errno operation errno) (λ _. On Facts)
  unfolding throw_errno
  throw_errno-On operation errno =
      Triple-if (errno == 0) (λ _. Triple-pure tt (λ s p. p)) (λ _. Triple-throw _ v.weak)

  back_off-On : (errno : ℕ) → Runs w (On Facts) (back_off w errno) (λ _. On Facts)
  unfolding back_off
  back_off-On errno = Runs-after w v (Keeps-stat v.calm w _ _) (λ _. Runs-gets w _ (λ warned.
      Runs-after w v (Keeps-when v.calm _ (Keeps-required v.calm _ _)) (λ _.
        Runs-modify w _ (λ s p. p)
          (Runs-after w v (Keeps-call v.calm _ _) (λ failed.
            Runs-then w (throw_errno-On _ failed) (λ _.
              Runs-modify w _ (λ s p. p)
                (Runs-after w v (Keeps-time v.calm w) (λ time.
                  Runs-modify w _ (λ s p. p)
                    (Runs-keeps w v (Keeps-observation v.calm w _ _ _ _))))))))))

  -- A repeated attempt was interrupted.
  abbrev Tried : AcceptStep → TcpReactor → Type 0
  Tried step s = On Facts s × (IsPrompt w → step ≢ repeated)

  done : (step : AcceptStep) → step ≢ repeated → Runs w (On Facts) (pure step) Tried
  done step h = Triple-pure step (λ s p. (p, λ _. h))

  accept_answer-On :
      (answer : Outcome ℕ ℕ)
      → (IsPrompt w → answer ≢ thrown eintr)
      → Runs w (On Facts) (accept_answer w answer) Tried
  unfolding accept_answer
  accept_answer-On (ok fd) calls = Runs-then w (accepted-On fd) (λ _. done goes_on (λ e. cc))
  accept_answer-On (thrown errno) calls =
      Triple-if (errno == eagain) (λ _. done finished (λ e. cc))
        (λ _.
          Triple-if (errno == eintr)
            (λ e.
              Triple-pure repeated (λ s p.
                (p, λ prompt. absurd (calls prompt (ap thrown ((==_iff errno eintr).0 e))))))
            (λ _.
              Triple-if (is_lost_connection errno)
                (λ _. Runs-after w v (Keeps-stat v.calm w _ _) (λ _. done goes_on (λ e. cc)))
                (λ _.
                  Triple-if (is_resource_error errno)
                    (λ _. Runs-then w (back_off-On errno) (λ _. done finished (λ e. cc)))
                    (λ _. Triple-throw _ v.weak))))

  abbrev Accepted : Outcome ℕ ℕ → TcpReactor → Type 0
  Accepted answer s = On Facts s × (IsPrompt w → answer ≢ thrown eintr)

  accept_call :
      Runs w
        (λ s. On Facts s × (s.draining ≡ false))
        (call_as (λ _. accept_connection) w.accept)
        Accepted
  unfolding call_as pure gets modify ◌>>=◌
  accept_call = record {
    at = λ s ((facts, orderly, stops), going).
        ((facts, ((stops ∙ going, orderly.0), orderly.1), stops), λ prompt. prompt.accepting s.log);
  }

  after_accept-On :
      (left fuel : ℕ) (step : AcceptStep)
      → (IsPrompt w → left < fuel)
      → (IsPrompt w → step ≢ repeated)
      → ((left : ℕ)
          → (IsPrompt w → left < fuel)
          → Runs w (On Facts) (accept_loop w fuel left) (λ _. On Facts))
      → Runs w (On Facts) (after_accept w (accept_loop w fuel) left step) (λ _. On Facts)
  unfolding after_accept
  after_accept-On left fuel goes_on enough calls loop = loop left enough
  after_accept-On left fuel repeated enough calls loop =
      loop (suc left) (λ prompt. absurd (calls prompt refl))
  after_accept-On left fuel finished enough calls loop = Triple-pure tt (λ s p. p)

  accept_loop-On :
      (fuel left : ℕ)
      → (IsPrompt w → left < fuel)
      → Runs w (On Facts) (accept_loop w fuel left) (λ _. On Facts)
  unfolding accept_loop
  accept_loop-On zero left enough =
      Triple-throw _ (λ s p. (v.weak s p, λ prompt. omega (arith, enough prompt)))
  accept_loop-On (suc fuel) zero enough = Triple-pure tt (λ s p. p)
  accept_loop-On (suc fuel) (suc left) enough =
      Triple-bind {M = Answered w Facts v} (consume-On w Facts v) (λ stop.
        Triple-if stop (λ _. Triple-pure tt (λ s p. p.0))
          (λ going.
            Triple-bind {M = Accepted}
              (Triple-weaken accept_call (λ s (p, h). (p, h going)) (λ a s p. p) (λ x s p. p))
              (λ answer. Triple-assume (λ calls.
                Triple-bind {M = Tried} (accept_answer-On answer calls) (λ step.
                  Triple-assume (λ again.
                    after_accept-On left fuel step (λ prompt. omega (arith, enough prompt)) again
                      (accept_loop-On fuel)))))))

  pub accept-On : Runs w (On Facts) (accept_client_sessions w) (λ _. On Facts)
  unfolding accept_client_sessions
  accept-On = accept_loop-On w.patience 64 (λ prompt. omega (arith, prompt.patient))
