-- ===== src/Tcp/Reactor/Life/Starting.antt =====
-- `acceptClientSessions` keeps the count of the reports: a session is told of once, when it starts
-- with an identity that no other one had.
use mathlib.Core.Path.{◌≡◌, refl, subst}
use l4_load_balancer_with_xd.Prelude.{
  ℕ, zero, suc, ◌≤◌, ◌<◌, true, Option, none, some, add64, arith, u64_max, nat_eq,
}
use l4_load_balancer_with_xd.Prelude.Map.{find, emplace}
use l4_load_balancer_with_xd.Prelude.Exec.{
  Outcome, ok, thrown, pure, throw, gets, catch, modify, ◌>>=◌, ◌>>◌,
}
use l4_load_balancer_with_xd.Prelude.Exec.Triple.{
  Triple, Triple-pure, Triple-throw, Triple-gets, Triple-modify, Triple-bind, Triple-weaken,
}
use l4_load_balancer_with_xd.Config.Endpoint.{Endpoint}
use l4_load_balancer_with_xd.Metrics.{StatKind}
use l4_load_balancer_with_xd.Tcp.World.{select_backend, read_clock, World}
use l4_load_balancer_with_xd.Tcp.World.Call.{session}
use l4_load_balancer_with_xd.Tcp.Reactor.{
  Session, TcpReactor, Action, Done, new_session, call_as, required_callback, found_or_throw,
  session_at, report_stat_event, current_time,
}
use l4_load_balancer_with_xd.Tcp.Reactor.Accept.{
  AcceptStep, goes_on, repeated, finished, accepted_event, insert_session, start_session,
  close_rejected, start_selected, reject_full, accepted_connection, back_off, accept_answer,
  after_accept, accept_loop, accept_client_sessions,
}
use l4_load_balancer_with_xd.Tcp.Reactor.Facts.{trace}
use l4_load_balancer_with_xd.Tcp.Reactor.Life.{
  reports, Alive, Life, plain-Alive, insert-Alive, start-Alive,
}
use l4_load_balancer_with_xd.Tcp.Reactor.Life.Rules.{
  Lives, Lives-pure, Lives-throw, Lives-gets, Lives-if, Lives-catch, Lives-call_as, call-Triple,
  callback-Triple, required-Triple, quiet-Life, Lives-modify, Lives-bind, Lives-stat,
  Lives-observation, lives_rules,
}
use l4_load_balancer_with_xd.Tcp.Reactor.Life.Signals.{Lives-consume}
use l4_load_balancer_with_xd.Tcp.Reactor.Life.Connecting.{Lives-connect, Lives-guarded}

module _ (w : World) where
  -- The selector was called for a session that has no identity yet.
  abbrev Selected : TcpReactor → Type 0
  Selected s =
      Life w s × ((trace s.log).selects < u64_max → s.next_session_id ≤ (trace s.log).selects)

  -- No start of the session was told.
  abbrev Untold : ℕ → TcpReactor → Type 0
  Untold id s = Life w s × ((trace s.log).selects < u64_max → reports true id s.log ≡ 0)

  abbrev Found : ℕ → Session → TcpReactor → Type 0
  Found id x s =
      Life w s
      × ((trace s.log).selects < u64_max → reports true id s.log ≡ 0)
      × (find id s.sessions ≡ some x)

  start_session-Lives :
      (fd : ℕ) (target : Endpoint)
      → Triple Selected (start_session w fd target) (λ _. Life w) (λ _. Life w)
  unfolding start_session
  start_session-Lives fd target = Triple-bind {M = λ _. Selected} time (λ time.
      Triple-bind {M = λ id s. Selected s × (s.next_session_id ≡ id)}
        (Triple-gets _ (λ s p. (p, refl)))
        (λ id.
          Triple-bind {M = λ _. Untold id}
            (Triple-modify _ (λ s ((p, counted), e). inserted id time s p counted e))
            (λ _. Triple-bind {M = λ _. Untold id} (created id) (λ _.
              Triple-bind {M = Found id} (found id) (λ x.
                Triple-bind {M = λ _. Life w} (accepted id x)
                  (λ _. Lives-guarded w id (Lives-connect w id)))))))
    where
      looked_up :
          (id : ℕ) (r : Option Session)
          → Triple
              (λ s. Untold id s × (find id s.sessions ≡ r))
              (found_or_throw r)
              (Found id)
              (λ _. Life w)
      looked_up id none = unfold found_or_throw in Triple-throw _ (λ s p. p.0.0)
      looked_up id (some x) = unfold found_or_throw in Triple-pure x (λ s ((p, q), e). (p, q, e))

      time : Triple Selected (current_time w) (λ _. Selected) (λ _. Life w)
      time =
          unfold current_time in
          call-Triple w.now read_clock
            (λ s (p, counted). (quiet-Life w _ (λ b i. refl) s p, counted))

      inserted :
          (id time : ℕ) (s : TcpReactor)
          → Life w s
          → ((trace s.log).selects < u64_max → s.next_session_id ≤ (trace s.log).selects)
          → s.next_session_id ≡ id
          → Untold id (insert_session w id fd target time s)
      inserted id time s p counted e = (
        (λ few.
            subst
              (λ i. Alive w (add64 i 1) (emplace i (new_session i fd target time) s.sessions) s.log)
              e
              (insert-Alive (p few) (new_session s.next_session_id fd target time) refl
                (counted few) few)),
        (λ few.
            subst (λ i. reports true i s.log ≡ 0) e
              (((p few).each s.next_session_id).fresh (omega arith)).1),
      )

      created :
          (id : ℕ)
          → Triple
              (Untold id)
              (report_stat_event w StatKind.created 1)
              (λ _. Untold id)
              (λ _. Life w)
      created id =
          unfold report_stat_event in
          callback-Triple w.statistics_callback _ (λ s p. p)
            (λ s (p, q). (quiet-Life w _ (λ b i. refl) s p, q)) (λ s p. p.0)

      found : (id : ℕ) → Triple (Untold id) (session_at id) (Found id) (λ _. Life w)
      found id =
          unfold session_at in
          Triple-bind {M = λ r s. Untold id s × (find id s.sessions ≡ r)}
            (Triple-gets _ (λ s p. (p, refl))) (looked_up id)

      accepted :
          (id : ℕ) (x : Session)
          → Triple
              (Found id x)
              (required_callback w.session_callback (session (accepted_event w x.id x.target)))
              (λ _. Life w)
              (λ _. Life w)
      accepted id x =
          required-Triple w.session_callback _ (λ s p. p.0)
            (λ on s (p, q, there) few.
              let v = p few in
              start-Alive id x (accepted_event w x.id x.target) on refl ((v.each id).live x there).0
                there (q few) v)
            (λ s p. p)

  Lives-close_rejected : (fd : ℕ) → Lives w (close_rejected w fd)
  unfolding close_rejected
  Lives-close_rejected fd = Lives-modify w _ (quiet-Life w _ (λ b i. refl))

  -- Reports about a connection that is closed, also where one of them throws.
  Lives-rejected :
      (fd : ℕ) {m : Action Done}
      → Lives w m
      → Lives w (catch m (λ x. close_rejected w fd >> throw x) >> close_rejected w fd)
  Lives-rejected fd t =
      Lives-bind w
        (Lives-catch w t (λ x. Lives-bind w (Lives-close_rejected fd) (λ _. Lives-throw w x)))
        (λ _. Lives-close_rejected fd)

  unselected :
      {A : Type 0} {m : Action A} → Lives w m → Triple Selected m (λ _. Life w) (λ _. Life w)
  unselected t = Triple-weaken t (λ s p. p.0) (λ a s p. p) (λ x s p. p)

  Lives-selected :
      (fd : ℕ) (answer : Outcome ℕ (Option Endpoint))
      → Triple Selected (start_selected w fd answer) (λ _. Life w) (λ _. Life w)
  unfolding start_selected
  Lives-selected fd (thrown x) =
      unselected (Lives-bind w (Lives-close_rejected fd) (λ _. Lives-throw w _))
  Lives-selected fd (ok none) = unselected (Lives-rejected fd (Lives-stat w _ _))
  Lives-selected fd (ok (some target)) = start_session-Lives fd target

  select_call :
      Triple
        (Life w)
        (call_as (λ _. select_backend) w.backend_selector)
        (λ _. Selected)
        (λ _. Life w)
  unfolding call_as pure gets modify ◌>>=◌
  select_call = record {
    at = λ s p. (
      λ few. plain-Alive select_backend (λ b i. refl) (omega arith) (p (omega arith)),
      λ few. (p (omega arith)).numbered,
    );
  }

  Lives-accepted : (fd : ℕ) → Lives w (accepted_connection w fd)
  unfolding accepted_connection reject_full
  Lives-accepted fd = Lives-bind w (Lives-modify w _ (λ s p. p)) (λ _.
      Lives-bind w (Lives-gets w _) (λ count.
        Lives-if w _
          (Lives-rejected fd (Lives-bind w (Lives-stat w _ _) (λ _. Lives-observation w _ _ _ _)))
          (Triple-bind {M = λ _. Selected} select_call (Lives-selected fd))))

  Lives-back_off : (errno : ℕ) → Lives w (back_off w errno)
  unfolding back_off
  Lives-back_off errno = search lives_rules depth 30 fits 9000

  Lives-answer : (answer : Outcome ℕ ℕ) → Lives w (accept_answer w answer)
  unfolding accept_answer
  Lives-answer (ok fd) = search (lives_rules, Lives-accepted)
  Lives-answer (thrown errno) = search (lives_rules, Lives-back_off) depth 16 fits 3000

  Lives-after_accept :
      {loop : ℕ → Action Done} (left : ℕ) (step : AcceptStep)
      → ((left : ℕ) → Lives w (loop left))
      → Lives w (after_accept w loop left step)
  unfolding after_accept
  Lives-after_accept left goes_on t = t left
  Lives-after_accept left repeated t = t (suc left)
  Lives-after_accept left finished t = Lives-pure w tt

  Lives-accept_loop : (fuel left : ℕ) → Lives w (accept_loop w fuel left)
  unfolding accept_loop
  Lives-accept_loop zero left = Lives-throw w _
  Lives-accept_loop (suc fuel) zero = Lives-pure w tt
  Lives-accept_loop (suc fuel) (suc left) = Lives-bind w (Lives-consume w) (λ stop.
      Lives-if w stop (Lives-pure w tt) (
        Lives-bind w (Lives-call_as w _ _ (λ a b i. refl) (λ a log. omega arith)) (λ answer.
          Lives-bind w (Lives-answer answer)
            (λ step. Lives-after_accept left step (Lives-accept_loop fuel)))))

  pub Lives-accept : Lives w (accept_client_sessions w)
  unfolding accept_client_sessions
  Lives-accept = Lives-accept_loop w.patience 64
