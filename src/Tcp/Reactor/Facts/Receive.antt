-- ===== src/Tcp/Reactor/Facts/Receive.antt =====
-- `readSessionDirection` keeps the invariant: the bytes of a `recv` go behind those that wait, and
-- none are read after a signal or after the end of the stream.
use mathlib.Core.Path.{◌≡◌, refl}
use l4_load_balancer_with_xd.Prelude.{
  ◌∙◌, ◌≢◌, ℕ, zero, suc, ◌-◌, ◌≤◌, ◌<◌, Bool, true, false, ◌||◌, Option, none, some, [], ◌∷◌, ◌==◌,
  ==_iff, arith, ap, inl, inr, length, length-take, min, Bool-cases, nat_eq,
}
use l4_load_balancer_with_xd.Prelude.Map.{Map}
use l4_load_balancer_with_xd.Prelude.Exec.{Outcome, ok, thrown, pure, gets, modify, ◌>>=◌}
use l4_load_balancer_with_xd.Prelude.Exec.Triple.{
  Triple-pure, Triple-throw, Triple-if, Triple-modify, Triple-bind, Triple-weaken, Triple-assume,
}
use l4_load_balancer_with_xd.Config.Bytes.{Bytes}
use l4_load_balancer_with_xd.Udp.Flow.{eintr, eagain}
use l4_load_balancer_with_xd.Tcp.Buffer.{TcpPendingBuffer, buffer_limit, writable_bytes, receive}
use l4_load_balancer_with_xd.Tcp.Buffer.Fifo.{receive_refines}
use l4_load_balancer_with_xd.Tcp.Tokens.{EndpointTokens}
use l4_load_balancer_with_xd.Tcp.World.{Side, receives, World}
use l4_load_balancer_with_xd.Tcp.Reactor.{Session, TcpReactor, change, call_as, record_event}
use l4_load_balancer_with_xd.Tcp.Reactor.Transfer.{
  taken, set_pending, buffer_or_throw, mark_eof, pause_full, account_received, received_bytes,
  receive_once, after_receive, read_loop, read_session_direction,
}
use l4_load_balancer_with_xd.Tcp.Reactor.Facts.{
  Trace, Facts, IsPrefix, InOrder, On, SessionIs, IsPrompt, add_received, trace, Tables,
}
use l4_load_balancer_with_xd.Tcp.Reactor.Facts.Sound.{
  put_elim, append_at_self, append_at_other, receive-IsSound, IsPrefix-append,
}
use l4_load_balancer_with_xd.Tcp.Reactor.Facts.Changes.{moved-Facts}
use l4_load_balancer_with_xd.Tcp.Reactor.Facts.Rules.{
  IsSteady, Runs, Runs-keeps, Runs-then, Runs-after, Runs-modify, Keeps-time, Keeps-observation,
  On-IsSteady,
}
use l4_load_balancer_with_xd.Tcp.Reactor.Facts.Stop.{Answered, consume-On}
use l4_load_balancer_with_xd.Tcp.Reactor.Facts.Close.{Facts-IsSteady}
use l4_load_balancer_with_xd.Tcp.Reactor.Facts.Sessions.{
  At, At-IsSteady, forget, change-On, with_end-IsHarmless, Runs-session,
}
use l4_load_balancer_with_xd.Tcp.Reactor.Facts.Send.{append_at_nil, io_progress-IsHarmless}

-- The kernel gave `xs`, which are not in the buffer yet.
abbrev Given : ℕ → Side → Session → Bytes → Tables
Given id source x xs next tokens sessions t =
    (before : Trace) × (t ≡ add_received id source (ok xs) before)
    × SessionIs id x next tokens sessions before
    × (length xs ≤ writable_bytes (x.pending source))

Given-InOrder :
    (id : ℕ) (source : Side) (x : Session) (xs : Bytes) (next : ℕ) (tokens : EndpointTokens)
    (sessions : Map ℕ Session) (t : Trace)
    → Given id source x xs next tokens sessions t
    → InOrder t
Given-InOrder id source x xs next tokens sessions t (before, t_is, at, fits) = rw t_is (λ j i.
    elim (Bool-cases (id == j)) [
      | inl e ↦
          rw (← (==_iff id j).0 e, append_at_self id source xs before.received)
            (put_elim (λ i ys. IsPrefix (before.sent id i) ys) source _ (before.received id)
              (IsPrefix-append _ _ xs (at.0.in_order id source)) (at.0.in_order id) i)
      | inr e ↦ rw (append_at_other id source xs before.received j e) (at.0.in_order j i)
    ])

module _ (w : World) (id : ℕ) (source : Side) (x : Session) where
  abbrev OnGiven : Bytes → TcpReactor → Type 0
  OnGiven xs = On (Given id source x xs)

  Given-IsSteady : (xs : Bytes) → IsSteady (OnGiven xs)
  Given-IsSteady xs = On-IsSteady {T = Given id source x xs} (Given-InOrder id source x xs)

  -- A round of the loop moves some bytes, or no round follows.
  abbrev Moves : Option ℕ → TcpReactor → Type 0
  Moves none s = On Facts s
  Moves (some n) s = On Facts s × (IsPrompt w → 0 < n)

  abbrev AfterReceive : Outcome ℕ Bytes → TcpReactor → Type 0
  AfterReceive (thrown errno) s = At id x s × (IsPrompt w → errno ≢ eintr)
  AfterReceive (ok xs) s = OnGiven xs s

  answered :
      (size fd : ℕ) (s : TcpReactor) (answer : Outcome ℕ Bytes)
      → size ≤ writable_bytes (x.pending source)
      → (IsPrompt w → answer ≢ thrown eintr)
      → s.draining ≡ false
      → At id x s
      → AfterReceive
          (taken size answer)
          (record_event (receives id source fd (taken size answer)) s)
  answered size fd s (thrown errno) small prompt going (at, orderly, stops) =
      ((at, ((stops ∙ going, orderly.0), orderly.1), stops), λ p e. prompt p (ap thrown e))
  answered size fd s (ok xs) small prompt going (at, orderly, stops) = (
    (λ few. (trace s.log, refl, at few, omega (arith, length-take size xs))),
    ((stops ∙ going, orderly.0), orderly.1),
    stops,
  )

  receive_call :
      (size fd : ℕ)
      → size ≤ writable_bytes (x.pending source)
      → Runs w
          (λ s. At id x s × (s.draining ≡ false))
          (call_as (receives id source fd) (λ log. taken size (w.recv log)))
          AfterReceive
  unfolding call_as pure gets modify ◌>>=◌
  receive_call size fd small = record {
    at = λ s (at, going).
        answered size fd s (w.recv s.log) small (λ prompt. prompt.receiving s.log) going at;
  }

  account-At :
      (xs : Bytes) (b : TcpPendingBuffer) (s : TcpReactor)
      → 0 < length xs
      → (x.ends source).eof ≡ false
      → receive (x.pending source) xs ≡ some b
      → OnGiven xs s
      → On Facts (change id (set_pending source b) s)
  account-At xs b s some_bytes open_end received (given, orderly, stops) = (
    (λ few.
        let (before, t_is, at, fits) = given few in
        rw t_is
          (moved-Facts (set_pending source b) at
            (record {
              selects = refl;
              received = λ j h. append_at_other id source xs before.received j h;
              sent = λ j h. refl;
            })
            (rw (append_at_self id source xs before.received)
              (receive-IsSound source xs (at.0.sound id x at.1) some_bytes open_end received))
            (λ side. refl)).0),
    orderly,
    stops,
  )

  abbrev Stored : Bytes → TcpPendingBuffer → TcpReactor → Type 0
  Stored xs b s = OnGiven xs s × (receive (x.pending source) xs ≡ some b)

  receive_or_throw :
      (xs : Bytes) (o : Option TcpPendingBuffer)
      → 0 < length xs
      → receive (x.pending source) xs ≡ o
      → Runs w (OnGiven xs) (buffer_or_throw o) (Stored xs)
  receive_or_throw xs (some b) some_bytes e = Triple-pure b (λ s p. (p, e))
  receive_or_throw xs none some_bytes e = Triple-throw _ (λ s p. (
    (Given-IsSteady xs).weak s p,
    λ few.
        let (before, t_is, at, fits) = p.0 few in
        elim (receive_refines xs ((at.0.sound id x at.1).valid source) some_bytes) [
          | inl (le, c, e', valid, same) ↦ cc
          | inr (lt, e') ↦ omega arith
        ],
  ))

  pause_full-On : (size : ℕ) → Runs w (On Facts) (pause_full w id source size) (λ _. On Facts)
  unfolding pause_full
  pause_full-On size =
      Triple-if (size == buffer_limit)
        (λ _.
          Runs-modify w _
            (change-On id (
              with_end-IsHarmless source (λ e. record e { paused = true }) (λ e. refl) (λ e p. p)
                (λ e. refl)))
            (Runs-keeps w Facts-IsSteady (Keeps-observation Facts-IsSteady.calm w _ _ _ _)))
        (λ _. Triple-pure tt (λ s p. p))

  account_received-On :
      (xs : Bytes)
      → 0 < length xs
      → (x.ends source).eof ≡ false
      → Runs w (OnGiven xs) (account_received w id source x xs) (λ n. Moves (some n))
  unfolding account_received
  account_received-On xs some_bytes open_end =
      Triple-bind {M = Stored xs} (receive_or_throw xs _ some_bytes refl) (λ b.
        Triple-bind {M = λ _. On Facts}
          (Triple-modify _ (λ s (p, e). account-At xs b s some_bytes open_end e p))
          (λ _. Runs-after w Facts-IsSteady (Keeps-time Facts-IsSteady.calm w) (λ time.
            Runs-modify w _ (change-On id (io_progress-IsHarmless time (length xs))) (
              Runs-after w Facts-IsSteady (Keeps-observation Facts-IsSteady.calm w _ _ _ _) (λ _.
                Runs-then w (pause_full-On b.size)
                  (λ _. Triple-pure _ (λ s p. (p, λ _. some_bytes))))))))

  nothing_given : (s : TcpReactor) → OnGiven [] s → On Facts s
  nothing_given s (given, orderly, stops) = (
    (λ few.
        let (before, t_is, at, fits) = given few in
        rw (t_is, append_at_nil id source before.received) at.0),
    orderly,
    stops,
  )

  mark_eof-On : Runs w (On Facts) (mark_eof w id source) (λ _. On Facts)
  unfolding mark_eof
  mark_eof-On =
      Runs-modify w _
        (change-On id (
          with_end-IsHarmless source (λ e. record e { eof = true }) (λ e. refl) (λ e p. refl)
            (λ e. refl)))
        (Runs-keeps w Facts-IsSteady (Keeps-observation Facts-IsSteady.calm w _ _ _ _))

  received_bytes-On :
      (answer : Outcome ℕ Bytes)
      → (x.ends source).eof ≡ false
      → Runs w (AfterReceive answer) (received_bytes w id source x answer) Moves
  unfolding received_bytes
  received_bytes-On (thrown errno) open_end =
      Triple-if (errno == eintr)
        (λ e. Triple-pure (some 0) (λ s (at, calls).
          (forget id x s at, λ prompt. absurd (calls prompt ((==_iff errno eintr).0 e)))))
        (λ _.
          Triple-if (errno == eagain) (λ _. Triple-pure none (λ s p. forget id x s p.0))
            (λ _. Triple-throw _ (λ s p. forget id x s p.0)))
  received_bytes-On (ok []) open_end =
      Triple-weaken {P' = On Facts} (Runs-then w mark_eof-On (λ _. Triple-pure none (λ s p. p)))
        nothing_given (λ a s p. p) (λ e s p. p)
  received_bytes-On (ok (y ∷ ys)) open_end =
      Triple-bind {M = λ n. Moves (some n)} (account_received-On (y ∷ ys) (omega arith) open_end)
        (λ n. Triple-pure (some n) (λ s p. p))

  receive_once-On :
      (size : ℕ)
      → size ≤ writable_bytes (x.pending source)
      → (x.ends source).eof ≡ false
      → Runs w (λ s. At id x s × (s.draining ≡ false)) (receive_once w id source x size) Moves
  unfolding receive_once
  receive_once-On size small open_end =
      Triple-bind {M = AfterReceive} (receive_call size _ small)
        (λ answer. received_bytes-On answer open_end)

min-le : (a b : ℕ) → min a b ≤ a
min-le a b = omega arith

first_false : (a b : Bool) → (a || b) ≡ false → (a ≡ false) × (b ≡ false)
first_false true b h = absurd (cc)
first_false false b h = (refl, h)

module _ (w : World) (id : ℕ) (source : Side) where
  after_receive-On :
      (fuel budget : ℕ) (next : Option ℕ) (x : Session)
      → (IsPrompt w → budget < suc fuel)
      → (budget == 0) ≡ false
      → ((left : ℕ)
          → (IsPrompt w → left < fuel)
          → Runs w (On Facts) (read_loop w fuel id source left) (λ _. On Facts))
      → Runs w
          (Moves w id source x next)
          (after_receive w (read_loop w fuel id source) budget next)
          (λ _. On Facts)
  unfolding after_receive
  after_receive-On fuel budget none x enough more loop = Triple-pure tt (λ s p. p)
  after_receive-On fuel budget (some n) x enough more loop =
      Triple-assume
        (λ moved. loop (budget - n) (λ prompt. ground (arith, enough prompt, moved prompt)))

  read_loop-On :
      (fuel budget : ℕ)
      → (IsPrompt w → budget < fuel)
      → Runs w (On Facts) (read_loop w fuel id source budget) (λ _. On Facts)
  unfolding read_loop
  read_loop-On zero budget enough =
      Triple-throw _ (λ s p. (Facts-IsSteady.weak s p, λ prompt. omega (arith, enough prompt)))
  read_loop-On (suc fuel) budget enough = Runs-session w id (λ x.
      Triple-if ((x.ends source).eof || ((x.ends source).paused || budget == 0))
        (λ _. Triple-pure tt (forget id x))
        (λ more.
          let (open_end, rest) = first_false _ _ more in
          let (running, some_budget) = first_false _ _ rest in
          Triple-bind {M = Answered w (SessionIs id x) (At-IsSteady id x)}
            (consume-On w (SessionIs id x) (At-IsSteady id x))
            (λ stop.
              Triple-if (stop || min (writable_bytes (x.pending source)) budget == 0)
                (λ _. Triple-pure tt (λ s p. forget id x s p.0))
                (λ go.
                  Triple-bind {M = Moves w id source x}
                    (Triple-weaken (receive_once-On w id source x _ (min-le _ budget) open_end)
                      (λ s (p, going). (p, going (first_false _ _ go).0)) (λ a s p. p) (λ e s p. p))
                    (λ next.
                      after_receive-On fuel budget next x enough some_budget
                        (read_loop-On fuel))))))

  pub read-On : Runs w (On Facts) (read_session_direction w id source) (λ _. On Facts)
  unfolding read_session_direction
  read-On = read_loop-On w.patience buffer_limit (λ prompt. omega (arith, prompt.patient))
