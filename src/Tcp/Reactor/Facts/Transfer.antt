-- ===== src/Tcp/Reactor/Facts/Transfer.antt =====
-- `advanceSessionIo` keeps the invariant: it shuts an end down only after the stream of the other
-- one has ended and all of its bytes have left.
use mathlib.Core.Path.{◌≡◌, refl}
use l4_load_balancer_with_xd.Prelude.{
  ◌≢◌, ℕ, zero, suc, ◌≤◌, ◌<◌, Bool, true, false, not, ◌&&◌, ◌==◌, ==_iff, if◌then◌else◌, arith,
  nat_eq,
}
use l4_load_balancer_with_xd.Prelude.Exec.{pure, gets, modify, ◌>>=◌, ◌>>◌}
use l4_load_balancer_with_xd.Prelude.Exec.Triple.{
  Triple-pure, Triple-throw, Triple-if, Triple-modify, Triple-bind, Triple-weaken, Triple-assume,
}
use l4_load_balancer_with_xd.Udp.Flow.{eintr}
use l4_load_balancer_with_xd.Tcp.Buffer.{buffer_limit}
use l4_load_balancer_with_xd.Tcp.World.{Side, client, backend, shutdown_write, World}
use l4_load_balancer_with_xd.Tcp.Reactor.{
  Session, TcpReactor, Action, other, with_end, change, call_as, call, session_at,
}
use l4_load_balancer_with_xd.Tcp.Reactor.Transfer.{
  after_shutdown, shutdown_loop, pass_eof, pass_ends, is_finished, all_sent,
  write_buffered_direction, advance_session_io,
}
use l4_load_balancer_with_xd.Tcp.Reactor.Facts.{Facts, On, SessionIs, IsPrompt, trace}
use l4_load_balancer_with_xd.Tcp.Reactor.Facts.Sound.{put_elim, shutdown-IsSound}
use l4_load_balancer_with_xd.Tcp.Reactor.Facts.Changes.{Elsewhere-refl, moved-Facts}
use l4_load_balancer_with_xd.Tcp.Reactor.Facts.Rules.{
  IsSteady, Runs, Runs-keeps, Runs-then, Runs-gets, Keeps-observation,
}
use l4_load_balancer_with_xd.Tcp.Reactor.Facts.Stop.{consume-keeps}
use l4_load_balancer_with_xd.Tcp.Reactor.Facts.Close.{Facts-IsSteady}
use l4_load_balancer_with_xd.Tcp.Reactor.Facts.Sessions.{
  At, At-IsSteady, forget, Runs-session, Runs-read,
}
use l4_load_balancer_with_xd.Tcp.Reactor.Facts.Send.{write-On, Leaves}
use l4_load_balancer_with_xd.Tcp.Reactor.Facts.Receive.{read-On}

both_true : (a b : Bool) → (a && b) ≡ true → (a ≡ true) × (b ≡ true)
both_true true b h = (refl, h)
both_true false b h = absurd (cc)

module _ (w : World) (id : ℕ) where
  module _ (x : Session) where
    v : IsSteady (At id x)
    v = At-IsSteady id x

    abbrev Shut : ℕ → TcpReactor → Type 0
    Shut errno s = At id x s × (IsPrompt w → errno ≢ eintr)

    shutdown_call : (fd : ℕ) → Runs w (At id x) (call (shutdown_write fd) w.shutdown) Shut
    unfolding call call_as pure gets modify ◌>>=◌
    shutdown_call fd = record { at = λ s p. (p, λ prompt. prompt.shutting s.log) }

    shutdown_loop-On :
        (fuel fd : ℕ)
        → (IsPrompt w → 0 < fuel)
        → Runs w (At id x) (shutdown_loop w fuel fd) (λ _. At id x)
    unfolding shutdown_loop after_shutdown
    shutdown_loop-On zero fd enough =
        Triple-throw _ (λ s p. (v.weak s p, λ prompt. omega (arith, enough prompt)))
    shutdown_loop-On (suc fuel) fd enough = Triple-bind {M = Shut} (shutdown_call fd) (λ errno.
        Triple-if (not (errno == eintr)) (λ _. Triple-pure errno (λ s p. p.0))
          (λ e. Triple-assume (λ calls.
            let interrupted : errno ≡ eintr = ground (arith, ==_iff errno eintr) in
            Runs-then w (consume-keeps w (SessionIs id x) v) (λ stop.
              Triple-if stop (λ _. Runs-gets w _ (λ last. Triple-throw _ (forget id x)))
                (λ _. shutdown_loop-On fuel fd (λ prompt. absurd (calls prompt interrupted)))))))

    shut-On :
        (side : Side) (s : TcpReactor)
        → (x.ends side).eof ≡ true
        → (x.pending side).size ≡ 0
        → At id x s
        → On Facts (change id (with_end (other side) (λ e. record e { shutdown = true })) s)
    shut-On side s eof empty (at, orderly, stops) = (
      (λ few.
          (moved-Facts (with_end (other side) (λ e. record e { shutdown = true })) (at few)
            (Elsewhere-refl id (trace s.log))
            (shutdown-IsSound side eof empty ((at few).0.sound id x (at few).1))
            (put_elim (λ i e. e.token ≡ (x.ends i).token) (other side) _ x.ends refl
              (λ i. refl))).0),
      orderly,
      stops,
    )

  pass_eof-On : (side : Side) → Runs w (On Facts) (pass_eof w id side) (λ _. On Facts)
  unfolding pass_eof
  pass_eof-On side = Runs-session w id (λ x.
      Triple-if
        ((x.ends side).eof && ((x.pending side).size == 0 && not (x.ends (other side)).shutdown))
        (λ go.
          let (eof, rest) = both_true _ _ go in
          let (empty, open_end) = both_true _ _ rest in
          Runs-then w (shutdown_loop-On x w.patience _ (λ prompt. omega (arith, prompt.patient)))
            (λ errno.
              Triple-if (errno == 0)
                (λ _.
                  Triple-bind {M = λ _. On Facts}
                    (Triple-modify _
                      (λ s p. shut-On x side s eof ((==_iff (x.pending side).size 0).0 empty) p))
                    (λ _.
                      Runs-keeps w Facts-IsSteady
                        (Keeps-observation Facts-IsSteady.calm w _ _ _ _)))
                (λ _. Triple-throw _ (forget id x))))
        (λ _. Triple-pure tt (forget id x)))

  pass_ends-On : Runs w (On Facts) (pass_ends w id) (λ _. On Facts)
  unfolding pass_ends
  pass_ends-On = Runs-then w (pass_eof-On client) (λ _.
      Runs-then w (pass_eof-On backend)
        (λ _. Runs-read w id (λ x. Triple-pure (is_finished w x) (λ s p. p))))

  -- The second round of writing, and what follows it.
  finish_advance :
      (left0 left1 : ℕ)
      → left0 ≤ buffer_limit
      → left1 ≤ buffer_limit
      → Runs w
          (On Facts)
          (do
            write_buffered_direction w id client left0
            write_buffered_direction w id backend left1
            draining ← gets (λ s. s.draining)
            if draining then (do x ← session_at id; pure (all_sent w x)) else pass_ends w id)
          (λ _. On Facts)
  finish_advance left0 left1 le0 le1 =
      Runs-then w (forget_left (write-On w id client left0 le0)) (λ _.
        Runs-then w (forget_left (write-On w id backend left1 le1)) (λ _. Runs-gets w _ (λ draining.
          Triple-if draining (λ _. Runs-read w id (λ x. Triple-pure (all_sent w x) (λ s p. p)))
            (λ _. pass_ends-On))))
    where
      forget_left :
          {budget : ℕ} {m : Action ℕ}
          → Runs w (On Facts) m (λ left s. On Facts s × (left ≤ budget))
          → Runs w (On Facts) m (λ _. On Facts)
      forget_left t = Triple-weaken t (λ s p. p) (λ a s p. p.0) (λ e s p. p)

  pub advance-On : Runs w (On Facts) (advance_session_io w id) (λ _. On Facts)
  unfolding advance_session_io
  advance-On =
      Triple-bind {M = Leaves w id client buffer_limit}
        (write-On w id client buffer_limit (omega arith))
        (λ left0. Triple-assume (λ le0.
          Triple-bind {M = Leaves w id backend buffer_limit}
            (write-On w id backend buffer_limit (omega arith))
            (λ left1. Triple-assume (λ le1. Runs-then w (read-On w id client) (λ _.
              Runs-then w (read-On w id backend) (λ _. finish_advance left0 left1 le0 le1))))))
