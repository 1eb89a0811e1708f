-- ===== src/Tcp/Reactor/Life/Traffic.antt =====
-- The moving of bytes and the interests keep the count of the reports.
use mathlib.Core.Path.{◌≡◌, refl}
use l4_load_balancer_with_xd.Prelude.{
  ℕ, zero, suc, ◌-◌, ◌≤◌, Bool, true, false, Option, none, some, [], ◌∷◌, ◌==◌, arith,
  if◌then◌else◌, nat_eq,
}
use l4_load_balancer_with_xd.Prelude.Exec.{Outcome, ok, thrown, modify}
use l4_load_balancer_with_xd.Config.Bytes.{Bytes}
use l4_load_balancer_with_xd.Tcp.Buffer.{TcpPendingBuffer, buffer_limit}
use l4_load_balancer_with_xd.Tcp.World.{Side, Log, World, receives, sends}
use l4_load_balancer_with_xd.Tcp.Reactor.{other, EndpointState, Session, Action, Done, change}
use l4_load_balancer_with_xd.Tcp.Reactor.Transfer.{
  io_progress, buffer_or_throw, account_sent, sent_bytes, send_once, after_send, write_loop,
  resume_reading, write_buffered_direction, mark_eof, pause_full, account_received, received_bytes,
  receive_once, fd_of, after_receive, read_loop, read_session_direction, after_shutdown,
  shutdown_loop, pass_eof, pass_ends, advance_session_io,
}
use l4_load_balancer_with_xd.Tcp.Reactor.Interests.{
  set_end_interest, update_end_interest, update_session_interests,
}
use l4_load_balancer_with_xd.Tcp.Reactor.Facts.{trace}
use l4_load_balancer_with_xd.Tcp.Reactor.Life.Rules.{
  Lives, Lives-pure, Lives-throw, Lives-gets, Lives-if, Lives-call, Lives-call_as, Lives-change,
  Lives-bind, Lives-session_at, lives_rules,
}
use l4_load_balancer_with_xd.Tcp.Reactor.Life.Signals.{Lives-consume}

module _ (w : World) where
  -- Moving bytes selects no backend.
  sends-selects :
      (id : ℕ) (side : Side) (fd : ℕ) (a : Outcome ℕ Bytes) (log : Log)
      → (trace log).selects ≤ (trace (sends id side fd a ∷ log)).selects
  sends-selects id side fd (ok xs) log = omega arith
  sends-selects id side fd (thrown errno) log = omega arith

  receives-selects :
      (id : ℕ) (side : Side) (fd : ℕ) (a : Outcome ℕ Bytes) (log : Log)
      → (trace log).selects ≤ (trace (receives id side fd a ∷ log)).selects
  receives-selects id side fd (ok xs) log = omega arith
  receives-selects id side fd (thrown errno) log = omega arith

  Lives-io_progress : (id time bytes : ℕ) → Lives w (modify (change id (io_progress time bytes)))
  Lives-io_progress id time bytes = Lives-change w id _ (λ x. named x (bytes == 0))
    where
      named :
          (x : Session) (b : Bool) → (if b then x else record x { last_io_time = time }).id ≡ x.id
      named x true = refl
      named x false = refl

  Lives-buffer : (b : Option TcpPendingBuffer) → Lives w (buffer_or_throw b)
  Lives-buffer none = search lives_rules
  Lives-buffer (some b) = search lives_rules

  module _ (id : ℕ) (source : Side) where
    Lives-account_sent :
        (x : Session) (size : ℕ) (xs : Bytes) → Lives w (account_sent w id source x size xs)
    unfolding account_sent
    Lives-account_sent x size xs =
        search (Lives-io_progress, lives_rules, Lives-buffer) depth 16 fits 3000

    Lives-sent_bytes :
        (x : Session) (size : ℕ) (answer : Outcome ℕ Bytes)
        → Lives w (sent_bytes w id source x size answer)
    unfolding sent_bytes
    Lives-sent_bytes x size (thrown errno) = search lives_rules depth 16 fits 3000
    Lives-sent_bytes x size (ok xs) = search (lives_rules, Lives-account_sent) depth 16 fits 3000

    Lives-send_once : (x : Session) (size : ℕ) → Lives w (send_once w id source x size)
    unfolding send_once
    Lives-send_once x size =
        Lives-bind w
          (Lives-call_as w _ _ (λ a b id. refl)
            (sends-selects id source (fd_of w (x.ends (other source)).fd)))
          (Lives-sent_bytes x size)

    Lives-after_send :
        {loop : ℕ → Action ℕ} (budget : ℕ) (next : Option ℕ)
        → ((left : ℕ) → Lives w (loop left))
        → Lives w (after_send w loop budget next)
    unfolding after_send
    Lives-after_send budget none t = search lives_rules
    Lives-after_send budget (some n) t = t (budget - n)

    Lives-write_loop : (fuel budget : ℕ) → Lives w (write_loop w fuel id source budget)
    unfolding write_loop
    Lives-write_loop zero budget = search lives_rules
    Lives-write_loop (suc fuel) budget = Lives-bind w (Lives-session_at w id) (λ x.
        Lives-if w _ (Lives-pure w _) (
          Lives-bind w (Lives-consume w) (λ _. Lives-bind w (Lives-gets w _) (λ stop.
            Lives-if w stop (Lives-pure w _) (
              Lives-bind w (Lives-send_once x _)
                (λ next. Lives-after_send budget next (Lives-write_loop fuel)))))))

    Lives-resume : Lives w (resume_reading w id source)
    unfolding resume_reading
    Lives-resume = search lives_rules depth 16 fits 3000

    Lives-write : (budget : ℕ) → Lives w (write_buffered_direction w id source budget)
    unfolding write_buffered_direction
    Lives-write budget = search (lives_rules, Lives-write_loop, Lives-resume) depth 16 fits 3000

    Lives-mark_eof : Lives w (mark_eof w id source)
    unfolding mark_eof
    Lives-mark_eof = search lives_rules depth 16 fits 3000

    Lives-account_received :
        (x : Session) (xs : Bytes) → Lives w (account_received w id source x xs)
    unfolding account_received pause_full
    Lives-account_received x xs =
        search (Lives-io_progress, lives_rules, Lives-buffer) depth 20 fits 5000

    Lives-received :
        (x : Session) (answer : Outcome ℕ Bytes) → Lives w (received_bytes w id source x answer)
    unfolding received_bytes
    Lives-received x (thrown errno) = search lives_rules depth 16 fits 3000
    Lives-received x (ok []) = search (lives_rules, Lives-mark_eof) depth 16 fits 3000
    Lives-received x (ok (b ∷ xs)) = search (lives_rules, Lives-account_received) depth 16 fits 3000

    Lives-receive_once : (x : Session) (size : ℕ) → Lives w (receive_once w id source x size)
    unfolding receive_once
    Lives-receive_once x size =
        Lives-bind w
          (Lives-call_as w _ _ (λ a b id. refl)
            (receives-selects id source (fd_of w (x.ends source).fd)))
          (Lives-received x)

    Lives-after_receive :
        {loop : ℕ → Action Done} (budget : ℕ) (next : Option ℕ)
        → ((left : ℕ) → Lives w (loop left))
        → Lives w (after_receive w loop budget next)
    unfolding after_receive
    Lives-after_receive budget none t = search lives_rules
    Lives-after_receive budget (some n) t = t (budget - n)

    Lives-read_loop : (fuel budget : ℕ) → Lives w (read_loop w fuel id source budget)
    unfolding read_loop
    Lives-read_loop zero budget = search lives_rules
    Lives-read_loop (suc fuel) budget = Lives-bind w (Lives-session_at w id) (λ x.
        Lives-if w _ (Lives-pure w _) (
          Lives-bind w (Lives-consume w) (λ stop. Lives-if w _ (Lives-pure w _) (
            Lives-bind w (Lives-receive_once x _)
              (λ next. Lives-after_receive budget next (Lives-read_loop fuel))))))

    Lives-read : Lives w (read_session_direction w id source)
    unfolding read_session_direction
    Lives-read = Lives-read_loop w.patience buffer_limit

  Lives-after_shutdown :
      {loop : Action ℕ} (errno : ℕ) → Lives w loop → Lives w (after_shutdown w loop errno)
  unfolding after_shutdown
  Lives-after_shutdown errno t = Lives-if w _ (Lives-pure w _) (
      Lives-bind w (Lives-consume w)
        (λ stop. Lives-if w stop (Lives-bind w (Lives-gets w _) (λ last. Lives-throw w _)) t))

  Lives-shutdown_loop : (fuel fd : ℕ) → Lives w (shutdown_loop w fuel fd)
  unfolding shutdown_loop
  Lives-shutdown_loop zero fd = search lives_rules
  Lives-shutdown_loop (suc fuel) fd =
      Lives-bind w (Lives-call w _ _ (λ b id. refl))
        (λ errno. Lives-after_shutdown errno (Lives-shutdown_loop fuel fd))

  Lives-pass_eof : (id : ℕ) (side : Side) → Lives w (pass_eof w id side)
  unfolding pass_eof
  Lives-pass_eof id side = search (lives_rules, Lives-shutdown_loop) depth 20 fits 5000

  Lives-pass_ends : (id : ℕ) → Lives w (pass_ends w id)
  unfolding pass_ends
  Lives-pass_ends id = search (lives_rules, Lives-pass_eof) depth 16 fits 3000

  pub Lives-advance : (id : ℕ) → Lives w (advance_session_io w id)
  unfolding advance_session_io
  Lives-advance id =
      search (lives_rules, Lives-write, Lives-read, Lives-pass_ends) depth 30 fits 9000

  Lives-set_end :
      (id : ℕ) (side : Side) (e : EndpointState) (mask : ℕ)
      → Lives w (set_end_interest w id side e mask)
  unfolding set_end_interest
  Lives-set_end id side e mask = search lives_rules depth 16 fits 3000

  Lives-update_end : (id : ℕ) (side : Side) → Lives w (update_end_interest w id side)
  unfolding update_end_interest
  Lives-update_end id side = search (lives_rules, Lives-set_end) depth 20 fits 5000

  pub Lives-update_interests : (id : ℕ) → Lives w (update_session_interests w id)
  unfolding update_session_interests
  Lives-update_interests id = search (lives_rules, Lives-update_end)
