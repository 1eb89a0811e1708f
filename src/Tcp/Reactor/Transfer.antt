-- ===== src/Tcp/Reactor/Transfer.antt =====
-- The loops of src/net/TcpReactor.cpp that move bytes between the two ends of a session:
-- `writeBufferedDirection`, `readSessionDirection` and `advanceSessionIo`. Bytes that are read at
-- one end wait in the buffer of that side until the other end takes them.
use l4_load_balancer_with_xd.Prelude.{
  ℕ, zero, suc, ◌-◌, Bool, true, false, not, ◌&&◌, ◌||◌, Option, none, some, [], ◌∷◌, ltb, leb,
  ◌==◌, if◌then◌else◌, length, take, add64, min, nat_eq,
}
use l4_load_balancer_with_xd.Prelude.Exec.{
  Outcome, ok, thrown, pure, throw, gets, modify, ◌>>=◌, ◌>>◌, when,
}
use l4_load_balancer_with_xd.Config.Bytes.{Bytes, codes}
use l4_load_balancer_with_xd.Metrics.{StatKind}
use l4_load_balancer_with_xd.Udp.Flow.{eintr, eagain, eio}
use l4_load_balancer_with_xd.Tcp.Buffer.{
  TcpPendingBuffer, buffer_limit, low_water, readable_bytes, writable_bytes, consume_readable_bytes,
  receive, readable,
}
use l4_load_balancer_with_xd.Tcp.World.{
  Side, client, backend, Exception, session_failure, shutdown_write, receives, sends, World,
}
use l4_load_balancer_with_xd.Tcp.Reactor.{
  Session, Action, Done, other, put, with_end, call_as, call, session_at, change, report_stat_event,
  current_time, report_observation,
}
use l4_load_balancer_with_xd.Tcp.Reactor.Stop.{consume_stop_signals}

-- What a kernel call of `n` bytes moves of the bytes that are there.
abbrev pub taken : ℕ → Outcome ℕ Bytes → Outcome ℕ Bytes
taken n (ok xs) = ok (take n xs)
taken n (thrown errno) = thrown errno

abbrev pub taken_by : Bytes → Outcome ℕ ℕ → Outcome ℕ Bytes
taken_by xs (ok n) = ok (take n xs)
taken_by xs (thrown errno) = thrown errno

-- `TcpIdleDeadline::recordIoProgress`
abbrev pub io_progress : ℕ → ℕ → Session → Session
io_progress time bytes x = if bytes == 0 then x else record x { last_io_time = time }

abbrev pub set_pending : Side → TcpPendingBuffer → Session → Session
set_pending side b x = record x { pending = put side b x.pending }

abbrev pub count_sent : Side → ℕ → Session → Session
count_sent side n x = record x { sent = put side (add64 (x.sent side) n) x.sent }

abbrev pub buffer_or_throw : Option TcpPendingBuffer → Action TcpPendingBuffer
buffer_or_throw none = throw Exception.logic_error
buffer_or_throw (some b) = pure b

abbrev pub bytes_kind : Side → StatKind
bytes_kind client = StatKind.bytes_c2b
bytes_kind backend = StatKind.bytes_b2c

module _ (w : World) where
  -- The rest of a round after a `send` of `size` bytes took some. Both changes of the session that
  -- the source makes before the first report stand in one.
  unfoldable pub account_sent : ℕ → Side → Session → ℕ → Bytes → Action ℕ
  unfolding report_observation report_stat_event current_time
  account_sent id source x size xs = do
    when (ltb (length xs) size)
        (report_observation w (codes "short-send") id (some source) (length xs))
    b ← buffer_or_throw (consume_readable_bytes (x.pending source) (length xs))
    modify (change id (λ y. count_sent source (length xs) (set_pending source b y)))
    report_stat_event w (bytes_kind source) (length xs)
    time ← current_time w
    modify (change id (io_progress time (length xs)))
    pure (length xs)

  -- The result of a `send`: the bytes that left, or `none` for the end of the loop.
  unfoldable pub sent_bytes : ℕ → Side → Session → ℕ → Outcome ℕ Bytes → Action (Option ℕ)
  unfolding account_sent report_observation
  sent_bytes id source x size (thrown errno) =
      if errno == eintr
      then pure (some 0)
      else if errno == eagain
      then report_observation w (codes "send-eagain") id (some source) 0 >> pure none
      else throw (session_failure (codes "send") errno)
  sent_bytes id source x size (ok xs) =
      if length xs == 0
      then throw (session_failure (codes "send zero") eio)
      else (do n ← account_sent id source x size xs; pure (some n))

  -- The descriptor of an end that is in use; an `Fd` that owns none is not passed to a call.
  abbrev pub fd_of : Option ℕ → ℕ
  fd_of none = 0
  fd_of (some fd) = fd

  unfoldable pub send_once : ℕ → Side → Session → ℕ → Action (Option ℕ)
  unfolding sent_bytes call_as
  send_once id source x size = do
    answer ←
        call_as (sends id source (fd_of (x.ends (other source)).fd))
          (λ log. taken_by (readable (x.pending source) size) (w.send log))
    sent_bytes id source x size answer

  unfoldable pub after_send : (ℕ → Action ℕ) → ℕ → Option ℕ → Action ℕ
  after_send loop budget none = pure budget
  after_send loop budget (some n) = loop (budget - n)

  -- The `while` loop, with the budget that it leaves.
  unfoldable pub write_loop : ℕ → ℕ → Side → ℕ → Action ℕ
  unfolding session_at consume_stop_signals send_once after_send
  write_loop zero id source budget = throw Exception.unfinished
  write_loop (suc fuel) id source budget = do
    x ← session_at id
    if (x.pending source).size == 0 || budget == 0 then pure budget else do
      consume_stop_signals w
      stop ← gets (λ s. s.stop_requested)
      if stop then pure budget else do
        next ← send_once id source x (min (readable_bytes (x.pending source)) budget)
        after_send (write_loop fuel id source) budget next

  unfoldable pub resume_reading : ℕ → Side → Action Done
  unfolding session_at report_observation
  resume_reading id source = do
    x ← session_at id
    draining ← gets (λ s. s.draining)
    let size = (x.pending source).size
    when (not draining && ((x.ends source).paused && leb size low_water)) (do
      modify (change id (with_end source (λ e. record e { paused = false })))
      report_observation w (codes "resume") id (some source) size)

  unfoldable pub write_buffered_direction : ℕ → Side → ℕ → Action ℕ
  unfolding write_loop resume_reading
  write_buffered_direction id source budget = do
    left ← write_loop w.patience id source budget
    resume_reading id source
    pure left

  -- `end.eof = true`, and the pause where the buffer is full.
  unfoldable pub mark_eof : ℕ → Side → Action Done
  unfolding report_observation
  mark_eof id source = do
    modify (change id (with_end source (λ e. record e { eof = true })))
    report_observation w (codes "eof") id (some source) 0

  unfoldable pub pause_full : ℕ → Side → ℕ → Action Done
  unfolding report_observation
  pause_full id source size = when (size == buffer_limit) (do
    modify (change id (with_end source (λ e. record e { paused = true })))
    report_observation w (codes "pause") id (some source) size)

  unfoldable pub account_received : ℕ → Side → Session → Bytes → Action ℕ
  unfolding current_time report_observation pause_full
  account_received id source x xs = do
    b ← buffer_or_throw (receive (x.pending source) xs)
    modify (change id (set_pending source b))
    time ← current_time w
    modify (change id (io_progress time (length xs)))
    report_observation w (codes "buffer") id (some source) b.size
    pause_full id source b.size
    pure (length xs)

  -- The result of a `recv`: the bytes that came, or `none` for the end of the loop.
  unfoldable pub received_bytes : ℕ → Side → Session → Outcome ℕ Bytes → Action (Option ℕ)
  unfolding mark_eof account_received
  received_bytes id source x (thrown errno) =
      if errno == eintr
      then pure (some 0)
      else if errno == eagain
      then pure none
      else throw (session_failure (codes "recv") errno)
  received_bytes id source x (ok []) = mark_eof id source >> pure none
  received_bytes id source x (ok (b ∷ xs)) = do
    n ← account_received id source x (b ∷ xs)
    pure (some n)

  unfoldable pub receive_once : ℕ → Side → Session → ℕ → Action (Option ℕ)
  unfolding received_bytes call_as
  receive_once id source x size = do
    answer ←
        call_as (receives id source (fd_of (x.ends source).fd)) (λ log. taken size (w.recv log))
    received_bytes id source x answer

  unfoldable pub after_receive : (ℕ → Action Done) → ℕ → Option ℕ → Action Done
  after_receive loop budget none = pure tt
  after_receive loop budget (some n) = loop (budget - n)

  unfoldable pub read_loop : ℕ → ℕ → Side → ℕ → Action Done
  unfolding session_at consume_stop_signals receive_once after_receive
  read_loop zero id source budget = throw Exception.unfinished
  read_loop (suc fuel) id source budget = do
    x ← session_at id
    if (x.ends source).eof || ((x.ends source).paused || budget == 0) then pure tt else do
      stop ← consume_stop_signals w
      let size = min (writable_bytes (x.pending source)) budget
      if stop || size == 0 then pure tt else do
        next ← receive_once id source x size
        after_receive (read_loop fuel id source) budget next

  unfoldable pub read_session_direction : ℕ → Side → Action Done
  unfolding read_loop
  read_session_direction id source = read_loop w.patience id source buffer_limit

  abbrev pub all_sent : Session → Bool
  all_sent x = (x.pending client).size == 0 && (x.pending backend).size == 0

  -- The `do … while` loop around `shutdown`, with the last error.
  unfoldable pub after_shutdown : Action ℕ → ℕ → Action ℕ
  unfolding consume_stop_signals
  after_shutdown loop errno = if not (errno == eintr) then pure errno else do
    stop ← consume_stop_signals w
    if stop
        then (do
          last ← gets (λ s. w.errno s.log)
          throw (session_failure (codes "shutdown SHUT_WR") last))
        else loop

  unfoldable pub shutdown_loop : ℕ → ℕ → Action ℕ
  unfolding call after_shutdown
  shutdown_loop zero fd = throw Exception.unfinished
  shutdown_loop (suc fuel) fd = do
    errno ← call (shutdown_write fd) w.shutdown
    after_shutdown (shutdown_loop fuel fd) errno

  -- A round of the last loop of `advanceSessionIo`: the end of the stream is passed on.
  unfoldable pub pass_eof : ℕ → Side → Action Done
  unfolding session_at shutdown_loop report_observation
  pass_eof id side = do
    x ← session_at id
    let target = x.ends (other side)
    when ((x.ends side).eof && ((x.pending side).size == 0 && not target.shutdown)) (do
      errno ← shutdown_loop w.patience (fd_of target.fd)
      if errno == 0
          then (do
            modify (change id (with_end (other side) (λ e. record e { shutdown = true })))
            report_observation w (codes "shutdown") id (some (other side)) 0)
          else throw (session_failure (codes "shutdown SHUT_WR") errno))

  abbrev pub is_finished : Session → Bool
  is_finished x =
      (x.ends client).eof
      && ((x.ends backend).eof && ((x.ends client).shutdown && (x.ends backend).shutdown))

  -- The end of `advanceSessionIo` while no stop was requested.
  unfoldable pub pass_ends : ℕ → Action Bool
  unfolding pass_eof session_at
  pass_ends id = do pass_eof id client; pass_eof id backend; x ← session_at id; pure (is_finished x)

  unfoldable pub advance_session_io : ℕ → Action Bool
  unfolding write_buffered_direction read_session_direction session_at pass_ends
  advance_session_io id = do
    left0 ← write_buffered_direction id client buffer_limit
    left1 ← write_buffered_direction id backend buffer_limit
    read_session_direction id client
    read_session_direction id backend
    write_buffered_direction id client left0
    write_buffered_direction id backend left1
    draining ← gets (λ s. s.draining)
    if draining then (do x ← session_at id; pure (all_sent x)) else pass_ends id
