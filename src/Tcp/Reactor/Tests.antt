-- ===== src/Tcp/Reactor/Tests.antt =====
-- A run with one session: the client sends three bytes and ends its stream, the backend takes them.
use mathlib.Core.Path.{◌≡◌, refl}
use l4_load_balancer_with_xd.Prelude.{
  ◌≢◌, ◌⊎◌, ℕ, ◌+◌, ◌≤◌, ◌<◌, Bool, true, false, ◌&&◌, none, some, [], ◌∷◌, arith, length, ◌==◌,
  if◌then◌else◌, u64_max, nat_eq,
}
use l4_load_balancer_with_xd.Prelude.Map.{find, update, erase}
use l4_load_balancer_with_xd.Prelude.Exec.{Outcome, ok, thrown, ◌>>=◌}
use l4_load_balancer_with_xd.Config.Bytes.{Bytes, codes}
use l4_load_balancer_with_xd.Config.Endpoint.{Endpoint}
use l4_load_balancer_with_xd.Tcp.Buffer.{
  receive, readable, readable_bytes, commit_written_bytes, writable_bytes, consume_readable_bytes,
}
use l4_load_balancer_with_xd.Tcp.Tokens.{find_endpoint}
use l4_load_balancer_with_xd.Tcp.World.{
  client, backend, Exception, Event, quiet, wait_events, accept_connection, close_listener,
  receives, Log, Flags, World,
}
use l4_load_balancer_with_xd.Tcp.Reactor.{
  Session, TcpReactor, initial_reactor, new_session, with_end,
}
use l4_load_balancer_with_xd.Tcp.Reactor.Dispatch.{run_tcp_reactor}
use l4_load_balancer_with_xd.Tcp.Reactor.Facts.{
  Trace, trace, IsPrefix, IsOrderly, listener_closed, signal_came, IsSound, Owns, IsPrompt,
}
use l4_load_balancer_with_xd.Tcp.Reactor.Close.{close_session, unlink}
use l4_load_balancer_with_xd.Tcp.Reactor.Close.Reports.{close_log, close_session_lem}
use l4_load_balancer_with_xd.Tcp.Reactor.Interests.{update_session_interests}
use l4_load_balancer_with_xd.Tcp.Reactor.Waits.{Refused}
use l4_load_balancer_with_xd.Tcp.Reactor.Waits.Both.{Awaits, update_interests_lem}
use l4_load_balancer_with_xd.Tcp.Reactor.Life.{reports}
use l4_load_balancer_with_xd.Tcp.Reactor.Life.Told.{ends_told_once}
use l4_load_balancer_with_xd.Tcp.Reactor.Run.{
  bytes_in_order, nothing_after_stop, run_tcp_reactor-IsSound, tokens_are_owned, buffers_hold,
  inner_loops_end, no_session_left,
}

abbrev target : Endpoint
target = record { address = record { b0 = 10; b1 = 0; b2 = 0; b3 = 1 }; port = 80 }

-- How often an event stands in the log.
abbrev is_wait : Event → Bool
is_wait (quiet wait_events) = true
is_wait _ = false

abbrev is_accept : Event → Bool
is_accept accept_connection = true
is_accept _ = false

abbrev is_receive : Event → Bool
is_receive (receives id client fd answer) = true
is_receive _ = false

abbrev count : (Event → Bool) → Log → ℕ
count p [] = 0
count p (e ∷ log) = (if p e then 1 else 0) + count p log

abbrev reading : Flags
reading = record {
  readable = true;
  writable = false;
  err = false;
  hup = false;
  peer_closed = false;
}

-- The stream of the client; then nothing comes.
abbrev stream : ℕ → Outcome ℕ Bytes
stream n = if n == 0 then ok (5 ∷ 6 ∷ 7 ∷ []) else if n == 1 then ok [] else thrown 11

-- The first wait reports the listener, later ones the client's end.
abbrev demo : World
demo = record {
  max_sessions = 4;
  connect_timeout = 1000000;
  idle_timeout = 1000000;
  drain_timeout_ms = 1000;
  patience = 65538;
  errno = λ log. 11;
  now = λ log. length log;
  ready_callback = some (λ log. none);
  maintenance_callback = none;
  statistics_callback = none;
  observation_callback = none;
  diagnostic_callback = none;
  session_callback = some (λ log. none);
  stopping_callback = none;
  backend_selector = λ log. ok (some target);
  accept = λ log. if count is_accept log == 0 then ok 7 else thrown 11;
  socket = λ log. ok 8;
  connect = λ log. 0;
  epoll_ctl = λ log. 0;
  read_signal = λ log. thrown 11;
  epoll_wait = λ log. ok ((if count is_wait log == 0 then 1 else 3, reading) ∷ []);
  recv = λ log. stream (count is_receive log);
  send = λ log. ok 2;
  shutdown = λ log. 0;
  socket_error = λ log. ok 0;
}

demo-IsPrompt : IsPrompt demo
demo-IsPrompt = record {
  patient = omega arith;
  signals = λ log e. cc;
  sending = λ log e. cc;
  receiving = λ log e. never_interrupted (count is_receive log == 0) (count is_receive log == 1) e;
  accepting = λ log e. never_refused (count is_accept log == 0) e;
  shutting = λ log e. omega arith;
}
  where
    never_interrupted :
        (a b : Bool)
        → ◌≡◌ {A = Outcome ℕ Bytes}
            (if a then ok (5 ∷ 6 ∷ 7 ∷ []) else if b then ok [] else thrown 11)
            (thrown 4)
        → ⊥
    never_interrupted true b e = cc
    never_interrupted false true e = cc
    never_interrupted false false e = ground arith

    never_refused :
        (b : Bool) → ◌≡◌ {A = Outcome ℕ ℕ} (if b then ok 7 else thrown 11) (thrown 4) → ⊥
    never_refused true e = cc
    never_refused false e = ground arith

abbrev final : ℕ → TcpReactor
final rounds = (run_tcp_reactor demo rounds initial_reactor).1

abbrev calls : TcpReactor → Trace
calls s = trace s.log

three_bytes_pass : (calls (final 2)).sent 1 client ≡ 5 ∷ 6 ∷ 7 ∷ []
unfolding run_tcp_reactor ◌>>=◌ update erase receive readable readable_bytes commit_written_bytes
    writable_bytes consume_readable_bytes
three_bytes_pass = refl

one_selection : (calls (final 2)).selects ≡ 1
unfolding run_tcp_reactor ◌>>=◌ update erase receive readable readable_bytes commit_written_bytes
    writable_bytes consume_readable_bytes
one_selection = refl

goes_on : (run_tcp_reactor demo 2 initial_reactor).0 ≡ ok none
unfolding run_tcp_reactor ◌>>=◌ update erase receive readable readable_bytes commit_written_bytes
    writable_bytes consume_readable_bytes
goes_on = refl

few : (calls (final 2)).selects < u64_max
few = omega (arith, one_selection)

bytes_in_order_example :
    IsPrefix ((calls (final 2)).sent 1 client) ((calls (final 2)).received 1 client)
bytes_in_order_example = bytes_in_order demo 2 1 client few

-- The session after two rounds.
abbrev the_session : Session
the_session = elim (find 1 (final 2).sessions) [ none ↦ new_session 0 0 target 0 | some x ↦ x ]

session_is_there : find 1 (final 2).sessions ≡ some the_session
unfolding run_tcp_reactor ◌>>=◌ update erase receive readable readable_bytes commit_written_bytes
    writable_bytes consume_readable_bytes
session_is_there = refl

end_is_passed_on : (the_session.ends backend).shutdown ≡ true
unfolding run_tcp_reactor ◌>>=◌ update erase receive readable readable_bytes commit_written_bytes
    writable_bytes consume_readable_bytes
end_is_passed_on = refl

run_tcp_reactor-IsSound_example :
    IsSound 1 ((calls (final 2)).received 1) ((calls (final 2)).sent 1) the_session
run_tcp_reactor-IsSound_example =
    run_tcp_reactor-IsSound demo 2 none 1 the_session goes_on few session_is_there

token_resolves : find_endpoint (final 2).tokens 4 ≡ some (record { session_id = 1; side = 1 })
unfolding run_tcp_reactor ◌>>=◌ update erase receive readable readable_bytes commit_written_bytes
    writable_bytes consume_readable_bytes
token_resolves = refl

tokens_are_owned_example : Owns (final 2).sessions 4 (record { session_id = 1; side = 1 })
tokens_are_owned_example =
    tokens_are_owned demo 2 none 4 (record { session_id = 1; side = 1 }) goes_on few token_resolves

buffers_hold_example : (run_tcp_reactor demo 2 initial_reactor).0 ≢ thrown Exception.logic_error
buffers_hold_example = buffers_hold demo 2 few

inner_loops_end_example : (run_tcp_reactor demo 2 initial_reactor).0 ≢ thrown Exception.unfinished
inner_loops_end_example = inner_loops_end demo 2 demo-IsPrompt

-- A signal comes after the first wait, with three bytes of the client on the way.
abbrev is_stop : Event → Bool
is_stop close_listener = true
is_stop _ = false

abbrev signalled : World
signalled = record demo {
  read_signal =
      λ log. if count is_wait log == 2 && count is_stop log == 0 then ok 128 else thrown 11;
  recv = λ log. if count is_receive log == 0 then ok (5 ∷ 6 ∷ 7 ∷ []) else thrown 11;
}

nothing_after_stop_example :
    let log = (run_tcp_reactor signalled 9 initial_reactor).1.log in
    IsOrderly log × (listener_closed log ≡ signal_came log)
nothing_after_stop_example = nothing_after_stop signalled 9

a_signal_comes : signal_came (run_tcp_reactor signalled 9 initial_reactor).1.log ≡ true
unfolding run_tcp_reactor ◌>>=◌ update erase receive readable readable_bytes commit_written_bytes
    writable_bytes consume_readable_bytes
a_signal_comes = refl

signal_ends_the_run : (run_tcp_reactor signalled 9 initial_reactor).0 ≡ ok (some 0)
unfolding run_tcp_reactor ◌>>=◌ update erase receive readable readable_bytes commit_written_bytes
    writable_bytes consume_readable_bytes
signal_ends_the_run = refl

no_session_left_example : (run_tcp_reactor signalled 9 initial_reactor).1.sessions ≡ []
no_session_left_example = no_session_left signalled 9 (λ e. let p = signal_ends_the_run in cc)

one_selection_signalled :
    (trace (run_tcp_reactor signalled 9 initial_reactor).1.log).selects < u64_max
unfolding run_tcp_reactor ◌>>=◌ update erase receive readable readable_bytes commit_written_bytes
    writable_bytes consume_readable_bytes
one_selection_signalled = omega arith

-- One session was accepted, and told of.
one_start : reports true 1 (run_tcp_reactor signalled 9 initial_reactor).1.log ≡ 1
unfolding run_tcp_reactor ◌>>=◌ update erase receive readable readable_bytes commit_written_bytes
    writable_bytes consume_readable_bytes
one_start = refl

ends_told_once_example :
    let log = (run_tcp_reactor signalled 9 initial_reactor).1.log in
    (reports true 1 log ≤ reports false 1 log) × (reports false 1 log ≤ 1)
ends_told_once_example =
    ends_told_once signalled 9 1 (λ e. let p = signal_ends_the_run in cc) one_selection_signalled

-- One session, whose client end is registered.
abbrev opened_session : Session
opened_session =
    with_end client (λ e. record e { registered = true; interest = 0x2001 })
      (new_session 1 7 target 0)

abbrev opened : TcpReactor
opened = record initial_reactor { next_session_id = 2; sessions = (1, opened_session) ∷ [] }

close_session_lem_example :
    (close_session demo 1 (codes "drained") 0 opened).1 ≡ record (unlink 1 opened_session opened) {
      log = close_log demo opened_session (codes "drained") 0 0 0 [];
    }
unfolding find erase
close_session_lem_example = close_session_lem demo 1 opened_session (codes "drained") 0 opened refl

update_interests_lem_example :
    let (r, t) = update_session_interests demo 1 opened in
    ((r ≡ ok tt) × Awaits demo 1 opened opened_session t)
    ⊎ ((y : Exception) × (r ≡ thrown y) × Refused y)
unfolding find
update_interests_lem_example = update_interests_lem demo 1 opened opened_session refl
