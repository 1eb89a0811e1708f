-- ===== src/Tcp/Reactor.antt =====
-- The class `TcpReactor` of src/net/TcpReactor.cpp: its sessions, its members and its reports.
-- `Stop` is the handling of signals, `Close` the end of a session, `Transfer` the loops that move
-- bytes, `Accept` the start of a session, and `Dispatch` the event loop.
pub mod Stop
pub mod Close
pub mod Transfer
pub mod Interests
pub mod Accept
pub mod Dispatch
pub mod Facts
pub mod Run
pub mod Waits
pub mod Life
mod Tests
use l4_load_balancer_with_xd.Prelude.{
  ℕ, suc, ◌+◌, ◌-◌, ◌*◌, ◌≡◌, Bool, true, false, not, ◌&&◌, ◌||◌, Option, none, some, List, [], ◌∷◌,
  ltb, leb, ◌==◌, if◌then◌else◌, length, nat_eq, add64,
}
use l4_load_balancer_with_xd.Prelude.Map.{Map, find, erase, emplace, update}
use l4_load_balancer_with_xd.Prelude.Exec.{
  Outcome, ok, thrown, Exec, pure, throw, gets, catch, modify, ◌>>=◌, ◌>>◌, when,
}
use l4_load_balancer_with_xd.Config.Bytes.{Bytes, codes}
use l4_load_balancer_with_xd.Config.Endpoint.{Endpoint}
use l4_load_balancer_with_xd.Metrics.{StatKind}
use l4_load_balancer_with_xd.Udp.Flow.{enoent, ebadf}
use l4_load_balancer_with_xd.Tcp.Buffer.{TcpPendingBuffer, empty_buffer}
use l4_load_balancer_with_xd.Tcp.Tokens.{EndpointTokens, no_tokens}
use l4_load_balancer_with_xd.Tcp.World.{
  Side, client, backend, Exception, system_error, session_failure, foreign, Observation, Call,
  quiet, read_clock, stat, observation, diagnostic, set_interest, detach, close_fd, Event, Log,
  World,
}

-- `1 - side`
abbrev pub other : Side → Side
other client = backend
other backend = client

-- Writing to an array of two.
abbrev pub put {ℓ} : {A : Type ℓ} → Side → A → (Side → A) → Side → A
put client x f client = x
put client x f backend = f backend
put backend x f client = f client
put backend x f backend = x

pub record EndpointState : Type 0 where
  pub fd : Option ℕ
  pub token : ℕ
  pub registered : Bool
  pub eof : Bool
  pub shutdown : Bool
  pub paused : Bool
  pub interest : ℕ
  pub deferred : ℕ

abbrev pub new_endpoint : EndpointState
new_endpoint = record {
  fd = none;
  token = 0;
  registered = false;
  eof = false;
  shutdown = false;
  paused = false;
  interest = 0;
  deferred = 0;
}

pub record Session : Type 0 where
  pub id : ℕ
  pub target : Endpoint
  pub ends : Side → EndpointState
  pub pending : Side → TcpPendingBuffer
  pub connecting : Bool
  pub last_io_time : ℕ
  pub sent : Side → ℕ

-- A session that was accepted: the descriptor, the backend and the time.
abbrev pub new_session : ℕ → ℕ → Endpoint → ℕ → Session
new_session id fd target time = record {
  id = id;
  target = target;
  ends = put client (record new_endpoint { fd = some fd }) (λ _. new_endpoint);
  pending = λ _. empty_buffer;
  connecting = true;
  last_io_time = time;
  sent = λ _. 0;
}

-- A change of one end.
abbrev pub with_end : Side → (EndpointState → EndpointState) → Session → Session
with_end side f x = record x { ends = put side (f (x.ends side)) x.ends }

-- The members that change; the listener is open until the first signal.
pub record TcpReactor : Type 0 where
  pub next_session_id : ℕ
  pub tokens : EndpointTokens
  pub sessions : Map ℕ Session
  pub listener_open : Bool
  pub listener_retry_time : ℕ
  pub drain_deadline : ℕ
  pub stop_reason : Bytes
  pub listener_deferred : Bool
  pub resource_warning : Bool
  pub stop_requested : Bool
  pub draining : Bool
  pub log : Log

abbrev pub initial_reactor : TcpReactor
initial_reactor = record {
  next_session_id = 1;
  tokens = no_tokens;
  sessions = [];
  listener_open = true;
  listener_retry_time = 0;
  drain_deadline = 0;
  stop_reason = codes "service-stop-deadline";
  listener_deferred = false;
  resource_warning = false;
  stop_requested = false;
  draining = false;
  log = [];
}

abbrev pub Action : Type 0 → Type 0
Action A = Exec TcpReactor Exception A

abbrev pub Done : Type 0
Done = Unit {0}

abbrev pub record_event : Event → TcpReactor → TcpReactor
record_event e s = record s { log = e ∷ s.log }

-- A call of the world; its event may tell the answer.
unfoldable pub call_as : {A : Type 0} → (A → Event) → (Log → A) → Action A
call_as event answer = do a ← gets (λ s. answer s.log); modify (record_event (event a)); pure a

unfoldable pub call : {A : Type 0} → Call → (Log → A) → Action A
unfolding call_as
call c answer = call_as (λ _. quiet c) answer

unfoldable pub rethrow : Option Exception → Action Done
rethrow none = pure tt
rethrow (some x) = throw x

unfoldable pub throw_foreign : Option ℕ → Action Done
throw_foreign none = pure tt
throw_foreign (some x) = throw (foreign x)

-- `if (callback) callback(…);`
unfoldable pub callback : Option (Log → Option ℕ) → Call → Action Done
unfolding call throw_foreign
callback none c = pure tt
callback (some f) c = do x ← call c f; throw_foreign x

-- `callback(…)`, which throws where the callback was not set.
unfoldable pub required_callback : Option (Log → Option ℕ) → Call → Action Done
unfolding call throw_foreign
required_callback none c = throw Exception.bad_function_call
required_callback (some f) c = do x ← call c f; throw_foreign x

-- `sessions_.at(id)`, and the use of a reference to the session.
unfoldable pub found_or_throw : Option Session → Action Session
found_or_throw none = throw Exception.out_of_range
found_or_throw (some x) = pure x

unfoldable pub session_at : ℕ → Action Session
unfolding found_or_throw
session_at id = do found ← gets (λ s. find id s.sessions); found_or_throw found

-- A write through the reference.
abbrev pub change : ℕ → (Session → Session) → TcpReactor → TcpReactor
change id f s = record s { sessions = update id f s.sessions }

-- `std::system_error` where `errno` is set.
unfoldable pub throw_errno : Bytes → ℕ → Action Done
throw_errno operation errno = if errno == 0 then pure tt else throw (system_error operation errno)

unfoldable pub fail_errno : Bytes → ℕ → Action Done
fail_errno operation errno = if errno == 0 then pure tt else throw (session_failure operation errno)

module _ (w : World) where
  unfoldable pub report_stat_event : StatKind → ℕ → Action Done
  unfolding callback
  report_stat_event kind amount = callback w.statistics_callback (stat kind amount)

  unfoldable pub current_time : Action ℕ
  unfolding call
  current_time = call read_clock w.now

  unfoldable pub report_observation : Bytes → ℕ → Option Side → ℕ → Action Done
  unfolding callback
  report_observation kind id side value = do
    sessions ← gets (λ s. length s.sessions)
    tokens ← gets (λ s. length s.tokens.entries)
    callback w.observation_callback (
        observation (record {
          kind = kind;
          session = id;
          side = side;
          value = value;
          sessions = sessions;
          tokens = tokens;
        }))

  abbrev pub is_absent_errno : ℕ → Bool
  is_absent_errno errno = errno == enoent || errno == ebadf

  -- `detachEndpointFromEpoll`: the error to report, 0 where there is none.
  abbrev pub detach_call : Bool → Option ℕ → Action ℕ
  detach_call true (some fd) = call (detach fd) w.epoll_ctl
  detach_call _ _ = pure 0

  unfoldable pub detach_endpoint_from_epoll : ℕ → Side → Action ℕ
  unfolding call session_at
  detach_endpoint_from_epoll id side = do
    x ← session_at id
    errno ← detach_call (x.ends side).registered (x.ends side).fd
    modify (change id (with_end side (λ e. record e { registered = false; interest = 0 })))
    pure (if is_absent_errno errno then 0 else errno)

  unfoldable pub report_detach_error : ℕ → Action Done
  unfolding report_stat_event callback
  report_detach_error errno = if errno == 0 then pure tt else do
    report_stat_event StatKind.error 1
    callback w.diagnostic_callback (diagnostic (codes "epoll_ctl DEL") errno)

  unfoldable pub remove_endpoint : ℕ → Side → Action Done
  unfolding detach_endpoint_from_epoll report_detach_error
  remove_endpoint id side = do errno ← detach_endpoint_from_epoll id side; report_detach_error errno

  -- `catch (const SessionFailure& error)`
  abbrev on_failure : {A : Type 0} → (Bytes → ℕ → Action A) → Exception → Action A
  on_failure handler (session_failure operation errno) = handler operation errno
  on_failure handler x = throw x
