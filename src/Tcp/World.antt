-- ===== src/Tcp/World.antt =====
-- What the TCP reactor calls outside of the repository. A call is an event of a log, the newest
-- first, and its answer is any function of the log before it. The data that a `recv` returned and a
-- `send` took stand in their events, so that the log says which bytes went through a session. A
-- callback may be absent, and may throw; `foreign` is what it throws.
use l4_load_balancer_with_xd.Prelude.{ℕ, Bool, Option, List}
use l4_load_balancer_with_xd.Prelude.Exec.{Outcome}
use l4_load_balancer_with_xd.Config.Bytes.{Bytes}
use l4_load_balancer_with_xd.Config.Endpoint.{Endpoint}
use l4_load_balancer_with_xd.Metrics.{StatKind}

-- The indices 0 and 1 of the arrays of a session.
pub data Side : Type 0 where
  client backend : Side

-- `session_failure` is the struct `SessionFailure`. `unfinished` is not the code's: a loop of the
-- model that used up its rounds ends with it.
pub data Exception : Type 0 where
  bad_function_call invalid_argument logic_error out_of_range overflow_error unfinished : Exception
  system_error session_failure : Bytes → ℕ → Exception
  foreign : ℕ → Exception

-- `SessionEvent`
pub record SessionEvent : Type 0 where
  pub id : ℕ
  pub backend : Endpoint
  pub accepted : Bool
  pub reason : Bytes
  pub error : ℕ
  pub sent : Side → ℕ

-- `Observation`; `none` is the side -1.
pub record Observation : Type 0 where
  pub kind : Bytes
  pub session : ℕ
  pub side : Option Side
  pub value : ℕ
  pub sessions : ℕ
  pub tokens : ℕ

-- `StopEvent`
pub record StopEvent : Type 0 where
  pub pending : Side → ℕ
  pub deadline_ns : ℕ

-- The calls that move no bytes, accept no connection and read no signal.
pub data Call : Type 0 where
  read_clock wait_events ready maintenance open_socket detach_listener attach_listener : Call
  stat : StatKind → ℕ → Call
  observation : Observation → Call
  stopping : StopEvent → Call
  diagnostic : Bytes → ℕ → Call
  session : SessionEvent → Call
  connect_socket : ℕ → Endpoint → Call
  set_interest : Bool → ℕ → ℕ → ℕ → Call
  detach close_fd read_socket_error shutdown_write : ℕ → Call

pub data Event : Type 0 where
  quiet : Call → Event
  select_backend accept_connection close_listener : Event
  -- A `read` of the signal descriptor: the number of bytes, or the error number.
  reads_signal : Outcome ℕ ℕ → Event
  -- A `recv` from the given end of a session, and a `send` of what was read there, to the other
  -- end: the descriptor, and the bytes or the error number.
  receives sends : ℕ → Side → ℕ → Outcome ℕ Bytes → Event

abbrev pub Log : Type 0
Log = List Event

-- The flags of an `epoll_event`.
pub record Flags : Type 0 where
  pub readable : Bool
  pub writable : Bool
  pub err : Bool
  pub hup : Bool
  pub peer_closed : Bool

-- The options, the callbacks and the system calls. Times and durations are nanoseconds, but for
-- `drain_timeout_ms`. A system
-- call that fails gives its `errno`; one without a result gives 0 where it succeeds. `recv` is asked
-- for bytes, and `send` says how many bytes it took. `patience` is the number of rounds for which
-- the model follows a loop that the source does not count.
pub record World : Type 0 where
  pub max_sessions : ℕ
  pub connect_timeout : ℕ
  pub idle_timeout : ℕ
  pub drain_timeout_ms : ℕ
  pub patience : ℕ
  -- `errno` as the calls and the callbacks of the log left it.
  pub errno : Log → ℕ
  pub now : Log → ℕ
  pub ready_callback : Option (Log → Option ℕ)
  pub maintenance_callback : Option (Log → Option ℕ)
  pub statistics_callback : Option (Log → Option ℕ)
  pub observation_callback : Option (Log → Option ℕ)
  pub diagnostic_callback : Option (Log → Option ℕ)
  pub session_callback : Option (Log → Option ℕ)
  pub stopping_callback : Option (Log → Option ℕ)
  pub backend_selector : Log → Outcome ℕ (Option Endpoint)
  pub accept : Log → Outcome ℕ ℕ
  pub socket : Log → Outcome ℕ ℕ
  pub connect : Log → ℕ
  pub epoll_ctl : Log → ℕ
  pub read_signal : Log → Outcome ℕ ℕ
  pub epoll_wait : Log → Outcome ℕ (List (ℕ × Flags))
  pub recv : Log → Outcome ℕ Bytes
  pub send : Log → Outcome ℕ ℕ
  pub shutdown : Log → ℕ
  pub socket_error : Log → Outcome ℕ ℕ
