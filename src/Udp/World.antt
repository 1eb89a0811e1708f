-- ===== src/Udp/World.antt =====
-- What the UDP reactor calls outside of the repository. Every call is an event of a log, the newest
-- first, and a call's answer is any function of the log before it, so that a later call may be
-- answered otherwise. The callbacks of the services may be absent, and may throw.
use l4_load_balancer_with_xd.Prelude.{ℕ, Bool, Option, List}
use l4_load_balancer_with_xd.Prelude.Exec.{Outcome}
use l4_load_balancer_with_xd.Config.Bytes.{Bytes}
use l4_load_balancer_with_xd.Config.Endpoint.{Address, Endpoint}
use l4_load_balancer_with_xd.Metrics.{StatKind}
use l4_load_balancer_with_xd.Udp.Packet.{Message}

-- `foreign` is what a callback throws.
pub data Exception : Type 0 where
  bad_alloc overflow_error out_of_range : Exception
  system_error : Bytes → ℕ → Exception
  foreign : ℕ → Exception

pub data Event : Type 0 where
  read_clock read_signals wait_events ready maintenance allocate select : Event
  stat : StatKind → ℕ → Event
  observation : Bytes → ℕ → Option ℕ → ℕ → ℕ → Event
  diagnostic : Bytes → ℕ → Event
  flow_event : ℕ → Endpoint → Bytes → ℕ → Event
  inject : Bytes → Event
  open_socket : Event
  bind_socket : ℕ → Event
  connect_socket : ℕ → Endpoint → Event
  attach : ℕ → ℕ → Event
  detach : ℕ → Event
  close_fd : ℕ → Event
  receive : ℕ → Event
  send : ℕ → Option (Endpoint × Address) → ℕ → Event
  read_socket_error : ℕ → Event

abbrev pub Log : Type 0
Log = List Event

-- A received datagram: `recvmsg` with its size and the flag `MSG_TRUNC`.
pub record Datagram : Type 0 where
  pub size : ℕ
  pub truncated : Bool
  pub message : Message

-- The flags `EPOLLERR`, `EPOLLHUP` and `EPOLLIN` of an `epoll_event`.
pub record Flags : Type 0 where
  pub err : Bool
  pub hup : Bool
  pub readable : Bool

-- The options, the callbacks and the system calls. A system call that fails gives its `errno`; one
-- without a result gives 0 where it succeeds, and so does `inject` where no error is injected.
pub record World : Type 0 where
  pub max_flows : ℕ
  pub idle_timeout : ℕ
  pub listen_address : Address
  pub listener_fd : ℕ
  pub now : Log → ℕ
  pub ready_callback : Option (Log → Option Exception)
  pub maintenance_callback : Option (Log → Option Exception)
  pub statistics_callback : Option (Log → Option Exception)
  pub observation_callback : Option (Log → Option Exception)
  pub diagnostic_callback : Option (Log → Option Exception)
  pub flow_callback : Option (Log → Option Exception)
  pub backend_selector : Log → Outcome Exception (Option Endpoint)
  pub setup_error : Log → ℕ
  pub allocates : Log → Bool
  pub socket : Log → Outcome ℕ ℕ
  pub bind : Log → ℕ
  pub connect : Log → ℕ
  pub epoll_add : Log → ℕ
  pub epoll_del : Log → ℕ
  pub read_signal : Log → Outcome ℕ ℕ
  pub epoll_wait : Log → Outcome ℕ (List (ℕ × Flags))
  pub recvmsg : Log → Outcome ℕ Datagram
  pub sendmsg : Log → Outcome ℕ ℕ
  pub socket_error : Log → Outcome ℕ ℕ
  -- `errno` as the calls and the callbacks of the log left it.
  pub errno : Log → ℕ
