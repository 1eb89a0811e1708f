-- ===== src/Tcp/Reactor/Facts.antt =====
-- What the log of a run says about each session, and the invariant of the reactor that ties its
-- tables to the log.
pub mod Rules
pub mod Stop
pub mod Sound
pub mod Changes
pub mod Registers
pub mod Close
pub mod Empties
pub mod Sessions
pub mod Send
pub mod Receive
pub mod Transfer
pub mod Interests
pub mod Connect
pub mod Accept
pub mod Dispatch
use mathlib.Core.Path.{◌≡◌, refl}
use l4_load_balancer_with_xd.Prelude.{
  ◌≢◌, ℕ, suc, ◌+◌, ◌%◌, ◌≤◌, ◌<◌, Bool, true, false, Option, none, some, List, [], ◌∷◌, ◌++◌, ◌==◌,
  ◌||◌, if◌then◌else◌, length, nat_eq, u64_mod, u64_max,
}
use l4_load_balancer_with_xd.Prelude.Map.{Map, find}
use l4_load_balancer_with_xd.Prelude.Exec.{Outcome, ok, thrown}
use l4_load_balancer_with_xd.Config.Bytes.{Bytes}
use l4_load_balancer_with_xd.Udp.Flow.{eintr}
use l4_load_balancer_with_xd.Tcp.Buffer
use l4_load_balancer_with_xd.Tcp.Buffer.Fifo.{contents}
use l4_load_balancer_with_xd.Tcp.Tokens
use l4_load_balancer_with_xd.Tcp.Tokens.{EndpointTokens, Target}
use l4_load_balancer_with_xd.Tcp.World.{
  Side, client, backend, Exception, session_failure, Call, Event, quiet, select_backend,
  accept_connection, close_listener, reads_signal, receives, sends, Log, World,
}
use l4_load_balancer_with_xd.Tcp.Reactor.{Session, TcpReactor, other, put}
use l4_load_balancer_with_xd.Tcp.Reactor.Dispatch.{side_of}

-- The bytes that were read at each end of each session and that the other end took, and the number
-- of calls of the backend selector.
pub record Trace : Type 0 where
  pub received : ℕ → Side → Bytes
  pub sent : ℕ → Side → Bytes
  pub selects : ℕ

abbrev pub append_at : ℕ → Side → Bytes → (ℕ → Side → Bytes) → ℕ → Side → Bytes
append_at id side xs f i = if i == id then put side (f i side ++ xs) (f i) else f i

abbrev pub add_received : ℕ → Side → Outcome ℕ Bytes → Trace → Trace
add_received id side (ok xs) t = record t { received = append_at id side xs t.received }
add_received id side (thrown errno) t = t

abbrev pub add_sent : ℕ → Side → Outcome ℕ Bytes → Trace → Trace
add_sent id side (ok xs) t = record t { sent = append_at id side xs t.sent }
add_sent id side (thrown errno) t = t

abbrev pub trace : Log → Trace
trace [] = record { received = λ _ _. []; sent = λ _ _. []; selects = 0 }
trace (quiet c ∷ log) = trace log
trace (accept_connection ∷ log) = trace log
trace (close_listener ∷ log) = trace log
trace (reads_signal answer ∷ log) = trace log
trace (select_backend ∷ log) = let t = trace log in record t { selects = t.selects + 1 }
trace (receives id side fd answer ∷ log) = add_received id side answer (trace log)
trace (sends id side fd answer ∷ log) = add_sent id side answer (trace log)

-- The listener was closed.
abbrev pub listener_closed : Log → Bool
listener_closed [] = false
listener_closed (quiet c ∷ log) = listener_closed log
listener_closed (accept_connection ∷ log) = listener_closed log
listener_closed (close_listener ∷ log) = true
listener_closed (reads_signal answer ∷ log) = listener_closed log
listener_closed (select_backend ∷ log) = listener_closed log
listener_closed (receives id side fd answer ∷ log) = listener_closed log
listener_closed (sends id side fd answer ∷ log) = listener_closed log

-- The read returned a signal, as long as `sizeof(signalfd_siginfo)`.
abbrev pub is_signal : Outcome ℕ ℕ → Bool
is_signal (ok count) = count == 128
is_signal (thrown errno) = false

-- A signal was read.
abbrev pub signal_came : Log → Bool
signal_came [] = false
signal_came (quiet c ∷ log) = signal_came log
signal_came (accept_connection ∷ log) = signal_came log
signal_came (close_listener ∷ log) = signal_came log
signal_came (reads_signal answer ∷ log) = is_signal answer || signal_came log
signal_came (select_backend ∷ log) = signal_came log
signal_came (receives id side fd answer ∷ log) = signal_came log
signal_came (sends id side fd answer ∷ log) = signal_came log

-- After a signal was read there is no call that accepts or receives, and before there is none that
-- closes the listener.
abbrev pub IsOrderly : Log → Type 0
IsOrderly [] = Unit
IsOrderly (quiet c ∷ log) = IsOrderly log
IsOrderly (accept_connection ∷ log) = (signal_came log ≡ false) × IsOrderly log
IsOrderly (close_listener ∷ log) = (signal_came log ≡ true) × IsOrderly log
IsOrderly (reads_signal answer ∷ log) = IsOrderly log
IsOrderly (select_backend ∷ log) = IsOrderly log
IsOrderly (receives id side fd answer ∷ log) = (signal_came log ≡ false) × IsOrderly log
IsOrderly (sends id side fd answer ∷ log) = IsOrderly log

-- A session against the bytes that went through it: what was read at an end is what the other end
-- took, followed by what waits. The end of a stream is passed on only after all of its bytes.
pub record IsSound (id : ℕ) (received sent : Side → Bytes) (x : Session) : Type 0 where
  pub named : x.id ≡ id
  pub valid : (side : Side) → Buffer.IsValid (x.pending side)
  pub stream : (side : Side) → received side ≡ sent side ++ contents (x.pending side)
  pub counted : (side : Side) → x.sent side ≡ length (sent side) % u64_mod
  pub half_closed :
      (side : Side)
      → (x.ends (other side)).shutdown ≡ true
      → ((x.ends side).eof ≡ true) × ((x.pending side).size ≡ 0)

abbrev pub IsPrefix : Bytes → Bytes → Type 0
IsPrefix xs ys = (rest : Bytes) × (ys ≡ xs ++ rest)

abbrev pub InOrder : Trace → Type 0
InOrder t = (id : ℕ) (side : Side) → IsPrefix (t.sent id side) (t.received id side)

-- A token resolves to a session that is there, and whose end carries it.
abbrev pub Owns : Map ℕ Session → ℕ → Target → Type 0
Owns sessions token target =
    (x : Session) × (find target.session_id sessions ≡ some x)
    × ((x.ends (side_of target.side)).token ≡ token)

pub record Facts (next : ℕ) (tokens : EndpointTokens) (sessions : Map ℕ Session) (t : Trace)
    : Type 0 where
  pub numbered : next ≤ t.selects + 1
  pub fresh : (id : ℕ) (side : Side) → next ≤ id → (t.received id side ≡ []) × (t.sent id side ≡ [])
  pub in_order : InOrder t
  pub below : (id : ℕ) (x : Session) → find id sessions ≡ some x → id < next
  pub sound :
      (id : ℕ) (x : Session) → find id sessions ≡ some x → IsSound id (t.received id) (t.sent id) x
  pub tokens_valid : Tokens.IsValid tokens
  pub owned :
      (token : ℕ) (target : Target)
      → find token tokens.entries ≡ some target
      → Owns sessions token target

-- A property of the tables and the trace.
abbrev pub Tables : Type 1
Tables = ℕ → EndpointTokens → Map ℕ Session → Trace → Type 0

-- It holds as long as the 64 bits of the identities of sessions suffice.
abbrev pub On : Tables → TcpReactor → Type 0
On T s =
    ((trace s.log).selects < u64_max → T s.next_session_id s.tokens s.sessions (trace s.log))
    × (IsOrderly s.log × (listener_closed s.log ≡ s.draining))
    × (signal_came s.log ≡ s.draining)

abbrev pub Ordered : Tables
Ordered next tokens sessions t = InOrder t

abbrev pub SessionIs : ℕ → Session → Tables
SessionIs id x next tokens sessions t = Facts next tokens sessions t × (find id sessions ≡ some x)

-- No call is interrupted, and the loops are followed far enough.
pub record IsPrompt (w : World) : Type 0 where
  pub patient : 65538 ≤ w.patience
  pub signals : (log : Log) → w.read_signal log ≢ thrown eintr
  pub sending : (log : Log) → w.send log ≢ thrown eintr
  pub receiving : (log : Log) → w.recv log ≢ thrown eintr
  pub accepting : (log : Log) → w.accept log ≢ thrown eintr
  pub shutting : (log : Log) → w.shutdown log ≢ eintr

-- What is known where a method throws.
abbrev pub Left : World → Exception → TcpReactor → Type 0
Left w (session_failure operation errno) s = On Facts s
Left w Exception.logic_error s = On Ordered s × ((trace s.log).selects < u64_max → ⊥)
Left w Exception.unfinished s = On Ordered s × ¬ (IsPrompt w)
Left w x s = On Ordered s
