-- ===== src/Udp/Reactor.antt =====
-- The class `UdpReactor` of src/net/UdpReactor.cpp, its tables and its reports. `Close` and `Create`
-- are the life of a flow, `Datagrams` the loops that receive and send.
pub mod Close
pub mod Create
pub mod Datagrams
pub mod Dispatch
pub mod Keeps
pub mod Indexes
use l4_load_balancer_with_xd.Prelude.{
  ℕ, suc, ◌+◌, ◌-◌, ◌≡◌, Bool, true, false, not, ◌&&◌, ◌||◌, Option, none, some, List, [], ◌∷◌, ltb,
  leb, ◌==◌, if◌then◌else◌, length, nat_eq, add64,
}
use l4_load_balancer_with_xd.Prelude.Map.{Map, find, erase, emplace, assign, update}
use l4_load_balancer_with_xd.Prelude.Exec.{
  Outcome, ok, thrown, Exec, pure, throw, gets, catch, modify, ◌>>=◌, ◌>>◌, when,
}
use l4_load_balancer_with_xd.Config.Bytes.{Bytes, codes, bytes_instance}
use l4_load_balancer_with_xd.Config.Endpoint.{Endpoint}
use l4_load_balancer_with_xd.Metrics.{StatKind}
use l4_load_balancer_with_xd.Udp.Flow.{UdpFlowKey, UdpFlow, key_instance, expired}
use l4_load_balancer_with_xd.Udp.World.{
  Exception, system_error, foreign, Event, read_clock, stat, observation, diagnostic, flow_event,
  attach, Log, World,
}

-- The members that change. The size of a datagram is modelled, and its bytes are not.
pub record UdpReactor : Type 0 where
  pub next_flow_token : ℕ
  pub flow_tokens_by_key : Map UdpFlowKey ℕ
  pub flows : Map ℕ UdpFlow
  pub last_diagnostic_times : Map Bytes ℕ
  pub log : Log

abbrev pub initial_reactor : UdpReactor
initial_reactor = record {
  next_flow_token = 3;
  flow_tokens_by_key = [];
  flows = [];
  last_diagnostic_times = [];
  log = [];
}

abbrev pub Action : Type 0 → Type 0
Action A = Exec UdpReactor Exception A

abbrev pub Unit₀ : Type 0
Unit₀ = Unit {0}

-- A call of the world.
abbrev record_event : Event → UdpReactor → UdpReactor
record_event e s = record s { log = e ∷ s.log }

unfoldable pub call : {A : Type 0} → Event → (Log → A) → Action A
call e answer = do a ← gets (λ s. answer s.log); modify (record_event e); pure a

unfoldable pub rethrow : Option Exception → Action Unit₀
rethrow none = pure tt
rethrow (some x) = throw x

unfoldable pub callback : Option (Log → Option Exception) → Event → Action Unit₀
unfolding call rethrow
callback none e = pure tt
callback (some f) e = do x ← call e f; rethrow x

-- `flows_.at(token)` throws on a missing token.
unfoldable pub found_or_throw : Option UdpFlow → Action UdpFlow
found_or_throw none = throw Exception.out_of_range
found_or_throw (some flow) = pure flow

unfoldable pub flow_at : ℕ → Action UdpFlow
unfolding found_or_throw
flow_at token = do found ← gets (λ s. find token s.flows); found_or_throw found

module _ (w : World) where
  unfoldable pub report_stat_event : StatKind → ℕ → Action Unit₀
  unfolding callback
  report_stat_event kind amount = callback w.statistics_callback (stat kind amount)

  unfoldable pub current_time : Action ℕ
  unfolding call
  current_time = call read_clock w.now

  unfoldable pub report_observation : Bytes → ℕ → Option ℕ → Action Unit₀
  unfolding callback
  report_observation kind token fd = do
    flows ← gets (λ s. length s.flows)
    tokens ← gets (λ s. length s.flow_tokens_by_key)
    callback w.observation_callback (observation kind token fd flows tokens)

  -- Within a second of the last diagnostic of the same kind.
  abbrev muted : Option ℕ → ℕ → Bool
  muted none time = false
  muted (some last) time = ltb time (last + 1000)

  unfoldable pub report_diagnostic : Bytes → ℕ → Action Unit₀
  unfolding callback current_time report_observation
  report_diagnostic kind error = do
    report_observation kind 0 none
    time ← current_time
    last ← gets (λ s. find kind s.last_diagnostic_times)
    if muted last time then pure tt else do
      modify (λ s. record s { last_diagnostic_times = assign kind time s.last_diagnostic_times })
      callback w.diagnostic_callback (diagnostic kind error)

  raise_errno : Bytes → ℕ → Action Unit₀
  raise_errno operation errno = if errno == 0 then pure tt else throw (system_error operation errno)

  unfoldable pub register_flow_socket : ℕ → ℕ → Action Unit₀
  unfolding call raise_errno
  register_flow_socket fd token = do
    errno ← call (attach fd token) w.epoll_add
    raise_errno (codes "UDP epoll add") errno
