-- ===== src/Udp/Reactor/Create.antt =====
-- `createFlow` and `registerFlowIndexesAndSocket` of src/net/UdpReactor.cpp. An `Fd` that goes out
-- of scope closes its descriptor; allocation may fail where the source catches `std::bad_alloc`.
pub mod Registration
pub mod Indexed
use l4_load_balancer_with_xd.Prelude.{
  ℕ, zero, suc, ◌+◌, ◌≡◌, Bool, true, false, not, ◌&&◌, ◌||◌, Option, none, some, List, [], ◌∷◌,
  ◌==◌, leb, if◌then◌else◌, length, nat_eq, add64, u64_max,
}
use l4_load_balancer_with_xd.Prelude.Map.{Map, find, erase, emplace}
use l4_load_balancer_with_xd.Prelude.Exec.{
  Outcome, ok, thrown, Exec, pure, throw, gets, catch, modify, ◌>>=◌, ◌>>◌, when,
}
use l4_load_balancer_with_xd.Config.Bytes.{Bytes, codes}
use l4_load_balancer_with_xd.Config.Endpoint.{Endpoint}
use l4_load_balancer_with_xd.Metrics.{StatKind, created, rejected, error}
use l4_load_balancer_with_xd.Udp.Flow.{UdpFlowKey, UdpFlow, key_instance, enomem, ebadf, einval}
use l4_load_balancer_with_xd.Udp.World.{
  Exception, bad_alloc, overflow_error, out_of_range, system_error, foreign, Event, allocate,
  select, inject, open_socket, bind_socket, connect_socket, flow_event, Log, World,
}
use l4_load_balancer_with_xd.Udp.Reactor.{
  UdpReactor, Action, Unit₀, call, callback, flow_at, report_stat_event, current_time,
  report_observation, report_diagnostic, register_flow_socket,
}
use l4_load_balancer_with_xd.Udp.Reactor.Close.{drop_fd, expire_idle_flows}

-- The action of a scope that owns a descriptor, which is closed at its end and on an exception.
unfoldable pub scoped : {A : Type 0} → ℕ → Action A → Action A
unfolding drop_fd
scoped fd m = do a ← catch m (λ x. drop_fd fd >> throw x); drop_fd fd; pure a

abbrev pub index_key : UdpFlowKey → ℕ → UdpReactor → UdpReactor
index_key key token s = record s { flow_tokens_by_key = emplace key token s.flow_tokens_by_key }

abbrev pub insert_flow : ℕ → UdpFlow → UdpReactor → UdpReactor
insert_flow token flow s = record s { flows = emplace token flow s.flows }

abbrev pub erase_key : UdpFlowKey → UdpReactor → UdpReactor
erase_key key s = record s { flow_tokens_by_key = erase key s.flow_tokens_by_key }

abbrev pub erase_flow : ℕ → UdpReactor → UdpReactor
erase_flow token s = record s { flows = erase token s.flows }

abbrev pub take_token : UdpReactor → UdpReactor
take_token s = record s { next_flow_token = add64 s.next_flow_token 1 }

module _ (w : World) where
  unfoldable pub report_setup_drop : ℕ → Action Unit₀
  unfolding report_stat_event report_diagnostic
  report_setup_drop errno = do
    report_stat_event w error 1
    report_diagnostic w (codes "setup-drop") errno

  -- `error ? error : errno`, where `errno` is what the callback before it left.
  unfoldable pub setup_drop : ℕ → Action ℕ
  unfolding report_stat_event report_diagnostic
  setup_drop injected = do
    report_stat_event w error 1
    last ← gets (λ s. w.errno s.log)
    report_diagnostic w (codes "setup-drop") (if injected == 0 then last else injected)
    pure 0

  module _ (key : UdpFlowKey) (token : ℕ) (flow : UdpFlow) where
    -- The two `catch` blocks. `flows_.erase` closes the descriptor of a flow that is in the table.
    catch_registration : Exception → Action Bool
    unfolding report_setup_drop drop_fd
    catch_registration (system_error operation errno) = do
      modify (erase_key key)
      modify (erase_flow token)
      drop_fd flow.fd
      if errno == ebadf || errno == einval
          then throw (system_error operation errno)
          else do report_setup_drop errno; pure false
    catch_registration x = throw x

    attach_flow : Action Bool
    unfolding flow_at register_flow_socket
    attach_flow = do inserted ← flow_at token; register_flow_socket w inserted.fd token; pure true

    -- Without memory for the second table, the first index is taken back.
    insert_and_attach : Bool → Action Bool
    unfolding scoped report_setup_drop attach_flow catch_registration
    insert_and_attach false = do
      modify (erase_key key)
      modify (erase_flow token)
      scoped flow.fd (report_setup_drop enomem)
      pure false
    insert_and_attach true = do
      modify (insert_flow token flow)
      catch attach_flow catch_registration

    index_and_insert : Bool → Action Bool
    unfolding scoped report_setup_drop call insert_and_attach
    index_and_insert false = do
      modify (erase_flow token)
      scoped flow.fd (report_setup_drop enomem)
      pure false
    index_and_insert true = do
      modify (index_key key token)
      allocated ← call allocate w.allocates
      insert_and_attach allocated

    unfoldable pub register_flow_indexes_and_socket : Action Bool
    unfolding call index_and_insert
    register_flow_indexes_and_socket = do
      allocated ← call allocate w.allocates
      index_and_insert allocated

    unfoldable pub announce_flow : Action ℕ
    unfolding report_stat_event flow_at report_observation callback
    announce_flow = do
      report_stat_event w created 1
      inserted ← flow_at token
      report_observation w (codes "created") token (some inserted.fd)
      callback w.flow_callback (flow_event token flow.backend (codes "created") 0)
      pure token

    unfoldable pub register_and_announce : Action ℕ
    unfolding call scoped setup_drop register_flow_indexes_and_socket announce_flow
    register_and_announce = do
      injected ← call (inject (codes "epoll")) w.setup_error
      if not (injected == 0) then scoped flow.fd (setup_drop injected) else do
        registered ← register_flow_indexes_and_socket
        if registered then announce_flow else pure 0

  module _ (key : UdpFlowKey) (backend : Endpoint) (fd : ℕ) where
    make_flow : ℕ → ℕ → Bool → Action ℕ
    unfolding drop_fd setup_drop register_and_announce
    make_flow token time false = do drop_fd fd; setup_drop enomem
    make_flow token time true = register_and_announce key token (record {
      key = key;
      backend = backend;
      fd = fd;
      token = token;
      last_submission_time = time;
    })

    unfoldable pub number_flow : Action ℕ
    unfolding call scoped current_time make_flow
    number_flow = do
      token ← gets (λ s. s.next_flow_token)
      if token == u64_max then scoped fd (throw overflow_error) else do
        modify take_token
        time ← current_time w
        allocated ← call allocate w.allocates
        make_flow token time allocated

    -- The injected error, 0 where the call failed, and `none` where it did not.
    setup_error_of : Bytes → Event → (Log → ℕ) → Action (Option ℕ)
    unfolding call
    setup_error_of name e answer = do
      injected ← call (inject name) w.setup_error
      if not (injected == 0)
          then pure (some injected)
          else do errno ← call e answer; pure (if errno == 0 then none else some 0)

    unless_failed : Option ℕ → Action ℕ → Action ℕ
    unfolding scoped setup_drop
    unless_failed none next = next
    unless_failed (some injected) next = scoped fd (setup_drop injected)

    unfoldable pub set_up_flow : Action ℕ
    unfolding setup_error_of unless_failed number_flow
    set_up_flow = do
      bind_error ← setup_error_of (codes "bind") (bind_socket fd) w.bind
      unless_failed bind_error (do
        connect_error ← setup_error_of (codes "connect") (connect_socket fd backend) w.connect
        unless_failed connect_error number_flow)

  opened_flow : UdpFlowKey → Endpoint → Outcome ℕ ℕ → Action ℕ
  unfolding setup_drop set_up_flow
  opened_flow key backend (thrown errno) = setup_drop 0
  opened_flow key backend (ok fd) = set_up_flow key backend fd

  open_flow : UdpFlowKey → Endpoint → Action ℕ
  unfolding call setup_drop opened_flow
  open_flow key backend = do
    injected ← call (inject (codes "socket")) w.setup_error
    if not (injected == 0)
        then setup_drop injected
        else do opened ← call open_socket w.socket; opened_flow key backend opened

  selected_flow : UdpFlowKey → Outcome Exception (Option Endpoint) → Action ℕ
  unfolding report_stat_event open_flow
  selected_flow key (thrown x) = throw x
  selected_flow key (ok none) = do report_stat_event w rejected 1; pure 0
  selected_flow key (ok (some backend)) = open_flow key backend

  refuse_flow : Action ℕ
  unfolding report_stat_event report_diagnostic
  refuse_flow = do
    report_stat_event w rejected 1
    report_diagnostic w (codes "capacity-drop") 0
    pure 0

  unfoldable pub create_flow : UdpFlowKey → Action ℕ
  unfolding expire_idle_flows report_stat_event report_diagnostic call selected_flow refuse_flow
  create_flow key = do
    expire_idle_flows w
    count ← gets (λ s. length s.flows)
    if leb w.max_flows count
        then refuse_flow
        else do selected ← call select w.backend_selector; selected_flow key selected
