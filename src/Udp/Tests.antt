-- ===== src/Udp/Tests.antt =====
-- The UDP reactor in a world where calls succeed and reports throw.
use mathlib.Core.Path.{◌≡◌, refl}
use l4_load_balancer_with_xd.Prelude.{
  ◌≢◌, ◌↔◌, ◌⊎◌, true, false, ◌||◌, none, some, [], ◌∷◌, nat_eq, ◌==◌, if◌then◌else◌, length,
}
use l4_load_balancer_with_xd.Prelude.Map.{find, emplace}
use l4_load_balancer_with_xd.Prelude.Exec.{◌>>=◌, ok, thrown}
use l4_load_balancer_with_xd.Config.Bytes.{codes}
use l4_load_balancer_with_xd.Config.Endpoint.{Address, Endpoint, address_eq, zero_address}
use l4_load_balancer_with_xd.Udp.Flow.{UdpFlowKey, UdpFlow, key_instance, is_unicast_address}
use l4_load_balancer_with_xd.Udp.Packet.{
  Control, Message, parse_packet_metadata, scan_control, sender_ok, pktinfos, acceptable,
  parse_packet_metadata_iff,
}
use l4_load_balancer_with_xd.Udp.World.{foreign, World}
use l4_load_balancer_with_xd.Udp.Reactor.{UdpReactor, initial_reactor}
use l4_load_balancer_with_xd.Udp.Reactor.Close.{close_flow, close_all_flows, unlink}
use l4_load_balancer_with_xd.Udp.Reactor.Close.Reports.{close_log, close_flow_lem}
use l4_load_balancer_with_xd.Udp.Reactor.Close.All.{close_all_flows_lem}
use l4_load_balancer_with_xd.Udp.Reactor.Create.{create_flow, register_flow_indexes_and_socket}
use l4_load_balancer_with_xd.Udp.Reactor.Create.Registration.{register_flow_lem}
use l4_load_balancer_with_xd.Udp.Reactor.Indexes.{IsIndexed}
use l4_load_balancer_with_xd.Udp.Reactor.Dispatch.{run_udp_event_loop, run_udp_reactor}
use l4_load_balancer_with_xd.Udp.Reactor.Dispatch.Indexed.{event_loop-IsIndexed}
use l4_load_balancer_with_xd.Udp.Reactor.Dispatch.Finish.{run_udp_reactor_lem}

abbrev server : Address
server = record { b0 = 10; b1 = 0; b2 = 0; b3 = 1 }

abbrev client : Endpoint
client = record { address = record { b0 = 10; b1 = 0; b2 = 0; b3 = 7 }; port = 5000 }

abbrev backend : Endpoint
backend = record { address = record { b0 = 10; b1 = 0; b2 = 0; b3 = 9 }; port = 53 }

abbrev pktinfo : Control
pktinfo = record { level = 0; type = 8; len = 28; left = 32; addr = server; spec_dst = server }

abbrev request : Message
request = record {
  name_len = 16;
  family = 2;
  from = client;
  control_truncated = false;
  control = pktinfo ∷ [];
}

abbrev request_key : UdpFlowKey
request_key = record { client = client; local_address = server }

-- A datagram at every read, and a signal at the forty-second call.
abbrev world : World
world = record {
  max_flows = 4;
  idle_timeout = 60000;
  listen_address = zero_address;
  listener_fd = 5;
  now = λ log. length log;
  ready_callback = none;
  maintenance_callback = none;
  statistics_callback = some (λ log. none);
  observation_callback = none;
  diagnostic_callback = none;
  flow_callback = some (λ log. some (foreign 1));
  backend_selector = λ log. ok (some backend);
  setup_error = λ log. 0;
  allocates = λ log. true;
  socket = λ log. ok 9;
  bind = λ log. 0;
  connect = λ log. 0;
  epoll_add = λ log. 0;
  epoll_del = λ log. 0;
  read_signal = λ log. if length log == 41 then ok 128 else thrown 11;
  epoll_wait = λ log. ok ((1, record { err = false; hup = false; readable = true }) ∷ []);
  recvmsg = λ log. ok (record { size = 10; truncated = false; message = request });
  sendmsg = λ log. ok 10;
  socket_error = λ log. ok 0;
  errno = λ log. 11;
}

abbrev flow : UdpFlow
flow = record { key = request_key; backend = backend; fd = 9; token = 3; last_submission_time = 0 }

abbrev one_flow : UdpReactor
one_flow = record initial_reactor {
  next_flow_token = 4;
  flow_tokens_by_key = (request_key, 3) ∷ [];
  flows = (3, flow) ∷ [];
}

two_packet_infos_are_refused :
    parse_packet_metadata zero_address (record request { control = pktinfo ∷ pktinfo ∷ [] }) ≡ none
unfolding parse_packet_metadata scan_control is_unicast_address
two_packet_infos_are_refused = refl

parse_packet_metadata_iff_example :
    (parse_packet_metadata zero_address request ≡ some request_key) ↔ (
      (sender_ok request ≡ true)
      × (c : Control) × (pktinfos request.control ≡ c ∷ [])
      × (acceptable c ≡ true)
      × ((address_eq zero_address zero_address || address_eq zero_address c.addr) ≡ true)
      × (request_key ≡ record { client = client; local_address = c.addr }))
parse_packet_metadata_iff_example = parse_packet_metadata_iff zero_address request request_key

close_flow_lem_example :
    (close_flow world 3 (codes "backend-hup") 0 one_flow).1 ≡ record (unlink 3 flow one_flow) {
      log = close_log world 3 flow (codes "backend-hup") 0 one_flow;
    }
unfolding find
close_flow_lem_example = close_flow_lem world 3 flow (codes "backend-hup") 0 one_flow refl

close_all_flows_lem_example : (close_all_flows world one_flow).1.flows ≡ []
close_all_flows_lem_example = close_all_flows_lem world one_flow

register_flow_lem_example :
    let (r, t) = register_flow_indexes_and_socket world request_key 3 flow initial_reactor in
    ((r ≡ ok true)
      × (t.flow_tokens_by_key ≡ emplace request_key 3 [])
      × (t.flows ≡ emplace 3 flow []))
    ⊎ ((r ≢ ok true) × (t.flow_tokens_by_key ≡ []) × (t.flows ≡ []))
unfolding find
register_flow_lem_example = register_flow_lem world request_key 3 flow initial_reactor refl refl

event_loop-IsIndexed_example :
    let s = (run_udp_event_loop world 2 initial_reactor).1 in
    IsIndexed world s.next_flow_token s.flow_tokens_by_key s.flows
event_loop-IsIndexed_example = event_loop-IsIndexed world 2

run_udp_reactor_lem_example :
    ((run_udp_reactor world 2 initial_reactor).0 ≡ ok none)
    ⊎ ((run_udp_reactor world 2 initial_reactor).1.flows ≡ [])
run_udp_reactor_lem_example = run_udp_reactor_lem world 2 initial_reactor

-- The first request of a client opens a flow and gives it the first token.
abbrev quiet : World
quiet = record world { flow_callback = none }

first_flow : (create_flow quiet request_key initial_reactor).0 ≡ ok 3
unfolding create_flow ◌>>=◌ find emplace
first_flow = refl
