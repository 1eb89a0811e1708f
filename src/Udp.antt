-- ===== src/Udp.antt =====
-- The UDP side of the balancer: src/core/UdpFlow.h and src/net/UdpReactor.cpp. `Flow` has the keys,
-- the deadlines and the tests on addresses and error numbers, `Packet` the metadata of a datagram,
-- `World` what the reactor calls outside of the repository, `Reactor` its methods.
pub mod Flow
pub mod Packet
pub mod World
pub mod Reactor
mod Tests
