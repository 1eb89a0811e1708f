-- ===== src/Tcp.antt =====
-- The TCP data path, src/net/TcpState.h and src/net/TcpReactor.cpp: `Buffer` is the ring of bytes
-- that wait in one direction of a session, `Tokens` the identities that the event loop gives to
-- sockets, `Reactor` the event loop with its sessions, and `World` what it calls.
pub mod Buffer
pub mod Tokens
pub mod World
pub mod Reactor
