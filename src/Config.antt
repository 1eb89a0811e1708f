-- ===== src/Config.antt =====
-- The configuration of the user-space balancer: src/config/Config.h and the parser of
-- src/config/Config.cpp. Texts are lists of bytes. `Bytes` has the operations of
-- `std::string_view`, `Decimal` and `Endpoint` the two literals, `Parser` the lines of a file.
mod Tests
pub mod Bytes
pub mod Decimal
pub mod Endpoint
pub mod Parser
