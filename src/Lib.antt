-- ===== src/Lib.antt =====
-- Verification of the layer-4 load balancer: the components that decide what happens to a
-- connection, modelled after the C++ sources and proved against what they promise.
--
-- The balancer reads a configuration (src/config), chooses a backend for each new session or flow
-- (src/core, src/control), keeps the health of the backends (src/health), moves bytes between
-- clients and backends (src/net), and reports counters (src/metrics).
--
-- - Scheduler: `RoundRobinScheduler` (src/core/RoundRobinScheduler.h), its factory
--   (src/core/BackendScheduler.cpp), and `selectEligibleBackendIndex`
--   (src/control/HealthSelection.cpp), which asks the scheduler for one index after another until
--   it names an eligible backend. The state is the record `Scheduler`; a call gives the result and
--   the next state.
-- - Health: `HealthState::applyProbeResult` (src/health/HealthState.h), whose status decides which
--   backends are eligible.
-- - Tcp: `TcpPendingBuffer` and `EndpointTokens` (src/net/TcpState.h). The buffer is the array as a
--   function of the index, with the read offset and the size; `receive` and `readable` are the two
--   system calls on its spans. The token table is a counter and a map.
--   `Tcp.Reactor` is `TcpReactor` (src/net/TcpReactor.cpp, src/net/TcpReactor.h) with
--   `TcpIdleDeadline`: its methods are actions on the state of its members and a log, which may
--   throw and then keep what was changed. `Tcp.World` has the options, the callbacks and the system
--   calls; each call is an event of the log, and what it answers is any function of the log before
--   it, as is the `errno` that a later statement finds. The events of `recv` and `send` hold the
--   descriptor and the bytes, and those of the signal descriptor the answer. A session is found by
--   its identity where the source holds a reference to it. `Stop` is the handling of signals,
--   `Close` the end of a session, `Transfer` the loops that move bytes, `Interests` the epoll
--   interests, `Accept` the start of a session and `Dispatch` the event loop; `Facts` has the
--   invariant, `Run` what holds of whole
--   runs, `Life` counts what the session callback hears, and `Waits` is about the update of the
--   interests. A `SessionFailure` is an exception, which the callers that the source names catch.
--   Times are nanoseconds.
--   The loops that the source does not count have `patience` as fuel, which `IsPrompt` wants to be
--   65538 at least: more than the bytes of a buffer and the accepts of one round. A loop that uses it
--   up throws `unfinished`.
-- - Udp: `UdpReactor` (src/net/UdpReactor.cpp) with its flows (src/core/UdpFlow.h). Its methods are
--   actions on a state of two tables and a log, which may throw and then keep what was changed. Each
--   system call and callback is an event of the log, and what it answers is any function of the log
--   (`Udp.World`). The loops over attempts have the source's numbers of attempts as fuel, the loop
--   over the flows their number, and the event loop is followed for any number of rounds. Times are
--   milliseconds, and an error number is that of Linux.
-- - Xdp: `synchronizeXdpConfig` and `synchronizeDsrConfig` (src/control/XdpConfigSync.cpp,
--   src/control/DsrConfigSync.cpp) over the methods of `MapStore` and `DsrMapStore`
--   (src/xdp/MapStore.cpp, src/xdp/DsrMapStore.cpp). The kernel's maps are the state; the kernel may
--   refuse any call and store another value than the given one (`Kernel`). `Xdp.Runtime` is
--   `RuntimeMapStore::publishSnapshot` (src/xdp/RuntimeMapStore.cpp): of the kernel it keeps what
--   the inner maps contain and which one stands in the outer map, and the test write to a frozen
--   map leaves the contents as they are.
-- - Metrics: `MetricsCollector` (src/metrics/Metrics.cpp, src/metrics/Metrics.h), which counts the
--   events of src/net/Statistics.h, and `MetricsOutput`, which decides when a line goes out. What
--   the clock, the formatter and the sink answer are arguments of each call.
--   `formatMetricsSnapshot` writes the line, as bytes.
-- - Config: `parseConfig` with the literals that it reads (src/config/Config.cpp,
--   src/config/Config.h), and `formatEndpoint` (src/control/TcpService.cpp).
-- - Prelude: lists, maps, machine words and Boolean tests that the others share.
--
-- Machine words are natural numbers with the wrap-around written out; `std::size_t` has 64 bits and
-- `unsigned` has 32. A method that throws gives an empty option or an error, with the state that it
-- leaves. The loop of `parseConfig` runs on fuel, one unit a line, and is given the length of the
-- text, which is at least the number of lines; `std::to_string` runs on fuel `n + 1`, which is more
-- than the number of digits of `n`.
--
-- Not modelled: the constructors and signal masks of the two reactors, which make and register
-- descriptors; the probing of backends, the set-up and the statistics of the runtime store, the XDP
-- programs, the services and the command-line programs. Memory exhaustion is modelled where the
-- source catches it, in the set-up of a UDP flow.
pub mod Prelude
pub mod Scheduler
pub mod Health
pub mod Tcp
pub mod Udp
pub mod Xdp
pub mod Metrics
pub mod Config
