-- ===== src/Metrics.antt =====
-- Counters of the services: src/net/Statistics.h, and `MetricsCollector` with its saturating
-- addition from src/metrics/Metrics.h and src/metrics/Metrics.cpp. `Collector` proves what the
-- counters mean; `Output` models when snapshots are emitted.
pub mod Collector
pub mod Output
pub mod Format
mod Tests
use l4_load_balancer_with_xd.Prelude.{
  ℕ, ◌+◌, ◌-◌, ◌≤◌, ◌<◌, ◌≡◌, Bool, true, false, not, ◌&&◌, ◌||◌, Option, none, some, List, [], ◌∷◌,
  ◌==◌, leb, ltb, if◌then◌else◌, add64, sub64, u64_max, replicate,
}

pub data StatKind : Type 0 where
  created closed bytes_c2b bytes_b2c datagram_c2b datagram_b2c : StatKind
  rejected dropped error timeout : StatKind

pub record StatEvent : Type 0 where
  pub kind : StatKind
  pub amount : ℕ

pub data Protocol : Type 0 where
  tcp udp : Protocol

pub data BackendHealth : Type 0 where
  disabled unknown healthy unhealthy : BackendHealth

pub record BackendHealthSnapshot : Type 0 where
  pub health : BackendHealth
  pub eligible : Bool

-- Of the array `backends` the list holds the 256 entries.
pub record MetricsSnapshot : Type 0 where
  pub protocol : Protocol
  pub seq : ℕ
  pub uptime_ms : ℕ
  pub sessions_created_total : ℕ
  pub sessions_closed_total : ℕ
  pub sessions_active : ℕ
  pub bytes_c2b_total : ℕ
  pub bytes_b2c_total : ℕ
  pub datagrams_c2b_total : ℕ
  pub datagrams_b2c_total : ℕ
  pub rejected_total : ℕ
  pub dropped_datagrams_total : ℕ
  pub errors_total : ℕ
  pub timeouts_total : ℕ
  pub counter_saturated : Bool
  pub backend_count : ℕ
  pub backends : List BackendHealthSnapshot

abbrev pub default_health : BackendHealthSnapshot
default_health = record { health = disabled; eligible = true }

empty_snapshot : Protocol → ℕ → MetricsSnapshot
empty_snapshot protocol backend_count = record {
  protocol = protocol;
  seq = 0;
  uptime_ms = 0;
  sessions_created_total = 0;
  sessions_closed_total = 0;
  sessions_active = 0;
  bytes_c2b_total = 0;
  bytes_b2c_total = 0;
  datagrams_c2b_total = 0;
  datagrams_b2c_total = 0;
  rejected_total = 0;
  dropped_datagrams_total = 0;
  errors_total = 0;
  timeouts_total = 0;
  counter_saturated = false;
  backend_count = backend_count;
  backends = replicate 256 default_health;
}

-- The constructor of `MetricsCollector`; `none` is `std::invalid_argument`.
unfoldable pub metrics_collector : Protocol → ℕ → Option MetricsSnapshot
unfolding empty_snapshot
metrics_collector protocol backend_count =
    if ltb 256 backend_count || backend_count == 0
    then none
    else some (empty_snapshot protocol backend_count)

-- The new value of a counter, and of the flag `saturated`.
unfoldable pub add_saturating_counter : ℕ → ℕ → Bool → ℕ × Bool
add_saturating_counter value amount saturated =
    if leb (sub64 u64_max value) amount then (u64_max, true) else (add64 value amount, saturated)

-- `incrementCounter` on the counter that `field` reads and `put` writes
module _ (field : MetricsSnapshot → ℕ) (put : MetricsSnapshot → ℕ → MetricsSnapshot) where
  unfoldable pub increment_counter : MetricsSnapshot → ℕ → MetricsSnapshot
  unfolding add_saturating_counter
  increment_counter m amount =
      let (value, saturated) = add_saturating_counter (field m) amount m.counter_saturated in
      record (put m value) { counter_saturated = saturated }

is_udp : Protocol → Bool
is_udp tcp = false
is_udp udp = true

-- The switch of `recordStatEvent`, over the kind: the new counters and the result.
record_kind : StatKind → MetricsSnapshot → ℕ → MetricsSnapshot × Bool
unfolding increment_counter is_udp
record_kind created m amount =
    if not (amount == 1) || leb 1024 m.sessions_active then (m, false) else (
      increment_counter (λ m. m.sessions_created_total)
          (λ m v. record m { sessions_created_total = v })
          (record m { sessions_active = add64 m.sessions_active 1 }) amount,
      true,
    )
record_kind closed m amount = if not (amount == 1) || m.sessions_active == 0 then (m, false) else (
  increment_counter (λ m. m.sessions_closed_total) (λ m v. record m { sessions_closed_total = v })
      (record m { sessions_active = sub64 m.sessions_active 1 }) amount,
  true,
)
record_kind bytes_c2b m amount = (
  increment_counter (λ m. m.bytes_c2b_total) (λ m v. record m { bytes_c2b_total = v }) m amount,
  true,
)
record_kind bytes_b2c m amount = (
  increment_counter (λ m. m.bytes_b2c_total) (λ m v. record m { bytes_b2c_total = v }) m amount,
  true,
)
record_kind datagram_c2b m amount = if not (is_udp m.protocol) then (m, false) else (
  increment_counter (λ m. m.datagrams_c2b_total) (λ m v. record m { datagrams_c2b_total = v }) m
      amount,
  true,
)
record_kind datagram_b2c m amount = if not (is_udp m.protocol) then (m, false) else (
  increment_counter (λ m. m.datagrams_b2c_total) (λ m v. record m { datagrams_b2c_total = v }) m
      amount,
  true,
)
record_kind rejected m amount = (
  increment_counter (λ m. m.rejected_total) (λ m v. record m { rejected_total = v }) m amount,
  true,
)
record_kind dropped m amount = if not (is_udp m.protocol) then (m, false) else (
  increment_counter (λ m. m.dropped_datagrams_total)
      (λ m v. record m { dropped_datagrams_total = v }) m amount,
  true,
)
record_kind error m amount =
    (increment_counter (λ m. m.errors_total) (λ m v. record m { errors_total = v }) m amount, true)
record_kind timeout m amount = (
  increment_counter (λ m. m.timeouts_total) (λ m v. record m { timeouts_total = v }) m amount,
  true,
)

unfoldable pub record_stat_event : MetricsSnapshot → StatEvent → MetricsSnapshot × Bool
unfolding record_kind
record_stat_event m event = record_kind event.kind m event.amount
