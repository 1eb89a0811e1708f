-- ===== src/Metrics/Format.antt =====
-- `formatMetricsSnapshot` of src/metrics/Metrics.cpp: the line for a snapshot, as bytes. `Length` is
-- about its size.
pub mod Length
use l4_load_balancer_with_xd.Prelude.{
  ℕ, zero, suc, ◌+◌, Bool, true, false, Option, none, some, List, [], ◌∷◌, ◌++◌, ltb, if◌then◌else◌,
  length, take,
}
use l4_load_balancer_with_xd.Config.Bytes.{Bytes, codes}
use l4_load_balancer_with_xd.Config.Decimal.{to_string}
use l4_load_balancer_with_xd.Metrics.{
  Protocol, tcp, udp, BackendHealth, disabled, unknown, healthy, unhealthy, BackendHealthSnapshot,
  MetricsSnapshot,
}
use l4_load_balancer_with_xd.Metrics.Output.{Phase, ready, periodic, final, error}

abbrev pub backend_health_name : BackendHealth → Bytes
backend_health_name disabled = codes "disabled"
backend_health_name unknown = codes "Unknown"
backend_health_name healthy = codes "Healthy"
backend_health_name unhealthy = codes "Unhealthy"

-- The strings that `MetricsOutput` passes as the phase.
abbrev pub phase_name : Phase → Bytes
phase_name ready = codes "ready"
phase_name periodic = codes "periodic"
phase_name final = codes "final"
phase_name error = codes "error"

abbrev pub protocol_name : Protocol → Bytes
protocol_name tcp = codes "tcp"
protocol_name udp = codes "udp"

abbrev pub bool_name : Bool → Bytes
bool_name true = codes "true"
bool_name false = codes "false"

unfoldable pub append_counter_field : Bytes → Bytes → ℕ → Bytes
append_counter_field line key value =
    line ++ (codes ",\"" ++ (key ++ (codes "\":" ++ to_string value)))

-- The text of one backend, with the comma before all but the first.
unfoldable pub backend_entry : ℕ → BackendHealthSnapshot → Bytes
backend_entry index b =
    (if ltb 0 index then codes "," else [])
    ++ (codes "{\"index\":"
        ++ (to_string index
            ++ (codes ",\"health\":\""
                ++ (backend_health_name b.health
                    ++ (codes "\",\"eligible\":" ++ (bool_name b.eligible ++ codes "}"))))))

-- The loop over the backends.
unfoldable pub append_backends : ℕ → List BackendHealthSnapshot → Bytes → Bytes
append_backends index [] line = line
append_backends index (b ∷ bs) line = append_backends (suc index) bs (line ++ backend_entry index b)

unfoldable pub head_text : MetricsSnapshot → Phase → Bytes
head_text s phase =
    codes "metrics {\"schema\":1,\"seq\":"
    ++ (to_string s.seq
        ++ (codes ",\"phase\":\""
            ++ (phase_name phase
                ++ (codes "\",\"protocol\":\""
                    ++ (protocol_name s.protocol
                        ++ (codes "\",\"uptime_ms\":" ++ to_string s.uptime_ms))))))

-- The counters, in the order of the line.
abbrev pub counter_fields : MetricsSnapshot → List (Bytes × ℕ)
counter_fields s =
    (codes "sessions_created_total", s.sessions_created_total)
    ∷ (codes "sessions_closed_total", s.sessions_closed_total)
    ∷ (codes "sessions_active", s.sessions_active)
    ∷ (codes "bytes_c2b_total", s.bytes_c2b_total)
    ∷ (codes "bytes_b2c_total", s.bytes_b2c_total)
    ∷ (codes "datagrams_c2b_total", s.datagrams_c2b_total)
    ∷ (codes "datagrams_b2c_total", s.datagrams_b2c_total)
    ∷ (codes "rejected_total", s.rejected_total)
    ∷ (codes "dropped_datagrams_total", s.dropped_datagrams_total)
    ∷ (codes "errors_total", s.errors_total)
    ∷ (codes "timeouts_total", s.timeouts_total)
    ∷ []

unfoldable pub append_counter_fields : List (Bytes × ℕ) → Bytes → Bytes
unfolding append_counter_field
append_counter_fields [] line = line
append_counter_fields ((key, value) ∷ fields) line =
    append_counter_fields fields (append_counter_field line key value)

abbrev pub saturated_field : Bool → Bytes
saturated_field true = codes ",\"counter_saturated\":true"
saturated_field false = codes ",\"counter_saturated\":false"

unfoldable pub snapshot_line : MetricsSnapshot → Phase → Bytes
unfolding head_text append_counter_fields append_backends
snapshot_line s phase =
    append_backends 0 (take s.backend_count s.backends) (
      (append_counter_fields (counter_fields s) (head_text s phase)
        ++ saturated_field s.counter_saturated)
      ++ codes ",\"backends\":[")
    ++ codes "]}\n"

-- `none` is an exception: `std::invalid_argument` or `std::length_error`.
unfoldable pub format_metrics_snapshot : MetricsSnapshot → Phase → Option Bytes
format_metrics_snapshot s phase =
    let line = snapshot_line s phase in
    if ltb 256 s.backend_count then none else if ltb 32768 (length line) then none else some line
