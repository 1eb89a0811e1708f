-- ===== src/Metrics/Format/Length.antt =====
-- The line of a snapshot fits the limit of 32768 bytes.
use l4_load_balancer_with_xd.Prelude.{
  ℕ, zero, suc, ◌+◌, ◌*◌, ◌/◌, ◌%◌, ◌≤◌, ◌<◌, ◌≡◌, Bool, true, false, some, List, [], ◌∷◌, ◌++◌,
  arith, ltb, if◌then◌else◌, length, length-append, take, u64_max, Bool-cases, inl, inr,
}
use l4_load_balancer_with_xd.Config.Bytes.{Bytes, codes}
use l4_load_balancer_with_xd.Config.Decimal.{digits, to_string}
use l4_load_balancer_with_xd.Metrics.{
  Protocol, tcp, udp, BackendHealth, disabled, unknown, healthy, unhealthy, BackendHealthSnapshot,
  MetricsSnapshot,
}
use l4_load_balancer_with_xd.Metrics.Output.{Phase, ready, periodic, final, error}
use l4_load_balancer_with_xd.Metrics.Format.{
  backend_health_name, phase_name, protocol_name, bool_name, append_counter_field, backend_entry,
  append_backends, head_text, counter_fields, append_counter_fields, saturated_field, snapshot_line,
  format_metrics_snapshot,
}

-- 10 to the power of the argument
abbrev ten : ℕ → ℕ
ten zero = 1
ten (suc k) = 10 * ten k

length-digits : (k fuel n : ℕ) → n < ten (suc k) → length (digits fuel n) ≤ suc k
unfolding digits
length-digits k zero n h = omega arith
length-digits zero (suc fuel) n h = ground arith
length-digits (suc k) (suc fuel) n h =
    let front = length-digits k fuel (n / 10) (omega arith) in
    elim (Bool-cases (ltb n 10)) [
      | inl short ↦ rw short (omega arith)
      | inr long ↦
          rw long (omega (arith, length-append (digits fuel (n / 10)) ((48 + n % 10) ∷ [])))
    ]

length-word : (n : ℕ) → n ≤ u64_max → length (to_string n) ≤ 20
unfolding to_string
length-word n h = length-digits 19 (suc n) n (omega arith)

length-index : (n : ℕ) → n < 1000 → length (to_string n) ≤ 3
unfolding to_string
length-index n h = length-digits 2 (suc n) n (omega arith)

length-append_counter_field :
    (line key : Bytes) (value : ℕ)
    → length key ≤ 23
    → value ≤ u64_max
    → length (append_counter_field line key value) ≤ length line + 47
unfolding append_counter_field
length-append_counter_field line key value hk hv = omega (
  arith,
  length-append line (codes ",\"" ++ (key ++ (codes "\":" ++ to_string value))),
  length-append key (codes "\":" ++ to_string value),
  length-word value hv,
)

abbrev AllFit : List (Bytes × ℕ) → Type 0
AllFit [] = Unit {0}
AllFit ((key, value) ∷ fields) = (length key ≤ 23) × (value ≤ u64_max) × AllFit fields

length-append_counter_fields :
    (fields : List (Bytes × ℕ)) (line : Bytes)
    → AllFit fields
    → length (append_counter_fields fields line) ≤ length line + length fields * 47
unfolding append_counter_fields
length-append_counter_fields [] line fit = omega arith
length-append_counter_fields ((key, value) ∷ fields) line (hk, hv, fit) = omega (
  arith,
  length-append_counter_field line key value hk hv,
  length-append_counter_fields fields (append_counter_field line key value) fit,
)

length-name : (h : BackendHealth) → length (backend_health_name h) ≤ 9
length-name disabled = omega arith
length-name unknown = omega arith
length-name healthy = omega arith
length-name unhealthy = omega arith

length-bool_name : (b : Bool) → length (bool_name b) ≤ 5
length-bool_name true = omega arith
length-bool_name false = omega arith

length-backend_entry :
    (index : ℕ) (b : BackendHealthSnapshot) → index < 1000 → length (backend_entry index b) ≤ 60
unfolding backend_entry
length-backend_entry index b h =
    let t4 = bool_name b.eligible ++ codes "}" in
    let t3 = codes "\",\"eligible\":" ++ t4 in
    let t2 = backend_health_name b.health ++ t3 in
    let t1 = codes ",\"health\":\"" ++ t2 in
    let t0 = to_string index ++ t1 in
    let c = if ltb 0 index then codes "," else [] in
    omega (
      arith,
      comma (ltb 0 index),
      length-append c (codes "{\"index\":" ++ t0),
      length-append (to_string index) t1,
      length-index index h,
      length-append (backend_health_name b.health) t3,
      length-name b.health,
      length-append (bool_name b.eligible) (codes "}"),
      length-bool_name b.eligible,
    )
  where
    comma : (c : Bool) → length (if c then codes "," else []) ≤ 1
    comma true = omega arith
    comma false = omega arith

length-append_backends :
    (bs : List BackendHealthSnapshot) (index : ℕ) (line : Bytes)
    → index + length bs ≤ 1000
    → length (append_backends index bs line) ≤ length line + length bs * 60
unfolding append_backends
length-append_backends [] index line h = omega arith
length-append_backends (b ∷ bs) index line h = omega (
  arith,
  length-append line (backend_entry index b),
  length-backend_entry index b (omega arith),
  length-append_backends bs (suc index) (line ++ backend_entry index b) (omega arith),
)

length-phase : (p : Phase) → length (phase_name p) ≤ 8
length-phase ready = omega arith
length-phase periodic = omega arith
length-phase final = omega arith
length-phase error = omega arith

length-protocol : (p : Protocol) → length (protocol_name p) ≤ 3
length-protocol tcp = omega arith
length-protocol udp = omega arith

length-head :
    (s : MetricsSnapshot) (p : Phase)
    → s.seq ≤ u64_max
    → s.uptime_ms ≤ u64_max
    → length (head_text s p) ≤ 150
unfolding head_text
length-head s p hs hu =
    let t2 = codes "\",\"uptime_ms\":" ++ to_string s.uptime_ms in
    let t1 = codes "\",\"protocol\":\"" ++ (protocol_name s.protocol ++ t2) in
    let t0 = codes ",\"phase\":\"" ++ (phase_name p ++ t1) in
    omega (
      arith,
      length-append (to_string s.seq) t0,
      length-word s.seq hs,
      length-append (phase_name p) t1,
      length-phase p,
      length-append (protocol_name s.protocol) t2,
      length-protocol s.protocol,
      length-word s.uptime_ms hu,
    )

length-saturated : (b : Bool) → length (saturated_field b) ≤ 27
length-saturated true = omega arith
length-saturated false = omega arith

-- The fields of 64 bits.
pub record IsWord (s : MetricsSnapshot) : Type 0 where
  pub seq : s.seq ≤ u64_max
  pub uptime_ms : s.uptime_ms ≤ u64_max
  pub sessions_created_total : s.sessions_created_total ≤ u64_max
  pub sessions_closed_total : s.sessions_closed_total ≤ u64_max
  pub sessions_active : s.sessions_active ≤ u64_max
  pub bytes_c2b_total : s.bytes_c2b_total ≤ u64_max
  pub bytes_b2c_total : s.bytes_b2c_total ≤ u64_max
  pub datagrams_c2b_total : s.datagrams_c2b_total ≤ u64_max
  pub datagrams_b2c_total : s.datagrams_b2c_total ≤ u64_max
  pub rejected_total : s.rejected_total ≤ u64_max
  pub dropped_datagrams_total : s.dropped_datagrams_total ≤ u64_max
  pub errors_total : s.errors_total ≤ u64_max
  pub timeouts_total : s.timeouts_total ≤ u64_max

counter_fields-AllFit : (s : MetricsSnapshot) → IsWord s → AllFit (counter_fields s)
counter_fields-AllFit s w = (
  omega arith,
  w.sessions_created_total,
  (
    omega arith,
    w.sessions_closed_total,
    (
      omega arith,
      w.sessions_active,
      (
        omega arith,
        w.bytes_c2b_total,
        (
          omega arith,
          w.bytes_b2c_total,
          (
            omega arith,
            w.datagrams_c2b_total,
            (
              omega arith,
              w.datagrams_b2c_total,
              (
                omega arith,
                w.rejected_total,
                (
                  omega arith,
                  w.dropped_datagrams_total,
                  (omega arith, w.errors_total, (omega arith, w.timeouts_total, tt)),
                ),
              ),
            ),
          ),
        ),
      ),
    ),
  ),
)

length-take : (n : ℕ) (bs : List BackendHealthSnapshot) → length (take n bs) ≤ n
length-take zero bs = omega arith
length-take (suc n) [] = omega arith
length-take (suc n) (b ∷ bs) = omega (arith, length-take n bs)

-- The line of any snapshot with at most 256 backends has at most 32768 bytes, so that neither of
-- the exceptions of the formatter is thrown and the output is never disabled for its size.
pub format_metrics_total :
    (s : MetricsSnapshot) (phase : Phase)
    → IsWord s
    → s.backend_count ≤ 256
    → (format_metrics_snapshot s phase ≡ some (snapshot_line s phase))
      × (length (snapshot_line s phase) ≤ 32768)
unfolding format_metrics_snapshot
format_metrics_total s phase w few = (ground (arith, fits), fits)
  where
    fits : length (snapshot_line s phase) ≤ 32768
    fits =
        let bs = take s.backend_count s.backends in
        let head = head_text s phase in
        let counters = append_counter_fields (counter_fields s) head in
        let flag = saturated_field s.counter_saturated in
        let before = (counters ++ flag) ++ codes ",\"backends\":[" in
        unfold snapshot_line in
        omega (
          arith,
          length-head s phase w.seq w.uptime_ms,
          length-append_counter_fields (counter_fields s) head (counter_fields-AllFit s w),
          length-saturated s.counter_saturated,
          length-append counters flag,
          length-append (counters ++ flag) (codes ",\"backends\":["),
          length-take s.backend_count s.backends,
          length-append_backends bs 0 before
              (omega (arith, length-take s.backend_count s.backends)),
          length-append (append_backends 0 bs before) (codes "]}\n"),
        )
