-- ===== src/Metrics/Collector.antt =====
-- What the counters of `MetricsCollector` say about the events that were recorded.
use mathlib.Core.Path.{subst}
use l4_load_balancer_with_xd.Prelude.{
  ℕ, ◌+◌, ◌≤◌, ◌≡◌, ◌≢◌, ◌⊎◌, Bool, true, false, ◌||◌, arith, min, leb, u64_max, List, [], ◌∷◌,
  ◌&&◌, ◌↔◌, inl, inr, if◌then◌else◌, Bool-cases, sym,
}
use l4_load_balancer_with_xd.Metrics.{
  StatKind, created, closed, bytes_c2b, bytes_b2c, datagram_c2b, datagram_b2c, rejected, dropped,
  error, timeout, StatEvent, MetricsSnapshot, add_saturating_counter, record_stat_event,
  record_kind,
}

-- The addition is exact below the largest value, stays there from then on, and sets the flag just
-- when it reaches it.
add_saturating_lem :
    (value amount : ℕ) (saturated : Bool)
    → value ≤ u64_max
    → ((add_saturating_counter value amount saturated).0 ≡ min (value + amount) u64_max)
      × ((add_saturating_counter value amount saturated).1
          ≡ (saturated || leb u64_max (value + amount)))
unfolding add_saturating_counter
add_saturating_lem value amount saturated h = ground arith

unfoldable pub counter : StatKind → MetricsSnapshot → ℕ
counter created m = m.sessions_created_total
counter closed m = m.sessions_closed_total
counter bytes_c2b m = m.bytes_c2b_total
counter bytes_b2c m = m.bytes_b2c_total
counter datagram_c2b m = m.datagrams_c2b_total
counter datagram_b2c m = m.datagrams_b2c_total
counter rejected m = m.rejected_total
counter dropped m = m.dropped_datagrams_total
counter error m = m.errors_total
counter timeout m = m.timeouts_total

pub record IsValid (m : MetricsSnapshot) : Type 0 where
  pub active : m.sessions_active ≤ 1024
  pub created_le : m.sessions_created_total ≤ u64_max
  pub closed_le : m.sessions_closed_total ≤ u64_max
  pub balance :
      m.counter_saturated ≡ false
      → m.sessions_created_total ≡ m.sessions_closed_total + m.sessions_active

-- The gauge of open sessions stays within 0 to 1024, the two lifecycle counters within 64 bits, and
-- as long as no counter has saturated the sessions created are those closed and those active.
pub record_stat_event-IsValid :
    {m : MetricsSnapshot} (event : StatEvent) → IsValid m → IsValid (record_stat_event m event).0
unfolding record_stat_event
record_stat_event-IsValid {m} event v = go event.kind
  where
    go : (kind : StatKind) → IsValid (record_kind kind m event.amount).0
    go created = ground arith
    go closed = ground arith
    go bytes_c2b = ground arith
    go bytes_b2c = ground arith
    go datagram_c2b = ground arith
    go datagram_b2c = ground arith
    go rejected = ground arith
    go dropped = ground arith
    go error = ground arith
    go timeout = ground arith

-- What an event does to the counter of its kind, the others staying as they are.
abbrev pub Counted : StatKind → ℕ → MetricsSnapshot → MetricsSnapshot → Type 0
Counted kind amount m m' =
    (counter kind m' ≡ min (counter kind m + amount) u64_max)
    × ((other : StatKind) → other ≢ kind → counter other m' ≡ counter other m)
    × (m'.protocol ≡ m.protocol)

record_kind-Counted :
    (kind : StatKind) (amount : ℕ) (m : MetricsSnapshot)
    → counter kind m ≤ u64_max
    → ((record_kind kind m amount).1 ≡ true × Counted kind amount m (record_kind kind m amount).0)
      ⊎ (record_kind kind m amount ≡ (m, false))
unfolding record_kind counter
record_kind-Counted created amount m h = ground arith
record_kind-Counted _ amount m h = ground arith

-- An event either counts: the counter of its kind grows by its amount, up to the largest value, no
-- other counter and not the protocol changes, and the result is true; or the result is false and
-- the snapshot is what it was.
pub record_stat_event_lem :
    (m : MetricsSnapshot) (event : StatEvent)
    → counter event.kind m ≤ u64_max
    → (((record_stat_event m event).1 ≡ true)
        × Counted event.kind event.amount m (record_stat_event m event).0)
      ⊎ (record_stat_event m event ≡ (m, false))
unfolding record_stat_event
record_stat_event_lem m event h = record_kind-Counted event.kind event.amount m h

unfoldable pub record_all : List StatEvent → MetricsSnapshot → MetricsSnapshot
record_all [] m = m
record_all (event ∷ events) m = record_all events (record_stat_event m event).0

abbrev same_kind : StatKind → StatKind → Bool
same_kind created created = true
same_kind closed closed = true
same_kind bytes_c2b bytes_c2b = true
same_kind bytes_b2c bytes_b2c = true
same_kind datagram_c2b datagram_c2b = true
same_kind datagram_b2c datagram_b2c = true
same_kind rejected rejected = true
same_kind dropped dropped = true
same_kind error error = true
same_kind timeout timeout = true
same_kind _ _ = false

same_kind_iff : (a b : StatKind) → (same_kind a b ≡ true) ↔ (a ≡ b)
same_kind_iff a b = ground arith

-- What an event adds to the counter of a kind: its amount, if it is of that kind and accepted.
unfoldable pub gain : StatKind → StatEvent → MetricsSnapshot → ℕ
gain kind event m =
    if (record_stat_event m event).1 && same_kind event.kind kind then event.amount else 0

-- The sum of what the events add, without a limit.
unfoldable pub total : StatKind → List StatEvent → MetricsSnapshot → ℕ
total kind [] m = 0
total kind (event ∷ events) m = gain kind event m + total kind events (record_stat_event m event).0

abbrev pub Limited : MetricsSnapshot → Type 0
Limited m = (kind : StatKind) → counter kind m ≤ u64_max

gain_lem :
    (kind : StatKind) (event : StatEvent) (m : MetricsSnapshot)
    → Limited m
    → counter kind (record_stat_event m event).0 ≡ min (counter kind m + gain kind event m) u64_max
unfolding gain
gain_lem kind event m h = elim (record_stat_event_lem m event (h event.kind)) [
  | inl (accepted, (own, others, p)) ↦ elim (Bool-cases (same_kind event.kind kind)) [
    | inl same ↦
        let e = (same_kind_iff event.kind kind).0 same in
        rw accepted (
          rw same (
            subst
              (λ k.
                counter k (record_stat_event m event).0 ≡ min (counter k m + event.amount) u64_max)
              e own))
    | inr different ↦
        let kept = others kind (λ e. absurd (cc ((same_kind_iff event.kind kind).1 (sym e)))) in
        let n = h kind in rw accepted (rw different (omega arith))
  ]
  | inr refused ↦ let n = h kind in rw refused (omega arith)
]

-- After any sequence of events, each counter has grown by the sum of the amounts of the events of
-- its kind that were accepted, cut off at the largest value: no event is lost or counted twice, and
-- a counter that has reached the largest value stays there.
pub record_all_lem :
    (events : List StatEvent) (m : MetricsSnapshot)
    → Limited m
    → (kind : StatKind)
    → counter kind (record_all events m) ≡ min (counter kind m + total kind events m) u64_max
unfolding record_all total
record_all_lem [] m h kind = let n = h kind in omega arith
record_all_lem (event ∷ events) m h kind =
    let m' = (record_stat_event m event).0 in
    let n = h kind in
    let step = gain_lem kind event m h in
    let rest = record_all_lem events m' (λ k. let g = gain_lem k event m h in omega arith) kind in
    omega arith
