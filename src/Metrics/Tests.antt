-- ===== src/Metrics/Tests.antt =====
-- The collector and the output on short runs.
use l4_load_balancer_with_xd.Prelude.{
  ◌≤◌, ◌+◌, ◌≡◌, ◌≢◌, refl, ◌⊎◌, true, false, none, some, List, [], ◌∷◌, arith, min, u64_max,
  length, replicate,
}
use l4_load_balancer_with_xd.Metrics.{
  tcp, StatEvent, closed, bytes_b2c, datagram_c2b, MetricsSnapshot, metrics_collector,
  add_saturating_counter, record_stat_event, default_health,
}
use l4_load_balancer_with_xd.Metrics.Collector.{
  record_all, record_all_lem, total, gain, Limited, counter, IsValid, record_stat_event-IsValid,
  record_stat_event_lem, Counted,
}
use l4_load_balancer_with_xd.Metrics.Output.{
  ready, periodic, final, metrics_output, line, emit_snapshot, Call, readies, ticks, finishes, step,
  run,
}
use l4_load_balancer_with_xd.Metrics.Output.Order.{
  stage, Numbered, lines_in_order, failed_write_is_last,
}
use l4_load_balancer_with_xd.Metrics.Format.{snapshot_line, format_metrics_snapshot}
use l4_load_balancer_with_xd.Metrics.Format.Length.{IsWord, format_metrics_total}

-- Two sessions were created and one of them closed.
abbrev busy : MetricsSnapshot
busy = record {
  protocol = tcp;
  seq = 0;
  uptime_ms = 0;
  sessions_created_total = 2;
  sessions_closed_total = 1;
  sessions_active = 1;
  bytes_c2b_total = 0;
  bytes_b2c_total = 0;
  datagrams_c2b_total = 0;
  datagrams_b2c_total = 0;
  rejected_total = 0;
  dropped_datagrams_total = 0;
  errors_total = 0;
  timeouts_total = 0;
  counter_saturated = false;
  backend_count = 1;
  backends = replicate 256 default_health;
}

abbrev closing : StatEvent
closing = record { kind = closed; amount = 1 }

busy-IsValid : IsValid busy
busy-IsValid = record {
  active = omega arith;
  created_le = omega arith;
  closed_le = omega arith;
  balance = λ e. refl;
}

no_pool_is_refused : metrics_collector tcp 0 ≡ none
unfolding metrics_collector
no_pool_is_refused = refl

tcp_has_no_datagrams :
    record_stat_event busy (record { kind = datagram_c2b; amount = 1 }) ≡ (busy, false)
unfolding record_stat_event
tcp_has_no_datagrams = refl

-- Bytes to a client are counted, and so is the end of a session, but no second end.
abbrev traffic : List StatEvent
traffic =
    record { kind = bytes_b2c; amount = 5 }
    ∷ closing
    ∷ closing
    ∷ record { kind = bytes_b2c; amount = 7 }
    ∷ []

abbrev after_traffic : MetricsSnapshot
after_traffic = record_all traffic busy

one_end_is_counted :
    (counter bytes_b2c after_traffic ≡ 12)
    × (counter closed after_traffic ≡ 2)
    × (total closed traffic busy ≡ 1)
unfolding record_all counter total gain record_stat_event
one_end_is_counted = (refl, refl, refl)

busy-Limited : Limited busy
unfolding counter
busy-Limited kind = ground arith

record_all_lem_example :
    counter bytes_b2c (record_all traffic busy)
    ≡ min (counter bytes_b2c busy + total bytes_b2c traffic busy) u64_max
record_all_lem_example = record_all_lem traffic busy busy-Limited bytes_b2c

record_stat_event-IsValid_example : IsValid (record_stat_event busy closing).0
record_stat_event-IsValid_example = record_stat_event-IsValid {m = busy} closing busy-IsValid

record_stat_event_lem_example :
    (((record_stat_event busy closing).1 ≡ true)
      × Counted closed 1 busy (record_stat_event busy closing).0)
    ⊎ (record_stat_event busy closing ≡ (busy, false))
record_stat_event_lem_example = record_stat_event_lem busy closing (unfold counter in omega arith)

-- Ready, a tick before the second is over, one after it, and the end.
abbrev life : List Call
life =
    readies (line 100 (some 100)) (some 5)
    ∷ ticks (line 100 (some 100)) (some 900) (some 901)
    ∷ ticks (line 100 (some 100)) (some 1005) (some 1006)
    ∷ finishes false (line 100 (some 100))
    ∷ []

whole_life :
    (run metrics_output life).written
    ≡ record { phase = final; seq = 3 }
      ∷ record { phase = periodic; seq = 2 }
      ∷ record { phase = ready; seq = 1 }
      ∷ []
unfolding run step add_saturating_counter
whole_life = refl

lines_in_order_example :
    (stage (run metrics_output life).written ≢ none) × Numbered (run metrics_output life).written
lines_in_order_example = lines_in_order life

failed_write_is_last_example :
    let o' = emit_snapshot ready (line 100 (some 60)) metrics_output in
    (length o'.written ≡ 1) × ((run o' life).written ≡ o'.written)
failed_write_is_last_example =
    failed_write_is_last ready metrics_output 100 (some 60) life (λ e. cc) (omega arith) refl

busy-IsWord : IsWord busy
busy-IsWord = record {
  seq = omega arith;
  uptime_ms = omega arith;
  sessions_created_total = omega arith;
  sessions_closed_total = omega arith;
  sessions_active = omega arith;
  bytes_c2b_total = omega arith;
  bytes_b2c_total = omega arith;
  datagrams_c2b_total = omega arith;
  datagrams_b2c_total = omega arith;
  rejected_total = omega arith;
  dropped_datagrams_total = omega arith;
  errors_total = omega arith;
  timeouts_total = omega arith;
}

too_many_backends_throw : format_metrics_snapshot (record busy { backend_count = 257 }) ready ≡ none
unfolding format_metrics_snapshot
too_many_backends_throw = refl

format_metrics_total_example :
    (format_metrics_snapshot busy periodic ≡ some (snapshot_line busy periodic))
    × (length (snapshot_line busy periodic) ≤ 32768)
format_metrics_total_example = format_metrics_total busy periodic busy-IsWord (omega arith)
