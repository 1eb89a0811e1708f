-- ===== src/Metrics/Output.antt =====
-- `MetricsOutput` of src/metrics/Metrics.h and src/metrics/Metrics.cpp: when snapshots are emitted,
-- and how a failure of the sink ends the output. What the sink, the formatter and the provider of
-- backend health answer is an argument of each emission: the length of the formatted line and the
-- result of the write, or an exception. Times are milliseconds. `Order` is about the lines.
pub mod Order
use l4_load_balancer_with_xd.Prelude.{
  ℕ, suc, ◌+◌, ◌-◌, ◌≤◌, ◌<◌, ◌≡◌, ◌≢◌, refl, ◌∙◌, ◌⊎◌, inl, inr, Bool, true, false, not, ◌&&◌,
  ◌||◌, Option, none, some, List, [], ◌∷◌, ◌++◌, arith, ◌==◌, leb, ltb, if◌then◌else◌, u64_max,
  length, Bool-cases, min,
}
use l4_load_balancer_with_xd.Metrics.{MetricsSnapshot, add_saturating_counter}

pub data Phase : Type 0 where
  ready periodic final error : Phase

-- One line that went to the sink: its phase and number.
pub record Line : Type 0 where
  pub phase : Phase
  pub seq : ℕ

pub record MetricsOutput : Type 0 where
  pub next_snapshot_time : ℕ
  pub seq : ℕ
  pub ready_emitted : Bool
  pub finalized : Bool
  pub enabled : Bool
  -- what was handed to the sink, the newest first
  pub written : List Line

abbrev pub metrics_output : MetricsOutput
metrics_output = record {
  next_snapshot_time = 0;
  seq = 0;
  ready_emitted = false;
  finalized = false;
  enabled = true;
  written = [];
}

-- What formatting and writing a line come to: an exception before the write, or the length of the
-- line with the count that the writer returned (`none` for a negative one, and for an exception of
-- the writer, which is treated alike).
pub data Sink : Type 0 where
  throws : Sink
  line : ℕ → Option ℕ → Sink

-- `static_cast<std::size_t>(result) != line.size()`, or a negative result
write_failed : ℕ → Option ℕ → Bool
write_failed size none = true
write_failed size (some count) = not (count == size)

-- The body of the `try` in `emitSnapshot`, after the number was raised.
deliver : Phase → ℕ → Sink → MetricsOutput → MetricsOutput
unfolding write_failed
deliver phase seq throws o = record o { enabled = false }
deliver phase seq (line size result) o =
    if ltb 32768 size then record o { enabled = false } else record o {
      enabled = o.enabled && not (write_failed size result);
      written = record { phase = phase; seq = seq } ∷ o.written;
    }

unfoldable pub emit_snapshot : Phase → Sink → MetricsOutput → MetricsOutput
unfolding deliver
emit_snapshot phase sink o =
    if not o.enabled
    then o
    else let (seq, saturated) = add_saturating_counter o.seq 1 false in
      deliver phase seq sink (record o { seq = seq })

-- The clock's answer; `none` is an exception. `emitReadySnapshot` reads it after the emission.
schedule_next : Option ℕ → MetricsOutput → MetricsOutput
schedule_next none o = record o { enabled = false }
schedule_next (some now) o = record o { next_snapshot_time = now + 1000 }

unfoldable pub emit_ready_snapshot : Sink → Option ℕ → MetricsOutput → MetricsOutput
unfolding emit_snapshot schedule_next
emit_ready_snapshot sink now o =
    if o.ready_emitted || o.finalized
    then o
    else schedule_next now (emit_snapshot ready sink (record o { ready_emitted = true }))

-- The two readings of the clock: for the test, and after the emission.
emit_if_due : Sink → Option ℕ → Option ℕ → MetricsOutput → MetricsOutput
unfolding emit_snapshot schedule_next
emit_if_due sink none later o = record o { enabled = false }
emit_if_due sink (some now) later o =
    if ltb now o.next_snapshot_time then o else schedule_next later (emit_snapshot periodic sink o)

unfoldable pub emit_periodic_snapshot_if_due :
    Sink → Option ℕ → Option ℕ → MetricsOutput → MetricsOutput
unfolding emit_if_due
emit_periodic_snapshot_if_due sink now later o =
    if not o.ready_emitted || o.finalized || not o.enabled then o else emit_if_due sink now later o

unfoldable pub emit_final_snapshot : Bool → Sink → MetricsOutput → MetricsOutput
unfolding emit_snapshot
emit_final_snapshot failed sink o =
    if o.finalized
    then o
    else emit_snapshot (if failed then error else final) sink (record o { finalized = true })

pub data Call : Type 0 where
  readies : Sink → Option ℕ → Call
  ticks : Sink → Option ℕ → Option ℕ → Call
  finishes : Bool → Sink → Call

unfoldable pub step : MetricsOutput → Call → MetricsOutput
unfolding emit_ready_snapshot emit_periodic_snapshot_if_due emit_final_snapshot
step o (readies sink now) = emit_ready_snapshot sink now o
step o (ticks sink now later) = emit_periodic_snapshot_if_due sink now later o
step o (finishes failed sink) = emit_final_snapshot failed sink o

unfoldable pub run : MetricsOutput → List Call → MetricsOutput
run o [] = o
run o (c ∷ cs) = run (step o c) cs
