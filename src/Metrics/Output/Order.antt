-- ===== src/Metrics/Output/Order.antt =====
-- The lines that `MetricsOutput` hands to the sink: their order, their numbers, and the end of the
-- output at a failed write.
use l4_load_balancer_with_xd.Prelude.{
  ℕ, suc, ◌+◌, ◌≤◌, ◌≡◌, ◌≢◌, refl, ◌∙◌, Bool, true, false, Option, none, some, List, [], ◌∷◌,
  arith, if◌then◌else◌, u64_max, length, min,
}
use l4_load_balancer_with_xd.Metrics.{add_saturating_counter}
use l4_load_balancer_with_xd.Metrics.Output.{
  Phase, ready, periodic, final, error, Line, MetricsOutput, metrics_output, Sink, throws, line,
  emit_snapshot, emit_ready_snapshot, emit_periodic_snapshot_if_due, emit_final_snapshot, Call,
  readies, ticks, finishes, step, run,
}

-- How far the life of the output has come, read off its lines: one ready line, then periodic ones,
-- then one final or error line, which may come at any point and ends the output.
pub data Stage : Type 0 where
  start running done : Stage

abbrev advance : Option Stage → Phase → Option Stage
advance (some start) ready = some running
advance (some running) periodic = some running
advance (some start) final = some done
advance (some start) error = some done
advance (some running) final = some done
advance (some running) error = some done
advance _ _ = none

abbrev pub stage : List Line → Option Stage
stage [] = some start
stage (l ∷ ls) = advance (stage ls) l.phase

-- The lines are numbered from 1, up to the largest number.
abbrev pub Numbered : List Line → Type 0
Numbered [] = Unit {0}
Numbered (l ∷ ls) = (l.seq ≡ min (suc (length ls)) u64_max) × Numbered ls

pub record IsValid (o : MetricsOutput) : Type 0 where
  pub in_order : stage o.written ≢ none
  pub numbered : Numbered o.written
  pub current : o.enabled ≡ true → o.seq ≡ min (length o.written) u64_max
  pub live :
      o.enabled ≡ true
      → o.finalized ≡ false
      → stage o.written ≡ some (if o.ready_emitted then running else start)

metrics_output-IsValid : IsValid metrics_output
metrics_output-IsValid = record {
  in_order = λ e. cc;
  numbered = tt;
  current = λ e. omega arith;
  live = λ e f. refl;
}

ready-IsValid :
    (sink : Sink) (now : Option ℕ) (o : MetricsOutput)
    → IsValid o
    → IsValid (emit_ready_snapshot sink now o)
unfolding emit_ready_snapshot add_saturating_counter
ready-IsValid throws now o v = ground (arith, v.live)
ready-IsValid (line size result) now o v = ground (arith, v.live, v.current)

periodic-IsValid :
    (sink : Sink) (now later : Option ℕ) (o : MetricsOutput)
    → IsValid o
    → IsValid (emit_periodic_snapshot_if_due sink now later o)
unfolding emit_periodic_snapshot_if_due add_saturating_counter
periodic-IsValid throws now later o v = ground (arith, v.live)
periodic-IsValid (line size result) now later o v = ground (arith, v.live, v.current)

final-IsValid :
    (failed : Bool) (sink : Sink) (o : MetricsOutput)
    → IsValid o
    → IsValid (emit_final_snapshot failed sink o)
unfolding emit_final_snapshot add_saturating_counter
final-IsValid failed throws o v = ground (arith, v.live)
final-IsValid failed (line size result) o v = ground (arith, v.live, v.current)

step-IsValid : (o : MetricsOutput) (c : Call) → IsValid o → IsValid (step o c)
unfolding step
step-IsValid o (readies sink now) v = ready-IsValid sink now o v
step-IsValid o (ticks sink now later) v = periodic-IsValid sink now later o v
step-IsValid o (finishes failed sink) v = final-IsValid failed sink o v

run-IsValid : (o : MetricsOutput) (cs : List Call) → IsValid o → IsValid (run o cs)
unfolding run
run-IsValid o [] v = v
run-IsValid o (c ∷ cs) v = run-IsValid (step o c) cs (step-IsValid o c v)

-- Whatever calls are made in whatever order, and whatever the clock and the sink answer, the lines
-- that reach the sink are at most one ready line, then periodic ones, which only follow a ready
-- line, then at most one final or error line and nothing after it; and they are numbered from 1.
pub lines_in_order :
    (cs : List Call)
    → (stage (run metrics_output cs).written ≢ none) × Numbered (run metrics_output cs).written
lines_in_order cs =
    let v = run-IsValid metrics_output cs metrics_output-IsValid in (v.in_order, v.numbered)

step-disabled :
    (o : MetricsOutput) (c : Call)
    → o.enabled ≡ false
    → ((step o c).enabled ≡ false) × ((step o c).written ≡ o.written)
unfolding step
step-disabled o (readies sink none) e = ground arith
step-disabled o (readies sink (some now)) e = ground arith
step-disabled o (ticks sink now later) e = ground arith
step-disabled o (finishes failed sink) e = ground arith

run-disabled :
    (o : MetricsOutput) (cs : List Call)
    → o.enabled ≡ false
    → ((run o cs).enabled ≡ false) × ((run o cs).written ≡ o.written)
unfolding run
run-disabled o [] e = (e, refl)
run-disabled o (c ∷ cs) e =
    let (off, same) = step-disabled o c e in
    let (off', same') = run-disabled (step o c) cs off in (off', same' ∙ same)

-- A line whose write comes back with another count than its length, or with an error, is the last:
-- whatever calls follow, nothing more reaches the sink.
pub failed_write_is_last :
    (phase : Phase) (o : MetricsOutput) (size : ℕ) (result : Option ℕ) (cs : List Call)
    → result ≢ some size
    → size ≤ 32768
    → o.enabled ≡ true
    → let o' = emit_snapshot phase (line size result) o in
      (length o'.written ≡ length o.written + 1) × ((run o' cs).written ≡ o'.written)
unfolding emit_snapshot
failed_write_is_last phase o size none cs h short e =
    (ground arith, (run-disabled _ cs (ground arith)).1)
failed_write_is_last phase o size (some count) cs h short e =
    (ground arith, (run-disabled _ cs (ground arith)).1)
