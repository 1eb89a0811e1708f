-- ===== src/Tcp/Reactor/Life/Told.antt =====
-- What the session callback has heard when a run of the TCP reactor is over.
use mathlib.Core.Path.{refl}
use l4_load_balancer_with_xd.Prelude.{◌≢◌, ℕ, ◌≤◌, ◌<◌, true, false, none, arith, u64_max}
use l4_load_balancer_with_xd.Prelude.Map.{find}
use l4_load_balancer_with_xd.Prelude.Exec.{ok}
use l4_load_balancer_with_xd.Prelude.Exec.Triple.{at_the_end}
use l4_load_balancer_with_xd.Tcp.World.{World}
use l4_load_balancer_with_xd.Tcp.Reactor.{initial_reactor}
use l4_load_balancer_with_xd.Tcp.Reactor.Dispatch.{run_tcp_reactor}
use l4_load_balancer_with_xd.Tcp.Reactor.Facts.{trace}
use l4_load_balancer_with_xd.Tcp.Reactor.Life.{reports, Life}
use l4_load_balancer_with_xd.Tcp.Reactor.Life.Rounds.{Lives-run}
use l4_load_balancer_with_xd.Tcp.Reactor.Run.{no_session_left}

initial-Life : (w : World) → Life w initial_reactor
unfolding find
initial-Life w few = record {
  numbered = omega arith;
  each = λ id. record {
    fresh = λ h. (refl, refl, refl);
    once = (omega arith, omega arith);
    live = λ x h. absurd (cc);
    gone = λ h. omega arith;
    silent = λ h. refl;
  };
}

-- When a run is over, so that it returned or threw, and the backend selector was called fewer than
-- 2 ^ 64 - 1 times, the session callback has heard of each identity at most one end, and of no more
-- starts than ends: a session that was reported as accepted was reported as closed, exactly once,
-- whichever callback threw in between.
pub ends_told_once :
    (w : World) (rounds id : ℕ)
    → let (r, s) = run_tcp_reactor w rounds initial_reactor in
      r ≢ ok none
      → (trace s.log).selects < u64_max
      → (reports true id s.log ≤ reports false id s.log) × (reports false id s.log ≤ 1)
unfolding find
ends_told_once w rounds id over few =
    let s = (run_tcp_reactor w rounds initial_reactor).1 in
    let ran = (Lives-run w rounds).at initial_reactor (initial-Life w) in
    let v = at_the_end (Life w) (run_tcp_reactor w rounds initial_reactor) ran few in
    let known = v.each id in
    let empty = no_session_left w rounds over in (known.gone (rw empty refl), known.once.1)
