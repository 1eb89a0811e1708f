-- ===== src/Udp/Reactor/Dispatch/Finish.antt =====
-- However the reactor ends, it leaves no flow.
use mathlib.Core.Path.{◌≡◌, refl, ap}
use l4_load_balancer_with_xd.Prelude.{ℕ, ◌⊎◌, inl, inr, Option, none, some, []}
use l4_load_balancer_with_xd.Prelude.Exec.{Outcome, ok, thrown}
use l4_load_balancer_with_xd.Prelude.Exec.Triple.{
  Post, Triple, Triple-pure, Triple-throw, Triple-catch, Triple-bind, Triple-weaken, either_way,
}
use l4_load_balancer_with_xd.Udp.World.{Exception, World}
use l4_load_balancer_with_xd.Udp.Reactor.{UdpReactor, Action}
use l4_load_balancer_with_xd.Udp.Reactor.Close.{close_all_flows}
use l4_load_balancer_with_xd.Udp.Reactor.Close.All.{close_all_flows_lem}
use l4_load_balancer_with_xd.Udp.Reactor.Dispatch.{run_udp_event_loop, finish, run_udp_reactor}

abbrev Anything : UdpReactor → Type 0
Anything s = Unit {0}

abbrev NoFlow : UdpReactor → Type 0
NoFlow s = s.flows ≡ []

-- The event loop has not ended yet, or there is no flow.
abbrev Ended : Option ℕ → UdpReactor → Type 0
Ended r s = (r ≡ none) ⊎ NoFlow s

anyway : {A : Type 0} (m : Action A) → Triple Anything m (λ _. Anything) (λ _. Anything)
anyway m = record { at = λ s p. either_way Anything (m s) tt }

module _ (w : World) where
  closes_all : Triple Anything (close_all_flows w) (λ _. NoFlow) (λ _. NoFlow)
  closes_all = record {
    at = λ s p. either_way NoFlow (close_all_flows w s) (close_all_flows_lem w s);
  }

  finish-Ended : (r : Option ℕ) → Triple Anything (finish w r) Ended (λ _. Anything)
  unfolding finish
  finish-Ended none = Triple-pure none (λ s p. inl refl)
  finish-Ended (some result) =
      Triple-bind {M = λ _. NoFlow} forget (λ _. Triple-pure (some result) (λ s e. inr e))
    where
      forget : Triple Anything (close_all_flows w) (λ _. NoFlow) (λ _. Anything)
      forget = Triple-weaken closes_all (λ s p. p) (λ a s e. e) (λ x s e. tt)

  run-Ended : (rounds : ℕ) → Triple Anything (run_udp_reactor w rounds) Ended (λ _. NoFlow)
  unfolding run_udp_reactor
  run-Ended rounds =
      Triple-catch {E' = λ _. Anything}
        (Triple-bind {M = λ _. Anything} (anyway (run_udp_event_loop w rounds)) finish-Ended)
        (λ x.
          Triple-bind {M = λ _. NoFlow}
            (Triple-catch {E' = λ _. NoFlow} closes_all (λ y. Triple-pure tt (λ s e. e)))
            (λ _. Triple-throw x (λ s e. e)))

-- However the reactor ends, at a signal or by an exception of a system call or a callback in the
-- loop or in the last reports, every flow has been closed. (`ok none` is a run whose loop goes on
-- after the given rounds.)
pub run_udp_reactor_lem :
    (w : World) (rounds : ℕ) (s : UdpReactor)
    → ((run_udp_reactor w rounds s).0 ≡ ok none) ⊎ ((run_udp_reactor w rounds s).1.flows ≡ [])
run_udp_reactor_lem w rounds s = go (run_udp_reactor w rounds s) ((run-Ended w rounds).at s tt)
  where
    go :
        (rt : Outcome Exception (Option ℕ) × UdpReactor)
        → Post Ended (λ _. NoFlow) rt
        → (rt.0 ≡ ok none) ⊎ (rt.1.flows ≡ [])
    go (ok r, t) (inl e) = inl (ap ok e)
    go (ok r, t) (inr e) = inr e
    go (thrown x, t) e = inr e
