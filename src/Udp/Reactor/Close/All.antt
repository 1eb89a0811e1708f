-- ===== src/Udp/Reactor/Close/All.antt =====
-- The loop of `closeAllFlows` ends, with no flow left.
use mathlib.Core.Path.{◌≡◌, refl}
use l4_load_balancer_with_xd.Prelude.{
  ℕ, zero, suc, ◌≤◌, ◌<◌, ap, ◌∙◌, Option, none, some, [], ◌∷◌, arith, length, nat_eq,
}
use l4_load_balancer_with_xd.Prelude.Map.{Map, find, beq_self, length-erase-lt}
use l4_load_balancer_with_xd.Prelude.Exec.Triple.{bind-runs}
use l4_load_balancer_with_xd.Prelude.Exec.{Outcome, ok, thrown, pure, gets, catch, ◌>>=◌}
use l4_load_balancer_with_xd.Config.Bytes.{codes}
use l4_load_balancer_with_xd.Udp.Flow.{UdpFlow, key_instance}
use l4_load_balancer_with_xd.Udp.World.{Exception, World}
use l4_load_balancer_with_xd.Udp.Reactor.{UdpReactor, Action, Unit₀, rethrow}
use l4_load_balancer_with_xd.Udp.Reactor.Close.{
  attempt, first_failure, close_flow, close_first, close_each, close_all_flows,
}
use l4_load_balancer_with_xd.Udp.Reactor.Close.Reports.{rethrow-state, close_flow_lem}

attempt-returns :
    (m : Action Unit₀) (failure : Option Exception) (s : UdpReactor)
    → (v : Option Exception) × (attempt m failure s ≡ (ok v, (m s).1))
unfolding attempt catch pure ◌>>=◌
attempt-returns m failure s = go (m s)
  where
    go :
        (rt : Outcome Exception Unit₀ × UdpReactor)
        → (v : Option Exception) × (attempt (λ _. rt) failure s ≡ (ok v, rt.1))
    go (ok a, t) = (failure, refl)
    go (thrown x, t) = (first_failure failure x, refl)

module _ (w : World) where
  abbrev Closed : ℕ → Option Exception → UdpReactor → Type 0
  Closed fuel failure s =
      (v : Option Exception) × (t : UdpReactor) × (close_each w fuel failure s ≡ (ok v, t))
      × (t.flows ≡ [])

  -- One round of the loop.
  close_each-round :
      (fuel : ℕ) (failure next : Option Exception) (s t : UdpReactor)
      → close_first w s.flows failure s ≡ (ok next, t)
      → close_each w (suc fuel) failure s ≡ close_each w fuel next t
  unfolding close_each gets ◌>>=◌
  close_each-round fuel failure next s t e =
      bind-runs (close_first w s.flows failure) (close_each w fuel) e

  -- The first flow of the table is closed in the round.
  close_first-shorter :
      (token : ℕ) (flow : UdpFlow) (rest : Map ℕ UdpFlow) (failure : Option Exception)
      (s : UdpReactor)
      → s.flows ≡ (token, flow) ∷ rest
      → (next : Option Exception) × (t : UdpReactor) × (close_first w s.flows failure s
          ≡ (ok next, t))
        × (length t.flows < length s.flows)
  close_first-shorter token flow rest failure s e =
      let closing = close_flow w token (codes "service-stop") 0 in
      let (next, returned) = attempt-returns closing failure s in
      let found : find token s.flows ≡ some flow = rw e (unfold find in rw (beq_self token) refl) in
      let shorter = length-erase-lt token flow s.flows found in
      (
        next,
        (closing s).1,
        ap (λ m. close_first w m failure s) e ∙ (unfold close_first in returned),
        rw (close_flow_lem w token flow (codes "service-stop") 0 s found) shorter,
      )

  close_each-Closed :
      (fuel : ℕ) (failure : Option Exception) (s : UdpReactor)
      → length s.flows ≤ fuel
      → Closed fuel failure s
  close_each-Closed zero failure s enough =
      (failure, s, unfold close_each pure in refl, nothing s.flows enough)
    where
      nothing : (m : Map ℕ UdpFlow) → length m ≤ 0 → m ≡ []
      nothing [] h = refl
      nothing (x ∷ m) h = absurd (omega arith)
  close_each-Closed (suc fuel) failure s enough =
      go s.flows refl (λ next t. close_each-Closed fuel next t)
    where
      nothing_left : close_first w [] failure s ≡ (ok failure, s)
      nothing_left = unfold close_first pure in refl

      go :
          (entries : Map ℕ UdpFlow)
          → s.flows ≡ entries
          → ((next : Option Exception) (t : UdpReactor)
              → length t.flows ≤ fuel
              → Closed fuel next t)
          → Closed (suc fuel) failure s
      go [] e rest =
          let (v, t, runs, done) = rest failure s (rw e (omega arith)) in
          (
            v,
            t,
            close_each-round fuel failure failure s s
                  (ap (λ m. close_first w m failure s) e ∙ nothing_left)
                ∙ runs,
            done,
          )
      go ((token, flow) ∷ entries) e rest =
          let (next, u, closes, shorter) = close_first-shorter token flow entries failure s e in
          let (v, t, runs, done) = rest next u (omega arith) in
          (v, t, close_each-round fuel failure next s u closes ∙ runs, done)

-- The loop that closes the flows at the end of the service ends, however many of the reports throw,
-- and then no flow is left.
pub close_all_flows_lem : (w : World) (s : UdpReactor) → (close_all_flows w s).1.flows ≡ []
unfolding close_all_flows gets ◌>>=◌
close_all_flows_lem w s =
    let (v, t, runs, done) = close_each-Closed w (length s.flows) none s (omega arith) in
    ap (λ (p : Outcome Exception Unit₀ × UdpReactor). p.1.flows)
      (bind-runs (close_each w (length s.flows) none) rethrow runs)
    ∙ ap (λ u. u.flows) (rethrow-state v t)
    ∙ done
