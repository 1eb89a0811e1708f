-- ===== src/Udp/Reactor/Indexes.antt =====
-- The two tables of the reactor agree: each key leads to a flow with that key, and each flow is the
-- one that its key leads to.
pub mod Changes
use mathlib.Core.Path.{◌≡◌, refl}
use l4_load_balancer_with_xd.Prelude.{
  ℕ, zero, suc, ◌+◌, ◌≤◌, ◌<◌, ◌≢◌, ◌⊎◌, inl, inr, sym, ap, ◌∙◌, Bool, true, false, Option, none,
  some, List, [], ◌∷◌, arith, ◌==◌, ==_iff, length, nat_eq, u64_max, Bool-cases, Option-cases, Eq,
}
use l4_load_balancer_with_xd.Prelude.Map.{
  Map, find, erase, emplace, update, find-erase_self, find-erase_ne, find-emplace_self,
  find-emplace_ne, length-emplace, length-erase-le,
}
use l4_load_balancer_with_xd.Udp.Flow.{UdpFlowKey, UdpFlow, key_eq, key_eq_iff, key_instance}
use l4_load_balancer_with_xd.Udp.World.{World}
use l4_load_balancer_with_xd.Udp.Reactor.{UdpReactor, initial_reactor}
use l4_load_balancer_with_xd.Udp.Reactor.Keeps.{Tables, On}
use l4_load_balancer_with_xd.Udp.Reactor.Close.Keeps.{Unlinks}

-- A flow of the table, with the token that it stands under.
pub record IsListed (n : ℕ) (tokens : Map UdpFlowKey ℕ) (token : ℕ) (flow : UdpFlow) : Type 0 where
  pub by_key : find flow.key tokens ≡ some token
  pub own_token : flow.token ≡ token
  pub unreserved : 3 ≤ token
  pub past : token < n

pub record IsIndexed (w : World) (n : ℕ) (tokens : Map UdpFlowKey ℕ) (flows : Map ℕ UdpFlow)
    : Type 0 where
  pub low : 3 ≤ n
  pub fits : n ≤ u64_max
  pub few : length flows ≤ w.max_flows
  pub leads :
      (key : UdpFlowKey) (token : ℕ)
      → find key tokens ≡ some token
      → (flow : UdpFlow) × (find token flows ≡ some flow) × (flow.key ≡ key)
  pub listed :
      (token : ℕ) (flow : UdpFlow) → find token flows ≡ some flow → IsListed n tokens token flow

module _ (w : World) where
  pub initial-IsIndexed : On (IsIndexed w) initial_reactor
  unfolding find
  initial-IsIndexed = record {
    low = omega arith;
    fits = omega arith;
    few = omega arith;
    leads = λ key token e. absurd (cc);
    listed = λ token flow e. absurd (cc);
  }

  module _ {n : ℕ} {tokens : Map UdpFlowKey ℕ} {flows : Map ℕ UdpFlow}
      (v : IsIndexed w n tokens flows) where
    -- Two keys with the same token are equal.
    key_injective :
        (j k : UdpFlowKey) (token : ℕ)
        → find j tokens ≡ some token
        → find k tokens ≡ some token
        → j ≡ k
    key_injective j k token ej ek =
        let (f, ef, kf) = v.leads j token ej in
        let (g, eg, kg) = v.leads k token ek in sym kf ∙ ap (λ h. h.key) {x = f} {y = g} (cc) ∙ kg

    unlink-leads :
        (token : ℕ) (flow : UdpFlow)
        → find token flows ≡ some flow
        → (key : UdpFlowKey) (t : ℕ) → find key (erase flow.key tokens) ≡ some t
        → (f : UdpFlow) × (find t (erase token flows) ≡ some f) × (f.key ≡ key)
    unlink-leads token flow found key t e = elim (Bool-cases (key_eq flow.key key)) [
      | inl same ↦
          let eq = (key_eq_iff flow.key key).0 same in
          absurd
            (cc (ap (λ k. find k (erase flow.key tokens)) eq, find-erase_self flow.key tokens, e))
      | inr other ↦
          let (f, ef, kf) = v.leads key t (sym (find-erase_ne key flow.key tokens other) ∙ e) in
          (f, find-erase_ne t token flows (differs f ef kf other) ∙ ef, kf)
    ]
      where
        differs :
            (f : UdpFlow)
            → find t flows ≡ some f
            → f.key ≡ key
            → key_eq flow.key key ≡ false
            → (token == t) ≡ false
        differs f ef kf other = elim (Bool-cases (token == t)) [
          | inl same ↦
              let eq = (==_iff token t).0 same in
              let k =
                (key_eq_iff flow.key key).1
                  (ap (λ h. h.key) {x = flow} {y = f} (cc (ap (λ x. find x flows) eq)) ∙ kf) in
              absurd (cc)
          | inr ne ↦ ne
        ]

    unlink-IsListed :
        (token : ℕ) (flow : UdpFlow)
        → find token flows ≡ some flow
        → (t : ℕ) (f : UdpFlow) → find t (erase token flows) ≡ some f
        → IsListed n (erase flow.key tokens) t f
    unlink-IsListed token flow found t f e = elim (Bool-cases (token == t)) [
      | inl same ↦ absurd (
          cc (
            ap (λ x. find x (erase token flows)) ((==_iff token t).0 same),
            find-erase_self token flows,
          ))
      | inr ne ↦
          let old = v.listed t f (sym (find-erase_ne t token flows ne) ∙ e) in
          record {
            by_key = find-erase_ne f.key flow.key tokens (differs ne old.by_key) ∙ old.by_key;
            own_token = old.own_token;
            unreserved = old.unreserved;
            past = old.past;
          }
    ]
      where
        differs : (token == t) ≡ false → find f.key tokens ≡ some t → key_eq flow.key f.key ≡ false
        differs ne by_key = elim (Bool-cases (key_eq flow.key f.key)) [
          | inl same ↦
              let eq = ap (λ k. find k tokens) ((key_eq_iff flow.key f.key).0 same) in
              let mine = (v.listed token flow found).by_key in
              let tokens_eq : token ≡ t = cc in absurd (cc ((==_iff token t).1 tokens_eq))
          | inr other ↦ other
        ]

  pub IsIndexed-Unlinks : Unlinks (IsIndexed w)
  IsIndexed-Unlinks n tokens flows token flow found v = record {
    low = v.low;
    fits = v.fits;
    few = omega (arith, v.few, length-erase-le token flows);
    leads = unlink-leads v token flow found;
    listed = unlink-IsListed v token flow found;
  }

  pub advance-IsIndexed :
      {n : ℕ} {tokens : Map UdpFlowKey ℕ} {flows : Map ℕ UdpFlow}
      → IsIndexed w n tokens flows
      → n < u64_max
      → IsIndexed w (suc n) tokens flows
  advance-IsIndexed v h = record {
    low = omega (arith, v.low);
    fits = omega arith;
    few = v.few;
    leads = v.leads;
    listed = λ token flow e.
        let old = v.listed token flow e in
        record {
          by_key = old.by_key;
          own_token = old.own_token;
          unreserved = old.unreserved;
          past = omega (arith, old.past);
        };
  }

  -- No flow stands under the number that is next.
  pub next_is_free :
      {n : ℕ} {tokens : Map UdpFlowKey ℕ} {flows : Map ℕ UdpFlow}
      → IsIndexed w n tokens flows
      → find n flows ≡ none
  next_is_free {n} {tokens} {flows} v = elim (Option-cases (find n flows)) [
    | inl e ↦ e
    | inr (flow, e) ↦ absurd (omega (arith, (v.listed n flow e).past))
  ]
