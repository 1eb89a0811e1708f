-- ===== src/Udp/Reactor/Indexes/Changes.antt =====
-- Inserting a flow under a new key and a new token, and changing the deadline of one.
use mathlib.Core.Path.{◌≡◌, refl}
use l4_load_balancer_with_xd.Prelude.{
  ℕ, ◌≤◌, ◌<◌, inl, inr, sym, ap, ◌∙◌, false, none, some, arith, ◌==◌, ==_iff, length, nat_eq,
  Bool-cases, Option-cases,
}
use l4_load_balancer_with_xd.Prelude.Map.{
  Map, find, emplace, update, find-emplace_self, find-emplace_ne, length-emplace, find-update_self,
  find-update_ne, find-update-none, length-update,
}
use l4_load_balancer_with_xd.Udp.Flow.{UdpFlowKey, UdpFlow, key_eq, key_eq_iff, key_instance}
use l4_load_balancer_with_xd.Udp.World.{World}
use l4_load_balancer_with_xd.Udp.Reactor.Indexes.{IsListed, IsIndexed}

module _ (w : World) {n : ℕ} {tokens : Map UdpFlowKey ℕ} {flows : Map ℕ UdpFlow}
    (v : IsIndexed w n tokens flows) where
  module _ (key : UdpFlowKey) (token : ℕ) (flow : UdpFlow) (new_key : find key tokens ≡ none)
      (new_token : find token flows ≡ none) (same_key : flow.key ≡ key)
      (same_token : flow.token ≡ token) where
    insert-leads :
        (k : UdpFlowKey) (t : ℕ)
        → find k (emplace key token tokens) ≡ some t
        → (f : UdpFlow) × (find t (emplace token flow flows) ≡ some f) × (f.key ≡ k)
    insert-leads k t e = elim (Bool-cases (key_eq key k)) [
      | inl same ↦
          let eq = (key_eq_iff key k).0 same in
          let here = ap (λ x. find x (emplace key token tokens)) eq in
          let there = find-emplace_self key token tokens new_key in
          let tokens_eq : token ≡ t = cc in
          (
            flow,
            ap (λ x. find x (emplace token flow flows)) (sym tokens_eq)
                ∙ find-emplace_self token flow flows new_token,
            same_key ∙ eq,
          )
      | inr other ↦
          let (f, ef, kf) = v.leads k t (sym (find-emplace_ne k key token tokens other) ∙ e) in
          (f, find-emplace_ne t token flow flows (apart t f ef) ∙ ef, kf)
    ]
      where
        apart : (t : ℕ) (f : UdpFlow) → find t flows ≡ some f → (token == t) ≡ false
        apart t f ef = elim (Bool-cases (token == t)) [
          | inl same ↦ absurd (cc (ap (λ x. find x flows) ((==_iff token t).0 same)))
          | inr ne ↦ ne
        ]

    insert-IsListed :
        3 ≤ token
        → token < n
        → (t : ℕ) (f : UdpFlow) → find t (emplace token flow flows) ≡ some f
        → IsListed n (emplace key token tokens) t f
    insert-IsListed low past t f e = elim (Bool-cases (token == t)) [
      | inl same ↦
          let eq = (==_iff token t).0 same in
          let here = ap (λ x. find x (emplace token flow flows)) eq in
          let there = find-emplace_self token flow flows new_token in
          let flows_eq : flow ≡ f = cc in
          record {
            by_key =
                ap (λ x. find x (emplace key token tokens))
                  (ap (λ h. h.key) (sym flows_eq) ∙ same_key)
                ∙ find-emplace_self key token tokens new_key
                ∙ ap some eq;
            own_token = ap (λ h. h.token) (sym flows_eq) ∙ same_token ∙ eq;
            unreserved = omega arith;
            past = omega arith;
          }
      | inr ne ↦
          let old = v.listed t f (sym (find-emplace_ne t token flow flows ne) ∙ e) in
          record {
            by_key = find-emplace_ne f.key key token tokens (apart f.key t old.by_key) ∙ old.by_key;
            own_token = old.own_token;
            unreserved = old.unreserved;
            past = old.past;
          }
    ]
      where
        apart : (k : UdpFlowKey) (u : ℕ) → find k tokens ≡ some u → key_eq key k ≡ false
        apart k u e = elim (Bool-cases (key_eq key k)) [
          | inl same ↦ absurd (cc (ap (λ x. find x tokens) ((key_eq_iff key k).0 same)))
          | inr ne ↦ ne
        ]

    pub insert-IsIndexed :
        3 ≤ token
        → token < n
        → length flows < w.max_flows
        → IsIndexed w n (emplace key token tokens) (emplace token flow flows)
    insert-IsIndexed low past room = record {
      low = v.low;
      fits = v.fits;
      few = omega (arith, length-emplace token flow flows new_token);
      leads = insert-leads;
      listed = insert-IsListed low past;
    }

  module _ (token time : ℕ) where
    abbrev touch : UdpFlow → UdpFlow
    touch flow = record flow { last_submission_time = time }

    touched :
        (t : ℕ) (f : UdpFlow)
        → find t flows ≡ some f
        → (g : UdpFlow) × (find t (update token touch flows) ≡ some g)
          × (g.key ≡ f.key)
          × (g.token ≡ f.token)
    touched t f e = elim (Bool-cases (token == t)) [
      | inl same ↦
          let eq = (==_iff token t).0 same in
          let mine = ap (λ x. find x flows) eq ∙ e in
          (
            touch f,
            ap (λ x. find x (update token touch flows)) (sym eq)
                ∙ find-update_self token touch flows f mine,
            refl,
            refl,
          )
      | inr ne ↦ (f, find-update_ne t token touch flows ne ∙ e, refl, refl)
    ]

    untouched :
        (t : ℕ) (g : UdpFlow)
        → find t (update token touch flows) ≡ some g
        → (f : UdpFlow) × (find t flows ≡ some f) × (g.key ≡ f.key) × (g.token ≡ f.token)
    untouched t g e = elim (Option-cases (find t flows)) [
      | inl missing ↦ absurd (cc (still_missing t missing))
      | inr (f, found) ↦
          let (h, eh, kh, th) = touched t f found in
          let same : h ≡ g = cc in
          (f, found, ap (λ x. x.key) (sym same) ∙ kh, ap (λ x. x.token) (sym same) ∙ th)
    ]
      where
        still_missing : (t : ℕ) → find t flows ≡ none → find t (update token touch flows) ≡ none
        still_missing t missing = elim (Bool-cases (token == t)) [
          | inl same ↦
              let eq = (==_iff token t).0 same in
              ap (λ x. find x (update token touch flows)) (sym eq)
              ∙ find-update-none token touch flows (ap (λ x. find x flows) eq ∙ missing)
          | inr ne ↦ find-update_ne t token touch flows ne ∙ missing
        ]

    pub touch-IsIndexed : IsIndexed w n tokens (update token touch flows)
    touch-IsIndexed = record {
      low = v.low;
      fits = v.fits;
      few = omega (arith, v.few, length-update token touch flows);
      leads = λ key t e.
          let (f, ef, kf) = v.leads key t e in
          let (g, eg, kg, tg) = touched t f ef in (g, eg, kg ∙ kf);
      listed = λ t g e.
          let (f, ef, kf, tf) = untouched t g e in
          let old = v.listed t f ef in
          record {
            by_key = ap (λ k. find k tokens) kf ∙ old.by_key;
            own_token = tf ∙ old.own_token;
            unreserved = old.unreserved;
            past = old.past;
          };
    }
