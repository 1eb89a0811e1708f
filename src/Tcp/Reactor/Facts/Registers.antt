-- ===== src/Tcp/Reactor/Facts/Registers.antt =====
-- The invariant of the reactor where an end of a session gets its token.
use mathlib.Core.Path.{◌≡◌, refl}
use l4_load_balancer_with_xd.Prelude.{
  ◌≢◌, ℕ, false, some, ◌==◌, ==_iff, arith, sym, ap, ◌∙◌, inl, inr, Bool-cases, nat_eq,
}
use l4_load_balancer_with_xd.Prelude.Map.{
  Map, find, update, find-update_self, find-update_ne, find-update_cases,
}
use l4_load_balancer_with_xd.Tcp.Tokens.{
  EndpointTokens, Target, register_endpoint, register_endpoint_lem, find_endpoint,
}
use l4_load_balancer_with_xd.Tcp.World.{Side, client, backend}
use l4_load_balancer_with_xd.Tcp.Reactor.{EndpointState, Session, put}
use l4_load_balancer_with_xd.Tcp.Reactor.Accept.{side_number, set_token}
use l4_load_balancer_with_xd.Tcp.Reactor.Dispatch.{side_of}
use l4_load_balancer_with_xd.Tcp.Reactor.Facts.{Trace, Owns, Facts}
use l4_load_balancer_with_xd.Tcp.Reactor.Facts.Sound.{put_elim, with_end-IsSound}

side_of_number : (side : Side) → side_of (side_number side) ≡ side
side_of_number client = refl
side_of_number backend = refl

put_self : {A : Type 0} (side : Side) (x : A) (f : Side → A) → put side x f side ≡ x
put_self client x f = refl
put_self backend x f = refl

module _ {next : ℕ} {tokens : EndpointTokens} {sessions : Map ℕ Session} {t : Trace} (id : ℕ)
    (side : Side) (x : Session) (facts : Facts next tokens sessions t)
    (found : find id sessions ≡ some x) (unset : (x.ends side).token ≡ 0) where
  abbrev named : ℕ → Map ℕ Session
  named token = update id (set_token side token) sessions

  not_zero : (token : ℕ) (target : Target) → find token tokens.entries ≡ some target → token ≢ 0
  not_zero token target h e =
      let p = facts.tokens_valid.unreserved token (omega (arith, e)) in absurd (cc)

  -- The end had no token, so that no other token was its own.
  old_token :
      (fresh token : ℕ) (target : Target)
      → find token tokens.entries ≡ some target
      → Owns (named fresh) token target
  old_token fresh token target h =
      let (y, there, carries) = facts.owned token target h in
      elim (Bool-cases (id == target.session_id)) [
        | inl e ↦
            let j = (==_iff id target.session_id).0 e in
            let q = ap (λ i. find i sessions) j in
            let y_is : Path Session x y = cc in
            let side' = side_of target.side in
            let was = ap (λ (z : Session). (z.ends side').token) y_is ∙ carries in
            (
              set_token side fresh x,
              ap (λ i. find i (named fresh)) (sym j) ∙ find-update_self id _ sessions x found,
              put_elim (λ i e. (x.ends i).token ≡ token → e.token ≡ token) side _ x.ends
                  (λ p. absurd (not_zero token target h (sym p ∙ unset))) (λ i p. p) side' was,
            )
        | inr e ↦ (y, find-update_ne target.session_id id _ sessions e ∙ there, carries)
      ]

  pub register-Facts :
      (token : ℕ) (after : EndpointTokens)
      → register_endpoint tokens id (side_number side) ≡ some (token, after)
      → Facts next after (named token) t
  unfolding find_endpoint
  register-Facts token after e =
      elim (register_endpoint_lem id (side_number side) facts.tokens_valid) [
        | inl (last, e') ↦ absurd (cc)
        | inr (u, e', fresh, above, hit, others, count, valid) ↦
            let token_is : tokens.next_token ≡ token = cc in
            let after_is : Path EndpointTokens u after = cc in
            rw (← token_is, ← after_is)
              (record {
                numbered = facts.numbered;
                fresh = facts.fresh;
                in_order = facts.in_order;
                below = λ j y h.
                    elim (find-update_cases j id (set_token side tokens.next_token) sessions x y
                      found h) [
                        | inl (j_is, y_is) ↦ rw (← j_is) (facts.below id x found)
                        | inr (differs, there) ↦ facts.below j y there
                      ];
                sound = λ j y h.
                    elim (find-update_cases j id (set_token side tokens.next_token) sessions x y
                      found h) [
                        | inl (j_is, y_is) ↦
                            rw (← j_is, y_is)
                              (with_end-IsSound side (λ e. record e { token = tokens.next_token })
                                (λ e. refl) (λ e p. p) (facts.sound id x found))
                        | inr (differs, there) ↦ facts.sound j y there
                      ];
                tokens_valid = valid;
                owned = λ k target h. elim (Bool-cases (tokens.next_token == k)) [
                  | inl same ↦
                      let k_is = (==_iff tokens.next_token k).0 same in
                      owned_new u k target k_is hit h
                  | inr differs ↦
                      let e : find_endpoint u k ≡ find_endpoint tokens k =
                        others k (ne_of_test k differs) in
                      old_token tokens.next_token k target (unresolved u k target e h)
                ];
              })
      ]
    where
      ne_of_test : (k : ℕ) → (tokens.next_token == k) ≡ false → tokens.next_token ≢ k
      ne_of_test k h e = let p = (==_iff tokens.next_token k).1 e in cc

      unresolved :
          (u : EndpointTokens) (k : ℕ) (target : Target)
          → find_endpoint u k ≡ find_endpoint tokens k
          → find k u.entries ≡ some target
          → find k tokens.entries ≡ some target
      unresolved u k target e h = cc

      owned_new :
          (u : EndpointTokens) (k : ℕ) (target : Target)
          → tokens.next_token ≡ k
          → find tokens.next_token u.entries
            ≡ some (record { session_id = id; side = side_number side })
          → find k u.entries ≡ some target
          → Owns (named tokens.next_token) k target
      owned_new u k target k_is hit h =
          let q = ap (λ i. find i u.entries) k_is in
          let target_is : Path Target target (record { session_id = id; side = side_number side }) =
            cc in
          rw (target_is, side_of_number side)
            (
              set_token side tokens.next_token x,
              find-update_self id _ sessions x found,
              ap (λ (e : EndpointState). e.token) (put_self side _ x.ends) ∙ k_is,
            )
