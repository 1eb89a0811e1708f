-- ===== src/Tcp/Reactor/Facts/Connect.antt =====
-- `connectSessionBackend` keeps the invariant: a session gets an identity that no other one had, and
-- both of its ends get tokens that lead to them.
use mathlib.Core.Path.{◌≡◌, refl}
use l4_load_balancer_with_xd.Prelude.{
  ℕ, ◌≤◌, Bool, true, false, Option, none, some, ◌==◌, arith, nat_eq,
}
use l4_load_balancer_with_xd.Prelude.Map.{find, find-update_self}
use l4_load_balancer_with_xd.Prelude.Exec.{Outcome, ok, thrown}
use l4_load_balancer_with_xd.Prelude.Exec.Triple.{
  Triple-pure, Triple-throw, Triple-gets, Triple-if, Triple-modify, Triple-bind,
}
use l4_load_balancer_with_xd.Config.Bytes.{Bytes}
use l4_load_balancer_with_xd.Config.Endpoint.{Endpoint}
use l4_load_balancer_with_xd.Tcp.Tokens.{EndpointTokens, register_endpoint}
use l4_load_balancer_with_xd.Tcp.World.{Side, client, backend, Exception, select_backend, World}
use l4_load_balancer_with_xd.Tcp.Reactor.{
  Session, TcpReactor, Action, with_end, new_session, change, found_or_throw, session_at,
  on_failure, record_event,
}
use l4_load_balancer_with_xd.Tcp.Reactor.Accept.{
  einprogress, side_number, set_token, token_or_throw, register_side, open_backend_socket,
  connect_answer, connect_to, connect_session_backend, insert_session,
}
use l4_load_balancer_with_xd.Tcp.Reactor.Facts.{Facts, On, Left, Tables}
use l4_load_balancer_with_xd.Tcp.Reactor.Facts.Changes.{change-Facts, insert-Facts}
use l4_load_balancer_with_xd.Tcp.Reactor.Facts.Registers.{register-Facts}
use l4_load_balancer_with_xd.Tcp.Reactor.Facts.Rules.{
  IsSteady, Runs, Runs-keeps, Runs-then, Runs-gets, Runs-after, Runs-modify, Keeps-call, Keeps-time,
  Keeps-observation, On-IsSteady,
}
use l4_load_balancer_with_xd.Tcp.Reactor.Facts.Sessions.{
  change-On, IsHarmless, with_end-IsHarmless, times-IsHarmless, Runs-read,
}
use l4_load_balancer_with_xd.Tcp.Reactor.Facts.Interests.{v, update_interests-On}

-- A backend was selected for a session that has no identity yet.
abbrev pub Selected : Tables
Selected next tokens sessions t = Facts next tokens sessions t × (next ≤ t.selects)

-- The session has no token at its backend end, nor at the other one where `both` holds.
abbrev pub Unset : ℕ → Bool → Tables
Unset id both next tokens sessions t =
    Facts next tokens sessions t
    × ((x : Session) × (find id sessions ≡ some x)
        × ((x.ends backend).token ≡ 0)
        × (both ≡ true → (x.ends client).token ≡ 0))

pub Selected-IsSteady : IsSteady (On Selected)
Selected-IsSteady = On-IsSteady {T = Selected} (λ next tokens sessions t p. p.0.in_order)

pub Unset-IsSteady : (id : ℕ) (both : Bool) → IsSteady (On (Unset id both))
Unset-IsSteady id both = On-IsSteady {T = Unset id both} (λ next tokens sessions t p. p.0.in_order)

pub select-On : (s : TcpReactor) → On Facts s → On Selected (record_event select_backend s)
select-On s (facts, orderly, stops) = (
  (λ few.
      let f = facts (omega arith) in
      (
        record {
          numbered = omega (arith, f.numbered);
          fresh = f.fresh;
          in_order = f.in_order;
          below = f.below;
          sound = f.sound;
          tokens_valid = f.tokens_valid;
          owned = f.owned;
        },
        f.numbered,
      )),
  orderly,
  stops,
)

pub insert-On :
    (id fd time : ℕ) (target : Endpoint) (w : World) (s : TcpReactor)
    → On Selected s
    → s.next_session_id ≡ id
    → On (Unset id true) (insert_session w id fd target time s)
insert-On id fd time target w s (selected, orderly, stops) e = (
  (λ few.
      let (facts, counted) = selected few in
      let (after, there) = insert-Facts (rw e at facts) fd time target (rw e at counted) few in
      (after, (new_session id fd target time, there, refl, λ _. refl))),
  orderly,
  stops,
)

fd-IsHarmless : (fd : ℕ) → IsHarmless (with_end backend (λ e. record e { fd = some fd }))
fd-IsHarmless fd =
    with_end-IsHarmless backend (λ e. record e { fd = some fd }) (λ e. refl) (λ e p. p) (λ e. refl)

open-On :
    (id fd : ℕ) (s : TcpReactor)
    → On (Unset id true) s
    → On (Unset id true) (change id (with_end backend (λ e. record e { fd = some fd })) s)
open-On id fd s (unset, orderly, stops) = (
  (λ few.
      let (facts, (x, found, b, c)) = unset few in
      let h = fd-IsHarmless fd in
      (
        change-Facts id (with_end backend (λ e. record e { fd = some fd })) (λ x v. h.sound x v)
            h.tokens facts,
        (
          with_end backend (λ e. record e { fd = some fd }) x,
          find-update_self id _ s.sessions x found,
          b,
          c,
        ),
      )),
  orderly,
  stops,
)

module _ (w : World) where
  -- A session that is looked up, and only reported.
  pub session_at-keeps :
      {P : TcpReactor → Type 0} → IsSteady P → (id : ℕ) → Runs w P (session_at id) (λ _. P)
  unfolding session_at
  session_at-keeps {P} p id = Runs-gets w _ looked_up
    where
      looked_up : (found : Option Session) → Runs w P (found_or_throw found) (λ _. P)
      looked_up none = unfold found_or_throw in Triple-throw _ p.weak
      looked_up (some x) = unfold found_or_throw in Triple-pure x (λ s h. h)

  open_backend-On :
      (id : ℕ) (opened : Outcome ℕ ℕ)
      → Runs w (On (Unset id true)) (open_backend_socket w id opened) (λ _. On (Unset id true))
  unfolding open_backend_socket
  open_backend-On id (thrown errno) =
      Triple-throw _ (λ s (unset, orderly, stops). ((λ few. (unset few).0), orderly, stops))
  open_backend-On id (ok fd) = Triple-modify _ (λ s p. open-On id fd s p)

  abbrev Registered : ℕ → Bool → Side → Option (ℕ × EndpointTokens) → TcpReactor → Type 0
  Registered id both side r s =
      On (Unset id both) s × (register_endpoint s.tokens id (side_number side) ≡ r)

  register_client :
      (id : ℕ) (r : Option (ℕ × EndpointTokens))
      → Runs w (Registered id true client r) (token_or_throw id client r) (λ _. On (Unset id false))
  register_client id none = Triple-throw _ (λ s p. (Unset-IsSteady id true).weak s p.0)
  register_client id (some (token, tokens)) = Triple-modify _ (λ s ((unset, orderly, stops), e). (
    (λ few.
        let (facts, (x, found, b, c)) = unset few in
        (
          register-Facts id client x facts found (c refl) token tokens e,
          (
            set_token client token x,
            find-update_self id (set_token client token) s.sessions x found,
            b,
            λ h. absurd (cc),
          ),
        )),
    orderly,
    stops,
  ))

  register_backend :
      (id : ℕ) (r : Option (ℕ × EndpointTokens))
      → Runs w (Registered id false backend r) (token_or_throw id backend r) (λ _. On Facts)
  register_backend id none = Triple-throw _ (λ s p. (Unset-IsSteady id false).weak s p.0)
  register_backend id (some (token, tokens)) = Triple-modify _ (λ s ((unset, orderly, stops), e). (
    (λ few.
        let (facts, (x, found, b, c)) = unset few in
        register-Facts id backend x facts found b token tokens e),
    orderly,
    stops,
  ))

  connect_answer-On : (id errno : ℕ) → Runs w (On Facts) (connect_answer w id errno) (λ _. On Facts)
  unfolding connect_answer
  connect_answer-On id errno =
      Triple-if (errno == 0)
        (λ _. Runs-after w v (Keeps-time v.calm w) (λ time.
          Runs-modify w _ (change-On id (times-IsHarmless (λ x. false) (λ x. time)))
            (Runs-keeps w v (Keeps-observation v.calm w _ _ _ _))))
        (λ _.
          Triple-if (errno == einprogress)
            (λ _. Runs-keeps w v (Keeps-observation v.calm w _ _ _ _))
            (λ _. Triple-throw _ (λ s p. p)))

  connect_to-On :
      (id : ℕ) (target : Endpoint) (fd : Option ℕ)
      → Runs w (On Facts) (connect_to w id target fd) (λ _. On Facts)
  unfolding connect_to
  connect_to-On id target none = Triple-pure tt (λ s p. p)
  connect_to-On id target (some fd) = Runs-after w v (Keeps-call v.calm _ _) (connect_answer-On id)

  pub connect_session-On :
      (id : ℕ) → Runs w (On (Unset id true)) (connect_session_backend w id) (λ _. On Facts)
  unfolding connect_session_backend register_side
  connect_session-On id =
      let u = Unset-IsSteady id true in
      Runs-after w u (Keeps-call u.calm _ _) (λ opened.
        Runs-then w (open_backend-On id opened) (λ _.
          Triple-bind {M = λ _. On (Unset id false)}
            (Triple-bind {M = Registered id true client} (Triple-gets _ (λ s p. (p, refl)))
              (register_client id))
            (λ _.
              Triple-bind {M = λ _. On Facts}
                (Triple-bind {M = Registered id false backend} (Triple-gets _ (λ s p. (p, refl)))
                  (register_backend id))
                (λ _. Runs-read w id (λ x.
                  Runs-then w (connect_to-On id x.target (x.ends backend).fd)
                    (λ _. update_interests-On w id))))))

-- A handler of `SessionFailure`; any other exception goes on.
pub on_failure-On :
    {A : Type 0} {Q : A → TcpReactor → Type 0} (w : World) {handler : Bytes → ℕ → Action A}
    → ((operation : Bytes) (errno : ℕ) → Runs w (On Facts) (handler operation errno) Q)
    → (x : Exception) → Runs w (Left w x) (on_failure w handler x) Q
on_failure-On w h (Exception.session_failure operation errno) = h operation errno
on_failure-On w h Exception.bad_function_call = Triple-throw _ (λ s p. p)
on_failure-On w h Exception.invalid_argument = Triple-throw _ (λ s p. p)
on_failure-On w h Exception.logic_error = Triple-throw _ (λ s p. p)
on_failure-On w h Exception.out_of_range = Triple-throw _ (λ s p. p)
on_failure-On w h Exception.overflow_error = Triple-throw _ (λ s p. p)
on_failure-On w h Exception.unfinished = Triple-throw _ (λ s p. p)
on_failure-On w h (Exception.system_error operation errno) = Triple-throw _ (λ s p. p)
on_failure-On w h (Exception.foreign x) = Triple-throw _ (λ s p. p)
