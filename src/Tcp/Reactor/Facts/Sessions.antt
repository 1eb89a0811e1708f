-- ===== src/Tcp/Reactor/Facts/Sessions.antt =====
-- Reading and changing one session of the reactor.
use mathlib.Core.Path.{◌≡◌, refl}
use l4_load_balancer_with_xd.Prelude.{ℕ, Bool, true, Option, none, some, nat_eq}
use l4_load_balancer_with_xd.Prelude.Map.{find}
use l4_load_balancer_with_xd.Prelude.Exec.{◌>>=◌}
use l4_load_balancer_with_xd.Prelude.Exec.Triple.{
  Triple-pure, Triple-throw, Triple-gets, Triple-bind, Triple-weaken,
}
use l4_load_balancer_with_xd.Config.Bytes.{Bytes}
use l4_load_balancer_with_xd.Tcp.World.{Side, World}
use l4_load_balancer_with_xd.Tcp.Reactor.{
  EndpointState, Session, TcpReactor, Action, with_end, change, found_or_throw, session_at,
}
use l4_load_balancer_with_xd.Tcp.Reactor.Facts.{Facts, IsSound, On, SessionIs}
use l4_load_balancer_with_xd.Tcp.Reactor.Facts.Sound.{put_elim, with_end-IsSound, other-IsSound}
use l4_load_balancer_with_xd.Tcp.Reactor.Facts.Changes.{change-Facts, SameTokens}
use l4_load_balancer_with_xd.Tcp.Reactor.Facts.Rules.{IsSteady, Runs, On-IsSteady}
use l4_load_balancer_with_xd.Tcp.Reactor.Facts.Close.{Facts-IsSteady}

-- The session with this identity is `x`.
abbrev pub At : ℕ → Session → TcpReactor → Type 0
At id x = On (SessionIs id x)

pub At-IsSteady : (id : ℕ) (x : Session) → IsSteady (At id x)
At-IsSteady id x = On-IsSteady {T = SessionIs id x} (λ next tokens sessions t p. p.0.in_order)

pub forget : (id : ℕ) (x : Session) (s : TcpReactor) → At id x s → On Facts s
forget id x s (at, orderly, stops) = ((λ small. (at small).0), orderly, stops)

-- Changes that are sound whatever the session is.
pub record IsHarmless (f : Session → Session) : Type 0 where
  pub sound : {id : ℕ} {r s : Side → Bytes} (x : Session) → IsSound id r s x → IsSound id r s (f x)
  pub tokens : (x : Session) → SameTokens x (f x)

pub change-On :
    {f : Session → Session} (id : ℕ)
    → IsHarmless f
    → (s : TcpReactor) → On Facts s
    → On Facts (change id f s)
change-On {f} id h s (facts, orderly, stops) =
    ((λ small. change-Facts id f (λ x v. h.sound x v) h.tokens (facts small)), orderly, stops)

pub with_end-IsHarmless :
    (side : Side) (f : EndpointState → EndpointState)
    → ((e : EndpointState) → (f e).shutdown ≡ e.shutdown)
    → ((e : EndpointState) → e.eof ≡ true → (f e).eof ≡ true)
    → ((e : EndpointState) → (f e).token ≡ e.token)
    → IsHarmless (with_end side f)
with_end-IsHarmless side f same grows token = record {
  sound = λ x v. with_end-IsSound side f same grows v;
  tokens = λ x.
      put_elim (λ i e. e.token ≡ (x.ends i).token) side (f (x.ends side)) x.ends
        (token (x.ends side)) (λ i. refl);
}

pub times-IsHarmless :
    (g : Session → Bool) (h : Session → ℕ)
    → IsHarmless (λ x. record x { connecting = g x; last_io_time = h x })
times-IsHarmless g h = record {
  sound = λ x v. other-IsSound (g x) (h x) v;
  tokens = λ x side. refl;
}

module _ (w : World) where
  found-At :
      (id : ℕ) (found : Option Session)
      → Runs w (λ s. On Facts s × (find id s.sessions ≡ found)) (found_or_throw found) (At id)
  unfolding found_or_throw
  found-At id none = Triple-throw _ (λ s p. Facts-IsSteady.weak s p.0)
  found-At id (some x) =
      Triple-pure x
        (λ s ((facts, orderly, stops), e). ((λ small. (facts small, e)), orderly, stops))

  pub session_at-At : (id : ℕ) → Runs w (On Facts) (session_at id) (At id)
  unfolding session_at
  session_at-At id =
      Triple-bind {M = λ found s. On Facts s × (find id s.sessions ≡ found)}
        (Triple-gets _ (λ s p. (p, refl))) (found-At id)

  -- What is done with a session that was read, where its value is or is not used for the invariant.
  module _ {B : Type 0} {f : Session → Action B} {Q : B → TcpReactor → Type 0} where
    pub Runs-session :
        (id : ℕ)
        → ((x : Session) → Runs w (At id x) (f x) Q)
        → Runs w (On Facts) (session_at id >>= f) Q
    Runs-session id h = Triple-bind {M = At id} (session_at-At id) h

    pub Runs-read :
        (id : ℕ)
        → ((x : Session) → Runs w (On Facts) (f x) Q)
        → Runs w (On Facts) (session_at id >>= f) Q
    Runs-read id h =
        Triple-bind {M = λ _. On Facts}
          (Triple-weaken (session_at-At id) (λ s p. p) (λ x s p. forget id x s p) (λ x s p. p)) h

  pub Runs-forget :
      {A : Type 0} (id : ℕ) (x : Session) {m : Action A} {Q : A → TcpReactor → Type 0}
      → Runs w (On Facts) m Q
      → Runs w (At id x) m Q
  Runs-forget id x t = Triple-weaken t (λ s p. forget id x s p) (λ a s p. p) (λ e s p. p)
