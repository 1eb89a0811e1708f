-- ===== src/Tcp/Reactor/Facts/Close.antt =====
-- The closing of sessions keeps the invariant of the reactor.
use mathlib.Core.Path.{◌≡◌, refl}
use l4_load_balancer_with_xd.Prelude.{ℕ, zero, suc, Option, none, some, [], ◌∷◌, ◌==◌, nat_eq}
use l4_load_balancer_with_xd.Prelude.Map.{Map, find}
use l4_load_balancer_with_xd.Prelude.Exec.{◌>>=◌}
use l4_load_balancer_with_xd.Prelude.Exec.Triple.{
  Triple, Triple-pure, Triple-throw, Triple-gets, Triple-if, Triple-catch, Triple-modify,
  Triple-bind, Triple-assume,
}
use l4_load_balancer_with_xd.Config.Bytes.{Bytes}
use l4_load_balancer_with_xd.Tcp.World.{client, backend, Exception, World}
use l4_load_balancer_with_xd.Tcp.Reactor.{EndpointState, Session, TcpReactor, Action, Done, rethrow}
use l4_load_balancer_with_xd.Tcp.Reactor.Close.{
  first_failure, attempt, unlink, close_owned_fd, release_end, attempt_detach_reports, report_close,
  close_found, close_session, close_first, close_each, close_all_sessions,
}
use l4_load_balancer_with_xd.Tcp.Reactor.Facts.{Facts, On}
use l4_load_balancer_with_xd.Tcp.Reactor.Facts.Changes.{unlink-Facts}
use l4_load_balancer_with_xd.Tcp.Reactor.Facts.Rules.{
  FromCallback, IsSteady, Keeps, Keeps-pure, Keeps-gets, Keeps-bind, Keeps-callback, Keeps-stat,
  Keeps-detach_call, Keeps-observation, Runs, Runs-keeps, On-IsSteady,
}

pub Facts-IsSteady : IsSteady (On Facts)
Facts-IsSteady = On-IsSteady {T = Facts} (λ next tokens sessions t facts. facts.in_order)

-- What the reports collected was thrown by callbacks.
abbrev pub Collected : Option Exception → Type 0
Collected none = Unit
Collected (some x) = FromCallback x

pub Collected-first :
    (failure : Option Exception) (x : Exception)
    → Collected failure
    → FromCallback x
    → Collected (first_failure failure x)
Collected-first none x c h = h
Collected-first (some y) x c h = c

module _ {P : TcpReactor → Type 0} (v : IsSteady P) where
  abbrev Attempts : Action (Option Exception) → Type 0
  Attempts m = Triple P m (λ f s. P s × Collected f) (λ x s. FromCallback x × P s)

  -- One attempt after another.
  attempt_then :
      {m : Action (Option Exception)} {f : Option Exception → Action (Option Exception)}
      → Attempts m
      → ((failure : Option Exception) → Collected failure → Attempts (f failure))
      → Attempts (m >>= f)
  attempt_then t h =
      Triple-bind {M = λ f s. P s × Collected f} t (λ failure. Triple-assume (h failure))

  attempt-Attempts :
      {report : Action Done} (failure : Option Exception)
      → Collected failure
      → Keeps P report
      → Attempts (attempt report failure)
  unfolding attempt
  attempt-Attempts failure c t =
      Triple-catch {E' = λ x s. FromCallback x × P s}
        (Triple-bind {M = λ _. P} t (λ _. Triple-pure failure (λ s p. (p, c))))
        (λ x. Triple-pure _ (λ s (h, p). (p, Collected-first failure x c h)))

  pub rethrow-Keeps :
      (failure : Option Exception)
      → Triple
          (λ s. P s × Collected failure)
          (rethrow failure)
          (λ _. P)
          (λ x s. FromCallback x × P s)
  unfolding rethrow
  rethrow-Keeps none = Triple-pure tt (λ s p. p.0)
  rethrow-Keeps (some x) = Triple-throw x (λ s (p, c). (c, p))

  close_owned-Keeps : (fd : Option ℕ) → Keeps P (close_owned_fd fd)
  unfolding close_owned_fd
  close_owned-Keeps none = Keeps-pure v.calm tt
  close_owned-Keeps (some fd) = Triple-modify _ (v.calm _)

  module _ (w : World) where
    release_end-Keeps : (e : EndpointState) → Keeps P (release_end w e)
    unfolding release_end
    release_end-Keeps e =
        Keeps-bind v.calm (Keeps-detach_call v.calm w e.registered e.fd)
          (λ errno. Keeps-bind v.calm (close_owned-Keeps e.fd) (λ _. Keeps-pure v.calm _))

    attempt_detach-Attempts :
        (errno : ℕ) (failure : Option Exception)
        → Collected failure
        → Attempts (attempt_detach_reports w errno failure)
    unfolding attempt_detach_reports
    attempt_detach-Attempts errno failure c =
        Triple-if (errno == 0) (λ _. Triple-pure failure (λ s p. (p, c)))
          (λ _.
            attempt_then (attempt-Attempts failure c (Keeps-stat v.calm w _ _))
              (λ next c'. attempt-Attempts next c' (Keeps-callback v.calm _ _)))

    pub report_close-Keeps :
        (x : Session) (reason : Bytes) (errno : ℕ) → Keeps P (report_close w x reason errno)
    unfolding report_close
    report_close-Keeps x reason errno = Keeps-bind v.calm (release_end-Keeps (x.ends client)) (λ e0.
        Keeps-bind v.calm (release_end-Keeps (x.ends backend)) (λ e1.
          collect (attempt_detach-Attempts e0 none tt) (λ f0 c0.
            collect (attempt_detach-Attempts e1 f0 c0) (λ f1 c1.
              collect (attempt-Attempts f1 c1 (Keeps-callback v.calm _ _)) (λ f2 c2.
                collect (attempt-Attempts f2 c2 (Keeps-stat v.calm w _ _)) (λ f3 c3.
                  Triple-bind {M = λ f s. P s × Collected f}
                    (attempt-Attempts f3 c3 (Keeps-observation v.calm w _ _ _ _))
                    rethrow-Keeps))))))
      where
        collect :
            {m : Action (Option Exception)} {f : Option Exception → Action Done}
            → Attempts m
            → ((failure : Option Exception) → Collected failure → Keeps P (f failure))
            → Keeps P (m >>= f)
        collect t h =
            Triple-bind {M = λ f s. P s × Collected f} t (λ failure. Triple-assume (h failure))

-- What the removal of a session leaves true.
abbrev pub Unlinks : (TcpReactor → Type 0) → Type 0
Unlinks P =
    (id : ℕ) (x : Session) (s : TcpReactor) → find id s.sessions ≡ some x → P s → P (unlink id x s)

module _ {P : TcpReactor → Type 0} (v : IsSteady P) (unlinks : Unlinks P) (w : World) where
  close_found-Keeps :
      (id : ℕ) (reason : Bytes) (errno : ℕ) (found : Option Session)
      → Triple
          (λ s. P s × (find id s.sessions ≡ found))
          (close_found w id reason errno found)
          (λ _. P)
          (λ x s. FromCallback x × P s)
  unfolding close_found
  close_found-Keeps id reason errno none = Triple-pure tt (λ s p. p.0)
  close_found-Keeps id reason errno (some x) =
      Triple-bind {M = λ _. P} (Triple-modify _ (λ s (p, e). unlinks id x s e p))
        (λ _. report_close-Keeps v w x reason errno)

  pub close_session-Keeps :
      (id : ℕ) (reason : Bytes) (errno : ℕ) → Keeps P (close_session w id reason errno)
  unfolding close_session
  close_session-Keeps id reason errno =
      Triple-bind {M = λ found s. P s × (find id s.sessions ≡ found)}
        (Triple-gets _ (λ s p. (p, refl))) (close_found-Keeps id reason errno)

  close_first-Attempts :
      (entries : Map ℕ Session) (reason : Bytes) (failure : Option Exception)
      → Collected failure
      → Attempts v (close_first w entries reason failure)
  unfolding close_first
  close_first-Attempts [] reason failure c = Triple-pure failure (λ s p. (p, c))
  close_first-Attempts ((id, x) ∷ rest) reason failure c =
      attempt-Attempts v failure c (close_session-Keeps id reason 0)

  close_each-Attempts :
      (fuel : ℕ) (reason : Bytes) (failure : Option Exception)
      → Collected failure
      → Attempts v (close_each w fuel reason failure)
  unfolding close_each
  close_each-Attempts zero reason failure c = Triple-pure failure (λ s p. (p, c))
  close_each-Attempts (suc fuel) reason failure c =
      Triple-bind {M = λ _. P} (Keeps-gets v.calm _) (λ entries.
        attempt_then v (close_first-Attempts entries reason failure c)
          (λ next c'. close_each-Attempts fuel reason next c'))

  pub close_all-Keeps : (reason : Bytes) → Keeps P (close_all_sessions w reason)
  unfolding close_all_sessions
  close_all-Keeps reason = Keeps-bind v.calm (Keeps-gets v.calm _) (λ fuel.
      Triple-bind {M = λ f s. P s × Collected f} (close_each-Attempts fuel reason none tt)
        (rethrow-Keeps v))

pub Facts-Unlinks : Unlinks (On Facts)
Facts-Unlinks id x s found (facts, orderly, stops) =
    ((λ small. unlink-Facts id x (facts small) found), orderly, stops)

pub close_session-Runs :
    (w : World) (id : ℕ) (reason : Bytes) (errno : ℕ)
    → Runs w (On Facts) (close_session w id reason errno) (λ _. On Facts)
close_session-Runs w id reason errno =
    Runs-keeps w Facts-IsSteady (close_session-Keeps Facts-IsSteady Facts-Unlinks w id reason errno)
