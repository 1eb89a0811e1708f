-- ===== src/Tcp/Reactor/Facts/Rules.antt =====
-- Reports, readings of the clock and other calls that move no bytes keep every property of the
-- tables, and throw only what a callback throws.
use mathlib.Core.Path.{◌≡◌}
use l4_load_balancer_with_xd.Prelude.{ℕ, Bool, true, false, Option, none, some, ◌==◌, nat_eq}
use l4_load_balancer_with_xd.Prelude.Map.{Map}
use l4_load_balancer_with_xd.Prelude.Exec.{pure, gets, modify, ◌>>=◌, when}
use l4_load_balancer_with_xd.Prelude.Exec.Triple.{
  Triple, Triple-pure, Triple-throw, Triple-gets, Triple-if, Triple-modify, Triple-bind,
  Triple-weaken,
}
use l4_load_balancer_with_xd.Config.Bytes.{Bytes}
use l4_load_balancer_with_xd.Metrics.{StatKind}
use l4_load_balancer_with_xd.Tcp.Tokens.{EndpointTokens}
use l4_load_balancer_with_xd.Tcp.World.{Side, Exception, foreign, Call, quiet, Log, World}
use l4_load_balancer_with_xd.Tcp.Reactor.{
  Session, TcpReactor, Action, Done, call_as, call, throw_foreign, callback, required_callback,
  report_stat_event, current_time, report_observation, report_detach_error, detach_call,
  record_event,
}
use l4_load_balancer_with_xd.Tcp.Reactor.Facts.{Trace, Tables, On, Ordered, InOrder, Left}

-- The exceptions of a callback.
abbrev pub FromCallback : Exception → Type 0
FromCallback (foreign x) = Unit
FromCallback Exception.bad_function_call = Unit
FromCallback _ = ⊥

abbrev pub Keeps : {A : Type 0} → (TcpReactor → Type 0) → Action A → Type 0
Keeps P m = Triple P m (λ _. P) (λ x s. FromCallback x × P s)

-- What a call that moves no bytes leaves true.
abbrev pub IsCalm : (TcpReactor → Type 0) → Type 0
IsCalm P = (c : Call) (s : TcpReactor) → P s → P (record_event (quiet c) s)

-- What a call that moves no bytes leaves true, and what is strong enough to be left behind by an
-- exception. Every property of the tables that has the order of bytes is one.
pub record IsSteady (P : TcpReactor → Type 0) : Type 0 where
  pub calm : IsCalm P
  pub weak : (s : TcpReactor) → P s → On Ordered s

module _ {P : TcpReactor → Type 0} (calm : IsCalm P) where
  module _ {A : Type 0} where
    pub Keeps-pure : (a : A) → Keeps P (pure a)
    Keeps-pure a = Triple-pure a (λ s p. p)

    pub Keeps-gets : (f : TcpReactor → A) → Keeps P (gets f)
    Keeps-gets f = Triple-gets f (λ s p. p)

    pub Keeps-call : (c : Call) (answer : Log → A) → Keeps P (call c answer)
    unfolding call call_as pure gets modify ◌>>=◌
    Keeps-call c answer = record { at = calm c }

  module _ {A B : Type 0} where
    pub Keeps-bind :
        {m : Action A} {f : A → Action B}
        → Keeps P m
        → ((a : A) → Keeps P (f a))
        → Keeps P (m >>= f)
    Keeps-bind t h = Triple-bind {M = λ _. P} t h

  Keeps-foreign : (x : Option ℕ) → Keeps P (throw_foreign x)
  unfolding throw_foreign
  Keeps-foreign none = Keeps-pure tt
  Keeps-foreign (some x) = Triple-throw _ (λ s p. (tt, p))

  pub Keeps-when : (b : Bool) {m : Action Done} → Keeps P m → Keeps P (when b m)
  Keeps-when true t = t
  Keeps-when false t = Keeps-pure tt

  pub Keeps-callback : (f : Option (Log → Option ℕ)) (c : Call) → Keeps P (callback f c)
  unfolding callback
  Keeps-callback none c = Keeps-pure tt
  Keeps-callback (some f) c = Keeps-bind (Keeps-call c f) Keeps-foreign

  pub Keeps-required : (f : Option (Log → Option ℕ)) (c : Call) → Keeps P (required_callback f c)
  unfolding required_callback
  Keeps-required none c = Triple-throw _ (λ s p. (tt, p))
  Keeps-required (some f) c = Keeps-bind (Keeps-call c f) Keeps-foreign

  module _ (w : World) where
    pub Keeps-detach_call :
        (registered : Bool) (fd : Option ℕ) → Keeps P (detach_call w registered fd)
    Keeps-detach_call true (some fd) = Keeps-call _ _
    Keeps-detach_call true none = Keeps-pure 0
    Keeps-detach_call false fd = Keeps-pure 0

    pub Keeps-stat : (kind : StatKind) (amount : ℕ) → Keeps P (report_stat_event w kind amount)
    unfolding report_stat_event
    Keeps-stat kind amount = Keeps-callback w.statistics_callback _

    pub Keeps-time : Keeps P (current_time w)
    unfolding current_time
    Keeps-time = Keeps-call _ _

    pub Keeps-observation :
        (kind : Bytes) (id : ℕ) (side : Option Side) (value : ℕ)
        → Keeps P (report_observation w kind id side value)
    unfolding report_observation
    Keeps-observation kind id side value =
        Keeps-bind (Keeps-gets _) (λ sessions.
          Keeps-bind (Keeps-gets _) (λ tokens. Keeps-callback w.observation_callback _))

    pub Keeps-detach_error : (errno : ℕ) → Keeps P (report_detach_error w errno)
    unfolding report_detach_error
    Keeps-detach_error errno =
        Triple-if (errno == 0) (λ _. Keeps-pure tt)
          (λ _. Keeps-bind (Keeps-stat _ _) (λ _. Keeps-callback _ _))

-- An action that starts where `P` holds, with `Left` where it throws.
abbrev pub Runs :
    {A : Type 0} → World → (TcpReactor → Type 0) → Action A → (A → TcpReactor → Type 0) → Type 0
Runs w P m Q = Triple P m Q (Left w)

module _ (w : World) where
  pub Left-callback : (x : Exception) (s : TcpReactor) → FromCallback x → On Ordered s → Left w x s
  Left-callback (foreign y) s c p = p
  Left-callback Exception.bad_function_call s c p = p
  Left-callback Exception.logic_error s c p = elim c [ ]
  Left-callback Exception.invalid_argument s c p = elim c [ ]
  Left-callback Exception.out_of_range s c p = elim c [ ]
  Left-callback Exception.overflow_error s c p = elim c [ ]
  Left-callback Exception.unfinished s c p = elim c [ ]
  Left-callback (Exception.system_error o n) s c p = elim c [ ]
  Left-callback (Exception.session_failure o n) s c p = elim c [ ]

  module _ {P : TcpReactor → Type 0} (v : IsSteady P) where
    pub Runs-keeps : {A : Type 0} {m : Action A} → Keeps P m → Runs w P m (λ _. P)
    Runs-keeps t =
        Triple-weaken t (λ s p. p) (λ a s p. p) (λ x s p. Left-callback x s p.0 (v.weak s p.1))

  -- A call returns.
  pub Runs-call :
      {P : TcpReactor → Type 0} {A : Type 0}
      → IsCalm P
      → (c : Call) (answer : Log → A) → Runs w P (call c answer) (λ _. P)
  unfolding call call_as pure gets modify ◌>>=◌
  Runs-call calm c answer = record { at = calm c }

  -- What is done after an action that keeps `P`.
  module _ {P : TcpReactor → Type 0} {A B : Type 0} {f : A → Action B}
      {Q : B → TcpReactor → Type 0} where
    pub Runs-then :
        {m : Action A} → Runs w P m (λ _. P) → ((a : A) → Runs w P (f a) Q) → Runs w P (m >>= f) Q
    Runs-then t h = Triple-bind {M = λ _. P} t h

    pub Runs-gets : (g : TcpReactor → A) → ((a : A) → Runs w P (f a) Q) → Runs w P (gets g >>= f) Q
    Runs-gets g h = Triple-bind {M = λ _. P} (Triple-gets g (λ s p. p)) h

    pub Runs-after :
        IsSteady P
        → {m : Action A} → Keeps P m
        → ((a : A) → Runs w P (f a) Q)
        → Runs w P (m >>= f) Q
    Runs-after v t h = Triple-bind {M = λ _. P} (Runs-keeps v t) h

  pub Runs-modify :
      {P R : TcpReactor → Type 0} {B : Type 0} {n : Action B} {Q : B → TcpReactor → Type 0}
      (f : TcpReactor → TcpReactor)
      → ((s : TcpReactor) → P s → R (f s))
      → Runs w R n Q
      → Runs w P (modify f >>= λ _. n) Q
  Runs-modify {R} f h t = Triple-bind {M = λ _. R} (Triple-modify f h) (λ _. t)

-- A property of the tables, together with a fact about other members.
pub On-IsSteady :
    {T : Tables}
    → ((next : ℕ) (tokens : EndpointTokens) (sessions : Map ℕ Session) (t : Trace)
        → T next tokens sessions t
        → InOrder t)
    → IsSteady (On T)
On-IsSteady h = record {
  calm = λ c s p. p;
  weak = λ s (facts, orderly, stops). ((λ small. h _ _ _ _ (facts small)), orderly, stops);
}

pub draining-IsSteady :
    {P : TcpReactor → Type 0} (b : Bool) → IsSteady P → IsSteady (λ s. P s × (s.draining ≡ b))
draining-IsSteady b v = record {
  calm = λ c s (p, e). (v.calm c s p, e);
  weak = λ s p. v.weak s p.0;
}
