-- ===== src/Udp/Reactor/Keeps.antt =====
-- A property of the tables of a `UdpReactor` that an action keeps, whatever the world answers and
-- whether or not the action throws. Reports and system calls keep every such property.
use l4_load_balancer_with_xd.Prelude.{
  ℕ, Bool, true, false, Option, none, some, ◌==◌, if◌then◌else◌, nat_eq,
}
use l4_load_balancer_with_xd.Prelude.Map.{Map}
use l4_load_balancer_with_xd.Prelude.Exec.{pure, throw, gets, catch, modify, ◌>>=◌, when}
use l4_load_balancer_with_xd.Prelude.Exec.Triple.{
  Triple, Triple-pure, Triple-throw, Triple-gets, Triple-if, Triple-catch, Triple-modify,
  Triple-bind,
}
use l4_load_balancer_with_xd.Config.Bytes.{Bytes, bytes_instance}
use l4_load_balancer_with_xd.Metrics.{StatKind}
use l4_load_balancer_with_xd.Udp.Flow.{UdpFlowKey, UdpFlow}
use l4_load_balancer_with_xd.Udp.World.{Exception, Event, Log, World}
use l4_load_balancer_with_xd.Udp.Reactor.{
  UdpReactor, Action, Unit₀, call, rethrow, callback, found_or_throw, flow_at, report_stat_event,
  current_time, report_observation, muted, report_diagnostic, raise_errno, register_flow_socket,
}

abbrev pub Tables : Type 1
Tables = ℕ → Map UdpFlowKey ℕ → Map ℕ UdpFlow → Type 0

abbrev pub On : Tables → UdpReactor → Type 0
On T s = T s.next_flow_token s.flow_tokens_by_key s.flows

abbrev pub Keeps : {A : Type 0} → Tables → Action A → Type 0
Keeps T m = Triple (On T) m (λ _. On T) (λ _. On T)

module _ (T : Tables) where
  module _ {A : Type 0} where
    pub Keeps-pure : (a : A) → Keeps T (pure a)
    Keeps-pure a = Triple-pure a (λ s p. p)

    pub Keeps-throw : (x : Exception) → Keeps T (throw {A = A} x)
    Keeps-throw x = Triple-throw x (λ s p. p)

    pub Keeps-gets : (f : UdpReactor → A) → Keeps T (gets f)
    Keeps-gets f = Triple-gets f (λ s p. p)

    pub Keeps-if :
        (b : Bool) {m n : Action A} → Keeps T m → Keeps T n → Keeps T (if b then m else n)
    Keeps-if b hm hn = Triple-if b (λ _. hm) (λ _. hn)

    pub Keeps-catch :
        {m : Action A} {handler : Exception → Action A}
        → Keeps T m
        → ((x : Exception) → Keeps T (handler x))
        → Keeps T (catch m handler)
    Keeps-catch t h = Triple-catch {E' = λ _. On T} t h

    pub Keeps-call : (e : Event) (answer : Log → A) → Keeps T (call e answer)
    unfolding call pure gets modify ◌>>=◌
    Keeps-call e answer = record { at = λ s p. p }

    -- A call of the world returns.
    pub Keeps-returns :
        {E : Exception → UdpReactor → Type 0} (e : Event) (answer : Log → A)
        → Triple (On T) (call e answer) (λ _. On T) E
    unfolding call pure gets modify ◌>>=◌
    Keeps-returns e answer = record { at = λ s p. p }

  pub Keeps-modify :
      (f : UdpReactor → UdpReactor) → ((s : UdpReactor) → On T s → On T (f s)) → Keeps T (modify f)
  Keeps-modify f h = Triple-modify f h

  module _ {A B : Type 0} where
    pub Keeps-bind :
        {m : Action A} {f : A → Action B}
        → Keeps T m
        → ((a : A) → Keeps T (f a))
        → Keeps T (m >>= f)
    Keeps-bind t h = Triple-bind {M = λ _. On T} t h

  pub Keeps-when : (b : Bool) {m : Action Unit₀} → Keeps T m → Keeps T (when b m)
  Keeps-when true t = t
  Keeps-when false t = Keeps-pure tt

  pub Keeps-rethrow : (x : Option Exception) → Keeps T (rethrow x)
  unfolding rethrow
  Keeps-rethrow none = Keeps-pure tt
  Keeps-rethrow (some x) = Keeps-throw x

  pub Keeps-callback : (f : Option (Log → Option Exception)) (e : Event) → Keeps T (callback f e)
  unfolding callback
  Keeps-callback none e = Keeps-pure tt
  Keeps-callback (some f) e = Keeps-bind (Keeps-call e f) Keeps-rethrow

  Keeps-found : (found : Option UdpFlow) → Keeps T (found_or_throw found)
  unfolding found_or_throw
  Keeps-found none = Keeps-throw Exception.out_of_range
  Keeps-found (some flow) = Keeps-pure flow

  pub Keeps-flow_at : (token : ℕ) → Keeps T (flow_at token)
  unfolding flow_at
  Keeps-flow_at token = Keeps-bind (Keeps-gets _) Keeps-found

  module _ (w : World) where
    pub Keeps-report_stat_event :
        (kind : StatKind) (amount : ℕ) → Keeps T (report_stat_event w kind amount)
    unfolding report_stat_event
    Keeps-report_stat_event kind amount = Keeps-callback w.statistics_callback _

    pub Keeps-current_time : Keeps T (current_time w)
    unfolding current_time
    Keeps-current_time = Keeps-call _ _

    pub Keeps-report_observation :
        (kind : Bytes) (token : ℕ) (fd : Option ℕ) → Keeps T (report_observation w kind token fd)
    unfolding report_observation
    Keeps-report_observation kind token fd = search (Keeps-bind, Keeps-gets, Keeps-callback)

    pub Keeps-report_diagnostic :
        (kind : Bytes) (error : ℕ) → Keeps T (report_diagnostic w kind error)
    unfolding report_diagnostic
    Keeps-report_diagnostic kind error = Keeps-bind (Keeps-report_observation kind 0 none) (λ _.
        Keeps-bind Keeps-current_time (λ time. Keeps-bind (Keeps-gets _) (λ last.
          Keeps-if (muted w last time) (Keeps-pure tt) (
            Keeps-bind (Keeps-modify _ (λ s p. p)) (λ _. Keeps-callback w.diagnostic_callback _)))))

    Keeps-raise_errno : (operation : Bytes) (errno : ℕ) → Keeps T (raise_errno w operation errno)
    unfolding raise_errno
    Keeps-raise_errno operation errno = Keeps-if (errno == 0) (Keeps-pure tt) (Keeps-throw _)

    pub Keeps-register_flow_socket : (fd token : ℕ) → Keeps T (register_flow_socket w fd token)
    unfolding register_flow_socket
    Keeps-register_flow_socket fd token = Keeps-bind (Keeps-call _ _) (Keeps-raise_errno _)

pub ruleset keeps_rules = (
  Keeps-pure, Keeps-throw, Keeps-gets, Keeps-if, Keeps-bind, Keeps-when, Keeps-call, Keeps-callback,
  Keeps-rethrow, Keeps-flow_at, Keeps-report_stat_event, Keeps-current_time,
  Keeps-report_observation, Keeps-report_diagnostic,
)
