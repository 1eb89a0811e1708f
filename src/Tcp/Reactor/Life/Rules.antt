-- ===== src/Tcp/Reactor/Life/Rules.antt =====
-- Actions that keep the count of the reports, whether they return or throw: one rule for each way to
-- build an action, and the reports that tell nothing of a session's life.
use mathlib.Core.Path.{◌≡◌, refl}
use l4_load_balancer_with_xd.Prelude.{
  ◌≢◌, ℕ, ◌≤◌, Bool, true, false, Option, none, some, ◌∷◌, ◌==◌, arith, if◌then◌else◌,
}
use l4_load_balancer_with_xd.Prelude.Exec.{pure, throw, gets, catch, modify, ◌>>=◌, when}
use l4_load_balancer_with_xd.Prelude.Exec.Triple.{
  Triple, Triple-pure, Triple-throw, Triple-gets, Triple-if, Triple-catch, Triple-modify,
  Triple-bind,
}
use l4_load_balancer_with_xd.Config.Bytes.{Bytes}
use l4_load_balancer_with_xd.Metrics.{StatKind}
use l4_load_balancer_with_xd.Tcp.World.{Side, Exception, Call, quiet, Event, Log, World}
use l4_load_balancer_with_xd.Tcp.Reactor.{
  Session, TcpReactor, Action, Done, record_event, call_as, call, rethrow, throw_foreign, callback,
  required_callback, found_or_throw, session_at, change, throw_errno, fail_errno, report_stat_event,
  current_time, report_observation, detach_call, detach_endpoint_from_epoll, report_detach_error,
  remove_endpoint,
}
use l4_load_balancer_with_xd.Tcp.Reactor.Facts.{trace}
use l4_load_balancer_with_xd.Tcp.Reactor.Life.{IsPlain, Life, plain-Alive, update-Alive}

raised :
    {Q E : TcpReactor → Type 0}
    → ((s : TcpReactor) → Q s → E s)
    → (x : Option ℕ) → Triple Q (throw_foreign x) (λ _. Q) (λ _. E)
unfolding throw_foreign
raised left none = Triple-pure tt (λ s p. p)
raised left (some x) = Triple-throw _ left

module _ {P Q E : TcpReactor → Type 0} where
  pub call-Triple :
      {A : Type 0} (answer : Log → A) (c : Call)
      → ((s : TcpReactor) → P s → Q (record_event (quiet c) s))
      → Triple P (call c answer) (λ _. Q) (λ _. E)
  unfolding call call_as pure gets modify ◌>>=◌
  call-Triple answer c event = record { at = event }

  -- A report, where the callback is set, and where it is not.
  pub callback-Triple :
      (f : Option (Log → Option ℕ)) (c : Call)
      → ((s : TcpReactor) → P s → Q s)
      → ((s : TcpReactor) → P s → Q (record_event (quiet c) s))
      → ((s : TcpReactor) → Q s → E s)
      → Triple P (callback f c) (λ _. Q) (λ _. E)
  unfolding callback
  callback-Triple none c absent event left = Triple-pure tt absent
  callback-Triple (some f) c absent event left =
      Triple-bind {M = λ _. Q} (call-Triple f c event) (raised left)

  pub required-Triple :
      (f : Option (Log → Option ℕ)) (c : Call)
      → ((s : TcpReactor) → P s → E s)
      → (f ≢ none → (s : TcpReactor) → P s → Q (record_event (quiet c) s))
      → ((s : TcpReactor) → Q s → E s)
      → Triple P (required_callback f c) (λ _. Q) (λ _. E)
  unfolding required_callback
  required-Triple none c absent event left = Triple-throw _ absent
  required-Triple (some f) c absent event left =
      Triple-bind {M = λ _. Q} (call-Triple f c (event (λ e. cc))) (raised left)

pub quiet-Life :
    (w : World) (c : Call)
    → IsPlain (quiet c)
    → (s : TcpReactor) → Life w s
    → Life w (record_event (quiet c) s)
quiet-Life w c plain s p few = plain-Alive (quiet c) plain (omega arith) (p few)

-- The action keeps the invariant.
abbrev pub Lives : World → {A : Type 0} → Action A → Type 0
Lives w m = Triple (Life w) m (λ _. Life w) (λ _. Life w)

module _ (w : World) where
  module _ {A : Type 0} where
    pub Lives-pure : (a : A) → Lives w (pure a)
    Lives-pure a = Triple-pure a (λ s p. p)

    pub Lives-throw : (x : Exception) → Lives w (throw {A = A} x)
    Lives-throw x = Triple-throw x (λ s p. p)

    pub Lives-gets : (f : TcpReactor → A) → Lives w (gets f)
    Lives-gets f = Triple-gets f (λ s p. p)

    pub Lives-if :
        (b : Bool) {m n : Action A} → Lives w m → Lives w n → Lives w (if b then m else n)
    Lives-if b hm hn = Triple-if b (λ _. hm) (λ _. hn)

    pub Lives-catch :
        {m : Action A} {handler : Exception → Action A}
        → Lives w m
        → ((x : Exception) → Lives w (handler x))
        → Lives w (catch m handler)
    Lives-catch t h = Triple-catch {E' = λ _. Life w} t h

    -- A call whose event is plain, whatever it is answered.
    pub Lives-call_as :
        (event : A → Event) (answer : Log → A)
        → ((a : A) → IsPlain (event a))
        → ((a : A) (log : Log) → (trace log).selects ≤ (trace (event a ∷ log)).selects)
        → Lives w (call_as event answer)
    unfolding call_as pure gets modify ◌>>=◌
    Lives-call_as event answer plain counted = record {
      at = λ s p few.
          let a = answer s.log in
          let n = counted a s.log in plain-Alive (event a) (plain a) n (p (omega arith));
    }

    pub Lives-call : (c : Call) (answer : Log → A) → IsPlain (quiet c) → Lives w (call c answer)
    unfolding call
    Lives-call c answer plain =
        Lives-call_as (λ _. quiet c) answer (λ a. plain) (λ a log. omega arith)

  pub Lives-modify :
      (f : TcpReactor → TcpReactor)
      → ((s : TcpReactor) → Life w s → Life w (f s))
      → Lives w (modify f)
  Lives-modify f h = Triple-modify f h

  pub Lives-change :
      (id : ℕ) (f : Session → Session)
      → ((x : Session) → (f x).id ≡ x.id)
      → Lives w (modify (change id f))
  Lives-change id f same = Triple-modify _ (λ s p few. update-Alive id f same (p few))

  pub Lives-bind :
      {A B : Type 0} {m : Action A} {f : A → Action B}
      → Lives w m
      → ((a : A) → Lives w (f a))
      → Lives w (m >>= f)
  Lives-bind t h = Triple-bind {M = λ _. Life w} t h

  pub Lives-when : (b : Bool) {m : Action Done} → Lives w m → Lives w (when b m)
  Lives-when true t = t
  Lives-when false t = Lives-pure tt

  pub Lives-rethrow : (x : Option Exception) → Lives w (rethrow x)
  unfolding rethrow
  Lives-rethrow none = Lives-pure tt
  Lives-rethrow (some x) = Lives-throw x

  pub Lives-callback :
      (f : Option (Log → Option ℕ)) (c : Call) → IsPlain (quiet c) → Lives w (callback f c)
  Lives-callback f c plain = callback-Triple f c (λ s p. p) (quiet-Life w c plain) (λ s p. p)

  pub Lives-required :
      (f : Option (Log → Option ℕ)) (c : Call) → IsPlain (quiet c) → Lives w (required_callback f c)
  Lives-required f c plain = required-Triple f c (λ s p. p) (λ on. quiet-Life w c plain) (λ s p. p)

  Lives-found : (found : Option Session) → Lives w (found_or_throw found)
  unfolding found_or_throw
  Lives-found none = Lives-throw _
  Lives-found (some x) = Lives-pure x

  pub Lives-session_at : (id : ℕ) → Lives w (session_at id)
  unfolding session_at
  Lives-session_at id = Lives-bind (Lives-gets _) Lives-found

  pub Lives-throw_errno : (operation : Bytes) (errno : ℕ) → Lives w (throw_errno operation errno)
  unfolding throw_errno
  Lives-throw_errno operation errno = Lives-if (errno == 0) (Lives-pure tt) (Lives-throw _)

  pub Lives-fail_errno : (operation : Bytes) (errno : ℕ) → Lives w (fail_errno operation errno)
  unfolding fail_errno
  Lives-fail_errno operation errno = Lives-if (errno == 0) (Lives-pure tt) (Lives-throw _)

  pub Lives-stat : (kind : StatKind) (amount : ℕ) → Lives w (report_stat_event w kind amount)
  unfolding report_stat_event
  Lives-stat kind amount = Lives-callback w.statistics_callback _ (λ b id. refl)

  pub Lives-time : Lives w (current_time w)
  unfolding current_time
  Lives-time = Lives-call _ _ (λ b id. refl)

  pub Lives-observation :
      (kind : Bytes) (id : ℕ) (side : Option Side) (value : ℕ)
      → Lives w (report_observation w kind id side value)
  unfolding report_observation
  Lives-observation kind id side value = Lives-bind (Lives-gets _) (λ sessions.
      Lives-bind (Lives-gets _) (λ tokens. Lives-callback w.observation_callback _ (λ b id. refl)))

  Lives-detach_call : (registered : Bool) (fd : Option ℕ) → Lives w (detach_call w registered fd)
  Lives-detach_call true (some fd) = Lives-call _ _ (λ b id. refl)
  Lives-detach_call true none = Lives-pure 0
  Lives-detach_call false fd = Lives-pure 0

  Lives-detach_error : (errno : ℕ) → Lives w (report_detach_error w errno)
  unfolding report_detach_error
  Lives-detach_error errno =
      Lives-if (errno == 0) (Lives-pure tt)
        (Lives-bind (Lives-stat _ _) (λ _. Lives-callback _ _ (λ b id. refl)))

  pub Lives-remove_endpoint : (id : ℕ) (side : Side) → Lives w (remove_endpoint w id side)
  unfolding remove_endpoint detach_endpoint_from_epoll
  Lives-remove_endpoint id side =
      Lives-bind
        (Lives-bind (Lives-session_at id) (λ x.
          Lives-bind (Lives-detach_call _ _)
            (λ errno. Lives-bind (Lives-change id _ (λ x. refl)) (λ _. Lives-pure _))))
        Lives-detach_error

pub ruleset lives_rules = (
  Lives-pure, Lives-throw, Lives-gets, Lives-if, Lives-bind, Lives-when, Lives-change, Lives-modify,
  Lives-call, Lives-callback, Lives-required, Lives-session_at, Lives-throw_errno, Lives-fail_errno,
  Lives-stat, Lives-time, Lives-observation, Lives-remove_endpoint,
)
