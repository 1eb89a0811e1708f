-- ===== src/Tcp/Reactor/Run.antt =====
-- What holds of whole runs of the TCP reactor, whatever the system calls and the callbacks answer
-- and wherever one of them throws.
use mathlib.Core.Path.{◌≡◌, refl}
use l4_load_balancer_with_xd.Prelude.{
  ◌≢◌, ℕ, ◌<◌, ◌||◌, Option, none, some, [], ◌==◌, ltb, arith, ap, ◌∙◌, sym, u64_max, nat_eq,
}
use l4_load_balancer_with_xd.Prelude.Map.{find}
use l4_load_balancer_with_xd.Prelude.Exec.{Outcome, ok, thrown, pure, throw, catch, ◌>>◌}
use l4_load_balancer_with_xd.Prelude.Exec.Triple.{
  Post, Triple, Triple-pure, Triple-throw, Triple-if, Triple-catch, Triple-bind, Triple-weaken,
  Triple-both,
}
use l4_load_balancer_with_xd.Config.Bytes.{Bytes}
use l4_load_balancer_with_xd.Tcp.Tokens.{Target, no_tokens, no_tokens-IsValid, find_endpoint}
use l4_load_balancer_with_xd.Tcp.World.{Side, Exception, World}
use l4_load_balancer_with_xd.Tcp.Reactor.{Session, TcpReactor, initial_reactor}
use l4_load_balancer_with_xd.Tcp.Reactor.Close.{close_all_sessions}
use l4_load_balancer_with_xd.Tcp.Reactor.Dispatch.{run_tcp_reactor, int_max}
use l4_load_balancer_with_xd.Tcp.Reactor.Facts.{
  Facts, IsSound, Owns, IsPrefix, IsOrderly, listener_closed, signal_came, IsPrompt, On, Ordered,
  Left, trace,
}
use l4_load_balancer_with_xd.Tcp.Reactor.Facts.Rules.{FromCallback, IsSteady}
use l4_load_balancer_with_xd.Tcp.Reactor.Facts.Close.{close_all-Keeps, Facts-IsSteady, Unlinks}
use l4_load_balancer_with_xd.Tcp.Reactor.Facts.Dispatch.{Ended, event_loop-On}
use l4_load_balancer_with_xd.Tcp.Reactor.Facts.Empties.{Has, close_all-Has}

initial-Facts : Facts 1 no_tokens [] (trace [])
unfolding find
initial-Facts = record {
  numbered = omega arith;
  fresh = λ id side h. (refl, refl);
  in_order = λ id side. ([], refl);
  below = λ id x h. absurd (cc);
  sound = λ id x h. absurd (cc);
  tokens_valid = no_tokens-IsValid;
  owned = λ token target h. absurd (cc);
}

initial-On : On Facts initial_reactor
initial-On = ((λ few. initial-Facts), (tt, refl), refl)

-- What every exception leaves true, and which ones are excluded.
record Survives (w : World) (x : Exception) (s : TcpReactor) : Type 0 where
  ordered : On Ordered s
  no_overflow : x ≡ Exception.logic_error → (trace s.log).selects < u64_max → ⊥
  finished : x ≡ Exception.unfinished → ¬ (IsPrompt w)

survives :
    {w : World} (x : Exception) (s : TcpReactor)
    → On Ordered s
    → x ≢ Exception.logic_error
    → x ≢ Exception.unfinished
    → Survives w x s
survives x s p a b = record {
  ordered = p;
  no_overflow = λ e. absurd (a e);
  finished = λ e. absurd (b e);
}

Left-Survives : {w : World} (x : Exception) (s : TcpReactor) → Left w x s → Survives w x s
Left-Survives Exception.logic_error s p = record {
  ordered = p.0;
  no_overflow = λ e. p.1;
  finished = λ e. absurd (cc);
}
Left-Survives Exception.unfinished s p = record {
  ordered = p.0;
  no_overflow = λ e. absurd (cc);
  finished = λ e. p.1;
}
Left-Survives (Exception.session_failure o n) s p =
    survives _ s (Facts-IsSteady.weak s p) (λ e. cc) (λ e. cc)
Left-Survives Exception.bad_function_call s p = survives _ s p (λ e. cc) (λ e. cc)
Left-Survives Exception.invalid_argument s p = survives _ s p (λ e. cc) (λ e. cc)
Left-Survives Exception.out_of_range s p = survives _ s p (λ e. cc) (λ e. cc)
Left-Survives Exception.overflow_error s p = survives _ s p (λ e. cc) (λ e. cc)
Left-Survives (Exception.system_error o n) s p = survives _ s p (λ e. cc) (λ e. cc)
Left-Survives (Exception.foreign x) s p = survives _ s p (λ e. cc) (λ e. cc)

Survives-IsSteady : (w : World) (x : Exception) → IsSteady (Survives w x)
Survives-IsSteady w x = record {
  calm =
      λ c s p. record { ordered = p.ordered; no_overflow = p.no_overflow; finished = p.finished };
  weak = λ s p. p.ordered;
}

Survives-Unlinks : (w : World) (x : Exception) → Unlinks (Survives w x)
Survives-Unlinks w x id y s found p = record {
  ordered = p.ordered;
  no_overflow = p.no_overflow;
  finished = p.finished;
}

module _ (w : World) where
  abbrev Gone : Exception → TcpReactor → Type 0
  Gone x s = Survives w x s × (s.sessions ≡ [])

  -- The destructor, and the exception goes on.
  destroy :
      (x : Exception) (reason : Bytes)
      → Triple
          (Survives w x)
          (catch (close_all_sessions w reason) (λ _. pure tt) >> throw {A = Option ℕ} x)
          (Ended w)
          Gone
  destroy x reason =
      Triple-bind {M = λ _. Gone x}
        (Triple-catch {E' = λ y s. (FromCallback y × Survives w x s) × (FromCallback y × Has [] s)}
          (Triple-weaken
            (Triple-both (close_all-Keeps (Survives-IsSteady w x) (Survives-Unlinks w x) w reason)
              (close_all-Has w reason))
            (λ s p. (p, p.ordered)) (λ a s (p, (q, e)). (p, e)) (λ y s p. p))
          (λ y. Triple-pure tt (λ s ((c, p), (d, (q, e))). (p, e))))
        (λ _. Triple-throw x (λ s p. p))

  reactor-On :
      (rounds : ℕ)
      → Triple (λ s. On Facts s × (s.sessions ≡ [])) (run_tcp_reactor w rounds) (Ended w) Gone
  unfolding run_tcp_reactor
  reactor-On rounds =
      Triple-if (w.drain_timeout_ms == 0 || ltb int_max w.drain_timeout_ms)
        (λ _.
          Triple-throw _
            (λ s (p, e). (survives _ s (Facts-IsSteady.weak s p) (λ e. cc) (λ e. cc), e)))
        (λ _.
          Triple-catch {E' = Survives w}
            (Triple-weaken (event_loop-On w rounds) (λ s p. p.0) (λ a s p. p) Left-Survives)
            (λ x. destroy x _))

  abbrev Run : Outcome Exception (Option ℕ) × TcpReactor → Type 0
  Run r = Post (Ended w) Gone r

  ran : (rounds : ℕ) → Run (run_tcp_reactor w rounds initial_reactor)
  ran rounds = (reactor-On rounds).at initial_reactor (initial-On, refl)

  emptied :
      (r : Outcome Exception (Option ℕ) × TcpReactor) → Run r → r.0 ≢ ok none → r.1.sessions ≡ []
  emptied (ok a, s) p h = p.1 (λ e. h (ap ok e))
  emptied (thrown x, s) p h = p.1

  whole : (r : Outcome Exception (Option ℕ) × TcpReactor) → Run r → On Ordered r.1
  whole (ok a, s) p = Facts-IsSteady.weak s p.0
  whole (thrown x, s) p = p.0.ordered

  returned :
      (result : Option ℕ) (r : Outcome Exception (Option ℕ) × TcpReactor)
      → Run r
      → r.0 ≡ ok result
      → On Facts r.1
  returned result (ok a, s) p e = p.0
  returned result (thrown x, s) p e = absurd (cc)

  raised :
      (y : Exception) (r : Outcome Exception (Option ℕ) × TcpReactor)
      → Run r
      → r.0 ≡ thrown y
      → ((y ≡ Exception.logic_error → (trace r.1.log).selects < u64_max → ⊥)
          × (y ≡ Exception.unfinished → ¬ (IsPrompt w)))
  raised y (ok a, s) p e = absurd (cc)
  raised y (thrown x, s) p e =
      let same : Path Exception y x = cc in (λ h. p.0.no_overflow (cc), λ h. p.0.finished (cc))

-- In each direction of each session, open or closed, the bytes that one end took are the first of
-- the bytes that were read at the other end, in their order, each once and none made up. This holds
-- after any number of rounds and after every exception, as long as the backend selector was called
-- fewer than 2 ^ 64 - 1 times, so that no two sessions had one identity.
pub bytes_in_order :
    (w : World) (rounds : ℕ) (id : ℕ) (side : Side)
    → let t = trace (run_tcp_reactor w rounds initial_reactor).1.log in
      t.selects < u64_max → IsPrefix (t.sent id side) (t.received id side)
bytes_in_order w rounds id side few = (whole w _ (ran w rounds)).0 few id side

-- From the reading of the first signal on, up to the end of the run, no connection is accepted and
-- nothing is read from any session. However many rounds were run, and whichever exception ended
-- them, the listener has been closed just when a signal was read, and not before.
pub nothing_after_stop :
    (w : World) (rounds : ℕ)
    → let log = (run_tcp_reactor w rounds initial_reactor).1.log in
      IsOrderly log × (listener_closed log ≡ signal_came log)
nothing_after_stop w rounds =
    let (_, (orderly, closed), came) = whole w _ (ran w rounds) in (orderly, closed ∙ sym came)

-- After any number of rounds without an uncaught exception, with fewer than 2 ^ 64 - 1 calls of the
-- selector, the session in the table at an identity has that identity; what was read at each of its
-- ends is what the other end took followed by what waits in a valid buffer; its counters are the
-- numbers of the bytes sent, modulo 2 ^ 64; and an end was shut down only where the stream of the
-- other one has ended and none of its bytes wait.
pub run_tcp_reactor-IsSound :
    (w : World) (rounds : ℕ) (result : Option ℕ) (id : ℕ) (x : Session)
    → (run_tcp_reactor w rounds initial_reactor).0 ≡ ok result
    → (trace (run_tcp_reactor w rounds initial_reactor).1.log).selects < u64_max
    → find id (run_tcp_reactor w rounds initial_reactor).1.sessions ≡ some x
    → let t = trace (run_tcp_reactor w rounds initial_reactor).1.log in
      IsSound id (t.received id) (t.sent id) x
run_tcp_reactor-IsSound w rounds result id x e few found =
    ((returned w result _ (ran w rounds) e).0 few).sound id x found

-- After any number of rounds without an uncaught exception, with fewer than 2 ^ 64 - 1 calls of the
-- selector, a token resolves only to a session that is in the table, and to the end of it that
-- carries the token.
pub tokens_are_owned :
    (w : World) (rounds : ℕ) (result : Option ℕ) (token : ℕ) (target : Target)
    → (run_tcp_reactor w rounds initial_reactor).0 ≡ ok result
    → (trace (run_tcp_reactor w rounds initial_reactor).1.log).selects < u64_max
    → find_endpoint (run_tcp_reactor w rounds initial_reactor).1.tokens token ≡ some target
    → Owns (run_tcp_reactor w rounds initial_reactor).1.sessions token target
unfolding find_endpoint
tokens_are_owned w rounds result token target e few found =
    ((returned w result _ (ran w rounds) e).0 few).owned token target found

-- With fewer than 2 ^ 64 - 1 calls of the selector, no buffer overflows or underflows: the
-- `std::logic_error` of `TcpPendingBuffer` does not leave a run.
pub buffers_hold :
    (w : World) (rounds : ℕ)
    → (trace (run_tcp_reactor w rounds initial_reactor).1.log).selects < u64_max
    → (run_tcp_reactor w rounds initial_reactor).0 ≢ thrown Exception.logic_error
buffers_hold w rounds few e = (raised w _ _ (ran w rounds) e).0 refl few

-- Where no call is interrupted, every loop inside a round ends by itself: 65538 rounds of it are
-- enough, for the reading of signals, the moving of bytes, the shut-down and the accepting of
-- connections.
pub inner_loops_end :
    (w : World) (rounds : ℕ)
    → IsPrompt w
    → (run_tcp_reactor w rounds initial_reactor).0 ≢ thrown Exception.unfinished
inner_loops_end w rounds prompt e = (raised w _ _ (ran w rounds) e).1 refl prompt

-- A run that was not cut after its rounds, so that it returned or threw, has closed every session:
-- none is left in the table.
pub no_session_left :
    (w : World) (rounds : ℕ)
    → (run_tcp_reactor w rounds initial_reactor).0 ≢ ok none
    → (run_tcp_reactor w rounds initial_reactor).1.sessions ≡ []
no_session_left w rounds over = emptied w _ (ran w rounds) over
