-- ===== src/Tcp/Reactor/Life/Closing.antt =====
-- The closing of a session tells of its end once, and of nothing else.
use mathlib.Core.Path.{◌≡◌, refl, subst}
use l4_load_balancer_with_xd.Prelude.{
  ℕ, zero, suc, Bool, true, false, Option, none, some, [], ◌∷◌, ◌==◌, arith, ◌∙◌, ap, inl, inr,
  nat_eq, Bool-cases, Option-cases, length,
}
use l4_load_balancer_with_xd.Prelude.Map.{Map, find, beq_self}
use l4_load_balancer_with_xd.Prelude.Exec.{pure, gets, ◌>>=◌}
use l4_load_balancer_with_xd.Prelude.Exec.Triple.{either_way}
use l4_load_balancer_with_xd.Config.Bytes.{Bytes}
use l4_load_balancer_with_xd.Tcp.World.{
  SessionEvent, Exception, Call, quiet, Log, World, client, backend,
}
use l4_load_balancer_with_xd.Tcp.World.Call.{session}
use l4_load_balancer_with_xd.Tcp.Reactor.{EndpointState, Session, TcpReactor, Action, Done}
use l4_load_balancer_with_xd.Tcp.Reactor.Close.{
  attempt, unlink, close_found, close_session, close_first, close_each, close_all_sessions,
  closed_event,
}
use l4_load_balancer_with_xd.Tcp.Reactor.Close.Reports.{
  Callback, logged, released, detached, release_log, release_error, detach_log, close_log,
  close_session_lem,
}
use l4_load_balancer_with_xd.Tcp.Reactor.Facts.{trace}
use l4_load_balancer_with_xd.Tcp.Reactor.Life.{IsPlain, reports, Ends, Life, erase-Alive}
use l4_load_balancer_with_xd.Tcp.Reactor.Life.Rules.{
  Lives, Lives-pure, Lives-gets, Lives-catch, Lives-bind, Lives-rethrow,
}

-- The later log tells nothing more.
record Same (log log' : Log) : Type 0 where
  selects : (trace log').selects ≡ (trace log).selects
  counts : (start : Bool) (id : ℕ) → reports start id log' ≡ reports start id log

Same-refl : (log : Log) → Same log log
Same-refl log = record { selects = refl; counts = λ start id. refl }

Same-trans : {a b c : Log} → Same a b → Same b c → Same a c
Same-trans p q = record {
  selects = q.selects ∙ p.selects;
  counts = λ start id. q.counts start id ∙ p.counts start id;
}

quiet-Same : (c : Call) (log : Log) → IsPlain (quiet c) → Same log (quiet c ∷ log)
quiet-Same c log plain = record { selects = refl; counts = λ start id. rw (plain start id) }

logged-Same : (f : Callback) (c : Call) (log : Log) → IsPlain (quiet c) → Same log (logged f c log)
logged-Same none c log plain = Same-refl log
logged-Same (some f) c log plain = quiet-Same c log plain

module _ (w : World) where
  detached-Same :
      (registered : Bool) (fd : Option ℕ) (log : Log) → Same log (detached w registered fd log)
  detached-Same true (some fd) log = quiet-Same _ log (λ b id. refl)
  detached-Same true none log = Same-refl log
  detached-Same false fd log = Same-refl log

  released-Same : (fd : Option ℕ) (log : Log) → Same log (released w fd log)
  released-Same none log = Same-refl log
  released-Same (some fd) log = quiet-Same _ log (λ b id. refl)

  release-Same : (e : EndpointState) (log : Log) → Same log (release_log w e log)
  release-Same e log =
      Same-trans (detached-Same e.registered e.fd log)
        (released-Same e.fd (detached w e.registered e.fd log))

  detach_log-Same : (errno : ℕ) (log : Log) → Same log (detach_log w errno log)
  detach_log-Same errno log = elim (Bool-cases (errno == 0)) [
    | inl fine ↦ rw fine (Same-refl log)
    | inr failed ↦ rw failed (
        Same-trans (logged-Same w.statistics_callback _ log (λ b id. refl))
          (logged-Same w.diagnostic_callback _ _ (λ b id. refl)))
  ]

  -- The report of an end.
  told-Ends :
      (f : Callback) (e : SessionEvent) (log : Log)
      → w.session_callback ≡ f
      → e.accepted ≡ false
      → Ends w e.id log (logged f (session e) log)
  told-Ends none e log off closed = record {
    selects = refl;
    starts = λ id. refl;
    others = λ id differs. refl;
    told = inl (off, refl);
  }
  told-Ends (some f) e log on closed = record {
    selects = refl;
    starts = λ id. rw closed;
    others = λ id differs. rw closed (rw differs);
    told = inr (rw closed (rw (beq_self e.id)));
  }

  Ends-within : {k : ℕ} {a b c d : Log} → Same a b → Ends w k b c → Same c d → Ends w k a d
  Ends-within {k} p e q = record {
    selects = q.selects ∙ e.selects ∙ p.selects;
    starts = λ id. q.counts true id ∙ e.starts id ∙ p.counts true id;
    others = λ id differs. q.counts false id ∙ e.others id differs ∙ p.counts false id;
    told = elim e.told [
      | inl (off, same) ↦ inl (off, q.counts false k ∙ same ∙ p.counts false k)
      | inr more ↦ inr (q.counts false k ∙ more ∙ ap suc (p.counts false k))
    ];
  }

  close_log-Ends :
      (x : Session) (reason : Bytes) (errno sessions tokens : ℕ) (log : Log)
      → Ends w x.id log (close_log w x reason errno sessions tokens log)
  close_log-Ends x reason errno sessions tokens log =
      Ends-within
        (Same-trans (release-Same (x.ends client) log) (
          Same-trans (release-Same (x.ends backend) _) (
            Same-trans (detach_log-Same (release_error w (x.ends client) log) _) (
              detach_log-Same (release_error w (x.ends backend) (release_log w (x.ends client) log))
                _))))
        (told-Ends w.session_callback (closed_event w x reason errno) _ refl refl)
        (Same-trans (logged-Same w.statistics_callback _ _ (λ b id. refl))
          (logged-Same w.observation_callback _ _ (λ b id. refl)))

  closed-Life :
      (id : ℕ) (x : Session) (reason : Bytes) (errno : ℕ) (s : TcpReactor)
      → find id s.sessions ≡ some x
      → Life w s
      → Life w (close_session w id reason errno s).1
  closed-Life id x reason errno s there p =
      rw (close_session_lem w id x reason errno s there) (λ few.
        let t = unlink id x s in
        let log = close_log w x reason errno (length t.sessions) (length t.tokens.entries) s.log in
        let e = close_log-Ends x reason errno (length t.sessions) (length t.tokens.entries) s.log in
        let v = p (omega (arith, e.selects)) in
        let named = ((v.each id).live x there).0 in
        erase-Alive id x there (subst (λ k. Ends w k s.log log) named e) v)

  absent-Life :
      (id : ℕ) (reason : Bytes) (errno : ℕ) (s : TcpReactor)
      → find id s.sessions ≡ none
      → Life w s
      → Life w (close_session w id reason errno s).1
  unfolding close_session
  absent-Life id reason errno s absent p = unfold close_found gets pure ◌>>=◌ in rw absent p

  pub Lives-close_session :
      (id : ℕ) (reason : Bytes) (errno : ℕ) → Lives w (close_session w id reason errno)
  Lives-close_session id reason errno = record {
    at = λ s p.
        either_way (Life w) (close_session w id reason errno s)
          (elim (Option-cases (find id s.sessions)) [
            | inl absent ↦ absent-Life id reason errno s absent p
            | inr (x, there) ↦ closed-Life id x reason errno s there p
          ]);
  }

  Lives-attempt :
      {report : Action Done} (failure : Option Exception)
      → Lives w report
      → Lives w (attempt report failure)
  unfolding attempt
  Lives-attempt failure t =
      Lives-catch w (Lives-bind w t (λ _. Lives-pure w failure)) (λ x. Lives-pure w _)

  Lives-close_first :
      (entries : Map ℕ Session) (reason : Bytes) (failure : Option Exception)
      → Lives w (close_first w entries reason failure)
  unfolding close_first
  Lives-close_first [] reason failure = Lives-pure w failure
  Lives-close_first ((id, x) ∷ rest) reason failure =
      Lives-attempt failure (Lives-close_session id reason 0)

  Lives-close_each :
      (fuel : ℕ) (reason : Bytes) (failure : Option Exception)
      → Lives w (close_each w fuel reason failure)
  unfolding close_each
  Lives-close_each zero reason failure = Lives-pure w failure
  Lives-close_each (suc fuel) reason failure = Lives-bind w (Lives-gets w _) (λ entries.
      Lives-bind w (Lives-close_first entries reason failure) (Lives-close_each fuel reason))

  pub Lives-close_all : (reason : Bytes) → Lives w (close_all_sessions w reason)
  unfolding close_all_sessions
  Lives-close_all reason =
      Lives-bind w (Lives-gets w _)
        (λ fuel. Lives-bind w (Lives-close_each fuel reason none) (Lives-rethrow w))
