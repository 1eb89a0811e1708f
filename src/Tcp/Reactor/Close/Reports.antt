-- ===== src/Tcp/Reactor/Close/Reports.antt =====
-- Closing a TCP session goes through to its end, whichever of its reports throw.
use mathlib.Core.Path.{◌≡◌, refl}
use l4_load_balancer_with_xd.Prelude.{
  ℕ, inl, inr, ap, ◌∙◌, Bool, true, false, Option, none, some, ◌∷◌, ◌==◌, if◌then◌else◌, length,
  nat_eq, Option-cases, Bool-cases,
}
use l4_load_balancer_with_xd.Prelude.Map.{find}
use l4_load_balancer_with_xd.Prelude.Exec.{ok, pure, throw, gets, catch, modify, ◌>>=◌}
use l4_load_balancer_with_xd.Prelude.Exec.Triple.{bind-runs}
use l4_load_balancer_with_xd.Config.Bytes.{Bytes, codes}
use l4_load_balancer_with_xd.Metrics.{StatKind}
use l4_load_balancer_with_xd.Tcp.World.{
  client, backend, Exception, Call, quiet, stat, observation, diagnostic, detach, close_fd, Log,
  World,
}
use l4_load_balancer_with_xd.Tcp.World.Call.{session}
use l4_load_balancer_with_xd.Tcp.Reactor.{
  EndpointState, Session, TcpReactor, Action, call, call_as, callback, throw_foreign, rethrow,
  report_stat_event, report_observation, detach_call, is_absent_errno,
}
use l4_load_balancer_with_xd.Tcp.Reactor.Close.{
  attempt, first_failure, unlink, close_owned_fd, release_end, attempt_detach_reports, closed_event,
  report_close, close_found, close_session,
}

abbrev pub Callback : Type 0
Callback = Option (Log → Option ℕ)

-- The event of a callback that is there.
abbrev pub logged : Callback → Call → Log → Log
logged none c log = log
logged (some f) c log = quiet c ∷ log

-- What the observer is told, with the sizes of the tables.
abbrev pub closed_observation : ℕ → ℕ → Call
closed_observation sessions tokens = observation (record {
  kind = codes "closed";
  session = 0;
  side = none;
  value = 0;
  sessions = sessions;
  tokens = tokens;
})

abbrev with_log : Log → TcpReactor → TcpReactor
with_log log s = record s { log = log }

-- An action that returns, and ends in the given state.
record Ends {A : Type 0} (m : Action A) (s t : TcpReactor) : Type 0 where
  value : A
  runs : m s ≡ (ok value, t)

-- What an action leaves behind, whether it returns or throws.
record Leaves {A : Type 0} (m : Action A) (s t : TcpReactor) : Type 0 where
  left : (m s).1 ≡ t

Leaves-after :
    {A B : Type 0} {m : Action A} {f : A → Action B} {s t u : TcpReactor}
    → Ends m s t
    → ((a : A) → Leaves (f a) t u)
    → Leaves (m >>= f) s u
Leaves-after ends rest = record {
  left = ap (λ p. p.1) (bind-runs _ _ ends.runs) ∙ (rest ends.value).left;
}

Leaves-known :
    {A B : Type 0} (m : Action A) (f : A → Action B) {s t u : TcpReactor} {a : A}
    → m s ≡ (ok a, t)
    → Leaves (f a) t u
    → Leaves (m >>= f) s u
Leaves-known m f runs rest = record { left = ap (λ p. p.1) (bind-runs m f runs) ∙ rest.left }

Leaves-rethrow : (failure : Option Exception) (s : TcpReactor) → Leaves (rethrow failure) s s
unfolding rethrow pure throw
Leaves-rethrow none s = record { left = refl }
Leaves-rethrow (some x) s = record { left = refl }

attempt-callback :
    (c : Callback) (e : Call) (failure : Option Exception) (s : TcpReactor)
    → Ends (attempt (callback c e) failure) s (with_log (logged c e s.log) s)
unfolding attempt callback call call_as pure throw gets modify catch ◌>>=◌
attempt-callback none e failure s = record { value = failure; runs = refl }
attempt-callback (some f) e failure s = elim (Option-cases (f s.log)) [
  | inl fine ↦ record { value = failure; runs = rw fine (unfold throw_foreign in refl) }
  | inr (x, thrown_x) ↦ record {
    value = first_failure failure (Exception.foreign x);
    runs = rw thrown_x (unfold throw_foreign in refl);
  }
]

module _ (w : World) where
  -- The answer of the detachment of an end, and the log after it.
  abbrev pub detach_answer : Bool → Option ℕ → Log → ℕ
  detach_answer true (some fd) log = w.epoll_ctl log
  detach_answer _ _ log = 0

  abbrev pub detached : Bool → Option ℕ → Log → Log
  detached true (some fd) log = quiet (detach fd) ∷ log
  detached _ _ log = log

  abbrev pub released : Option ℕ → Log → Log
  released none log = log
  released (some fd) log = quiet (close_fd fd) ∷ log

  -- The error that the reports of an end are about, and the log after its release.
  abbrev pub release_error : EndpointState → Log → ℕ
  release_error e log =
      let errno = detach_answer e.registered e.fd log in
      if is_absent_errno w errno then 0 else errno

  abbrev pub release_log : EndpointState → Log → Log
  release_log e log = released e.fd (detached e.registered e.fd log)

  detach_call-runs :
      (registered : Bool) (fd : Option ℕ) (s : TcpReactor)
      → detach_call w registered fd s
        ≡ (ok (detach_answer registered fd s.log), with_log (detached registered fd s.log) s)
  unfolding call call_as pure gets modify ◌>>=◌
  detach_call-runs true (some fd) s = refl
  detach_call-runs true none s = refl
  detach_call-runs false fd s = refl

  close_owned-runs :
      (fd : Option ℕ) (s : TcpReactor)
      → close_owned_fd fd s ≡ (ok tt, with_log (released fd s.log) s)
  unfolding close_owned_fd pure modify
  close_owned-runs none s = refl
  close_owned-runs (some fd) s = refl

  release_end-runs :
      (e : EndpointState) (s : TcpReactor)
      → release_end w e s ≡ (ok (release_error e s.log), with_log (release_log e s.log) s)
  unfolding release_end pure
  release_end-runs e s =
      bind-runs _ _ (detach_call-runs e.registered e.fd s)
      ∙ bind-runs _ _ (close_owned-runs e.fd (with_log (detached e.registered e.fd s.log) s))

  -- The log after the reports of an error of a detachment.
  abbrev pub detach_log : ℕ → Log → Log
  detach_log errno log =
      if errno == 0
      then log
      else logged w.diagnostic_callback (diagnostic (codes "epoll_ctl DEL") errno)
          (logged w.statistics_callback (stat StatKind.error 1) log)

  attempt_detach-Ends :
      (errno : ℕ) (failure : Option Exception) (s : TcpReactor)
      → Ends (attempt_detach_reports w errno failure) s (with_log (detach_log errno s.log) s)
  unfolding attempt_detach_reports report_stat_event pure
  attempt_detach-Ends errno failure s = elim (Bool-cases (errno == 0)) [
    | inl fine ↦ record { value = failure; runs = rw fine refl }
    | inr failed ↦
        let first = attempt-callback w.statistics_callback (stat StatKind.error 1) failure s in
        let second =
          attempt-callback w.diagnostic_callback (diagnostic (codes "epoll_ctl DEL") errno)
            first.value (with_log (logged w.statistics_callback (stat StatKind.error 1) s.log) s) in
        record { value = second.value; runs = rw failed (bind-runs _ _ first.runs ∙ second.runs) }
  ]

  -- The log after the closing of a session, the newest event first, where the tables have the given
  -- sizes.
  abbrev pub close_log : Session → Bytes → ℕ → ℕ → ℕ → Log → Log
  close_log x reason errno sessions tokens log =
      let after = release_log (x.ends client) log in
      let e0 = release_error (x.ends client) log in
      let e1 = release_error (x.ends backend) after in
      logged w.observation_callback (closed_observation sessions tokens) (
        logged w.statistics_callback (stat StatKind.closed 1) (
          logged w.session_callback (session (closed_event w x reason errno))
            (detach_log e1 (detach_log e0 (release_log (x.ends backend) after)))))

  attempt_observation-Ends :
      (failure : Option Exception) (s : TcpReactor)
      → Ends (attempt (report_observation w (codes "closed") 0 none 0) failure) s (
          with_log
            (logged w.observation_callback
              (closed_observation (length s.sessions) (length s.tokens.entries))
              s.log)
            s)
  unfolding report_observation attempt gets ◌>>=◌
  attempt_observation-Ends failure s =
      let r =
        attempt-callback w.observation_callback
          (closed_observation (length s.sessions) (length s.tokens.entries)) failure s in
      record { value = r.value; runs = r.runs }

  report_close-Leaves :
      (x : Session) (reason : Bytes) (errno : ℕ) (s : TcpReactor)
      → Leaves (report_close w x reason errno) s (
          with_log (close_log x reason errno (length s.sessions) (length s.tokens.entries) s.log) s)
  unfolding report_close report_stat_event
  report_close-Leaves x reason errno s = Leaves-known _ _ (release_end-runs (x.ends client) s) (
      Leaves-known _ _ (release_end-runs (x.ends backend) _) (
        Leaves-after (attempt_detach-Ends _ none _) (λ f0.
          Leaves-after (attempt_detach-Ends _ f0 _) (λ f1.
            Leaves-after (attempt-callback w.session_callback _ f1 _) (λ f2.
              Leaves-after (attempt-callback w.statistics_callback _ f2 _) (λ f3.
                Leaves-after (attempt_observation-Ends f3 _) (λ f4. Leaves-rethrow f4 _)))))))

  -- Closing a session takes it out of its table and its two tokens out of theirs, detaches and
  -- closes the descriptor of each end, and makes each report whose callback is there, in this order:
  -- the errors of the detachments, the end of the session with its reason and its counters, the
  -- statistics, and the observer, who sees the tables without it. No report that throws keeps a
  -- later one from being made or a descriptor open.
  pub close_session_lem :
      (id : ℕ) (x : Session) (reason : Bytes) (errno : ℕ) (s : TcpReactor)
      → find id s.sessions ≡ some x
      → let t = unlink id x s in
        (close_session w id reason errno s).1 ≡ record t {
          log = close_log x reason errno (length t.sessions) (length t.tokens.entries) s.log;
        }
  unfolding close_session
  close_session_lem id x reason errno s found =
      unfold close_found gets modify ◌>>=◌ in
      rw found ((report_close-Leaves x reason errno (unlink id x s)).left)
