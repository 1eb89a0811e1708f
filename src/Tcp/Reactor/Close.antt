-- ===== src/Tcp/Reactor/Close.antt =====
-- `closeSession` and `closeAllSessions` of src/net/TcpReactor.cpp. Every report is made, whichever
-- of them throw, and the first exception leaves at the end.
pub mod Reports
use l4_load_balancer_with_xd.Prelude.{
  ℕ, zero, suc, false, Option, none, some, [], ◌∷◌, ◌==◌, if◌then◌else◌, length, nat_eq,
}
use l4_load_balancer_with_xd.Prelude.Map.{Map, find, erase}
use l4_load_balancer_with_xd.Prelude.Exec.{pure, gets, catch, modify, ◌>>=◌, ◌>>◌}
use l4_load_balancer_with_xd.Config.Bytes.{Bytes, codes}
use l4_load_balancer_with_xd.Metrics.{StatKind}
use l4_load_balancer_with_xd.Tcp.Tokens.{unregister_endpoint}
use l4_load_balancer_with_xd.Tcp.World.{
  client, backend, Exception, SessionEvent, quiet, diagnostic, close_fd, World,
}
use l4_load_balancer_with_xd.Tcp.World.Call.{session}
use l4_load_balancer_with_xd.Tcp.Reactor.{
  EndpointState, Session, TcpReactor, Action, Done, call, callback, rethrow, record_event,
  report_stat_event, report_observation, detach_call, is_absent_errno,
}

-- `if (!firstFailure) firstFailure = std::current_exception();`
abbrev pub first_failure : Option Exception → Exception → Option Exception
first_failure none x = some x
first_failure (some y) x = some y

-- One of the `attempt…Report` functions around a report.
unfoldable pub attempt : Action Done → Option Exception → Action (Option Exception)
attempt report failure = catch (report >> pure failure) (λ x. pure (first_failure failure x))

-- The session leaves the table, and its tokens resolve no longer.
abbrev pub unlink : ℕ → Session → TcpReactor → TcpReactor
unlink id x s = record s {
  sessions = erase id s.sessions;
  tokens =
      unregister_endpoint (unregister_endpoint s.tokens (x.ends client).token)
        (x.ends backend).token;
}

-- `Fd::closeFd`
unfoldable pub close_owned_fd : Option ℕ → Action Done
close_owned_fd none = pure tt
close_owned_fd (some fd) = modify (record_event (quiet (close_fd fd)))

module _ (w : World) where
  -- A round of the loop that detaches and closes the two ends.
  unfoldable pub release_end : EndpointState → Action ℕ
  unfolding call close_owned_fd
  release_end e = do
    errno ← detach_call w e.registered e.fd
    close_owned_fd e.fd
    pure (if is_absent_errno w errno then 0 else errno)

  unfoldable pub attempt_detach_reports : ℕ → Option Exception → Action (Option Exception)
  unfolding attempt report_stat_event callback
  attempt_detach_reports errno failure = if errno == 0 then pure failure else do
    next ← attempt (report_stat_event w StatKind.error 1) failure
    attempt (callback w.diagnostic_callback (diagnostic (codes "epoll_ctl DEL") errno)) next

  abbrev pub closed_event : Session → Bytes → ℕ → SessionEvent
  closed_event x reason errno = record {
    id = x.id;
    backend = x.target;
    accepted = false;
    reason = reason;
    error = errno;
    sent = x.sent;
  }

  unfoldable pub report_close : Session → Bytes → ℕ → Action Done
  unfolding attempt callback report_stat_event report_observation rethrow attempt_detach_reports
      release_end
  report_close x reason errno = do
    e0 ← release_end (x.ends client)
    e1 ← release_end (x.ends backend)
    f0 ← attempt_detach_reports e0 none
    f1 ← attempt_detach_reports e1 f0
    f2 ← attempt (callback w.session_callback (session (closed_event x reason errno))) f1
    f3 ← attempt (report_stat_event w StatKind.closed 1) f2
    f4 ← attempt (report_observation w (codes "closed") 0 none 0) f3
    rethrow f4

  -- What follows where the session was found.
  unfoldable pub close_found : ℕ → Bytes → ℕ → Option Session → Action Done
  unfolding report_close
  close_found id reason errno none = pure tt
  close_found id reason errno (some x) = modify (unlink id x) >> report_close x reason errno

  unfoldable pub close_session : ℕ → Bytes → ℕ → Action Done
  unfolding close_found
  close_session id reason errno = do
    found ← gets (λ s. find id s.sessions)
    close_found id reason errno found

  unfoldable pub close_first : Map ℕ Session → Bytes → Option Exception → Action (Option Exception)
  unfolding attempt close_session
  close_first [] reason failure = pure failure
  close_first ((id, x) ∷ rest) reason failure = attempt (close_session id reason 0) failure

  -- The `while` loop; a round uses one unit of fuel, and the number of sessions is enough.
  unfoldable pub close_each : ℕ → Bytes → Option Exception → Action (Option Exception)
  unfolding close_first
  close_each zero reason failure = pure failure
  close_each (suc fuel) reason failure = do
    entries ← gets (λ s. s.sessions)
    next ← close_first entries reason failure
    close_each fuel reason next

  unfoldable pub close_all_sessions : Bytes → Action Done
  unfolding close_each rethrow
  close_all_sessions reason = do
    fuel ← gets (λ s. length s.sessions)
    failure ← close_each fuel reason none
    rethrow failure
