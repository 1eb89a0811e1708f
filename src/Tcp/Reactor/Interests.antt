-- ===== src/Tcp/Reactor/Interests.antt =====
-- `updateSessionInterests` of src/net/TcpReactor.cpp: which events of a session's two sockets the
-- event loop waits for.
use l4_load_balancer_with_xd.Prelude.{
  ℕ, ◌+◌, Bool, true, not, ◌&&◌, some, ltb, ◌==◌, if◌then◌else◌, nat_eq,
}
use l4_load_balancer_with_xd.Prelude.Exec.{pure, gets, modify, ◌>>=◌, ◌>>◌, when}
use l4_load_balancer_with_xd.Config.Bytes.{codes}
use l4_load_balancer_with_xd.Tcp.World.{Side, client, backend, set_interest, World}
use l4_load_balancer_with_xd.Tcp.Reactor.{
  EndpointState, Session, Action, Done, other, with_end, call, session_at, change, fail_errno,
  current_time, report_observation, remove_endpoint,
}
use l4_load_balancer_with_xd.Tcp.Reactor.Transfer.{fd_of}

abbrev pub epollin : ℕ
epollin = 1

abbrev pub epollout : ℕ
epollout = 4

abbrev pub epollerr : ℕ
epollerr = 8

abbrev pub epollhup : ℕ
epollhup = 16

abbrev pub epollrdhup : ℕ
epollrdhup = 0x2000

abbrev pub has_pending : Session → Side → Bool
has_pending x side = not ((x.pending (other side)).size == 0)

abbrev pub connecting_mask : Side → ℕ
connecting_mask client = epollrdhup
connecting_mask backend = epollout

-- The mask of one end; the flags are distinct bits, so that their sum is their union.
unfoldable pub interest_mask : Bool → Session → Side → ℕ
interest_mask draining x side =
    let out = if has_pending x side then epollout else 0 in
    let read =
      if not (x.ends side).eof && not (x.ends side).paused then epollin + epollrdhup else 0 in
    if draining then out else if x.connecting then connecting_mask side else read + out

module _ (w : World) where
  -- `epoll_ctl` with `EPOLL_CTL_MOD` or `EPOLL_CTL_ADD`, where the mask changed.
  unfoldable pub set_end_interest : ℕ → Side → EndpointState → ℕ → Action Done
  unfolding call fail_errno report_observation
  set_end_interest id side e mask = if e.registered && e.interest == mask then pure tt else do
    errno ← call (set_interest e.registered (fd_of w e.fd) e.token mask) w.epoll_ctl
    fail_errno (codes "epoll_ctl session") errno
    modify (change id (with_end side (λ e. record e { registered = true; interest = mask })))
    report_observation w (codes "interest") id (some side) mask

  unfoldable pub update_end_interest : ℕ → Side → Action Done
  unfolding session_at current_time remove_endpoint interest_mask report_observation
      set_end_interest
  update_end_interest id side = do
    x ← session_at id
    time ← current_time w
    if ltb time (x.ends side).deferred then remove_endpoint w id side else do
      draining ← gets (λ s. s.draining)
      let mask = interest_mask draining x side
      when (x.ends side).paused (report_observation w (codes "read-suspended") id (some side) mask)
      if mask == 0 then remove_endpoint w id side else set_end_interest id side (x.ends side) mask

  unfoldable pub update_session_interests : ℕ → Action Done
  unfolding update_end_interest
  update_session_interests id = do update_end_interest id client; update_end_interest id backend
