-- ===== src/Tcp/Reactor/Facts/Interests.antt =====
-- `updateSessionInterests` keeps the invariant.
use mathlib.Core.Path.{refl}
use l4_load_balancer_with_xd.Prelude.{ℕ, Bool, true, false, ◌&&◌, ltb, ◌==◌, nat_eq}
use l4_load_balancer_with_xd.Prelude.Exec.Triple.{Triple-pure, Triple-throw, Triple-if}
use l4_load_balancer_with_xd.Config.Bytes.{Bytes}
use l4_load_balancer_with_xd.Tcp.World.{Side, client, backend, World}
use l4_load_balancer_with_xd.Tcp.Reactor.{
  EndpointState, with_end, fail_errno, remove_endpoint, detach_endpoint_from_epoll,
}
use l4_load_balancer_with_xd.Tcp.Reactor.Interests.{
  interest_mask, set_end_interest, update_end_interest, update_session_interests,
}
use l4_load_balancer_with_xd.Tcp.Reactor.Facts.{Facts, On}
use l4_load_balancer_with_xd.Tcp.Reactor.Facts.Rules.{
  IsSteady, Runs, Runs-keeps, Runs-then, Runs-gets, Runs-after, Runs-modify, Keeps-call, Keeps-when,
  Keeps-time, Keeps-observation, Keeps-detach_call, Keeps-detach_error,
}
use l4_load_balancer_with_xd.Tcp.Reactor.Facts.Close.{Facts-IsSteady}
use l4_load_balancer_with_xd.Tcp.Reactor.Facts.Sessions.{
  change-On, IsHarmless, with_end-IsHarmless, Runs-read,
}

pub v : IsSteady (On Facts)
v = Facts-IsSteady

interest-IsHarmless :
    (side : Side) (registered : Bool) (mask : ℕ)
    → IsHarmless (with_end side (λ e. record e { registered = registered; interest = mask }))
interest-IsHarmless side registered mask =
    with_end-IsHarmless side (λ e. record e { registered = registered; interest = mask })
      (λ e. refl) (λ e p. p) (λ e. refl)

module _ (w : World) where
  pub fail_errno-On :
      (operation : Bytes) (errno : ℕ)
      → Runs w (On Facts) (fail_errno operation errno) (λ _. On Facts)
  unfolding fail_errno
  fail_errno-On operation errno =
      Triple-if (errno == 0) (λ _. Triple-pure tt (λ s p. p)) (λ _. Triple-throw _ (λ s p. p))

  module _ (id : ℕ) where
    detach_endpoint-On :
        (side : Side) → Runs w (On Facts) (detach_endpoint_from_epoll w id side) (λ _. On Facts)
    unfolding detach_endpoint_from_epoll
    detach_endpoint-On side = Runs-read w id (λ x.
        Runs-after w v (Keeps-detach_call v.calm w (x.ends side).registered (x.ends side).fd)
          (λ errno.
            Runs-modify w _ (change-On id (interest-IsHarmless side false 0))
              (Triple-pure _ (λ s p. p))))

    pub remove_endpoint-On :
        (side : Side) → Runs w (On Facts) (remove_endpoint w id side) (λ _. On Facts)
    unfolding remove_endpoint
    remove_endpoint-On side =
        Runs-then w (detach_endpoint-On side)
          (λ errno. Runs-keeps w v (Keeps-detach_error v.calm w errno))

    set_end_interest-On :
        (side : Side) (e : EndpointState) (mask : ℕ)
        → Runs w (On Facts) (set_end_interest w id side e mask) (λ _. On Facts)
    unfolding set_end_interest
    set_end_interest-On side e mask =
        Triple-if (e.registered && e.interest == mask) (λ _. Triple-pure tt (λ s p. p))
          (λ _. Runs-after w v (Keeps-call v.calm _ _) (λ errno.
            Runs-then w (fail_errno-On _ errno) (λ _.
              Runs-modify w _ (change-On id (interest-IsHarmless side true mask))
                (Runs-keeps w v (Keeps-observation v.calm w _ _ _ _)))))

    update_end-On :
        (side : Side) → Runs w (On Facts) (update_end_interest w id side) (λ _. On Facts)
    unfolding update_end_interest
    update_end-On side = Runs-read w id (λ x. Runs-after w v (Keeps-time v.calm w) (λ time.
        Triple-if (ltb time (x.ends side).deferred) (λ _. remove_endpoint-On side)
          (λ _. Runs-gets w _ (λ draining.
            Runs-after w v (Keeps-when v.calm _ (Keeps-observation v.calm w _ _ _ _)) (λ _.
              Triple-if (interest_mask draining x side == 0) (λ _. remove_endpoint-On side)
                (λ _. set_end_interest-On side (x.ends side) _))))))

    pub update_interests-On : Runs w (On Facts) (update_session_interests w id) (λ _. On Facts)
    unfolding update_session_interests
    update_interests-On = Runs-then w (update_end-On client) (λ _. update_end-On backend)
