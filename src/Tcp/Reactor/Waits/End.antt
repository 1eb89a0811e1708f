-- ===== src/Tcp/Reactor/Waits/End.antt =====
-- `updateSessionInterests` at one end: it is registered for its mask, or for nothing.
use mathlib.Core.Path.{◌≡◌, refl}
use l4_load_balancer_with_xd.Prelude.{
  ◌≢◌, ℕ, ◌<◌, Bool, true, false, ◌&&◌, Option, none, some, [], ◌∷◌, ltb, ◌==◌, arith, inl, inr,
  ◌⊎◌, nat_eq,
}
use l4_load_balancer_with_xd.Prelude.Map.{find, find-update_self}
use l4_load_balancer_with_xd.Prelude.Exec.{pure, gets, modify, ◌>>=◌}
use l4_load_balancer_with_xd.Prelude.Exec.Triple.{
  Triple-pure, Triple-throw, Triple-if, Triple-modify, Triple-bind, Triple-weaken, Triple-gets,
  Triple-assume,
}
use l4_load_balancer_with_xd.Config.Bytes.{codes}
use l4_load_balancer_with_xd.Tcp.World.{Side, quiet, read_clock, set_interest, detach, Log, World}
use l4_load_balancer_with_xd.Tcp.Reactor.{
  EndpointState, Session, TcpReactor, Action, with_end, change, record_event, call, call_as,
  session_at, found_or_throw, fail_errno, current_time, remove_endpoint, detach_endpoint_from_epoll,
  detach_call,
}
use l4_load_balancer_with_xd.Tcp.Reactor.Transfer.{fd_of}
use l4_load_balancer_with_xd.Tcp.Reactor.Interests.{
  interest_mask, set_end_interest, update_end_interest,
}
use l4_load_balancer_with_xd.Tcp.Reactor.Facts.Rules.{
  IsCalm, Keeps-when, Keeps-observation, Keeps-detach_error,
}
use l4_load_balancer_with_xd.Tcp.Reactor.Waits.{
  IsPast, IsPast-extend, Between, Rests, Asked, Dropped, Waits, register, mask-register,
  other_end-register, this_end-register, Then, Then-keeps, Seen, Seen-IsCalm, Settled,
  Settled-IsCalm,
}

module _ (w : World) (id : ℕ) (start : Log) where
  module _ {A : Type 0} {Q : A → TcpReactor → Type 0} (x : Session) (b : Bool) where
    -- What is read is the session, and the draining.
    read_session :
        {P : TcpReactor → Type 0} (f : Session → Action A)
        → ((s : TcpReactor) → P s → find id s.sessions ≡ some x)
        → Then P (f x) Q
        → Then P (session_at id >>= f) Q
    unfolding session_at found_or_throw pure gets ◌>>=◌
    read_session f h t = record { at = λ s p. let e = h s p in rw e (t.at s p) }

    read_draining :
        {P : TcpReactor → Type 0} (f : Bool → Action A)
        → ((s : TcpReactor) → P s → s.draining ≡ b)
        → Then P (f b) Q
        → Then P (gets (λ s. s.draining) >>= f) Q
    read_draining {P} f h t =
        Triple-bind {M = λ d s. P s × (d ≡ b)} (Triple-gets _ (λ s p. (p, h s p)))
          (λ d. Triple-assume (λ e. rw e t))

    read_time :
        (f : ℕ → Action A)
        → ((log : Log)
            → IsPast start log
            → Then
                (λ s. Seen w id start x b s × IsPast (quiet read_clock ∷ log) s.log)
                (f (w.now log))
                Q)
        → Then (Seen w id start x b) (current_time w >>= f) Q
    unfolding current_time call call_as pure gets modify ◌>>=◌
    read_time f h = record {
      at = λ s p.
          (h s.log p.past).at (record_event (quiet read_clock) s)
            (Seen-IsCalm w id start x b read_clock s p, ([], refl));
    }

  module _ (side : Side) (x : Session) (b : Bool) where
    -- The end is registered for a mask, or for nothing.
    change-Settled :
        (registered : Bool) (mask : ℕ) (s : TcpReactor)
        → Seen w id start x b s
        → Waits w start s.log
            (x.ends side)
            (record (x.ends side) { registered = registered; interest = mask })
            (interest_mask b x side)
        → Settled w id start side x b (
            change id
              (with_end side (λ e. record e { registered = registered; interest = mask }))
              s)
    change-Settled registered mask s p waits =
        let this = this_end-register side registered mask x in
        let same = mask-register b side registered mask x side in
        record {
          now = register side registered mask x;
          seen = record {
            found = find-update_self id (register side registered mask) s.sessions x p.found;
            drains = p.drains;
            past = p.past;
          };
          masks = mask-register b side registered mask x;
          other_end = other_end-register side registered mask x;
          waits = rw this (rw same waits);
        }

    abbrev AtReading : Log → TcpReactor → Type 0
    AtReading log s = Seen w id start x b s × IsPast (quiet read_clock ∷ log) s.log

    AtReading-IsCalm : (log : Log) → IsCalm (AtReading log)
    AtReading-IsCalm log c s (p, q) = (Seen-IsCalm w id start x b c s p, IsPast-extend (quiet c) q)

    module _ (log : Log) (since : IsPast start log) where
      detach-Dropped :
          (registered : Bool) (fd : Option ℕ)
          → Then (AtReading log) (detach_call w registered fd) (λ _ s.
            AtReading log s
            × ((n : ℕ)
                → registered ≡ true
                → fd ≡ some n
                → Between start s.log (detach n) (λ _. Unit {0})))
      unfolding call call_as pure gets modify ◌>>=◌
      detach-Dropped true (some fd) = record {
        at = λ s p. (
          AtReading-IsCalm log (detach fd) s p,
          λ n _ e. let same : fd ≡ n = cc in rw⁻¹ same (s.log, p.0.past, ([], refl), tt),
        );
      }
      detach-Dropped true none = Triple-pure 0 (λ s p. (p, λ n _ e. absurd (cc)))
      detach-Dropped false fd = Triple-pure 0 (λ s p. (p, λ n e _. absurd (cc)))

      remove-Settled :
          (interest_mask b x side ≡ 0) ⊎ (w.now log < (x.ends side).deferred)
          → Then (AtReading log) (remove_endpoint w id side) (λ _. Settled w id start side x b)
      unfolding remove_endpoint detach_endpoint_from_epoll
      remove-Settled reason =
          Triple-bind {M = λ _. Settled w id start side x b}
            (read_session x b _ (λ s p. p.0.found)
              (Triple-bind {M = λ _ s. AtReading log s × Dropped start s.log (x.ends side)}
                (detach-Dropped _ _)
                (λ errno.
                  Triple-bind {M = λ _. Settled w id start side x b}
                    (Triple-modify _ (λ s ((p, read), dropped).
                      change-Settled false 0 s p (inr (refl, dropped, because s reason read))))
                    (λ _. Triple-pure _ (λ s p. p)))))
            (λ errno. Then-keeps (Keeps-detach_error (Settled-IsCalm w id start side x b) w errno))
        where
          because :
              (s : TcpReactor)
              → (interest_mask b x side ≡ 0) ⊎ (w.now log < (x.ends side).deferred)
              → IsPast (quiet read_clock ∷ log) s.log
              → (interest_mask b x side ≡ 0)
                ⊎ Rests w start s.log (record (x.ends side) { registered = false; interest = 0 })
          because s (inl empty) read = inl empty
          because s (inr rests) read = inr (log, since, read, rests)

    abbrev AskedFor : ℕ → TcpReactor → Type 0
    AskedFor mask s = Seen w id start x b s × Asked w start s.log (x.ends side) mask

    set_call :
        (mask : ℕ)
        → Then
            (Seen w id start x b)
            (call
              (set_interest
                (x.ends side).registered
                (fd_of w (x.ends side).fd)
                (x.ends side).token
                mask)
              w.epoll_ctl)
            (λ errno s.
              Seen w id start x b s × (errno ≡ 0 → Asked w start s.log (x.ends side) mask))
    unfolding call call_as pure gets modify ◌>>=◌
    set_call mask = record {
      at = λ s p. (Seen-IsCalm w id start x b _ s p, λ e. (s.log, p.past, ([], refl), e));
    }

    fail_errno-Then :
        (mask errno : ℕ)
        → Then
            (λ s. Seen w id start x b s × (errno ≡ 0 → Asked w start s.log (x.ends side) mask))
            (fail_errno (codes "epoll_ctl session") errno)
            (λ _. AskedFor mask)
    unfolding fail_errno
    fail_errno-Then mask errno =
        Triple-if (errno == 0) (λ h. Triple-pure tt (λ s (p, asked). (p, asked (ground arith))))
          (λ h. Triple-throw _ (λ s p. inr (errno, refl, λ e. ground arith)))

    registered_already :
        (e : EndpointState) (mask : ℕ)
        → (e.registered && e.interest == mask) ≡ true
        → (e.registered ≡ true) × (e.interest ≡ mask)
    registered_already e mask h = ground arith

    set_end-Settled :
        interest_mask b x side ≢ 0
        → Then
            (Seen w id start x b)
            (set_end_interest w id side (x.ends side) (interest_mask b x side))
            (λ _. Settled w id start side x b)
    unfolding set_end_interest
    set_end-Settled nonzero =
        Triple-if ((x.ends side).registered && (x.ends side).interest == interest_mask b x side)
          (λ h. Triple-pure tt (λ s p.
            let (r, i) = registered_already (x.ends side) _ h in
            record {
              now = x;
              seen = p;
              masks = λ i. refl;
              other_end = refl;
              waits = inl (r, i, nonzero, inl (r, i));
            }))
          (λ _.
            Triple-bind
              {M = λ errno s.
                Seen w id start x b s
                × (errno ≡ 0 → Asked w start s.log (x.ends side) (interest_mask b x side))}
              (set_call _)
              (λ errno. Triple-bind {M = λ _. AskedFor _} (fail_errno-Then _ errno) (λ _.
                Triple-bind {M = λ _. Settled w id start side x b}
                  (Triple-modify _ (λ s (p, asked).
                    change-Settled true _ s p (inl (refl, refl, nonzero, inr asked))))
                  (λ _.
                    Then-keeps
                      (Keeps-observation (Settled-IsCalm w id start side x b) w _ _ _ _)))))

    pub update_end-Settled :
        Then
          (Seen w id start x b)
          (update_end_interest w id side)
          (λ _. Settled w id start side x b)
    unfolding update_end_interest
    update_end-Settled =
        read_session x b _ (λ s p. p.found)
          (read_time x b _ (λ log since.
            Triple-if (ltb (w.now log) (x.ends side).deferred)
              (λ h. remove-Settled log since (inr (ground arith)))
              (λ _.
                read_draining x b _ (λ s p. p.0.drains)
                  (Triple-bind {M = λ _. AtReading log}
                    (Then-keeps (
                      Keeps-when (AtReading-IsCalm log) _
                        (Keeps-observation (AtReading-IsCalm log) w _ _ _ _)))
                    (λ _.
                      Triple-if (interest_mask b x side == 0)
                        (λ h. remove-Settled log since (inl (ground arith)))
                        (λ h.
                          Triple-weaken (set_end-Settled (λ e. ground arith)) (λ s p. p.0)
                            (λ a s p. p) (λ e s p. p)))))))
