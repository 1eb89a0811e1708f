-- ===== src/Tcp/Reactor/Waits/Both.antt =====
-- `updateSessionInterests`: the event loop waits for what each end of the session needs.
use mathlib.Core.Path.{◌≡◌, refl}
use l4_load_balancer_with_xd.Prelude.{ℕ, some, [], inl, inr, ◌⊎◌, nat_eq}
use l4_load_balancer_with_xd.Prelude.Map.{find}
use l4_load_balancer_with_xd.Prelude.Exec.{ok, thrown, Outcome}
use l4_load_balancer_with_xd.Prelude.Exec.Triple.{Post, Triple-bind, Triple-weaken}
use l4_load_balancer_with_xd.Tcp.World.{Exception, Side, client, backend, World}
use l4_load_balancer_with_xd.Tcp.Reactor.{Session, TcpReactor, Done}
use l4_load_balancer_with_xd.Tcp.Reactor.Interests.{interest_mask, update_session_interests}
use l4_load_balancer_with_xd.Tcp.Reactor.Waits.{Waits, Waits-within, Refused, Then, Settled}
use l4_load_balancer_with_xd.Tcp.Reactor.Waits.End.{update_end-Settled}

-- The two ends in the table wait for what the session needed at the start.
abbrev pub Awaits : World → ℕ → TcpReactor → Session → TcpReactor → Type 0
Awaits w id s x t =
    (y : Session) × (find id t.sessions ≡ some y)
    × ((side : Side)
        → Waits w s.log t.log (x.ends side) (y.ends side) (interest_mask s.draining x side))

module _ (w : World) (id : ℕ) (s : TcpReactor) (x : Session) where
  Awaits-both :
      (t u : TcpReactor) (p : Settled w id s.log client x s.draining t)
      → Settled w id t.log backend p.now s.draining u
      → Awaits w id s x u
  Awaits-both t u p q = (q.now, q.seen.found, each)
    where
      each :
          (side : Side)
          → Waits w s.log u.log (x.ends side) (q.now.ends side) (interest_mask s.draining x side)
      each client = rw (q.other_end) (
          rw⁻¹ (p.masks client) (
            Waits-within w (x.ends client) (p.now.ends client)
              (interest_mask s.draining p.now client) ([], refl) q.seen.past p.waits))
      each backend = rw⁻¹ (p.other_end) (
          rw⁻¹ (p.masks backend) (
            rw⁻¹ (q.masks backend) (
              Waits-within w (p.now.ends backend) (q.now.ends backend)
                (interest_mask s.draining q.now backend) p.seen.past ([], refl) q.waits)))

  both-Awaits :
      Then
        (λ t. t ≡ s × (find id s.sessions ≡ some x))
        (update_session_interests w id)
        (λ _ t. Awaits w id s x t)
  unfolding update_session_interests
  both-Awaits =
      Triple-bind {M = λ _. Settled w id s.log client x s.draining}
        (record {
          at = λ t (e, found). rw e (
              (update_end-Settled w id s.log client x s.draining).at s
                (record { found = found; drains = refl; past = ([], refl) }));
        })
        (λ _. record {
          at = λ t p.
              (Triple-weaken (update_end-Settled w id t.log backend p.now s.draining) (λ t' p'. p')
                  (λ a u q. Awaits-both t u p q) (λ y u q. q)).at
                t (record { found = p.seen.found; drains = p.seen.drains; past = ([], refl) });
        })

  -- Where a session is in the table, either the update returns, or it throws what a callback throws
  -- or that the kernel refused a registration. Where it returns, the session is still there. Each
  -- of its ends either is registered with exactly the mask that the session asked for: it was
  -- before, or the kernel accepted a call with this mask, the descriptor and the token of the end,
  -- a change where the end was registered and a new registration where it was not. Or the end is
  -- not registered, the descriptor of one that was is detached, and the mask is empty or the clock
  -- showed that the end still rests.
  pub update_interests_lem :
      find id s.sessions ≡ some x
      → let (r, t) = update_session_interests w id s in
        ((r ≡ ok tt) × Awaits w id s x t) ⊎ ((y : Exception) × (r ≡ thrown y) × Refused y)
  update_interests_lem found = outcome _ (both-Awaits.at s (refl, found))
    where
      outcome :
          (p : Outcome Exception Done × TcpReactor)
          → Post (λ _ t. Awaits w id s x t) (λ y _. Refused y) p
          → ((p.0 ≡ ok tt) × Awaits w id s x p.1) ⊎ ((y : Exception) × (p.0 ≡ thrown y) × Refused y)
      outcome (ok tt, t) q = inl (refl, q)
      outcome (thrown y, t) q = inr (y, refl, q)
