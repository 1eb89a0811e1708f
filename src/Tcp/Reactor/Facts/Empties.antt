-- ===== src/Tcp/Reactor/Facts/Empties.antt =====
-- `closeAllSessions` closes every session, whichever reports throw.
use mathlib.Core.Path.{◌≡◌, refl}
use l4_load_balancer_with_xd.Prelude.{
  ℕ, zero, suc, ◌≤◌, Option, none, some, [], ◌∷◌, arith, length, sym, ap, ◌∙◌, nat_eq,
}
use l4_load_balancer_with_xd.Prelude.Map.{Map, find, erase, erase-none, length-erase-lt, beq_self}
use l4_load_balancer_with_xd.Prelude.Exec.{◌>>=◌}
use l4_load_balancer_with_xd.Prelude.Exec.Triple.{
  Triple, Triple-pure, Triple-gets, Triple-catch, Triple-modify, Triple-bind, Triple-assume,
}
use l4_load_balancer_with_xd.Config.Bytes.{Bytes}
use l4_load_balancer_with_xd.Tcp.World.{Exception, World}
use l4_load_balancer_with_xd.Tcp.Reactor.{Session, TcpReactor, Action, Done}
use l4_load_balancer_with_xd.Tcp.Reactor.Close.{
  attempt, close_found, close_session, close_first, close_each, close_all_sessions,
}
use l4_load_balancer_with_xd.Tcp.Reactor.Facts.{On, Ordered}
use l4_load_balancer_with_xd.Tcp.Reactor.Facts.Rules.{FromCallback, IsSteady, On-IsSteady}
use l4_load_balancer_with_xd.Tcp.Reactor.Facts.Close.{
  Collected, Collected-first, rethrow-Keeps, report_close-Keeps,
}

-- The sessions are just these.
abbrev pub Has : Map ℕ Session → TcpReactor → Type 0
Has m s = On Ordered s × (s.sessions ≡ m)

Ordered-IsSteady : IsSteady (On Ordered)
Ordered-IsSteady = On-IsSteady {T = Ordered} (λ next tokens sessions t p. p)

Has-IsSteady : (m : Map ℕ Session) → IsSteady (Has m)
Has-IsSteady m = record { calm = λ c s p. p; weak = λ s p. p.0 }

abbrev Leaving : Map ℕ Session → Exception → TcpReactor → Type 0
Leaving m x s = FromCallback x × Has m s

nil_of_length : (m : Map ℕ Session) → length m ≤ 0 → m ≡ []
nil_of_length [] h = refl
nil_of_length (p ∷ m) h = absurd (omega arith)

module _ (w : World) (reason : Bytes) where
  close_found-Has :
      (id errno : ℕ) (m : Map ℕ Session) (found : Option Session)
      → find id m ≡ found
      → Triple
          (Has m)
          (close_found w id reason errno found)
          (λ _. Has (erase id m))
          (Leaving (erase id m))
  unfolding close_found
  close_found-Has id errno m none e = Triple-pure tt (λ s (p, h). (p, h ∙ sym (erase-none id m e)))
  close_found-Has id errno m (some x) e =
      Triple-bind {M = λ _. Has (erase id m)}
        (Triple-modify _ (λ s (p, h). (p, ap (λ sessions. erase id sessions) h)))
        (λ _. report_close-Keeps (Has-IsSteady (erase id m)) w x reason errno)

  -- Closing erases the session, also where it throws.
  close_session-Has :
      (id errno : ℕ) (m : Map ℕ Session)
      → Triple
          (Has m)
          (close_session w id reason errno)
          (λ _. Has (erase id m))
          (Leaving (erase id m))
  unfolding close_session
  close_session-Has id errno m =
      Triple-bind {M = λ found s. Has m s × (find id m ≡ found)}
        (Triple-gets _ (λ s (p, h). ((p, h), ap (λ sessions. find id sessions) (sym h))))
        (λ found. Triple-assume (close_found-Has id errno m found))

  attempt-Has :
      {E : Exception → TcpReactor → Type 0} {m m' : Map ℕ Session} {report : Action Done}
      (failure : Option Exception)
      → Collected failure
      → Triple (Has m) report (λ _. Has m') (Leaving m')
      → Triple (Has m) (attempt report failure) (λ f s. Has m' s × Collected f) E
  unfolding attempt
  attempt-Has {m'} failure c t =
      Triple-catch {E' = Leaving m'}
        (Triple-bind {M = λ _. Has m'} t (λ _. Triple-pure failure (λ s p. (p, c))))
        (λ x. Triple-pure _ (λ s (h, p). (p, Collected-first failure x c h)))

  abbrev pub IsEmpty : TcpReactor → Type 0
  IsEmpty = Has []

  abbrev Emptied : Option Exception → TcpReactor → Type 0
  Emptied failure s = IsEmpty s × Collected failure

  close_rest :
      (fuel : ℕ) (entries : Map ℕ Session) (failure : Option Exception)
      → length entries ≤ suc fuel
      → Collected failure
      → ((m : Map ℕ Session) (failure : Option Exception)
          → length m ≤ fuel
          → Collected failure
          → Triple (Has m) (close_each w fuel reason failure) Emptied (Leaving []))
      → Triple
          (Has entries)
          (close_first w entries reason failure >>= close_each w fuel reason)
          Emptied
          (Leaving [])
  unfolding close_first
  close_rest fuel [] failure enough c loop =
      Triple-bind {M = λ f s. Has [] s × Collected f} (Triple-pure failure (λ s p. (p, c)))
        (λ next. Triple-assume (loop [] next (omega arith)))
  close_rest fuel ((id, x) ∷ rest) failure enough c loop =
      let entries : Map ℕ Session = (id, x) ∷ rest in
      Triple-bind {M = λ f s. Has (erase id entries) s × Collected f}
        (attempt-Has failure c (close_session-Has id 0 entries))
        (λ next. Triple-assume (
          loop (erase id entries) next
            (omega (arith, length-erase-lt id x entries (first_found id x rest)))))
    where
      first_found :
          (id : ℕ) (x : Session) (rest : Map ℕ Session) → find id ((id, x) ∷ rest) ≡ some x
      first_found id x rest = unfold find in rw (beq_self id)

  close_each-Has :
      (fuel : ℕ) (m : Map ℕ Session) (failure : Option Exception)
      → length m ≤ fuel
      → Collected failure
      → Triple (Has m) (close_each w fuel reason failure) Emptied (Leaving [])
  unfolding close_each
  close_each-Has zero m failure enough c =
      Triple-pure failure (λ s (p, h). ((p, h ∙ nil_of_length m enough), c))
  close_each-Has (suc fuel) m failure enough c =
      Triple-bind {M = λ entries s. Has entries s × (length entries ≤ suc fuel)}
        (Triple-gets _ (λ s (p, h). ((p, refl), rw h enough)))
        (λ entries.
          Triple-assume (λ fits. close_rest fuel entries failure fits c (close_each-Has fuel)))

  pub close_all-Has : Triple (On Ordered) (close_all_sessions w reason) (λ _. IsEmpty) (Leaving [])
  unfolding close_all_sessions
  close_all-Has =
      Triple-bind {M = λ fuel s. On Ordered s × (length s.sessions ≤ fuel)}
        (Triple-gets _ (λ s p. (p, omega arith)))
        (λ fuel.
          Triple-bind {M = Emptied}
            (record {
              at = λ s (p, fits). (close_each-Has fuel s.sessions none fits tt).at s (p, refl);
            })
            (rethrow-Keeps (Has-IsSteady [])))
