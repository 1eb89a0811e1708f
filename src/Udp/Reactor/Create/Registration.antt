-- ===== src/Udp/Reactor/Create/Registration.antt =====
-- `registerFlowIndexesAndSocket` is a transaction on the two tables.
use mathlib.Core.Path.{◌≡◌, refl}
use l4_load_balancer_with_xd.Prelude.{
  ℕ, ◌≢◌, ◌⊎◌, inl, inr, ap, ◌∙◌, Bool, true, false, ◌||◌, Option, none, some, ◌==◌, nat_eq,
}
use l4_load_balancer_with_xd.Prelude.Map.{
  Map, find, erase, emplace, erase-none, erase-emplace, find-emplace_self,
}
use l4_load_balancer_with_xd.Prelude.Exec.{Outcome, ok, thrown, pure, ◌>>◌}
use l4_load_balancer_with_xd.Prelude.Exec.Triple.{
  Post, Triple, Triple-pure, Triple-throw, Triple-gets, Triple-if, Triple-weaken, Triple-catch,
  Triple-modify, Triple-bind,
}
use l4_load_balancer_with_xd.Config.Bytes.{codes}
use l4_load_balancer_with_xd.Udp.Flow.{UdpFlowKey, UdpFlow, key_instance, ebadf, einval}
use l4_load_balancer_with_xd.Udp.World.{
  Exception, bad_alloc, overflow_error, out_of_range, system_error, foreign, World,
}
use l4_load_balancer_with_xd.Udp.Reactor.{
  UdpReactor, Action, found_or_throw, flow_at, raise_errno, register_flow_socket,
}
use l4_load_balancer_with_xd.Udp.Reactor.Keeps.{
  Tables, On, Keeps, keeps_rules, Keeps-pure, Keeps-throw, Keeps-catch, Keeps-returns, Keeps-bind,
  Keeps-report_stat_event, Keeps-report_diagnostic,
}
use l4_load_balancer_with_xd.Udp.Reactor.Close.Keeps.{Keeps-drop_fd}
use l4_load_balancer_with_xd.Udp.Reactor.Create.{
  scoped, erase_flow, report_setup_drop, setup_drop, catch_registration, attach_flow,
  insert_and_attach, index_and_insert, register_flow_indexes_and_socket,
}

module _ (T : Tables) where
  pub Keeps-scoped : {A : Type 0} (fd : ℕ) {m : Action A} → Keeps T m → Keeps T (scoped fd m)
  unfolding scoped
  Keeps-scoped fd t =
      Keeps-bind T (Keeps-catch T t (λ x. Keeps-bind T (Keeps-drop_fd T fd) (λ _. Keeps-throw T x)))
        (λ a. Keeps-bind T (Keeps-drop_fd T fd) (λ _. Keeps-pure T a))

  module _ (w : World) where
    pub Keeps-report_setup_drop : (errno : ℕ) → Keeps T (report_setup_drop w errno)
    unfolding report_setup_drop
    Keeps-report_setup_drop errno =
        Keeps-bind T (Keeps-report_stat_event T w _ _) (λ _. Keeps-report_diagnostic T w _ errno)

    pub Keeps-setup_drop : (errno : ℕ) → Keeps T (setup_drop w errno)
    unfolding setup_drop
    Keeps-setup_drop errno = search keeps_rules

abbrev IsSystemError : Exception → Type 0
IsSystemError (system_error operation errno) = Unit {0}
IsSystemError _ = ⊥

-- The tables before the transaction, which know neither the key nor the token.
module _ (w : World) (key : UdpFlowKey) (token : ℕ) (flow : UdpFlow) (n : ℕ)
    (tokens : Map UdpFlowKey ℕ) (flows : Map ℕ UdpFlow) (new_key : find key tokens ≡ none)
    (new_token : find token flows ≡ none) where
  abbrev pub Same : Tables
  Same n' tokens' flows' = (n' ≡ n) × (tokens' ≡ tokens) × (flows' ≡ flows)

  abbrev Half : Tables
  Half n' tokens' flows' = (n' ≡ n) × (tokens' ≡ emplace key token tokens) × (flows' ≡ flows)

  abbrev Late : Tables
  Late n' tokens' flows' = (n' ≡ n) × (tokens' ≡ tokens) × (flows' ≡ emplace token flow flows)

  abbrev pub Full : Tables
  Full n' tokens' flows' =
      (n' ≡ n) × (tokens' ≡ emplace key token tokens) × (flows' ≡ emplace token flow flows)

  abbrev pub Settled : Bool → UdpReactor → Type 0
  Settled true = On Full
  Settled false = On Same

  unerase-flow : (s : UdpReactor) → On Same s → On Same (erase_flow token s)
  unerase-flow s (en, et, ef) = (en, et, ap (erase token) ef ∙ erase-none token flows new_token)

  attach_flow-Full :
      Triple
        (On Full)
        (attach_flow w key token flow)
        (λ registered s. On Full s × (registered ≡ true))
        (λ x s. IsSystemError x × On Full s)
  unfolding attach_flow flow_at register_flow_socket
  attach_flow-Full =
      Triple-bind {M = λ _. On Full}
        (Triple-bind {M = λ found s. On Full s × (found ≡ some flow)}
          (Triple-gets _ (λ s (en, et, ef).
            ((en, et, ef), ap (find token) ef ∙ find-emplace_self token flow flows new_token)))
          found-Full)
        (λ inserted.
          Triple-bind {M = λ _. On Full}
            (Triple-bind {M = λ _. On Full} (Keeps-returns Full _ _) raise-Full)
            (λ _. Triple-pure true (λ s p. (p, refl))))
    where
      found-Full :
          (found : Option UdpFlow)
          → Triple
              (λ s. On Full s × (found ≡ some flow))
              (found_or_throw found)
              (λ _. On Full)
              (λ x s. IsSystemError x × On Full s)
      found-Full none = record { at = λ s (p, e). absurd (cc) }
      found-Full (some f) = unfold found_or_throw in Triple-pure f (λ s (p, e). p)

      raise-Full :
          (errno : ℕ)
          → Triple
              (On Full)
              (raise_errno w (codes "UDP epoll add") errno)
              (λ _. On Full)
              (λ x s. IsSystemError x × On Full s)
      raise-Full errno =
          unfold raise_errno in
          Triple-if (errno == 0) (λ _. Triple-pure tt (λ s p. p))
            (λ _. Triple-throw _ (λ s p. (tt, p)))

  -- The handler takes both entries back.
  catch_registration-Same :
      (x : Exception)
      → Triple
          (λ s. IsSystemError x × On Full s)
          (catch_registration w key token flow x)
          Settled
          (λ _. On Same)
  unfolding catch_registration
  catch_registration-Same (system_error operation errno) =
      Triple-bind {M = λ _. On Late}
        (Triple-modify _ (λ s (_, (en, et, ef)).
          (en, ap (erase key) et ∙ erase-emplace key token tokens new_key, ef)))
        (λ _.
          Triple-bind {M = λ _. On Same}
            (Triple-modify _ (λ s (en, et, ef).
              (en, et, ap (erase token) ef ∙ erase-emplace token flow flows new_token)))
            (λ _. Triple-bind {M = λ _. On Same} (Keeps-drop_fd Same flow.fd) (λ _.
              Triple-if (errno == ebadf || errno == einval) (λ _. Triple-throw _ (λ s p. p))
                (λ _.
                  Triple-bind {M = λ _. On Same} (Keeps-report_setup_drop Same w errno)
                    (λ _. Triple-pure false (λ s p. p))))))
  catch_registration-Same bad_alloc = record { at = λ s p. elim p.0 [ ] }
  catch_registration-Same overflow_error = record { at = λ s p. elim p.0 [ ] }
  catch_registration-Same out_of_range = record { at = λ s p. elim p.0 [ ] }
  catch_registration-Same (foreign x) = record { at = λ s p. elim p.0 [ ] }

  -- Giving up without memory.
  give_up-Same :
      (errno : ℕ)
      → Triple
          (On Same)
          (scoped flow.fd (report_setup_drop w errno) >> pure false)
          Settled
          (λ _. On Same)
  give_up-Same errno =
      Triple-bind {M = λ _. On Same}
        (Keeps-scoped Same flow.fd (Keeps-report_setup_drop Same w errno))
        (λ _. Triple-pure false (λ s p. p))

  insert_and_attach-Settled :
      (allocated : Bool)
      → Triple (On Half) (insert_and_attach w key token flow allocated) Settled (λ _. On Same)
  unfolding insert_and_attach
  insert_and_attach-Settled false =
      Triple-bind {M = λ _. On Same}
        (Triple-modify _
          (λ s (en, et, ef). (en, ap (erase key) et ∙ erase-emplace key token tokens new_key, ef)))
        (λ _. Triple-bind {M = λ _. On Same} (Triple-modify _ unerase-flow) (λ _. give_up-Same _))
  insert_and_attach-Settled true =
      Triple-bind {M = λ _. On Full}
        (Triple-modify _ (λ s (en, et, ef). (en, et, ap (emplace token flow) ef)))
        (λ _.
          Triple-catch (Triple-weaken attach_flow-Full (λ s p. p) settled (λ x s p. p))
            catch_registration-Same)
    where
      settled : (b : Bool) (s : UdpReactor) → On Full s × (b ≡ true) → Settled b s
      settled true s (p, e) = p
      settled false s (p, e) = absurd (cc)

  index_and_insert-Settled :
      (allocated : Bool)
      → Triple (On Same) (index_and_insert w key token flow allocated) Settled (λ _. On Same)
  unfolding index_and_insert
  index_and_insert-Settled false =
      Triple-bind {M = λ _. On Same} (Triple-modify _ unerase-flow) (λ _. give_up-Same _)
  index_and_insert-Settled true =
      Triple-bind {M = λ _. On Half}
        (Triple-modify _ (λ s (en, et, ef). (en, ap (emplace key token) et, ef)))
        (λ _. Triple-bind {M = λ _. On Half} (Keeps-returns Half _ _) insert_and_attach-Settled)

  pub register-Settled :
      Triple (On Same) (register_flow_indexes_and_socket w key token flow) Settled (λ _. On Same)
  unfolding register_flow_indexes_and_socket
  register-Settled =
      Triple-bind {M = λ _. On Same} (Keeps-returns Same _ _) index_and_insert-Settled

-- For a key and a token that are not in the tables, the registration returns true with both in
-- them; or it returns false or throws, whichever allocation, system call or report failed, and both
-- tables are what they were.
pub register_flow_lem :
    (w : World) (key : UdpFlowKey) (token : ℕ) (flow : UdpFlow) (s : UdpReactor)
    → find key s.flow_tokens_by_key ≡ none
    → find token s.flows ≡ none
    → let (r, t) = register_flow_indexes_and_socket w key token flow s in
      ((r ≡ ok true)
        × (t.flow_tokens_by_key ≡ emplace key token s.flow_tokens_by_key)
        × (t.flows ≡ emplace token flow s.flows))
      ⊎ ((r ≢ ok true) × (t.flow_tokens_by_key ≡ s.flow_tokens_by_key) × (t.flows ≡ s.flows))
register_flow_lem w key token flow s new_key new_token =
    go (register_flow_indexes_and_socket w key token flow s)
      ((register-Settled w key token flow _ _ _ new_key new_token).at s (refl, refl, refl))
  where
    go :
        (rt : Outcome Exception Bool × UdpReactor)
        → Post
            (Settled w key token flow s.next_flow_token s.flow_tokens_by_key s.flows new_key
              new_token)
            (λ _. On (
              Same w key token flow s.next_flow_token s.flow_tokens_by_key s.flows new_key
                new_token))
            rt
        → ((rt.0 ≡ ok true)
            × (rt.1.flow_tokens_by_key ≡ emplace key token s.flow_tokens_by_key)
            × (rt.1.flows ≡ emplace token flow s.flows))
          ⊎ ((rt.0 ≢ ok true)
              × (rt.1.flow_tokens_by_key ≡ s.flow_tokens_by_key)
              × (rt.1.flows ≡ s.flows))
    go (ok true, t) (en, et, ef) = inl (refl, et, ef)
    go (ok false, t) (en, et, ef) = inr ((λ e. cc), et, ef)
    go (thrown x, t) (en, et, ef) = inr ((λ e. cc), et, ef)
