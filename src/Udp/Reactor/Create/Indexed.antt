-- ===== src/Udp/Reactor/Create/Indexed.antt =====
-- Creating a flow for a key that has none keeps the tables consistent.
use mathlib.Core.Path.{◌≡◌, refl}
use l4_load_balancer_with_xd.Prelude.{
  ℕ, suc, ◌≤◌, ◌<◌, sym, ap, ◌∙◌, Bool, true, false, not, Option, none, some, arith, ◌==◌, leb,
  length, nat_eq, u64_max, add64,
}
use l4_load_balancer_with_xd.Prelude.Map.{find, emplace, find-erase-none}
use l4_load_balancer_with_xd.Prelude.Exec.{Outcome, ok, thrown, ◌>>=◌}
use l4_load_balancer_with_xd.Prelude.Exec.Triple.{
  Post, Triple, Triple-gets, Triple-if, Triple-weaken, Triple-modify, Triple-bind,
}
use l4_load_balancer_with_xd.Config.Bytes.{Bytes}
use l4_load_balancer_with_xd.Config.Endpoint.{Endpoint}
use l4_load_balancer_with_xd.Udp.Flow.{UdpFlowKey, UdpFlow, key_instance, enomem}
use l4_load_balancer_with_xd.Udp.World.{Exception, overflow_error, Event, Log, World}
use l4_load_balancer_with_xd.Udp.Reactor.{UdpReactor, Action}
use l4_load_balancer_with_xd.Udp.Reactor.Keeps.{
  Tables, On, Keeps, keeps_rules, Keeps-pure, Keeps-throw, Keeps-call, Keeps-bind,
  Keeps-current_time,
}
use l4_load_balancer_with_xd.Udp.Reactor.Close.Keeps.{
  Unlinks, Keeps-drop_fd, Keeps-expire_idle_flows,
}
use l4_load_balancer_with_xd.Udp.Reactor.Indexes.{
  IsIndexed, IsIndexed-Unlinks, advance-IsIndexed, next_is_free,
}
use l4_load_balancer_with_xd.Udp.Reactor.Indexes.Changes.{insert-IsIndexed}
use l4_load_balancer_with_xd.Udp.Reactor.Create.Registration.{
  Same, Settled, register-Settled, Keeps-scoped, Keeps-setup_drop,
}
use l4_load_balancer_with_xd.Udp.Reactor.Create.{
  take_token, register_flow_indexes_and_socket, announce_flow, register_and_announce, make_flow,
  number_flow, setup_error_of, unless_failed, set_up_flow, opened_flow, open_flow, selected_flow,
  refuse_flow, create_flow,
}

module _ (w : World) (key : UdpFlowKey) where
  abbrev Indexed : Tables
  Indexed = IsIndexed w

  -- The key has no flow.
  abbrev pub Ready : Tables
  Ready n tokens flows = IsIndexed w n tokens flows × (find key tokens ≡ none)

  -- There is also room for another flow.
  abbrev Roomy : Tables
  Roomy n tokens flows = Ready n tokens flows × (length flows < w.max_flows)

  -- The token was taken and is not in use.
  abbrev Fresh : ℕ → Tables
  Fresh token n tokens flows =
      Roomy n tokens flows × (find token flows ≡ none) × (3 ≤ token) × (token < n)

  Ready-Unlinks : Unlinks Ready
  Ready-Unlinks n tokens flows token flow found (v, new_key) = (
    IsIndexed-Unlinks w n tokens flows token flow found v,
    find-erase-none key flow.key tokens new_key,
  )

  -- From the tables `T` an action comes to consistent ones, whether it returns or throws.
  abbrev Opens : {A : Type 0} → Tables → Action A → Type 0
  Opens T m = Triple (On T) m (λ _. On Indexed) (λ _. On Indexed)

  module _ (T : Tables) (indexed : (s : UdpReactor) → On T s → On Indexed s) where
    quit-Opens : {A : Type 0} {m : Action A} → Keeps T m → Opens T m
    quit-Opens t = Triple-weaken t (λ s p. p) (λ a s. indexed s) (λ x s. indexed s)

    step-Opens :
        {A B : Type 0} {m : Action A} {f : A → Action B}
        → Keeps T m
        → ((a : A) → Opens T (f a))
        → Opens T (m >>= f)
    step-Opens t h =
        Triple-bind {M = λ _. On T} (Triple-weaken t (λ s p. p) (λ a s p. p) (λ x s. indexed s)) h

  module _ (token : ℕ) (flow : UdpFlow) (same_key : flow.key ≡ key)
      (same_token : flow.token ≡ token) where
    fresh : (s : UdpReactor) → On (Fresh token) s → On Indexed s
    fresh s p = p.0.0.0

    register-Opens : Opens (Fresh token) (register_flow_indexes_and_socket w key token flow)
    register-Opens = record {
      at = λ s (((v, new_key), room), new_token, low, past).
          let full =
            insert-IsIndexed w v key token flow new_key new_token same_key same_token low past
              room in
          go s v new_key new_token full (register_flow_indexes_and_socket w key token flow s)
            ((register-Settled w key token flow _ _ _ new_key new_token).at s (refl, refl, refl));
    }
      where
        go :
            (s : UdpReactor)
            → On Indexed s
            → (new_key : find key s.flow_tokens_by_key ≡ none)
            → (new_token : find token s.flows ≡ none)
            → IsIndexed w s.next_flow_token
                (emplace key token s.flow_tokens_by_key)
                (emplace token flow s.flows)
            → (rt : Outcome Exception Bool × UdpReactor)
            → Post
                (Settled w key token flow s.next_flow_token s.flow_tokens_by_key s.flows new_key
                  new_token)
                (λ _. On (
                  Same w key token flow s.next_flow_token s.flow_tokens_by_key s.flows new_key
                    new_token))
                rt
            → Post (λ _. On Indexed) (λ _. On Indexed) rt
        go s v nk nt full (ok true, t) (en, et, ef) = rw (en, et, ef) full
        go s v nk nt full (ok false, t) (en, et, ef) = rw (en, et, ef) v
        go s v nk nt full (thrown x, t) (en, et, ef) = rw (en, et, ef) v

    announce-Keeps : Keeps Indexed (announce_flow w key token flow)
    unfolding announce_flow
    announce-Keeps = search keeps_rules depth 16 fits 3000

    register_and_announce-Opens : Opens (Fresh token) (register_and_announce w key token flow)
    unfolding register_and_announce
    register_and_announce-Opens =
        step-Opens (Fresh token) fresh (Keeps-call (Fresh token) _ _) (λ injected.
          Triple-if (not (injected == 0))
            (λ _.
              quit-Opens (Fresh token) fresh
                (Keeps-scoped (Fresh token) flow.fd (Keeps-setup_drop (Fresh token) w injected)))
            (λ _. Triple-bind {M = λ _. On Indexed} register-Opens (λ registered.
              Triple-if registered (λ _. announce-Keeps) (λ _. Keeps-pure Indexed 0))))

  roomy : (s : UdpReactor) → On Roomy s → On Indexed s
  roomy s p = p.0.0

  module _ (backend : Endpoint) (fd : ℕ) where
    make_flow-Opens :
        (token time : ℕ) (allocated : Bool)
        → Opens (Fresh token) (make_flow w key backend fd token time allocated)
    unfolding make_flow
    make_flow-Opens token time false =
        quit-Opens (Fresh token) (λ s p. p.0.0.0)
          (Keeps-bind (Fresh token) (Keeps-drop_fd (Fresh token) fd)
            (λ _. Keeps-setup_drop (Fresh token) w enomem))
    make_flow-Opens token time true = register_and_announce-Opens token _ refl refl

    number_flow-Opens : Opens Roomy (number_flow w key backend fd)
    unfolding number_flow
    number_flow-Opens =
        Triple-bind {M = λ token s. On Roomy s × (s.next_flow_token ≡ token)}
          (Triple-gets _ (λ s p. (p, refl)))
          (λ token.
            Triple-if (token == u64_max)
              (λ _.
                Triple-weaken
                  (quit-Opens Roomy roomy
                    (Keeps-scoped Roomy fd (Keeps-throw Roomy overflow_error)))
                  (λ s p. p.0) (λ a s p. p) (λ x s p. p))
              (λ more.
                Triple-bind {M = λ _. On (Fresh token)} (Triple-modify _ (taken token more)) (λ _.
                  step-Opens (Fresh token) (λ s p. p.0.0.0) (Keeps-current_time (Fresh token) w)
                    (λ time.
                      step-Opens (Fresh token) (λ s p. p.0.0.0) (Keeps-call (Fresh token) _ _)
                        (make_flow-Opens token time)))))
      where
        taken :
            (token : ℕ)
            → (token == u64_max) ≡ false
            → (s : UdpReactor) → On Roomy s × (s.next_flow_token ≡ token)
            → On (Fresh token) (take_token s)
        taken token more s (((v, new_key), room), e) =
            let small : s.next_flow_token < u64_max = ground (arith, v.fits) in
            let next : add64 s.next_flow_token 1 ≡ suc s.next_flow_token = omega arith in
            rw next (
              ((advance-IsIndexed w v small, new_key), room),
              ap (λ t. find t s.flows) (sym e) ∙ next_is_free w v,
              omega (arith, v.low),
              omega arith,
            )

    setup_error_of-Keeps :
        (name : Bytes) (e : Event) (answer : Log → ℕ)
        → Keeps Roomy (setup_error_of w key backend fd name e answer)
    unfolding setup_error_of
    setup_error_of-Keeps name e answer = search keeps_rules

    unless_failed-Opens :
        (failed : Option ℕ) {next : Action ℕ}
        → Opens Roomy next
        → Opens Roomy (unless_failed w key backend fd failed next)
    unfolding unless_failed
    unless_failed-Opens none t = t
    unless_failed-Opens (some injected) t =
        quit-Opens Roomy roomy (Keeps-scoped Roomy fd (Keeps-setup_drop Roomy w injected))

    set_up_flow-Opens : Opens Roomy (set_up_flow w key backend fd)
    unfolding set_up_flow
    set_up_flow-Opens = step-Opens Roomy roomy (setup_error_of-Keeps _ _ _) (λ bind_error.
        unless_failed-Opens bind_error (
          step-Opens Roomy roomy (setup_error_of-Keeps _ _ _)
            (λ connect_error. unless_failed-Opens connect_error number_flow-Opens)))

  opened_flow-Opens :
      (backend : Endpoint) (opened : Outcome ℕ ℕ) → Opens Roomy (opened_flow w key backend opened)
  unfolding opened_flow
  opened_flow-Opens backend (thrown errno) = quit-Opens Roomy roomy (Keeps-setup_drop Roomy w 0)
  opened_flow-Opens backend (ok fd) = set_up_flow-Opens backend fd

  open_flow-Opens : (backend : Endpoint) → Opens Roomy (open_flow w key backend)
  unfolding open_flow
  open_flow-Opens backend = step-Opens Roomy roomy (Keeps-call Roomy _ _) (λ injected.
      Triple-if (not (injected == 0))
        (λ _. quit-Opens Roomy roomy (Keeps-setup_drop Roomy w injected))
        (λ _. step-Opens Roomy roomy (Keeps-call Roomy _ _) (opened_flow-Opens backend)))

  selected_flow-Opens :
      (selected : Outcome Exception (Option Endpoint)) → Opens Roomy (selected_flow w key selected)
  unfolding selected_flow
  selected_flow-Opens (thrown x) = quit-Opens Roomy roomy (Keeps-throw Roomy x)
  selected_flow-Opens (ok none) = quit-Opens Roomy roomy (search keeps_rules)
  selected_flow-Opens (ok (some backend)) = open_flow-Opens backend

  refuse_flow-Keeps : Keeps Ready (refuse_flow w)
  unfolding refuse_flow
  refuse_flow-Keeps = search keeps_rules

  pub create_flow-Opens :
      Triple (On Ready) (create_flow w key) (λ _. On (IsIndexed w)) (λ _. On (IsIndexed w))
  unfolding create_flow
  create_flow-Opens =
      step-Opens Ready (λ s p. p.0) (Keeps-expire_idle_flows Ready w Ready-Unlinks)
        (λ _.
          Triple-bind {M = λ count s. On Ready s × (length s.flows ≡ count)}
            (Triple-gets _ (λ s p. (p, refl)))
            (λ count.
              Triple-if (leb w.max_flows count)
                (λ _.
                  Triple-weaken (quit-Opens Ready (λ s p. p.0) refuse_flow-Keeps) (λ s p. p.0)
                    (λ a s p. p) (λ x s p. p))
                (λ room.
                  Triple-weaken (step-Opens Roomy roomy (Keeps-call Roomy _ _) selected_flow-Opens)
                    (λ s (p, e). (p, ground arith)) (λ a s p. p) (λ x s p. p))))
