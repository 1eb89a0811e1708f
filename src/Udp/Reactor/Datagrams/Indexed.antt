-- ===== src/Udp/Reactor/Datagrams/Indexed.antt =====
-- Receiving and sending keep the tables consistent. The part that needs care is the datagram of a
-- key: a flow is created for it only where the key has none.
use mathlib.Core.Path.{◌≡◌, refl}
use l4_load_balancer_with_xd.Prelude.{
  ℕ, zero, suc, ◌≤◌, ap, ◌∙◌, Bool, not, Option, none, some, arith, ◌==◌, ==_iff, nat_eq,
}
use l4_load_balancer_with_xd.Prelude.Map.{find, erase, find-erase_self}
use l4_load_balancer_with_xd.Prelude.Exec.{Outcome, ok, thrown, modify, ◌>>=◌}
use l4_load_balancer_with_xd.Prelude.Exec.Triple.{
  Triple, Triple-pure, Triple-gets, Triple-if, Triple-weaken, Triple-catch, Triple-modify,
  Triple-bind,
}
use l4_load_balancer_with_xd.Config.Bytes.{Bytes}
use l4_load_balancer_with_xd.Udp.Flow.{UdpFlowKey, UdpFlow, key_instance, expired, eintr}
use l4_load_balancer_with_xd.Udp.World.{World}
use l4_load_balancer_with_xd.Udp.Reactor.{UdpReactor, Action, Unit₀}
use l4_load_balancer_with_xd.Udp.Reactor.Keeps.{
  Tables, On, Keeps, Keeps-pure, Keeps-throw, Keeps-call, Keeps-modify, Keeps-bind, Keeps-if,
  Keeps-flow_at, Keeps-current_time, Keeps-report_observation, Keeps-report_stat_event,
  Keeps-report_diagnostic, keeps_rules,
}
use l4_load_balancer_with_xd.Udp.Reactor.Close.{close_found, close_flow, handle_socket_error}
use l4_load_balancer_with_xd.Udp.Reactor.Close.Keeps.{
  Keeps-drop_fd, Keeps-report_close, Keeps-close_flow, Keeps-handle_socket_error,
}
use l4_load_balancer_with_xd.Udp.Reactor.Indexes.{IsIndexed, IsIndexed-Unlinks}
use l4_load_balancer_with_xd.Udp.Reactor.Indexes.Changes.{touch-IsIndexed}
use l4_load_balancer_with_xd.Udp.Reactor.Create.Indexed.{Ready, create_flow-Opens}
use l4_load_balancer_with_xd.Udp.Reactor.Datagrams.{
  record_submission, close_expired, sent, send_failed, send_result, send_attempts,
  send_flow_datagram, token_or_zero, live_token, create_or_drop, resolve_flow_token_for_datagram,
  drop_datagram,
}

module _ (w : World) where
  abbrev pub Indexed : Tables
  Indexed = IsIndexed w

  module _ (key : UdpFlowKey) (token : ℕ) where
    abbrev Known : Tables
    Known n tokens flows = IsIndexed w n tokens flows × (find key tokens ≡ some token)

    -- Closing the flow of a key leaves the key without one.
    forget_key :
        (reason : Bytes) (errno : ℕ)
        → Triple
            (On Known)
            (close_flow w token reason errno)
            (λ _. On (Ready w key))
            (λ _. On Indexed)
    unfolding close_flow
    forget_key reason errno =
        Triple-bind {M = λ found s. On Known s × (find token s.flows ≡ found)}
          (Triple-gets _ (λ s p. (p, refl))) go
      where
        go :
            (found : Option UdpFlow)
            → Triple
                (λ s. On Known s × (find token s.flows ≡ found))
                (close_found w token reason errno found)
                (λ _. On (Ready w key))
                (λ _. On Indexed)
        go none = record {
          at = λ s ((v, known), e). let (f, ef, kf) = v.leads key token known in absurd (cc);
        }
        go (some flow) =
            unfold close_found in
            Triple-bind {M = λ _. On (Ready w key)} (Triple-modify _ unlinked) (λ _.
              Triple-weaken
                (Keeps-bind (Ready w key) (Keeps-call (Ready w key) _ _) (λ detached.
                  Keeps-bind (Ready w key) (Keeps-drop_fd (Ready w key) flow.fd)
                    (λ _. Keeps-report_close (Ready w key) w token flow reason errno _)))
                (λ s p. p) (λ a s p. p) (λ x s p. p.0))
          where
            unlinked :
                (s : UdpReactor)
                → On Known s × (find token s.flows ≡ some flow)
                → Ready w key s.next_flow_token
                    (erase flow.key s.flow_tokens_by_key)
                    (erase token s.flows)
            unlinked s ((v, known), e) =
                let (f, ef, kf) = v.leads key token known in
                let same : flow.key ≡ key = ap (λ h. h.key) {x = flow} {y = f} (cc) ∙ kf in
                (
                  IsIndexed-Unlinks w _ _ _ token flow e v,
                  ap (λ k. find key (erase k s.flow_tokens_by_key)) same
                      ∙ find-erase_self key s.flow_tokens_by_key,
                )

  -- Where no live flow was found, the key has none.
  abbrev Live : UdpFlowKey → ℕ → UdpReactor → Type 0
  Live key token s = On Indexed s × (token ≡ 0 → find key s.flow_tokens_by_key ≡ none)

  live_token-Live :
      (key : UdpFlowKey) (found : Option ℕ)
      → Triple
          (λ s. On Indexed s × (find key s.flow_tokens_by_key ≡ found))
          (live_token w (token_or_zero w found))
          (Live key)
          (λ _. On Indexed)
  unfolding live_token
  live_token-Live key none = Triple-pure 0 (λ s (v, e). (v, λ _. e))
  live_token-Live key (some token) =
      Triple-if (token == 0)
        (λ z.
          Triple-pure 0
            (λ s (v, e). absurd (omega (arith, (==_iff token 0).0 z, unreserved s v e))))
        (λ live. known (Keeps-flow_at (Known key token) token) (λ flow.
          known (Keeps-current_time (Known key token) w) (λ time.
            Triple-if (not (expired flow time w.idle_timeout))
              (λ _. Triple-pure token (λ s (v, e). (v, λ z. absurd (cc ((==_iff token 0).1 z)))))
              (λ _.
                Triple-bind {M = λ _. On (Ready w key)} expires
                  (λ _. Triple-pure 0 (λ s (v, e). (v, λ _. e)))))))
    where
      unreserved :
          (s : UdpReactor) → On Indexed s → find key s.flow_tokens_by_key ≡ some token → 3 ≤ token
      unreserved s v e = let (f, ef, kf) = v.leads key token e in (v.listed token f ef).unreserved

      known :
          {A B : Type 0} {m : Action A} {f : A → Action B} {Q : B → UdpReactor → Type 0}
          → Keeps (Known key token) m
          → ((a : A) → Triple (On (Known key token)) (f a) Q (λ _. On Indexed))
          → Triple (On (Known key token)) (m >>= f) Q (λ _. On Indexed)
      known t h =
          Triple-bind {M = λ _. On (Known key token)}
            (Triple-weaken t (λ s p. p) (λ a s p. p) (λ x s p. p.0)) h

      expires :
          Triple
            (On (Known key token))
            (close_expired w token)
            (λ _. On (Ready w key))
            (λ _. On Indexed)
      expires =
          unfold close_expired in
          known (Keeps-report_stat_event (Known key token) w _ _) (λ _. forget_key key token _ 0)

  create_or_drop-Indexed :
      (key : UdpFlowKey)
      → Triple (On (Ready w key)) (create_or_drop w key) (λ _. On Indexed) (λ _. On Indexed)
  unfolding create_or_drop
  create_or_drop-Indexed key =
      Triple-catch {E' = λ _. On Indexed} (create_flow-Opens w key) (λ x.
        Keeps-bind Indexed (Keeps-report_stat_event Indexed w _ _) (λ _. Keeps-throw Indexed x))

  pub resolve-Indexed : (key : UdpFlowKey) → Keeps Indexed (resolve_flow_token_for_datagram w key)
  unfolding resolve_flow_token_for_datagram
  resolve-Indexed key =
      Triple-bind {M = λ found s. On Indexed s × (find key s.flow_tokens_by_key ≡ found)}
        (Triple-gets _ (λ s p. (p, refl)))
        (λ found. Triple-bind {M = Live key} (live_token-Live key found) (λ token.
          Triple-if (token == 0)
            (λ z.
              Triple-weaken (create_or_drop-Indexed key) (λ s (v, e). (v, e ((==_iff token 0).0 z)))
                (λ a s p. p) (λ x s p. p))
            (λ _. Triple-pure token (λ s p. p.0))))

  pub close_flow-Indexed :
      (token : ℕ) (reason : Bytes) (errno : ℕ) → Keeps Indexed (close_flow w token reason errno)
  close_flow-Indexed = Keeps-close_flow Indexed w (IsIndexed-Unlinks w)

  pub handle_socket_error-Indexed :
      (code : ℕ) (listener : Bool) (token : ℕ) (kind : Bytes)
      → Keeps Indexed (handle_socket_error w code listener token kind)
  handle_socket_error-Indexed = Keeps-handle_socket_error Indexed w (IsIndexed-Unlinks w)

  pub close_expired-Indexed : (token : ℕ) → Keeps Indexed (close_expired w token)
  unfolding close_expired
  close_expired-Indexed token = search (keeps_rules, close_flow-Indexed)

  pub drop_datagram-Indexed : (kind : Bytes) → Keeps Indexed (drop_datagram w kind)
  unfolding drop_datagram
  drop_datagram-Indexed kind = search keeps_rules

  module _ (flow : UdpFlow) (size : ℕ) (reply : Bool) where
    touch-Indexed : (time : ℕ) → Keeps Indexed (modify (record_submission flow.token time))
    touch-Indexed time = Keeps-modify Indexed _ (λ s v. touch-IsIndexed w v flow.token time)

    sent-Indexed : (fd count : ℕ) → Keeps Indexed (sent w flow size reply fd count)
    unfolding sent
    sent-Indexed fd count = search (keeps_rules, touch-Indexed) depth 16 fits 3000

    send_failed-Indexed : (errno : ℕ) → Keeps Indexed (send_failed w flow size reply errno)
    unfolding send_failed
    send_failed-Indexed errno = search (keeps_rules, handle_socket_error-Indexed)

    send_attempts-Indexed :
        (attempts : ℕ) → Keeps Indexed (send_attempts w flow size reply attempts)
    unfolding send_attempts drop_datagram
    send_attempts-Indexed zero = drop_datagram-Indexed _
    send_attempts-Indexed (suc attempts) =
        Keeps-bind Indexed (Keeps-call Indexed _ _) (go (send_attempts-Indexed attempts))
      where
        go :
            {again : Action Unit₀}
            → Keeps Indexed again
            → (r : Outcome ℕ ℕ) → Keeps Indexed (send_result w flow size reply r again)
        go rest (ok count) = unfold send_result in sent-Indexed _ count
        go rest (thrown errno) =
            unfold send_result in Keeps-if Indexed (errno == eintr) rest (send_failed-Indexed errno)

    pub send_flow_datagram-Indexed : Keeps Indexed (send_flow_datagram w flow size reply)
    unfolding send_flow_datagram
    send_flow_datagram-Indexed = send_attempts-Indexed 4

pub ruleset indexed_rules = (
  keeps_rules, close_flow-Indexed, handle_socket_error-Indexed, close_expired-Indexed,
  drop_datagram-Indexed,
)
