-- ===== src/Tcp/Reactor/Facts/Send.antt =====
-- `writeBufferedDirection` keeps the invariant: the bytes that a `send` took are the oldest of the
-- buffer, and just those leave it.
use mathlib.Core.Path.{◌≡◌, refl, fun_ext}
use mathlib.Core.List.{append-nil}
use l4_load_balancer_with_xd.Prelude.{
  ◌≢◌, ℕ, zero, suc, ◌-◌, ◌≤◌, ◌<◌, Bool, true, false, not, ◌&&◌, ◌||◌, Option, none, some, [], ◌∷◌,
  ◌++◌, leb, ◌==◌, ==_iff, if◌then◌else◌, arith, sym, ap, ◌∙◌, inl, inr, length, length-take, take,
  drop, take-append-drop, min, Bool-cases, nat_eq,
}
use mathlib.Core.List.{append_assoc}
use l4_load_balancer_with_xd.Prelude.Map.{Map}
use l4_load_balancer_with_xd.Prelude.Exec.{Outcome, ok, thrown, pure, gets, modify, ◌>>=◌}
use l4_load_balancer_with_xd.Prelude.Exec.Triple.{
  Triple-pure, Triple-throw, Triple-if, Triple-modify, Triple-bind, Triple-weaken, Triple-assume,
}
use l4_load_balancer_with_xd.Config.Bytes.{Bytes}
use l4_load_balancer_with_xd.Udp.Flow.{eintr, eagain}
use l4_load_balancer_with_xd.Tcp.Buffer.{
  TcpPendingBuffer, buffer_limit, low_water, readable_bytes, consume_readable_bytes, readable,
  IsValid,
}
use l4_load_balancer_with_xd.Tcp.Buffer.Fifo.{contents, readable-take, consume_refines}
use l4_load_balancer_with_xd.Tcp.Tokens.{EndpointTokens}
use l4_load_balancer_with_xd.Tcp.World.{Side, sends, World}
use l4_load_balancer_with_xd.Tcp.Reactor.{Session, TcpReactor, change, call_as, record_event}
use l4_load_balancer_with_xd.Tcp.Reactor.Transfer.{
  taken_by, io_progress, set_pending, count_sent, buffer_or_throw, account_sent, sent_bytes,
  send_once, after_send, write_loop, resume_reading, write_buffered_direction,
}
use l4_load_balancer_with_xd.Tcp.Reactor.Facts.{
  Trace, Facts, IsPrefix, InOrder, On, SessionIs, IsPrompt, append_at, add_sent, trace, Tables,
}
use l4_load_balancer_with_xd.Tcp.Reactor.Facts.Sound.{
  put_elim, append_at_self, append_at_other, consume-IsSound,
}
use l4_load_balancer_with_xd.Tcp.Reactor.Facts.Changes.{moved-Facts}
use l4_load_balancer_with_xd.Tcp.Reactor.Facts.Rules.{
  IsSteady, Runs, Runs-keeps, Runs-then, Runs-gets, Runs-after, Runs-modify, Keeps-when, Keeps-time,
  Keeps-stat, Keeps-observation, On-IsSteady,
}
use l4_load_balancer_with_xd.Tcp.Reactor.Facts.Stop.{consume-keeps}
use l4_load_balancer_with_xd.Tcp.Reactor.Facts.Close.{Facts-IsSteady}
use l4_load_balancer_with_xd.Tcp.Reactor.Facts.Sessions.{
  At, At-IsSteady, forget, IsHarmless, change-On, with_end-IsHarmless, Runs-session, Runs-forget,
}

-- Taking less of what was taken.
take-length-take : (n : ℕ) (xs : Bytes) → take (length (take n xs)) xs ≡ take n xs
take-length-take zero xs = refl
take-length-take (suc n) [] = refl
take-length-take (suc n) (x ∷ xs) = ap (λ ys. x ∷ ys) (take-length-take n xs)

take-take : (m n : ℕ) (xs : Bytes) → take m (take n xs) ≡ take (min m n) xs
take-take zero n xs = let e : 0 ≡ min 0 n = omega arith in ap (λ k. take k xs) e
take-take (suc m) zero xs = let e : 0 ≡ min (suc m) 0 = omega arith in ap (λ k. take k xs) e
take-take (suc m) (suc n) [] =
    let e : suc (min m n) ≡ min (suc m) (suc n) = omega arith in ap (λ k. take k []) e
take-take (suc m) (suc n) (x ∷ xs) =
    let e : suc (min m n) ≡ min (suc m) (suc n) = omega arith in
    ap (λ ys. x ∷ ys) (take-take m n xs) ∙ ap (λ k. take k (x ∷ xs)) e

-- What a call of `size` bytes takes is the front of the queue.
taken_front :
    {b : TcpPendingBuffer} (n size : ℕ)
    → IsValid b
    → size ≤ readable_bytes b
    → let xs = take n (readable b size) in
      (length xs ≤ b.size) × (xs ≡ take (length xs) (contents b))
unfolding readable_bytes
taken_front {b} n size v small =
    let e = readable-take size v small in
    let c = contents b in
    let whole : take n (readable b size) ≡ take (min n size) c =
      ap (λ ys. take n ys) e ∙ take-take n size c in
    (
      rw whole (omega (arith, length-take (min n size) c)),
      rw whole (sym (take-length-take (min n size) c)),
    )

pub append_at_nil : (id : ℕ) (side : Side) (f : ℕ → Side → Bytes) → append_at id side [] f ≡ f
append_at_nil id side f = fun_ext (λ j. fun_ext (λ i. at j i))
  where
    at : (j : ℕ) (i : Side) → append_at id side [] f j i ≡ f j i
    at j i = elim (Bool-cases (j == id)) [
      | inl e ↦
          rw e (put_elim (λ i ys. ys ≡ f j i) side _ (f j) (append-nil (f j side)) (λ i. refl) i)
      | inr e ↦ rw e
    ]

pub io_progress-IsHarmless : (time n : ℕ) → IsHarmless (io_progress time n)
io_progress-IsHarmless time n = go (n == 0)
  where
    go : (b : Bool) → IsHarmless (λ x. if b then x else record x { last_io_time = time })
    go true = record { sound = λ x v. v; tokens = λ x side. refl }
    go false = record {
      sound = λ x v. record {
        named = v.named;
        valid = v.valid;
        stream = v.stream;
        counted = v.counted;
        half_closed = v.half_closed;
      };
      tokens = λ x side. refl;
    }

-- The kernel took `xs` from the front of the buffer, which still holds them.
abbrev Taken : ℕ → Side → Session → Bytes → Tables
Taken id source x xs next tokens sessions t =
    (before : Trace) × (t ≡ add_sent id source (ok xs) before)
    × SessionIs id x next tokens sessions before
    × (length xs ≤ (x.pending source).size)
    × (xs ≡ take (length xs) (contents (x.pending source)))

Taken-InOrder :
    (id : ℕ) (source : Side) (x : Session) (xs : Bytes) (next : ℕ) (tokens : EndpointTokens)
    (sessions : Map ℕ Session) (t : Trace)
    → Taken id source x xs next tokens sessions t
    → InOrder t
Taken-InOrder id source x xs next tokens sessions t (before, t_is, at, fits, front) =
    rw t_is (λ j i. elim (Bool-cases (id == j)) [
      | inl e ↦
          rw (← (==_iff id j).0 e, append_at_self id source xs before.sent)
            (put_elim (λ i ys. IsPrefix ys (before.received id i)) source _ (before.sent id)
              (drop (length xs) (contents (x.pending source)), extended) (at.0.in_order id) i)
      | inr e ↦ rw (append_at_other id source xs before.sent j e) (at.0.in_order j i)
    ])
  where
    whole : xs ++ drop (length xs) (contents (x.pending source)) ≡ contents (x.pending source)
    whole =
        ap (λ ys. ys ++ drop (length xs) (contents (x.pending source))) front
        ∙ take-append-drop (length xs) (contents (x.pending source))

    extended :
        before.received id source
        ≡ (before.sent id source ++ xs) ++ drop (length xs) (contents (x.pending source))
    extended =
        (at.0.sound id x at.1).stream source
        ∙ ap (λ ys. before.sent id source ++ ys) (sym whole)
        ∙ sym (append_assoc (before.sent id source) xs _)

module _ (w : World) (id : ℕ) (source : Side) (x : Session) where
  abbrev OnTaken : Bytes → TcpReactor → Type 0
  OnTaken xs = On (Taken id source x xs)

  Taken-IsSteady : (xs : Bytes) → IsSteady (OnTaken xs)
  Taken-IsSteady xs = On-IsSteady {T = Taken id source x xs} (Taken-InOrder id source x xs)

  -- A round of the loop moves some bytes, or no round follows.
  abbrev Moves : Option ℕ → TcpReactor → Type 0
  Moves none s = On Facts s
  Moves (some n) s = On Facts s × (IsPrompt w → 0 < n)

  abbrev AfterSend : Outcome ℕ Bytes → TcpReactor → Type 0
  AfterSend (thrown errno) s = At id x s × (IsPrompt w → errno ≢ eintr)
  AfterSend (ok xs) s = OnTaken xs s

  answered :
      (size fd : ℕ) (s : TcpReactor) (answer : Outcome ℕ ℕ)
      → size ≤ readable_bytes (x.pending source)
      → (IsPrompt w → answer ≢ thrown eintr)
      → At id x s
      → AfterSend
          (taken_by (readable (x.pending source) size) answer)
          (record_event (sends id source fd (taken_by (readable (x.pending source) size) answer)) s)
  answered size fd s (thrown errno) small prompt at = (at, λ p e. prompt p (ap thrown e))
  answered size fd s (ok n) small prompt (at, orderly, stops) = (
    (λ few.
        let (facts, found) = at few in
        let (fits, front) = taken_front n size ((facts.sound id x found).valid source) small in
        (trace s.log, refl, (facts, found), fits, front)),
    orderly,
    stops,
  )

  send_call :
      (size fd : ℕ)
      → size ≤ readable_bytes (x.pending source)
      → Runs w
          (At id x)
          (call_as
            (sends id source fd)
            (λ log. taken_by (readable (x.pending source) size) (w.send log)))
          AfterSend
  unfolding call_as pure gets modify ◌>>=◌
  send_call size fd small = record {
    at = λ s at. answered size fd s (w.send s.log) small (λ prompt. prompt.sending s.log) at;
  }

  abbrev accounted : Bytes → TcpPendingBuffer → Session
  accounted xs b = count_sent source (length xs) (set_pending source b x)

  account-At :
      (xs : Bytes) (b : TcpPendingBuffer) (s : TcpReactor)
      → 0 < length xs
      → consume_readable_bytes (x.pending source) (length xs) ≡ some b
      → OnTaken xs s
      → On Facts (change id (λ y. count_sent source (length xs) (set_pending source b y)) s)
  account-At xs b s some_bytes consumed (taken, orderly, stops) = (
    (λ few.
        let (before, t_is, at, fits, front) = taken few in
        rw t_is
          (moved-Facts (λ y. count_sent source (length xs) (set_pending source b y)) at
            (record {
              selects = refl;
              received = λ j h. refl;
              sent = λ j h. append_at_other id source xs before.sent j h;
            })
            (rw (append_at_self id source xs before.sent)
              (consume-IsSound source xs (at.0.sound id x at.1) some_bytes front consumed))
            (λ side. refl)).0),
    orderly,
    stops,
  )

  abbrev Consumed : Bytes → TcpPendingBuffer → TcpReactor → Type 0
  Consumed xs b s = OnTaken xs s × (consume_readable_bytes (x.pending source) (length xs) ≡ some b)

  consume_or_throw :
      (xs : Bytes) (o : Option TcpPendingBuffer)
      → consume_readable_bytes (x.pending source) (length xs) ≡ o
      → Runs w (OnTaken xs) (buffer_or_throw o) (Consumed xs)
  consume_or_throw xs (some b) e = Triple-pure b (λ s p. (p, e))
  consume_or_throw xs none e = Triple-throw _ (λ s p. (
    (Taken-IsSteady xs).weak s p,
    λ few.
        let (before, t_is, at, fits, front) = p.0 few in
        elim (consume_refines (length xs) ((at.0.sound id x at.1).valid source)) [
          | inl (le, c, e', valid, same) ↦ cc
          | inr (lt, e') ↦ omega arith
        ],
  ))

  account_sent-On :
      (size : ℕ) (xs : Bytes)
      → 0 < length xs
      → Runs w (OnTaken xs) (account_sent w id source x size xs) (λ n. Moves (some n))
  unfolding account_sent
  account_sent-On size xs some_bytes =
      let v = Taken-IsSteady xs in
      Runs-after w v (Keeps-when v.calm _ (Keeps-observation v.calm w _ _ _ _)) (λ _.
        Triple-bind {M = Consumed xs} (consume_or_throw xs _ refl) (λ b.
          Triple-bind {M = λ _. On Facts}
            (Triple-modify _ (λ s (p, e). account-At xs b s some_bytes e p))
            (λ _. Runs-after w Facts-IsSteady (Keeps-stat Facts-IsSteady.calm w _ _) (λ _.
              Runs-after w Facts-IsSteady (Keeps-time Facts-IsSteady.calm w) (λ time.
                Runs-modify w _ (change-On id (io_progress-IsHarmless time (length xs)))
                  (Triple-pure _ (λ s p. (p, λ _. some_bytes))))))))

  nothing_taken : (xs : Bytes) (s : TcpReactor) → length xs ≡ 0 → OnTaken xs s → On Facts s
  nothing_taken (y ∷ ys) s e p = absurd (omega (arith, e))
  nothing_taken [] s e (taken, orderly, stops) = (
    (λ few.
        let (before, t_is, at, fits, front) = taken few in
        rw (t_is, append_at_nil id source before.sent) at.0),
    orderly,
    stops,
  )

  sent_bytes-On :
      (size : ℕ) (answer : Outcome ℕ Bytes)
      → Runs w (AfterSend answer) (sent_bytes w id source x size answer) Moves
  unfolding sent_bytes
  sent_bytes-On size (thrown errno) =
      Triple-if (errno == eintr)
        (λ e. Triple-pure (some 0) (λ s (at, calls).
          (forget id x s at, λ prompt. absurd (calls prompt ((==_iff errno eintr).0 e)))))
        (λ _.
          Triple-if (errno == eagain)
            (λ _.
              Triple-weaken {P' = On Facts}
                (Runs-after w Facts-IsSteady (Keeps-observation Facts-IsSteady.calm w _ _ _ _)
                  (λ _. Triple-pure none (λ s p. p)))
                (λ s p. forget id x s p.0) (λ a s p. p) (λ e s p. p))
            (λ _. Triple-throw _ (λ s p. forget id x s p.0)))
  sent_bytes-On size (ok xs) =
      Triple-if (length xs == 0)
        (λ e. Triple-throw _ (λ s p. nothing_taken xs s ((==_iff (length xs) 0).0 e) p))
        (λ e.
          Triple-bind {M = λ n. Moves (some n)} (account_sent-On size xs (positive (length xs) e))
            (λ n. Triple-pure (some n) (λ s p. p)))
    where
      positive : (n : ℕ) → (n == 0) ≡ false → 0 < n
      positive n e = ground arith

  send_once-On :
      (size : ℕ)
      → size ≤ readable_bytes (x.pending source)
      → Runs w (At id x) (send_once w id source x size) Moves
  unfolding send_once
  send_once-On size small =
      Triple-bind {M = AfterSend} (send_call size _ small) (sent_bytes-On size)

module _ (w : World) (id : ℕ) (source : Side) where
  -- The budget that is left.
  abbrev pub Leaves : ℕ → ℕ → TcpReactor → Type 0
  Leaves budget left s = On Facts s × (left ≤ budget)

  after_send-On :
      (fuel budget : ℕ) (next : Option ℕ) (x : Session)
      → (IsPrompt w → budget < suc fuel)
      → (budget == 0) ≡ false
      → ((left : ℕ)
          → (IsPrompt w → left < fuel)
          → Runs w (On Facts) (write_loop w fuel id source left) (Leaves left))
      → Runs w
          (Moves w id source x next)
          (after_send w (write_loop w fuel id source) budget next)
          (Leaves budget)
  unfolding after_send
  after_send-On fuel budget none x enough more loop = Triple-pure budget (λ s p. (p, omega arith))
  after_send-On fuel budget (some n) x enough more loop = Triple-assume (λ moved.
      Triple-weaken (loop (budget - n) (λ prompt. ground (arith, enough prompt, moved prompt)))
        (λ s p. p) (λ left s (p, le). (p, omega arith)) (λ e s p. p))

  pub write_loop-On :
      (fuel budget : ℕ)
      → (IsPrompt w → budget < fuel)
      → Runs w (On Facts) (write_loop w fuel id source budget) (Leaves budget)
  unfolding write_loop
  write_loop-On zero budget enough =
      Triple-throw _ (λ s p. (Facts-IsSteady.weak s p, λ prompt. omega (arith, enough prompt)))
  write_loop-On (suc fuel) budget enough = Runs-session w id (λ x.
      Triple-if ((x.pending source).size == 0 || budget == 0)
        (λ _. Triple-pure budget (λ s p. (forget id x s p, omega arith)))
        (λ more. Runs-then w (consume-keeps w (SessionIs id x) (At-IsSteady id x)) (λ _.
          Runs-gets w _ (λ stop.
            Triple-if stop (λ _. Triple-pure budget (λ s p. (forget id x s p, omega arith)))
              (λ _.
                Triple-bind {M = Moves w id source x} (send_once-On w id source x _ (omega arith))
                  (λ next.
                    after_send-On fuel budget next x enough (ground arith)
                      (write_loop-On fuel)))))))

  resume_reading-On : Runs w (On Facts) (resume_reading w id source) (λ _. On Facts)
  unfolding resume_reading
  resume_reading-On = Runs-session w id (λ x. Runs-forget w id x (
      Runs-gets w _ (λ draining.
        Triple-if
          (not draining && ((x.ends source).paused && leb (x.pending source).size low_water))
          (λ _.
            Runs-modify w _
              (change-On id (
                with_end-IsHarmless source (λ e. record e { paused = false }) (λ e. refl) (λ e p. p)
                  (λ e. refl)))
              (Runs-keeps w Facts-IsSteady (Keeps-observation Facts-IsSteady.calm w _ _ _ _)))
          (λ _. Triple-pure tt (λ s p. p)))))

  pub write-On :
      (budget : ℕ)
      → budget ≤ buffer_limit
      → Runs w (On Facts) (write_buffered_direction w id source budget) (Leaves budget)
  unfolding write_buffered_direction
  write-On budget small =
      Triple-bind {M = Leaves budget}
        (write_loop-On w.patience budget (λ prompt. omega (arith, prompt.patient)))
        (λ left.
          Triple-assume
            (λ le. Runs-then w resume_reading-On (λ _. Triple-pure left (λ s p. (p, le)))))
