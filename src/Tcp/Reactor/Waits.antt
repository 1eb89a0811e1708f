-- ===== src/Tcp/Reactor/Waits.antt =====
-- `updateSessionInterests` of src/net/TcpReactor.cpp: what the event loop waits for at each end of a
-- session. `End` is the update of one end, and `Both` that of the session.
pub mod End
pub mod Both
use mathlib.Core.Path.{◌≡◌, refl}
use mathlib.Core.List.{append_assoc}
use l4_load_balancer_with_xd.Prelude.{
  ◌≢◌, ℕ, ◌<◌, Bool, true, false, ◌&&◌, some, [], ◌∷◌, ◌++◌, ltb, ◌==◌, arith, ap, sym, ◌∙◌, inl,
  inr, ◌⊎◌, nat_eq,
}
use l4_load_balancer_with_xd.Prelude.Map.{find, find-update_self}
use l4_load_balancer_with_xd.Prelude.Exec.{ok, thrown, Outcome, pure, gets, modify, ◌>>=◌}
use l4_load_balancer_with_xd.Prelude.Exec.Triple.{
  Post, Triple, Triple-pure, Triple-throw, Triple-if, Triple-modify, Triple-bind, Triple-weaken,
  Triple-gets, Triple-assume,
}
use l4_load_balancer_with_xd.Config.Bytes.{Bytes, codes}
use l4_load_balancer_with_xd.Tcp.World.{
  Exception, session_failure, Side, client, backend, Call, set_interest, detach, Event, quiet,
  read_clock, Log, World,
}
use l4_load_balancer_with_xd.Tcp.Reactor.{
  EndpointState, Session, TcpReactor, Action, Done, other, with_end, change, record_event, call,
  call_as, session_at, found_or_throw, fail_errno, current_time, remove_endpoint,
  detach_endpoint_from_epoll,
}
use l4_load_balancer_with_xd.Tcp.Reactor.Interests.{
  interest_mask, set_end_interest, update_end_interest, update_session_interests,
}
use l4_load_balancer_with_xd.Tcp.Reactor.Transfer.{fd_of}
use l4_load_balancer_with_xd.Tcp.Reactor.Facts.Rules.{
  FromCallback, IsCalm, Keeps, Keeps-call, Keeps-when, Keeps-observation, Keeps-detach_call,
  Keeps-detach_error,
}

-- The second log goes on from the first one.
abbrev pub IsPast : Log → Log → Type 0
IsPast earlier log = (later : Log) × (log ≡ later ++ earlier)

pub IsPast-trans : {a b c : Log} → IsPast a b → IsPast b c → IsPast a c
IsPast-trans {a} (l, p) (m, q) = (m ++ l, q ∙ ap (λ k. m ++ k) p ∙ sym (append_assoc m l a))

pub IsPast-extend : (e : Event) {earlier log : Log} → IsPast earlier log → IsPast earlier (e ∷ log)
IsPast-extend e (later, p) = (e ∷ later, ap (λ l. e ∷ l) p)

-- A call was made between the two logs, after a log with the property.
abbrev pub Between : Log → Log → Call → (Log → Type 0) → Type 0
Between start final c P = (log : Log) × IsPast start log × IsPast (quiet c ∷ log) final × P log

pub Between-within :
    {start start' final final' : Log} {c : Call} {P : Log → Type 0}
    → IsPast start' start
    → IsPast final final'
    → Between start final c P
    → Between start' final' c P
Between-within before after (log, since, made, p) =
    (log, IsPast-trans before since, IsPast-trans made after, p)

-- The rest of an end was not over at a reading of the clock.
abbrev pub Rests : World → Log → Log → EndpointState → Type 0
Rests w start final e = Between start final read_clock (λ log. w.now log < e.deferred)

-- The kernel did not refuse the call for the end as it was before: the change of its registration,
-- or a new one where it had none, of its descriptor, with its token and just this mask.
abbrev pub Asked : World → Log → Log → EndpointState → ℕ → Type 0
Asked w start final before mask =
    Between start final (set_interest before.registered (fd_of w before.fd) before.token mask)
      (λ log. w.epoll_ctl log ≡ 0)

-- The registration that the end had before was taken back.
abbrev pub Dropped : Log → Log → EndpointState → Type 0
Dropped start final before =
    (fd : ℕ)
    → before.registered ≡ true
    → before.fd ≡ some fd
    → Between start final (detach fd) (λ _. Unit {0})

-- An end is registered with just this mask, by its registration from before or by a call; or it is
-- not registered, where the mask is empty or the end rests.
abbrev pub Waits : World → Log → Log → EndpointState → EndpointState → ℕ → Type 0
Waits w start final before e mask =
    ((e.registered ≡ true)
      × (e.interest ≡ mask)
      × (mask ≢ 0)
      × (((before.registered ≡ true) × (before.interest ≡ mask)) ⊎ Asked w start final before mask))
    ⊎ ((e.registered ≡ false) × Dropped start final before × ((mask ≡ 0) ⊎ Rests w start final e))

pub Waits-within :
    (w : World) {start start' final final' : Log} (before e : EndpointState) (mask : ℕ)
    → IsPast start' start
    → IsPast final final'
    → Waits w start final before e mask
    → Waits w start' final' before e mask
Waits-within w before e mask earlier later (inl (r, i, n, inl p)) = inl (r, i, n, inl p)
Waits-within w before e mask earlier later (inl (r, i, n, inr asked)) =
    inl (r, i, n, inr (Between-within earlier later asked))
Waits-within w before e mask earlier later (inr (r, dropped, inl p)) =
    inr (r, (λ fd h k. Between-within earlier later (dropped fd h k)), inl p)
Waits-within w before e mask earlier later (inr (r, dropped, inr rests)) = inr (
  r,
  (λ fd h k. Between-within earlier later (dropped fd h k)),
  inr (Between-within earlier later rests),
)

-- A change of what is registered for one end.
abbrev pub register : Side → Bool → ℕ → Session → Session
register side registered mask =
    with_end side (λ e. record e { registered = registered; interest = mask })

pub mask-register :
    (b : Bool) (side : Side) (registered : Bool) (mask : ℕ) (x : Session) (i : Side)
    → interest_mask b (register side registered mask x) i ≡ interest_mask b x i
unfolding interest_mask
mask-register b client registered mask x client = refl
mask-register b client registered mask x backend = refl
mask-register b backend registered mask x client = refl
mask-register b backend registered mask x backend = refl

pub other_end-register :
    (side : Side) (registered : Bool) (mask : ℕ) (x : Session)
    → (register side registered mask x).ends (other side) ≡ x.ends (other side)
other_end-register client registered mask x = refl
other_end-register backend registered mask x = refl

pub this_end-register :
    (side : Side) (registered : Bool) (mask : ℕ) (x : Session)
    → (register side registered mask x).ends side
      ≡ record (x.ends side) { registered = registered; interest = mask }
this_end-register client registered mask x = refl
this_end-register backend registered mask x = refl

-- What may be thrown: what a callback throws, and a refusal of the kernel.
abbrev pub Refused : Exception → Type 0
Refused x =
    FromCallback x
    ⊎ ((errno : ℕ) × (x ≡ session_failure (codes "epoll_ctl session") errno) × (errno ≢ 0))

abbrev pub Then :
    {A : Type 0} → (TcpReactor → Type 0) → Action A → (A → TcpReactor → Type 0) → Type 0
Then P m Q = Triple P m Q (λ x _. Refused x)

pub Then-keeps :
    {A : Type 0} {P : TcpReactor → Type 0} {m : Action A} → Keeps P m → Then P m (λ _. P)
Then-keeps t = Triple-weaken t (λ s p. p) (λ a s p. p) (λ x s p. inl p.0)

module _ (w : World) (id : ℕ) (start : Log) where
  -- The session as it is in the table, and the draining.
  pub record Seen (x : Session) (b : Bool) (s : TcpReactor) : Type 0 where
    pub found : find id s.sessions ≡ some x
    pub drains : s.draining ≡ b
    pub past : IsPast start s.log

  pub Seen-IsCalm : (x : Session) (b : Bool) → IsCalm (Seen x b)
  Seen-IsCalm x b c s p = record {
    found = p.found;
    drains = p.drains;
    past = IsPast-extend (quiet c) p.past;
  }

  -- The session after one end was settled.
  pub record Settled (side : Side) (x : Session) (b : Bool) (s : TcpReactor) : Type 0 where
    pub now : Session
    pub seen : Seen now b s
    pub masks : (i : Side) → interest_mask b now i ≡ interest_mask b x i
    pub other_end : now.ends (other side) ≡ x.ends (other side)
    pub waits : Waits w start s.log (x.ends side) (now.ends side) (interest_mask b now side)

  pub Settled-IsCalm : (side : Side) (x : Session) (b : Bool) → IsCalm (Settled side x b)
  Settled-IsCalm side x b c s p = record {
    now = p.now;
    seen = Seen-IsCalm p.now b c s p.seen;
    masks = p.masks;
    other_end = p.other_end;
    waits =
        Waits-within w (x.ends side) (p.now.ends side) (interest_mask b p.now side) ([], refl)
          (IsPast-extend (quiet c) ([], refl)) p.waits;
  }
