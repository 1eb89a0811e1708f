-- ===== src/Tcp/Reactor/Facts/Sound.antt =====
-- What each change of a session means for the bytes that went through it.
use mathlib.Core.Path.{◌≡◌, refl}
use mathlib.Core.List.{append_assoc}
use l4_load_balancer_with_xd.Prelude.{
  ℕ, ◌%◌, ◌≤◌, ◌<◌, Bool, true, false, some, ◌++◌, ◌==◌, ==_iff, arith, sym, ap, ◌∙◌, inl, inr,
  length, length-append, take, drop, take-append-drop, u64_mod, add64, Bool-cases, nat_eq,
}
use l4_load_balancer_with_xd.Config.Bytes.{Bytes}
use l4_load_balancer_with_xd.Tcp.Buffer
use l4_load_balancer_with_xd.Tcp.Buffer.{
  TcpPendingBuffer, receive, consume_readable_bytes, empty_buffer, buffer_limit,
}
use l4_load_balancer_with_xd.Tcp.Buffer.Fifo.{contents, receive_refines, consume_refines}
use l4_load_balancer_with_xd.Tcp.World.{Side, client, backend}
use l4_load_balancer_with_xd.Tcp.Reactor.{EndpointState, Session, other, put, with_end}
use l4_load_balancer_with_xd.Tcp.Reactor.Transfer.{set_pending, count_sent}
use l4_load_balancer_with_xd.Tcp.Reactor.Facts.{IsSound, IsPrefix, append_at}

pub put_elim :
    {A : Type 0} (P : Side → A → Type 0) (side : Side) (x : A) (f : Side → A)
    → P side x
    → ((i : Side) → P i (f i))
    → (i : Side) → P i (put side x f i)
put_elim P client x f p h client = p
put_elim P client x f p h backend = h backend
put_elim P backend x f p h client = h client
put_elim P backend x f p h backend = p

pub append_at_self :
    (id : ℕ) (side : Side) (xs : Bytes) (f : ℕ → Side → Bytes)
    → append_at id side xs f id ≡ put side (f id side ++ xs) (f id)
append_at_self id side xs f = rw ((==_iff id id).1 refl)

pub append_at_other :
    (id : ℕ) (side : Side) (xs : Bytes) (f : ℕ → Side → Bytes) (j : ℕ)
    → (id == j) ≡ false
    → append_at id side xs f j ≡ f j
append_at_other id side xs f j h = elim (Bool-cases (j == id)) [
  | inl e ↦ absurd (ground (arith))
  | inr e ↦ rw e
]

pub IsPrefix-append : (xs ys zs : Bytes) → IsPrefix xs ys → IsPrefix xs (ys ++ zs)
IsPrefix-append xs ys zs (rest, e) = (rest ++ zs, rw e (append_assoc xs rest zs))

-- A change of an end that leaves the shut-down and forgets no end of stream.
pub with_end-IsSound :
    {id : ℕ} {r s : Side → Bytes} {x : Session} (side : Side) (f : EndpointState → EndpointState)
    → ((e : EndpointState) → (f e).shutdown ≡ e.shutdown)
    → ((e : EndpointState) → e.eof ≡ true → (f e).eof ≡ true)
    → IsSound id r s x
    → IsSound id r s (with_end side f x)
with_end-IsSound {x} side f same grows v = record {
  named = v.named;
  valid = v.valid;
  stream = v.stream;
  counted = v.counted;
  half_closed = λ i h.
      let (eof, empty) = v.half_closed i (sym (shut side (other i)) ∙ h) in
      (
        put_elim (λ i e. (x.ends i).eof ≡ true → e.eof ≡ true) side _ x.ends (grows _) (λ i p. p) i
            eof,
        empty,
      );
}
  where
    shut : (side i : Side) → (put side (f (x.ends side)) x.ends i).shutdown ≡ (x.ends i).shutdown
    shut side =
        put_elim (λ i e. e.shutdown ≡ (x.ends i).shutdown) side _ x.ends (same _) (λ i. refl)

-- A change of members that no fact is about.
pub other-IsSound :
    {id : ℕ} {r s : Side → Bytes} {x : Session} (connecting : Bool) (time : ℕ)
    → IsSound id r s x
    → IsSound id r s (record x { connecting = connecting; last_io_time = time })
other-IsSound connecting time v = record {
  named = v.named;
  valid = v.valid;
  stream = v.stream;
  counted = v.counted;
  half_closed = v.half_closed;
}

-- A shut-down towards an end, after all that was read at the other one has left.
pub shutdown-IsSound :
    {id : ℕ} {r s : Side → Bytes} {x : Session} (side : Side)
    → (x.ends side).eof ≡ true
    → (x.pending side).size ≡ 0
    → IsSound id r s x
    → IsSound id r s (with_end (other side) (λ e. record e { shutdown = true }) x)
shutdown-IsSound {x} side eof empty v = record {
  named = v.named;
  valid = v.valid;
  stream = v.stream;
  counted = v.counted;
  half_closed = half side eof empty;
}
  where
    half :
        (side : Side)
        → (x.ends side).eof ≡ true
        → (x.pending side).size ≡ 0
        → (i : Side)
        → (put
            (other side)
            (record (x.ends (other side)) { shutdown = true })
            x.ends
            (other i)).shutdown
          ≡ true
        → ((put (other side) (record (x.ends (other side)) { shutdown = true }) x.ends i).eof
            ≡ true)
          × ((x.pending i).size ≡ 0)
    half client eof empty client h = (eof, empty)
    half client eof empty backend h = v.half_closed backend h
    half backend eof empty client h = v.half_closed client h
    half backend eof empty backend h = (eof, empty)

module _ {id : ℕ} {r s : Side → Bytes} {x : Session} (side : Side) (xs : Bytes)
    (v : IsSound id r s x) where
  -- Bytes that were read at an end without an end of stream.
  pub receive-IsSound :
      {b : TcpPendingBuffer}
      → 0 < length xs
      → (x.ends side).eof ≡ false
      → receive (x.pending side) xs ≡ some b
      → IsSound id (put side (r side ++ xs) r) s (set_pending side b x)
  receive-IsSound {b} some_bytes open_end e = elim (receive_refines xs (v.valid side) some_bytes) [
    | inl (fits, c, e', valid, same) ↦
        let b_is : Path TcpPendingBuffer b c = cc in
        record {
          named = v.named;
          valid = put_elim (λ i b. Buffer.IsValid b) side b x.pending (rw b_is valid) v.valid;
          stream = stream side (rw (b_is, same, v.stream side) (append_assoc (s side) _ xs));
          counted = v.counted;
          half_closed = half side open_end;
        }
    | inr (long, e') ↦ absurd (cc)
  ]
    where
      stream :
          (side : Side)
          → r side ++ xs ≡ s side ++ contents b
          → (i : Side) → put side (r side ++ xs) r i ≡ s i ++ contents (put side b x.pending i)
      stream client e client = e
      stream client e backend = v.stream backend
      stream backend e client = v.stream client
      stream backend e backend = e

      half :
          (side : Side)
          → (x.ends side).eof ≡ false
          → (i : Side) → (x.ends (other i)).shutdown ≡ true
          → ((x.ends i).eof ≡ true) × ((put side b x.pending i).size ≡ 0)
      half client open_end client h = let p = (v.half_closed client h).0 in absurd (cc)
      half client open_end backend h = v.half_closed backend h
      half backend open_end client h = v.half_closed client h
      half backend open_end backend h = let p = (v.half_closed backend h).0 in absurd (cc)

  -- Bytes from the front of the buffer that the other end took.
  pub consume-IsSound :
      {b : TcpPendingBuffer}
      → 0 < length xs
      → xs ≡ take (length xs) (contents (x.pending side))
      → consume_readable_bytes (x.pending side) (length xs) ≡ some b
      → IsSound id r
          (put side (s side ++ xs) s)
          (count_sent side (length xs) (set_pending side b x))
  consume-IsSound {b} some_bytes front e = elim (consume_refines (length xs) (v.valid side)) [
    | inl (fits, c, e', valid, same) ↦
        let b_is : Path TcpPendingBuffer b c = cc in
        let all : Path Bytes (xs ++ contents b) (contents (x.pending side)) =
          rw (b_is, same)
            (ap (λ ys. ys ++ drop (length xs) (contents (x.pending side))) front
              ∙ take-append-drop (length xs) (contents (x.pending side))) in
        record {
          named = v.named;
          valid = put_elim (λ i b. Buffer.IsValid b) side b x.pending (rw b_is valid) v.valid;
          stream = stream side (v.stream side ∙ rw (append_assoc (s side) xs (contents b), all));
          counted = counted side;
          half_closed = half side fits;
        }
    | inr (long, e') ↦ absurd (cc)
  ]
    where
      stream :
          (side : Side)
          → r side ≡ (s side ++ xs) ++ contents b
          → (i : Side) → r i ≡ put side (s side ++ xs) s i ++ contents (put side b x.pending i)
      stream client e client = e
      stream client e backend = v.stream backend
      stream backend e client = v.stream client
      stream backend e backend = e

      counted :
          (side i : Side)
          → put side (add64 (x.sent side) (length xs)) x.sent i
            ≡ length (put side (s side ++ xs) s i) % u64_mod
      counted client client = omega (arith, length-append (s client) xs, v.counted client)
      counted client backend = v.counted backend
      counted backend client = v.counted client
      counted backend backend = omega (arith, length-append (s backend) xs, v.counted backend)

      half :
          (side : Side)
          → length xs ≤ (x.pending side).size
          → (i : Side) → (x.ends (other i)).shutdown ≡ true
          → ((x.ends i).eof ≡ true) × ((put side b x.pending i).size ≡ 0)
      half client fits client h = absurd (omega (arith, (v.half_closed client h).1))
      half client fits backend h = v.half_closed backend h
      half backend fits client h = v.half_closed client h
      half backend fits backend h = absurd (omega (arith, (v.half_closed backend h).1))
