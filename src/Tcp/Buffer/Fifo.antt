-- ===== src/Tcp/Buffer/Fifo.antt =====
-- `TcpPendingBuffer` is a queue of bytes of limited length: the abstract view and what each method
-- does to it.
use l4_load_balancer_with_xd.Prelude.{
  ℕ, ◌+◌, ◌-◌, ◌%◌, ◌≤◌, ◌<◌, ◌≡◌, sym, ap, ◌∙◌, ◌⊎◌, inl, inr, none, some, List, ◌++◌, arith,
  length, drop, take, ◌==◌, if◌then◌else◌,
}
use mathlib.Core.Path.{ap₂}
use native.Mathlib.Decide.{dec_le}
use l4_load_balancer_with_xd.Tcp.Buffer.{
  TcpPendingBuffer, IsValid, buffer_limit, room, write_offset, readable_bytes, writable_bytes,
  commit_written_bytes, consume_readable_bytes, store, receive, readable,
}
use l4_load_balancer_with_xd.Tcp.Buffer.Spans.{
  span, span-split, drop-split, span_ext, span_shift, take-span, load-span, store_before,
  store_after, span-store,
}

-- The index of the byte that is `i`-th in the queue.
abbrev pub slot : TcpPendingBuffer → ℕ → ℕ
slot b i = (b.read_offset + i) % buffer_limit

-- The queued bytes, the oldest first.
unfoldable pub contents : TcpPendingBuffer → List ℕ
contents b = span (λ i. b.bytes (slot b i)) 0 b.size

-- `size` and `room` make up the limit; the two spans lie inside the array, and neither is empty
-- while there is something to send or room to receive.
pub in_bounds :
    {b : TcpPendingBuffer}
    → IsValid b
    → (room b + b.size ≡ buffer_limit)
      × (b.read_offset + readable_bytes b ≤ buffer_limit)
      × (write_offset b + writable_bytes b ≤ buffer_limit)
      × ((b.size ≡ 0) ⊎ (0 < readable_bytes b))
      × ((b.size ≡ buffer_limit) ⊎ (0 < writable_bytes b))
unfolding room readable_bytes writable_bytes
in_bounds v = ground arith

pub receive-IsValid :
    {b c : TcpPendingBuffer} (xs : List ℕ)
    → IsValid b
    → receive b xs ≡ some c
    → 0 < length xs
    → IsValid c
unfolding receive commit_written_bytes
receive-IsValid xs v e h = ground arith

pub consume-IsValid :
    {b c : TcpPendingBuffer} (n : ℕ) → IsValid b → consume_readable_bytes b n ≡ some c → IsValid c
unfolding consume_readable_bytes
consume-IsValid n v e = ground arith

module _ {b : TcpPendingBuffer} (xs : List ℕ) (v : IsValid b)
    (fits : length xs ≤ writable_bytes b) where
  received : TcpPendingBuffer
  received = record b { bytes = store (write_offset b) xs b.bytes; size = b.size + length xs }

  receive-received : receive b xs ≡ some received
  unfolding receive commit_written_bytes received
  receive-received = ground arith

  old_bytes :
      (j : ℕ) → 0 ≤ j → j < 0 + b.size → received.bytes (slot received j) ≡ b.bytes (slot b j)
  unfolding received writable_bytes
  old_bytes j _ h = elim (slot_outside j (omega arith)) [
    | inl before ↦ store_before (write_offset b) xs b.bytes (slot b j) before
    | inr behind ↦ store_after (write_offset b) xs b.bytes (slot b j) behind
  ]
    where
      slot_outside :
          (j : ℕ)
          → j < b.size
          → (slot b j < write_offset b) ⊎ (write_offset b + length xs ≤ slot b j)
      slot_outside j h = omega arith

  new_bytes :
      (d : ℕ)
      → d < length xs
      → received.bytes (slot received (b.size + d))
        ≡ store (write_offset b) xs b.bytes (write_offset b + d)
  unfolding received writable_bytes
  new_bytes d h = ap (store (write_offset b) xs b.bytes) (omega arith)

  contents-received : contents received ≡ contents b ++ xs
  unfolding contents received
  contents-received =
      let f = λ (i : ℕ). received.bytes (slot received i) in
      span-split f b.size (length xs)
      ∙ ap₂ ◌++◌ (span_ext f _ 0 b.size old_bytes) (
          span_shift f (store (write_offset b) xs b.bytes) b.size (write_offset b) (length xs)
            new_bytes
          ∙ span-store (write_offset b) xs b.bytes)

-- The bytes of a `recv` that fits the writable span go to the end of the queue, and the invariant
-- is kept; a longer count is refused.
pub receive_refines :
    {b : TcpPendingBuffer} (xs : List ℕ)
    → IsValid b
    → 0 < length xs
    → ((length xs ≤ writable_bytes b)
        × (c : TcpPendingBuffer) × (receive b xs ≡ some c)
        × IsValid c
        × (contents c ≡ contents b ++ xs))
      ⊎ ((writable_bytes b < length xs) × (receive b xs ≡ none))
receive_refines {b} xs v h = elim (dec_le (length xs) (writable_bytes b)) [
  | yes fits ↦
      let e = receive-received xs v fits in
      inl (fits, received xs v fits, e, receive-IsValid xs v e h, contents-received xs v fits)
  | no long ↦ inr (omega arith, unfold receive commit_written_bytes in ground arith)
]

-- A `send` of at most as many bytes as the readable span holds hands the kernel the oldest bytes of
-- the queue, in order.
pub readable-take :
    {b : TcpPendingBuffer} (n : ℕ)
    → IsValid b
    → n ≤ readable_bytes b
    → readable b n ≡ take n (contents b)
unfolding readable contents readable_bytes
readable-take {b} n v h =
    let f = λ (i : ℕ). b.bytes (slot b i) in
    load-span b.bytes b.read_offset n
    ∙ span_shift b.bytes f b.read_offset 0 n (λ d small. ap b.bytes (omega arith))
    ∙ sym (take-span f 0 n (b.size - n))
    ∙ ap (λ k. take n (span f 0 k)) (omega arith)

consumed : TcpPendingBuffer → ℕ → TcpPendingBuffer
consumed b n = record b {
  read_offset = if b.size == n then 0 else (b.read_offset + n) % buffer_limit;
  size = b.size - n;
}

consume-consumed :
    {b : TcpPendingBuffer} (n : ℕ)
    → IsValid b
    → n ≤ b.size
    → consume_readable_bytes b n ≡ some (consumed b n)
unfolding consume_readable_bytes consumed
consume-consumed n v h = ground arith

contents-consumed :
    {b : TcpPendingBuffer} (n : ℕ)
    → IsValid b
    → n ≤ b.size
    → contents (consumed b n) ≡ drop n (contents b)
unfolding contents consumed
contents-consumed {b} n v h =
    let f = λ (i : ℕ). b.bytes (slot b i) in
    span_shift _ f 0 n (b.size - n) (λ d small. ap b.bytes (ground arith))
    ∙ sym (drop-split f n (b.size - n))
    ∙ ap (λ k. drop n (span f 0 k)) (omega arith)

-- Taking `n` bytes drops just the oldest `n` and keeps the invariant; more than are queued is
-- refused.
pub consume_refines :
    {b : TcpPendingBuffer} (n : ℕ)
    → IsValid b
    → ((n ≤ b.size)
        × (c : TcpPendingBuffer) × (consume_readable_bytes b n ≡ some c)
        × IsValid c
        × (contents c ≡ drop n (contents b)))
      ⊎ ((b.size < n) × (consume_readable_bytes b n ≡ none))
consume_refines {b} n v = elim (dec_le n b.size) [
  | yes h ↦
      let e = consume-consumed n v h in
      inl (h, consumed b n, e, consume-IsValid n v e, contents-consumed n v h)
  | no long ↦ inr (omega arith, unfold consume_readable_bytes in ground arith)
]
