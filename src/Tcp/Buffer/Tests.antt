-- ===== src/Tcp/Buffer/Tests.antt =====
-- The buffer with three bytes that lie across the end of the array.
use l4_load_balancer_with_xd.Prelude.{
  ◌+◌, ◌≤◌, ◌<◌, ◌≡◌, refl, ◌⊎◌, none, some, [], ◌∷◌, ◌++◌, arith, drop, take,
}
use l4_load_balancer_with_xd.Tcp.Buffer.{
  TcpPendingBuffer, IsValid, buffer_limit, room, write_offset, readable_bytes, writable_bytes,
  consume_readable_bytes, receive, readable,
}
use l4_load_balancer_with_xd.Tcp.Buffer.Fifo.{
  contents, in_bounds, receive_refines, readable-take, consume_refines,
}

abbrev wrapped : TcpPendingBuffer
wrapped = record { bytes = λ i. i; read_offset = 65534; size = 3 }

wrapped-IsValid : IsValid wrapped
wrapped-IsValid = record {
  size_le = omega arith;
  offset_lt = omega arith;
  reset = λ e. absurd (omega arith);
}

first_span_ends_at_the_limit : readable_bytes wrapped ≡ 2
unfolding readable_bytes
first_span_ends_at_the_limit = refl

empty_buffer_starts_over :
    (b : TcpPendingBuffer) × (consume_readable_bytes wrapped 3 ≡ some b) × (b.read_offset ≡ 0)
unfolding consume_readable_bytes
empty_buffer_starts_over = (_, refl, refl)

in_bounds_example :
    (room wrapped + 3 ≡ buffer_limit)
    × (65534 + readable_bytes wrapped ≤ buffer_limit)
    × (write_offset wrapped + writable_bytes wrapped ≤ buffer_limit)
    × ((wrapped.size ≡ 0) ⊎ (0 < readable_bytes wrapped))
    × ((wrapped.size ≡ buffer_limit) ⊎ (0 < writable_bytes wrapped))
in_bounds_example = in_bounds {b = wrapped} wrapped-IsValid

receive_refines_example :
    ((2 ≤ writable_bytes wrapped)
      × (c : TcpPendingBuffer) × (receive wrapped (7 ∷ 8 ∷ []) ≡ some c)
      × IsValid c
      × (contents c ≡ contents wrapped ++ 7 ∷ 8 ∷ []))
    ⊎ ((writable_bytes wrapped < 2) × (receive wrapped (7 ∷ 8 ∷ []) ≡ none))
receive_refines_example = receive_refines {b = wrapped} (7 ∷ 8 ∷ []) wrapped-IsValid (omega arith)

readable-take_example : readable wrapped 2 ≡ take 2 (contents wrapped)
readable-take_example =
    readable-take {b = wrapped} 2 wrapped-IsValid (unfold readable_bytes in omega arith)

consume_refines_example :
    ((2 ≤ 3)
      × (c : TcpPendingBuffer) × (consume_readable_bytes wrapped 2 ≡ some c)
      × IsValid c
      × (contents c ≡ drop 2 (contents wrapped)))
    ⊎ ((3 < 2) × (consume_readable_bytes wrapped 2 ≡ none))
consume_refines_example = consume_refines {b = wrapped} 2 wrapped-IsValid
