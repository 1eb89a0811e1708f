-- ===== src/Tcp/Buffer.antt =====
-- `TcpPendingBuffer` of src/net/TcpState.h. A method that throws `std::logic_error` gives `none`
-- and has changed nothing.
pub mod Spans
pub mod Fifo
mod Tests
use l4_load_balancer_with_xd.Prelude.{
  ℕ, zero, suc, ◌+◌, ◌-◌, ◌*◌, ◌%◌, ◌≤◌, ◌<◌, ◌≡◌, refl, Option, none, some, List, [], ◌∷◌, arith,
  min, ltb, ◌==◌, if◌then◌else◌, length, add64, sub64,
}

-- `kBufferLimit` and `kLowWater`
abbrev pub buffer_limit : ℕ
buffer_limit = 64 * 1024

abbrev pub low_water : ℕ
low_water = 32 * 1024

-- `bytes_` has the indices below `buffer_limit`; see `Fifo.in_bounds`.
pub record TcpPendingBuffer : Type 0 where
  pub bytes : ℕ → ℕ
  pub read_offset : ℕ
  pub size : ℕ

abbrev pub empty_buffer : TcpPendingBuffer
empty_buffer = record { bytes = λ _. 0; read_offset = 0; size = 0 }

module _ (b : TcpPendingBuffer) where
  unfoldable pub room : ℕ
  room = sub64 buffer_limit b.size

  unfoldable pub write_offset : ℕ
  write_offset = add64 b.read_offset b.size % buffer_limit

  unfoldable pub readable_bytes : ℕ
  readable_bytes = min b.size (sub64 buffer_limit b.read_offset)

  unfoldable pub writable_bytes : ℕ
  unfolding room write_offset
  writable_bytes = min room (sub64 buffer_limit write_offset)

  unfoldable pub commit_written_bytes : ℕ → Option TcpPendingBuffer
  unfolding writable_bytes
  commit_written_bytes written =
      if ltb writable_bytes written then none else some (record b { size = add64 b.size written })

  unfoldable pub consume_readable_bytes : ℕ → Option TcpPendingBuffer
  consume_readable_bytes consumed =
      if ltb b.size consumed
      then none
      else let left = sub64 b.size consumed in
        some (record b {
          read_offset = if left == 0 then 0 else add64 b.read_offset consumed % buffer_limit;
          size = left;
        })

-- What the kernel does for `recv(fd, p, n)` and `send(fd, p, n)`: the bytes go to, or come from,
-- consecutive indices from `p` on.
unfoldable pub store : ℕ → List ℕ → (ℕ → ℕ) → ℕ → ℕ
store p [] bytes = bytes
store p (x ∷ xs) bytes = store (suc p) xs (λ i. if i == p then x else bytes i)

unfoldable pub load : (ℕ → ℕ) → ℕ → ℕ → List ℕ
load bytes p zero = []
load bytes p (suc n) = bytes p ∷ load bytes (suc p) n

-- A `recv` into `writable()` that got the given bytes.
unfoldable pub receive : TcpPendingBuffer → List ℕ → Option TcpPendingBuffer
unfolding store
receive b xs =
    commit_written_bytes (record b { bytes = store (write_offset b) xs b.bytes }) (length xs)

-- What a `send` of `n` bytes from `data()` hands to the kernel.
unfoldable pub readable : TcpPendingBuffer → ℕ → List ℕ
unfolding load
readable b n = load b.bytes b.read_offset n

pub record IsValid (b : TcpPendingBuffer) : Type 0 where
  pub size_le : b.size ≤ buffer_limit
  pub offset_lt : b.read_offset < buffer_limit
  pub reset : b.size ≡ 0 → b.read_offset ≡ 0
