-- ===== src/Channel/Chunks.antt =====
-- `SendImpl`, `SendMono` and `SendChunked` (link/transport/channel.h and channel.cc): the requests
-- that a value is sent by, and the sequence in which chunks reach `ChunkedMessage`.
mod Splice
mod Reassemble
pub mod Order
pub mod Window
use yacl_r.Base.{
  ℕ, zero, suc, ◌+◌, ◌-◌, ◌*◌, ◌/◌, ◌%◌, ◌^◌, min, List, [], ◌∷◌, Option, none, some, Bytes, ltb,
  if◌then◌else◌, length, take, drop,
}
use yacl_r.Channel.State.{ChunkedMessage}
use yacl_r.Channel.Receive.{Request, mono, chunked, add_chunk}

-- The bytes of chunk `i`, for `bytes_per_chunk` bytes to a chunk.
abbrev pub chunk_offset : ℕ → ℕ → ℕ
chunk_offset bytes_per_chunk i = i * bytes_per_chunk

pub chunk_bytes : ℕ → Bytes → ℕ → Bytes
chunk_bytes bytes_per_chunk value i =
    take (min bytes_per_chunk (length value - chunk_offset bytes_per_chunk i))
      (drop (chunk_offset bytes_per_chunk i) value)

-- `(num_bytes + bytes_per_chunk - 1) / bytes_per_chunk` in `size_t`
unfoldable pub num_chunks : ℕ → ℕ → ℕ
num_chunks bytes_per_chunk num_bytes =
    ((num_bytes + bytes_per_chunk + 2 ^ 64 - 1) % 2 ^ 64) / bytes_per_chunk

-- The rounds of the loop that are left, from chunk `i` on.
chunk_requests : ℕ → Bytes → Bytes → ℕ → ℕ → List Request
chunk_requests bytes_per_chunk key value zero i = []
chunk_requests bytes_per_chunk key value (suc n) i =
    chunked key (chunk_bytes bytes_per_chunk value i) (chunk_offset bytes_per_chunk i)
      (length value)
    ∷ chunk_requests bytes_per_chunk key value n (i + 1)

pub send_chunked : ℕ → Bytes → Bytes → List Request
unfolding chunk_requests
send_chunked bytes_per_chunk key value =
    chunk_requests bytes_per_chunk key value (num_chunks bytes_per_chunk (length value)) 0

pub send_impl : ℕ → Bytes → Bytes → List Request
send_impl max_bytes_per_chunk key value =
    if ltb max_bytes_per_chunk (length value)
    then send_chunked max_bytes_per_chunk key value
    else mono key value ∷ []

-- The chunks of the given indices reach the receiver in this order.
pub add_chunks : ℕ → Bytes → List ℕ → ChunkedMessage → Option ChunkedMessage
add_chunks b value [] t = some t
add_chunks b value (i ∷ is) t = elim (add_chunk t (chunk_offset b i) (chunk_bytes b value i)) [
  | none ↦ none
  | some t' ↦ add_chunks b value is t'
]
