-- ===== src/Channel/Chunks/Splice.antt =====
-- Bytes copied into a buffer (`memcpy` of `ChunkedMessage::AddChunk`, link/transport/channel.cc).
use yacl_r.Base.{
  ℕ, ◌+◌, ◌-◌, ◌≤◌, ◌<◌, ◌≡◌, ◌∙◌, ◌++◌, some, arith, Bytes, length, take, drop, get_elem?,
  length-append, length-take, length-drop,
}
use yacl_r.Base.Index.{
  get_elem?-append_left, get_elem?-append_right, get_elem?-take, get_elem?-drop,
}
use yacl_r.Channel.Receive.{copy_at}

-- `m` with `bytes` written over it from `offset` on.
abbrev pub splice : Bytes → ℕ → Bytes → Bytes
splice m offset bytes = take offset m ++ (bytes ++ drop (offset + length bytes) m)

pub copy_at-splice :
    (m : Bytes) (offset : ℕ) (bytes : Bytes)
    → offset + length bytes ≤ length m
    → copy_at m offset bytes ≡ some (splice m offset bytes)
unfolding copy_at
copy_at-splice m offset bytes h = ground arith

pub length-splice :
    (m : Bytes) (offset : ℕ) (bytes : Bytes)
    → offset + length bytes ≤ length m
    → length (splice m offset bytes) ≡ length m
length-splice m offset bytes h = omega (
  arith,
  length-append (take offset m) (bytes ++ drop (offset + length bytes) m),
  length-append bytes (drop (offset + length bytes) m),
  length-take offset m,
  length-drop (offset + length bytes) m,
)

-- Inside the written range a splice reads the new bytes, outside the old ones.
pub splice_inside :
    (m : Bytes) (offset : ℕ) (bytes : Bytes) (q : ℕ)
    → offset + length bytes ≤ length m
    → q < length bytes
    → get_elem? (splice m offset bytes) (offset + q) ≡ get_elem? bytes q
splice_inside m offset bytes q h lt =
    get_elem?-append_right (take offset m) _ (offset + q) q (omega (arith, length-take offset m))
    ∙ get_elem?-append_left bytes _ q lt

pub splice_before :
    (m : Bytes) (offset : ℕ) (bytes : Bytes) (p : ℕ)
    → offset + length bytes ≤ length m
    → p < offset
    → get_elem? (splice m offset bytes) p ≡ get_elem? m p
splice_before m offset bytes p h lt =
    get_elem?-append_left (take offset m) _ p (omega (arith, length-take offset m))
    ∙ get_elem?-take offset m p lt

pub splice_after :
    (m : Bytes) (offset : ℕ) (bytes : Bytes) (p : ℕ)
    → offset + length bytes ≤ length m
    → offset + length bytes ≤ p
    → get_elem? (splice m offset bytes) p ≡ get_elem? m p
splice_after m offset bytes p h le =
    get_elem?-append_right (take offset m) _ p (p - offset) (omega (arith, length-take offset m))
    ∙ get_elem?-append_right bytes _ (p - offset) (p - (offset + length bytes)) (omega arith)
    ∙ get_elem?-drop (offset + length bytes) m (p - (offset + length bytes)) p (omega arith)
