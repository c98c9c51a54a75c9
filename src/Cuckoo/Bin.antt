-- ===== src/Cuckoo/Bin.antt =====
-- `CuckooIndex::Bin` (yacl/coding/batch/cuckoo_index.h): 8 bits of hash index, 56 bits of input index.
use Prim.Native.Nat.{bit_or}
use yacl_r.Base.{ℕ, ◌+◌, ◌-◌, ◌*◌, ◌/◌, ◌%◌, ◌^◌, ◌<◌, ◌≡◌, ◌∙◌, Bool, false, arith, ◌==◌}
use yacl_r.Base.Bits.{bit_or-shifted}

abbrev pub k_empty : ℕ
k_empty = 2 ^ 64 - 1

unfoldable pub is_empty : ℕ → Bool
is_empty encoded = encoded == k_empty

unfoldable pub hash_idx : ℕ → ℕ
hash_idx encoded = encoded / 2 ^ 56 % 256

unfoldable pub input_idx : ℕ → ℕ
input_idx encoded = encoded % 2 ^ 56

-- `hash` is an uint8_t.
unfoldable pub encode : ℕ → ℕ → ℕ
encode input hash = bit_or input (hash % 256 * 2 ^ 56)

pub encode_sum :
    (input hash : ℕ) → input < 2 ^ 56 → hash < 256 → encode input hash ≡ input + hash * 2 ^ 56
unfolding encode
encode_sum input hash hi hh = bit_or-shifted 56 input (hash % 256) hi ∙ omega arith

-- An encoded bin gives both indices back, and is not the empty one, for input indices below
-- 2 ^ 56 - 1 and hash indices of eight bits.
pub encode_lem :
    (input hash : ℕ)
    → input + 1 < 2 ^ 56
    → hash < 256
    → (input_idx (encode input hash) ≡ input)
      × (hash_idx (encode input hash) ≡ hash)
      × (is_empty (encode input hash) ≡ false)
unfolding input_idx hash_idx is_empty
encode_lem input hash hi hh =
    rw (encode_sum input hash (omega arith) hh) (omega arith, omega arith, not_same _ (omega arith))
  where
    not_same : (n : ℕ) → n < k_empty → (n == k_empty) ≡ false
    not_same n h = ground arith
