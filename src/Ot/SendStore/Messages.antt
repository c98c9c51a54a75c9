-- ===== src/Ot/SendStore/Messages.antt =====
-- The two messages of an OT at the sender.
use Prim.Native.Nat.{bit_xor}
use yacl_r.Base.{
  ℕ, ◌+◌, ◌*◌, ◌%◌, ◌^◌, ◌≤◌, ◌<◌, ◌≡◌, ◌≢◌, ◌||◌, ◌&&◌, true, false, List, some, arith, ok, err,
  fault, ltb, ◌==◌, if◌then◌else◌, length, set, get_elem?, length-set, get_elem?-some,
  get_elem?-set,
}
use yacl_r.Ot.Slice.{normal, compact, get_buf_idx, increase_buf_ctr, read}
use yacl_r.Ot.SendStore.{
  OtSendStore, next_slice, get_block, set_normal_block, copy_cot_blk_buf, is_normal, ot_blk_num,
}

pub record IsValid (blk : List ℕ) (s : OtSendStore) : Type 0 where
  pub not_empty : 0 < s.slice.use_size
  pub use_in : s.slice.use_ctr + s.slice.use_size ≤ s.slice.buf_size
  pub ctr_in : s.slice.buf_ctr ≤ s.slice.buf_size
  pub buf_in : s.slice.buf_size ≤ length blk
  pub addressable : length blk < 2 ^ 63

set-IsValid : (blk : List ℕ) (s : OtSendStore) (i x : ℕ) → IsValid blk s → IsValid (set blk i x) s
set-IsValid blk s i x v =
    let len = length-set blk i x in
    record {
      not_empty = v.not_empty;
      use_in = v.use_in;
      ctr_in = v.ctr_in;
      buf_in = omega (arith, len);
      addressable = omega (arith, len);
    }

get_buf_idx_lem :
    (blk : List ℕ) (s : OtSendStore) (i : ℕ)
    → IsValid blk s
    → i < s.slice.use_size
    → get_buf_idx s.slice (i % 2 ^ 64) ≡ ok (s.slice.use_ctr + i)
unfolding get_buf_idx
get_buf_idx_lem blk s i v h =
    let small : i % 2 ^ 64 ≡ i = omega arith in
    let w : (s.slice.use_ctr + i) % 2 ^ 64 ≡ s.slice.use_ctr + i = omega arith in
    let e : ltb i s.slice.use_size ≡ true = ground arith in rw (small, w, e)

-- In a correlated store both messages of OT `i` come from the one block at its place: the first is
-- that block, and the second is that block xor `delta`.
pub get_block_correlated :
    (blk : List ℕ) (s : OtSendStore) (i : ℕ)
    → IsValid blk s
    → s.delta ≢ 0
    → ot_blk_num s.type * i < s.slice.use_size
    → (x : ℕ) × (get_elem? blk (s.slice.use_ctr + ot_blk_num s.type * i) ≡ some x)
      × (get_block blk s i 0 ≡ ok (bit_xor x 0))
      × (get_block blk s i 1 ≡ ok (bit_xor x s.delta))
unfolding get_block
get_block_correlated blk s i v h fits =
    let k = ot_blk_num s.type * i in
    let (x, there) = get_elem?-some blk (s.slice.use_ctr + k) (omega arith) in
    let idx = get_buf_idx_lem blk s k v fits in
    let d : (s.delta == 0) ≡ false = ground arith in
    let zero_times : s.delta * 0 ≡ 0 = omega arith in
    let one_time : s.delta * 1 ≡ s.delta = omega arith in
    (x, there, rw (d, idx, there, zero_times), rw (d, idx, there, one_time))

get_block_random :
    (blk : List ℕ) (s : OtSendStore) (j c : ℕ)
    → IsValid blk s
    → s.delta ≡ 0
    → c < 2
    → 2 * j + 1 < s.slice.use_size
    → get_block blk s j c ≡ read blk (s.slice.use_ctr + (j * 2 + c))
unfolding get_block
get_block_random blk s j c v d hc hj =
    let idx = get_buf_idx_lem blk s (2 * j) v (omega arith) in
    let is_msg : (c == 0 || c == 1) ≡ true = ground arith in
    let no_delta : (s.delta == 0) ≡ true = ground arith in
    let place : (s.slice.use_ctr + 2 * j + c) % 2 ^ 64 ≡ s.slice.use_ctr + (j * 2 + c) =
      omega arith in
    rw (is_msg, no_delta, idx, place)

set_normal_block_lem :
    (blk : List ℕ) (s : OtSendStore) (i b x : ℕ)
    → IsValid blk s
    → s.type ≡ normal
    → b < 2
    → 2 * i + 1 < s.slice.use_size
    → set_normal_block blk s i b x ≡ ok (set blk (s.slice.use_ctr + (i * 2 + b)) x)
unfolding set_normal_block
set_normal_block_lem blk s i b x v t hb hi =
    let k = i * 2 + b in
    let idx = get_buf_idx_lem blk s k v (omega arith) in
    let is_msg : (b == 0 || b == 1) ≡ true = ground arith in
    let (old, there) = get_elem?-some blk (s.slice.use_ctr + k) (omega arith) in
    let mode : is_normal s.type ≡ true = unfold is_normal in ground (arith, t) in
    rw (mode, is_msg, idx, there)

-- In a store of random OTs each message has a block of its own: after `SetNormalBlock` of message `b`
-- of OT `i`, `GetBlock` gives the new block there, and every other message as before.
pub get_block-set_normal_block :
    (blk : List ℕ) (s : OtSendStore) (i b j c x : ℕ)
    → IsValid blk s
    → s.type ≡ normal
    → s.delta ≡ 0
    → b < 2
    → c < 2
    → 2 * i + 1 < s.slice.use_size
    → 2 * j + 1 < s.slice.use_size
    → let blk' = set blk (s.slice.use_ctr + (i * 2 + b)) x in
      (set_normal_block blk s i b x ≡ ok blk')
      × (get_block blk' s j c ≡ (if i == j && b == c then ok x else get_block blk s j c))
get_block-set_normal_block blk s i b j c x v t d hb hc hi hj =
    let k = s.slice.use_ctr + (i * 2 + b) in
    let blk' = set blk k x in
    let v' = set-IsValid blk s k x v in
    (
      set_normal_block_lem blk s i b x v t hb hi,
      ground (
        arith,
        get_block_random blk' s j c v' d hc hj,
        get_block_random blk s j c v d hc hj,
        get_elem?-set blk k (s.slice.use_ctr + (j * 2 + c)) x (omega arith),
      ),
    )

-- After a slice has been taken from a compact store that spans its whole buffer, `CopyCotBlkBuf` of
-- the store itself reads past the end of the buffer.
pub copy_cot_after_next_slice :
    (blk : List ℕ) (s a s' : OtSendStore) (n : ℕ)
    → s.type ≡ compact
    → IsValid blk s
    → s.slice.use_size ≡ length blk
    → 0 < n
    → n < 2 ^ 64
    → next_slice blk n s ≡ ok (a, s')
    → copy_cot_blk_buf blk s' ≡ err fault
unfolding copy_cot_blk_buf next_slice increase_buf_ctr
copy_cot_after_next_slice blk s a s' n c v whole pos m h = ground (arith, c)
