-- ===== src/Ot/RecvStore/Slices.antt =====
-- Slices of a receiver's store, and writes through one of them (yacl/ot/ot_store.cc).
use yacl_r.Base.{
  ℕ, ◌+◌, ◌-◌, ◌%◌, ◌^◌, ◌≤◌, ◌<◌, ◌≡◌, ◌⊎◌, refl, sym, subst, ◌∙◌, true, ◌&&◌, arith, ok, err,
  enforce_not_met, ltb, leb, ◌==◌, if◌then◌else◌, length, set, length-set, get_elem?-some,
  get_elem?-set, Bool-cases, inl, inr,
}
use yacl_r.Ot.Slice
use yacl_r.Ot.Slice.{
  OtStoreType, normal, compact, init_ctrs, consistency_check, get_buf_idx, increase_buf_ctr, read,
}
use yacl_r.Ot.RecvStore.{Buffers, OtRecvStore, slice, next_slice, get_block, set_block, reset}

-- The counters stay in the buffer, and there is a bit for each block in normal mode.
pub record IsValid (m : Buffers) (s : OtRecvStore) : Type 0 where
  pub not_empty : 0 < s.slice.use_size
  pub use_in : s.slice.use_ctr + s.slice.use_size ≤ s.slice.buf_size
  pub ctr_in : s.slice.buf_ctr ≤ s.slice.buf_size
  pub buf_in : s.slice.buf_size ≤ length m.blk
  pub addressable : length m.blk < 2 ^ 64
  pub bits : (s.type ≡ compact) ⊎ (length m.bit ≡ length m.blk)

-- `Slice(begin, end)` succeeds exactly for `begin < end` within the buffer, and then spans that range;
-- everything else is refused.
pub slice_lem :
    (m : Buffers) (s : OtRecvStore) (begin end : ℕ)
    → IsValid m s
    → begin < 2 ^ 64
    → end < 2 ^ 64
    → slice m begin end s ≡ (
        if ltb begin end && leb end (length m.blk)
        then ok (record { slice = init_ctrs begin (end - begin) begin end; type = s.type })
        else err enforce_not_met)
unfolding slice consistency_check
slice_lem m s begin end v hb he = elim (Bool-cases (ltb begin end)) [
  | inl e ↦
      let w : (end + 2 ^ 64 - begin) % 2 ^ 64 ≡ end - begin = ground arith in
      rw w (ground (arith, v.bits))
  | inr e ↦ ground (arith, v.bits)
]

-- A slice that was made is valid over the same buffers.
pub slice-IsValid :
    (m : Buffers) (s t : OtRecvStore) (begin end : ℕ)
    → IsValid m s
    → begin < 2 ^ 64
    → end < 2 ^ 64
    → slice m begin end s ≡ ok t
    → IsValid m t
slice-IsValid m s t begin end v hb he h = ground (arith, slice_lem m s begin end v hb he, v.bits)

-- In a valid store, `GetBlock` reads the block at the slice's start plus the index, and refuses an
-- index past the slice.
pub get_block_lem :
    (m : Buffers) (s : OtRecvStore) (i : ℕ)
    → IsValid m s
    → get_block m s i
      ≡ (if ltb i s.slice.use_size then read m.blk (s.slice.use_ctr + i) else err enforce_not_met)
unfolding get_block get_buf_idx
get_block_lem m s i v = elim (Bool-cases (ltb i s.slice.use_size)) [
  | inl e ↦ let w : (s.slice.use_ctr + i) % 2 ^ 64 ≡ s.slice.use_ctr + i = ground arith in rw (e, w)
  | inr e ↦ rw e
]

-- A slice reads the blocks of its range: `GetBlock(i)` of `Slice(begin, end)` is block `begin + i` of
-- the buffer for `i < end - begin`, and is refused beyond.
pub get_block-slice :
    (m : Buffers) (s t : OtRecvStore) (begin end i : ℕ)
    → IsValid m s
    → begin < 2 ^ 64
    → end < 2 ^ 64
    → slice m begin end s ≡ ok t
    → get_block m t i
      ≡ (if ltb i (end - begin) then read m.blk (begin + i) else err enforce_not_met)
get_block-slice m s t begin end i v hb he h =
    let t_valid = slice-IsValid m s t begin end v hb he h in
    ground (arith, slice_lem m s begin end v hb he, get_block_lem m t i t_valid)

-- `SetBlock` within the slice writes that block.
set_block_lem :
    (m : Buffers) (s : OtRecvStore) (i x : ℕ)
    → IsValid m s
    → i < s.slice.use_size
    → set_block m s i x ≡ ok (record m { blk = set m.blk (s.slice.use_ctr + i) x })
unfolding set_block get_buf_idx
set_block_lem m s i x v h =
    let w : (s.slice.use_ctr + i) % 2 ^ 64 ≡ s.slice.use_ctr + i = ground arith in
    let (old, there) = get_elem?-some m.blk (s.slice.use_ctr + i) (ground arith) in
    let e : ltb i s.slice.use_size ≡ true = ground arith in rw (w, e, there)

-- A `SetBlock` within one store is seen by every store over the same buffers exactly at the index, if
-- it has one, that stands for the same block; all else reads as before.
pub get_block-set_block :
    (m : Buffers) (s t : OtRecvStore) (i j x : ℕ)
    → IsValid m s
    → IsValid m t
    → i < s.slice.use_size
    → j < t.slice.use_size
    → let m' = record m { blk = set m.blk (s.slice.use_ctr + i) x } in
      (set_block m s i x ≡ ok m')
      × IsValid m' t
      × (get_block m' t j
          ≡ (if s.slice.use_ctr + i == t.slice.use_ctr + j then ok x else get_block m t j))
get_block-set_block m s t i j x vs vt hi hj =
    let k = s.slice.use_ctr + i in
    let m' : Buffers = record m { blk = set m.blk k x } in
    let len = length-set m.blk k x in
    let vt' : IsValid m' t = record {
      not_empty = vt.not_empty;
      use_in = vt.use_in;
      ctr_in = vt.ctr_in;
      buf_in = omega (arith, len);
      addressable = omega (arith, len);
      bits = elim vt.bits [ inl e ↦ inl e | inr e ↦ inr (e ∙ sym len) ];
    } in
    (
      set_block_lem m s i x vs hi,
      vt',
      ground (
        arith,
        get_block_lem m' t j vt',
        get_block_lem m t j vt,
        get_elem?-set m.blk k (t.slice.use_ctr + j) x (omega arith),
      ),
    )

-- What `NextSlice(n)` leaves, with the slice that it takes.
abbrev pub sliced : ℕ → OtRecvStore → OtRecvStore × OtRecvStore
sliced n s = (
  record {
    slice = init_ctrs s.slice.buf_ctr n s.slice.buf_ctr (s.slice.buf_ctr + n);
    type = s.type;
  },
  record s { slice = record (s.slice) { buf_ctr = s.slice.buf_ctr + n } },
)

increase_buf_ctr_lem :
    (n : ℕ) (s : Slice.Slice)
    → s.buf_ctr ≤ s.buf_size
    → s.buf_size < 2 ^ 64
    → increase_buf_ctr n s ≡ (
        if leb (s.buf_ctr + n) s.buf_size
        then ok (record s { buf_ctr = s.buf_ctr + n })
        else err enforce_not_met)
unfolding increase_buf_ctr
increase_buf_ctr_lem n s h m =
    let left : (s.buf_size + 2 ^ 64 - s.buf_ctr) % 2 ^ 64 ≡ s.buf_size - s.buf_ctr = omega arith in
    elim (Bool-cases (leb (s.buf_ctr + n) s.buf_size)) [
      | inl e ↦
          let w : (s.buf_ctr + n) % 2 ^ 64 ≡ s.buf_ctr + n = ground arith in
          rw (left, w, e) (ground arith)
      | inr e ↦ rw (left, e) (ground arith)
    ]

-- `NextSlice(n)` succeeds exactly if `n` is positive and that many blocks are left behind the counter.
-- It takes the `n` blocks from the counter on, and moves the counter past them.
pub next_slice_lem :
    (m : Buffers) (s : OtRecvStore) (n : ℕ)
    → IsValid m s
    → n < 2 ^ 64
    → next_slice m n s ≡ (
        if ltb 0 n && leb (s.slice.buf_ctr + n) s.slice.buf_size
        then ok (sliced n s)
        else err enforce_not_met)
unfolding next_slice
next_slice_lem m s n v h = ground (
  arith,
  slice_lem m s s.slice.buf_ctr ((s.slice.buf_ctr + n) % 2 ^ 64) v (omega arith) (omega arith),
  increase_buf_ctr_lem n s.slice v.ctr_in (omega arith),
)

sliced-IsValid :
    (m : Buffers) (s : OtRecvStore) (n : ℕ)
    → IsValid m s
    → 0 < n
    → s.slice.buf_ctr + n ≤ s.slice.buf_size
    → IsValid m (sliced n s).0 × IsValid m (sliced n s).1
sliced-IsValid m s n v pos h = (
  record {
    not_empty = pos;
    use_in = omega arith;
    ctr_in = omega arith;
    buf_in = omega arith;
    addressable = v.addressable;
    bits = v.bits;
  },
  record {
    not_empty = v.not_empty;
    use_in = v.use_in;
    ctr_in = h;
    buf_in = v.buf_in;
    addressable = v.addressable;
    bits = v.bits;
  },
)

-- What a `NextSlice` that succeeded has done.
record Took (m : Buffers) (n : ℕ) (s a s' : OtRecvStore) : Type 0 where
  slice_eq : a ≡ (sliced n s).0
  rest_eq : s' ≡ (sliced n s).1
  slice_valid : IsValid m a
  rest_valid : IsValid m s'

next_slice-Took :
    (m : Buffers) (s a s' : OtRecvStore) (n : ℕ)
    → IsValid m s
    → n < 2 ^ 64
    → next_slice m n s ≡ ok (a, s')
    → Took m n s a s'
next_slice-Took m s a s' n v hn h =
    let lem = next_slice_lem m s n v hn in
    let pos : 0 < n = ground (arith, lem) in
    let fits : s.slice.buf_ctr + n ≤ s.slice.buf_size = ground (arith, lem) in
    let both = sliced-IsValid m s n v pos fits in
    let ea : a ≡ (sliced n s).0 = ground (arith, lem) in
    let es : s' ≡ (sliced n s).1 = ground (arith, lem) in
    record {
      slice_eq = ea;
      rest_eq = es;
      slice_valid = subst (IsValid m) (sym ea) both.0;
      rest_valid = subst (IsValid m) (sym es) both.1;
    }

-- Two slices taken one after the other are valid and do not overlap: a write through one leaves every
-- block that the other reads as it was.
pub next_slice-disjoint :
    (m : Buffers) (s a s' b s'' : OtRecvStore) (n k i j x : ℕ)
    → IsValid m s
    → n < 2 ^ 64
    → k < 2 ^ 64
    → next_slice m n s ≡ ok (a, s')
    → next_slice m k s' ≡ ok (b, s'')
    → i < n
    → j < k
    → let m' = record m { blk = set m.blk (a.slice.use_ctr + i) x } in
      (set_block m a i x ≡ ok m') × (get_block m' b j ≡ get_block m b j) × IsValid m s''
next_slice-disjoint m s a s' b s'' n k i j x v hn hk h1 h2 hi hj =
    let first = next_slice-Took m s a s' n v hn h1 in
    let second = next_slice-Took m s' b s'' k first.rest_valid hk h2 in
    let a_ctr : a.slice.use_ctr ≡ s.slice.buf_ctr = ground (arith, first.slice_eq) in
    let a_size : a.slice.use_size ≡ n = ground (arith, first.slice_eq) in
    let b_ctr : b.slice.use_ctr ≡ s.slice.buf_ctr + n =
      ground (arith, first.rest_eq, second.slice_eq) in
    let b_size : b.slice.use_size ≡ k = ground (arith, second.slice_eq) in
    let both =
      get_block-set_block m a b i j x first.slice_valid second.slice_valid (omega arith)
        (omega arith) in
    (both.0, ground (arith, both.2), second.rest_valid)

-- `Reset` throws whatever the store: it clears the counters and then checks that they are positive.
pub reset_throws : (s : OtRecvStore) → reset s ≡ err enforce_not_met
unfolding reset Slice.reset
reset_throws s = refl
