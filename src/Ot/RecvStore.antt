-- ===== src/Ot/RecvStore.antt =====
-- `OtRecvStore` (yacl/ot/ot_store.h, ot_store.cc). The buffers that a store and its slices share are
-- an argument of each operation; one that writes returns them.
pub mod Slices
pub mod Copies
use Prim.Native.Nat.{bit_and}
use yacl_r.Base.{
  ℕ, zero, suc, ◌++◌, ◌+◌, ◌-◌, ◌%◌, ◌^◌, Bool, not, true, false, List, [], ◌∷◌, Option, none, some,
  Result, ok, err, enforce_not_met, fault, ◌>>=◌, ◌>>◌, enforce, ltb, leb, ◌==◌, if◌then◌else◌,
  length, get_elem?, set, take, drop, replicate,
}
use yacl_r.Ot.Slice
use yacl_r.Ot.Slice.{
  OtStoreType, normal, compact, init_ctrs, consistency_check, is_sliced, get_buf_idx,
  increase_buf_ctr, read,
}

-- `*blk_buf_` and `*bit_buf_`. In compact mode there are no bits.
pub record Buffers : Type 0 where
  pub blk : List ℕ
  pub bit : List Bool

pub record OtRecvStore : Type 0 where
  pub slice : Slice.Slice
  pub type : OtStoreType

-- `ConsistencyCheck`
check : Buffers → OtRecvStore → Result OtRecvStore
check m s = do
  consistency_check s.slice
  enforce (leb s.slice.buf_size (length m.blk))
  enforce (elim s.type [ normal ↦ length m.bit == length m.blk | compact ↦ true ])
  ok s

-- The empty constructor, with the buffers that it makes.
unfoldable pub new : ℕ → OtStoreType → Result (OtRecvStore × Buffers)
unfolding check
new num type = do
  let m : Buffers = record {
    blk = replicate num 0;
    bit = elim type [ normal ↦ replicate num false | compact ↦ [] ];
  }
  s ← check m (record { slice = init_ctrs 0 num 0 num; type = type })
  ok (s, m)

-- `Slice(begin, end)`, positions in the whole buffer.
unfoldable pub slice : Buffers → ℕ → ℕ → OtRecvStore → Result OtRecvStore
unfolding check
slice m begin end s =
    check m (record {
      slice = init_ctrs begin ((end + 2 ^ 64 - begin) % 2 ^ 64) begin end;
      type = s.type;
    })

-- The new slice, and the store that it was taken from.
unfoldable pub next_slice : Buffers → ℕ → OtRecvStore → Result (OtRecvStore × OtRecvStore)
unfolding slice
next_slice m num s = do
  out ← slice m s.slice.buf_ctr ((s.slice.buf_ctr + num) % 2 ^ 64) s
  rest ← increase_buf_ctr num s.slice
  ok (out, record s { slice = rest })

pub size : OtRecvStore → ℕ
size s = s.slice.use_size

unfoldable pub get_block : Buffers → OtRecvStore → ℕ → Result ℕ
get_block m s idx = do enforce (ltb idx s.slice.use_size); i ← get_buf_idx s.slice idx; read m.blk i

pub set_block : Buffers → OtRecvStore → ℕ → ℕ → Result Buffers
set_block m s idx val = do
  i ← get_buf_idx s.slice idx
  _ ← read m.blk i
  ok (record m { blk = set m.blk i val })

is_normal : OtStoreType → Bool
is_normal normal = true
is_normal compact = false

pub get_choice : Buffers → OtRecvStore → ℕ → Result Bool
get_choice m s idx = do
  enforce (ltb idx s.slice.use_size)
  i ← get_buf_idx s.slice idx
  elim s.type [ compact ↦ do b ← read m.blk i; ok (bit_and b 1 == 1) | normal ↦ read m.bit i ]

pub set_choice : Buffers → OtRecvStore → ℕ → Bool → Result Buffers
unfolding is_normal
set_choice m s idx val = do
  enforce (is_normal s.type)
  i ← get_buf_idx s.slice idx
  _ ← read m.bit i
  ok (record m { bit = set m.bit i val })

pub flip_choice : Buffers → OtRecvStore → ℕ → Result Buffers
unfolding is_normal
flip_choice m s idx = do
  enforce (is_normal s.type)
  i ← get_buf_idx s.slice idx
  b ← read m.bit i
  ok (record m { bit = set m.bit i (not b) })

-- The blocks of the slice.
pub copy_blk_buf : Buffers → OtRecvStore → List ℕ
copy_blk_buf m s = take s.slice.use_size (drop s.slice.use_ctr m.blk)

-- `Reset`: the counters first, so that the buffers are not reached.
pub reset : OtRecvStore → Result OtRecvStore
reset s = do cleared ← Slice.reset s.slice; ok (record { slice = cleared; type = compact })

pub get_blk_buf_span : Buffers → OtRecvStore → Result (List ℕ)
get_blk_buf_span m s = do enforce (not (is_sliced s.slice)); ok (take s.slice.buf_size m.blk)

-- The whole buffers, as blocks and as bits.
pub get_blk_buf : Buffers → List ℕ
get_blk_buf m = m.blk

pub get_bit_buf : Buffers → List Bool
get_bit_buf m = m.bit

-- `SetBitBuf` gives this store a bit buffer of its own.
pub set_bit_buf : Buffers → List Bool → Buffers
set_bit_buf m bits = record m { bit = bits }

-- The blocks, for `use_count` pointers to the buffer.
pub steal_blk_buf : ℕ → Buffers → OtRecvStore → Result (List ℕ × OtRecvStore)
unfolding reset
steal_blk_buf use_count m s = do enforce (use_count == 1); cleared ← reset s; ok (m.blk, cleared)

-- The lowest bits of `n` blocks from block `i` on.
low_bits : Buffers → OtRecvStore → ℕ → ℕ → Result (List Bool)
low_bits m s zero i = ok []
low_bits m s (suc n) i = do
  b ← get_block m s i
  rest ← low_bits m s n (i + 1)
  ok ((bit_and b 1 == 1) ∷ rest)

-- `out >>= ctr` fills with zeros, and so does `resize`.
pub copy_bit_buf : Buffers → OtRecvStore → Result (List Bool)
unfolding low_bits
copy_bit_buf m s = elim s.type [
  | compact ↦ low_bits m s s.slice.use_size 0
  | normal ↦
      ok (take s.slice.use_size (drop s.slice.use_ctr m.bit ++ replicate s.slice.use_size false))
]
