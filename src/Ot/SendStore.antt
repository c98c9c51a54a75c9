-- ===== src/Ot/SendStore.antt =====
-- `OtSendStore` (yacl/ot/ot_store.h, ot_store.cc). The buffer that a store and its slices share is an
-- argument of each operation; one that writes returns it.
pub mod Messages
use Prim.Native.Nat.{bit_xor}
use yacl_r.Base.{
  ℕ, ◌+◌, ◌-◌, ◌*◌, ◌/◌, ◌%◌, ◌^◌, Bool, not, ◌||◌, true, false, List, Option, none, some, Result,
  ok, err, enforce_not_met, fault, ◌>>=◌, ◌>>◌, enforce, ltb, leb, ◌==◌, if◌then◌else◌, length, set,
  take, drop, replicate,
}
use yacl_r.Ot.Slice
use yacl_r.Ot.Slice.{
  OtStoreType, normal, compact, init_ctrs, consistency_check, is_sliced, get_buf_idx,
  increase_buf_ctr, read,
}

pub record OtSendStore : Type 0 where
  pub slice : Slice.Slice
  pub type : OtStoreType
  pub delta : ℕ

-- `ConsistencyCheck`
check : List ℕ → OtSendStore → Result OtSendStore
check blk s = do consistency_check s.slice; enforce (leb s.slice.buf_size (length blk)); ok s

-- Blocks to an OT: normal mode stores both messages.
abbrev pub ot_blk_num : OtStoreType → ℕ
ot_blk_num normal = 2
ot_blk_num compact = 1

unfoldable pub new : ℕ → OtStoreType → Result (OtSendStore × List ℕ)
unfolding check
new num type = do
  let buf_size : ℕ = (num * ot_blk_num type) % 2 ^ 64
  let blk : List ℕ = replicate buf_size 0
  s ← check blk (record { slice = init_ctrs 0 buf_size 0 buf_size; type = type; delta = 0 })
  ok (s, blk)

-- `Slice(begin, end)`, in OTs.
unfoldable pub slice : List ℕ → ℕ → ℕ → OtSendStore → Result OtSendStore
unfolding check
slice blk begin end s =
    let k = ot_blk_num s.type in
    check blk (record s {
      slice =
          init_ctrs ((begin * k) % 2 ^ 64) (((end + 2 ^ 64 - begin) % 2 ^ 64 * k) % 2 ^ 64)
            ((begin * k) % 2 ^ 64) ((end * k) % 2 ^ 64);
    })

unfoldable pub next_slice : List ℕ → ℕ → OtSendStore → Result (OtSendStore × OtSendStore)
unfolding slice
next_slice blk num s = do
  let k : ℕ = ot_blk_num s.type
  out ← slice blk (s.slice.buf_ctr / k) ((s.slice.buf_ctr / k + num) % 2 ^ 64) s
  rest ← increase_buf_ctr ((num * k) % 2 ^ 64) s.slice
  ok (out, record s { slice = rest })

pub size : OtSendStore → ℕ
size s = elim s.type [ compact ↦ s.slice.use_size | normal ↦ s.slice.use_size / 2 ]

pub get_delta : OtSendStore → Result ℕ
get_delta s = do enforce (not (s.delta == 0)); ok s.delta

pub set_delta : ℕ → OtSendStore → Result OtSendStore
set_delta delta s = do enforce (not (delta == 0)); ok (record s { delta = delta })

unfoldable pub get_block : List ℕ → OtSendStore → ℕ → ℕ → Result ℕ
get_block blk s ot_idx msg_idx = do
  enforce (msg_idx == 0 || msg_idx == 1)
  if s.delta == 0
      then (do i ← get_buf_idx s.slice ((2 * ot_idx) % 2 ^ 64); read blk ((i + msg_idx) % 2 ^ 64))
      else (do
        i ← get_buf_idx s.slice ((ot_blk_num s.type * ot_idx) % 2 ^ 64)
        b ← read blk i
        ok (bit_xor b (s.delta * msg_idx)))

is_normal : OtStoreType → Bool
is_normal normal = true
is_normal compact = false

pub set_normal_block : List ℕ → OtSendStore → ℕ → ℕ → ℕ → Result (List ℕ)
unfolding is_normal
set_normal_block blk s ot_idx msg_idx val = do
  enforce (is_normal s.type)
  enforce (msg_idx == 0 || msg_idx == 1)
  i ← get_buf_idx s.slice ((ot_idx * 2 + msg_idx) % 2 ^ 64)
  _ ← read blk i
  ok (set blk i val)

pub set_compact_block : List ℕ → OtSendStore → ℕ → ℕ → Result (List ℕ)
unfolding is_normal
set_compact_block blk s ot_idx val = do
  enforce (not (is_normal s.type))
  i ← get_buf_idx s.slice ot_idx
  _ ← read blk i
  ok (set blk i val)

-- `CopyCotBlkBuf` copies `use_size` blocks from the buffer counter on; past the buffer's end that is
-- undefined.
pub copy_cot_blk_buf : List ℕ → OtSendStore → Result (List ℕ)
unfolding is_normal
copy_cot_blk_buf blk s = do
  enforce (not (is_normal s.type))
  if leb (s.slice.buf_ctr + s.slice.use_size) (length blk)
      then ok (take s.slice.use_size (drop s.slice.buf_ctr blk))
      else err fault

pub reset : OtSendStore → Result OtSendStore
reset s = do cleared ← Slice.reset s.slice; ok (record s { slice = cleared; type = compact })

pub get_blk_buf : List ℕ → List ℕ
get_blk_buf blk = blk

pub get_blk_buf_span : List ℕ → OtSendStore → Result (List ℕ)
get_blk_buf_span blk s = do enforce (not (is_sliced s.slice)); ok (take s.slice.buf_size blk)

pub steal_blk_buf : ℕ → List ℕ → OtSendStore → Result (List ℕ × OtSendStore)
unfolding reset
steal_blk_buf use_count blk s = do enforce (use_count == 1); cleared ← reset s; ok (blk, cleared)
