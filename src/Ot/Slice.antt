-- ===== src/Ot/Slice.antt =====
-- `SliceBase` (yacl/ot/slice_base.h, slice_base.cc).
use yacl_r.Base.{
  ℕ, ◌+◌, ◌-◌, ◌%◌, ◌^◌, Bool, not, List, Result, ok, fault, ◌>>◌, enforce, ltb, leb, ◌==◌,
  get_elem?, or_throw,
}

pub record Slice : Type 0 where
  pub use_ctr : ℕ
  pub use_size : ℕ
  pub buf_ctr : ℕ
  pub buf_size : ℕ

pub data OtStoreType : Type 0 where
  normal compact : OtStoreType

pub is_sliced : Slice → Bool
is_sliced s = not (s.buf_ctr == 0)

pub reset_slice : Slice → Slice
reset_slice s = record s { use_ctr = 0; use_size = s.buf_size; buf_ctr = 0 }

unfoldable pub consistency_check : Slice → Result (Unit {0})
consistency_check s = do
  enforce (ltb 0 s.use_size)
  enforce (ltb 0 s.buf_size)
  enforce (leb s.use_size s.buf_size)
  enforce (leb s.buf_ctr s.buf_size)

-- `InitCtrs`, before the check that a store makes of the counters and its buffers.
abbrev pub init_ctrs : ℕ → ℕ → ℕ → ℕ → Slice
init_ctrs use_ctr use_size buf_ctr buf_size = record {
  use_ctr = use_ctr;
  use_size = use_size;
  buf_ctr = buf_ctr;
  buf_size = buf_size;
}

unfoldable pub get_buf_idx : Slice → ℕ → Result ℕ
get_buf_idx s slice_idx = do
  enforce (ltb slice_idx s.use_size)
  ok ((s.use_ctr + slice_idx) % 2 ^ 64)

unfoldable pub increase_buf_ctr : ℕ → Slice → Result Slice
increase_buf_ctr size s = do
  enforce (leb size ((s.buf_size + 2 ^ 64 - s.buf_ctr) % 2 ^ 64))
  ok (record s { buf_ctr = (s.buf_ctr + size) % 2 ^ 64 })

unfoldable pub reset : Slice → Result Slice
unfolding consistency_check
reset s = do
  let cleared : Slice = record { use_ctr = 0; use_size = 0; buf_ctr = 0; buf_size = 0 }
  consistency_check cleared
  ok cleared

-- A read of a buffer; out of its bounds it is undefined.
abbrev pub read {ℓ} : {A : Type ℓ} → List A → ℕ → Result A
read buf i = or_throw (get_elem? buf i) fault
