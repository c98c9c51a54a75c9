-- ===== src/Tests/Ot.antt =====
-- Stores of oblivious transfers (yacl/ot) on small inputs.
use yacl_r.Base.{
  ℕ, ◌+◌, ◌-◌, ◌≡◌, refl, true, false, Bool, List, List, [], ◌∷◌, arith, ok, err, enforce_not_met,
  length, ltb, if◌then◌else◌, set, inr,
}
use yacl_r.Ot.Slice.{normal, compact, init_ctrs, consistency_check, increase_buf_ctr, read}
use yacl_r.Ot.RecvStore
use yacl_r.Ot.RecvStore.{Buffers, OtRecvStore}
use yacl_r.Ot.RecvStore.Slices
use yacl_r.Ot.RecvStore.Copies
use yacl_r.Ot.SendStore.{OtSendStore}
use yacl_r.Ot.SendStore.Messages

abbrev four : Buffers
four = record { blk = 10 ∷ 11 ∷ 12 ∷ 13 ∷ []; bit = true ∷ false ∷ true ∷ false ∷ [] }

abbrev receiver : OtRecvStore
receiver = record { slice = init_ctrs 0 4 0 4; type = normal }

receiver-IsValid : Slices.IsValid four receiver
receiver-IsValid = record {
  not_empty = omega arith;
  use_in = omega arith;
  ctr_in = omega arith;
  buf_in = omega arith;
  addressable = omega arith;
  bits = inr refl;
}

abbrev middle : OtRecvStore
middle = record { slice = init_ctrs 1 2 1 3; type = normal }

middle-IsValid : Slices.IsValid four middle
middle-IsValid = record {
  not_empty = omega arith;
  use_in = omega arith;
  ctr_in = omega arith;
  buf_in = omega arith;
  addressable = omega arith;
  bits = inr refl;
}

get_block-slice_example :
    RecvStore.get_block four middle 1
    ≡ (if ltb 1 (3 - 1) then read four.blk (1 + 1) else err enforce_not_met)
unfolding RecvStore.slice consistency_check
get_block-slice_example =
    Slices.get_block-slice four receiver middle 1 3 1 receiver-IsValid (omega arith) (omega arith)
      refl

next_slice-disjoint_example :
    let m' = record four { blk = set four.blk (0 + 0) 9 } in
    (RecvStore.set_block four (Slices.sliced 1 receiver).0 0 9 ≡ ok m')
    × (RecvStore.get_block m' (Slices.sliced 2 (Slices.sliced 1 receiver).1).0 1
        ≡ RecvStore.get_block four (Slices.sliced 2 (Slices.sliced 1 receiver).1).0 1)
    × Slices.IsValid four (Slices.sliced 2 (Slices.sliced 1 receiver).1).1
unfolding RecvStore.next_slice RecvStore.slice consistency_check increase_buf_ctr
next_slice-disjoint_example =
    Slices.next_slice-disjoint four receiver (Slices.sliced 1 receiver).0
      (Slices.sliced 1 receiver).1 (Slices.sliced 2 (Slices.sliced 1 receiver).1).0
      (Slices.sliced 2 (Slices.sliced 1 receiver).1).1 1 2 0 1 9 receiver-IsValid (omega arith)
      (omega arith) refl refl (omega arith) (omega arith)

copy_bit_buf-get_choice_example :
    (l : List Bool) × (RecvStore.copy_bit_buf four middle ≡ ok l)
    × (length l ≡ 2)
    × (RecvStore.get_choice four middle 1 ≡ read l 1)
copy_bit_buf-get_choice_example =
    Copies.copy_bit_buf-get_choice four middle 1 middle-IsValid (omega arith)

abbrev blocks : List ℕ
blocks = 10 ∷ 11 ∷ 12 ∷ 13 ∷ []

abbrev correlated : OtSendStore
correlated = record { slice = init_ctrs 0 4 0 4; type = compact; delta = 5 }

correlated-IsValid : Messages.IsValid blocks correlated
correlated-IsValid = record {
  not_empty = omega arith;
  use_in = omega arith;
  ctr_in = omega arith;
  buf_in = omega arith;
  addressable = omega arith;
}

abbrev random : OtSendStore
random = record { slice = init_ctrs 0 4 0 4; type = normal; delta = 0 }

random-IsValid : Messages.IsValid blocks random
random-IsValid = record {
  not_empty = omega arith;
  use_in = omega arith;
  ctr_in = omega arith;
  buf_in = omega arith;
  addressable = omega arith;
}

abbrev taken : OtSendStore
taken = record { slice = init_ctrs 0 1 0 1; type = compact; delta = 5 }

abbrev left_over : OtSendStore
left_over = record { slice = init_ctrs 0 4 1 4; type = compact; delta = 5 }
