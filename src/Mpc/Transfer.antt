-- ===== src/Mpc/Transfer.antt =====
-- `RunChosenOT` (yacl/mpc/ss_executor.cc): transfers of chosen messages from random ones. The random
-- transfers, which `OtKernel` makes, are arguments: two blocks for the sender, a bit and the block that
-- it chooses for the receiver.
pub mod Chosen
use Prim.Native.Nat.{bit_or, bit_xor}
use yacl_r.Base.{
  ℕ, zero, suc, ◌+◌, ◌*◌, ◌/◌, ◌%◌, ◌^◌, Bool, true, false, List, [], ◌∷◌, Option, none, some,
  Result, ok, err, fault, enforce, or_throw, ◌>>=◌, ◌>>◌, if◌then◌else◌, length, get_elem?, set,
  replicate, ltb, ◌==◌,
}
use yacl_r.Base.Bits.{bit}

pub record OtMessages : Type 0 where
  pub m0 : ℕ
  pub m1 : ℕ

abbrev pub k_min_ots : ℕ
k_min_ots = 2560

-- `padded` and `flip_words`
unfoldable pub flip_words : ℕ → ℕ
flip_words num_ots = ((if ltb num_ots k_min_ots then k_min_ots else num_ots) + 63) / 64

unfoldable pub unequal : Bool → Bool → Bool
unequal true true = false
unequal true false = true
unequal false true = true
unequal false false = false

-- The receiver's loop over `i`, on the choices and the random transfers that are left; `none` is an
-- access out of bounds.
unfoldable pub set_flips : ℕ → List Bool → List (Bool × ℕ) → List ℕ → Option (List ℕ)
unfolding unequal
set_flips i [] rot flips = some flips
set_flips i (c ∷ cs) [] flips = none
set_flips i (c ∷ cs) ((rot_choice, block) ∷ rot) flips = elim (unequal rot_choice c) [
  | false ↦ set_flips (i + 1) cs rot flips
  | true ↦ elim (get_elem? flips (i / 64)) [
    | none ↦ none
    | some w ↦ set_flips (i + 1) cs rot (set flips (i / 64) (bit_or w (2 ^ (i % 64))))
  ]
]

-- The sender's loop over `i`: two corrections for each pair of messages.
unfoldable pub corrections : List ℕ → ℕ → List OtMessages → List (ℕ × ℕ) → Option (List ℕ)
corrections flips i [] rot = some []
corrections flips i (m ∷ ms) [] = none
corrections flips i (m ∷ ms) ((block_0, block_1) ∷ rot) = elim (get_elem? flips (i / 64)) [
  | none ↦ none
  | some w ↦ elim (corrections flips (i + 1) ms rot) [
    | none ↦ none
    | some rest ↦
        let d = bit (i % 64) w == 1 in
        let s_0 = block_0 % 2 ^ 64 in
        let s_1 = block_1 % 2 ^ 64 in
        some (bit_xor m.m0 (if d then s_1 else s_0) ∷ bit_xor m.m1 (if d then s_0 else s_1) ∷ rest)
  ]
]

-- The receiver's second loop over `i`.
unfoldable pub results : List Bool → List (Bool × ℕ) → List ℕ → Option (List ℕ)
results [] rot corr = some []
results (c ∷ cs) [] corr = none
results (c ∷ cs) (r ∷ rot) [] = none
results (c ∷ cs) (r ∷ rot) (e_0 ∷ []) = none
results (c ∷ cs) ((rot_choice, block) ∷ rot) (e_0 ∷ e_1 ∷ corr) = elim (results cs rot corr) [
  | none ↦ none
  | some rest ↦ some (bit_xor (if c then e_1 else e_0) (block % 2 ^ 64) ∷ rest)
]

-- What the receiver sends, what the sender answers, and what the receiver makes of it.
unfoldable pub receiver_flips : ℕ → List Bool → List (Bool × ℕ) → Result (List ℕ)
unfolding set_flips flip_words
receiver_flips num_ots choices rot = do
  enforce (ltb 0 num_ots)
  enforce (length choices == num_ots)
  or_throw (set_flips 0 choices rot (replicate (flip_words num_ots) 0)) fault

unfoldable pub sender_corrections : ℕ → List OtMessages → List (ℕ × ℕ) → List ℕ → Result (List ℕ)
unfolding corrections flip_words
sender_corrections num_ots msgs rot flips = do
  enforce (ltb 0 num_ots)
  enforce (length msgs == num_ots)
  enforce (length flips == flip_words num_ots)
  or_throw (corrections flips 0 msgs rot) fault

unfoldable pub receiver_results : ℕ → List Bool → List (Bool × ℕ) → List ℕ → Result (List ℕ)
unfolding results
receiver_results num_ots choices rot corr = do
  enforce (length corr == 2 * num_ots)
  or_throw (results choices rot corr) fault

-- Both sides, which wait for each other's message.
unfoldable pub run_chosen_ot :
    ℕ → List OtMessages → List (ℕ × ℕ) → List Bool → List (Bool × ℕ) → Result (List ℕ)
unfolding receiver_flips sender_corrections receiver_results
run_chosen_ot num_ots msgs sender_rot choices receiver_rot = do
  flips ← receiver_flips num_ots choices receiver_rot
  corr ← sender_corrections num_ots msgs sender_rot flips
  receiver_results num_ots choices receiver_rot corr
