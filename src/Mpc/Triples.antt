-- ===== src/Mpc/Triples.antt =====
-- `PreprocessArithTriples` and `RunArithOtDirection` (yacl/mpc/ss_executor.cc), of both parties
-- together. The words that `FastRandU64` gives a party, one after the other, are a function of their
-- number.
pub mod Cross
pub mod Preprocess
pub mod Multiply
use yacl_r.Base.{
  ℕ, zero, suc, ◌+◌, ◌*◌, ◌%◌, ◌^◌, Bool, true, false, List, [], ◌∷◌, ◌++◌, Option, none, some,
  Result, ok, err, fault, enforce, or_throw, ◌>>=◌, ◌>>◌, length, ltb, ◌==◌,
}
use yacl_r.Base.Bits.{bit}
use yacl_r.Mpc.{add_word, sub_word, mul_word, ATriple, SsExecutor}
use yacl_r.Mpc.Transfer.{OtMessages, run_chosen_ot}

abbrev pub k_bits : ℕ
k_bits = 64

-- The sender's loop over `k`, with `count` bits to go, and the number `d` of its next random word.
unfoldable pub sender_bits : (ℕ → ℕ) → ℕ → ℕ → ℕ → ℕ → ℕ → List OtMessages × ℕ
unfolding add_word sub_word
sender_bits draw d a k zero cross = ([], cross)
sender_bits draw d a k (suc count) cross =
    let r = draw d in
    let (msgs, cross_after) = sender_bits draw (d + 1) a (k + 1) count (sub_word cross r) in
    (record { m0 = r; m1 = add_word r (a * 2 ^ k % 2 ^ 64) } ∷ msgs, cross_after)

-- The sender's loop over `i`: the messages, and `cross`.
unfoldable pub sender_rows : (ℕ → ℕ) → ℕ → List ℕ → List OtMessages × List ℕ
unfolding sender_bits
sender_rows draw d [] = ([], [])
sender_rows draw d (a ∷ a_local) =
    let (msgs, cross) = sender_bits draw d a 0 k_bits 0 in
    let (msgs_after, rest) = sender_rows draw (d + k_bits) a_local in
    (msgs ++ msgs_after, cross ∷ rest)

unfoldable pub choice_bits : ℕ → ℕ → ℕ → List Bool
choice_bits b k zero = []
choice_bits b k (suc count) = (bit k b == 1) ∷ choice_bits b (k + 1) count

unfoldable pub choice_rows : List ℕ → List Bool
unfolding choice_bits
choice_rows [] = []
choice_rows (b ∷ b_local) = choice_bits b 0 k_bits ++ choice_rows b_local

-- The receiver's loop over `k`: the sum, and what is left of `recv`.
unfoldable pub sum_bits : ℕ → ℕ → List ℕ → Option (ℕ × List ℕ)
unfolding add_word
sum_bits cross zero recv = some (cross, recv)
sum_bits cross (suc count) [] = none
sum_bits cross (suc count) (x ∷ recv) = sum_bits (add_word cross x) count recv

unfoldable pub sum_rows : ℕ → List ℕ → Option (List ℕ)
unfolding sum_bits
sum_rows zero recv = some []
sum_rows (suc n) recv = elim (sum_bits 0 k_bits recv) [
  | none ↦ none
  | some (cross, rest) ↦ elim (sum_rows n rest) [
    | none ↦ none
    | some crosses ↦ some (cross ∷ crosses)
  ]
]

-- `cross` of the sender and of the receiver.
unfoldable pub run_arith_ot_direction :
    ℕ
    → ℕ
    → (ℕ → ℕ)
    → ℕ
    → List ℕ
    → List ℕ
    → List (ℕ × ℕ)
    → List (Bool × ℕ)
    → Result (List ℕ × List ℕ)
unfolding sender_rows choice_rows sum_rows
run_arith_ot_direction n num_ots draw d a_local b_local sender_rot receiver_rot = do
  let (msgs, cross) = sender_rows draw d a_local
  recv ← run_chosen_ot num_ots msgs sender_rot (choice_rows b_local) receiver_rot
  received ← or_throw (sum_rows n recv) fault
  ok (cross, received)

-- The loop that draws `a_local` and `b_local`.
unfoldable pub local_words : (ℕ → ℕ) → ℕ → ℕ → List ℕ × List ℕ
local_words draw d zero = ([], [])
local_words draw d (suc n) =
    let (a_local, b_local) = local_words draw (d + 2) n in
    (draw d ∷ a_local, draw (d + 1) ∷ b_local)

-- The last loop; `none` is an access out of bounds.
unfoldable pub make_triples : List ℕ → List ℕ → List ℕ → List ℕ → Option (List ATriple)
unfolding add_word mul_word
make_triples [] b_local cross_a cross_b = some []
make_triples (a ∷ a_local) (b ∷ b_local) (x ∷ cross_a) (y ∷ cross_b) =
    elim (make_triples a_local b_local cross_a cross_b) [
      | none ↦ none
      | some rest ↦
          some (record { a = a; b = b; c = add_word (add_word (mul_word a b) x) y } ∷ rest)
    ]
make_triples (a ∷ a_local) b_local cross_a cross_b = none

unfoldable pub push_triples : SsExecutor → List ATriple → SsExecutor
push_triples ex triples = record ex { arith_triples = ex.arith_triples ++ triples }

-- The random transfers of one direction: the sender's and the receiver's.
pub record Transfers : Type 0 where
  pub sender : List (ℕ × ℕ)
  pub receiver : List (Bool × ℕ)

-- `draw_0` and `draw_1` are the random words of the parties.
unfoldable pub preprocess_arith_triples :
    ℕ
    → (ℕ → ℕ)
    → (ℕ → ℕ)
    → Transfers
    → Transfers
    → SsExecutor
    → SsExecutor
    → Result (SsExecutor × SsExecutor)
unfolding run_arith_ot_direction local_words make_triples push_triples
preprocess_arith_triples n draw_0 draw_1 rot_a rot_b ex_0 ex_1 = do
  enforce (ltb 0 n)
  let num_ots = k_bits * n
  let (a_0, b_0) = local_words draw_0 0 n
  let (a_1, b_1) = local_words draw_1 0 n
  (cross_a0, cross_a1) ←
      run_arith_ot_direction n num_ots draw_0 (2 * n) a_0 b_1 rot_a.sender rot_a.receiver
  (cross_b1, cross_b0) ←
      run_arith_ot_direction n num_ots draw_1 (2 * n) a_1 b_0 rot_b.sender rot_b.receiver
  triples_0 ← or_throw (make_triples a_0 b_0 cross_a0 cross_b0) fault
  triples_1 ← or_throw (make_triples a_1 b_1 cross_a1 cross_b1) fault
  ok (push_triples ex_0 triples_0, push_triples ex_1 triples_1)
