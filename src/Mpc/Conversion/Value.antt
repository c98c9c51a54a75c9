-- ===== src/Mpc/Conversion/Value.antt =====
-- `B2A` (yacl/mpc/ss_executor.cc) keeps the value that two parties share.
use Prim.Native.Nat.{bit_xor}
use yacl_r.Base.{
  ℕ, zero, suc, ◌+◌, ◌*◌, ◌%◌, ◌^◌, ◌≤◌, ◌≡◌, refl, ap, ◌∙◌, Bool, List, [], some, Result, ok,
  arith, if◌then◌else◌, length, ◌==◌, Bool-cases, inl, inr,
}
use yacl_r.Base.Bits.{bit, bit-bit_xor}
use yacl_r.Mpc.{add_word, sub_word, AShare}
use yacl_r.Mpc.Arithmetic.{share, secret_of}
use yacl_r.Mpc.Transfer.{run_chosen_ot}
use yacl_r.Mpc.Transfer.Chosen.{Correlated, chosen, run_chosen_ot_lem}
use yacl_r.Mpc.Triples.{k_bits, choice_bits, sum_bits}
use yacl_r.Mpc.Triples.Cross.{low_sum, low_sum_lem, length-choice_bits}
use yacl_r.Mpc.Conversion.{BShare, correction, conversion_msgs, sum_received, shares_from, b2a}

-- One bit: what the receiver adds and what the sender adds are the bit of the value.
bit_step :
    (k x0 x1 r recv sum : ℕ)
    → (add_word recv (if bit k x0 == 1 then add_word r (correction k x1) else r)
          + add_word sum (sub_word (bit k x1 * 2 ^ k) r))
        % 2 ^ 64
      ≡ (recv + sum + bit k (bit_xor x0 x1) * 2 ^ k) % 2 ^ 64
unfolding add_word sub_word correction
bit_step k x0 x1 r recv sum = elim (Bool-cases (bit k x0 == 1)) [
  | inl e ↦ elim (Bool-cases (bit k x1 == 0)) [
    | inl f ↦
        let zero_1 : bit k x1 ≡ 0 = ground (arith, f) in
        let one : bit k (bit_xor x0 x1) ≡ 1 = ground (arith, e, f, bit-bit_xor k x0 x1) in
        rw e (rw f (rw (zero_1, one) (omega arith)))
    | inr f ↦
        let one_1 : bit k x1 ≡ 1 = ground (arith, f) in
        let none : bit k (bit_xor x0 x1) ≡ 0 = ground (arith, e, f, bit-bit_xor k x0 x1) in
        rw e (rw f (rw (one_1, none) (omega arith)))
  ]
  | inr e ↦
      let same : bit k (bit_xor x0 x1) ≡ bit k x1 = ground (arith, e, bit-bit_xor k x0 x1) in
      rw e (rw same (omega arith))
]

shares_lem :
    (draw : ℕ → ℕ) (d x0 x1 k n recv sum : ℕ)
    → (y : ℕ) × (sum_bits recv n
          (chosen ((conversion_msgs draw d x1 k n sum).0) (choice_bits x0 k n))
        ≡ some (y, []))
      × ((y + (conversion_msgs draw d x1 k n sum).1) % 2 ^ 64
          ≡ (recv + sum + low_sum n k (bit_xor x0 x1)) % 2 ^ 64)
unfolding sum_bits conversion_msgs choice_bits low_sum
shares_lem draw d x0 x1 k zero recv sum = (recv, refl, omega arith)
shares_lem draw d x0 x1 k (suc n) recv sum =
    let r = draw d in
    let x = if bit k x0 == 1 then add_word r (correction k x1) else r in
    let (y, run, total) =
      shares_lem draw (d + 1) x0 x1 (k + 1) n (add_word recv x)
        (add_word sum (sub_word (bit k x1 * 2 ^ k) r)) in
    (y, run, total ∙ omega (arith, bit_step k x0 x1 r recv sum))

length-conversion_msgs :
    (draw : ℕ → ℕ) (d x k n sum : ℕ) → length ((conversion_msgs draw d x k n sum).0) ≡ n
unfolding conversion_msgs
length-conversion_msgs draw d x k zero sum = refl
length-conversion_msgs draw d x k (suc n) sum = ap suc (
    length-conversion_msgs draw (d + 1) x (k + 1) n
      (add_word sum (sub_word (bit k x * 2 ^ k) (draw d))))

sum_received_lem :
    (recv rest : List ℕ) (y : ℕ)
    → sum_bits 0 k_bits recv ≡ some (y, rest)
    → sum_received recv ≡ ok y
unfolding sum_received
sum_received_lem recv rest y h = rw h refl

shares_from_lem :
    (transfer : Result (List ℕ)) (recv : List ℕ) (y sender_share : ℕ)
    → transfer ≡ ok recv
    → sum_received recv ≡ ok y
    → shares_from sender_share transfer ≡ ok (share y, share sender_share)
unfolding shares_from
shares_from_lem transfer recv y sender_share moved summed = rw (moved, summed) refl

-- `B2A` of both parties, with at least 64 random transfers in which the receiver has the sender's
-- block that its bit names: it succeeds, whatever the random words are, and the arithmetic shares add
-- up to the exclusive or of the Boolean ones, modulo 2 ^ 64.
pub b2a_lem :
    (draw : ℕ → ℕ) (sender : List (ℕ × ℕ)) (receiver : List (Bool × ℕ)) (x_0 x_1 : BShare)
    → k_bits ≤ length receiver
    → Correlated sender receiver
    → (a_0 : AShare) × (a_1 : AShare) × (b2a draw sender receiver x_0 x_1 ≡ ok (a_0, a_1))
      × (secret_of a_0 a_1 ≡ bit_xor x_0.v x_1.v % 2 ^ 64)
unfolding b2a
b2a_lem draw sender receiver x_0 x_1 enough related =
    let msgs = (conversion_msgs draw 0 x_1.v 0 k_bits 0).0 in
    let choices = choice_bits x_0.v 0 k_bits in
    let transferred : run_chosen_ot k_bits msgs sender choices receiver ≡ ok (chosen msgs choices) =
      run_chosen_ot_lem k_bits msgs sender choices receiver (omega arith)
        (length-conversion_msgs draw 0 x_1.v 0 k_bits 0) (length-choice_bits x_0.v 0 k_bits) enough
        related in
    let (y, run, total) = shares_lem draw 0 x_0.v x_1.v 0 k_bits 0 0 in
    let value = bit_xor x_0.v x_1.v in
    (
      record { v = y },
      record { v = (conversion_msgs draw 0 x_1.v 0 k_bits 0).1 },
      shares_from_lem (run_chosen_ot k_bits msgs sender choices receiver) (chosen msgs choices) y
          ((conversion_msgs draw 0 x_1.v 0 k_bits 0).1) transferred
          (sum_received_lem (chosen msgs choices) [] y run),
      total ∙ omega (arith, low_sum_lem 64 value),
    )
