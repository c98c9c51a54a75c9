-- ===== src/Mpc/Conversion.antt =====
-- `B2A` (yacl/mpc/ss_executor.cc), of both parties together: rank 1 sends, rank 0 receives.
pub mod Value
use yacl_r.Base.{
  ℕ, zero, suc, ◌+◌, ◌*◌, ◌^◌, ◌%◌, Bool, List, [], ◌∷◌, Result, ok, err, fault, or_throw, ◌>>=◌,
  if◌then◌else◌, ◌==◌,
}
use yacl_r.Base.Bits.{bit}
use yacl_r.Mpc.{add_word, sub_word, AShare}
use yacl_r.Mpc.Transfer.{OtMessages, run_chosen_ot}
use yacl_r.Mpc.Triples.{k_bits, choice_bits, sum_bits}

pub record BShare : Type 0 where
  pub v : ℕ

-- `correction`, with the weight `2 ^ k`.
unfoldable pub correction : ℕ → ℕ → ℕ
unfolding sub_word
correction k x = if bit k x == 0 then 2 ^ k else sub_word 0 (2 ^ k)

-- The sender's loop, with `count` bits to go and the number `d` of its next random word: the
-- messages, and `sender_share`.
unfoldable pub conversion_msgs : (ℕ → ℕ) → ℕ → ℕ → ℕ → ℕ → ℕ → List OtMessages × ℕ
unfolding correction add_word sub_word
conversion_msgs draw d x k zero sum = ([], sum)
conversion_msgs draw d x k (suc count) sum =
    let r = draw d in
    let (msgs, sender_share) =
      conversion_msgs draw (d + 1) x (k + 1) count (add_word sum (sub_word (bit k x * 2 ^ k) r)) in
    (record { m0 = r; m1 = add_word r (correction k x) } ∷ msgs, sender_share)

-- The receiver's last loop: `receiver_share`.
unfoldable pub sum_received : List ℕ → Result ℕ
unfolding sum_bits
sum_received recv =
    or_throw (sum_bits 0 k_bits recv) fault >>= λ (receiver_share, rest). ok receiver_share

-- The shares of rank 0 and of rank 1, from what the receiver gets.
unfoldable pub shares_from : ℕ → Result (List ℕ) → Result (AShare × AShare)
unfolding sum_received
shares_from sender_share transfer = do
  recv ← transfer
  receiver_share ← sum_received recv
  ok (record { v = receiver_share }, record { v = sender_share })

unfoldable pub b2a :
    (ℕ → ℕ) → List (ℕ × ℕ) → List (Bool × ℕ) → BShare → BShare → Result (AShare × AShare)
unfolding conversion_msgs choice_bits shares_from
b2a draw sender_rot receiver_rot x_0 x_1 =
    let (msgs, sender_share) = conversion_msgs draw 0 x_1.v 0 k_bits 0 in
    shares_from sender_share
      (run_chosen_ot k_bits msgs sender_rot (choice_bits x_0.v 0 k_bits) receiver_rot)
