-- ===== src/Mpc/Triples/Cross.antt =====
-- `RunArithOtDirection` (yacl/mpc/ss_executor.cc) gives the parties shares of the products.
use native.Mathlib.Nat.{pow-suc, mod-lt, mod-eq_of_lt, add-mul-mod_self_right, div-add-mod'}
use yacl_r.Base.{
  ℕ, zero, suc, ◌+◌, ◌*◌, ◌/◌, ◌%◌, ◌^◌, ◌<◌, ◌≤◌, ◌≡◌, refl, sym, ap, ap₂, ◌∙◌, Bool, List, [],
  ◌∷◌, ◌++◌, some, arith, ok, if◌then◌else◌, length, length-append, ◌==◌, Bool-cases, inl, inr,
}
use yacl_r.Base.Bits.{bit, bit-suc}
use yacl_r.Mpc.{add_word, sub_word}
use yacl_r.Mpc.Transfer.{OtMessages, run_chosen_ot}
use yacl_r.Mpc.Transfer.Chosen.{Correlated, chosen, run_chosen_ot_lem}
use yacl_r.Mpc.Arithmetic.{product_mod}
use yacl_r.Mpc.Triples.{
  sender_bits, sender_rows, choice_bits, choice_rows, sum_bits, sum_rows, k_bits,
  run_arith_ot_direction,
}

-- The value of `n` bits, those from bit `k` on.
unfoldable pub low_sum : ℕ → ℕ → ℕ → ℕ
low_sum zero k b = 0
low_sum (suc n) k b = bit k b * 2 ^ k + low_sum n (k + 1) b

low_sum-suc : (n k b : ℕ) → low_sum n (suc k) b ≡ 2 * low_sum n k (b / 2)
unfolding low_sum
low_sum-suc zero k b = refl
low_sum-suc (suc n) k b =
    let same : bit (suc k) b * 2 ^ suc k ≡ 2 * (bit k (b / 2) * 2 ^ k) =
      ap₂ (λ s t. s * t) (bit-suc k b) (pow-suc 2 k) ∙ omega arith in
    let index : suc k + 1 ≡ suc (k + 1) = omega arith in
    omega (arith, same, ap (λ t. low_sum n t b) index, low_sum-suc n (k + 1) b)

pow-positive : (n : ℕ) → 0 < 2 ^ n
pow-positive zero = omega arith
pow-positive (suc n) = omega (arith, pow-suc 2 n, pow-positive n)

pub low_sum_lem : (n b : ℕ) → low_sum n 0 b ≡ b % 2 ^ n
unfolding low_sum
low_sum_lem zero b = omega arith
low_sum_lem (suc n) b =
    let q = b / 2 / 2 ^ n in
    let r = b / 2 % 2 ^ n in
    let double : 2 ^ suc n ≡ 2 ^ n * 2 = pow-suc 2 n in
    let parts : b / 2 ≡ q * 2 ^ n + r = sym (div-add-mod' (b / 2) (2 ^ n)) in
    let whole : b ≡ b % 2 + 2 * r + q * 2 ^ suc n = omega (arith, parts, ap (λ t. q * t) double) in
    let below : b % 2 + 2 * r < 2 ^ suc n =
      omega (arith, double, mod-lt (b / 2) (pow-positive n)) in
    let sum : low_sum (suc n) 0 b ≡ b % 2 + 2 * r =
      omega (arith, low_sum-suc n 0 b, low_sum_lem n (b / 2)) in
    sum
    ∙ sym (mod-eq_of_lt below)
    ∙ sym (add-mul-mod_self_right (b % 2 + 2 * r) q (2 ^ suc n))
    ∙ ap (λ t. t % 2 ^ suc n) (sym whole)

length-sender_bits :
    (draw : ℕ → ℕ) (d a k n cross : ℕ) → length ((sender_bits draw d a k n cross).0) ≡ n
unfolding sender_bits
length-sender_bits draw d a k zero cross = refl
length-sender_bits draw d a k (suc n) cross =
    ap suc (length-sender_bits draw (d + 1) a (k + 1) n (sub_word cross (draw d)))

pub length-choice_bits : (b k n : ℕ) → length (choice_bits b k n) ≡ n
unfolding choice_bits
length-choice_bits b k zero = refl
length-choice_bits b k (suc n) = ap suc (length-choice_bits b (k + 1) n)

-- One bit: what the receiver adds and what the sender takes off.
bit_step :
    (a k b r cross mask : ℕ)
    → (add_word cross (if bit k b == 1 then add_word r (a * 2 ^ k % 2 ^ 64) else r)
          + sub_word mask r)
        % 2 ^ 64
      ≡ (cross + mask + a * (bit k b * 2 ^ k)) % 2 ^ 64
unfolding add_word sub_word
bit_step a k b r cross mask = elim (Bool-cases (bit k b == 1)) [
  | inl e ↦ let one : bit k b ≡ 1 = ground (arith, e) in rw e (rw one (omega arith))
  | inr e ↦ let none : bit k b ≡ 0 = ground (arith, e) in rw e (rw none (omega arith))
]

-- The bits of one row: the sums of both parties are the product, and the receiver goes on behind them.
sum_bits-chosen :
    (draw : ℕ → ℕ) (d a b k n cross mask : ℕ) (msgs : List OtMessages) (choices : List Bool)
    → (y : ℕ) × (sum_bits cross n
          (chosen ((sender_bits draw d a k n mask).0 ++ msgs) (choice_bits b k n ++ choices))
        ≡ some (y, chosen msgs choices))
      × ((y + (sender_bits draw d a k n mask).1) % 2 ^ 64
          ≡ (cross + mask + a * low_sum n k b) % 2 ^ 64)
unfolding sum_bits sender_bits choice_bits low_sum
sum_bits-chosen draw d a b k zero cross mask msgs choices = (cross, refl, omega arith)
sum_bits-chosen draw d a b k (suc n) cross mask msgs choices =
    let r = draw d in
    let x = if bit k b == 1 then add_word r (a * 2 ^ k % 2 ^ 64) else r in
    let (y, run, total) =
      sum_bits-chosen draw (d + 1) a b (k + 1) n (add_word cross x) (sub_word mask r) msgs
        choices in
    (y, run, total ∙ omega (arith, bit_step a k b r cross mask))

-- Shares of the products of the two lists, one by one.
pub data Products : List ℕ → List ℕ → List ℕ → List ℕ → Type 0 where
  none_left : Products [] [] [] []
  next_product :
      (a b x y : ℕ) (a_local b_local xs ys : List ℕ)
      → (x + y) % 2 ^ 64 ≡ (a * b) % 2 ^ 64
      → Products a_local b_local xs ys
      → Products (a ∷ a_local) (b ∷ b_local) (x ∷ xs) (y ∷ ys)

row_lem :
    (draw : ℕ → ℕ) (d a b : ℕ) (msgs : List OtMessages) (choices : List Bool)
    → (y : ℕ) × (sum_bits 0 k_bits
          (chosen ((sender_bits draw d a 0 k_bits 0).0 ++ msgs) (choice_bits b 0 k_bits ++ choices))
        ≡ some (y, chosen msgs choices))
      × (((sender_bits draw d a 0 k_bits 0).1 + y) % 2 ^ 64 ≡ (a * b) % 2 ^ 64)
row_lem draw d a b msgs choices =
    let (y, run, total) = sum_bits-chosen draw d a b 0 k_bits 0 0 msgs choices in
    let cross = (sender_bits draw d a 0 k_bits 0).1 in
    let swap : cross + y ≡ y + cross = omega arith in
    let value = low_sum 64 0 b in
    let from_zero : 0 + 0 + a * value ≡ a * value = omega arith in
    (
      y,
      run,
      ap (λ t. t % 2 ^ 64) swap
          ∙ total
          ∙ ap (λ t. t % 2 ^ 64) from_zero
          ∙ product_mod (2 ^ 64) a value a b refl
              (ap (λ t. t % 2 ^ 64) (low_sum_lem 64 b) ∙ omega arith),
    )

sum_rows_zero : sum_rows 0 [] ≡ some []
unfolding sum_rows
sum_rows_zero = refl

sum_rows_step :
    (n y : ℕ) (recv rest ys : List ℕ)
    → sum_bits 0 k_bits recv ≡ some (y, rest)
    → sum_rows n rest ≡ some ys
    → sum_rows (suc n) recv ≡ some (y ∷ ys)
unfolding sum_rows
sum_rows_step n y recv rest ys first later = rw (first, later) refl

sum_rows-chosen :
    (draw : ℕ → ℕ) (d : ℕ) (a_local b_local : List ℕ)
    → length a_local ≡ length b_local
    → (received : List ℕ) × (sum_rows
          (length b_local)
          (chosen ((sender_rows draw d a_local).0) (choice_rows b_local))
        ≡ some received)
      × Products a_local b_local ((sender_rows draw d a_local).1) received
unfolding sender_rows choice_rows
sum_rows-chosen draw d [] [] h = ([], sum_rows_zero, none_left)
sum_rows-chosen draw d [] (b ∷ b_local) h = absurd (omega arith)
sum_rows-chosen draw d (a ∷ a_local) [] h = absurd (omega arith)
sum_rows-chosen draw d (a ∷ a_local) (b ∷ b_local) h =
    let msgs = (sender_rows draw (d + k_bits) a_local).0 in
    let (y, run, total) = row_lem draw d a b msgs (choice_rows b_local) in
    let (received, rest, products) =
      sum_rows-chosen draw (d + k_bits) a_local b_local (omega arith) in
    (
      y ∷ received,
      sum_rows_step _ y _ _ received run rest,
      next_product _ _ _ _ _ _ _ _ total products,
    )

length-sender_rows :
    (draw : ℕ → ℕ) (d : ℕ) (a_local : List ℕ)
    → length ((sender_rows draw d a_local).0) ≡ k_bits * length a_local
unfolding sender_rows
length-sender_rows draw d [] = refl
length-sender_rows draw d (a ∷ a_local) = omega (
  arith,
  length-append ((sender_bits draw d a 0 k_bits 0).0) ((sender_rows draw (d + k_bits) a_local).0),
  length-sender_bits draw d a 0 k_bits 0,
  length-sender_rows draw (d + k_bits) a_local,
)

length-choice_rows : (b_local : List ℕ) → length (choice_rows b_local) ≡ k_bits * length b_local
unfolding choice_rows
length-choice_rows [] = refl
length-choice_rows (b ∷ b_local) = omega (
  arith,
  length-append (choice_bits b 0 k_bits) (choice_rows b_local),
  length-choice_bits b 0 k_bits,
  length-choice_rows b_local,
)

-- `RunArithOtDirection` for a positive number of products, from enough random transfers.
pub run_arith_ot_direction-Products :
    (n : ℕ) (draw : ℕ → ℕ) (d : ℕ) (a_local b_local : List ℕ) (sender : List (ℕ × ℕ))
    (receiver : List (Bool × ℕ))
    → 0 < n
    → length a_local ≡ n
    → length b_local ≡ n
    → k_bits * n ≤ length receiver
    → Correlated sender receiver
    → (xs : List ℕ) × (ys : List ℕ) × (run_arith_ot_direction n
          (k_bits * n)
          draw
          d
          a_local
          b_local
          sender
          receiver
        ≡ ok (xs, ys))
      × Products a_local b_local xs ys
unfolding run_arith_ot_direction
run_arith_ot_direction-Products n draw d a_local b_local sender receiver some_n ha hb enough
      related =
    let msgs = (sender_rows draw d a_local).0 in
    let transferred : run_chosen_ot (k_bits * n) msgs sender (choice_rows b_local) receiver
        ≡ ok (chosen msgs (choice_rows b_local)) =
      run_chosen_ot_lem (k_bits * n) msgs sender (choice_rows b_local) receiver (omega arith)
        (omega (arith, length-sender_rows draw d a_local, ha))
        (omega (arith, length-choice_rows b_local, hb)) enough related in
    let (received, run, products) = sum_rows-chosen draw d a_local b_local (omega arith) in
    let rows : sum_rows n (chosen msgs (choice_rows b_local)) ≡ some received =
      ap (λ t. sum_rows t (chosen msgs (choice_rows b_local))) (sym hb) ∙ run in
    ((sender_rows draw d a_local).1, received, rw (transferred, rows) refl, products)
