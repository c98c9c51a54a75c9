-- ===== src/Base/Bits.antt =====
-- The native operations on binary digits: each gives the lowest digit and the rest from those of its
-- arguments. Numbers that do not overlap add up under `bit_or`; a bit that is set; `bit_xor` twice.
use Prim.Native.Nat.{
  ℕ, zero, suc, ◌+◌, ◌*◌, ◌/◌, ◌%◌, ◌^◌, ◌≤◌, ◌<◌, max, bit_or, bit_xor, differ, digits,
  bit_or-bitwise, bit_xor-bitwise,
}
use mathlib.Core.Path.{◌≡◌, refl, sym, ap, ◌∙◌}
use native.Mathlib.Nat.{pow-suc, pow-succ', div-div-eq-div-mul}
use native.Mathlib.Omega.{arith}
use yacl_r.Base.Tests.{◌==◌, if◌then◌else◌}

module _ (f : ℕ → ℕ → ℕ) where
  abbrev with_fuel : ℕ → ℕ → ℕ → ℕ
  with_fuel n a b = digits (λ t. t) f n a b

  -- More digits to go than there are change nothing.
  enough : (n m a b : ℕ) → a ≤ n → a ≤ m → with_fuel n a b ≡ with_fuel m a b
  enough zero zero a b hn hm = refl
  enough zero (suc m) zero b hn hm = refl
  enough zero (suc m) (suc a) b hn hm = absurd (omega arith)
  enough (suc n) zero zero b hn hm = refl
  enough (suc n) zero (suc a) b hn hm = absurd (omega arith)
  enough (suc n) (suc m) zero b hn hm = refl
  enough (suc n) (suc m) (suc a) b hn hm =
      ap (λ t. t * 2 + f (suc a % 2) (b % 2))
        (enough n m (suc a / 2) (b / 2) (omega arith) (omega arith))

  next_digit :
      (a b : ℕ)
      → with_fuel (suc a) (suc a) b
        ≡ with_fuel (suc a / 2) (suc a / 2) (b / 2) * 2 + f (suc a % 2) (b % 2)
  next_digit a b =
      ap (λ t. t * 2 + f (suc a % 2) (b % 2))
        (enough a (suc a / 2) (suc a / 2) (b / 2) (omega arith) (omega arith))

pub zero-bit_or : (b : ℕ) → bit_or 0 b ≡ b
zero-bit_or b = bit_or-bitwise 0 b

bit_or_step : (a b : ℕ) → bit_or a b ≡ bit_or (a / 2) (b / 2) * 2 + max (a % 2) (b % 2)
bit_or_step zero b = omega (arith, zero-bit_or b, zero-bit_or (b / 2))
bit_or_step (suc a) b =
    omega (arith, bit_or-bitwise (suc a) b, bit_or-bitwise (suc a / 2) (b / 2), next_digit max a b)

zero-bit_xor : (b : ℕ) → bit_xor 0 b ≡ b
zero-bit_xor b = bit_xor-bitwise 0 b

differ_lem : (x y : ℕ) → x < 2 → y < 2 → differ x y ≡ (x + y) % 2
differ_lem zero y hx hy = omega arith
differ_lem (suc zero) zero hx hy = refl
differ_lem (suc zero) (suc zero) hx hy = refl
differ_lem (suc zero) (suc (suc y)) hx hy = absurd (omega arith)
differ_lem (suc (suc x)) y hx hy = absurd (omega arith)

pub bit_xor_step : (a b : ℕ) → bit_xor a b ≡ bit_xor (a / 2) (b / 2) * 2 + (a % 2 + b % 2) % 2
bit_xor_step zero b = omega (arith, zero-bit_xor b, zero-bit_xor (b / 2))
bit_xor_step (suc a) b = omega (
  arith,
  bit_xor-bitwise (suc a) b,
  bit_xor-bitwise (suc a / 2) (b / 2),
  next_digit differ a b,
  differ_lem (suc a % 2) (b % 2) (omega arith) (omega arith),
)

-- Bits that do not overlap add up.
pub bit_or-shifted : (k a b : ℕ) → a < 2 ^ k → bit_or a (b * 2 ^ k) ≡ a + b * 2 ^ k
bit_or-shifted zero a b h =
    let none_left : a ≡ 0 = omega arith in rw none_left (omega (arith, zero-bit_or (b * 2 ^ 0)))
bit_or-shifted (suc k) a b h =
    let double : 2 ^ suc k ≡ 2 ^ k * 2 = pow-suc 2 k in
    let shifted : b * 2 ^ suc k ≡ b * 2 ^ k * 2 = omega (arith, ap (λ (t : ℕ). b * t) double) in
    let rest : bit_or (a / 2) (b * 2 ^ k) ≡ a / 2 + b * 2 ^ k =
      bit_or-shifted k (a / 2) b (omega (arith, double)) in
    let half : b * 2 ^ k * 2 / 2 ≡ b * 2 ^ k = omega arith in
    rw shifted (omega (arith, bit_or_step a (b * 2 ^ k * 2), ap (λ t. bit_or (a / 2) t) half, rest))

bit_or-zero : (n a : ℕ) → a ≤ n → bit_or a 0 ≡ a
bit_or-zero zero zero h = refl
bit_or-zero zero (suc a) h = absurd (omega arith)
bit_or-zero (suc n) a h = omega (arith, bit_or_step a 0, bit_or-zero n (a / 2) (omega arith))

-- The bit `k` of a number.
abbrev pub bit : ℕ → ℕ → ℕ
bit k a = a / 2 ^ k % 2

pub bit-suc : (k a : ℕ) → bit (suc k) a ≡ bit k (a / 2)
bit-suc k a =
    ap (λ t. t % 2) (ap (λ t. a / t) (pow-succ' 2 k) ∙ sym (div-div-eq-div-mul a 2 (2 ^ k)))

-- Setting a bit sets that one only.
pub bit-bit_or : (j k a : ℕ) → bit k (bit_or a (2 ^ j)) ≡ (if j == k then 1 else bit k a)
bit-bit_or zero zero a = omega (arith, bit_or_step a 1)
bit-bit_or zero (suc k) a =
    let half : bit_or a 1 / 2 ≡ a / 2 =
      omega (arith, bit_or_step a 1, bit_or-zero (a / 2) (a / 2) (omega arith)) in
    ground (arith, bit-suc k (bit_or a 1), bit-suc k a, ap (λ t. bit k t) half)
bit-bit_or (suc j) zero a = ground (arith, bit_or_step a (2 ^ suc j), pow-suc 2 j)
bit-bit_or (suc j) (suc k) a =
    let double : 2 ^ suc j ≡ 2 ^ j * 2 = pow-suc 2 j in
    let shifted : 2 ^ suc j / 2 ≡ 2 ^ j = omega (arith, double) in
    let half : bit_or a (2 ^ suc j) / 2 ≡ bit_or (a / 2) (2 ^ j) =
      omega (arith, bit_or_step a (2 ^ suc j), ap (λ t. bit_or (a / 2) t) shifted) in
    ground (
      arith,
      bit-suc k (bit_or a (2 ^ suc j)),
      bit-suc k a,
      ap (λ t. bit k t) half,
      bit-bit_or j k (a / 2),
    )

-- The second exclusive or takes the first back.
bit_xor_twice_fuel : (n a b : ℕ) → a ≤ n → b ≤ n → bit_xor (bit_xor a b) b ≡ a
bit_xor_twice_fuel zero zero zero ha hb = refl
bit_xor_twice_fuel zero zero (suc b) ha hb = absurd (omega arith)
bit_xor_twice_fuel zero (suc a) b ha hb = absurd (omega arith)
bit_xor_twice_fuel (suc n) a b ha hb =
    let once = bit_xor_step a b in
    let half : bit_xor a b / 2 ≡ bit_xor (a / 2) (b / 2) = omega (arith, once) in
    omega (
      arith,
      once,
      bit_xor_step (bit_xor a b) b,
      ap (λ t. bit_xor t (b / 2)) half,
      bit_xor_twice_fuel n (a / 2) (b / 2) (omega arith) (omega arith),
    )

pub bit_xor_twice : (a b : ℕ) → bit_xor (bit_xor a b) b ≡ a
bit_xor_twice a b = bit_xor_twice_fuel (a + b) a b (omega arith) (omega arith)

pub bit-bit_xor : (k a b : ℕ) → bit k (bit_xor a b) ≡ (bit k a + bit k b) % 2
bit-bit_xor zero a b = omega (arith, bit_xor_step a b)
bit-bit_xor (suc k) a b =
    let half : bit_xor a b / 2 ≡ bit_xor (a / 2) (b / 2) = omega (arith, bit_xor_step a b) in
    omega (
      arith,
      bit-suc k (bit_xor a b),
      bit-suc k a,
      bit-suc k b,
      ap (λ t. bit k t) half,
      bit-bit_xor k (a / 2) (b / 2),
    )
