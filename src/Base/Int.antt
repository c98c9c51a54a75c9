-- ===== src/Base/Int.antt =====
-- Integers over the native numbers, under the library's names, and their residues.
use Prim.Native.Nat.{ℕ, suc, ◌+◌, ◌-◌, ◌*◌}
use mathlib.Core.Path.{◌≡◌, ap, ap₂, ◌∙◌}
use mathlib.Core.Bool.{Bool, true, false}
use native.Mathlib.Omega.{arith}
use yacl_r.Base.Tests.{leb, ◌==◌, if◌then◌else◌}

-- `negsuc n` is -(n + 1).
pub data ℤ : Type 0 where
  pos negsuc : ℕ → ℤ

abbrev pub pos_part : ℤ → ℕ
pos_part (pos n) = n
pos_part (negsuc n) = 0

abbrev pub neg_part : ℤ → ℕ
neg_part (pos n) = 0
neg_part (negsuc n) = suc n

-- The difference of two numbers.
abbrev pub sub_ℕ : ℕ → ℕ → ℤ
sub_ℕ m n = if leb n m then pos (m - n) else negsuc (n - m - 1)

unfoldable pub neg_ℤ : ℤ → ℤ
neg_ℤ x = sub_ℕ (neg_part x) (pos_part x)

infixl 65 ◌+ℤ◌
infixl 70 ◌*ℤ◌
unfoldable pub ◌+ℤ◌ : ℤ → ℤ → ℤ
x +ℤ y = sub_ℕ (pos_part x + pos_part y) (neg_part x + neg_part y)

unfoldable pub ◌*ℤ◌ : ℤ → ℤ → ℤ
x *ℤ y =
    sub_ℕ (pos_part x * pos_part y + neg_part x * neg_part y)
      (pos_part x * neg_part y + neg_part x * pos_part y)

unfoldable pub is_zero : ℤ → Bool
is_zero (pos n) = n == 0
is_zero (negsuc n) = false

unfoldable pub is_one : ℤ → Bool
is_one (pos n) = n == 1
is_one (negsuc n) = false

pub is_zero-eq : (x : ℤ) → is_zero x ≡ true → x ≡ pos 0
unfolding is_zero
is_zero-eq (pos n) h = ap pos (ground arith)
is_zero-eq (negsuc n) h = ground arith

pub eq_of_parts : (x y : ℤ) → pos_part x + neg_part y ≡ pos_part y + neg_part x → x ≡ y
eq_of_parts x y h = ground arith

pub +ℤ_parts :
    (x y : ℤ)
    → pos_part (x +ℤ y) + (neg_part x + neg_part y) ≡ pos_part x + pos_part y + neg_part (x +ℤ y)
unfolding ◌+ℤ◌
+ℤ_parts x y = ground arith

pub pos_part-neg_ℤ : (x : ℤ) → pos_part (neg_ℤ x) ≡ neg_part x
unfolding neg_ℤ
pos_part-neg_ℤ x = ground arith

pub neg_part-neg_ℤ : (x : ℤ) → neg_part (neg_ℤ x) ≡ pos_part x
unfolding neg_ℤ
neg_part-neg_ℤ x = ground arith

pub pos_part-*ℤ : (x y : ℤ) → pos_part (x *ℤ y) ≡ pos_part x * pos_part y + neg_part x * neg_part y
unfolding ◌*ℤ◌
pos_part-*ℤ x y = ground arith

pub neg_part-*ℤ : (x y : ℤ) → neg_part (x *ℤ y) ≡ pos_part x * neg_part y + neg_part x * pos_part y
unfolding ◌*ℤ◌
neg_part-*ℤ x y = ground arith

pub ruleset products = (pos_part-*ℤ, neg_part-*ℤ)

pub ruleset sums = (arith, +ℤ_parts, pos_part-neg_ℤ, neg_part-neg_ℤ)

pub +ℤ_comm : (x y : ℤ) → x +ℤ y ≡ y +ℤ x
+ℤ_comm x y = eq_of_parts _ _ (omega sums)

pub +ℤ_assoc : (x y z : ℤ) → x +ℤ y +ℤ z ≡ x +ℤ (y +ℤ z)
+ℤ_assoc x y z = eq_of_parts _ _ (omega sums)

pub zero-+ℤ : (x : ℤ) → pos 0 +ℤ x ≡ x
zero-+ℤ x = eq_of_parts _ _ (omega sums)

pub *ℤ_comm : (x y : ℤ) → x *ℤ y ≡ y *ℤ x
*ℤ_comm x y = eq_of_parts _ _ (simp products (omega arith))

pub *ℤ_right_comm : (x y z : ℤ) → x *ℤ y *ℤ z ≡ x *ℤ z *ℤ y
*ℤ_right_comm x y z = eq_of_parts _ _ (simp products (omega arith))

pub *ℤ_assoc : (x y z : ℤ) → x *ℤ y *ℤ z ≡ x *ℤ (y *ℤ z)
*ℤ_assoc x y z = eq_of_parts _ _ (simp products (omega arith))

pub zero-*ℤ : (x : ℤ) → pos 0 *ℤ x ≡ pos 0
zero-*ℤ x = eq_of_parts _ _ (simp products (omega arith))

pub one-*ℤ : (x : ℤ) → pos 1 *ℤ x ≡ x
one-*ℤ x = eq_of_parts _ _ (simp products (omega arith))

pub neg_ℤ-*ℤ : (x y : ℤ) → neg_ℤ x *ℤ y ≡ neg_ℤ (x *ℤ y)
neg_ℤ-*ℤ x y = eq_of_parts _ _ (simp (products, pos_part-neg_ℤ, neg_part-neg_ℤ) (omega arith))

pub +ℤ-*ℤ : (x y z : ℤ) → (x +ℤ y) *ℤ z ≡ x *ℤ z +ℤ y *ℤ z
+ℤ-*ℤ x y z = eq_of_parts _ _ (
    simp products (
      omega (
        arith,
        simp products at (+ℤ_parts (x *ℤ z) (y *ℤ z)),
        ap (λ (t : ℕ). t * pos_part z) (+ℤ_parts x y),
        ap (λ (t : ℕ). t * neg_part z) (+ℤ_parts x y),
      )))

pub *ℤ-+ℤ : (x y z : ℤ) → x *ℤ (y +ℤ z) ≡ x *ℤ y +ℤ x *ℤ z
*ℤ-+ℤ x y z = *ℤ_comm x (y +ℤ z) ∙ +ℤ-*ℤ y z x ∙ ap₂ (λ s t. s +ℤ t) (*ℤ_comm y x) (*ℤ_comm z x)

pub neg_ℤ-+ℤ : (x y : ℤ) → neg_ℤ (x +ℤ y) ≡ neg_ℤ x +ℤ neg_ℤ y
neg_ℤ-+ℤ x y = eq_of_parts _ _ (omega sums)
