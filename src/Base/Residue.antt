-- ===== src/Base/Residue.antt =====
-- The remainder of an integer by a positive number, which is never negative.
use Prim.Native.Nat.{ℕ, zero, suc, ◌+◌, ◌-◌, ◌*◌, ◌/◌, ◌%◌, ◌<◌}
use mathlib.Core.Path.{◌≡◌, refl, sym, ap, ap₂, ◌∙◌}
use mathlib.Core.Logic.{inl, inr}
use native.Mathlib.Nat.{mod-lt, add-mod, add-mul-mod_self_right, mod-eq_of_lt, div-add-mod'}
use native.Mathlib.Omega.{arith}
use yacl_r.Base.Tests.{leb, Bool-cases}
use yacl_r.Base.Int.{
  ℤ, pos, negsuc, pos_part, neg_part, sub_ℕ, neg_ℤ, ◌+ℤ◌, ◌*ℤ◌, eq_of_parts, sums,
}

unfoldable pub residue : ℕ → ℤ → ℕ
residue m (pos n) = n % m
residue m (negsuc n) = m - 1 - n % m

pub mul-mod : (m a b : ℕ) → (a * b) % m ≡ ((a % m) * (b % m)) % m
mul-mod m a b =
    let x = a % m in
    let y = b % m in
    let whole : a * b ≡ x * y + (x * (b / m) + a / m * b) * m =
      omega (
        arith,
        ap (λ (t : ℕ). t * b) (div-add-mod' a m),
        ap (λ (t : ℕ). x * t) (div-add-mod' b m),
      ) in
    ap (λ t. t % m) whole ∙ add-mul-mod_self_right (x * y) (x * (b / m) + a / m * b) m

-- -1 is congruent to `k` modulo `k + 1`.
residue-negsuc : (k n : ℕ) → (suc n * k) % suc k ≡ k - n % suc k
residue-negsuc k n =
    let m = suc k in
    let r = n % m in
    let q = n / m in
    let small : r < m = mod-lt n (omega arith) in
    let whole : suc n * k ≡ k - r + (q * k + r) * m =
      omega (arith, ap (λ (t : ℕ). t * k) (div-add-mod' n m)) in
    ap (λ t. t % m) whole
    ∙ add-mul-mod_self_right (k - r) (q * k + r) m
    ∙ mod-eq_of_lt (omega arith)

residue_parts : (k : ℕ) (x : ℤ) → residue (suc k) x ≡ (pos_part x + neg_part x * k) % suc k
unfolding residue
residue_parts k (pos n) = ap (λ t. t % suc k) (omega arith)
residue_parts k (negsuc n) =
    omega arith ∙ sym (residue-negsuc k n) ∙ ap (λ t. t % suc k) (omega arith)

residue-sub_ℕ : (k a b : ℕ) → residue (suc k) (sub_ℕ a b) ≡ (a + b * k) % suc k
residue-sub_ℕ k a b = residue_parts k (sub_ℕ a b) ∙ elim (Bool-cases (leb b a)) [
  | inl e ↦
      let whole : a + b * k ≡ a - b + b * suc k = ground (arith, e) in
      rw e (
        ap (λ t. t % suc k) (omega arith)
        ∙ sym (add-mul-mod_self_right (a - b) b (suc k))
        ∙ sym (ap (λ t. t % suc k) whole))
  | inr e ↦
      let d : suc (b - a - 1) ≡ b - a = ground (arith, e) in
      let apart : b - a + a ≡ b = ground (arith, e) in
      let whole : a + b * k ≡ (b - a) * k + a * suc k =
        omega (arith, ap (λ (t : ℕ). t * k) apart) in
      rw e (
        ap (λ t. t % suc k) (omega (arith, ap (λ (t : ℕ). t * k) d))
        ∙ sym (add-mul-mod_self_right ((b - a) * k) a (suc k))
        ∙ sym (ap (λ t. t % suc k) whole))
]

pub residue-lt : (m : ℕ) (x : ℤ) → 0 < m → residue m x < m
unfolding residue
residue-lt m (pos n) h = mod-lt n h
residue-lt m (negsuc n) h = omega arith

-- The remainder of a sum, a product and a negation, from those of the parts.
pub residue-+ℤ : (m : ℕ) (x y : ℤ) → 0 < m → residue m (x +ℤ y) ≡ (residue m x + residue m y) % m
unfolding ◌+ℤ◌
residue-+ℤ zero x y h = absurd (omega arith)
residue-+ℤ (suc k) x y h =
    let px = pos_part x + neg_part x * k in
    let py = pos_part y + neg_part y * k in
    residue-sub_ℕ k (pos_part x + pos_part y) (neg_part x + neg_part y)
    ∙ ap (λ t. t % suc k) (omega arith)
    ∙ add-mod px py (suc k)
    ∙ ap₂ (λ s t. (s + t) % suc k) (sym (residue_parts k x)) (sym (residue_parts k y))

pub residue-*ℤ : (m : ℕ) (x y : ℤ) → 0 < m → residue m (x *ℤ y) ≡ (residue m x * residue m y) % m
unfolding ◌*ℤ◌
residue-*ℤ zero x y h = absurd (omega arith)
residue-*ℤ (suc zero) x y h = omega (arith, residue-lt 1 (x *ℤ y) h)
residue-*ℤ (suc (suc j)) x y h =
    let k = suc j in
    let m = suc k in
    let a = pos_part x in
    let b = neg_part x in
    let c = pos_part y in
    let d = neg_part y in
    let whole : (a + b * k) * (c + d * k) ≡ a * c + b * d + (a * d + b * c) * k + (b * d * j) * m =
      omega arith in
    residue-sub_ℕ k (a * c + b * d) (a * d + b * c)
    ∙ sym (add-mul-mod_self_right (a * c + b * d + (a * d + b * c) * k) (b * d * j) m)
    ∙ ap (λ t. t % m) (sym whole)
    ∙ mul-mod m (a + b * k) (c + d * k)
    ∙ ap₂ (λ s t. (s * t) % m) (sym (residue_parts k x)) (sym (residue_parts k y))

-- A sum of an integer and its negation vanishes, also modulo `m`.
pub residue-neg_ℤ : (m : ℕ) (x : ℤ) → 0 < m → (residue m x + residue m (neg_ℤ x)) % m ≡ 0
unfolding residue
residue-neg_ℤ m x h = sym (residue-+ℤ m x (neg_ℤ x) h) ∙ ap (residue m) (cancel x) ∙ omega arith
  where
    cancel : (y : ℤ) → y +ℤ neg_ℤ y ≡ pos 0
    cancel y = eq_of_parts _ _ (omega sums)

-- Integers with equal remainders can take each other's place.
pub residue-residue : (m : ℕ) (x : ℤ) → 0 < m → residue m (pos (residue m x)) ≡ residue m x
unfolding residue
residue-residue m x h = mod-eq_of_lt (residue-lt m x h)

pub sum_residue :
    (m : ℕ) (x y s t : ℤ)
    → 0 < m
    → residue m x ≡ residue m s
    → residue m y ≡ residue m t
    → residue m (x +ℤ y) ≡ residue m (s +ℤ t)
sum_residue m x y s t h hx hy =
    residue-+ℤ m x y h ∙ ap₂ (λ a b. (a + b) % m) hx hy ∙ sym (residue-+ℤ m s t h)

pub product_residue :
    (m : ℕ) (x y s t : ℤ)
    → 0 < m
    → residue m x ≡ residue m s
    → residue m y ≡ residue m t
    → residue m (x *ℤ y) ≡ residue m (s *ℤ t)
product_residue m x y s t h hx hy =
    residue-*ℤ m x y h ∙ ap₂ (λ a b. (a * b) % m) hx hy ∙ sym (residue-*ℤ m s t h)

pub residue-cancel :
    (m : ℕ) (x y z : ℤ)
    → 0 < m
    → residue m (x +ℤ z) ≡ residue m (y +ℤ z)
    → residue m x ≡ residue m y
residue-cancel m x y z h e =
    ap (residue m) (back x)
    ∙ sum_residue m (x +ℤ z) (neg_ℤ z) (y +ℤ z) (neg_ℤ z) h e refl
    ∙ ap (residue m) (sym (back y))
  where
    back : (w : ℤ) → w ≡ w +ℤ z +ℤ neg_ℤ z
    back w = eq_of_parts _ _ (omega sums)

pub neg_residue :
    (m : ℕ) (x s : ℤ)
    → 0 < m
    → residue m x ≡ residue m s
    → residue m (neg_ℤ x) ≡ residue m (neg_ℤ s)
neg_residue m x s h e = residue-cancel m (neg_ℤ x) (neg_ℤ s) x h (
    ap (residue m) (vanishes x)
    ∙ ap (residue m) (sym (vanishes s))
    ∙ sum_residue m (neg_ℤ s) s (neg_ℤ s) x h refl (sym e))
  where
    vanishes : (w : ℤ) → neg_ℤ w +ℤ w ≡ pos 0
    vanishes w = eq_of_parts _ _ (omega sums)
