-- ===== src/Base/Inverse.antt =====
-- Inverses modulo a number, and modulo a prime.
use Prim.Native.Nat.{ℕ, zero, suc, ◌+◌, ◌*◌, ◌/◌, ◌%◌, ◌<◌, ◌≤◌}
use mathlib.Core.Path.{◌≡◌, refl, sym, ap, ◌∙◌}
use mathlib.Core.Logic.{◌≢◌, ◌⊎◌, inl, inr}
use native.Mathlib.Nat.{mod-lt, div-add-mod', zero-mod, mod_self}
use native.Mathlib.Omega.{arith}
use yacl_r.Base.Int.{
  ℤ, pos, neg_ℤ, ◌*ℤ◌, eq_of_parts, sums, pos_part, neg_part, *ℤ_assoc, *ℤ_comm, *ℤ_right_comm,
  one-*ℤ, zero-*ℤ, products, pos_part-neg_ℤ, neg_part-neg_ℤ,
}
use yacl_r.Base.Residue.{residue, residue-residue, residue-lt, product_residue, sum_residue}

-- There is an inverse modulo `p`.
abbrev pub Invertible : ℕ → ℤ → Type 0
Invertible p d = (e : ℤ) × (residue p (d *ℤ e) ≡ residue p (pos 1))

-- `p` divides a product only if it divides a factor.
abbrev pub IsPrime : ℕ → Type 0
IsPrime p = (1 < p) × ((x y : ℕ) → x < p → y < p → (x * y) % p ≡ 0 → (x ≡ 0) ⊎ (y ≡ 0))

module _ (p : ℕ) (p_pos : 0 < p) where
  pub product-Invertible : (c d : ℤ) → Invertible p c → Invertible p d → Invertible p (c *ℤ d)
  product-Invertible c d (e, he) (g, hg) = (
    e *ℤ g,
    ap (residue p) (
          *ℤ_assoc c d (e *ℤ g)
          ∙ ap (λ t. c *ℤ t)
              (sym (*ℤ_assoc d e g) ∙ ap (λ t. t *ℤ g) (*ℤ_comm d e) ∙ *ℤ_assoc e d g)
          ∙ sym (*ℤ_assoc c e (d *ℤ g)))
        ∙ product_residue p (c *ℤ e) (d *ℤ g) (pos 1) (pos 1) p_pos he hg
        ∙ ap (residue p) (one-*ℤ (pos 1)),
  )

  -- An invertible factor can be cancelled.
  pub cancel_factor :
      (d x : ℤ)
      → Invertible p d
      → residue p (d *ℤ x) ≡ residue p (pos 0)
      → residue p x ≡ residue p (pos 0)
  cancel_factor d x (e, inverse) h =
      ap (residue p) (sym (one-*ℤ x))
      ∙ product_residue p (pos 1) x (d *ℤ e) x p_pos (sym inverse) refl
      ∙ ap (residue p) (*ℤ_right_comm d e x)
      ∙ product_residue p (d *ℤ x) e (pos 0) e p_pos h refl
      ∙ ap (residue p) (zero-*ℤ e)

  -- Equal remainders have the same inverses.
  pub Invertible-congr : (c d : ℤ) → residue p c ≡ residue p d → Invertible p d → Invertible p c
  Invertible-congr c d h (e, inverse) = (e, product_residue p c e d e p_pos h refl ∙ inverse)

pub residue-modulus : (p : ℕ) → residue p (pos p) ≡ residue p (pos 0)
unfolding residue
residue-modulus p = mod_self p ∙ sym (zero-mod p)

-- Euclid's step: a number times the negated quotient is the remainder.
step_back :
    (p x q r : ℕ) → 0 < p → q * x + r ≡ p → residue p (pos x *ℤ neg_ℤ (pos q)) ≡ residue p (pos r)
step_back p x q r p_pos h =
    ap (residue p) (eq_of_parts _ _ (omega sums))
    ∙ sum_residue p (pos x *ℤ neg_ℤ (pos q)) (pos 0) _ (pos p) p_pos refl (sym (residue-modulus p))
    ∙ ap (residue p) (eq_of_parts _ _ (omega (sums, h, positive, negative)))
  where
    positive : pos_part (pos x *ℤ neg_ℤ (pos q)) ≡ 0
    positive = simp (products, pos_part-neg_ℤ, neg_part-neg_ℤ) (omega arith)

    negative : neg_part (pos x *ℤ neg_ℤ (pos q)) ≡ q * x
    negative = simp (products, pos_part-neg_ℤ, neg_part-neg_ℤ) (omega arith)

no_remainder : (p x q : ℕ) → IsPrime p → 1 < x → x < p → q * x ≡ p → ⊥
no_remainder p x q (big, factors) hx below h =
    let smaller : q < p = at_most q x p hx (omega arith) h in
    let vanishes : (x * q) % p ≡ 0 = ap (λ t. t % p) (omega (arith, h)) ∙ mod_self p in
    elim (factors x q below smaller vanishes) [
      | inl e ↦ omega arith
      | inr e ↦ omega (arith, ap (λ (t : ℕ). t * x) e)
    ]
  where
    at_most : (q x p : ℕ) → 1 < x → 0 < p → q * x ≡ p → q < p
    at_most zero x p hx p_pos h = p_pos
    at_most (suc q) x p hx p_pos h = omega (arith, h, le_product q x hx)
      where
        le_product : (q x : ℕ) → 1 < x → q * 2 ≤ q * x
        le_product zero x hx = omega arith
        le_product (suc q) x hx = omega (arith, le_product q x hx)

positive : (n : ℕ) → n ≢ 0 → 0 < n
positive zero h = absurd (h refl)
positive (suc n) h = omega arith

below-Invertible :
    (p : ℕ) → IsPrime p → (fuel x : ℕ) → x < fuel → 0 < x → x < p → Invertible p (pos x)
below-Invertible p prime zero x h x_pos below = absurd (omega arith)
below-Invertible p prime (suc fuel) zero h x_pos below = absurd (omega arith)
below-Invertible p prime (suc fuel) (suc zero) h x_pos below =
    (pos 1, ap (residue p) (one-*ℤ (pos 1)))
below-Invertible p prime (suc fuel) (suc (suc k)) h x_pos below =
    let x = suc (suc k) in
    let r = p % x in
    let q = p / x in
    let whole : q * x + r ≡ p = div-add-mod' p x in
    let small : r < x = mod-lt p x_pos in
    let some_left : 0 < r =
      positive r (λ e. no_remainder p x q prime (omega arith) below (omega (arith, whole, e))) in
    let (e, inverse) = below-Invertible p prime fuel r (omega arith) some_left (omega arith) in
    (
      neg_ℤ (pos q) *ℤ e,
      ap (residue p) (sym (*ℤ_assoc (pos x) (neg_ℤ (pos q)) e))
          ∙ product_residue p _ e (pos r) e (omega arith) (step_back p x q r (omega arith) whole)
              refl
          ∙ inverse,
    )

-- A number whose remainder modulo a prime is not 0 has an inverse.
pub prime-Invertible :
    (p : ℕ) (d : ℤ) → IsPrime p → residue p d ≢ residue p (pos 0) → Invertible p d
unfolding residue
prime-Invertible p d prime h =
    let p_pos : 0 < p = omega (arith, prime.0) in
    let below = residue-lt p d p_pos in
    let nonzero : 0 < residue p d = positive (residue p d) (λ e. h (e ∙ sym (zero-mod p))) in
    Invertible-congr p p_pos d (pos (residue p d)) (sym (residue-residue p d p_pos))
      (below-Invertible p prime (suc (residue p d)) (residue p d) (omega arith) nonzero below)
