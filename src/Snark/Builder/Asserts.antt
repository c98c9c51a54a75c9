-- ===== src/Snark/Builder/Asserts.antt =====
-- What the assertions of the builder assert.
use yacl_r.Base.{
  ℕ, ◌+◌, ◌-◌, ◌*◌, ◌%◌, ◌<◌, ◌≡◌, inl, inr, refl, ap, ap₂, ◌∙◌, false, ◌&&◌, ◌||◌, [], arith, ◌==◌,
  Bool-cases, ltb,
}
use native.Mathlib.Nat.{mod-eq_of_lt, add-mod_right, mod-lt, zero-mod}
use yacl_r.Base.Int.{ℤ, pos, neg_ℤ, ◌+ℤ◌, ◌*ℤ◌, *ℤ_comm, one-*ℤ, zero-+ℤ}
use yacl_r.Base.Inverse.{IsPrime}
use yacl_r.Base.Residue.{residue, residue-*ℤ, residue-lt}
use yacl_r.Snark.R1cs.Values.{dot, all_hold}
use yacl_r.Snark.Builder.{
  CircuitBuilder, alone, get_lc, sub_terms, add_terms, assert_equal, assert_boolean,
  assert_mul_equals,
}
use yacl_r.Snark.Builder.Linear.{val, dot-alone, dot-add_terms, dot-sub_terms}
use yacl_r.Snark.Builder.Values.{value, sub_mod, residue-sub, all_hold-push_constraint}

-- A difference modulo `p` is 0 exactly for equal numbers.
sub_mod-zero : (p x y : ℕ) → x < p → y < p → (sub_mod p x y == 0) ≡ (x == y)
sub_mod-zero p x y hx hy = elim (Bool-cases (ltb x y)) [
  | inl e ↦ let less : sub_mod p x y ≡ x + (p - y) = mod-eq_of_lt (ground arith) in ground arith
  | inr e ↦
      let less : sub_mod p x y ≡ x - y =
        ap (λ t. t % p) (ground arith) ∙ add-mod_right (x - y) p ∙ mod-eq_of_lt (omega arith) in
      ground arith
]

-- Of two numbers whose product vanishes modulo a prime, one vanishes.
product_is_zero :
    (p x y : ℕ) → IsPrime p → x < p → y < p → ((x * y) % p == 0) ≡ ((x == 0) || (y == 0))
product_is_zero p x y (p_big, factors) hx hy = elim (Bool-cases ((x * y) % p == 0)) [
  | inl e ↦ elim (factors x y hx hy (ground (arith, e))) [
    | inl zero_x ↦ rw e (ground arith)
    | inr zero_y ↦ rw e (ground arith)
  ]
  | inr e ↦ elim (Bool-cases (x == 0)) [
    | inl x0 ↦ absurd (clash x y p (ground arith) e)
    | inr x1 ↦ elim (Bool-cases (y == 0)) [
      | inl y0 ↦ absurd (clash' x y p (ground arith) e)
      | inr y1 ↦ rw (e, x1, y1) refl
    ]
  ]
]
  where
    clash : (x y p : ℕ) → x ≡ 0 → ((x * y) % p == 0) ≡ false → ⊥
    clash x y p h e =
        let vanishes : (x * y) % p ≡ 0 = ap (λ t. t % p) (rw h (omega arith)) ∙ zero-mod p in
        ground arith

    clash' : (x y p : ℕ) → y ≡ 0 → ((x * y) % p == 0) ≡ false → ⊥
    clash' x y p h e =
        let vanishes : (x * y) % p ≡ 0 = ap (λ t. t % p) (rw h (omega arith)) ∙ zero-mod p in
        ground arith

module _ (p : ℕ) (f : ℕ → ℤ) (p_pos : 0 < p) (one : f 0 ≡ pos 1) (cb : CircuitBuilder) where
  residue-zero : residue p (pos 0) ≡ 0
  unfolding residue
  residue-zero = zero-mod p

  residue-one : 1 < p → residue p (pos 1) ≡ 1
  unfolding residue
  residue-one h = mod-eq_of_lt h

  -- `AssertEqual` adds that the two variables are equal modulo `p`, and nothing else.
  pub assert_equal_lem :
      (a b : ℕ)
      → all_hold p f (assert_equal a b cb).1.constraints
        ≡ (all_hold p f cb.constraints && (value p f cb a == value p f cb b))
  unfolding assert_equal
  assert_equal_lem a b =
      all_hold-push_constraint p f p_pos one _ cb
      ∙ ap (λ t. all_hold p f cb.constraints && t)
          (ap₂ (λ s t. s == t) (difference a b) residue-zero
            ∙ sub_mod-zero p (value p f cb a) (value p f cb b) (residue-lt p _ p_pos)
                (residue-lt p _ p_pos))
    where
      difference :
          (a b : ℕ)
          → residue p
              (dot f (sub_terms (get_lc cb b) (add_terms (get_lc cb a) [])) *ℤ dot f (alone 0))
            ≡ sub_mod p (value p f cb a) (value p f cb b)
      difference a b =
          ap (residue p) (
            ap (λ t. dot f (sub_terms (get_lc cb b) (add_terms (get_lc cb a) [])) *ℤ t)
              (dot-alone f 0 ∙ one)
            ∙ *ℤ_comm _ (pos 1)
            ∙ one-*ℤ _
            ∙ dot-sub_terms f (get_lc cb b) (add_terms (get_lc cb a) [])
            ∙ ap (λ t. t +ℤ neg_ℤ (val f cb b))
                (dot-add_terms f (get_lc cb a) [] ∙ zero-+ℤ (val f cb a)))
          ∙ residue-sub p f p_pos one (val f cb a) (val f cb b)

  -- `AssertMulEquals` adds that the product of two variables is the third modulo `p`.
  pub assert_mul_equals_lem :
      (a b c : ℕ)
      → all_hold p f (assert_mul_equals a b c cb).1.constraints
        ≡ (all_hold p f cb.constraints && ((value p f cb a * value p f cb b) % p == value p f cb c))
  unfolding assert_mul_equals
  assert_mul_equals_lem a b c =
      all_hold-push_constraint p f p_pos one _ cb
      ∙ ap (λ t. all_hold p f cb.constraints && (t == value p f cb c))
          (residue-*ℤ p (val f cb a) (val f cb b) p_pos)

  -- With 1 at the constant wire, `AssertBoolean` adds that the variable is 0 or 1 modulo a prime,
  -- and nothing else.
  pub assert_boolean_lem :
      (v : ℕ)
      → IsPrime p
      → all_hold p f (assert_boolean v cb).1.constraints
        ≡ (all_hold p f cb.constraints && ((value p f cb v == 0) || (value p f cb v == 1)))
  unfolding assert_boolean
  assert_boolean_lem v prime =
      let x = value p f cb v in
      let small : x < p = residue-lt p (val f cb v) p_pos in
      all_hold-push_constraint p f p_pos one _ cb
      ∙ ap (λ t. all_hold p f cb.constraints && t)
          (ap₂ (λ s t. s == t) (factors v (residue-one prime.0)) residue-zero
            ∙ product_is_zero p x (sub_mod p 1 x) prime small (mod-lt (1 + (p - x)) p_pos)
            ∙ ap (λ t. (x == 0) || t) (sub_mod-zero p 1 x prime.0 small ∙ ==-comm 1 x))
    where
      factors :
          (v : ℕ)
          → residue p (pos 1) ≡ 1
          → residue p (dot f (get_lc cb v) *ℤ dot f (sub_terms (get_lc cb v) (alone 0)))
            ≡ (value p f cb v * sub_mod p 1 (value p f cb v)) % p
      factors v one_mod =
          residue-*ℤ p (val f cb v) _ p_pos
          ∙ ap (λ t. (value p f cb v * t) % p)
              (ap (residue p) (
                  dot-sub_terms f (get_lc cb v) (alone 0)
                  ∙ ap (λ t. t +ℤ neg_ℤ (val f cb v)) (dot-alone f 0 ∙ one))
                ∙ residue-sub p f p_pos one (pos 1) (val f cb v)
                ∙ ap (λ t. sub_mod p t (value p f cb v)) one_mod)

      ==-comm : (x y : ℕ) → (x == y) ≡ (y == x)
      ==-comm x y = ground arith
