-- ===== src/Snark/Qap/System.antt =====
-- The polynomials of `R1csToQap` for the values of the constraints.
use yacl_r.Base.{
  ℕ, zero, suc, ◌+◌, ◌-◌, ◌<◌, ◌≡◌, ◌≢◌, refl, sym, ap, subst, ◌∙◌, true, false, List, [], ◌∷◌,
  some, ok, arith, length, get_elem?, Bool-cases, inl, inr, ◌==◌, ltb,
}
use yacl_r.Base.Int.{
  ℤ, pos, neg_ℤ, ◌+ℤ◌, ◌*ℤ◌, is_zero-eq, zero-+ℤ, zero-*ℤ, *ℤ_comm, neg_ℤ-*ℤ, eq_of_parts, sums,
}
use yacl_r.Base.Residue.{residue}
use yacl_r.Snark.Mp.{Tommath}
use yacl_r.Snark.R1cs.{LinearCombination, R1csConstraint}
use yacl_r.Snark.Poly.{Poly, evaluate}
use yacl_r.Snark.Poly.Values.{evaluate-at_x}
use yacl_r.Snark.Qap.{domain, coefficient, values, all_zero, interpolate}
use yacl_r.Base.Inverse.{Invertible}
use yacl_r.Snark.Poly.Factors.{minus, Apart}
use yacl_r.Snark.Qap.Interpolation.{lagrange_interpolate_lem}

module _ (lib : Tommath) (p : ℕ) (p_pos : 0 < p) where
  pub length-domain : (a n : ℕ) → length (domain a n) ≡ n
  unfolding domain
  length-domain a zero = refl
  length-domain a (suc n) = ap suc (length-domain (a + 1) n)

  domain-get : (a n m : ℕ) (v : ℤ) → get_elem? (domain a n) m ≡ some v → (v ≡ pos (a + m)) × (m < n)
  unfolding domain
  domain-get a zero m v h = absurd (ground arith)
  domain-get a (suc n) zero v h = (some-inj (sym h) ∙ ap pos (omega arith), omega arith)
    where
      some-inj : {x y : ℤ} → some x ≡ some y → x ≡ y
      some-inj h = ground arith
  domain-get a (suc n) (suc m) v h =
      let (e, below) = domain-get (a + 1) n m v h in (e ∙ ap pos (omega arith), omega arith)

  -- A difference of numbers up to `n` has an inverse, as their distance has one.
  difference-Invertible :
      (n a b : ℕ)
      → ((d : ℕ) → 0 < d → d < n → Invertible p (pos d))
      → a < b + n
      → b < a + n
      → a ≢ b
      → Invertible p (pos a +ℤ neg_ℤ (pos b))
  difference-Invertible n a b inverses ha hb apart = elim (Bool-cases (ltb a b)) [
    | inl e ↦
        let less : a < b = ground (arith, e) in
        let (y, h) = inverses (b - a) (omega arith) (omega arith) in
        let turned : pos a +ℤ neg_ℤ (pos b) ≡ neg_ℤ (pos (b - a)) =
          eq_of_parts _ _ (omega (sums, less)) in
        (neg_ℤ y, ap (residue p) (ap (λ t. t *ℤ neg_ℤ y) turned ∙ neg-neg (pos (b - a)) y) ∙ h)
    | inr e ↦
        let more : b < a = differs a b apart e in
        let (y, h) = inverses (a - b) (omega arith) (omega arith) in
        (y, ap (residue p) (ap (λ t. t *ℤ y) (eq_of_parts _ _ (omega (sums, more)))) ∙ h)
  ]
    where
      differs : (a b : ℕ) → a ≢ b → ltb a b ≡ false → b < a
      differs a b h e = ground arith

      neg-neg : (c d : ℤ) → neg_ℤ c *ℤ neg_ℤ d ≡ c *ℤ d
      neg-neg c d =
          neg_ℤ-*ℤ c (neg_ℤ d)
          ∙ ap neg_ℤ (*ℤ_comm c (neg_ℤ d) ∙ neg_ℤ-*ℤ d c)
          ∙ eq_of_parts (neg_ℤ (neg_ℤ (d *ℤ c))) (d *ℤ c) (omega sums)
          ∙ *ℤ_comm d c

  domain-Apart :
      (n m j a len v : ℕ)
      → ((d : ℕ) → 0 < d → d < n → Invertible p (pos d))
      → a ≡ j + 1
      → v ≡ m + 1
      → m < n
      → j + len ≡ n
      → Apart p m j (minus (pos v)) (domain a len)
  unfolding domain
  domain-Apart n m j a zero v inverses ha hv hm hj = tt
  domain-Apart n m j a (suc len) v inverses ha hv hm hj = (
    λ other. difference-Invertible n v a inverses (omega arith) (omega arith) (ne other),
    domain-Apart n m (j + 1) (a + 1) len v inverses (omega arith) hv hm (omega arith),
  )
    where
      ne : (m == j) ≡ false → v ≢ a
      ne other h = ground (arith, other)

  -- Every point of the domain is apart from the others.
  domain-all-Apart :
      (n m : ℕ) (v : ℤ)
      → ((d : ℕ) → 0 < d → d < n → Invertible p (pos d))
      → get_elem? (domain 1 n) m ≡ some v
      → Apart p m 0 (minus v) (domain 1 n)
  domain-all-Apart n m v inverses h =
      let (e, below) = domain-get 1 n m v h in
      subst (λ t. Apart p m 0 (minus t) (domain 1 n)) (sym e)
        (domain-Apart n m 0 1 n (1 + m) inverses (omega arith) (omega arith) below (omega arith))

  pub domain-some : (a n m : ℕ) → m < n → get_elem? (domain a n) m ≡ some (pos (a + m))
  unfolding domain
  domain-some a zero m h = absurd (omega arith)
  domain-some a (suc n) zero h = ap (λ t. some (pos t)) (omega arith)
  domain-some a (suc n) (suc m) h =
      domain-some (a + 1) n m (omega arith) ∙ ap (λ t. some (pos t)) (omega arith)

  pub length-values :
      (pick : R1csConstraint → LinearCombination) (i : ℕ) (ks : List R1csConstraint)
      → length (values lib (pos p) pick i ks) ≡ length ks
  unfolding values
  length-values pick i [] = refl
  length-values pick i (k ∷ r) = ap suc (length-values pick i r)

  pub values-get :
      (pick : R1csConstraint → LinearCombination) (i : ℕ) (ks : List R1csConstraint) (j : ℕ)
      (k : R1csConstraint)
      → get_elem? ks j ≡ some k
      → get_elem? (values lib (pos p) pick i ks) j ≡ some (coefficient lib (pos p) i (pick k))
  unfolding values
  values-get pick i [] j k h = absurd (ground arith)
  values-get pick i (l ∷ r) zero k h =
      ap (λ t. some (coefficient lib (pos p) i (pick t))) (some-inj h)
    where
      some-inj : {x y : R1csConstraint} → some x ≡ some y → x ≡ y
      some-inj h = ground arith
  values-get pick i (l ∷ r) (suc j) k h = values-get pick i r j k h

  all_zero-get :
      (vs : List ℤ) (j : ℕ) (v : ℤ) → all_zero vs ≡ true → get_elem? vs j ≡ some v → v ≡ pos 0
  unfolding all_zero
  all_zero-get [] j v z h = absurd (ground arith)
  all_zero-get (u ∷ r) zero v z h = sym (some-inj h) ∙ is_zero-eq u (ground arith)
    where
      some-inj : {x y : ℤ} → some x ≡ some y → x ≡ y
      some-inj h = ground arith
  all_zero-get (u ∷ r) (suc j) v z h = all_zero-get r j v (ground arith) h

  -- The polynomial for the values `vs` has the value of the constraint `j` at `j + 1`.
  pub interpolate_lem :
      (vs : List ℤ) (j : ℕ) (v : ℤ)
      → ((d : ℕ) → 0 < d → d < length vs → Invertible p (pos d))
      → get_elem? vs j ≡ some v
      → j < length vs
      → (f : Poly) × (interpolate lib (pos p) vs ≡ ok f)
        × (residue p (evaluate lib (pos p) f (pos (1 + j))) ≡ residue p v)
  unfolding interpolate
  interpolate_lem vs j v inverses h below = elim (Bool-cases (all_zero vs)) [
    | inl e ↦ (
      pos 0 ∷ [],
      rw e refl,
      evaluate-at_x lib p p_pos (pos (1 + j)) (pos 0 ∷ [])
          ∙ ap (residue p) (zero-+ℤ _ ∙ zero-*ℤ (pos (1 + j)) ∙ sym (all_zero-get vs j v e h)),
    )
    | inr e ↦
        let n = length vs in
        let (f, gives, hf) =
          lagrange_interpolate_lem lib p p_pos (pos (1 + j)) (domain 1 n) vs j v
            (λ m u. domain-all-Apart n m u inverses) (length-domain 1 n) (domain-some 1 n j below)
            h in
        (f, rw e gives, hf)
  ]
