-- ===== src/Vss/Low.antt =====
-- Functions with the values of a polynomial of at most `n` coefficients, modulo `p`.
use yacl_r.Base.{
  ℕ, suc, ◌+◌, ◌≤◌, ◌<◌, ◌≡◌, refl, sym, ap, ◌∙◌, List, [], ◌∷◌, arith, length, ◌==◌, Bool-cases,
  inl, inr, true, false,
}
use yacl_r.Base.Int.{
  ℤ, pos, neg_ℤ, ◌+ℤ◌, ◌*ℤ◌, zero-*ℤ, +ℤ-*ℤ, *ℤ_comm, one-*ℤ, neg_ℤ-*ℤ, eq_of_parts, sums,
}
use yacl_r.Base.Residue.{residue, sum_residue, product_residue}
use yacl_r.Snark.Mp.{Tommath}
use yacl_r.Snark.Poly.{Poly, add_all, scale_all}
use yacl_r.Snark.Poly.Factors.{minus, others}
use yacl_r.Snark.Poly.Values.{eval, at_x-add_all, at_x-scale_all, length-add_all, length-scale_all}

pub record LowDegree (p n : ℕ) (g : ℤ → ℤ) : Type 0 where
  pub poly : Poly
  pub few : length poly ≤ n
  pub agrees : (t : ℤ) → residue p (g t) ≡ residue p (eval poly t)

-- The factor of the point `y` for the target `t`.
abbrev pub to_target : ℤ → ℤ → ℤ
to_target t y = minus y t

linear_ring : (f y t : ℤ) → (y +ℤ neg_ℤ t) *ℤ f ≡ f *ℤ y +ℤ (pos 0 +ℤ f *ℤ neg_ℤ (pos 1) *ℤ t)
linear_ring f y t =
    rw
      (
        +ℤ-*ℤ y (neg_ℤ t) f,
        neg_ℤ-*ℤ t f,
        *ℤ_comm f (neg_ℤ (pos 1)),
        neg_ℤ-*ℤ (pos 1) f,
        one-*ℤ f,
        neg_ℤ-*ℤ f t,
        *ℤ_comm t f,
        *ℤ_comm y f,
      )
      (eq_of_parts _ _ (omega sums))

module _ (lib : Tommath) (p : ℕ) (p_pos : 0 < p) where
  pub sum-LowDegree :
      (n : ℕ) (g h : ℤ → ℤ) → LowDegree p n g → LowDegree p n h → LowDegree p n (λ t. g t +ℤ h t)
  sum-LowDegree n g h low_g low_h = record {
    poly = add_all lib (pos p) low_g.poly low_h.poly;
    few = length-add_all lib (pos p) n low_g.poly low_h.poly low_g.few low_h.few;
    agrees = λ t.
        sum_residue p (g t) (h t) _ _ p_pos (low_g.agrees t) (low_h.agrees t)
        ∙ sym (at_x-add_all lib p p_pos t low_g.poly low_h.poly);
  }

  pub multiple-LowDegree :
      (n : ℕ) (g : ℤ → ℤ) (c : ℤ) → LowDegree p n g → LowDegree p n (λ t. g t *ℤ c)
  multiple-LowDegree n g c low = record {
    poly = scale_all lib (pos p) c low.poly;
    few = omega (arith, low.few, length-scale_all lib (pos p) c low.poly);
    agrees = λ t.
        product_residue p (g t) c _ c p_pos (low.agrees t) refl
        ∙ sym (at_x-scale_all lib p p_pos t c low.poly);
  }

  linear-LowDegree :
      (n : ℕ) (g : ℤ → ℤ) (y : ℤ)
      → LowDegree p n g
      → LowDegree p (suc n) (λ t. to_target t y *ℤ g t)
  linear-LowDegree n g y low =
      let shifted = pos 0 ∷ scale_all lib (pos p) (neg_ℤ (pos 1)) low.poly in
      record {
        poly = add_all lib (pos p) (scale_all lib (pos p) y low.poly) shifted;
        few =
            length-add_all lib (pos p) (suc n) (scale_all lib (pos p) y low.poly) shifted
              (omega (arith, low.few, length-scale_all lib (pos p) y low.poly))
              (omega (arith, low.few, length-scale_all lib (pos p) (neg_ℤ (pos 1)) low.poly));
        agrees = λ t.
            product_residue p (to_target t y) (g t) (to_target t y) (eval low.poly t) p_pos refl
              (low.agrees t)
            ∙ ap (residue p) (linear_ring (eval low.poly t) y t)
            ∙ sum_residue p _ _ _ _ p_pos (sym (at_x-scale_all lib p p_pos t y low.poly)) (
                sum_residue p (pos 0) _ (pos 0) _ p_pos refl (
                  product_residue p _ t _ t p_pos
                    (sym (at_x-scale_all lib p p_pos t (neg_ℤ (pos 1)) low.poly)) refl))
            ∙ sym (at_x-add_all lib p p_pos t (scale_all lib (pos p) y low.poly) shifted);
      }

  one-LowDegree : LowDegree p 1 (λ t. pos 1)
  one-LowDegree = record {
    poly = pos 1 ∷ [];
    few = omega arith;
    agrees =
        λ t. ap (residue p) (sym (ap (λ s. pos 1 +ℤ s) (zero-*ℤ t) ∙ eq_of_parts _ _ (omega sums)));
  }

  -- The product over all points has one coefficient more than points.
  all-LowDegree :
      (i j : ℕ) (xs : List ℤ)
      → i < j
      → LowDegree p (suc (length xs)) (λ t. others i j (to_target t) xs)
  unfolding others
  all-LowDegree i j [] past = one-LowDegree
  all-LowDegree i j (y ∷ r) past =
      let skip : (i == j) ≡ false = ground arith in
      rw skip (linear-LowDegree _ _ y (all-LowDegree i (j + 1) r (omega arith)))

  -- The product over all points but one has as many as there are points.
  pub others-LowDegree :
      (i j : ℕ) (xs : List ℤ)
      → j ≤ i
      → i < j + length xs
      → LowDegree p (length xs) (λ t. others i j (to_target t) xs)
  unfolding others
  others-LowDegree i j [] from below = absurd (omega arith)
  others-LowDegree i j (y ∷ r) from below = elim (Bool-cases (i == j)) [
    | inl e ↦ rw e (all-LowDegree i (j + 1) r (after i j e))
    | inr e ↦
        rw e
          (linear-LowDegree _ _ y (others-LowDegree i (j + 1) r (not_yet i j from e) (omega arith)))
  ]
    where
      after : (i j : ℕ) → (i == j) ≡ true → i < j + 1
      after i j e = ground arith

      not_yet : (i j : ℕ) → j ≤ i → (i == j) ≡ false → j + 1 ≤ i
      not_yet i j h e = ground arith
