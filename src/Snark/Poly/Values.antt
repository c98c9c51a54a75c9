-- ===== src/Snark/Poly/Values.antt =====
-- The values of polynomials at a point, modulo `p`.
use yacl_r.Base.{
  zero, if◌then◌else◌, suc, length, ◌≤◌, arith, ℕ, ◌<◌, ◌≡◌, refl, sym, ap, ◌∙◌, [], ◌∷◌,
  Bool-cases, inl, inr,
}
use yacl_r.Base.Int.{
  ℤ, pos, neg_ℤ, ◌+ℤ◌, ◌*ℤ◌, is_zero, is_zero-eq, zero-*ℤ, +ℤ-*ℤ, *ℤ_assoc, *ℤ_comm, *ℤ_right_comm,
  one-*ℤ, neg_ℤ-*ℤ, eq_of_parts, sums,
}
use yacl_r.Base.Residue.{residue, residue-residue, sum_residue, product_residue, neg_residue}
use yacl_r.Snark.Mp.{Tommath}
use yacl_r.Snark.Poly.{
  Poly, drop_zeros, trim, add_all, add, sub_all, sub, scale_all, scalar_mul, evaluate,
}

-- The value of a polynomial.
abbrev pub eval : Poly → ℤ → ℤ
eval [] x = pos 0
eval (c ∷ r) x = c +ℤ eval r x *ℤ x

-- The sum of the terms, where `w` is the first power.
abbrev pub sum_of_terms : Poly → ℤ → ℤ → ℤ
sum_of_terms [] x w = pos 0
sum_of_terms (c ∷ r) x w = c *ℤ w +ℤ sum_of_terms r x (w *ℤ x)

sum_of_terms_lem : (f : Poly) (x w : ℤ) → sum_of_terms f x w ≡ eval f x *ℤ w
sum_of_terms_lem [] x w = sym (zero-*ℤ w)
sum_of_terms_lem (c ∷ r) x w =
    ap (λ t. c *ℤ w +ℤ t)
      (sum_of_terms_lem r x (w *ℤ x)
        ∙ ap (λ t. eval r x *ℤ t) (*ℤ_comm w x)
        ∙ sym (*ℤ_assoc (eval r x) x w))
    ∙ sym (+ℤ-*ℤ c (eval r x *ℤ x) w)

+ℤ-zero : (x : ℤ) → x +ℤ pos 0 ≡ x
+ℤ-zero x = eq_of_parts _ _ (omega sums)

eval-drop_zeros : (f : Poly) (x : ℤ) → eval (drop_zeros f) x ≡ eval f x
unfolding drop_zeros
eval-drop_zeros [] x = refl
eval-drop_zeros (c ∷ r) x = go (drop_zeros r) refl (eval-drop_zeros r x)
  where
    go :
        (q : Poly)
        → drop_zeros r ≡ q
        → eval (drop_zeros r) x ≡ eval r x
        → eval (drop_zeros (c ∷ r)) x ≡ c +ℤ eval r x *ℤ x
    go [] e ih =
        let vanishes : eval r x ≡ pos 0 = sym ih ∙ ap (λ t. eval t x) e in
        let nothing : c +ℤ eval r x *ℤ x ≡ c =
          ap (λ t. c +ℤ t *ℤ x) vanishes ∙ ap (λ t. c +ℤ t) (zero-*ℤ x) ∙ +ℤ-zero c in
        elim (Bool-cases (is_zero c)) [
          | inl z ↦ rw (e, drop_zeros) (rw z (sym (is_zero-eq c z)) ∙ sym nothing)
          | inr z ↦
              rw (e, drop_zeros) (rw z (ap (λ t. c +ℤ t) (zero-*ℤ x) ∙ +ℤ-zero c) ∙ sym nothing)
        ]
    go (d ∷ q) e ih = rw (e, drop_zeros) (ap (λ t. c +ℤ t *ℤ x) (ap (λ t. eval t x) (sym e) ∙ ih))

pub eval-trim : (f : Poly) (x : ℤ) → eval (trim f) x ≡ eval f x
unfolding trim
eval-trim [] x = refl
eval-trim (c ∷ r) x = ap (λ t. c +ℤ t *ℤ x) (eval-drop_zeros r x)

module _ (lib : Tommath) (p : ℕ) (p_pos : 0 < p) (x : ℤ) where
  abbrev pub at_x : Poly → ℕ
  at_x f = residue p (eval f x)

  -- The functions of the library, up to remainders.
  pub residue-add_mod : (a b : ℤ) → residue p (lib.add_mod a b (pos p)) ≡ residue p (a +ℤ b)
  residue-add_mod a b =
      ap (residue p) (lib.add_mod_lem p a b p_pos) ∙ residue-residue p (a +ℤ b) p_pos

  pub residue-sub_mod : (a b : ℤ) → residue p (lib.sub_mod a b (pos p)) ≡ residue p (a +ℤ neg_ℤ b)
  residue-sub_mod a b =
      ap (residue p) (lib.sub_mod_lem p a b p_pos) ∙ residue-residue p (a +ℤ neg_ℤ b) p_pos

  pub residue-mul_mod : (a b : ℤ) → residue p (lib.mul_mod a b (pos p)) ≡ residue p (a *ℤ b)
  residue-mul_mod a b =
      ap (residue p) (lib.mul_mod_lem p a b p_pos) ∙ residue-residue p (a *ℤ b) p_pos

  -- A coefficient and the rest may be replaced.
  pub at_x-cons :
      (c d : ℤ) (r : Poly) (y : ℤ)
      → residue p c ≡ residue p d
      → at_x r ≡ residue p y
      → at_x (c ∷ r) ≡ residue p (d +ℤ y *ℤ x)
  at_x-cons c d r y hc hr =
      sum_residue p c (eval r x *ℤ x) d (y *ℤ x) p_pos hc
        (product_residue p (eval r x) x y x p_pos hr refl)

  pub evaluate-at_x : (f : Poly) → residue p (evaluate lib (pos p) f x) ≡ at_x f
  unfolding evaluate
  evaluate-at_x [] = refl
  evaluate-at_x (c ∷ []) = ap (residue p) (sym (ap (λ t. c +ℤ t) (zero-*ℤ x) ∙ +ℤ-zero c))
  evaluate-at_x (c ∷ d ∷ r) =
      residue-add_mod _ c
      ∙ sum_residue p _ c (eval (d ∷ r) x *ℤ x) c p_pos
          (residue-mul_mod _ x
            ∙ product_residue p _ x (eval (d ∷ r) x) x p_pos (evaluate-at_x (d ∷ r)) refl)
          refl
      ∙ ap (residue p) (eq_of_parts _ _ (omega sums))

  -- `Evaluate` gives the sum of the coefficients times the powers of the point, up to multiples of
  -- the modulus.
  pub evaluate_lem :
      (f : Poly) → residue p (evaluate lib (pos p) f x) ≡ residue p (sum_of_terms f x (pos 1))
  evaluate_lem f =
      evaluate-at_x f
      ∙ ap (residue p)
          (sym (sum_of_terms_lem f x (pos 1) ∙ *ℤ_comm (eval f x) (pos 1) ∙ one-*ℤ (eval f x)))

  pub at_x-add_all :
      (a b : Poly) → at_x (add_all lib (pos p) a b) ≡ residue p (eval a x +ℤ eval b x)
  unfolding add_all
  at_x-add_all [] [] = ap (residue p) (eq_of_parts _ _ (omega sums))
  at_x-add_all (y ∷ a) [] = ap (residue p) (sym (+ℤ-zero _))
  at_x-add_all [] (z ∷ b) =
      at_x-cons _ (pos 0 +ℤ z) _ _ (residue-add_mod (pos 0) z) (at_x-add_all [] b)
      ∙ ap (residue p) (rw (+ℤ-*ℤ (pos 0) (eval b x) x, zero-*ℤ x) (eq_of_parts _ _ (omega sums)))
  at_x-add_all (y ∷ a) (z ∷ b) =
      at_x-cons _ (y +ℤ z) _ _ (residue-add_mod y z) (at_x-add_all a b)
      ∙ ap (residue p) (rw (+ℤ-*ℤ (eval a x) (eval b x) x) (eq_of_parts _ _ (omega sums)))

  at_x-sub_all :
      (a b : Poly) → at_x (sub_all lib (pos p) a b) ≡ residue p (eval a x +ℤ neg_ℤ (eval b x))
  unfolding sub_all
  at_x-sub_all [] [] = ap (residue p) (eq_of_parts _ _ (omega sums))
  at_x-sub_all (y ∷ a) [] = ap (residue p) (eq_of_parts _ _ (omega sums))
  at_x-sub_all [] (z ∷ b) =
      at_x-cons _ (pos 0 +ℤ neg_ℤ z) _ _ (residue-sub_mod (pos 0) z) (at_x-sub_all [] b)
      ∙ ap (residue p) (
          rw (+ℤ-*ℤ (pos 0) (neg_ℤ (eval b x)) x, zero-*ℤ x, neg_ℤ-*ℤ (eval b x) x)
            (eq_of_parts _ _ (omega sums)))
  at_x-sub_all (y ∷ a) (z ∷ b) =
      at_x-cons _ (y +ℤ neg_ℤ z) _ _ (residue-sub_mod y z) (at_x-sub_all a b)
      ∙ ap (residue p) (
          rw (+ℤ-*ℤ (eval a x) (neg_ℤ (eval b x)) x, neg_ℤ-*ℤ (eval b x) x)
            (eq_of_parts _ _ (omega sums)))

  pub at_x-scale_all :
      (s : ℤ) (a : Poly) → at_x (scale_all lib (pos p) s a) ≡ residue p (eval a x *ℤ s)
  unfolding scale_all
  at_x-scale_all s [] = ap (residue p) (sym (zero-*ℤ s))
  at_x-scale_all s (y ∷ a) =
      at_x-cons _ (y *ℤ s) _ _ (residue-mul_mod y s) (at_x-scale_all s a)
      ∙ ap (residue p)
          (ap (λ t. y *ℤ s +ℤ t) (*ℤ_right_comm (eval a x) s x) ∙ sym (+ℤ-*ℤ y (eval a x *ℤ x) s))

  pub at_x-add : (a b : Poly) → at_x (add lib (pos p) a b) ≡ residue p (eval a x +ℤ eval b x)
  unfolding add
  at_x-add a b = ap (residue p) (eval-trim (add_all lib (pos p) a b) x) ∙ at_x-add_all a b

  pub at_x-scalar_mul :
      (a : Poly) (s : ℤ) → at_x (scalar_mul lib (pos p) a s) ≡ residue p (eval a x *ℤ s)
  unfolding scalar_mul
  at_x-scalar_mul a s =
      ap (residue p) (eval-trim (scale_all lib (pos p) s a) x) ∙ at_x-scale_all s a

  -- `Add`, `Sub` and `ScalarMul` give polynomials with the sum, the difference and the multiple of the
  -- values at every point.
  pub evaluate-operations :
      (a b : Poly) (s : ℤ)
      → (residue p (evaluate lib (pos p) (add lib (pos p) a b) x)
          ≡ residue p (evaluate lib (pos p) a x +ℤ evaluate lib (pos p) b x))
        × (residue p (evaluate lib (pos p) (sub lib (pos p) a b) x)
            ≡ residue p (evaluate lib (pos p) a x +ℤ neg_ℤ (evaluate lib (pos p) b x)))
        × (residue p (evaluate lib (pos p) (scalar_mul lib (pos p) a s) x)
            ≡ residue p (evaluate lib (pos p) a x *ℤ s))
  unfolding sub
  evaluate-operations a b s =
      let ea = sym (evaluate-at_x a) in
      let eb = sym (evaluate-at_x b) in
      (
        evaluate-at_x _ ∙ at_x-add a b ∙ sum_residue p _ _ _ _ p_pos ea eb,
        evaluate-at_x _
            ∙ ap (residue p) (eval-trim (sub_all lib (pos p) a b) x)
            ∙ at_x-sub_all a b
            ∙ sum_residue p _ _ _ _ p_pos ea (neg_residue p _ _ p_pos eb),
        evaluate-at_x _ ∙ at_x-scalar_mul a s ∙ product_residue p _ s _ s p_pos ea refl,
      )

length-drop_zeros : (f : Poly) → length (drop_zeros f) ≤ length f
unfolding drop_zeros
length-drop_zeros [] = omega arith
length-drop_zeros (c ∷ r) = by_rest (drop_zeros r) (length-drop_zeros r)
  where
    by_rest :
        (q : Poly)
        → length q ≤ length r
        → length
            (elim q as (λ t. Poly) [ [] ↦ if is_zero c then [] else c ∷ [] | d ∷ t ↦ c ∷ d ∷ t ])
          ≤ suc (length r)
    by_rest [] h = ground arith
    by_rest (d ∷ t) h = omega (arith, h)

pub length-trim : (f : Poly) → length (trim f) ≤ length f
unfolding trim
length-trim [] = omega arith
length-trim (c ∷ r) = omega (arith, length-drop_zeros r)

module _ (lib : Tommath) (modulus : ℤ) where
  pub length-add_all :
      (n : ℕ) (f g : Poly) → length f ≤ n → length g ≤ n → length (add_all lib modulus f g) ≤ n
  unfolding add_all
  length-add_all n [] [] hf hg = hf
  length-add_all n (x ∷ f) [] hf hg = hf
  length-add_all zero [] (y ∷ g) hf hg = absurd (omega arith)
  length-add_all (suc n) [] (y ∷ g) hf hg =
      omega (arith, length-add_all n [] g (omega arith) (omega arith))
  length-add_all zero (x ∷ f) (y ∷ g) hf hg = absurd (omega arith)
  length-add_all (suc n) (x ∷ f) (y ∷ g) hf hg =
      omega (arith, length-add_all n f g (omega arith) (omega arith))

  pub length-scale_all : (s : ℤ) (f : Poly) → length (scale_all lib modulus s f) ≡ length f
  unfolding scale_all
  length-scale_all s [] = refl
  length-scale_all s (x ∷ f) = ap suc (length-scale_all s f)
