-- ===== src/Vss/Degree.antt =====
-- Functions with the values of a polynomial of few coefficients, modulo `p`: a sum, a multiple and
-- a linear factor keep them so, and one that vanishes at enough points vanishes everywhere.
use yacl_r.Base.{
  ℕ, suc, ◌≤◌, ◌<◌, ◌≡◌, ◌≢◌, refl, sym, ap, ◌∙◌, List, [], ◌∷◌, some, arith, length, get_elem?,
}
use yacl_r.Base.Int.{
  ℤ, pos, neg_ℤ, ◌+ℤ◌, ◌*ℤ◌, zero-+ℤ, zero-*ℤ, +ℤ-*ℤ, *ℤ-+ℤ, *ℤ_comm, *ℤ_assoc, neg_ℤ-*ℤ,
  eq_of_parts, sums,
}
use yacl_r.Base.Inverse.{Invertible, cancel_factor}
use yacl_r.Base.Residue.{residue, sum_residue, product_residue}
use yacl_r.Snark.Poly.{Poly}
use yacl_r.Snark.Poly.Values.{eval}

-- `f` without the root `x`: f = f(x) + (t - x) * quotient.
quotient : Poly → ℤ → Poly
quotient [] x = []
quotient (c ∷ []) x = []
quotient (c ∷ d ∷ r) x = eval (d ∷ r) x ∷ quotient (d ∷ r) x

length-quotient : (c : ℤ) (r : Poly) (x : ℤ) → length (quotient (c ∷ r) x) ≡ length r
unfolding quotient
length-quotient c [] x = refl
length-quotient c (d ∷ r) x = ap suc (length-quotient d r x)

quotient_ring :
    (c g x t q : ℤ)
    → c +ℤ (g +ℤ (t +ℤ neg_ℤ x) *ℤ q) *ℤ t ≡ c +ℤ g *ℤ x +ℤ (t +ℤ neg_ℤ x) *ℤ (g +ℤ q *ℤ t)
quotient_ring c g x t q =
    rw
      (
        +ℤ-*ℤ g ((t +ℤ neg_ℤ x) *ℤ q) t,
        *ℤ-+ℤ (t +ℤ neg_ℤ x) g (q *ℤ t),
        *ℤ_assoc (t +ℤ neg_ℤ x) q t,
        +ℤ-*ℤ t (neg_ℤ x) g,
        neg_ℤ-*ℤ x g,
        *ℤ_comm x g,
        *ℤ_comm t g,
      )
      (eq_of_parts _ _ (omega sums))

quotient_zero : (c x t : ℤ) → c ≡ c +ℤ (t +ℤ neg_ℤ x) *ℤ pos 0
quotient_zero c x t =
    sym
      (ap (λ s. c +ℤ s) (*ℤ_comm (t +ℤ neg_ℤ x) (pos 0) ∙ zero-*ℤ _) ∙ eq_of_parts _ _ (omega sums))

quotient_lem : (f : Poly) (x t : ℤ) → eval f t ≡ eval f x +ℤ (t +ℤ neg_ℤ x) *ℤ eval (quotient f x) t
unfolding quotient
quotient_lem [] x t = quotient_zero (pos 0) x t
quotient_lem (c ∷ []) x t =
    ap (λ s. c +ℤ s) (zero-*ℤ t ∙ sym (zero-*ℤ x)) ∙ quotient_zero (c +ℤ pos 0 *ℤ x) x t
quotient_lem (c ∷ d ∷ r) x t =
    ap (λ s. c +ℤ s *ℤ t) (quotient_lem (d ∷ r) x t)
    ∙ quotient_ring c (eval (d ∷ r) x) x t (eval (quotient (d ∷ r) x) t)

-- The remainders of the points differ.
abbrev pub Distinct : ℕ → List ℤ → Type 0
Distinct p xs =
    (i j : ℕ) (v w : ℤ)
    → i ≢ j
    → get_elem? xs i ≡ some v
    → get_elem? xs j ≡ some w
    → Invertible p (w +ℤ neg_ℤ v)

abbrev pub VanishesAt : ℕ → Poly → List ℤ → Type 0
VanishesAt p f xs =
    (i : ℕ) (v : ℤ) → get_elem? xs i ≡ some v → residue p (eval f v) ≡ residue p (pos 0)

module _ (p : ℕ) (p_pos : 0 < p) where
  quotient-VanishesAt :
      (f : Poly) (x : ℤ) (xs : List ℤ)
      → Distinct p (x ∷ xs)
      → VanishesAt p f (x ∷ xs)
      → VanishesAt p (quotient f x) xs
  quotient-VanishesAt f x xs apart vanishes i v at_i =
      cancel_factor p p_pos (v +ℤ neg_ℤ x) (eval (quotient f x) v)
        (apart 0 (suc i) x v (λ e. absurd (omega (arith, e))) refl at_i)
        (sym (ap (residue p) (zero-+ℤ _))
          ∙ sum_residue p (pos 0) _ (eval f x) _ p_pos (sym (vanishes 0 x refl)) refl
          ∙ ap (residue p) (sym (quotient_lem f x v))
          ∙ vanishes (suc i) v at_i)

  -- A polynomial with no more coefficients than points where it vanishes is 0 everywhere.
  pub vanishes_everywhere :
      (f : Poly) (xs : List ℤ) (t : ℤ)
      → length f ≤ length xs
      → Distinct p xs
      → VanishesAt p f xs
      → residue p (eval f t) ≡ residue p (pos 0)
  vanishes_everywhere [] xs t h apart vanishes = refl
  vanishes_everywhere (c ∷ r) [] t h apart vanishes = absurd (omega arith)
  vanishes_everywhere (c ∷ r) (x ∷ xs) t h apart vanishes =
      ap (residue p) (quotient_lem (c ∷ r) x t)
      ∙ sum_residue p (eval (c ∷ r) x) _ (pos 0) ((t +ℤ neg_ℤ x) *ℤ pos 0) p_pos (vanishes 0 x refl)
          (product_residue p (t +ℤ neg_ℤ x) _ (t +ℤ neg_ℤ x) (pos 0) p_pos refl (
            vanishes_everywhere (quotient (c ∷ r) x) xs t (omega (arith, length-quotient c r x))
              (λ i j v w ne at_i at_j.
                apart (suc i) (suc j) v w (λ e. ne (omega (arith, e))) at_i at_j)
              (quotient-VanishesAt (c ∷ r) x xs apart vanishes)))
      ∙ ap (residue p) (sym (quotient_zero (pos 0) x t))
