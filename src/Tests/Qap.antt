-- ===== src/Tests/Qap.antt =====
-- Polynomials and quadratic arithmetic programs (yacl/snark/qap.cc) modulo 5, on small inputs.
use yacl_r.Base.{
  ℕ, zero, suc, ◌<◌, ◌≡◌, refl, subst, List, [], ◌∷◌, some, ok, arith, length, get_elem?,
}
use yacl_r.Base.Int.{is_zero, ℤ, pos, ◌+ℤ◌, ◌*ℤ◌, neg_ℤ}
use yacl_r.Base.Residue.{residue}
use yacl_r.Snark.Mp.{exact}
use yacl_r.Snark.R1cs.{R1csConstraint, R1csSystem}
use yacl_r.Snark.Poly.{Poly, evaluate, mul}
use yacl_r.Snark.Poly.Products.{evaluate-mul}
use yacl_r.Snark.Poly.Division.{last_nonzero, div_mod}
use yacl_r.Snark.Poly.Division.Identity.{div_mod_lem}
use yacl_r.Snark.Qap.{QapSystem, lagrange_interpolate, r1cs_to_qap}
use yacl_r.Base.Inverse.{Invertible}
use yacl_r.Snark.Poly.Factors.{minus, Apart}
use yacl_r.Snark.Qap.Interpolation.{lagrange_interpolate_lem}
use yacl_r.Snark.Qap.Program.{Matches, r1cs_to_qap-Matches}

-- 1 + 2 x + 3 x ^ 2
abbrev parabola : Poly
parabola = pos 1 ∷ pos 2 ∷ pos 3 ∷ []

-- 4 + x
abbrev line : Poly
line = pos 4 ∷ pos 1 ∷ []

evaluate-mul_example :
    (f : Poly) × (mul exact (pos 5) parabola line ≡ some f)
    × (residue 5 (evaluate exact (pos 5) f (pos 2))
        ≡ residue 5
            (evaluate exact (pos 5) parabola (pos 2) *ℤ evaluate exact (pos 5) line (pos 2)))
evaluate-mul_example = evaluate-mul exact 5 (omega arith) (pos 2) parabola line

div_mod_lem_example :
    (q : Poly) × (r : Poly) × (div_mod exact (pos 5) parabola line ≡ ok (q, r))
    × (length r < 2)
    × (residue 5 (evaluate exact (pos 5) parabola (pos 2))
        ≡ residue 5 (
            evaluate exact (pos 5) q (pos 2) *ℤ evaluate exact (pos 5) line (pos 2)
            +ℤ evaluate exact (pos 5) r (pos 2)))
unfolding last_nonzero is_zero residue ◌*ℤ◌
div_mod_lem_example =
    div_mod_lem exact 5 (omega arith) (pos 2) parabola line (pos 1) (pos 1) refl refl refl

abbrev two_points : List ℤ
two_points = pos 1 ∷ pos 2 ∷ []

two_points-Apart :
    (m : ℕ) (v : ℤ) → get_elem? two_points m ≡ some v → Apart 5 m 0 (minus v) two_points
unfolding residue ◌+ℤ◌ ◌*ℤ◌ neg_ℤ
two_points-Apart zero v h =
    subst (λ t. Apart 5 0 0 (minus t) two_points) (some-inj h)
      (λ e. absurd (ground arith), (λ e. (pos 4, refl), tt))
  where
    some-inj : {a b : ℤ} → some a ≡ some b → a ≡ b
    some-inj h = ground arith
two_points-Apart (suc zero) v h =
    subst (λ t. Apart 5 1 0 (minus t) two_points) (some-inj h)
      (λ e. (pos 1, refl), (λ e. absurd (ground arith), tt))
  where
    some-inj : {a b : ℤ} → some a ≡ some b → a ≡ b
    some-inj h = ground arith
two_points-Apart (suc (suc m)) v h = absurd (ground arith)

lagrange_interpolate_lem_example :
    (f : Poly) × (lagrange_interpolate exact (pos 5) two_points (pos 3 ∷ pos 4 ∷ []) ≡ ok f)
    × (residue 5 (evaluate exact (pos 5) f (pos 2)) ≡ residue 5 (pos 4))
lagrange_interpolate_lem_example =
    lagrange_interpolate_lem exact 5 (omega arith) (pos 2) two_points (pos 3 ∷ pos 4 ∷ []) 1 (pos 4)
      two_points-Apart refl refl refl

-- x1 * x1 = x2
abbrev square : R1csConstraint
square = record { a = (1, pos 1) ∷ []; b = (1, pos 1) ∷ []; c = (2, pos 1) ∷ [] }

-- x2 * x1 = x3
abbrev cube : R1csConstraint
cube = record { a = (2, pos 1) ∷ []; b = (1, pos 1) ∷ []; c = (3, pos 1) ∷ [] }

abbrev cubes : R1csSystem
cubes = record { constraints = square ∷ cube ∷ []; num_variables = 4; num_public_inputs = 1 }

one-Invertible : (d : ℕ) → 0 < d → d < 2 → Invertible 5 (pos d)
unfolding residue ◌*ℤ◌
one-Invertible zero h below = absurd (omega arith)
one-Invertible (suc zero) h below = (pos 1, refl)
one-Invertible (suc (suc d)) h below = absurd (omega arith)

r1cs_to_qap-Matches_example :
    (q : QapSystem) × (r1cs_to_qap exact (pos 5) cubes ≡ ok q)
    × (length q.uvw ≡ 4)
    × Matches exact 5 (pos 2) cube 0 q.uvw
    × (residue 5 (evaluate exact (pos 5) q.t (pos 2)) ≡ residue 5 (pos 0))
r1cs_to_qap-Matches_example =
    r1cs_to_qap-Matches exact 5 (omega arith) cubes 1 cube one-Invertible refl (omega arith)
      (omega arith)
