-- ===== src/Snark/Qap.antt =====
-- `LagrangeInterpolate` and `R1csToQap` (yacl/snark/qap.cc).
pub mod Interpolation
pub mod Program
pub mod System
use yacl_r.Base.{
  ℕ, zero, suc, ◌+◌, Bool, true, false, ◌&&◌, ltb, List, [], ◌∷◌, Option, none, some, Result, ok,
  err, enforce_not_met, fault, enforce, or_throw, ◌>>=◌, ◌>>◌, if◌then◌else◌, length, ◌==◌,
}
use yacl_r.Base.Int.{ℤ, pos, is_zero}
use yacl_r.Base.NatMap.{find}
use yacl_r.Snark.R1cs.{LinearCombination, R1csConstraint, R1csSystem}
use yacl_r.Snark.Mp.{Tommath}
use yacl_r.Snark.Poly.{Poly, neg_mod, add, mul, scalar_mul, zeros, from_roots}

-- `uvw` has the polynomials u, v, w of each variable.
pub record QapSystem : Type 0 where
  pub uvw : List (Poly × Poly × Poly)
  pub t : Poly

-- `domain`, from `first` on.
pub domain : ℕ → ℕ → List ℤ
domain first zero = []
domain first (suc n) = pos first ∷ domain (first + 1) n

pub all_zero : List ℤ → Bool
all_zero [] = true
all_zero (v ∷ r) = is_zero v && all_zero r

module _ (lib : Tommath) (modulus : ℤ) where
  -- The loop over `j`, on the points that are left: `basis` and `denom` for the point `xi` of the
  -- index `i`.
  pub basis_loop : ℕ → ℤ → ℕ → List ℤ → Poly → ℤ → Result (Poly × ℤ)
  basis_loop i xi j [] basis denom = ok (basis, denom)
  basis_loop i xi j (xj ∷ r) basis denom =
      let skipped = basis_loop i xi (j + 1) r basis denom in
      if i == j
      then skipped
      else elim (mul lib modulus basis (neg_mod lib modulus xj ∷ pos 1 ∷ [])) [
        | none ↦ err fault
        | some b ↦
            basis_loop i xi (j + 1) r b (lib.mul_mod denom (lib.sub_mod xi xj modulus) modulus)
      ]

  -- The polynomial that point `i` adds to the result.
  pub add_point : List ℤ → ℕ → ℤ → ℤ → Poly → Result Poly
  unfolding basis_loop
  add_point xs i xi yi result = elim (basis_loop i xi 0 xs (pos 1 ∷ []) (pos 1)) [
    | err e ↦ err e
    | ok (basis, denom) ↦ elim (lib.invert_mod denom modulus) [
      | none ↦ err enforce_not_met
      | some inverse ↦
          ok
            (add lib modulus result (scalar_mul lib modulus basis (lib.mul_mod yi inverse modulus)))
    ]
  ]

  -- The loop over `i`, on the points that are left, of all the points `xs`.
  pub interpolate_loop : List ℤ → ℕ → List ℤ → List ℤ → Poly → Result Poly
  unfolding add_point
  interpolate_loop xs i [] [] result = ok result
  interpolate_loop xs i [] (yi ∷ ys) result = ok result
  interpolate_loop xs i (xi ∷ r) [] result = ok result
  interpolate_loop xs i (xi ∷ r) (yi ∷ ys) result =
      elim (if is_zero yi then ok result else add_point xs i xi yi result) [
        | err e ↦ err e
        | ok next ↦ interpolate_loop xs (i + 1) r ys next
      ]

  pub lagrange_interpolate : List ℤ → List ℤ → Result Poly
  unfolding interpolate_loop
  lagrange_interpolate xs ys = do
    enforce (length xs == length ys)
    interpolate_loop xs 0 xs ys (zeros (length xs))

  pub coefficient : ℕ → LinearCombination → ℤ
  coefficient i lc = elim (find i lc) [ none ↦ pos 0 | some c ↦ lib.mod_ℤ c modulus ]

  -- `u_vals`, `v_vals`, `w_vals`, for the side `pick` of the constraints.
  pub values : (R1csConstraint → LinearCombination) → ℕ → List R1csConstraint → List ℤ
  unfolding coefficient
  values pick i [] = []
  values pick i (k ∷ r) = coefficient i (pick k) ∷ values pick i r

  pub interpolate : List ℤ → Result Poly
  unfolding domain all_zero lagrange_interpolate
  interpolate vals =
      if all_zero vals then ok (pos 0 ∷ []) else lagrange_interpolate (domain 1 (length vals)) vals

  -- The loop over the variables from `i` on, of which `n` are left.
  pub interpolate_all : List R1csConstraint → ℕ → ℕ → Result (List (Poly × Poly × Poly))
  unfolding values interpolate
  interpolate_all ks i zero = ok []
  interpolate_all ks i (suc n) = do
    u ← interpolate (values (λ k. k.a) i ks)
    v ← interpolate (values (λ k. k.b) i ks)
    w ← interpolate (values (λ k. k.c) i ks)
    rest ← interpolate_all ks (i + 1) n
    ok ((u, v, w) ∷ rest)

  pub r1cs_to_qap : R1csSystem → Result QapSystem
  unfolding domain interpolate_all
  r1cs_to_qap r1cs = do
    enforce (ltb 0 (length r1cs.constraints))
    enforce (ltb 0 r1cs.num_variables)
    t ← or_throw (from_roots lib modulus (domain 1 (length r1cs.constraints))) fault
    uvw ← interpolate_all r1cs.constraints 0 r1cs.num_variables
    ok (record { uvw = uvw; t = t })
