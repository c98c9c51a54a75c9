-- ===== src/Snark/Poly/Division.antt =====
-- `DivMod` of poly_ops (yacl/snark/qap.cc).
pub mod Identity
pub mod Quotient
use yacl_r.Base.{
  ℕ, zero, suc, ◌+◌, ◌-◌, Bool, true, false, not, ◌&&◌, List, [], ◌∷◌, Option, none, some, Result,
  ok, err, enforce_not_met, fault, if◌then◌else◌, length, get_elem?, take, ltb,
}
use yacl_r.Base.Int.{ℤ, pos, is_zero}
use yacl_r.Snark.Mp.{Tommath}
use yacl_r.Snark.Poly.{Poly, trim}

unfoldable pub last_nonzero : Poly → Bool
last_nonzero [] = false
last_nonzero (c ∷ []) = not (is_zero c)
last_nonzero (c ∷ d ∷ r) = last_nonzero (d ∷ r)

module _ (lib : Tommath) (modulus : ℤ) where
  -- The loop over `j`, on the coefficients of `b` that are left and the remainder from `i + j` on.
  pub sub_row : ℤ → Poly → Poly → Option Poly
  sub_row coeff [] remainder = some remainder
  sub_row coeff (y ∷ b) [] = none
  sub_row coeff (y ∷ b) (z ∷ remainder) = elim (sub_row coeff b remainder) [
    | none ↦ none
    | some r ↦ some (lib.sub_mod z (lib.mul_mod coeff y modulus) modulus ∷ r)
  ]

  -- The body of the loop over `i`, on the quotient above `i` and the remainder from `i` on.
  pub divide_at : Poly → ℤ → Poly → Poly → Option (Poly × Poly)
  unfolding sub_row
  divide_at b inverse quotient remainder = elim (get_elem? remainder (length b - 1)) [
    | none ↦ none
    | some top ↦ elim (sub_row (lib.mul_mod top inverse modulus) b remainder) [
      | none ↦ none
      | some next ↦ some (lib.mul_mod top inverse modulus ∷ quotient, next)
    ]
  ]

  -- The loop over `i` from the top down: the quotient, and the remainder from the first of the
  -- coefficients on.
  pub divide : Poly → ℤ → Poly → Option (Poly × Poly)
  unfolding divide_at
  divide b inverse [] = some ([], [])
  divide b inverse (x ∷ a) = elim (divide b inverse a) [
    | none ↦ none
    | some (quotient, remainder) ↦
        if ltb (length (x ∷ a)) (length b)
        then some (quotient, x ∷ remainder)
        else divide_at b inverse quotient (x ∷ remainder)
  ]

  pub div_mod : Poly → Poly → Result (Poly × Poly)
  unfolding divide last_nonzero
  div_mod a b =
      if not (last_nonzero b)
      then err enforce_not_met
      else if ltb (length a) (length b)
      then ok (pos 0 ∷ [], a)
      else elim (get_elem? b (length b - 1)) [
        | none ↦ err fault
        | some lead ↦ elim (lib.invert_mod lead modulus) [
          | none ↦ err enforce_not_met
          | some inverse ↦ elim (divide b inverse a) [
            | none ↦ err fault
            | some (quotient, remainder) ↦ ok (trim quotient, trim (take (length b - 1) remainder))
          ]
        ]
      ]
