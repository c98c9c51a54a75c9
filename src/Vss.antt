-- ===== src/Vss.antt =====
-- `Polynomial` of yacl/vss/poly.h and poly.cc: a random polynomial, its values, and the Lagrange
-- interpolation of a value. The source of random numbers is a parameter: `random_lt_n` takes the
-- bound and the state of the source, and gives the number and the next state.

pub mod Combination
pub mod Commits
pub mod Degree
pub mod Lagrange
pub mod Low
pub mod Shares
use yacl_r.Base.{
  ℕ, zero, suc, ◌+◌, List, [], ◌∷◌, none, some, Result, ok, err, enforce_not_met, fault, enforce,
  or_throw, ◌>>=◌, ◌>>◌, if◌then◌else◌, length, get_elem?, ◌==◌, ltb,
}
use yacl_r.Base.Int.{ℤ, pos}
use yacl_r.Snark.Mp.{Tommath}

pub record Polynomial : Type 0 where
  pub coeffs : List ℤ
  pub modulus : ℤ

module _ {S : Type 0} (random_lt_n : ℤ → S → ℤ × S) where
  -- The loop over `i`: one draw for each coefficient but the first.
  unfoldable pub random_coefficients : ℤ → ℕ → S → List ℤ × S
  random_coefficients modulus zero s = ([], s)
  random_coefficients modulus (suc n) s =
      let (c, next) = random_lt_n modulus s in
      let (rest, last) = random_coefficients modulus n next in (c ∷ rest, last)

  -- With threshold 0, `coefficients[0]` is a write past the end.
  unfoldable pub create_polynomial : Polynomial → ℤ → ℕ → S → Result (Polynomial × S)
  unfolding random_coefficients
  create_polynomial poly zero_value zero s = err fault
  create_polynomial poly zero_value (suc n) s =
      let (rest, last) = random_coefficients poly.modulus n s in
      ok (record poly { coeffs = zero_value ∷ rest }, last)

  pub random_polynomial : Polynomial → ℕ → S → Result (Polynomial × S)
  unfolding create_polynomial
  random_polynomial poly threshold s =
      let (zero_value, next) = random_lt_n poly.modulus s in
      create_polynomial poly zero_value threshold next

module _ (lib : Tommath) where
  -- The loop from the last coefficient down to `c`, of a polynomial that goes on with `r`.
  unfoldable pub horner : ℤ → ℤ → ℤ → List ℤ → ℤ
  horner modulus x c [] = c
  horner modulus x c (d ∷ r) = lib.add_mod (lib.mul_mod x (horner modulus x d r) modulus) c modulus

  unfoldable pub evaluate_polynomial : Polynomial → ℤ → Result ℤ
  unfolding horner
  evaluate_polynomial poly x = elim poly.coeffs [
    | [] ↦ err enforce_not_met
    | c ∷ r ↦ ok (horner poly.modulus x c r)
  ]

  -- The loop over `j`, on the points that are left: `num` and `denum`.
  pub lagrange_products : ℕ → ℤ → ℤ → ℤ → ℕ → List ℤ → ℤ → ℤ → ℤ × ℤ
  lagrange_products index xi target_x modulus j [] num denum = (num, denum)
  lagrange_products index xi target_x modulus j (xj ∷ r) num denum =
      let skipped = lagrange_products index xi target_x modulus (j + 1) r num denum in
      if index == j
      then skipped
      else lagrange_products index xi target_x modulus (j + 1) r
          (lib.mul_mod num (lib.sub_mod xj target_x modulus) modulus)
          (lib.mul_mod denum (lib.sub_mod xj xi modulus) modulus)

  pub lagrange_compute_at_x : List ℤ → ℕ → ℤ → ℤ → ℤ → Result ℤ
  unfolding lagrange_products
  lagrange_compute_at_x xs index y target_x modulus = elim (get_elem? xs index) [
    | none ↦ err enforce_not_met
    | some xi ↦
        let (num, denum) = lagrange_products index xi target_x modulus 0 xs (pos 1) (pos 1) in
        elim (lib.invert_mod denum modulus) [
          | none ↦ err enforce_not_met
          | some inverse ↦ ok (lib.mul_mod (lib.mul_mod y num modulus) inverse modulus)
        ]
  ]

  -- The loop over `i`, on the values that are left.
  pub interpolation_loop : List ℤ → ℤ → ℤ → ℕ → List ℤ → ℤ → Result ℤ
  unfolding lagrange_compute_at_x
  interpolation_loop xs target_x modulus i [] acc = ok acc
  interpolation_loop xs target_x modulus i (y ∷ ys) acc =
      elim (lagrange_compute_at_x xs i y target_x modulus) [
        | err e ↦ err e
        | ok t ↦ interpolation_loop xs target_x modulus (i + 1) ys (lib.add_mod t acc modulus)
      ]

  pub lagrange_interpolation : List ℤ → List ℤ → ℤ → ℤ → Result ℤ
  unfolding interpolation_loop
  lagrange_interpolation xs ys target_x modulus = do
    enforce (length xs == length ys)
    interpolation_loop xs target_x modulus 0 ys (pos 0)

  -- The member function: the value at 0.
  pub interpolate_at_zero : Polynomial → List ℤ → List ℤ → Result ℤ
  unfolding lagrange_interpolation
  interpolate_at_zero poly xs ys = lagrange_interpolation xs ys (pos 0) poly.modulus
