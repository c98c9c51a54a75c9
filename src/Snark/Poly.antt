-- ===== src/Snark/Poly.antt =====
-- Polynomials of yacl/snark/qap.h and the functions of poly_ops in qap.cc, the lowest coefficient first.
pub mod Division
pub mod Factors
pub mod Products
pub mod Values
use yacl_r.Base.{
  ℕ, zero, suc, ◌+◌, ◌-◌, Bool, true, false, not, ◌&&◌, List, [], ◌∷◌, Option, none, some, Result,
  ok, err, enforce_not_met, fault, if◌then◌else◌, length, get_elem?, take, ltb,
}
use yacl_r.Base.Int.{ℤ, pos, neg_ℤ, ◌+ℤ◌, is_zero}
use yacl_r.Snark.Mp.{Tommath}

abbrev pub Poly : Type 0
Poly = List ℤ

-- The coefficients, without the zeros at the end.
pub drop_zeros : Poly → Poly
drop_zeros [] = []
drop_zeros (c ∷ r) = elim (drop_zeros r) [
  | [] ↦ if is_zero c then [] else c ∷ []
  | d ∷ q ↦ c ∷ d ∷ q
]

-- The first coefficient stays.
pub trim : Poly → Poly
unfolding drop_zeros
trim [] = []
trim (c ∷ r) = c ∷ drop_zeros r

pub zeros : ℕ → Poly
zeros zero = []
zeros (suc n) = pos 0 ∷ zeros n

module _ (lib : Tommath) (modulus : ℤ) where
  pub neg_mod : ℤ → ℤ
  neg_mod v = if is_zero v then pos 0 else modulus +ℤ neg_ℤ (lib.mod_ℤ v modulus)

  -- `result[i] = result[i].AddMod(b[i], mod)` for the coefficients of `b`, on a result that was `a`.
  pub add_all : Poly → Poly → Poly
  add_all [] [] = []
  add_all (x ∷ a) [] = x ∷ a
  add_all [] (y ∷ b) = lib.add_mod (pos 0) y modulus ∷ add_all [] b
  add_all (x ∷ a) (y ∷ b) = lib.add_mod x y modulus ∷ add_all a b

  pub add : Poly → Poly → Poly
  unfolding trim add_all
  add a b = trim (add_all a b)

  pub sub_all : Poly → Poly → Poly
  sub_all [] [] = []
  sub_all (x ∷ a) [] = x ∷ a
  sub_all [] (y ∷ b) = lib.sub_mod (pos 0) y modulus ∷ sub_all [] b
  sub_all (x ∷ a) (y ∷ b) = lib.sub_mod x y modulus ∷ sub_all a b

  pub sub : Poly → Poly → Poly
  unfolding trim sub_all
  sub a b = trim (sub_all a b)

  -- The loop over `j` of `Mul` for the coefficient `x`, on the result from `i` on.
  pub add_row : ℤ → Poly → Poly → Option Poly
  add_row x [] result = some result
  add_row x (y ∷ b) [] = none
  add_row x (y ∷ b) (z ∷ result) = elim (add_row x b result) [
    | none ↦ none
    | some r ↦ some (lib.add_mod z (lib.mul_mod x y modulus) modulus ∷ r)
  ]

  -- The loop over `i`, on the coefficients of `a` that are left and the result from `i` on; `none` is
  -- a write past its end.
  pub add_rows : Poly → Poly → Poly → Option Poly
  unfolding add_row
  add_rows [] b result = some result
  add_rows (x ∷ a) b result = elim (if is_zero x then some result else add_row x b result) [
    | none ↦ none
    | some [] ↦ add_rows a b []
    | some (z ∷ r) ↦ elim (add_rows a b r) [ none ↦ none | some q ↦ some (z ∷ q) ]
  ]

  pub mul : Poly → Poly → Option Poly
  unfolding trim add_rows zeros
  mul [] b = some (pos 0 ∷ [])
  mul (x ∷ a) [] = some (pos 0 ∷ [])
  mul (x ∷ a) (y ∷ b) =
      elim (add_rows (x ∷ a) (y ∷ b) (zeros (length (x ∷ a) + length (y ∷ b) - 1))) [
        | none ↦ none
        | some r ↦ some (trim r)
      ]

  pub scale_all : ℤ → Poly → Poly
  scale_all s [] = []
  scale_all s (x ∷ a) = lib.mul_mod x s modulus ∷ scale_all s a

  pub scalar_mul : Poly → ℤ → Poly
  unfolding trim scale_all
  scalar_mul a s = trim (scale_all s a)

  -- Horner's method from the last coefficient down.
  pub evaluate : Poly → ℤ → ℤ
  evaluate [] x = pos 0
  evaluate (c ∷ []) x = c
  evaluate (c ∷ d ∷ r) x = lib.add_mod (lib.mul_mod (evaluate (d ∷ r) x) x modulus) c modulus

  -- The loop of `FromRoots`, on the roots that are left.
  pub multiply_roots : List ℤ → Poly → Option Poly
  unfolding mul neg_mod
  multiply_roots [] result = some result
  multiply_roots (root ∷ r) result = elim (mul result (neg_mod root ∷ pos 1 ∷ [])) [
    | none ↦ none
    | some p ↦ multiply_roots r p
  ]

  pub from_roots : List ℤ → Option Poly
  unfolding multiply_roots
  from_roots roots = multiply_roots roots (pos 1 ∷ [])
