-- ===== src/Snark/R1cs.antt =====
-- yacl/snark/r1cs.h and r1cs.cc. A variable is an index that is not negative.
pub mod Values
use yacl_r.Base.{
  ℕ, zero, suc, ◌+◌, ◌%◌, ◌<◌, ◌≡◌, Bool, true, false, not, ◌&&◌, List, [], ◌∷◌, ◌++◌, Option, none,
  some, Result, ok, err, enforce_not_met, fault, enforce, or_throw, ◌>>=◌, ◌>>◌, ltb, ◌==◌,
  if◌then◌else◌, length, get_elem?,
}
use yacl_r.Base.Int.{ℤ, pos, negsuc, ◌+ℤ◌, ◌*ℤ◌, is_zero, is_one}
use yacl_r.Base.NatMap.{find}
use yacl_r.Snark.Mp.{Tommath}

-- `terms_`, by increasing variable.
abbrev pub LinearCombination : Type 0
LinearCombination = List (ℕ × ℤ)

unfoldable pub add_term : ℕ → ℤ → LinearCombination → LinearCombination
add_term var coeff [] = if is_zero coeff then [] else (var, coeff) ∷ []
add_term var coeff ((u, x) ∷ r) =
    let rest = add_term var coeff r in
    if var == u
    then (if is_zero (x +ℤ coeff) then r else (u, x +ℤ coeff) ∷ r)
    else if ltb var u
    then (if is_zero coeff then (u, x) ∷ r else (var, coeff) ∷ (u, x) ∷ r)
    else (u, x) ∷ rest

pub record R1csConstraint : Type 0 where
  pub a : LinearCombination
  pub b : LinearCombination
  pub c : LinearCombination

pub record R1csSystem : Type 0 where
  pub constraints : List R1csConstraint
  pub num_variables : ℕ
  pub num_public_inputs : ℕ

unfoldable pub add_constraint : R1csConstraint → R1csSystem → R1csSystem
add_constraint k s = record s { constraints = s.constraints ++ k ∷ [] }

-- `==` of two `MPInt`
pub same_ℤ : ℤ → ℤ → Bool
same_ℤ (pos m) (pos n) = m == n
same_ℤ (pos m) (negsuc n) = false
same_ℤ (negsuc m) (pos n) = false
same_ℤ (negsuc m) (negsuc n) = m == n

module _ (lib : Tommath) where
  -- The loop of `Evaluate`, on the terms that are left.
  pub eval_terms : List ℤ → ℤ → ℤ → LinearCombination → Result ℤ
  eval_terms witness modulus result [] = ok result
  eval_terms witness modulus result ((var, coeff) ∷ r) = elim (get_elem? witness var) [
    | none ↦ err enforce_not_met
    | some x ↦
        eval_terms witness modulus (lib.add_mod result (lib.mul_mod coeff x modulus) modulus) r
  ]

  pub evaluate : List ℤ → ℤ → LinearCombination → Result ℤ
  unfolding eval_terms
  evaluate witness modulus lc = eval_terms witness modulus (pos 0) lc

  -- The loop of `IsSatisfied`, on the constraints that are left.
  pub check_constraints : List ℤ → ℤ → List R1csConstraint → Result Bool
  check_constraints witness modulus [] = ok true
  check_constraints witness modulus (k ∷ r) = do
    let rest = check_constraints witness modulus r
    a_val ← evaluate witness modulus k.a
    b_val ← evaluate witness modulus k.b
    c_val ← evaluate witness modulus k.c
    if same_ℤ (lib.mul_mod a_val b_val modulus) c_val then rest else ok false

  -- An empty witness has no element 0.
  pub is_satisfied : List ℤ → ℤ → R1csSystem → Result Bool
  unfolding check_constraints
  is_satisfied witness modulus s = do
    enforce (length witness == s.num_variables)
    one ← or_throw (get_elem? witness 0) fault
    enforce (is_one one)
    check_constraints witness modulus s.constraints
