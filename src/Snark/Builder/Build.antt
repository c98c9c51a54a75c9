-- ===== src/Snark/Builder/Build.antt =====
-- `RemapLc` and `Build` (yacl/snark/circuit_builder.cc): the constraints over the variables of the
-- system.
pub mod Entries
pub mod Numbering
pub mod Satisfied
use yacl_r.Base.{
  ℕ, ◌+◌, List, [], ◌∷◌, ◌++◌, Option, none, some, length, Result, ok, err, enforce_not_met, ◌>>=◌,
}
use yacl_r.Base.Int.{ℤ}
use yacl_r.Base.NatMap.{find, put}
use yacl_r.Snark.R1cs.{LinearCombination, add_term, R1csConstraint, R1csSystem, add_constraint}
use yacl_r.Snark.Builder.{CircuitBuilder}

-- `var_map`, and `next_idx`.
abbrev pub Numbers : Type 0
Numbers = List (ℕ × ℕ) × ℕ

abbrev pub number : ℕ → Numbers → Numbers
number v (var_map, next_idx) = (put v next_idx var_map, next_idx + 1)

-- The loops over `public_vars_` and `private_vars_`.
unfoldable pub number_all : List ℕ → Numbers → Numbers
number_all [] m = m
number_all (v ∷ r) m = number_all r (number v m)

abbrev pub collect : ℕ → Numbers → Numbers
collect var m = elim (find var m.0) [ none ↦ number var m | some i ↦ m ]

unfoldable pub collect_vars : LinearCombination → Numbers → Numbers
collect_vars [] m = m
collect_vars ((var, coeff) ∷ r) m = collect_vars r (collect var m)

-- The loop over the constraints that collects their variables.
unfoldable pub collect_all : List R1csConstraint → Numbers → Numbers
unfolding collect_vars
collect_all [] m = m
collect_all (k ∷ r) m = collect_all r (collect_vars k.c (collect_vars k.b (collect_vars k.a m)))

unfoldable pub numbers : CircuitBuilder → Numbers
unfolding number_all collect_all
numbers cb =
    collect_all cb.constraints
      (number_all cb.private_vars (number_all cb.public_vars ((0, 0) ∷ [], 1)))

-- The loop of `RemapLc`, onto `result`.
pub remap_terms : List (ℕ × ℕ) → LinearCombination → LinearCombination → Result LinearCombination
remap_terms var_map [] result = ok result
remap_terms var_map ((var, coeff) ∷ r) result = elim (find var var_map) [
  | none ↦ err enforce_not_met
  | some i ↦ remap_terms var_map r (add_term i coeff result)
]

pub remap_lc : LinearCombination → List (ℕ × ℕ) → Result LinearCombination
unfolding remap_terms
remap_lc lc var_map = remap_terms var_map lc []

-- The loop of `Build`, on the constraints that are left.
pub remap_all : List (ℕ × ℕ) → List R1csConstraint → R1csSystem → Result R1csSystem
unfolding remap_lc
remap_all var_map [] r1cs = ok r1cs
remap_all var_map (k ∷ r) r1cs = do
  a ← remap_lc k.a var_map
  b ← remap_lc k.b var_map
  c ← remap_lc k.c var_map
  remap_all var_map r (add_constraint (record { a = a; b = b; c = c }) r1cs)

pub build : CircuitBuilder → Result R1csSystem
unfolding numbers remap_all
build cb =
    let (var_map, next_idx) = numbers cb in
    remap_all var_map cb.constraints (record {
      constraints = [];
      num_variables = next_idx;
      num_public_inputs = length cb.public_vars;
    })
