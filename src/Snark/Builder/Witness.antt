-- ===== src/Snark/Builder/Witness.antt =====
-- `ComputeWitness` (yacl/snark/circuit_builder.cc). The loop runs on fuel, one for each round.
pub mod Rounds
pub mod Unknown
use yacl_r.Base.{
  ℕ, zero, suc, ◌+◌, Bool, true, false, not, ◌&&◌, List, [], ◌∷◌, Option, none, some, length,
  if◌then◌else◌, ltb, set,
}
use yacl_r.Base.Int.{ℤ, pos, is_one}
use yacl_r.Base.NatMap.{find, put}
use yacl_r.Snark.Mp.{Tommath}
use yacl_r.Snark.R1cs.{LinearCombination, R1csConstraint}
use yacl_r.Snark.Builder.{CircuitBuilder, VarInfo}
use yacl_r.Snark.Builder.Build.{numbers}

-- `values`, by variable.
abbrev pub Values : Type 0
Values = List (ℕ × ℤ)

pub is_known : ℕ → Values → Bool
is_known v values = elim (find v values) [ none ↦ false | some x ↦ true ]

-- `witness[i] = x`; `none` is a write past the end.
abbrev pub write : List ℤ → ℕ → ℤ → Option (List ℤ)
write witness i x = if ltb i (length witness) then some (set witness i x) else none

-- The body of the loop that fills the witness, for the variable `v` with the number `i`.
abbrev pub write_entry : Values → ℕ → ℕ → List ℤ → Option (List ℤ)
write_entry values v i witness = elim (find v values) [
  | none ↦ some witness
  | some x ↦ write witness i x
]

-- The loop, on the variables that are left.
pub fill : Values → List (ℕ × ℕ) → List ℤ → Option (List ℤ)
fill values [] witness = some witness
fill values ((v, i) ∷ r) witness = elim (write_entry values v i witness) [
  | none ↦ none
  | some next ↦ fill values r next
]

pub empty_witness : ℕ → List ℤ
empty_witness zero = []
empty_witness (suc n) = pos 0 ∷ empty_witness n

module _ (lib : Tommath) (modulus : ℤ) where
  -- The loop over the assignments that are left.
  pub assign : Values → Values → Values
  assign [] values = values
  assign ((v, x) ∷ r) values = assign r (put v (lib.mod_ℤ x modulus) values)

  -- The loop of `try_eval_lc`, on the terms that are left.
  pub try_eval_lc : Values → LinearCombination → ℤ → Option ℤ
  try_eval_lc values [] val = some val
  try_eval_lc values ((v, c) ∷ r) val = elim (find v values) [
    | none ↦ none
    | some x ↦ try_eval_lc values r (lib.add_mod val (lib.mul_mod c x modulus) modulus)
  ]

  -- The body of the loop over `var_info_`, on the values and `changed`.
  pub eval_var : ℕ → VarInfo → Values × Bool → Values × Bool
  unfolding is_known try_eval_lc
  eval_var v info (values, changed) =
      if info.is_computed && not (is_known v values)
      then elim (try_eval_lc values info.lc (pos 0)) [
        | none ↦ (values, changed)
        | some x ↦ (put v x values, true)
      ]
      else (values, changed)

  pub eval_vars : List (ℕ × VarInfo) → Values × Bool → Values × Bool
  unfolding eval_var
  eval_vars [] st = st
  eval_vars ((v, info) ∷ r) st = eval_vars r (eval_var v info st)

  -- `values[it->first] = expected` for the single term of the right side of a constraint.
  pub set_product : LinearCombination → ℤ → Values × Bool → Values × Bool
  unfolding is_known
  set_product [] expected st = st
  set_product ((v, c) ∷ u ∷ r) expected st = st
  set_product ((v, c) ∷ []) expected (values, changed) =
      if is_one c && not (is_known v values)
      then (put v expected values, true)
      else (values, changed)

  -- The body of the loop over the constraints.
  pub propagate : R1csConstraint → Values × Bool → Values × Bool
  unfolding try_eval_lc set_product
  propagate k st = elim (try_eval_lc st.0 k.a (pos 0)) [
    | none ↦ st
    | some a_val ↦ elim (try_eval_lc st.0 k.b (pos 0)) [
      | none ↦ st
      | some b_val ↦ set_product k.c (lib.mul_mod a_val b_val modulus) st
    ]
  ]

  pub propagate_all : List R1csConstraint → Values × Bool → Values × Bool
  unfolding propagate
  propagate_all [] st = st
  propagate_all (k ∷ r) st = propagate_all r (propagate k st)

  pub round : CircuitBuilder → Values → Values × Bool
  unfolding eval_vars propagate_all
  round cb values = propagate_all cb.constraints (eval_vars cb.var_info (values, false))

  -- The loop, while a round changes something.
  pub settle : ℕ → CircuitBuilder → Values → Option Values
  unfolding round
  settle zero cb values = none
  settle (suc fuel) cb values =
      let (next, changed) = round cb values in
      let rest = settle fuel cb next in if changed then rest else some next

  pub compute_witness : CircuitBuilder → Values → Option (List ℤ)
  unfolding assign settle fill empty_witness
  compute_witness cb assignments =
      elim (settle (length cb.var_info + length cb.constraints + 1) cb
        (assign assignments ((0, pos 1) ∷ []))) [
          | none ↦ none
          | some values ↦ elim (write (empty_witness (numbers cb).1) 0 (pos 1)) [
            | none ↦ none
            | some blank ↦ fill values (numbers cb).0 blank
          ]
        ]
