-- ===== src/Tests/Snark.antt =====
-- Circuits (yacl/snark) modulo 5, on small inputs.
use yacl_r.Base.{
  set, length, List, some, ℕ, ◌*◌, ◌%◌, ◌^◌, ◌<◌, ◌≡◌, ◌⊎◌, inl, inr, refl, Bool, true, false, [],
  ◌∷◌, Result, ok, err, ◌>>=◌, arith, zero, suc,
}
use yacl_r.Base.Int.{ℤ, pos, ◌+ℤ◌, ◌*ℤ◌, neg_ℤ, is_zero}
use yacl_r.Base.NatMap.{find, put}
use yacl_r.Base.Residue.{residue}
use yacl_r.Snark.Mp.{exact}
use yacl_r.Snark.R1cs.{add_term, is_satisfied}
use yacl_r.Snark.R1cs.Values.{at, all_hold}
use yacl_r.Snark.Builder
use yacl_r.Snark.Builder.{CircuitBuilder, new}
use yacl_r.Snark.Builder.Witness
use yacl_r.Snark.Builder.Witness.Rounds.{compute_witness_lem}
use yacl_r.Snark.Builder.Linear.{val}
use yacl_r.Snark.Builder.Values.{value}
use yacl_r.Base.Inverse.{IsPrime}
use yacl_r.Snark.Builder.Build
use yacl_r.Snark.Builder.Build.{numbers, build}
use yacl_r.Snark.Builder.Build.Numbering.{IsValid, ConstraintsKnown, numbers-IsValid}
use yacl_r.Snark.Builder.Build.Satisfied.{index, is_satisfied-build}
use yacl_r.Snark.Gadgets
use yacl_r.Snark.Gadgets.Bits.Order.{range_check_lem, less_than_lem}
use yacl_r.Snark.Gadgets.Mimc.{permuted, mimc_hash_lem}

pub five-IsPrime : IsPrime 5
five-IsPrime = (omega arith, factor)
  where
    factor : (x y : ℕ) → x < 5 → y < 5 → (x * y) % 5 ≡ 0 → (x ≡ 0) ⊎ (y ≡ 0)
    factor zero y hx hy h = inl refl
    factor (suc zero) y hx hy h = inr (omega arith)
    factor (suc (suc zero)) y hx hy h = inr (omega arith)
    factor (suc (suc (suc zero))) y hx hy h = inr (omega arith)
    factor (suc (suc (suc (suc zero)))) y hx hy h = inr (omega arith)
    factor (suc (suc (suc (suc (suc x))))) y hx hy h = absurd (omega arith)

-- A builder with two inputs.
abbrev two_inputs : CircuitBuilder
two_inputs = (Builder.alloc_private (Builder.alloc_public new).1).1

-- Two inputs and their product.
abbrev product : CircuitBuilder
product = (Builder.mul 1 2 two_inputs).1

-- Values of the variables 0 to 6.
abbrev inputs : ℕ → ℤ
inputs = at (pos 1 ∷ pos 1 ∷ pos 0 ∷ pos 0 ∷ pos 0 ∷ pos 1 ∷ pos 0 ∷ [])

abbrev zeros : ℕ → ℤ
zeros = at (pos 1 ∷ [])

-- Values of the variables 0 to 4.
abbrev chosen : ℕ → ℤ
chosen = at (pos 1 ∷ pos 1 ∷ pos 0 ∷ pos 0 ∷ pos 1 ∷ [])

numbers-IsValid_example :
    IsValid (numbers product) × ConstraintsKnown (numbers product) product.constraints
numbers-IsValid_example = numbers-IsValid product

is_satisfied-build_example :
    (do s ← build product; is_satisfied exact (pos 1 ∷ pos 2 ∷ pos 3 ∷ pos 1 ∷ []) (pos 5) s)
    ≡ ok (
        all_hold 5
          (λ v. at (pos 1 ∷ pos 2 ∷ pos 3 ∷ pos 1 ∷ []) (index (numbers product) v))
          product.constraints)
unfolding Build.numbers Build.number_all Build.collect_all Build.collect_vars Builder.mul
    Builder.alloc_private Builder.alloc_public Builder.new Builder.get_lc Builder.push_constraint
    find put add_term is_zero
is_satisfied-build_example =
    is_satisfied-build exact 5 (pos 1 ∷ pos 2 ∷ pos 3 ∷ pos 1 ∷ []) product (omega arith) refl refl

range_check_lem_example :
    (o : Unit {0} × CircuitBuilder) × (Gadgets.range_check 2 1 two_inputs ≡ ok o)
    × ((all_hold 5 inputs o.1.constraints ≡ false) ⊎ (value 5 inputs two_inputs 2 < 2 ^ 1))
unfolding Builder.alloc_private Builder.alloc_public Builder.new
range_check_lem_example =
    range_check_lem 5 inputs (omega arith) refl 2 1 two_inputs five-IsPrime (omega arith)
      (omega arith)

less_than_lem_example :
    (o : ℕ × CircuitBuilder) × (Gadgets.less_than 2 1 1 two_inputs ≡ ok o)
    × ((all_hold 5 inputs o.1.constraints ≡ false) ⊎ (value 5 inputs o.1 o.0 ≡ 1))
unfolding Builder.alloc_private Builder.alloc_public Builder.new Builder.get_lc find put add_term
    is_zero residue ◌*ℤ◌ ◌+ℤ◌
less_than_lem_example =
    less_than_lem 5 inputs (omega arith) refl 2 1 1 two_inputs five-IsPrime (omega arith)
      (omega arith) (omega arith) (omega arith) (omega arith) (omega arith) (omega arith)

mimc_hash_lem_example :
    (o : ℕ × CircuitBuilder) × (Gadgets.mimc_hash 2 2 1 two_inputs ≡ ok o)
    × ((all_hold 5 zeros o.1.constraints ≡ false)
        ⊎ (value 5 zeros o.1 o.0
            ≡ residue 5 (
                permuted
                  (val zeros two_inputs 2)
                  1
                  0
                  (val zeros two_inputs 2 +ℤ val zeros two_inputs 2))))
unfolding Builder.alloc_private Builder.alloc_public Builder.new
mimc_hash_lem_example =
    mimc_hash_lem 5 zeros (omega arith) refl 2 2 1 two_inputs (omega arith) (omega arith)
      (omega arith)

-- The constraints of a circuit with these values.
holding : {A : Type 0} → (ℕ → ℤ) → Result (A × CircuitBuilder) → Bool
holding f (err e) = false
holding f (ok o) = all_hold 5 f o.1.constraints

satisfiable :
    (holding inputs (Gadgets.less_than 2 1 1 two_inputs) ≡ true)
    × (holding inputs (Gadgets.range_check 2 1 two_inputs) ≡ true)
    × (holding zeros (Gadgets.mimc_hash 2 2 1 two_inputs) ≡ true)
unfolding holding Gadgets.less_than Gadgets.range_check Gadgets.mimc_hash Gadgets.to_bits
    Gadgets.from_bits Gadgets.booleans Gadgets.boolean Gadgets.pack Gadgets.bool_not
    Gadgets.mimc_rounds Gadgets.mimc_round Builder.add Builder.sub Builder.mul Builder.mul_const
    Builder.add_const Builder.computed Builder.assert_boolean Builder.assert_equal
    Builder.alloc_private Builder.alloc_public Builder.new Builder.get_lc Builder.push_constraint
    Builder.add_terms Builder.sub_terms Builder.scale_terms find put add_term is_zero residue ◌*ℤ◌
    ◌+ℤ◌ neg_ℤ
satisfiable = (refl, refl, refl)

-- The inputs 2 and 3 of a product.
abbrev assignments : List (ℕ × ℤ)
assignments = (1, pos 2) ∷ (2, pos 3) ∷ []

compute_witness_lem_example :
    (values : List (ℕ × ℤ)) × (witness : List ℤ) × (Witness.compute_witness exact
        (pos 5)
        product
        assignments
      ≡ some witness)
    × (Witness.round exact (pos 5) product values ≡ (values, false))
    × (Witness.fill values
          (numbers product).0
          (set (Witness.empty_witness (numbers product).1) 0 (pos 1))
        ≡ some witness)
    × (length witness ≡ (numbers product).1)
compute_witness_lem_example = compute_witness_lem exact (pos 5) product assignments
