-- ===== src/Snark/Builder.antt =====
-- `CircuitBuilder` (yacl/snark/circuit_builder.h, circuit_builder.cc). An operation takes the builder
-- and returns a variable and the builder after it.
pub mod Linear
pub mod Asserts
pub mod Build
pub mod Denotes
pub mod Extends
pub mod Values
pub mod Witness
use yacl_r.Base.{
  ℕ, ◌+◌, Bool, true, false, List, [], ◌∷◌, ◌++◌, Option, none, some, ◌==◌, if◌then◌else◌,
}
use yacl_r.Base.Int.{ℤ, pos, neg_ℤ, ◌+ℤ◌, ◌*ℤ◌}
use yacl_r.Base.NatMap.{find, put}
use yacl_r.Snark.R1cs.{LinearCombination, add_term, R1csConstraint}

pub record VarInfo : Type 0 where
  pub lc : LinearCombination
  pub is_public : Bool
  pub is_private : Bool
  pub is_computed : Bool

pub record CircuitBuilder : Type 0 where
  pub next_var : ℕ
  pub public_vars : List ℕ
  pub private_vars : List ℕ
  pub var_info : List (ℕ × VarInfo)
  pub constraints : List R1csConstraint

abbrev pub M : Type 0 → Type 0
M A = CircuitBuilder → A × CircuitBuilder

infixl 5 ◌>>=◌ ◌>>◌
abbrev pub ◌>>=◌ : {A B : Type 0} → M A → (A → M B) → M B
◌>>=◌ m k cb = let (v, cb') = m cb in k v cb'

abbrev pub ◌>>◌ : {B : Type 0} → M (Unit {0}) → M B → M B
◌>>◌ m k cb = k (m cb).1

abbrev pub pure : {A : Type 0} → A → M A
pure v cb = (v, cb)

-- The combination of `var` alone.
abbrev pub alone : ℕ → LinearCombination
alone var = add_term var (pos 1) []

unfoldable pub new : CircuitBuilder
new = record {
  next_var = 1;
  public_vars = [];
  private_vars = [];
  var_info =
      (0, record { lc = alone 0; is_public = false; is_private = false; is_computed = true }) ∷ [];
  constraints = [];
}

-- `AllocVar` and `var_info_[v] = info`, where `info` may depend on the variable.
abbrev pub alloc : (ℕ → VarInfo) → M ℕ
alloc info cb = (
  cb.next_var,
  record cb {
    next_var = cb.next_var + 1;
    var_info = put cb.next_var (info cb.next_var) cb.var_info;
  },
)

unfoldable pub alloc_public : M ℕ
alloc_public cb =
    let (v, cb') =
      alloc
        (λ v. record { lc = alone v; is_public = true; is_private = false; is_computed = false })
        cb in
    (v, record cb' { public_vars = cb'.public_vars ++ v ∷ [] })

unfoldable pub alloc_private : M ℕ
alloc_private cb =
    let (v, cb') =
      alloc
        (λ v. record { lc = alone v; is_public = false; is_private = true; is_computed = false })
        cb in
    (v, record cb' { private_vars = cb'.private_vars ++ v ∷ [] })

unfoldable pub get_lc : CircuitBuilder → ℕ → LinearCombination
get_lc cb var = elim (find var cb.var_info) [ some info ↦ info.lc | none ↦ alone var ]

-- The loops over the terms of a combination, onto another.
unfoldable pub add_terms : LinearCombination → LinearCombination → LinearCombination
add_terms [] combined = combined
add_terms ((var, coeff) ∷ r) combined = add_terms r (add_term var coeff combined)

unfoldable pub sub_terms : LinearCombination → LinearCombination → LinearCombination
sub_terms [] combined = combined
sub_terms ((var, coeff) ∷ r) combined = sub_terms r (add_term var (neg_ℤ coeff) combined)

unfoldable pub scale_terms : ℤ → LinearCombination → LinearCombination → LinearCombination
scale_terms c [] scaled = scaled
scale_terms c ((var, coeff) ∷ r) scaled = scale_terms c r (add_term var (coeff *ℤ c) scaled)

-- A computed variable.
unfoldable pub computed : LinearCombination → M ℕ
computed lc =
    alloc (λ v. record { lc = lc; is_public = false; is_private = false; is_computed = true })

unfoldable pub add : ℕ → ℕ → M ℕ
add a b cb = computed (add_terms (get_lc cb b) (add_terms (get_lc cb a) [])) cb

unfoldable pub sub : ℕ → ℕ → M ℕ
sub a b cb = computed (sub_terms (get_lc cb b) (add_terms (get_lc cb a) [])) cb

unfoldable pub mul_const : ℕ → ℤ → M ℕ
mul_const a c cb = computed (scale_terms c (get_lc cb a) []) cb

unfoldable pub add_const : ℕ → ℤ → M ℕ
add_const a c cb = computed (add_term 0 c (add_terms (get_lc cb a) [])) cb

unfoldable pub push_constraint : R1csConstraint → M (Unit {0})
push_constraint k cb = (tt, record cb { constraints = cb.constraints ++ k ∷ [] })

unfoldable pub mul : ℕ → ℕ → M ℕ
unfolding alloc_private push_constraint
mul a b cb =
    let (result, cb') = alloc_private cb in
    (
      result,
      (push_constraint (record { a = get_lc cb' a; b = get_lc cb' b; c = get_lc cb' result })
          cb').1,
    )

-- (a - b) · 1 = 0
unfoldable pub assert_equal : ℕ → ℕ → M (Unit {0})
unfolding push_constraint
assert_equal a b cb =
    push_constraint
      (record { a = sub_terms (get_lc cb b) (add_terms (get_lc cb a) []); b = alone 0; c = [] }) cb

-- var · (1 - var) = 0
unfoldable pub assert_boolean : ℕ → M (Unit {0})
unfolding push_constraint
assert_boolean var cb =
    push_constraint (record { a = get_lc cb var; b = sub_terms (get_lc cb var) (alone 0); c = [] })
      cb

pub assert_mul_equals : ℕ → ℕ → ℕ → M (Unit {0})
unfolding push_constraint
assert_mul_equals a b c cb =
    push_constraint (record { a = get_lc cb a; b = get_lc cb b; c = get_lc cb c }) cb
