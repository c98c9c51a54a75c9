-- ===== src/Snark/Builder/Extends.antt =====
-- Every operation of the builder only adds to it: variables made before keep their combinations, and
-- constraints stay.
use yacl_r.Base.{
  ℕ, ◌<◌, ◌≤◌, ◌≡◌, refl, sym, ap, ◌∙◌, true, false, ◌&&◌, List, [], ◌∷◌, ◌++◌, arith, ◌==◌,
  if◌then◌else◌, append-nil, append_assoc,
}
use yacl_r.Base.Int.{ℤ}
use yacl_r.Base.NatMap.{find-put}
use yacl_r.Snark.R1cs.{LinearCombination, R1csConstraint}
use yacl_r.Snark.R1cs.Values.{all_hold}
use yacl_r.Snark.Builder.{
  CircuitBuilder, alone, alloc_private, get_lc, computed, add, sub, mul_const, add_const,
  push_constraint, mul, assert_equal, assert_boolean,
}
use yacl_r.Snark.Builder.Linear.{get_lc-computed}

pub record Extends (cb cb' : CircuitBuilder) : Type 0 where
  pub grown : cb.next_var ≤ cb'.next_var
  pub kept : (x : ℕ) → x < cb.next_var → get_lc cb' x ≡ get_lc cb x
  pub more : List R1csConstraint
  pub added : cb'.constraints ≡ cb.constraints ++ more

pub Extends-refl : (cb : CircuitBuilder) → Extends cb cb
Extends-refl cb = record {
  grown = omega arith;
  kept = λ x h. refl;
  more = [];
  added = sym (append-nil cb.constraints);
}

pub trans : (a b c : CircuitBuilder) → Extends a b → Extends b c → Extends a c
trans a b c e h = record {
  grown = omega (arith, e.grown, h.grown);
  kept = λ x below. h.kept x (omega (arith, e.grown)) ∙ e.kept x below;
  more = e.more ++ h.more;
  added = h.added ∙ ap (λ t. t ++ h.more) e.added ∙ append_assoc a.constraints e.more h.more;
}

pub all_hold-++ :
    (p : ℕ) (f : ℕ → ℤ) (ks ls : List R1csConstraint)
    → all_hold p f (ks ++ ls) ≡ (all_hold p f ks && all_hold p f ls)
all_hold-++ p f [] ls = refl
all_hold-++ p f (k ∷ ks) ls = rw (all_hold-++ p f ks ls) (ground arith)

pub earlier :
    (p : ℕ) (f : ℕ → ℤ) (cb cb' : CircuitBuilder)
    → Extends cb cb'
    → all_hold p f cb'.constraints ≡ true
    → all_hold p f cb.constraints ≡ true
earlier p f cb cb' e h =
    let both : (all_hold p f cb.constraints && all_hold p f e.more) ≡ true =
      sym (all_hold-++ p f cb.constraints e.more) ∙ ap (all_hold p f) (sym e.added) ∙ h in
    ground arith

-- A variable made before is not the next one.
get_lc-computed-before :
    (lc : LinearCombination) (cb : CircuitBuilder) (x : ℕ)
    → x < cb.next_var
    → get_lc (computed lc cb).1 x ≡ get_lc cb x
get_lc-computed-before lc cb x h =
    let other : (cb.next_var == x) ≡ false = ground arith in get_lc-computed lc cb x ∙ rw other refl

pub computed-Extends :
    (lc : LinearCombination) (cb : CircuitBuilder) → Extends cb (computed lc cb).1
unfolding computed
computed-Extends lc cb = record {
  grown = omega arith;
  kept = get_lc-computed-before lc cb;
  more = [];
  added = sym (append-nil cb.constraints);
}

pub push_constraint-Extends :
    (k : R1csConstraint) (cb : CircuitBuilder) → Extends cb (push_constraint k cb).1
unfolding push_constraint get_lc
push_constraint-Extends k cb = record {
  grown = omega arith;
  kept = λ x h. refl;
  more = k ∷ [];
  added = refl;
}

pub get_lc-alloc_private :
    (cb : CircuitBuilder) (x : ℕ)
    → get_lc (alloc_private cb).1 x ≡ (if cb.next_var == x then alone x else get_lc cb x)
unfolding alloc_private get_lc
get_lc-alloc_private cb x = ground (
  arith,
  find-put cb.next_var x
      (record { lc = alone cb.next_var; is_public = false; is_private = true; is_computed = false })
      cb.var_info,
)

pub alloc_private-Extends : (cb : CircuitBuilder) → Extends cb (alloc_private cb).1
unfolding alloc_private
alloc_private-Extends cb = record {
  grown = omega arith;
  kept = λ x h. kept_before x h;
  more = [];
  added = sym (append-nil cb.constraints);
}
  where
    kept_before : (x : ℕ) → x < cb.next_var → get_lc (alloc_private cb).1 x ≡ get_lc cb x
    kept_before x h =
        let other : (cb.next_var == x) ≡ false = ground arith in
        get_lc-alloc_private cb x ∙ rw other refl

pub add-Extends : (a b : ℕ) (cb : CircuitBuilder) → Extends cb (add a b cb).1
unfolding add
add-Extends a b cb = computed-Extends _ cb

pub sub-Extends : (a b : ℕ) (cb : CircuitBuilder) → Extends cb (sub a b cb).1
unfolding sub
sub-Extends a b cb = computed-Extends _ cb

pub mul_const-Extends : (a : ℕ) (c : ℤ) (cb : CircuitBuilder) → Extends cb (mul_const a c cb).1
unfolding mul_const
mul_const-Extends a c cb = computed-Extends _ cb

pub add_const-Extends : (a : ℕ) (c : ℤ) (cb : CircuitBuilder) → Extends cb (add_const a c cb).1
unfolding add_const
add_const-Extends a c cb = computed-Extends _ cb

pub mul-Extends : (a b : ℕ) (cb : CircuitBuilder) → Extends cb (mul a b cb).1
unfolding mul
mul-Extends a b cb =
    trans cb (alloc_private cb).1 _ (alloc_private-Extends cb) (push_constraint-Extends _ _)

pub assert_equal-Extends : (a b : ℕ) (cb : CircuitBuilder) → Extends cb (assert_equal a b cb).1
unfolding assert_equal
assert_equal-Extends a b cb = push_constraint-Extends _ cb

pub assert_boolean-Extends : (v : ℕ) (cb : CircuitBuilder) → Extends cb (assert_boolean v cb).1
unfolding assert_boolean
assert_boolean-Extends v cb = push_constraint-Extends _ cb

pub alloc_private-below :
    (cb : CircuitBuilder) → (alloc_private cb).0 < (alloc_private cb).1.next_var
unfolding alloc_private
alloc_private-below cb = omega arith
