-- ===== src/Snark/Gadgets/Logic.antt =====
-- The values of the Boolean gadgets and of `Select`.
use yacl_r.Base.{ℕ, ◌<◌, ◌≡◌, refl, ap, ◌∙◌, Bool, true, false, not, ◌&&◌, ◌||◌, if◌then◌else◌}
use yacl_r.Base.Int.{ℤ, pos, negsuc, neg_ℤ, ◌+ℤ◌, ◌*ℤ◌, one-*ℤ, zero-*ℤ, zero-+ℤ, eq_of_parts, sums}
use yacl_r.Base.Residue.{residue}
use yacl_r.Snark.R1cs.Values.{all_hold}
use yacl_r.Snark.Builder.{CircuitBuilder, add, sub, mul, mul_const}
use yacl_r.Snark.Builder.Extends.{mul-Extends, add-Extends, sub-Extends, mul_const-Extends, trans}
use yacl_r.Snark.Builder.Linear.{val}
use yacl_r.Snark.Builder.Values.{value}
use yacl_r.Snark.Builder.Denotes.{
  Denotes, move, add-Denotes, sub-Denotes, mul-Denotes, mul_const-Denotes, add_const-Denotes,
}
use yacl_r.Snark.Gadgets.{bool_and, bool_or, bool_not, bool_xor, select}

abbrev pub bit : Bool → ℤ
bit b = if b then pos 1 else pos 0

abbrev pub xor : Bool → Bool → Bool
xor x y = if x then not y else y

module _ (p : ℕ) (f : ℕ → ℤ) (p_pos : 0 < p) (one : f 0 ≡ pos 1) where
  module _ (cb : CircuitBuilder) (a b : ℕ) (x y : ℤ) (da : Denotes p f p_pos one cb a x)
      (db : Denotes p f p_pos one cb b y) where
    bool_or-Denotes :
        Denotes p f p_pos one (bool_or a b cb).1 (bool_or a b cb).0 (x +ℤ y +ℤ neg_ℤ (x *ℤ y))
    unfolding bool_or
    bool_or-Denotes =
        let ab = mul a b cb in
        let sum = add a b ab.1 in
        let e = mul-Extends a b cb in
        let d_ab = mul-Denotes p f p_pos one cb a b x y da db in
        let d_sum =
          add-Denotes p f p_pos one ab.1 a b x y (move p f p_pos one cb ab.1 a x e da)
            (move p f p_pos one cb ab.1 b y e db) in
        sub-Denotes p f p_pos one sum.1 sum.0 ab.0 (x +ℤ y) (x *ℤ y) d_sum
          (move p f p_pos one ab.1 sum.1 ab.0 (x *ℤ y) (add-Extends a b ab.1) d_ab)

    bool_xor-Denotes :
        Denotes p f p_pos one
          (bool_xor a b cb).1
          (bool_xor a b cb).0
          (x +ℤ y +ℤ neg_ℤ (x *ℤ y *ℤ pos 2))
    unfolding bool_xor
    bool_xor-Denotes =
        let ab = mul a b cb in
        let two_ab = mul_const ab.0 (pos 2) ab.1 in
        let sum = add a b two_ab.1 in
        let e = trans cb ab.1 two_ab.1 (mul-Extends a b cb) (mul_const-Extends ab.0 (pos 2) ab.1) in
        let d_two =
          mul_const-Denotes p f p_pos one ab.1 ab.0 (pos 2) (x *ℤ y)
            (mul-Denotes p f p_pos one cb a b x y da db) in
        let d_sum =
          add-Denotes p f p_pos one two_ab.1 a b x y (move p f p_pos one cb two_ab.1 a x e da)
            (move p f p_pos one cb two_ab.1 b y e db) in
        sub-Denotes p f p_pos one sum.1 sum.0 two_ab.0 (x +ℤ y) (x *ℤ y *ℤ pos 2) d_sum (
          move p f p_pos one two_ab.1 sum.1 two_ab.0 (x *ℤ y *ℤ pos 2) (add-Extends a b two_ab.1)
            d_two)

  pub bool_not-Denotes :
      (cb : CircuitBuilder) (a : ℕ) (x : ℤ)
      → Denotes p f p_pos one cb a x
      → Denotes p f p_pos one (bool_not a cb).1 (bool_not a cb).0 (x *ℤ negsuc 0 +ℤ pos 1)
  unfolding bool_not
  bool_not-Denotes cb a x da =
      add_const-Denotes p f p_pos one (mul_const a (negsuc 0) cb).1 (mul_const a (negsuc 0) cb).0
        (pos 1) (x *ℤ negsuc 0) (mul_const-Denotes p f p_pos one cb a (negsuc 0) x da)

  select-Denotes :
      (cb : CircuitBuilder) (cond a b : ℕ) (z x y : ℤ)
      → Denotes p f p_pos one cb cond z
      → Denotes p f p_pos one cb a x
      → Denotes p f p_pos one cb b y
      → Denotes p f p_pos one
          (select cond a b cb).1
          (select cond a b cb).0
          (z *ℤ (x +ℤ neg_ℤ y) +ℤ y)
  unfolding select
  select-Denotes cb cond a b z x y dc da db =
      let diff = sub a b cb in
      let selected = mul cond diff.0 diff.1 in
      let e = sub-Extends a b cb in
      let d_diff = sub-Denotes p f p_pos one cb a b x y da db in
      let d_selected =
        mul-Denotes p f p_pos one diff.1 cond diff.0 z (x +ℤ neg_ℤ y)
          (move p f p_pos one cb diff.1 cond z e dc) d_diff in
      add-Denotes p f p_pos one selected.1 selected.0 b (z *ℤ (x +ℤ neg_ℤ y)) y d_selected (
        move p f p_pos one cb selected.1 b y
          (trans cb diff.1 selected.1 e (mul-Extends cond diff.0 diff.1)) db)

or_bits : (x y : Bool) → bit x +ℤ bit y +ℤ neg_ℤ (bit x *ℤ bit y) ≡ bit (x || y)
unfolding ◌+ℤ◌ ◌*ℤ◌ neg_ℤ
or_bits true true = refl
or_bits true false = refl
or_bits false true = refl
or_bits false false = refl

xor_bits : (x y : Bool) → bit x +ℤ bit y +ℤ neg_ℤ (bit x *ℤ bit y *ℤ pos 2) ≡ bit (xor x y)
unfolding ◌+ℤ◌ ◌*ℤ◌ neg_ℤ
xor_bits true true = refl
xor_bits true false = refl
xor_bits false true = refl
xor_bits false false = refl

and_bits : (x y : Bool) → bit x *ℤ bit y ≡ bit (x && y)
unfolding ◌*ℤ◌
and_bits true true = refl
and_bits true false = refl
and_bits false true = refl
and_bits false false = refl

pub not_bit : (x : Bool) → bit x *ℤ negsuc 0 +ℤ pos 1 ≡ bit (not x)
unfolding ◌+ℤ◌ ◌*ℤ◌
not_bit true = refl
not_bit false = refl

choice : (z : Bool) (x y : ℤ) → bit z *ℤ (x +ℤ neg_ℤ y) +ℤ y ≡ (if z then x else y)
choice true x y = ap (λ t. t +ℤ y) (one-*ℤ (x +ℤ neg_ℤ y)) ∙ eq_of_parts _ _ (omega sums)
choice false x y = ap (λ t. t +ℤ y) (zero-*ℤ (x +ℤ neg_ℤ y)) ∙ zero-+ℤ y

module _ (p : ℕ) (f : ℕ → ℤ) (p_pos : 0 < p) (one : f 0 ≡ pos 1) (cb : CircuitBuilder) where
  known :
      (v : ℕ) (x : ℤ)
      → v < cb.next_var
      → value p f cb v ≡ residue p x
      → Denotes p f p_pos one cb v x
  known v x below e = record { below = below; means = λ h. e }

  -- On variables of the builder that are bits, with 1 at the constant wire, `BoolAnd`, `BoolOr`,
  -- `BoolXor` and `BoolNot` give the bits of the Boolean operations wherever their constraints
  -- hold.
  pub bool_gates :
      (a b : ℕ) (x y : Bool)
      → a < cb.next_var
      → b < cb.next_var
      → value p f cb a ≡ residue p (bit x)
      → value p f cb b ≡ residue p (bit y)
      → all_hold p f (bool_and a b cb).1.constraints ≡ true
      → all_hold p f (bool_or a b cb).1.constraints ≡ true
      → all_hold p f (bool_xor a b cb).1.constraints ≡ true
      → all_hold p f (bool_not a cb).1.constraints ≡ true
      → (value p f (bool_and a b cb).1 (bool_and a b cb).0 ≡ residue p (bit (x && y)))
        × (value p f (bool_or a b cb).1 (bool_or a b cb).0 ≡ residue p (bit (x || y)))
        × (value p f (bool_xor a b cb).1 (bool_xor a b cb).0 ≡ residue p (bit (xor x y)))
        × (value p f (bool_not a cb).1 (bool_not a cb).0 ≡ residue p (bit (not x)))
  unfolding bool_and
  bool_gates a b x y ha hb ea eb h_and h_or h_xor h_not =
      let da = known a (bit x) ha ea in
      let db = known b (bit y) hb eb in
      (
        (mul-Denotes p f p_pos one cb a b (bit x) (bit y) da db).means h_and
            ∙ ap (residue p) (and_bits x y),
        (bool_or-Denotes p f p_pos one cb a b (bit x) (bit y) da db).means h_or
            ∙ ap (residue p) (or_bits x y),
        (bool_xor-Denotes p f p_pos one cb a b (bit x) (bit y) da db).means h_xor
            ∙ ap (residue p) (xor_bits x y),
        (bool_not-Denotes p f p_pos one cb a (bit x) da).means h_not ∙ ap (residue p) (not_bit x),
      )

  -- `Select` by a bit, of variables of the builder and with 1 at the constant wire, gives the
  -- value of the variable that the bit names, wherever its constraints hold.
  pub select_lem :
      (cond a b : ℕ) (z : Bool)
      → cond < cb.next_var
      → a < cb.next_var
      → b < cb.next_var
      → value p f cb cond ≡ residue p (bit z)
      → all_hold p f (select cond a b cb).1.constraints ≡ true
      → value p f (select cond a b cb).1 (select cond a b cb).0
        ≡ (if z then value p f cb a else value p f cb b)
  select_lem cond a b z hc ha hb ez h =
      (select-Denotes p f p_pos one cb cond a b (bit z) (val f cb a) (val f cb b)
          (known cond (bit z) hc ez) (known a _ ha refl) (known b _ hb refl)).means
        h
      ∙ ap (residue p) (choice z (val f cb a) (val f cb b))
      ∙ chosen z
    where
      chosen :
          (z : Bool)
          → residue p (if z then val f cb a else val f cb b)
            ≡ (if z then value p f cb a else value p f cb b)
      chosen true = refl
      chosen false = refl
