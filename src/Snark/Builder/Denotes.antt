-- ===== src/Snark/Builder/Denotes.antt =====
-- Which integer a variable denotes modulo `p`, where the constraints hold.
use yacl_r.Base.{ℕ, ◌<◌, ◌≡◌, refl, ◌∙◌, true, arith}
use yacl_r.Base.Int.{ℤ, pos, neg_ℤ, ◌+ℤ◌, ◌*ℤ◌}
use yacl_r.Base.Residue.{residue}
use yacl_r.Snark.R1cs.Values.{all_hold}
use yacl_r.Snark.Builder.{CircuitBuilder, add, sub, mul, mul_const, add_const}
use yacl_r.Snark.Builder.Extends.{Extends, earlier}
use yacl_r.Snark.Builder.Values.{
  value, value-kept, add-Computes, sub-Computes, mul-Computes, mul_const-Computes,
  add_const-Computes, sum_residue, product_residue, difference_residue,
}

module _ (p : ℕ) (f : ℕ → ℤ) (p_pos : 0 < p) (one : f 0 ≡ pos 1) where
  pub record Denotes (cb : CircuitBuilder) (v : ℕ) (x : ℤ) : Type 0 where
    pub below : v < cb.next_var
    pub means : all_hold p f cb.constraints ≡ true → value p f cb v ≡ residue p x

  pub move :
      (cb cb' : CircuitBuilder) (v : ℕ) (x : ℤ) → Extends cb cb' → Denotes cb v x → Denotes cb' v x
  move cb cb' v x e d = record {
    below = omega (arith, d.below, e.grown);
    means = λ h. value-kept p f p_pos one cb cb' v e d.below ∙ d.means (earlier p f cb cb' e h);
  }

  module _ (cb : CircuitBuilder) (a b : ℕ) (x y : ℤ) (da : Denotes cb a x)
      (db : Denotes cb b y) where
    pub add-Denotes : Denotes (add a b cb).1 (add a b cb).0 (x +ℤ y)
    add-Denotes =
        let c = add-Computes p f p_pos one a b cb in
        record {
          below = c.below;
          means = λ h.
              let h' = earlier p f cb (add a b cb).1 c.extended h in
              c.result h ∙ sum_residue p f p_pos one _ _ x y (da.means h') (db.means h');
        }

    pub sub-Denotes : Denotes (sub a b cb).1 (sub a b cb).0 (x +ℤ neg_ℤ y)
    sub-Denotes =
        let c = sub-Computes p f p_pos one a b cb in
        record {
          below = c.below;
          means = λ h.
              let h' = earlier p f cb (sub a b cb).1 c.extended h in
              c.result h ∙ difference_residue p f p_pos one _ _ x y (da.means h') (db.means h');
        }

    pub mul-Denotes : Denotes (mul a b cb).1 (mul a b cb).0 (x *ℤ y)
    mul-Denotes =
        let c = mul-Computes p f p_pos one a b cb da.below db.below in
        record {
          below = c.below;
          means = λ h.
              let h' = earlier p f cb (mul a b cb).1 c.extended h in
              c.result h ∙ product_residue p f p_pos one _ _ x y (da.means h') (db.means h');
        }

  module _ (cb : CircuitBuilder) (a : ℕ) (k x : ℤ) (da : Denotes cb a x) where
    pub mul_const-Denotes : Denotes (mul_const a k cb).1 (mul_const a k cb).0 (x *ℤ k)
    mul_const-Denotes =
        let c = mul_const-Computes p f p_pos one a k cb in
        record {
          below = c.below;
          means = λ h.
              c.result h
              ∙ product_residue p f p_pos one _ _ x k
                  (da.means (earlier p f cb (mul_const a k cb).1 c.extended h)) refl;
        }

    pub add_const-Denotes : Denotes (add_const a k cb).1 (add_const a k cb).0 (x +ℤ k)
    add_const-Denotes =
        let c = add_const-Computes p f p_pos one a k cb in
        record {
          below = c.below;
          means = λ h.
              c.result h
              ∙ sum_residue p f p_pos one _ _ x k
                  (da.means (earlier p f cb (add_const a k cb).1 c.extended h)) refl;
        }
