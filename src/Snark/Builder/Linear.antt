-- ===== src/Snark/Builder/Linear.antt =====
-- The values of variables under the linear operations of the builder.
use yacl_r.Base.{ℕ, ◌≡◌, refl, ap, ◌∙◌, true, false, [], ◌∷◌, arith, ◌==◌, if◌then◌else◌}
use yacl_r.Base.Int.{
  ℤ, pos, neg_ℤ, ◌+ℤ◌, ◌*ℤ◌, eq_of_parts, sums, neg_ℤ-*ℤ, *ℤ_right_comm, +ℤ-*ℤ, zero-*ℤ, zero-+ℤ,
  one-*ℤ, *ℤ_comm,
}
use yacl_r.Base.NatMap.{find-put}
use yacl_r.Snark.R1cs.{LinearCombination, add_term}
use yacl_r.Snark.R1cs.Values.{dot, dot-add_term}
use yacl_r.Snark.Builder.{
  CircuitBuilder, alone, get_lc, add_terms, sub_terms, scale_terms, computed, add, sub, mul_const,
  add_const,
}

-- The integer that a variable stands for, where the inputs have the values `f`.
abbrev pub val : (ℕ → ℤ) → CircuitBuilder → ℕ → ℤ
val f cb v = dot f (get_lc cb v)

pub get_lc-computed :
    (lc : LinearCombination) (cb : CircuitBuilder) (v : ℕ)
    → get_lc (computed lc cb).1 v ≡ (if cb.next_var == v then lc else get_lc cb v)
unfolding get_lc computed
get_lc-computed lc cb v = ground (
  arith,
  find-put cb.next_var v
      (record { lc = lc; is_public = false; is_private = false; is_computed = true }) cb.var_info,
)

module _ (f : ℕ → ℤ) where
  pub dot-alone : (v : ℕ) → dot f (alone v) ≡ f v
  dot-alone v =
      dot-add_term f v (pos 1) []
      ∙ ap (λ t. t +ℤ pos 0) (one-*ℤ (f v))
      ∙ eq_of_parts _ _ (omega sums)

  pub dot-add_terms : (l m : LinearCombination) → dot f (add_terms l m) ≡ dot f m +ℤ dot f l
  unfolding add_terms
  dot-add_terms [] m = eq_of_parts _ _ (omega sums)
  dot-add_terms ((v, c) ∷ r) m =
      rw (dot-add_terms r (add_term v c m), dot-add_term f v c m) (eq_of_parts _ _ (omega sums))

  pub dot-sub_terms : (l m : LinearCombination) → dot f (sub_terms l m) ≡ dot f m +ℤ neg_ℤ (dot f l)
  unfolding sub_terms
  dot-sub_terms [] m = eq_of_parts _ _ (omega sums)
  dot-sub_terms ((v, c) ∷ r) m =
      rw (dot-sub_terms r (add_term v (neg_ℤ c) m), dot-add_term f v (neg_ℤ c) m, neg_ℤ-*ℤ c (f v))
        (eq_of_parts _ _ (omega sums))

  pub dot-scale_terms :
      (k : ℤ) (l m : LinearCombination) → dot f (scale_terms k l m) ≡ dot f m +ℤ dot f l *ℤ k
  unfolding scale_terms
  dot-scale_terms k [] m = rw (zero-*ℤ k) (eq_of_parts _ _ (omega sums))
  dot-scale_terms k ((v, c) ∷ r) m =
      rw
        (
          dot-scale_terms k r (add_term v (c *ℤ k) m),
          dot-add_term f v (c *ℤ k) m,
          *ℤ_right_comm c k (f v),
          +ℤ-*ℤ (c *ℤ f v) (dot f r) k,
        )
        (eq_of_parts _ _ (omega sums))

  pub val-computed :
      (lc : LinearCombination) (cb : CircuitBuilder)
      → val f (computed lc cb).1 (computed lc cb).0 ≡ dot f lc
  unfolding computed
  val-computed lc cb =
      let same : (cb.next_var == cb.next_var) ≡ true = ground arith in
      rw (get_lc-computed lc cb cb.next_var, same) refl

  -- `Add`, `Sub`, `MulConst` and `AddConst` give variables that stand for the sum, the difference, the
  -- multiple, and the sum with the constant, where the constant wire is 1.
  pub linear_operations :
      (cb : CircuitBuilder) (a b : ℕ) (c : ℤ)
      → f 0 ≡ pos 1
      → (val f (add a b cb).1 (add a b cb).0 ≡ val f cb a +ℤ val f cb b)
        × (val f (sub a b cb).1 (sub a b cb).0 ≡ val f cb a +ℤ neg_ℤ (val f cb b))
        × (val f (mul_const a c cb).1 (mul_const a c cb).0 ≡ val f cb a *ℤ c)
        × (val f (add_const a c cb).1 (add_const a c cb).0 ≡ val f cb a +ℤ c)
  unfolding add sub mul_const add_const
  linear_operations cb a b c one = (
    val-computed _ cb
        ∙ rw
            (
              dot-add_terms (get_lc cb b) (add_terms (get_lc cb a) []),
              dot-add_terms (get_lc cb a) [],
            )
            (eq_of_parts _ _ (omega sums)),
    val-computed _ cb
        ∙ rw
            (
              dot-sub_terms (get_lc cb b) (add_terms (get_lc cb a) []),
              dot-add_terms (get_lc cb a) [],
            )
            (eq_of_parts _ _ (omega sums)),
    val-computed _ cb ∙ dot-scale_terms c (get_lc cb a) [] ∙ zero-+ℤ _,
    val-computed _ cb
        ∙ rw
            (
              dot-add_term f 0 c (add_terms (get_lc cb a) []),
              dot-add_terms (get_lc cb a) [],
              one,
              *ℤ_comm c (pos 1),
              one-*ℤ c,
            )
            (eq_of_parts _ _ (omega sums)),
  )
