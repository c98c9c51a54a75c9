-- ===== src/Snark/Builder/Values.antt =====
-- What the operations of the builder compute modulo a prime or other positive modulus.
use yacl_r.Base.{ℕ, ◌+◌, ◌-◌, ◌*◌, ◌%◌, ◌<◌, ◌≡◌, sym, ap, ap₂, ◌∙◌, true, ◌&&◌, [], ◌∷◌, arith}
use native.Mathlib.Nat.{add-mod-mod, add-mod_right}
use yacl_r.Base.Int.{ℤ, pos, neg_ℤ, ◌+ℤ◌, ◌*ℤ◌}
use yacl_r.Base.Residue.{residue, residue-+ℤ, residue-*ℤ, residue-neg_ℤ, residue-lt}
use yacl_r.Snark.R1cs.{R1csConstraint}
use yacl_r.Snark.R1cs.Values.{dot, holds, all_hold}
use yacl_r.Snark.Builder.{
  CircuitBuilder, alloc_private, get_lc, computed, add, sub, mul_const, add_const, push_constraint,
  mul,
}
use yacl_r.Snark.Builder.Linear.{val, linear_operations}
use yacl_r.Snark.Builder.Extends.{
  Extends, trans, all_hold-++, computed-Extends, push_constraint-Extends, alloc_private-Extends,
}

-- The value of a variable modulo `p`, where the inputs have the values `f`.
abbrev pub value : ℕ → (ℕ → ℤ) → CircuitBuilder → ℕ → ℕ
value p f cb v = residue p (val f cb v)

abbrev pub sub_mod : ℕ → ℕ → ℕ → ℕ
sub_mod p x y = (x + (p - y)) % p

-- The variable that an operation gives has the value `x` wherever the constraints hold.
pub record Computes (p : ℕ) (f : ℕ → ℤ) (cb : CircuitBuilder) (out : ℕ × CircuitBuilder) (x : ℕ)
    : Type 0 where
  pub extended : Extends cb out.1
  pub below : out.0 < out.1.next_var
  pub result : all_hold p f out.1.constraints ≡ true → value p f out.1 out.0 ≡ x

module _ (p : ℕ) (f : ℕ → ℤ) (p_pos : 0 < p) (one : f 0 ≡ pos 1) where
  pub value-kept :
      (cb cb' : CircuitBuilder) (x : ℕ)
      → Extends cb cb'
      → x < cb.next_var
      → value p f cb' x ≡ value p f cb x
  value-kept cb cb' x e h = ap (λ t. residue p (dot f t)) (e.kept x h)

  pub residue-sub : (x y : ℤ) → residue p (x +ℤ neg_ℤ y) ≡ sub_mod p (residue p x) (residue p y)
  residue-sub x y =
      let rx = residue p x in
      let ry = residue p y in
      let rn = residue p (neg_ℤ y) in
      residue-+ℤ p x (neg_ℤ y) p_pos
      ∙ sym (add-mod_right (rx + rn) p)
      ∙ ap (λ t. t % p) (omega (arith, residue-lt p y p_pos))
      ∙ sym (add-mod-mod (rx + (p - ry)) (ry + rn) p)
      ∙ ap (λ t. (rx + (p - ry) + t) % p) (residue-neg_ℤ p y p_pos)
      ∙ ap (λ t. t % p) (omega arith)

  pub add-Computes :
      (a b : ℕ) (cb : CircuitBuilder)
      → Computes p f cb (add a b cb) ((value p f cb a + value p f cb b) % p)
  unfolding add computed
  add-Computes a b cb = record {
    extended = computed-Extends _ cb;
    below = omega arith;
    result = λ h.
        ap (residue p) (linear_operations f cb a b (pos 0) one).0
        ∙ residue-+ℤ p (val f cb a) (val f cb b) p_pos;
  }

  pub sub-Computes :
      (a b : ℕ) (cb : CircuitBuilder)
      → Computes p f cb (sub a b cb) (sub_mod p (value p f cb a) (value p f cb b))
  unfolding sub computed
  sub-Computes a b cb = record {
    extended = computed-Extends _ cb;
    below = omega arith;
    result = λ h.
        ap (residue p) (linear_operations f cb a b (pos 0) one).1
        ∙ residue-sub (val f cb a) (val f cb b);
  }

  pub mul_const-Computes :
      (a : ℕ) (c : ℤ) (cb : CircuitBuilder)
      → Computes p f cb (mul_const a c cb) ((value p f cb a * residue p c) % p)
  unfolding mul_const computed
  mul_const-Computes a c cb = record {
    extended = computed-Extends _ cb;
    below = omega arith;
    result = λ h.
        ap (residue p) (linear_operations f cb a a c one).2 ∙ residue-*ℤ p (val f cb a) c p_pos;
  }

  pub add_const-Computes :
      (a : ℕ) (c : ℤ) (cb : CircuitBuilder)
      → Computes p f cb (add_const a c cb) ((value p f cb a + residue p c) % p)
  unfolding add_const computed
  add_const-Computes a c cb = record {
    extended = computed-Extends _ cb;
    below = omega arith;
    result = λ h.
        ap (residue p) (linear_operations f cb a a c one).3 ∙ residue-+ℤ p (val f cb a) c p_pos;
  }

  pub all_hold-push_constraint :
      (k : R1csConstraint) (cb : CircuitBuilder)
      → all_hold p f (push_constraint k cb).1.constraints
        ≡ (all_hold p f cb.constraints && holds p f k)
  unfolding push_constraint
  all_hold-push_constraint k cb = ground (arith, all_hold-++ p f cb.constraints (k ∷ []))

  pub mul-Computes :
      (a b : ℕ) (cb : CircuitBuilder)
      → a < cb.next_var
      → b < cb.next_var
      → Computes p f cb (mul a b cb) ((value p f cb a * value p f cb b) % p)
  unfolding mul alloc_private
  mul-Computes a b cb ha hb =
      let cb' = (alloc_private cb).1 in
      let k : R1csConstraint = record {
        a = get_lc cb' a;
        b = get_lc cb' b;
        c = get_lc cb' cb.next_var;
      } in
      let e = alloc_private-Extends cb in
      let e' = push_constraint-Extends k cb' in
      record {
        extended = trans cb cb' (push_constraint k cb').1 e e';
        below = omega (arith, e'.grown);
        result = λ h.
            ap (λ t. residue p (dot f t)) (e'.kept cb.next_var (omega arith))
            ∙ sym (last_holds k cb' (sym (all_hold-push_constraint k cb') ∙ h))
            ∙ residue-*ℤ p (val f cb' a) (val f cb' b) p_pos
            ∙ ap₂ (λ s t. (s * t) % p) (value-kept cb cb' a e ha) (value-kept cb cb' b e hb);
      }
    where
      last_holds :
          (k : R1csConstraint) (cb : CircuitBuilder)
          → (all_hold p f cb.constraints && holds p f k) ≡ true
          → residue p (dot f k.a *ℤ dot f k.b) ≡ residue p (dot f k.c)
      last_holds k cb h = ground arith

  -- Operations modulo `p` are those of integers.
  pub sum_residue :
      (x y : ℕ) (s t : ℤ) → x ≡ residue p s → y ≡ residue p t → (x + y) % p ≡ residue p (s +ℤ t)
  sum_residue x y s t hx hy = ap₂ (λ m n. (m + n) % p) hx hy ∙ sym (residue-+ℤ p s t p_pos)

  pub product_residue :
      (x y : ℕ) (s t : ℤ) → x ≡ residue p s → y ≡ residue p t → (x * y) % p ≡ residue p (s *ℤ t)
  product_residue x y s t hx hy = ap₂ (λ m n. (m * n) % p) hx hy ∙ sym (residue-*ℤ p s t p_pos)

  pub difference_residue :
      (x y : ℕ) (s t : ℤ)
      → x ≡ residue p s
      → y ≡ residue p t
      → sub_mod p x y ≡ residue p (s +ℤ neg_ℤ t)
  difference_residue x y s t hx hy = ap₂ (sub_mod p) hx hy ∙ sym (residue-sub s t)
