-- ===== src/Snark/Poly/Products.antt =====
-- Products of polynomials, and the polynomial with given roots.
use yacl_r.Base.{
  ℕ, zero, suc, ◌+◌, ◌-◌, ◌<◌, ◌≤◌, ◌≡◌, refl, sym, ap, ◌∙◌, List, [], ◌∷◌, Option, some, arith,
  length, Bool-cases, inl, inr, if◌then◌else◌,
}
use yacl_r.Base.Int.{
  ℤ, pos, neg_ℤ, ◌+ℤ◌, ◌*ℤ◌, is_zero, is_zero-eq, zero-+ℤ, zero-*ℤ, +ℤ-*ℤ, *ℤ-+ℤ, *ℤ_assoc, *ℤ_comm,
  *ℤ_right_comm, one-*ℤ, eq_of_parts, sums,
}
use yacl_r.Base.Inverse.{residue-modulus}
use yacl_r.Base.Residue.{residue, residue-residue, sum_residue, product_residue, neg_residue}
use yacl_r.Snark.Mp.{Tommath}
use yacl_r.Snark.Poly.{
  Poly, trim, neg_mod, add_row, add_rows, zeros, mul, evaluate, multiply_roots, from_roots,
}
use yacl_r.Snark.Poly.Values.{
  eval, eval-trim, at_x, at_x-cons, residue-add_mod, residue-mul_mod, evaluate-at_x,
}

-- The product of the differences to the roots.
abbrev pub differences : List ℤ → ℤ → ℤ
differences [] y = pos 1
differences (r ∷ rs) y = (y +ℤ neg_ℤ r) *ℤ differences rs y

row_ring :
    (z w y e b x : ℤ) → (z +ℤ w *ℤ y) +ℤ (e +ℤ w *ℤ b) *ℤ x ≡ (z +ℤ e *ℤ x) +ℤ w *ℤ (y +ℤ b *ℤ x)
row_ring z w y e b x =
    rw (+ℤ-*ℤ e (w *ℤ b) x, *ℤ-+ℤ w y (b *ℤ x), *ℤ_assoc w b x) (eq_of_parts _ _ (omega sums))

rows_ring : (z e a b x : ℤ) → z +ℤ (e +ℤ a *ℤ b) *ℤ x ≡ (z +ℤ e *ℤ x) +ℤ a *ℤ x *ℤ b
rows_ring z e a b x = rw (+ℤ-*ℤ e (a *ℤ b) x, *ℤ_right_comm a b x) (eq_of_parts _ _ (omega sums))

first_of : (f : Poly) → 0 < length f → (z : ℤ) × (r : Poly) × (f ≡ z ∷ r)
first_of [] h = absurd (omega arith)
first_of (z ∷ r) h = (z, r, refl)

pub monic : (x : ℤ) → (pos 1 +ℤ pos 0 *ℤ x) *ℤ x ≡ x
monic x =
    ap (λ t. (pos 1 +ℤ t) *ℤ x) (zero-*ℤ x)
    ∙ ap (λ t. t *ℤ x) (eq_of_parts (pos 1 +ℤ pos 0) (pos 1) (omega sums))
    ∙ one-*ℤ x

module _ (lib : Tommath) (p : ℕ) (p_pos : 0 < p) (x : ℤ) where
  abbrev pub value : Poly → ℕ
  value f = at_x lib p p_pos x f

  -- `result` with `y` added to its value.
  record Adds (length_before : ℕ) (out : Option Poly) (y : ℤ) : Type 0 where
    sum : Poly
    gives : out ≡ some sum
    same_length : length sum ≡ length_before
    adds : value sum ≡ residue p y

  add_row-Adds :
      (w : ℤ) (b acc : Poly)
      → length b ≤ length acc
      → Adds (length acc) (add_row lib (pos p) w b acc) (eval acc x +ℤ w *ℤ eval b x)
  unfolding add_row
  add_row-Adds w [] acc h = record {
    sum = acc;
    gives = refl;
    same_length = refl;
    adds = ap (residue p) (rw (*ℤ_comm w (pos 0), zero-*ℤ w) (eq_of_parts _ _ (omega sums)));
  }
  add_row-Adds w (y ∷ b) [] h = absurd (omega arith)
  add_row-Adds w (y ∷ b) (z ∷ acc) h =
      let rest = add_row-Adds w b acc (omega arith) in
      let c = lib.add_mod z (lib.mul_mod w y (pos p)) (pos p) in
      record {
        sum = c ∷ rest.sum;
        gives = rw (rest.gives, add_row) refl;
        same_length = ap suc rest.same_length;
        adds =
            at_x-cons lib p p_pos x c (z +ℤ w *ℤ y) rest.sum (eval acc x +ℤ w *ℤ eval b x)
              (residue-add_mod lib p p_pos x z _
                ∙ sum_residue p z _ z (w *ℤ y) p_pos refl (residue-mul_mod lib p p_pos x w y))
              rest.adds
            ∙ ap (residue p) (row_ring z w y (eval acc x) (eval b x) x);
      }

  -- A row of a coefficient that is zero is left out.
  row-Adds :
      (w : ℤ) (b acc : Poly)
      → length b ≤ length acc
      → Adds
          (length acc)
          (if is_zero w then some acc else add_row lib (pos p) w b acc)
          (eval acc x +ℤ w *ℤ eval b x)
  row-Adds w b acc h = elim (Bool-cases (is_zero w)) [
    | inl e ↦ rw e (record {
      sum = acc;
      gives = refl;
      same_length = refl;
      adds = ap (residue p) (
          sym (
            ap (λ t. eval acc x +ℤ t *ℤ eval b x) (is_zero-eq w e)
            ∙ ap (λ t. eval acc x +ℤ t) (zero-*ℤ (eval b x))
            ∙ eq_of_parts _ _ (omega sums)));
    })
    | inr e ↦ rw e (add_row-Adds w b acc h)
  ]

  add_rows-Adds :
      (a b acc : Poly)
      → 0 < length b
      → length a + length b ≤ length acc + 1
      → Adds (length acc) (add_rows lib (pos p) a b acc) (eval acc x +ℤ eval a x *ℤ eval b x)
  unfolding add_rows
  add_rows-Adds [] b acc h fits = record {
    sum = acc;
    gives = refl;
    same_length = refl;
    adds =
        ap (residue p)
          (sym (ap (λ t. eval acc x +ℤ t) (zero-*ℤ (eval b x)) ∙ eq_of_parts _ _ (omega sums)));
  }
  add_rows-Adds (w ∷ a) b acc h fits =
      let row = row-Adds w b acc (omega arith) in
      let (z, r, e) = first_of row.sum (omega (arith, row.same_length)) in
      let row_length : suc (length r) ≡ length acc = ap length (sym e) ∙ row.same_length in
      let row_value : value (z ∷ r) ≡ residue p (eval acc x +ℤ w *ℤ eval b x) =
        ap value (sym e) ∙ row.adds in
      let rest = add_rows-Adds a b r h (omega arith) in
      record {
        sum = z ∷ rest.sum;
        gives = rw (row.gives ∙ ap some e, add_rows) (rw (rest.gives, add_rows) refl);
        same_length = omega (arith, rest.same_length);
        adds =
            at_x-cons lib p p_pos x z z rest.sum (eval r x +ℤ eval a x *ℤ eval b x) refl rest.adds
            ∙ ap (residue p) (rows_ring z (eval r x) (eval a x) (eval b x) x)
            ∙ sum_residue p (eval (z ∷ r) x) _ (eval acc x +ℤ w *ℤ eval b x) _ p_pos row_value refl
            ∙ ap (residue p)
                (rw (+ℤ-*ℤ w (eval a x *ℤ x) (eval b x)) (eq_of_parts _ _ (omega sums)));
      }

  pub zeros-Zero : (n : ℕ) → (length (zeros n) ≡ n) × (eval (zeros n) x ≡ pos 0)
  unfolding zeros
  zeros-Zero zero = (refl, refl)
  zeros-Zero (suc n) =
      let (len, vanishes) = zeros-Zero n in
      (
        ap suc len,
        ap (λ t. pos 0 +ℤ t *ℤ x) vanishes ∙ ap (λ t. pos 0 +ℤ t) (zero-*ℤ x) ∙ zero-+ℤ (pos 0),
      )

  -- `Mul` stays within its result, and gives a polynomial with the product of the values.
  pub mul-eval :
      (a b : Poly)
      → (f : Poly) × (mul lib (pos p) a b ≡ some f) × (value f ≡ residue p (eval a x *ℤ eval b x))
  unfolding mul
  mul-eval [] b =
      (pos 0 ∷ [], refl, ap (residue p) (zero-+ℤ _ ∙ zero-*ℤ x ∙ sym (zero-*ℤ (eval b x))))
  mul-eval (y ∷ a) [] = (
    pos 0 ∷ [],
    refl,
    ap (residue p)
        (zero-+ℤ _ ∙ zero-*ℤ x ∙ sym (*ℤ_comm (eval (y ∷ a) x) (pos 0) ∙ zero-*ℤ (eval (y ∷ a) x))),
  )
  mul-eval (y ∷ a) (z ∷ b) =
      let n = length (y ∷ a) + length (z ∷ b) - 1 in
      let (len, vanishes) = zeros-Zero n in
      let rows = add_rows-Adds (y ∷ a) (z ∷ b) (zeros n) (omega arith) (omega (arith, len)) in
      (
        trim rows.sum,
        rw (rows.gives, mul) refl,
        ap (residue p) (eval-trim rows.sum x)
            ∙ rows.adds
            ∙ ap (residue p) (ap (λ t. t +ℤ eval (y ∷ a) x *ℤ eval (z ∷ b) x) vanishes ∙ zero-+ℤ _),
      )

  -- `Mul` stays within its result, and gives a polynomial with the product of the values at every
  -- point.
  pub evaluate-mul :
      (a b : Poly)
      → (f : Poly) × (mul lib (pos p) a b ≡ some f)
        × (residue p (evaluate lib (pos p) f x)
            ≡ residue p (evaluate lib (pos p) a x *ℤ evaluate lib (pos p) b x))
  evaluate-mul a b =
      let at = evaluate-at_x lib p p_pos x in
      let (f, gives, product) = mul-eval a b in
      (f, gives, at f ∙ product ∙ product_residue p _ _ _ _ p_pos (sym (at a)) (sym (at b)))

  pub residue-neg_mod : (v : ℤ) → residue p (neg_mod lib (pos p) v) ≡ residue p (neg_ℤ v)
  unfolding neg_mod
  residue-neg_mod v = elim (Bool-cases (is_zero v)) [
    | inl e ↦ rw e (
        ap (residue p)
          (sym (ap neg_ℤ (is_zero-eq v e) ∙ eq_of_parts (neg_ℤ (pos 0)) (pos 0) (omega sums))))
    | inr e ↦ rw e (
        sum_residue p (pos p) _ (pos 0) (neg_ℤ v) p_pos (residue-modulus p) (
          neg_residue p _ v p_pos
            (ap (residue p) (lib.mod_ℤ_lem p v p_pos) ∙ residue-residue p v p_pos))
        ∙ ap (residue p) (zero-+ℤ (neg_ℤ v)))
  ]

  pub factor-eval : (r : ℤ) → value (neg_mod lib (pos p) r ∷ pos 1 ∷ []) ≡ residue p (x +ℤ neg_ℤ r)
  factor-eval r =
      sum_residue p (neg_mod lib (pos p) r) _ (neg_ℤ r) x p_pos (residue-neg_mod r)
        (ap (residue p) (monic x))
      ∙ ap (residue p) (eq_of_parts _ _ (omega sums))

  multiply_roots-eval :
      (roots : List ℤ) (acc : Poly)
      → (f : Poly) × (multiply_roots lib (pos p) roots acc ≡ some f)
        × (value f ≡ residue p (eval acc x *ℤ differences roots x))
  unfolding multiply_roots
  multiply_roots-eval [] acc =
      (acc, refl, ap (residue p) (sym (*ℤ_comm (eval acc x) (pos 1) ∙ one-*ℤ (eval acc x))))
  multiply_roots-eval (r ∷ rs) acc =
      let factor = neg_mod lib (pos p) r ∷ pos 1 ∷ [] in
      let (g, first, product) = mul-eval acc factor in
      let (f, gives, value_f) = multiply_roots-eval rs g in
      (
        f,
        rw (first, multiply_roots) gives,
        value_f
            ∙ product_residue p _ (differences rs x) (eval acc x *ℤ (x +ℤ neg_ℤ r))
                (differences rs x) p_pos
                (product
                  ∙ product_residue p (eval acc x) _ (eval acc x) _ p_pos refl (factor-eval r))
                refl
            ∙ ap (residue p) (*ℤ_assoc (eval acc x) (x +ℤ neg_ℤ r) (differences rs x)),
      )

  -- `FromRoots` gives a polynomial with the product of the differences to the roots as its value at
  -- every point.
  pub evaluate-from_roots :
      (roots : List ℤ)
      → (f : Poly) × (from_roots lib (pos p) roots ≡ some f)
        × (residue p (evaluate lib (pos p) f x) ≡ residue p (differences roots x))
  unfolding from_roots
  evaluate-from_roots roots =
      let (f, gives, product) = multiply_roots-eval roots (pos 1 ∷ []) in
      (
        f,
        gives,
        evaluate-at_x lib p p_pos x f
            ∙ product
            ∙ ap (residue p) (
                ap (λ t. t *ℤ differences roots x)
                  (ap (λ t. pos 1 +ℤ t) (zero-*ℤ x)
                    ∙ eq_of_parts (pos 1 +ℤ pos 0) (pos 1) (omega sums))
                ∙ one-*ℤ (differences roots x)),
      )
