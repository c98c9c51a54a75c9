-- ===== src/Vss/Lagrange.antt =====
-- `LagrangeInterpolation` gives the value of the polynomial of few coefficients through the points.
use yacl_r.Base.{
  ℕ, ◌+◌, ◌≤◌, ◌<◌, ◌≡◌, refl, sym, ap, ◌∙◌, List, [], ◌∷◌, some, ok, arith, length, get_elem?,
  get_elem?-some, ◌==◌, Bool-cases, inl, inr, true,
}
use native.Mathlib.Nat.{zero-mod}
use yacl_r.Base.Int.{
  ℤ, pos, neg_ℤ, ◌+ℤ◌, ◌*ℤ◌, zero-+ℤ, *ℤ_comm, *ℤ_assoc, *ℤ_right_comm, one-*ℤ, neg_ℤ-*ℤ,
  eq_of_parts, sums,
}
use yacl_r.Base.Index.{get_elem?-lt}
use yacl_r.Base.Residue.{residue, residue-cancel, residue-residue, sum_residue, product_residue}
use yacl_r.Snark.Mp.{Tommath}
use yacl_r.Snark.Poly.{Poly, add_all, scale_all}
use yacl_r.Snark.Poly.Factors.{others, expected, expected_lem}
use yacl_r.Snark.Poly.Values.{
  eval, at_x-add_all, at_x-scale_all, length-add_all, length-scale_all, residue-mul_mod,
  residue-sub_mod, residue-add_mod,
}
use yacl_r.Vss.{
  lagrange_products, lagrange_compute_at_x, interpolation_loop, lagrange_interpolation,
}
use yacl_r.Vss.Low.{to_target}
use yacl_r.Vss.Combination.{
  combination, Weights, combination-at, combination-LowDegree, weight, weight-Weights,
}
use yacl_r.Vss.Degree.{Distinct, VanishesAt, vanishes_everywhere}

module _ (lib : Tommath) (p : ℕ) (p_pos : 0 < p) where
  lagrange_products_lem :
      (i : ℕ) (xi t : ℤ) (j : ℕ) (xs : List ℤ) (num denum : ℤ)
      → (residue p (lagrange_products lib i xi t (pos p) j xs num denum).0
          ≡ residue p (num *ℤ others i j (to_target t) xs))
        × (residue p (lagrange_products lib i xi t (pos p) j xs num denum).1
            ≡ residue p (denum *ℤ others i j (to_target xi) xs))
  unfolding lagrange_products others
  lagrange_products_lem i xi t j [] num denum = (
    ap (residue p) (sym (*ℤ_comm num (pos 1) ∙ one-*ℤ num)),
    ap (residue p) (sym (*ℤ_comm denum (pos 1) ∙ one-*ℤ denum)),
  )
  lagrange_products_lem i xi t j (y ∷ r) num denum = elim (Bool-cases (i == j)) [
    | inl e ↦ rw e (lagrange_products_lem i xi t (j + 1) r num denum)
    | inr e ↦
        let (hn, hd) =
          lagrange_products_lem i xi t (j + 1) r (lib.mul_mod num (lib.sub_mod y t (pos p)) (pos p))
            (lib.mul_mod denum (lib.sub_mod y xi (pos p)) (pos p)) in
        rw e (
          hn ∙ step num t (others i (j + 1) (to_target t) r),
          hd ∙ step denum xi (others i (j + 1) (to_target xi) r),
        )
  ]
    where
      step :
          (v u rest : ℤ)
          → residue p (lib.mul_mod v (lib.sub_mod y u (pos p)) (pos p) *ℤ rest)
            ≡ residue p (v *ℤ (to_target u y *ℤ rest))
      step v u rest =
          product_residue p _ rest (v *ℤ to_target u y) rest p_pos
            (residue-mul_mod lib p p_pos u v _
              ∙ product_residue p v _ v _ p_pos refl (residue-sub_mod lib p p_pos u y u))
            refl
          ∙ ap (residue p) (*ℤ_assoc v (to_target u y) rest)

  -- Inverses of one number are equal modulo `p`.
  inverse_unique :
      (d y z : ℤ)
      → residue p (d *ℤ y) ≡ residue p (pos 1)
      → residue p (d *ℤ z) ≡ residue p (pos 1)
      → residue p y ≡ residue p z
  inverse_unique d y z hy hz =
      ap (residue p) (sym (one-*ℤ y))
      ∙ product_residue p (pos 1) y (d *ℤ z) y p_pos (sym hz) refl
      ∙ ap (residue p) (*ℤ_right_comm d z y)
      ∙ product_residue p (d *ℤ y) z (pos 1) z p_pos hy refl
      ∙ ap (residue p) (one-*ℤ z)

  module _ (xs : List ℤ) (t : ℤ) (e : ℕ → ℤ) (weights : Weights p e xs) where
    lagrange_compute_at_x_lem :
        (i : ℕ) (y : ℤ)
        → i < length xs
        → (v : ℤ) × (lagrange_compute_at_x lib xs i y t (pos p) ≡ ok v)
          × (residue p v ≡ residue p (others i 0 (to_target t) xs *ℤ (y *ℤ e i)))
    unfolding lagrange_compute_at_x
    lagrange_compute_at_x_lem i y below =
        let (xi, at_i) = get_elem?-some xs i below in
        let products = lagrange_products lib i xi t (pos p) 0 xs (pos 1) (pos 1) in
        let (hn, hd) = lagrange_products_lem i xi t 0 xs (pos 1) (pos 1) in
        let hd' : residue p products.1 ≡ residue p (others i 0 (to_target xi) xs) =
          hd ∙ ap (residue p) (one-*ℤ _) in
        let inverse : residue p (products.1 *ℤ e i) ≡ residue p (pos 1) =
          product_residue p products.1 (e i) _ (e i) p_pos hd' refl ∙ weights i xi at_i in
        let (z, found) = lib.invert_mod-some p products.1 (e i) p_pos inverse in
        let hz = lib.invert_mod-inverse p products.1 z p_pos found in
        (
          lib.mul_mod (lib.mul_mod y products.0 (pos p)) z (pos p),
          rw (at_i, lagrange_compute_at_x) (rw found refl),
          residue-mul_mod lib p p_pos t _ z
              ∙ product_residue p _ z (y *ℤ others i 0 (to_target t) xs) (e i) p_pos
                  (residue-mul_mod lib p p_pos t y products.0
                    ∙ product_residue p y products.0 y _ p_pos refl
                        (hn ∙ ap (residue p) (one-*ℤ _)))
                  (inverse_unique products.1 z (e i) hz inverse)
              ∙ ap (residue p) (ap (λ s. s *ℤ e i) (*ℤ_comm y _) ∙ *ℤ_assoc _ y (e i)),
        )

    interpolation_loop_lem :
        (i : ℕ) (ys : List ℤ) (acc : ℤ)
        → i + length ys ≡ length xs
        → acc ≡ pos (residue p acc)
        → interpolation_loop lib xs t (pos p) i ys acc
          ≡ ok (pos (residue p (acc +ℤ combination e xs i ys t)))
    unfolding interpolation_loop combination
    interpolation_loop_lem i [] acc len reduced =
        ap ok (reduced ∙ ap (λ s. pos (residue p s)) (eq_of_parts _ _ (omega sums)))
    interpolation_loop_lem i (y ∷ ys) acc len reduced =
        let (v, gives, hv) = lagrange_compute_at_x_lem i y (omega (arith, len)) in
        let next = lib.add_mod v acc (pos p) in
        let sum : next ≡ pos (residue p (v +ℤ acc)) = lib.add_mod_lem p v acc p_pos in
        let again : next ≡ pos (residue p next) =
          sum
          ∙ ap pos (sym (residue-residue p (v +ℤ acc) p_pos))
          ∙ ap (λ s. pos (residue p s)) (sym sum) in
        rw (gives, interpolation_loop)
          (interpolation_loop_lem (i + 1) ys next (omega (arith, len)) again
            ∙ ap (λ s. ok (pos s))
                (sum_residue p next (combination e xs (i + 1) ys t)
                    (others i 0 (to_target t) xs *ℤ (y *ℤ e i) +ℤ acc) _ p_pos
                    (residue-add_mod lib p p_pos t v acc ∙ sum_residue p v acc _ acc p_pos hv refl)
                    refl
                  ∙ ap (residue p) (eq_of_parts _ _ (omega sums))))

  self_cancel : (x : ℤ) → residue p (pos 0) ≡ residue p (x +ℤ neg_ℤ x)
  self_cancel x = ap (residue p) (eq_of_parts _ _ (omega sums))

  -- The combination has the values of `f` everywhere.
  combination_lem :
      (e : ℕ → ℤ) (f : Poly) (xs ys : List ℤ) (t : ℤ)
      → Weights p e xs
      → length f ≤ length xs
      → length xs ≡ length ys
      → Distinct p xs
      → ((i : ℕ) (x y : ℤ)
          → get_elem? xs i ≡ some x
          → get_elem? ys i ≡ some y
          → residue p y ≡ residue p (eval f x))
      → residue p (combination e xs 0 ys t) ≡ residue p (eval f t)
  combination_lem e f xs ys t weights few len apart values =
      let low = combination-LowDegree lib p p_pos e xs 0 ys (omega (arith, len)) in
      let negated = scale_all lib (pos p) (neg_ℤ (pos 1)) f in
      let difference = add_all lib (pos p) low.poly negated in
      let at : (s : ℤ)
          → residue p (eval difference s)
            ≡ residue p (combination e xs 0 ys s +ℤ neg_ℤ (eval f s)) =
        λ s.
          at_x-add_all lib p p_pos s low.poly negated
          ∙ sum_residue p _ _ _ _ p_pos (sym (low.agrees s)) (
              at_x-scale_all lib p p_pos s (neg_ℤ (pos 1)) f
              ∙ ap (residue p) (minus_one (eval f s))) in
      let vanishes : VanishesAt p difference xs = λ i x at_i.
        let (y, y_at_i) = get_elem?-some ys i (omega (arith, len, get_elem?-lt xs i x at_i)) in
        at x
        ∙ sum_residue p _ _ (eval f x) (neg_ℤ (eval f x)) p_pos
            (combination-at p p_pos e xs 0 i ys x weights (omega (arith, len)) at_i
              ∙ ap (residue p)
                  (ap (λ j. expected 0 j ys) (omega arith) ∙ expected_lem 0 i ys y y_at_i)
              ∙ values i x y at_i y_at_i)
            refl
        ∙ sym (self_cancel (eval f x)) in
      residue-cancel p _ (eval f t) (neg_ℤ (eval f t)) p_pos (
        sym (at t)
        ∙ vanishes_everywhere p p_pos difference xs t
            (length-add_all lib (pos p) (length xs) low.poly negated low.few
              (omega (arith, few, length-scale_all lib (pos p) (neg_ℤ (pos 1)) f)))
            apart vanishes
        ∙ self_cancel (eval f t))
    where
      minus_one : (y : ℤ) → y *ℤ neg_ℤ (pos 1) ≡ neg_ℤ y
      minus_one y = *ℤ_comm y (neg_ℤ (pos 1)) ∙ neg_ℤ-*ℤ (pos 1) y ∙ ap neg_ℤ (one-*ℤ y)

  -- `LagrangeInterpolation` on at least as many points as `f` has coefficients, with the values of
  -- `f` modulo `p` and differences that have inverses, gives the value of `f` at the target,
  -- reduced modulo `p`.
  pub lagrange_interpolation_lem :
      (f : Poly) (xs ys : List ℤ) (t : ℤ)
      → length f ≤ length xs
      → length xs ≡ length ys
      → Distinct p xs
      → ((i : ℕ) (x y : ℤ)
          → get_elem? xs i ≡ some x
          → get_elem? ys i ≡ some y
          → residue p y ≡ residue p (eval f x))
      → lagrange_interpolation lib xs ys t (pos p) ≡ ok (pos (residue p (eval f t)))
  unfolding lagrange_interpolation residue
  lagrange_interpolation_lem f xs ys t few len apart values =
      let e = weight lib p p_pos xs in
      let weights = weight-Weights lib p p_pos xs apart in
      let same : (length xs == length ys) ≡ true = ground (arith, len) in
      rw same (
        interpolation_loop_lem xs t e weights 0 ys (pos 0) (omega (arith, len))
          (ap pos (sym (zero-mod p)))
        ∙ ap (λ s. ok (pos s))
            (ap (residue p) (zero-+ℤ _) ∙ combination_lem e f xs ys t weights few len apart values))
