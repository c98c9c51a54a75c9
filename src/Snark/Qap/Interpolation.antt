-- ===== src/Snark/Qap/Interpolation.antt =====
-- `LagrangeInterpolate` goes through its points.
use yacl_r.Base.{
  ℕ, suc, ◌+◌, ◌<◌, ◌≡◌, refl, sym, ap, ◌∙◌, Bool, true, false, List, [], ◌∷◌, some, ok, arith,
  length, get_elem?, Bool-cases, inl, inr, if◌then◌else◌, ◌==◌,
}
use yacl_r.Base.Int.{
  ℤ, pos, neg_ℤ, ◌+ℤ◌, ◌*ℤ◌, is_zero, is_zero-eq, zero-+ℤ, zero-*ℤ, *ℤ_assoc, *ℤ_comm, one-*ℤ,
  eq_of_parts, sums,
}
use yacl_r.Base.Residue.{residue, sum_residue, product_residue}
use yacl_r.Snark.Mp.{Tommath}
use yacl_r.Snark.Poly.{Poly, neg_mod, add, scalar_mul, zeros, evaluate}
use yacl_r.Snark.Poly.Factors.{
  minus, others, Apart, others-Invertible, expected, expected_lem, minus_self, basis_at,
}
use yacl_r.Snark.Poly.Values.{
  eval, at_x-add, at_x-scalar_mul, residue-mul_mod, residue-sub_mod, evaluate-at_x,
}
use yacl_r.Snark.Poly.Products.{mul-eval, factor-eval, zeros-Zero}
use yacl_r.Snark.Qap.{basis_loop, add_point, interpolate_loop, lagrange_interpolate}

module _ (lib : Tommath) (p : ℕ) (p_pos : 0 < p) where
  module _ (x : ℤ) where
    basis_loop-eval :
        (i : ℕ) (xi : ℤ) (j : ℕ) (xs : List ℤ) (basis : Poly) (denom : ℤ)
        → (b : Poly) × (d : ℤ) × (basis_loop lib (pos p) i xi j xs basis denom ≡ ok (b, d))
          × (residue p (eval b x) ≡ residue p (eval basis x *ℤ others i j (minus x) xs))
          × (residue p d ≡ residue p (denom *ℤ others i j (minus xi) xs))
    unfolding basis_loop others
    basis_loop-eval i xi j [] basis denom = (
      basis,
      denom,
      refl,
      ap (residue p) (sym (*ℤ_comm (eval basis x) (pos 1) ∙ one-*ℤ _)),
      ap (residue p) (sym (*ℤ_comm denom (pos 1) ∙ one-*ℤ denom)),
    )
    basis_loop-eval i xi j (xj ∷ r) basis denom = elim (Bool-cases (i == j)) [
      | inl same ↦ rw same (basis_loop-eval i xi (j + 1) r basis denom)
      | inr other ↦
          let (g, multiplied, product) =
            mul-eval lib p p_pos x basis (neg_mod lib (pos p) xj ∷ pos 1 ∷ []) in
          let (b, d, gives, hb, hd) =
            basis_loop-eval i xi (j + 1) r g
              (lib.mul_mod denom (lib.sub_mod xi xj (pos p)) (pos p)) in
          rw other (
            b,
            d,
            rw multiplied gives,
            hb
                ∙ product_residue p (eval g x) _ (eval basis x *ℤ (x +ℤ neg_ℤ xj)) _ p_pos
                    (product
                      ∙ product_residue p (eval basis x) _ (eval basis x) _ p_pos refl
                          (factor-eval lib p p_pos x xj))
                    refl
                ∙ ap (residue p)
                    (*ℤ_assoc (eval basis x) (x +ℤ neg_ℤ xj) (others i (j + 1) (minus x) r)),
            hd
                ∙ product_residue p _ _ (denom *ℤ (xi +ℤ neg_ℤ xj)) _ p_pos
                    (residue-mul_mod lib p p_pos x denom _
                      ∙ product_residue p denom _ denom _ p_pos refl
                          (residue-sub_mod lib p p_pos x xi xj))
                    refl
                ∙ ap (residue p) (*ℤ_assoc denom (xi +ℤ neg_ℤ xj) (others i (j + 1) (minus xi) r)),
          )
    ]

    unit : (t : ℤ) → (pos 1 +ℤ pos 0 *ℤ x) *ℤ t ≡ t
    unit t =
        ap (λ s. (pos 1 +ℤ s) *ℤ t) (zero-*ℤ x)
        ∙ ap (λ s. s *ℤ t) (eq_of_parts (pos 1 +ℤ pos 0) (pos 1) (omega sums))
        ∙ one-*ℤ t

    -- What a point adds at `x`: its value at the point itself, nothing at another.
    add_point-eval :
        (xs : List ℤ) (i k : ℕ) (xi yi : ℤ) (result : Poly)
        → Apart p i 0 (minus xi) xs
        → get_elem? xs i ≡ some xi
        → get_elem? xs k ≡ some x
        → (f : Poly) × (add_point lib (pos p) xs i xi yi result ≡ ok f)
          × (residue p (eval f x) ≡ residue p (eval result x +ℤ (if i == k then yi else pos 0)))
    unfolding add_point
    add_point-eval xs i k xi yi result apart at_i at_k =
        let (b, d, gives, hb, hd) = basis_loop-eval i xi 0 xs (pos 1 ∷ []) (pos 1) in
        let (e, inverse) = others-Invertible p i 0 (minus xi) xs p_pos apart in
        let hd' : residue p d ≡ residue p (others i 0 (minus xi) xs) =
          hd ∙ ap (residue p) (one-*ℤ (others i 0 (minus xi) xs)) in
        let (z, found) =
          lib.invert_mod-some p d e p_pos (product_residue p d e _ e p_pos hd' refl ∙ inverse) in
        let hz = lib.invert_mod-inverse p d z p_pos found in
        let scale = lib.mul_mod yi z (pos p) in
        (
          add lib (pos p) result (scalar_mul lib (pos p) b scale),
          rw (gives, add_point) (rw found refl),
          at_x-add lib p p_pos x result _
              ∙ sum_residue p (eval result x) _ (eval result x) _ p_pos refl (
                  at_x-scalar_mul lib p p_pos x b scale
                  ∙ product_residue p (eval b x) scale (others i 0 (minus x) xs) (yi *ℤ z) p_pos
                      (hb ∙ ap (residue p) (unit (others i 0 (minus x) xs)))
                      (residue-mul_mod lib p p_pos x yi z)
                  ∙ basis_at p p_pos minus minus_self i k xi x yi xs z
                      (product_residue p _ z d z p_pos (sym hd') refl ∙ hz) at_i at_k),
        )

    interpolate_loop-eval :
        (xs : List ℤ) (i k : ℕ) (r ys : List ℤ) (result : Poly)
        → ((m : ℕ) (v : ℤ) → get_elem? xs m ≡ some v → Apart p m 0 (minus v) xs)
        → ((m : ℕ) → get_elem? r m ≡ get_elem? xs (i + m))
        → length r ≡ length ys
        → get_elem? xs k ≡ some x
        → (f : Poly) × (interpolate_loop lib (pos p) xs i r ys result ≡ ok f)
          × (residue p (eval f x) ≡ residue p (eval result x +ℤ expected i k ys))
    unfolding interpolate_loop expected
    interpolate_loop-eval xs i k [] [] result apart suffix len at_k =
        (result, refl, ap (residue p) (eq_of_parts _ _ (omega sums)))
    interpolate_loop-eval xs i k [] (y ∷ ys) result apart suffix len at_k =
        absurd (omega (arith, len))
    interpolate_loop-eval xs i k (v ∷ r) [] result apart suffix len at_k =
        absurd (omega (arith, len))
    interpolate_loop-eval xs i k (v ∷ r) (y ∷ ys) result apart suffix len at_k =
        let at_i : get_elem? xs i ≡ some v = ap (get_elem? xs) (omega arith) ∙ sym (suffix 0) in
        let suffix' : (m : ℕ) → get_elem? r m ≡ get_elem? xs (i + 1 + m) =
          λ m. suffix (suc m) ∙ ap (get_elem? xs) (omega arith) in
        elim (Bool-cases (is_zero y)) [
          | inl e ↦
              let (f, gives, hf) =
                interpolate_loop-eval xs (i + 1) k r ys result apart suffix' (omega (arith, len))
                  at_k in
              (
                f,
                rw (e, interpolate_loop) gives,
                hf
                    ∙ ap (residue p) (
                        ap (λ t. eval result x +ℤ t)
                          (sym (
                            ap (λ t. t +ℤ expected (i + 1) k ys) (nothing (i == k) (is_zero-eq y e))
                            ∙ zero-+ℤ _))),
              )
          | inr e ↦
              let (g, adds, hg) = add_point-eval xs i k v y result (apart i v at_i) at_i at_k in
              let (f, gives, hf) =
                interpolate_loop-eval xs (i + 1) k r ys g apart suffix' (omega (arith, len)) at_k in
              (
                f,
                rw (e, interpolate_loop) (rw (adds, interpolate_loop) gives),
                hf
                    ∙ sum_residue p (eval g x) _ _ (expected (i + 1) k ys) p_pos hg refl
                    ∙ ap (residue p) (eq_of_parts _ _ (omega sums)),
              )
        ]
      where
        nothing : (b : Bool) → y ≡ pos 0 → (if b then y else pos 0) ≡ pos 0
        nothing true h = h
        nothing false h = refl

    -- `LagrangeInterpolate` of as many values as points, whose differences have inverses,
    -- succeeds, and its polynomial has the given value at each point, up to multiples of the
    -- modulus.
    pub lagrange_interpolate_lem :
        (xs ys : List ℤ) (k : ℕ) (y : ℤ)
        → ((m : ℕ) (v : ℤ) → get_elem? xs m ≡ some v → Apart p m 0 (minus v) xs)
        → length xs ≡ length ys
        → get_elem? xs k ≡ some x
        → get_elem? ys k ≡ some y
        → (f : Poly) × (lagrange_interpolate lib (pos p) xs ys ≡ ok f)
          × (residue p (evaluate lib (pos p) f x) ≡ residue p y)
    unfolding lagrange_interpolate
    lagrange_interpolate_lem xs ys k y apart len at_k y_at_k =
        let start = zeros (length xs) in
        let same : (length xs == length ys) ≡ true = ground arith in
        let (f, gives, hf) =
          interpolate_loop-eval xs 0 k xs ys start apart (λ m. ap (get_elem? xs) (omega arith)) len
            at_k in
        (
          f,
          rw same gives,
          evaluate-at_x lib p p_pos x f
              ∙ hf
              ∙ ap (residue p) (
                  ap (λ t. t +ℤ expected 0 k ys) (zeros-Zero lib p p_pos x (length xs)).1
                  ∙ zero-+ℤ _
                  ∙ ap (λ t. expected 0 t ys) (omega arith)
                  ∙ expected_lem 0 k ys y y_at_k),
        )
