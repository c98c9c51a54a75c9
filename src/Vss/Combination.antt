-- ===== src/Vss/Combination.antt =====
-- The combination of values that Lagrange interpolation computes, as a function of the target.
use yacl_r.Base.{
  ℕ, suc, ◌+◌, ◌≤◌, ◌<◌, ◌≡◌, refl, sym, ap, ◌∙◌, List, [], ◌∷◌, none, some, arith, length,
  get_elem?, get_elem?-some, ◌==◌, false,
}
use yacl_r.Base.Int.{ℤ, pos, ◌+ℤ◌, ◌*ℤ◌}
use yacl_r.Base.Residue.{residue, sum_residue}
use yacl_r.Snark.Mp.{Tommath}
use yacl_r.Snark.Poly.Factors.{minus_self, others, Apart, others-Invertible, expected, basis_at}
use yacl_r.Vss.Low.{LowDegree, to_target, sum-LowDegree, multiple-LowDegree, others-LowDegree}
use yacl_r.Vss.Degree.{Distinct}

Distinct-Apart :
    (p : ℕ) (xs r : List ℤ) (i j : ℕ) (v : ℤ)
    → Distinct p xs
    → get_elem? xs i ≡ some v
    → ((m : ℕ) → get_elem? r m ≡ get_elem? xs (j + m))
    → Apart p i j (to_target v) r
Distinct-Apart p xs [] i j v apart at_i suffix = tt
Distinct-Apart p xs (y ∷ r) i j v apart at_i suffix = (
  λ other.
      apart i j v y (λ e. absurd (clash i j e other)) at_i
        (ap (get_elem? xs) (omega arith) ∙ sym (suffix 0)),
  Distinct-Apart p xs r i (j + 1) v apart at_i
      (λ m. suffix (suc m) ∙ ap (get_elem? xs) (omega arith)),
)
  where
    clash : (i j : ℕ) → i ≡ j → (i == j) ≡ false → ⊥
    clash i j e h = ground arith

-- The sum of the values times the scaled products, from index `i` on.
unfoldable pub combination : (ℕ → ℤ) → List ℤ → ℕ → List ℤ → ℤ → ℤ
combination e xs i [] t = pos 0
combination e xs i (y ∷ ys) t =
    others i 0 (to_target t) xs *ℤ (y *ℤ e i) +ℤ combination e xs (i + 1) ys t

-- `e i` is the inverse of the product of point `i` at itself.
abbrev pub Weights : ℕ → (ℕ → ℤ) → List ℤ → Type 0
Weights p e xs =
    (i : ℕ) (v : ℤ)
    → get_elem? xs i ≡ some v
    → residue p (others i 0 (to_target v) xs *ℤ e i) ≡ residue p (pos 1)

pub combination-at :
    (p : ℕ)
    → 0 < p
    → (e : ℕ → ℤ) (xs : List ℤ) (i k : ℕ) (ys : List ℤ) (x : ℤ) → Weights p e xs
    → i + length ys ≡ length xs
    → get_elem? xs k ≡ some x
    → residue p (combination e xs i ys x) ≡ residue p (expected i k ys)
unfolding combination expected
combination-at p p_pos e xs i k [] x weights len at_k = refl
combination-at p p_pos e xs i k (y ∷ ys) x weights len at_k =
    let (xi, at_i) = get_elem?-some xs i (omega (arith, len)) in
    sum_residue p _ (combination e xs (i + 1) ys x) _ (expected (i + 1) k ys) p_pos
      (basis_at p p_pos to_target minus_self i k xi x y xs (e i) (weights i xi at_i) at_i at_k)
      (combination-at p p_pos e xs (i + 1) k ys x weights (omega (arith, len)) at_k)

module _ (lib : Tommath) (p : ℕ) (p_pos : 0 < p) where
  pub combination-LowDegree :
      (e : ℕ → ℤ) (xs : List ℤ) (i : ℕ) (ys : List ℤ)
      → i + length ys ≤ length xs
      → LowDegree p (length xs) (combination e xs i ys)
  unfolding combination
  combination-LowDegree e xs i [] h = record { poly = []; few = omega arith; agrees = λ t. refl }
  combination-LowDegree e xs i (y ∷ ys) h =
      sum-LowDegree lib p p_pos (length xs) _ _
        (multiple-LowDegree lib p p_pos (length xs) _ (y *ℤ e i)
          (others-LowDegree lib p p_pos i 0 xs (omega arith) (omega (arith, h))))
        (combination-LowDegree e xs (i + 1) ys (omega (arith, h)))

  -- The inverses of the products.
  pub weight : List ℤ → ℕ → ℤ
  weight xs i = elim (get_elem? xs i) [
    | none ↦ pos 0
    | some v ↦ elim (lib.invert_mod (others i 0 (to_target v) xs) (pos p)) [
      | none ↦ pos 0
      | some z ↦ z
    ]
  ]

  pub weight-Weights : (xs : List ℤ) → Distinct p xs → Weights p (weight xs) xs
  unfolding weight
  weight-Weights xs apart i v at_i =
      let (e, inverse) =
        others-Invertible p i 0 (to_target v) xs p_pos
          (Distinct-Apart p xs xs i 0 v apart at_i (λ m. ap (get_elem? xs) (omega arith))) in
      let (z, found) = lib.invert_mod-some p _ e p_pos inverse in
      rw (at_i, weight) (rw found (lib.invert_mod-inverse p _ z p_pos found))
