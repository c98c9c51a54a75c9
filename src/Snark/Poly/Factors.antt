-- ===== src/Snark/Poly/Factors.antt =====
-- Products over all points but one, as in the basis polynomials of Lagrange (yacl/snark/qap.cc,
-- yacl/vss/poly.cc).
use yacl_r.Base.{
  ℕ, zero, suc, ◌+◌, ◌<◌, ◌≡◌, ap, ◌∙◌, false, List, [], ◌∷◌, some, arith, get_elem?, Bool-cases,
  true, refl, sym, inl, inr, if◌then◌else◌, ◌==◌,
}
use yacl_r.Base.Int.{
  ℤ, pos, neg_ℤ, ◌+ℤ◌, ◌*ℤ◌, zero-*ℤ, *ℤ_comm, one-*ℤ, zero-+ℤ, eq_of_parts, sums, *ℤ_assoc,
  *ℤ_right_comm,
}
use yacl_r.Base.Inverse.{Invertible, product-Invertible}
use yacl_r.Base.Residue.{residue, product_residue}

abbrev pub minus : ℤ → ℤ → ℤ
minus x y = x +ℤ neg_ℤ y

-- The product of the factors of the points but the one of index `i`, from index `j` on.
unfoldable pub others : ℕ → ℕ → (ℤ → ℤ) → List ℤ → ℤ
others i j factor [] = pos 1
others i j factor (y ∷ r) =
    let rest = others i (j + 1) factor r in if i == j then rest else factor y *ℤ rest

-- The product vanishes if another point's factor does.
pub others-zero :
    (i j k : ℕ) (factor : ℤ → ℤ) (xs : List ℤ) (x : ℤ)
    → get_elem? xs k ≡ some x
    → (i == j + k) ≡ false
    → factor x ≡ pos 0
    → others i j factor xs ≡ pos 0
unfolding others
others-zero i j k factor [] x there other vanishes = absurd (ground arith)
others-zero i j zero factor (y ∷ r) x there other vanishes =
    let here : y ≡ x = ground arith in
    let skip : (i == j) ≡ false = ap (λ t. i == t) (omega arith) ∙ other in
    rw skip (ap (λ t. t *ℤ others i (j + 1) factor r) (ap factor here ∙ vanishes) ∙ zero-*ℤ _)
others-zero i j (suc k) factor (y ∷ r) x there other vanishes =
    let rest : others i (j + 1) factor r ≡ pos 0 =
      others-zero i (j + 1) k factor r x there (ap (λ t. i == t) (omega arith) ∙ other) vanishes in
    elim (Bool-cases (i == j)) [
      | inl e ↦ rw e rest
      | inr e ↦ rw e (ap (λ t. factor y *ℤ t) rest ∙ *ℤ_comm _ (pos 0) ∙ zero-*ℤ _)
    ]

-- The factors of the points but the one of index `i`, from index `j` on, have inverses.
abbrev pub Apart : ℕ → ℕ → ℕ → (ℤ → ℤ) → List ℤ → Type 0
Apart p i j factor [] = Unit {0}
Apart p i j factor (y ∷ r) =
    ((i == j) ≡ false → Invertible p (factor y)) × Apart p i (j + 1) factor r

pub others-Invertible :
    (p : ℕ) (i j : ℕ) (factor : ℤ → ℤ) (xs : List ℤ)
    → 0 < p
    → Apart p i j factor xs
    → Invertible p (others i j factor xs)
unfolding others
others-Invertible p i j factor [] p_pos h = (pos 1, ap (residue p) (one-*ℤ (pos 1)))
others-Invertible p i j factor (y ∷ r) p_pos (h, hs) =
    let rest = others-Invertible p i (j + 1) factor r p_pos hs in
    elim (Bool-cases (i == j)) [
      | inl same ↦ rw same rest
      | inr other ↦ rw other (product-Invertible p p_pos _ _ (h other) rest)
    ]

-- The value among those from index `i` on that belongs to index `k`.
unfoldable pub expected : ℕ → ℕ → List ℤ → ℤ
expected i k [] = pos 0
expected i k (y ∷ ys) = (if i == k then y else pos 0) +ℤ expected (i + 1) k ys

expected-past : (i k : ℕ) (ys : List ℤ) → k < i → expected i k ys ≡ pos 0
unfolding expected
expected-past i k [] h = refl
expected-past i k (y ∷ ys) h =
    let other : (i == k) ≡ false = ground arith in
    rw (other, expected-past (i + 1) k ys (omega arith)) (zero-+ℤ (pos 0))

pub expected_lem :
    (i j : ℕ) (ys : List ℤ) (y : ℤ) → get_elem? ys j ≡ some y → expected i (i + j) ys ≡ y
unfolding expected
expected_lem i j [] y h = absurd (ground arith)
expected_lem i zero (z ∷ ys) y h =
    let same : (i == i + 0) ≡ true = ground arith in
    rw (same, expected-past (i + 1) (i + 0) ys (omega arith))
      (eq_of_parts (z +ℤ pos 0) z (omega sums) ∙ some-inj h)
  where
    some-inj : {a b : ℤ} → some a ≡ some b → a ≡ b
    some-inj h = ground arith
expected_lem i (suc j) (z ∷ ys) y h =
    let other : (i == i + suc j) ≡ false = ground arith in
    rw other
      (zero-+ℤ _ ∙ ap (λ t. expected (i + 1) t ys) (omega arith) ∙ expected_lem (i + 1) j ys y h)

pub minus_self : (x : ℤ) → minus x x ≡ pos 0
minus_self x = eq_of_parts _ _ (omega sums)

-- The scaled product of a point, at that point or at another, for factors that vanish at their own
-- point.
pub basis_at :
    (p : ℕ)
    → 0 < p
    → (factor : ℤ → ℤ → ℤ) → ((x : ℤ) → factor x x ≡ pos 0)
    → (i k : ℕ) (xi x yi : ℤ) (xs : List ℤ) (z : ℤ)
    → residue p (others i 0 (factor xi) xs *ℤ z) ≡ residue p (pos 1)
    → get_elem? xs i ≡ some xi
    → get_elem? xs k ≡ some x
    → residue p (others i 0 (factor x) xs *ℤ (yi *ℤ z)) ≡ residue p (if i == k then yi else pos 0)
basis_at p p_pos factor diagonal i k xi x yi xs z hz at_i at_k = elim (Bool-cases (i == k)) [
  | inl e ↦
      let same : i ≡ k = ground (arith, e) in
      let here : x ≡ xi = some-inj (sym at_k ∙ ap (get_elem? xs) (sym same) ∙ at_i) in
      rw e (
        ap (λ t. residue p (others i 0 (factor t) xs *ℤ (yi *ℤ z))) here
        ∙ ap (residue p) (sym (*ℤ_assoc _ yi z) ∙ *ℤ_right_comm _ yi z)
        ∙ product_residue p _ yi (pos 1) yi p_pos hz refl
        ∙ ap (residue p) (one-*ℤ yi))
  | inr e ↦ rw e (
      ap (residue p) (
        ap (λ t. t *ℤ (yi *ℤ z))
          (others-zero i 0 k (factor x) xs x at_k (ap (λ t. i == t) (omega arith) ∙ e) (diagonal x))
        ∙ zero-*ℤ (yi *ℤ z)))
]
  where
    some-inj : {a b : ℤ} → some a ≡ some b → a ≡ b
    some-inj h = ground arith
