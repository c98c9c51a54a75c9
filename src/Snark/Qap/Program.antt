-- ===== src/Snark/Qap/Program.antt =====
-- The quadratic arithmetic program of a constraint system.
use yacl_r.Base.{
  ℕ, zero, suc, ◌+◌, ◌<◌, ◌≡◌, refl, ap, ◌∙◌, true, List, [], ◌∷◌, Option, some, none, ok, arith,
  length, get_elem?, ltb,
}
use yacl_r.Base.Int.{ℤ, pos, neg_ℤ, ◌+ℤ◌, ◌*ℤ◌, zero-*ℤ, *ℤ_comm, eq_of_parts, sums}
use yacl_r.Base.NatMap.{find}
use yacl_r.Base.Residue.{residue, residue-residue}
use yacl_r.Snark.Mp.{Tommath}
use yacl_r.Snark.R1cs.{LinearCombination, R1csConstraint, R1csSystem}
use yacl_r.Snark.Poly.{Poly, evaluate}
use yacl_r.Snark.Poly.Products.{differences, evaluate-from_roots}
use yacl_r.Snark.Qap.{
  QapSystem, domain, coefficient, values, interpolate, interpolate_all, r1cs_to_qap,
}
use yacl_r.Base.Inverse.{Invertible}
use yacl_r.Snark.Qap.System.{domain-some, length-values, values-get, interpolate_lem}

-- The coefficient of a variable in a combination.
abbrev pub term : ℕ → LinearCombination → ℤ
term i lc = elim (find i lc) [ none ↦ pos 0 | some c ↦ c ]

-- At `x`, the polynomials of the variables from `i` on have the coefficients of the constraint `k`.
abbrev pub Matches : Tommath → ℕ → ℤ → R1csConstraint → ℕ → List (Poly × Poly × Poly) → Type 0
Matches lib p x k i [] = Unit {0}
Matches lib p x k i ((u, v, w) ∷ r) =
    (residue p (evaluate lib (pos p) u x) ≡ residue p (term i k.a))
    × (residue p (evaluate lib (pos p) v x) ≡ residue p (term i k.b))
    × (residue p (evaluate lib (pos p) w x) ≡ residue p (term i k.c))
    × Matches lib p x k (i + 1) r

differences-zero :
    (xs : List ℤ) (j : ℕ) (x : ℤ) → get_elem? xs j ≡ some x → differences xs x ≡ pos 0
differences-zero [] j x h = absurd (ground arith)
differences-zero (y ∷ r) zero x h =
    ap (λ t. (x +ℤ neg_ℤ t) *ℤ differences r x) (some-inj h)
    ∙ ap (λ t. t *ℤ differences r x) (eq_of_parts (x +ℤ neg_ℤ x) (pos 0) (omega sums))
    ∙ zero-*ℤ (differences r x)
  where
    some-inj : {a b : ℤ} → some a ≡ some b → a ≡ b
    some-inj h = ground arith
differences-zero (y ∷ r) (suc j) x h =
    ap (λ t. (x +ℤ neg_ℤ y) *ℤ t) (differences-zero r j x h)
    ∙ *ℤ_comm (x +ℤ neg_ℤ y) (pos 0)
    ∙ zero-*ℤ (x +ℤ neg_ℤ y)

module _ (lib : Tommath) (p : ℕ) (p_pos : 0 < p) where
  residue-coefficient :
      (i : ℕ) (lc : LinearCombination)
      → residue p (coefficient lib (pos p) i lc) ≡ residue p (term i lc)
  unfolding coefficient
  residue-coefficient i lc = by_found (find i lc)
    where
      by_found :
          (o : Option ℤ)
          → residue p (elim o [ none ↦ pos 0 | some c ↦ lib.mod_ℤ c (pos p) ])
            ≡ residue p (elim o [ none ↦ pos 0 | some c ↦ c ])
      by_found none = refl
      by_found (some c) = ap (residue p) (lib.mod_ℤ_lem p c p_pos) ∙ residue-residue p c p_pos

  module _ (ks : List R1csConstraint) (j : ℕ) (k : R1csConstraint)
      (inverses : (d : ℕ) → 0 < d → d < length ks → Invertible p (pos d))
      (at_j : get_elem? ks j ≡ some k) (below : j < length ks) where
    side_lem :
        (pick : R1csConstraint → LinearCombination) (i : ℕ)
        → (f : Poly) × (interpolate lib (pos p) (values lib (pos p) pick i ks) ≡ ok f)
          × (residue p (evaluate lib (pos p) f (pos (1 + j))) ≡ residue p (term i (pick k)))
    side_lem pick i =
        let same = length-values lib p p_pos pick i ks in
        let (f, gives, hf) =
          interpolate_lem lib p p_pos (values lib (pos p) pick i ks) j
            (coefficient lib (pos p) i (pick k))
            (λ d d_pos d_below. inverses d d_pos (omega (arith, same)))
            (values-get lib p p_pos pick i ks j k at_j) (omega (arith, same)) in
        (f, gives, hf ∙ residue-coefficient i (pick k))

    interpolate_all-Matches :
        (i n : ℕ)
        → (qs : List (Poly × Poly × Poly)) × (interpolate_all lib (pos p) ks i n ≡ ok qs)
          × (length qs ≡ n)
          × Matches lib p (pos (1 + j)) k i qs
    unfolding interpolate_all
    interpolate_all-Matches i zero = ([], refl, refl, tt)
    interpolate_all-Matches i (suc n) =
        let (u, gives_u, hu) = side_lem (λ c. c.a) i in
        let (v, gives_v, hv) = side_lem (λ c. c.b) i in
        let (w, gives_w, hw) = side_lem (λ c. c.c) i in
        let (qs, gives, len, matches) = interpolate_all-Matches (i + 1) n in
        (
          (u, v, w) ∷ qs,
          rw (gives_u, gives_v, gives_w, gives) refl,
          ap suc len,
          (hu, hv, hw, matches),
        )

  -- `R1csToQap` of a system with variables, over a modulus at which the positive numbers below the
  -- number of constraints have inverses, succeeds. At the point j + 1 the polynomials of each
  -- variable have its coefficients in constraint j, up to multiples of the modulus, and the target
  -- polynomial vanishes.
  pub r1cs_to_qap-Matches :
      (s : R1csSystem) (j : ℕ) (k : R1csConstraint)
      → ((d : ℕ) → 0 < d → d < length s.constraints → Invertible p (pos d))
      → get_elem? s.constraints j ≡ some k
      → j < length s.constraints
      → 0 < s.num_variables
      → (q : QapSystem) × (r1cs_to_qap lib (pos p) s ≡ ok q)
        × (length q.uvw ≡ s.num_variables)
        × Matches lib p (pos (1 + j)) k 0 q.uvw
        × (residue p (evaluate lib (pos p) q.t (pos (1 + j))) ≡ residue p (pos 0))
  unfolding r1cs_to_qap
  r1cs_to_qap-Matches s j k inverses at_j below some_variable =
      let n = length s.constraints in
      let x = pos (1 + j) in
      let roots = domain 1 n in
      let (t, gives_t, ht) = evaluate-from_roots lib p p_pos x roots in
      let (qs, gives, len, matches) =
        interpolate_all-Matches s.constraints j k inverses at_j below 0 s.num_variables in
      let constraints_ok : ltb 0 n ≡ true = ground arith in
      let variables_ok : ltb 0 s.num_variables ≡ true = ground arith in
      (
        record { uvw = qs; t = t },
        rw (constraints_ok, variables_ok, gives_t, gives) refl,
        len,
        matches,
        ht ∙ ap (residue p) (differences-zero roots j x (domain-some lib p p_pos 1 n j below)),
      )
