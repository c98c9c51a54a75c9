-- ===== src/Snark/Poly/Division/Identity.antt =====
-- `DivMod` divides.
use yacl_r.Base.{
  ℕ, zero, suc, ◌-◌, ◌<◌, ◌≤◌, ◌≡◌, refl, sym, ap, ◌∙◌, true, false, not, [], ◌∷◌, some, ok, arith,
  length, get_elem?, take, ltb, Bool-cases, inl, inr,
}
use yacl_r.Base.Int.{ℤ, pos, ◌+ℤ◌, ◌*ℤ◌, zero-+ℤ, zero-*ℤ}
use yacl_r.Base.Residue.{residue, sum_residue, product_residue}
use yacl_r.Snark.Mp.{Tommath}
use yacl_r.Snark.Poly.{Poly, trim, evaluate}
use yacl_r.Snark.Poly.Values.{eval-trim, length-trim, evaluate-at_x}
use yacl_r.Snark.Poly.Division.{last_nonzero, div_mod}
use yacl_r.Snark.Poly.Division.Quotient.{value-take, divide-Divides}

length-take : (n : ℕ) (f : Poly) → length (take n f) ≤ n
length-take zero [] = omega arith
length-take zero (c ∷ r) = omega arith
length-take (suc n) [] = omega arith
length-take (suc n) (c ∷ r) = omega (arith, length-take n r)

module _ (lib : Tommath) (p : ℕ) (p_pos : 0 < p) (x : ℤ) where
  evaluate-zero : (t : ℤ) → evaluate lib (pos p) (pos 0 ∷ []) x *ℤ t ≡ pos 0
  unfolding evaluate
  evaluate-zero t = zero-*ℤ t

  -- `DivMod` by a polynomial whose last coefficient has an inverse gives a quotient and a remainder
  -- shorter than the divisor: at every point, the value is that of the quotient times that of the
  -- divisor, plus that of the remainder.
  pub div_mod_lem :
      (a b : Poly) (lead e : ℤ)
      → last_nonzero b ≡ true
      → get_elem? b (length b - 1) ≡ some lead
      → residue p (lead *ℤ e) ≡ residue p (pos 1)
      → (q : Poly) × (r : Poly) × (div_mod lib (pos p) a b ≡ ok (q, r))
        × (length r < length b)
        × (residue p (evaluate lib (pos p) a x)
            ≡ residue p
                (evaluate lib (pos p) q x *ℤ evaluate lib (pos p) b x +ℤ evaluate lib (pos p) r x))
  unfolding div_mod
  div_mod_lem a b lead e nonzero at_lead inverse =
      let at = evaluate-at_x lib p p_pos x in
      let usable : not (last_nonzero b) ≡ false = ap not nonzero in
      elim (Bool-cases (ltb (length a) (length b))) [
        | inl short ↦ (
          pos 0 ∷ [],
          a,
          rw (usable, short) refl,
          ground (arith, short),
          ap (residue p) (
              sym (
                ap (λ t. t +ℤ evaluate lib (pos p) a x) (evaluate-zero (evaluate lib (pos p) b x))
                ∙ zero-+ℤ _)),
        )
        | inr long ↦
            let (z, found) = lib.invert_mod-some p lead e p_pos inverse in
            let inverts = lib.invert_mod-inverse p lead z p_pos found in
            let some_b : 0 < length b = nonempty b at_lead in
            let d =
              divide-Divides lib p p_pos x (length b - 1) b lead z (omega arith) at_lead inverts
                a in
            let kept = take (length b - 1) d.remainder in
            (
              trim d.quotient,
              trim kept,
              rw (usable, long, at_lead, found, d.gives) refl,
              omega (arith, length-trim kept, length-take (length b - 1) d.remainder),
              at a
                  ∙ d.sum
                  ∙ sum_residue p _ _ _ _ p_pos
                      (product_residue p _ _ _ _ p_pos
                        (sym (at (trim d.quotient) ∙ ap (residue p) (eval-trim d.quotient x)))
                        (sym (at b)))
                      (sym (
                        at (trim kept)
                        ∙ ap (residue p) (eval-trim kept x)
                        ∙ value-take lib p p_pos x (length b - 1) d.remainder d.high)),
            )
      ]
    where
      nonempty : (b : Poly) → get_elem? b (length b - 1) ≡ some lead → 0 < length b
      nonempty [] h = absurd (ground arith)
      nonempty (c ∷ r) h = omega arith
