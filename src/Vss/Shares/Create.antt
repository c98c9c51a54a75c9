-- ===== src/Vss/Shares/Create.antt =====
-- `CreateShare` puts every share on the polynomial.
use yacl_r.Base.{
  ℕ, zero, suc, ◌<◌, ◌≡◌, refl, sym, ap, ◌∙◌, List, [], ◌∷◌, some, Result, ok, arith, length,
  get_elem?, get_elem?-some, subst,
}
use yacl_r.Base.Int.{ℤ, pos, ◌+ℤ◌, ◌*ℤ◌, zero-*ℤ, *ℤ_comm, eq_of_parts, sums}
use yacl_r.Base.Residue.{residue, sum_residue, product_residue}
use yacl_r.Snark.Mp.{Tommath}
use yacl_r.Snark.Poly.{Poly}
use yacl_r.Snark.Poly.Values.{eval, residue-add_mod, residue-mul_mod}
use yacl_r.Vss.{Polynomial, random_coefficients, create_polynomial, horner, evaluate_polynomial}
use yacl_r.Vss.Shares.{VerifiableSecretSharing, Share, share_loop, create_share}

-- Each share's y is the value at its x.
abbrev pub OnPoly : Tommath → List ℤ → ℤ → List Share → Type 0
OnPoly lib coeffs modulus shares =
    (j : ℕ) (share : Share)
    → get_elem? shares j ≡ some share
    → evaluate_polynomial lib (record { coeffs = coeffs; modulus = modulus }) share.x ≡ ok share.y

module _ (lib : Tommath) (p : ℕ) (p_pos : 0 < p) where
  horner_lem :
      (x c : ℤ) (r : Poly) → residue p (horner lib (pos p) x c r) ≡ residue p (eval (c ∷ r) x)
  unfolding horner
  horner_lem x c [] =
      ap (residue p) (sym (ap (λ t. c +ℤ t) (zero-*ℤ x) ∙ eq_of_parts _ _ (omega sums)))
  horner_lem x c (d ∷ r) =
      residue-add_mod lib p p_pos x _ c
      ∙ sum_residue p _ c (eval (d ∷ r) x *ℤ x) c p_pos
          (residue-mul_mod lib p p_pos x x _
            ∙ product_residue p x _ x (eval (d ∷ r) x) p_pos refl (horner_lem x d r)
            ∙ ap (residue p) (*ℤ_comm x (eval (d ∷ r) x)))
          refl
      ∙ ap (residue p) (eq_of_parts _ _ (omega sums))

  -- The value of a polynomial by Horner's method, up to multiples of the modulus.
  pub evaluate_polynomial_lem :
      (c x y : ℤ) (r : Poly)
      → evaluate_polynomial lib (record { coeffs = c ∷ r; modulus = pos p }) x ≡ ok y
      → residue p y ≡ residue p (eval (c ∷ r) x)
  unfolding evaluate_polynomial
  evaluate_polynomial_lem c x y r h = ap (residue p) (sym (ok-inj h)) ∙ horner_lem x c r
    where
      ok-inj : {a b : ℤ} → ok a ≡ ok b → a ≡ b
      ok-inj h = ground arith

module _ {S : Type 0} (random_lt_n : ℤ → S → ℤ × S) (lib : Tommath) where
  -- What `CreateShare` makes: shares at the drawn points, each with the value there.
  pub record Shared (poly : Polynomial) (n : ℕ) (out : Result (List Share × S)) : Type 0 where
    pub shares : List Share
    pub last : S
    pub gives : out ≡ ok (shares, last)
    pub count : length shares ≡ n
    pub on_poly : OnPoly lib poly.coeffs poly.modulus shares

  pub share_loop-Shared :
      (c : ℤ) (r : Poly) (modulus prime : ℤ) (n : ℕ) (s : S)
      → Shared
          (record { coeffs = c ∷ r; modulus = modulus })
          n
          (share_loop random_lt_n lib (record { coeffs = c ∷ r; modulus = modulus }) prime n s)
  unfolding share_loop evaluate_polynomial
  share_loop-Shared c r modulus prime zero s = record {
    shares = [];
    last = s;
    gives = refl;
    count = refl;
    on_poly = λ j share h. absurd (ground arith);
  }
  share_loop-Shared c r modulus prime (suc n) s =
      let (x, next) = random_lt_n prime s in
      let rest = share_loop-Shared c r modulus prime n next in
      record {
        shares = record { x = x; y = horner lib modulus x c r } ∷ rest.shares;
        last = rest.last;
        gives = rw (rest.gives, share_loop) refl;
        count = ap suc rest.count;
        on_poly = on_poly c r modulus x rest.shares rest.on_poly;
      }
    where
      on_poly :
          (c : ℤ) (r : Poly) (modulus x : ℤ) (rest : List Share)
          → OnPoly lib (c ∷ r) modulus rest
          → OnPoly lib (c ∷ r) modulus (record { x = x; y = horner lib modulus x c r } ∷ rest)
      on_poly c r modulus x rest others zero share h =
          subst
            (λ t.
              evaluate_polynomial lib (record { coeffs = c ∷ r; modulus = modulus }) t.x ≡ ok t.y)
            (some-inj h) refl
        where
          some-inj : {a b : Share} → some a ≡ some b → a ≡ b
          some-inj h = ground arith
      on_poly c r modulus x rest others (suc j) share h = others j share h

  length-random_coefficients :
      (modulus : ℤ) (n : ℕ) (s : S) → length (random_coefficients random_lt_n modulus n s).0 ≡ n
  unfolding random_coefficients
  length-random_coefficients modulus zero s = refl
  length-random_coefficients modulus (suc n) s =
      ap suc (length-random_coefficients modulus n (random_lt_n modulus s).1)

  -- With a positive threshold `CreateShare` returns as many shares as the total, on a polynomial of
  -- as many coefficients as the threshold, the first of which is the secret: each share's y is the
  -- value at its x.
  pub create_share_lem :
      (vss : VerifiableSecretSharing) (secret : ℤ) (poly : Polynomial) (s : S)
      → 0 < vss.threshold
      → (shares : List Share) × (r : List ℤ) × (last : S) × (create_share random_lt_n lib vss secret
            poly s
          ≡ ok (shares, record { coeffs = secret ∷ r; modulus = poly.modulus }, last))
        × (length shares ≡ vss.total)
        × (length (secret ∷ r) ≡ vss.threshold)
        × OnPoly lib (secret ∷ r) poly.modulus shares
  unfolding create_share create_polynomial
  create_share_lem vss secret poly s positive = by_threshold vss.threshold positive
    where
      by_threshold :
          (n : ℕ)
          → 0 < n
          → (shares : List Share) × (r : List ℤ) × (last : S) × (create_share random_lt_n lib
                (record { total = vss.total; threshold = n; prime = vss.prime })
                secret
                poly
                s
              ≡ ok (shares, record { coeffs = secret ∷ r; modulus = poly.modulus }, last))
            × (length shares ≡ vss.total)
            × (length (secret ∷ r) ≡ n)
            × OnPoly lib (secret ∷ r) poly.modulus shares
      by_threshold zero h = absurd (omega arith)
      by_threshold (suc n) h =
          let (r, next) = random_coefficients random_lt_n poly.modulus n s in
          let made = share_loop-Shared secret r poly.modulus vss.prime vss.total next in
          (
            made.shares,
            r,
            made.last,
            rw (made.gives, create_share) refl,
            made.count,
            ap suc (length-random_coefficients poly.modulus n s),
            made.on_poly,
          )

  -- `CreateShare` with a positive threshold returns as many shares as the total, and sets the
  -- polynomial to as many coefficients as the threshold, the first of which is the secret: each
  -- share's y is its value at the share's x.
  pub create_share-OnPoly :
      (vss : VerifiableSecretSharing) (secret : ℤ) (poly : Polynomial) (s : S) (j : ℕ)
      → 0 < vss.threshold
      → j < vss.total
      → (shares : List Share) × (r : List ℤ) × (last : S) × (share : Share) × (create_share
            random_lt_n lib vss secret poly s
          ≡ ok (shares, record { coeffs = secret ∷ r; modulus = poly.modulus }, last))
        × (length shares ≡ vss.total)
        × (length (secret ∷ r) ≡ vss.threshold)
        × (get_elem? shares j ≡ some share)
        × (evaluate_polynomial lib (record { coeffs = secret ∷ r; modulus = poly.modulus }) share.x
            ≡ ok share.y)
  create_share-OnPoly vss secret poly s j positive below =
      let (shares, r, last, gives, count, degree, on_poly) =
        create_share_lem vss secret poly s positive in
      let (share, at_j) = get_elem?-some shares j (omega (arith, count, below)) in
      (shares, r, last, share, gives, count, degree, at_j, on_poly j share at_j)
