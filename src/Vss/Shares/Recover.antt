-- ===== src/Vss/Shares/Recover.antt =====
-- `RecoverSecret` gets the value of the polynomial at 0 back.
use yacl_r.Base.{
  ℕ, ◌≤◌, ◌<◌, ◌≡◌, ◌≢◌, sym, ap, ◌∙◌, List, [], ◌∷◌, some, Result, ok, err, arith, length,
  get_elem?, length-take, take, subst, map, leb, true,
}
use yacl_r.Base.Int.{ℤ, pos, neg_ℤ, ◌+ℤ◌, zero-*ℤ, *ℤ_comm, eq_of_parts, sums}
use yacl_r.Base.Index.{get_elem?-take-some, length-map, get_elem?-map-some}
use yacl_r.Base.Inverse.{IsPrime, prime-Invertible}
use yacl_r.Base.Residue.{residue, residue-cancel}
use yacl_r.Snark.Mp.{Tommath}
use yacl_r.Snark.Poly.{Poly}
use yacl_r.Snark.Poly.Values.{eval}
use yacl_r.Vss.{Polynomial, evaluate_polynomial, interpolate_at_zero}
use yacl_r.Vss.Degree.{Distinct}
use yacl_r.Vss.Lagrange.{lagrange_interpolation_lem}
use yacl_r.Vss.Shares.{VerifiableSecretSharing, Share, create_share, recover_secret}
use yacl_r.Vss.Shares.Create.{OnPoly, evaluate_polynomial_lem, create_share_lem}

-- The remainders of the points differ.
abbrev pub Different : ℕ → List ℤ → Type 0
Different p xs =
    (i j : ℕ) (v w : ℤ)
    → i ≢ j
    → get_elem? xs i ≡ some v
    → get_elem? xs j ≡ some w
    → residue p w ≢ residue p v

pub Different-Distinct : (p : ℕ) (xs : List ℤ) → IsPrime p → Different p xs → Distinct p xs
Different-Distinct p xs prime differ i j v w ne at_i at_j =
    prime-Invertible p (w +ℤ neg_ℤ v) prime (λ e.
      differ i j v w ne at_i at_j
        (residue-cancel p w v (neg_ℤ v) (omega (arith, prime.0)) (e ∙ ap (residue p) (cancel v))))
  where
    cancel : (v : ℤ) → pos 0 ≡ v +ℤ neg_ℤ v
    cancel v = eq_of_parts _ _ (omega sums)

-- Every share of the one list is in the other.
abbrev pub Among : List Share → List Share → Type 0
Among chosen shares =
    (i : ℕ) (share : Share)
    → get_elem? chosen i ≡ some share
    → (j : ℕ) × (get_elem? shares j ≡ some share)

abbrev pub xs_of : List Share → List ℤ
xs_of shares = map (λ share. share.x) shares

at_zero : (c : ℤ) (r : Poly) → eval (c ∷ r) (pos 0) ≡ c
at_zero c r =
    ap (λ t. c +ℤ t) (*ℤ_comm (eval r (pos 0)) (pos 0) ∙ zero-*ℤ _) ∙ eq_of_parts _ _ (omega sums)

-- The values of the shares that are used.
used_values :
    (lib : Tommath) (p : ℕ)
    → 0 < p
    → (k : ℕ) (c : ℤ) (r : Poly) (modulus : ℤ) → modulus ≡ pos p
    → (shares chosen : List Share) → OnPoly lib (c ∷ r) modulus shares
    → Among chosen shares
    → (i : ℕ) (x y : ℤ) → get_elem? (map (λ (share : Share). share.x) (take k chosen)) i ≡ some x
    → get_elem? (map (λ (share : Share). share.y) (take k chosen)) i ≡ some y
    → residue p y ≡ residue p (eval (c ∷ r) x)
used_values lib p p_pos k c r modulus e shares chosen on_poly among i x y x_at y_at =
    let (share, there, x_is) =
      get_elem?-map-some (λ (share : Share). share.x) (take k chosen) i x x_at in
    let (other, there', y_is) =
      get_elem?-map-some (λ (share : Share). share.y) (take k chosen) i y y_at in
    let same : other ≡ share = some-inj (sym there' ∙ there) in
    let (j, at_j) = among i share (get_elem?-take-some k chosen i share there) in
    ap (residue p) (sym y_is ∙ ap (λ (t : Share). t.y) same)
    ∙ evaluate_polynomial_lem lib p p_pos c share.x share.y r (
        ap (λ t. evaluate_polynomial lib (record { coeffs = c ∷ r; modulus = t }) share.x) (sym e)
        ∙ on_poly j share at_j)
    ∙ ap (λ t. residue p (eval (c ∷ r) t)) x_is
  where
    some-inj : {a b : Share} → some a ≡ some b → a ≡ b
    some-inj h = ground arith

module _ {S : Type 0} (random_lt_n : ℤ → S → ℤ × S) (lib : Tommath) where
  -- `RecoverSecret` gives the secret modulo the prime back, from any list of shares that
  -- `CreateShare` made with a polynomial over the prime, if the list is as long as the threshold
  -- and its first shares, as many as the threshold, have different points modulo the prime.
  pub recover_secret_lem :
      (p : ℕ) (vss : VerifiableSecretSharing) (secret : ℤ) (poly : Polynomial) (s : S)
      (shares chosen : List Share) (created : Polynomial) (last : S)
      → IsPrime p
      → vss.prime ≡ pos p
      → poly.modulus ≡ pos p
      → 0 < vss.threshold
      → create_share random_lt_n lib vss secret poly s ≡ ok (shares, created, last)
      → Among chosen shares
      → vss.threshold ≤ length chosen
      → Different p (xs_of (take vss.threshold chosen))
      → recover_secret lib vss chosen ≡ ok (pos (residue p secret))
  unfolding recover_secret interpolate_at_zero
  recover_secret_lem p vss secret poly s shares chosen created last prime same_prime same_modulus
        positive made among enough differ =
      let p_pos : 0 < p = omega (arith, prime.0) in
      let (shares', r, last', made', count, degree, on_poly) =
        create_share_lem random_lt_n lib vss secret poly s positive in
      let same_shares : shares' ≡ shares = ap shares_of (sym made' ∙ made) in
      let used = take vss.threshold chosen in
      let used_length : length used ≡ vss.threshold =
        omega (arith, length-take vss.threshold chosen) in
      let xs = map (λ (share : Share). share.x) used in
      let ys = map (λ (share : Share). share.y) used in
      let guard : leb vss.threshold (length chosen) ≡ true = ground (arith, enough) in
      rw (guard, same_prime)
        (lagrange_interpolation_lem lib p p_pos (secret ∷ r) xs ys (pos 0)
            (omega (arith, degree, used_length, length-map (λ (share : Share). share.x) used))
            (length-map _ used ∙ sym (length-map _ used)) (Different-Distinct p xs prime differ)
            (used_values lib p p_pos vss.threshold secret r poly.modulus same_modulus shares chosen
              (subst (λ t. OnPoly lib (secret ∷ r) poly.modulus t) same_shares on_poly) among)
          ∙ ap (λ t. ok (pos (residue p t))) (at_zero secret r))
    where
      shares_of : Result (List Share × Polynomial × S) → List Share
      shares_of (ok (l, q, t)) = l
      shares_of (err e) = []
