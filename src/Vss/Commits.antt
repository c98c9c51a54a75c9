-- ===== src/Vss/Commits.antt =====
-- The commitments of the verifiable scheme (`CreateCommits`, `VerifyCommits` and
-- `CreateShareWithCommits` of yacl/vss/vss.cc). The elliptic curve group is a parameter, with what
-- the comments of yacl/math/ecc/ecc_spi.h say of its functions.
use yacl_r.Base.{
  ℕ, zero, suc, ◌<◌, ◌≡◌, refl, sym, ap, subst, ◌∙◌, Bool, true, List, [], ◌∷◌, some, Result, ok,
  err, fault, ◌>>=◌, arith, length, get_elem?, get_elem?-some, ◌==◌,
}
use yacl_r.Base.Int.{
  ℤ, pos, ◌+ℤ◌, ◌*ℤ◌, zero-*ℤ, *ℤ-+ℤ, *ℤ_assoc, *ℤ_comm, one-*ℤ, eq_of_parts, sums,
}
use yacl_r.Base.Residue.{residue, sum_residue, product_residue}
use yacl_r.Snark.Mp.{Tommath}
use yacl_r.Snark.Poly.Values.{eval, residue-mul_mod}
use yacl_r.Vss.{Polynomial, random_coefficients, create_polynomial}
use yacl_r.Vss.Shares.{VerifiableSecretSharing, Share, share_loop}
use yacl_r.Vss.Shares.Create.{OnPoly, evaluate_polynomial_lem, share_loop-Shared}

-- `Multiple p k`: the point `p` is `k` times the generator, whose order is `order`.
pub record EcGroup (Point : Type 0) (Multiple : Point → ℤ → Type 0) : Type 0 where
  pub order : ℕ
  pub mul_base : ℤ → Point
  pub mul : Point → ℤ → Point
  pub add : Point → Point → Point
  pub point_equal : Point → Point → Bool
  pub mul_base_lem : (k : ℤ) → Multiple (mul_base k) k
  pub mul_lem : (p : Point) (k c : ℤ) → Multiple p k → Multiple (mul p c) (k *ℤ c)
  pub add_lem : (p q : Point) (j k : ℤ) → Multiple p j → Multiple q k → Multiple (add p q) (j +ℤ k)
  pub point_equal_lem :
      (p q : Point) (j k : ℤ)
      → Multiple p j
      → Multiple q k
      → point_equal p q ≡ (residue order j == residue order k)

nothing : (k w : ℤ) → k ≡ k +ℤ w *ℤ pos 0
nothing k w = sym (ap (λ t. k +ℤ t) (*ℤ_comm w (pos 0) ∙ zero-*ℤ w) ∙ eq_of_parts _ _ (omega sums))

loop_ring : (k c w x e : ℤ) → (k +ℤ c *ℤ w) +ℤ w *ℤ x *ℤ e ≡ k +ℤ w *ℤ (c +ℤ e *ℤ x)
loop_ring k c w x e =
    rw (*ℤ-+ℤ w c (e *ℤ x), *ℤ_assoc w x e, *ℤ_comm x e, *ℤ_comm c w) (eq_of_parts _ _ (omega sums))

first_ring : (c x e : ℤ) → c +ℤ pos 1 *ℤ x *ℤ e ≡ c +ℤ e *ℤ x
first_ring c x e = ap (λ t. c +ℤ t *ℤ e) (one-*ℤ x) ∙ ap (λ t. c +ℤ t) (*ℤ_comm x e)

module _ {Point : Type 0} {Multiple : Point → ℤ → Type 0} (group : EcGroup Point Multiple) where
  pub create_commits : List ℤ → List Point
  create_commits [] = []
  create_commits (c ∷ r) = group.mul_base c ∷ create_commits r

  module _ (lib : Tommath) where
    -- The loop over `i`, on the commitments that are left.
    pub verify_loop : ℤ → ℤ → ℤ → Point → List Point → Point
    verify_loop x prime x_pow_i gy [] = gy
    verify_loop x prime x_pow_i gy (commit ∷ r) =
        let next = lib.mul_mod x_pow_i x prime in
        verify_loop x prime next (group.add gy (group.mul commit next)) r

    pub verify_commits : Share → List Point → ℤ → Result Bool
    unfolding verify_loop
    verify_commits share [] prime = err fault
    verify_commits share (commit ∷ r) prime =
        ok (group.point_equal (group.mul_base share.y) (verify_loop share.x prime (pos 1) commit r))

    pub create_share_with_commits :
        {S : Type 0}
        → (ℤ → S → ℤ × S)
        → VerifiableSecretSharing
        → ℤ
        → Polynomial
        → S
        → Result (List Share × List Point × Polynomial × S)
    unfolding create_commits
    create_share_with_commits random_lt_n vss secret poly s = do
      (created, next) ← create_polynomial random_lt_n poly secret vss.threshold s
      (shares, last) ← share_loop random_lt_n lib created vss.prime vss.total next
      ok (shares, create_commits created.coeffs, created, last)

    module _ (order_pos : 0 < group.order) where
      verify_loop_lem :
          (x x_pow_i k : ℤ) (gy : Point) (r : List ℤ)
          → Multiple gy k
          → (sum : ℤ) × Multiple (verify_loop x (pos group.order) x_pow_i gy (create_commits r)) sum
            × (residue group.order sum ≡ residue group.order (k +ℤ x_pow_i *ℤ x *ℤ eval r x))
      unfolding verify_loop create_commits
      verify_loop_lem x x_pow_i k gy [] h =
          (k, h, ap (residue group.order) (nothing k (x_pow_i *ℤ x)))
      verify_loop_lem x x_pow_i k gy (c ∷ r) h =
          let n = group.order in
          let w = x_pow_i *ℤ x in
          let next = lib.mul_mod x_pow_i x (pos n) in
          let reduced : residue n next ≡ residue n w =
            residue-mul_mod lib n order_pos x x_pow_i x in
          let (sum, multiple, value) =
            verify_loop_lem x next (k +ℤ c *ℤ next) _ r
              (group.add_lem _ _ k (c *ℤ next) h (group.mul_lem _ c next (group.mul_base_lem c))) in
          (
            sum,
            multiple,
            value
                ∙ sum_residue n (k +ℤ c *ℤ next) _ (k +ℤ c *ℤ w) (w *ℤ x *ℤ eval r x) order_pos
                    (sum_residue n k _ k (c *ℤ w) order_pos refl
                      (product_residue n c next c w order_pos refl reduced))
                    (product_residue n _ (eval r x) (w *ℤ x) (eval r x) order_pos
                      (product_residue n next x w x order_pos reduced refl) refl)
                ∙ ap (residue n) (loop_ring k c w x (eval r x)),
          )

      -- `VerifyCommits` with the commitments of a polynomial's coefficients accepts a share exactly
      -- if its y is the value of the polynomial at its x, modulo the order of the group.
      pub verify_commits_lem :
          (share : Share) (c : ℤ) (r : List ℤ)
          → verify_commits share (create_commits (c ∷ r)) (pos group.order)
            ≡ ok (residue group.order share.y == residue group.order (eval (c ∷ r) share.x))
      unfolding verify_commits create_commits
      verify_commits_lem share c r =
          let n = group.order in
          let (sum, multiple, value) =
            verify_loop_lem share.x (pos 1) c (group.mul_base c) r (group.mul_base_lem c) in
          ap ok (
            group.point_equal_lem _ _ share.y sum (group.mul_base_lem share.y) multiple
            ∙ ap (λ t. residue n share.y == t)
                (value ∙ ap (residue n) (first_ring c share.x (eval r share.x))))

      -- `CreateShareWithCommits` with a positive threshold and a polynomial over the order of the
      -- group returns as many shares as the total, and each of them is accepted by `VerifyCommits`
      -- with the commitments that it returns.
      pub create_share_with_commits_lem :
          {S : Type 0} (random_lt_n : ℤ → S → ℤ × S) (vss : VerifiableSecretSharing) (secret : ℤ)
          (poly : Polynomial) (s : S) (j : ℕ)
          → 0 < vss.threshold
          → j < vss.total
          → poly.modulus ≡ pos group.order
          → (shares : List Share) × (commits : List Point) × (created : Polynomial) × (last : S)
            × (share : Share) × (create_share_with_commits random_lt_n vss secret poly s
                ≡ ok (shares, commits, created, last))
            × (length shares ≡ vss.total)
            × (get_elem? shares j ≡ some share)
            × (verify_commits share commits (pos group.order) ≡ ok true)
      unfolding create_share_with_commits create_polynomial
      create_share_with_commits_lem {S} random_lt_n vss secret poly s j positive below same =
          by_threshold vss.threshold positive
        where
          same_number : (a b : ℕ) → a ≡ b → (a == b) ≡ true
          same_number a b e = ground arith

          by_threshold :
              (n : ℕ)
              → 0 < n
              → (shares : List Share) × (commits : List Point) × (created : Polynomial) × (last : S)
                × (share : Share) × (create_share_with_commits random_lt_n
                      (record { total = vss.total; threshold = n; prime = vss.prime })
                      secret
                      poly
                      s
                    ≡ ok (shares, commits, created, last))
                × (length shares ≡ vss.total)
                × (get_elem? shares j ≡ some share)
                × (verify_commits share commits (pos group.order) ≡ ok true)
          by_threshold zero h = absurd (omega arith)
          by_threshold (suc n) h =
              let (r, next) = random_coefficients random_lt_n poly.modulus n s in
              let made =
                share_loop-Shared random_lt_n lib secret r poly.modulus vss.prime vss.total next in
              let (share, at_j) = get_elem?-some made.shares j (omega (arith, below, made.count)) in
              let value =
                evaluate_polynomial_lem lib group.order order_pos secret share.x share.y r (
                  subst (λ t. OnPoly lib (secret ∷ r) t made.shares) same made.on_poly j share
                    at_j) in
              (
                made.shares,
                create_commits (secret ∷ r),
                record { coeffs = secret ∷ r; modulus = poly.modulus },
                made.last,
                share,
                rw (made.gives, create_share_with_commits) refl,
                made.count,
                at_j,
                verify_commits_lem share secret r ∙ ap ok (same_number _ _ value),
              )
