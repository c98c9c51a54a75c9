-- ===== src/Tests/Vss.antt =====
-- Secret sharing (yacl/vss) modulo 5, with three shares and threshold 2.
use yacl_r.Base.{
  ℕ, zero, suc, ◌+◌, ◌%◌, ◌≡◌, ◌≢◌, refl, sym, ap, ap₂, ◌∙◌, Bool, true, List, [], ◌∷◌, some, ok,
  arith, length, get_elem?, ◌==◌,
}
use yacl_r.Base.Int.{ℤ, pos, ◌+ℤ◌, ◌*ℤ◌}
use yacl_r.Base.Residue.{residue, sum_residue, product_residue}
use yacl_r.Snark.Mp.{exact}
use yacl_r.Snark.Poly.Values.{eval}
use yacl_r.Tests.Snark.{five-IsPrime}
use yacl_r.Vss.{
  Polynomial, random_coefficients, create_polynomial, horner, evaluate_polynomial,
  lagrange_interpolation,
}
use yacl_r.Vss.Degree.{Distinct}
use yacl_r.Vss.Shares.{VerifiableSecretSharing, Share, share_loop, create_share, recover_secret}
use yacl_r.Vss.Shares.Create.{create_share-OnPoly}
use yacl_r.Vss.Shares.Recover.{Different, Different-Distinct, Among, recover_secret_lem}
use yacl_r.Vss.Commits.{
  EcGroup, create_commits, verify_commits, verify_commits_lem, create_share_with_commits,
  create_share_with_commits_lem,
}
use yacl_r.Vss.Lagrange.{lagrange_interpolation_lem}

-- A source that counts up.
abbrev counter : ℤ → ℕ → ℤ × ℕ
counter bound s = (pos (s % 5), s + 1)

abbrev two_of_three : VerifiableSecretSharing
two_of_three = record { total = 3; threshold = 2; prime = pos 5 }

abbrev empty : Polynomial
empty = record { coeffs = []; modulus = pos 5 }

-- The secret 3 on the polynomial 3 + x.
abbrev share_2 : Share
share_2 = record { x = pos 2; y = pos 0 }

abbrev share_3 : Share
share_3 = record { x = pos 3; y = pos 1 }

abbrev share_4 : Share
share_4 = record { x = pos 4; y = pos 2 }

made :
    create_share counter exact two_of_three (pos 3) empty 1
    ≡ ok (
      share_2 ∷ share_3 ∷ share_4 ∷ [],
      record { coeffs = pos 3 ∷ pos 1 ∷ []; modulus = pos 5 },
      5,
    )
unfolding create_share create_polynomial random_coefficients share_loop evaluate_polynomial horner
    residue ◌+ℤ◌ ◌*ℤ◌
made = refl

moved :
    (a b v w : ℤ)
    → some a ≡ some v
    → some b ≡ some w
    → residue 5 b ≢ residue 5 a
    → residue 5 w ≢ residue 5 v
moved a b v w ha hb ne e =
    ne (ap (residue 5) (some-inj hb) ∙ e ∙ ap (residue 5) (sym (some-inj ha)))
  where
    some-inj : {a b : ℤ} → some a ≡ some b → a ≡ b
    some-inj h = ground arith

different : Different 5 (pos 4 ∷ pos 2 ∷ [])
unfolding residue
different zero zero v w ne at_i at_j = absurd (ne refl)
different zero (suc zero) v w ne at_i at_j =
    moved (pos 4) (pos 2) v w at_i at_j (λ e. omega (arith, e))
different zero (suc (suc j)) v w ne at_i at_j = absurd (ground arith)
different (suc zero) zero v w ne at_i at_j =
    moved (pos 2) (pos 4) v w at_i at_j (λ e. omega (arith, e))
different (suc zero) (suc zero) v w ne at_i at_j = absurd (ne refl)
different (suc zero) (suc (suc j)) v w ne at_i at_j = absurd (ground arith)
different (suc (suc i)) j v w ne at_i at_j = absurd (ground arith)

among : Among (share_4 ∷ share_2 ∷ []) (share_2 ∷ share_3 ∷ share_4 ∷ [])
among zero share h = (2, h)
among (suc zero) share h = (0, h)
among (suc (suc i)) share h = absurd (ground arith)

recover_secret_lem_example :
    recover_secret exact two_of_three (share_4 ∷ share_2 ∷ []) ≡ ok (pos (residue 5 (pos 3)))
recover_secret_lem_example =
    recover_secret_lem counter exact 5 two_of_three (pos 3) empty 1
      (share_2 ∷ share_3 ∷ share_4 ∷ []) (share_4 ∷ share_2 ∷ [])
      (record { coeffs = pos 3 ∷ pos 1 ∷ []; modulus = pos 5 }) 5 five-IsPrime refl refl
      (omega arith) made among (omega arith) different

create_share-OnPoly_example :
    (shares : List Share) × (r : List ℤ) × (last : ℕ) × (share : Share) × (create_share counter
        exact two_of_three
        (pos 3)
        empty
        1
      ≡ ok (shares, record { coeffs = pos 3 ∷ r; modulus = pos 5 }, last))
    × (length shares ≡ 3)
    × (length (pos 3 ∷ r) ≡ 2)
    × (get_elem? shares 2 ≡ some share)
    × (evaluate_polynomial exact (record { coeffs = pos 3 ∷ r; modulus = pos 5 }) share.x
        ≡ ok share.y)
create_share-OnPoly_example =
    create_share-OnPoly counter exact two_of_three (pos 3) empty 1 2 (omega arith) (omega arith)

-- The group of the numbers modulo 5.
abbrev Multiple : ℤ → ℤ → Type 0
Multiple p k = residue 5 p ≡ residue 5 k

abbrev same_point : ℤ → ℤ → Bool
same_point p q = residue 5 p == residue 5 q

same_point_lem :
    (p q j k : ℤ) → Multiple p j → Multiple q k → same_point p q ≡ (residue 5 j == residue 5 k)
same_point_lem p q j k hp hq = ap₂ (λ s t. s == t) hp hq

abbrev numbers : EcGroup ℤ Multiple
numbers = record {
  order = 5;
  mul_base = λ k. k;
  mul = λ p c. p *ℤ c;
  add = λ p q. p +ℤ q;
  point_equal = same_point;
  mul_base_lem = λ k. refl;
  mul_lem = λ p k c h. product_residue 5 p c k c (omega arith) h refl;
  add_lem = λ p q j k hp hq. sum_residue 5 p q j k (omega arith) hp hq;
  point_equal_lem = same_point_lem;
}

verify_commits_lem_example :
    verify_commits numbers exact share_3 (create_commits numbers (pos 3 ∷ pos 1 ∷ [])) (pos 5)
    ≡ ok (residue 5 (pos 1) == residue 5 (eval (pos 3 ∷ pos 1 ∷ []) (pos 3)))
verify_commits_lem_example =
    verify_commits_lem numbers exact (omega arith) share_3 (pos 3) (pos 1 ∷ [])

create_share_with_commits_lem_example :
    (shares : List Share) × (commits : List ℤ) × (created : Polynomial) × (last : ℕ)
    × (share : Share) × (create_share_with_commits numbers exact counter two_of_three
          (pos 3)
          empty
          1
        ≡ ok (shares, commits, created, last))
    × (length shares ≡ 3)
    × (get_elem? shares 1 ≡ some share)
    × (verify_commits numbers exact share commits (pos 5) ≡ ok true)
create_share_with_commits_lem_example =
    create_share_with_commits_lem numbers exact (omega arith) counter two_of_three (pos 3) empty 1 1
      (omega arith) (omega arith) refl

points-Distinct : Distinct 5 (pos 4 ∷ pos 2 ∷ [])
points-Distinct = Different-Distinct 5 (pos 4 ∷ pos 2 ∷ []) five-IsPrime different

abbrev line : List ℤ
line = pos 3 ∷ pos 1 ∷ []

on_line :
    (a b x y : ℤ)
    → some a ≡ some x
    → some b ≡ some y
    → residue 5 b ≡ residue 5 (eval line a)
    → residue 5 y ≡ residue 5 (eval line x)
on_line a b x y ha hb e =
    ap (residue 5) (sym (some-inj hb)) ∙ e ∙ ap (λ t. residue 5 (eval line t)) (some-inj ha)
  where
    some-inj : {a b : ℤ} → some a ≡ some b → a ≡ b
    some-inj h = ground arith

values :
    (i : ℕ) (x y : ℤ)
    → get_elem? (pos 4 ∷ pos 2 ∷ []) i ≡ some x
    → get_elem? (pos 2 ∷ pos 0 ∷ []) i ≡ some y
    → residue 5 y ≡ residue 5 (eval line x)
unfolding residue ◌+ℤ◌ ◌*ℤ◌
values zero x y hx hy = on_line (pos 4) (pos 2) x y hx hy refl
values (suc zero) x y hx hy = on_line (pos 2) (pos 0) x y hx hy refl
values (suc (suc i)) x y hx hy = absurd (ground arith)

lagrange_interpolation_lem_example :
    lagrange_interpolation exact (pos 4 ∷ pos 2 ∷ []) (pos 2 ∷ pos 0 ∷ []) (pos 1) (pos 5)
    ≡ ok (pos (residue 5 (eval line (pos 1))))
lagrange_interpolation_lem_example =
    lagrange_interpolation_lem exact 5 (omega arith) line (pos 4 ∷ pos 2 ∷ []) (pos 2 ∷ pos 0 ∷ [])
      (pos 1) (omega arith) refl points-Distinct values
