-- ===== src/Vss/Shares.antt =====
-- `VerifiableSecretSharing` (yacl/vss/vss.h, vss.cc): the shares of a secret, and the secret from
-- shares.
pub mod Create
pub mod Recover
use yacl_r.Base.{
  ℕ, zero, suc, List, [], ◌∷◌, ◌++◌, Result, ok, err, enforce, or_throw, fault, ◌>>=◌, ◌>>◌, length,
  take, map, leb,
}
use yacl_r.Base.Int.{ℤ}
use yacl_r.Snark.Mp.{Tommath}
use yacl_r.Vss.{Polynomial, create_polynomial, evaluate_polynomial, interpolate_at_zero}

pub record VerifiableSecretSharing : Type 0 where
  pub total : ℕ
  pub threshold : ℕ
  pub prime : ℤ

-- The constructor.
pub new : ℕ → ℕ → ℤ → Result VerifiableSecretSharing
new total threshold prime = do
  enforce (leb threshold total)
  ok (record { total = total; threshold = threshold; prime = prime })

pub record Share : Type 0 where
  pub x : ℤ
  pub y : ℤ

module _ {S : Type 0} (random_lt_n : ℤ → S → ℤ × S) (lib : Tommath) where
  -- The loop over `i`: the shares at `n` random points.
  unfoldable pub share_loop : Polynomial → ℤ → ℕ → S → Result (List Share × S)
  share_loop poly prime zero s = ok ([], s)
  share_loop poly prime (suc n) s =
      let (x, next) = random_lt_n prime s in
      elim (evaluate_polynomial lib poly x) [
        | err e ↦ err e
        | ok y ↦ elim (share_loop poly prime n next) [
          | err e ↦ err e
          | ok (rest, last) ↦ ok (record { x = x; y = y } ∷ rest, last)
        ]
      ]

  -- `poly` is a reference, so that the new polynomial is a result too.
  unfoldable pub create_share :
      VerifiableSecretSharing → ℤ → Polynomial → S → Result (List Share × Polynomial × S)
  unfolding share_loop
  create_share vss secret poly s = do
    (created, next) ← create_polynomial random_lt_n poly secret vss.threshold s
    (shares, last) ← share_loop created vss.prime vss.total next
    ok (shares, created, last)

module _ (lib : Tommath) where
  -- The loop that reads `n` shares; `none` of them is a read past the end.
  pub recover_secret : VerifiableSecretSharing → List Share → Result ℤ
  recover_secret vss shares = do
    enforce (leb vss.threshold (length shares))
    let used = take vss.threshold shares
    interpolate_at_zero lib (record { coeffs = []; modulus = vss.prime })
        (map (λ share. share.x) used) (map (λ share. share.y) used)
