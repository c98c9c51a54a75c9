-- ===== src/Snark/Mp.antt =====
-- `MPInt` (yacl/math/mpint/mp_int.h), an integer of any size. Its modular functions call libtommath,
-- which is a parameter here, with what its documentation says of them for a positive modulus.
use yacl_r.Base.{
  ℕ, zero, suc, ◌<◌, ◌≡◌, refl, ap, ◌∙◌, false, Option, none, some, arith, ◌==◌, if◌then◌else◌,
  Bool-cases, inl, inr, subst,
}
use yacl_r.Base.Int.{ℤ, pos, neg_ℤ, ◌+ℤ◌, ◌*ℤ◌, pos_part}
use yacl_r.Base.Residue.{residue, residue-lt, residue-residue, product_residue}

-- `invert_mod` gives `none` where libtommath reports that there is no inverse.
pub record Tommath : Type 0 where
  pub mod_ℤ : ℤ → ℤ → ℤ
  pub add_mod : ℤ → ℤ → ℤ → ℤ
  pub sub_mod : ℤ → ℤ → ℤ → ℤ
  pub mul_mod : ℤ → ℤ → ℤ → ℤ
  pub invert_mod : ℤ → ℤ → Option ℤ
  pub mod_ℤ_lem : (m : ℕ) (x : ℤ) → 0 < m → mod_ℤ x (pos m) ≡ pos (residue m x)
  pub add_mod_lem : (m : ℕ) (x y : ℤ) → 0 < m → add_mod x y (pos m) ≡ pos (residue m (x +ℤ y))
  pub sub_mod_lem : (m : ℕ) (x y : ℤ) → 0 < m → sub_mod x y (pos m) ≡ pos (residue m (x +ℤ neg_ℤ y))
  pub mul_mod_lem : (m : ℕ) (x y : ℤ) → 0 < m → mul_mod x y (pos m) ≡ pos (residue m (x *ℤ y))
  pub invert_mod-inverse :
      (m : ℕ) (x y : ℤ)
      → 0 < m
      → invert_mod x (pos m) ≡ some y
      → residue m (x *ℤ y) ≡ residue m (pos 1)
  pub invert_mod-some :
      (m : ℕ) (x y : ℤ)
      → 0 < m
      → residue m (x *ℤ y) ≡ residue m (pos 1)
      → (z : ℤ) × (invert_mod x (pos m) ≡ some z)

-- The inverse of `x` modulo `m` among the numbers below `n`.
pub inverse_below : ℕ → ℤ → ℕ → Option ℤ
inverse_below m x zero = none
inverse_below m x (suc n) =
    if residue m (x *ℤ pos n) == residue m (pos 1) then some (pos n) else inverse_below m x n

pub inverse_below-inverse :
    (m : ℕ) (x y : ℤ) (n : ℕ)
    → inverse_below m x n ≡ some y
    → residue m (x *ℤ y) ≡ residue m (pos 1)
unfolding inverse_below
inverse_below-inverse m x y zero h = absurd (ground arith)
inverse_below-inverse m x y (suc n) h =
    elim (Bool-cases (residue m (x *ℤ pos n) == residue m (pos 1))) [
      | inl e ↦
          let here : pos n ≡ y =
            some-inj
              (subst (λ t. (if t then some (pos n) else inverse_below m x n) ≡ some y) e h) in
          subst (λ t. residue m (x *ℤ t) ≡ residue m (pos 1)) here (ground (arith, e))
      | inr e ↦
          inverse_below-inverse m x y n
            (subst (λ t. (if t then some (pos n) else inverse_below m x n) ≡ some y) e h)
    ]
  where
    some-inj : {a b : ℤ} → some a ≡ some b → a ≡ b
    some-inj h = ground arith

pub inverse_below-some :
    (m : ℕ) (x : ℤ) (k n : ℕ)
    → k < n
    → residue m (x *ℤ pos k) ≡ residue m (pos 1)
    → (z : ℤ) × (inverse_below m x n ≡ some z)
unfolding inverse_below
inverse_below-some m x k zero below h = absurd (omega arith)
inverse_below-some m x k (suc n) below h =
    elim (Bool-cases (residue m (x *ℤ pos n) == residue m (pos 1))) [
      | inl e ↦ (pos n, rw e refl)
      | inr e ↦
          let other : k < n = smaller k n below h e in
          let (z, there) = inverse_below-some m x k n other h in (z, rw (e, inverse_below) there)
    ]
  where
    smaller :
        (k n : ℕ)
        → k < suc n
        → residue m (x *ℤ pos k) ≡ residue m (pos 1)
        → (residue m (x *ℤ pos n) == residue m (pos 1)) ≡ false
        → k < n
    smaller k n below h e = ground (arith, ap (λ t. residue m (x *ℤ pos t)))

-- Functions that are as documented.
abbrev pub exact : Tommath
exact = record {
  mod_ℤ = λ x m. pos (residue (pos_part m) x);
  add_mod = λ x y m. pos (residue (pos_part m) (x +ℤ y));
  sub_mod = λ x y m. pos (residue (pos_part m) (x +ℤ neg_ℤ y));
  mul_mod = λ x y m. pos (residue (pos_part m) (x *ℤ y));
  invert_mod = λ x m. inverse_below (pos_part m) x (pos_part m);
  mod_ℤ_lem = λ m x h. refl;
  add_mod_lem = λ m x y h. refl;
  sub_mod_lem = λ m x y h. refl;
  mul_mod_lem = λ m x y h. refl;
  invert_mod-inverse = λ m x y h. inverse_below-inverse m x y m;
  invert_mod-some = λ m x y h e.
      inverse_below-some m x (residue m y) m (residue-lt m y h)
        (product_residue m x (pos (residue m y)) x y h refl (residue-residue m y h) ∙ e);
}
