-- ===== src/Strings/Case.antt =====
-- Letter case (yacl/utils/strings.h, strings.cc).
use yacl_r.Base.{ℕ, ◌≡◌, refl, ap₂, [], ◌∷◌, arith, Bytes}
use yacl_r.Strings.{ascii_to_lower, ascii_to_upper, ascii_str_to_lower, ascii_str_to_upper}

lower-upper : (c : ℕ) → ascii_to_lower (ascii_to_upper c) ≡ ascii_to_lower c
unfolding ascii_to_lower ascii_to_upper
lower-upper c = ground arith

upper-lower : (c : ℕ) → ascii_to_upper (ascii_to_lower c) ≡ ascii_to_upper c
unfolding ascii_to_lower ascii_to_upper
upper-lower c = ground arith

-- A change of case undoes every change of case before it.
pub case_absorbs :
    (s : Bytes)
    → (ascii_str_to_lower (ascii_str_to_upper s) ≡ ascii_str_to_lower s)
      × (ascii_str_to_upper (ascii_str_to_lower s) ≡ ascii_str_to_upper s)
unfolding ascii_str_to_lower ascii_str_to_upper
case_absorbs [] = (refl, refl)
case_absorbs (c ∷ r) =
    let rest = case_absorbs r in
    (ap₂ (λ x y. x ∷ y) (lower-upper c) rest.0, ap₂ (λ x y. x ∷ y) (upper-lower c) rest.1)
